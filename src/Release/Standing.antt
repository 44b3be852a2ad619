-- ===== src/Release/Standing.antt =====
-- release.py, `validate_released_pins`: a pin on a released build is accepted.
use cs_image_system.Base.{
  String, ◌≡◌, refl, subst, inl, inr, true, false, none, some, [], ◌∷◌, mem, truthy, arith, ◌==◌,
  eq_iff, eq_refl, Bool-cases, Option-cases,
}
use cs_image_system.Base.Dict.{Dict, get, put, get-put}
use cs_image_system.Meta.Pinning.{instance_pin}
use cs_image_system.Release.{PinnedInstance, ReleaseCtx, Releases}
use cs_image_system.Release.Gate.{of_model, release_error, recorded, accepted, release}
use cs_image_system.Release.Pinned.{released_in, released_builds, pin_errors}

mem-released_in :
    (current : Dict (Dict String)) (m image b : String) (images : Dict String)
    → get current m ≡ some images
    → get images image ≡ some b
    → b == "" ≡ false
    → mem b (released_in current image none) ≡ true
unfolding get released_in
mem-released_in [] m image b images at found named = cc
mem-released_in ((k, table) ∷ current) m image b images at found named =
    elim (Bool-cases (k == m)) [
      | inl same ↦
          let here : table ≡ images = cc (rw same at at) in
          rw (here, found) (ground (arith, named, eq_iff b b))
      | inr other ↦
          let later = mem-released_in current m image b images (rw other at at) found named in
          elim (Bool-cases (truthy (get table image))) [
            | inl listed ↦ rw listed (ground (arith, later))
            | inr absent ↦ rw absent later
          ]
    ]

released-current :
    (ctx : ReleaseCtx) (rs rs' : Releases) (image build_id model note : String)
    → release ctx rs image build_id model note ≡ accepted rs'
    → recorded ctx rs image build_id model note ≡ rs'
unfolding release
released-current ctx rs rs' image build_id model note h =
    elim (Option-cases (release_error ctx image build_id)) [
      | inl fine ↦ cc (rw (fine, release) at h)
      | inr (e, bad) ↦ cc (rw (bad, release) at h)
    ]

mem-recorded :
    (ctx : ReleaseCtx) (rs : Releases) (image build_id model note : String)
    → build_id == "" ≡ false
    → mem build_id (released_builds (recorded ctx rs image build_id model note) image none) ≡ true
unfolding recorded released_builds
mem-recorded ctx rs image build_id model note named =
    let table = of_model rs.current model in
    mem-released_in (put rs.current model (put table image build_id)) model image build_id
      (put table image build_id) (rw (get-put, eq_refl) refl) (rw (get-put, eq_refl) refl) named

-- Once a build is released, for whatever model, the pin of an instance of that image on that build
-- is accepted.
pub pin_errors-release :
    (ctx : ReleaseCtx) (rs rs' : Releases) (image build_id model note : String)
    (inst : PinnedInstance)
    → release ctx rs image build_id model note ≡ accepted rs'
    → inst.image ≡ image
    → instance_pin ctx.pins inst.name ≡ some build_id
    → pin_errors ctx rs' inst ≡ []
unfolding pin_errors
pin_errors-release ctx rs rs' image build_id model note inst released same pinned =
    let now = released-current ctx rs rs' image build_id model note released in
    elim (Bool-cases (build_id == "")) [
      | inl blank ↦ rw (pinned, pin_errors) (rw blank refl)
      | inr named ↦
          let listed : mem build_id (released_builds rs' image none) ≡ true =
            subst (λ r. mem build_id (released_builds r image none) ≡ true) now
              (mem-recorded ctx rs image build_id model note named) in
          rw (pinned, pin_errors) (rw named (rw same (rw listed refl)))
    ]
