-- ===== src/Release/Sound.antt =====
-- release.py, `release`: which builds are released.
use cs_image_system.Base.{
  String, ◌≡◌, refl, subst, ◌↔◌, inl, inr, true, false, ◌&&◌, none, some, List, [], ◌∷◌, or_else,
  arith, is_some, ◌==◌, Bool-cases, Option-cases, All,
}
use cs_image_system.Base.Dict.{get}
use cs_image_system.Meta.{Mod, Build}
use cs_image_system.Meta.Lineage.{build}
use cs_image_system.Release.{ModResult, TestResult, ReleaseCtx}
use cs_image_system.Release.Gate.{
  is_failed, mod_error, mods_error, has_post_bake_tests, post_bake_error, build_error,
  release_error,
}

-- The result of the modification, where there is one, is a pass that is not known to change a second
-- time; where results are required there is one.
abbrev pub IsPassing : ReleaseCtx → Mod → Type 0
IsPassing ctx m =
    (ctx.require_mod_tests ≡ true → is_some (get ctx.mod_results m.content_hash) ≡ true)
    × ((r : ModResult)
        → get ctx.mod_results m.content_hash ≡ some r
        → (r.status == "pass" ≡ true) × (or_else r.idempotent true ≡ true))

-- The image declares post-bake tests, they are required, and so the build has passed them.
abbrev pub IsTested : ReleaseCtx → String → String → Type 0
IsTested ctx image build_id =
    has_post_bake_tests ctx image ≡ true
    → ctx.require_image_tests ≡ true
    → (r : TestResult) × (get ctx.image_tests build_id ≡ some r) × (r.ok ≡ true)

abbrev pub IsReleasable : ReleaseCtx → String → String → Type 0
IsReleasable ctx image build_id =
    (b : Build) × (build ctx.builds build_id ≡ some b)
    × (b.series == image ≡ true)
    × (b.in_bake ≡ true)
    × All (IsPassing ctx) b.mods
    × IsTested ctx image build_id

is_failed-false_iff :
    (r : ModResult)
    → (is_failed r ≡ false) ↔ (r.status == "pass" ≡ true) × (or_else r.idempotent true ≡ true)
unfolding is_failed
is_failed-false_iff r = elim (Option-cases r.idempotent) [
  | inl unsaid ↦ rw (unsaid, is_failed) (λ h. (ground (arith, h), refl), λ h. ground (arith, h.0))
  | inr (b, said) ↦
      rw (said, is_failed)
        (λ h. (ground (arith, h), ground (arith, h)), λ h. ground (arith, h.0, h.1))
]

mod_error-none_iff :
    (ctx : ReleaseCtx) (id : String) (m : Mod) → (mod_error ctx id m ≡ none) ↔ IsPassing ctx m
unfolding mod_error
mod_error-none_iff ctx id m = elim (Option-cases (get ctx.mod_results m.content_hash)) [
  | inl absent ↦
      rw (absent, mod_error)
        (λ h. (λ required. ground (arith, h, required), λ r found. cc), λ h. ground (arith, h.0))
  | inr (r, at) ↦
      rw (at, mod_error)
        (
          λ h. (
            λ required. refl,
            λ s found.
                let same : r ≡ s = cc found in
                subst
                  (λ (x : ModResult).
                    (x.status == "pass" ≡ true) × (or_else x.idempotent true ≡ true))
                  same ((is_failed-false_iff r).0 (ground (arith, h))),
          ),
          λ h. ground (arith, (is_failed-false_iff r).1 (h.1 r refl)),
        )
]

mods_error-none_iff :
    (ctx : ReleaseCtx) (id : String) (mods : List Mod)
    → (mods_error ctx id mods ≡ none) ↔ All (IsPassing ctx) mods
unfolding mods_error
mods_error-none_iff ctx id [] = (λ h. tt, λ h. refl)
mods_error-none_iff ctx id (m ∷ mods) =
    let (pass, fine) = mod_error-none_iff ctx id m in
    let (passes, all_fine) = mods_error-none_iff ctx id mods in
    elim (Option-cases (mod_error ctx id m)) [
      | inl good ↦ rw (good, mods_error) (λ h. (pass good, passes h), λ h. all_fine h.1)
      | inr (e, bad) ↦ rw (bad, mods_error) (λ h. cc, λ h. cc (bad, fine h.0))
    ]

post_bake_error-none_iff :
    (ctx : ReleaseCtx) (image id : String)
    → (post_bake_error ctx image id ≡ none) ↔ IsTested ctx image id
unfolding post_bake_error
post_bake_error-none_iff ctx image id =
    elim (Bool-cases (has_post_bake_tests ctx image && ctx.require_image_tests)) [
      | inl due ↦ elim (Option-cases (get ctx.image_tests id)) [
        | inl untested ↦
            rw (untested, post_bake_error)
              (
                λ h. ground (arith, h, due),
                λ h.
                    absurd (
                      let (r, found, passed) = h (ground (arith, due)) (ground (arith, due)) in cc),
              )
        | inr (r, at) ↦
            rw (at, post_bake_error)
              (
                λ h declared required. (r, refl, ground (arith, h, due)),
                λ h.
                    let (t, found, passed) = h (ground (arith, due)) (ground (arith, due)) in
                    let same : t ≡ r = cc found in
                    ground (arith, due, subst (λ (x : TestResult). x.ok ≡ true) same passed),
              )
      ]
      | inr free ↦ (
        λ h declared required. absurd (ground (arith, free, declared, required)),
        λ h. ground (arith, free),
      )
    ]

abbrev IsAccepted : ReleaseCtx → String → String → Build → Type 0
IsAccepted ctx image build_id b =
    (b.series == image ≡ true)
    × (b.in_bake ≡ true)
    × All (IsPassing ctx) b.mods
    × IsTested ctx image build_id

build_error-none_iff :
    (ctx : ReleaseCtx) (image build_id : String) (b : Build)
    → (build_error ctx image build_id b ≡ none) ↔ IsAccepted ctx image build_id b
unfolding build_error
build_error-none_iff ctx image build_id b =
    let (pass, fine) = mods_error-none_iff ctx build_id b.mods in
    let (tested, ready) = post_bake_error-none_iff ctx image build_id in
    elim (Bool-cases (b.series == image)) [
      | inr other ↦ rw other (λ h. cc, λ h. cc h.0)
      | inl same ↦ elim (Bool-cases b.in_bake) [
        | inr untested ↦ (λ h. cc (h, same, untested), λ h. cc (untested, h.1))
        | inl baked ↦ elim (Option-cases (mods_error ctx build_id b.mods)) [
          | inr (e, bad) ↦ (λ h. cc (h, same, baked, bad), λ h. cc (bad, fine h.2))
          | inl good ↦ (
            λ h. (same, baked, pass good, tested (ground (arith, h, same, baked, good))),
            λ h. ground (arith, same, baked, good, ready h.3),
          )
        ]
      ]
    ]

-- A build is released for an image exactly when it is recorded in the series of the image, was
-- tested in its bake, the result of each modification that it carries, where there is one, is a pass
-- that is not known to change a second time, there is one where results are required, and the build
-- has passed the image's post-bake tests where they are declared and required.
pub release_error-none_iff :
    (ctx : ReleaseCtx) (image build_id : String)
    → (release_error ctx image build_id ≡ none) ↔ IsReleasable ctx image build_id
unfolding release_error build_error
release_error-none_iff ctx image build_id = elim (Option-cases (build ctx.builds build_id)) [
  | inl unknown ↦ rw (unknown, release_error) (λ h. cc, λ h. cc h.1)
  | inr (b, at) ↦
      rw (at, release_error)
        (
          λ h.
              let (series, in_bake, mods, tested) =
                (build_error-none_iff ctx image build_id b).0 h in
              (b, refl, series, in_bake, mods, tested),
          λ h.
              let same : h.0 ≡ b = cc h.1 in
              (build_error-none_iff ctx image build_id b).1
                (subst (IsAccepted ctx image build_id) same (h.2, h.3, h.4, h.5)),
        )
]
