-- ===== src/Lineage/Renewed.antt =====
-- lineage.py: the inputs of an image are the same in the next run, when no image is pinned to the
-- build that was recorded.
use cs_image_system.Base.{
  ℕ, zero, suc, String, ◌≡◌, inl, inr, refl, false, Option, none, some, List, [], ◌∷◌, ◌++◌, All,
  In→All, length, arith, map, or_else, option_eq, ◌==◌, eq_iff, if◌then◌else◌, Option-cases,
}
use cs_image_system.Base.Dict.{get, In-get}
use cs_image_system.Base.Words.{◌+++◌}
use cs_image_system.Meta.{Build, Pins}
use cs_image_system.Meta.Lineage.{build, add_build}
use cs_image_system.Meta.Pinning.{image_pin, image_pin_key, legacy_pin}
use cs_image_system.Lineage.{Modification, mapping, with_files, BakeImage, RuntimeEntry, BakeCtx}
use cs_image_system.Lineage.Capabilities.{
  is_base_image, on_runtime, runtime_of, primary_runtime_of, chain_from, image_chain,
  declared_capabilities, pinned_capabilities, effective_capabilities, capability_stamp,
}
use cs_image_system.Lineage.Inputs.{
  text_of, mod_payload, mod_record, mod_records, verify_commands, entry_disk_size, bake_disk_size,
  runtime_source, base_inputs, payload,
}
use cs_image_system.Lineage.Parents.{
  source_of, find_image, base_image_runtimes, entry_runtimes, input_fingerprint,
}

-- No image is pinned to the build.
abbrev pub HasNoPinAt : Pins → String → Type 0
HasNoPinAt p id = All (λ (e : String × String). e.1 == id ≡ false) p.images

module _ (p : Pins) (builds : List Build) (b : Build) (free : HasNoPinAt p b.build_id) where
  pin-new : (key pin : String) → get p.images key ≡ some pin → pin == b.build_id ≡ false
  pin-new key pin at =
      In→All (λ (e : String × String). e.1 == b.build_id ≡ false) p.images (key, pin) free
        (In-get p.images key pin at)

  build-append :
      (bs : List Build) (pin : String)
      → pin == b.build_id ≡ false
      → build (bs ++ b ∷ []) pin ≡ build bs pin
  unfolding build
  build-append [] pin other = ground (arith, other, eq_iff b.build_id pin, eq_iff pin b.build_id)
  build-append (c ∷ bs) pin other = ground (arith, build-append bs pin other)

  build-add_build :
      (pin : String) → pin == b.build_id ≡ false → build (add_build builds b) pin ≡ build builds pin
  unfolding add_build
  build-add_build pin other = ground (arith, build-append builds pin other)

  legacy_pin-add_build :
      (image rt : String)
      → legacy_pin p (add_build builds b) image rt ≡ legacy_pin p builds image rt
  unfolding legacy_pin
  legacy_pin-add_build image rt = elim (Option-cases (get p.images image)) [
    | inl none_at ↦ ground (arith, none_at)
    | inr (pin, at) ↦ ground (arith, at, build-add_build pin (pin-new image pin at))
  ]

  image_pin-add_build :
      (image : String) (rt : Option String)
      → image_pin p (add_build builds b) image rt ≡ image_pin p builds image rt
  unfolding image_pin
  image_pin-add_build image rt = ground (arith, legacy_pin-add_build image (or_else rt ""))

  image_pin-new :
      (image pin : String) (rt : Option String)
      → image_pin p builds image rt ≡ some pin
      → pin == b.build_id ≡ false
  unfolding image_pin legacy_pin
  image_pin-new image pin rt at =
      ground (arith, at, pin-new (image_pin_key image rt) pin, pin-new image pin)

  pub pinned_capabilities-add_build :
      (rt : Option String) (chain : List String)
      → pinned_capabilities p (add_build builds b) rt chain ≡ pinned_capabilities p builds rt chain
  unfolding pinned_capabilities
  pinned_capabilities-add_build rt [] = refl
  pinned_capabilities-add_build rt (name ∷ chain) =
      let later = pinned_capabilities-add_build rt chain in
      elim (Option-cases (image_pin p builds name rt)) [
        | inl unbound ↦ ground (arith, later, unbound, image_pin-add_build name rt)
        | inr (pin, at) ↦ ground (
          arith,
          later,
          at,
          image_pin-add_build name rt,
          build-add_build pin (image_pin-new name pin rt at),
        )
      ]

-- A run of the same configuration with other records, which forces nothing and has decided nothing.
abbrev pub next_run : BakeCtx → List Build → Pins → String → (String → Option ℕ) → BakeCtx
next_run ctx builds pins run_id age_seconds = record ctx {
  builds = builds;
  pins = pins;
  run_id = run_id;
  age_seconds = age_seconds;
  force_bake = [];
  bake_decisions = [];
}

module _ (ctx : BakeCtx) (builds : List Build) (pins : Pins) (run_id : String)
    (age : String → Option ℕ)
    (same_stamps : (rt : Option String) (chain : List String)
      → pinned_capabilities pins builds rt chain
        ≡ pinned_capabilities ctx.pins ctx.builds rt chain) where
  abbrev then_ : BakeCtx
  then_ = next_run ctx builds pins run_id age

  entry_runtimes-next_run :
      (out : List String) (entries : List RuntimeEntry)
      → entry_runtimes then_ out entries ≡ entry_runtimes ctx out entries
  unfolding entry_runtimes
  entry_runtimes-next_run out [] = refl
  entry_runtimes-next_run out (entry ∷ entries) = ground (
    arith,
    entry_runtimes-next_run out entries,
    entry_runtimes-next_run (out ++ or_else (runtime_of ctx entry.image_builder) "" ∷ []) entries,
  )

  find_image-next_run :
      (src : String) (rt : Option String) → find_image then_ src rt ≡ find_image ctx src rt
  unfolding find_image base_image_runtimes
  find_image-next_run src rt = elim (Option-cases (get ctx.os_builders src)) [
    | inl other ↦ ground (arith, other)
    | inr (osb, has_osb) ↦ ground (arith, has_osb, entry_runtimes-next_run [] osb.runtimes)
  ]

  on_runtime-next_run :
      (image : BakeImage) (rt : Option String) → on_runtime then_ image rt ≡ on_runtime ctx image rt
  unfolding on_runtime primary_runtime_of
  on_runtime-next_run image rt = refl

  is_base_image-next_run : (image : BakeImage) → is_base_image then_ image ≡ is_base_image ctx image
  unfolding is_base_image
  is_base_image-next_run image = refl

  chain_from-next_run :
      (fuel : ℕ) (seen : List String) (name : Option String)
      → chain_from fuel then_ seen name ≡ chain_from fuel ctx seen name
  unfolding chain_from
  chain_from-next_run zero seen name = refl
  chain_from-next_run (suc fuel) seen none = refl
  chain_from-next_run (suc fuel) seen (some name) = elim (Option-cases (get ctx.images_map name)) [
    | inl unknown ↦ ground (arith, unknown)
    | inr (image, known) ↦ ground (
      arith,
      known,
      chain_from-next_run fuel (name ∷ seen)
          (if option_eq image.source_image (some "self") then none else image.source_image),
    )
  ]

  effective_capabilities-next_run :
      (image : BakeImage) (rt : Option String)
      → effective_capabilities then_ image rt ≡ effective_capabilities ctx image rt
  unfolding effective_capabilities image_chain declared_capabilities
  effective_capabilities-next_run image rt =
      let start = image.name in
      ground (
        arith,
        chain_from-next_run (suc (suc (length ctx.images_map))) [] (some start),
        same_stamps rt (image_chain ctx image.name).0,
      )

  capability_stamp-next_run :
      (image : BakeImage) (rt : Option String)
      → capability_stamp then_ image rt ≡ capability_stamp ctx image rt
  unfolding capability_stamp declared_capabilities is_base_image
  capability_stamp-next_run image rt = ground (
    arith,
    on_runtime-next_run image rt,
    effective_capabilities-next_run image (on_runtime ctx image rt),
  )

  mod_record-next_run : (m : Modification) → mod_record then_ m ≡ mod_record ctx m
  unfolding mod_record mod_payload text_of
  mod_record-next_run (mapping name type_ content) = refl
  mod_record-next_run (with_files name type_ files) = refl

  mods-next_run : (ms : List Modification) → map (mod_record then_) ms ≡ map (mod_record ctx) ms
  mods-next_run [] = refl
  mods-next_run (m ∷ ms) = ground (arith, mod_record-next_run m, mods-next_run ms)

  entry_disk_size-next_run :
      (rt : Option String) (entries : List RuntimeEntry)
      → entry_disk_size then_ rt entries ≡ entry_disk_size ctx rt entries
  unfolding entry_disk_size
  entry_disk_size-next_run rt [] = refl
  entry_disk_size-next_run rt (entry ∷ entries) =
      ground (arith, entry_disk_size-next_run rt entries)

  runtime_source-next_run :
      (rt : Option String) (entries : List RuntimeEntry)
      → runtime_source then_ rt entries ≡ runtime_source ctx rt entries
  unfolding runtime_source
  runtime_source-next_run rt [] = refl
  runtime_source-next_run rt (entry ∷ entries) = ground (arith, runtime_source-next_run rt entries)

  payload-next_run :
      (image : BakeImage) (rt : Option String) (parent : String)
      → payload then_ image rt parent ≡ payload ctx image rt parent
  unfolding payload mod_records verify_commands bake_disk_size base_inputs is_base_image
  payload-next_run image rt parent = elim (Option-cases (get ctx.os_builders image.name)) [
    | inl other ↦
        ground (arith, other, capability_stamp-next_run image rt, mods-next_run image.modifications)
    | inr (osb, has_osb) ↦ ground (
      arith,
      has_osb,
      capability_stamp-next_run image rt,
      entry_disk_size-next_run rt osb.runtimes,
      runtime_source-next_run rt osb.runtimes,
    )
  ]

  -- The fingerprint reads the records only through the stamps that the pins supply.
  pub input_fingerprint-next_run :
      (fuel : ℕ) (image : BakeImage) (rt : Option String)
      → input_fingerprint fuel then_ image rt ≡ input_fingerprint fuel ctx image rt
  unfolding input_fingerprint
  input_fingerprint-next_run zero image rt = refl
  input_fingerprint-next_run (suc fuel) image rt =
      let same_payload = payload-next_run image (on_runtime ctx image rt) in
      let same_runtime = on_runtime-next_run image rt in
      let same_kind = is_base_image-next_run image in
      elim (Option-cases (if is_base_image ctx image then none else source_of image)) [
        | inl alone ↦ ground (arith, same_runtime, same_kind, alone, same_payload "vendor")
        | inr (src, has_src) ↦
            let same_found = find_image-next_run src (on_runtime ctx image rt) in
            elim (Option-cases (find_image ctx src (on_runtime ctx image rt))) [
              | inl unknown ↦ ground (
                arith,
                same_runtime,
                same_kind,
                has_src,
                same_found,
                unknown,
                same_payload ("series:" +++ src),
              )
              | inr (parent, found) ↦ ground (
                arith,
                same_runtime,
                same_kind,
                has_src,
                same_found,
                found,
                input_fingerprint-next_run fuel parent (on_runtime ctx image rt),
                same_payload
                    (or_else (input_fingerprint fuel ctx parent (on_runtime ctx image rt)) ""),
              )
            ]
      ]
