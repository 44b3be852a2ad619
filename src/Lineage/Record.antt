-- ===== src/Lineage/Record.antt =====
-- lineage.py: the build that an image or an instance is bound to, and the record of a bake.
use cs_image_system.Base.{
  ℕ, String, Bool, true, false, not, ◌&&◌, ◌||◌, Option, none, some, List, [], ◌∷◌, any, map, mem,
  truthy, or_else, option_eq, ◌==◌, is_some, if◌then◌else◌,
}
use cs_image_system.Base.Dict.{has, keys}
use cs_image_system.Base.Words.{◌+++◌}
use cs_image_system.Meta.{Build, Pins, image_pin_kind, follow}
use cs_image_system.Meta.Lineage.{add_build}
use cs_image_system.Meta.Pinning.{
  image_pin, image_pin_key, instance_pin, bind_image, bind_instance, move_pin,
}
use cs_image_system.Lifecycles.Builtin.{Lifecycle, base_image, instance_image}
use cs_image_system.Lineage.{BakeImage, PinnedBy, BakeCtx}
use cs_image_system.Lineage.Capabilities.{is_base_image, on_runtime, capability_stamp}
use cs_image_system.Lineage.Inputs.{mod_records, recorded_mod}
use cs_image_system.Lineage.Parents.{
  is_follow, source_of, head_id, effective_parent_build, input_fingerprint,
}
use cs_image_system.Lineage.Decision.{Within, will_bake, bake_reason}

-- What an image is baked from: the source keeps the three as one text.
pub data ParentRef : Type 0 where
  vendor : ParentRef
  of_series : (series : String) → ParentRef
  of_build : (build_id : String) → ParentRef

unfoldable pub parent_text : ParentRef → String
parent_text vendor = "vendor"
parent_text (of_series s) = "series:" +++ s
parent_text (of_build b) = b

unfoldable pub parent_reference : BakeCtx → BakeImage → Option String → ParentRef
parent_reference ctx image runtime =
    let build = (effective_parent_build ctx image runtime).0 in
    if is_base_image ctx image
    then vendor
    else if truthy build
    then of_build (or_else build "")
    else elim (source_of image) [ none ↦ vendor | some src ↦ of_series src ]

abbrev pub same_lifecycle : Lifecycle → Lifecycle → Bool
same_lifecycle base_image base_image = true
same_lifecycle instance_image instance_image = true
same_lifecycle _ _ = false

-- The lifecycle that bakes the source has its turn in this run.
unfoldable pub is_generated : BakeCtx → String → Bool
is_generated ctx src =
    has ctx.os_builders src && any (same_lifecycle base_image) ctx.generated_lifecycles
    || has ctx.images_map src
      && elim ctx.current_lifecycle [ none ↦ false | some l ↦ same_lifecycle instance_image l ]

-- Binds the image to the head of its source, unless the source is baked in this run.
unfoldable pub first_bind :
    BakeCtx → BakeImage → Option String → String → (baked : Bool) → Option String × Pins
first_bind ctx image runtime src baked =
    if baked then (none, ctx.pins) else elim (head_id ctx src runtime) [
      | none ↦ (none, ctx.pins)
      | some head ↦ (some head, bind_image ctx.pins image.name head ctx.run_id runtime)
    ]

-- The build to bake from, and the pins after a first bind.
unfoldable pub pinned_parent_build :
    ℕ → BakeCtx → BakeImage → Option String → Within (Option String × Pins)
pinned_parent_build fuel ctx image runtime =
    let rt = on_runtime ctx image runtime in
    let build = (effective_parent_build ctx image rt).0 in
    if is_base_image ctx image
    then some (none, ctx.pins)
    else if truthy build
    then some (build, ctx.pins)
    else elim (source_of image) [
      | none ↦ some (none, ctx.pins)
      | some src ↦
          if not (is_generated ctx src)
          then some (first_bind ctx image rt src false)
          else elim (will_bake (bake_reason fuel ctx) ctx src rt) [
            | none ↦ none
            | some baked ↦ some (first_bind ctx image rt src baked)
          ]
    ]

-- The parent as it is recorded: a series that was built in this run is its build.
unfoldable pub recorded_parent : (String → Option String) → ParentRef → ParentRef
recorded_parent resolve vendor = vendor
recorded_parent resolve (of_build b) = of_build b
recorded_parent resolve (of_series s) =
    if truthy (resolve s) then of_build (or_else (resolve s) "") else of_series s

-- The pins after a bake from the parent: the first bind, or the move of a pin that follows.
unfoldable pub pins_after_bake :
    BakeCtx → BakeImage → Option String → (String → Option String) → ParentRef → Pins
pins_after_bake ctx image runtime resolve vendor = ctx.pins
pins_after_bake ctx image runtime resolve (of_series s) =
    if truthy (resolve s) && not (truthy (image_pin ctx.pins ctx.builds image.name runtime))
    then bind_image ctx.pins image.name (or_else (resolve s) "") ctx.run_id runtime
    else ctx.pins
pins_after_bake ctx image runtime resolve (of_build b) =
    let pin = image_pin ctx.pins ctx.builds image.name runtime in
    if truthy pin && not (option_eq pin (some b)) && not (b == "vendor")
    then (move_pin ctx.pins image_pin_kind (image_pin_key image.name runtime) b ctx.run_id follow
        false).0
    else ctx.pins

abbrev pub baked_record : BakeCtx → BakeImage → String → String → ParentRef → String → Build
baked_record ctx image runtime build_id parent fingerprint = record {
  build_id = build_id;
  series = image.name;
  runtime = some runtime;
  run = some ctx.run_id;
  parent = some (parent_text parent);
  in_bake = true;
  mods = map recorded_mod (mod_records ctx image);
  input_fingerprint = fingerprint;
  capabilities = some (capability_stamp ctx image (some runtime));
  imported = false;
}

-- The bake is recorded, with the inputs as they are after the pins moved: the run after it.
unfoldable pub record_build :
    ℕ → BakeCtx → BakeImage → String → String → (String → Option String) → Within BakeCtx
record_build fuel ctx image runtime build_id resolve =
    let parent = parent_reference ctx image (some runtime) in
    let pins = pins_after_bake ctx image (some runtime) resolve parent in
    let moved = record ctx { pins = pins } in
    elim (input_fingerprint fuel moved image (some runtime)) [
      | none ↦ none
      | some fingerprint ↦ some (record moved {
        builds = add_build ctx.builds (
            baked_record moved image runtime build_id (recorded_parent resolve parent) fingerprint);
      })
    ]

unfoldable pub set_or_none : Option String → Option String
set_or_none t = if truthy t then t else none

-- The pin and the newer head that the instance follows.
unfoldable pub instance_follow_target : BakeCtx → PinnedBy → Option (String × String)
instance_follow_target ctx i =
    let pin = set_or_none (instance_pin ctx.pins i.name) in
    if not (is_follow i.image_policy) then none else elim pin [
      | none ↦ none
      | some p ↦ elim (set_or_none i.image) [
        | none ↦ none
        | some image ↦ elim (head_id ctx image (set_or_none i.runtime)) [
          | none ↦ none
          | some head ↦ if head == p then none else some (p, head)
        ]
      ]
    ]

unfoldable pub instance_first_bind :
    BakeCtx → PinnedBy → String → (baked : Bool) → Option String × Pins
instance_first_bind ctx i image baked =
    if baked then (none, ctx.pins) else elim (head_id ctx image (set_or_none i.runtime)) [
      | none ↦ (none, ctx.pins)
      | some head ↦ (some head, bind_instance ctx.pins i.name head ctx.run_id)
    ]

-- The image is baked in the lifecycle of instance images, which has its turn.
unfoldable pub is_in_turn : BakeCtx → String → Bool
is_in_turn ctx image =
    elim ctx.current_lifecycle [ none ↦ false | some l ↦ same_lifecycle instance_image l ]
    && has ctx.images_map image

-- The build that an instance launches from, and the pins after a first bind.
unfoldable pub pinned_instance_build : ℕ → BakeCtx → PinnedBy → Within (Option String × Pins)
pinned_instance_build fuel ctx i =
    let pin = instance_pin ctx.pins i.name in
    if truthy pin
    then elim (instance_follow_target ctx i) [
      | none ↦ some (pin, ctx.pins)
      | some target ↦ some (some target.1, ctx.pins)
    ]
    else elim (set_or_none i.image) [
      | none ↦ some (none, ctx.pins)
      | some image ↦
          if not (is_in_turn ctx image)
          then some (instance_first_bind ctx i image false)
          else elim (will_bake (bake_reason fuel ctx) ctx image (set_or_none i.runtime)) [
            | none ↦ none
            | some baked ↦ some (instance_first_bind ctx i image baked)
          ]
    ]

-- The instances to replace: explicit upgrades and those that follow.
unfoldable pub pending_instance_replacements : BakeCtx → List PinnedBy → List String
pending_instance_replacements ctx [] = []
pending_instance_replacements ctx (i ∷ rest) =
    let names = pending_instance_replacements ctx rest in
    if mem i.name (keys ctx.pins.pending_replacements) || is_some (instance_follow_target ctx i)
    then i.name ∷ names
    else names
