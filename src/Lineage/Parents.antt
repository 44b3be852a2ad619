-- ===== src/Lineage/Parents.antt =====
-- lineage.py: the parent of an image on a runtime, and the fingerprint of its inputs. The chain of
-- parents is followed on fuel.
use cs_image_system.Base.{
  ℕ, zero, suc, String, Bool, true, not, ◌&&◌, Option, none, some, List, [], ◌∷◌, ◌++◌, mem, truthy,
  or_else, is_some, option_eq, ◌==◌, if◌then◌else◌,
}
use cs_image_system.Base.Dict.{get, has}
use cs_image_system.Base.Strip.{strip}
use cs_image_system.Base.Words.{◌+++◌, lower}
use cs_image_system.Meta.Lineage.{series_head}
use cs_image_system.Meta.Pinning.{image_pin}
use cs_image_system.Lineage.{BakeImage, RuntimeEntry, BakeCtx}
use cs_image_system.Lineage.Capabilities.{is_base_image, runtime_of, on_runtime}
use cs_image_system.Lineage.Inputs.{payload}

unfoldable pub policy_text : Option String → String
unfolding strip lower
policy_text policy = lower (strip (if truthy policy then or_else policy "" else "pinned"))

unfoldable pub is_follow : Option String → Bool
unfolding policy_text
is_follow policy = policy_text policy == "follow"

-- The image's own source, unless it is missing or `self`.
unfoldable pub source_of : BakeImage → Option String
source_of image =
    if truthy image.source_image && not (option_eq image.source_image (some "self"))
    then image.source_image
    else none

-- The head of a series, when its record names a build.
unfoldable pub head_id : BakeCtx → String → Option String → Option String
unfolding series_head
head_id ctx series runtime = elim (series_head ctx.builds series runtime) [
  | none ↦ none
  | some head ↦ if head.build_id == "" then none else some head.build_id
]

-- The newer head of the parent's series that a `follow` bakes from.
unfoldable pub newer_head : BakeCtx → BakeImage → Option String → String → Option String
newer_head ctx image runtime pin =
    let head = head_id ctx (or_else (source_of image) "") runtime in
    if is_follow image.parent_policy && is_some (source_of image)
    then if option_eq head (some pin) then none else head
    else none

-- The build that the image bakes from, and the pin that it supersedes.
unfoldable pub effective_parent_build :
    BakeCtx → BakeImage → Option String → Option String × Option String
effective_parent_build ctx image runtime =
    let rt = on_runtime ctx image runtime in
    let pin = image_pin ctx.pins ctx.builds image.name rt in
    if is_base_image ctx image
    then (none, none)
    else if truthy pin
    then elim (newer_head ctx image rt (or_else pin "")) [
      | none ↦ (pin, none)
      | some head ↦ (some head, pin)
    ]
    else (pin, none)

-- The first occurrences of the runtimes that the entries of the OS builder bake on.
unfoldable pub entry_runtimes : BakeCtx → List String → List RuntimeEntry → List String
entry_runtimes ctx out [] = out
entry_runtimes ctx out (entry ∷ entries) =
    let rt = runtime_of ctx entry.image_builder in
    if truthy rt && not (mem (or_else rt "") out)
    then entry_runtimes ctx (out ++ or_else rt "" ∷ []) entries
    else entry_runtimes ctx out entries

unfoldable pub base_image_runtimes : BakeCtx → String → List String
unfolding entry_runtimes
base_image_runtimes ctx series = elim (get ctx.os_builders series) [
  | none ↦ []
  | some osb ↦ entry_runtimes ctx [] osb.runtimes
]

-- The stand-in for a base image: it has no source and no builder of its own.
abbrev pub base_image_ref : String → BakeImage
base_image_ref series = record {
  name = series;
  bound_builder = none;
  type_ = "";
  source_image = none;
  parent_policy = none;
  modifications = [];
  primary_disk_size = none;
}

unfoldable pub find_image : BakeCtx → String → Option String → Option BakeImage
unfolding base_image_runtimes
find_image ctx series runtime = elim (get ctx.images_map series) [
  | some image ↦ some image
  | none ↦
      if has ctx.os_builders series
        && elim runtime [ none ↦ true | some rt ↦ mem rt (base_image_runtimes ctx series) ]
      then some (base_image_ref series)
      else none
]

-- The fingerprint, and that of the parent in it; `none` is a chain longer than the fuel.
unfoldable pub input_fingerprint : ℕ → BakeCtx → BakeImage → Option String → Option String
input_fingerprint zero ctx image runtime = none
input_fingerprint (suc fuel) ctx image runtime =
    let rt = on_runtime ctx image runtime in
    let hashed = λ (parent : String). ctx.sha (payload ctx image rt parent) in
    elim (if is_base_image ctx image then none else source_of image) [
      | none ↦ some (hashed "vendor")
      | some src ↦ elim (find_image ctx src rt) [
        | none ↦ some (hashed ("series:" +++ src))
        | some parent ↦ elim (input_fingerprint fuel ctx parent rt) [
          | none ↦ none
          | some fingerprint ↦ some (hashed fingerprint)
        ]
      ]
    ]
