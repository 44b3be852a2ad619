-- ===== src/Upgrade.antt =====
-- packages/base/src/cs_image_system/base/commands/upgrade.py: the move of one pin by the operator.
pub mod Moved
pub mod Allowed
mod Tests
use cs_image_system.Base.{
  String, Bool, true, false, not, ◌&&◌, Option, none, some, List, [], ◌∷◌, distinct, mem, truthy,
  or_else, option_eq, ◌==◌, if◌then◌else◌,
}
use cs_image_system.Base.Dict.{Dict, get}
use cs_image_system.Base.Sorting.{sorted, text_le}
use cs_image_system.Base.Strip.{strip}
use cs_image_system.Base.Words.{lower}
use cs_image_system.Meta.{
  Build, PinKind, instance_pin_kind, image_pin_kind, upgrade as by_upgrade, Pins,
}
use cs_image_system.Meta.Lineage.{build, series_head}
use cs_image_system.Meta.Pinning.{instance_pin, image_pin, image_pin_key, move_pin}

-- `runtimes` are those of the image's builders, the primary one first.
pub record UpgradeImage : Type 0 where
  pub source_image : Option String
  pub runtimes : List String

-- `instances` has the image of each declared instance.
pub record UpgradeCtx : Type 0 where
  pub instances : Dict String
  pub images_map : Dict UpgradeImage
  pub builds : List Build
  pub pins : Pins
  pub run_id : String

pub data UpgradeError : Type 0 where
  unknown_kind : (kind : String) → UpgradeError
  no_instance : (name : String) → UpgradeError
  no_image : (name : String) → UpgradeError
  no_source : (name : String) → UpgradeError
  which_runtime : (name : String) → (runtimes : List String) → UpgradeError
  not_on_runtime : (name : String) → (runtime : String) → UpgradeError
  not_built : (series : String) → UpgradeError
  unknown_build : (to_build : String) → UpgradeError
  other_series : (to_build : String) → (series : String) → UpgradeError
  already_pinned : (name : String) → (to_build : String) → UpgradeError
  other_runtime : (to_build : String) → (runtime : String) → UpgradeError

pub data Answer (A : Type 0) : Type 0 where
  accepted : A → Answer A
  refused : UpgradeError → Answer A

infixl 5 ◌>>=◌
abbrev pub ◌>>=◌ : {A B : Type 0} → Answer A → (A → Answer B) → Answer B
accepted a >>= f = f a
refused e >>= f = refused e

-- What moves: the pin's name and kind, the series of its builds, and the runtime of an image.
pub record Target : Type 0 where
  pub kind : PinKind
  pub name : String
  pub pin_name : String
  pub series : String
  pub runtime : Option String

unfoldable pub instance_target : UpgradeCtx → String → Answer Target
instance_target ctx name = elim (get ctx.instances name) [
  | none ↦ refused (no_instance name)
  | some image ↦ accepted (record {
    kind = instance_pin_kind;
    name = name;
    pin_name = name;
    series = image;
    runtime = none;
  })
]

-- The runtime of the image's pin: the one that is named, or its only one.
unfoldable pub target_runtime : String → List String → Option String → Answer (Option String)
target_runtime name [] runtime = accepted runtime
target_runtime name (r ∷ []) none = accepted (some r)
target_runtime name (r ∷ s ∷ rest) none = refused (which_runtime name (r ∷ s ∷ rest))
target_runtime name (r ∷ rest) (some runtime) =
    if mem runtime (r ∷ rest)
    then accepted (some runtime)
    else refused (not_on_runtime name runtime)

unfoldable pub image_target_of : String → UpgradeImage → Option String → Answer Target
image_target_of name image runtime =
    if not (truthy image.source_image)
    then refused (no_source name)
    else target_runtime name (sorted text_le (distinct image.runtimes)) runtime >>= λ rt.
        accepted (record {
          kind = image_pin_kind;
          name = name;
          pin_name = image_pin_key name rt;
          series = or_else image.source_image "";
          runtime = rt;
        })

unfoldable pub image_target : UpgradeCtx → String → Option String → Answer Target
image_target ctx name runtime = elim (get ctx.images_map name) [
  | none ↦ refused (no_image name)
  | some image ↦ image_target_of name image runtime
]

unfoldable pub target_of : UpgradeCtx → String → String → Option String → Answer Target
target_of ctx kind name runtime =
    let word = lower (strip kind) in
    if word == "instance"
    then instance_target ctx name
    else if word == "image"
    then image_target ctx name runtime
    else refused (unknown_kind word)

-- The build to move to: the one that is named, of the series, or the head of the series.
unfoldable pub target_build : UpgradeCtx → Target → Option String → Answer String
target_build ctx t none = elim (series_head ctx.builds t.series t.runtime) [
  | none ↦ refused (not_built t.series)
  | some head ↦ accepted head.build_id
]
target_build ctx t (some id) = elim (build ctx.builds id) [
  | none ↦ refused (unknown_build id)
  | some b ↦ if b.series == t.series then accepted id else refused (other_series id b.series)
]

unfoldable pub current_pin : UpgradeCtx → Target → Option String
current_pin ctx t = elim t.kind [
  | instance_pin_kind ↦ instance_pin ctx.pins t.name
  | image_pin_kind ↦ image_pin ctx.pins ctx.builds t.name t.runtime
]

-- The build was recorded on another runtime than the pin's.
unfoldable pub record_runtime_mismatch : List Build → String → Option String → Bool
record_runtime_mismatch builds id runtime = elim (build builds id) [
  | none ↦ false
  | some b ↦ truthy runtime && truthy b.runtime && not (option_eq b.runtime runtime)
]

pub record Upgraded : Type 0 where
  pub pins : Pins
  pub previous : Option String
  pub to_build : String

unfoldable pub move_target : UpgradeCtx → Target → String → Answer Upgraded
move_target ctx t id =
    if option_eq (current_pin ctx t) (some id)
    then refused (already_pinned t.name id)
    else if record_runtime_mismatch ctx.builds id t.runtime
    then refused (other_runtime id (or_else t.runtime ""))
    else (let moved = move_pin ctx.pins t.kind t.pin_name id ctx.run_id by_upgrade true in
        accepted (record { pins = moved.0; previous = moved.1; to_build = id }))

unfoldable pub upgrade :
    UpgradeCtx → String → String → Option String → Option String → Answer Upgraded
upgrade ctx kind name to_build runtime = target_of ctx kind name runtime >>= λ t.
    target_build ctx t to_build >>= λ id. move_target ctx t id
