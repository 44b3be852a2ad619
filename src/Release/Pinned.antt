-- ===== src/Release/Pinned.antt =====
-- release.py: `released_builds`, `release_grace` and `validate_released_pins`.
use cs_image_system.Base.{
  String, Bool, true, false, not, ◌&&◌, ◌||◌, Option, none, some, List, [], ◌∷◌, ◌++◌, mem, truthy,
  or_else, is_some, option_eq, ◌==◌, if◌then◌else◌,
}
use cs_image_system.Base.Dict.{Dict, get}
use cs_image_system.Meta.Lineage.{build, series_head}
use cs_image_system.Meta.Pinning.{instance_pin}
use cs_image_system.Generations.Record.{current_generation}
use cs_image_system.Release.{PinnedInstance, ReleaseCtx, Releases}

unfoldable pub released_in : Dict (Dict String) → String → Option String → List String
released_in [] image model = []
released_in ((m, images) ∷ current) image model =
    let rest = released_in current image model in
    let b = get images image in
    if truthy model && not (m == or_else model "")
    then rest
    else if truthy b
    then or_else b "" ∷ rest
    else rest

unfoldable pub released_builds : Releases → String → Option String → List String
unfolding released_in
released_builds rs image model = released_in rs.current image model

-- Why a pin on a build that is not released is allowed, or what is missing.
pub data Grace : Type 0 where
  pending : Grace
  stands : (verified : Bool) → Grace
  not_in_lineage not_head no_in_bake : Grace
  failed_tests : (run : String) → Grace
  elsewhere : Grace

unfoldable pub is_allowed : Grace → Bool
is_allowed pending = true
is_allowed (stands verified) = true
is_allowed grace = false

unfoldable pub booted_build : ReleaseCtx → String → String
unfolding current_generation
booted_build ctx name = elim (current_generation ctx.generations name) [
  | none ↦ ""
  | some g ↦ or_else g.launch_params.build ""
]

unfoldable pub proof_grace : ReleaseCtx → PinnedInstance → String → Grace
unfolding booted_build
proof_grace ctx inst pin =
    let result = get ctx.image_tests pin in
    let standing =
      if option_eq (get ctx.pins.pending_replacements inst.name) (some pin)
      then pending
      else if booted_build ctx inst.name == pin
      then stands (is_some result)
      else elsewhere in
    elim result [ none ↦ standing | some r ↦ if r.ok then standing else failed_tests r.run ]

unfoldable pub release_grace : ReleaseCtx → PinnedInstance → String → Grace
unfolding build series_head proof_grace
release_grace ctx inst pin = elim (build ctx.builds pin) [
  | none ↦ not_in_lineage
  | some b ↦
      let runtime = if truthy b.runtime then b.runtime else none in
      elim (series_head ctx.builds inst.image runtime) [
        | none ↦ not_head
        | some head ↦
            if not (head.build_id == pin)
            then not_head
            else if not b.in_bake
            then no_in_bake
            else proof_grace ctx inst pin
      ]
]

pub record PinError : Type 0 where
  pub name : String
  pub pin : String
  pub image : String
  pub missing : Grace

unfoldable pub pin_errors : ReleaseCtx → Releases → PinnedInstance → List PinError
unfolding instance_pin released_builds release_grace is_allowed
pin_errors ctx rs inst = elim (instance_pin ctx.pins inst.name) [
  | none ↦ []
  | some pin ↦
      let grace = release_grace ctx inst pin in
      if pin == "" || mem pin (released_builds rs inst.image none)
      then []
      else if is_allowed grace
      then []
      else record { name = inst.name; pin = pin; image = inst.image; missing = grace } ∷ []
]

unfoldable pub all_pin_errors : ReleaseCtx → Releases → List PinnedInstance → List PinError
unfolding pin_errors
all_pin_errors ctx rs [] = []
all_pin_errors ctx rs (i ∷ instances) = pin_errors ctx rs i ++ all_pin_errors ctx rs instances

unfoldable pub validate_released_pins : ReleaseCtx → Releases → List PinError
unfolding all_pin_errors
validate_released_pins ctx rs =
    if not ctx.require_released_builds then [] else all_pin_errors ctx rs ctx.instances
