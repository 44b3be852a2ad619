-- ===== src/Upgrade/Allowed.antt =====
-- upgrade.py: which upgrade of an instance is accepted.
use cs_image_system.Base.{
  String, ◌≡◌, ◌↔◌, inl, inr, refl, true, false, Option, some, arith, option_eq, ◌==◌, Option-cases,
}
use cs_image_system.Base.Dict.{get}
use cs_image_system.Base.Strip.{strip}
use cs_image_system.Base.Words.{lower}
use cs_image_system.Meta.{Build, instance_pin_kind, upgrade as by_upgrade}
use cs_image_system.Meta.Lineage.{build}
use cs_image_system.Meta.Pinning.{instance_pin, move_pin}
use cs_image_system.Upgrade.{
  UpgradeCtx, accepted, instance_target, target_of, target_build, current_pin,
  record_runtime_mismatch, Upgraded, move_target, upgrade,
}

-- The instance is declared, the build is one of its image's series, and the instance is not
-- already pinned to it.
pub record IsUpgradable (ctx : UpgradeCtx) (name id : String) : Type 0 where
  pub image : String
  pub recorded : Build
  pub is_declared : get ctx.instances name ≡ some image
  pub is_recorded : build ctx.builds id ≡ some recorded
  pub of_series : recorded.series == image ≡ true
  pub moves : option_eq (instance_pin ctx.pins name) (some id) ≡ false

instance_word :
    (ctx : UpgradeCtx) (name : String) (runtime : Option String)
    → target_of ctx "instance" name runtime ≡ instance_target ctx name
unfolding target_of strip lower
instance_word ctx name runtime = refl

-- Of an instance, the upgrade to a build that is named is accepted exactly when the instance is
-- declared, the build is recorded in its image's series, and the instance is not already pinned to
-- it, so also when it has no pin.
pub upgrade-accepted_iff :
    (ctx : UpgradeCtx) (name id : String) (runtime : Option String)
    → ((u : Upgraded) × (upgrade ctx "instance" name (some id) runtime ≡ accepted u))
      ↔ IsUpgradable ctx name id
unfolding upgrade target_build instance_target move_target current_pin record_runtime_mismatch
upgrade-accepted_iff ctx name id runtime = rw (instance_word ctx name runtime) (
  λ (u, done). elim (Option-cases (get ctx.instances name)) [
    | inl unknown ↦ absurd (ground (arith, unknown, done))
    | inr (image, is_declared) ↦ elim (Option-cases (build ctx.builds id)) [
      | inl unbuilt ↦ absurd (ground (arith, is_declared, unbuilt, done))
      | inr (b, is_recorded) ↦ record {
        image = image;
        recorded = b;
        is_declared = is_declared;
        is_recorded = is_recorded;
        of_series = ground (arith, is_declared, is_recorded, done);
        moves = ground (arith, is_declared, is_recorded, done);
      }
    ]
  ],
  λ h.
      let moved = move_pin ctx.pins instance_pin_kind name id ctx.run_id by_upgrade true in
      (
        record { pins = moved.0; previous = moved.1; to_build = id },
        ground (arith, h.is_declared, h.is_recorded, h.of_series, h.moves),
      ),
)
