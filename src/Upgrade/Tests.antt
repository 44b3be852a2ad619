-- ===== src/Upgrade/Tests.antt =====
-- An instance that is pinned to the first of two builds of its image.
use cs_image_system.Base.{String, ◌≡◌, ◌↔◌, refl, true, false, none, some, [], ◌∷◌}
use cs_image_system.Base.Dict.{get, put}
use cs_image_system.Base.Strip.{strip, lstrip, rstrip}
use cs_image_system.Base.Words.{lower}
use cs_image_system.Meta.{Build, no_pins, instance_pin_kind, upgrade as by_upgrade}
use cs_image_system.Meta.Lineage.{build, series_head, builds_for_series, is_on_runtime, last}
use cs_image_system.Meta.Pinning.{instance_pin, move_pin}
use cs_image_system.Upgrade.{
  UpgradeCtx, accepted, refused, already_pinned, instance_target, target_of, target_build,
  current_pin, record_runtime_mismatch, Upgraded, move_target, upgrade,
}
use cs_image_system.Upgrade.Allowed.{IsUpgradable, upgrade-accepted_iff}

program : Unit {0}
unfolding get put strip lstrip rstrip lower build series_head builds_for_series is_on_runtime last
    instance_pin move_pin instance_target target_of target_build current_pin record_runtime_mismatch
    move_target upgrade
program = tt

abbrev baked : String → String → Build
baked id runtime = record {
  build_id = id;
  series = "app";
  runtime = some runtime;
  run = some "r1";
  parent = none;
  in_bake = true;
  mods = [];
  input_fingerprint = "";
  capabilities = none;
  imported = false;
}

abbrev ctx : UpgradeCtx
ctx = record {
  instances = ("web", "app") ∷ [];
  images_map = [];
  builds = baked "b1" "aws" ∷ baked "b2" "gcloud" ∷ [];
  pins = record no_pins { instances = ("web", "b1") ∷ [] };
  run_id = "r2";
}

-- The head of the series is a build on another runtime.
moved_to_head :
    upgrade ctx " Instance " "web" none none
    ≡ accepted (record {
      pins = (move_pin ctx.pins instance_pin_kind "web" "b2" "r2" by_upgrade true).0;
      previous = some "b1";
      to_build = "b2";
    })
unfolding program
moved_to_head = refl

stays : upgrade ctx "instance" "web" (some "b1") none ≡ refused (already_pinned "web" "b1")
unfolding program
stays = refl

upgrade-accepted_iff_example :
    ((u : Upgraded) × (upgrade ctx "instance" "web" (some "b2") none ≡ accepted u))
    ↔ IsUpgradable ctx "web" "b2"
upgrade-accepted_iff_example = upgrade-accepted_iff ctx "web" "b2" none
