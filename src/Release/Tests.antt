-- ===== src/Release/Tests.antt =====
-- Small releases.
use cs_image_system.Base.{String, ◌≡◌, refl, ◌↔◌, true, false, none, some, List, [], ◌∷◌, map}
use cs_image_system.Base.Dict.{get, put}
use cs_image_system.Base.Sorting.{sorted}
use cs_image_system.Meta.{Build, no_pins}
use cs_image_system.Meta.Lineage.{build, series_head}
use cs_image_system.Meta.Pinning.{bind_instance, instance_pin}
use cs_image_system.Release.{ReleaseCtx, Releases}
use cs_image_system.Release.Gate.{
  release_error, recorded, accepted, release, Target, declared_release_targets,
}
use cs_image_system.Release.Pinned.{pin_errors, validate_released_pins}
use cs_image_system.Release.Sound.{IsReleasable, release_error-none_iff}
use cs_image_system.Release.Standing.{pin_errors-release}

abbrev baked : String → String → Build
baked id runtime = record {
  build_id = id;
  series = "web";
  runtime = some runtime;
  run = some "r1";
  parent = none;
  in_bake = true;
  mods = record { name = "nginx"; content_hash = "h1" } ∷ [];
  input_fingerprint = "";
  capabilities = none;
  imported = false;
}

abbrev ctx : ReleaseCtx
ctx = record {
  builds = baked "b1" "aws" ∷ baked "b2" "gcp" ∷ [];
  pins = bind_instance no_pins "model" "b1" "r1";
  generations = [];
  mod_results = ("h1", record { status = "pass"; idempotent = some true }) ∷ [];
  image_tests =
      ("b1", record { ok = true; run = "r1"; failed_checks = [] })
      ∷ ("b2", record { ok = true; run = "r1"; failed_checks = [] })
      ∷ [];
  images_map = ("web", record { has_post_bake = true; release_model = some "default" }) ∷ [];
  instances = record { name = "model"; image = "web" } ∷ [];
  require_mod_tests = true;
  require_image_tests = true;
  require_released_builds = true;
  run_id = "r2";
}

abbrev nothing_released : Releases
nothing_released = record { releases = []; current = [] }

program : Unit {0}
unfolding release release_error recorded pin_errors validate_released_pins declared_release_targets
    get put sorted build series_head bind_instance instance_pin
program = tt

releasable : release_error ctx "web" "b1" ≡ none
unfolding program
releasable = refl

released_ok :
    release ctx nothing_released "web" "b1" "default" ""
    ≡ accepted (recorded ctx nothing_released "web" "b1" "default" "")
unfolding program
released_ok = refl

ids : List Target → List String
ids ts = map (λ (t : Target). t.build_id) ts

-- With one image on two runtimes, the release of one head takes the place of the other: each run
-- finds the other one to release again.
other_again :
    ids (declared_release_targets ctx (recorded ctx nothing_released "web" "b1" "default" ""))
    ≡ "b2" ∷ []
unfolding program ids
other_again = refl

first_again :
    ids (declared_release_targets ctx (recorded ctx nothing_released "web" "b2" "default" ""))
    ≡ "b1" ∷ []
unfolding program ids
first_again = refl

release_error-none_iff_example : (release_error ctx "web" "b1" ≡ none) ↔ IsReleasable ctx "web" "b1"
release_error-none_iff_example = release_error-none_iff ctx "web" "b1"

pin_errors-release_example :
    pin_errors ctx
      (recorded ctx nothing_released "web" "b1" "default" "")
      (record { name = "model"; image = "web" })
    ≡ []
unfolding program
pin_errors-release_example =
    pin_errors-release ctx nothing_released (recorded ctx nothing_released "web" "b1" "default" "")
      "web" "b1" "default" "" (record { name = "model"; image = "web" }) released_ok refl refl
