-- ===== src/Lineage/Tests.antt =====
-- A base image and an image on it, baked on one runtime.
use cs_image_system.Base.{◌≡◌, refl, inr, true, false, none, some, [], ◌∷◌, is_some, arith}
use cs_image_system.Base.Strip.{strip}
use cs_image_system.Base.Words.{◌+++◌, lower, before, mentions}
use cs_image_system.Base.Dict.{get, put, del}
use cs_image_system.Meta.{Build, no_pins}
use cs_image_system.Base.Sorting.{sorted, insert}
use cs_image_system.Meta.Lineage.{
  build, add_build, series_head, builds_for_series, is_on_runtime, last,
}
use cs_image_system.Meta.Pinning.{image_pin, image_pin_key, legacy_pin, move_pin, bind_image}
use cs_image_system.Lineage.{BakeImage, BakeCtx, no_build}
use cs_image_system.Lineage.Capabilities.{
  is_base_image, on_runtime, primary_runtime_of, chain_from, image_chain, storage_types_on_runtime,
  declared_capabilities, pinned_capabilities, effective_capabilities, capability_stamp,
}
use cs_image_system.Lineage.Inputs.{
  text_of, mod_payload, operation_of, mod_record, mod_records, recorded_mod, verify_commands,
  set_size, entry_disk_size, bake_disk_size, runtime_source, base_inputs, payload,
}
use cs_image_system.Lineage.Parents.{
  is_follow, policy_text, source_of, head_id, newer_head, effective_parent_build, base_image_ref,
  find_image, base_image_runtimes, entry_runtimes, input_fingerprint,
}
use cs_image_system.Lineage.Decision.{
  is_forced, is_selected, same_inputs, refresh_reason, refresh_days_of, reason_with_head,
  reason_given, will_bake, source_bakes, decided, bake_reason, bakes, is_current, bake_plan,
}
use cs_image_system.Lineage.Record.{
  vendor, of_build, parent_reference, pins_after_bake, recorded_parent, baked_record, record_build,
}
use cs_image_system.Lineage.Enough.{bake_reason-some}
use cs_image_system.Lineage.Renewed.{next_run}
use cs_image_system.Lineage.Convergent.{record_build-bake_reason}
use cs_image_system.Lineage.Follows.{pins_after_bake-image_pin}

program : Unit {0}
unfolding strip lower before mentions get put del add_build series_head builds_for_series
    is_on_runtime last image_pin image_pin_key legacy_pin move_pin bind_image is_base_image
    on_runtime primary_runtime_of is_follow policy_text source_of head_id newer_head
    effective_parent_build find_image base_image_runtimes entry_runtimes input_fingerprint is_forced
    is_selected same_inputs refresh_reason refresh_days_of reason_with_head reason_given will_bake
    source_bakes decided bake_reason bake_plan parent_reference pins_after_bake recorded_parent
    record_build chain_from image_chain storage_types_on_runtime declared_capabilities
    pinned_capabilities effective_capabilities capability_stamp text_of mod_payload operation_of
    mod_record mod_records recorded_mod verify_commands set_size entry_disk_size bake_disk_size
    runtime_source base_inputs payload sorted insert build
program = tt

abbrev web : BakeImage
web = record {
  name = "web";
  bound_builder = none;
  type_ = "ami";
  source_image = some "base";
  parent_policy = none;
  modifications = [];
  primary_disk_size = some 8;
}

abbrev start : BakeCtx
start = record {
  builds = [];
  pins = no_pins;
  images_map = ("web", web) ∷ [];
  os_builders =
      (
        "base",
        record {
          image_builder = "ami";
          runtimes =
              record {
                image_builder = "ami";
                image_id = none;
                query = "newest";
                default_primary_disk_size = none;
              }
              ∷ [];
          family = "debian";
          family_version = "12";
          architecture = "amd64";
          identity_types = "oidc" ∷ "ldap" ∷ [];
          storage_types = "nfs" ∷ "ebs" ∷ [];
          default_primary_disk_size = some 8;
          admin_user = "admin";
          admin_public_keys = [];
          update = record {
            policy = "full";
            packages = [];
            exclude = [];
            pin = [];
            refresh_days = some 30;
          };
        },
      )
      ∷ [];
  image_builders = ("ami", record { runtime_provider = "aws"; local_items = web ∷ [] }) ∷ [];
  storage_builders =
      record { capability_type = "ebs"; runtime = some "aws" }
      ∷ record { capability_type = "nfs"; runtime = some "lab" }
      ∷ [];
  default_disk_sizes = [];
  working_path = "/work";
  is_absolute = λ _. false;
  read_file = λ _. none;
  base_verify_commands = λ _ _. [];
  instance_verify_commands = λ _. [];
  sha_of_mod = λ _. "";
  sha = λ payload. payload.series +++ "<" +++ payload.parent;
  age_seconds = λ _. some 60;
  force_bake = [];
  only_images = none;
  implied_scope = none;
  bake_decisions = [];
  generated_lifecycles = [];
  current_lifecycle = none;
  run_id = "r1";
}

abbrev base_ref : BakeImage
base_ref = base_image_ref "base"

abbrev base_build : Build
base_build = baked_record start base_ref "aws" "b1" vendor "base<vendor"

-- The base image is baked.
abbrev with_base : BakeCtx
with_base = record start { builds = base_build ∷ [] }

records_base : record_build 2 start base_ref "aws" "b1" (λ _. none) ≡ some with_base
unfolding program
records_base = refl

fingerprint_of_web : input_fingerprint 2 start web (some "aws") ≡ some "web<base<vendor"
unfolding program
fingerprint_of_web = refl

-- The stamp of the base image is its declaration on the runtime; an image on it has the pinned one.
declares_ebs :
    capability_stamp start base_ref (some "aws")
    ≡ record { identity_types = "ldap" ∷ "oidc" ∷ []; storage_types = "ebs" ∷ [] }
unfolding program
declares_ebs = refl

abbrev with_pin : BakeCtx
with_pin = record start {
  builds =
      record base_build {
        capabilities = some (record { identity_types = "old" ∷ []; storage_types = [] });
      }
      ∷ [];
  pins = record no_pins { images = ("web@aws", "b1") ∷ [] };
}

stamped_by_pin :
    capability_stamp with_pin web (some "aws")
    ≡ record { identity_types = "old" ∷ []; storage_types = [] }
unfolding program
stamped_by_pin = refl

first_plan :
    bake_plan 2 start
    ≡ some (
        ("base@aws", bakes (no_build "base" (some "aws")))
        ∷ ("web@aws", bakes (no_build "web" (some "aws")))
        ∷ [])
unfolding program
first_plan = refl

second_plan :
    bake_plan 2 with_base
    ≡ some (
        ("base@aws", is_current (some "b1"))
        ∷ ("web@aws", bakes (no_build "web" (some "aws")))
        ∷ [])
unfolding program
second_plan = refl

bake_reason-some_example : is_some (bake_reason 2 start web (some "aws")) ≡ true
unfolding program
bake_reason-some_example = bake_reason-some start "aws" refl 2 2 web tt (omega arith)

record_build-bake_reason_example :
    bake_reason 2
      (next_run with_base (base_build ∷ []) no_pins "r2" (λ _. some 60))
      base_ref
      (some "aws")
    ≡ some none
unfolding program
record_build-bake_reason_example =
    record_build-bake_reason start base_ref "aws" "b1" "r2" (λ _. some 60) tt refl refl refl refl
      (λ days seconds has_days has_age. inr (ground (arith, has_days, has_age))) (λ _. none) 1
      with_base refl tt

-- An image that follows its source, bound to an older build of it.
abbrev bound : BakeCtx
bound = record with_base { pins = record no_pins { images = ("web@aws", "b0") ∷ [] } }

pins_after_bake-image_pin_example :
    image_pin
      (pins_after_bake bound web (some "aws") (λ _. none) (of_build "b1"))
      bound.builds
      "web"
      (some "aws")
    ≡ some "b1"
unfolding program
pins_after_bake-image_pin_example =
    pins_after_bake-image_pin bound web "aws" "b1" (λ _. none) refl refl refl refl
