-- ===== src/Dispose/Tests.antt =====
-- Small disposals.
use cs_image_system.Base.{String, ◌≡◌, refl, true, false, Option, none, some, [], ◌∷◌, map, All}
use cs_image_system.Base.Dict.{get, put, del}
use cs_image_system.Base.Sorting.{sorted}
use cs_image_system.Meta.{Build, no_pins}
use cs_image_system.Meta.Pinning.{bind_instance, bind_image}
use cs_image_system.Dispose.{RuntimeBuilder, DisposeCtx, Store, Disposal, in_use}
use cs_image_system.Dispose.Plan.{retention_plan, is_in_use, is_released}
use cs_image_system.Dispose.Images.{disposal_le, dispose_images}
use cs_image_system.Dispose.Spare.{IsSpare, retention_plan-IsSpare}
use cs_image_system.Dispose.Clean.{IsCleaned, dispose_images-IsCleaned}

abbrev aws : RuntimeBuilder
aws = record { ephemeral = false; retention_keep = some 1; dispose_image = λ id. some true }

abbrev ctx : DisposeCtx
ctx = record {
  launched_builds = ("model", some "b1") ∷ [];
  current_releases = ("default", ("web", "b2") ∷ []) ∷ [];
  runtime_builders = ("aws", aws) ∷ [];
  image_keeps = [];
  dry_run = false;
  run_id = "r9";
}

abbrev baked : String → String → Option String → Build
baked id run parent = record {
  build_id = id;
  series = "web";
  runtime = some "aws";
  run = some run;
  parent = parent;
  in_bake = true;
  mods = [];
  input_fingerprint = "";
  capabilities = none;
  imported = false;
}

-- `b1` was launched, `b2` is released, and `b4` is the newest.
abbrev store : Store
store = record {
  builds =
      baked "b1" "r1" none
      ∷ baked "b2" "r2" none
      ∷ baked "b3" "r3" none
      ∷ baked "b4" "r4" none
      ∷ [];
  pins = bind_image (bind_instance no_pins "model" "b1" "r1") "child" "b3" "r4" (some "aws");
}

program : Unit {0}
unfolding retention_plan is_in_use is_released dispose_images sorted disposal_le get put del
    bind_image bind_instance
program = tt

only_spare : map (λ (b : Build). b.build_id) (retention_plan ctx store none).0 ≡ "b3" ∷ []
unfolding program
only_spare = refl

unpinned_child :
    map (λ (d : Disposal). d.unpinned) (dispose_images ctx store [] none false true).results
    ≡ ("child@aws" ∷ []) ∷ []
unfolding program
unpinned_child = refl

refused_launched :
    (dispose_images ctx store ("b1" ∷ "b3" ∷ []) none false false).error
    ≡ some (in_use ("model" ∷ []) ("b1" ∷ []))
unfolding program
refused_launched = refl

-- In a chain of three builds the parent in the middle is disposed before its own child.
middle_first :
    map
      (λ (b : Build). b.build_id)
      (sorted
        (disposal_le ("a" ∷ "b" ∷ "c" ∷ []))
        (baked "a" "r1" none ∷ baked "b" "r2" (some "a") ∷ baked "c" "r3" (some "b") ∷ []))
    ≡ "b" ∷ "c" ∷ "a" ∷ []
unfolding program
middle_first = refl

retention_plan-IsSpare_example : All (IsSpare ctx store none) (retention_plan ctx store none).0
retention_plan-IsSpare_example = retention_plan-IsSpare ctx store none

dispose_images-IsCleaned_example : IsCleaned store (dispose_images ctx store [] none false true)
dispose_images-IsCleaned_example =
    dispose_images-IsCleaned ctx refl store [] none false true
      (((refl, (refl, (refl, tt))), ((refl, (refl, tt)), ((refl, tt), (tt, tt)))))
