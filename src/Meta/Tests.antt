-- ===== src/Meta/Tests.antt =====
-- Small records of builds and pins.
use cs_image_system.Base.{
  String, ◌≡◌, ◌≤◌, refl, true, false, Option, none, some, List, [], ◌∷◌, ◌++◌, any, All, length,
  mem, option_eq, ◌==◌, if◌then◌else◌,
}
use cs_image_system.Base.Words.{before, mentions}
use cs_image_system.Base.Dict.{get, put, del}
use cs_image_system.Meta.{Build, instance_pin_kind, image_pin_kind, upgrade, no_pins}
use cs_image_system.Meta.Lineage.{
  is_build, add_build, build, remove_build, is_on_runtime, series_head,
}
use cs_image_system.Meta.Pinning.{
  image_pin, bind_instance, bind_image, move_pin, unpin_images_at, remove_instance_pin,
}
use cs_image_system.Meta.Journal.{record_run}
use cs_image_system.Meta.Replay.{
  Operation, binds_instance, binds_image, moves_pin, perform_all, IsAudited, perform_all-IsAudited,
}
use cs_image_system.Meta.Bounded.{HasDistinctRuns, record_run-HasDistinctRuns}
use cs_image_system.Meta.Unpinned.{unpin_images_at-get}
use cs_image_system.Meta.Heads.{HasOneRecord, add_build-series_head, remove_build-build}

program : Unit {0}
unfolding add_build build remove_build is_on_runtime series_head image_pin bind_instance bind_image
    move_pin unpin_images_at remove_instance_pin record_run get put del before mentions
program = tt

abbrev baked : String → String → Build
baked id run = record {
  build_id = id;
  series = "web";
  runtime = some "aws";
  run = some run;
  parent = none;
  in_bake = true;
  mods = [];
  input_fingerprint = "";
  capabilities = none;
  imported = false;
}

abbrev work : List Operation
work =
    binds_instance "model" "b1" "r1"
    ∷ binds_image "web" "b0" "r1" none
    ∷ moves_pin image_pin_kind "web@aws" "b1" "r2" upgrade false
    ∷ moves_pin instance_pin_kind "model" "b2" "r2" upgrade true
    ∷ []

-- The legacy pin has moved into the keyed form.
moved_key : (perform_all no_pins work).images ≡ ("web@aws", "b1") ∷ []
unfolding program
moved_key = refl

pinned_child : image_pin (perform_all no_pins work) [] "web" (some "aws") ≡ some "b1"
unfolding program
pinned_child = refl

no_pins-IsAudited : IsAudited no_pins
unfolding get
no_pins-IsAudited name = (refl, λ h. h)

perform_all-IsAudited_example : IsAudited (perform_all no_pins work)
perform_all-IsAudited_example = perform_all-IsAudited no_pins work no_pins-IsAudited

abbrev run_of : String × String → Option String
run_of r = some r.0

record_run-HasDistinctRuns_example :
    HasDistinctRuns run_of (record_run run_of (("r1", "planned") ∷ []) ("r1", "done"))
    × (length (record_run run_of (("r1", "planned") ∷ []) ("r1", "done")) ≤ 200)
    × (earlier : List (String × String)) × (record_run run_of
          (("r1", "planned") ∷ [])
          ("r1", "done")
        ≡ earlier ++ ("r1", "done") ∷ [])
    × All (λ s. option_eq (run_of s) (some "r1") ≡ false) earlier
record_run-HasDistinctRuns_example =
    record_run-HasDistinctRuns run_of (("r1", "planned") ∷ []) ("r1", "done") (tt, tt)

unpin_images_at-get_example :
    (get (unpin_images_at (perform_all no_pins work) "b1" "r3").0.images "web@aws" ≡ (
      if option_eq (get (perform_all no_pins work).images "web@aws") (some "b1")
      then none
      else get (perform_all no_pins work).images "web@aws"))
    × (mem "web@aws" (unpin_images_at (perform_all no_pins work) "b1" "r3").1
        ≡ option_eq (get (perform_all no_pins work).images "web@aws") (some "b1"))
unfolding program
unpin_images_at-get_example =
    unpin_images_at-get (perform_all no_pins work) "b1" "r3" "web@aws" (tt, tt)

add_build-series_head_example :
    HasOneRecord (add_build (baked "b1" "r1" ∷ []) (baked "b2" "r2"))
    × (any (is_build "b2") (baked "b1" "r1" ∷ []) ≡ false
        → is_on_runtime (some "aws") (baked "b2" "r2") ≡ true
        → series_head (add_build (baked "b1" "r1" ∷ []) (baked "b2" "r2")) "web" (some "aws")
          ≡ some (baked "b2" "r2"))
add_build-series_head_example =
    add_build-series_head (baked "b1" "r1" ∷ []) (baked "b2" "r2") (some "aws") (tt, tt)

remove_build-build_example :
    HasOneRecord (remove_build (baked "b1" "r1" ∷ baked "b2" "r2" ∷ []) "b1")
    × ((other : String)
        → build (remove_build (baked "b1" "r1" ∷ baked "b2" "r2" ∷ []) "b1") other
          ≡ (if "b1" == other then none else build (baked "b1" "r1" ∷ baked "b2" "r2" ∷ []) other))
remove_build-build_example =
    remove_build-build (baked "b1" "r1" ∷ baked "b2" "r2" ∷ []) "b1" ((refl, tt), (tt, tt))
