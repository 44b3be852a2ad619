-- ===== src/Storage/Tests.antt =====
-- Small storage runs, and the theorems of the storage modules at them.
use cs_image_system.Base.{
  String, ◌≡◌, ◌≢◌, refl, ◌↔◌, true, none, some, [], ◌∷◌, arith, eq_iff, Distinct,
}
use cs_image_system.Base.Dict.{get, put, keys, update}
use cs_image_system.Base.Sorting.{sorted}
use cs_image_system.Storage.{State, active, archived, destroyed, Storage, Builder, Ctx, action}
use cs_image_system.Storage.Record.{storage_state, storage_generation, record_storage_transition}
use cs_image_system.Storage.Transitions.{
  names, pending_transitions, undeclared_transitions, all_transitions, record_applied_transitions,
  by_name, attachments,
}
use cs_image_system.Storage.Validate.{
  Error, attached_move, unknown_storage, storage_errors, validate_transitions,
}
use cs_image_system.Storage.Admissible.{IsAdmissible, validate_transitions-nil_iff}
use cs_image_system.Storage.Settling.{next, run_storage}
use cs_image_system.Storage.Converge.{all_transitions-run_storage}
use cs_image_system.Storage.History.{AllLived}
use cs_image_system.Storage.Run.{run_storage-AllLived}

abbrev efs : Builder
efs = record {
  capability_type = some "efs";
  model_bucket_name = none;
  supports_archive = true;
  archive_name = some (λ s. s.name);
}

abbrev declare : String → State → Storage
declare name state = record { name = name; type_ = "efs"; state = state; bucket_name = none }

abbrev first : Ctx
first = record {
  storages = declare "data" active ∷ declare "scratch" active ∷ [];
  instances = record { name = "model"; storage_mappings = "data" ∷ [] } ∷ [];
  storage_builders = ("efs", efs) ∷ [];
  states = [];
  read_model = [];
  run_id = "r1";
}

-- The second run archives `scratch`; a third has dropped it from the declarations.
abbrev second : Ctx
second = record {
  storages = declare "data" active ∷ declare "scratch" archived ∷ [];
  instances = record { name = "model"; storage_mappings = "data" ∷ [] } ∷ [];
  storage_builders = ("efs", efs) ∷ [];
  states = run_storage first;
  read_model = [];
  run_id = "r2";
}

abbrev third : Ctx
third = record {
  storages = declare "data" active ∷ [];
  instances = [];
  storage_builders = ("efs", efs) ∷ [];
  states = run_storage second;
  read_model = [];
  run_id = "r3";
}

program : Unit {0}
unfolding validate_transitions all_transitions pending_transitions undeclared_transitions
    record_applied_transitions record_storage_transition by_name names get put update sorted
    storage_state storage_generation action storage_errors attachments
program = tt

state_after_third : storage_state (run_storage third) "scratch" ≡ some destroyed
unfolding program
state_after_third = refl

regenerated : storage_generation (run_storage (next first (run_storage third))) "scratch" ≡ 2
unfolding program
regenerated = refl

refused :
    validate_transitions (record second {
      instances = record { name = "model"; storage_mappings = "scratch" ∷ "gone" ∷ [] } ∷ [];
    })
    ≡ attached_move "scratch" (some active) archived ("model" ∷ [])
      ∷ Error.not_active ("model" ∷ []) "scratch" archived
      ∷ unknown_storage ("model" ∷ []) "gone"
      ∷ []
unfolding program
refused = refl

first-ok : IsAdmissible first
unfolding program
first-ok = (validate_transitions-nil_iff first).0 refl

second-ok : IsAdmissible second
unfolding program
second-ok = (validate_transitions-nil_iff second).0 refl

apart : ◌≢◌ {A = String} "data" "scratch"
apart = ground (arith, eq_iff "data" "scratch")

two_names : Distinct (names first.storages)
unfolding names
two_names = ((apart, tt), (tt, tt))

recorded_names : Distinct (keys second.states)
unfolding program
recorded_names = ((apart, tt), (tt, tt))

first-AllLived : AllLived (run_storage first)
unfolding get
first-AllLived = run_storage-AllLived first first-ok two_names tt (λ name e found. cc)

run_storage-AllLived_example : AllLived (run_storage second)
unfolding names
run_storage-AllLived_example =
    run_storage-AllLived second second-ok two_names recorded_names first-AllLived

all_transitions-run_storage_example : all_transitions (next second (run_storage second)) ≡ []
unfolding names
all_transitions-run_storage_example = all_transitions-run_storage second two_names recorded_names

validate_transitions-nil_iff_example : (validate_transitions second ≡ []) ↔ IsAdmissible second
validate_transitions-nil_iff_example = validate_transitions-nil_iff second
