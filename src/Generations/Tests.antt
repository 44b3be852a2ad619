-- ===== src/Generations/Tests.antt =====
-- A machine that is launched, replaced behind the back of the runs, and seen again.
use cs_image_system.Base.{String, ◌≡◌, refl, true, false, none, some, [], ◌∷◌, ◌++◌, ◌+◌}
use cs_image_system.Base.Dict.{get, put}
use cs_image_system.Apply.{switch, apply_flag_allows}
use cs_image_system.Lifecycles.Builtin.{instance_image}
use cs_image_system.Generations.{
  Params, kind_of, Identity, inferred, replaced_out_of_band, Generation, closed, Instances, ok,
}
use cs_image_system.Generations.Record.{
  entry_or_new, current_generation, instance_generation, open_generation, note_generation_identity,
  close_generation,
}
use cs_image_system.Generations.Numbers.{AllNumbered, empty-AllNumbered}
use cs_image_system.Generations.Flow.{
  Instance, Ctx, on_launched, queried, is_reconciled, reconcile_instance, reconcile_generations,
}
use cs_image_system.Generations.Ledger.{on_launched-AllNumbered, reconcile_generations-AllNumbered}
use cs_image_system.Generations.Observe.{IsSeen, IsAnswered, reconcile_instance-IsSeen}
use cs_image_system.Generations.Settled.{reconcile_instance_idem, reconcile_instance-replaced}

abbrev launch : Params
launch = record {
  build = some "b1";
  hostname = some "web-01";
  alias = none;
  machine_type = some "t3.small";
  ephemeral = false;
  group = none;
  mounts = [];
  others = [];
  launched = true;
  launched_run = some "r1";
  run = some "r1";
}

abbrev answer : String → Identity
answer id = record { instance_id = some id; provider_hostname = none }

abbrev web : Instance
web = record { name = "web"; type_ = "ec2"; runtime = some "aws" }

abbrev sees : String → Ctx
sees id = record {
  run_id = "r2";
  now = "t2";
  apply_instances = switch true;
  instances = web ∷ [];
  runtime_builders =
      (
        "aws",
        record {
          can_query_instance_identity = true;
          query_instance_identity = λ n. some (answer id);
        },
      )
      ∷ [];
  launch_params = ("web", launch) ∷ [];
}

program : Unit {0}
unfolding on_launched reconcile_generations get put open_generation close_generation
    note_generation_identity apply_flag_allows current_generation queried is_reconciled
    reconcile_instance instance_generation entry_or_new
program = tt

abbrev machine : Generation
machine = record {
  number = 1;
  kind = kind_of launch;
  how = inferred;
  opened_run = "r1";
  opened_at = "t1";
  launch_params = launch;
  instance_id = some "i-1";
  provider_hostname = none;
}

-- The record with the machine `i-1` open.
abbrev known : Instances
known =
    (
      "web",
      record {
        generation = record { durable = 1; ephemeral = 0 };
        current = some machine;
        history = [];
      },
    )
    ∷ []

launched_unknown :
    on_launched "r1" "t1" [] "web" launch false
    ≡ ok (
        (
          "web",
          record {
            generation = record { durable = 1; ephemeral = 0 };
            current = some (record machine { instance_id = none });
            history = [];
          },
        )
        ∷ [])
unfolding program
launched_unknown = refl

on_launched-AllNumbered_example :
    (is : Instances) × (on_launched "r1" "t1" [] "web" launch false ≡ ok is) × AllNumbered is
on_launched-AllNumbered_example =
    on_launched-AllNumbered "r1" "t1" [] "web" launch false empty-AllNumbered

reconcile_generations-AllNumbered_example :
    (is : Instances) × (reconcile_generations (sees "i-1") instance_image [] ≡ ok is)
    × AllNumbered is
reconcile_generations-AllNumbered_example =
    reconcile_generations-AllNumbered (sees "i-1") instance_image [] empty-AllNumbered

abbrev answered_two : IsAnswered (sees "i-2") web "i-2"
unfolding program is_reconciled
answered_two = record {
  params = launch;
  identity = answer "i-2";
  recorded = refl;
  due = refl;
  answer = refl;
  named = refl;
  nonempty = refl;
}

reconcile_instance-IsSeen_example :
    (is : Instances) × (reconcile_instance (sees "i-2") known web ≡ ok is) × IsSeen "web" "i-2" is
reconcile_instance-IsSeen_example =
    reconcile_instance-IsSeen (sees "i-2") web "i-2" known answered_two

reconcile_instance-replaced_example :
    (is : Instances) × (reconcile_instance (sees "i-2") known web ≡ ok is)
    × ((entry_or_new (get is "web")).history
        ≡ (entry_or_new (get known "web")).history
          ++ closed machine "r2" replaced_out_of_band "t2" ∷ [])
    × (instance_generation is "web" (kind_of launch)
        ≡ instance_generation known "web" (kind_of launch) + 1)
unfolding program
reconcile_instance-replaced_example =
    reconcile_instance-replaced (sees "i-2") web "i-2" "i-1" known machine answered_two refl refl
      refl refl

seen_one : reconcile_instance (sees "i-1") known web ≡ ok known
unfolding program
seen_one = refl

reconcile_instance_idem_example : reconcile_instance (sees "i-1") known web ≡ ok known
reconcile_instance_idem_example = reconcile_instance_idem (sees "i-1") web known known seen_one
