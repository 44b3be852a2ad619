-- ===== src/Power/Tests.antt =====
-- A machine whose session answers at the third poll, and work that fails.
use cs_image_system.Base.{ℕ, ◌+◌, ◌≡◌, refl, true, false, some, [], ◌∷◌, arith, leb, if◌then◌else◌}
use cs_image_system.Power.{
  stopped, is_off, Outcome, done, raised, returned, failed, Runtime, start, probe, pause, body,
  stop, Scene,
}
use cs_image_system.Power.Task.{Work, queried_state, wait_until_reachable, running_for_task}
use cs_image_system.Power.Wait.{IsClock, IsWaited, wait_until_reachable-IsWaited}
use cs_image_system.Power.Restore.{
  IsBounded, running_for_task-IsBounded, running_for_task-untouched,
}

-- The world is the clock.
abbrev machine : Runtime ℕ
machine = record {
  can_query_instance_power_state = true;
  query_instance_power_state = λ t. some stopped;
  can_set_instance_power_state = true;
  start_instance = λ timeout t. (t, done);
  run_session_command = λ t. (t, if leb 20 t then returned 0 else failed "not yet");
  stop_instance = λ timeout t. (t, raised "busy");
  time = λ t. t;
  sleep = λ n t. t + n;
}

abbrev breaks : Work ℕ
breaks proceed t = (t, raised "the work failed")

abbrev morning : Scene ℕ
morning = record { world = 0; calls = [] }

program : Unit {0}
unfolding running_for_task wait_until_reachable queried_state is_off
program = tt

task :
    running_for_task machine 300 300 breaks morning
    ≡ some (
      raised "the work failed",
      record {
        world = 20;
        calls =
            start 300 done
            ∷ probe false
            ∷ pause 10
            ∷ probe false
            ∷ pause 10
            ∷ probe true
            ∷ body true (raised "the work failed")
            ∷ stop 300 (raised "busy")
            ∷ [];
      },
    )
unfolding program
task = refl

clock : IsClock machine
clock = record { session_ahead = λ t. omega arith; sleep_ahead = λ n t. omega arith }

wait_until_reachable-IsWaited_example : IsWaited morning (wait_until_reachable machine 300 morning)
wait_until_reachable-IsWaited_example = wait_until_reachable-IsWaited machine clock 300 morning

running_for_task-IsBounded_example :
    (o : Outcome) × (s' : Scene ℕ) × (running_for_task machine 300 300 breaks morning
      ≡ some (o, s'))
    × IsBounded 300 morning o s'
unfolding program
running_for_task-IsBounded_example =
    running_for_task-IsBounded machine clock 300 300 breaks morning refl refl

abbrev silent : Runtime ℕ
silent = record machine { can_query_instance_power_state = false }

running_for_task-untouched_example :
    (o : Outcome) × (s' : Scene ℕ) × (running_for_task silent 300 300 breaks morning ≡ some (o, s'))
    × (s'.calls ≡ body true o ∷ [])
unfolding program
running_for_task-untouched_example = running_for_task-untouched silent 300 300 breaks morning refl
