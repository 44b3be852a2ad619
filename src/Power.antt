-- ===== src/Power.antt =====
-- packages/contract/src/cs_image_system/contract/power_state.py: the power state of a machine in
-- the system's words; packages/base/src/cs_image_system/base/power_state.py: the bounded task that
-- may start a machine. `none` is the answer of a runtime that could not be asked.
pub mod Task
pub mod Wait
pub mod Restore
mod Tests
use cs_image_system.Base.{
  ℕ, String, Bool, true, false, not, ◌&&◌, Option, none, some, List, [], ◌∷◌, mem, ◌==◌,
}

abbrev pub running : String
running = "running"

abbrev pub stopped : String
stopped = "stopped"

abbrev pub suspended : String
suspended = "suspended"

abbrev pub absent : String
absent = "absent"

abbrev pub unknown : String
unknown = "unknown"

unfoldable pub off_states : List String
off_states = stopped ∷ suspended ∷ []

unfoldable pub is_off : Option String → Bool
unfolding off_states
is_off none = false
is_off (some state) = mem state off_states

unfoldable pub is_on : Option String → Bool
is_on none = false
is_on (some state) = state == running

unfoldable pub exists : Option String → Bool
exists none = false
exists (some state) = not (mem state (absent ∷ unknown ∷ []))

-- How a call ends.
pub data Outcome : Type 0 where
  done : Outcome
  raised : (what : String) → Outcome

-- A session command: its return code, or the exception.
pub data Session : Type 0 where
  returned : (rc : ℕ) → Session
  failed : (what : String) → Session

-- A runtime plugin and the clock, over a world `W` that their calls change.
pub record Runtime (W : Type 0) : Type 0 where
  pub can_query_instance_power_state : Bool
  pub query_instance_power_state : W → Option String
  pub can_set_instance_power_state : Bool
  pub start_instance : (timeout : ℕ) → W → W × Outcome
  pub run_session_command : W → W × Session
  pub stop_instance : (timeout : ℕ) → W → W × Outcome
  pub time : W → ℕ
  pub sleep : ℕ → W → W

-- The calls that a task makes, each with what it gave.
pub data Call : Type 0 where
  start : (timeout : ℕ) → Outcome → Call
  probe : (reached : Bool) → Call
  pause : (seconds : ℕ) → Call
  body : (proceed : Bool) → Outcome → Call
  stop : (timeout : ℕ) → Outcome → Call

pub record Scene (W : Type 0) : Type 0 where
  pub world : W
  pub calls : List Call
