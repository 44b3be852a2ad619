-- ===== src/Storage.antt =====
-- packages/base/src/cs_image_system/base/storage_state.py, models/storage.py and the storage part
-- of meta_state.py: the data of the storage state machine. A `Ctx` holds what the functions read
-- of the run context: the declarations, the builders, and the recorded states.
pub mod Record
pub mod Transitions
pub mod Validate
pub mod Moves
pub mod Admissible
pub mod Settling
pub mod Undeclared
pub mod Converge
pub mod History
pub mod Run
mod Tests
use cs_image_system.Base.{ℕ, String, Bool, true, false, ◌&&◌, Option, none, some, List, [], ◌∷◌}
use cs_image_system.Base.Dict.{Dict}

pub data State : Type 0 where
  active archived destroyed : State

unfoldable pub state_eq : State → State → Bool
state_eq active active = true
state_eq archived archived = true
state_eq destroyed destroyed = true
state_eq _ _ = false

-- `None` is a storage that was never applied.
unfoldable pub option_state_eq : Option State → Option State → Bool
unfolding state_eq
option_state_eq none none = true
option_state_eq (some a) (some b) = state_eq a b
option_state_eq _ _ = false

-- A declared storage: `state` is the requested state.
pub record Storage : Type 0 where
  pub name : String
  pub type_ : String
  pub state : State
  pub bucket_name : Option String

unfoldable pub is_attachable : Storage → Bool
unfolding state_eq
is_attachable s = state_eq s.state active

-- What the state machine asks of a storage builder: a method that a builder lacks is `none`.
pub record Builder : Type 0 where
  pub capability_type : Option String
  pub model_bucket_name : Option String
  pub supports_archive : Bool
  pub archive_name : Option (Storage → String)

-- An instance with the names of the storages that it mounts.
pub record Instance : Type 0 where
  pub name : String
  pub storage_mappings : List String

pub data Action : Type 0 where
  undeclared regenerate : Action

pub record Transition : Type 0 where
  pub storage : String
  pub from_state : Option State
  pub to_state : State
  pub is_undeclared : Bool
  pub builder : Option String

-- The property `action` of a transition.
unfoldable pub action : Transition → Option Action
unfolding option_state_eq
action t = elim t.is_undeclared [
  | true ↦ some undeclared
  | false ↦ elim (option_state_eq t.from_state (some destroyed) && state_eq t.to_state active) [
    | true ↦ some regenerate
    | false ↦ none
  ]
]

pub record Event : Type 0 where
  pub from_state : Option State
  pub to_state : State
  pub run : String
  pub generation : ℕ
  pub action : Option Action

-- One record of `storage-state.yaml`. Records from before the generation counter have none.
pub record Entry : Type 0 where
  pub state : State
  pub generation : Option ℕ
  pub facts : Dict String
  pub history : List Event

abbrev pub States : Type 0
States = Dict Entry

pub record Ctx : Type 0 where
  pub storages : List Storage
  pub instances : List Instance
  pub storage_builders : Dict Builder
  pub states : States
  pub read_model : Dict (Option String)
  pub run_id : String
