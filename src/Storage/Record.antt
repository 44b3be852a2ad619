-- ===== src/Storage/Record.antt =====
-- meta_state.py: the authoritative state of each storage, its generation and its history.
use cs_image_system.Base.{
  ℕ, ◌+◌, String, ◌&&◌, Option, none, some, [], ◌∷◌, ◌++◌, or_else, num_eq, if◌then◌else◌,
}
use cs_image_system.Base.Dict.{Dict, get, put, update}
use cs_image_system.Storage.{
  State, active, destroyed, state_eq, option_state_eq, Action, Entry, States,
}

-- The two ways in which an entry's state is read.
unfoldable pub entry_state : Option Entry → Option State
entry_state none = none
entry_state (some e) = some e.state

unfoldable pub storage_state : States → String → Option State
unfolding entry_state
storage_state states name = entry_state (get states name)

-- `int(entry.get("generation") or 1)`
unfoldable pub counted : Option ℕ → ℕ
counted none = 1
counted (some n) = if num_eq n 0 then 1 else n

entry_generation : Option Entry → ℕ
unfolding counted
entry_generation none = 1
entry_generation (some e) = counted e.generation

unfoldable pub storage_generation : States → String → ℕ
unfolding entry_generation
storage_generation states name = entry_generation (get states name)

-- `setdefault(name, {"state": to_state, "history": []})`
unfoldable pub entry_or_new : Option Entry → State → Entry
entry_or_new none to = record { state = to; generation = none; facts = []; history = [] }
entry_or_new (some e) to = e

-- The counter after the transition: a destroyed storage that is declared again is a new generation.
unfoldable pub next_generation : Option ℕ → Option State → State → ℕ
unfolding counted option_state_eq
next_generation generation from to =
    let start = or_else generation 1 in
    if option_state_eq from (some destroyed) && state_eq to active
    then counted (some start) + 1
    else start

merge_facts : Dict String → Option (Dict String) → Dict String
merge_facts old none = old
merge_facts old (some new) = update old new

-- The entry that a transition leaves behind.
unfoldable pub moved :
    Entry → Option State → State → String → Option Action → Option (Dict String) → Entry
unfolding next_generation merge_facts
moved e from to run action facts =
    let n = next_generation e.generation from to in
    record {
      state = to;
      generation = some n;
      facts = merge_facts e.facts facts;
      history =
          e.history
          ++ record { from_state = from; to_state = to; run = run; generation = n; action = action }
            ∷ [];
    }

unfoldable pub record_storage_transition :
    States → String → Option State → State → String → Option Action → Option (Dict String) → States
unfolding entry_or_new moved
record_storage_transition states name from to run action facts =
    put states name (moved (entry_or_new (get states name) to) from to run action facts)
