-- ===== src/Generations/Record.antt =====
-- meta_state.py: the operations on the record of generations.
use cs_image_system.Base.{
  ℕ, String, Bool, true, false, not, ◌&&◌, ◌||◌, Option, none, some, [], ◌∷◌, ◌++◌, truthy,
  option_eq, if◌then◌else◌,
}
use cs_image_system.Base.Dict.{get, put}
use cs_image_system.Generations.{
  Params, Kind, How, observed, inferred, Why, Identity, Generation, Item, closed, resized, counter,
  advance, Entry, Instances, already_open, Result, ok, err,
}

unfoldable pub entry_or_new : Option Entry → Entry
entry_or_new none = record {
  generation = record { durable = 0; ephemeral = 0 };
  current = none;
  history = [];
}
entry_or_new (some e) = e

unfoldable pub instance_generation : Instances → String → Kind → ℕ
unfolding entry_or_new counter
instance_generation is name kind = counter (entry_or_new (get is name)).generation kind

unfoldable pub current_generation : Instances → String → Option Generation
unfolding entry_or_new
current_generation is name = (entry_or_new (get is name)).current

-- `str(identity[k])`, kept when there is an answer that is not empty.
unfoldable pub answered : Option String → Option String
answered v = if truthy v then v else none

identity_id : Option Identity → Option String
identity_id none = none
identity_id (some i) = answered i.instance_id

identity_host : Option Identity → Option String
identity_host none = none
identity_host (some i) = answered i.provider_hostname

unfoldable pub opened : Entry → Kind → String → How → Params → Option Identity → String → Entry
unfolding counter advance identity_id identity_host answered
opened e kind run how params identity now =
    let counters = advance e.generation kind in
    record {
      generation = counters;
      current = some (record {
        number = counter counters kind;
        kind = kind;
        how = how;
        opened_run = run;
        opened_at = now;
        launch_params = params;
        instance_id = identity_id identity;
        provider_hostname = identity_host identity;
      });
      history = e.history;
    }

-- Refuses to open over an open one.
unfoldable pub open_generation :
    Instances → String → Kind → String → How → Params → Option Identity → String → Result Instances
unfolding entry_or_new opened
open_generation is name kind run how params identity now =
    let e = entry_or_new (get is name) in
    elim e.current [
      | some g ↦ err (already_open name g.kind g.number)
      | none ↦ ok (put is name (opened e kind run how params identity now))
    ]

-- One field of the identity: written when there is an answer that differs.
unfoldable pub moves : Option String → Option String → Bool
moves old v = truthy v && not (option_eq old v)

unfoldable pub noted : Generation → Identity → Generation
unfolding moves
noted g i = record g {
  instance_id = if moves g.instance_id i.instance_id then i.instance_id else g.instance_id;
  provider_hostname =
      if moves g.provider_hostname i.provider_hostname
      then i.provider_hostname
      else g.provider_hostname;
  how = elim g.how [ inferred ↦ observed | other ↦ other ];
}

unfoldable pub noted_entry : Entry → Generation → Identity → Entry
unfolding noted
noted_entry e g i = record e { current = some (noted g i) }

unfoldable pub is_changed : Generation → Identity → Bool
unfolding moves
is_changed g i = moves g.instance_id i.instance_id || moves g.provider_hostname i.provider_hostname

unfoldable pub note_generation_identity : Instances → String → Identity → Instances × Bool
unfolding entry_or_new
note_generation_identity is name i =
    let e = entry_or_new (get is name) in
    elim e.current [
      | none ↦ (is, false)
      | some g ↦ if is_changed g i then (put is name (noted_entry e g i), true) else (is, false)
    ]

unfoldable pub resized_entry :
    Entry → Generation → (run : String) → (from_type : String) → (to_type : String) → String → Entry
resized_entry e g run from_type to_type now = record e {
  current =
      some (record g { launch_params = record g.launch_params { machine_type = some to_type } });
  history = e.history ++ resized g.kind g.number from_type to_type run now ∷ [];
}

unfoldable pub note_generation_resized :
    Instances → String → String → String → String → String → Instances × Bool
unfolding entry_or_new
note_generation_resized is name run from_type to_type now =
    let e = entry_or_new (get is name) in
    elim e.current [
      | none ↦ (is, false)
      | some g ↦ (put is name (resized_entry e g run from_type to_type now), true)
    ]

unfoldable pub closed_entry : Entry → Generation → String → Why → String → Entry
closed_entry e g run why now = record e {
  current = none;
  history = e.history ++ closed g run why now ∷ [];
}

-- Moves the open generation into the history.
unfoldable pub close_generation :
    Instances → String → String → Why → String → Instances × Option Item
unfolding entry_or_new
close_generation is name run why now =
    let e = entry_or_new (get is name) in
    elim e.current [
      | none ↦ (is, none)
      | some g ↦ (put is name (closed_entry e g run why now), some (closed g run why now))
    ]
