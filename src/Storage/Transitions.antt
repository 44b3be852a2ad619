-- ===== src/Storage/Transitions.antt =====
-- storage_state.py: which instances attach a storage, which transitions a run has to make, and
-- their recording once the storage runner has completed.
use mathlib.Core.List.{map}
use cs_image_system.Base.{
  String, Bool, true, false, ◌||◌, Option, none, some, List, [], ◌∷◌, ◌++◌, or_else, truthy, mem,
  if◌then◌else◌,
}
use cs_image_system.Base.Dict.{Dict, get, put}
use cs_image_system.Base.Sorting.{sorted, text_le}
use cs_image_system.Storage.{
  destroyed, state_eq, option_state_eq, Storage, Builder, Instance, Transition, action, Entry,
  States, Ctx,
}
use cs_image_system.Storage.Record.{storage_state, record_storage_transition}

-- `out.setdefault(mapping, []).append(inst)`, over the mappings of one instance.
unfoldable pub attach : Dict (List String) → String → List String → Dict (List String)
attach out inst [] = out
attach out inst (m ∷ ms) = attach (put out m (or_else (get out m) [] ++ inst ∷ [])) inst ms

unfoldable pub attach_all : Dict (List String) → List Instance → Dict (List String)
unfolding attach
attach_all out [] = out
attach_all out (i ∷ rest) = attach_all (attach out i.name i.storage_mappings) rest

unfoldable pub attachments : List Instance → Dict (List String)
unfolding attach_all
attachments instances = attach_all [] instances

-- `{s.get_name(): s for s in ctx.storages}`
unfoldable pub by_name_from : Dict Storage → List Storage → Dict Storage
by_name_from d [] = d
by_name_from d (s ∷ rest) = by_name_from (put d s.name s) rest

unfoldable pub by_name : List Storage → Dict Storage
unfolding by_name_from
by_name storages = by_name_from [] storages

unfoldable pub names : List Storage → List String
names storages = map (λ (s : Storage). s.name) storages

unfoldable pub pending_from : States → List Storage → List Transition
unfolding option_state_eq
pending_from states [] = []
pending_from states (s ∷ rest) =
    let cur = storage_state states s.name in
    let later = pending_from states rest in
    if option_state_eq cur (some s.state)
    then later
    else record {
      storage = s.name;
      from_state = cur;
      to_state = s.state;
      is_undeclared = false;
      builder = none;
    }
      ∷ later

unfoldable pub pending_transitions : Ctx → List Transition
unfolding pending_from
pending_transitions ctx = pending_from ctx.states ctx.storages

-- The owning root of an undeclared storage: its record's facts, or the last read-model.
unfoldable pub owning_builder : Dict (Option String) → String → Entry → Option String
owning_builder read_model name e =
    let recorded = get e.facts "builder" in
    if truthy recorded then recorded else or_else (get read_model name) none

unfoldable pub undeclared_from :
    List String → Dict (Option String) → List (String × Entry) → List Transition
unfolding state_eq owning_builder
undeclared_from declared read_model [] = []
undeclared_from declared read_model ((name, e) ∷ rest) =
    let later = undeclared_from declared read_model rest in
    if mem name declared || state_eq e.state destroyed
    then later
    else record {
      storage = name;
      from_state = some e.state;
      to_state = destroyed;
      is_undeclared = true;
      builder = owning_builder read_model name e;
    }
      ∷ later

unfoldable pub entry_le : String × Entry → String × Entry → Bool
entry_le a b = text_le a.0 b.0

unfoldable pub undeclared_transitions : Ctx → List Transition
unfolding undeclared_from names entry_le
undeclared_transitions ctx =
    undeclared_from (names ctx.storages) ctx.read_model (sorted entry_le ctx.states)

unfoldable pub all_transitions : Ctx → List Transition
all_transitions ctx = pending_transitions ctx ++ undeclared_transitions ctx

optional : String → Option String → Dict String → Dict String
optional key none facts = facts
optional key (some v) facts = put facts key v

-- `getattr(storage, key, None) or getattr(builder.model, key, None)`, kept when it is not empty.
bucket_fact : Storage → Option Builder → Option String
bucket_fact s builder =
    let of_model : Option String = elim builder [ none ↦ none | some b ↦ b.model_bucket_name ] in
    let found = if truthy s.bucket_name then s.bucket_name else of_model in
    if truthy found then found else none

archive_fact : Storage → Option Builder → Option String
archive_fact s none = none
archive_fact s (some b) = elim b.archive_name [
  | none ↦ none
  | some archive ↦ if b.supports_archive then some (archive s) else none
]

capability_fact : Option Builder → Option String
capability_fact none = none
capability_fact (some b) = b.capability_type

unfoldable pub storage_facts : Ctx → Storage → Dict String
unfolding optional bucket_fact archive_fact capability_fact
storage_facts ctx s =
    let builder = get ctx.storage_builders s.type_ in
    optional "archive" (archive_fact s builder) (
      optional "bucket_name" (bucket_fact s builder)
        (optional "type" (capability_fact builder) (("builder", s.type_) ∷ [])))

unfoldable pub facts_of : Ctx → Option Storage → Option (Dict String)
facts_of ctx none = none
facts_of ctx (some s) = some (storage_facts ctx s)

unfoldable pub record_applied_transitions : Ctx → List Transition → States → States
unfolding facts_of
record_applied_transitions ctx [] states = states
record_applied_transitions ctx (t ∷ rest) states = record_applied_transitions ctx rest (
    record_storage_transition states t.storage t.from_state t.to_state ctx.run_id (action t)
      (facts_of ctx (get (by_name ctx.storages) t.storage)))
