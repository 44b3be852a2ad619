-- ===== src/Lifecycles/Registry.antt =====
-- lifecycles.py: registration, the order of all lifecycles, and the resolution of names.
use cs_image_system.Base.{
  String, Bool, true, not, ◌||◌, Option, none, some, List, [], ◌∷◌, ◌++◌, map, any, mem, select,
  or_else, ◌==◌, if◌then◌else◌,
}
use cs_image_system.Base.Dict.{Dict, get, put, del, values}
use cs_image_system.Base.Strip.{strip}
use cs_image_system.Base.Words.{◌+++◌, lower, mentions}
use cs_image_system.Lifecycles.Builtin.{
  Lifecycle, identity, storage, base_image, instance_image, builtin_value, lifecycle_order,
  lifecycle_phases, lifecycle_builder_vcts,
}
use cs_image_system.Lifecycles.{LifecycleSpec, LifecycleLike, builtin, plugin, value, spec_eq}

abbrev pub Registry : Type 0
Registry = Dict LifecycleSpec

-- Right after the first lifecycle of the value, or last.
unfoldable pub insert_after : String → LifecycleLike → List LifecycleLike → List LifecycleLike
unfolding value
insert_after anchor lc [] = lc ∷ []
insert_after anchor lc (x ∷ xs) =
    if value x == anchor then x ∷ lc ∷ xs else x ∷ insert_after anchor lc xs

unfoldable pub place : List LifecycleLike → LifecycleSpec → List LifecycleLike
unfolding insert_after
place order spec = elim spec.after [
  | none ↦ order ++ plugin spec ∷ []
  | some anchor ↦ insert_after anchor (plugin spec) order
]

unfoldable pub place_all : List LifecycleLike → List LifecycleSpec → List LifecycleLike
unfolding place
place_all order [] = order
place_all order (spec ∷ pending) = place_all (place order spec) pending

unfoldable pub all_lifecycles : Registry → List LifecycleLike
unfolding place_all lifecycle_order
all_lifecycles registered = place_all (map builtin lifecycle_order) (values registered)

pub data RegisterError : Type 0 where
  invalid_name : (name : String) → RegisterError
  built_in : (name : String) → RegisterError
  unknown_anchor : (name : String) → (after : String) → RegisterError
  other_definition : (name : String) → RegisterError

pub data Registered : Type 0 where
  registered : Registry → LifecycleSpec → Registered
  refused : RegisterError → Registered

-- `name.strip().lower()`
unfoldable pub key_of : String → String
unfolding strip lower
key_of name = lower (strip name)

unfoldable pub is_known_anchor : Registry → Option String → Bool
unfolding all_lifecycles value
is_known_anchor reg none = true
is_known_anchor reg (some anchor) =
    any (λ (lc : LifecycleLike). value lc == anchor) (all_lifecycles reg)

unfoldable pub register_lifecycle : Registry → LifecycleSpec → Registered
unfolding key_of is_known_anchor spec_eq lifecycle_order builtin_value
register_lifecycle reg spec =
    let name = key_of spec.name in
    if name == "" || name == "all" || mentions 47 name
    then refused (invalid_name spec.name)
    else if any (λ (lc : Lifecycle). builtin_value lc == name) lifecycle_order
    then refused (built_in name)
    else if not (is_known_anchor reg spec.after)
    then refused (unknown_anchor name (or_else spec.after ""))
    else elim (get reg name) [
      | some existing ↦
          if spec_eq existing spec then registered reg existing else refused (other_definition name)
      | none ↦ registered (put reg name spec) spec
    ]

unfoldable pub unregister_lifecycle : Registry → String → Registry
unregister_lifecycle reg name = del reg name

unfoldable pub aliases : Dict Lifecycle
aliases =
    ("identity", identity)
    ∷ ("id", identity)
    ∷ ("storage", storage)
    ∷ ("storages", storage)
    ∷ ("base-image", base_image)
    ∷ ("base-images", base_image)
    ∷ ("base", base_image)
    ∷ ("instance-image", instance_image)
    ∷ ("instance-images", instance_image)
    ∷ ("instances", instance_image)
    ∷ []

unfoldable pub lifecycle_named : Registry → String → Option LifecycleLike
unfolding key_of aliases
lifecycle_named reg name = elim (get aliases (key_of name)) [
  | some lc ↦ some (builtin lc)
  | none ↦ elim (get reg (key_of name)) [ none ↦ none | some spec ↦ some (plugin spec) ]
]

unfoldable pub phases_of : LifecycleLike → List String
unfolding lifecycle_phases
phases_of (builtin lc) = lifecycle_phases lc
phases_of (plugin spec) = spec.phases

unfoldable pub builder_vcts_of : LifecycleLike → List String
unfolding lifecycle_builder_vcts
builder_vcts_of (builtin lc) = lifecycle_builder_vcts lc
builder_vcts_of (plugin spec) = spec.builder_vcts

unfoldable pub runner_script_name : LifecycleLike → String
unfolding value
runner_script_name lc = "run-" +++ value lc +++ ".sh"

pub data Parsed : Type 0 where
  parsed : List LifecycleLike → Parsed
  unknown_lifecycle : (name : String) → Parsed

pub data Chosen : Type 0 where
  chosen : List String → Chosen
  no_such : (name : String) → Chosen

abbrev and_value : String → Chosen → Chosen
and_value v (chosen vs) = chosen (v ∷ vs)
and_value v (no_such name) = no_such name

-- The values of the named lifecycles, or the first name that is unknown.
unfoldable pub selected_values : Registry → List String → Chosen
unfolding lifecycle_named value
selected_values reg [] = chosen []
selected_values reg (raw ∷ names) =
    let rest = selected_values reg names in
    elim (lifecycle_named reg raw) [ none ↦ no_such raw | some lc ↦ and_value (value lc) rest ]

unfoldable pub parse_lifecycles : Registry → List String → (all : Bool) → Parsed
unfolding selected_values all_lifecycles key_of value
parse_lifecycles reg names all =
    if all || any (λ n. key_of n == "all") names
    then parsed (all_lifecycles reg)
    else elim (selected_values reg names) [
      | no_such name ↦ unknown_lifecycle name
      | chosen vs ↦ parsed (select (λ lc. mem (value lc) vs) (all_lifecycles reg))
    ]
