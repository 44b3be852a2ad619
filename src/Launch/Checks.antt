-- ===== src/Launch/Checks.antt =====
-- launch_params.py: the checks before a run: launch parameters are immutable after the launch, and a
-- hostname is claimed once.
use cs_image_system.Base.{
  String, Bool, true, false, not, ◌&&◌, ◌||◌, Option, none, some, List, [], ◌∷◌, ◌++◌, map, select,
  mem, length, ltb, truthy, or_else, option_eq, ◌==◌, if◌then◌else◌,
}
use cs_image_system.Base.Dict.{Dict, get, has, keys}
use cs_image_system.Base.Sorting.{sorted, text_le}
use cs_image_system.Lifecycles.Builtin.{Lifecycle, is_instance_image}
use cs_image_system.Apply.{apply_flag_allows}
use cs_image_system.Generations.{Params, Mount}
use cs_image_system.Launch.{LaunchInstance, Server, LaunchCtx, LaunchState}
use cs_image_system.Launch.Names.{
  recorded_of, follows, canonical_hostname, compute_launch_params, detachments,
}
use cs_image_system.Launch.Record.{is_applied}

-- Two mappings are equal when each has the other's keys with the same values.
unfoldable pub holds_all : Dict String → Dict String → Bool
holds_all [] e = true
holds_all ((k, v) ∷ d) e = option_eq (get e k) (some v) && holds_all d e

unfoldable pub dict_eq : Dict String → Dict String → Bool
dict_eq d e = holds_all d e && holds_all e d

unfoldable pub mounts_eq : List Mount → List Mount → Bool
mounts_eq [] [] = true
mounts_eq (m ∷ ms) (n ∷ ns) =
    m.storage == n.storage && dict_eq m.settings n.settings && mounts_eq ms ns
mounts_eq _ _ = false

bool_eq : Bool → Bool → Bool
bool_eq true b = b
bool_eq false b = not b

-- `_comparable` without the machine type: the keys that differ, of those that have a field.
unfoldable pub changed_fields : Params → Params → List String
unfolding bool_eq
changed_fields old new =
    (if option_eq old.alias new.alias then [] else "alias" ∷ [])
    ++ (if bool_eq old.ephemeral new.ephemeral then [] else "ephemeral" ∷ [])
    ++ (if option_eq old.group new.group then [] else "group" ∷ [])
    ++ (if option_eq old.hostname new.hostname then [] else "hostname" ∷ [])
    ++ (if mounts_eq old.mounts new.mounts then [] else "mounts" ∷ [])

unfoldable pub changed_others : Dict String → Dict String → List String → List String
changed_others d e [] = []
changed_others d e (k ∷ ks) =
    let rest = changed_others d e ks in
    if option_eq (get d k) (get e k) || mem k rest then rest else k ∷ rest

unfoldable pub changed_keys : Params → Params → List String
changed_keys old new = sorted text_le (
    changed_fields old new
    ++ changed_others old.others new.others (keys old.others ++ keys new.others))

-- The record without the mounts of these storages.
unfoldable pub without_mounts : Params → List Mount → Params
without_mounts p removed = record p {
  mounts = select (λ m. not (mem m.storage (map (λ (r : Mount). r.storage) removed))) p.mounts;
}

pub record Changed : Type 0 where
  pub name : String
  pub launched_run : Option String
  pub keys_changed : List String

abbrev pub is_nil : {A : Type 0} → List A → Bool
is_nil [] = true
is_nil (x ∷ xs) = false

-- The two records agree, or the new one is the old one after a detach.
unfoldable pub is_same_launch : Params → Params → List Mount → Bool
is_same_launch old new removed =
    is_nil (changed_keys old new)
    || not (is_nil removed) && is_nil (changed_keys (without_mounts old removed) new)

unfoldable pub instance_changes : LaunchCtx → LaunchState → LaunchInstance → List Changed
instance_changes ctx st i = elim (recorded_of st i.pinned.name) [
  | none ↦ []
  | some old ↦
      let new = compute_launch_params ctx st i in
      if not old.launched
        || has st.pins.pending_replacements i.pinned.name
        || follows ctx st i
        || is_same_launch old new (detachments st i)
      then []
      else record {
        name = i.pinned.name;
        launched_run = old.launched_run;
        keys_changed = changed_keys old new;
      }
        ∷ []
]

unfoldable pub changes_of : LaunchCtx → LaunchState → List LaunchInstance → List Changed
changes_of ctx st [] = []
changes_of ctx st (i ∷ rest) = instance_changes ctx st i ++ changes_of ctx st rest

unfoldable pub validate_immutability : LaunchCtx → LaunchState → List Changed
validate_immutability ctx st = changes_of ctx st ctx.instances

pub data ClaimError : Type 0 where
  no_answer : (name : String) → (hostname : String) → ClaimError
  taken : (name : String) → (hostname : String) → (claims : List Server) → ClaimError
  ambiguous : (name : String) → (hostname : String) → (claims : List Server) → ClaimError

unfoldable pub is_launched : Option Params → Bool
is_launched none = false
is_launched (some p) = p.launched

-- The verdict on a hostname by the answer of the registry.
unfoldable pub claim_verdict : String → String → Bool → Option (List Server) → Option ClaimError
claim_verdict name hostname launched none = some (no_answer name hostname)
claim_verdict name hostname launched (some servers) =
    let claims = select (λ (s : Server). s.hostname == hostname) servers in
    if not launched && ltb 0 (length claims)
    then some (taken name hostname claims)
    else if launched && ltb 1 (length claims)
    then some (ambiguous name hostname claims)
    else none

unfoldable pub registry_of : LaunchCtx → LaunchInstance → Option (Option (List Server))
registry_of ctx i = if truthy i.group then ctx.registered_servers (or_else i.group "") else none

unfoldable pub claim_error : LaunchCtx → LaunchState → LaunchInstance → Option ClaimError
claim_error ctx st i = elim (if is_applied ctx i then registry_of ctx i else none) [
  | none ↦ none
  | some answer ↦
      claim_verdict i.pinned.name (canonical_hostname ctx st i)
        (is_launched (recorded_of st i.pinned.name)) answer
]

unfoldable pub claim_errors : LaunchCtx → LaunchState → List LaunchInstance → List ClaimError
claim_errors ctx st [] = []
claim_errors ctx st (i ∷ rest) =
    let errors = claim_errors ctx st rest in
    elim (claim_error ctx st i) [ none ↦ errors | some e ↦ e ∷ errors ]

unfoldable pub requests_instances : List Lifecycle → Bool
requests_instances [] = false
requests_instances (l ∷ ls) = is_instance_image l || requests_instances ls

-- The registries are asked only by a run that can launch.
unfoldable pub validate_claimed_hostnames :
    LaunchCtx → LaunchState → List Lifecycle → List ClaimError
validate_claimed_hostnames ctx st requested =
    if requests_instances requested
      && apply_flag_allows ctx.apply_instances none []
      && not ctx.dry_run
    then claim_errors ctx st ctx.instances
    else []
