-- ===== src/Runs/Scope.antt =====
-- run_scope.py: a real run bakes on the runtimes that it may apply on, unless the operator overrides.
use cs_image_system.Base.{
  String, Bool, true, false, not, ◌&&◌, ◌||◌, Option, none, some, List, [], ◌∷◌, ◌++◌, mem,
  distinct, truthy, or_else, ◌==◌, if◌then◌else◌,
}
use cs_image_system.Base.Dict.{Dict}
use cs_image_system.Base.Sorting.{sorted, text_le}
use cs_image_system.Base.Strip.{strip}
use cs_image_system.Base.Words.{after_last}
use cs_image_system.Apply.{Flag, unset, switch, one, several}
use cs_image_system.Lineage.Decision.{Planned, bakes}

-- A root of a storage or instance builder.
pub record Root : Type 0 where
  pub name : String
  pub runtime : Option String

pub record ScopeCtx : Type 0 where
  pub apply_runtime : Option String
  pub apply_flags : List Flag
  pub runtimes : List String
  pub roots : List Root
  pub dry_run : Bool
  pub allow_unscoped_bakes : Bool
  pub explicit_bake_selection : Bool

-- The first root of the name, and its runtime.
unfoldable pub runtime_of_root : List Root → String → Option String
runtime_of_root [] name = none
runtime_of_root (r ∷ rest) name =
    let later = runtime_of_root rest name in
    if r.name == name then if truthy r.runtime then r.runtime else none else later

-- The runtimes that were named so far, and whether any name was given.
pub record Named : Type 0 where
  pub scoped : List String
  pub restricted : Bool

unfoldable pub named_runtime : ScopeCtx → String → Option String
named_runtime ctx name = if mem name ctx.runtimes then some name else runtime_of_root ctx.roots name

unfoldable pub add_entry : ScopeCtx → Named → String → Named
add_entry ctx n entry =
    let name = strip entry in
    if name == "" then n else record {
      scoped = elim (named_runtime ctx name) [ none ↦ n.scoped | some rt ↦ n.scoped ++ rt ∷ [] ];
      restricted = true;
    }

unfoldable pub add_entries : ScopeCtx → Named → List String → Named
add_entries ctx n [] = n
add_entries ctx n (entry ∷ rest) = add_entries ctx (add_entry ctx n entry) rest

-- A flag that is on lets every root apply: the run has no scope.
unfoldable pub add_flag : ScopeCtx → Named → Flag → Option Named
add_flag ctx n unset = some n
add_flag ctx n (switch true) = none
add_flag ctx n (switch false) = some n
add_flag ctx n (one entry) = some (add_entry ctx n entry)
add_flag ctx n (several entries) = some (add_entries ctx n entries)

unfoldable pub add_flags : ScopeCtx → Named → List Flag → Option Named
add_flags ctx n [] = some n
add_flags ctx n (flag ∷ rest) = elim (add_flag ctx n flag) [
  | none ↦ none
  | some n' ↦ add_flags ctx n' rest
]

unfoldable pub first_named : Option String → Named
first_named runtime =
    if truthy runtime
    then record { scoped = or_else runtime "" ∷ []; restricted = true }
    else record { scoped = []; restricted = false }

-- The runtimes that the run may apply on, or none for a run without a scope.
unfoldable pub apply_scope_runtimes : ScopeCtx → Option (List String)
apply_scope_runtimes ctx = elim (add_flags ctx (first_named ctx.apply_runtime) ctx.apply_flags) [
  | none ↦ none
  | some n ↦ if n.restricted then some n.scoped else none
]

unfoldable pub is_bake : Planned → Bool
is_bake (bakes why) = true
is_bake _ = false

-- The bake is on a runtime that is not in the scope.
unfoldable pub is_outside : List String → String × Planned → Bool
is_outside scope entry =
    let rt = after_last b'@' entry.0 in is_bake entry.1 && not (rt == "") && not (mem rt scope)

unfoldable pub outside_keys : List String → List (String × Planned) → List String
outside_keys scope [] = []
outside_keys scope (entry ∷ rest) =
    let others = outside_keys scope rest in
    if is_outside scope entry then entry.0 ∷ others else others

unfoldable pub unscoped_bakes : ScopeCtx → Dict Planned → List String
unscoped_bakes ctx plan = elim (apply_scope_runtimes ctx) [
  | none ↦ []
  | some scope ↦ outside_keys scope (sorted (λ (a b : String × Planned). text_le a.0 b.0) plan)
]

pub record Refusal : Type 0 where
  pub scope : List String
  pub outside : List String

unfoldable pub refusal : ScopeCtx → List String → Refusal
refusal ctx outside = record {
  scope = sorted text_le (distinct (or_else (apply_scope_runtimes ctx) []));
  outside = outside;
}

unfoldable pub check_bake_scope : ScopeCtx → Dict Planned → Option Refusal
check_bake_scope ctx plan = elim (unscoped_bakes ctx plan) [
  | [] ↦ none
  | key ∷ keys ↦
      if ctx.dry_run || ctx.allow_unscoped_bakes || ctx.explicit_bake_selection
      then none
      else some (refusal ctx (key ∷ keys))
]
