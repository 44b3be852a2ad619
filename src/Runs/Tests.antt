-- ===== src/Runs/Tests.antt =====
-- A plan of two bakes, and a plan of two destroys.
use cs_image_system.Base.{
  ◌≡◌, ◌↔◌, ◌⊎◌, ◌||◌, refl, true, false, none, some, List, [], ◌∷◌, All, mem,
}
use cs_image_system.Base.Dict.{Dict}
use cs_image_system.Base.Sorting.{sorted, insert}
use cs_image_system.Base.Strip.{strip, lstrip, rstrip}
use cs_image_system.Base.Words.{mentions, after_last}
use cs_image_system.Apply.{unset, one}
use cs_image_system.Lineage.{forced}
use cs_image_system.Lineage.Decision.{Planned, bakes}
use cs_image_system.Runs.Scope.{
  ScopeCtx, runtime_of_root, named_runtime, add_entry, add_entries, add_flag, add_flags,
  first_named, apply_scope_runtimes, is_bake, is_outside, outside_keys, unscoped_bakes, refusal,
  check_bake_scope,
}
use cs_image_system.Runs.Gate.{Change, planned_destroys, covers, gate_plan}
use cs_image_system.Runs.Reach.{HasNoScope}
use cs_image_system.Runs.Inside.{IsReached, check_bake_scope-none_iff}
use cs_image_system.Runs.Sanctioned.{IsSanctioned, gate_plan-nil_iff}

program : Unit {0}
unfolding sorted insert strip lstrip rstrip mentions after_last runtime_of_root named_runtime
    add_entry add_entries add_flag add_flags first_named apply_scope_runtimes is_bake is_outside
    outside_keys unscoped_bakes refusal check_bake_scope planned_destroys covers gate_plan
program = tt

abbrev ctx : ScopeCtx
ctx = record {
  apply_runtime = none;
  apply_flags = unset ∷ one " ec2 " ∷ [];
  runtimes = "aws" ∷ "gcloud" ∷ [];
  roots = record { name = "ec2"; runtime = some "aws" } ∷ [];
  dry_run = false;
  allow_unscoped_bakes = false;
  explicit_bake_selection = false;
}

abbrev plan : Dict Planned
plan = ("web@gcloud", bakes forced) ∷ ("web@aws", bakes forced) ∷ []

refuses_gcloud :
    check_bake_scope ctx plan ≡ some (record { scope = "aws" ∷ []; outside = "web@gcloud" ∷ [] })
unfolding program
refuses_gcloud = refl

check_bake_scope-none_iff_example :
    (check_bake_scope ctx plan ≡ none)
    ↔ ((false || false || false ≡ true) ⊎ HasNoScope ctx ⊎ All (IsReached ctx) plan)
check_bake_scope-none_iff_example = check_bake_scope-none_iff ctx plan

abbrev changes : List Change
changes =
    record { address = "module.web.vm"; actions = "delete" ∷ "create" ∷ [] }
    ∷ record { address = "module.website.vm"; actions = "delete" ∷ [] }
    ∷ []

gates_website : gate_plan changes ("module.web" ∷ []) [] ≡ "module.website.vm" ∷ []
unfolding program
gates_website = refl

gate_plan-nil_iff_example :
    (gate_plan changes ("module.web" ∷ []) [] ≡ [])
    ↔ All
        (λ (c : Change).
          mem "delete" c.actions ≡ true → IsSanctioned ("module.web" ∷ []) [] c.address)
        changes
gate_plan-nil_iff_example = gate_plan-nil_iff changes ("module.web" ∷ []) []
