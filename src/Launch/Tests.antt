-- ===== src/Launch/Tests.antt =====
-- The launch of an instance, and the end of another.
use cs_image_system.Base.{String, ◌≡◌, ◌↔◌, refl, inl, true, false, ◌||◌, some, [], ◌∷◌, All, In}
use cs_image_system.Base.Strip.{strip, lstrip, rstrip}
use cs_image_system.Base.Words.{◌+++◌, lower}
use cs_image_system.Base.Sorting.{sorted, insert}
use cs_image_system.Base.Dict.{get, put, del, keys, has}
use cs_image_system.Apply.{apply_flag_allows}
use cs_image_system.Lifecycles.Builtin.{instance_image, is_instance_image}
use cs_image_system.Meta.Lineage.{series_head, builds_for_series, is_on_runtime, last, build}
use cs_image_system.Meta.Pinning.{instance_pin, clear_pending_replacement, remove_instance_pin}
use cs_image_system.Meta.Journal.{record_launch_params as put_launch_params, remove_launch_params}
use cs_image_system.Generations.{Generation, kind_of, Result, ok, err}
use cs_image_system.Generations.Record.{
  entry_or_new, instance_generation, current_generation, open_generation, close_generation, opened,
}
use cs_image_system.Generations.Flow.{on_launched, on_gone}
use cs_image_system.Lineage.Parents.{is_follow, policy_text, head_id}
use cs_image_system.Lineage.Record.{instance_follow_target, set_or_none}
use cs_image_system.Launch.{LaunchState}
use cs_image_system.Launch.Names.{
  recorded_of, follows, will_replace, padded, decimal, kind_of_instance, next_hostname,
  standing_hostname, canonical_hostname, effective_machine_type, resize_of, resized_from,
  compute_launch_params, detachments, detached_from,
}
use cs_image_system.Launch.Record.{is_applied, is_applying, with_params, record_launch_params}
use cs_image_system.Launch.Hooks.{
  declared, launched_build, launched_runtime, is_destroyed, forget, forget_name, forget_names,
  undeclared, forget_decommissioned, marked, after_launch, mark_machine, mark_entry, mark_entries,
  mark_launched, retire, retire_registration, retire_previous, booted_as,
}
use cs_image_system.Launch.Checks.{
  validate_immutability, requests_instances, validate_claimed_hostnames,
}
use cs_image_system.Launch.Marked.{IsMarked, IsDue, mark_launched-IsMarked}
use cs_image_system.Launch.Undeclared.{is_declared}
use cs_image_system.Launch.Forgetting.{IsKept}
use cs_image_system.Launch.Forgotten.{IsDecided, forget_decommissioned-IsForgotten}
use cs_image_system.Launch.Numbered.{mark_machine-hostname}
use cs_image_system.Launch.Immutable.{IsUnchanged, validate_immutability-nil_iff}
use cs_image_system.Launch.Claimed.{IsClaimable, validate_claimed_hostnames-nil_iff}
use cs_image_system.Launch.Samples.{web, with_servers, waiting, standing}

program : Unit {0}
unfolding strip lstrip rstrip lower sorted insert get put del apply_flag_allows is_instance_image
    series_head builds_for_series is_on_runtime last build instance_pin clear_pending_replacement
    remove_instance_pin put_launch_params remove_launch_params kind_of entry_or_new
    instance_generation current_generation open_generation close_generation opened on_launched
    on_gone is_follow policy_text head_id instance_follow_target set_or_none recorded_of follows
    will_replace padded decimal kind_of_instance next_hostname standing_hostname canonical_hostname
    effective_machine_type resize_of resized_from compute_launch_params detachments detached_from
    is_applied is_applying with_params record_launch_params declared launched_build launched_runtime
    is_destroyed forget forget_name forget_names undeclared forget_decommissioned marked
    after_launch mark_machine mark_entry mark_entries mark_launched retire retire_registration
    retire_previous booted_as requests_instances
program = tt

next_name : next_hostname waiting web ≡ "web-001"
unfolding program
next_name = refl

wide_number : padded 1234 ≡ "1234"
unfolding program
wide_number = refl

mark_launched-IsMarked_example :
    (st' : LaunchState) × (mark_launched (with_servers []) instance_image waiting ≡ ok st')
    × ((name : String)
        → In name (keys waiting.params)
        → IsDue (with_servers []) name
        → IsMarked (with_servers []) st' name)
unfolding program
mark_launched-IsMarked_example =
    mark_launched-IsMarked (with_servers []) instance_image waiting refl

forget_decommissioned-IsForgotten_example :
    ((name : String)
      → is_declared (with_servers []) name ≡ true
      → IsKept waiting (forget_decommissioned (with_servers []) instance_image waiting) name)
    × ((name : String)
        → has waiting.params name || has waiting.pins.instances name ≡ true
        → is_declared (with_servers []) name ≡ false
        → IsDecided
            (with_servers [])
            waiting
            (forget_decommissioned (with_servers []) instance_image waiting)
            name)
unfolding program
forget_decommissioned-IsForgotten_example =
    forget_decommissioned-IsForgotten (with_servers []) instance_image waiting refl

-- The instance that is no longer declared is among the forgotten, and its servers are retired.
forgets_old :
    (forget_decommissioned (with_servers []) instance_image waiting).retired
    ≡ record { group = "ops"; hostname = "old-001" } ∷ []
unfolding program
forgets_old = refl

state_of : Result LaunchState → LaunchState
state_of (ok st) = st
state_of (err e) = waiting

abbrev with_web : LaunchState
with_web = state_of (
    mark_machine (with_servers []) waiting "web"
      (compute_launch_params (with_servers []) waiting web) false)

mark_machine-hostname_example :
    (g : Generation) × (current_generation with_web.generations "web" ≡ some g)
    × ((compute_launch_params (with_servers []) waiting web).hostname
        ≡ some ("web" +++ "-" +++ padded g.number))
unfolding program state_of
mark_machine-hostname_example =
    mark_machine-hostname (with_servers []) waiting with_web web false (inl refl) (inl refl) refl

validate_immutability-nil_iff_example :
    (validate_immutability (with_servers []) standing ≡ [])
    ↔ All (IsUnchanged (with_servers []) standing) (web ∷ [])
validate_immutability-nil_iff_example = validate_immutability-nil_iff (with_servers []) standing

validate_claimed_hostnames-nil_iff_example :
    (validate_claimed_hostnames (with_servers []) waiting (instance_image ∷ []) ≡ [])
    ↔ All (IsClaimable (with_servers []) waiting) (web ∷ [])
unfolding program
validate_claimed_hostnames-nil_iff_example =
    validate_claimed_hostnames-nil_iff (with_servers []) waiting (instance_image ∷ []) refl refl
      refl
