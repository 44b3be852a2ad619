-- ===== src/Launch/Hooks.antt =====
-- launch_params.py: the hooks after an apply, by which machines are launched and forgotten.
use cs_image_system.Base.{
  String, Bool, true, false, not, ◌&&◌, Option, none, some, List, [], ◌∷◌, ◌++◌, map, select,
  distinct, mem, truthy, or_else, option_eq, if◌then◌else◌,
}
use cs_image_system.Base.Dict.{Dict, get, put, has, keys}
use cs_image_system.Base.Sorting.{sorted, text_le}
use cs_image_system.Meta.{Op, decommission, ephemeral_teardown}
use cs_image_system.Meta.Lineage.{build}
use cs_image_system.Meta.Pinning.{remove_instance_pin, clear_pending_replacement}
use cs_image_system.Meta.Journal.{remove_launch_params}
use cs_image_system.Apply.{apply_flag_allows}
use cs_image_system.Lifecycles.Builtin.{Lifecycle}
use cs_image_system.Generations.{
  Params, Why, decommission as by_decommission, torn_down as by_teardown, Generation, Instances,
  Result, ok, ◌>>=◌,
}
use cs_image_system.Generations.Record.{current_generation}
use cs_image_system.Generations.Flow.{on_launched, on_gone}
use cs_image_system.Launch.{LaunchInstance, LaunchCtx, Retirement, LaunchState}
use cs_image_system.Launch.Record.{is_applied, is_applying, with_params}

-- `{i.get_name(): i for i in ctx.instances}`
unfoldable pub declared : List LaunchInstance → Dict LaunchInstance → Dict LaunchInstance
declared [] out = out
declared (i ∷ rest) out = declared rest (put out i.pinned.name i)

-- The registry of the group is asked to retire the hostname.
unfoldable pub retire : LaunchCtx → List Retirement → String → String → List Retirement
retire ctx log group hostname =
    if not (truthy (some group)) then log else elim (ctx.registered_servers group) [
      | none ↦ log
      | some answer ↦ log ++ record { group = group; hostname = hostname } ∷ []
    ]

-- `_retire_registration`: by the group and the hostname of the record.
unfoldable pub retire_registration :
    LaunchCtx → List Retirement → String → Option Params → List Retirement
retire_registration ctx log name none = retire ctx log "" name
retire_registration ctx log name (some p) =
    retire ctx log (or_else p.group "") (if truthy p.hostname then or_else p.hostname "" else name)

-- The build that the machine was launched from, as far as it is recorded.
unfoldable pub launched_build : LaunchState → String → Option String
launched_build st name =
    let pin = get st.pins.instances name in
    if truthy pin then pin else elim (get st.params name) [ none ↦ none | some p ↦ p.build ]

-- The runtime of that build.
unfoldable pub launched_runtime : LaunchCtx → LaunchState → String → Option String
launched_runtime ctx st name =
    let id = launched_build st name in
    if not (truthy id) then none else elim (build ctx.bake.builds (or_else id "")) [
      | none ↦ none
      | some b ↦ if truthy b.runtime then b.runtime else none
    ]

-- The root of the machine's runtime was applied, or no runtime is known.
unfoldable pub is_destroyed : LaunchCtx → LaunchState → String → Bool
is_destroyed ctx st name = elim (launched_runtime ctx st name) [
  | none ↦ true
  | some rt ↦ apply_flag_allows ctx.apply_instances (some rt) (ctx.roots_on_runtime rt)
]

-- The generation is closed, the registration retired, and the launch record and the pin forgotten.
unfoldable pub forget : LaunchCtx → LaunchState → String → Why → Op → Bool → LaunchState
forget ctx st name why op registered = record {
  params = remove_launch_params st.params name;
  pins = remove_instance_pin st.pins name ctx.bake.run_id op;
  generations = (on_gone ctx.bake.run_id ctx.now st.generations name why).0;
  retired =
      if registered
      then retire_registration ctx st.retired name (get st.params name)
      else st.retired;
}

unfoldable pub forget_name : LaunchCtx → LaunchState → String → LaunchState
forget_name ctx st name =
    if is_destroyed ctx st name then forget ctx st name by_decommission decommission true else st

unfoldable pub forget_names : LaunchCtx → LaunchState → List String → LaunchState
forget_names ctx st [] = st
forget_names ctx st (name ∷ rest) = forget_names ctx (forget_name ctx st name) rest

-- `sorted((set(params) | set(pins)) - declared)`
unfoldable pub undeclared : LaunchCtx → LaunchState → List String
undeclared ctx st = sorted text_le (
    select (λ name. not (mem name (map (λ (i : LaunchInstance). i.pinned.name) ctx.instances)))
      (distinct (keys st.params ++ keys st.pins.instances)))

unfoldable pub forget_decommissioned : LaunchCtx → Lifecycle → LaunchState → LaunchState
forget_decommissioned ctx lifecycle st =
    if is_applying ctx lifecycle then forget_names ctx st (undeclared ctx st) else st

unfoldable pub forget_ephemeral : LaunchCtx → LaunchState → LaunchInstance → LaunchState
forget_ephemeral ctx st i =
    if i.ephemeral && is_applied ctx i
    then forget ctx st i.pinned.name by_teardown ephemeral_teardown false
    else st

-- The failed verifications, which fail the run after all records are consistent.
unfoldable pub forget_each :
    LaunchCtx
    → (LaunchInstance → Bool)
    → LaunchState
    → List LaunchInstance
    → LaunchState × List String
forget_each ctx has_failed st [] = (st, [])
forget_each ctx has_failed st (i ∷ rest) =
    let after = forget_each ctx has_failed (forget_ephemeral ctx st i) rest in
    if i.ephemeral && is_applied ctx i && has_failed i
    then (after.0, i.pinned.name ∷ after.1)
    else after

unfoldable pub forget_ephemerals :
    LaunchCtx → (LaunchInstance → Bool) → Lifecycle → LaunchState → LaunchState × List String
forget_ephemerals ctx has_failed lifecycle st =
    if is_applying ctx lifecycle then forget_each ctx has_failed st ctx.instances else (st, [])

-- The hostname that the machine before this launch answered to.
unfoldable pub booted_as : Option Generation → String
booted_as none = ""
booted_as (some g) = or_else g.launch_params.hostname ""

-- A replaced machine's registration is retired when the new one has another name.
unfoldable pub retire_previous : LaunchCtx → LaunchState → String → Params → List Retirement
retire_previous ctx st name p =
    let old = booted_as (current_generation st.generations name) in
    if truthy (some old) && truthy p.hostname && not (option_eq (some old) p.hostname)
    then retire ctx st.retired (or_else p.group "") old
    else st.retired

unfoldable pub marked : LaunchCtx → Params → Params
marked ctx p = record p { launched = true; launched_run = some ctx.bake.run_id }

-- The records after the launch, told the generations after it.
unfoldable pub after_launch : LaunchCtx → LaunchState → String → Params → Instances → LaunchState
after_launch ctx st name p generations = record {
  params = (with_params st name (marked ctx p)).params;
  pins = clear_pending_replacement st.pins name;
  generations = generations;
  retired = retire_previous ctx st name (marked ctx p);
}

unfoldable pub mark_machine :
    LaunchCtx → LaunchState → String → Params → (was_pending : Bool) → Result LaunchState
mark_machine ctx st name p was_pending =
    on_launched ctx.bake.run_id ctx.now st.generations name (marked ctx p) was_pending
    >>= λ generations. ok (after_launch ctx st name p generations)

-- The body of the loop over the launch records.
unfoldable pub mark_entry :
    LaunchCtx → Dict String → LaunchState → String × Params → Result LaunchState
mark_entry ctx pending st entry = elim (get (declared ctx.instances []) entry.0) [
  | none ↦ ok (record st { pins = clear_pending_replacement st.pins entry.0 })
  | some i ↦
      if is_applied ctx i then mark_machine ctx st entry.0 entry.1 (has pending entry.0) else ok st
]

unfoldable pub mark_entries :
    LaunchCtx → Dict String → LaunchState → Dict Params → Result LaunchState
mark_entries ctx pending st [] = ok st
mark_entries ctx pending st (entry ∷ rest) =
    mark_entry ctx pending st entry >>= λ st'. mark_entries ctx pending st' rest

unfoldable pub mark_launched : LaunchCtx → Lifecycle → LaunchState → Result LaunchState
mark_launched ctx lifecycle st =
    if is_applying ctx lifecycle
    then mark_entries ctx st.pins.pending_replacements st st.params
    else ok st
