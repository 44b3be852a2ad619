-- ===== src/Launch/Record.antt =====
-- launch_params.py: the records of the declared instances, before and after an apply.
use cs_image_system.Base.{
  String, Bool, true, false, ◌&&◌, Option, none, some, List, [], ◌∷◌, truthy, or_else,
  if◌then◌else◌,
}
use cs_image_system.Meta.Journal.{record_launch_params as put_launch_params}
use cs_image_system.Apply.{apply_flag_allows}
use cs_image_system.Lifecycles.Builtin.{Lifecycle, is_instance_image}
use cs_image_system.Generations.{Params}
use cs_image_system.Generations.Flow.{on_resized}
use cs_image_system.Launch.{LaunchInstance, LaunchCtx, LaunchState}
use cs_image_system.Launch.Names.{recorded_of, resize_of, detachments, compute_launch_params}

-- The flag lets the run apply the root of the instance.
unfoldable pub is_applied : LaunchCtx → LaunchInstance → Bool
is_applied ctx i =
    apply_flag_allows ctx.apply_instances (some i.type_) (or_else i.pinned.runtime "None" ∷ [])

-- The flag lets the run apply some root, in the lifecycle of the instances.
unfoldable pub is_applying : LaunchCtx → Lifecycle → Bool
is_applying ctx lifecycle =
    is_instance_image lifecycle && apply_flag_allows ctx.apply_instances none []

unfoldable pub with_params : LaunchState → String → Params → LaunchState
with_params st name p = record st { params = put_launch_params st.params name p }

-- The record of the run, with the marks of the old one.
unfoldable pub kept_marks : Option Params → String → Params → Params
kept_marks none run_id p = record p { run = some run_id; launched = false }
kept_marks (some old) run_id p = record p {
  run = some run_id;
  launched = old.launched;
  launched_run = if truthy old.launched_run then old.launched_run else p.launched_run;
}

-- Until a resize is applied the record keeps the type that the machine runs on.
unfoldable pub kept_type : Option (String × String) → Params → Params
kept_type none p = p
kept_type (some resize) p = record p { machine_type = some resize.0 }

has_none : {A : Type 0} → List A → Bool
has_none [] = true
has_none (x ∷ xs) = false

unfoldable pub record_instance : LaunchCtx → LaunchState → LaunchInstance → LaunchState
unfolding has_none
record_instance ctx st i =
    let name = i.pinned.name in
    let p = kept_marks (recorded_of st name) ctx.bake.run_id (compute_launch_params ctx st i) in
    if has_none (detachments st i)
    then with_params st name (kept_type (resize_of ctx st i) p)
    else st

unfoldable pub record_instances : LaunchCtx → LaunchState → List LaunchInstance → LaunchState
record_instances ctx st [] = st
record_instances ctx st (i ∷ rest) = record_instances ctx (record_instance ctx st i) rest

-- After the generation of the instances.
unfoldable pub record_launch_params : LaunchCtx → Lifecycle → LaunchState → LaunchState
record_launch_params ctx lifecycle st =
    if is_instance_image lifecycle then record_instances ctx st ctx.instances else st

unfoldable pub record_detachment : LaunchCtx → LaunchState → LaunchInstance → LaunchState
unfolding has_none
record_detachment ctx st i =
    let name = i.pinned.name in
    if has_none (detachments st i)
    then st
    else if is_applied ctx i
    then with_params st name
        (kept_marks (recorded_of st name) ctx.bake.run_id (compute_launch_params ctx st i))
    else st

unfoldable pub detach_all : LaunchCtx → LaunchState → List LaunchInstance → LaunchState
detach_all ctx st [] = st
detach_all ctx st (i ∷ rest) = detach_all ctx (record_detachment ctx st i) rest

unfoldable pub record_detachments : LaunchCtx → Lifecycle → LaunchState → LaunchState
record_detachments ctx lifecycle st =
    if is_applying ctx lifecycle then detach_all ctx st ctx.instances else st

-- The record and the open generation take the new type.
unfoldable pub resized : LaunchCtx → LaunchState → String → Params → String × String → LaunchState
resized ctx st name p resize =
    let after = with_params st name (record p { machine_type = some resize.1 }) in
    record after {
      generations = on_resized ctx.bake.run_id ctx.now st.generations name resize.0 resize.1;
    }

unfoldable pub record_resize : LaunchCtx → LaunchState → LaunchInstance → LaunchState
record_resize ctx st i = elim (resize_of ctx st i) [
  | none ↦ st
  | some resize ↦ elim (recorded_of st i.pinned.name) [
    | none ↦ st
    | some p ↦ if is_applied ctx i then resized ctx st i.pinned.name p resize else st
  ]
]

unfoldable pub resize_all : LaunchCtx → LaunchState → List LaunchInstance → LaunchState
resize_all ctx st [] = st
resize_all ctx st (i ∷ rest) = resize_all ctx (record_resize ctx st i) rest

unfoldable pub record_resizes : LaunchCtx → Lifecycle → LaunchState → LaunchState
record_resizes ctx lifecycle st =
    if is_applying ctx lifecycle then resize_all ctx st ctx.instances else st
