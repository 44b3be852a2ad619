-- ===== src/Lineage/Decision.antt =====
-- lineage.py: the bake decision, which follows the chain of parents on fuel, and the bake plan.
use cs_image_system.Base.{
  ℕ, zero, suc, ◌*◌, String, Bool, true, false, not, ◌&&◌, ◌||◌, Option, none, some, List, [], ◌∷◌,
  ◌++◌, map, mem, truthy, or_else, is_some, option_eq, leb, num_eq, ◌==◌, if◌then◌else◌,
}
use Prim.Native.String.{count}
use text.Mathlib.Text.{starts_with}
use cs_image_system.Base.Dict.{Dict, get, put, keys}
use cs_image_system.Base.Words.{◌+++◌}
use cs_image_system.Meta.{Build}
use cs_image_system.Meta.Lineage.{series_head}
use cs_image_system.Lineage.{
  BakeImage, ImageBuilder, Reason, forced, no_build, parent_moved, parent_rebakes, inputs_changed,
  refresh_due, BakeCtx,
}
use cs_image_system.Lineage.Capabilities.{on_runtime}
use cs_image_system.Lineage.Parents.{
  is_follow, source_of, effective_parent_build, base_image_ref, base_image_runtimes, find_image,
  input_fingerprint,
}

abbrev pub key_of : String → Option String → String
key_of series runtime = series +++ "@" +++ or_else runtime "None"

abbrev selects : List String → String → Option String → Bool
selects names series runtime = mem series names || mem (key_of series runtime) names

unfoldable pub is_forced : BakeCtx → String → Option String → Bool
is_forced ctx series runtime = mem "all" ctx.force_bake || selects ctx.force_bake series runtime

-- The run has no filter, or the filter names the series, alone or on the runtime.
unfoldable pub is_selected : BakeCtx → String → Option String → Bool
is_selected ctx series runtime = elim ctx.only_images [
  | none ↦ true
  | some names ↦ selects names series runtime
]

-- A build that was adopted records the first sixteen characters of the fingerprint.
unfoldable pub same_inputs : Build → String → Bool
same_inputs b fingerprint =
    b.input_fingerprint == fingerprint
    || b.imported
      && leb 16 (count b.input_fingerprint)
      && starts_with fingerprint b.input_fingerprint

-- The days after which the policy of a base image has it baked again.
unfoldable pub refresh_days_of : BakeCtx → String → Option ℕ
refresh_days_of ctx series = elim (get ctx.os_builders series) [
  | none ↦ none
  | some osb ↦ osb.update.refresh_days
]

unfoldable pub refresh_reason : BakeCtx → String → Build → Option Reason
refresh_reason ctx series head = elim (refresh_days_of ctx series) [
  | none ↦ none
  | some days ↦ elim (ctx.age_seconds (or_else head.run "")) [
    | none ↦ none
    | some age ↦
        if not (num_eq days 0) && leb (days * 86400) age
        then some (refresh_due head.build_id days)
        else none
  ]
]

-- The decision on an image that has a head, told whether its source bakes in this run.
unfoldable pub reason_with_head :
    BakeCtx → BakeImage → Option String → Build → (source_bakes : Bool) → String → Option Reason
reason_with_head ctx image runtime head source_bakes fingerprint =
    let (build, superseded) = effective_parent_build ctx image runtime in
    if truthy superseded
    then some (parent_moved (or_else superseded "") build)
    else if truthy build
        && is_follow image.parent_policy
        && is_some (source_of image)
        && source_bakes
    then some (parent_rebakes (or_else build ""))
    else if not (same_inputs head fingerprint)
    then some (inputs_changed head.input_fingerprint fingerprint)
    else refresh_reason ctx image.name head

unfoldable pub reason_given :
    BakeCtx → BakeImage → Option String → (source_bakes : Bool) → String → Option Reason
reason_given ctx image runtime source_bakes fingerprint =
    if is_forced ctx image.name runtime
    then some forced
    else elim (series_head ctx.builds image.name runtime) [
      | none ↦ some (no_build image.name runtime)
      | some head ↦
          if head.build_id == ""
          then some (no_build image.name runtime)
          else reason_with_head ctx image runtime head source_bakes fingerprint
    ]

-- An answer within the fuel.
abbrev pub Within : Type 0 → Type 0
Within A = Option A

-- Whether the series bakes in this run, by the decision on its image.
unfoldable pub will_bake :
    (BakeImage → Option String → Within (Option Reason))
    → BakeCtx
    → String
    → Option String
    → Within Bool
will_bake decide ctx series runtime =
    if not (is_selected ctx series runtime)
    then some false
    else elim (find_image ctx series runtime) [
      | none ↦ some true
      | some image ↦ elim (decide image runtime) [
        | none ↦ none
        | some reason ↦ some (is_some reason)
      ]
    ]

-- Whether the image's source bakes in this run, asked only of an image that follows its source.
unfoldable pub source_bakes :
    (BakeImage → Option String → Within (Option Reason))
    → BakeCtx
    → BakeImage
    → Option String
    → Within Bool
source_bakes decide ctx image runtime = elim (source_of image) [
  | none ↦ some false
  | some src ↦
      if is_follow image.parent_policy then will_bake decide ctx src runtime else some false
]

unfoldable pub decided :
    BakeCtx → BakeImage → Option String → Within Bool → Within String → Within (Option Reason)
decided ctx image runtime (some bakes) (some fingerprint) =
    some (reason_given ctx image runtime bakes fingerprint)
decided ctx image runtime bakes fingerprint = none

-- A decision of the run that stands already is kept.
unfoldable pub bake_reason : ℕ → BakeCtx → BakeImage → Option String → Within (Option Reason)
bake_reason zero ctx image runtime = none
bake_reason (suc fuel) ctx image runtime =
    let rt = on_runtime ctx image runtime in
    let fresh =
      decided ctx image rt (source_bakes (bake_reason fuel ctx) ctx image rt)
        (input_fingerprint (suc fuel) ctx image rt) in
    elim (get ctx.bake_decisions (key_of image.name rt)) [
      | some reason ↦ some reason
      | none ↦ fresh
    ]

pub data Planned : Type 0 where
  bakes : Reason → Planned
  is_current : (build_id : Option String) → Planned
  not_selected : Planned
  outside_scope : (runtime : String) → Planned

-- The base images on each runtime of their entries, then the images of each builder.
unfoldable pub base_surface : BakeCtx → List String → List (BakeImage × Option String)
unfolding base_image_runtimes
base_surface ctx [] = []
base_surface ctx (series ∷ rest) =
    map (λ rt. (base_image_ref series, some rt)) (base_image_runtimes ctx series)
    ++ base_surface ctx rest

unfoldable pub builder_surface : List (String × ImageBuilder) → List (BakeImage × Option String)
builder_surface [] = []
builder_surface ((name, b) ∷ rest) =
    map (λ image. (image, some b.runtime_provider)) b.local_items ++ builder_surface rest

unfoldable pub surface : BakeCtx → List (BakeImage × Option String)
unfolding base_surface builder_surface
surface ctx = base_surface ctx (keys ctx.os_builders) ++ builder_surface ctx.image_builders

unfoldable pub planned : BakeCtx → BakeImage → Option String → Option Reason → Planned
unfolding is_selected
planned ctx image rt reason =
    if not (is_selected ctx image.name rt)
    then elim ctx.implied_scope [
      | none ↦ not_selected
      | some scope ↦
          if not (scope == "") && not (option_eq rt (some scope))
          then outside_scope scope
          else not_selected
    ]
    else elim reason [
      | some why ↦ bakes why
      | none ↦ elim (series_head ctx.builds image.name rt) [
        | none ↦ is_current none
        | some head ↦ is_current (some head.build_id)
      ]
    ]

unfoldable pub plan_from :
    ℕ → BakeCtx → Dict Planned → List (BakeImage × Option String) → Within (Dict Planned)
unfolding bake_reason planned
plan_from fuel ctx plan [] = some plan
plan_from fuel ctx plan ((image, rt) ∷ rest) =
    elim (if is_selected ctx image.name rt then bake_reason fuel ctx image rt else some none) [
      | none ↦ none
      | some reason ↦
          plan_from fuel ctx (put plan (key_of image.name rt) (planned ctx image rt reason)) rest
    ]

unfoldable pub bake_plan : ℕ → BakeCtx → Within (Dict Planned)
unfolding surface plan_from
bake_plan fuel ctx = plan_from fuel ctx [] (surface ctx)
