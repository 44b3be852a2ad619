-- ===== src/Dispose/Plan.antt =====
-- dispose.py: which builds are disposed: those that are named, and those that retention drops.
use cs_image_system.Base.{
  distinct, ℕ, ◌-◌, String, Bool, true, false, not, ◌&&◌, ◌||◌, Option, none, some, List, [], ◌∷◌,
  ◌++◌, map, any, mem, select, length, take, ltb, truthy, or_else, is_some, option_eq, ◌==◌,
  if◌then◌else◌,
}
use cs_image_system.Base.Dict.{Dict, get, has, keys, values}
use cs_image_system.Base.Sorting.{text_le, sorted}
use cs_image_system.Meta.{Build, Pins}
use cs_image_system.Meta.Lineage.{build}
use cs_image_system.Dispose.{
  DisposeCtx, Store, Debt, released_debt, in_use_debt, Error, all_needs_runtime, no_builds,
  unknown_runtime, not_recorded, baked_elsewhere, in_use, not_configured,
}

pub data Selection : Type 0 where
  selected : List Build → Selection
  refused : Error → Selection

abbrev and_also : Build → Selection → Selection
and_also b (selected bs) = selected (b ∷ bs)
and_also b (refused e) = refused e

unfoldable pub select_named : List Build → Option String → List String → Selection
unfolding build
select_named builds runtime [] = selected []
select_named builds runtime (bid ∷ bids) =
    let rest = select_named builds runtime bids in
    elim (build builds bid) [
      | none ↦ refused (not_recorded bid)
      | some b ↦
          if truthy runtime && not (option_eq b.runtime runtime)
          then refused (baked_elsewhere bid b.runtime (or_else runtime ""))
          else and_also b rest
    ]

unfoldable pub select_builds :
    DisposeCtx → List Build → List String → Option String → (all_on_runtime : Bool) → Selection
unfolding select_named
select_builds ctx builds build_ids runtime true =
    if not (truthy runtime)
    then refused all_needs_runtime
    else if not (has ctx.runtime_builders (or_else runtime ""))
    then refused (unknown_runtime (or_else runtime ""))
    else selected (select (λ b. option_eq b.runtime runtime) builds)
select_builds ctx builds [] runtime false = refused no_builds
select_builds ctx builds build_ids runtime false = select_named builds runtime build_ids

abbrev pub ids_of : List Build → List String
ids_of records = map (λ (b : Build). b.build_id) records

-- The instances pinned to one of the builds.
unfoldable pub pinned_to : Dict String → List String → Dict String
pinned_to instances ids = select (λ (e : String × String). mem e.1 ids) instances

-- The instances launched from one of the builds.
unfoldable pub launched_from : DisposeCtx → List String → Dict (Option String)
launched_from ctx ids =
    select (λ (e : String × Option String). is_some e.1 && mem (or_else e.1 "") ids)
      ctx.launched_builds

unfoldable pub is_configured : DisposeCtx → Build → Bool
is_configured ctx b = has ctx.runtime_builders (or_else b.runtime "")

unfoldable pub first_unconfigured : DisposeCtx → List Build → Option Error
unfolding is_configured
first_unconfigured ctx [] = none
first_unconfigured ctx (b ∷ records) =
    if is_configured ctx b
    then first_unconfigured ctx records
    else some (not_configured b.build_id (or_else b.runtime ""))

unfoldable pub refusal : List String → List String → Option Error → Option Error
refusal [] used_builds otherwise = otherwise
refusal (u ∷ users) used_builds otherwise =
    some (in_use (sorted text_le (u ∷ users)) (sorted text_le used_builds))

unfoldable pub refuse_if_in_use : DisposeCtx → Pins → List Build → Option Error
unfolding pinned_to launched_from first_unconfigured refusal
refuse_if_in_use ctx p records =
    let ids = ids_of records in
    let pinned = pinned_to p.instances ids in
    let launched = launched_from ctx ids in
    let their_builds =
      values pinned ++ map (λ (b : Option String). or_else b "") (values launched) in
    refusal (distinct (keys pinned ++ keys launched))
      (distinct (select (λ id. mem id their_builds) ids)) (first_unconfigured ctx records)

-- 0 on an ephemeral runtime, else the image's count, else the runtime's.
unfoldable pub retention_keep_for : DisposeCtx → String → String → Option ℕ
retention_keep_for ctx series runtime =
    let image_keep = or_else (get ctx.image_keeps series) none in
    elim (get ctx.runtime_builders runtime) [
      | none ↦ image_keep
      | some rtb ↦
          if rtb.ephemeral
          then some 0
          else if is_some image_keep
          then image_keep
          else rtb.retention_keep
    ]

unfoldable pub is_in_use : DisposeCtx → Pins → String → Bool
is_in_use ctx p id =
    mem id (values p.instances)
    || any (λ (b : Option String). option_eq b (some id)) (values ctx.launched_builds)

unfoldable pub is_released : DisposeCtx → String → Bool
is_released ctx id =
    any (λ (images : Dict String). mem id (values images)) (values ctx.current_releases)

-- The builds of a series on a runtime.
pub record Group : Type 0 where
  pub series : String
  pub runtime : String
  pub members : List Build

unfoldable pub join_group : List Group → String → String → Build → List Group
join_group [] series rt b = record { series = series; runtime = rt; members = b ∷ [] } ∷ []
join_group (g ∷ groups) series rt b =
    if g.series == series && g.runtime == rt
    then record g { members = g.members ++ b ∷ [] } ∷ groups
    else g ∷ join_group groups series rt b

unfoldable pub grouped : Option String → List Group → List Build → List Group
unfolding join_group
grouped runtime groups [] = groups
grouped runtime groups (b ∷ builds) =
    let rt = or_else b.runtime "" in
    if truthy runtime && not (rt == or_else runtime "")
    then grouped runtime groups builds
    else grouped runtime (join_group groups b.series rt b) builds

abbrev pub group_le : Group → Group → Bool
group_le g h =
    if g.series == h.series then text_le g.runtime h.runtime else text_le g.series h.series

abbrev pub run_le : Build → Build → Bool
run_le a b = text_le (or_else a.run "") (or_else b.run "")

-- The oldest builds of a group beyond the newest `keep`.
unfoldable pub beyond : ℕ → List Build → List Build
beyond keep builds =
    let ordered = sorted run_le builds in
    if ltb keep (length ordered) then take (length ordered - keep) ordered else []

-- The builds that are dropped, those that are released or in use as debt.
unfoldable pub sift : DisposeCtx → Pins → List Build → List Build × List Debt
unfolding is_released is_in_use
sift ctx p [] = ([], [])
sift ctx p (b ∷ drop) =
    let (disposable, debt) = sift ctx p drop in
    if is_released ctx b.build_id
    then (disposable, released_debt b ∷ debt)
    else if is_in_use ctx p b.build_id
    then (disposable, in_use_debt b ∷ debt)
    else (b ∷ disposable, debt)

unfoldable pub dropped_of : DisposeCtx → Group → List Build
unfolding retention_keep_for beyond
dropped_of ctx g = elim (retention_keep_for ctx g.series g.runtime) [
  | none ↦ []
  | some keep ↦ beyond keep g.members
]

unfoldable pub plan_groups : DisposeCtx → Pins → List Group → List Build × List Debt
unfolding dropped_of sift
plan_groups ctx p [] = ([], [])
plan_groups ctx p (g ∷ groups) =
    let (disposable, debt) = sift ctx p (dropped_of ctx g) in
    let (later, later_debt) = plan_groups ctx p groups in (disposable ++ later, debt ++ later_debt)

unfoldable pub retention_plan : DisposeCtx → Store → Option String → List Build × List Debt
unfolding plan_groups grouped
retention_plan ctx st runtime =
    plan_groups ctx st.pins (sorted group_le (grouped runtime [] st.builds))
