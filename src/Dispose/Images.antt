-- ===== src/Dispose/Images.antt =====
-- dispose.py, `dispose_images`: the disposal itself, build by build.
use cs_image_system.Base.{
  String, Bool, true, false, not, ◌&&◌, Option, none, some, List, [], ◌∷◌, mem, or_else,
  if◌then◌else◌,
}
use cs_image_system.Base.Dict.{get}
use cs_image_system.Base.Sorting.{text_le, sorted}
use cs_image_system.Meta.{Build}
use cs_image_system.Meta.Lineage.{remove_build}
use cs_image_system.Meta.Pinning.{pinned_at, unpin_images_at}
use cs_image_system.Dispose.{DisposeCtx, Store, Disposal, Error, not_implemented, missing_key}
use cs_image_system.Dispose.Plan.{
  Selection, selected, refused, select_builds, ids_of, refuse_if_in_use, retention_plan,
}

-- What stands in the files, what was disposed, and the error that ended the call.
pub record Ended : Type 0 where
  pub store : Store
  pub results : List Disposal
  pub error : Option Error

-- The builds whose parent is disposed too come first, each part by build id.
unfoldable pub disposal_le : List String → Build → Build → Bool
disposal_le parents a b =
    let a_last = not (mem (or_else a.parent "None") parents) in
    let b_last = not (mem (or_else b.parent "None") parents) in
    if a_last && not b_last
    then false
    else if b_last && not a_last
    then true
    else text_le a.build_id b.build_id

abbrev disposed : Build → String → Option Bool → List String → Disposal
disposed b rt deleted unpinned = record {
  build_id = b.build_id;
  runtime = rt;
  series = b.series;
  deleted = deleted;
  unpinned = unpinned;
}

-- One build: the files after it, and its result or the error.
pub data Step : Type 0 where
  next : Store → Disposal → Step
  stopped_at : Error → Step

unfoldable pub dispose_one : DisposeCtx → Store → Build → Step
unfolding pinned_at unpin_images_at remove_build
dispose_one ctx st b =
    let rt = or_else b.runtime "None" in
    elim (get ctx.runtime_builders rt) [
      | none ↦ stopped_at (missing_key rt)
      | some rtb ↦
          if ctx.dry_run
          then next st (disposed b rt none (pinned_at st.pins.images b.build_id))
          else elim (rtb.dispose_image b.build_id) [
            | none ↦ stopped_at (not_implemented b.build_id)
            | some deleted ↦
                let (pins, unpinned) = unpin_images_at st.pins b.build_id ctx.run_id in
                next (record { builds = remove_build st.builds b.build_id; pins = pins })
                  (disposed b rt (some deleted) unpinned)
          ]
    ]

unfoldable pub and_disposed : Disposal → Ended → Ended
and_disposed d e = record e { results = d ∷ e.results }

-- The rest of the loop, unless the step ended it.
unfoldable pub after_step : Store → Step → (Store → Ended) → Ended
unfolding and_disposed
after_step st (stopped_at e) rest = record { store = st; results = []; error = some e }
after_step st (next st' d) rest = and_disposed d (rest st')

unfoldable pub dispose_each : DisposeCtx → Store → List Build → Ended
unfolding dispose_one after_step
dispose_each ctx st [] = record { store = st; results = []; error = none }
dispose_each ctx st (b ∷ bs) = after_step st (dispose_one ctx st b) (λ st'. dispose_each ctx st' bs)

unfoldable pub records_of :
    DisposeCtx → Store → List String → Option String → Bool → (retention : Bool) → Selection
unfolding select_builds retention_plan
records_of ctx st build_ids runtime all_on_runtime true = selected (retention_plan ctx st runtime).0
records_of ctx st build_ids runtime all_on_runtime false =
    select_builds ctx st.builds build_ids runtime all_on_runtime

unfoldable pub dispose_records : DisposeCtx → Store → List Build → Ended
unfolding refuse_if_in_use disposal_le dispose_each
dispose_records ctx st records = elim (refuse_if_in_use ctx st.pins records) [
  | some e ↦ record { store = st; results = []; error = some e }
  | none ↦ dispose_each ctx st (sorted (disposal_le (ids_of records)) records)
]

unfoldable pub dispose_images :
    DisposeCtx → Store → List String → Option String → Bool → (retention : Bool) → Ended
unfolding records_of dispose_records
dispose_images ctx st build_ids runtime all_on_runtime retention =
    elim (records_of ctx st build_ids runtime all_on_runtime retention) [
      | refused e ↦ record { store = st; results = []; error = some e }
      | selected records ↦ dispose_records ctx st records
    ]
