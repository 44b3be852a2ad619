-- ===== src/Dispose/Clean.antt =====
-- dispose.py, `dispose_images`: nothing is left that names a disposed build, also where the call ends
-- in an error after some builds.
use cs_image_system.Base.{
  distinct, String, ◌≡◌, refl, subst, ◌⊎◌, inl, inr, Bool, true, false, Option, none, some, List,
  [], ◌∷◌, mem, arith, append-eq-nil, option_eq, ◌==◌, eq_iff, Bool-cases, Option-cases, All,
  All-imp,
}
use cs_image_system.Base.Dict.{Dict, get, keys}
use cs_image_system.Base.Sorting.{sorted, All-sorted}
use cs_image_system.Meta.{Build, Pins}
use cs_image_system.Meta.Lineage.{build}
use cs_image_system.Meta.Heads.{HasOneRecord}
use cs_image_system.Dispose.{DisposeCtx, Store, Disposal, Error}
use cs_image_system.Dispose.Plan.{
  Selection, selected, refused, ids_of, pinned_to, refusal, refuse_if_in_use,
}
use cs_image_system.Dispose.Images.{
  Ended, disposal_le, dispose_each, records_of, dispose_records, dispose_images,
}
use cs_image_system.Dispose.Loop.{dispose_each-IsEnded}

distinct-nil : (ss : List String) → distinct ss ≡ [] → ss ≡ []
distinct-nil [] h = refl
distinct-nil (s ∷ ss) h = cc

select-nil :
    (instances : Dict String) (ids : List String) (name b : String)
    → keys (pinned_to instances ids) ≡ []
    → get instances name ≡ some b
    → mem b ids ≡ false
unfolding get pinned_to
select-nil [] ids name b h at = cc
select-nil ((n, c) ∷ instances) ids name b h at = elim (Bool-cases (mem c ids)) [
  | inl pinned ↦ cc (rw pinned at h)
  | inr apart ↦ elim (Bool-cases (n == name)) [
    | inl same ↦ subst (λ x. mem x ids ≡ false) (cc (rw same at at)) apart
    | inr other ↦ select-nil instances ids name b (rw apart at h) (rw other at at)
  ]
]

refusal-none :
    (users used_builds : List String) (otherwise : Option Error)
    → refusal users used_builds otherwise ≡ none
    → users ≡ []
unfolding refusal
refusal-none [] used_builds otherwise h = refl
refusal-none (u ∷ users) used_builds otherwise h = cc

-- Records that are not refused have no instance pinned to them.
refuse_if_in_use-none :
    (ctx : DisposeCtx) (p : Pins) (records : List Build) (name b : String)
    → refuse_if_in_use ctx p records ≡ none
    → get p.instances name ≡ some b
    → mem b (ids_of records) ≡ false
unfolding refuse_if_in_use
refuse_if_in_use-none ctx p records name b h at =
    let users = distinct-nil _ (refusal-none _ _ _ h) in
    select-nil p.instances (ids_of records) name b (append-eq-nil _ _ users).0 at

not_pinned :
    (ctx : DisposeCtx) (p : Pins) (records : List Build) (id name : String)
    → refuse_if_in_use ctx p records ≡ none
    → mem id (ids_of records) ≡ true
    → option_eq (get p.instances name) (some id) ≡ false
not_pinned ctx p records id name allowed m = elim (Option-cases (get p.instances name)) [
  | inl unpinned ↦ rw unpinned refl
  | inr (b, at) ↦
      rw at (ground (arith, eq_iff b id, m, refuse_if_in_use-none ctx p records name b allowed at))
]

Selection-cases :
    (s : Selection) → ((e : Error) × (s ≡ refused e)) ⊎ ((bs : List Build) × (s ≡ selected bs))
Selection-cases (refused e) = inl (e, refl)
Selection-cases (selected bs) = inr (bs, refl)

mem-ids_of : (records : List Build) → All (λ b. mem b.build_id (ids_of records) ≡ true) records
mem-ids_of [] = tt
mem-ids_of (b ∷ records) = (
  ground (arith, eq_iff b.build_id b.build_id),
  All-imp _ _ records (λ c m. ground (arith, m)) (mem-ids_of records),
)

-- Nothing names the build: no record, no pin of an image, no pin of an instance.
abbrev pub IsGone : Store → Disposal → Type 0
IsGone st d =
    (build st.builds d.build_id ≡ none)
    × ((key : String) → option_eq (get st.pins.images key) (some d.build_id) ≡ false)
    × ((name : String) → option_eq (get st.pins.instances name) (some d.build_id) ≡ false)

abbrev pub IsCleaned : Store → Ended → Type 0
IsCleaned st e =
    HasOneRecord e.store.builds
    × (e.store.pins.instances ≡ st.pins.instances)
    × All (IsGone e.store) e.results

module _ (ctx : DisposeCtx) (wet : ctx.dry_run ≡ false) where
  dispose_each-IsCleaned :
      (st : Store) (records : List Build)
      → HasOneRecord st.builds
      → refuse_if_in_use ctx st.pins records ≡ none
      → IsCleaned st (dispose_each ctx st (sorted (disposal_le (ids_of records)) records))
  dispose_each-IsCleaned st records one allowed =
      let Q : String → Type 0 = λ id. mem id (ids_of records) ≡ true in
      let le = disposal_le (ids_of records) in
      let e = dispose_each ctx st (sorted le records) in
      let (later, gone) =
        dispose_each-IsEnded ctx wet Q st (sorted le records) one
          (All-sorted le (λ b. Q b.build_id) records (mem-ids_of records)) in
      (
        later.0,
        later.1,
        All-imp _ _ e.results
            (λ d f. (
              f.0.0,
              f.0.1,
              λ name. rw later.1 (not_pinned ctx st.pins records d.build_id name allowed f.1),
            ))
            gone,
      )

  dispose_records-IsCleaned :
      (st : Store) (records : List Build)
      → HasOneRecord st.builds
      → IsCleaned st (dispose_records ctx st records)
  unfolding dispose_records
  dispose_records-IsCleaned st records one =
      elim (Option-cases (refuse_if_in_use ctx st.pins records)) [
        | inl allowed ↦
            rw (allowed, dispose_records) (dispose_each-IsCleaned st records one allowed)
        | inr (e, why) ↦ rw (why, dispose_records) (one, refl, tt)
      ]

  -- Where every build has one record and the call is not a dry run, however the call ends: the pins
  -- of the instances stand, every build still has one record, and of each build that was disposed no
  -- record, no pin of an image and no pin of an instance is left.
  pub dispose_images-IsCleaned :
      (st : Store) (build_ids : List String) (runtime : Option String)
      (all_on_runtime retention : Bool)
      → HasOneRecord st.builds
      → IsCleaned st (dispose_images ctx st build_ids runtime all_on_runtime retention)
  unfolding dispose_images
  dispose_images-IsCleaned st build_ids runtime all_on_runtime retention one =
      elim (Selection-cases (records_of ctx st build_ids runtime all_on_runtime retention)) [
        | inl (e, why) ↦ rw (why, dispose_images) (one, refl, tt)
        | inr (records, at) ↦ rw (at, dispose_images) (dispose_records-IsCleaned st records one)
      ]
