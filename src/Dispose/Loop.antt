-- ===== src/Dispose/Loop.antt =====
-- dispose.py, the loop of `dispose_images`: each build that it disposes is forgotten, and what was
-- forgotten before stays forgotten.
use cs_image_system.Base.{
  String, ◌≡◌, refl, sym, ◌∙◌, subst, inl, inr, false, none, some, List, [], ◌∷◌, arith, or_else,
  option_eq, eq_iff, Option-cases, All,
}
use cs_image_system.Base.Dict.{get}
use cs_image_system.Meta.{Build, Pins}
use cs_image_system.Meta.Lineage.{build, remove_build}
use cs_image_system.Meta.Pinning.{pinned_at, unpin_images_at}
use cs_image_system.Meta.Heads.{HasOneRecord, remove_build-build}
use cs_image_system.Meta.Unpinned.{get-without, unpin_images_at-gone}
use cs_image_system.Dispose.{DisposeCtx, Store, Disposal}
use cs_image_system.Dispose.Images.{
  Ended, Step, next, stopped_at, dispose_one, and_disposed, after_step, dispose_each,
}

-- No record of the build and no pin of an image at it.
abbrev pub IsForgotten : Store → String → Type 0
IsForgotten st id =
    (build st.builds id ≡ none)
    × ((key : String) → option_eq (get st.pins.images key) (some id) ≡ false)

-- A later store: builds have one record, the instances' pins stand, and what was forgotten is.
abbrev pub IsLater : Store → Store → Type 0
IsLater st st' =
    HasOneRecord st'.builds
    × (st'.pins.instances ≡ st.pins.instances)
    × ((id : String) → IsForgotten st id → IsForgotten st' id)

IsLater-trans : (a b c : Store) → IsLater a b → IsLater b c → IsLater a c
IsLater-trans a b c h k = (k.0, k.1 ∙ h.1, λ id f. k.2 id (h.2 id f))

unpin-instances :
    (p : Pins) (id run : String) → (unpin_images_at p id run).0.instances ≡ p.instances
unfolding unpin_images_at
unpin-instances p id run = refl

-- The store after a build is disposed.
abbrev removed : DisposeCtx → Store → Build → Store
removed ctx st b = record {
  builds = remove_build st.builds b.build_id;
  pins = (unpin_images_at st.pins b.build_id ctx.run_id).0;
}

unpinned_stays :
    (p : Pins) (b run id key : String)
    → option_eq (get p.images key) (some id) ≡ false
    → option_eq (get (unpin_images_at p b run).0.images key) (some id) ≡ false
unfolding unpin_images_at
unpinned_stays p b run id key h = ground (arith, get-without p.images (pinned_at p.images b) key, h)

removed-IsLater :
    (ctx : DisposeCtx) (st : Store) (b : Build)
    → HasOneRecord st.builds
    → IsLater st (removed ctx st b) × IsForgotten (removed ctx st b) b.build_id
removed-IsLater ctx st b one =
    let (one', found) = remove_build-build st.builds b.build_id one in
    (
      (
        one',
        unpin-instances st.pins b.build_id ctx.run_id,
        λ id f. (
          ground (arith, found id, f.0),
          λ key. unpinned_stays st.pins b.build_id ctx.run_id id key (f.1 key),
        ),
      ),
      (
        ground (arith, found b.build_id, eq_iff b.build_id b.build_id),
        λ key. (unpin_images_at-gone st.pins b.build_id ctx.run_id key).0,
      ),
    )

module _ (ctx : DisposeCtx) (wet : ctx.dry_run ≡ false) where
  abbrev IsStepped : Store → Build → Step → Type 0
  IsStepped st b (stopped_at e) = Unit
  IsStepped st b (next st' d) =
      IsLater st st' × IsForgotten st' d.build_id × (d.build_id ≡ b.build_id)

  dispose_one-IsStepped :
      (st : Store) (b : Build) → HasOneRecord st.builds → IsStepped st b (dispose_one ctx st b)
  unfolding dispose_one
  dispose_one-IsStepped st b one =
      elim (Option-cases (get ctx.runtime_builders (or_else b.runtime "None"))) [
        | inl unknown ↦ rw (unknown, dispose_one) tt
        | inr (rtb, at) ↦
            rw (at, dispose_one)
              (rw wet (elim (Option-cases (rtb.dispose_image b.build_id)) [
                | inl raised ↦ rw raised tt
                | inr (deleted, done) ↦
                    let (later, forgotten) = removed-IsLater ctx st b one in
                    rw done (later, forgotten, refl)
              ]))
      ]

  module _ (Q : String → Type 0) where
    abbrev pub IsEnded : Store → Ended → Type 0
    IsEnded st e =
        IsLater st e.store
        × All (λ (d : Disposal). IsForgotten e.store d.build_id × Q d.build_id) e.results

    after_step-IsEnded :
        (st : Store) (b : Build) (s : Step) (rest : Store → Ended)
        → HasOneRecord st.builds
        → IsStepped st b s
        → Q b.build_id
        → ((st' : Store) → HasOneRecord st'.builds → IsEnded st' (rest st'))
        → IsEnded st (after_step st s rest)
    unfolding after_step and_disposed
    after_step-IsEnded st b (stopped_at e) rest one h q later = ((one, refl, λ id f. f), tt)
    after_step-IsEnded st b (next st' d) rest one h q later =
        let (then_later, forgotten) = later st' h.0.0 in
        (
          IsLater-trans st st' (rest st').store h.0 then_later,
          ((then_later.2 d.build_id h.1, subst Q (sym h.2) q), forgotten),
        )

    pub dispose_each-IsEnded :
        (st : Store) (bs : List Build)
        → HasOneRecord st.builds
        → All (λ b. Q b.build_id) bs
        → IsEnded st (dispose_each ctx st bs)
    unfolding dispose_each
    dispose_each-IsEnded st [] one q = ((one, refl, λ id f. f), tt)
    dispose_each-IsEnded st (b ∷ bs) one q =
        after_step-IsEnded st b (dispose_one ctx st b) (λ st'. dispose_each ctx st' bs) one
          (dispose_one-IsStepped st b one) q.0 (λ st' one'. dispose_each-IsEnded st' bs one' q.1)
