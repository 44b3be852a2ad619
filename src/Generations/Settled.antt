-- ===== src/Generations/Settled.antt =====
-- generations.py, `reconcile_generations`: silence changes nothing, a second look changes nothing,
-- and another machine under the name closes the generation that was known.
use cs_image_system.Base.{
  ◌+◌, String, ◌≡◌, refl, ◌∙◌, ap, ◌⊎◌, inl, inr, false, some, [], ◌∷◌, ◌++◌, subst, or_else, ◌==◌,
  eq_refl, Bool-cases, Option-cases,
}
use cs_image_system.Base.Dict.{get, put}
use cs_image_system.Generations.{
  Kind, durable, ephemeral, kind_of, observed, Why, replaced_out_of_band, Generation, closed,
  Counters, counter, advance, Entry, Instances, ok,
}
use cs_image_system.Generations.Record.{
  entry_or_new, instance_generation, current_generation, opened, closed_entry, close_generation,
}
use cs_image_system.Generations.Flow.{
  Instance, Ctx, queried, is_reconciled, reconcile_seen, reconcile_answer, reconcile_instance,
}
use cs_image_system.Generations.Ledger.{entry-put, current-close, open_generation-ok}
use cs_image_system.Generations.Observe.{
  IsSeen, IsAnswered, reconcile_answered, reconcile_instance-IsSeen, reconcile_seen_again,
}

module _ (ctx : Ctx) (i : Instance) where
  -- The provider names the machine, or the instance is left alone whatever stands in the record.
  answered_or_silent :
      ((id : String) × IsAnswered ctx i id)
      ⊎ ((is : Instances) → reconcile_instance ctx is i ≡ ok is)
  unfolding reconcile_instance reconcile_answer is_reconciled
  answered_or_silent = elim (Option-cases (get ctx.launch_params i.name)) [
    | inl unrecorded ↦ inr (λ is. rw (unrecorded, is_reconciled) refl)
    | inr (params, recorded) ↦ elim (Bool-cases (is_reconciled ctx i (some params))) [
      | inl due ↦ elim (Option-cases (queried ctx i)) [
        | inl silent ↦ inr (λ is. rw recorded (rw due (rw (silent, reconcile_answer) refl)))
        | inr (identity, answer) ↦ elim (Bool-cases (or_else identity.instance_id "" == "")) [
          | inl blank ↦
              inr (λ is. rw recorded (rw due (rw (answer, reconcile_answer) (rw blank refl))))
          | inr named ↦ elim (Option-cases identity.instance_id) [
            | inl no_id ↦ cc (no_id, named, eq_refl "")
            | inr (id, at) ↦ inl (
              id,
              record {
                params = params;
                identity = identity;
                recorded = recorded;
                due = due;
                answer = answer;
                named = at;
                nonempty = rw at at named;
              },
            )
          ]
        ]
      ]
      | inr not_due ↦ inr (λ is. rw recorded (rw not_due refl))
    ]
  ]

  -- A second look with the same answers finds nothing to change: a reboot, a stop and a start, and
  -- an answer that is missing never open a generation.
  pub reconcile_instance_idem :
      (is is' : Instances)
      → reconcile_instance ctx is i ≡ ok is'
      → reconcile_instance ctx is' i ≡ ok is'
  reconcile_instance_idem is is' h = elim answered_or_silent [
    | inl (id, a) ↦
        let (is'', e, seen) = reconcile_instance-IsSeen ctx i id is a in
        let same : is'' ≡ is' = cc in
        reconcile_seen_again ctx i id is' a (subst (IsSeen i.name id) same seen)
    | inr silent ↦ silent is'
  ]

counter-advance : (c : Counters) (kind : Kind) → counter (advance c kind) kind ≡ counter c kind + 1
unfolding counter advance
counter-advance c durable = refl
counter-advance c ephemeral = refl

entry-close :
    (is : Instances) (name run : String) (why : Why) (now : String) (g : Generation)
    → current_generation is name ≡ some g
    → entry_or_new (get (close_generation is name run why now).0 name)
      ≡ closed_entry (entry_or_new (get is name)) g run why now
unfolding current_generation close_generation
entry-close is name run why now g at = rw (at, close_generation) (entry-put is name _)

-- Another machine under the name of a known one: the known generation goes to the end of the
-- history, marked as replaced out of band in this run, and the counter of the kind moves on by one.
pub reconcile_instance-replaced :
    (ctx : Ctx) (i : Instance) (id known : String) (is : Instances) (g : Generation)
    (a : IsAnswered ctx i id)
    → current_generation is i.name ≡ some g
    → g.instance_id ≡ some known
    → (known == "") ≡ false
    → (known == id) ≡ false
    → (is' : Instances) × (reconcile_instance ctx is i ≡ ok is')
      × ((entry_or_new (get is' i.name)).history
          ≡ (entry_or_new (get is i.name)).history
            ++ closed g ctx.run_id replaced_out_of_band ctx.now ∷ [])
      × (instance_generation is' i.name (kind_of a.params)
          ≡ instance_generation is i.name (kind_of a.params) + 1)
unfolding reconcile_seen instance_generation opened closed_entry
reconcile_instance-replaced ctx i id known is g a at e nonempty other =
    let shut = (close_generation is i.name ctx.run_id replaced_out_of_band ctx.now).0 in
    let closing = entry-close is i.name ctx.run_id replaced_out_of_band ctx.now g at in
    let opening =
      open_generation-ok shut i.name
        (current-close is i.name ctx.run_id replaced_out_of_band ctx.now) (kind_of a.params)
        ctx.run_id observed a.params (some a.identity) ctx.now in
    (
      put shut i.name (
          opened (entry_or_new (get shut i.name)) (kind_of a.params) ctx.run_id observed a.params
            (some a.identity) ctx.now),
      rw (reconcile_answered ctx i id is a)
          (rw (at, reconcile_seen) (rw e (rw nonempty (rw other opening)))),
      ap (λ (x : Entry). x.history) (entry-put shut i.name _)
          ∙ ap (λ (x : Entry). x.history) closing,
      ap (λ (x : Entry). counter x.generation (kind_of a.params)) (entry-put shut i.name _)
          ∙ counter-advance _ (kind_of a.params)
          ∙ ap (λ (x : Entry). counter x.generation (kind_of a.params) + 1) closing,
    )
