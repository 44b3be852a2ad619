-- ===== src/Generations/Observe.antt =====
-- generations.py, `reconcile_generations`: the machine that the provider names decides.
use cs_image_system.Base.{
  String, ◌≡◌, refl, ◌∙◌, ap, inl, inr, true, false, Option, none, some, arith, or_else, ◌==◌,
  eq_iff, eq_refl, Bool-cases, Option-cases,
}
use cs_image_system.Base.Dict.{get, put}
use cs_image_system.Generations.{
  Params, Kind, kind_of, How, observed, adopted, replaced_out_of_band, Identity, Generation, Entry,
  Instances, ok,
}
use cs_image_system.Generations.Record.{
  entry_or_new, current_generation, answered, opened, open_generation, moves, noted, noted_entry,
  is_changed, note_generation_identity,
}
use cs_image_system.Generations.Flow.{
  Instance, Ctx, queried, is_reconciled, reconcile_seen, reconcile_answer, reconcile_instance,
}
use cs_image_system.Generations.Ledger.{Returns, entry-put, current-close, open_generation-ok}

-- The open generation of the name is the machine `id`.
abbrev pub IsSeen : String → String → Instances → Type 0
IsSeen name id is =
    (g : Generation) × (current_generation is name ≡ some g) × (g.instance_id ≡ some id)

-- The run reconciles the instance, and its provider names the machine `id`.
pub record IsAnswered (ctx : Ctx) (i : Instance) (id : String) : Type 0 where
  pub params : Params
  pub identity : Identity
  pub recorded : get ctx.launch_params i.name ≡ some params
  pub due : is_reconciled ctx i (some params) ≡ true
  pub answer : queried ctx i ≡ some identity
  pub named : identity.instance_id ≡ some id
  pub nonempty : (id == "") ≡ false

moves_unknown :
    (old : Option String) (id : String)
    → (or_else old "" == "") ≡ true
    → (id == "") ≡ false
    → moves old (some id) ≡ true
unfolding moves
moves_unknown none id unknown nonempty = ground arith
moves_unknown (some s) id unknown nonempty = ground (arith, eq_iff s "", eq_iff s id, eq_iff id "")

known_id :
    (old : Option String) (id : String)
    → (or_else old "" == "") ≡ false
    → (or_else old "" == id) ≡ true
    → old ≡ some id
known_id none id known same = cc (known, eq_refl "")
known_id (some s) id known same = ap some ((eq_iff s id).0 same)

module _ (name : String) (identity : Identity) (id : String)
    (named : identity.instance_id ≡ some id) (nonempty : (id == "") ≡ false) where
  opened-IsSeen :
      (is : Instances) (kind : Kind) (run : String) (how : How) (params : Params) (now : String)
      → current_generation is name ≡ none
      → Returns (IsSeen name id) (open_generation is name kind run how params (some identity) now)
  unfolding current_generation opened answered
  opened-IsSeen is kind run how params now idle = (
    put is name (opened (entry_or_new (get is name)) kind run how params (some identity) now),
    open_generation-ok is name idle kind run how params (some identity) now,
    (_, ap (λ (e : Entry). e.current) (entry-put is name _), rw named (rw nonempty refl)),
  )

  noted-IsSeen :
      (is : Instances) (g : Generation)
      → current_generation is name ≡ some g
      → (or_else g.instance_id "" == "") ≡ true
      → IsSeen name id (note_generation_identity is name identity).0
  unfolding current_generation note_generation_identity is_changed noted noted_entry
  noted-IsSeen is g at unknown =
      let moved : moves g.instance_id identity.instance_id ≡ true =
        rw named (moves_unknown g.instance_id id unknown nonempty) in
      rw (at, note_generation_identity)
        (rw (moved, is_changed) (_, ap (λ (e : Entry). e.current) (entry-put is name _), named))

module _ (ctx : Ctx) (i : Instance) (id : String) (is : Instances) (a : IsAnswered ctx i id) where
  open a use {params, identity}

  pub reconcile_answered :
      reconcile_instance ctx is i ≡ reconcile_seen ctx is i.name params identity id
  unfolding reconcile_instance reconcile_answer
  reconcile_answered =
      rw (a.recorded, a.due, a.answer, reconcile_answer) (rw a.named (rw a.nonempty refl))

  reconcile_seen-IsSeen :
      Returns (IsSeen i.name id) (reconcile_seen ctx is i.name params identity id)
  unfolding reconcile_seen
  reconcile_seen-IsSeen = elim (Option-cases (current_generation is i.name)) [
    | inl idle ↦
        rw (idle, reconcile_seen)
          (opened-IsSeen i.name identity id a.named a.nonempty is (kind_of params) ctx.run_id
            adopted params ctx.now idle)
    | inr (g, at) ↦
        rw (at, reconcile_seen)
          (elim (Bool-cases (or_else g.instance_id "" == "")) [
            | inl unknown ↦
                rw unknown
                  (_, refl, noted-IsSeen i.name identity id a.named a.nonempty is g at unknown)
            | inr known ↦ rw known (elim (Bool-cases (or_else g.instance_id "" == id)) [
              | inl same ↦ rw same (is, refl, (g, at, known_id g.instance_id id known same))
              | inr other ↦ rw other (
                  opened-IsSeen i.name identity id a.named a.nonempty _ (kind_of params) ctx.run_id
                    observed params ctx.now
                    (current-close is i.name ctx.run_id replaced_out_of_band ctx.now))
            ])
          ])
  ]

  -- Where the provider names the machine, the observation succeeds, and then the open generation of
  -- the instance is that machine.
  pub reconcile_instance-IsSeen :
      (is' : Instances) × (reconcile_instance ctx is i ≡ ok is') × IsSeen i.name id is'
  reconcile_instance-IsSeen = rw reconcile_answered reconcile_seen-IsSeen

  pub reconcile_seen_again : IsSeen i.name id is → reconcile_instance ctx is i ≡ ok is
  unfolding reconcile_seen
  reconcile_seen_again (g, at, e) =
      reconcile_answered ∙ rw (at, reconcile_seen) (rw e (rw a.nonempty (rw eq_refl refl)))
