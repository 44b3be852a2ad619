-- ===== src/Generations/Ledger.antt =====
-- generations.py: the signals of the control flow and the observation never fail, and keep the
-- numbering of every name.
use cs_image_system.Base.{
  String, ◌≡◌, refl, ap, inl, inr, Bool, true, ◌&&◌, Option, none, some, List, [], ◌∷◌, or_else,
  ◌==◌, eq_refl, if◌then◌else◌, Bool-cases, Option-cases,
}
use cs_image_system.Base.Dict.{get, put, get-put}
use cs_image_system.Apply.{apply_flag_allows}
use cs_image_system.Lifecycles.Builtin.{Lifecycle, is_instance_image}
use cs_image_system.Generations.{
  Params, Kind, kind_of, How, inferred, observed, adopted, Why, replaced, replaced_out_of_band,
  Identity, Entry, Instances, Result, ok,
}
use cs_image_system.Generations.Record.{
  entry_or_new, current_generation, opened, open_generation, note_generation_identity, closed_entry,
  close_generation,
}
use cs_image_system.Generations.Flow.{
  renamed, on_launched, Instance, Ctx, queried, is_reconciled, reconcile_seen, reconcile_answer,
  reconcile_instance, reconcile_instances, reconcile_generations,
}
use cs_image_system.Generations.Numbers.{
  AllNumbered, open_generation-AllNumbered, close_generation-AllNumbered,
  note_generation_identity-AllNumbered,
}

-- The call succeeds, and what it returns has the property.
abbrev pub Returns : (Instances → Type 0) → Result Instances → Type 0
Returns P r = (is : Instances) × (r ≡ ok is) × P is

pub entry-put :
    (is : Instances) (name : String) (e : Entry) → entry_or_new (get (put is name e) name) ≡ e
unfolding entry_or_new
entry-put is name e = rw (get-put, eq_refl) refl

pub current-close :
    (is : Instances) (name run : String) (why : Why) (now : String)
    → current_generation (close_generation is name run why now).0 name ≡ none
unfolding current_generation close_generation closed_entry
current-close is name run why now = elim (Option-cases (entry_or_new (get is name)).current) [
  | inl idle ↦ rw (idle, close_generation) idle
  | inr (g, at) ↦ rw (at, close_generation) (ap (λ (e : Entry). e.current) (entry-put is name _))
]

module _ (is : Instances) (name : String) (idle : current_generation is name ≡ none) where
  pub open_generation-ok :
      (kind : Kind) (run : String) (how : How) (params : Params) (i : Option Identity)
      (now : String)
      → open_generation is name kind run how params i now
        ≡ ok (put is name (opened (entry_or_new (get is name)) kind run how params i now))
  unfolding open_generation current_generation
  open_generation-ok kind run how params i now = rw (idle, open_generation) refl

  open_generation-Returns :
      (kind : Kind) (run : String) (how : How) (params : Params) (i : Option Identity)
      (now : String)
      → AllNumbered is
      → Returns AllNumbered (open_generation is name kind run how params i now)
  open_generation-Returns kind run how params i now h = (
    put is name (opened (entry_or_new (get is name)) kind run how params i now),
    open_generation-ok kind run how params i now,
    open_generation-AllNumbered is name h kind run how params i now _
        (open_generation-ok kind run how params i now),
  )

reopen-Returns :
    (is : Instances) (name : String) (why : Why) (kind : Kind) (run : String) (how : How)
    (params : Params) (i : Option Identity) (now : String)
    → AllNumbered is
    → Returns AllNumbered
        (open_generation (close_generation is name run why now).0 name kind run how params i now)
reopen-Returns is name why kind run how params i now h =
    open_generation-Returns (close_generation is name run why now).0 name
      (current-close is name run why now) kind run how params i now
      (close_generation-AllNumbered is name h run why now)

-- A launch is always recorded, whatever stood before, and the numbers stay gapless.
pub on_launched-AllNumbered :
    (run now : String) (is : Instances) (name : String) (params : Params) (was_replaced : Bool)
    → AllNumbered is
    → Returns AllNumbered (on_launched run now is name params was_replaced)
unfolding on_launched
on_launched-AllNumbered run now is name params was_replaced h =
    elim (Option-cases (current_generation is name)) [
      | inl idle ↦
          rw (idle, on_launched)
            (open_generation-Returns is name idle (kind_of params) run inferred params none now h)
      | inr (g, at) ↦ elim (Bool-cases (if was_replaced then true else renamed g params)) [
        | inl moved ↦
            rw (at, on_launched)
              (rw moved
                (reopen-Returns is name replaced (kind_of params) run inferred params none now h))
        | inr same ↦ rw (at, on_launched) (rw same (is, refl, h))
      ]
    ]

module _ (ctx : Ctx) where
  reconcile_seen-AllNumbered :
      (is : Instances) (name : String) (params : Params) (identity : Identity) (seen : String)
      → AllNumbered is
      → Returns AllNumbered (reconcile_seen ctx is name params identity seen)
  unfolding reconcile_seen
  reconcile_seen-AllNumbered is name params identity seen h =
      elim (Option-cases (current_generation is name)) [
        | inl idle ↦
            rw (idle, reconcile_seen)
              (open_generation-Returns is name idle (kind_of params) ctx.run_id adopted params
                (some identity) ctx.now h)
        | inr (g, at) ↦
            rw (at, reconcile_seen)
              (elim (Bool-cases (or_else g.instance_id "" == "")) [
                | inl unknown ↦ rw unknown (
                  (note_generation_identity is name identity).0,
                  refl,
                  note_generation_identity-AllNumbered is name h identity,
                )
                | inr known ↦ rw known (elim (Bool-cases (or_else g.instance_id "" == seen)) [
                  | inl same ↦ rw same (is, refl, h)
                  | inr other ↦ rw other (
                      reopen-Returns is name replaced_out_of_band (kind_of params) ctx.run_id
                        observed params (some identity) ctx.now h)
                ])
              ])
      ]

  reconcile_answer-AllNumbered :
      (is : Instances) (name : String) (params : Option Params) (identity : Option Identity)
      → AllNumbered is
      → Returns AllNumbered (reconcile_answer ctx is name params identity)
  unfolding reconcile_answer
  reconcile_answer-AllNumbered is name none identity h = (is, refl, h)
  reconcile_answer-AllNumbered is name (some params) none h = (is, refl, h)
  reconcile_answer-AllNumbered is name (some params) (some identity) h =
      elim (Bool-cases (or_else identity.instance_id "" == "")) [
        | inl silent ↦ rw silent (is, refl, h)
        | inr seen ↦ rw seen (reconcile_seen-AllNumbered is name params identity _ h)
      ]

  reconcile_instance-AllNumbered :
      (is : Instances) (i : Instance)
      → AllNumbered is
      → Returns AllNumbered (reconcile_instance ctx is i)
  unfolding reconcile_instance
  reconcile_instance-AllNumbered is i h =
      elim (Bool-cases (is_reconciled ctx i (get ctx.launch_params i.name))) [
        | inl due ↦ rw due (reconcile_answer-AllNumbered is i.name _ (queried ctx i) h)
        | inr not_due ↦ rw not_due (is, refl, h)
      ]

  reconcile_instances-AllNumbered :
      (is : Instances) (instances : List Instance)
      → AllNumbered is
      → Returns AllNumbered (reconcile_instances ctx is instances)
  unfolding reconcile_instances
  reconcile_instances-AllNumbered is [] h = (is, refl, h)
  reconcile_instances-AllNumbered is (i ∷ rest) h =
      let (is', e, h') = reconcile_instance-AllNumbered is i h in
      rw e (reconcile_instances-AllNumbered is' rest h')

-- The observation after an apply never fails, whatever the providers answer, and afterwards the
-- generations of each kind of each name are still numbered 1, 2, … up to the counter of the kind,
-- in the order in which they were closed and the open one last.
pub reconcile_generations-AllNumbered :
    (ctx : Ctx) (lifecycle : Lifecycle) (is : Instances)
    → AllNumbered is
    → (is' : Instances) × (reconcile_generations ctx lifecycle is ≡ ok is') × AllNumbered is'
unfolding reconcile_generations
reconcile_generations-AllNumbered ctx lifecycle is h =
    elim (Bool-cases
      (is_instance_image lifecycle && apply_flag_allows ctx.apply_instances none [])) [
        | inl on ↦ rw on (reconcile_instances-AllNumbered ctx is ctx.instances h)
        | inr off ↦ rw off (is, refl, h)
      ]
