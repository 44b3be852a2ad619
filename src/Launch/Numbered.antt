-- ===== src/Launch/Numbered.antt =====
-- launch_params.py, `canonical_hostname`: the name on the machine and the number in the ledger agree.
use cs_image_system.Base.{
  ℕ, ◌+◌, String, ◌≡◌, ◌⊎◌, inl, inr, refl, subst, ap, ◌∙◌, sym, Bool, true, false, none, some,
  arith, ◌==◌, if◌then◌else◌, Option-cases,
}
use cs_image_system.Base.Dict.{get, put}
use cs_image_system.Base.Words.{◌+++◌}
use cs_image_system.Generations.{
  Params, Kind, durable, ephemeral, kind_of, Why, Counters, counter, advance, Generation, Entry,
  Instances, Result, ok, err, ◌>>=◌, inferred, replaced,
}
use cs_image_system.Generations.Record.{
  entry_or_new, instance_generation, current_generation, open_generation, close_generation,
  closed_entry, opened,
}
use cs_image_system.Generations.Flow.{renamed, on_launched}
use cs_image_system.Generations.Ledger.{entry-put, current-close, open_generation-ok}
use cs_image_system.Launch.{LaunchInstance, LaunchCtx, LaunchState}
use cs_image_system.Launch.Names.{
  recorded_of, will_replace, padded, kind_of_instance, next_hostname, standing_hostname,
  canonical_hostname, compute_launch_params,
}
use cs_image_system.Launch.Hooks.{marked, after_launch, mark_machine}

counter-advance : (c : Counters) (kind : Kind) → counter (advance c kind) kind ≡ counter c kind + 1
unfolding counter advance
counter-advance c durable = refl
counter-advance c ephemeral = refl

instance_generation-close :
    (is : Instances) (name run : String) (why : Why) (now : String) (kind : Kind)
    → instance_generation (close_generation is name run why now).0 name kind
      ≡ instance_generation is name kind
unfolding instance_generation close_generation closed_entry
instance_generation-close is name run why now kind =
    elim (Option-cases (entry_or_new (get is name)).current) [
      | inl idle ↦ rw (idle, close_generation) refl
      | inr (g, at) ↦
          rw (at, close_generation)
            (ap (λ (e : Entry). counter e.generation kind) (entry-put is name _))
    ]

-- The machine of the name is of the generation.
abbrev IsNumber : Instances → String → ℕ → Type 0
IsNumber is name n = (g : Generation) × (current_generation is name ≡ some g) × (g.number ≡ n)

opened-IsNumber :
    (is : Instances) (name run now : String) (kind : Kind) (params : Params)
    → IsNumber
        (put is name (opened (entry_or_new (get is name)) kind run inferred params none now))
        name
        (instance_generation is name kind + 1)
unfolding opened instance_generation current_generation
opened-IsNumber is name run now kind params = (
  record {
    number = counter (advance (entry_or_new (get is name)).generation kind) kind;
    kind = kind;
    how = inferred;
    opened_run = run;
    opened_at = now;
    launch_params = params;
    instance_id = none;
    provider_hostname = none;
  },
  ap (λ (e : Entry). e.current)
      (entry-put is name (opened (entry_or_new (get is name)) kind run inferred params none now)),
  counter-advance (entry_or_new (get is name)).generation kind,
)

open_generation-IsNumber :
    (is is' : Instances) (name run now : String) (kind : Kind) (params : Params)
    → current_generation is name ≡ none
    → open_generation is name kind run inferred params none now ≡ ok is'
    → IsNumber is' name (instance_generation is name kind + 1)
open_generation-IsNumber is is' name run now kind params idle done =
    let same : put is name (opened (entry_or_new (get is name)) kind run inferred params none now)
        ≡ is' =
      cc (open_generation-ok is name idle kind run inferred params none now, done) in
    subst (λ (s : Instances). IsNumber s name (instance_generation is name kind + 1)) same
      (opened-IsNumber is name run now kind params)

some-inj : {A : Type 0} (a b : A) → some a ≡ some b → a ≡ b
some-inj a b h = cc

-- No generation is open, or a replacement was pending, or the machine of the open generation booted
-- with another hostname than that of the parameters.
abbrev pub IsNewMachine : Instances → String → Params → Bool → Type 0
IsNewMachine is name params was_pending =
    (current_generation is name ≡ none)
    ⊎ (was_pending ≡ true)
    ⊎ ((g : Generation) × (old hostname : String) × (current_generation is name ≡ some g)
        × (g.launch_params.hostname ≡ some old)
        × (params.hostname ≡ some hostname)
        × (old == "" ≡ false)
        × (hostname == "" ≡ false)
        × (old == hostname ≡ false))

is_replaced :
    (is : Instances) (name : String) (params : Params) (was_pending : Bool) (g : Generation)
    → IsNewMachine is name params was_pending
    → current_generation is name ≡ some g
    → (if was_pending then true else renamed g params) ≡ true
unfolding renamed
is_replaced is name params was_pending g (inl idle) at = absurd (cc (idle, at))
is_replaced is name params was_pending g (inr (inl pending)) at = ground (arith, pending)
is_replaced is name params was_pending g
      (inr (inr (standing, old, hostname, current, booted, named, set, set', other))) at =
    let same : standing ≡ g = some-inj standing g (sym current ∙ at) in
    let booted_g : g.launch_params.hostname ≡ some old =
      subst (λ (o : Generation). o.launch_params.hostname ≡ some old) same booted in
    ground (arith, booted_g, named, set, set', other)

-- A launch of a new machine opens the next number of its kind.
on_launched-IsNumber :
    (run now : String) (is is' : Instances) (name : String) (params : Params) (was_replaced : Bool)
    → IsNewMachine is name params was_replaced
    → on_launched run now is name params was_replaced ≡ ok is'
    → IsNumber is' name (instance_generation is name (kind_of params) + 1)
unfolding on_launched
on_launched-IsNumber run now is is' name params was_replaced new done =
    elim (Option-cases (current_generation is name)) [
      | inl idle ↦
          open_generation-IsNumber is is' name run now (kind_of params) params idle
            (rw (idle, on_launched) at done)
      | inr (g, at) ↦
          let again = is_replaced is name params was_replaced g new at in
          let closed = (close_generation is name run replaced now).0 in
          subst (λ (n : ℕ). IsNumber is' name (n + 1))
            (instance_generation-close is name run replaced now (kind_of params))
            (open_generation-IsNumber closed is' name run now (kind_of params) params
              (current-close is name run replaced now) (rw (at, again, on_launched) at done))
    ]

ok-inj : {A : Type 0} (a b : A) → ok a ≡ ok b → a ≡ b
ok-inj a b h = cc

bind-ok :
    {A B : Type 0} (r : Result A) (f : A → Result B) (b : B)
    → r >>= f ≡ ok b
    → (a : A) × (r ≡ ok a) × (f a ≡ ok b)
bind-ok (ok a) f b h = (a, refl, h)
bind-ok (err e) f b h = cc

canonical_hostname-new :
    (ctx : LaunchCtx) (st : LaunchState) (i : LaunchInstance)
    → (standing_hostname (recorded_of st i.pinned.name) ≡ none) ⊎ (will_replace ctx st i ≡ true)
    → canonical_hostname ctx st i ≡ next_hostname st i
unfolding canonical_hostname
canonical_hostname-new ctx st i new =
    elim (Option-cases (standing_hostname (recorded_of st i.pinned.name))) [
      | inl no_machine ↦ ground (arith, no_machine)
      | inr (hostname, stands) ↦ ground (arith, stands, new)
    ]

generations-after_launch :
    (ctx : LaunchCtx) (st : LaunchState) (name : String) (p : Params) (is : Instances)
    → (after_launch ctx st name p is).generations ≡ is
unfolding after_launch
generations-after_launch ctx st name p is = refl

kind_of-compute :
    (ctx : LaunchCtx) (st : LaunchState) (i : LaunchInstance)
    → kind_of (marked ctx (compute_launch_params ctx st i)) ≡ kind_of_instance i
unfolding kind_of marked compute_launch_params kind_of_instance
kind_of-compute ctx st i = refl

-- When the parameters are computed for a new machine, since none stands or the run replaces it, and
-- the launch sees that the machine is new, since no generation is open, or an upgrade was pending, or
-- the open generation is known to have booted with another hostname, then the machine's hostname is
-- the instance's name with the number of the generation that the launch opens.
pub mark_machine-hostname :
    (ctx : LaunchCtx) (st st' : LaunchState) (i : LaunchInstance) (was_pending : Bool)
    → IsNewMachine st.generations i.pinned.name
        (marked ctx (compute_launch_params ctx st i))
        was_pending
    → (standing_hostname (recorded_of st i.pinned.name) ≡ none) ⊎ (will_replace ctx st i ≡ true)
    → mark_machine ctx st i.pinned.name (compute_launch_params ctx st i) was_pending ≡ ok st'
    → (g : Generation) × (current_generation st'.generations i.pinned.name ≡ some g)
      × ((compute_launch_params ctx st i).hostname
          ≡ some (i.pinned.name +++ "-" +++ padded g.number))
unfolding mark_machine compute_launch_params next_hostname
mark_machine-hostname ctx st st' i was_pending idle new done =
    let name = i.pinned.name in
    let p = compute_launch_params ctx st i in
    let launch =
      on_launched ctx.bake.run_id ctx.now st.generations name (marked ctx p) was_pending in
    let (is', launched, same) =
      bind-ok launch (λ is. ok (after_launch ctx st name p is)) st' done in
    let (g, current, number) =
      on_launched-IsNumber ctx.bake.run_id ctx.now st.generations is' name (marked ctx p)
        was_pending idle launched in
    let kept : is' ≡ st'.generations =
      sym (generations-after_launch ctx st name p is')
      ∙ ap (λ (s : LaunchState). s.generations)
          (ok-inj (after_launch ctx st name p is') st' same) in
    (
      g,
      subst (λ (s : Instances). current_generation s name ≡ some g) kept current,
      ap some (
          canonical_hostname-new ctx st i new
          ∙ ap (λ (n : ℕ). name +++ "-" +++ padded n)
              (sym (
                number
                ∙ ap (λ (k : Kind). instance_generation st.generations name k + 1)
                    (kind_of-compute ctx st i)))),
    )
