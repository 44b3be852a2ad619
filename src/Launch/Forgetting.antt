-- ===== src/Launch/Forgetting.antt =====
-- launch_params.py, `forget_decommissioned`: the loop forgets the names whose machines are destroyed,
-- and keeps the others.
use cs_image_system.Base.{
  String, ◌≡◌, inl, inr, refl, subst, sym, ◌∙◌, Bool, true, false, none, List, [], ◌∷◌, In, arith,
  mem, ◌==◌, eq_refl, eq_iff, if◌then◌else◌, Bool-cases, Option-cases,
}
use cs_image_system.Base.Dict.{Dict, get, get-del}
use cs_image_system.Meta.{Pins, Op}
use cs_image_system.Meta.Pinning.{remove_instance_pin}
use cs_image_system.Meta.Journal.{remove_launch_params}
use cs_image_system.Generations.{Why}
use cs_image_system.Generations.Record.{current_generation}
use cs_image_system.Generations.Flow.{on_gone}
use cs_image_system.Generations.Ledger.{current-close}
use cs_image_system.Generations.Names.{close-other}
use cs_image_system.Launch.{LaunchCtx, LaunchState}
use cs_image_system.Launch.Hooks.{
  launched_build, launched_runtime, is_destroyed, forget, forget_name, forget_names,
}

get-remove_launch_params :
    {A : Type 0} (d : Dict A) (name other : String)
    → get (remove_launch_params d name) other ≡ (if name == other then none else get d other)
unfolding remove_launch_params
get-remove_launch_params d name other =
    ground (arith, get-del d name other, eq_iff name other, Option-cases (get d name))

get-remove_instance_pin :
    (p : Pins) (name other run : String) (op : Op)
    → get (remove_instance_pin p name run op).instances other
      ≡ (if name == other then none else get p.instances other)
unfolding remove_instance_pin
get-remove_instance_pin p name other run op = elim (Option-cases (get p.instances name)) [
  | inl unbound ↦ ground (arith, unbound, eq_iff name other)
  | inr (b, bound) ↦ ground (arith, bound, get-del p.instances name other)
]

-- The name has no launch record, no pin and no open generation.
abbrev pub IsForgotten : LaunchState → String → Type 0
IsForgotten st name =
    (get st.params name ≡ none)
    × (get st.pins.instances name ≡ none)
    × (current_generation st.generations name ≡ none)

-- The two states agree on the name.
abbrev pub IsKept : LaunchState → LaunchState → String → Type 0
IsKept st st' name =
    (get st'.params name ≡ get st.params name)
    × (get st'.pins.instances name ≡ get st.pins.instances name)
    × (current_generation st'.generations name ≡ current_generation st.generations name)

module _ (ctx : LaunchCtx) where
  forget-IsForgotten :
      (st : LaunchState) (name : String) (why : Why) (op : Op) (registered : Bool)
      → IsForgotten (forget ctx st name why op registered) name
  unfolding forget on_gone
  forget-IsForgotten st name why op registered = (
    ground (arith, get-remove_launch_params st.params name name, eq_refl name),
    ground (arith, get-remove_instance_pin st.pins name name ctx.bake.run_id op, eq_refl name),
    current-close st.generations name ctx.bake.run_id why ctx.now,
  )

  forget-IsKept :
      (st : LaunchState) (name other : String) (why : Why) (op : Op) (registered : Bool)
      → name == other ≡ false
      → IsKept st (forget ctx st name why op registered) other
  unfolding forget on_gone
  forget-IsKept st name other why op registered apart = (
    ground (arith, get-remove_launch_params st.params name other, apart),
    ground (arith, get-remove_instance_pin st.pins name other ctx.bake.run_id op, apart),
    close-other st.generations name other ctx.bake.run_id why ctx.now apart,
  )

  forget_name-IsKept :
      (st : LaunchState) (name other : String)
      → name == other ≡ false
      → IsKept st (forget_name ctx st name) other
  unfolding forget_name
  forget_name-IsKept st name other apart = elim (Bool-cases (is_destroyed ctx st name)) [
    | inl gone ↦ rw gone (forget-IsKept st name other _ _ true apart)
    | inr stays ↦ rw stays (refl, refl, refl)
  ]

  forget_name-IsForgotten :
      (st : LaunchState) (name : String)
      → is_destroyed ctx st name ≡ true
      → IsForgotten (forget_name ctx st name) name
  unfolding forget_name
  forget_name-IsForgotten st name gone = rw gone (forget-IsForgotten st name _ _ true)

  -- A name whose machine is not destroyed is kept, whichever name is looked at.
  forget_name-stays :
      (st : LaunchState) (n name : String)
      → is_destroyed ctx st name ≡ false
      → IsKept st (forget_name ctx st n) name
  unfolding forget_name
  forget_name-stays st n name stays = elim (Bool-cases (n == name)) [
    | inl same ↦
        let same_destroyed : is_destroyed ctx st n ≡ false =
          subst (λ (s : String). is_destroyed ctx st s ≡ false) (sym ((eq_iff n name).0 same))
            stays in
        rw same_destroyed (refl, refl, refl)
    | inr apart ↦ forget_name-IsKept st n name apart
  ]

  forget_name_again :
      (st : LaunchState) (name other : String)
      → IsForgotten st other
      → IsForgotten (forget_name ctx st name) other
  unfolding forget_name
  forget_name_again st name other (no_record, no_pin, no_machine) =
      elim (Bool-cases (name == other)) [
        | inl same ↦ elim (Bool-cases (is_destroyed ctx st name)) [
          | inl gone ↦
              subst (IsForgotten (forget_name ctx st name)) ((eq_iff name other).0 same)
                (forget_name-IsForgotten st name gone)
          | inr stays ↦ rw stays (no_record, no_pin, no_machine)
        ]
        | inr apart ↦
            let (records, pins, machines) = forget_name-IsKept st name other apart in
            (records ∙ no_record, pins ∙ no_pin, machines ∙ no_machine)
      ]

  launched_build-IsKept :
      (st st' : LaunchState) (name : String)
      → IsKept st st' name
      → launched_build st' name ≡ launched_build st name
  unfolding launched_build
  launched_build-IsKept st st' name (records, pins, machines) = ground (arith, records, pins)

  launched_runtime-IsKept :
      (st st' : LaunchState) (name : String)
      → IsKept st st' name
      → launched_runtime ctx st' name ≡ launched_runtime ctx st name
  unfolding launched_runtime
  launched_runtime-IsKept st st' name kept = ground (arith, launched_build-IsKept st st' name kept)

  is_destroyed-IsKept :
      (st st' : LaunchState) (name : String)
      → IsKept st st' name
      → is_destroyed ctx st' name ≡ is_destroyed ctx st name
  unfolding is_destroyed
  is_destroyed-IsKept st st' name kept = ground (arith, launched_runtime-IsKept st st' name kept)

  forget_names_again :
      (st : LaunchState) (names : List String) (name : String)
      → IsForgotten st name
      → IsForgotten (forget_names ctx st names) name
  unfolding forget_names
  forget_names_again st [] name h = h
  forget_names_again st (n ∷ names) name h =
      forget_names_again (forget_name ctx st n) names name (forget_name_again st n name h)

  pub forget_names-IsForgotten :
      (st : LaunchState) (names : List String) (name : String)
      → In name names
      → is_destroyed ctx st name ≡ true
      → IsForgotten (forget_names ctx st names) name
  unfolding forget_names
  forget_names-IsForgotten st [] name m gone = absurd m
  forget_names-IsForgotten st (n ∷ names) name m gone = elim (Bool-cases (n == name)) [
    | inl same ↦
        let e = (eq_iff n name).0 same in
        forget_names_again (forget_name ctx st n) names name (
          subst (IsForgotten (forget_name ctx st n)) e (
            forget_name-IsForgotten st n
              (subst (λ (s : String). is_destroyed ctx st s ≡ true) (sym e) gone)))
    | inr apart ↦ elim m [
      | inl e ↦ absurd (cc (apart, (eq_iff n name).1 (sym e)))
      | inr later ↦ forget_names-IsForgotten (forget_name ctx st n) names name later (
          is_destroyed-IsKept st (forget_name ctx st n) name (forget_name-IsKept st n name apart)
          ∙ gone)
    ]
  ]

  pub forget_names-IsKept :
      (st : LaunchState) (names : List String) (name : String)
      → mem name names ≡ false
      → IsKept st (forget_names ctx st names) name
  unfolding forget_names
  forget_names-IsKept st [] name absent = (refl, refl, refl)
  forget_names-IsKept st (n ∷ names) name absent =
      let (records, pins, machines) = forget_name-IsKept st n name (ground (arith, absent)) in
      let (records', pins', machines') =
        forget_names-IsKept (forget_name ctx st n) names name (ground (arith, absent)) in
      (records' ∙ records, pins' ∙ pins, machines' ∙ machines)

  pub forget_names-stays :
      (st : LaunchState) (names : List String) (name : String)
      → is_destroyed ctx st name ≡ false
      → IsKept st (forget_names ctx st names) name
  unfolding forget_names
  forget_names-stays st [] name stays = (refl, refl, refl)
  forget_names-stays st (n ∷ names) name stays =
      let (records, pins, machines) = forget_name-stays st n name stays in
      let (records', pins', machines') =
        forget_names-stays (forget_name ctx st n) names name
          (is_destroyed-IsKept st (forget_name ctx st n) name (records, pins, machines) ∙ stays) in
      (records' ∙ records, pins' ∙ pins, machines' ∙ machines)
