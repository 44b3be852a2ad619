-- ===== src/Launch/Undeclared.antt =====
-- launch_params.py, `forget_decommissioned`: the names that are recorded and no longer declared, and
-- the runtime that a machine stands on.
use cs_image_system.Base.{
  String, ◌≡◌, ◌⊎◌, inl, inr, refl, ap, sym, subst, Bool, true, false, not, ◌||◌, none, some, List,
  [], ◌∷◌, In, arith, mem, map, select, distinct, ◌++◌, ◌==◌, eq_iff, truthy, All-of_select,
  mem-false, Bool-cases, Option-cases,
}
use cs_image_system.Base.Dict.{Dict, get, has, keys}
use cs_image_system.Base.Sorting.{text_le, In-sorted, All-sorted}
use cs_image_system.Meta.{Build}
use cs_image_system.Meta.Lineage.{build}
use cs_image_system.Generations.{Params}
use cs_image_system.Launch.{LaunchInstance, LaunchCtx, LaunchState}
use cs_image_system.Launch.Hooks.{launched_build, launched_runtime, undeclared}

abbrev pub is_declared : LaunchCtx → String → Bool
is_declared ctx name = mem name (map (λ (i : LaunchInstance). i.pinned.name) ctx.instances)

-- The machine was launched from the build: its pin, or the build of its record when it has no pin.
abbrev pub IsBuiltFrom : LaunchState → String → String → Type 0
IsBuiltFrom st name id =
    (get st.pins.instances name ≡ some id)
    ⊎ ((truthy (get st.pins.instances name) ≡ false)
        × (p : Params) × (get st.params name ≡ some p)
        × (p.build ≡ some id))

-- The machine was launched from a recorded build that was baked on the runtime.
abbrev pub StandsOn : LaunchCtx → LaunchState → String → String → Type 0
StandsOn ctx st name rt =
    (id : String) × (b : Build) × IsBuiltFrom st name id
    × (id == "" ≡ false)
    × (build ctx.bake.builds id ≡ some b)
    × (b.runtime ≡ some rt)
    × (rt == "" ≡ false)

launched_build-some :
    (st : LaunchState) (name id : String)
    → id == "" ≡ false
    → IsBuiltFrom st name id
    → launched_build st name ≡ some id
unfolding launched_build
launched_build-some st name id made (inl pinned) = ground (arith, pinned, made)
launched_build-some st name id made (inr (unpinned, p, at, from)) =
    ground (arith, unpinned, at, from)

IsBuiltFrom-launched_build :
    (st : LaunchState) (name id : String)
    → launched_build st name ≡ some id
    → IsBuiltFrom st name id
unfolding launched_build
IsBuiltFrom-launched_build st name id h = elim (Bool-cases (truthy (get st.pins.instances name))) [
  | inl pinned ↦ inl (ground (arith, pinned, h))
  | inr unpinned ↦ elim (Option-cases (get st.params name)) [
    | inl nothing ↦ absurd (ground (arith, unpinned, nothing, h))
    | inr (p, at) ↦ inr (unpinned, p, at, ground (arith, unpinned, at, h))
  ]
]

pub launched_runtime-some :
    (ctx : LaunchCtx) (st : LaunchState) (name rt : String)
    → StandsOn ctx st name rt
    → launched_runtime ctx st name ≡ some rt
unfolding launched_runtime
launched_runtime-some ctx st name rt (id, b, from, made, recorded, on, set) =
    ground (arith, launched_build-some st name id made from, made, recorded, on, set)

StandsOn-launched_runtime :
    (ctx : LaunchCtx) (st : LaunchState) (name rt : String)
    → launched_runtime ctx st name ≡ some rt
    → StandsOn ctx st name rt
unfolding launched_runtime
StandsOn-launched_runtime ctx st name rt h = elim (Option-cases (launched_build st name)) [
  | inl nothing ↦ absurd (ground (arith, nothing, h))
  | inr (id, from) ↦ elim (Option-cases (build ctx.bake.builds id)) [
    | inl unknown ↦ absurd (ground (arith, from, unknown, h))
    | inr (b, recorded) ↦ (
      id,
      b,
      IsBuiltFrom-launched_build st name id from,
      ground (arith, from, recorded, h),
      recorded,
      ground (arith, from, recorded, h),
      ground (arith, from, recorded, h),
    )
  ]
]

-- Without a runtime that the machine is known to stand on, none is found.
pub launched_runtime-none :
    (ctx : LaunchCtx) (st : LaunchState) (name : String)
    → ((rt : String) → ¬ StandsOn ctx st name rt)
    → launched_runtime ctx st name ≡ none
launched_runtime-none ctx st name nowhere = elim (Option-cases (launched_runtime ctx st name)) [
  | inl nothing ↦ nothing
  | inr (rt, on) ↦ absurd (nowhere rt (StandsOn-launched_runtime ctx st name rt on))
]

In-mem : (names : List String) (name : String) → mem name names ≡ true → In name names
In-mem [] name h = cc
In-mem (n ∷ names) name h = elim (Bool-cases (n == name)) [
  | inl same ↦ inl (sym ((eq_iff n name).0 same))
  | inr other ↦ inr (In-mem names name (ground (arith, other, h)))
]

mem-append :
    (xs ys : List String) (name : String) → mem name (xs ++ ys) ≡ (mem name xs || mem name ys)
mem-append [] ys name = refl
mem-append (x ∷ xs) ys name = ground (arith, mem-append xs ys name)

mem-select :
    (test : String → Bool) (xs : List String) (name : String)
    → test name ≡ true
    → mem name xs ≡ true
    → mem name (select test xs) ≡ true
mem-select test [] name t m = m
mem-select test (x ∷ xs) name t m = elim (Bool-cases (x == name)) [
  | inl same ↦
      let e = (eq_iff x name).0 same in
      let kept : test x ≡ true = subst (λ (s : String). test s ≡ true) (sym e) t in
      ground (arith, kept, same)
  | inr other ↦ ground (arith, other, m, mem-select test xs name t)
]

mem-distinct :
    (xs : List String) (name : String) → mem name xs ≡ true → mem name (distinct xs) ≡ true
mem-distinct [] name m = m
mem-distinct (x ∷ xs) name m = elim (Bool-cases (x == name)) [
  | inl same ↦ ground (arith, same)
  | inr other ↦ ground (
    arith,
    other,
    eq_iff x name,
    eq_iff name x,
    m,
    mem-select (λ t. not (t == x)) (distinct xs) name
        (ground (arith, other, eq_iff x name, eq_iff name x))
        (mem-distinct xs name (ground (arith, other, m))),
  )
]

mem-keys : {A : Type 0} (d : Dict A) (name : String) → has d name ≡ true → mem name (keys d) ≡ true
unfolding get
mem-keys [] name h = cc
mem-keys ((k, v) ∷ d) name h = ground (arith, h, mem-keys d name)

-- A name with a launch record or a pin that is not declared is undeclared.
pub In-undeclared :
    (ctx : LaunchCtx) (st : LaunchState) (name : String)
    → has st.params name || has st.pins.instances name ≡ true
    → is_declared ctx name ≡ false
    → In name (undeclared ctx st)
unfolding undeclared
In-undeclared ctx st name recorded absent =
    let names = keys st.params ++ keys st.pins.instances in
    let known : mem name names ≡ true = ground (
      arith,
      mem-append (keys st.params) (keys st.pins.instances) name,
      recorded,
      mem-keys st.params name,
      mem-keys st.pins.instances name,
    ) in
    In-sorted text_le _ name (
      In-mem _ name (
        mem-select (λ n. not (is_declared ctx n)) (distinct names) name (ap not absent)
          (mem-distinct names name known)))

pub undeclared-is_declared :
    (ctx : LaunchCtx) (st : LaunchState) (name : String)
    → is_declared ctx name ≡ true
    → mem name (undeclared ctx st) ≡ false
unfolding undeclared
undeclared-is_declared ctx st name declared = mem-false name _ (
    All-sorted text_le (λ n. n == name ≡ false) _
      (All-of_select (λ n. n == name ≡ false) (λ n. not (is_declared ctx n))
        (distinct (keys st.params ++ keys st.pins.instances))
        (λ n kept. elim (Bool-cases (n == name)) [
          | inl same ↦ absurd (
              cc (
                kept,
                ap not (
                    subst (λ (s : String). is_declared ctx s ≡ true) (sym ((eq_iff n name).0 same))
                      declared),
              ))
          | inr apart ↦ apart
        ])))
