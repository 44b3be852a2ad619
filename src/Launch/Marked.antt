-- ===== src/Launch/Marked.antt =====
-- launch_params.py, `mark_launched`: after an apply every machine of an applied root is launched.
use cs_image_system.Base.{
  String, ◌≡◌, inl, inr, refl, ap, ◌∙◌, sym, Bool, true, false, none, some, [], ◌∷◌, In, subst,
  arith, is_some, ◌==◌, eq_refl, eq_iff, if◌then◌else◌, Bool-cases, Option-cases,
}
use cs_image_system.Base.Dict.{Dict, get, put, has, keys, get-put, get-del}
use cs_image_system.Meta.Pinning.{clear_pending_replacement}
use cs_image_system.Meta.Journal.{record_launch_params as put_launch_params}
use cs_image_system.Lifecycles.Builtin.{Lifecycle}
use cs_image_system.Generations.{
  Params, Instances, Kind, How, Result, ok, kind_of, inferred, replaced,
}
use cs_image_system.Generations.Record.{
  entry_or_new, open_generation, current_generation, close_generation, opened,
}
use cs_image_system.Generations.Flow.{on_launched, renamed}
use cs_image_system.Generations.Names.{current-put, close-other}
use cs_image_system.Generations.Ledger.{current-close, open_generation-ok}
use cs_image_system.Launch.{LaunchInstance, LaunchCtx, LaunchState}
use cs_image_system.Launch.Record.{is_applied, is_applying, with_params}
use cs_image_system.Launch.Hooks.{
  declared, marked, after_launch, mark_machine, mark_entry, mark_entries, mark_launched,
}

-- The launch of a machine leaves a generation of its name open, and no other name's.
abbrev Opens : Instances → String → Result Instances → Type 0
Opens is name r =
    (is' : Instances) × (r ≡ ok is')
    × (is_some (current_generation is' name) ≡ true)
    × ((other : String)
        → name == other ≡ false
        → current_generation is' other ≡ current_generation is other)

open_generation-Opens :
    (is : Instances) (name : String) (kind : Kind) (run : String) (how : How) (params : Params)
    (now : String)
    → current_generation is name ≡ none
    → Opens is name (open_generation is name kind run how params none now)
unfolding opened
open_generation-Opens is name kind run how params now idle = (
  put is name (opened (entry_or_new (get is name)) kind run how params none now),
  open_generation-ok is name idle kind run how params none now,
  ground (
    arith,
    current-put is name name (opened (entry_or_new (get is name)) kind run how params none now),
    eq_refl name,
  ),
  λ other apart. ground (
    arith,
    current-put is name other (opened (entry_or_new (get is name)) kind run how params none now),
    apart,
  ),
)

on_launched-Opens :
    (run now : String) (is : Instances) (name : String) (params : Params) (was_replaced : Bool)
    → Opens is name (on_launched run now is name params was_replaced)
unfolding on_launched
on_launched-Opens run now is name params was_replaced =
    elim (Option-cases (current_generation is name)) [
      | inl idle ↦
          rw (idle, on_launched)
            (open_generation-Opens is name (kind_of params) run inferred params now idle)
      | inr (g, at) ↦ elim (Bool-cases (if was_replaced then true else renamed g params)) [
        | inl again ↦
            rw (at, on_launched, again)
              (let (is', same, open_now, others) =
                  open_generation-Opens (close_generation is name run replaced now).0 name
                    (kind_of params) run inferred params now
                    (current-close is name run replaced now) in
                (
                  is',
                  same,
                  open_now,
                  λ other apart.
                      others other apart ∙ close-other is name other run replaced now apart,
                ))
        | inr stands ↦ rw (at, on_launched, stands) (is, refl, ap is_some at, λ other apart. refl)
      ]
    ]

-- The record of the name is launched by the run, nothing is pending for it, and a generation is open.
abbrev pub IsMarked : LaunchCtx → LaunchState → String → Type 0
IsMarked ctx st name =
    (p : Params) × (get st.params name ≡ some p)
    × (p.launched ≡ true)
    × (p.launched_run ≡ some ctx.bake.run_id)
    × (get st.pins.pending_replacements name ≡ none)
    × (is_some (current_generation st.generations name) ≡ true)

-- The name is declared, and the run applies the root of its instance.
abbrev pub IsDue : LaunchCtx → String → Type 0
IsDue ctx name =
    (i : LaunchInstance) × (get (declared ctx.instances []) name ≡ some i)
    × (is_applied ctx i ≡ true)

-- A step succeeds, marks the name when it is due, and keeps the marks of every name.
abbrev Marks : LaunchCtx → LaunchState → (String → Type 0) → Result LaunchState → Type 0
Marks ctx st Due r =
    (st' : LaunchState) × (r ≡ ok st')
    × ((name : String) → Due name → IsMarked ctx st' name)
    × ((name : String) → IsMarked ctx st name → IsMarked ctx st' name)

after_launch-new :
    (ctx : LaunchCtx) (st : LaunchState) (name : String) (p : Params) (is : Instances)
    → is_some (current_generation is name) ≡ true
    → IsMarked ctx (after_launch ctx st name p is) name
unfolding after_launch with_params put_launch_params clear_pending_replacement marked
after_launch-new ctx st name p is open_now = (
  record p { launched = true; launched_run = some ctx.bake.run_id },
  ground (arith, get-put st.params name name (marked ctx p), eq_refl name),
  refl,
  refl,
  ground (arith, get-del st.pins.pending_replacements name name, eq_refl name),
  open_now,
)

after_launch-old :
    (ctx : LaunchCtx) (st : LaunchState) (name other : String) (p : Params) (is : Instances)
    → name == other ≡ false
    → current_generation is other ≡ current_generation st.generations other
    → IsMarked ctx st other
    → IsMarked ctx (after_launch ctx st name p is) other
unfolding after_launch with_params put_launch_params clear_pending_replacement
after_launch-old ctx st name other p is apart same (q, found, on, by, clear, open_now) = (
  q,
  ground (arith, get-put st.params name other (marked ctx p), apart, found),
  on,
  by,
  ground (arith, get-del st.pins.pending_replacements name other, apart, clear),
  ap is_some same ∙ open_now,
)

mark_machine-Marks :
    (ctx : LaunchCtx) (st : LaunchState) (name : String) (p : Params) (was_pending : Bool)
    → Marks ctx st (λ other. name ≡ other) (mark_machine ctx st name p was_pending)
unfolding mark_machine
mark_machine-Marks ctx st name p was_pending =
    let (is', same, open_now, others) =
      on_launched-Opens ctx.bake.run_id ctx.now st.generations name (marked ctx p) was_pending in
    let new = after_launch-new ctx st name p is' open_now in
    (
      after_launch ctx st name p is',
      rw same refl,
      λ other e. subst (IsMarked ctx (after_launch ctx st name p is')) e new,
      λ other m. elim (Bool-cases (name == other)) [
        | inl e ↦
            subst (IsMarked ctx (after_launch ctx st name p is')) ((eq_iff name other).0 e) new
        | inr apart ↦ after_launch-old ctx st name other p is' apart (others other apart) m
      ],
    )

cleared-IsMarked :
    (ctx : LaunchCtx) (st : LaunchState) (name other : String)
    → IsMarked ctx st other
    → IsMarked ctx (record st { pins = clear_pending_replacement st.pins name }) other
unfolding clear_pending_replacement
cleared-IsMarked ctx st name other (q, found, on, by, clear, open_now) = (
  q,
  found,
  on,
  by,
  ground (arith, get-del st.pins.pending_replacements name other, clear),
  open_now,
)

mark_entry-Marks :
    (ctx : LaunchCtx) (pending : Dict String) (st : LaunchState) (name : String) (p : Params)
    → Marks ctx st (λ other. (name ≡ other) × IsDue ctx other) (mark_entry ctx pending st (name, p))
unfolding mark_entry
mark_entry-Marks ctx pending st name p =
    elim (Option-cases (get (declared ctx.instances []) name)) [
      | inl undeclared ↦ (
        record st { pins = clear_pending_replacement st.pins name },
        ground (arith, undeclared),
        λ other due. absurd (cc (due.0, due.1.1, undeclared)),
        λ other m. cleared-IsMarked ctx st name other m,
      )
      | inr (i, is_declared) ↦ elim (Bool-cases (is_applied ctx i)) [
        | inl applied ↦
            let (st', same, new, old) = mark_machine-Marks ctx st name p (has pending name) in
            (st', ground (arith, is_declared, applied, same), λ other due. new other due.0, old)
        | inr held ↦ (
          st,
          ground (arith, is_declared, held),
          λ other due. absurd (cc (due.0, due.1.1, due.1.2, is_declared, held)),
          λ other m. m,
        )
      ]
    ]

mark_entries-Marks :
    (ctx : LaunchCtx) (pending : Dict String) (st : LaunchState) (entries : Dict Params)
    → Marks ctx st
        (λ name. In name (keys entries) × IsDue ctx name)
        (mark_entries ctx pending st entries)
unfolding mark_entries
mark_entries-Marks ctx pending st [] = (st, refl, λ name due. absurd due.0, λ name m. m)
mark_entries-Marks ctx pending st ((name, p) ∷ rest) =
    let (st', same, new, old) = mark_entry-Marks ctx pending st name p in
    let (st'', same', new', old') = mark_entries-Marks ctx pending st' rest in
    (
      st'',
      rw (same) same',
      λ other due. elim due.0 [
        | inl e ↦ old' other (new other (sym e, due.1))
        | inr later ↦ new' other (later, due.1)
      ],
      λ other m. old' other (old other m),
    )

-- When the run applies, the hook succeeds, and every recorded name that is declared in an applied
-- root is launched by the run, with a generation open and no replacement pending.
pub mark_launched-IsMarked :
    (ctx : LaunchCtx) (lifecycle : Lifecycle) (st : LaunchState)
    → is_applying ctx lifecycle ≡ true
    → (st' : LaunchState) × (mark_launched ctx lifecycle st ≡ ok st')
      × ((name : String) → In name (keys st.params) → IsDue ctx name → IsMarked ctx st' name)
unfolding mark_launched
mark_launched-IsMarked ctx lifecycle st applying =
    let (st', same, new, old) = mark_entries-Marks ctx st.pins.pending_replacements st st.params in
    (st', ground (arith, applying, same), λ name recorded due. new name (recorded, due))
