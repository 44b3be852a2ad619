-- ===== src/Aliases/Once.antt =====
-- alias_pool.py: an instance takes one name per run, and a run that ends without the machine leaves
-- the pool as it found it.
use cs_image_system.Base.{
  String, ◌≡◌, ◌⊎◌, inl, inr, ◌∙◌, true, not, ◌&&◌, ◌||◌, none, some, List, [], ◌∷◌, ◌++◌, arith,
  is_some, ◌==◌, eq_refl, Bool-cases, Option-cases,
}
use cs_image_system.Base.Words.{◌+++◌}
use cs_image_system.Launch.{LaunchInstance, LaunchCtx, LaunchState}
use cs_image_system.Launch.Names.{recorded_of}
use cs_image_system.Launch.Record.{is_applied}
use cs_image_system.Aliases.{Drawn}
use cs_image_system.Aliases.Line.{burn_record}
use cs_image_system.Aliases.Draw.{draw, peek}
use cs_image_system.Aliases.Queue.{draw-free_names}
use cs_image_system.Aliases.Requests.{
  AliasState, drawn_for, is_new_machine, recorded_now, take_alias, new_alias, alias_for,
}

drawn_for-snoc :
    (ds : List Drawn) (run name alias : String)
    → drawn_for ds run name ≡ none
    → drawn_for (ds ++ record { run = run; instance_name = name; alias = alias } ∷ []) run name
      ≡ some alias
unfolding drawn_for
drawn_for-snoc [] run name alias h = ground (arith, eq_refl run, eq_refl name)
drawn_for-snoc (d ∷ ds) run name alias h =
    elim (Bool-cases (d.run == run && d.instance_name == name)) [
      | inl same ↦ absurd (ground (arith, same, h))
      | inr other ↦
          ground (arith, other, drawn_for-snoc ds run name alias (ground (arith, other, h)))
    ]

module _ (ctx : LaunchCtx) (st : LaunchState) (i : LaunchInstance) (canonical : String) where
  burned : String → String
  burned when =
      burn_record ("instance " +++ i.pinned.name +++ " as " +++ canonical) ctx.bake.run_id when

  -- What is taken: nothing, whenever asked, or the name of a draw.
  take_alias-cases :
      (s : AliasState) (when : String)
      → ((again : String) → take_alias ctx s i canonical again ≡ (none, s))
        ⊎ ((name : String) × ((draw s.pool (burned when)).1 ≡ some name)
            × (take_alias ctx s i canonical when ≡ (
              some name,
              record {
                pool = (draw s.pool (burned when)).0;
                drawn =
                    s.drawn
                    ++ record { run = ctx.bake.run_id; instance_name = i.pinned.name; alias = name }
                      ∷ [];
              },
            )))
  unfolding take_alias burned
  take_alias-cases s when = elim (Option-cases (peek s.pool)) [
    | inl empty ↦ inl (λ again. ground (arith, empty, (draw-free_names s.pool (burned again)).1))
    | inr (name, offered) ↦
        let drew = (draw-free_names s.pool (burned when)).1 ∙ offered in
        inr (name, drew, ground (arith, drew))
  ]

  new_alias_idem :
      (s : AliasState) (when again : String)
      → new_alias ctx st (new_alias ctx st s i canonical when).1 i canonical again
        ≡ new_alias ctx st s i canonical when
  unfolding new_alias
  new_alias_idem s when again =
      elim (Option-cases (drawn_for s.drawn ctx.bake.run_id i.pinned.name)) [
        | inr (alias, drew) ↦ ground (arith, drew)
        | inl fresh ↦
            elim (Option-cases (recorded_now (recorded_of st i.pinned.name) ctx.bake.run_id)) [
              | inr (alias, recorded) ↦ ground (arith, fresh, recorded)
              | inl unrecorded ↦ elim (Bool-cases (not ctx.dry_run && is_applied ctx i)) [
                | inr held ↦ ground (arith, fresh, unrecorded, held)
                | inl can ↦ elim (take_alias-cases s when) [
                  | inl nothing ↦
                      ground (arith, fresh, unrecorded, can, nothing when, nothing again)
                  | inr (name, drew, taken) ↦ ground (
                    arith,
                    fresh,
                    unrecorded,
                    can,
                    taken,
                    drawn_for-snoc s.drawn ctx.bake.run_id i.pinned.name name fresh,
                  )
                ]
              ]
            ]
      ]

  pool-new_alias :
      (s : AliasState) (when : String)
      → is_some s.pool ≡ true
      → is_some (new_alias ctx st s i canonical when).1.pool ≡ true
  unfolding new_alias take_alias draw
  pool-new_alias s when h = elim (Option-cases s.pool) [
    | inl absent ↦ absurd (ground (arith, absent, h))
    | inr (lines, there) ↦ ground (arith, there)
  ]

  -- Asked again in the run, at whatever time, an instance has the alias that it was told first, and
  -- nothing more is drawn.
  pub alias_for_idem :
      (s : AliasState) (when again : String)
      → alias_for ctx st (alias_for ctx st s i canonical when).1 i canonical again
        ≡ alias_for ctx st s i canonical when
  unfolding alias_for
  alias_for_idem s when again = elim (Bool-cases (is_new_machine ctx st i)) [
    | inr stands ↦ ground (arith, stands)
    | inl new ↦ elim (Bool-cases (i.ephemeral || not (is_some s.pool))) [
      | inl no_pool ↦ ground (arith, new, no_pool)
      | inr pooled ↦ ground (
        arith,
        new,
        pooled,
        new_alias_idem s when again,
        pool-new_alias s when (ground (arith, pooled)),
      )
    ]
  ]
