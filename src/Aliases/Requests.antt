-- ===== src/Aliases/Requests.antt =====
-- alias_pool.py: the alias of an instance's launch parameters, and the return of the names that a run
-- drew for machines that it did not launch.
use cs_image_system.Base.{
  String, Bool, false, not, ◌&&◌, ◌||◌, Option, none, some, List, [], ◌∷◌, ◌++◌, truthy, or_else,
  is_some, ◌==◌, if◌then◌else◌,
}
use cs_image_system.Base.Words.{◌+++◌}
use cs_image_system.Generations.{Params}
use cs_image_system.Launch.{LaunchInstance, LaunchCtx, LaunchState}
use cs_image_system.Launch.Names.{recorded_of, will_replace}
use cs_image_system.Launch.Record.{is_applied}
use cs_image_system.Launch.Checks.{is_launched}
use cs_image_system.Aliases.{Pool, Drawn}
use cs_image_system.Aliases.Line.{burn_record}
use cs_image_system.Aliases.Draw.{draw, undraw}

-- The file, and the names that this process drew.
pub record AliasState : Type 0 where
  pub pool : Pool
  pub drawn : List Drawn

unfoldable pub drawn_for : List Drawn → String → String → Option String
drawn_for [] run name = none
drawn_for (d ∷ ds) run name =
    if d.run == run && d.instance_name == name then some d.alias else drawn_for ds run name

unfoldable pub is_new_machine : LaunchCtx → LaunchState → LaunchInstance → Bool
is_new_machine ctx st i = not (is_launched (recorded_of st i.pinned.name)) || will_replace ctx st i

unfoldable pub recorded_alias : Option Params → Option String
recorded_alias none = none
recorded_alias (some p) = if truthy p.alias then p.alias else none

-- The alias that was recorded earlier in this run.
unfoldable pub recorded_now : Option Params → String → Option String
recorded_now none run = none
recorded_now (some p) run = if or_else p.run "" == run && truthy p.alias then p.alias else none

-- A name is taken from the pool, if it has one.
unfoldable pub take_alias :
    LaunchCtx → AliasState → LaunchInstance → String → String → Option String × AliasState
take_alias ctx s i canonical when =
    let taken_by = "instance " +++ i.pinned.name +++ " as " +++ canonical in
    let after = draw s.pool (burn_record taken_by ctx.bake.run_id when) in
    elim after.1 [
      | none ↦ (none, s)
      | some name ↦ (
        some name,
        record {
          pool = after.0;
          drawn =
              s.drawn
              ++ record { run = ctx.bake.run_id; instance_name = i.pinned.name; alias = name } ∷ [];
        },
      )
    ]

-- The alias of a new machine: the one that this run drew for it, or a draw when it can launch it.
unfoldable pub new_alias :
    LaunchCtx
    → LaunchState
    → AliasState
    → LaunchInstance
    → String
    → String
    → Option String × AliasState
new_alias ctx st s i canonical when = elim (drawn_for s.drawn ctx.bake.run_id i.pinned.name) [
  | some alias ↦ (some alias, s)
  | none ↦ elim (recorded_now (recorded_of st i.pinned.name) ctx.bake.run_id) [
    | some alias ↦ (some alias, s)
    | none ↦
        if not ctx.dry_run && is_applied ctx i then take_alias ctx s i canonical when else (none, s)
  ]
]

unfoldable pub alias_for :
    LaunchCtx
    → LaunchState
    → AliasState
    → LaunchInstance
    → String
    → String
    → Option String × AliasState
alias_for ctx st s i canonical when =
    if not (is_new_machine ctx st i)
    then (recorded_alias (recorded_of st i.pinned.name), s)
    else if i.ephemeral || not (is_some s.pool)
    then (none, s)
    else new_alias ctx st s i canonical when

-- The run launched the instance with the drawn alias.
unfoldable pub is_given : LaunchState → Drawn → Bool
is_given st d = elim (recorded_of st d.instance_name) [
  | none ↦ false
  | some p ↦ p.launched && or_else p.launched_run "" == d.run && or_else p.alias "" == d.alias
]

-- The state, with the names of the list in it that stay drawn, and the names given back.
unfoldable pub release_all : LaunchState → String → Pool → List Drawn → AliasState × List String
release_all st run_id pool [] = (record { pool = pool; drawn = [] }, [])
release_all st run_id pool (d ∷ ds) =
    let returned = undraw pool d.alias d.run in
    let kept = release_all st run_id pool ds in
    let after = release_all st run_id returned.0 ds in
    if not (d.run == run_id) || is_given st d
    then (record { pool = kept.0.pool; drawn = d ∷ kept.0.drawn }, kept.1)
    else (after.0, if returned.1 then d.alias ∷ after.1 else after.1)

unfoldable pub release_unlaunched : LaunchState → String → AliasState → AliasState × List String
release_unlaunched st run_id s = release_all st run_id s.pool s.drawn
