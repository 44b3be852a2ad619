-- ===== src/Dispose/Spare.antt =====
-- dispose.py, `retention_plan`: what retention disposes of is older than what it keeps, and unused.
use cs_image_system.Base.{
  ℕ, ◌≤◌, String, ◌≡◌, inl, inr, ap, subst, sym, ◌∙◌, true, false, ◌&&◌, Option, some, List, [],
  ◌∷◌, ◌++◌, length, select, mem, or_else, option_eq, ◌==◌, eq_iff, arith, Bool-cases, Option-cases,
  In, All, All-imp, All-both, All-append, All-of_In, All-of_select,
}
use cs_image_system.Base.Dict.{Dict, values}
use cs_image_system.Base.Sorting.{sorted, All-sorted}
use cs_image_system.Meta.{Build, Pins}
use cs_image_system.Dispose.{DisposeCtx, Store}
use cs_image_system.Dispose.Plan.{
  retention_keep_for, is_in_use, is_released, Group, grouped, group_le, run_le, beyond, sift,
  dropped_of, plan_groups, retention_plan,
}
use cs_image_system.Dispose.Newer.{
  select-ext, All-select, HasNewer, beyond-HasNewer, All-beyond, mem-values, any-values,
}
use cs_image_system.Dispose.Groups.{is_of, is_asked, IsWhole, grouped-IsWhole}

-- No instance is pinned to the build or was launched from it, and no current release has it.
abbrev pub IsUnused : DisposeCtx → Pins → String → Type 0
IsUnused ctx p id =
    All (λ (e : String × String). e.1 == id ≡ false) p.instances
    × All (λ (e : String × Option String). option_eq e.1 (some id) ≡ false) ctx.launched_builds
    × All (λ (e : String × Dict String). All (λ (i : String × String). i.1 == id ≡ false) e.1)
        ctx.current_releases

-- The builds of its series on its runtime, from the oldest to the newest, have at least as many after
-- the build as retention keeps there.
abbrev pub IsBeyond : DisposeCtx → List Build → Build → Type 0
IsBeyond ctx builds b =
    let rt = or_else b.runtime "" in
    (keep : ℕ) × (older newer : List Build) × (retention_keep_for ctx b.series rt ≡ some keep)
    × (sorted run_le (select (is_of b.series rt) builds) ≡ older ++ b ∷ newer)
    × (keep ≤ length newer)

abbrev pub IsSpare : DisposeCtx → Store → Option String → Build → Type 0
IsSpare ctx st runtime b =
    In b st.builds
    × (is_asked runtime b ≡ true)
    × IsBeyond ctx st.builds b
    × IsUnused ctx st.pins b.build_id

module _ (ctx : DisposeCtx) (runtime : Option String) (builds : List Build) where
  -- A build that is dropped is recorded and asked for, and has the builds that are kept after it.
  abbrev IsDropped : Build → Type 0
  IsDropped b = In b builds × (is_asked runtime b ≡ true) × IsBeyond ctx builds b

  abbrev IsMember : Group → Build → Type 0
  IsMember g b = In b builds × (is_asked runtime b && is_of g.series g.runtime b ≡ true)

  members-IsMember : (g : Group) → IsWhole runtime builds g → All (IsMember g) g.members
  members-IsMember g whole =
      let test = λ (b : Build). is_asked runtime b && is_of g.series g.runtime b in
      subst (All (IsMember g)) (sym whole) (
        All-both (λ b. In b builds) (λ b. test b ≡ true) (IsMember g) (select test builds)
          (λ b m t. (m, t))
          (All-select (λ b. In b builds) test builds
            (All-of_In (λ b. In b builds) builds (λ b m. m)))
          (All-of_select (λ b. test b ≡ true) test builds (λ b t. t)))

  -- Where a member is asked for, so is its whole group.
  same_group :
      (g : Group) (b : Build)
      → is_asked runtime b && is_of g.series g.runtime b ≡ true
      → select (λ c. is_asked runtime c && is_of g.series g.runtime c) builds
        ≡ select (is_of b.series (or_else b.runtime "")) builds
  same_group g b t =
      select-ext (λ c. is_asked runtime c && is_of g.series g.runtime c)
        (is_of b.series (or_else b.runtime "")) builds
        (λ c. ground (
          arith,
          t,
          eq_iff b.series g.series,
          eq_iff (or_else b.runtime "") g.runtime,
          eq_iff (or_else c.runtime "") g.runtime,
        ))

  dropped_of-IsDropped : (g : Group) → IsWhole runtime builds g → All IsDropped (dropped_of ctx g)
  unfolding dropped_of
  dropped_of-IsDropped g whole = elim (Option-cases (retention_keep_for ctx g.series g.runtime)) [
    | inl all ↦ rw (all, dropped_of) tt
    | inr (keep, at) ↦
        rw (at, dropped_of)
          (All-both (IsMember g) (HasNewer keep (sorted run_le g.members)) IsDropped
            (beyond keep g.members)
            (λ b member h.
              let (older, newer, split, many) = h in
              let t = member.1 in
              let series : b.series ≡ g.series = ground (arith, t, eq_iff b.series g.series) in
              let rt : or_else b.runtime "" ≡ g.runtime =
                ground (arith, t, eq_iff (or_else b.runtime "") g.runtime) in
              (
                member.0,
                ground (arith, t),
                (
                  keep,
                  older,
                  newer,
                  ap (λ (s : String). retention_keep_for ctx s (or_else b.runtime "")) series
                      ∙ ap (retention_keep_for ctx g.series) rt
                      ∙ at,
                  sym (ap (sorted run_le) (whole ∙ same_group g b t)) ∙ split,
                  many,
                ),
              ))
            (All-beyond (IsMember g) keep g.members (members-IsMember g whole))
            (beyond-HasNewer keep g.members))
  ]

  unused :
      (p : Pins) (id : String)
      → is_released ctx id ≡ false
      → is_in_use ctx p id ≡ false
      → IsUnused ctx p id
  unfolding is_released is_in_use
  unused p id unreleased idle = (
    mem-values p.instances id (ground (arith, idle)),
    any-values (λ b. option_eq b (some id)) ctx.launched_builds (ground (arith, idle)),
    All-imp (λ (e : String × Dict String). mem id (values e.1) ≡ false)
        (λ (e : String × Dict String). All (λ (i : String × String). i.1 == id ≡ false) e.1)
        ctx.current_releases (λ e h. mem-values e.1 id h)
        (any-values (λ images. mem id (values images)) ctx.current_releases unreleased),
  )

  abbrev IsSifted : Pins → Build → Type 0
  IsSifted p b = IsDropped b × IsUnused ctx p b.build_id

  sift-IsSifted :
      (p : Pins) (drop : List Build) → All IsDropped drop → All (IsSifted p) (sift ctx p drop).0
  unfolding sift
  sift-IsSifted p [] h = tt
  sift-IsSifted p (b ∷ drop) h = elim (Bool-cases (is_released ctx b.build_id)) [
    | inl released ↦ rw released (sift-IsSifted p drop h.1)
    | inr unreleased ↦ rw unreleased (elim (Bool-cases (is_in_use ctx p b.build_id)) [
      | inl used ↦ rw used (sift-IsSifted p drop h.1)
      | inr idle ↦ rw idle ((h.0, unused p b.build_id unreleased idle), sift-IsSifted p drop h.1)
    ])
  ]

  plan_groups-IsSifted :
      (p : Pins) (groups : List Group)
      → All (IsWhole runtime builds) groups
      → All (IsSifted p) (plan_groups ctx p groups).0
  unfolding plan_groups
  plan_groups-IsSifted p [] h = tt
  plan_groups-IsSifted p (g ∷ groups) h =
      All-append (IsSifted p) _ _ (sift-IsSifted p (dropped_of ctx g) (dropped_of-IsDropped g h.0))
        (plan_groups-IsSifted p groups h.1)

-- Every build that retention disposes of is recorded and on the runtime that is asked for, if one is.
-- Of the builds of its series on its runtime, in the order of their runs, at least as many as
-- retention keeps there come after it. No instance is pinned to it or was launched from it, and no
-- current release has it.
pub retention_plan-IsSpare :
    (ctx : DisposeCtx) (st : Store) (runtime : Option String)
    → All (IsSpare ctx st runtime) (retention_plan ctx st runtime).0
unfolding retention_plan
retention_plan-IsSpare ctx st runtime =
    let groups = grouped runtime [] st.builds in
    let planned = (plan_groups ctx st.pins (sorted group_le groups)).0 in
    All-imp (IsSifted ctx runtime st.builds st.pins) (IsSpare ctx st runtime) planned
      (λ b h. let ((recorded, asked, old), idle) = h in (recorded, asked, old, idle))
      (plan_groups-IsSifted ctx runtime st.builds st.pins (sorted group_le groups) (
        All-sorted group_le (IsWhole runtime st.builds) groups (grouped-IsWhole runtime st.builds)))
