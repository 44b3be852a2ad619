-- ===== src/Dispose/Groups.antt =====
-- dispose.py, `retention_plan`: a group has all the builds of its series on its runtime, in order.
use cs_image_system.Base.{
  String, ◌≡◌, inl, inr, refl, sym, ap, ◌∙◌, Bool, false, not, ◌&&◌, Option, List, [], ◌∷◌, ◌++◌,
  All, All-imp, All-both, arith, select, or_else, truthy, ◌==◌, eq_iff, eq_refl, Bool-cases,
  if◌then◌else◌,
}
use cs_image_system.Meta.{Build}
use cs_image_system.Dispose.Plan.{Group, join_group, grouped}

-- The build is of the series on the runtime.
abbrev pub is_of : String → String → Build → Bool
is_of series rt b = b.series == series && or_else b.runtime "" == rt

-- The plan is asked for every runtime, or for that of the build.
abbrev pub is_asked : Option String → Build → Bool
is_asked runtime b = not (truthy runtime && not (or_else b.runtime "" == or_else runtime ""))

abbrev is_key : String → String → Group → Bool
is_key series rt g = g.series == series && g.runtime == rt

abbrev members_of : List Group → String → String → List Build
members_of [] series rt = []
members_of (g ∷ groups) series rt =
    if is_key series rt g then g.members else members_of groups series rt

append-nil : (bs : List Build) → bs ++ [] ≡ bs
append-nil [] = refl
append-nil (b ∷ bs) = ap (λ (cs : List Build). b ∷ cs) (append-nil bs)

append_assoc : (bs cs ds : List Build) → (bs ++ cs) ++ ds ≡ bs ++ (cs ++ ds)
append_assoc [] cs ds = refl
append_assoc (b ∷ bs) cs ds = ap (λ (es : List Build). b ∷ es) (append_assoc bs cs ds)

members_of-join_group :
    (groups : List Group) (s rt : String) (b : Build) (s' rt' : String)
    → members_of (join_group groups s rt b) s' rt'
      ≡ members_of groups s' rt' ++ (if s == s' && rt == rt' then b ∷ [] else [])
unfolding join_group
members_of-join_group [] s rt b s' rt' = ground arith
members_of-join_group (g ∷ groups) s rt b s' rt' =
    let later = members_of-join_group groups s rt b s' rt' in
    elim (Bool-cases (is_key s rt g)) [
      | inl same ↦ elim (Bool-cases (is_key s' rt' g)) [
        | inl found ↦ ground (
          arith,
          same,
          found,
          eq_iff g.series s,
          eq_iff g.runtime rt,
          eq_iff g.series s',
          eq_iff g.runtime rt',
          eq_iff s s',
          eq_iff rt rt',
        )
        | inr other ↦ ground (
          arith,
          same,
          other,
          append-nil (members_of groups s' rt'),
          eq_iff g.series s,
          eq_iff g.runtime rt,
          eq_iff g.series s',
          eq_iff g.runtime rt',
          eq_iff s s',
          eq_iff rt rt',
        )
      ]
      | inr apart ↦ elim (Bool-cases (is_key s' rt' g)) [
        | inl found ↦ ground (
          arith,
          apart,
          found,
          append-nil g.members,
          eq_iff g.series s,
          eq_iff g.runtime rt,
          eq_iff g.series s',
          eq_iff g.runtime rt',
          eq_iff s s',
          eq_iff rt rt',
        )
        | inr other ↦ ground (arith, apart, other, later)
      ]
    ]

members_of-grouped :
    (runtime : Option String) (groups : List Group) (bs : List Build) (s rt : String)
    → members_of (grouped runtime groups bs) s rt
      ≡ members_of groups s rt ++ select (λ b. is_asked runtime b && is_of s rt b) bs
unfolding grouped
members_of-grouped runtime groups [] s rt = sym (append-nil (members_of groups s rt))
members_of-grouped runtime groups (b ∷ bs) s rt =
    let here = or_else b.runtime "" in
    elim (Bool-cases (is_asked runtime b)) [
      | inl asked ↦ ground (
        arith,
        asked,
        members_of-grouped runtime (join_group groups b.series here b) bs s rt,
        members_of-join_group groups b.series here b s rt,
        append_assoc (members_of groups s rt) (if b.series == s && here == rt then b ∷ [] else [])
            (select (λ c. is_asked runtime c && is_of s rt c) bs),
      )
      | inr elsewhere ↦ ground (arith, elsewhere, members_of-grouped runtime groups bs s rt)
    ]

abbrev HasDistinctKeys : List Group → Type 0
HasDistinctKeys [] = Unit
HasDistinctKeys (g ∷ groups) =
    All (λ (h : Group). is_key g.series g.runtime h ≡ false) groups × HasDistinctKeys groups

join_group-apart :
    (groups : List Group) (s rt : String) (b : Build) (s' rt' : String)
    → s == s' && rt == rt' ≡ false
    → All (λ (h : Group). is_key s' rt' h ≡ false) groups
    → All (λ (h : Group). is_key s' rt' h ≡ false) (join_group groups s rt b)
unfolding join_group
join_group-apart [] s rt b s' rt' apart h = (apart, tt)
join_group-apart (g ∷ groups) s rt b s' rt' apart h = elim (Bool-cases (is_key s rt g)) [
  | inl same ↦ rw same (h.0, h.1)
  | inr other ↦ rw other (h.0, join_group-apart groups s rt b s' rt' apart h.1)
]

join_group-HasDistinctKeys :
    (groups : List Group) (s rt : String) (b : Build)
    → HasDistinctKeys groups
    → HasDistinctKeys (join_group groups s rt b)
unfolding join_group
join_group-HasDistinctKeys [] s rt b d = (tt, tt)
join_group-HasDistinctKeys (g ∷ groups) s rt b d = elim (Bool-cases (is_key s rt g)) [
  | inl same ↦ rw same (d.0, d.1)
  | inr other ↦ rw other (
    join_group-apart groups s rt b g.series g.runtime
        (ground (
          arith,
          other,
          eq_iff g.series s,
          eq_iff g.runtime rt,
          eq_iff s g.series,
          eq_iff rt g.runtime,
        ))
        d.0,
    join_group-HasDistinctKeys groups s rt b d.1,
  )
]

grouped-HasDistinctKeys :
    (runtime : Option String) (groups : List Group) (bs : List Build)
    → HasDistinctKeys groups
    → HasDistinctKeys (grouped runtime groups bs)
unfolding grouped
grouped-HasDistinctKeys runtime groups [] d = d
grouped-HasDistinctKeys runtime groups (b ∷ bs) d =
    let rt = or_else b.runtime "" in
    elim (Bool-cases (truthy runtime && not (rt == or_else runtime ""))) [
      | inl elsewhere ↦ rw elsewhere (grouped-HasDistinctKeys runtime groups bs d)
      | inr here ↦ rw here (
          grouped-HasDistinctKeys runtime (join_group groups b.series rt b) bs
            (join_group-HasDistinctKeys groups b.series rt b d))
    ]

own_members :
    (groups : List Group)
    → HasDistinctKeys groups
    → All (λ (g : Group). members_of groups g.series g.runtime ≡ g.members) groups
own_members [] d = tt
own_members (g ∷ groups) d = (
  ground (arith, eq_refl g.series, eq_refl g.runtime),
  All-both (λ (h : Group). is_key g.series g.runtime h ≡ false)
      (λ (h : Group). members_of groups h.series h.runtime ≡ h.members)
      (λ (h : Group). members_of (g ∷ groups) h.series h.runtime ≡ h.members) groups
      (λ h apart own. ground (
        arith,
        apart,
        own,
        eq_iff g.series h.series,
        eq_iff g.runtime h.runtime,
        eq_iff h.series g.series,
        eq_iff h.runtime g.runtime,
      ))
      d.0 (own_members groups d.1),
)

-- The members of a group are the builds of its series on its runtime that the plan is asked for.
abbrev pub IsWhole : Option String → List Build → Group → Type 0
IsWhole runtime builds g =
    g.members ≡ select (λ b. is_asked runtime b && is_of g.series g.runtime b) builds

pub grouped-IsWhole :
    (runtime : Option String) (builds : List Build)
    → All (IsWhole runtime builds) (grouped runtime [] builds)
grouped-IsWhole runtime builds =
    let groups = grouped runtime [] builds in
    All-imp (λ (g : Group). members_of groups g.series g.runtime ≡ g.members)
      (IsWhole runtime builds) groups
      (λ g own. sym own ∙ members_of-grouped runtime [] builds g.series g.runtime)
      (own_members groups (grouped-HasDistinctKeys runtime [] builds tt))
