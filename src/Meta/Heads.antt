-- ===== src/Meta/Heads.antt =====
-- meta_state.py: a build has one record, and the head of a series is the build recorded last.
use cs_image_system.Base.{
  String, ◌≡◌, refl, inl, inr, Bool, true, false, Option, none, some, List, [], ◌∷◌, ◌++◌, any,
  select, arith, ◌==◌, eq_iff, eq_refl, if◌then◌else◌, Bool-cases, All, All-imp, All-append,
}
use cs_image_system.Meta.{Build}
use cs_image_system.Meta.Lineage.{
  is_build, add_build, build, remove_build, builds_for_series, is_on_runtime, last, series_head,
}

-- No two records are of the same build.
abbrev pub HasOneRecord : List Build → Type 0
HasOneRecord [] = Unit
HasOneRecord (b ∷ bs) = All (λ c. b.build_id == c.build_id ≡ false) bs × HasOneRecord bs

any-false :
    (bs : List Build) (id : String)
    → any (is_build id) bs ≡ false
    → All (λ c. c.build_id == id ≡ false) bs
any-false [] id h = tt
any-false (b ∷ bs) id h = (ground (arith, h), any-false bs id (ground (arith, h)))

HasOneRecord-snoc :
    (bs : List Build) (b : Build)
    → HasOneRecord bs
    → All (λ c. c.build_id == b.build_id ≡ false) bs
    → HasOneRecord (bs ++ b ∷ [])
HasOneRecord-snoc [] b h new = (tt, tt)
HasOneRecord-snoc (c ∷ bs) b h new =
    (All-append _ bs (b ∷ []) h.0 (new.0, tt), HasOneRecord-snoc bs b h.1 new.1)

last-snoc : (bs : List Build) (b : Build) → last (bs ++ b ∷ []) ≡ some b
unfolding last
last-snoc [] b = refl
last-snoc (c ∷ []) b = refl
last-snoc (c ∷ d ∷ bs) b = last-snoc (d ∷ bs) b

select-snoc :
    (test : Build → Bool) (bs : List Build) (b : Build)
    → test b ≡ true
    → select test (bs ++ b ∷ []) ≡ select test bs ++ b ∷ []
select-snoc test [] b h = rw h refl
select-snoc test (c ∷ bs) b h = elim (Bool-cases (test c)) [
  | inl kept ↦ rw (kept, select-snoc test bs b h) refl
  | inr dropped ↦ rw (dropped, select-snoc test bs b h) refl
]

-- Recording a build keeps one record per build, and a build that was not recorded becomes the head
-- of its series, among all runtimes and on each runtime that it serves.
pub add_build-series_head :
    (bs : List Build) (b : Build) (runtime : Option String)
    → HasOneRecord bs
    → HasOneRecord (add_build bs b)
      × (any (is_build b.build_id) bs ≡ false
          → is_on_runtime runtime b ≡ true
          → series_head (add_build bs b) b.series runtime ≡ some b)
unfolding add_build series_head builds_for_series
add_build-series_head bs b runtime h = elim (Bool-cases (any (is_build b.build_id) bs)) [
  | inl known ↦ rw known (h, λ new at. cc)
  | inr new ↦ rw new (
    HasOneRecord-snoc bs b h (any-false bs b.build_id new),
    λ _ at. rw (select-snoc (λ c. c.series == b.series) bs b (eq_refl b.series)) (
        rw (select-snoc (is_on_runtime runtime) _ b at)
          (last-snoc (select (is_on_runtime runtime) (builds_for_series bs b.series)) b)),
  )
]

build-none :
    (bs : List Build) (id : String) → All (λ c. c.build_id == id ≡ false) bs → build bs id ≡ none
unfolding build
build-none [] id h = refl
build-none (b ∷ bs) id h = rw h.0 (build-none bs id h.1)

All-remove :
    (P : Build → Type 0) (bs : List Build) (id : String) → All P bs → All P (remove_build bs id)
unfolding remove_build
All-remove P [] id h = tt
All-remove P (b ∷ bs) id h = elim (Bool-cases (b.build_id == id)) [
  | inl same ↦ rw same h.1
  | inr other ↦ rw other (h.0, All-remove _ bs id h.1)
]

-- Where every build has one record, a build that is removed is recorded no more, and every other
-- build as before.
pub remove_build-build :
    (bs : List Build) (id : String)
    → HasOneRecord bs
    → HasOneRecord (remove_build bs id)
      × ((other : String)
          → build (remove_build bs id) other ≡ (if id == other then none else build bs other))
unfolding remove_build build
remove_build-build [] id h = (tt, λ other. ground arith)
remove_build-build (b ∷ bs) id h =
    let (one, found) = remove_build-build bs id h.1 in
    elim (Bool-cases (b.build_id == id)) [
      | inl same ↦ rw same (
        h.1,
        λ other. elim (Bool-cases (id == other)) [
          | inl asked ↦ rw asked (
              build-none bs other (
                All-imp _ _ bs
                  (λ c apart. ground (
                    arith,
                    eq_iff b.build_id id,
                    eq_iff id other,
                    eq_iff b.build_id c.build_id,
                    eq_iff c.build_id other,
                    same,
                    asked,
                    apart,
                  ))
                  h.0))
          | inr elsewhere ↦ ground (
            arith,
            eq_iff b.build_id id,
            eq_iff id other,
            eq_iff b.build_id other,
            same,
            elsewhere,
          )
        ],
      )
      | inr apart ↦ rw apart (
        (All-remove _ bs id h.0, one),
        λ other.
            ground
              (arith, found other, eq_iff b.build_id id, eq_iff id other, eq_iff b.build_id other),
      )
    ]
