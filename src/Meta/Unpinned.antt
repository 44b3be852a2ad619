-- ===== src/Meta/Unpinned.antt =====
-- meta_state.py, `unpin_images_at`: no pin is left at the build, and the others stand.
use cs_image_system.Base.{
  String, ◌≡◌, ◌≢◌, refl, sym, subst, ◌∙◌, ap, inl, inr, true, false, none, some, List, [], ◌∷◌,
  mem, arith, All, Distinct, option_eq, ◌==◌, eq_iff, if◌then◌else◌, Bool-cases, Option-cases,
}
use cs_image_system.Base.Dict.{Dict, get, del, keys, get-del}
use cs_image_system.Meta.{Pins}
use cs_image_system.Meta.Pinning.{pinned_at, without, unpin_images_at}

pub get-without :
    (images : Dict String) (removed : List String) (key : String)
    → get (without images removed) key ≡ (if mem key removed then none else get images key)
unfolding without
get-without images [] key = refl
get-without images (r ∷ removed) key =
    get-without (del images r) removed key ∙ ground (arith, get-del images r key, eq_iff r key)

-- A key whose first entry is at the build is among the keys at the build.
mem-pinned_at :
    (images : Dict String) (key build_id : String)
    → get images key ≡ some build_id
    → mem key (pinned_at images build_id) ≡ true
unfolding get pinned_at
mem-pinned_at [] key build_id h = cc
mem-pinned_at ((k, b) ∷ images) key build_id h = elim (Bool-cases (k == key)) [
  | inl same ↦ rw ((eq_iff b build_id).1 (cc (rw same at h))) (rw same refl)
  | inr other ↦
      let later = mem-pinned_at images key build_id (rw other at h) in
      elim (Bool-cases (b == build_id)) [
        | inl at ↦ rw at (rw other later)
        | inr elsewhere ↦ rw elsewhere later
      ]
]

-- After the pins at a build are removed no image is pinned at it, and a key that is not reported as
-- removed keeps its pin.
pub unpin_images_at-gone :
    (p : Pins) (build_id run key : String)
    → (option_eq (get (unpin_images_at p build_id run).0.images key) (some build_id) ≡ false)
      × (mem key (unpin_images_at p build_id run).1 ≡ false
          → get (unpin_images_at p build_id run).0.images key ≡ get p.images key)
unfolding unpin_images_at
unpin_images_at-gone p build_id run key =
    let e = get-without p.images (pinned_at p.images build_id) key in
    (
      elim (Option-cases (get p.images key)) [
        | inl unpinned ↦ ground (arith, e, unpinned)
        | inr (b, at) ↦ elim (Bool-cases (b == build_id)) [
          | inl same ↦ ground (
            arith,
            e,
            mem-pinned_at p.images key build_id (at ∙ ap some ((eq_iff b build_id).0 same)),
          )
          | inr other ↦ ground (arith, e, at, other)
        ]
      ],
      λ apart. e ∙ rw apart refl,
    )

get-absent :
    (images : Dict String) (key : String) → All (λ k. key ≢ k) (keys images) → get images key ≡ none
unfolding get
get-absent [] key h = refl
get-absent ((k, b) ∷ images) key h = elim (Bool-cases (k == key)) [
  | inl same ↦ absurd (h.0 (sym ((eq_iff k key).0 same)))
  | inr other ↦ rw other (get-absent images key h.1)
]

-- With one entry for each key, the keys at the build are those that the table pins at it.
pinned_at-get :
    (images : Dict String) (key build_id : String)
    → Distinct (keys images)
    → mem key (pinned_at images build_id) ≡ option_eq (get images key) (some build_id)
unfolding get pinned_at
pinned_at-get [] key build_id h = refl
pinned_at-get ((k, b) ∷ images) key build_id h =
    let later = pinned_at-get images key build_id h.1 in
    elim (Bool-cases (k == key)) [
      | inl same ↦
          let absent =
            get-absent images key (
              subst (λ (j : String). All (λ i. j ≢ i) (keys images)) ((eq_iff k key).0 same) h.0) in
          ground (arith, same, later, absent)
      | inr other ↦ ground (arith, other, later)
    ]

-- In a table of pins with one entry for each key, the removal of the pins at a build takes the pin of
-- each key that was pinned at the build and of no other, and reports exactly these keys.
pub unpin_images_at-get :
    (p : Pins) (build_id run key : String)
    → Distinct (keys p.images)
    → (get (unpin_images_at p build_id run).0.images key
        ≡ (if option_eq (get p.images key) (some build_id) then none else get p.images key))
      × (mem key (unpin_images_at p build_id run).1 ≡ option_eq (get p.images key) (some build_id))
unfolding unpin_images_at
unpin_images_at-get p build_id run key h =
    let exact = pinned_at-get p.images key build_id h in
    (get-without p.images (pinned_at p.images build_id) key ∙ rw exact refl, exact)
