-- ===== src/Generations/Numbers.antt =====
-- generations.py and meta_state.py: the numbers of the generations of a name.
use native.Mathlib.Numerals.{add-one}
use cs_image_system.Base.{
  ℕ, zero, suc, ◌+◌, String, ◌≡◌, refl, sym, ◌∙◌, ap, subst, inl, inr, Bool, true, false, Option,
  none, some, List, [], ◌∷◌, ◌++◌, append-nil, append_assoc, ◌==◌, if◌then◌else◌, Bool-cases,
  Option-cases,
}
use cs_image_system.Base.Dict.{get, put, get-put}
use cs_image_system.Generations.{
  Params, Kind, durable, ephemeral, How, Why, Identity, Generation, Item, closed, resized, counter,
  Entry, Instances, ok,
}
use cs_image_system.Generations.Record.{
  entry_or_new, opened, open_generation, noted_entry, is_changed, note_generation_identity,
  resized_entry, closed_entry, note_generation_resized, close_generation,
}

ok-injective : {a b : Instances} → ok a ≡ ok b → a ≡ b
ok-injective e = cc

-- 1, 2, …, n
abbrev pub upto : ℕ → List ℕ
upto zero = []
upto (suc n) = upto n ++ suc n ∷ []

abbrev same_kind : Kind → Kind → Bool
same_kind durable durable = true
same_kind ephemeral ephemeral = true
same_kind _ _ = false

abbrev number_if : Kind → Generation → List ℕ
number_if k g = if same_kind k g.kind then g.number ∷ [] else []

-- The numbers of the closed generations of a kind, in the order of their closing.
abbrev pub closed_numbers : Kind → List Item → List ℕ
closed_numbers k [] = []
closed_numbers k (closed g run why at ∷ items) = number_if k g ++ closed_numbers k items
closed_numbers k (resized k' n from to run at ∷ items) = closed_numbers k items

abbrev pub current_numbers : Kind → Option Generation → List ℕ
current_numbers k none = []
current_numbers k (some g) = number_if k g

-- The generations of each kind, the open one last, are numbered 1, 2, … up to the kind's counter.
abbrev pub IsNumbered : Entry → Type 0
IsNumbered e =
    (k : Kind)
    → closed_numbers k e.history ++ current_numbers k e.current ≡ upto (counter e.generation k)

abbrev pub AllNumbered : Instances → Type 0
AllNumbered is = (name : String) → IsNumbered (entry_or_new (get is name))

pub empty-AllNumbered : AllNumbered []
unfolding get entry_or_new counter
empty-AllNumbered name durable = refl
empty-AllNumbered name ephemeral = refl

closed_numbers-append :
    (k : Kind) (xs ys : List Item)
    → closed_numbers k (xs ++ ys) ≡ closed_numbers k xs ++ closed_numbers k ys
closed_numbers-append k [] ys = refl
closed_numbers-append k (closed g run why at ∷ xs) ys =
    rw (closed_numbers-append k xs ys) (sym (append_assoc (number_if k g) _ _))
closed_numbers-append k (resized k' n from to run at ∷ xs) ys = closed_numbers-append k xs ys

AllNumbered-put :
    (is : Instances) (name : String) (e : Entry)
    → AllNumbered is
    → IsNumbered e
    → AllNumbered (put is name e)
unfolding entry_or_new
AllNumbered-put is name e h he other = elim (Bool-cases (name == other)) [
  | inl same ↦ rw (get-put, same) he
  | inr apart ↦ rw (get-put, apart) (h other)
]

upto-snoc : (xs : List ℕ) (n : ℕ) → xs ++ [] ≡ upto n → xs ++ (n + 1) ∷ [] ≡ upto (n + 1)
upto-snoc xs n h = rw add-one (ap (λ l. l ++ suc n ∷ []) (sym (append-nil xs) ∙ h))

opened-IsNumbered :
    (e : Entry) (kind : Kind) (run : String) (how : How) (params : Params) (i : Option Identity)
    (now : String)
    → e.current ≡ none
    → IsNumbered e
    → IsNumbered (opened e kind run how params i now)
unfolding opened
opened-IsNumbered e durable run how params i now idle h durable =
    upto-snoc (closed_numbers durable e.history) e.generation.durable (rw idle at (h durable))
opened-IsNumbered e durable run how params i now idle h ephemeral = rw idle at (h ephemeral)
opened-IsNumbered e ephemeral run how params i now idle h durable = rw idle at (h durable)
opened-IsNumbered e ephemeral run how params i now idle h ephemeral =
    upto-snoc (closed_numbers ephemeral e.history) e.generation.ephemeral (rw idle at (h ephemeral))

-- The record of an operation that does not touch the numbers.
renumbered :
    (e f : Entry)
    → ((k : Kind)
        → closed_numbers k f.history ++ current_numbers k f.current
          ≡ closed_numbers k e.history ++ current_numbers k e.current)
    → e.generation ≡ f.generation
    → IsNumbered e
    → IsNumbered f
renumbered e f same counters h k = same k ∙ h k ∙ ap (λ c. upto (counter c k)) counters

closed-IsNumbered :
    (e : Entry) (g : Generation) (run : String) (why : Why) (now : String)
    → e.current ≡ some g
    → IsNumbered e
    → IsNumbered (closed_entry e g run why now)
unfolding closed_entry
closed-IsNumbered e g run why now at =
    renumbered e (closed_entry e g run why now)
      (λ k. rw (at, append-nil, closed_numbers-append, append-nil) refl) refl

noted-IsNumbered :
    (e : Entry) (g : Generation) (i : Identity)
    → e.current ≡ some g
    → IsNumbered e
    → IsNumbered (noted_entry e g i)
unfolding noted_entry
noted-IsNumbered e g i at = renumbered e (noted_entry e g i) (λ k. rw at refl) refl

resized-IsNumbered :
    (e : Entry) (g : Generation) (run from_type to_type now : String)
    → e.current ≡ some g
    → IsNumbered e
    → IsNumbered (resized_entry e g run from_type to_type now)
unfolding resized_entry
resized-IsNumbered e g run from_type to_type now at =
    renumbered e (resized_entry e g run from_type to_type now)
      (λ k. rw (at, closed_numbers-append, append-nil) refl) refl

module _ (is : Instances) (name : String) (h : AllNumbered is) where
  abbrev entry : Entry
  entry = entry_or_new (get is name)

  pub open_generation-AllNumbered :
      (kind : Kind) (run : String) (how : How) (params : Params) (i : Option Identity)
      (now : String) (is' : Instances)
      → open_generation is name kind run how params i now ≡ ok is'
      → AllNumbered is'
  unfolding open_generation
  open_generation-AllNumbered kind run how params i now is' e = elim (Option-cases entry.current) [
    | inl idle ↦ subst AllNumbered (ok-injective (rw (idle, open_generation) at e)) (
        AllNumbered-put is name _ h
          (opened-IsNumbered entry kind run how params i now idle (h name)))
    | inr (g, open_one) ↦ cc (rw (open_one, open_generation) at e)
  ]

  pub close_generation-AllNumbered :
      (run : String) (why : Why) (now : String)
      → AllNumbered (close_generation is name run why now).0
  unfolding close_generation
  close_generation-AllNumbered run why now = elim (Option-cases entry.current) [
    | inl idle ↦ rw (idle, close_generation) h
    | inr (g, at) ↦
        rw (at, close_generation)
          (AllNumbered-put is name _ h (closed-IsNumbered entry g run why now at (h name)))
  ]

  pub note_generation_identity-AllNumbered :
      (i : Identity) → AllNumbered (note_generation_identity is name i).0
  unfolding note_generation_identity
  note_generation_identity-AllNumbered i = elim (Option-cases entry.current) [
    | inl idle ↦ rw (idle, note_generation_identity) h
    | inr (g, at) ↦ elim (Bool-cases (is_changed g i)) [
      | inl new ↦
          rw (at, note_generation_identity)
            (rw new (AllNumbered-put is name _ h (noted-IsNumbered entry g i at (h name))))
      | inr same ↦ rw (at, note_generation_identity) (rw same h)
    ]
  ]

  pub note_generation_resized-AllNumbered :
      (run from_type to_type now : String)
      → AllNumbered (note_generation_resized is name run from_type to_type now).0
  unfolding note_generation_resized
  note_generation_resized-AllNumbered run from_type to_type now =
      elim (Option-cases entry.current) [
        | inl idle ↦ rw (idle, note_generation_resized) h
        | inr (g, at) ↦
            rw (at, note_generation_resized)
              (AllNumbered-put is name _ h
                (resized-IsNumbered entry g run from_type to_type now at (h name)))
      ]
