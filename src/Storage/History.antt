-- ===== src/Storage/History.antt =====
-- meta_state.py, `record_storage_transition`: what the history of a record says.
use cs_image_system.Base.{
  ℕ, ◌+◌, ◌≤◌, String, ◌≡◌, refl, sym, ◌∙◌, ap, subst, Option, none, some, List, [], ◌∷◌, ◌++◌,
  arith,
}
use cs_image_system.Base.Dict.{Dict, get}
use cs_image_system.Storage.{State, active, archived, destroyed, Action, Event, Entry, States}
use cs_image_system.Storage.Record.{entry_or_new, next_generation, moved}
use cs_image_system.Storage.Moves.{CanMove, create}

-- A new life of the name begins when a destroyed storage becomes active again.
abbrev pub lives : Option State → State → ℕ → ℕ
lives (some destroyed) active n = n + 1
lives cur to n = n

-- From the state `cur` in life `n`, the events are legal moves, each from where the last one led and
-- numbered with its life, and they end in `state` and life `generation`.
abbrev pub IsLife : Option State → ℕ → List Event → State → ℕ → Type 0
IsLife cur n [] state generation = (cur ≡ some state) × (n ≡ generation)
IsLife cur n (e ∷ es) state generation =
    (e.from_state ≡ cur)
    × CanMove cur e.to_state
    × (e.generation ≡ lives cur e.to_state n)
    × IsLife (some e.to_state) e.generation es state generation

-- A record whose history is such a life, from the first creation on.
pub record IsLived (e : Entry) : Type 0 where
  pub generation : ℕ
  pub recorded : e.generation ≡ some generation
  pub positive : 1 ≤ generation
  pub life : IsLife none 1 e.history e.state generation

-- Every record of the table is lived.
abbrev pub AllLived : States → Type 0
AllLived states = (name : String) (e : Entry) → get states name ≡ some e → IsLived e

module _ (to : State) (run : String) (act : Option Action) where
  abbrev event : Option State → ℕ → Event
  event from g = record {
    from_state = from;
    to_state = to;
    run = run;
    generation = g;
    action = act;
  }

  IsLife-snoc :
      (cur : Option State) (n : ℕ) (es : List Event) (state : State) (g : ℕ)
      → IsLife cur n es state g
      → CanMove (some state) to
      → IsLife cur n
          (es ++ event (some state) (lives (some state) to g) ∷ [])
          to
          (lives (some state) to g)
  IsLife-snoc cur n [] state g (at, same) m =
      (sym at, subst (λ c. CanMove c to) (sym at) m, cc, (refl, refl))
  IsLife-snoc cur n (e ∷ es) state g h m =
      (h.0, h.1, h.2, IsLife-snoc (some e.to_state) e.generation es state g h.3 m)

next_generation-lives :
    (g : ℕ) (cur : Option State) (to : State)
    → 1 ≤ g
    → next_generation (some g) cur to ≡ lives cur to g
unfolding next_generation
next_generation-lives g none to p = refl
next_generation-lives g (some active) to p = refl
next_generation-lives g (some archived) to p = refl
next_generation-lives g (some destroyed) active p = ground arith
next_generation-lives g (some destroyed) archived p = refl
next_generation-lives g (some destroyed) destroyed p = refl

le-lives : (cur : Option State) (to : State) (g : ℕ) → g ≤ lives cur to g
le-lives none to g = omega arith
le-lives (some active) to g = omega arith
le-lives (some archived) to g = omega arith
le-lives (some destroyed) active g = omega arith
le-lives (some destroyed) archived g = omega arith
le-lives (some destroyed) destroyed g = omega arith

none_only : {to : State} → CanMove none to → to ≡ active
none_only create = refl

pub moved-IsLived :
    (e : Entry) (to : State) (run : String) (act : Option Action) (facts : Option (Dict String))
    → IsLived e
    → CanMove (some e.state) to
    → IsLived (moved e (some e.state) to run act facts)
unfolding moved
moved-IsLived e to run act facts h m =
    let g : ℕ = lives (some e.state) to h.generation in
    let same : next_generation e.generation (some e.state) to ≡ g =
      ap (λ o. next_generation o (some e.state) to) h.recorded
      ∙ next_generation-lives h.generation (some e.state) to h.positive in
    rw same (record {
      generation = g;
      recorded = refl;
      positive = omega (arith, h.positive, le-lives (some e.state) to h.generation);
      life = IsLife-snoc to run act none 1 e.history e.state h.generation h.life m;
    })

pub created-IsLived :
    (to : State) (run : String) (act : Option Action) (facts : Option (Dict String))
    → CanMove none to
    → IsLived (moved (entry_or_new none to) none to run act facts)
unfolding moved entry_or_new next_generation
created-IsLived active run act facts m = record {
  generation = 1;
  recorded = refl;
  positive = omega arith;
  life = (refl, m, refl, (refl, refl));
}
created-IsLived archived run act facts m = cc (none_only m)
created-IsLived destroyed run act facts m = cc (none_only m)
