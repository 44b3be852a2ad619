-- ===== src/Generations/Names.antt =====
-- meta_state.py: an operation on the generation of a name leaves the other names as they are.
use cs_image_system.Base.{
  String, ◌≡◌, inl, inr, refl, false, arith, ◌==◌, if◌then◌else◌, Option-cases,
}
use cs_image_system.Base.Dict.{get, put, get-put}
use cs_image_system.Generations.{Why, Entry, Instances}
use cs_image_system.Generations.Record.{entry_or_new, current_generation, close_generation}

pub current-put :
    (is : Instances) (name other : String) (e : Entry)
    → current_generation (put is name e) other
      ≡ (if name == other then e.current else current_generation is other)
unfolding current_generation
current-put is name other e = ground (arith, get-put is name other e, entry_or_new)

pub close-other :
    (is : Instances) (name other run : String) (why : Why) (now : String)
    → name == other ≡ false
    → current_generation (close_generation is name run why now).0 other
      ≡ current_generation is other
unfolding close_generation
close-other is name other run why now apart =
    elim (Option-cases (entry_or_new (get is name)).current) [
      | inl idle ↦ rw (idle, close_generation) refl
      | inr (g, at) ↦ rw (at, close_generation, current-put, apart) refl
    ]
