-- ===== src/Aliases/Restored.antt =====
-- alias_pool.py: a name that a run drew and gives back is free again, where it was.
use cs_image_system.Base.{
  String, ◌≡◌, inl, inr, refl, true, false, some, List, [], ◌∷◌, All, arith, eq_refl, Option-cases,
}
use cs_image_system.Aliases.Line.{starts_alnum, free_name, spent_line, burn_record}
use cs_image_system.Aliases.Draw.{draw_line, draw, undraw_line, undraw, is_burned}
use cs_image_system.Aliases.Spent.{
  all_label, spent_name-spent_line, burn_record-made, contains-burn_record,
}

-- A free line holds its name and nothing else.
abbrev pub IsBare : String → Type 0
IsBare raw = (name : String) → free_name raw ≡ some name → raw ≡ name

module _ (name taken_by run_id when : String) (letters : all_label name ≡ true)
    (first : starts_alnum name ≡ true) where
  abbrev burned : String
  burned = burn_record taken_by run_id when

  spent_line-is_burned : is_burned name run_id (spent_line name burned) ≡ true
  unfolding is_burned
  spent_line-is_burned = ground (
    arith,
    spent_name-spent_line name burned letters first (burn_record-made taken_by run_id when),
    contains-burn_record name taken_by run_id when,
    eq_refl name,
  )

  undraw_line-draw_line :
      (lines : List String)
      → All IsBare lines
      → All (λ raw. is_burned name run_id raw ≡ false) lines
      → (draw_line lines burned).1 ≡ some name
      → undraw_line (draw_line lines burned).0 name run_id ≡ (lines, true)
  unfolding draw_line undraw_line
  undraw_line-draw_line [] bare unburned drawn = cc
  undraw_line-draw_line (raw ∷ rest) bare unburned drawn = elim (Option-cases (free_name raw)) [
    | inl no_name ↦ ground (
      arith,
      no_name,
      unburned.0,
      undraw_line-draw_line rest bare.1 unburned.1 (ground (arith, no_name, drawn)),
    )
    | inr (n, has_name) ↦ ground (arith, has_name, drawn, bare.0 n has_name, spent_line-is_burned)
  ]

  -- In a pool whose free lines hold their names and nothing else, and where no line is burned for
  -- the label by the run: when the run draws the label and gives it back, the pool is as before.
  pub undraw-draw :
      (lines : List String)
      → All IsBare lines
      → All (λ raw. is_burned name run_id raw ≡ false) lines
      → (draw (some lines) (burn_record taken_by run_id when)).1 ≡ some name
      → undraw (draw (some lines) (burn_record taken_by run_id when)).0 name run_id
        ≡ (some lines, true)
  unfolding draw undraw
  undraw-draw lines bare unburned drawn = rw (undraw_line-draw_line lines bare unburned drawn) refl
