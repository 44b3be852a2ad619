-- ===== src/Aliases/Queue.antt =====
-- alias_pool.py: the pool is a queue of free names, and a draw takes its head.
use cs_image_system.Base.{
  String, ◌≡◌, inl, inr, refl, none, some, List, [], ◌∷◌, drop, arith, Option-cases,
}
use cs_image_system.Aliases.{Pool}
use cs_image_system.Aliases.Line.{free_name}
use cs_image_system.Aliases.Draw.{
  free_lines, lines_of, free_names, head_name, peek, draw_line, draw,
}
use cs_image_system.Aliases.Spent.{free_name-spent_line}

draw_line-free_lines :
    (lines : List String) (burned : String)
    → (free_lines (draw_line lines burned).0 ≡ drop 1 (free_lines lines))
      × ((draw_line lines burned).1 ≡ head_name (free_lines lines))
unfolding draw_line free_lines head_name
draw_line-free_lines [] burned = (refl, refl)
draw_line-free_lines (raw ∷ rest) burned =
    let (left, taken) = draw_line-free_lines rest burned in
    elim (Option-cases (free_name raw)) [
      | inl no_name ↦ ground (arith, no_name, left, taken)
      | inr (name, has_name) ↦ ground (arith, has_name, free_name-spent_line name burned)
    ]

-- A draw takes the head of the queue of free names, which is the name that the peek announces, and
-- leaves the others in their order; from an absent or empty pool it takes nothing.
pub draw-free_names :
    (pool : Pool) (burned : String)
    → (free_names (draw pool burned).0 ≡ drop 1 (free_names pool))
      × ((draw pool burned).1 ≡ peek pool)
unfolding draw free_names lines_of peek free_lines head_name
draw-free_names none burned = (refl, refl)
draw-free_names (some lines) burned = draw_line-free_lines lines burned
