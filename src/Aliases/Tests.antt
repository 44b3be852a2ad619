-- ===== src/Aliases/Tests.antt =====
-- A pool with a comment, a spent line and two free names.
use cs_image_system.Base.{String, ◌≡◌, refl, true, none, some, List, [], ◌∷◌, drop}
use cs_image_system.Base.Strip.{strip, lstrip, rstrip}
use cs_image_system.Launch.Samples.{web, with_servers, waiting}
use cs_image_system.Aliases.Line.{
  label, after_label, starts_alnum, has_record, has_dashes, name_part, hash_part, spent_name,
  is_comment, free_name, burn_record, spent_line, contains,
}
use cs_image_system.Aliases.Draw.{
  free_lines, lines_of, free_names, peek, draw_line, draw, is_burned, undraw_line, undraw,
}
use cs_image_system.Aliases.Queue.{draw-free_names}
use cs_image_system.Aliases.Restored.{undraw-draw}
use cs_image_system.Aliases.Requests.{alias_for}
use cs_image_system.Aliases.Once.{alias_for_idem}

program : Unit {0}
unfolding strip lstrip rstrip label after_label starts_alnum has_record has_dashes name_part
    hash_part spent_name is_comment free_name burn_record spent_line contains free_lines lines_of
    free_names peek draw_line draw is_burned undraw_line undraw
program = tt

abbrev lines : List String
lines =
    "# one name per line" ∷ "# ada  -- instance db as db-001 2026-01-01T00:00:00Z run r1" ∷ "grace"
    ∷ "" ∷ "edsger" ∷ []

spent_ada : spent_name "# ada  -- instance db as db-001 2026-01-01T00:00:00Z run r1" ≡ some "ada"
unfolding program
spent_ada = refl

not_spent : spent_name "# one name per line" ≡ none
unfolding program
not_spent = refl

offers : free_names (some lines) ≡ "grace" ∷ "edsger" ∷ []
unfolding program
offers = refl

draw-free_names_example :
    (free_names (draw (some lines) (burn_record "web" "r2" "t")).0
      ≡ drop 1 (free_names (some lines)))
    × ((draw (some lines) (burn_record "web" "r2" "t")).1 ≡ peek (some lines))
draw-free_names_example = draw-free_names (some lines) (burn_record "web" "r2" "t")

undraw-draw_example :
    undraw (draw (some lines) (burn_record "web" "r2" "t")).0 "grace" "r2" ≡ (some lines, true)
unfolding program
undraw-draw_example =
    undraw-draw "grace" "web" "r2" "t" refl refl lines
      (λ n h. cc, (λ n h. cc, (λ n h. cc, (λ n h. cc, (λ n h. cc, tt)))))
      (refl, (refl, (refl, (refl, (refl, tt))))) refl

alias_for_idem_example :
    alias_for
      (with_servers [])
      waiting
      (alias_for
        (with_servers [])
        waiting
        (record { pool = some lines; drawn = [] })
        web
        "web-001"
        "t").1
      web
      "web-001"
      "later"
    ≡ alias_for
        (with_servers [])
        waiting
        (record { pool = some lines; drawn = [] })
        web
        "web-001"
        "t"
alias_for_idem_example =
    alias_for_idem (with_servers []) waiting web "web-001"
      (record { pool = some lines; drawn = [] }) "t" "later"
