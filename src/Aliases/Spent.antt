-- ===== src/Aliases/Spent.antt =====
-- alias_pool.py: a line that a draw wrote is read back as spent, with its name.
use Prim.Native.Char.{code}
use Prim.Native.String.{[], ◌∷◌, ◌++◌}
use mathlib.Core.Path.{◌≡◌, refl, sym, subst}
use mathlib.Core.Logic.{◌≢◌}
use mathlib.Core.Bool.{Bool, true, false, ◌&&◌}
use mathlib.Core.Option.{none, some}
use native.Mathlib.Omega.{arith}
use text.Mathlib.Text.{starts_with}
use text.Mathlib.TextLemmas.{cons-append, append-nil, append-eq-nil_iff, nil-append}
use text.Mathlib.TextPositions.{starts_with-append}
use cs_image_system.Base.{String}
use cs_image_system.Base.Strip.{is_space, lstrip, rstrip, strip}
use cs_image_system.Aliases.Line.{
  is_label_char, label, after_label, starts_alnum, has_record, has_dashes, name_part, hash_part,
  spent_name, is_comment, free_name, burn_record, spent_line, contains,
}

-- Every character may stand in a label.
abbrev pub all_label : String → Bool
all_label [] = true
all_label (c ∷ s) = is_label_char (code c) && all_label s

label-append :
    (name rest : String)
    → all_label name ≡ true
    → (label (name ++ (" " ++ rest)) ≡ name) × (after_label (name ++ (" " ++ rest)) ≡ " " ++ rest)
unfolding label after_label
label-append [] rest h =
    rw (nil-append (" " ++ rest), cons-append " " "" rest, nil-append rest) (refl, refl)
label-append (c ∷ s) rest h =
    let (taken, left) = label-append s rest (ground (arith, h)) in
    let is_char : is_label_char (code c) ≡ true = ground (arith, h) in
    rw (cons-append c s (" " ++ rest), is_char, taken, left) (refl, refl)

lstrip-label :
    (name rest : String)
    → all_label name ≡ true
    → starts_alnum name ≡ true
    → lstrip (name ++ rest) ≡ name ++ rest
unfolding lstrip starts_alnum
lstrip-label [] rest h a = cc
lstrip-label (c ∷ s) rest h a =
    let no_space : is_space (code c) ≡ false = ground (arith, a) in
    rw (cons-append c s rest) (rw (no_space) refl)

dashes-append : (t : String) → "  -- " ++ t ≡ " " ∷ " " ∷ "-" ∷ "-" ∷ " " ∷ t
dashes-append t =
    rw
      (
        cons-append " " " -- " t,
        cons-append " " "-- " t,
        cons-append "-" "- " t,
        cons-append "-" " " t,
        cons-append " " "" t,
        nil-append t,
      )
      refl

has_dashes-record : (burned : String) → burned ≢ "" → has_dashes ("  -- " ++ burned) ≡ true
unfolding has_dashes has_record lstrip
has_dashes-record [] made = absurd (made refl)
has_dashes-record (c ∷ s) made = rw (dashes-append (c ∷ s)) refl

hash-append : (t : String) → "# " ++ t ≡ "#" ∷ " " ∷ t
hash-append t = rw (cons-append "#" " " t, cons-append " " "" t, nil-append t) refl

split_dashes : (burned : String) → "  -- " ++ burned ≡ " " ++ (" -- " ++ burned)
split_dashes burned =
    rw
      (
        cons-append " " " -- " burned,
        cons-append " " "" (" -- " ++ burned),
        nil-append (" -- " ++ burned),
      )
      refl

-- The pattern of a spent line after the name.
name_part-label :
    (name burned : String)
    → all_label name ≡ true
    → starts_alnum name ≡ true
    → burned ≢ ""
    → name_part (name ++ ("  -- " ++ burned)) ≡ some name
unfolding name_part
name_part-label name burned h a made =
    let (taken, left) = label-append name (" -- " ++ burned) h in
    let dashes : has_dashes (" " ++ (" -- " ++ burned)) ≡ true =
      subst (λ (t : String). has_dashes t ≡ true) (split_dashes burned)
        (has_dashes-record burned made) in
    subst (λ (t : String). name_part (name ++ t) ≡ some name) (sym (split_dashes burned))
      (ground (arith, taken, left, a, dashes))

-- A line that a draw wrote for a label is read back as spent, with the label as its name.
pub spent_name-spent_line :
    (name burned : String)
    → all_label name ≡ true
    → starts_alnum name ≡ true
    → burned ≢ ""
    → spent_name (spent_line name burned) ≡ some name
unfolding spent_name spent_line hash_part lstrip
spent_name-spent_line name burned h a made =
    rw
      (
        hash-append (name ++ ("  -- " ++ burned)),
        lstrip-label name ("  -- " ++ burned) h a,
        name_part-label name burned h a made,
      )
      refl

-- Such a line is never free again, whatever the name.
pub free_name-spent_line : (name burned : String) → free_name (spent_line name burned) ≡ none
unfolding free_name spent_line strip lstrip rstrip is_comment
free_name-spent_line name burned = rw (hash-append (name ++ ("  -- " ++ burned))) (ground arith)

pub burn_record-made : (taken_by run_id when : String) → burn_record taken_by run_id when ≢ ""
unfolding burn_record
burn_record-made taken_by run_id when empty =
    cc
      ((append-eq-nil_iff {p = " "} {q = when ++ (" run " ++ run_id)}).0
        ((append-eq-nil_iff {p = taken_by} {q = " " ++ (when ++ (" run " ++ run_id))}).0 empty).1).0

contains_self : (needle : String) → contains needle needle ≡ true
unfolding contains
contains_self [] = refl
contains_self (c ∷ s) =
    rw
      (subst (λ (t : String). starts_with t (c ∷ s) ≡ true) (append-nil (c ∷ s))
        (starts_with-append (c ∷ s) ""))
      refl

-- A text that is found in the rest is found in the whole.
contains-append :
    (start rest needle : String)
    → contains needle rest ≡ true
    → contains needle (start ++ rest) ≡ true
unfolding contains
contains-append [] rest needle h = rw (nil-append rest) h
contains-append (c ∷ s) rest needle h =
    rw (cons-append c s rest) (ground (arith, contains-append s rest needle h))

-- A line that a run burned mentions the run.
pub contains-burn_record :
    (name taken_by run_id when : String)
    → contains (" run " ++ run_id) (spent_line name (burn_record taken_by run_id when)) ≡ true
unfolding spent_line burn_record
contains-burn_record name taken_by run_id when =
    let needle = " run " ++ run_id in
    let moment = contains-append when needle needle (contains_self needle) in
    let taken =
      contains-append taken_by (" " ++ (when ++ needle)) needle
        (contains-append " " (when ++ needle) needle moment) in
    let burned = taken_by ++ (" " ++ (when ++ needle)) in
    contains-append "# " (name ++ ("  -- " ++ burned)) needle (
      contains-append name ("  -- " ++ burned) needle (contains-append "  -- " burned needle taken))
