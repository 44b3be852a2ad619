-- ===== src/Posix.antt =====
-- packages/base/src/cs_image_system/base/posix_ids.py and the claims of
-- packages/contract/src/cs_image_system/contract/identity_vocabulary.py: one id for one name. An id is
-- not negative. This file has the definitions.
pub mod Agree
pub mod Resolve
mod Tests
use cs_image_system.Base.{
  distinct, ℕ, String, Bool, true, false, not, ◌&&◌, ◌||◌, Option, none, some, List, [], ◌∷◌, ◌++◌,
  any, ltb, num_eq, select, map, length, ◌==◌, if◌then◌else◌,
}
use cs_image_system.Base.Sorting.{text_le, sorted}

pub data ClaimKind : Type 0 where
  group user : ClaimKind

-- The id of a claim: given, the name only, or an id that comes later.
pub data ClaimedId : Type 0 where
  given : ℕ → ClaimedId
  name_only deferred_id : ClaimedId

pub record Claim : Type 0 where
  pub side : String
  pub kind : ClaimKind
  pub name : String
  pub claimed : ClaimedId
  pub rank : ℕ
  pub derived : Bool

unfoldable pub supplied_id : Claim → Option ℕ
supplied_id c = elim c.claimed [ given i ↦ some i | other ↦ none ]

unfoldable pub kind_eq : ClaimKind → ClaimKind → Bool
kind_eq group group = true
kind_eq user user = true
kind_eq _ _ = false

-- The claims of one kind and name.
pub record Claims : Type 0 where
  pub kind : ClaimKind
  pub name : String
  pub claims : List Claim

unfoldable pub join_claim : List Claims → Claim → List Claims
unfolding kind_eq
join_claim [] c = record { kind = c.kind; name = c.name; claims = c ∷ [] } ∷ []
join_claim (g ∷ by_name) c =
    if kind_eq g.kind c.kind && g.name == c.name
    then record g { claims = g.claims ++ c ∷ [] } ∷ by_name
    else g ∷ join_claim by_name c

unfoldable pub claims_by_name : List Claims → List Claim → List Claims
unfolding join_claim
claims_by_name by_name [] = by_name
claims_by_name by_name (c ∷ claims) = claims_by_name (join_claim by_name c) claims

abbrev pub key_le : Claims → Claims → Bool
key_le a b = elim a.kind [
  | group ↦ elim b.kind [ group ↦ text_le a.name b.name | user ↦ true ]
  | user ↦ elim b.kind [ group ↦ false | user ↦ text_le a.name b.name ]
]

abbrev pub claim_le : Claim → Claim → Bool
claim_le a b = if ltb a.rank b.rank then true else num_eq a.rank b.rank && text_le a.side b.side

unfoldable pub supplied : List Claim → List (Claim × ℕ)
unfolding supplied_id
supplied [] = []
supplied (c ∷ claims) =
    let rest = supplied claims in elim (supplied_id c) [ none ↦ rest | some i ↦ (c, i) ∷ rest ]

-- The first claim that supplies another id.
unfoldable pub clash_with : ℕ → List (Claim × ℕ) → Option (Claim × ℕ)
clash_with i [] = none
clash_with i (s ∷ rest) = let later = clash_with i rest in if num_eq s.1 i then later else some s

abbrev pub is_deferred : Claim → Bool
is_deferred c = elim c.claimed [ deferred_id ↦ true | other ↦ false ]

pub data Verdict : Type 0 where
  resolved_to : ℕ → Verdict
  put_off : Verdict
  disagreement : Claim → ℕ → Claim → ℕ → Verdict
  unsupplied : (sides : List String) → Verdict

unfoldable pub verdict_of : List (Claim × ℕ) → List Claim → Verdict
unfolding clash_with
verdict_of [] ordered =
    if any is_deferred ordered
    then put_off
    else unsupplied (sorted text_le (distinct (map (λ (c : Claim). c.side) ordered)))
verdict_of (first ∷ rest) ordered = elim (clash_with first.1 rest) [
  | none ↦ resolved_to first.1
  | some clash ↦ disagreement first.0 first.1 clash.0 clash.1
]

-- The claims of one name, in the order of their ranks.
unfoldable pub resolve_name : List Claim → Verdict
unfolding supplied verdict_of
resolve_name claims = let ordered = sorted claim_le claims in verdict_of (supplied ordered) ordered
