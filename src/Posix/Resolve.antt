-- ===== src/Posix/Resolve.antt =====
-- posix_ids.py, `resolve_posix_ids`: all names, and the ids that two names of a kind share.
use cs_image_system.Base.{ℕ, String, Bool, List, [], ◌∷◌, ◌++◌, leb, num_eq, if◌then◌else◌}
use cs_image_system.Base.Sorting.{text_le, sorted}
use cs_image_system.Posix.{
  ClaimKind, group, user, kind_eq, Claim, Claims, claims_by_name, key_le, Verdict, resolved_to,
  put_off, disagreement, unsupplied, resolve_name,
}

pub data Problem : Type 0 where
  two_ids : ClaimKind → (name : String) → Claim → ℕ → Claim → ℕ → Problem
  no_id : ClaimKind → (name : String) → (sides : List String) → Problem
  shared_id : ClaimKind → (names : List String) → ℕ → Problem

pub record Resolution : Type 0 where
  pub ids : List (ClaimKind × String × ℕ)
  pub deferred : List (ClaimKind × String)
  pub problems : List Problem

unfoldable pub noted_verdict : Resolution → ClaimKind → String → Verdict → Resolution
noted_verdict out kind name (resolved_to i) = record out { ids = out.ids ++ (kind, name, i) ∷ [] }
noted_verdict out kind name put_off = record out { deferred = out.deferred ++ (kind, name) ∷ [] }
noted_verdict out kind name (disagreement c i d j) = record out {
  problems = out.problems ++ two_ids kind name c i d j ∷ [];
}
noted_verdict out kind name (unsupplied sides) = record out {
  problems = out.problems ++ no_id kind name sides ∷ [];
}

unfoldable pub resolve_all : Resolution → List Claims → Resolution
unfolding noted_verdict resolve_name
resolve_all out [] = out
resolve_all out (g ∷ by_name) =
    resolve_all (noted_verdict out g.kind g.name (resolve_name g.claims)) by_name

unfoldable pub hold : List (ℕ × List String) → ℕ → String → List (ℕ × List String)
hold [] i name = (i, name ∷ []) ∷ []
hold ((j, names) ∷ holders) i name =
    if num_eq j i then (j, names ++ name ∷ []) ∷ holders else (j, names) ∷ hold holders i name

unfoldable pub holders_of :
    ClaimKind → List (ℕ × List String) → List (ClaimKind × String × ℕ) → List (ℕ × List String)
unfolding hold kind_eq
holders_of kind holders [] = holders
holders_of kind holders ((k, name, i) ∷ ids) =
    if kind_eq k kind
    then holders_of kind (hold holders i name) ids
    else holders_of kind holders ids

unfoldable pub shared_ids : ClaimKind → List (ℕ × List String) → List Problem
shared_ids kind [] = []
shared_ids kind ((i, a ∷ b ∷ names) ∷ holders) =
    shared_id kind (sorted text_le (a ∷ b ∷ names)) i ∷ shared_ids kind holders
shared_ids kind ((i, names) ∷ holders) = shared_ids kind holders

abbrev holder_le : ℕ × List String → ℕ × List String → Bool
holder_le a b = leb a.0 b.0

unfoldable pub resolve_posix_ids : List Claim → Resolution
unfolding resolve_all holders_of shared_ids claims_by_name
resolve_posix_ids claims =
    let out =
      resolve_all (record { ids = []; deferred = []; problems = [] })
        (sorted key_le (claims_by_name [] claims)) in
    record out {
      problems =
          out.problems
          ++ shared_ids group (sorted holder_le (holders_of group [] out.ids))
          ++ shared_ids user (sorted holder_le (holders_of user [] out.ids));
    }
