-- ===== src/Posix/Tests.antt =====
-- A name that two sides know.
use cs_image_system.Base.{ℕ, String, ◌≡◌, refl, ◌↔◌, false, List, [], ◌∷◌, All}
use cs_image_system.Base.Sorting.{sorted}
use cs_image_system.Posix.{
  Claim, ClaimedId, group, given, name_only, deferred_id, resolved_to, put_off, disagreement,
  resolve_name,
}
use cs_image_system.Posix.Resolve.{shared_id, resolve_posix_ids}
use cs_image_system.Posix.Agree.{IsSupplied, Agrees, resolve_name-resolved_iff}

abbrev claim : String → ClaimedId → ℕ → Claim
claim side id rank = record {
  side = side;
  kind = group;
  name = "coops";
  claimed = id;
  rank = rank;
  derived = false;
}

abbrev agreeing : List Claim
agreeing =
    claim "config" (given 5001) 50 ∷ claim "machine" name_only 60 ∷ claim "opa" (given 5001) 10 ∷ []

program : Unit {0}
unfolding resolve_name sorted
program = tt

resolved : resolve_name agreeing ≡ resolved_to 5001
unfolding program
resolved = refl

provider_first :
    resolve_name (claim "config" (given 5002) 50 ∷ claim "opa" (given 5001) 10 ∷ [])
    ≡ disagreement (claim "opa" (given 5001) 10) 5001 (claim "config" (given 5002) 50) 5002
unfolding program
provider_first = refl

later : resolve_name (claim "config" name_only 50 ∷ claim "opa" deferred_id 10 ∷ []) ≡ put_off
unfolding program
later = refl

-- Two groups that hold one id.
shared :
    (resolve_posix_ids (
      claim "config" (given 5001) 50
      ∷ record (claim "config" (given 5001) 50) { name = "admins" }
      ∷ [])).problems
    ≡ shared_id group ("admins" ∷ "coops" ∷ []) 5001 ∷ []
unfolding program resolve_posix_ids
shared = refl

resolve_name-resolved_iff_example :
    (resolve_name agreeing ≡ resolved_to 5001)
    ↔ IsSupplied 5001 agreeing × All (Agrees 5001) agreeing
resolve_name-resolved_iff_example = resolve_name-resolved_iff agreeing 5001
