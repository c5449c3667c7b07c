-- ===== src/Tests/Gate.antt =====
-- Tests of the gate of the data plane.
use pulsys.Auth.{
  Verdict, valid, invalid_session, bearer_from_bytes, is_pat, is_public, invalidate_by_hash, check,
  Reachable, empty, checked,
}
use pulsys.Auth.Ttl.{IsKnown, check-IsKnown, check-invalidate_by_hash}
use pulsys.Common.{
  ℕ, true, false, List, [], ◌∷◌, ◌++◌, some, if◌then◌else◌, leb, take, Bytes, codes, ◌≡◌, refl, ◌⊎◌,
}

-- A digest of 32 bytes, and a store that knows every token until the time 10.
abbrev digest32 : Bytes → Bytes
digest32 s = take 32 (s ++ codes "................................")

abbrev until_ten : ℕ → Bytes → Verdict
until_ten t token = if leb t 10 then valid else invalid_session

abbrev header : Bytes
header = codes "bearer pulsys_a_b "

abbrev token_text : Bytes
token_text = codes "pulsys_a_b"

abbrev kept_once : List (Bytes × ℕ)
kept_once = (digest32 token_text, 65) ∷ []

read_bearer : bearer_from_bytes header ≡ some token_text
unfolding bearer_from_bytes
read_bearer = refl

first_check : check digest32 until_ten 60 header (codes "/f") 4 5 [] ≡ (kept_once, (0, []))
unfolding check
first_check = refl

late_check : (check digest32 until_ten 60 header (codes "/f") 50 51 kept_once).1.0 ≡ 0
unfolding check
late_check = refl

later_check : (check digest32 until_ten 60 header (codes "/f") 66 67 kept_once).1.0 ≡ 401
unfolding check
later_check = refl

kept_once-Reachable : Reachable digest32 until_ten 60 kept_once
unfolding check
kept_once-Reachable = checked header (codes "/f") 4 5 empty

check-IsKnown_example :
    (is_public (codes "/f") ≡ true)
    ⊎ ((token : Bytes) × (bearer_from_bytes header ≡ some token)
        × (is_pat token ≡ true)
        × IsKnown digest32 until_ten 60 token 50 51)
check-IsKnown_example =
    check-IsKnown digest32 until_ten 60 header (codes "/f") 50 51 kept_once kept_once-Reachable
      late_check

not_public : is_public (codes "/f") ≡ false
unfolding is_public
not_public = refl

check-invalidate_by_hash_example :
    (check digest32 until_ten 60 header
      (codes "/f")
      20
      21
      (invalidate_by_hash (digest32 token_text) kept_once)).1.0
    ≡ 401
check-invalidate_by_hash_example =
    check-invalidate_by_hash digest32 until_ten 60 header (codes "/f") token_text 20 21 kept_once
      not_public read_bearer refl refl
