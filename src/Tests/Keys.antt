-- ===== src/Tests/Keys.antt =====
-- Tests of ranges, classification and cache keys.
use pulsys.Common.{true, [], ◌∷◌, ◌++◌, some, Bytes, codes, ◌≡◌, ◌≢◌, refl, ◌↔◌, trim, pos}
use pulsys.Cache.Key.{key_hex}
use pulsys.Cache.Key.Collide.{key_hex_collides, key_material_injective}
use pulsys.Cache.Ranges.{parse_single_range}
use pulsys.Classify.{artifact_get}
use pulsys.Classify.Rules.{IsArtifactPath, artifact_get_iff}

range_5_9 : parse_single_range (codes " Bytes=5-9") (pos 100) ≡ some (pos 5, pos 10)
unfolding parse_single_range
range_5_9 = refl

artifact_get_iff_example :
    (artifact_get (codes "hub") (codes "cdn") (codes "GET") (codes "/api/x/Resolve/y") ≡ true)
    ↔ ((codes "GET" ≡ codes "GET") × IsArtifactPath (codes "/api/x/Resolve/y"))
artifact_get_iff_example =
    artifact_get_iff (codes "hub") (codes "cdn") (codes "GET") (codes "/api/x/Resolve/y")

-- A digest that stands for SHA-256.
abbrev whole : Bytes → Bytes
whole s = s

a_some : codes "/a" ≢ []
a_some e = cc

a_plain : trim (codes "/a") ≡ codes "/a"
unfolding trim
a_plain = refl

a_b_plain : trim (codes "/a" ++ b'|' ∷ codes "b") ≡ codes "/a" ++ b'|' ∷ codes "b"
unfolding trim
a_b_plain = refl

key_hex_collides_example :
    key_hex whole (codes "GET") (codes "hub") (codes "/a|b") (codes "c") []
    ≡ key_hex whole (codes "GET") (codes "hub") (codes "/a") (codes "b|c") []
key_hex_collides_example =
    key_hex_collides whole (codes "GET") (codes "hub") [] (codes "/a") (codes "b") (codes "c")
      a_some a_plain a_b_plain

key_material_injective_example : (codes "/a" ≡ codes "/a") × (codes "q" ≡ codes "q")
key_material_injective_example =
    key_material_injective whole (codes "GET") (codes "hub") [] (codes "/a") (codes "/a")
      (codes "q") (codes "q") a_some a_some a_plain a_plain refl refl refl
