-- ===== src/Tests/Hosts.antt =====
-- Tests of the host list and of the origin marker.
use pulsys.Common.{
  ℕ, Bool, true, false, List, [], ◌∷◌, Option, none, some, Bytes, codes, bytes_eq, to_lower, trim,
  split_on, if◌then◌else◌, ◌≡◌, refl, ◌⊎◌, Any, All, ◌≢◌, ◌++◌,
}
use pulsys.Hostallow.{match_host}
use pulsys.Hostallow.Bare.{IsHostOf, with_port}
use pulsys.Hostallow.Deny.{IsUnder, match_host_sound}
use pulsys.Rewrite.{is_marker, extract_and_strip_origin, append_origin}
use pulsys.Rewrite.RoundTrip.{HasNoMarker, extract_and_strip_origin-append_origin}

-- One address is parsed, and it is private.
abbrev parse_ip : Bytes → Option ℕ
parse_ip b = if bytes_eq b (codes "10.0.0.1") then some 0 else none

abbrev is_private : ℕ → Bool
is_private ip = true

abbrev hub : List Bytes
hub = codes "huggingface.co" ∷ []

hub_passes : match_host parse_ip is_private hub (codes "CDN.huggingface.co:443") ≡ true
unfolding match_host
hub_passes = refl

private_denied :
    match_host parse_ip is_private (codes "10.0.0.1" ∷ []) (codes "10.0.0.1:80") ≡ false
unfolding match_host
private_denied = refl

-- An entry of the list in upper case matches no host.
upper_entry : match_host parse_ip is_private (codes "HF.co" ∷ []) (codes "HF.co") ≡ false
unfolding match_host
upper_entry = refl

-- An address of version 6 without brackets is cut at its last colon, and then is no address.
abbrev parse_loopback : Bytes → Option ℕ
parse_loopback b = if bytes_eq b (codes "::1") then some 0 else none

loopback_passes : match_host parse_loopback is_private (codes "::1" ∷ []) (codes "::1") ≡ true
unfolding match_host
loopback_passes = refl

loopback_denied : match_host parse_loopback is_private (codes "::1" ∷ []) (codes "[::1]:80") ≡ false
unfolding match_host
loopback_denied = refl

abbrev cdn : Bytes
cdn = codes "cdn.huggingface.co"

cdn_443 : to_lower (trim (codes "CDN.huggingface.co:443")) ≡ cdn ++ b':' ∷ codes "443"
unfolding trim
cdn_443 = refl

cdn-IsHostOf : IsHostOf (to_lower (trim (codes "CDN.huggingface.co:443"))) cdn
cdn-IsHostOf = record { no_bracket = refl; form = with_port (codes "443") refl refl cdn_443 }

match_host_sound_example :
    All
      (λ d. cdn ≢ d)
      (codes "localhost"
        ∷ codes "metadata.google.internal"
        ∷ codes "metadata.aws.internal"
        ∷ codes "169.254.169.254"
        ∷ [])
    × ((ip : ℕ) → parse_ip cdn ≡ some ip → is_private ip ≡ false)
    × Any (λ a. IsUnder (to_lower (trim (codes "CDN.huggingface.co:443"))) a ⊎ IsUnder cdn a) hub
match_host_sound_example =
    match_host_sound parse_ip is_private hub (codes "CDN.huggingface.co:443") cdn cdn-IsHostOf
      hub_passes

abbrev plain : Bytes → Bytes
plain s = s

abbrev decode : Bytes → Option Bytes
decode s = some s

-- A marker whose value is empty stays with the caller, which takes the origin as absent.
empty_marker :
    extract_and_strip_origin decode (codes "a=1&__pulsys_origin=&b") ≡ (codes "", codes "a=1&b")
unfolding extract_and_strip_origin
empty_marker = refl

no_marker : HasNoMarker (codes "a=1&b")
unfolding split_on is_marker
no_marker = (refl, (refl, tt))

extract_and_strip_origin-append_origin_example :
    extract_and_strip_origin decode (append_origin plain (codes "a=1&b") (codes "/m"))
    ≡ (codes "/m", codes "a=1&b")
extract_and_strip_origin-append_origin_example =
    extract_and_strip_origin-append_origin decode plain (codes "a=1&b") (codes "/m") no_marker refl
      refl refl
