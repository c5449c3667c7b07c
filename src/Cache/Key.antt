-- ===== src/Cache/Key.antt =====
-- internal/cache/key.go: the cache key of a request. SHA-256 is a parameter: a function from byte
-- strings to byte strings.
pub mod Collide
use pulsys.Common.{
  Bool, true, false, List, [], ◌∷◌, ◌++◌, ◌||◌, if◌then◌else◌, Bytes, codes, bytes_eq, take, trim,
  to_lower, to_upper, hex_encode,
}

unfoldable pub content_addressed_hosts : List Bytes
content_addressed_hosts =
    codes "cas-bridge.xethub.hf.co"
    ∷ codes "cas-server.xethub.hf.co"
    ∷ codes "cdn-lfs.huggingface.co"
    ∷ codes "cdn-lfs-us-1.hf.co"
    ∷ codes "cdn-lfs-us-2.hf.co"
    ∷ codes "cdn-lfs-eu-1.hf.co"
    ∷ codes "lfs.huggingface.co"
    ∷ codes "us.aws.cdn.hf.co"
    ∷ codes "eu.aws.cdn.hf.co"
    ∷ codes "ap.aws.cdn.hf.co"
    ∷ []

abbrev pub has_key : Bytes → List Bytes → Bool
has_key k [] = false
has_key k (x ∷ xs) = bytes_eq k x || has_key k xs

unfoldable pub is_content_addressed_host : Bytes → Bool
unfolding content_addressed_hosts trim
is_content_addressed_host host = has_key (to_lower (trim host)) content_addressed_hosts

-- `if path == "" { path = "/" }`
unfoldable pub or_root : Bytes → Bytes
or_root [] = codes "/"
or_root (c ∷ s) = c ∷ s

module _ (sha256 : Bytes → Bytes) where
  unfoldable pub auth_bucket : Bytes → Bytes
  unfolding hex_encode
  auth_bucket [] = codes "anon"
  auth_bucket (c ∷ s) = hex_encode (take 8 (sha256 (c ∷ s)))

  unfoldable pub append_auth_bucket : Bytes → Bytes → Bytes
  unfolding auth_bucket trim
  append_auth_bucket buf auth = buf ++ auth_bucket (trim auth)

  -- What is hashed.
  unfoldable pub key_material : Bytes → Bytes → Bytes → Bytes → Bytes → Bytes
  unfolding append_auth_bucket or_root trim
  key_material method upstream_host path raw_query auth_header =
      append_auth_bucket
        (to_upper (trim method)
          ++ (b'|'
              ∷ (to_lower (trim upstream_host)
                  ++ (b'|' ∷ (or_root (trim path) ++ (b'|' ∷ (raw_query ++ b'|' ∷ [])))))))
        auth_header

  unfoldable pub key_hex : Bytes → Bytes → Bytes → Bytes → Bytes → Bytes
  unfolding key_material hex_encode
  key_hex method upstream_host path raw_query auth_header =
      hex_encode (sha256 (key_material method upstream_host path raw_query auth_header))

  unfoldable pub hash_auth : Bytes → Bytes
  unfolding hex_encode trim
  hash_auth token = hex_encode (take 8 (sha256 (trim token)))
