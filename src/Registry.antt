-- ===== src/Registry.antt =====
-- internal/registry, internal/blobstore and the request parsing of internal/proxy's registry handlers:
-- which paths, names and ranges are accepted.
pub mod SimpleRange
pub mod CommitRetry
use pulsys.Common.{
  ℕ, ◌+◌, Bool, true, false, not, ◌||◌, ◌&&◌, List, [], ◌∷◌, Option, none, some, if◌then◌else◌,
  ◌==◌, Bytes, codes, bytes_eq, cut_prefix, split_on, join_with, split_at, length, leb, ltb,
  any_byte, all, to_lower, has_suffix, parse_int, ℤ, pos, ◌-ℤ◌, lebℤ, ltbℤ, wrap64,
}

unfoldable pub max_commit_file_path_bytes : ℕ
max_commit_file_path_bytes = 1024

-- The segments that are not empty, the first of them still open.
unfoldable pub open_segments : Bytes → Bytes × List Bytes
open_segments [] = ([], [])
open_segments (c ∷ s) =
    let rest = open_segments s in
    if c == b'/'
    then ([], if bytes_eq rest.0 [] then rest.1 else rest.0 ∷ rest.1)
    else (c ∷ rest.0, rest.1)

unfoldable pub split_path_segments : Bytes → List Bytes
unfolding open_segments
split_path_segments p = let s = open_segments p in if bytes_eq s.0 [] then s.1 else s.0 ∷ s.1

abbrev pub is_bad_byte : ℕ → Bool
is_bad_byte c = c == 0 || (c == 92 || (c == 13 || c == 10))

unfoldable pub has_parent : List Bytes → Bool
has_parent [] = false
has_parent (seg ∷ rest) = bytes_eq seg (codes "..") || has_parent rest

-- True if there is no error.
unfoldable pub validate_commit_file_path : Bytes → Bool
unfolding max_commit_file_path_bytes split_path_segments has_parent
validate_commit_file_path [] = false
validate_commit_file_path (c ∷ p) =
    if ltb max_commit_file_path_bytes (length (c ∷ p))
    then false
    else if c == b'/'
    then false
    else if any_byte is_bad_byte (c ∷ p)
    then false
    else not (has_parent (split_path_segments (c ∷ p)))

abbrev pub is_slug_letter : ℕ → Bool
is_slug_letter c =
    (leb b'a' c && leb c b'z') || ((leb b'A' c && leb c b'Z') || (leb b'0' c && leb c b'9'))

abbrev pub is_slug_byte : ℕ → Bool
is_slug_byte c = is_slug_letter c || (c == b'.' || (c == b'_' || c == b'-'))

unfoldable pub is_repo_slug : Bytes → Bool
is_repo_slug [] = false
is_repo_slug (c ∷ s) = leb (length (c ∷ s)) 96 && (is_slug_letter c && all is_slug_byte s)

unfoldable pub validate_repo_triple : Bytes → Bytes → Bytes → Bool
unfolding is_repo_slug
validate_repo_triple repo_type ns name =
    (bytes_eq repo_type (codes "models")
      || (bytes_eq repo_type (codes "datasets") || bytes_eq repo_type (codes "spaces")))
    && (is_repo_slug ns && is_repo_slug name)

abbrev pub is_hex_byte : ℕ → Bool
is_hex_byte c = (leb b'0' c && leb c b'9') || (leb b'a' c && leb c b'f')

unfoldable pub is_hex : Bytes → Bool
is_hex s = all is_hex_byte s

unfoldable pub is_hex_n : Bytes → ℕ → Bool
unfolding is_hex
is_hex_n s n = length s == n && is_hex s

unfoldable pub valid_oid : Bytes → Bool
valid_oid s = length s == 64 && all is_hex_byte s

-- Repository type, namespace, name, revision and path.
pub record ResolvePath : Type 0 where
  pub repo_type : Bytes
  pub ns : Bytes
  pub name : Bytes
  pub rev : Bytes
  pub path : Bytes

unfoldable pub resolve_of_parts : Bytes → List Bytes → Option ResolvePath
unfolding join_with
resolve_of_parts repo_type (ns ∷ name ∷ word ∷ rev ∷ first ∷ rest) =
    if bytes_eq word (codes "resolve")
    then some (record {
      repo_type = repo_type;
      ns = ns;
      name = name;
      rev = rev;
      path = join_with (codes "/") (first ∷ rest);
    })
    else none
resolve_of_parts repo_type _ = none

unfoldable pub resolve_of_kind : List Bytes → Option ResolvePath
unfolding resolve_of_parts
resolve_of_kind [] = none
resolve_of_kind (kind ∷ parts) =
    if bytes_eq kind (codes "datasets") || bytes_eq kind (codes "spaces")
    then resolve_of_parts kind parts
    else resolve_of_parts (codes "models") (kind ∷ parts)

unfoldable pub parse_resolve_path : Bytes → Option ResolvePath
unfolding split_on resolve_of_kind
parse_resolve_path p =
    resolve_of_kind
      (split_on b'/' (elim (cut_prefix (codes "/") p) [ none ↦ p | some rest ↦ rest ]))

-- The last bytes of the object.
unfoldable pub suffix_range : Bytes → ℤ → Option (ℤ × ℤ)
unfolding parse_int
suffix_range b size = elim (parse_int b) [
  | none ↦ none
  | some n ↦
      if lebℤ n (pos 0) || ltbℤ size n
      then none
      else some (wrap64 (size -ℤ n), wrap64 (size -ℤ pos 1))
]

-- The last byte of a range that begins here.
unfoldable pub simple_range_end : ℤ → Bytes → ℤ → Option (ℤ × ℤ)
unfolding parse_int
simple_range_end start [] size = some (start, wrap64 (size -ℤ pos 1))
simple_range_end start (c ∷ b) size = elim (parse_int (c ∷ b)) [
  | none ↦ none
  | some stop ↦ if ltbℤ stop start || lebℤ size stop then none else some (start, stop)
]

unfoldable pub simple_range_of : Bytes → Bytes → ℤ → Option (ℤ × ℤ)
unfolding parse_int suffix_range simple_range_end
simple_range_of [] b size = suffix_range b size
simple_range_of (c ∷ a) b size = elim (parse_int (c ∷ a)) [
  | none ↦ none
  | some start ↦
      if ltbℤ start (pos 0) || lebℤ size start then none else simple_range_end start b size
]

-- The first and the last byte of the range.
unfoldable pub parse_simple_range : Bytes → ℤ → Option (ℤ × ℤ)
unfolding simple_range_of
parse_simple_range h size = elim (cut_prefix (codes "bytes=") h) [
  | none ↦ none
  | some r ↦ if any_byte (λ c. c == b',') r then none else elim (split_at (λ c. c == b'-') r) [
    | none ↦ none
    | some (a, b) ↦ simple_range_of a b size
  ]
]

unfoldable pub lfs_extensions : List Bytes
lfs_extensions =
    codes ".safetensors"
    ∷ codes ".gguf"
    ∷ codes ".onnx"
    ∷ codes ".pth"
    ∷ codes ".pt"
    ∷ codes ".bin"
    ∷ codes ".ckpt"
    ∷ codes ".tar"
    ∷ codes ".zip"
    ∷ codes ".7z"
    ∷ codes ".msgpack"
    ∷ codes ".npz"
    ∷ []

unfoldable pub ends_in_any : Bytes → List Bytes → Bool
unfolding has_suffix
ends_in_any s [] = false
ends_in_any s (ext ∷ rest) = has_suffix ext s || ends_in_any s rest

unfoldable pub has_lfs_extension : Bytes → Bool
unfolding ends_in_any lfs_extensions
has_lfs_extension path = ends_in_any (to_lower path) lfs_extensions

unfoldable pub repo_type_plural : Bytes → Option Bytes
repo_type_plural t =
    let l = to_lower t in
    if bytes_eq l (codes "model") || bytes_eq l (codes "models")
    then some (codes "models")
    else if bytes_eq l (codes "dataset") || bytes_eq l (codes "datasets")
    then some (codes "datasets")
    else if bytes_eq l (codes "space") || bytes_eq l (codes "spaces")
    then some (codes "spaces")
    else none

unfoldable pub name_in_org : Bytes → Bytes → Bytes × Bytes
name_in_org name org = if bytes_eq org [] then ([], []) else (org, name)

unfoldable pub split_repo_name : Bytes → Bytes → Bytes × Bytes
unfolding name_in_org
split_repo_name name org = elim (split_at (λ c. c == b'/') name) [
  | none ↦ name_in_org name org
  | some (a, b) ↦ if bytes_eq a [] then name_in_org name org else (a, b)
]
