-- ===== src/Classify/Rules.antt =====
-- Which requests are for artifacts, in one condition on the text of the request.
use pulsys.Common.{
  Bool, true, false, not, Bytes, codes, bytes_eq, bytes_eq_iff, if◌then◌else◌, ◌≡◌, ◌↔◌, ◌⊎◌, inl,
  inr, arith, Bool-cases, has_prefix,
}
use pulsys.Classify.{contains_lower, contains_lower_prefix, artifact_get, equal_fold_host}
use pulsys.Classify.Fold.{
  Begins, BeginsFold, ContainsFold, Begins-has_prefix, contains_lower_prefix_iff,
  contains_lower_iff,
}

-- The chain of tests, on their results.
chain :
    (get own resolve lfs escaped cached same_host api : Bool)
    → ((if not get
          then false
          else if own
          then true
          else if resolve
          then true
          else if lfs
          then true
          else if escaped
          then true
          else if cached
          then true
          else if not same_host
          then (if api then false else true)
          else not api)
        ≡ true)
      ↔ ((get ≡ true)
          × ((own ≡ true)
              ⊎ (resolve ≡ true)
              ⊎ (lfs ≡ true)
              ⊎ (escaped ≡ true)
              ⊎ (cached ≡ true)
              ⊎ (api ≡ false)))
chain get own resolve lfs escaped cached same_host api = ground arith

-- What makes a path one of an artifact.
pub data IsArtifactPath (path : Bytes) : Type 0 where
  own : Begins (codes "/_p/") path → IsArtifactPath path
  resolve : ContainsFold (codes "/resolve/") path → IsArtifactPath path
  lfs : ContainsFold (codes "/info/lfs/") path → IsArtifactPath path
  escaped : ContainsFold (codes "/resolve%2f") path → IsArtifactPath path
  cached : BeginsFold (codes "/api/resolve-cache/") path → IsArtifactPath path
  no_api : (BeginsFold (codes "/api/") path → ⊥) → IsArtifactPath path

-- A request is for an artifact exactly when its method is GET and its path begins with "/_p/", or
-- contains "/resolve/", "/info/lfs/" or "/resolve%2f" in any case, or begins with
-- "/api/resolve-cache/" in any case, or does not begin with "/api/" in any case. The hosts do not
-- matter.
pub artifact_get_iff :
    (default_host upstream_host method path : Bytes)
    → (artifact_get default_host upstream_host method path ≡ true)
      ↔ ((method ≡ codes "GET") × IsArtifactPath path)
unfolding artifact_get
artifact_get_iff default_host upstream_host method path =
    let (to, from) =
      chain (bytes_eq method (codes "GET")) (has_prefix (codes "/_p/") path)
        (contains_lower path (codes "/resolve/")) (contains_lower path (codes "/info/lfs/"))
        (contains_lower path (codes "/resolve%2f"))
        (contains_lower_prefix path (codes "/api/resolve-cache/"))
        (equal_fold_host upstream_host default_host) (contains_lower_prefix path (codes "/api/")) in
    let get = bytes_eq_iff method (codes "GET") in
    let own_iff = Begins-has_prefix (codes "/_p/") path in
    let resolve_iff = contains_lower_iff path (codes "/resolve/") (omega arith) in
    let lfs_iff = contains_lower_iff path (codes "/info/lfs/") (omega arith) in
    let escaped_iff = contains_lower_iff path (codes "/resolve%2f") (omega arith) in
    let cached_iff = contains_lower_prefix_iff path (codes "/api/resolve-cache/") in
    let api_iff = contains_lower_prefix_iff path (codes "/api/") in
    (
      λ h.
          let (is_get, way) = to h in
          (
            get.0 is_get,
            elim way [
              | inl a ↦ own (own_iff.0 a)
              | inr (inl a) ↦ resolve (resolve_iff.0 a)
              | inr (inr (inl a)) ↦ lfs (lfs_iff.0 a)
              | inr (inr (inr (inl a))) ↦ escaped (escaped_iff.0 a)
              | inr (inr (inr (inr (inl a)))) ↦ cached (cached_iff.0 a)
              | inr (inr (inr (inr (inr a)))) ↦ no_api (λ b. let hit = api_iff.1 b in cc)
            ],
          ),
      λ h. from (
        get.1 h.0,
        elim h.1 [
          | own b ↦ inl (own_iff.1 b)
          | resolve b ↦ inr (inl (resolve_iff.1 b))
          | lfs b ↦ inr (inr (inl (lfs_iff.1 b)))
          | escaped b ↦ inr (inr (inr (inl (escaped_iff.1 b))))
          | cached b ↦ inr (inr (inr (inr (inl (cached_iff.1 b)))))
          | no_api none_there ↦ inr (
              inr (
                inr (
                  inr (
                    inr (elim (Bool-cases (contains_lower_prefix path (codes "/api/"))) [
                      | inl e ↦ absurd (none_there (api_iff.0 e))
                      | inr e ↦ e
                    ])))))
        ],
      ),
    )
