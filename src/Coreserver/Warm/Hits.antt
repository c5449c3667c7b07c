-- ===== src/Coreserver/Warm/Hits.antt =====
-- The tests that a request answered from the cache has passed, as the code makes them.
use pulsys.Common.{
  Bool, true, Option, some, Bytes, codes, bytes_eq, ℤ, ◌-ℤ◌, wrap64, ◌≡◌, refl, not-guard-eq-some,
  bind-eq-some,
}
use pulsys.Cache.Meta.{Meta}
use pulsys.Cache.Spans.{covers}
use pulsys.Classify.{artifact_get}
use pulsys.Coreserver.Request.{Request}
use pulsys.Coreserver.Warm.{
  Served, known_total, wanted_interval, warm_head, has_spans, warm_key, serve_meta, try_serve_warm,
}

module _ (sha256 : Bytes → Bytes) (load_meta : Bytes → Option Meta) (body_opens : Bytes → Bool)
    (host : Bytes) (fused : Bool) where
  -- What a warm answer rests on: the object that the request names, and the interval of it that the
  -- request wants, each of whose bytes is on disk.
  pub record WarmHit (req : Request) (served : Served) : Type 0 where
    pub meta : Meta
    pub start : ℤ
    pub stop : ℤ
    pub is_get : bytes_eq req.method (codes "GET") ≡ true
    pub is_artifact : artifact_get host host (codes "GET") req.path ≡ true
    pub loaded : load_meta (warm_key sha256 load_meta body_opens host fused req) ≡ some meta
    pub nonempty : has_spans meta ≡ true
    pub wanted : wanted_interval req.range (known_total meta.total) ≡ some (start, stop)
    pub covered : covers meta.spans start stop ≡ true
    pub opens : body_opens (warm_key sha256 load_meta body_opens host fused req) ≡ true
    pub answer : served ≡ record {
      head = warm_head fused req.range start stop (known_total meta.total) meta req.keep_alive;
      offset = start;
      count = wrap64 (stop -ℤ start);
    }

  pub try_serve_warm_complete :
      (req : Request) (served : Served)
      → WarmHit req served
      → try_serve_warm sha256 load_meta body_opens host fused req ≡ some served
  unfolding try_serve_warm serve_meta
  try_serve_warm_complete req served h =
      rw (h.is_get, h.is_artifact, h.loaded, h.nonempty, h.wanted, h.covered, h.opens, h.answer)
        refl

  pub try_serve_warm_sound :
      (req : Request) (served : Served)
      → try_serve_warm sha256 load_meta body_opens host fused req ≡ some served
      → WarmHit req served
  unfolding try_serve_warm serve_meta
  try_serve_warm_sound req served h =
      let (is_get, h1) = not-guard-eq-some (bytes_eq req.method (codes "GET")) _ h in
      let (is_artifact, h2) =
        not-guard-eq-some (artifact_get host host (codes "GET") req.path) _ h1 in
      let (meta, loaded, h3) =
        bind-eq-some (load_meta (warm_key sha256 load_meta body_opens host fused req)) _ h2 in
      let (nonempty, h4) = not-guard-eq-some (has_spans meta) _ h3 in
      let (wanted, in_range, h5) =
        bind-eq-some (wanted_interval req.range (known_total meta.total)) _ h4 in
      let (covered, h6) = not-guard-eq-some (covers meta.spans wanted.0 wanted.1) _ h5 in
      let (opens, h7) =
        not-guard-eq-some (body_opens (warm_key sha256 load_meta body_opens host fused req)) _ h6 in
      record {
        meta = meta;
        start = wanted.0;
        stop = wanted.1;
        is_get = is_get;
        is_artifact = is_artifact;
        loaded = loaded;
        nonempty = nonempty;
        wanted = in_range;
        covered = covered;
        opens = opens;
        answer = cc;
      }
