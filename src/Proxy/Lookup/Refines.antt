-- ===== src/Proxy/Lookup/Refines.antt =====
-- The connection loop's answers from the cache are those of the handler behind it.
use pulsys.Common.{
  Bool, true, false, Option, some, [], Bytes, codes, bytes_eq, ℤ, ◌-ℤ◌, wrap64, ◌≡◌, refl, ap, ◌∙◌,
  sym, not-guard-eq-some, bind-eq-some, some_injective,
}
use pulsys.Cache.Meta.{Meta}
use pulsys.Cache.Spans.{covers}
use pulsys.Classify.{artifact_get}
use pulsys.Coreserver.Request.{Request}
use pulsys.Coreserver.Warm.{
  Served, known_total, wanted_interval, has_spans, warm_head, warm_key, try_serve_warm,
}
use pulsys.Coreserver.Warm.Hits.{try_serve_warm_sound, try_serve_warm_complete}
use pulsys.Proxy.Handler.{Handler, Answer, file}
use pulsys.Proxy.Headers.{Headers}
use pulsys.Proxy.Lookup.{
  is_cached_redirect, body_answer, serve_body, serve_found, serve_entry, try_serve_from_cache,
}

module _ (h : Handler) (load_meta : Bytes → Option Meta) (body_opens : Bytes → Bool) where
  -- Metadata of an object of its own that holds no redirect.
  pub record IsBodyEntry (key : Bytes) (meta : Meta) : Type 0 where
    pub loaded : load_meta key ≡ some meta
    pub no_alias : bytes_eq meta.alias_of [] ≡ true
    pub no_redirect : is_cached_redirect meta ≡ false

  try_serve_from_cache-body :
      (hdr : Headers) (range key : Bytes) (meta : Meta)
      → IsBodyEntry key meta
      → try_serve_from_cache h load_meta body_opens hdr range key false
        ≡ serve_body h load_meta body_opens hdr range key meta
  unfolding try_serve_from_cache serve_entry serve_found
  try_serve_from_cache-body hdr range key meta e =
      rw (e.loaded, try_serve_from_cache, e.no_alias, serve_entry, e.no_redirect, serve_found) refl

  body-body_answer :
      (hdr : Headers) (range key : Bytes) (meta : Meta) (start stop : ℤ)
      → (body_answer hdr range key meta start stop).body ≡ file key start (wrap64 (stop -ℤ start))
  unfolding body_answer
  body-body_answer hdr range key meta start stop = refl

  -- What an answer with the bytes of an object rests on.
  pub record BodyHit (range key : Bytes) (meta : Meta) (a : Answer) : Type 0 where
    pub start : ℤ
    pub stop : ℤ
    pub nonempty : has_spans meta ≡ true
    pub wanted : wanted_interval range (known_total meta.total) ≡ some (start, stop)
    pub covered : covers meta.spans start stop ≡ true
    pub opens : body_opens key ≡ true
    pub body : a.body ≡ file key start (wrap64 (stop -ℤ start))

  BodyHit-serve_body :
      (hdr : Headers) (range key : Bytes) (meta : Meta) (a : Answer)
      → serve_body h load_meta body_opens hdr range key meta ≡ some a
      → BodyHit range key meta a
  unfolding serve_body
  BodyHit-serve_body hdr range key meta a e =
      let (nonempty, e1) = not-guard-eq-some (has_spans meta) _ e in
      let (wanted, in_range, e2) =
        bind-eq-some (wanted_interval range (known_total meta.total)) _ e1 in
      let (covered, e3) = not-guard-eq-some (covers meta.spans wanted.0 wanted.1) _ e2 in
      let (opens, e4) = not-guard-eq-some (body_opens key) _ e3 in
      let same = some_injective _ a e4 in
      record {
        start = wanted.0;
        stop = wanted.1;
        nonempty = nonempty;
        wanted = in_range;
        covered = covered;
        opens = opens;
        body = sym (ap (λ b. b.body) same) ∙ body-body_answer hdr range key meta wanted.0 wanted.1;
      }

  serve_body-hit :
      (hdr : Headers) (range key : Bytes) (meta : Meta) (start stop : ℤ)
      → has_spans meta ≡ true
      → wanted_interval range (known_total meta.total) ≡ some (start, stop)
      → covers meta.spans start stop ≡ true
      → body_opens key ≡ true
      → serve_body h load_meta body_opens hdr range key meta
        ≡ some (body_answer hdr range key meta start stop)
  unfolding serve_body
  serve_body-hit hdr range key meta start stop nonempty wanted covered opens =
      rw (nonempty, wanted, covered, opens) refl

  -- The loop in front of the handler promises no more and no less than the handler would give: for a
  -- GET of an artifact whose entry is no alias and no redirect, an answer of the loop from the cache
  -- comes with one of the handler that sends the same interval of the same object, and an answer of
  -- the handler from the cache comes with one of the loop that does.
  pub try_serve_warm-Refines :
      (host : Bytes) (fused : Bool) (req : Request) (hdr : Headers) (meta : Meta)
      → bytes_eq req.method (codes "GET") ≡ true
      → artifact_get host host (codes "GET") req.path ≡ true
      → IsBodyEntry (warm_key h.sha256 load_meta body_opens host fused req) meta
      → ((served : Served)
          → try_serve_warm h.sha256 load_meta body_opens host fused req ≡ some served
          → (a : Answer) × (try_serve_from_cache h load_meta body_opens hdr req.range
                (warm_key h.sha256 load_meta body_opens host fused req)
                false
              ≡ some a)
            × (a.body
                ≡ file
                    (warm_key h.sha256 load_meta body_opens host fused req)
                    served.offset
                    served.count))
        × ((a : Answer)
            → try_serve_from_cache h load_meta body_opens hdr req.range
                (warm_key h.sha256 load_meta body_opens host fused req)
                false
              ≡ some a
            → (served : Served) × (try_serve_warm h.sha256 load_meta body_opens host fused req
                ≡ some served)
              × (a.body
                  ≡ file
                      (warm_key h.sha256 load_meta body_opens host fused req)
                      served.offset
                      served.count))
  try_serve_warm-Refines host fused req hdr meta is_get is_artifact entry =
      let key = warm_key h.sha256 load_meta body_opens host fused req in
      let handler = try_serve_from_cache-body hdr req.range key meta entry in
      (
        λ served e.
            let hit = try_serve_warm_sound h.sha256 load_meta body_opens host fused req served e in
            let same : hit.meta ≡ meta =
              some_injective hit.meta meta (sym hit.loaded ∙ entry.loaded) in
            let answer = body_answer hdr req.range key hit.meta hit.start hit.stop in
            let answered =
              serve_body-hit hdr req.range key hit.meta hit.start hit.stop hit.nonempty hit.wanted
                hit.covered hit.opens in
            (
              answer,
              handler
                  ∙ ap (serve_body h load_meta body_opens hdr req.range key) (sym same)
                  ∙ answered,
              body-body_answer hdr req.range key hit.meta hit.start hit.stop
                  ∙ ap (λ s. file key s.offset s.count) (sym hit.answer),
            ),
        λ a e.
            let hit = BodyHit-serve_body hdr req.range key meta a (sym handler ∙ e) in
            let sent : Served = record {
              head =
                  warm_head fused req.range hit.start hit.stop (known_total meta.total) meta
                    req.keep_alive;
              offset = hit.start;
              count = wrap64 (hit.stop -ℤ hit.start);
            } in
            (
              sent,
              try_serve_warm_complete h.sha256 load_meta body_opens host fused req sent (record {
                meta = meta;
                start = hit.start;
                stop = hit.stop;
                is_get = is_get;
                is_artifact = is_artifact;
                loaded = entry.loaded;
                nonempty = hit.nonempty;
                wanted = hit.wanted;
                covered = hit.covered;
                opens = hit.opens;
                answer = refl;
              }),
              hit.body,
            ),
      )
