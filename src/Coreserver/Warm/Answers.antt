-- ===== src/Coreserver/Warm/Answers.antt =====
-- Which requests are answered from the cache, with which bytes of the object and behind which head.
use mathlib.Core.Path.{subst}
use pulsys.Common.{
  List, ℕ, Bool, true, false, [], ◌∷◌, Option, some, Bytes, codes, bytes_eq_iff, ℤ, pos, ◌+ℤ◌, ◌-ℤ◌,
  ◌≤ℤ◌, ◌<ℤ◌, two63, wrap64, wrap64_sub, add-sub, ◌≡◌, ◌≢◌, ◌↔◌, refl, sym, ap, ◌∙◌,
}
use pulsys.Cache.Meta.{Meta}
use pulsys.Cache.Spans.{Span}
use pulsys.Cache.Spans.Cover.{IsCovered, covers_iff}
use pulsys.Cache.Spans.Points.{AreValid, HoldsAny}
use pulsys.Classify.Fold.{Begins}
use pulsys.Classify.Rules.{IsArtifactPath, artifact_get_iff}
use pulsys.Coreserver.Request.{Request}
use pulsys.Coreserver.Warm.{Served, known_total, warm_head, has_spans, warm_key, try_serve_warm}
use pulsys.Coreserver.Warm.Hits.{try_serve_warm_sound, try_serve_warm_complete}
use pulsys.Coreserver.Warm.Interval.{Asks, Asks-fits, Interval-wanted, wanted_interval-asked}
use pulsys.Coreserver.Warm.Status.{
  whole_head, sent_head, status_line, warm_head_lem, Begins-whole_head, Begins-sent_head,
}

-- What a store keeps of an object: no span ends before it starts, and a total is an `int64`.
pub record IsStored (meta : Meta) : Type 0 where
  pub valid : AreValid meta.spans
  pub total_fits : known_total meta.total <ℤ pos two63

nonempty_iff : (l : List Span) → ((elim l [ [] ↦ false | s ∷ rest ↦ true ]) ≡ true) ↔ (l ≢ [])
nonempty_iff [] = ((λ h e. cc), λ h. absurd (h refl))
nonempty_iff (s ∷ l) = ((λ h e. cc), λ h. refl)

has_spans_iff : (meta : Meta) → (has_spans meta ≡ true) ↔ (meta.spans ≢ [])
unfolding has_spans
has_spans_iff meta = nonempty_iff meta.spans

served_same : (s t : Served) → s.head ≡ t.head → s.offset ≡ t.offset → s.count ≡ t.count → s ≡ t
served_same s t head offset count = cc

module _ (sha256 : Bytes → Bytes) (load_meta : Bytes → Option Meta) (body_opens : Bytes → Bool)
    (host : Bytes) (fused : Bool) where
  -- What a warm answer rests on, and what it is.
  pub record WarmAnswer (req : Request) (served : Served) : Type 0 where
    pub meta : Meta
    pub start : ℕ
    pub stop : ℕ
    pub is_get : req.method ≡ codes "GET"
    pub is_artifact : IsArtifactPath req.path
    pub loaded : load_meta (warm_key sha256 load_meta body_opens host fused req) ≡ some meta
    pub nonempty : meta.spans ≢ []
    pub asked : Asks req.range meta.total start stop
    pub covered : IsCovered meta.spans (pos start) (pos stop)
    pub opens : body_opens (warm_key sha256 load_meta body_opens host fused req) ≡ true
    pub offset : served.offset ≡ pos start
    pub count : served.count ≡ pos stop -ℤ pos start
    pub head : served.head ≡ sent_head fused (whole_head req.range start stop meta req.keep_alive)
    pub status : Begins (status_line req.range) served.head

  module _ (stored : (key : Bytes) (meta : Meta) → load_meta key ≡ some meta → IsStored meta) where
    WarmAnswer-of_served :
        (req : Request) (served : Served)
        → try_serve_warm sha256 load_meta body_opens host fused req ≡ some served
        → WarmAnswer req served
    WarmAnswer-of_served req served e =
        let hit = try_serve_warm_sound sha256 load_meta body_opens host fused req served e in
        let kept = stored _ hit.meta hit.loaded in
        let i =
          Interval-wanted req.range hit.meta.total hit.start hit.stop kept.total_fits hit.wanted in
        let at = i.is_first in
        let end = i.is_last in
        let head : served.head
            ≡ sent_head fused (whole_head req.range i.first i.last hit.meta req.keep_alive) =
          ap (λ s. s.head) hit.answer
          ∙ ap
              (λ x.
                warm_head fused req.range x hit.stop (known_total hit.meta.total) hit.meta
                  req.keep_alive)
              at
          ∙ ap
              (λ y.
                warm_head fused req.range (pos i.first) y (known_total hit.meta.total) hit.meta
                  req.keep_alive)
              end
          ∙ warm_head_lem fused req.range i.first i.last hit.meta req.keep_alive i.first_fits
              i.last_fits in
        record {
          meta = hit.meta;
          start = i.first;
          stop = i.last;
          is_get = (bytes_eq_iff req.method (codes "GET")).0 hit.is_get;
          is_artifact = ((artifact_get_iff host host (codes "GET") req.path).0 hit.is_artifact).1;
          loaded = hit.loaded;
          nonempty = (has_spans_iff hit.meta).0 hit.nonempty;
          asked = i.asked;
          covered =
              subst (λ y. IsCovered hit.meta.spans (pos i.first) y) end
                (subst (λ x. IsCovered hit.meta.spans x hit.stop) at
                  ((covers_iff hit.meta.spans hit.start hit.stop kept.valid).0 hit.covered));
          opens = hit.opens;
          offset = ap (λ s. s.offset) hit.answer ∙ at;
          count =
              ap (λ s. s.count) hit.answer
              ∙ ap (λ x. wrap64 (hit.stop -ℤ x)) at
              ∙ ap (λ y. wrap64 (y -ℤ pos i.first)) end
              ∙ wrap64_sub i.last i.first i.last_fits i.first_fits;
          head = head;
          status =
              subst (λ o. Begins (status_line req.range) o) (sym head)
                (Begins-sent_head fused req.range _
                  (Begins-whole_head req.range i.first i.last hit.meta req.keep_alive));
        }

    served_of_WarmAnswer :
        (req : Request) (served : Served)
        → WarmAnswer req served
        → try_serve_warm sha256 load_meta body_opens host fused req ≡ some served
    served_of_WarmAnswer req served a =
        let kept = stored _ a.meta a.loaded in
        let fits = Asks-fits req.range a.meta.total a.start a.stop kept.total_fits a.asked in
        let head =
          a.head
          ∙ sym
              (warm_head_lem fused req.range a.start a.stop a.meta req.keep_alive fits.0 fits.1) in
        let count = a.count ∙ sym (wrap64_sub a.stop a.start fits.1 fits.0) in
        try_serve_warm_complete sha256 load_meta body_opens host fused req served (record {
          meta = a.meta;
          start = pos a.start;
          stop = pos a.stop;
          is_get = (bytes_eq_iff req.method (codes "GET")).1 a.is_get;
          is_artifact = (artifact_get_iff host host (codes "GET") req.path).1 (refl, a.is_artifact);
          loaded = a.loaded;
          nonempty = (has_spans_iff a.meta).1 a.nonempty;
          wanted = wanted_interval-asked req.range a.meta.total a.start a.stop a.asked;
          covered = (covers_iff a.meta.spans (pos a.start) (pos a.stop) kept.valid).1 a.covered;
          opens = a.opens;
          answer = served_same served _ head a.offset count;
        })

    -- A request is answered from the cache exactly when its method is GET and its path that of an
    -- artifact, the store has metadata with spans under its key, every offset of the interval that it
    -- asks for is on disk, and the object's file opens. The answer sends this interval: all of an object
    -- of known size behind a head with status 200, if there is no Range header, and else the interval
    -- of the header behind a head with status 206; the head is the one for a bufio.Writer, cut off at
    -- 512 bytes on a raw socket. No stored span ends before it starts, and a stored total is an `int64`.
    pub try_serve_warm_iff :
        (req : Request) (served : Served)
        → (try_serve_warm sha256 load_meta body_opens host fused req ≡ some served)
          ↔ WarmAnswer req served
    try_serve_warm_iff req served =
        (WarmAnswer-of_served req served, served_of_WarmAnswer req served)

    -- Every byte that a warm answer sends is on disk: if it sends the object's bytes from an offset on, in
    -- this number, each of them lies in a span of the object that the store has under the request's key.
    -- No stored span ends before it starts, and a stored total is an `int64`.
    pub served-IsCovered :
        (req : Request) (served : Served)
        → try_serve_warm sha256 load_meta body_opens host fused req ≡ some served
        → (meta : Meta) × (load_meta (warm_key sha256 load_meta body_opens host fused req)
            ≡ some meta)
          × ((x : ℤ)
              → served.offset ≤ℤ x
              → x <ℤ served.offset +ℤ served.count
              → HoldsAny x meta.spans)
    served-IsCovered req served e =
        let a = WarmAnswer-of_served req served e in
        let end : served.offset +ℤ served.count ≡ pos a.stop =
          ap (λ o. o +ℤ served.count) a.offset
          ∙ ap (λ n. pos a.start +ℤ n) a.count
          ∙ add-sub a.stop a.start in
        (
          a.meta,
          a.loaded,
          subst (λ y. IsCovered a.meta.spans served.offset y) (sym end)
              (subst (λ o. IsCovered a.meta.spans o (pos a.stop)) (sym a.offset) a.covered),
        )
