-- ===== src/Proxy/Serve/Reach.antt =====
-- Whom the handler asks, with what, and when it asks nobody.
use pulsys.Common.{
  Bool, true, false, not, ◌&&◌, [], Option, none, some, if◌then◌else◌, Bytes, codes, bytes_eq,
  to_lower, trim, All, ◌≡◌, refl, ◌⊎◌, inl, inr, ℤ,
}
use pulsys.Cache.Store.{Store}
use pulsys.Proxy.Calls.{
  UpstreamRequest, Response, Call, Claim, Outcome, upstream_request, lookup_call, cached_or,
}
use pulsys.Proxy.Forward.{relay, relay_result, ask, forward}
use pulsys.Proxy.Redirects.{unranged}
use pulsys.Proxy.Forward.Outbound.{
  IsOutbound, IsOutbound-upstream_request, IsOutbound-unranged, either_holds, Asks-cached_or,
  Asks-forward,
}
use pulsys.Proxy.Handler.{Handler, Answer}
use pulsys.Proxy.Route.{Routed, routed, bad_path, not_allowed, route_upstream}
use pulsys.Proxy.Route.Allowed.{IsRoute, by_default, by_prefix, route_upstream-IsRoute}
use pulsys.Proxy.Serve.{
  HttpRequest, call_of, reads_cache, lookup_key, serve_miss, serve_call, serve_routed, serve_http,
}

-- A request that may go upstream, to the default host or to one that the host test has passed.
abbrev pub IsPermitted : Handler → UpstreamRequest → Type 0
IsPermitted h r =
    IsOutbound h r × ((r.host ≡ to_lower (trim h.default_host)) ⊎ (h.allowf r.host ≡ true))

IsPermitted-unranged :
    (h : Handler) (r : UpstreamRequest) → IsPermitted h r → IsPermitted h (unranged r)
unfolding unranged
IsPermitted-unranged h r (safe, host) = (IsOutbound-unranged h r safe, host)

host-IsRoute :
    (h : Handler) (path host out : Bytes)
    → IsRoute h path host out
    → (host ≡ to_lower (trim h.default_host)) ⊎ (h.allowf host ≡ true)
host-IsRoute h path host out (by_default e same same_out) = inl same
host-IsRoute h path host out (by_prefix first rest e same allowed some_first some_rest same_out) =
    inr allowed

IsPermitted-host :
    (h : Handler) (req : HttpRequest) (host out : Bytes)
    → (host ≡ to_lower (trim h.default_host)) ⊎ (h.allowf host ≡ true)
    → ((upstream_request h (call_of h req host out)).host ≡ to_lower (trim h.default_host))
      ⊎ (h.allowf (upstream_request h (call_of h req host out)).host ≡ true)
unfolding upstream_request call_of
IsPermitted-host h req host out e = e

-- A test that holds.
chosen {ℓ} :
    {A : Type ℓ} (P : A → Type 0) (b : Bool) (x y : A) → b ≡ true → P x → P (if b then x else y)
chosen P true x y e px = px
chosen P false x y e px = cc

-- Nothing was asked, and the store is the one before.
record StaysPut (st : Store) (o : Outcome) : Type 0 where
  nothing_asked : o.asked ≡ []
  same_store : o.store ≡ st

StaysPut-cached_or :
    (cached : Option Answer) (st : Store) (miss : Outcome)
    → StaysPut st miss
    → StaysPut st (cached_or cached st miss)
unfolding cached_or
StaysPut-cached_or none st miss e = e
StaysPut-cached_or (some a) st miss e = record { nothing_asked = refl; same_store = refl }

-- The store is the one before.
record Keeps (st : Store) (o : Outcome) : Type 0 where
  kept : o.store ≡ st

Keeps-cached_or :
    (cached : Option Answer) (st : Store) (miss : Outcome)
    → Keeps st miss
    → Keeps st (cached_or cached st miss)
unfolding cached_or
Keeps-cached_or none st miss e = e
Keeps-cached_or (some a) st miss e = record { kept = refl }

module _ (h : Handler) (upstream : UpstreamRequest → Option Response) (body_opens : Bytes → Bool)
    (interval : ℤ) (file_opens : Bool) where
  abbrev Permits : Outcome → Type 0
  Permits o = All (IsPermitted h) o.asked

  Permits-serve_miss :
      (call : Call) (st : Store) (claim : Claim)
      → IsPermitted h (upstream_request h call)
      → Permits (serve_miss h upstream body_opens interval file_opens call st claim)
  unfolding serve_miss
  Permits-serve_miss call st claim e = either_holds Permits h.strict_offline _ _ tt (
      Asks-forward h upstream (IsPermitted h) (IsPermitted-unranged h) body_opens interval
        file_opens call claim e)

  Permits-serve_call :
      (call : Call) (st : Store) (claim : Claim)
      → IsPermitted h (upstream_request h call)
      → Permits (serve_call h upstream body_opens interval file_opens call st claim)
  unfolding serve_call
  Permits-serve_call call st claim e =
      let missed = Permits-serve_miss call st claim e in
      either_holds Permits (reads_cache h call) _ _
        (Asks-cached_or h upstream (IsPermitted h) (IsPermitted-unranged h) _ st _ missed) missed

  Permits-serve_routed :
      (req : HttpRequest) (st : Store) (claim : Claim) (path : Bytes) (to : Routed)
      → route_upstream h path ≡ to
      → Permits (serve_routed h upstream body_opens interval file_opens req st claim to)
  unfolding serve_routed
  Permits-serve_routed req st claim path bad_path e = tt
  Permits-serve_routed req st claim path not_allowed e = tt
  Permits-serve_routed req st claim path (routed host out) e =
      let call = call_of h req host out in
      let to = host-IsRoute h path host out (route_upstream-IsRoute h path host out e) in
      Permits-serve_call call st claim
        (IsOutbound-upstream_request h call, IsPermitted-host h req host out to)

  -- Whatever a request makes the handler ask, each upstream request goes to the default host or to a
  -- host that the host test has passed, and of the client's headers it has none that is a hop header
  -- or its credentials; beside them there is at most the proxy's own token, and not towards a
  -- content-addressed host. That holds of the second request for a redirect too.
  pub serve_http-IsPermitted :
      (req : HttpRequest) (st : Store) (claim : Claim)
      → All
          (IsPermitted h)
          (serve_http h upstream body_opens interval file_opens req st claim).asked
  unfolding serve_http
  serve_http-IsPermitted req st claim =
      either_holds Permits (bytes_eq req.path (codes "/healthz")) _ _ tt
        (Permits-serve_routed req st claim req.path (route_upstream h req.path) refl)

  StaysPut-serve_miss :
      (call : Call) (st : Store) (claim : Claim)
      → h.strict_offline ≡ true
      → StaysPut st (serve_miss h upstream body_opens interval file_opens call st claim)
  unfolding serve_miss
  StaysPut-serve_miss call st claim e =
      chosen (StaysPut st) h.strict_offline _ _ e
        (record { nothing_asked = refl; same_store = refl })

  StaysPut-serve_routed :
      (req : HttpRequest) (st : Store) (claim : Claim) (to : Routed)
      → h.strict_offline ≡ true
      → StaysPut st (serve_routed h upstream body_opens interval file_opens req st claim to)
  unfolding serve_routed serve_call
  StaysPut-serve_routed req st claim bad_path e = record { nothing_asked = refl; same_store = refl }
  StaysPut-serve_routed req st claim not_allowed e = record {
    nothing_asked = refl;
    same_store = refl;
  }
  StaysPut-serve_routed req st claim (routed host out) e =
      let missed = StaysPut-serve_miss (call_of h req host out) st claim e in
      either_holds (StaysPut st) (reads_cache h (call_of h req host out)) _ _
        (StaysPut-cached_or
          (lookup_call h body_opens st (call_of h req host out)
            (lookup_key h (call_of h req host out)) (bytes_eq req.method (codes "HEAD")))
          st _ missed)
        missed

  StaysPut-serve_http :
      (req : HttpRequest) (st : Store) (claim : Claim)
      → h.strict_offline ≡ true
      → StaysPut st (serve_http h upstream body_opens interval file_opens req st claim)
  unfolding serve_http
  StaysPut-serve_http req st claim e =
      either_holds (StaysPut st) (bytes_eq req.path (codes "/healthz")) _ _
        (record { nothing_asked = refl; same_store = refl })
        (StaysPut-serve_routed req st claim (route_upstream h req.path) e)

  -- A handler that is strictly offline asks the upstream nothing, whatever the request, and leaves
  -- the store as it was.
  pub serve_http_offline :
      (req : HttpRequest) (st : Store) (claim : Claim)
      → h.strict_offline ≡ true
      → ((serve_http h upstream body_opens interval file_opens req st claim).asked ≡ [])
        × ((serve_http h upstream body_opens interval file_opens req st claim).store ≡ st)
  serve_http_offline req st claim e =
      let put = StaysPut-serve_http req st claim e in (put.nothing_asked, put.same_store)

  Keeps-relay :
      (call : Call) (b : Bool) (r : UpstreamRequest) (st : Store) (o : Option Response)
      → b ≡ true
      → Keeps st (relay_result h upstream body_opens interval file_opens call b r st o)
  unfolding relay_result relay
  Keeps-relay call b r st none e = record { kept = refl }
  Keeps-relay call b r st (some resp) e = chosen (Keeps st) b _ _ e (record { kept = refl })

  Keeps-forward :
      (call : Call) (claim : Claim)
      → (call.artifact && bytes_eq call.method (codes "GET")) ≡ true
      → (h.bounded_wait && not claim.claimed) ≡ true
      → Keeps claim.store (forward h upstream body_opens interval file_opens call claim)
  unfolding forward ask
  Keeps-forward call claim wanted contended =
      chosen (Keeps claim.store) (call.artifact && bytes_eq call.method (codes "GET")) _
        (ask h upstream body_opens interval file_opens call false claim.store) wanted
        (Keeps-cached_or (lookup_call h body_opens claim.store call call.key false) claim.store _ (
          Keeps-relay call (h.bounded_wait && not claim.claimed) (upstream_request h call)
            claim.store (upstream (upstream_request h call)) contended))

  -- A GET of an artifact that did not get its interval within the bounded wait leaves the store as it
  -- was at the end of the wait, whatever the upstream answers.
  pub forward_contended :
      (call : Call) (claim : Claim)
      → call.artifact ≡ true
      → bytes_eq call.method (codes "GET") ≡ true
      → h.bounded_wait ≡ true
      → claim.claimed ≡ false
      → (forward h upstream body_opens interval file_opens call claim).store ≡ claim.store
  forward_contended call claim artifact get bounded unclaimed =
      (Keeps-forward call claim (rw (artifact, get) refl) (rw (bounded, unclaimed) refl)).kept
