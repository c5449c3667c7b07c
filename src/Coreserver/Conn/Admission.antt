-- ===== src/Coreserver/Conn/Admission.antt =====
-- Every answer on a connection is to an admitted request, and a refusal ends the connection.
use pulsys.Common.{
  ℕ, zero, suc, ◌≤◌, ◌<◌, Bool, true, false, List, [], ◌∷◌, Option, none, some, Bytes, All, ◌≡◌,
  refl, ap, arith, inl, inr, Bool-cases, length,
}
use mathlib.Core.Option
use pulsys.Coreserver.Conn.{
  Event, refused, warm, fell_back, Server, reject_at, rejection, stay_open, after_fallback,
  fall_back, serve_request, admit, serve_parsed, serve_round, serve_conn,
}
use pulsys.Coreserver.Parser.{read_request}
use pulsys.Coreserver.Parser.Lockstep.{length-join}
use pulsys.Coreserver.Parser.Accepts.{read_request_iff}
use pulsys.Coreserver.Warm.{Served}
use pulsys.Coreserver.Request.{Request, ok, err, Result}

-- The gate lets the request pass; without a gate nothing passes if authentication is required.
abbrev pub Passes : Option (Bytes → Bytes → ℕ × Bytes) → Bool → Request → Type 0
Passes (some check) require_auth req = (check req.auth req.path).0 ≡ 0
Passes none require_auth req = require_auth ≡ false

abbrev pub IsAdmitted : Server → Request → Type 0
IsAdmitted s req = Passes s.auth_gate s.require_auth req

abbrev pub IsAllowed : Server → Event → Type 0
IsAllowed s (refused _) = Unit
IsAllowed s (warm req _) = IsAdmitted s req
IsAllowed s (fell_back req _) = IsAdmitted s req

-- Nothing follows a refusal.
abbrev pub EndsAtRefusal : List Event → Type 0
EndsAtRefusal [] = Unit
EndsAtRefusal (refused _ ∷ rest) = rest ≡ []
EndsAtRefusal (warm _ _ ∷ rest) = EndsAtRefusal rest
EndsAtRefusal (fell_back _ _ ∷ rest) = EndsAtRefusal rest

-- The fallback gives back bytes of those it was given, and no others: it leaves at most as many.
abbrev pub ReadsForward : Server → Type 0
ReadsForward s =
    (handle : Request → Bytes → Option (Bytes × Bytes))
    → s.fallback ≡ some handle
    → (req : Request) (left out left' : Bytes) → handle req left ≡ some (out, left')
    → length left' ≤ length left

Passes-reject_at :
    (gate : Option (Bytes → Bytes → ℕ × Bytes)) (require_auth : Bool) (req : Request)
    → reject_at gate require_auth req ≡ none
    → Passes gate require_auth req
unfolding reject_at
Passes-reject_at (some check) require_auth req h = ground arith
Passes-reject_at none true req h = cc
Passes-reject_at none false req h = refl

abbrev IsServed : Event → Type 0
IsServed (refused _) = ⊥
IsServed (warm _ _) = Unit
IsServed (fell_back _ _) = Unit

-- A round: its event is allowed, and if the connection stays open then it is no refusal and fewer
-- bytes are left.
record IsRound (s : Server) (size : ℕ) (round : Event × Option Bytes) : Type 0 where
  allowed : IsAllowed s round.0
  goes_on : (left : Bytes) → round.1 ≡ some left → IsServed round.0 × (length left < size)

stay_open-eq-some :
    (req : Request) (left left' : Bytes) → stay_open req left ≡ some left' → left ≡ left'
stay_open-eq-some req left left' h = elim (Bool-cases req.keep_alive) [
  | inl e ↦ ground arith
  | inr e ↦ ground arith
]

closed-IsRound :
    (s : Server) (size : ℕ) (event : Event) → IsAllowed s event → IsRound s size (event, none)
closed-IsRound s size event allowed = record { allowed = allowed; goes_on = λ left h. cc }

served-IsRound :
    (s : Server) (size : ℕ) (event : Event) (req : Request) (left : Bytes)
    → IsAllowed s event
    → IsServed event
    → length left < size
    → IsRound s size (event, stay_open req left)
served-IsRound s size event req left allowed served fits = record {
  allowed = allowed;
  goes_on = λ left' h. (served, rw⁻¹ (stay_open-eq-some req left left' h) fits);
}

IsRound-after_fallback :
    (s : Server) (size : ℕ) (req : Request) (answer : Option (Bytes × Bytes))
    → IsAdmitted s req
    → ((out left : Bytes) → answer ≡ some (out, left) → length left < size)
    → IsRound s size (after_fallback req answer)
unfolding after_fallback
IsRound-after_fallback s size req none admitted fits =
    closed-IsRound s size (fell_back req none) admitted
IsRound-after_fallback s size req (some (out, left)) admitted fits =
    served-IsRound s size (fell_back req (some out)) req left admitted tt (fits out left refl)

IsRound-fall_back :
    (s : Server) (size : ℕ) (fallback : Option (Request → Bytes → Option (Bytes × Bytes)))
    (req : Request) (left : Bytes)
    → IsAdmitted s req
    → ((handle : Request → Bytes → Option (Bytes × Bytes)) (out left' : Bytes)
        → fallback ≡ some handle
        → handle req left ≡ some (out, left')
        → length left' < size)
    → IsRound s size (fall_back fallback req left)
unfolding fall_back
IsRound-fall_back s size none req left admitted fits = closed-IsRound s size _ tt
IsRound-fall_back s size (some handle) req left admitted fits =
    IsRound-after_fallback s size req (handle req left) admitted
      (λ out left' h. fits handle out left' refl h)

IsRound-serve_request :
    (s : Server) (size : ℕ) (found : Option Served) (req : Request) (left : Bytes)
    → ReadsForward s
    → IsAdmitted s req
    → length left < size
    → IsRound s size (serve_request found s.fallback req left)
unfolding serve_request
IsRound-serve_request s size (some served) req left forward admitted fits =
    served-IsRound s size (warm req served) req left admitted tt fits
IsRound-serve_request s size none req left forward admitted fits =
    IsRound-fall_back s size s.fallback req left admitted
      (λ handle out left' e h. let kept = forward handle e req left out left' h in omega arith)

IsRound-admit :
    (s : Server) (size : ℕ) (reject : Option Bytes) (req : Request) (left : Bytes)
    → ReadsForward s
    → (reject ≡ none → IsAdmitted s req)
    → length left < size
    → IsRound s size (admit reject s req left)
unfolding admit
IsRound-admit s size (some response) req left forward admitted fits =
    closed-IsRound s size (refused response) tt
IsRound-admit s size none req left forward admitted fits =
    IsRound-serve_request s size (s.try_warm req) req left forward (admitted refl) fits

IsRound-serve_parsed :
    (s : Server) (size : ℕ) (parsed : Result (Request × Bytes))
    → ReadsForward s
    → ((req : Request) (left : Bytes) → parsed ≡ ok (req, left) → length left < size)
    → IsRound s size (serve_parsed s parsed)
unfolding serve_parsed rejection
IsRound-serve_parsed s size (err e) forward fits = closed-IsRound s size _ tt
IsRound-serve_parsed s size (ok (req, left)) forward fits =
    IsRound-admit s size (reject_at s.auth_gate s.require_auth req) req left forward
      (Passes-reject_at s.auth_gate s.require_auth req) (fits req left refl)

-- An accepted request takes at least one byte.
read_request-length :
    (stream : Bytes) (req : Request) (left : Bytes)
    → read_request stream ≡ ok (req, left)
    → length left < length stream
read_request-length stream req left h =
    let r = (read_request_iff stream req left).0 h in
    let size = length-join (r.line ∷ r.fields) (b'\r' ∷ b'\n' ∷ left) in
    rw r.joined (omega (arith, size))

IsRound-serve_round :
    (s : Server) (stream : Bytes)
    → ReadsForward s
    → IsRound s (length stream) (serve_round s stream)
unfolding serve_round
IsRound-serve_round s stream forward =
    IsRound-serve_parsed s (length stream) (read_request stream) forward
      (read_request-length stream)

-- What the loop returns: it comes to an end, its answers are to admitted requests, and nothing
-- follows a refusal.
pub record IsGoodRun (s : Server) (run : Option (List Event)) : Type 0 where
  pub events : List Event
  pub ends : run ≡ some events
  pub allowed : All (IsAllowed s) events
  pub last_refused : EndsAtRefusal events

EndsAtRefusal-cons :
    (event : Event) (events : List Event)
    → IsServed event
    → EndsAtRefusal events
    → EndsAtRefusal (event ∷ events)
EndsAtRefusal-cons (refused _) events served h = absurd served
EndsAtRefusal-cons (warm _ _) events served h = h
EndsAtRefusal-cons (fell_back _ _) events served h = h

EndsAtRefusal-one : (event : Event) → EndsAtRefusal (event ∷ [])
EndsAtRefusal-one (refused _) = refl
EndsAtRefusal-one (warm _ _) = tt
EndsAtRefusal-one (fell_back _ _) = tt

module _ (s : Server) (forward : ReadsForward s) where
  one_round :
      (round : Event × Option Bytes) (size : ℕ)
      → IsRound s size round
      → (next : Bytes → Option (List Event))
      → ((left : Bytes) → length left < size → IsGoodRun s (next left))
      → IsGoodRun s (elim round.1 [
        | none ↦ some (round.0 ∷ [])
        | some left ↦ Option.map (◌∷◌ round.0) (next left)
      ])
  one_round (event, none) size round next later = record {
    events = event ∷ [];
    ends = refl;
    allowed = (round.allowed, tt);
    last_refused = EndsAtRefusal-one event;
  }
  one_round (event, some left) size round next later =
      let (served, fits) = round.goes_on left refl in
      let rest = later left fits in
      record {
        events = event ∷ rest.events;
        ends = ap (Option.map (◌∷◌ event)) rest.ends;
        allowed = (round.allowed, rest.allowed);
        last_refused = EndsAtRefusal-cons event rest.events served rest.last_refused;
      }

  -- On any bytes the loop comes to an end, in at most one round more than there are bytes; every
  -- answer, from the cache or from the fallback, is to a request that the gate lets pass (with no gate
  -- and `RequireAuth` set there is none); and nothing follows a refusal. The condition is that the
  -- fallback leaves at most as many bytes as it was given.
  pub serve_conn-IsGoodRun :
      (fuel : ℕ) (stream : Bytes) → length stream < fuel → IsGoodRun s (serve_conn fuel s stream)
  unfolding serve_conn
  serve_conn-IsGoodRun zero stream h = absurd (omega arith)
  serve_conn-IsGoodRun (suc fuel) [] h = record {
    events = [];
    ends = refl;
    allowed = tt;
    last_refused = tt;
  }
  serve_conn-IsGoodRun (suc fuel) (c ∷ stream) h =
      one_round (serve_round s (c ∷ stream)) (length (c ∷ stream))
        (IsRound-serve_round s (c ∷ stream) forward) (serve_conn fuel s)
        (λ left fits. serve_conn-IsGoodRun fuel left (omega arith))
