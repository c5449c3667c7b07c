-- ===== src/Coreserver/Parser/Lockstep.antt =====
-- The two parsers, `readRequest` and `parseRequestFromBuf`, accept the same requests.
use mathlib.Core.Option
use mathlib.Core.Path.{subst, subst₂}
use pulsys.Common.{
  ℕ, zero, suc, ◌+◌, ◌-◌, ◌≤◌, false, List, [], ◌∷◌, ◌++◌, Option, none, some, ◌≡◌, ◌⊎◌, refl, sym,
  ap, ◌∙◌, inl, inr, ◌↔◌, arith, Bool-cases, Option-cases, All, Bytes, length, take, drop,
  take-append-drop, length-append, append_assoc, bytes_eq, bytes_eq_iff,
}
use pulsys.Coreserver.Parser.Accepts.{read_request_iff, join-append}
use pulsys.Coreserver.Parser.Clean.{NoLf}
use pulsys.Coreserver.Parser.Grammar.{
  crlf, IsPlain, parse_head, parse_block_sound, parse_block_complete,
}
use pulsys.Coreserver.Parser.Lines.{join_crlf}
use pulsys.Coreserver.Parser.{
  header_end, consumed, as_buf_result, parse_block, read_request, parse_request_from_buf,
}
use pulsys.Coreserver.Request.{Result, ok, err, Request}

abbrev crlfcrlf : Bytes
crlfcrlf = crlf ++ crlf

header_end_skip :
    (c : ℕ) (s : Bytes)
    → bytes_eq (take 4 (c ∷ s)) crlfcrlf ≡ false
    → header_end (c ∷ s) ≡ Option.map suc (header_end s)
unfolding header_end
header_end_skip c s h = rw (h, header_end) refl

-- The bytes do not begin with CRLF.
abbrev NoCrlf : Bytes → Type 0
NoCrlf s = bytes_eq (take 2 s) crlf ≡ false

NoCrlf-line : (h s : Bytes) → IsPlain h → NoCrlf (h ++ b'\r' ∷ b'\n' ∷ s)
NoCrlf-line [] s plain = absurd (plain.1 refl)
NoCrlf-line (c ∷ []) s plain = ground arith
NoCrlf-line (c ∷ d ∷ h) s plain = ground (arith, plain.0.1.0)

map_add :
    (n : ℕ) (o : Option ℕ)
    → Option.map suc (Option.map (λ k. n + k) o) ≡ Option.map (λ k. suc n + k) o
map_add n none = refl
map_add n (some k) = ap some (omega arith)

map_zero : (o : Option ℕ) → o ≡ Option.map (λ k. 0 + k) o
map_zero none = refl
map_zero (some k) = ap some (omega arith)

NoCrlf-skip : (c : ℕ) (s : Bytes) → NoCrlf (c ∷ s) → bytes_eq (take 4 (c ∷ s)) crlfcrlf ≡ false
NoCrlf-skip c [] h = ground arith
NoCrlf-skip c (d ∷ s) h = ground arith

header_end_line :
    (h s : Bytes)
    → NoLf h
    → header_end (h ++ b'\r' ∷ b'\n' ∷ s)
      ≡ Option.map (λ k. length h + k) (header_end (b'\r' ∷ b'\n' ∷ s))
header_end_line [] s plain = map_zero _
header_end_line (c ∷ h) s plain =
    let test = NoCrlf-skip c (h ++ b'\r' ∷ b'\n' ∷ s) (NoCrlf-line (c ∷ h) s (plain, λ e. cc)) in
    header_end_skip c (h ++ b'\r' ∷ b'\n' ∷ s) test
    ∙ ap (Option.map suc) (header_end_line h s plain.1)
    ∙ map_add (length h) (header_end (b'\r' ∷ b'\n' ∷ s))

header_end_crlf :
    (s : Bytes) → NoCrlf s → header_end (b'\r' ∷ b'\n' ∷ s) ≡ Option.map (λ k. 2 + k) (header_end s)
header_end_crlf s h =
    header_end_skip b'\r' (b'\n' ∷ s) h
    ∙ ap (Option.map suc) (header_end_skip b'\n' s refl ∙ ap (Option.map suc) (map_zero _))
    ∙ ap (Option.map suc) (map_add 0 (header_end s))
    ∙ map_add 1 (header_end s)

-- The end of the first header block.
header_end_join :
    (line : Bytes) (lines : List Bytes) (left : Bytes)
    → All IsPlain (line ∷ lines)
    → header_end (join_crlf (line ∷ lines) (b'\r' ∷ b'\n' ∷ left))
      ≡ some (length (join_crlf (line ∷ lines) crlf))
unfolding header_end
header_end_join line [] left plain =
    header_end_line line _ plain.0.0 ∙ ap some (sym (length-append line crlfcrlf))
header_end_join line (next ∷ lines) left plain =
    let rest = join_crlf (next ∷ lines) (b'\r' ∷ b'\n' ∷ left) in
    let here = header_end_line line rest plain.0.0 in
    let gap = header_end_crlf rest (NoCrlf-line next _ plain.1.0) in
    let later = header_end_join next lines left plain.1 in
    here
    ∙ ap (Option.map (λ k. length line + k)) (gap ∙ ap (Option.map (λ k. 2 + k)) later)
    ∙ ap some (omega (arith, length-append {0} line (crlf ++ join_crlf (next ∷ lines) crlf)))

-- The bytes in front of the first CRLFCRLF.
header_end_parts :
    (buf : Bytes) (n : ℕ)
    → header_end buf ≡ some n
    → (before : Bytes) × (after : Bytes) × (buf ≡ before ++ (crlfcrlf ++ after))
      × (n ≡ length before + 4)
unfolding header_end
header_end_parts [] n h = cc
header_end_parts (c ∷ s) n h = elim (Bool-cases (bytes_eq (take 4 (c ∷ s)) crlfcrlf)) [
  | inl e ↦ (
    [],
    drop 4 (c ∷ s),
    sym (take-append-drop 4 (c ∷ s))
        ∙ ap (λ t. t ++ drop 4 (c ∷ s)) ((bytes_eq_iff (take 4 (c ∷ s)) crlfcrlf).0 e),
    ground arith,
  )
  | inr e ↦ elim (Option-cases (header_end s)) [
    | inl f ↦ absurd (ground arith)
    | inr (m, f) ↦
        let (before, after, splits, long) = header_end_parts s m f in
        (c ∷ before, after, ap (◌∷◌ c) splits, ground arith)
  ]
]

take_append : (n : ℕ) (a b : Bytes) → n ≡ length a → take n (a ++ b) ≡ a
take_append zero [] b h = refl
take_append zero (c ∷ a) b h = absurd (omega arith)
take_append (suc n) [] b h = absurd (omega arith)
take_append (suc n) (c ∷ a) b h = ap (◌∷◌ c) (take_append n a b (omega arith))

pub length-join :
    (lines : List Bytes) (a : Bytes)
    → length (join_crlf lines a) ≡ length (join_crlf lines []) + length a
length-join [] a = omega arith
length-join (line ∷ lines) a = omega (
  arith,
  length-join lines a,
  length-append {0} line (crlf ++ join_crlf lines a),
  length-append {0} line (crlf ++ join_crlf lines []),
)

-- A request that either parser accepts, with no bound on the size of its header block.
pub record BufRead (buf : Bytes) (req : Request) (n : ℕ) : Type 0 where
  pub line : Bytes
  pub fields : List Bytes
  pub left : Bytes
  pub plain : All IsPlain (line ∷ fields)
  pub joined : buf ≡ join_crlf (line ∷ fields) (b'\r' ∷ b'\n' ∷ left)
  pub size : n ≡ length (join_crlf (line ∷ fields) crlf)
  pub parsed : parse_head line fields (join_crlf (line ∷ fields) crlf) ≡ ok req

as_buf_result-consumed :
    (n m : ℕ) (r : Result Request) (req : Request)
    → as_buf_result n r ≡ consumed req m
    → (r ≡ ok req) × (n ≡ m)
unfolding as_buf_result
as_buf_result-consumed n m (ok r) req h = ground arith
as_buf_result-consumed n m (err e) req h = cc

-- In a block that ends at the first CRLFCRLF the header loop reads every line.
no_early_end :
    (line : Bytes) (fields : List Bytes) (behind before after : Bytes)
    → All IsPlain (line ∷ fields)
    → header_end (before ++ (crlfcrlf ++ after)) ≡ some (length before + 4)
    → before ++ crlf ≡ join_crlf (line ∷ fields) behind
    → (behind ≡ []) ⊎ ((t : Bytes) × (behind ≡ b'\r' ∷ b'\n' ∷ t))
    → behind ≡ []
no_early_end line fields behind before after plain found same (inl e) = e
no_early_end line fields behind before after plain found same (inr (t, e)) =
    let head = line ∷ fields in
    let whole : before ++ (crlfcrlf ++ after)
        ≡ join_crlf head (b'\r' ∷ b'\n' ∷ (t ++ crlf ++ after)) =
      sym (append_assoc before crlf (crlf ++ after))
      ∙ ap (λ u. u ++ (crlf ++ after)) same
      ∙ join-append head behind (crlf ++ after)
      ∙ ap (λ u. join_crlf head (u ++ (crlf ++ after))) e
      ∙ ap (λ u. join_crlf head (b'\r' ∷ b'\n' ∷ u)) (sym (append_assoc t crlf after)) in
    let first = header_end_join line fields (t ++ crlf ++ after) plain in
    let sizes : length before + 4 ≡ length (join_crlf head crlf) =
      cc (sym found ∙ ap header_end whole ∙ first) in
    absurd (
      omega (
        arith,
        ap length e,
        ap length same,
        length-append {0} before crlf,
        length-join head behind,
        length-join head crlf,
      ))

buf_sound :
    (buf : Bytes) (req : Request) (n : ℕ)
    → parse_request_from_buf buf ≡ consumed req n
    → BufRead buf req n
unfolding parse_request_from_buf
buf_sound buf req n h = elim (Option-cases (header_end buf)) [
  | inl none_found ↦ cc (rw (none_found, parse_request_from_buf) at h)
  | inr (m, found) ↦
      let h' = rw (found, parse_request_from_buf) at h in
      let (parsed, size) =
        as_buf_result-consumed m n (parse_block (take (m - 2) buf) (take m buf)) req h' in
      let (before, after, splits, long) = header_end_parts buf m found in
      let hdr : take (m - 2) buf ≡ before ++ crlf =
        ap (take (m - 2)) (splits ∙ sym (append_assoc before crlf (crlf ++ after)))
        ∙ take_append (m - 2) (before ++ crlf) _ (omega (arith, length-append {0} before crlf)) in
      let b = parse_block_sound (take (m - 2) buf) (take m buf) req parsed in
      let same : before ++ crlf ≡ join_crlf (b.line ∷ b.fields) b.behind = sym hdr ∙ b.joined in
      let found' : header_end (before ++ (crlfcrlf ++ after)) ≡ some (length before + 4) =
        subst₂ (λ s k. header_end s ≡ some k) splits long found in
      let nil = no_early_end b.line b.fields b.behind before after b.plain found' same b.ended in
      let head = b.line ∷ b.fields in
      let same' : before ++ crlf ≡ join_crlf head [] = same ∙ ap (join_crlf head) nil in
      let whole : buf ≡ join_crlf head crlf ++ after =
        splits
        ∙ sym (append_assoc before crlf (crlf ++ after))
        ∙ ap (λ u. u ++ (crlf ++ after)) same'
        ∙ join-append head [] (crlf ++ after)
        ∙ sym (join-append head crlf after) in
      let total : m ≡ length (join_crlf head crlf) =
        omega (arith, ap length same', length-append {0} before crlf, length-join head crlf) in
      let raw : take m buf ≡ join_crlf head crlf =
        ap (take m) whole ∙ take_append m (join_crlf head crlf) after total in
      record {
        line = b.line;
        fields = b.fields;
        left = after;
        plain = b.plain;
        joined = whole ∙ join-append head crlf after;
        size = sym size ∙ total;
        parsed = subst (λ r. parse_head b.line b.fields r ≡ ok req) raw b.parsed;
      }
]

buf_complete :
    (buf : Bytes) (req : Request) (n : ℕ)
    → BufRead buf req n
    → parse_request_from_buf buf ≡ consumed req n
unfolding parse_request_from_buf as_buf_result
buf_complete buf req n r =
    let head = r.line ∷ r.fields in
    let raw = join_crlf head crlf in
    let found = header_end_join r.line r.fields r.left r.plain in
    let whole : raw ++ r.left ≡ buf = join-append head crlf r.left ∙ sym r.joined in
    let hdr : join_crlf head [] ++ (crlf ++ r.left) ≡ buf =
      join-append head [] (crlf ++ r.left) ∙ sym r.joined in
    let size = length-join head crlf in
    let block : take (length raw - 2) buf ≡ join_crlf head [] =
      ap (take (length raw - 2)) (sym hdr) ∙ take_append _ (join_crlf head []) _ (omega arith) in
    let taken : take (length raw) buf ≡ raw =
      ap (take (length raw)) (sym whole) ∙ take_append (length raw) raw r.left refl in
    let parsed : parse_block (join_crlf head []) raw ≡ ok req =
      parse_block_complete r.line r.fields [] raw r.plain (inl refl) ∙ r.parsed in
    let found' : header_end buf ≡ some (length raw) = ap header_end r.joined ∙ found in
    rw (found', parse_request_from_buf) (rw (block, taken, parsed) (ap (consumed req) (sym r.size)))

buf_size :
    (head : List Bytes) (buf left : Bytes)
    → buf ≡ join_crlf head (b'\r' ∷ b'\n' ∷ left)
    → length buf ≡ length (join_crlf head crlf) + length left
buf_size head buf left e =
    omega (arith, ap length e, length-join head (crlf ++ left), length-join head crlf)

-- `parseRequestFromBuf` accepts a buffer, with n bytes consumed, exactly when `readRequest` accepts
-- the same bytes with the same request and leaves all but the first n bytes, for header blocks of
-- at most 16384 bytes.
pub lockstep :
    (buf : Bytes) (req : Request) (n : ℕ)
    → n ≤ 16384
    → (parse_request_from_buf buf ≡ consumed req n)
      ↔ ((left : Bytes) × (read_request buf ≡ ok (req, left)) × (length buf ≡ n + length left))
lockstep buf req n bound = (
  λ h.
      let r = buf_sound buf req n h in
      let head = r.line ∷ r.fields in
      (
        r.left,
        (read_request_iff buf req r.left).1 (record {
          line = r.line;
          fields = r.fields;
          plain = r.plain;
          joined = r.joined;
          fits = omega (arith, r.size);
          parsed = r.parsed;
        }),
        buf_size head buf r.left r.joined ∙ ap (λ k. k + length r.left) (sym r.size),
      ),
  λ (left, h, size).
      let r = (read_request_iff buf req left).0 h in
      let head = r.line ∷ r.fields in
      buf_complete buf req n (record {
        line = r.line;
        fields = r.fields;
        left = left;
        plain = r.plain;
        joined = r.joined;
        size = omega (arith, size, buf_size head buf left r.joined);
        parsed = r.parsed;
      }),
)
