-- ===== src/Coreserver/Parser/Lines.antt =====
-- How the parser cuts a byte string into lines, and what `readRequest` takes off the connection.

use pulsys.Common.{
  ℕ, ◌+◌, ◌≤◌, true, false, ◌&&◌, List, [], ◌∷◌, ◌++◌, ◌≡◌, refl, ap, ◌∙◌, ◌⊎◌, inl, inr, arith,
  ltb, ◌==◌, Bool-cases, Bytes, length, length-append, append_assoc,
}
use pulsys.Coreserver.Parser.{
  push_byte, lf_lines, crlf_lines, concat_lines, is_terminator, read_block,
}
use pulsys.Coreserver.Request.{ok, >>=-eq-ok}

-- The lines, each with its CRLF put back, and the bytes behind them.
abbrev pub join_crlf : List Bytes → Bytes → Bytes
join_crlf [] rest = rest
join_crlf (line ∷ lines) rest = line ++ (b'\r' ∷ b'\n' ∷ join_crlf lines rest)

concat-push_byte :
    (c : ℕ) (r : List Bytes × Bytes)
    → concat_lines (push_byte c r).0 (push_byte c r).1 ≡ c ∷ concat_lines r.0 r.1
unfolding push_byte concat_lines
concat-push_byte c ([], rest) = refl
concat-push_byte c (line ∷ lines, rest) = refl

join-push_byte :
    (c : ℕ) (r : List Bytes × Bytes)
    → join_crlf (push_byte c r).0 (push_byte c r).1 ≡ c ∷ join_crlf r.0 r.1
unfolding push_byte
join-push_byte c ([], rest) = refl
join-push_byte c (line ∷ lines, rest) = refl

pub crlf_lines_push :
    (c d : ℕ) (s : Bytes)
    → (c == b'\r' && d == b'\n') ≡ false
    → crlf_lines (c ∷ d ∷ s) ≡ push_byte c (crlf_lines (d ∷ s))
unfolding crlf_lines
crlf_lines_push c d s h = rw (h, crlf_lines)

pub crlf_lines_cut :
    (s : Bytes) → crlf_lines (b'\r' ∷ b'\n' ∷ s) ≡ ([] ∷ (crlf_lines s).0, (crlf_lines s).1)
unfolding crlf_lines
crlf_lines_cut s = refl

pub lf_lines_concat : (s : Bytes) → concat_lines (lf_lines s).0 (lf_lines s).1 ≡ s
unfolding lf_lines concat_lines
lf_lines_concat [] = refl
lf_lines_concat (c ∷ s) = elim (Bool-cases (c == b'\n')) [
  | inl e ↦ rw e (ap (◌∷◌ c) (lf_lines_concat s))
  | inr e ↦ rw e (concat-push_byte c (lf_lines s) ∙ ap (◌∷◌ c) (lf_lines_concat s))
]

pub crlf_lines_join : (s : Bytes) → join_crlf (crlf_lines s).0 (crlf_lines s).1 ≡ s
unfolding crlf_lines
crlf_lines_join [] = refl
crlf_lines_join (c ∷ []) = refl
crlf_lines_join (c ∷ d ∷ s) = elim (Bool-cases (c == b'\r' && d == b'\n')) [
  | inl e ↦ rw (e, crlf_lines) (ground (arith, crlf_lines_join s))
  | inr e ↦
      rw (e, crlf_lines)
        (join-push_byte c (crlf_lines (d ∷ s)) ∙ ap (◌∷◌ c) (crlf_lines_join (d ∷ s)))
]

-- A round of the first loop that ends well: the line fits, and it ends the block or the next round
-- reads the rest of it.
pub read_block_round :
    (n : ℕ) (line : Bytes) (lines : List Bytes) (rest block : Bytes) (left : List Bytes)
    → read_block n (line ∷ lines) rest ≡ ok (block, left)
    → (n + length line ≤ 16384)
      × (((is_terminator line ≡ true) × (block ≡ line) × (left ≡ lines))
          ⊎ ((is_terminator line ≡ false)
              × (more : Bytes) × (read_block (n + length line) lines rest ≡ ok (more, left))
              × (block ≡ line ++ more)))
unfolding read_block
read_block_round n line lines rest block left h = elim (Bool-cases (ltb 16384 (length line))) [
  | inl e ↦ cc (rw e at h)
  | inr e ↦ elim (Bool-cases (ltb 16384 (n + length line))) [
    | inl f ↦ cc (rw (e, f) at h)
    | inr f ↦ (
      ground arith,
      elim (Bool-cases (is_terminator line)) [
        | inl g ↦ let h' = rw (e, f, g) at h in inl (g, ground arith, ground arith)
        | inr g ↦
            let h' = rw (e, f, g) at h in
            let (more, run, same) = >>=-eq-ok (read_block (n + length line) lines rest) _ h' in
            inr (g, more.0, run ∙ ground arith, ground arith)
      ],
    )
  ]
]

-- The block and what is left of the lines make up the lines; the block fits into the scratch buffer.
pub read_block_splits :
    (n : ℕ) (lines : List Bytes) (rest block : Bytes) (left : List Bytes)
    → read_block n lines rest ≡ ok (block, left)
    → (block ++ concat_lines left rest ≡ concat_lines lines rest) × (n + length block ≤ 16384)
unfolding read_block concat_lines
read_block_splits n [] rest block left h = cc
read_block_splits n (line ∷ lines) rest block left h =
    let (fits, how) = read_block_round n line lines rest block left h in
    elim how [
      | inl (_, whole, same) ↦ rw (whole, same) (refl, omega arith)
      | inr (_, more, run, whole) ↦
          let (joined, bound) = read_block_splits (n + length line) lines rest more left run in
          rw whole (
            append_assoc line more (concat_lines left rest) ∙ ap (λ t. line ++ t) joined,
            omega (arith, length-append {0} line more),
          )
    ]
