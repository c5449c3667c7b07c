-- ===== src/Cache/Writer/Written.antt =====
-- The quota that a writer holds while it writes.
use pulsys.Common.{
  ℕ, ◌+◌, ◌-◌, ◌<◌, two63, Bool, true, false, List, [], ◌∷◌, Option, none, some, ◌≡◌, ◌==◌, refl,
  ap, sym, ◌∙◌, arith, ℤ, pos, ◌+ℤ◌, ltbℤ, lebℤ, ltb, leb, ◌&&◌, if◌then◌else◌, wrap64,
  wrap64_small, add-pos, Bool-cases, inl, inr, guard-eq-some, some_injective, ◌||◌,
}
use pulsys.Cache.Quota.{Counters, reserve_quota}
use pulsys.Cache.Segment.{checkpoint_meta, commit_meta}
use pulsys.Cache.Store.{Store, lookup_object}
use pulsys.Cache.Writer.{
  SegmentWriter, Writing, Chunk, release_reserved, publish, give_back, count_bytes, is_due,
  checkpoint, write_reserved, write_granted, write, tee_copy, commit,
}
use pulsys.Cache.Writer.Reserved.{Holding, Holding-publish, Holding-release_reserved, Holding-same}

Holding-checkpoint :
    (cl : Bool) (others bound : ℕ) (st : Store) (w : SegmentWriter)
    → others + bound < two63
    → Holding cl others bound (st, w)
    → Holding cl others bound (checkpoint (st, w))
unfolding checkpoint
Holding-checkpoint cl others bound st w fits h =
    elim (Bool-cases (lebℤ w.written w.last_checkpoint && lebℤ w.last_checkpoint w.written)) [
      | inl e ↦ rw e h
      | inr e ↦
          let m = checkpoint_meta (lookup_object w.key st.objects) w.params w.written in
          rw e (
            Holding-same cl others bound (publish (st, w) m).0 (publish (st, w) m).0
              (publish (st, w) m).1 _ refl refl refl refl
              (Holding-publish cl others bound m st w fits h))
    ]

pub Holding-commit :
    (cl : Bool) (others bound : ℕ) (st : Store) (w : SegmentWriter)
    → others + bound < two63
    → Holding cl others bound (st, w)
    → Holding cl others bound (commit (st, w))
unfolding commit
Holding-commit cl others bound st w fits h =
    Holding-publish cl others bound
      (commit_meta (lookup_object w.key st.objects) w.params w.written) st w fits h

Holding-either :
    (cl : Bool) (others bound : ℕ) (b : Bool) (s t : Writing)
    → Holding cl others bound s
    → Holding cl others bound t
    → Holding cl others bound (if b then s else t)
Holding-either cl others bound true s t hs ht = hs
Holding-either cl others bound false s t hs ht = ht

Holding-give_back :
    (cl : Bool) (others bound : ℕ) (ch : Chunk) (s : Writing)
    → others + bound < two63
    → Holding cl others bound s
    → Holding cl others bound (give_back s ch)
unfolding give_back
Holding-give_back cl others bound ch (st, w) fits h =
    Holding-either cl others bound (w.dynamic_quota && ltb ch.took ch.size)
      (release_reserved (st, w) (pos (ch.size - ch.took))) (st, w)
      (Holding-release_reserved cl others bound (pos (ch.size - ch.took)) st w fits h) h

Holding-count_bytes :
    (cl : Bool) (others bound n : ℕ) (s : Writing)
    → Holding cl others bound s
    → Holding cl others bound (count_bytes s n)
unfolding count_bytes
Holding-count_bytes cl others bound n (st, w) h =
    Holding-same cl others bound st st w (count_bytes (st, w) n).1 refl refl refl refl h

Holding-write_reserved :
    (cl : Bool) (others bound : ℕ) (interval : ℤ) (ch : Chunk) (s : Writing)
    → others + bound < two63
    → Holding cl others bound s
    → Holding cl others bound (write_reserved interval s ch).0
unfolding write_reserved
Holding-write_reserved cl others bound interval ch s fits h =
    let counted = count_bytes (give_back s ch) ch.took in
    let held =
      Holding-count_bytes cl others bound ch.took (give_back s ch)
        (Holding-give_back cl others bound ch s fits h) in
    Holding-either cl others bound (leb ch.size ch.took && is_due interval counted.1)
      (checkpoint counted) counted
      (Holding-checkpoint cl others bound counted.0 counted.1 fits held) held

pub reserve_quota-reserved :
    (c c' : Counters) (k : ℕ)
    → 0 < k
    → ltbℤ (pos 0) c.max_bytes ≡ true
    → reserve_quota c (pos k) ≡ some c'
    → (c'.reserved_bytes ≡ wrap64 (c.reserved_bytes +ℤ pos k)) × (c'.max_bytes ≡ c.max_bytes)
unfolding reserve_quota
reserve_quota-reserved c c' k some_bytes limited h =
    let on : (lebℤ c.max_bytes (pos 0) || lebℤ (pos k) (pos 0)) ≡ false = ground arith in
    let h1 : (if lebℤ c.max_bytes c.used_bytes
            || ltbℤ c.max_bytes (wrap64 (wrap64 (c.used_bytes +ℤ c.reserved_bytes) +ℤ pos k))
          then none
          else some (record c { reserved_bytes = wrap64 (c.reserved_bytes +ℤ pos k) }))
        ≡ some c' =
      rw (on, reserve_quota) at h in
    let (room, same) = guard-eq-some _ _ h1 in
    let result =
      some_injective (record c { reserved_bytes = wrap64 (c.reserved_bytes +ℤ pos k) }) c' same in
    (sym (ap (λ d. d.reserved_bytes) result), sym (ap (λ d. d.max_bytes) result))

Holding-widen :
    (cl : Bool) (others bound k : ℕ) (s : Writing)
    → Holding cl others bound s
    → Holding cl others (bound + k) s
Holding-widen cl others bound k s h = record {
  own = h.own;
  is_total = h.is_total;
  is_own = h.is_own;
  is_bounded = omega (arith, h.is_bounded);
  is_limited = h.is_limited;
  is_state = h.is_state;
}

-- A chunk's reservation is the writer's.
Holding-reserve :
    (cl : Bool) (others bound k : ℕ) (c : Counters) (st : Store) (w : SegmentWriter)
    → others + (bound + k) < two63
    → 0 < k
    → reserve_quota st.counters (pos k) ≡ some c
    → Holding cl others bound (st, w)
    → Holding cl others
        (bound + k)
        (record st { counters = c }, record w { reserved = wrap64 (w.reserved +ℤ pos k) })
Holding-reserve cl others bound k c st w fits some_bytes e h =
    let (total, limit) = reserve_quota-reserved st.counters c k some_bytes h.is_limited e in
    let sum = others + h.own + k in
    let added : wrap64 (pos (others + h.own) +ℤ pos k) ≡ pos (others + (h.own + k)) =
      ap wrap64 (add-pos (others + h.own) k)
      ∙ wrap64_small (others + h.own + k) (omega (arith, h.is_bounded))
      ∙ ap pos (omega arith) in
    let mine : wrap64 (pos h.own +ℤ pos k) ≡ pos (h.own + k) =
      ap wrap64 (add-pos h.own k) ∙ wrap64_small (h.own + k) (omega (arith, h.is_bounded)) in
    record {
      own = h.own + k;
      is_total = total ∙ rw h.is_total added;
      is_own = rw h.is_own mine;
      is_bounded = omega (arith, h.is_bounded);
      is_limited = rw limit h.is_limited;
      is_state = h.is_state;
    }

Holding-write_granted :
    (cl : Bool) (others bound : ℕ) (interval : ℤ) (ch : Chunk) (st : Store) (w : SegmentWriter)
    (o : Option Counters)
    → others + (bound + ch.size) < two63
    → 0 < ch.size
    → reserve_quota st.counters (pos ch.size) ≡ o
    → Holding cl others bound (st, w)
    → Holding cl others (bound + ch.size) (write_granted interval (st, w) ch o).0
unfolding write_granted
Holding-write_granted cl others bound interval ch st w none fits some_bytes e h =
    Holding-widen cl others bound ch.size (st, w) h
Holding-write_granted cl others bound interval ch st w (some c) fits some_bytes e h =
    Holding-write_reserved cl others (bound + ch.size) interval ch _ fits
      (Holding-reserve cl others bound ch.size c st w fits some_bytes e h)

Holding-first :
    {B : Type 0} (cl : Bool) (others bound : ℕ) (b : Bool) (s t : Writing × B)
    → (b ≡ true → Holding cl others bound s.0)
    → (b ≡ false → Holding cl others bound t.0)
    → Holding cl others bound (if b then s else t).0
Holding-first cl others bound true s t hs ht = hs refl
Holding-first cl others bound false s t hs ht = ht refl

-- A write adds at most the chunk's size to what the writer holds.
pub Holding-write :
    (cl : Bool) (others bound : ℕ) (interval : ℤ) (ch : Chunk) (s : Writing)
    → others + (bound + ch.size) < two63
    → Holding cl others bound s
    → Holding cl others (bound + ch.size) (write interval s ch).0
unfolding write
Holding-write cl others bound interval ch (st, w) fits h =
    let more = Holding-widen cl others bound ch.size (st, w) h in
    let granted = write_granted interval (st, w) ch (reserve_quota st.counters (pos ch.size)) in
    let plain = write_reserved interval (st, w) ch in
    Holding-first cl others (bound + ch.size) (ch.size == 0) ((st, w), true)
      (if w.dynamic_quota then granted else plain) (λ e. more)
      (λ e.
        Holding-first cl others (bound + ch.size) w.dynamic_quota granted plain
          (λ f.
            Holding-write_granted cl others bound interval ch st w
              (reserve_quota st.counters (pos ch.size)) fits (ground arith) refl h)
          (λ f. Holding-write_reserved cl others (bound + ch.size) interval ch (st, w) fits more))

-- The sizes of the chunks.
abbrev pub total_size : List Chunk → ℕ
total_size [] = 0
total_size (ch ∷ chunks) = ch.size + total_size chunks

pub Holding-tee_copy :
    (interval : ℤ) (chunks : List Chunk) (cl : Bool) (others bound : ℕ) (s : Writing)
    → others + (bound + total_size chunks) < two63
    → Holding cl others bound s
    → Holding cl others (bound + total_size chunks) (tee_copy interval s chunks).0
unfolding tee_copy
Holding-tee_copy interval [] cl others bound s fits h = Holding-widen cl others bound 0 s h
Holding-tee_copy interval (ch ∷ chunks) cl others bound s fits h =
    let after = write interval s ch in
    let one = Holding-write cl others bound interval ch s (omega arith) h in
    let here = Holding-widen cl others (bound + ch.size) (total_size chunks) after.0 one in
    let there =
      Holding-tee_copy interval chunks cl others (bound + ch.size) after.0 (omega arith) one in
    let same : bound + ch.size + total_size chunks ≡ bound + (ch.size + total_size chunks) =
      omega arith in
    rw (← same) (
      Holding-first cl others (bound + ch.size + total_size chunks) after.1
        ((tee_copy interval after.0 chunks).0, ch.size + (tee_copy interval after.0 chunks).1)
        (after.0, ch.size) (λ e. there) (λ e. here))
