-- ===== src/Oneway/Refine.antt =====
-- The one-way buffer refines a bounded queue whose younger words may be unpublished.
use smphash_table.Base.{
  ℕ, suc, ◌+◌, ◌-◌, ◌%◌, ◌^◌, ◌≤◌, ◌<◌, ◌≡◌, ◌⊎◌, inl, inr, refl, sym, ap, ◌∙◌, Bool, true, false,
  ◌||◌, List, [], ◌∷◌, ◌++◌, append_assoc, append-nil, length, length-append, set, length-set,
  arith, bit_and, bit_and_mask, Returns, leb, le→leb, lt→leb, if◌then◌else◌, dec_lt,
}
use smphash_table.Ring.{window, window-set}
use smphash_table.Oneway.{
  OnewayBuffer, oneway_buffer_size, buffer_flush_count, buffer_flush, flush_if, store_all, stored,
  buffer_write, buffer_write_all,
}

-- The buffer holds the words `q`, oldest first, and the reader sees the first `seen` of them. The
-- indices are below 2^64 - 32: none has wrapped.
pub record Holds (b : OnewayBuffer) (q : List ℕ) (seen : ℕ) : Type 0 where
  pub size : length b.data_words ≡ oneway_buffer_size
  pub fits : length q ≤ oneway_buffer_size
  pub seen_in : seen ≤ length q
  pub low : b.rd_index + 32 < 2 ^ 64
  pub wr_at : b.wr_index ≡ b.rd_index + seen
  pub tmp_at : b.tmp_wr_index ≡ b.rd_index + length q
  pub words : window oneway_buffer_size 0 b.data_words b.rd_index (length q) ≡ q

slot_mod : (x : ℕ) → bit_and (x % 2 ^ 64) 15 ≡ x % 16
slot_mod x = bit_and_mask 4 (x % 2 ^ 64) ∙ omega arith

length-store_all :
    (buf : List ℕ) (tmp i : ℕ) (ws : List ℕ) → length (store_all buf tmp i ws) ≡ length buf
unfolding store_all
length-store_all buf tmp i [] = refl
length-store_all buf tmp i (x ∷ xs) =
    length-store_all (set buf (bit_and ((tmp + i) % 2 ^ 64) 15) x) tmp (i + 1) xs
    ∙ length-set buf (bit_and ((tmp + i) % 2 ^ 64) 15) x

store_all-window :
    (buf : List ℕ) (rd n tmp i : ℕ) (ws : List ℕ)
    → length buf ≡ 16
    → n + length ws ≤ 16
    → tmp + i ≡ rd + n
    → window 16 0 (store_all buf tmp i ws) rd (n + length ws) ≡ window 16 0 buf rd n ++ ws
unfolding store_all
store_all-window buf rd n tmp i [] size room e =
    ap (window 16 0 buf rd) (omega arith) ∙ sym (append-nil _)
store_all-window buf rd n tmp i (x ∷ xs) size room e =
    let s = bit_and ((tmp + i) % 2 ^ 64) 15 in
    let at_s : s ≡ (rd + n) % 16 = slot_mod (tmp + i) ∙ ap (λ t. t % 16) e in
    let longer : n + length (x ∷ xs) ≡ suc n + length xs = omega arith in
    ap (window 16 0 (store_all (set buf s x) tmp (i + 1) xs) rd) longer
    ∙ store_all-window (set buf s x) rd (suc n) tmp (i + 1) xs (length-set buf s x ∙ size)
        (omega arith) (omega arith)
    ∙ ap (λ t. t ++ xs) (window-set 16 0 buf rd n s x (omega arith) (omega arith) at_s)
    ∙ append_assoc (window 16 0 buf rd n) (x ∷ []) xs

stored-Holds :
    {b : OnewayBuffer} {q : List ℕ} {seen : ℕ} (ws : List ℕ)
    → Holds b q seen
    → length q + length ws ≤ oneway_buffer_size
    → Holds (stored b ws) (q ++ ws) seen
stored-Holds {b} {q} ws v room =
    let longer = length-append q ws in
    record {
      size = length-store_all b.data_words b.tmp_wr_index 0 ws ∙ v.size;
      fits = omega arith;
      seen_in = omega (arith, v.seen_in);
      low = v.low;
      wr_at = v.wr_at;
      tmp_at = omega (arith, v.tmp_at, v.low);
      words =
          ap (window 16 0 (store_all b.data_words b.tmp_wr_index 0 ws) b.rd_index) longer
          ∙ store_all-window b.data_words b.rd_index (length q) b.tmp_wr_index 0 ws v.size room
              (omega (arith, v.tmp_at))
          ∙ ap (λ t. t ++ ws) v.words;
    }

-- A flush shows the reader all words.
pub buffer_flush_refines :
    {b : OnewayBuffer} {q : List ℕ} {seen : ℕ}
    → Holds b q seen
    → Holds (buffer_flush b) q (length q)
unfolding buffer_flush
buffer_flush_refines v = record {
  size = v.size;
  fits = v.fits;
  seen_in = omega arith;
  low = v.low;
  wr_at = v.tmp_at;
  tmp_at = v.tmp_at;
  words = v.words;
}

-- The words that the reader sees behind a write that leaves `n` words.
abbrev pub seen_after : Bool → ℕ → ℕ → ℕ
seen_after force n seen = if force || leb (seen + buffer_flush_count) n then n else seen

flush_if-Holds :
    {b : OnewayBuffer} {q : List ℕ} {seen : ℕ} (force : Bool)
    → Holds b q seen
    → Holds (flush_if force b) q (seen_after force (length q) seen)
flush_if-Holds true v = buffer_flush_refines v
flush_if-Holds {b} {q} {seen} false v = elim (dec_lt (length q) (seen + 8)) [
  | yes few ↦
      rw
        (
          lt→leb ((b.wr_index + 8) % 2 ^ 64) b.tmp_wr_index
              (omega (arith, v.wr_at, v.tmp_at, v.low, v.fits, v.seen_in)),
          lt→leb (seen + 8) (length q) few,
        )
        v
  | no many ↦
      rw
        (
          le→leb ((b.wr_index + 8) % 2 ^ 64) b.tmp_wr_index
              (omega (arith, v.wr_at, v.tmp_at, v.low, v.fits, v.seen_in)),
          le→leb (seen + 8) (length q) (omega arith),
        )
        (buffer_flush_refines v)
]

-- The call waits and changes nothing, or appends the words.
abbrev pub Wrote : OnewayBuffer → List ℕ → ℕ → List ℕ → Bool → Bool × OnewayBuffer → Type 0
Wrote b q seen ws force (done, b') =
    ((done ≡ false) × (oneway_buffer_size < length q + length ws) × (b' ≡ b))
    ⊎ ((done ≡ true)
        × (length q + length ws ≤ oneway_buffer_size)
        × Holds b' (q ++ ws) (seen_after force (length (q ++ ws)) seen))

-- buffer_write_all of one to sixteen words waits exactly while they do not fit, and else appends them
-- in order; they are published at once if it is forced or eight words or more are unpublished.
pub buffer_write_all_refines :
    {b : OnewayBuffer} {q : List ℕ} {seen : ℕ} (ws : List ℕ) (force : Bool)
    → Holds b q seen
    → 0 < length ws
    → length ws ≤ oneway_buffer_size
    → Returns (buffer_write_all b ws force) (Wrote b q seen ws force)
unfolding buffer_write_all
buffer_write_all_refines {b} {q} {seen} ws force v some_word small =
    let tested = le→leb (length ws) oneway_buffer_size small in
    elim (dec_lt 16 (length q + length ws)) [
      | yes over ↦ (
        (false, b),
        rw (
          tested,
          le→leb ((b.rd_index + 16) % 2 ^ 64) ((b.tmp_wr_index + length ws + (2 ^ 64 - 1)) % 2 ^ 64)
              (omega (arith, v.tmp_at, v.low, v.fits)),
        ),
        inl (refl, over, refl),
      )
      | no room ↦ (
        (true, flush_if force (stored b ws)),
        rw (
          tested,
          lt→leb ((b.rd_index + 16) % 2 ^ 64) ((b.tmp_wr_index + length ws + (2 ^ 64 - 1)) % 2 ^ 64)
              (omega (arith, v.tmp_at, v.low, v.fits)),
        ),
        inr (refl, omega arith, flush_if-Holds force (stored-Holds ws v (omega arith))),
      )
    ]

-- buffer_write is the same for one word.
pub buffer_write_refines :
    {b : OnewayBuffer} {q : List ℕ} {seen : ℕ} (x : ℕ)
    → Holds b q seen
    → Wrote b q seen (x ∷ []) false (buffer_write b x)
unfolding buffer_write
buffer_write_refines {b} {q} {seen} x v = elim (dec_lt 15 (length q)) [
  | yes full ↦
      rw
        (le→leb ((b.rd_index + 16) % 2 ^ 64) b.tmp_wr_index
          (omega (arith, v.tmp_at, v.low, v.fits)))
        (inl (refl, omega arith, refl))
  | no room ↦
      rw
        (lt→leb ((b.rd_index + 16) % 2 ^ 64) b.tmp_wr_index
          (omega (arith, v.tmp_at, v.low, v.fits)))
        (inr (refl, omega arith, flush_if-Holds false (stored-Holds (x ∷ []) v (omega arith))))
]
