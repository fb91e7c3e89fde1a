-- ===== src/Outbuf/Refine.antt =====
-- The output buffer refines a bounded queue of words.
use smphash_table.Base.{
  ℕ, suc, ◌+◌, ◌-◌, ◌%◌, ◌^◌, ◌≤◌, ◌<◌, ◌≡◌, ◌≢◌, refl, sym, ap, ◌∙◌, ◌⊎◌, Option, none, some, List,
  [], ◌∷◌, ◌++◌, append_assoc, append-nil, length, length-append, set, length-set, get_or, concat,
  arith, bit_and, bit_and_mask, ok, Returns, ◌==◌, Bool-cases, inl, inr, ==→ne, true, false, le→leb,
}
use smphash_table.Ring.{window, window_congr, window-set, window-cons}
use smphash_table.Outbuf.{
  OutputBuffer, zeroed_outb, outb_size, written, store_words, outb_write, refresh, outb_read,
  outb_blocking_read,
}

-- The buffer holds the words `q`, oldest first.
pub record HoldsWords (b : OutputBuffer) (q : List ℕ) : Type 0 where
  pub size : length b.data_words ≡ outb_size
  pub fits : length q ≤ outb_size
  pub rd_in : b.local_rd_index < 2 ^ 64
  pub wr_at : b.wr_index ≡ (b.local_rd_index + length q) % 2 ^ 64
  pub copied : ℕ
  pub copied_in : copied ≤ length q
  pub copy_at : b.local_wr_index ≡ (b.local_rd_index + copied) % 2 ^ 64
  pub words : window outb_size 0 b.data_words b.local_rd_index (length q) ≡ q

pub zeroed-HoldsWords : HoldsWords zeroed_outb []
zeroed-HoldsWords = record {
  size = refl;
  fits = omega arith;
  rd_in = omega arith;
  wr_at = refl;
  copied = 0;
  copied_in = omega arith;
  copy_at = refl;
  words = refl;
}

slot_mod : (x : ℕ) → bit_and (x % 2 ^ 64) 63 ≡ x % 64
slot_mod x = bit_and_mask 6 (x % 2 ^ 64) ∙ omega arith

length-store_words :
    (buf : List ℕ) (wr i : ℕ) (ws : List ℕ) → length (store_words buf wr i ws) ≡ length buf
unfolding store_words
length-store_words buf wr i [] = refl
length-store_words buf wr i (x ∷ xs) =
    length-store_words (set buf (bit_and ((wr + i) % 2 ^ 64) 63) x) wr (i + 1) xs
    ∙ length-set buf (bit_and ((wr + i) % 2 ^ 64) 63) x

store_words-window :
    (buf : List ℕ) (rd n wr i : ℕ) (ws : List ℕ)
    → length buf ≡ 64
    → n + length ws ≤ 64
    → (wr + i) % 2 ^ 64 ≡ (rd + n) % 2 ^ 64
    → window 64 0 (store_words buf wr i ws) rd (n + length ws) ≡ window 64 0 buf rd n ++ ws
unfolding store_words
store_words-window buf rd n wr i [] size room at =
    ap (λ k. window 64 0 buf rd k) (omega arith) ∙ sym (append-nil _)
store_words-window buf rd n wr i (x ∷ xs) size room at =
    let s = bit_and ((wr + i) % 2 ^ 64) 63 in
    let e : s ≡ (rd + n) % 64 = slot_mod (wr + i) ∙ omega arith in
    let rest =
      store_words-window (set buf s x) rd (suc n) wr (i + 1) xs (length-set buf s x ∙ size)
        (omega arith) (omega arith) in
    ap (λ k. window 64 0 (store_words (set buf s x) wr (i + 1) xs) rd k) (omega arith)
    ∙ rest
    ∙ ap (λ t. t ++ xs) (window-set 64 0 buf rd n s x (omega arith) (omega arith) e)
    ∙ append_assoc (window 64 0 buf rd n) (x ∷ []) xs

-- Words that fit are appended in order, and the assertion of `outb_write` holds.
pub outb_write_refines :
    {b : OutputBuffer} {q : List ℕ} (ws : List ℕ)
    → HoldsWords b q
    → length q + length ws ≤ outb_size
    → Returns (outb_write b ws) (λ b'. HoldsWords b' (q ++ ws))
unfolding outb_write
outb_write_refines {b} {q} ws v room = (
  written b ws,
  rw (le→leb (length ws) outb_size (omega arith)),
  record {
    size = length-store_words b.data_words b.wr_index 0 ws ∙ v.size;
    fits = omega (arith, length-append q ws);
    rd_in = v.rd_in;
    wr_at = omega (arith, length-append q ws, v.wr_at);
    copied = v.copied;
    copied_in = omega (arith, length-append q ws, v.copied_in);
    copy_at = v.copy_at;
    words =
        ap (λ k. window 64 0 (store_words b.data_words b.wr_index 0 ws) b.local_rd_index k)
          (length-append q ws)
        ∙ store_words-window b.data_words b.local_rd_index (length q) b.wr_index 0 ws v.size room
            (omega (arith, v.wr_at))
        ∙ ap (λ t. t ++ ws) v.words;
  },
)

-- What a read returns, and what it leaves, by the queue.
abbrev pub Reads : List ℕ → Option ℕ × OutputBuffer → Type 0
Reads [] r = (r.0 ≡ none) × HoldsWords r.1 []
Reads (x ∷ q) r = (r.0 ≡ some x) × HoldsWords r.1 q

refresh-HoldsWords : {b : OutputBuffer} {q : List ℕ} → HoldsWords b q → HoldsWords (refresh b) q
unfolding refresh
refresh-HoldsWords {b} {q} v = elim (Bool-cases (b.local_rd_index == b.local_wr_index)) [
  | inl e ↦ rw e record {
    size = v.size;
    fits = v.fits;
    rd_in = v.rd_in;
    wr_at = v.wr_at;
    copied = length q;
    copied_in = omega arith;
    copy_at = v.wr_at;
    words = v.words;
  }
  | inr e ↦ rw e v
]

-- After the refresh the copy is used up exactly when no word is left.
refresh_empty :
    {b : OutputBuffer}
    → HoldsWords b []
    → ((refresh b).local_rd_index == (refresh b).local_wr_index) ≡ true
unfolding refresh
refresh_empty {b} v = ground (arith, v.rd_in, v.wr_at, v.copied_in, v.copy_at)

refresh_full :
    {b : OutputBuffer} {x : ℕ} {q : List ℕ}
    → HoldsWords b (x ∷ q)
    → ((refresh b).local_rd_index == (refresh b).local_wr_index) ≡ false
unfolding refresh
refresh_full {b} v = ground (arith, v.fits, v.rd_in, v.wr_at, v.copied_in, v.copy_at)

advance : OutputBuffer → OutputBuffer
advance c = record c { local_rd_index = (c.local_rd_index + 1) % 2 ^ 64 }

advance-HoldsWords :
    {c : OutputBuffer} {x : ℕ} {q : List ℕ}
    → HoldsWords c (x ∷ q)
    → (c.local_rd_index == c.local_wr_index) ≡ false
    → (get_or c.data_words (bit_and c.local_rd_index 63) 0 ≡ x) × HoldsWords (advance c) q
unfolding advance
advance-HoldsWords {c} {x} {q} v ne =
    let (head, rest) = window-cons 64 0 c.data_words c.local_rd_index (length q) v.words in
    let one : v.copied ≢ 0 = λ z. ==→ne _ _ ne (omega (arith, v.rd_in, v.copy_at)) in
    (
      ap (λ i. get_or c.data_words i 0) (bit_and_mask 6 c.local_rd_index) ∙ head,
      record {
        size = v.size;
        fits = omega (arith, v.fits);
        rd_in = omega arith;
        wr_at = omega (arith, v.wr_at);
        copied = v.copied - 1;
        copied_in = omega (arith, v.copied_in);
        copy_at = omega (arith, v.copy_at);
        words =
            window_congr 64 0 c.data_words ((c.local_rd_index + 1) % 2 ^ 64) (suc c.local_rd_index)
              (length q) (omega arith) (omega arith)
            ∙ rest;
      },
    )

-- A read returns the oldest word and drops it, or finds the buffer empty and changes no word.
pub outb_read_refines : {b : OutputBuffer} {q : List ℕ} → HoldsWords b q → Reads q (outb_read b)
unfolding outb_read
outb_read_refines {b} {q = []} v = rw (refresh_empty v) (refl, refresh-HoldsWords v)
outb_read_refines {b} {q = x ∷ q} v =
    let (head, rest) = advance-HoldsWords (refresh-HoldsWords v) (refresh_full v) in
    rw (refresh_full v) (ap some head, unfold advance in rest)

-- What a blocking read returns where the batches `env` are still to come: the first word of all,
-- and the words that are left, in the buffer and in the batches left.
pub record Blocks (x : ℕ) (rest : List ℕ) (r : ℕ × OutputBuffer × List (List ℕ)) : Type 0 where
  pub word : r.0 ≡ x
  pub left : List ℕ
  pub buffered : HoldsWords r.1 left
  pub remaining : left ++ concat r.2 ≡ rest

pub outb_read_cases :
    {b : OutputBuffer} {q : List ℕ}
    → HoldsWords b q
    → ((c : OutputBuffer) × (outb_read b ≡ (none, c)) × (q ≡ []) × HoldsWords c [])
      ⊎ ((x : ℕ) × (c : OutputBuffer) × (t : List ℕ) × (outb_read b ≡ (some x, c))
          × (q ≡ x ∷ t)
          × HoldsWords c t)
outb_read_cases {b} {q = []} v =
    let (e, h) = outb_read_refines v in
    inl ((outb_read b).1, (λ i. (e i, (outb_read b).1)), refl, h)
outb_read_cases {b} {q = x ∷ q} v =
    let (e, h) = outb_read_refines v in
    inr (x, (outb_read b).1, q, (λ i. (e i, (outb_read b).1)), refl, h)

abbrev pub polled : OutputBuffer → OutputBuffer
polled c = record c { local_waitcnt = (c.local_waitcnt + 1) % 2 ^ 64 }

pub polled-HoldsWords : {c : OutputBuffer} {q : List ℕ} → HoldsWords c q → HoldsWords (polled c) q
polled-HoldsWords v = record {
  size = v.size;
  fits = v.fits;
  rd_in = v.rd_in;
  wr_at = v.wr_at;
  copied = v.copied;
  copied_in = v.copied_in;
  copy_at = v.copy_at;
  words = v.words;
}

blocking_now :
    (env : List (List ℕ)) (b : OutputBuffer) {x : ℕ} {c : OutputBuffer}
    → outb_read b ≡ (some x, c)
    → outb_blocking_read env b ≡ ok (x, c, env)
unfolding outb_blocking_read
blocking_now [] b e = ground arith
blocking_now (ws ∷ env) b e = ground arith

blocking_later :
    (ws : List ℕ) (env : List (List ℕ)) (b : OutputBuffer) {c d : OutputBuffer}
    → outb_read b ≡ (none, c)
    → outb_write (polled c) ws ≡ ok d
    → outb_blocking_read (ws ∷ env) b ≡ outb_blocking_read env d
unfolding outb_blocking_read
blocking_later ws env b e w = ground arith

-- A blocking read waits no longer than until a batch brings a word: it returns the first word of
-- the buffer and the batches, and loses none. The room is what the client's bound provides.
pub outb_blocking_read_refines :
    (env : List (List ℕ)) {b : OutputBuffer} {q : List ℕ} (x : ℕ) (rest : List ℕ)
    → HoldsWords b q
    → q ++ concat env ≡ x ∷ rest
    → length q + length (concat env) ≤ outb_size
    → Returns (outb_blocking_read env b) (Blocks x rest)
outb_blocking_read_refines [] {b} {q} x rest v e room = elim (outb_read_cases v) [
  | inl (c, run, empty, h) ↦ absurd (cc)
  | inr (y, c, t, run, full, h) ↦ (
    (y, c, []),
    blocking_now [] b run,
    record { word = cc; left = t; buffered = h; remaining = cc },
  )
]
outb_blocking_read_refines (ws ∷ env) {b} {q} x rest v e room = elim (outb_read_cases v) [
  | inl (c, run, empty, h) ↦
      let none_left : length q ≡ 0 = ap length empty in
      let more : ws ++ concat env ≡ x ∷ rest = cc in
      let total = length-append ws (concat env) in
      let (d, run', h') =
        outb_write_refines {b = polled c} ws (polled-HoldsWords h) (omega (arith, total)) in
      let (r, run'', p) =
        outb_blocking_read_refines env {b = d} x rest h' more (omega (arith, total)) in
      (r, blocking_later ws env b run run' ∙ run'', p)
  | inr (y, c, t, run, full, h) ↦ (
    (y, c, ws ∷ env),
    blocking_now (ws ∷ env) b run,
    record { word = cc; left = t; buffered = h; remaining = cc },
  )
]
