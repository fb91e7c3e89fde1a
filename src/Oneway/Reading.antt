-- ===== src/Oneway/Reading.antt =====
-- Reading from the one-way buffer.
use smphash_table.Base.{
  ℕ, zero, suc, ◌+◌, ◌-◌, ◌%◌, ◌^◌, ◌≤◌, ◌<◌, ◌≡◌, refl, sym, ap, subst, ◌∙◌, List, [], ◌∷◌, length,
  get_or, take, drop, arith, bit_and, bit_and_mask, ltb, if◌then◌else◌, eq→==, ne→==, ℕ_discrete,
}
use smphash_table.Ring.{window}
use smphash_table.Oneway.{OnewayBuffer, read_all, unread, buffer_read_all}
use smphash_table.Oneway.Refine.{Holds}

read_all-window :
    (buf : List ℕ) (rd i n at : ℕ) → at ≡ rd + i → read_all buf rd i n ≡ window 16 0 buf at n
unfolding read_all
read_all-window buf rd i zero at e = refl
read_all-window buf rd i (suc n) at e =
    let here : bit_and ((rd + i) % 2 ^ 64) 15 ≡ at % 16 =
      bit_and_mask 4 ((rd + i) % 2 ^ 64) ∙ omega arith in
    rw (here, read_all-window buf rd (i + 1) n (suc at) (omega arith)) refl

take-window :
    (buf : List ℕ) (i n m : ℕ) → n ≤ m → take n (window 16 0 buf i m) ≡ window 16 0 buf i n
take-window buf i zero m h = refl
take-window buf i (suc n) zero h = absurd (omega arith)
take-window buf i (suc n) (suc m) h =
    ap (λ t. get_or buf (i % 16) 0 ∷ t) (take-window buf (suc i) n m (omega arith))

drop-window :
    (buf : List ℕ) (i j n m k : ℕ)
    → m ≡ n + k
    → j ≡ i + n
    → drop n (window 16 0 buf i m) ≡ window 16 0 buf j k
drop-window buf i j zero m k e f =
    let same : m ≡ k = omega arith in
    let start : i ≡ j = omega arith in
    ap (window 16 0 buf i) same ∙ ap (λ t. window 16 0 buf t k) start
drop-window buf i j (suc n) zero k e f = absurd (omega arith)
drop-window buf i j (suc n) (suc m) k e f =
    drop-window buf (suc i) j n m k (omega arith) (omega arith)

length-drop : (n : ℕ) (q : List ℕ) → n ≤ length q → length (drop n q) + n ≡ length q
length-drop zero q h = omega arith
length-drop (suc n) [] h = absurd (omega arith)
length-drop (suc n) (x ∷ q) h = omega (arith, length-drop n q (omega arith))

abbrev pub at_most : ℕ → ℕ → ℕ
at_most most seen = if ltb most seen then most else seen

at_most-le : (most seen : ℕ) → at_most most seen ≤ seen
at_most-le most seen = ground arith

-- What a read of at most `most` words returns and leaves.
abbrev pub Took : List ℕ → ℕ → ℕ → List ℕ × OnewayBuffer → Type 0
Took q seen n (words, b') = (words ≡ take n q) × Holds b' (drop n q) (seen - n)

read-Holds :
    {b : OnewayBuffer} {q : List ℕ} {seen : ℕ} (n : ℕ)
    → Holds b q seen
    → n ≤ seen
    → b.rd_index + 64 < 2 ^ 64
    → Took q seen n
        (read_all b.data_words b.rd_index 0 n, record b { rd_index = (b.rd_index + n) % 2 ^ 64 })
read-Holds {b} {q} {seen} n v le low =
    let shorter = length-drop n q (omega (arith, v.seen_in)) in
    let rd : (b.rd_index + n) % 2 ^ 64 ≡ b.rd_index + n = omega (arith, v.seen_in, v.fits) in
    (
      read_all-window b.data_words b.rd_index 0 n b.rd_index (omega arith)
          ∙ sym (take-window b.data_words b.rd_index n (length q) (omega (arith, v.seen_in)))
          ∙ ap (take n) v.words,
      record {
        size = v.size;
        fits = omega (arith, v.fits);
        seen_in = omega (arith, v.seen_in);
        low = omega (arith, v.seen_in, v.fits);
        wr_at = omega (arith, v.wr_at);
        tmp_at = omega (arith, v.tmp_at);
        words =
            sym (
              drop-window b.data_words b.rd_index ((b.rd_index + n) % 2 ^ 64) n (length q)
                (length (drop n q)) (omega arith) rd)
            ∙ ap (drop n) v.words;
      },
    )

nothing-Took :
    {b : OnewayBuffer} {q : List ℕ} {seen : ℕ} (n : ℕ)
    → Holds b q seen
    → n ≡ 0
    → Took q seen n ([], b)
nothing-Took {b} {q} {seen} zero v e = (refl, subst (Holds b q) (all seen) v)
  where
    all : (m : ℕ) → m ≡ m - 0
    all m = omega arith
nothing-Took (suc n) v e = absurd (omega arith)

-- buffer_read_all returns the oldest published words, as many as there are but not more than asked
-- for, and leaves the others.
pub buffer_read_all_refines :
    {b : OnewayBuffer} {q : List ℕ} {seen : ℕ} (most : ℕ)
    → Holds b q seen
    → b.rd_index + 64 < 2 ^ 64
    → Took q seen (at_most most seen) (buffer_read_all b most)
unfolding buffer_read_all
buffer_read_all_refines {b} {q} {seen} most v low =
    let count : unread b ≡ seen = omega (arith, v.wr_at, v.low, v.seen_in, v.fits) in
    elim (ℕ_discrete seen 0) [
      | yes none_seen ↦
          rw (count, eq→== seen 0 none_seen)
            (nothing-Took (at_most most seen) v (omega (arith, at_most-le most seen)))
      | no some_seen ↦
          rw (count, ne→== seen 0 some_seen)
            (read-Holds (at_most most seen) v (at_most-le most seen) low)
    ]
