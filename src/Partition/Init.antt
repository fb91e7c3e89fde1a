-- ===== src/Partition/Init.antt =====
-- `init_hash_partition`: the number of buckets, and an empty partition.
use native.Mathlib.Nat.{div-add-mod, mod-lt}
use smphash_table.Base.{
  ℕ, zero, suc, ◌+◌, ◌-◌, ◌*◌, ◌/◌, ◌≤◌, ◌<◌, ◌≡◌, refl, ap, ◌∙◌, [], arith, length-replicate,
  get_or-replicate, dec_lt, ◌^◌, lt→ltb, le→leb, lt→leb, ok, fault, abort,
}
use smphash_table.Memory.{Heap}
use smphash_table.Alock.{anderson_init, max_clients}
use smphash_table.Partition.{max_ten, hash_size, fresh_partition, init_hash_partition}
use smphash_table.Partition.Lists.{occurs-nil, total-nil}
use smphash_table.Partition.Linked.{Linked, size_at}

max_ten-ge : (n : ℕ) → 10 ≤ max_ten n
unfolding max_ten
max_ten-ge n = ground arith

-- The quotient rounded up, times the divisor.
round_up : (m n : ℕ) → 0 < n → (m ≤ (m + n - 1) / n * n) × ((m + n - 1) / n * n < m + n)
round_up m n pos = omega (arith, div-add-mod (m + n - 1) n, mod-lt (m + n - 1) {m = n} pos)

divides_one : (d a b : ℕ) → d * a + 1 ≡ d * b → d ≡ 1
divides_one zero a b e = absurd (omega arith)
divides_one (suc d) a b e = elim (dec_lt a b) [
  | no n ↦ absurd (grind arith)
  | yes p ↦
      let t : b ≡ a + 1 + (b - a - 1) = omega arith in
      let f = e ∙ ap (λ k. suc d * k) t in omega arith
]

-- Whatever the size and the number of servers, there are at least nine buckets.
pub hash_size-ge : (max_size nservers : ℕ) → 0 < nservers → 9 ≤ hash_size max_size nservers
unfolding hash_size
hash_size-ge max_size nservers pos =
    omega (arith, max_ten-ge (max_size / 256), round_up (max_ten (max_size / 256)) nservers pos)

-- The numbers of buckets and of servers have no common divisor but 1.
pub hash_size_coprime :
    (max_size nservers : ℕ)
    → 0 < nservers
    → (d a b : ℕ) → hash_size max_size nservers ≡ d * a
    → nservers ≡ d * b
    → d ≡ 1
unfolding hash_size
hash_size_coprime max_size nservers pos d a b e f =
    let m = max_ten (max_size / 256) in
    let q = (m + nservers - 1) / nservers in
    let up = round_up m nservers pos in
    let whole : d * a + 1 ≡ q * nservers = omega (arith, max_ten-ge (max_size / 256), up, e) in
    divides_one d a (q * b) (whole ∙ ap (λ k. q * k) f ∙ grind arith)

-- A fresh partition is empty.
pub init-Linked :
    (h : Heap) (max_size nservers evictalgo : ℕ)
    → 0 < nservers
    → Linked h (fresh_partition max_size nservers evictalgo) 0 []
unfolding fresh_partition
init-Linked h max_size nservers evictalgo pos = record {
  buckets = length-replicate (hash_size max_size nservers) [];
  nonempty = omega (arith, hash_size-ge max_size nservers pos);
  once = λ e. omega (arith, occurs-nil e);
  live = λ e i. absurd (omega (arith, occurs-nil e));
  placed = λ e i lt. rw (get_or-replicate, occurs-nil) (ground arith);
  unique = λ e f i j same. absurd (omega (arith, occurs-nil e));
  lru_order = λ a. refl;
  accounted = omega (arith, total-nil (size_at h));
  sizes = omega arith;
}

max_ten-le : (n : ℕ) → 10 ≤ n → n < 2 ^ 31 → max_ten n ≤ n
unfolding max_ten
max_ten-le n large fits = ground arith

max_ten-small : (n : ℕ) → n < 10 → max_ten n ≤ 10
unfolding max_ten
max_ten-small n small = ground arith

-- With less than 2^38 bytes for a partition and 2^30 servers the number of buckets is an int.
hash_size-int :
    (max_size nservers : ℕ)
    → 0 < nservers
    → nservers ≤ 2 ^ 30
    → max_size < 2 ^ 38
    → hash_size max_size nservers < 2 ^ 31
unfolding hash_size
hash_size-int max_size nservers pos few small =
    let n = max_size / 256 in
    let low : n < 2 ^ 30 = omega arith in
    let m : max_ten n < 2 ^ 30 = elim (dec_lt n 10) [
      | yes few_bytes ↦ omega (arith, max_ten-small n few_bytes)
      | no more ↦ omega (arith, max_ten-le n (omega arith) (omega arith))
    ] in
    omega (arith, round_up (max_ten n) nservers pos)

-- `init_hash_partition` returns with at most 1024 servers, and an assertion fails with more.
pub init_hash_partition_returns :
    (max_size nservers evictalgo : ℕ)
    → 0 < nservers
    → nservers ≤ max_clients
    → max_size < 2 ^ 38
    → init_hash_partition max_size nservers evictalgo
      ≡ ok (fresh_partition max_size nservers evictalgo)
unfolding init_hash_partition anderson_init
init_hash_partition_returns max_size nservers evictalgo pos few small =
    rw
      (
        lt→ltb (hash_size max_size nservers) (2 ^ 31)
            (hash_size-int max_size nservers pos (omega arith) small),
        le→leb nservers max_clients few,
      )
      refl

pub init_hash_partition_aborts :
    (max_size nservers evictalgo : ℕ)
    → max_clients < nservers
    → nservers ≤ 2 ^ 30
    → max_size < 2 ^ 38
    → init_hash_partition max_size nservers evictalgo ≡ fault abort
unfolding init_hash_partition anderson_init
init_hash_partition_aborts max_size nservers evictalgo many few small =
    rw
      (
        lt→ltb (hash_size max_size nservers) (2 ^ 31)
            (hash_size-int max_size nservers (omega arith) few small),
        lt→leb nservers max_clients many,
      )
      refl
