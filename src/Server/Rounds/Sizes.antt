-- ===== src/Server/Rounds/Sizes.antt =====
-- The size of `localbuf` and the number of the answers of a batch.
use smphash_table.Base.{
  ℕ, zero, suc, ◌+◌, ◌≤◌, ◌≡◌, refl, ◌∙◌, Bool, true, false, List, [], ◌∷◌, ◌++◌, length, get_or,
  length-set, length-append, take, bit_and, arith, ltb, ◌==◌, if◌then◌else◌, Run, ok, fault, ◌>>=◌,
  Bool-cases, inl, inr,
}
use smphash_table.Message.{
  hashop_mask, not_hashop_mask, hashop_lookup, hashop_insert, hashop_release,
}
use smphash_table.Partition.{Allocator}
use smphash_table.Inbuf.{read_words}
use smphash_table.Server.{
  State, serve_lookup, serve_insert, serve_release, dispatch, serve_loop, serve_batch,
}

-- What holds of the result, if there is one.
abbrev pub Yields {ℓ κ} : {A : Type ℓ} → (A → Type κ) → Run A → Type κ
Yields P (fault stop) = Unit
Yields P (ok a) = P a

pub bind-Yields {ℓ κ μ ν} :
    {A : Type ℓ} {B : Type κ} (P : A → Type μ) (Q : B → Type ν) (run : Run A) (f : A → Run B)
    → Yields P run
    → ((a : A) → P a → Yields Q (f a))
    → Yields Q (run >>= f)
bind-Yields P Q (fault stop) f h next = tt
bind-Yields P Q (ok a) f h next = next a h

-- A step whose result does not matter.
then-Yields {ℓ κ ν} :
    {A : Type ℓ} {B : Type κ} (Q : B → Type ν) (run : Run A) (f : A → Run B)
    → ((a : A) → Yields Q (f a))
    → Yields Q (run >>= f)
then-Yields Q (fault stop) f next = tt
then-Yields Q (ok a) f next = next a

if-Yields {ℓ ν} :
    {A : Type ℓ} (Q : A → Type ν) (b : Bool) (run run' : Run A)
    → Yields Q run
    → Yields Q run'
    → Yields Q (if b then run else run')
if-Yields Q true run run' h h' = h
if-Yields Q false run run' h h' = h'

abbrev Long : ℕ → ℕ × ℕ × List ℕ × State → Type 0
Long n (k, j, buf, s) = length buf ≡ n

dispatch_size :
    (alloc : Allocator) (op arg k j : ℕ) (buf : List ℕ) (s : State)
    → Yields (Long (length buf)) (dispatch alloc op arg k j buf s)
unfolding dispatch
dispatch_size alloc op arg k j buf s =
    if-Yields (Long (length buf)) (op == hashop_lookup) _ _
      (then-Yields (Long (length buf)) (serve_lookup arg s) _ (λ (v, s'). length-set buf j v))
      (if-Yields (Long (length buf)) (op == hashop_insert) _ _
        (if-Yields (Long (length buf)) (ltb (k + 1) 8) _ _
          (then-Yields (Long (length buf)) (serve_insert alloc arg _ s) _
            (λ (v, s'). length-set buf j v))
          tt)
        (if-Yields (Long (length buf)) (op == hashop_release) _ _
          (then-Yields (Long (length buf)) (serve_release arg s) _ (λ s'. refl)) tt))

abbrev Wide : ℕ → ℕ × List ℕ × State → Type 0
Wide n (j, buf, s) = length buf ≡ n

serve_loop_size :
    (alloc : Allocator) (count rounds k j : ℕ) (buf : List ℕ) (s : State) (n : ℕ)
    → length buf ≡ n
    → Yields (Wide n) (serve_loop alloc count rounds k j buf s)
unfolding serve_loop
serve_loop_size alloc count zero k j buf s n h = if-Yields (Wide n) (ltb k count) _ _ tt h
serve_loop_size alloc count (suc rounds) k j buf s n h = elim (Bool-cases (ltb k count)) [
  | inr done ↦ rw (serve_loop, done) h
  | inl busy ↦
      let op = bit_and (get_or buf k 0) hashop_mask in
      let arg = bit_and (get_or buf k 0) not_hashop_mask in
      rw (serve_loop, busy)
        (bind-Yields (Long (length buf)) (Wide n) (dispatch alloc op arg k j buf s)
          (λ (k', j', buf', s'). serve_loop alloc count rounds k' j' buf' s')
          (dispatch_size alloc op arg k j buf s)
          (λ (k', j', buf', s') same.
            serve_loop_size alloc count rounds k' j' buf' s' n (same ∙ h)))
]

take_short : (n : ℕ) (xs : List ℕ) → length (take n xs) ≤ length xs
take_short zero xs = omega arith
take_short (suc n) [] = omega arith
take_short (suc n) (x ∷ xs) = omega (arith, take_short n xs)

-- A batch has at most eight answers, and `localbuf` keeps its size.
abbrev pub Fitting : List ℕ × List ℕ × State → Type 0
Fitting (out, buf, s) = (length out ≤ 8) × (length buf ≡ 8)

pub serve_batch_size :
    (alloc : Allocator) (words stale : List ℕ) (s : State)
    → length words + length stale ≡ 8
    → Yields Fitting (serve_batch alloc words stale s)
unfolding serve_batch
serve_batch_size alloc words stale s h =
    bind-Yields (Wide 8) Fitting
      (serve_loop alloc (length words) (length words) 0 0 (words ++ stale) s) _
      (serve_loop_size alloc (length words) (length words) 0 0 (words ++ stale) s 8
        (length-append words stale ∙ h))
      (λ (j, buf, s') wide. (omega (arith, take_short j buf, wide), wide))

pub read_words_size : (line : List ℕ) (i n : ℕ) → length (read_words line i n) ≤ n
unfolding read_words
read_words_size line i zero = omega arith
read_words_size line i (suc n) = elim (Bool-cases (get_or line i 0 == 0)) [
  | inl free ↦ rw free (omega arith)
  | inr more ↦ rw more (omega (arith, read_words_size line (i + 1) n))
]
