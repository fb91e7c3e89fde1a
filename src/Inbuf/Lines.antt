-- ===== src/Inbuf/Lines.antt =====
-- A shared line: what is read from it is what was stored in it.
use smphash_table.Base.{
  ℕ, zero, suc, ◌+◌, ◌-◌, ◌≤◌, ◌<◌, ◌≡◌, ◌≢◌, refl, sym, ap, ◌∙◌, List, [], ◌∷◌, ◌++◌, append_assoc,
  append-nil, length, length-set, set, get_or, get_or-set, take, arith, ◌==◌, dec_lt,
}
use smphash_table.Inbuf.{inpb_size, copy_words, fill_line, store_local, read_words}

abbrev pub NonZero : List ℕ → Type 0
NonZero [] = Unit
NonZero (x ∷ xs) = (x ≢ 0) × NonZero xs

pub NonZero-append : (xs ys : List ℕ) → NonZero xs → NonZero ys → NonZero (xs ++ ys)
NonZero-append [] ys p q = q
NonZero-append (x ∷ xs) ys p q = (p.0, NonZero-append xs ys p.1 q)

NonZero-get_or :
    (xs : List ℕ) (n i : ℕ) → NonZero (take n xs) → i < n → n ≤ length xs → get_or xs i 0 ≢ 0
NonZero-get_or [] n i p h l = absurd (omega arith)
NonZero-get_or (x ∷ xs) zero i p h l = absurd (omega arith)
NonZero-get_or (x ∷ xs) (suc n) zero p h l = p.0
NonZero-get_or (x ∷ xs) (suc n) (suc i) p h l =
    NonZero-get_or xs n i p.1 (omega arith) (omega arith)

-- `n` entries from index `i` on
slice : List ℕ → ℕ → ℕ → List ℕ
slice xs i zero = []
slice xs i (suc n) = get_or xs i 0 ∷ slice xs (i + 1) n

slice-cons : (x : ℕ) (xs : List ℕ) (i n : ℕ) → slice (x ∷ xs) (i + 1) n ≡ slice xs i n
unfolding slice
slice-cons x xs i zero = refl
slice-cons x xs i (suc n) = ground (arith, slice-cons x xs (i + 1) n)

slice-take : (xs : List ℕ) (n : ℕ) → n ≤ length xs → slice xs 0 n ≡ take n xs
unfolding slice
slice-take xs zero h = refl
slice-take [] (suc n) h = absurd (omega arith)
slice-take (x ∷ xs) (suc n) h = ap (◌∷◌ x) (slice-cons x xs 0 n ∙ slice-take xs n (omega arith))

length-copy_words :
    (line local : List ℕ) (i n : ℕ) → length (copy_words line local i n) ≡ length line
unfolding copy_words
length-copy_words line local i zero = refl
length-copy_words line local i (suc n) =
    length-copy_words (set line i (get_or local i 0)) local (i + 1) n ∙ length-set line i _

copy_words-below :
    (line local : List ℕ) (i n j : ℕ)
    → i + n ≤ length line
    → j < i
    → get_or (copy_words line local i n) j 0 ≡ get_or line j 0
unfolding copy_words
copy_words-below line local i zero j h l = refl
copy_words-below line local i (suc n) j h l = ground (
  arith,
  copy_words-below (set line i (get_or local i 0)) local (i + 1) n j,
  length-set line i (get_or local i 0),
  get_or-set line i j (get_or local i 0) 0,
)

copy_words-within :
    (line local : List ℕ) (i n j : ℕ)
    → i + n ≤ length line
    → i ≤ j
    → j < i + n
    → get_or (copy_words line local i n) j 0 ≡ get_or local j 0
unfolding copy_words
copy_words-within line local i zero j h l u = absurd (omega arith)
copy_words-within line local i (suc n) j h l u = elim (dec_lt i j) [
  | yes p ↦ ground (
    arith,
    copy_words-within (set line i (get_or local i 0)) local (i + 1) n j,
    length-set line i (get_or local i 0),
  )
  | no p ↦ ground (
    arith,
    copy_words-below (set line i (get_or local i 0)) local (i + 1) n j,
    length-set line i (get_or local i 0),
    get_or-set line i j (get_or local i 0) 0,
  )
]

-- The line after the stores of `inpb_flush`, word by word.
module _ (line local : List ℕ) (n : ℕ) (width : length line ≡ inpb_size) (pos : 0 < n)
    (fits : n ≤ inpb_size) where
  pub length-fill_line : length (fill_line line local n) ≡ inpb_size
  unfolding fill_line
  length-fill_line = ground (
    arith,
    length-copy_words line local 1 (n - 1),
    length-set (copy_words line local 1 (n - 1)) n 0,
    length-set (set (copy_words line local 1 (n - 1)) n 0) 0 (get_or local 0 0),
    length-set (copy_words line local 1 (n - 1)) 0 (get_or local 0 0),
  )

  fill_line-word : (j : ℕ) → j < n → get_or (fill_line line local n) j 0 ≡ get_or local j 0
  unfolding fill_line
  fill_line-word j h = ground (
    arith,
    length-copy_words line local 1 (n - 1),
    length-set (copy_words line local 1 (n - 1)) n 0,
    get_or-set (copy_words line local 1 (n - 1)) n j 0 0,
    get_or-set (set (copy_words line local 1 (n - 1)) n 0) 0 j (get_or local 0 0) 0,
    get_or-set (copy_words line local 1 (n - 1)) 0 j (get_or local 0 0) 0,
    copy_words-within line local 1 (n - 1) j,
  )

  fill_line-end : n < inpb_size → get_or (fill_line line local n) n 0 ≡ 0
  unfolding fill_line
  fill_line-end h = ground (
    arith,
    length-copy_words line local 1 (n - 1),
    length-set (copy_words line local 1 (n - 1)) n 0,
    get_or-set (copy_words line local 1 (n - 1)) n n 0 0,
    get_or-set (set (copy_words line local 1 (n - 1)) n 0) 0 n (get_or local 0 0) 0,
  )

-- Nonzero words up to `n`, and an end behind them, are read back.
read_words-slice :
    (line local : List ℕ) (n : ℕ)
    → ((j : ℕ) → j < n → (get_or line j 0 ≡ get_or local j 0) × (get_or local j 0 ≢ 0))
    → (n < inpb_size → get_or line n 0 ≡ 0)
    → (i k m : ℕ) → i + k ≡ n
    → i + m ≡ inpb_size
    → n ≤ inpb_size
    → read_words line i m ≡ slice local i k
unfolding read_words slice
read_words-slice line local n same ends i zero zero p q r = refl
read_words-slice line local n same ends i zero (suc m) p q r =
    let e : i ≡ n = omega arith in let z : get_or line i 0 ≡ 0 = rw e (ends (omega arith)) in rw z
read_words-slice line local n same ends i (suc k) zero p q r = absurd (omega arith)
read_words-slice line local n same ends i (suc k) (suc m) p q r = ground (
  arith,
  same i (omega arith),
  read_words-slice line local n same ends (i + 1) k m (omega arith) (omega arith) r,
)

-- What a flush stores is what a read of the line finds.
pub read-fill_line :
    (line local : List ℕ) (n : ℕ)
    → length line ≡ inpb_size
    → 0 < n
    → n ≤ inpb_size
    → length local ≡ inpb_size
    → NonZero (take n local)
    → read_words (fill_line line local n) 0 inpb_size ≡ take n local
read-fill_line line local n width pos fits size words =
    read_words-slice (fill_line line local n) local n
      (λ j h. (
        fill_line-word line local n width pos fits j h,
        NonZero-get_or local n j words h (omega arith),
      ))
      (fill_line-end line local n width pos fits) 0 n inpb_size (omega arith) refl fits
    ∙ slice-take local n (omega arith)

pub read_cleared : (line : List ℕ) → 0 < length line → read_words (set line 0 0) 0 inpb_size ≡ []
unfolding read_words
read_cleared [] h = absurd (omega arith)
read_cleared (x ∷ xs) h = refl

-- The line is free exactly when nothing is read from it.
pub first_word-free :
    (line : List ℕ) → (get_or line 0 0 == 0) ≡ (length (read_words line 0 inpb_size) == 0)
unfolding read_words
first_word-free line = ground arith

take-set : (xs : List ℕ) (i v : ℕ) → i < length xs → take (suc i) (set xs i v) ≡ take i xs ++ v ∷ []
take-set [] i v h = absurd (omega arith)
take-set (x ∷ xs) zero v h = refl
take-set (x ∷ xs) (suc i) v h = ap (◌∷◌ x) (take-set xs i v (omega arith))

pub length-store_local :
    (local : List ℕ) (i : ℕ) (ws : List ℕ) → length (store_local local i ws) ≡ length local
unfolding store_local
length-store_local local i [] = refl
length-store_local local i (x ∷ xs) =
    length-store_local (set local i x) (i + 1) xs ∙ length-set local i x

-- The words stored locally follow those that were there.
pub take-store_local :
    (local : List ℕ) (i : ℕ) (ws : List ℕ)
    → i + length ws ≤ length local
    → take (i + length ws) (store_local local i ws) ≡ take i local ++ ws
unfolding store_local
take-store_local local i [] h = ap (λ k. take k local) (omega arith) ∙ sym (append-nil _)
take-store_local local i (x ∷ xs) h =
    let later = store_local (set local i x) (i + 1) xs in
    let next : i + 1 ≡ suc i = omega arith in
    ap (λ k. take k later) (omega arith)
    ∙ take-store_local (set local i x) (i + 1) xs (omega (arith, length-set local i x))
    ∙ ap (λ k. take k (set local i x) ++ xs) next
    ∙ ap (λ t. t ++ xs) (take-set local i x (omega arith))
    ∙ append_assoc (take i local) (x ∷ []) xs
