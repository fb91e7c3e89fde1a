-- ===== src/Partition/Lists.antt =====
-- Lists of addresses: how often one occurs, what TAILQ_REMOVE does to that, and sums over a list.
use smphash_table.Base.{
  ℕ, ◌+◌, ◌-◌, ◌≤◌, ◌<◌, ◌≡◌, ◌⊎◌, inl, inr, refl, ap, some, List, [], ◌∷◌, ◌++◌, arith, ◌==◌,
  if◌then◌else◌, length,
}
use smphash_table.Memory.{Ptr}
use smphash_table.Partition.{remove, last}

unfoldable pub occurs : Ptr → List Ptr → ℕ
occurs q [] = 0
occurs q (x ∷ xs) = (if q == x then 1 else 0) + occurs q xs

pub occurs-append : (q : Ptr) (xs ys : List Ptr) → occurs q (xs ++ ys) ≡ occurs q xs + occurs q ys
unfolding occurs
occurs-append q [] ys = omega arith
occurs-append q (x ∷ xs) ys = omega (arith, occurs-append q xs ys)

pub occurs-remove :
    (q e : Ptr) (xs : List Ptr)
    → occurs q (remove e xs) ≡ (if q == e then occurs q xs - 1 else occurs q xs)
unfolding occurs remove
occurs-remove q e [] = ground arith
occurs-remove q e (x ∷ xs) = ground (arith, occurs-remove q e xs)

pub occurs-one : (q e : Ptr) → occurs q (e ∷ []) ≡ (if q == e then 1 else 0)
unfolding occurs
occurs-one q e = ground arith

pub occurs-cons :
    (q e : Ptr) (xs : List Ptr) → occurs q (e ∷ xs) ≡ (if q == e then 1 else 0) + occurs q xs
unfolding occurs
occurs-cons q e xs = refl

pub occurs-nil : (q : Ptr) → occurs q [] ≡ 0
unfolding occurs
occurs-nil q = refl

-- A sum over the addresses of a list.
unfoldable pub total : (Ptr → ℕ) → List Ptr → ℕ
total w [] = 0
total w (x ∷ xs) = w x + total w xs

pub total-nil : (w : Ptr → ℕ) → total w [] ≡ 0
unfolding total
total-nil w = refl

pub total-cons : (w : Ptr → ℕ) (x : Ptr) (xs : List Ptr) → total w (x ∷ xs) ≡ w x + total w xs
unfolding total
total-cons w x xs = refl

pub total-append : (w : Ptr → ℕ) (xs ys : List Ptr) → total w (xs ++ ys) ≡ total w xs + total w ys
unfolding total
total-append w [] ys = omega arith
total-append w (x ∷ xs) ys = omega (arith, total-append w xs ys)

pub total-remove :
    (w : Ptr → ℕ) (e : Ptr) (xs : List Ptr)
    → 0 < occurs e xs
    → total w (remove e xs) + w e ≡ total w xs
unfolding occurs total remove
total-remove w e [] h = absurd (omega arith)
total-remove w e (x ∷ xs) h = ground (arith, total-remove w e xs)

pub total_congr :
    (v w : Ptr → ℕ) (xs : List Ptr)
    → ((q : Ptr) → 0 < occurs q xs → v q ≡ w q)
    → total v xs ≡ total w xs
unfolding occurs total
total_congr v w [] same = refl
total_congr v w (x ∷ xs) same =
    let here : v x ≡ w x = same x (ground arith) in
    omega (arith, here, total_congr v w xs (λ q h. same q (ground arith)))

pub remove_absent : (e : Ptr) (xs : List Ptr) → occurs e xs ≡ 0 → remove e xs ≡ xs
unfolding occurs remove
remove_absent e [] h = refl
remove_absent e (x ∷ xs) h = ground (arith, remove_absent e xs)

pub remove-append_last : (e : Ptr) (xs : List Ptr) → occurs e xs ≡ 0 → remove e (xs ++ e ∷ []) ≡ xs
unfolding occurs remove
remove-append_last e [] h = ground arith
remove-append_last e (x ∷ xs) h = ground (arith, remove-append_last e xs)

pub length-remove : (e : Ptr) (xs : List Ptr) → length (remove e xs) ≤ length xs
unfolding remove
length-remove e [] = omega arith
length-remove e (x ∷ xs) = ground (arith, length-remove e xs)

pub last-append : (xs : List Ptr) (e : Ptr) → last (xs ++ e ∷ []) ≡ some e
unfolding last
last-append [] e = refl
last-append (x ∷ []) e = refl
last-append (x ∷ y ∷ ys) e = last-append (y ∷ ys) e

-- A list is empty or has a last entry.
pub snoc_cases : (xs : List Ptr) → (xs ≡ []) ⊎ ((ys : List Ptr) × (e : Ptr) × (xs ≡ ys ++ e ∷ []))
snoc_cases [] = inl refl
snoc_cases (x ∷ xs) = elim (snoc_cases xs) [
  | inl e ↦ inr ([], x, ap (λ t. x ∷ t) e)
  | inr (ys, y, e) ↦ inr (x ∷ ys, y, ap (λ t. x ∷ t) e)
]
