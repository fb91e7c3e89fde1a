-- ===== src/Partition/Destroy.antt =====
-- `destroy_hash_partition` with atomic_release_value_, as `destroy_hash_table` calls it.
use native.Mathlib.Nat.{mod-lt}
use smphash_table.Base.{
  ℕ, suc, ◌+◌, ◌%◌, ◌^◌, ◌≤◌, ◌<◌, ◌≡◌, refl, sym, ap, ◌∙◌, Option, none, some, List, [], ◌∷◌, ◌++◌,
  concat, length, get_or, arith, ◌==◌, leb, ltb, ◌&&◌, if◌then◌else◌, eq→==, Run, ok, fault, ◌>>=◌,
  Returns, ℕ_discrete,
}
use smphash_table.Memory.{Ptr, Elem, Heap, deref, dec64, put_count, atomic_release}
use smphash_table.Memory.Counts.{atomic_release-put, put_count-here, put_count-elsewhere}
use smphash_table.Partition.{
  Partition, hash_get_bucket, remove, destroy_chain, destroy_chains, destroy_hash_partition,
}
use smphash_table.Partition.Lists.{
  occurs, occurs-append, occurs-cons, occurs-remove, occurs-nil, total, total-nil, total-cons,
  total-remove, total_congr,
}
use smphash_table.Partition.Linked.{Linked, key_at, size_at, size_in, bucket_in}

-- Equal counts, equal sums.
pub total-occurs :
    (w : Ptr → ℕ) (xs ys : List Ptr)
    → ((q : Ptr) → occurs q xs ≡ occurs q ys)
    → total w xs ≡ total w ys
unfolding total
total-occurs w [] [] same = refl
total-occurs w [] (y ∷ ys) same = absurd (ground (arith, same y, occurs-nil y, occurs-cons y y ys))
total-occurs w (x ∷ xs) ys same =
    let i : 0 < occurs x ys = ground (arith, same x, occurs-cons x x xs) in
    let rest =
      total-occurs w xs (remove x ys)
        (λ q. ground (arith, same q, occurs-cons q x xs, occurs-remove q x ys)) in
    omega (arith, rest, total-remove w x ys i)

-- The chains together hold each element as often as its own chain.
occurs-concat :
    (q : Ptr) (b m k : ℕ) (table : List (List Ptr))
    → ((i : ℕ) → i < length table → occurs q (get_or table i []) ≡ (if b == k + i then m else 0))
    → occurs q (concat table) ≡ (if leb k b && ltb b (k + length table) then m else 0)
occurs-concat q b m k [] h = ground (arith, occurs-nil q)
occurs-concat q b m k (c ∷ cs) h =
    let first = h 0 (omega arith) in
    let rest =
      occurs-concat q b m (suc k) cs
        (λ i lt. h (suc i) (omega arith) ∙ ap (λ t. if b == t then m else 0) (omega arith)) in
    ground (arith, first, rest, occurs-append q c (concat cs))

-- What one release makes of an element.
abbrev pub released : Option Elem → Option Elem
released none = none
released (some x) =
    if dec64 x.ref_count == 0 then none else some (record x { ref_count = dec64 x.ref_count })

-- The elements of the chains are released, each once, and nothing else is touched.
abbrev pub AllReleased : Heap → List Ptr → Heap → Type 0
AllReleased h es h' = (q : Ptr) → h' q ≡ (if occurs q es == 0 then h q else released (h q))

bind_assoc {ℓ κ μ} :
    {A : Type ℓ} {B : Type κ} {C : Type μ} (run : Run A) (f : A → Run B) (g : B → Run C)
    → ((run >>= f) >>= g) ≡ (run >>= λ a. f a >>= g)
bind_assoc (fault stop) f g = refl
bind_assoc (ok a) f g = refl

bind_congr {ℓ κ} :
    {A : Type ℓ} {B : Type κ} (run : Run A) (f g : A → Run B)
    → ((a : A) → f a ≡ g a)
    → (run >>= f) ≡ (run >>= g)
bind_congr (fault stop) f g same = refl
bind_congr (ok a) f g same = same a

module _ (release : Ptr → Heap → Run Heap) where
  destroy_chain-append :
      (n : ℕ) (h : Heap) (c d : List Ptr)
      → (destroy_chain release n h c >>= λ (n', h'). destroy_chain release n' h' d)
        ≡ destroy_chain release n h (c ++ d)
  unfolding destroy_chain
  destroy_chain-append n h [] d = refl
  destroy_chain-append n h (e ∷ es) d =
      bind_assoc (deref h e)
        (λ x. release e h >>= λ h'. destroy_chain release ((n + x.size) % 2 ^ 64) h' es)
        (λ (n', h'). destroy_chain release n' h' d)
      ∙ bind_congr (deref h e)
          (λ x.
            (release e h >>= λ h'. destroy_chain release ((n + x.size) % 2 ^ 64) h' es)
            >>= λ (n', h'). destroy_chain release n' h' d)
          (λ x. release e h >>= λ h'. destroy_chain release ((n + x.size) % 2 ^ 64) h' (es ++ d))
          (λ x.
            bind_assoc (release e h) (λ h'. destroy_chain release ((n + x.size) % 2 ^ 64) h' es)
              (λ (n', h'). destroy_chain release n' h' d)
            ∙ bind_congr (release e h)
                (λ h'. destroy_chain release ((n + x.size) % 2 ^ 64) h' es >>= λ (n', h').
                  destroy_chain release n' h' d)
                (λ h'. destroy_chain release ((n + x.size) % 2 ^ 64) h' (es ++ d))
                (λ h'. destroy_chain-append ((n + x.size) % 2 ^ 64) h' es d))

  -- The loop over the chains is the loop over what they hold together.
  destroy_chains-concat :
      (n : ℕ) (h : Heap) (table : List (List Ptr))
      → destroy_chains release n h table ≡ destroy_chain release n h (concat table)
  unfolding destroy_chains destroy_chain
  destroy_chains-concat n h [] = refl
  destroy_chains-concat n h (c ∷ cs) =
      bind_congr (destroy_chain release n h c) (λ (n', h'). destroy_chains release n' h' cs)
        (λ (n', h'). destroy_chain release n' h' (concat cs))
        (λ (n', h'). destroy_chains-concat n' h' cs)
      ∙ destroy_chain-append n h c (concat cs)

-- The release of one element, and then of the elements behind it in its chain.
released_first :
    (e : Ptr) (h : Heap) (x : Elem) (es : List Ptr) (q : Ptr)
    → h e ≡ some x
    → occurs q (e ∷ es) ≤ 1
    → (if occurs q es == 0
        then put_count h e x (dec64 x.ref_count) q
        else released (put_count h e x (dec64 x.ref_count) q))
      ≡ (if occurs q (e ∷ es) == 0 then h q else released (h q))
released_first e h x es q l once = elim (ℕ_discrete q e) [
  | yes same ↦
      let two : occurs q (e ∷ es) ≡ (if q == e then 1 else 0) + occurs q es = occurs-cons q e es in
      let none_left : occurs q es ≡ 0 = ground (arith, two, same) in
      let one : occurs q (e ∷ es) ≡ 1 = ground (arith, two, same) in
      rw (none_left, one, same) (put_count-here e h x l (dec64 x.ref_count) ∙ sym (ap released l))
  | no other ↦
      let away = put_count-elsewhere e h x l (dec64 x.ref_count) q other in
      let count : occurs q (e ∷ es) ≡ occurs q es = ground (arith, occurs-cons q e es, other) in
      rw (away, count)
]

chain_released :
    (n : ℕ) (h : Heap) (es : List Ptr)
    → n < 2 ^ 64
    → ((q : Ptr) → occurs q es ≤ 1)
    → ((q : Ptr) → 0 < occurs q es → (x : Elem) × (h q ≡ some x))
    → Returns
        (destroy_chain atomic_release n h es)
        (λ (m, h'). (m ≡ (n + total (size_at h) es) % 2 ^ 64) × AllReleased h es h')
unfolding destroy_chain
chain_released n h [] fits once live =
    ((n, h), refl, (omega (arith, total-nil (size_at h)), λ q. rw (occurs-nil q)))
chain_released n h (e ∷ es) fits once live =
    let count : (q : Ptr) → occurs q (e ∷ es) ≡ (if q == e then 1 else 0) + occurs q es =
      λ q. occurs-cons q e es in
    let (x, l) = live e (ground (arith, count e)) in
    let h₁ : Heap = put_count h e x (dec64 x.ref_count) in
    let away : (q : Ptr) → 0 < occurs q es → h₁ q ≡ h q = λ q i.
      put_count-elsewhere e h x l (dec64 x.ref_count) q (λ same. ground (arith, count q, once q)) in
    let ((m, h'), run, (sum, all)) =
      chain_released ((n + x.size) % 2 ^ 64) h₁ es (mod-lt (n + x.size) (omega arith))
        (λ q. ground (arith, count q, once q))
        (λ q i. let (y, k) = live q (ground (arith, count q)) in (y, away q i ∙ k)) in
    let same_sizes : total (size_at h₁) es ≡ total (size_at h) es =
      total_congr (size_at h₁) (size_at h) es (λ q i. ap size_in (away q i)) in
    let here : size_at h e ≡ x.size = ap size_in l in
    (
      (m, h'),
      rw (deref, l, atomic_release-put e h x l) run,
      (
        omega (arith, sum, same_sizes, here, total-cons (size_at h) e es),
        λ q. all q ∙ released_first e h x es q l (once q),
      ),
    )

-- The chains together hold each element of the partition once.
pub held-occurs :
    {h : Heap} {p : Partition} {es : List Ptr}
    → Linked h p 0 es
    → (q : Ptr) → occurs q (concat p.table) ≡ occurs q es
held-occurs {h} {p} {es} v q =
    occurs-concat q (hash_get_bucket p (key_at h q)) (occurs q es) 0 p.table (λ i lt.
      v.placed q i (omega (arith, lt, v.buckets))
      ∙ ap (λ t. if hash_get_bucket p (key_at h q) == t then occurs q es else 0) (omega arith))
    ∙ ground (arith, v.buckets, bucket_in v (key_at h q))

-- `destroy_hash_partition` on a partition with the elements `es` ends normally: the sizes of the
-- elements add up to the partition's size, as it asserts, and each of them is released exactly
-- once, which frees those with a count of one; other memory stays as it is.
pub destroy_hash_partition_refines :
    {h : Heap} {p : Partition} {es : List Ptr}
    → Linked h p 0 es
    → Returns (destroy_hash_partition atomic_release h p) (AllReleased h es)
unfolding destroy_hash_partition
destroy_hash_partition_refines {h} {p} {es} v =
    let all = concat p.table in
    let held = held-occurs v in
    let ((n, h'), run, (sum, freed)) =
      chain_released 0 h all (omega arith) (λ q. omega (arith, held q, v.once q))
        (λ q i. v.live q (omega (arith, held q, i))) in
    let sizes : p.size ≡ n =
      omega (arith, v.accounted, v.sizes, sum, total-occurs (size_at h) all es held) in
    (
      h',
      rw (destroy_chains-concat atomic_release 0 h p.table, run, eq→== p.size n sizes),
      λ q. freed q ∙ rw (held q),
    )
