-- ===== src/Partition/Linked.antt =====
-- The representation invariant of a partition: which elements it holds, in which bucket, in which
-- order of use, and how large they are together.
use native.Mathlib.Nat.{mod-lt}
use smphash_table.Base.{
  ℕ, zero, suc, ◌+◌, ◌^◌, ◌≤◌, ◌<◌, ◌≡◌, ◌≢◌, refl, sym, ap, ◌∙◌, Option, none, some, List, [],
  arith, ◌==◌, if◌then◌else◌, length, get_or, eq→==, ne→==, ℕ_discrete, Returns,
}
use smphash_table.Memory.{Ptr, Elem, Heap, update, deref}
use smphash_table.Partition.{Partition, evict_lru, hash_get_bucket, chain_of}
use smphash_table.Partition.Lists.{occurs, total, total_congr}

abbrev pub key_in : Option Elem → ℕ
key_in none = 0
key_in (some x) = x.key

abbrev pub size_in : Option Elem → ℕ
size_in none = 0
size_in (some x) = x.size

abbrev pub key_at : Heap → Ptr → ℕ
key_at h e = key_in (h e)

abbrev pub size_at : Heap → Ptr → ℕ
size_at h e = size_in (h e)

-- The partition holds the elements `es`, and accounts for `extra` bytes more. With EVICT_LRU the
-- order of `es` is the order of use, latest first; with EVICT_RANDOM the order means nothing.
pub record Linked (h : Heap) (p : Partition) (extra : ℕ) (es : List Ptr) : Type 0 where
  pub buckets : length p.table ≡ p.nhash
  pub nonempty : 0 < p.nhash
  pub once : (e : Ptr) → occurs e es ≤ 1
  pub live : (e : Ptr) → 0 < occurs e es → (x : Elem) × (h e ≡ some x)
  pub placed :
      (e : Ptr) (i : ℕ)
      → i < p.nhash
      → occurs e (get_or p.table i [])
        ≡ (if hash_get_bucket p (key_at h e) == i then occurs e es else 0)
  pub unique : (e f : Ptr) → 0 < occurs e es → 0 < occurs f es → key_at h e ≡ key_at h f → e ≡ f
  pub lru_order : p.evictalgo ≡ evict_lru → p.lru ≡ es
  pub accounted : p.size ≡ extra + total (size_at h) es
  pub sizes : p.size < 2 ^ 64

-- No element has the key.
abbrev pub Absent : Heap → ℕ → List Ptr → Type 0
Absent h key es = (e : Ptr) → 0 < occurs e es → key_at h e ≢ key

key_at_congr : (h h' : Heap) (e : Ptr) → h' e ≡ h e → key_at h' e ≡ key_at h e
key_at_congr h h' e s = ap key_in s

bucket_frame :
    (h h' : Heap) (p : Partition) (e : Ptr) (i n : ℕ)
    → (0 < n → h' e ≡ h e)
    → (if hash_get_bucket p (key_at h e) == i then n else 0)
      ≡ (if hash_get_bucket p (key_at h' e) == i then n else 0)
bucket_frame h h' p e i zero same = ground arith
bucket_frame h h' p e i (suc n) same = rw (same (omega arith))

-- Memory outside a partition may change.
pub Linked-frame :
    {h h' : Heap} {p : Partition} {extra : ℕ} {es : List Ptr}
    → Linked h p extra es
    → ((e : Ptr) → 0 < occurs e es → h' e ≡ h e)
    → Linked h' p extra es
Linked-frame {h} {h'} {p} {extra} {es} v same = record {
  buckets = v.buckets;
  nonempty = v.nonempty;
  once = v.once;
  live = λ e i. let (x, l) = v.live e i in (x, same e i ∙ l);
  placed = λ e i lt. v.placed e i lt ∙ bucket_frame h h' p e i (occurs e es) (same e);
  unique = λ e f i j k. v.unique e f i j (sym (ap key_in (same e i)) ∙ k ∙ ap key_in (same f j));
  lru_order = v.lru_order;
  accounted =
      v.accounted
      ∙ ap (λ t. extra + t)
          (sym (total_congr (size_at h') (size_at h) es (λ e i. ap size_in (same e i))));
  sizes = v.sizes;
}

-- What an element of the partition looks like may change, but for its key and its size.
pub Linked-recount :
    {h h' : Heap} {p : Partition} {extra : ℕ} {es : List Ptr}
    → Linked h p extra es
    → ((e : Ptr)
        → 0 < occurs e es
        → (x : Elem) × (h' e ≡ some x) × (x.key ≡ key_at h e) × (x.size ≡ size_at h e))
    → Linked h' p extra es
Linked-recount {h} {h'} {p} {extra} {es} v same =
    let key : (e : Ptr) → 0 < occurs e es → key_at h' e ≡ key_at h e =
      λ e i. let (x, l, k, n) = same e i in ap key_in l ∙ k in
    let size : (e : Ptr) → 0 < occurs e es → size_at h' e ≡ size_at h e =
      λ e i. let (x, l, k, n) = same e i in ap size_in l ∙ n in
    record {
      buckets = v.buckets;
      nonempty = v.nonempty;
      once = v.once;
      live = λ e i. let (x, l, k, n) = same e i in (x, l);
      placed = λ e i lt. v.placed e i lt ∙ rekeyed p i (occurs e es) (key e);
      unique = λ e f i j k. v.unique e f i j (sym (key e i) ∙ k ∙ key f j);
      lru_order = v.lru_order;
      accounted =
          v.accounted ∙ ap (λ t. extra + t) (sym (total_congr (size_at h') (size_at h) es size));
      sizes = v.sizes;
    }
  where
    rekeyed :
        (p : Partition) (i n : ℕ) {k k' : ℕ}
        → (0 < n → k' ≡ k)
        → (if hash_get_bucket p k == i then n else 0) ≡ (if hash_get_bucket p k' == i then n else 0)
    rekeyed p i zero same = ground arith
    rekeyed p i (suc n) same = rw (same (omega arith))

-- A store of a count word.
pub Linked-count :
    {h : Heap} {p : Partition} {extra : ℕ} {es : List Ptr} (e : Ptr) (x : Elem) (c : ℕ)
    → Linked h p extra es
    → h e ≡ some x
    → Linked (update h e (some (record x { ref_count = c }))) p extra es
Linked-count {h} {p} {extra} {es} e x c v l = Linked-recount v (λ q i. elim (ℕ_discrete e q) [
  | yes same ↦
      let there : h q ≡ some x = ap h (sym same) ∙ l in
      (
        record x { ref_count = c },
        rw (eq→== e q same),
        sym (ap key_in there),
        sym (ap size_in there),
      )
  | no other ↦
      let (y, there) = v.live q i in
      (y, rw (ne→== e q other) there, sym (ap key_in there), sym (ap size_in there))
])

-- The same elements in another order.
pub Linked-reorder :
    {h : Heap} {p p' : Partition} {extra : ℕ} {es es' : List Ptr}
    → Linked h p extra es
    → ((e : Ptr) → occurs e es' ≡ occurs e es)
    → total (size_at h) es' ≡ total (size_at h) es
    → p'.table ≡ p.table
    → p'.nhash ≡ p.nhash
    → p'.size ≡ p.size
    → (p'.evictalgo ≡ evict_lru → p'.lru ≡ es')
    → Linked h p' extra es'
Linked-reorder {h} {p} {p'} {extra} {es} {es'} v same sum table nhash size order = record {
  buckets = rw (table, nhash) v.buckets;
  nonempty = rw nhash v.nonempty;
  once = λ e. rw (same e) (v.once e);
  live = λ e i. v.live e (rw (same e) at i);
  placed = λ e i lt. rw (table, nhash, same e) (v.placed e i (rw nhash at lt));
  unique = λ e f i j k. v.unique e f (rw (same e) at i) (rw (same f) at j) k;
  lru_order = order;
  accounted = size ∙ v.accounted ∙ ap (λ t. extra + t) (sym sum);
  sizes = rw size v.sizes;
}

module _ {h : Heap} {p : Partition} {extra : ℕ} {es : List Ptr} (v : Linked h p extra es) where
  pub bucket_in : (key : ℕ) → hash_get_bucket p key < p.nhash
  bucket_in key = mod-lt key v.nonempty

  -- What stands in the chain of a key is an element of the partition, in its own bucket.
  pub chain_member : (key : ℕ) (e : Ptr) → 0 < occurs e (chain_of p key) → 0 < occurs e es
  chain_member key e i =
      let q = v.placed e (hash_get_bucket p key) (bucket_in key) in ground (arith, q)

  -- An element stands in the chain of its key as often as in the partition.
  pub chain_home : (e : Ptr) → occurs e (chain_of p (key_at h e)) ≡ occurs e es
  chain_home e =
      v.placed e (hash_get_bucket p (key_at h e)) (bucket_in (key_at h e))
      ∙ ap (λ t. if t then occurs e es else 0)
          (eq→== (hash_get_bucket p (key_at h e)) (hash_get_bucket p (key_at h e)) refl)

  -- A dereferenced element.
  pub deref-ok : (e : Ptr) → 0 < occurs e es → Returns (deref h e) (λ x. h e ≡ some x)
  deref-ok e i = let (x, l) = v.live e i in (x, rw (l, deref), l)
