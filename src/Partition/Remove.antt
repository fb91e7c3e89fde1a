-- ===== src/Partition/Remove.antt =====
-- `hash_remove`, and its pairing with a release.
use smphash_table.Base.{
  ℕ, ◌+◌, ◌-◌, ◌%◌, ◌^◌, ◌≤◌, ◌<◌, ◌≡◌, ◌≢◌, refl, sym, ap, subst, ◌∙◌, none, some, List, [], arith,
  ◌==◌, if◌then◌else◌, length, length-set, get_or, set, get_or-set, eq→==, ne→==, Run, ok, Returns,
  ℕ_discrete,
}
use smphash_table.Memory.{Ptr, Elem, Heap, deref, dec64, put_count, mp_release, atomic_release}
use smphash_table.Memory.Counts.{mp_release-put, atomic_release-put, put_count-elsewhere}
use smphash_table.Partition.{
  Partition, evict_lru, hash_get_bucket, chain_of, remove, unlinked, hash_remove,
}
use smphash_table.Partition.Lists.{occurs, occurs-remove, total, total-remove}
use smphash_table.Partition.Linked.{
  Linked, Linked-frame, Absent, key_in, size_in, key_at, size_at, bucket_in,
}

-- What a partition asks of the release function that it is given.
pub record Releaser (release : Ptr → Heap → Run Heap) : Type 0 where
  pub releases :
      (e : Ptr) (h : Heap) {x : Elem}
      → h e ≡ some x
      → Returns (release e h) (λ h'. (q : Ptr) → q ≢ e → h' q ≡ h q)

pub occurs-remove-le : (q e : Ptr) (es : List Ptr) → occurs q (remove e es) ≤ occurs q es
occurs-remove-le q e es = ground (arith, occurs-remove q e es)

pub removed_ne : (q e : Ptr) (es : List Ptr) → occurs e es ≤ 1 → 0 < occurs q (remove e es) → q ≢ e
removed_ne q e es once j same =
    let here : 0 < occurs e (remove e es) = subst (λ t. 0 < occurs t (remove e es)) same j in
    ground (arith, occurs-remove e e es)

-- The two tests of a chain's count, in the bucket that changes and in the others.
count_here :
    (q e k b j n : ℕ)
    → b ≡ j
    → (if q == e then (if k == b then n else 0) - 1 else (if k == b then n else 0))
      ≡ (if k == j then (if q == e then n - 1 else n) else 0)
count_here q e k b j n at = ground arith

count_there :
    (q e k j n : ℕ)
    → (q ≡ e → k ≢ j)
    → (if k == j then n else 0) ≡ (if k == j then (if q == e then n - 1 else n) else 0)
count_there q e k j n off = elim (ℕ_discrete q e) [
  | yes same ↦ rw (ne→== k j (off same))
  | no other ↦ rw (ne→== q e other)
]

module _ {h : Heap} {p : Partition} {extra : ℕ} {es : List Ptr} (v : Linked h p extra es) (e : Ptr)
    (i : 0 < occurs e es) {x : Elem} (l : h e ≡ some x) where
  abbrev bucket : ℕ
  bucket = hash_get_bucket p x.key

  home : hash_get_bucket p (key_at h e) ≡ bucket
  home = ap (λ o. hash_get_bucket p (key_in o)) l

  in_table : bucket < length p.table
  in_table = rw v.buckets (bucket_in v x.key)

  unlinked-placed :
      (q : Ptr) (j : ℕ)
      → j < p.nhash
      → occurs q (get_or (set p.table bucket (remove e (chain_of p x.key))) j [])
        ≡ (if hash_get_bucket p (key_at h q) == j then occurs q (remove e es) else 0)
  unlinked-placed q j lt =
      rw (get_or-set p.table bucket j (remove e (chain_of p x.key)) [] in_table)
        (elim (ℕ_discrete bucket j) [
          | yes at ↦
              rw
                (
                  eq→== bucket j at,
                  occurs-remove q e (chain_of p x.key),
                  occurs-remove q e es,
                  v.placed q bucket (bucket_in v x.key),
                )
                (count_here q e (hash_get_bucket p (key_at h q)) bucket j (occurs q es) at)
          | no off ↦
              rw (ne→== bucket j off, occurs-remove q e es, v.placed q j lt)
                (count_there q e (hash_get_bucket p (key_at h q)) j (occurs q es) (λ same k.
                  off (sym home ∙ ap (λ t. hash_get_bucket p (key_at h t)) (sym same) ∙ k)))
        ])

  -- The size drops by the size of the element, without a wrap.
  unlinked-size : (p.size + 2 ^ 64 - x.size) % 2 ^ 64 ≡ extra + total (size_at h) (remove e es)
  unlinked-size =
      let whole = total-remove (size_at h) e es i in
      let own : size_at h e ≡ x.size = ap size_in l in
      omega (arith, whole, own, v.accounted, v.sizes)

  pub unlinked-Linked : Linked h (unlinked p e x) extra (remove e es)
  unlinked-Linked = record {
    buckets = length-set p.table bucket (remove e (chain_of p x.key)) ∙ v.buckets;
    nonempty = v.nonempty;
    once = λ q. omega (arith, v.once q, occurs-remove-le q e es);
    live = λ q j. v.live q (omega (arith, occurs-remove-le q e es));
    placed = unlinked-placed;
    unique = λ q r j k same.
        v.unique q r (omega (arith, occurs-remove-le q e es))
          (omega (arith, occurs-remove-le r e es)) same;
    lru_order = λ a. rw (eq→== p.evictalgo evict_lru a, v.lru_order a);
    accounted = unlinked-size;
    sizes = omega arith;
  }

  -- The key of a removed element is absent afterwards.
  pub removed-Absent : Absent h x.key (remove e es)
  removed-Absent q j k =
      let same : q ≡ e =
        v.unique q e (omega (arith, occurs-remove-le q e es)) i (k ∙ sym (ap key_in l)) in
      removed_ne q e es (v.once e) j same

pub Absent-frame :
    (h h' : Heap) (key : ℕ) (es : List Ptr)
    → Absent h key es
    → ((q : Ptr) → 0 < occurs q es → h' q ≡ h q)
    → Absent h' key es
Absent-frame h h' key es a same q i k = a q i (sym (ap key_in (same q i)) ∙ k)

-- An element is unlinked and then released; the other elements are not touched.
pub record Dropped (h : Heap) (p : Partition) (extra : ℕ) (e : Ptr) (es : List Ptr) (h' : Heap)
    (p' : Partition) : Type 0 where
  pub linked : Linked h' p' extra (remove e es)
  pub frame : (q : Ptr) → q ≢ e → h' q ≡ h q
  pub shrinks : (q : Ptr) → h q ≡ none → h' q ≡ none
  pub nhash : p'.nhash ≡ p.nhash
  pub evictalgo : p'.evictalgo ≡ p.evictalgo
  pub max_size : p'.max_size ≡ p.max_size

module _ {release : Ptr → Heap → Run Heap} (rel : Releaser release) where
  pub drop-Dropped :
      {h : Heap} {p : Partition} {extra : ℕ} {es : List Ptr}
      → Linked h p extra es
      → (e : Ptr) → 0 < occurs e es
      → (p' : Partition) × (h' : Heap) × (hash_remove h p e ≡ ok p')
        × (release e h ≡ ok h')
        × Dropped h p extra e es h' p'
  unfolding hash_remove
  drop-Dropped {h} {p} {extra} {es} v e i =
      let (x, l) = v.live e i in
      let (h', run, frame) = rel.releases e h l in
      (
        unlinked p e x,
        h',
        rw (deref, l),
        run,
        record {
          linked =
              Linked-frame (unlinked-Linked v e i l)
                (λ q j. frame q (removed_ne q e es (v.once e) j));
          frame = frame;
          shrinks =
              λ q z. frame q (λ s. let at : h e ≡ none = subst (λ t. h t ≡ none) s z in cc) ∙ z;
          nhash = refl;
          evictalgo = refl;
          max_size = refl;
        },
      )

-- Both release functions serve.
pub mp-Releaser : Releaser mp_release
mp-Releaser = record {
  releases = λ e h {x} l. (
    put_count h e x (dec64 (x.ref_count % 2 ^ 63)),
    mp_release-put e h x l,
    put_count-elsewhere e h x l (dec64 (x.ref_count % 2 ^ 63)),
  );
}

pub atomic-Releaser : Releaser atomic_release
atomic-Releaser = record {
  releases = λ e h {x} l. (
    put_count h e x (dec64 x.ref_count),
    atomic_release-put e h x l,
    put_count-elsewhere e h x l (dec64 x.ref_count),
  );
}
