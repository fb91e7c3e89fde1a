-- ===== src/Partition/Lookup.antt =====
-- `hash_lookup` against the list of the partition's elements.
use smphash_table.Base.{
  ℕ, ◌<◌, ◌≡◌, refl, sym, ap, subst, ◌∙◌, inl, inr, Option, none, some, List, [], ◌∷◌, arith, ◌==◌,
  if◌then◌else◌, ok, Returns, Bool-cases, Option-cases, ℕ_discrete,
}
use smphash_table.Memory.{Ptr, Elem, Heap}
use smphash_table.Partition.{
  Partition, evict_lru, chain_of, remove, walk, move_to_front, touch, hash_lookup,
}
use smphash_table.Partition.Lists.{occurs, occurs-cons, occurs-remove, total-cons, total-remove}
use smphash_table.Partition.Linked.{
  Linked, Linked-reorder, Absent, key_at, size_at, chain_member, chain_home,
}

-- The first element with the key.
pub find : Heap → ℕ → List Ptr → Option Ptr
find h key [] = none
find h key (e ∷ es) = if key_at h e == key then some e else find h key es

pub find-some :
    (h : Heap) (key : ℕ) (es : List Ptr) (e : Ptr)
    → find h key es ≡ some e
    → (0 < occurs e es) × (key_at h e ≡ key)
unfolding find occurs
find-some h key [] e f = cc
find-some h key (x ∷ es) e f = ground (arith, find-some h key es e)

pub find-none : (h : Heap) (key : ℕ) (es : List Ptr) → find h key es ≡ none → Absent h key es
unfolding find occurs
find-none h key [] f e i k = absurd (omega arith)
find-none h key (x ∷ es) f e i k = elim (ℕ_discrete e x) [
  | yes same ↦ ground arith
  | no other ↦ find-none h key es (ground arith) e (ground arith) k
]

walk-find :
    (h : Heap) (key : ℕ) (c : List Ptr)
    → ((e : Ptr) → 0 < occurs e c → (x : Elem) × (h e ≡ some x))
    → walk h key c ≡ ok (find h key c)
unfolding walk find occurs
walk-find h key [] live = refl
walk-find h key (e ∷ es) live =
    let (x, l) = live e (ground arith) in
    let rest = walk-find h key es (λ q i. live q (ground arith)) in ground arith

module _ {h : Heap} {p : Partition} {extra : ℕ} {es : List Ptr} (v : Linked h p extra es) where
  -- The chain of a key and the whole partition have the same first element with it.
  chain-find : (key : ℕ) → find h key (chain_of p key) ≡ find h key es
  chain-find key = elim (Option-cases (find h key (chain_of p key))) [
    | inl none_here ↦ elim (Option-cases (find h key es)) [
      | inl none_there ↦ none_here ∙ sym none_there
      | inr (e, there) ↦
          let (i, k) = find-some h key es e there in
          let j : 0 < occurs e (chain_of p key) =
            subst (λ t. 0 < occurs e (chain_of p t)) k (rw (chain_home v e) i) in
          absurd (find-none h key (chain_of p key) none_here e j k)
    ]
    | inr (f, here) ↦
        let (j, k) = find-some h key (chain_of p key) f here in
        let in_es = chain_member v key f j in
        elim (Option-cases (find h key es)) [
          | inl none_there ↦ absurd (find-none h key es none_there f in_es k)
          | inr (e, there) ↦
              let (i, l) = find-some h key es e there in
              here ∙ ap some (v.unique f e in_es i (k ∙ sym l)) ∙ sym there
        ]
  ]

  pub walk_chain : (key : ℕ) → walk h key (chain_of p key) ≡ ok (find h key es)
  walk_chain key =
      walk-find h key (chain_of p key) (λ e i. v.live e (chain_member v key e i))
      ∙ ap ok (chain-find key)

-- The order of the elements after one is used.
abbrev pub used : Partition → Option Ptr → List Ptr → List Ptr
used p none es = es
used p (some e) es = if p.evictalgo == evict_lru then e ∷ remove e es else es

touched : Partition → Option Ptr → Partition
touched p none = p
touched p (some e) = touch p e

pub occurs-used :
    (q e : Ptr) (es : List Ptr) → 0 < occurs e es → occurs q (e ∷ remove e es) ≡ occurs q es
occurs-used q e es i = ground (arith, occurs-cons q e (remove e es), occurs-remove q e es)

touched-Linked :
    {h : Heap} {p : Partition} {extra : ℕ} {es : List Ptr}
    → Linked h p extra es
    → (r : Option Ptr) → ((e : Ptr) → r ≡ some e → 0 < occurs e es)
    → Linked h (touched p r) extra (used p r es)
unfolding touched touch move_to_front
touched-Linked v none i = v
touched-Linked {h} {p} {extra} {es} v (some e) i = elim (Bool-cases (p.evictalgo == evict_lru)) [
  | inl lru ↦ rw lru (
      Linked-reorder {p = p} {p' = move_to_front p e} v (λ q. occurs-used q e es (i e refl))
        (total-cons (size_at h) e (remove e es)
          ∙ omega (arith, total-remove (size_at h) e es (i e refl)))
        refl refl refl (λ a. ap (λ t. e ∷ remove e t) (v.lru_order a)))
  | inr random ↦ rw random v
]

-- What a lookup returns and leaves.
pub record LookedUp (h : Heap) (p : Partition) (extra key : ℕ) (es : List Ptr)
    (r : Option Ptr × Partition) : Type 0 where
  pub found : r.0 ≡ find h key es
  pub linked : Linked h r.1 extra (used p r.0 es)
  pub table : r.1.table ≡ p.table
  pub nhash : r.1.nhash ≡ p.nhash
  pub evictalgo : r.1.evictalgo ≡ p.evictalgo
  pub max_size : r.1.max_size ≡ p.max_size
  pub size : r.1.size ≡ p.size

lookup_run :
    (h : Heap) (p : Partition) (key : ℕ) (r : Option Ptr)
    → walk h key (chain_of p key) ≡ ok r
    → hash_lookup h p key ≡ ok (r, touched p r)
unfolding hash_lookup touched
lookup_run h p key none e = rw e
lookup_run h p key (some x) e = rw e

touched_fields :
    (p : Partition) (r : Option Ptr)
    → ((touched p r).table ≡ p.table)
      × ((touched p r).nhash ≡ p.nhash)
      × ((touched p r).evictalgo ≡ p.evictalgo)
      × ((touched p r).max_size ≡ p.max_size)
      × ((touched p r).size ≡ p.size)
unfolding touched touch move_to_front
touched_fields p none = (refl, refl, refl, refl, refl)
touched_fields p (some e) = ground arith

-- A lookup reads no memory that is not allocated, finds the element of the key if the partition has
-- one, and with EVICT_LRU moves it to the front of the order of use; nothing else changes.
pub hash_lookup_refines :
    {h : Heap} {p : Partition} {extra : ℕ} {es : List Ptr} (key : ℕ)
    → Linked h p extra es
    → Returns (hash_lookup h p key) (LookedUp h p extra key es)
hash_lookup_refines {h} {p} {extra} {es} key v =
    let r = find h key es in
    let (t, n, a, m, z) = touched_fields p r in
    (
      (r, touched p r),
      lookup_run h p key r (walk_chain v key),
      record {
        found = refl;
        linked = touched-Linked v r (λ e f. (find-some h key es e f).0);
        table = t;
        nhash = n;
        evictalgo = a;
        max_size = m;
        size = z;
      },
    )
