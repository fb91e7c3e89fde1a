-- ===== src/Locking/Inserts.antt =====
-- locking_hash_insert: the partition under its lock, before and after.
use native.Mathlib.Nat.{mod-lt}
use smphash_table.Base.{
  ℕ, ◌+◌, ◌%◌, ◌≤◌, ◌<◌, ◌≡◌, ◌≢◌, refl, sym, subst, ◌∙◌, none, some, Bool, true, List, ◌∷◌, ◌++◌,
  length, arith, ◌==◌, if◌then◌else◌, eq→==, ne→==, bit_or, ok, Returns, ℕ_discrete,
}
use smphash_table.Memory.{Ptr, Elem, Heap, update, deref, data_ready_mask, atomic_release}
use smphash_table.Partition.{Partition, Allocator, rounded_size, hash_insert}
use smphash_table.Partition.Lists.{occurs, occurs-cons}
use smphash_table.Partition.Linked.{Linked, Linked-reorder, Linked-count}
use smphash_table.Partition.Lookup.{find}
use smphash_table.Partition.Remove.{atomic-Releaser}
use smphash_table.Partition.Evict.{Succeeds}
use smphash_table.Partition.Insert.{without, Inserted, hash_insert_refines}
use smphash_table.Partition.Unlinked.{kept-Own}
use smphash_table.Server.{State, value_of, inc32}
use smphash_table.Locking.{Shared, entered, left, locked_insert, locking_hash_insert}
use smphash_table.Locking.Shares.{SharesAll, Shares, InUse, SharesAll-Unlinks}
use smphash_table.Locking.Lookups.{Sharing, SameElsewhere, entered-left}

abbrev pub begun : (Ptr → Bool) → Ptr → Ptr → Bool
begun writing e q = if e == q then true else writing q

-- The new element at an address that nobody holds: one entry, and the bit of its writer.
placed-SharesAll :
    (h g : Heap) (n refs : Ptr → ℕ) (writing : Ptr → Bool) (e : Ptr) (x : Elem)
    → SharesAll h n refs writing
    → h e ≡ none
    → g e ≡ some x
    → ((q : Ptr) → q ≢ e → g q ≡ h q)
    → (refs e ≡ 0)
      × SharesAll
          (update g e (some (record x { ref_count = bit_or data_ready_mask 1 })))
          (λ q. (if q == e then 1 else 0) + n q)
          refs
          (begun writing e)
placed-SharesAll h g n refs writing e x o fresh there others =
    let dead : InUse none (n e) (refs e) (writing e) =
      subst (λ v. InUse v (n e) (refs e) (writing e)) fresh (o.owned e) in
    let (no_entry, no_ref, idle) = dead in
    let x' : Elem = record x { ref_count = bit_or data_ready_mask 1 } in
    (
      no_ref,
      record {
        owned = λ q. elim (ℕ_discrete e q) [
          | yes same ↦
              rw (eq→== e q same, eq→== q e (sym same))
                (subst (λ t. Shares x' (1 + n t) (refs t) true) same
                  (record { count = omega arith; held = omega arith; few = omega arith }))
          | no other ↦
              rw (ne→== e q other, ne→== q e (λ t. other (sym t)), others q (λ t. other (sym t)))
                (rw (zero_left (n q)) (o.owned q))
        ];
      },
    )
  where
    zero_left : (m : ℕ) → 0 + m ≡ m
    zero_left m = omega arith

-- The answer to an insert and the state behind it: the address of the value of a new element with
-- the key, which the table alone holds while its value is being written. The references to all other
-- elements stay, to the ones that leave the table as well.
pub record Added (key size : ℕ) (s : State) (es : List Ptr) (refs : Ptr → ℕ) (writing : Ptr → Bool)
    (r : ℕ × State) : Type 0 where
  pub e : Ptr
  pub answer : r.0 ≡ value_of e
  pub kept : List Ptr
  pub dropped : List Ptr
  pub split : without (find s.heap key es) es ≡ kept ++ dropped
  pub unheld : refs e ≡ 0
  pub element :
      r.1.heap e
      ≡ some (record { key = key; ref_count = bit_or data_ready_mask 1; size = rounded_size size })
  pub sharing : Sharing r.1 (e ∷ kept) refs (begun writing e)

abbrev adding : State → Partition
adding s = record s.part { ninserts = inc32 s.part.ninserts }

add_answer :
    {alloc : Allocator} {key size : ℕ} {s : State} {es : List Ptr} {refs : Ptr → ℕ}
    {writing : Ptr → Bool} (z : Sharing s es refs writing) (r : Ptr × Heap × Partition × List ℕ)
    → hash_insert alloc atomic_release s.clock key size s.heap (adding s) ≡ ok r
    → Inserted alloc atomic_release key size s.heap (adding s) es r
    → Returns (locked_insert alloc key size s) (Added key size s es refs writing)
unfolding locked_insert
add_answer {alloc} {key} {size} {s} {es} {refs} {writing} z (e, h, p, ts) run k =
    let x : Elem = record { key = key; ref_count = alloc.stale e; size = rounded_size size } in
    let o = kept-Own (SharesAll-Unlinks refs writing) k z.linked.once z.shares in
    let (unheld, o') =
      placed-SharesAll k.heap h (λ q. occurs q k.kept) refs writing e x o k.fresh k.element
        k.elsewhere in
    (
      (
        value_of e,
        record {
          heap = update h e (some (record x { ref_count = bit_or data_ready_mask 1 }));
          part = p;
          clock = ts;
        },
      ),
      rw run (rw (k.element, deref)),
      record {
        e = e;
        answer = refl;
        kept = k.kept;
        dropped = k.dropped;
        split = k.split;
        unheld = unheld;
        element = rw (eq→== e e refl);
        sharing = record {
          linked = Linked-count e x (bit_or data_ready_mask 1) k.linked k.element;
          algo = k.evictalgo ∙ z.algo;
          fits = k.fits;
          bound = omega (arith, k.max_size, z.bound);
          shares = record { owned = λ q. rw (occurs-cons q e k.kept) (o'.owned q) };
        };
      },
    )

locked_insert_lem :
    {alloc : Allocator} {s : State} {es : List Ptr} {refs : Ptr → ℕ} {writing : Ptr → Bool}
    (key size : ℕ)
    → Sharing s es refs writing
    → Succeeds alloc s.heap
    → rounded_size size ≤ s.part.max_size
    → Returns (locked_insert alloc key size s) (Added key size s es refs writing)
locked_insert_lem {s = s} key size z mem small =
    let counted : Linked s.heap (adding s) 0 _ =
      Linked-reorder z.linked (λ q. refl) refl refl refl refl (λ a. z.linked.lru_order a) in
    let (r, run, k) =
      hash_insert_refines mem atomic-Releaser s.clock key size counted z.algo small z.fits
        z.bound in
    add_answer z r run k

-- On a table with a partition for each server, an insert under the lock of the key's partition
-- returns, while there is memory and the value fits max_size. Its answer is the address of a new
-- element with the key that had no reference before, that the table holds, and whose value is still
-- to be written; what leaves the table for it keeps its memory as long as somebody holds or writes
-- it. The other partitions stay.
pub locking_hash_insert_refines :
    {alloc : Allocator} {es : List Ptr} {refs : Ptr → ℕ} {writing : Ptr → Bool}
    (nservers key size : ℕ) (t : Shared)
    → 0 < nservers
    → length t.partitions ≡ nservers
    → Sharing (entered t (key % nservers)) es refs writing
    → Succeeds alloc t.heap
    → rounded_size size ≤ (entered t (key % nservers)).part.max_size
    → Returns (locking_hash_insert alloc nservers key size t) (λ (value, t').
      Added key size
        (entered t (key % nservers))
        es
        refs
        writing
        (value, entered t' (key % nservers))
      × SameElsewhere t (key % nservers) t')
unfolding locking_hash_insert
locking_hash_insert_refines {alloc} {es} {refs} {writing} nservers key size t some_server parts z
      mem small =
    let s = key % nservers in
    let ((value, st), run, answer) = locked_insert_lem key size z mem small in
    let (there, elsewhere) = entered-left t s st (omega (arith, mod-lt key some_server, parts)) in
    (
      (value, left t s st),
      rw run refl,
      (
        subst (λ u. Added key size (entered t s) es refs writing (value, u)) (sym there) answer,
        elsewhere,
      ),
    )
