-- ===== src/Server/Inserting.antt =====
-- `case HASHOP_INSERT`, with the counts of what the table drops.
use smphash_table.Base.{
  ℕ, ◌+◌, ◌≤◌, ◌≡◌, ◌≢◌, refl, sym, subst, ◌∙◌, none, some, Bool, true, List, ◌∷◌, ◌++◌, arith,
  ◌==◌, if◌then◌else◌, eq→==, ne→==, bit_or, ok, Returns, ℕ_discrete,
}
use smphash_table.Memory.{Ptr, Elem, Heap, update, deref, data_ready_mask, mp_release}
use smphash_table.Memory.Life.{Counted, Owned, Owns, held-live, mp_release-Owns}
use smphash_table.Partition.{Partition, Allocator, rounded_size, hash_insert}
use smphash_table.Partition.Lists.{occurs, occurs-cons}
use smphash_table.Partition.Linked.{Linked, Linked-reorder, Linked-count}
use smphash_table.Partition.Lookup.{find}
use smphash_table.Partition.Remove.{mp-Releaser}
use smphash_table.Partition.Evict.{Succeeds}
use smphash_table.Partition.Insert.{without, Inserted, hash_insert_refines}
use smphash_table.Server.{State, value_of, inc32, serve_insert}
use smphash_table.Server.Serving.{Serving, more, occurs-Owns}
use smphash_table.Partition.Unlinked.{Unlinks, kept-Own}

abbrev pub started : (Ptr → Bool) → Ptr → Ptr → Bool
started writing e q = if e == q then true else writing q

-- An entry of the table goes; the references stay.
unlinked-Owns :
    {h h' : Heap} {n n' refs : Ptr → ℕ} {writing : Ptr → Bool} (e : Ptr)
    → Owns h n refs writing
    → mp_release e h ≡ ok h'
    → n e ≡ 1
    → n' e ≡ 0
    → ((q : Ptr) → q ≢ e → n' q ≡ n q)
    → Owns h' n' refs writing
unlinked-Owns e o run one zero others =
    let (x, l, k) = held-live o e (omega arith) in
    mp_release-Owns e o run (omega arith) k.writer (λ i. absurd (omega arith))
      (λ q n. (others q n, refl, refl))

Owns-Unlinks :
    (refs : Ptr → ℕ) (writing : Ptr → Bool) → Unlinks mp_release (λ h n. Owns h n refs writing)
Owns-Unlinks refs writing = record {
  same = λ h n n' o same. occurs-Owns h n n' refs writing o same;
  unlink = λ h h' n n' e o run one zero others. unlinked-Owns e o run one zero others;
}

-- The new element at an address that nobody holds: one entry, and one reference, of its writer.
placed-Owns :
    (h g : Heap) (n refs : Ptr → ℕ) (writing : Ptr → Bool) (e : Ptr) (x : Elem)
    → Owns h n refs writing
    → h e ≡ none
    → g e ≡ some x
    → ((q : Ptr) → q ≢ e → g q ≡ h q)
    → (refs e ≡ 0)
      × Owns
          (update g e (some (record x { ref_count = bit_or data_ready_mask 2 })))
          (λ q. (if q == e then 1 else 0) + n q)
          (more refs e)
          (started writing e)
placed-Owns h g n refs writing e x o fresh there others =
    let dead : Owned none (n e) (refs e) (writing e) =
      subst (λ v. Owned v (n e) (refs e) (writing e)) fresh (o.owned e) in
    let (no_entry, no_ref, idle) = dead in
    let x' : Elem = record x { ref_count = bit_or data_ready_mask 2 } in
    (
      no_ref,
      record {
        owned = λ q. elim (ℕ_discrete e q) [
          | yes same ↦
              rw (eq→== e q same, eq→== q e (sym same))
                (subst (λ t. Counted x' (1 + n t) (refs t + 1) true) same
                  (record {
                    count = omega arith;
                    held = omega arith;
                    word = omega arith;
                    writer = λ t. omega arith;
                    ready = λ l f. absurd (cc);
                    unready = λ l t. omega arith;
                  }))
          | no other ↦
              rw (ne→== e q other, ne→== q e (λ t. other (sym t)), others q (λ t. other (sym t)))
                (rw (zero_left (n q)) (o.owned q))
        ];
      },
    )
  where
    zero_left : (m : ℕ) → 0 + m ≡ m
    zero_left m = omega arith

-- The answer to an insert and the state behind it: the client gets the address of the value of a new
-- element with the key, which nobody holds but it and the table, and whose value is being written.
-- The references to all other elements stay, to the ones that leave the table as well.
pub record Stored (key size : ℕ) (s : State) (es : List Ptr) (refs : Ptr → ℕ) (writing : Ptr → Bool)
    (r : ℕ × State) : Type 0 where
  pub e : Ptr
  pub answer : r.0 ≡ value_of e
  pub kept : List Ptr
  pub dropped : List Ptr
  pub split : without (find s.heap key es) es ≡ kept ++ dropped
  pub unheld : refs e ≡ 0
  pub element :
      r.1.heap e
      ≡ some (record { key = key; ref_count = bit_or data_ready_mask 2; size = rounded_size size })
  pub serving : Serving r.1 (e ∷ kept) (more refs e) (started writing e)

abbrev inserting : State → Partition
inserting s = record s.part { ninserts = inc32 s.part.ninserts }

insert_answer :
    {alloc : Allocator} {key size : ℕ} {s : State} {es : List Ptr} {refs : Ptr → ℕ}
    {writing : Ptr → Bool} (z : Serving s es refs writing) (r : Ptr × Heap × Partition × List ℕ)
    → hash_insert alloc mp_release s.clock key size s.heap (inserting s) ≡ ok r
    → Inserted alloc mp_release key size s.heap (inserting s) es r
    → Returns (serve_insert alloc key size s) (Stored key size s es refs writing)
unfolding serve_insert
insert_answer {alloc} {key} {size} {s} {es} {refs} {writing} z (e, h, p, ts) run k =
    let x : Elem = record { key = key; ref_count = alloc.stale e; size = rounded_size size } in
    let o₃ = kept-Own (Owns-Unlinks refs writing) k z.linked.once z.owns in
    let (unheld, o₄) =
      placed-Owns k.heap h (λ q. occurs q k.kept) refs writing e x o₃ k.fresh k.element
        k.elsewhere in
    (
      (
        value_of e,
        record {
          heap = update h e (some (record x { ref_count = bit_or data_ready_mask 2 }));
          part = p;
          clock = ts;
        },
      ),
      rw run (rw (k.element, deref)),
      record {
        e = e;
        answer = refl;
        kept = k.kept;
        dropped = k.dropped;
        split = k.split;
        unheld = unheld;
        element = rw (eq→== e e refl);
        serving = record {
          linked = Linked-count e x (bit_or data_ready_mask 2) k.linked k.element;
          algo = k.evictalgo ∙ z.algo;
          fits = k.fits;
          bound = omega (arith, k.max_size, z.bound);
          owns = record { owned = λ q. rw (occurs-cons q e k.kept) (o₄.owned q) };
        };
      },
    )

-- An insert of a value that fits max_size returns while there is memory. Its answer is the address of
-- a new element with the key that no client held before and whose value is still to be written; what
-- leaves the table for it keeps its memory as long as a client holds it.
pub serve_insert_refines :
    {alloc : Allocator} {s : State} {es : List Ptr} {refs : Ptr → ℕ} {writing : Ptr → Bool}
    (key size : ℕ)
    → Serving s es refs writing
    → Succeeds alloc s.heap
    → rounded_size size ≤ s.part.max_size
    → Returns (serve_insert alloc key size s) (Stored key size s es refs writing)
serve_insert_refines {s = s} key size z mem small =
    let counted : Linked s.heap (inserting s) 0 _ =
      Linked-reorder z.linked (λ q. refl) refl refl refl refl (λ a. z.linked.lru_order a) in
    let (r, run, k) =
      hash_insert_refines mem mp-Releaser s.clock key size counted z.algo small z.fits z.bound in
    insert_answer z r run k
