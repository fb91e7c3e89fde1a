-- ===== src/Locking/Frees.antt =====
-- atomic_release_value and atomic_mark_ready: what clients do to elements without a lock.
use smphash_table.Base.{
  ℕ, ◌+◌, ◌-◌, ◌%◌, ◌^◌, ◌<◌, ◌≡◌, ◌≢◌, ◌↔◌, refl, sym, ap, subst, ◌∙◌, none, some, Bool, true,
  false, List, inl, inr, Bool-cases, arith, ◌==◌, if◌then◌else◌, eq→==, ne→==, Returns, ℕ_discrete,
}
use smphash_table.Memory.{Ptr, Elem, put_count, dec64}
use smphash_table.Memory.Counts.{
  atomic_release-put, atomic_ready-put, put_count-elsewhere, put_count-here, put_count-freed,
}
use smphash_table.Partition.Lists.{occurs}
use smphash_table.Partition.Linked.{Linked-recount, key_in, size_in}
use smphash_table.Server.{State, value_of}
use smphash_table.Locking.{Shared, entered, atomic_release_value, atomic_mark_ready}
use smphash_table.Locking.Shares.{
  SharesAll, bit_of, shared-live, release-SharesAll, ready-SharesAll, finished,
}
use smphash_table.Locking.Lookups.{Sharing}

abbrev pub one_less : (Ptr → ℕ) → Ptr → Ptr → ℕ
one_less refs e q = if e == q then refs q - 1 else refs q

-- A new count of one element, which stays if the table holds it.
recount-Sharing :
    {s : State} {es : List Ptr} {refs refs' : Ptr → ℕ} {writing writing' : Ptr → Bool} (e : Ptr)
    (x : Elem) (c : ℕ)
    → Sharing s es refs writing
    → s.heap e ≡ some x
    → SharesAll (put_count s.heap e x c) (λ q. occurs q es) refs' writing'
    → (0 < occurs e es → c ≢ 0)
    → Sharing (record s { heap = put_count s.heap e x c }) es refs' writing'
recount-Sharing {s} {es} e x c z l o stays = record {
  linked = Linked-recount z.linked (λ q i. elim (ℕ_discrete e q) [
    | yes same ↦
        let there : s.heap q ≡ some x = ap s.heap (sym same) ∙ l in
        (
          record x { ref_count = c },
          ap (put_count s.heap e x c) (sym same)
              ∙ put_count-here e s.heap x l c
              ∙ rw (ne→== c 0 (stays (subst (λ t. 0 < occurs t es) (sym same) i))),
          sym (ap key_in there),
          sym (ap size_in there),
        )
    | no other ↦
        let (y, there) = z.linked.live q i in
        (
          y,
          put_count-elsewhere e s.heap x l c q (λ t. other (sym t)) ∙ there,
          sym (ap key_in there),
          sym (ap size_in there),
        )
  ]);
  algo = z.algo;
  fits = z.fits;
  bound = z.bound;
  shares = o;
}

value-elem : (e : Ptr) → e < 2 ^ 64 → ((e + 64) % 2 ^ 64 + 2 ^ 64 - 64) % 2 ^ 64 ≡ e
value-elem e small = omega arith

-- A client that holds a reference to an element gives it back without a lock: the element has one
-- reference less, and it is freed exactly if it is not being written and neither a table nor a client
-- holds it any longer. Nothing else changes.
pub atomic_release_value_refines :
    {es : List Ptr} {refs : Ptr → ℕ} {writing : Ptr → Bool} (t : Shared) (i : ℕ) (e : Ptr)
    → e < 2 ^ 64
    → Sharing (entered t i) es refs writing
    → 0 < refs e
    → Returns (atomic_release_value (value_of e) t) (λ t'.
      Sharing (entered t' i) es (one_less refs e) writing
      × (t'.partitions ≡ t.partitions)
      × ((t'.heap e ≡ none) ↔ ((occurs e es + refs e ≡ 1) × (writing e ≡ false))))
unfolding atomic_release_value
atomic_release_value_refines {es} {refs} {writing} t i e small z held =
    let (x, l, k) = shared-live z.shares e (omega arith) in
    let c = dec64 x.ref_count in
    let less : one_less refs e e ≡ refs e - 1 = rw (eq→== e e refl) in
    let one : c + 1 ≡ occurs e es + refs e + bit_of (writing e) = elim (Bool-cases (writing e)) [
      | inl busy ↦ omega (arith, k.count, k.few, ap bit_of busy)
      | inr idle ↦ omega (arith, k.count, k.few, ap bit_of idle)
    ] in
    let o =
      release-SharesAll {refs' = one_less refs e} e z.shares (atomic_release-put e t.heap x l)
        (omega (arith, less)) (λ q m. (refl, rw (ne→== e q (λ u. m (sym u))))) in
    let freed = put_count-freed e t.heap x l c in
    (
      record t { heap = put_count t.heap e x c },
      rw (value-elem e small, atomic_release-put e t.heap x l),
      (
        recount-Sharing e x c z l o (λ i. λ gone. absurd (omega (arith, one, gone))),
        refl,
        (
          λ gone.
              let zero : c ≡ 0 = freed.0 gone in
              elim (Bool-cases (writing e)) [
                | inl busy ↦ absurd (omega (arith, one, zero, ap bit_of busy))
                | inr idle ↦ (omega (arith, one, zero, ap bit_of idle), idle)
              ],
          λ (last, idle). freed.1 (omega (arith, one, last, ap bit_of idle)),
        ),
      ),
    )

-- The client that has written a new value marks it ready: lookups may hand it out from then on, or,
-- if it has left the table in the meantime and nobody holds it, it is freed.
pub atomic_mark_ready_refines :
    {es : List Ptr} {refs : Ptr → ℕ} {writing : Ptr → Bool} (t : Shared) (i : ℕ) (e : Ptr)
    → e < 2 ^ 64
    → Sharing (entered t i) es refs writing
    → writing e ≡ true
    → Returns (atomic_mark_ready (value_of e) t) (λ t'.
      Sharing (entered t' i) es refs (finished writing e)
      × (t'.partitions ≡ t.partitions)
      × ((t'.heap e ≡ none) ↔ (occurs e es + refs e ≡ 0)))
unfolding atomic_mark_ready
atomic_mark_ready_refines {es} {refs} {writing} t i e small z busy =
    let (x, l, k) = shared-live z.shares e (omega (arith, ap bit_of busy)) in
    let c = x.ref_count % 2 ^ 63 in
    let left : c ≡ occurs e es + refs e = omega (arith, k.count, k.few, ap bit_of busy) in
    let o = ready-SharesAll e z.shares (atomic_ready-put e t.heap x l) busy in
    let freed = put_count-freed e t.heap x l c in
    (
      record t { heap = put_count t.heap e x c },
      rw (value-elem e small, atomic_ready-put e t.heap x l),
      (
        recount-Sharing e x c z l o (λ i. λ gone. absurd (omega (arith, left, gone))),
        refl,
        (λ gone. sym left ∙ freed.0 gone, λ none_left. freed.1 (left ∙ none_left)),
      ),
    )
