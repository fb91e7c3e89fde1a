-- ===== src/Locking/Lookups.antt =====
-- locking_hash_lookup: the partition under its lock, before and after.
use native.Mathlib.Nat.{mod-lt}
use smphash_table.Base.{
  ℕ, ◌+◌, ◌%◌, ◌^◌, ◌≤◌, ◌<◌, ◌≡◌, ◌≢◌, refl, sym, ap, subst, ◌∙◌, inl, inr, Option, none, some,
  Bool, true, false, List, ◌∷◌, arith, ◌==◌, if◌then◌else◌, eq→==, ne→==, ok, Returns, Bool-cases,
  get_or, get_or-set, length,
}
use smphash_table.Memory.{Ptr, Elem, deref, is_value_ready}
use smphash_table.Memory.Counts.{is_value_ready_iff}
use smphash_table.Partition.{Partition, evict_lru, remove, hash_lookup, fresh_partition}
use smphash_table.Partition.Lists.{occurs}
use smphash_table.Partition.Linked.{Linked, Linked-reorder, Linked-count, key_at}
use smphash_table.Partition.Lookup.{
  find-some, find-none, used, occurs-used, LookedUp, hash_lookup_refines,
}
use smphash_table.Server.{State, value_of, inc32, hit}
use smphash_table.Locking.{Shared, entered, left, locked_lookup, locking_hash_lookup}
use smphash_table.Locking.Shares.{SharesAll, Shares, bit_of, shared-live, put_count-SharesAll}

-- A partition whose lock is free: the table holds the elements `es`, latest used first; `refs` counts
-- all other references, and `writing` says which elements are still being written.
pub record Sharing (s : State) (es : List Ptr) (refs : Ptr → ℕ) (writing : Ptr → Bool)
    : Type 0 where
  pub linked : Linked s.heap s.part 0 es
  pub algo : s.part.evictalgo ≡ evict_lru
  pub fits : s.part.size ≤ s.part.max_size
  pub bound : s.part.max_size < 2 ^ 63
  pub shares : SharesAll s.heap (λ q. occurs q es) refs writing

abbrev pub one_more : (Ptr → ℕ) → Ptr → Ptr → ℕ
one_more refs e q = if e == q then refs q + 1 else refs q

-- The answer to a lookup, and the state behind it.
pub data Looked (key : ℕ) (s : State) (es : List Ptr) (refs : Ptr → ℕ) (writing : Ptr → Bool)
    : ℕ × State → Type 0 where
  found :
      (e : Ptr) (s' : State)
      → 0 < occurs e es
      → key_at s.heap e ≡ key
      → writing e ≡ false
      → Sharing s' (e ∷ remove e es) (one_more refs e) writing
      → Looked key s es refs writing (value_of e, s')
  missed :
      (s' : State) (es' : List Ptr)
      → ((e : Ptr) → 0 < occurs e es → key_at s.heap e ≡ key → writing e ≡ true)
      → ((q : Ptr) → occurs q es' ≡ occurs q es)
      → Sharing s' es' refs writing
      → Looked key s es refs writing (0, s')

abbrev looking : State → Partition
looking s = record s.part { nlookups = inc32 s.part.nlookups }

ready_bit :
    (x : Elem) (n r : ℕ) (w : Bool)
    → Shares x n r w
    → (is_value_ready x ≡ true → w ≡ false) × (is_value_ready x ≡ false → w ≡ true)
ready_bit x n r true k =
    let e = is_value_ready_iff x (omega (arith, k.count, k.few)) in
    (λ t. absurd (let low = sym e ∙ t in ground (arith, k.count)), λ f. refl)
ready_bit x n r false k =
    let e = is_value_ready_iff x (omega (arith, k.count, k.few)) in
    (λ t. refl, λ f. absurd (let high = sym e ∙ f in ground (arith, k.count, k.few)))

module _ {s : State} {es : List Ptr} {refs : Ptr → ℕ} {writing : Ptr → Bool}
    (z : Sharing s es refs writing) (key : ℕ) where
  kept_Sharing :
      (es' : List Ptr) (p : Partition)
      → Linked s.heap p 0 es'
      → p.evictalgo ≡ s.part.evictalgo
      → p.max_size ≡ s.part.max_size
      → p.size ≡ s.part.size
      → ((q : Ptr) → occurs q es' ≡ occurs q es)
      → Sharing (record s { part = p }) es' refs writing
  kept_Sharing es' p v algo max size same = record {
    linked = v;
    algo = algo ∙ z.algo;
    fits = omega (arith, z.fits);
    bound = omega (arith, z.bound);
    shares = record { owned = λ q. rw (same q) (z.shares.owned q) };
  }

  hit-Sharing :
      (es' : List Ptr) (p : Partition) (e : Ptr) (x : Elem)
      → Sharing (record s { part = p }) es' refs writing
      → s.heap e ≡ some x
      → occurs e es' + refs e + 1 < 2 ^ 63
      → Shares x (occurs e es') (refs e) (writing e)
      → writing e ≡ false
      → is_value_ready x ≡ true
      → Sharing (hit e x (record s { part = p })).1 es' (one_more refs e) writing
  unfolding hit
  hit-Sharing es' p e x y l few k done ready =
      let c = (x.ref_count + 1) % 2 ^ 64 in
      let low : bit_of (writing e) ≡ 0 = ap bit_of done in
      let more : one_more refs e e ≡ refs e + 1 = rw (eq→== e e refl) in
      let stored =
        put_count-SharesAll {refs' = one_more refs e} y.shares e x l c
          (omega (arith, k.count, low, more)) (omega (arith, more))
          (λ q m. (refl, rw (ne→== e q (λ t. m (sym t))), refl)) in
      let some_left : (c == 0) ≡ false = ne→== c 0 (omega (arith, k.count, low)) in
      rw ready (record {
        linked =
            Linked-reorder (Linked-count e x c y.linked l) (λ q. refl) refl refl refl refl
              (λ a. y.linked.lru_order a);
        algo = y.algo;
        fits = y.fits;
        bound = y.bound;
        shares = rw some_left at stored;
      })

  look_answer :
      (r : Option Ptr) (p : Partition)
      → LookedUp s.heap (looking s) 0 key es (r, p)
      → hash_lookup s.heap (looking s) key ≡ ok (r, p)
      → ((q : Ptr) → refs q + 2 < 2 ^ 63)
      → Returns (locked_lookup key s) (Looked key s es refs writing)
  unfolding locked_lookup hit
  look_answer none p u run few = (
    (0, record s { part = p }),
    rw run,
    missed (record s { part = p }) es
        (λ e i k. absurd (find-none s.heap key es (sym u.found) e i k)) (λ q. refl)
        (kept_Sharing es p u.linked u.evictalgo u.max_size u.size (λ q. refl)),
  )
  look_answer (some e) p u run few =
      let (i, k) = find-some s.heap key es e (sym u.found) in
      let front : used (looking s) (some e) es ≡ e ∷ remove e es =
        ap (λ b. if b then e ∷ remove e es else es) (eq→== s.part.evictalgo evict_lru z.algo) in
      let es' = e ∷ remove e es in
      let same : (q : Ptr) → occurs q es' ≡ occurs q es = λ q. occurs-used q e es i in
      let v = subst (Linked s.heap p 0) front u.linked in
      let y = kept_Sharing es' p v u.evictalgo u.max_size u.size same in
      let (x, l, c) = shared-live y.shares e (omega (arith, same e)) in
      let (ready_done, unready_busy) = ready_bit x (occurs e es') (refs e) (writing e) c in
      elim (Bool-cases (is_value_ready x)) [
        | inl ready ↦ (
          (value_of e, (hit e x (record s { part = p })).1),
          rw run (rw (l, deref) (rw (ready, hit))),
          found e (hit e x (record s { part = p })).1 i k (ready_done ready) (
              hit-Sharing es' p e x y l (omega (arith, few e, v.once e)) c (ready_done ready)
                ready),
        )
        | inr unready ↦ (
          (0, record s { part = p }),
          rw run (rw (l, deref) (rw (unready, hit))),
          missed (record s { part = p }) es'
              (λ f m n.
                subst (λ t. writing t ≡ true) (z.linked.unique e f i m (k ∙ sym n))
                  (unready_busy unready))
              same y,
        )
      ]

locked_lookup_lem :
    {s : State} {es : List Ptr} {refs : Ptr → ℕ} {writing : Ptr → Bool} (key : ℕ)
    → Sharing s es refs writing
    → ((q : Ptr) → refs q + 2 < 2 ^ 63)
    → Returns (locked_lookup key s) (Looked key s es refs writing)
locked_lookup_lem {s} key z few =
    let counted : Linked s.heap (looking s) 0 _ =
      Linked-reorder z.linked (λ q. refl) refl refl refl refl (λ a. z.linked.lru_order a) in
    let ((r, p), run, u) = hash_lookup_refines key counted in look_answer z key r p u run few

-- The other partitions stay.
abbrev pub SameElsewhere : Shared → ℕ → Shared → Type 0
SameElsewhere t s t' = (i : ℕ) → i ≢ s → (entered t' i).part ≡ (entered t i).part

pub entered-left :
    (t : Shared) (s : ℕ) (st : State)
    → s < length t.partitions
    → (entered (left t s st) s ≡ st) × SameElsewhere t s (left t s st)
entered-left t s st inside =
    let d = fresh_partition 0 1 evict_lru in
    (
      ap (λ p. record { heap = st.heap; part = p; clock = st.clock })
          (get_or-set t.partitions s s st.part d inside
            ∙ ap (λ b. if b then st.part else get_or t.partitions s d) (eq→== s s refl)),
      λ i m.
          get_or-set t.partitions s i st.part d inside
          ∙ ap (λ b. if b then st.part else get_or t.partitions i d) (ne→== s i (λ e. m (sym e))),
    )

-- On a table with a partition for each server, a lookup under the lock of the key's partition
-- returns. Its answer is the value of the element with the key if there is one and its value is
-- written, which then has one reference more; else it is 0. The invariant stays, while less than
-- 2^63 - 2 references are held to each element, and so do the other partitions.
pub locking_hash_lookup_refines :
    {es : List Ptr} {refs : Ptr → ℕ} {writing : Ptr → Bool} (nservers key : ℕ) (t : Shared)
    → 0 < nservers
    → length t.partitions ≡ nservers
    → Sharing (entered t (key % nservers)) es refs writing
    → ((q : Ptr) → refs q + 2 < 2 ^ 63)
    → Returns (locking_hash_lookup nservers key t) (λ (value, t').
      Looked key (entered t (key % nservers)) es refs writing (value, entered t' (key % nservers))
      × SameElsewhere t (key % nservers) t')
unfolding locking_hash_lookup
locking_hash_lookup_refines {es} {refs} {writing} nservers key t some_server size z few =
    let s = key % nservers in
    let ((value, st), run, answer) = locked_lookup_lem key z few in
    let (there, elsewhere) = entered-left t s st (omega (arith, mod-lt key some_server, size)) in
    (
      (value, left t s st),
      rw run refl,
      (
        subst (λ u. Looked key (entered t s) es refs writing (value, u)) (sym there) answer,
        elsewhere,
      ),
    )
