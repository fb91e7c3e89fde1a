-- ===== src/Server/Serving.antt =====
-- The invariant of a server, and `case HASHOP_LOOKUP`.
use smphash_table.Base.{
  ℕ, ◌+◌, ◌%◌, ◌^◌, ◌≤◌, ◌<◌, ◌≡◌, refl, sym, ap, subst, ◌∙◌, inl, inr, Option, none, some, Bool,
  true, false, List, [], ◌∷◌, arith, ◌==◌, if◌then◌else◌, eq→==, ne→==, ok, Returns, Bool-cases,
  ℕ_discrete,
}
use smphash_table.Memory.{Ptr, Elem, Heap, update, deref, is_value_ready}
use smphash_table.Memory.Counts.{is_value_ready_iff}
use smphash_table.Memory.Life.{Counted, Owns, held-live}
use smphash_table.Partition.{
  Partition, evict_lru, remove, hash_lookup, fresh_partition, init_hash_partition,
}
use smphash_table.Alock.{max_clients}
use smphash_table.Partition.Init.{init-Linked, init_hash_partition_returns}
use smphash_table.Partition.Lists.{occurs, occurs-nil}
use smphash_table.Partition.Linked.{Linked, Linked-reorder, Linked-count, key_at}
use smphash_table.Partition.Lookup.{
  find-some, find-none, used, occurs-used, LookedUp, hash_lookup_refines,
}
use smphash_table.Server.{State, value_of, inc32, hit, serve_lookup}

-- A server between two requests: the table holds the elements `es`, latest used first; `refs` counts
-- the references that clients hold, and `writing` says which elements are still being written.
pub record Serving (s : State) (es : List Ptr) (refs : Ptr → ℕ) (writing : Ptr → Bool)
    : Type 0 where
  pub linked : Linked s.heap s.part 0 es
  pub algo : s.part.evictalgo ≡ evict_lru
  pub fits : s.part.size ≤ s.part.max_size
  pub bound : s.part.max_size < 2 ^ 63
  pub owns : Owns s.heap (λ q. occurs q es) refs writing

abbrev pub more : (Ptr → ℕ) → Ptr → Ptr → ℕ
more refs e q = if e == q then refs q + 1 else refs q

-- The answer to a lookup, and the state behind it.
pub data Answered (key : ℕ) (s : State) (es : List Ptr) (refs : Ptr → ℕ) (writing : Ptr → Bool)
    : ℕ × State → Type 0 where
  found :
      (e : Ptr) (s' : State)
      → 0 < occurs e es
      → key_at s.heap e ≡ key
      → writing e ≡ false
      → Serving s' (e ∷ remove e es) (more refs e) writing
      → Answered key s es refs writing (value_of e, s')
  missed :
      (s' : State) (es' : List Ptr)
      → ((e : Ptr) → 0 < occurs e es → key_at s.heap e ≡ key → writing e ≡ true)
      → ((q : Ptr) → occurs q es' ≡ occurs q es)
      → Serving s' es' refs writing
      → Answered key s es refs writing (0, s')

abbrev looked_up : State → Partition
looked_up s = record s.part { nlookups = inc32 s.part.nlookups }

pub occurs-Owns :
    (h : Heap) (n n' refs : Ptr → ℕ) (writing : Ptr → Bool)
    → Owns h n refs writing
    → ((q : Ptr) → n' q ≡ n q)
    → Owns h n' refs writing
occurs-Owns h n n' refs writing o same = record { owned = λ q. rw (same q) (o.owned q) }

-- One reference more to a finished element.
hit-Owns :
    (h : Heap) (n refs : Ptr → ℕ) (writing : Ptr → Bool) (e : Ptr) (x : Elem)
    → Owns h n refs writing
    → Counted x (n e) (refs e) (writing e)
    → writing e ≡ false
    → x.ref_count < 2 ^ 63
    → n e + refs e + 1 < 2 ^ 63
    → Owns
        (update h e (some (record x { ref_count = (x.ref_count + 1) % 2 ^ 64 })))
        n
        (more refs e)
        writing
hit-Owns h n refs writing e x o k done small few = record {
  owned = λ q. elim (ℕ_discrete e q) [
    | yes same ↦ rw (eq→== e q same) (
        subst
          (λ t.
            Counted (record x { ref_count = (x.ref_count + 1) % 2 ^ 64 }) (n t) (refs t + 1)
              (writing t))
          same
          (record {
            count = omega (arith, k.count);
            held = omega arith;
            word = omega arith;
            writer = λ t. absurd (cc);
            ready = λ l f. omega (arith, k.count);
            unready = λ l t. absurd (cc);
          }))
    | no other ↦ rw (ne→== e q other) (o.owned q)
  ];
}

module _ {s : State} {es : List Ptr} {refs : Ptr → ℕ} {writing : Ptr → Bool}
    (z : Serving s es refs writing) (key : ℕ) where
  -- The table after a lookup, with the counts as they were.
  kept_Serving :
      (es' : List Ptr) (p : Partition)
      → Linked s.heap p 0 es'
      → p.evictalgo ≡ s.part.evictalgo
      → p.max_size ≡ s.part.max_size
      → p.size ≡ s.part.size
      → ((q : Ptr) → occurs q es' ≡ occurs q es)
      → Serving (record s { part = p }) es' refs writing
  kept_Serving es' p v algo max size same = record {
    linked = v;
    algo = algo ∙ z.algo;
    fits = omega (arith, z.fits);
    bound = omega (arith, z.bound);
    owns = occurs-Owns s.heap (λ q. occurs q es) (λ q. occurs q es') refs writing z.owns same;
  }

  hit-Serving :
      (es' : List Ptr) (p : Partition) (e : Ptr) (x : Elem)
      → Serving (record s { part = p }) es' refs writing
      → s.heap e ≡ some x
      → 0 < occurs e es'
      → occurs e es' + refs e + 1 < 2 ^ 63
      → is_value_ready x ≡ true
      → (writing e ≡ false) × Serving (hit e x (record s { part = p })).1 es' (more refs e) writing
  unfolding hit
  hit-Serving es' p e x y l i few ready =
      let (x', l', k') = held-live y.owns e (omega arith) in
      let same : x' ≡ x = (let both : some x' ≡ some x = sym l' ∙ l in cc) in
      let k = subst (λ t. Counted t (occurs e es') (refs e) (writing e)) same k' in
      let low = sym (is_value_ready_iff x k.word) ∙ ready in
      let small : x.ref_count < 2 ^ 63 = ground arith in
      let done : writing e ≡ false = elim (Bool-cases (writing e)) [
        | inl t ↦ absurd (omega (arith, k.unready i t))
        | inr f ↦ f
      ] in
      let x₂ : Elem = record x { ref_count = (x.ref_count + 1) % 2 ^ 64 } in
      (
        done,
        rw ready (record {
          linked =
              Linked-reorder (Linked-count e x ((x.ref_count + 1) % 2 ^ 64) y.linked l) (λ q. refl)
                refl refl refl refl (λ a. y.linked.lru_order a);
          algo = y.algo;
          fits = y.fits;
          bound = y.bound;
          owns = hit-Owns s.heap (λ q. occurs q es') refs writing e x y.owns k done small few;
        }),
      )

  miss-Serving :
      (es' : List Ptr) (p : Partition) (e : Ptr) (x : Elem)
      → Serving (record s { part = p }) es' refs writing
      → s.heap e ≡ some x
      → 0 < occurs e es'
      → is_value_ready x ≡ false
      → writing e ≡ true
  miss-Serving es' p e x y l i unready =
      let (x', l', k') = held-live y.owns e (omega arith) in
      let same : x' ≡ x = (let both : some x' ≡ some x = sym l' ∙ l in cc) in
      let k = subst (λ t. Counted t (occurs e es') (refs e) (writing e)) same k' in
      let high = sym (is_value_ready_iff x k.word) ∙ unready in
      elim (Bool-cases (writing e)) [
        | inl t ↦ t
        | inr f ↦ absurd (let small = k.ready i f in ground arith)
      ]

  lookup_answer :
      (r : Option Ptr) (p : Partition)
      → LookedUp s.heap (looked_up s) 0 key es (r, p)
      → hash_lookup s.heap (looked_up s) key ≡ ok (r, p)
      → ((q : Ptr) → refs q + 2 < 2 ^ 63)
      → Returns (serve_lookup key s) (Answered key s es refs writing)
  unfolding serve_lookup hit
  lookup_answer none p u run few = (
    (0, record s { part = p }),
    rw run,
    missed (record s { part = p }) es
        (λ e i k. absurd (find-none s.heap key es (sym u.found) e i k)) (λ q. refl)
        (kept_Serving es p u.linked u.evictalgo u.max_size u.size (λ q. refl)),
  )
  lookup_answer (some e) p u run few =
      let (i, k) = find-some s.heap key es e (sym u.found) in
      let front : used (looked_up s) (some e) es ≡ e ∷ remove e es =
        ap (λ b. if b then e ∷ remove e es else es) (eq→== s.part.evictalgo evict_lru z.algo) in
      let es' = e ∷ remove e es in
      let same : (q : Ptr) → occurs q es' ≡ occurs q es = λ q. occurs-used q e es i in
      let j : 0 < occurs e es' = omega (arith, same e) in
      let v = subst (Linked s.heap p 0) front u.linked in
      let y = kept_Serving es' p v u.evictalgo u.max_size u.size same in
      let (x, l) = v.live e j in
      elim (Bool-cases (is_value_ready x)) [
        | inl ready ↦
            let (done, after) =
              hit-Serving es' p e x y l j (omega (arith, few e, v.once e)) ready in
            (
              (value_of e, (hit e x (record s { part = p })).1),
              rw run (rw (l, deref) (rw (ready, hit))),
              found e (hit e x (record s { part = p })).1 i k done after,
            )
        | inr unready ↦ (
          (0, record s { part = p }),
          rw run (rw (l, deref) (rw (unready, hit))),
          missed (record s { part = p }) es'
              (λ f m n.
                subst (λ t. writing t ≡ true) (z.linked.unique e f i m (k ∙ sym n))
                  (miss-Serving es' p e x y l j unready))
              same y,
        )
      ]

-- A lookup returns. Its answer is the value of the element with the key if the table holds one and
-- its value is written, and then the client holds one reference more; else it is 0. The invariant
-- stays, while less than 2^63 - 2 references are held to each element.
pub serve_lookup_refines :
    {s : State} {es : List Ptr} {refs : Ptr → ℕ} {writing : Ptr → Bool} (key : ℕ)
    → Serving s es refs writing
    → ((q : Ptr) → refs q + 2 < 2 ^ 63)
    → Returns (serve_lookup key s) (Answered key s es refs writing)
serve_lookup_refines {s} key z few =
    let counted : Linked s.heap (looked_up s) 0 _ =
      Linked-reorder z.linked (λ q. refl) refl refl refl refl (λ a. z.linked.lru_order a) in
    let ((r, p), run, u) = hash_lookup_refines key counted in lookup_answer z key r p u run few

pub fresh_partition-Serving :
    (max_size nservers : ℕ) (ts : List ℕ)
    → 0 < nservers
    → max_size < 2 ^ 63
    → Serving
        (record {
          heap = λ q. none;
          part = fresh_partition max_size nservers evict_lru;
          clock = ts;
        })
        []
        (λ q. 0)
        (λ q. false)
unfolding fresh_partition
fresh_partition-Serving max_size nservers ts some_server bound = record {
  linked = init-Linked (λ q. none) max_size nservers evict_lru some_server;
  algo = refl;
  fits = omega arith;
  bound = bound;
  owns = record { owned = λ q. (occurs-nil q, refl, refl) };
}

-- A new server: with one to 1024 servers and less than 2^38 bytes for each, init_hash_partition returns
-- an empty table with EVICT_LRU, and with no memory in use the invariant holds.
pub init-Serving :
    (max_size nservers : ℕ) (ts : List ℕ)
    → 0 < nservers
    → nservers ≤ max_clients
    → max_size < 2 ^ 38
    → Returns
        (init_hash_partition max_size nservers evict_lru)
        (λ p. Serving (record { heap = λ q. none; part = p; clock = ts }) [] (λ q. 0) (λ q. false))
init-Serving max_size nservers ts some_server few bound = (
  fresh_partition max_size nservers evict_lru,
  init_hash_partition_returns max_size nservers evict_lru some_server few bound,
  fresh_partition-Serving max_size nservers ts some_server (omega (arith, bound)),
)
