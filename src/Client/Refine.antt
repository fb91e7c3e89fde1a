-- ===== src/Client/Refine.antt =====
-- The client's requests and answers as one queue: an answer for each request that was accepted and
-- not yet handed out, in the order of the requests.
use native.Mathlib.Nat.{mod-lt}
use smphash_table.Base.{
  ℕ, ◌+◌, ◌-◌, ◌%◌, ◌^◌, ◌<◌, ◌≡◌, ◌≢◌, ◌⊎◌, inl, inr, refl, sym, ap, subst, ◌∙◌, none, some, true,
  false, List, [], ◌∷◌, ◌++◌, append_assoc, length, length-set, length-replicate, get_or, arith,
  le→leb, lt→leb, eq→==, ne→==, ok, Returns, dec_lt,
}
use smphash_table.Message.{Request, lookup, insert, encode, Fits, op_bits}
use smphash_table.Partition.Lists.{occurs-nil}
use smphash_table.Client.{
  Boxes, Pending, max_pending_size, enqueued, taken, make_way, enqueue, smp_get_next,
  smp_try_get_next, is_full, new_pending, smp_hash_lookup, smp_hash_insert,
}
use smphash_table.Client.Ports.{Asks, Service, Serves, sent_views, results, results-append}
use smphash_table.Client.Holds.{
  is_full-room, pending_rounds, enqueued-Holds, taken-Holds, new_pending-Holds,
}
use smphash_table.Client.Owed.{
  Owed, Outstanding, Accepted, Next, length-Outstanding, owes_more, fetch, make_way_lem,
}

-- A new client has nothing outstanding.
pub new_pending-Outstanding :
    {W V : Type 0} (S : Service W V) (nservers : ℕ) (values servers : List ℕ) (w : W)
    → length values ≡ max_pending_size
    → length servers ≡ max_pending_size
    → S.good w
    → ((t : ℕ) → S.expects w t ≡ [])
    → Outstanding S nservers (new_pending values servers nservers) w []
unfolding results
new_pending-Outstanding S nservers values servers w fits fits' good idle = record {
  vs = [];
  qs = [];
  owed = record {
    good = good;
    holds = new_pending-Holds values servers nservers fits fits';
    owes = λ t. ap length (idle t) ∙ sym (occurs-nil t);
    counters = length-replicate nservers 0;
  };
  all = refl;
}

module _ {W : Type 0} (boxes : Boxes W) where
  enqueue_run :
      (s : ℕ) (r : Request) (pd pd' : Pending) (w w₁ w₂ : W) (n : ℕ)
      → is_full pd ≡ false
      → (pd.pending_index + 2 ^ 64 - pd.wr_index) % 2 ^ 64 ≡ n
      → make_way boxes n s pd w ≡ ok (pd', w₁)
      → boxes.inpb_write s (encode r) w₁ ≡ ok w₂
      → enqueue boxes s r pd w ≡ ok (true, enqueued pd' s, w₂)
  unfolding enqueue
  enqueue_run s r pd pd' w w₁ w₂ n e m run sent = rw (e, m, run) (rw sent)

  enqueue_full :
      (s : ℕ) (r : Request) (pd : Pending) (w : W)
      → is_full pd ≡ true
      → enqueue boxes s r pd w ≡ ok (false, pd, w)
  unfolding enqueue
  enqueue_full s r pd w e = rw e

module _ {W V : Type 0} {S : Service W V} {nservers : ℕ} where
  -- The oldest answer that is read is handed out.
  hand_out :
      {pd : Pending} {w : W} (x : ℕ) (vs qs : List ℕ)
      → Owed S nservers pd w (x ∷ vs) qs
      → Next S nservers w (x ∷ (vs ++ results (S.expects w) qs)) ((taken pd).0, (taken pd).1, w)
  hand_out x vs qs o =
      let (word, h) = taken-Holds o.holds in
      (
        word,
        record {
          vs = vs;
          qs = qs;
          owed = record { good = o.good; holds = h; owes = o.owes; counters = o.counters };
          all = refl;
        },
        λ t. refl,
      )

module _ {W V : Type 0} {boxes : Boxes W} {S : Service W V} (law : Serves boxes S)
    {nservers : ℕ} where
  enqueue_refines :
      {pd : Pending} {w : W} {answers : List ℕ} (s : ℕ) (r : Request)
      → Outstanding S nservers pd w answers
      → s < nservers
      → Asks r
      → Fits r
      → S.can (S.view w s) r
      → Returns (enqueue boxes s r pd w) (Accepted S nservers w s r answers)
  enqueue_refines {pd} {w} {answers} s r o inside asks fits can =
      let size = length-Outstanding o in
      let v = o.owed.holds in
      elim (dec_lt (length answers) max_pending_size) [
        | no full ↦ (
          (false, pd, w),
          enqueue_full boxes s r pd w (
              is_full-room v
              ∙ le→leb max_pending_size (length o.vs + length o.qs) (omega (arith, size))),
          inl (refl, omega (arith, size, v.room), refl, o),
        )
        | yes room ↦
            let ((pd', w₁), run, (o', few, sum, still)) =
              make_way_lem law (length o.qs) s answers o.vs o.qs (length o.vs + length o.qs) o.owed
                o.all refl inside (omega arith) in
            let owes = o'.owed.owes in
            let (w₂, sent, good₂, (now, others), stepped, away) =
              law.writes w₁ s r o'.owed.good asks fits (subst (λ v. S.can v r) (sym (still s)) can)
                (omega (arith, owes s)) in
            let a = (S.step (S.view w₁ s) r).0 in
            let same_answer : a ≡ (S.step (S.view w s) r).0 = ap (λ v. (S.step v r).0) (still s) in
            let c = (get_or pd'.pending_count s 0 + 1) % 2 ^ 32 in
            (
              (true, enqueued pd' s, w₂),
              enqueue_run boxes s r pd pd' w w₁ w₂ (length o.qs)
                  (is_full-room v
                    ∙ lt→leb max_pending_size (length o.vs + length o.qs) (omega (arith, size)))
                  (pending_rounds v) run sent,
              inr (
                refl,
                room,
                subst (λ b. Outstanding S nservers (enqueued pd' s) w₂ (answers ++ b ∷ []))
                    same_answer
                    (record {
                      vs = o'.vs;
                      qs = o'.qs ++ s ∷ [];
                      owed = record {
                        good = good₂;
                        holds =
                            enqueued-Holds o'.owed.holds s (omega (arith, sum, size))
                              (omega (arith, o'.owed.counters)) few;
                        owes = owes_more (S.expects w₁) (S.expects w₂) s a o'.qs owes now others;
                        counters = length-set pd'.pending_count s c ∙ o'.owed.counters;
                      };
                      all =
                          ap (λ l. o'.vs ++ l)
                            (results-append (S.expects w₁) (S.expects w₂) o'.qs s a owes now others)
                          ∙ sym (append_assoc o'.vs (results (S.expects w₁) o'.qs) (a ∷ []))
                          ∙ ap (λ l. l ++ a ∷ []) o'.all;
                    }),
                sent_views S.step (S.view w) (S.view w₁) (S.view w₂) s r still stepped away,
              ),
            )
      ]

  -- While fewer than 65536 answers are outstanding, a lookup of a key below 2^60 that its server can
  -- answer is accepted, whatever has to be read first to keep the answers that wait at the server
  -- below 56; the answer of the server comes behind all others. Else it is refused and nothing is sent.
  pub smp_hash_lookup_refines :
      {pd : Pending} {w : W} {answers : List ℕ} (key : ℕ)
      → Outstanding S nservers pd w answers
      → 0 < nservers
      → key < op_bits
      → S.can (S.view w (key % nservers)) (lookup key)
      → Returns
          (smp_hash_lookup boxes nservers key pd w)
          (Accepted S nservers w (key % nservers) (lookup key) answers)
  unfolding smp_hash_lookup
  smp_hash_lookup_refines key o some_server small can =
      enqueue_refines (key % nservers) (lookup key) o (mod-lt key some_server) tt small can

  -- The same of an insert, whose size is not 0.
  pub smp_hash_insert_refines :
      {pd : Pending} {w : W} {answers : List ℕ} (key size : ℕ)
      → Outstanding S nservers pd w answers
      → 0 < nservers
      → key < op_bits
      → size ≢ 0
      → S.can (S.view w (key % nservers)) (insert key size)
      → Returns
          (smp_hash_insert boxes nservers key size pd w)
          (Accepted S nservers w (key % nservers) (insert key size) answers)
  unfolding smp_hash_insert
  smp_hash_insert_refines key size o some_server small full can =
      enqueue_refines (key % nservers) (insert key size) o (mod-lt key some_server) tt (small, full)
        can

  get_next_lem :
      {pd : Pending} {w : W} (vs qs : List ℕ)
      → Owed S nservers pd w vs qs
      → Returns (smp_get_next boxes pd w) (Next S nservers w (vs ++ results (S.expects w) qs))
  unfolding smp_get_next results
  get_next_lem {pd} {w} [] [] o = (
    (none, pd, w),
    rw (eq→== pd.rd_index pd.pending_index (omega (arith, o.holds.pending_at, o.holds.rd_in))),
    (refl, record { vs = []; qs = []; owed = o; all = refl }, λ t. refl),
  )
  get_next_lem {pd} {w} (x ∷ vs) qs o =
      let h = o.holds in
      (
        ((taken pd).0, (taken pd).1, w),
        rw (
          ne→== pd.rd_index pd.pending_index (omega (arith, h.pending_at, h.rd_in, h.room)),
          ne→== pd.rd_index pd.wr_index (omega (arith, h.wr_at, h.rd_in, h.room)),
        ),
        hand_out x vs qs o,
      )
  get_next_lem {pd} {w} [] (p ∷ qs) o =
      let h = o.holds in
      let (pd', w', val, run, same, o', still) = fetch law [] p qs o in
      let (word, left, kept) = hand_out val [] qs o' in
      (
        ((taken pd').0, (taken pd').1, w'),
        rw
            (
              ne→== pd.rd_index pd.pending_index (omega (arith, h.pending_at, h.rd_in, h.room)),
              eq→== pd.rd_index pd.wr_index (omega (arith, h.wr_at, h.rd_in)),
            )
            (rw run),
        subst (λ l. Next S nservers w l ((taken pd').0, (taken pd').1, w')) (sym same)
            (word, left, still),
      )

  -- smp_get_next hands out the oldest outstanding answer, which it reads if need be, or reports that
  -- none is outstanding.
  pub smp_get_next_refines :
      {pd : Pending} {w : W} (answers : List ℕ)
      → Outstanding S nservers pd w answers
      → Returns (smp_get_next boxes pd w) (Next S nservers w answers)
  smp_get_next_refines {pd} {w} answers o =
      subst (λ l. Returns (smp_get_next boxes pd w) (Next S nservers w l)) o.all
        (get_next_lem o.vs o.qs o.owed)

module _ {W V : Type 0} {S : Service W V} {nservers : ℕ} where
  try_get_next_lem :
      {pd : Pending} {w : W} (answers vs qs : List ℕ)
      → Owed S nservers pd w vs qs
      → vs ++ results (S.expects w) qs ≡ answers
      → ((vs ≡ []) × (smp_try_get_next pd ≡ (none, pd)))
        ⊎ ((x : ℕ) × (rest : List ℕ) × (answers ≡ x ∷ rest)
            × ((smp_try_get_next pd).0 ≡ some x)
            × Outstanding S nservers (smp_try_get_next pd).1 w rest)
  unfolding smp_try_get_next
  try_get_next_lem {pd} {w} answers [] qs o all =
      inl (refl, rw (eq→== pd.rd_index pd.wr_index (omega (arith, o.holds.wr_at, o.holds.rd_in))))
  try_get_next_lem {pd} {w} answers (x ∷ vs) qs o all =
      let h = o.holds in
      let e = ne→== pd.rd_index pd.wr_index (omega (arith, h.wr_at, h.rd_in, h.room)) in
      let (word, rest, kept) = hand_out x vs qs o in
      inr (x, vs ++ results (S.expects w) qs, sym all, rw e word, rw e rest)

  -- smp_try_get_next hands out the oldest outstanding answer if it is read, and else changes nothing.
  pub smp_try_get_next_refines :
      {pd : Pending} {w : W} {answers : List ℕ} (o : Outstanding S nservers pd w answers)
      → ((o.vs ≡ []) × (smp_try_get_next pd ≡ (none, pd)))
        ⊎ ((x : ℕ) × (rest : List ℕ) × (answers ≡ x ∷ rest)
            × ((smp_try_get_next pd).0 ≡ some x)
            × Outstanding S nservers (smp_try_get_next pd).1 w rest)
  smp_try_get_next_refines {answers = answers} o = try_get_next_lem answers o.vs o.qs o.owed o.all
