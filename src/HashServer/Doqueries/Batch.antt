-- ===== src/HashServer/Doqueries/Batch.antt =====
-- A batch of queries by the first design: the requests, and then an answer for each of them.
use smphash_table.Base.{
  ℕ, ◌^◌, suc, sym, subst, append_assoc, append-nil, lt→ltb, ◌+◌, ◌≤◌, ◌<◌, ◌≡◌, ◌⊎◌, inl, inr,
  refl, ap, ◌∙◌, List, [], ◌∷◌, ◌++◌, length, length-append, arith, eq→==, ne→==, fault, abort,
  Returns, dec_lt,
}
use smphash_table.Protocol.{HashQuery}
use smphash_table.Partition.{Allocator}
use smphash_table.Client.{Boxes, Pending, max_pending_size}
use smphash_table.Client.Ports.{Service, Serves, next_view}
use smphash_table.Client.Owed.{Outstanding, Accepted, length-Outstanding}
use smphash_table.Client.Refine.{
  smp_hash_lookup_refines, smp_hash_insert_refines, smp_get_next_refines,
}
use smphash_table.Client.Doall.Serves.{
  Sendable, AllSendable, AllServable, AllServable-congr, request_of, serve_in_order,
  serve_in_order_congr,
}
use smphash_table.Client.Doall.{server_of}
use smphash_table.HashServer.Doqueries.{
  Tables, sign_extended, send_one, send_queries, next_values, mp_queries, doqueries,
}

-- The size of an insert is a nonnegative int.
abbrev pub AllInts : List HashQuery → Type 0
AllInts [] = Unit
AllInts (q ∷ qs) = (q.size < 2 ^ 31) × AllInts qs

same_size : (size : ℕ) → size < 2 ^ 31 → sign_extended size ≡ size
same_size size small = rw (lt→ltb size (2 ^ 31) small) refl

module _ {W V : Type 0} {boxes : Boxes W} {S : Service W V} (law : Serves boxes S) {nservers : ℕ}
    (some_server : 0 < nservers) where
  send_one_lem :
      {pd : Pending} {w : W} {answers : List ℕ} (q : HashQuery)
      → Outstanding S nservers pd w answers
      → Sendable q
      → q.size < 2 ^ 31
      → S.can (S.view w (server_of nservers q)) (request_of q)
      → Returns
          (send_one boxes nservers q pd w)
          (Accepted S nservers w (server_of nservers q) (request_of q) answers)
  unfolding send_one
  send_one_lem q o (small, inl op) int can =
      let lookup_op = eq→== q.optype 0 op in
      rw lookup_op (smp_hash_lookup_refines law q.key o some_server small (rw lookup_op at can))
  send_one_lem q o (small, inr (op, some_bytes)) int can =
      let insert_op = ne→== q.optype 0 (omega (arith, op)) in
      rw (insert_op, same_size q.size int)
        (smp_hash_insert_refines law q.key q.size o some_server small some_bytes
          (rw insert_op at can))

  room_left :
      {pd : Pending} {w : W} {answers : List ℕ}
      → Outstanding S nservers pd w answers
      → length answers ≤ max_pending_size
  room_left o = omega (arith, length-Outstanding o, o.owed.holds.room)

  -- While there is room for all, every request is accepted, and its answer stands behind the others.
  send_queries_lem :
      (qs : List HashQuery) (pd : Pending) (w : W) (answers : List ℕ)
      → Outstanding S nservers pd w answers
      → AllSendable qs
      → AllInts qs
      → AllServable S nservers (S.view w) qs
      → length answers + length qs ≤ max_pending_size
      → Returns (send_queries boxes nservers qs pd w) (λ (pd', w').
        Outstanding S nservers pd' w' (answers ++ serve_in_order S.step nservers (S.view w) qs))
  unfolding send_queries serve_in_order
  send_queries_lem [] pd w answers o sendable ints servable room =
      ((pd, w), refl, subst (λ l. Outstanding S nservers pd w l) (sym (append-nil answers)) o)
  send_queries_lem (q ∷ qs) pd w answers o (one, others) (int, ints) (can, servable) room =
      let s = server_of nservers q in
      let r = request_of q in
      let views = next_view S.step (S.view w) s r in
      let ((done, pd', w'), run, outcome) = send_one_lem q o one int can in
      elim outcome [
        | inl (refused, full, same, o') ↦ absurd (omega (arith, full, room))
        | inr (accepted, few, o', stepped) ↦
            let a = (S.step (S.view w s) r).0 in
            let (end, run', o'') =
              send_queries_lem qs pd' w' (answers ++ a ∷ []) o' others ints
                (AllServable-congr S nservers views (S.view w') qs stepped servable)
                (omega (arith, length-append answers (a ∷ []))) in
            let order =
              ap (λ l. (answers ++ a ∷ []) ++ l)
                (serve_in_order_congr S.step nservers views (S.view w') qs stepped)
              ∙ append_assoc answers (a ∷ []) (serve_in_order S.step nservers views qs) in
            (
              end,
              rw run (rw accepted run'),
              subst (λ l. Outstanding S nservers end.0 end.1 l) order o'',
            )
      ]

  -- Else the request behind the 65536th outstanding answer is refused.
  send_queries_abort :
      (qs : List HashQuery) (pd : Pending) (w : W) (answers : List ℕ)
      → Outstanding S nservers pd w answers
      → AllSendable qs
      → AllInts qs
      → AllServable S nservers (S.view w) qs
      → max_pending_size < length answers + length qs
      → send_queries boxes nservers qs pd w ≡ fault abort
  unfolding send_queries
  send_queries_abort [] pd w answers o sendable ints servable many =
      absurd (omega (arith, room_left o))
  send_queries_abort (q ∷ qs) pd w answers o (one, others) (int, ints) (can, servable) many =
      let s = server_of nservers q in
      let r = request_of q in
      let ((done, pd', w'), run, outcome) = send_one_lem q o one int can in
      elim outcome [
        | inl (refused, full, same, o') ↦ rw run (rw refused)
        | inr (accepted, few, o', stepped) ↦
            let a = (S.step (S.view w s) r).0 in
            rw run (
              rw accepted (
                send_queries_abort qs pd' w' (answers ++ a ∷ []) o' others ints
                  (AllServable-congr S nservers (next_view S.step (S.view w) s r) (S.view w') qs
                    stepped servable)
                  (omega (arith, length-append answers (a ∷ [])))))
      ]

  next_values_lem :
      (qs : List HashQuery) (pd : Pending) (w : W) (answers : List ℕ)
      → Outstanding S nservers pd w answers
      → length answers ≡ length qs
      → Returns
          (next_values boxes nservers qs pd w)
          (λ (values, pd', w'). (values ≡ answers) × Outstanding S nservers pd' w' [])
  unfolding next_values
  next_values_lem [] pd w [] o size = (([], pd, w), refl, (refl, o))
  next_values_lem (q ∷ qs) pd w [] o size = absurd (omega arith)
  next_values_lem [] pd w (x ∷ answers) o size = absurd (omega arith)
  next_values_lem (q ∷ qs) pd w (x ∷ answers) o size =
      let ((r, pd', w'), run, (here, o', still)) = smp_get_next_refines law (x ∷ answers) o in
      let ((values, pd'', w''), run', (same, o'')) =
        next_values_lem qs pd' w' answers o' (omega arith) in
      ((x ∷ values, pd'', w''), rw run (rw here (rw run')), (ap (λ l. x ∷ l) same, o''))

  length-serve_in_order :
      (views : ℕ → V) (qs : List HashQuery)
      → length (serve_in_order S.step nservers views qs) ≡ length qs
  unfolding serve_in_order
  length-serve_in_order views [] = refl
  length-serve_in_order views (q ∷ qs) =
      ap suc
        (length-serve_in_order (next_view S.step views (server_of nservers q) (request_of q)) qs)

  mp_queries_lem :
      (pd : Pending) (w : W) (queries : List HashQuery)
      → Outstanding S nservers pd w []
      → AllSendable queries
      → AllInts queries
      → AllServable S nservers (S.view w) queries
      → length queries ≤ max_pending_size
      → Returns (mp_queries boxes nservers queries pd w) (λ (values, pd', w').
        (values ≡ serve_in_order S.step nservers (S.view w) queries)
        × Outstanding S nservers pd' w' [])
  unfolding mp_queries
  mp_queries_lem pd w queries o sendable ints servable room =
      let ((pd', w'), run, o') =
        send_queries_lem queries pd w [] o sendable ints servable (omega arith) in
      let (end, run', (same, o'')) =
        next_values_lem queries pd' w' (serve_in_order S.step nservers (S.view w) queries) o'
          (length-serve_in_order (S.view w) queries) in
      (end, rw run run', (same, o''))

  -- For a client with nothing outstanding and queries that may be sent and that their servers can
  -- answer, with sizes that are ints: doqueries of design 1 passes its assertions and fills in the
  -- answers that the servers give when the queries are served one after the other, with nothing
  -- outstanding behind it, if the batch has at most 65536 queries; with a longer batch an assertion
  -- fails.
  pub doqueries_refines :
      (alloc : Allocator) (queries : List HashQuery) (t : Tables W)
      → Outstanding S nservers t.pending t.boxes []
      → AllSendable queries
      → AllInts queries
      → AllServable S nservers (S.view t.boxes) queries
      → ((length queries ≤ max_pending_size)
          × Returns (doqueries boxes alloc nservers 1 queries t) (λ (values, t').
            (values ≡ serve_in_order S.step nservers (S.view t.boxes) queries)
            × Outstanding S nservers t'.pending t'.boxes []))
        ⊎ ((max_pending_size < length queries)
            × (doqueries boxes alloc nservers 1 queries t ≡ fault abort))
  unfolding doqueries mp_queries
  doqueries_refines alloc queries t o sendable ints servable =
      elim (dec_lt max_pending_size (length queries)) [
        | yes many ↦ inr (
          many,
          rw (
              send_queries_abort queries t.pending t.boxes [] o sendable ints servable
                (omega arith)),
        )
        | no few ↦
            let ((values, pd, w), run, rest) =
              mp_queries_lem t.pending t.boxes queries o sendable ints servable (omega arith) in
            inl (omega arith, ((values, record t { pending = pd; boxes = w }), rw run, rest))
      ]
