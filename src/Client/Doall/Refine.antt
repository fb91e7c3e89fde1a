-- ===== src/Client/Doall/Refine.antt =====
-- smp_hash_doall against servers that answer the queries one by one.
use native.Mathlib.Nat.{mod-lt}
use smphash_table.Base.{
  ℕ, zero, suc, ◌+◌, ◌-◌, ◌≤◌, ◌<◌, ◌≡◌, ◌≢◌, inl, inr, refl, sym, ap, subst, ◌∙◌, List, [], ◌∷◌,
  ◌++◌, append_assoc, append-nil, length, length-append, length-drop, length-replicate,
  get_or-replicate, replicate, arith, eq→==, ne→==, Returns, ℕ_discrete,
}
use smphash_table.Protocol.{HashQuery}
use smphash_table.Message.{Request, encode, Fits}
use smphash_table.Partition.Lists.{occurs-nil}
use smphash_table.Client.{Boxes}
use smphash_table.Client.Ports.{
  Asks, Service, Serves, next_view, sent_views, results, results_congr,
}
use smphash_table.Client.Doall.{
  Doall, server_of, put_value, count_sent, send_query, send_all, flush_all, read_left,
  smp_hash_doall,
}
use smphash_table.Client.Doall.Serves.{
  request_of, Sendable, AllSendable, AllServable, AllServable-congr, serve_in_order,
  serve_in_order_congr,
}
use smphash_table.Client.Doall.Sent.{servers, Owing, popped-Owing, sent-Owing}
use smphash_table.Client.Doall.Answered.{oldest, drain_lem}

module _ {W : Type 0} (boxes : Boxes W) where
  send_query_request :
      (nservers : ℕ) (queries : List HashQuery) (s : ℕ) (q : HashQuery) (w : W)
      → Sendable q
      → (send_query boxes nservers queries s q w ≡ boxes.inpb_write s (encode (request_of q)) w)
        × Asks (request_of q)
        × Fits (request_of q)
  unfolding send_query
  send_query_request nservers queries s q w (small, inl op) =
      (rw (eq→== q.optype 0 op), rw (eq→== q.optype 0 op) tt, rw (eq→== q.optype 0 op) small)
  send_query_request nservers queries s q w (small, inr (op, some_bytes)) =
      let not_lookup = ne→== q.optype 0 (omega (arith, op)) in
      (rw (not_lookup, eq→== q.optype 1 op), rw not_lookup tt, rw not_lookup (small, some_bytes))

module _ {W V : Type 0} {S : Service W V} {nservers : ℕ} {queries : List HashQuery} where
  -- As long as the answers to come stay.
  same-Owing :
      {st : Doall} {w w' : W} {pending todo : List HashQuery} {answers : List ℕ}
      → Owing S nservers queries st w pending todo answers
      → S.good w'
      → ((t : ℕ) → S.expects w' t ≡ S.expects w t)
      → Owing S nservers queries st w' pending todo answers
  same-Owing {st} {w} {w'} {pending} v good same = record {
    good = good;
    owes = λ t. ap length (same t) ∙ v.owes t;
    few = v.few;
    counts = v.counts;
    counters = v.counters;
    all =
        ap (λ l. st.values ++ l)
          (results_congr (S.expects w) (S.expects w') (servers nservers pending) same)
        ∙ v.all;
    place = v.place;
  }

  length-pending :
      {st : Doall} {w : W} {pending todo : List HashQuery} {answers : List ℕ}
      → Owing S nservers queries st w pending todo answers
      → length pending + length todo ≡ length queries - length st.values
  length-pending {st} {pending = pending} {todo} v =
      sym (length-append pending todo)
      ∙ sym (ap length v.place)
      ∙ length-drop (length st.values) queries

module _ {W V : Type 0} {boxes : Boxes W} {S : Service W V} (law : Serves boxes S) (nservers : ℕ)
    (some_server : 0 < nservers) (queries : List HashQuery) where
  -- The answers to the queries behind one that is sent.
  order :
      (answers : List ℕ) (w w₁ w₂ : W) (s : ℕ) (r : Request) (todo : List HashQuery)
      → ((t : ℕ) → S.view w₁ t ≡ S.view w t)
      → S.view w₂ s ≡ (S.step (S.view w₁ s) r).1
      → ((t : ℕ) → t ≢ s → S.view w₂ t ≡ S.view w₁ t)
      → (answers ++ (S.step (S.view w₁ s) r).0 ∷ [])
          ++ serve_in_order S.step nservers (S.view w₂) todo
        ≡ answers
          ++ (S.step (S.view w s) r).0
            ∷ serve_in_order S.step nservers (next_view S.step (S.view w) s r) todo
  order answers w w₁ w₂ s r todo still stepped away =
      let same = sent_views S.step (S.view w) (S.view w₁) (S.view w₂) s r still stepped away in
      let rest = serve_in_order S.step nservers (S.view w₂) todo in
      append_assoc answers ((S.step (S.view w₁ s) r).0 ∷ []) rest
      ∙ ap (λ v. answers ++ (S.step v r).0 ∷ rest) (still s)
      ∙ ap (λ l. answers ++ (S.step (S.view w s) r).0 ∷ l)
          (serve_in_order_congr S.step nservers (next_view S.step (S.view w) s r) (S.view w₂) todo
            same)

  abbrev SentAll : List ℕ → Doall × W → Type 0
  SentAll answers (st', w') =
      (pending' : List HashQuery) × Owing S nservers queries st' w' pending' [] answers

  send_all_lem :
      (todo : List HashQuery) (st : Doall) (w : W) (pending : List HashQuery) (answers : List ℕ)
      → Owing S nservers queries st w pending todo answers
      → AllSendable todo
      → AllServable S nservers (S.view w) todo
      → Returns
          (send_all boxes nservers queries todo st w)
          (SentAll (answers ++ serve_in_order S.step nservers (S.view w) todo))
  unfolding send_all serve_in_order
  send_all_lem [] st w pending answers v sendable servable = (
    (st, w),
    refl,
    (pending, subst (Owing S nservers queries st w pending []) (sym (append-nil answers)) v),
  )
  send_all_lem (q ∷ todo) st w pending answers v (one, others) (can, servable) =
      let s = server_of nservers q in
      let r = request_of q in
      let ((st', w₁), run, (pending', v', room, still)) =
        drain_lem law nservers some_server queries (length queries) s st w pending (q ∷ todo)
          answers v (mod-lt q.key some_server) (omega (arith, length-pending v)) in
      let (request, asks, fits) = send_query_request boxes nservers queries s q w₁ one in
      let (w₂, sent, good₂, changed, stepped, away) =
        law.writes w₁ s r v'.good asks fits (subst (λ v. S.can v r) (sym (still s)) can)
          (omega (arith, v'.owes s, room)) in
      let views = sent_views S.step (S.view w) (S.view w₁) (S.view w₂) s r still stepped away in
      let (end, run', (pending'', v'')) =
        send_all_lem todo (count_sent st' s) w₂ (pending' ++ q ∷ [])
          (answers ++ (S.step (S.view w₁ s) r).0 ∷ [])
          (sent-Owing some_server (S.step (S.view w₁ s) r).0 v' room good₂ changed) others
          (AllServable-congr S nservers (next_view S.step (S.view w) s r) (S.view w₂) todo views
            servable) in
      (
        end,
        rw (run) (rw (request ∙ sent) run'),
        (
          pending'',
          subst (Owing S nservers queries end.0 end.1 pending'' [])
              (order answers w w₁ w₂ s r todo still stepped away) v'',
        ),
      )

  flush_all_lem :
      (left i : ℕ) (w : W)
      → S.good w
      → Returns (flush_all boxes nservers queries left i w) (λ w'.
        S.good w'
        × ((t : ℕ) → S.expects w' t ≡ S.expects w t)
        × ((t : ℕ) → S.flushed w t → S.flushed w' t)
        × ((t : ℕ) → i ≤ t → t < i + left → S.flushed w' t))
  unfolding flush_all
  flush_all_lem zero i w good =
      (w, refl, (good, λ t. refl, λ t f. f, λ t low high. absurd (omega arith)))
  flush_all_lem (suc left) i w good =
      let (w₁, run, good₁, same, still, ready, keeps) = law.flushes w i good in
      let (w₂, run', (good₂, same', keeps', all)) = flush_all_lem left (suc i) w₁ good₁ in
      (
        w₂,
        rw run run',
        (
          good₂,
          λ t. same' t ∙ same t,
          λ t f. keeps' t (keeps t f),
          λ t low high. elim (ℕ_discrete t i) [
            | yes here ↦ keeps' t (subst (λ k. S.flushed w₁ k) (sym here) ready)
            | no other ↦ all t (omega (arith, low, other)) (omega (arith, high))
          ],
        ),
      )

  read_left_lem :
      (pending : List HashQuery) (st : Doall) (w : W) (answers : List ℕ)
      → Owing S nservers queries st w pending [] answers
      → ((t : ℕ) → t < nservers → S.flushed w t)
      → Returns
          (read_left boxes nservers queries (length pending) st w)
          (λ (st', w'). st'.values ≡ answers)
  unfolding read_left results
  read_left_lem [] st w answers v ready = ((st, w), refl, sym (append-nil st.values) ∙ v.all)
  read_left_lem (q ∷ pending) st w answers v ready =
      let p = server_of nservers q in
      let (at, (x, rest, e)) =
        oldest law nservers some_server queries st w q pending [] answers v in
      let (w', run, good, changed, still, keeps) =
        law.blocks w p x rest v.good (ready p (mod-lt q.key some_server)) e in
      let (end, run', values) =
        read_left_lem pending (put_value st p x) w' answers
          (popped-Owing some_server v e good changed) (λ t h. keeps t (ready t h)) in
      (end, rw at (rw run run'), values)

  -- If nothing is owed before it, every query may be sent, its server can answer it behind the queries
  -- before it, and there is a server, then smp_hash_doall ends, and its values are the answers of the
  -- servers to the queries in their order, each server answering those of its keys one after the other
  -- from the state it is in before.
  pub smp_hash_doall_refines :
      (w : W)
      → S.good w
      → ((t : ℕ) → S.expects w t ≡ [])
      → AllSendable queries
      → AllServable S nservers (S.view w) queries
      → Returns
          (smp_hash_doall boxes nservers queries w)
          (λ (values, w'). values ≡ serve_in_order S.step nservers (S.view w) queries)
  unfolding smp_hash_doall results
  smp_hash_doall_refines w good idle sendable servable =
      let start : Doall = record { values = []; pending_count = replicate nservers 0 } in
      let none_owed : Owing S nservers queries start w [] queries [] = record {
        good = good;
        owes = λ t. ap length (idle t) ∙ sym (occurs-nil t);
        few = λ t. omega (arith, occurs-nil t);
        counts = λ t h. get_or-replicate nservers t 0 ∙ sym (occurs-nil t);
        counters = length-replicate nservers 0;
        all = refl;
        place = refl;
      } in
      let ((st, w₁), run, (pending, v)) =
        send_all_lem queries start w [] [] none_owed sendable servable in
      let (w₂, run', (good₂, same, keeps, ready)) = flush_all_lem nservers 0 w₁ v.good in
      let ((st', w₃), run'', values) =
        read_left_lem pending st w₂ (serve_in_order S.step nservers (S.view w) queries)
          (same-Owing v good₂ same) (λ t h. ready t (omega arith) (omega arith)) in
      let left : length queries - length st.values ≡ length pending =
        omega (arith, length-pending v) in
      ((st'.values, w₃), rw run (rw (run', left) (rw run'')), values)
