-- ===== src/Client/Doall/Answered.antt =====
-- The answers that smp_hash_doall reads in front of a query.
use smphash_table.Base.{
  ℕ, zero, suc, ◌^◌, ◌≤◌, ◌<◌, ◌≡◌, refl, ap, ◌∙◌, true, false, List, [], ◌∷◌, ◌++◌, length, get_or,
  arith, leb, le→leb, lt→leb, lt→ltb, ok, Returns, dec_lt,
}
use smphash_table.Protocol.{HashQuery}
use smphash_table.Partition.Lists.{occurs, occurs-cons, occurs-nil}
use smphash_table.Client.{Boxes, max_pending_per_server, too_many}
use smphash_table.Client.Doall.{Doall, server_of, server_at, put_value, read_oldest, drain}
use smphash_table.Client.Ports.{Service, Serves, next_word-Serves}
use smphash_table.Client.Doall.Sent.{servers, get_or_of-drop, Owing, popped-Owing}

too_many-small :
    (n m : ℕ) → n ≡ m → m ≤ max_pending_per_server → too_many n ≡ leb max_pending_per_server m
too_many-small n m e few = rw (e, lt→ltb m (2 ^ 31) (omega arith))

module _ {W : Type 0} (boxes : Boxes W) (nservers : ℕ) (queries : List HashQuery) where
  drain_done :
      (rounds s : ℕ) (st : Doall) (w : W)
      → too_many (get_or st.pending_count s 0) ≡ false
      → drain boxes nservers queries rounds s st w ≡ ok (st, w)
  unfolding drain
  drain_done zero s st w e = rw e
  drain_done (suc rounds) s st w e = rw (e, drain)

  drain_more :
      (rounds s : ℕ) (st st' : Doall) (w w' : W)
      → too_many (get_or st.pending_count s 0) ≡ true
      → read_oldest boxes nservers queries st w ≡ ok (st', w')
      → drain boxes nservers queries (suc rounds) s st w
        ≡ drain boxes nservers queries rounds s st' w'
  unfolding drain
  drain_more rounds s st st' w w' e run = rw (e, drain) (rw run)

module _ {W V : Type 0} {boxes : Boxes W} {S : Service W V} (law : Serves boxes S) (nservers : ℕ)
    (some_server : 0 < nservers) (queries : List HashQuery) where
  first_of : (l : List ℕ) (n : ℕ) → length l ≡ suc n → (x : ℕ) × (rest : List ℕ) × (l ≡ x ∷ rest)
  first_of [] n h = absurd (omega arith)
  first_of (x ∷ rest) n h = (x, rest, refl)

  -- The oldest query has an answer to come.
  pub oldest :
      (st : Doall) (w : W) (q : HashQuery) (pending todo : List HashQuery) (answers : List ℕ)
      → Owing S nservers queries st w (q ∷ pending) todo answers
      → (server_at nservers queries (length st.values) ≡ server_of nservers q)
        × ((x : ℕ) × (rest : List ℕ) × (S.expects w (server_of nservers q) ≡ x ∷ rest))
  oldest st w q pending todo answers v =
      let p = server_of nservers q in
      (
        ap (server_of nservers) (
            get_or_of-drop (length st.values) queries q (record { optype = 0; size = 0; key = 0 })
              (pending ++ todo) v.place),
        first_of (S.expects w p) (occurs p (servers nservers pending))
            (v.owes p ∙ ground (arith, occurs-cons p p (servers nservers pending))),
      )

  read_oldest_lem :
      (st : Doall) (w : W) (q : HashQuery) (pending todo : List HashQuery) (answers : List ℕ)
      → Owing S nservers queries st w (q ∷ pending) todo answers
      → Returns (read_oldest boxes nservers queries st w) (λ (st', w').
        Owing S nservers queries st' w' pending todo answers × ((t : ℕ) → S.view w' t ≡ S.view w t))
  unfolding read_oldest
  read_oldest_lem st w q pending todo answers v =
      let (at, (x, rest, e)) = oldest st w q pending todo answers v in
      let (w', run, good, changed, still) =
        next_word-Serves law (server_of nservers q) w x rest v.good e in
      (
        (put_value st (server_of nservers q) x, w'),
        rw at (rw run),
        (popped-Owing some_server v e good changed, still),
      )

  -- What is left behind the loop in front of a query.
  abbrev pub Drained : ℕ → W → List HashQuery → List ℕ → Doall × W → Type 0
  Drained s w todo answers (st', w') =
      (pending' : List HashQuery) × Owing S nservers queries st' w' pending' todo answers
      × (occurs s (servers nservers pending') < max_pending_per_server)
      × ((t : ℕ) → S.view w' t ≡ S.view w t)

  pub drain_lem :
      (rounds s : ℕ) (st : Doall) (w : W) (pending todo : List HashQuery) (answers : List ℕ)
      → Owing S nservers queries st w pending todo answers
      → s < nservers
      → length pending ≤ rounds
      → Returns (drain boxes nservers queries rounds s st w) (Drained s w todo answers)
  drain_lem rounds s st w [] todo answers v inside enough = (
    (st, w),
    drain_done boxes nservers queries rounds s st w (
        too_many-small (get_or st.pending_count s 0) (occurs s []) (v.counts s inside) (v.few s)
        ∙ lt→leb max_pending_per_server (occurs s []) (omega (arith, occurs-nil s))),
    ([], v, omega (arith, occurs-nil s), λ t. refl),
  )
  drain_lem zero s st w (q ∷ pending) todo answers v inside enough = absurd (omega arith)
  drain_lem (suc rounds) s st w (q ∷ pending) todo answers v inside enough =
      let n = occurs s (servers nservers (q ∷ pending)) in
      let test = too_many-small (get_or st.pending_count s 0) n (v.counts s inside) (v.few s) in
      elim (dec_lt n max_pending_per_server) [
        | yes room ↦ (
          (st, w),
          drain_done boxes nservers queries (suc rounds) s st w
              (test ∙ lt→leb max_pending_per_server n room),
          (q ∷ pending, v, room, λ t. refl),
        )
        | no full ↦
            let ((st', w'), run, (v', still)) = read_oldest_lem st w q pending todo answers v in
            let (end, run', (pending', v'', room, still')) =
              drain_lem rounds s st' w' pending todo answers v' inside (omega arith) in
            (
              end,
              drain_more boxes nservers queries rounds s st st' w w'
                    (test ∙ le→leb max_pending_per_server n (omega (arith, full))) run
                  ∙ run',
              (pending', v'', room, λ t. still' t ∙ still t),
            )
      ]
