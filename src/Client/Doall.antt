-- ===== src/Client/Doall.antt =====
-- smp_hash_doall of smphashtable.c: a batch of queries, answered before it returns.
pub mod Serves
pub mod Sent
pub mod Answered
pub mod Refine
use smphash_table.Base.{
  ℕ, zero, suc, ◌+◌, ◌-◌, ◌%◌, ◌^◌, Bool, true, false, List, [], ◌∷◌, ◌++◌, length, get_or, set,
  replicate, ◌==◌, if◌then◌else◌, Run, ok, fault, abort, out_of_fuel, ◌>>=◌,
}
use smphash_table.Protocol.{HashQuery, optype_lookup, optype_insert}
use smphash_table.Message.{Request, lookup, insert, encode}
use smphash_table.Client.{Boxes, hash_get_server, too_many, next_word}

-- The locals: `values` up to `pindex`, and `pending_count`, whose entries are bit patterns of ints.
pub record Doall : Type 0 where
  pub values : List ℕ
  pub pending_count : List ℕ

abbrev pub server_of : ℕ → HashQuery → ℕ
server_of nservers q = hash_get_server nservers q.key

-- `hash_get_server(hash_table, queries[pindex].key)`
abbrev pub server_at : ℕ → List HashQuery → ℕ → ℕ
server_at nservers queries pindex =
    server_of nservers (get_or queries pindex (record { optype = 0; size = 0; key = 0 }))

-- `values[pindex] = val; pending_count[ps]--; pindex++`
abbrev pub put_value : Doall → ℕ → ℕ → Doall
put_value st ps val = record {
  values = st.values ++ val ∷ [];
  pending_count = set st.pending_count ps ((get_or st.pending_count ps 0 + 2 ^ 32 - 1) % 2 ^ 32);
}

abbrev pub count_sent : Doall → ℕ → Doall
count_sent st s = record st {
  pending_count = set st.pending_count s ((get_or st.pending_count s 0 + 1) % 2 ^ 32);
}

module _ {W : Type 0} (boxes : Boxes W) (nservers : ℕ) (queries : List HashQuery) where
  unfoldable pub read_oldest : Doall → W → Run (Doall × W)
  read_oldest st w =
      let ps = server_at nservers queries (length st.values) in
      do (val, w') ← next_word boxes ps w; ok (put_value st ps val, w')

  -- The `while` loop in front of a query, with the rounds left.
  unfoldable pub drain : ℕ → ℕ → Doall → W → Run (Doall × W)
  drain zero s st w =
      if too_many (get_or st.pending_count s 0) then fault out_of_fuel else ok (st, w)
  drain (suc rounds) s st w = elim (too_many (get_or st.pending_count s 0)) [
    | false ↦ ok (st, w)
    | true ↦ do (st', w') ← read_oldest st w; drain rounds s st' w'
  ]

  -- The `switch`.
  unfoldable pub send_query : ℕ → HashQuery → W → Run W
  send_query s q w =
      if q.optype == optype_lookup
      then boxes.inpb_write s (encode (lookup q.key)) w
      else (if q.optype == optype_insert
          then boxes.inpb_write s (encode (insert q.key q.size)) w
          else fault abort)

  -- The first loop; each round of `drain` reads one answer.
  unfoldable pub send_all : List HashQuery → Doall → W → Run (Doall × W)
  send_all [] st w = ok (st, w)
  send_all (q ∷ todo) st w =
      let s = server_of nservers q in
      do
        (st', w₁) ← drain (length queries) s st w
        w₂ ← send_query s q w₁
        send_all todo (count_sent st' s) w₂

  -- The flushes, with the servers left.
  unfoldable pub flush_all : ℕ → ℕ → W → Run W
  flush_all zero i w = ok w
  flush_all (suc left) i w = do w' ← boxes.inpb_flush i w; flush_all left (suc i) w'

  -- The last loop, with the answers left.
  unfoldable pub read_left : ℕ → Doall → W → Run (Doall × W)
  read_left zero st w = ok (st, w)
  read_left (suc left) st w =
      let ps = server_at nservers queries (length st.values) in
      do (val, w') ← boxes.outb_blocking_read ps w; read_left left (put_value st ps val) w'

  -- The values, in the order of the queries.
  unfoldable pub smp_hash_doall : W → Run (List ℕ × W)
  smp_hash_doall w = do
    (st, w₁) ← send_all queries (record { values = []; pending_count = replicate nservers 0 }) w
    w₂ ← flush_all nservers 0 w₁
    (st', w₃) ← read_left (length queries - length st.values) st w₂
    ok (st'.values, w₃)
