-- ===== src/HashServer/Gather/Taken.antt =====
-- One round of the reading: the query that comes on a socket is added to the batch whole, or nothing
-- is taken from the socket.
use smphash_table.Base.{
  ℕ, ◌+◌, ◌%◌, ◌^◌, ◌≤◌, ◌<◌, ◌≡◌, ◌≢◌, ◌⊎◌, inl, inr, refl, sym, ap, ◌∙◌, Option, some, Bool,
  false, ◌&&◌, List, [], ◌∷◌, ◌++◌, append_split, length, length-append, arith, bit_and,
  bit_and_mask, ◌==◌, ltb, if◌then◌else◌, ok, Returns, eq→==, ne→==, le→ltb, lt→leb,
}
use smphash_table.Protocol.{HashQuery, optype_lookup, optype_insert, query_bytes, query_of}
use smphash_table.Protocol.Bytes.{length-query_bytes, query_of-query_bytes}
use smphash_table.HashServer.{Fread}
use smphash_table.HashServer.Objects.{Readable, read_object_refines}
use smphash_table.HashServer.Sockets.{socket_at}
use smphash_table.HashServer.Gather.{
  Entry, looked, inserted, Gathering, max_value_size, value_buffer_size, store_at, with_stream,
  append_entry, take_value, read_value, take_op, take_query, try_socket, pass_on, gather_step,
}
use smphash_table.HashServer.Gather.Queries.{read_value_lem}

-- A query that the server knows, with the value behind it: none for a lookup.
abbrev pub Asked : HashQuery → List ℕ → Type 0
Asked q value =
    (q.size < 2 ^ 32)
    × (q.key < 2 ^ 64)
    × (((q.optype ≡ optype_lookup) × (value ≡ []))
        ⊎ ((q.optype ≡ optype_insert)
            × (length value ≡ q.size)
            × (0 < q.size)
            × (q.size ≤ max_value_size)))

-- What the query becomes in the batch.
unfoldable pub entry_of : HashQuery → ℕ → Option ℕ → ℕ → Entry
entry_of q sid socket offset =
    if q.optype == optype_lookup
    then looked q sid socket
    else inserted (record q { size = q.size + 4 }) offset

module _ {F : Type 0} (coming : F → List ℕ) where
  -- The slot has the stream `f'`, and nothing else of the connections has changed.
  abbrev pub Streams : Gathering F → F → Gathering F → Type 0
  Streams g f' g' =
      (g'.cd.sockets ≡ g.cd.sockets)
      × (g'.cd.nsockets ≡ g.cd.nsockets)
      × (g'.cd.fin g.slot ≡ some f')
      × ((k : ℕ) → k ≢ g.slot → g'.cd.fin k ≡ g.cd.fin k)

  -- The query and its value are in the batch.
  abbrev pub Added : Gathering F → HashQuery → List ℕ → List ℕ → Gathering F → Type 0
  Added g q value rest g' =
      (g'.entries ≡ g.entries ++ entry_of q g.slot (socket_at g.cd g.slot) g.bufoffset ∷ [])
      × (g'.bufoffset ≡ g.bufoffset + length value)
      × ((k : ℕ) → g'.valuebuf k ≡ store_at g.valuebuf g.bufoffset value k)
      × (g'.slot ≡ g.slot)
      × (g'.last_socket ≡ g.slot)
      × ((f' : F) × Streams g f' g' × (coming f' ≡ rest))

  -- Nothing is taken.
  abbrev pub Untouched : Gathering F → F → (F → ℕ) → Gathering F → Type 0
  Untouched g f patience g' =
      (f' : F) × (g' ≡ with_stream g f') × (coming f' ≡ coming f) × (patience f' < patience f)

-- What a value that is read whole makes of the batch.
abbrev valued : {F : Type 0} → Gathering F → HashQuery → List ℕ → Gathering F
valued g q value = record g {
  entries = g.entries ++ inserted (record q { size = q.size + 4 }) g.bufoffset ∷ [];
  bufoffset = g.bufoffset + q.size;
  valuebuf = store_at g.valuebuf g.bufoffset value;
}

take_value_lem :
    {F : Type 0} (g : Gathering F) (q : HashQuery) (value : List ℕ)
    → length value ≡ q.size
    → g.bufoffset + length value ≤ value_buffer_size
    → q.size ≤ max_value_size
    → take_value q 0 value g ≡ ok (0, valued g q value)
unfolding take_value
take_value_lem g q value long room small =
    let no_wrap : (q.size + 4) % 2 ^ 32 ≡ q.size + 4 = omega (arith, small) in
    rw (le→ltb value_buffer_size (g.bufoffset + length value) room, no_wrap)

module _ {F : Type 0} {fread : Fread F} {coming : F → List ℕ} {patience : F → ℕ}
    (law : Readable fread coming patience) (fuel : ℕ) where
  with_stream-Streams : (g : Gathering F) (f' : F) → Streams coming g f' (with_stream g f')
  with_stream-Streams g f' = (
    refl,
    refl,
    rw (eq→== g.slot g.slot refl),
    λ k other. rw (ne→== g.slot k (λ e. other (sym e))),
  )

  take_op_lem :
      (g : Gathering F) (q : HashQuery) (value rest : List ℕ) (f : F)
      → Asked q value
      → g.last_socket ≡ g.slot
      → g.bufoffset + max_value_size < value_buffer_size
      → max_value_size + patience f < fuel
      → coming f ≡ value ++ rest
      → Returns (take_op fread fuel q f g) (λ (r, g'). (r ≡ 0) × Added coming g q value rest g')
  unfolding take_op take_value entry_of
  take_op_lem g q value rest f (size, key, inl (lookup, no_value)) last room enough whole = (
    (0, append_entry (with_stream g f) (looked q g.slot (socket_at g.cd g.slot))),
    rw (eq→== q.optype 0 lookup),
    (
      refl,
      (
        rw (eq→== q.optype 0 lookup),
        omega (arith, ap length no_value),
        λ k. ap (λ v. store_at g.valuebuf g.bufoffset v k) (sym no_value),
        refl,
        last,
        (f, with_stream-Streams g f, whole ∙ ap (λ v. v ++ rest) no_value),
      ),
    ),
  )
  take_op_lem g q value rest f (size, key, inr (insert, long, some_bytes, small)) last room enough
        whole =
      let ((r, bytes, f'), run, (done, got, left, calm)) =
        read_value_lem law fuel fuel f value rest (omega (arith, long, some_bytes))
          (omega (arith, long, small, enough)) (omega arith) whole in
      let run' : read_value fread fuel fuel q.size f ≡ ok (0, value, f') =
        ap (λ n. read_value fread fuel fuel n f) (sym long)
        ∙ run
        ∙ ap (λ t. ok (t, bytes, f')) done
        ∙ ap (λ t. ok (0, t, f')) got in
      let end = valued (with_stream g f') q value in
      (
        (0, end),
        rw (ne→== q.optype 0 (omega (arith, insert)), eq→== q.optype 1 insert, run')
            (take_value_lem (with_stream g f') q value long (omega (arith, long, small, room))
              small),
        (
          refl,
          (
            rw (ne→== q.optype 0 (omega (arith, insert))),
            omega (arith, long),
            λ k. refl,
            refl,
            last,
            (f', with_stream-Streams g f', left),
          ),
        ),
      )

  take_query_lem :
      (g : Gathering F) (q : HashQuery) (value rest : List ℕ) (f : F)
      → Asked q value
      → g.bufoffset + max_value_size < value_buffer_size
      → max_value_size + patience f < fuel
      → coming f ≡ query_bytes q ++ (value ++ rest)
      → Returns (take_query fread fuel f g) (λ (r, g').
        ((r ≡ 0) × Added coming g q value rest g') ⊎ ((r ≡ 1) × Untouched coming g f patience g'))
  unfolding take_query
  take_query_lem g q value rest f asked room enough whole =
      let long = length-query_bytes q in
      let all_long = length-append (query_bytes q) (value ++ rest) in
      let op_fits : q.optype < 2 ^ 32 = op_small asked.2 in
      let ((r, bytes, f'), run, result) =
        read_object_refines law fuel 16 f (omega arith) (omega (arith, enough)) in
      elim result [
        | inl (again, nothing, same, closer) ↦ (
          (1, with_stream g f'),
          rw (run ∙ ap (λ t. ok (t, bytes, f')) again),
          inr (refl, (f', refl, same, closer)),
        )
        | inr (inl (done, size, all, calm)) ↦
            let (got, left) = append_split bytes (query_bytes q) (size ∙ sym long) (all ∙ whole) in
            let back = ap query_of got ∙ query_of-query_bytes q op_fits asked.0 asked.1 in
            let (end, run', (taken, added)) =
              take_op_lem (record g { last_socket = g.slot }) q value rest f' asked refl room
                (omega (arith, calm, enough)) left in
            (
              end,
              rw (run ∙ ap (λ t. ok (t, bytes, f')) done) (
                  ap (λ t. take_op fread fuel t f' (record g { last_socket = g.slot })) back
                  ∙ run'),
              inl (taken, added),
            )
        | inr (inr (ended, short, none_left)) ↦
            absurd (omega (arith, short, ap length whole, all_long, long))
      ]
    where
      op_small :
          {a b c : ℕ} {v : List ℕ}
          → ((a ≡ 0) × (v ≡ [])) ⊎ ((a ≡ 1) × (length v ≡ b) × (0 < b) × (b ≤ c))
          → a < 2 ^ 32
      op_small (inl e) = omega (arith, e.0)
      op_small (inr e) = omega (arith, e.0)

  -- A result of one round at an open socket whose stream has the query coming.
  abbrev pub Round : Gathering F → HashQuery → List ℕ → List ℕ → F → Bool × Gathering F → Type 0
  Round g q value rest f (stop, g') =
      ((stop ≡ false) × Added coming g q value rest g')
      ⊎ ((stop ≡ (ltb 0 (length g.entries) && ((g.slot + 1) % 128 == g.last_socket)))
          × ((f' : F) × (g' ≡ record (with_stream g f') { slot = (g.slot + 1) % 128 })
              × (coming f' ≡ coming f)
              × (patience f' < patience f)))

  -- A round that is not the last, at an open socket.
  gather_step_open :
      (batch_size : ℕ) (g g' : Gathering F) (s r : ℕ) (f : F)
      → length g.entries < batch_size
      → g.bufoffset + max_value_size < value_buffer_size
      → socket_at g.cd g.slot ≡ some s
      → g.cd.fin g.slot ≡ some f
      → take_query fread fuel f g ≡ ok (r, g')
      → gather_step fread fuel batch_size g ≡ ok (pass_on r g')
  unfolding gather_step try_socket
  gather_step_open batch_size g g' s r f some_room room in_use stream run =
      let tried : try_socket fread fuel g ≡ ok (r, g') = rw (try_socket, in_use, stream) run in
      rw (
        lt→leb batch_size (length g.entries) some_room,
        lt→leb value_buffer_size (g.bufoffset + max_value_size) room,
        tried,
      )

  pub gather_step_refines :
      (batch_size : ℕ) (g : Gathering F) (q : HashQuery) (value rest : List ℕ) (s : ℕ) (f : F)
      → Asked q value
      → length g.entries < batch_size
      → g.bufoffset + max_value_size < value_buffer_size
      → socket_at g.cd g.slot ≡ some s
      → g.cd.fin g.slot ≡ some f
      → max_value_size + patience f < fuel
      → coming f ≡ query_bytes q ++ (value ++ rest)
      → Returns (gather_step fread fuel batch_size g) (Round g q value rest f)
  unfolding pass_on
  gather_step_refines batch_size g q value rest s f asked some_room room in_use stream enough
        whole =
      let ((r, g'), run, result) = take_query_lem g q value rest f asked room enough whole in
      elim result [
        | inl (done, added) ↦ (
          (false, g'),
          gather_step_open batch_size g g' s 0 f some_room room in_use stream
              (run ∙ ap (λ t. ok (t, g')) done),
          inl (refl, added),
        )
        | inr (again, (f', same, still, closer)) ↦
            let turn : bit_and (g.slot + 1) 127 ≡ (g.slot + 1) % 128 =
              bit_and_mask 7 (g.slot + 1) in
            (
              (
                ltb 0 (length g.entries) && ((g.slot + 1) % 128 == g.last_socket),
                record (with_stream g f') { slot = (g.slot + 1) % 128 },
              ),
              gather_step_open batch_size g (with_stream g f') s 1 f some_room room in_use stream
                    (run ∙ ap (λ t. ok (t, g')) again ∙ ap (λ t. ok (1, t)) same)
                  ∙ rw turn,
              inr (refl, (f', refl, still, closer)),
            )
      ]
