-- ===== src/HashClient/Wire.antt =====
-- The bytes that the client's queries make on the wire, and the values that come back.
use smphash_table.Base.{
  ℕ, zero, suc, ◌+◌, ◌*◌, ◌^◌, ◌-◌, ◌≤◌, ◌<◌, ◌≡◌, ◌⊎◌, inl, inr, refl, sym, ap, ◌∙◌, Option, some,
  true, ◌&&◌, List, [], ◌∷◌, ◌++◌, append_assoc, append-nil, length, take, drop, arith, ◌==◌, ltb,
  if◌then◌else◌, ok, Returns, Bool-cases, ==→eq, eq→==, ne→==, ℕ_discrete, dec_lt, lt→ltb, le→ltb,
  ◌/◌,
}
use smphash_table.Protocol.{ClientQuery, answer, optype_insert, query_bytes, le_bytes, le_value}
use smphash_table.Protocol.Bytes.{length-query_bytes, length-le_bytes, le_value-le_bytes}
use smphash_table.HashClient.{
  HashConn, Fwrite, ItemRead, hash_query_of, send_bytes, sendquery_, sendqueries, read_bytes,
  readvalue, to_in, ℤ, pos, negsuc, to_int,
}

-- The documentation of fwrite: a beginning of the bytes is written, all of them if all items are
-- counted; and fflush keeps what was written.
pub record Accepting {O : Type 0} (fwrite : Fwrite O) (fflush : O → O) (sent : O → List ℕ)
    : Type 0 where
  pub begins :
      (size : ℕ) (bytes : List ℕ) (o : O)
      → (k : ℕ) × (sent (fwrite size bytes o).1 ≡ sent o ++ take k bytes)
  pub whole :
      (size : ℕ) (bytes : List ℕ) (o : O)
      → size * (fwrite size bytes o).0 ≡ length bytes
      → sent (fwrite size bytes o).1 ≡ sent o ++ bytes
  pub flushes : (o : O) → sent (fflush o) ≡ sent o

-- What a query puts on the wire.
unfoldable pub wire : ClientQuery → List ℕ
wire q =
    query_bytes (hash_query_of q)
    ++ (if (q.optype == optype_insert) && ltb 0 q.size then q.value else [])

unfoldable pub wires : List ClientQuery → List ℕ
wires [] = []
wires (q ∷ qs) = wire q ++ wires qs

-- The value has as many bytes as the query says.
abbrev pub Sized : ClientQuery → Type 0
Sized q = length q.value ≡ q.size

-- All the bytes behind those sent before, or with the result 0 a beginning of them.
abbrev pub Sent : ℕ → List ℕ → List ℕ → List ℕ → Type 0
Sent r now before bytes =
    ((r ≡ 1) × (now ≡ before ++ bytes)) ⊎ ((r ≡ 0) × ((k : ℕ) × (now ≡ before ++ take k bytes)))

take-append_in : (k : ℕ) (xs ys : List ℕ) → (j : ℕ) × (take k xs ≡ take j (xs ++ ys))
take-append_in zero xs ys = (0, refl)
take-append_in (suc k) [] ys = (0, refl)
take-append_in (suc k) (x ∷ xs) ys =
    let (j, e) = take-append_in k xs ys in (suc j, ap (λ t. x ∷ t) e)

take-append_past : (k : ℕ) (xs ys : List ℕ) → xs ++ take k ys ≡ take (length xs + k) (xs ++ ys)
take-append_past k [] ys = ap (λ t. take t ys) (omega arith)
take-append_past k (x ∷ xs) ys =
    let sum : suc (length xs + k) ≡ suc (length xs) + k = omega arith in
    ap (λ t. x ∷ t) (take-append_past k xs ys) ∙ ap (λ t. take t (x ∷ xs ++ ys)) sum

-- Bytes in two parts, of which the second may break off.
Sent-append :
    (r : ℕ) (now middle before xs ys : List ℕ)
    → middle ≡ before ++ xs
    → Sent r now middle ys
    → Sent r now before (xs ++ ys)
Sent-append r now middle before xs ys m (inl (e, all)) =
    inl (e, all ∙ ap (λ t. t ++ ys) m ∙ append_assoc before xs ys)
Sent-append r now middle before xs ys m (inr (e, (k, part))) = inr (
  e,
  (
    length xs + k,
    part
        ∙ ap (λ t. t ++ take k ys) m
        ∙ append_assoc before xs (take k ys)
        ∙ ap (λ t. before ++ t) (take-append_past k xs ys),
  ),
)

Sent-broken :
    (now before xs ys : List ℕ)
    → (k : ℕ) × (now ≡ before ++ take k xs)
    → Sent 0 now before (xs ++ ys)
Sent-broken now before xs ys (k, part) =
    let (j, e) = take-append_in k xs ys in inr (refl, (j, part ∙ ap (λ t. before ++ t) e))

module _ {O : Type 0} {fwrite : Fwrite O} {fflush : O → O} {sent : O → List ℕ}
    (law : Accepting fwrite fflush sent) where
  body_sent :
      (q : ClientQuery) (o : O)
      → Sized q
      → Sent
          (if (fwrite 1 q.value o).0 == q.size then 1 else 0)
          (sent (fwrite 1 q.value o).1)
          (sent o)
          q.value
  body_sent q o sized = elim (ℕ_discrete (fwrite 1 q.value o).0 q.size) [
    | yes same ↦
        rw (eq→== (fwrite 1 q.value o).0 q.size same)
          (inl (refl, law.whole 1 q.value o (omega (arith, same, sized))))
    | no other ↦ rw (ne→== (fwrite 1 q.value o).0 q.size other) (inr (refl, law.begins 1 q.value o))
  ]

  send_bytes_lem :
      (q : ClientQuery) (o : O)
      → Sized q
      → Sent (send_bytes fwrite q o).0 (sent (send_bytes fwrite q o).1) (sent o) (wire q)
  unfolding send_bytes wire
  send_bytes_lem q o sized =
      let bytes = query_bytes (hash_query_of q) in
      let header = fwrite 16 bytes o in
      elim (Bool-cases (header.0 == 1)) [
        | inl one ↦
            let all =
              law.whole 16 bytes o
                (omega (arith, ==→eq header.0 1 one, length-query_bytes (hash_query_of q))) in
            elim (Bool-cases ((q.optype == optype_insert) && ltb 0 q.size)) [
              | inl body ↦
                  rw (send_bytes, wire, one, body)
                    (Sent-append _ _ _ (sent o) bytes q.value all (body_sent q header.1 sized))
              | inr no_body ↦
                  rw (send_bytes, wire, one, no_body)
                    (inl (refl, all ∙ ap (λ t. sent o ++ t) (sym (append-nil bytes))))
            ]
        | inr less ↦
            rw (send_bytes, wire, less) (Sent-broken _ (sent o) bytes _ (law.begins 16 bytes o))
      ]

  -- A result of sendqueries on a connection that can be written to.
  abbrev pub SentQueries : {I : Type 0} → List ClientQuery → O → ℕ × Option (HashConn I O) → Type 0
  SentQueries {I} qs o (r, conn') =
      (i : Option I) × (o' : O) × (conn' ≡ some (record { fin = i; fout = some o' }))
      × Sent r (sent o') (sent o) (wires qs)

  abbrev pub AllSized : List ClientQuery → Type 0
  AllSized [] = Unit
  AllSized (q ∷ qs) = Sized q × AllSized qs

  pub sendqueries_refines :
      {I : Type 0} (i : Option I) (o : O) (qs : List ClientQuery)
      → AllSized qs
      → Returns
          (sendqueries fwrite fflush (some (record { fin = i; fout = some o })) qs)
          (SentQueries qs o)
  unfolding sendqueries sendquery_ wires
  sendqueries_refines i o [] sized = (
    (1, some (record { fin = i; fout = some (fflush o) })),
    refl,
    (i, fflush o, refl, inl (refl, law.flushes o ∙ sym (append-nil (sent o)))),
  )
  sendqueries_refines i o (q ∷ qs) (sized, rest) =
      let r = send_bytes fwrite q o in
      elim (send_bytes_lem q o sized) [
        | inl (one, all) ↦
            let (end, run, (i', o', conn, out)) = sendqueries_refines i r.1 qs rest in
            (
              end,
              rw (sendqueries, ne→== r.0 0 (omega (arith, one))) run,
              (
                i',
                o',
                conn,
                Sent-append end.0 (sent o') (sent r.1) (sent o) (wire q) (wires qs) all out,
              ),
            )
        | inr (broke, part) ↦ (
          (0, some (record { fin = i; fout = some r.1 })),
          rw (sendqueries, eq→== r.0 0 broke)
              (ap (λ t. ok (t, some (record { fin = i; fout = some r.1 }))) broke),
          (i, r.1, refl, Sent-broken (sent r.1) (sent o) (wire q) (wires qs) part),
        )
      ]

-- The documentation of fread on a stream that blocks: it stores what comes, until all items are read
-- or the stream ends.
pub record Blocking {I : Type 0} (fread : ItemRead I) (coming : I → List ℕ) : Type 0 where
  pub stores : (size n : ℕ) (i : I) → (fread size n i).0 ≡ take (size * n) (coming i)
  pub leaves : (size n : ℕ) (i : I) → coming (fread size n i).1 ≡ drop (size * n) (coming i)

take-append_all : (n : ℕ) (xs ys : List ℕ) → length xs ≡ n → take n (xs ++ ys) ≡ xs
take-append_all zero [] ys h = refl
take-append_all (suc n) [] ys h = absurd (omega arith)
take-append_all zero (x ∷ xs) ys h = absurd (omega arith)
take-append_all (suc n) (x ∷ xs) ys h = ap (λ t. x ∷ t) (take-append_all n xs ys (omega arith))

drop-append_all : (n : ℕ) (xs ys : List ℕ) → length xs ≡ n → drop n (xs ++ ys) ≡ ys
drop-append_all zero [] ys h = refl
drop-append_all (suc n) [] ys h = absurd (omega arith)
drop-append_all zero (x ∷ xs) ys h = absurd (omega arith)
drop-append_all (suc n) (x ∷ xs) ys h = drop-append_all n xs ys (omega arith)

-- The int that stands for a size: the size, or from 2^31 on a negative number.
abbrev pub SizeOf : ℕ → ℤ → Type 0
SizeOf n r = ((n < 2 ^ 31) × (r ≡ pos n)) ⊎ ((2 ^ 31 ≤ n) × (r ≡ negsuc (2 ^ 32 - 1 - n)))

to_int-SizeOf : (n : ℕ) → SizeOf n (to_int n)
unfolding to_int
to_int-SizeOf n = elim (dec_lt n (2 ^ 31)) [
  | yes small ↦ inl (small, rw (lt→ltb n (2 ^ 31) small) refl)
  | no large ↦ inr (omega (arith, large), rw (le→ltb n (2 ^ 31) (omega (arith, large))) refl)
]

module _ {I : Type 0} {fread : ItemRead I} {coming : I → List ℕ} (law : Blocking fread coming) where
  -- The read value and the stream behind it.
  abbrev pub ReadValue :
      {O : Type 0} → List ℕ → List ℕ → Option O → ℤ × List ℕ × Option (HashConn I O) → Type 0
  ReadValue value rest o (r, bytes, conn') =
      SizeOf (length value) r
      × (bytes ≡ value)
      × ((i' : I) × (conn' ≡ some (record { fin = some i'; fout = o })) × (coming i' ≡ rest))

  read_bytes_lem :
      (i : I) (value rest : List ℕ)
      → length value < 2 ^ 32
      → coming i ≡ answer value ++ rest
      → (i' : I) × (read_bytes fread i ≡ (to_int (length value), value, i')) × (coming i' ≡ rest)
  unfolding read_bytes
  read_bytes_lem i value rest fits whole =
      let header = fread 4 1 i in
      let size_bytes = length-le_bytes 4 (length value) in
      let split = whole ∙ append_assoc (le_bytes 4 (length value)) value rest in
      let first : header.0 ≡ le_bytes 4 (length value) =
        law.stores 4 1 i
        ∙ ap (take 4) split
        ∙ take-append_all 4 (le_bytes 4 (length value)) (value ++ rest) size_bytes in
      let behind : coming header.1 ≡ value ++ rest =
        law.leaves 4 1 i
        ∙ ap (drop 4) split
        ∙ drop-append_all 4 (le_bytes 4 (length value)) (value ++ rest) size_bytes in
      let size : le_value header.0 ≡ length value =
        ap le_value first ∙ le_value-le_bytes 4 (length value) fits in
      let four : length header.0 ≡ 4 = ap length first ∙ size_bytes in
      let one_item : (length header.0 / 4 == 1) ≡ true =
        eq→== (length header.0 / 4) 1 (omega (arith, four)) in
      elim (dec_lt 0 (length value)) [
        | no nothing ↦
            let nil = empty value (omega (arith, nothing)) in
            (
              header.1,
              rw
                  (
                    read_bytes,
                    one_item,
                    size,
                    le→ltb 0 (length value) (omega (arith, nothing)),
                    size,
                  )
                  (ap (λ t. (to_int (length value), t, header.1)) (sym nil)),
              behind ∙ ap (λ t. t ++ rest) nil,
            )
        | yes some_bytes ↦
            let body = fread 1 (length value) header.1 in
            let got : body.0 ≡ value =
              law.stores 1 (length value) header.1
              ∙ ap (take (1 * length value)) behind
              ∙ take-append_all (1 * length value) value rest (omega arith) in
            let left : coming body.1 ≡ rest =
              law.leaves 1 (length value) header.1
              ∙ ap (drop (1 * length value)) behind
              ∙ drop-append_all (1 * length value) value rest (omega arith) in
            (
              body.1,
              rw (
                read_bytes,
                one_item,
                size,
                lt→ltb 0 (length value) some_bytes,
                size,
                got,
                eq→== (length value) (length value) refl,
              ),
              left,
            )
      ]
    where
      empty : (xs : List ℕ) → length xs ≡ 0 → xs ≡ []
      empty [] h = refl
      empty (x ∷ xs) h = absurd (omega arith)

  pub readvalue_refines :
      {O : Type 0} (i : I) (o : Option O) (value rest : List ℕ)
      → length value < 2 ^ 32
      → coming i ≡ answer value ++ rest
      → Returns
          (readvalue fread (some (record { fin = some i; fout = o })))
          (ReadValue value rest o)
  unfolding readvalue read_bytes
  readvalue_refines i o value rest fits whole =
      let (i', run, left) = read_bytes_lem i value rest fits whole in
      (
        (to_int (length value), value, some (record { fin = some i'; fout = o })),
        ap (λ r. ok (r.0, r.1, some (to_in (record { fin = some i; fout = o }) r.2))) run,
        (to_int-SizeOf (length value), refl, (i', refl, left)),
      )
