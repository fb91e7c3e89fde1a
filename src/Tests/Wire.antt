-- ===== src/Tests/Wire.antt =====
-- The wire between hashclient.c and hashserver2.c, at concrete streams: lists of bytes that come, or
-- have been taken.
use smphash_table.Base.{
  ℕ, ◌*◌, ◌/◌, ◌≤◌, ◌<◌, ◌≡◌, refl, sym, ap, none, some, false, List, [], ◌∷◌, ◌++◌, length,
  length-take, take, drop, take-drop, take-length, arith, ltb, if◌then◌else◌, Run, ok, Returns,
  zero, suc, ltb→lt, ltb→le,
}
use smphash_table.Protocol.{ClientQuery, le_bytes, le_value, query_bytes}
use smphash_table.HashClient.{Fwrite, ItemRead, sendqueries, readvalue}
use smphash_table.HashClient.Wire.{
  Accepting, Blocking, SentQueries, ReadValue, sendqueries_refines, readvalue_refines,
}
use smphash_table.HashServer.{
  Fread, Iovec, Write, stream_error, read_object, write_iovs, release_bases,
}
use smphash_table.HashServer.Iovs.{Stream, WroteIovs, Filled, spread, range, write_iovs_refines}
use smphash_table.HashServer.Objects.{Readable, ObjectRead, read_object_refines}

wire_code : Unit {0}
unfolding le_bytes le_value query_bytes stream_error spread range Filled release_bases
wire_code = tt

-- A client's stream that takes all it is given.
abbrev fwrite_all : Fwrite (List ℕ)
fwrite_all size bytes o = (length bytes / size, o ++ bytes)

fwrite_all-Accepting : Accepting fwrite_all (λ o. o) (λ o. o)
fwrite_all-Accepting = record {
  begins = λ size bytes o. (length bytes, ap (λ t. o ++ t) (sym (take-length bytes)));
  whole = λ size bytes o full. refl;
  flushes = λ o. refl;
}

-- An insert of two bytes, and a lookup.
abbrev two_queries : List ClientQuery
two_queries =
    record { optype = 1; key = 300; size = 2; value = 8 ∷ 9 ∷ [] }
    ∷ record { optype = 0; key = 300; size = 0; value = [] }
    ∷ []

sendqueries_refines_example :
    Returns
      (sendqueries {I = List ℕ} fwrite_all
        (λ o. o)
        (some (record { fin = none; fout = some [] }))
        two_queries)
      (SentQueries fwrite_all-Accepting two_queries [])
sendqueries_refines_example =
    sendqueries_refines fwrite_all-Accepting none [] two_queries (refl, (refl, tt))

-- A client's stream of the bytes to come.
abbrev fread_blocking : ItemRead (List ℕ)
fread_blocking size n i = (take (size * n) i, drop (size * n) i)

fread_blocking-Blocking : Blocking fread_blocking (λ i. i)
fread_blocking-Blocking = record { stores = λ size n i. refl; leaves = λ size n i. refl }

readvalue_refines_example :
    Returns
      (readvalue {O = List ℕ} fread_blocking
        (some (record { fin = some (2 ∷ 0 ∷ 0 ∷ 0 ∷ 8 ∷ 9 ∷ 5 ∷ []); fout = none })))
      (ReadValue fread_blocking-Blocking (8 ∷ 9 ∷ []) (5 ∷ []) none)
unfolding wire_code
readvalue_refines_example =
    readvalue_refines fread_blocking-Blocking (2 ∷ 0 ∷ 0 ∷ 0 ∷ 8 ∷ 9 ∷ 5 ∷ []) none (8 ∷ 9 ∷ [])
      (5 ∷ []) (omega arith) refl

-- A server's stream of the bytes to come, which are all there.
abbrev pub fread_there : Fread (List ℕ)
fread_there n f =
    (record { bytes = take n f; errno = 0; ferror = false; feof = ltb (length f) n }, drop n f)

take_short : (n : ℕ) (xs : List ℕ) → length xs < n → (take n xs ≡ xs) × (drop n xs ≡ [])
take_short zero xs h = absurd (omega arith)
take_short (suc n) [] h = (refl, refl)
take_short (suc n) (x ∷ xs) h =
    let (kept, left) = take_short n xs (omega arith) in (ap (λ t. x ∷ t) kept, left)

length-take_le : (n : ℕ) (xs : List ℕ) → length (take n xs) ≤ n
length-take_le zero xs = omega arith
length-take_le (suc n) [] = omega arith
length-take_le (suc n) (x ∷ xs) = omega (arith, length-take_le n xs)

pub fread_there-Readable : Readable fread_there (λ f. f) (λ f. 0)
unfolding wire_code
fread_there-Readable = record {
  limits = length-take_le;
  gives = take-drop;
  fails = λ n f ended.
      let (kept, left) = take_short n f (ltb→lt (length f) n ended) in
      (omega (arith, ap length kept, ltb→lt (length f) n ended), left);
  waits = λ n f. omega arith;
  goes_on = λ n f some_bytes fine nothing.
      omega (arith, some_bytes, nothing, length-take n f (ltb→le (length f) n fine));
}

read_object_refines_example :
    Returns
      (read_object fread_there 10 2 (7 ∷ 8 ∷ 9 ∷ []))
      (ObjectRead fread_there-Readable 2 (7 ∷ 8 ∷ 9 ∷ []))
read_object_refines_example =
    read_object_refines fread_there-Readable 10 2 (7 ∷ 8 ∷ 9 ∷ []) (omega arith) (omega arith)

-- A socket that takes two bytes at a time, and a table that logs what is released.
abbrev few : ℕ → ℕ
few n = if ltb 2 n then 2 else n

abbrev writev_few : Write (List Iovec) (List ℕ)
writev_few iov s =
    (0, few (length (spread iov)), s ++ take (few (length (spread iov))) (spread iov))

few-le : (n : ℕ) → few n ≤ n
few-le n = ground arith

few_some : (n : ℕ) → 0 < n → few n ≡ 0 → 0 < 0
few_some n h e = ground arith

writev_few-Stream : Stream writev_few (λ s. s) (λ s. 0)
writev_few-Stream = record {
  counts = λ iov s. few-le (length (spread iov));
  takes = λ iov s. refl;
  waits = λ iov s. omega arith;
  goes_on = λ iov s some_bytes fine nothing. few_some (length (spread iov)) some_bytes nothing;
}

abbrev log_release : ℕ → List ℕ → Run (List ℕ)
log_release ptr w = ok (w ++ ptr ∷ [])

-- A value of five bytes, and the answer without a value.
abbrev two_answers : List Iovec
two_answers = record { iov_base = 100; iov_len = 5 } ∷ record { iov_base = 7; iov_len = 4 } ∷ []

write_iovs_refines_example :
    Returns
      (write_iovs 7 log_release writev_few 20 two_answers 2 [] [])
      (WroteIovs 7 log_release writev_few-Stream [] two_answers (100 ∷ []))
unfolding wire_code
write_iovs_refines_example =
    write_iovs_refines 7 log_release writev_few-Stream 20 2 two_answers [] [] (100 ∷ [])
      (omega arith) (omega arith) (omega arith, (omega arith, tt)) (omega arith) refl
