-- ===== src/HashServer/Gather/Queries.antt =====
-- One round of the reading: the query that comes on a socket is added to the batch whole, or nothing
-- is taken from the socket.
use smphash_table.Base.{
  ℕ, zero, suc, ◌+◌, ◌≤◌, ◌<◌, ◌≡◌, inl, inr, refl, ap, ◌∙◌, false, List, [], ◌++◌, append_split,
  length, length-append, arith, ◌==◌, ok, fault, out_of_fuel, ◌>>=◌, Returns, eq→==, ne→==,
  Bool-cases,
}
use smphash_table.HashServer.{Fread, stream_error, read_object}
use smphash_table.HashServer.Objects.{Readable, read_object_refines}
use smphash_table.HashServer.Gather.{read_value}

module _ {F : Type 0} (fread : Fread F) (fuel rounds size : ℕ) (f f' : F) (bytes : List ℕ) where
  read_value-again :
      read_object fread fuel size f ≡ ok (1, bytes, f')
      → read_value fread fuel (suc rounds) size f ≡ read_value fread fuel rounds size f'
  unfolding read_value
  read_value-again run = rw run

  read_value-done :
      (r : ℕ)
      → read_object fread fuel size f ≡ ok (r, bytes, f')
      → (r == 1) ≡ false
      → read_value fread fuel (suc rounds) size f ≡ ok (r, bytes, f')
  unfolding read_value
  read_value-done r run once = rw (run, ◌>>=◌, once)

module _ {F : Type 0} {fread : Fread F} {coming : F → List ℕ} {patience : F → ℕ}
    (law : Readable fread coming patience) where
  -- The value is read whole, however often the socket is not ready.
  pub read_value_lem :
      (fuel rounds : ℕ) (f : F) (value rest : List ℕ)
      → 0 < length value
      → length value + patience f ≤ fuel
      → patience f < rounds
      → coming f ≡ value ++ rest
      → Returns (read_value fread fuel rounds (length value) f) (λ (r, bytes, f').
        (r ≡ 0) × (bytes ≡ value) × (coming f' ≡ rest) × (patience f' ≤ patience f))
  unfolding read_value
  read_value_lem fuel zero f value rest some_bytes enough turns whole = absurd (omega arith)
  read_value_lem fuel (suc rounds) f value rest some_bytes enough turns whole =
      let ((r, bytes, f'), run, result) =
        read_object_refines law fuel (length value) f some_bytes enough in
      elim result [
        | inl (again, nothing, same, closer) ↦
            let (end, run', (done, got, left, calm)) =
              read_value_lem fuel rounds f' value rest some_bytes (omega (arith, closer, enough))
                (omega (arith, closer, turns)) (same ∙ whole) in
            (
              end,
              read_value-again fread fuel rounds (length value) f f' bytes
                    (run ∙ ap (λ t. ok (t, bytes, f')) again)
                  ∙ run',
              (done, got, left, omega (arith, calm, closer)),
            )
        | inr (inl (done, long, all, calm)) ↦
            let (got, left) = append_split bytes value long (all ∙ whole) in
            (
              (r, bytes, f'),
              read_value-done fread fuel rounds (length value) f f' bytes r run
                  (ne→== r 1 (omega (arith, done))),
              (done, got, left, calm),
            )
        | inr (inr (ended, short, none_left)) ↦
            absurd (omega (arith, short, ap length whole, length-append value rest))
      ]

  -- An object without bytes is never read: the thread asks again for ever.
  pub read_value_stuck :
      (fuel rounds : ℕ) (f : F) → read_value fread fuel rounds 0 f ≡ fault out_of_fuel
  unfolding read_value read_object
  read_value_stuck fuel zero f = refl
  read_value_stuck fuel (suc rounds) f =
      let none_read : length (fread 0 f).0.bytes ≡ 0 = omega (arith, law.limits 0 f) in
      let fine : stream_error (fread 0 f).0 ≡ false =
        elim (Bool-cases (stream_error (fread 0 f).0)) [
          | inl bad ↦ absurd (omega (arith, (law.fails 0 f bad).0))
          | inr good ↦ good
        ] in
      let again : read_object fread fuel 0 f ≡ ok (1, [], (fread 0 f).1) =
        rw (read_object, eq→== (length (fread 0 f).0.bytes) 0 none_read, fine) in
      read_value-again fread fuel rounds 0 f (fread 0 f).1 [] again
      ∙ read_value_stuck fuel rounds (fread 0 f).1
