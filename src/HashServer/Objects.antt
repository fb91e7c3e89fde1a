-- ===== src/HashServer/Objects.antt =====
-- `read_object` on a stream that does not block.
use smphash_table.Base.{
  subst, ℕ, zero, suc, ◌+◌, ◌-◌, ◌≤◌, ◌<◌, ◌≡◌, ◌⊎◌, inl, inr, refl, sym, ap, ◌∙◌, true, false,
  List, [], ◌∷◌, ◌++◌, append_assoc, length, length-append, arith, Returns, Bool-cases, eq→==,
  ne→==, ℕ_discrete, dec_lt, lt→ltb, le→ltb,
}
use smphash_table.HashServer.{Fread, stream_error, read_rest, read_object}

-- The documentation of fread on such a stream: it stores a beginning of what comes. It fails, or
-- reports the end, only where it stores less than asked and nothing more comes, and it does not store
-- nothing without an error for ever.
pub record Readable {F : Type 0} (fread : Fread F) (coming : F → List ℕ) (patience : F → ℕ)
    : Type 0 where
  pub limits : (n : ℕ) (f : F) → length (fread n f).0.bytes ≤ n
  pub gives : (n : ℕ) (f : F) → (fread n f).0.bytes ++ coming (fread n f).1 ≡ coming f
  pub fails :
      (n : ℕ) (f : F)
      → stream_error (fread n f).0 ≡ true
      → (length (fread n f).0.bytes < n) × (coming (fread n f).1 ≡ [])
  pub waits : (n : ℕ) (f : F) → patience (fread n f).1 ≤ patience f
  pub goes_on :
      (n : ℕ) (f : F)
      → 0 < n
      → stream_error (fread n f).0 ≡ false
      → length (fread n f).0.bytes ≡ 0
      → patience (fread n f).1 < patience f

module _ {F : Type 0} {fread : Fread F} {coming : F → List ℕ} {patience : F → ℕ}
    (law : Readable fread coming patience) where
  -- The object is read whole, or the stream ended in it.
  abbrev pub Whole : ℕ → List ℕ → ℕ → ℕ × List ℕ × F → Type 0
  Whole size before left (code, buf, f') =
      ((code ≡ 0) × (length buf ≡ size) × (buf ++ coming f' ≡ before) × (patience f' ≤ left))
      ⊎ ((code ≡ 2) × (length before < size) × (coming f' ≡ []))

  relax :
      {size : ℕ} {before : List ℕ} {less left : ℕ} (end : ℕ × List ℕ × F)
      → less ≤ left
      → Whole size before less end
      → Whole size before left end
  relax end h (inl (code, long, all, calm)) = inl (code, long, all, omega arith)
  relax end h (inr ended) = inr ended

  read_rest_lem :
      (rounds size : ℕ) (buf : List ℕ) (f : F)
      → length buf ≤ size
      → size - length buf + patience f ≤ rounds
      → Returns (read_rest fread rounds size buf f) (Whole size (buf ++ coming f) (patience f))
  unfolding read_rest
  read_rest_lem zero size buf f some_left enough = (
    (0, buf, f),
    rw (le→ltb (length buf) size (omega arith), eq→== (length buf) size (omega arith)),
    inl (refl, omega arith, refl, omega arith),
  )
  read_rest_lem (suc rounds) size buf f some_left enough = elim (dec_lt (length buf) size) [
    | no all ↦ (
      (0, buf, f),
      rw (
        read_rest,
        le→ltb (length buf) size (omega (arith, all)),
        eq→== (length buf) size (omega (arith, all)),
      ),
      inl (refl, omega (arith, all), refl, omega arith),
    )
    | yes less ↦
        let r = fread (size - length buf) f in
        let together : (buf ++ r.0.bytes) ++ coming r.1 ≡ buf ++ coming f =
          append_assoc buf r.0.bytes (coming r.1)
          ∙ ap (λ t. buf ++ t) (law.gives (size - length buf) f) in
        let longer = length-append buf r.0.bytes in
        let closer : stream_error r.0 ≡ false
            → size - length (buf ++ r.0.bytes) + patience r.1 ≤ rounds =
          λ good. elim (ℕ_discrete (length r.0.bytes) 0) [
            | yes nothing ↦
                let sooner = law.goes_on (size - length buf) f (omega (arith, less)) good nothing in
                omega (arith, longer, nothing, sooner, enough)
            | no some_bytes ↦
                omega (arith, longer, some_bytes, law.waits (size - length buf) f, enough, less)
          ] in
        elim (Bool-cases (stream_error r.0)) [
          | inl bad ↦ (
            (2, buf ++ r.0.bytes, r.1),
            rw (read_rest, lt→ltb (length buf) size less, bad),
            inr (
              refl,
              omega (
                arith,
                ap length (sym together),
                (law.fails (size - length buf) f bad).0,
                length-append (buf ++ r.0.bytes) (coming r.1),
                length-append buf r.0.bytes,
                ap length (law.fails (size - length buf) f bad).1,
              ),
              (law.fails (size - length buf) f bad).1,
            ),
          )
          | inr good ↦
              let (end, run, whole) =
                read_rest_lem rounds size (buf ++ r.0.bytes) r.1
                  (omega (arith, longer, law.limits (size - length buf) f)) (closer good) in
              (
                end,
                rw (read_rest, lt→ltb (length buf) size less, good) run,
                relax end (law.waits (size - length buf) f)
                    (subst (λ t. Whole size t (patience r.1) end) together whole),
              )
        ]
  ]

  -- A result of read_object: a whole object, or nothing yet, or the stream ended before its end.
  abbrev pub ObjectRead : ℕ → F → ℕ × List ℕ × F → Type 0
  ObjectRead size f (code, buf, f') =
      ((code ≡ 1) × (buf ≡ []) × (coming f' ≡ coming f) × (patience f' < patience f))
      ⊎ Whole size (coming f) (patience f) (code, buf, f')

  pub read_object_refines :
      (rounds size : ℕ) (f : F)
      → 0 < size
      → size + patience f ≤ rounds
      → Returns (read_object fread rounds size f) (ObjectRead size f)
  unfolding read_object
  read_object_refines rounds size f some_size enough =
      let r = fread size f in
      elim (ℕ_discrete (length r.0.bytes) 0) [
        | no some_bytes ↦
            let (end, run, whole) =
              read_rest_lem rounds size r.0.bytes r.1 (law.limits size f)
                (omega (arith, law.waits size f, enough)) in
            (
              end,
              rw (read_object, ne→== (length r.0.bytes) 0 some_bytes) run,
              inr (
                  relax end (law.waits size f)
                    (subst (λ t. Whole size t (patience r.1) end) (law.gives size f) whole)),
            )
        | yes nothing ↦ elim (Bool-cases (stream_error r.0)) [
          | inl bad ↦ (
            (2, [], r.1),
            rw (read_object, eq→== (length r.0.bytes) 0 nothing, bad),
            inr (
                inr (
                  refl,
                  omega (
                    arith,
                    some_size,
                    ap length (sym (law.gives size f)),
                    length-append r.0.bytes (coming r.1),
                    nothing,
                    ap length (law.fails size f bad).1,
                  ),
                  (law.fails size f bad).1,
                )),
          )
          | inr good ↦ (
            (1, [], r.1),
            rw (read_object, eq→== (length r.0.bytes) 0 nothing, good),
            inl (
              refl,
              refl,
              ap (λ t. t ++ coming r.1) (sym (empty r.0.bytes nothing)) ∙ law.gives size f,
              law.goes_on size f some_size good nothing,
            ),
          )
        ]
      ]
    where
      empty : (xs : List ℕ) → length xs ≡ 0 → xs ≡ []
      empty [] h = refl
      empty (x ∷ xs) h = absurd (omega arith)
