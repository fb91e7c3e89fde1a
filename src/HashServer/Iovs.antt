-- ===== src/HashServer/Iovs.antt =====
-- `write_iovs`: what it writes, and that it releases every value, on every path.
use smphash_table.Base.{
  ℕ, zero, suc, ◌+◌, ◌-◌, ◌≤◌, ◌<◌, ◌≡◌, ◌⊎◌, inl, inr, refl, sym, ap, ◌∙◌, true, false, ◌&&◌, List,
  [], ◌∷◌, ◌++◌, append_assoc, append-nil, length, length-append, take, drop, arith, ltb, leb,
  if◌then◌else◌, Run, ok, Returns, Bool-cases, bind_ok, drop-append_in, drop-append_past, take-drop,
  take-plus, length-drop, dec_lt, lt→ltb, false,
}
use smphash_table.HashServer.{
  Iovec, Write, failed, release_unless_null, release_bases, release_left, advanced, progress,
  write_loop, write_iovs,
}

-- The addresses of the bytes of some entries, in the order in which writev writes them.
unfoldable pub range : ℕ → ℕ → List ℕ
range b zero = []
range b (suc n) = b ∷ range (suc b) n

unfoldable pub spread : List Iovec → List ℕ
spread [] = []
spread (v ∷ vs) = range v.iov_base v.iov_len ++ spread vs

-- What the documentation of writev says: it writes a beginning of the bytes, all that it counts, and
-- a socket does not take nothing without an error for ever.
pub record Stream {S : Type 0} (writev : Write (List Iovec) S) (taken : S → List ℕ)
    (patience : S → ℕ) : Type 0 where
  pub counts : (iov : List Iovec) (s : S) → (writev iov s).1 ≤ length (spread iov)
  pub takes :
      (iov : List Iovec) (s : S)
      → taken (writev iov s).2 ≡ taken s ++ take (writev iov s).1 (spread iov)
  pub waits : (iov : List Iovec) (s : S) → patience (writev iov s).2 ≤ patience s
  pub goes_on :
      (iov : List Iovec) (s : S)
      → 0 < length (spread iov)
      → failed (writev iov s).0 ≡ false
      → (writev iov s).1 ≡ 0
      → patience (writev iov s).2 < patience s

-- Every entry has bytes.
unfoldable pub Filled : List Iovec → Type 0
Filled [] = Unit
Filled (v ∷ vs) = (0 < v.iov_len) × Filled vs

length-range : (b n : ℕ) → length (range b n) ≡ n
unfolding range
length-range b zero = refl
length-range b (suc n) = ap suc (length-range (suc b) n)

drop-range : (r b n : ℕ) → r ≤ n → drop r (range b n) ≡ range (b + r) (n - r)
unfolding range
drop-range zero b n h = ap (λ t. range t n) (omega arith) ∙ ap (range (b + 0)) (omega arith)
drop-range (suc r) b zero h = absurd (omega arith)
drop-range (suc r) b (suc n) h =
    drop-range r (suc b) n (omega arith)
    ∙ ap (λ t. range t (n - r)) (omega arith)
    ∙ ap (range (b + suc r)) (omega arith)

module _ (r : ℕ) (v : Iovec) (vs : List Iovec) where
  -- The rest of an entry that is not written whole.
  spread-advanced :
      r < v.iov_len → spread ((if ltb 0 r then advanced r v else v) ∷ vs) ≡ drop r (spread (v ∷ vs))
  unfolding spread
  spread-advanced h = elim (dec_lt 0 r) [
    | yes some_bytes ↦ rw (lt→ltb 0 r some_bytes) (
        sym (
          drop-append_in r (range v.iov_base v.iov_len) (spread vs)
            (omega (arith, length-range v.iov_base v.iov_len))
          ∙ ap (λ l. l ++ spread vs) (drop-range r v.iov_base v.iov_len (omega arith))))
    | no nothing ↦ let zero_bytes : r ≡ 0 = omega (arith, nothing) in rw (zero_bytes)
  ]

  Filled-advanced :
      r < v.iov_len → Filled (v ∷ vs) → Filled ((if ltb 0 r then advanced r v else v) ∷ vs)
  unfolding Filled
  Filled-advanced h (some_bytes, rest) = (ground arith, rest)

  -- The bytes behind an entry that is written whole.
  spread-past : v.iov_len ≤ r → drop (r - v.iov_len) (spread vs) ≡ drop r (spread (v ∷ vs))
  unfolding spread
  spread-past h =
      ap (λ k. drop (r - k) (spread vs)) (sym (length-range v.iov_base v.iov_len))
      ∙ sym (
          drop-append_past r (range v.iov_base v.iov_len) (spread vs)
            (omega (arith, length-range v.iov_base v.iov_len)))

drop_nil : (r : ℕ) → drop {A = ℕ} r [] ≡ []
drop_nil zero = refl
drop_nil (suc r) = refl

-- What the socket has taken at the end: all the bytes, or with the result 2 a beginning of them.
abbrev pub Out : ℕ → List ℕ → List ℕ → List ℕ → Type 0
Out ret now before bytes =
    ((ret ≡ 0) × (now ≡ before ++ bytes)) ⊎ ((ret ≡ 2) × ((k : ℕ) × (now ≡ before ++ take k bytes)))

continued :
    (n : ℕ) (bytes bytes' now before middle : List ℕ) (ret : ℕ)
    → bytes' ≡ drop n bytes
    → middle ≡ before ++ take n bytes
    → Out ret now middle bytes'
    → Out ret now before bytes
continued n bytes bytes' now before middle ret e m (inl (r, all)) = inl (
  r,
  all
      ∙ ap (λ t. t ++ bytes') m
      ∙ append_assoc before (take n bytes) bytes'
      ∙ ap (λ t. before ++ (take n bytes ++ t)) e
      ∙ ap (λ t. before ++ t) (take-drop n bytes),
)
continued n bytes bytes' now before middle ret e m (inr (r, (k, part))) = inr (
  r,
  (
    n + k,
    part
        ∙ ap (λ t. t ++ take k bytes') m
        ∙ append_assoc before (take n bytes) (take k bytes')
        ∙ ap (λ t. before ++ (take n bytes ++ take k t)) e
        ∙ ap (λ t. before ++ t) (take-plus n k bytes),
  ),
)

partly : (r : ℕ) (v : Iovec) → r < v.iov_len → (ltb 0 r && leb v.iov_len r) ≡ false
partly r v h = ground arith

wholly :
    (r : ℕ) (v : Iovec) → ¬ (r < v.iov_len) → 0 < v.iov_len → (ltb 0 r && leb v.iov_len r) ≡ true
wholly r v h filled = ground arith

module _ {W : Type 0} (null_value : ℕ) (release : ℕ → W → Run W) where
  -- A step of the inner loop: the bytes left, the releases left, and the entries left.
  abbrev Progressed : ℕ → List Iovec → W → ℕ × List Iovec × W → Type 0
  Progressed r iov w' (base', iov', w₁) =
      (spread iov' ≡ drop r (spread iov))
      × (release_left null_value release base' iov' w₁ ≡ ok w')
      × Filled iov'

  progress_lem :
      (r base : ℕ) (iov : List Iovec) (w w' : W)
      → Filled iov
      → r ≤ length (spread iov)
      → release_left null_value release base iov w ≡ ok w'
      → Returns (progress null_value release r base iov w) (Progressed r iov w')
  unfolding progress Filled release_left release_bases spread
  progress_lem r base [] w w' filled h left =
      ((base, [], w), refl, (sym (drop_nil r), left, filled))
  progress_lem r base (v ∷ []) w w' filled h left = elim (dec_lt r v.iov_len) [
    | yes part ↦ (
      (base, (if ltb 0 r then advanced r v else v) ∷ [], w),
      rw (partly r v part),
      (spread-advanced r v [] part, left, Filled-advanced r v [] part filled),
    )
    | no whole ↦ (
      (base, [], w),
      rw (wholly r v whole filled.0),
      (sym (drop_nil (r - v.iov_len)) ∙ spread-past r v [] (omega (arith, whole)), left, tt),
    )
  ]
  progress_lem r base (v ∷ u ∷ us) w w' filled h left = elim (dec_lt r v.iov_len) [
    | yes part ↦ (
      (base, (if ltb 0 r then advanced r v else v) ∷ u ∷ us, w),
      rw (partly r v part, progress),
      (spread-advanced r v (u ∷ us) part, left, Filled-advanced r v (u ∷ us) part filled),
    )
    | no whole ↦
        let (w₁, freed, behind) =
          bind_ok (release_unless_null null_value release base w)
            (λ w'. release_bases null_value release (u ∷ us) w') left in
        let (end, run, (bytes, later, ok_later)) =
          progress_lem (r - v.iov_len) u.iov_base (u ∷ us) w₁ w' filled.1
            (omega (
              arith,
              h,
              length-append (range v.iov_base v.iov_len) (spread (u ∷ us)),
              length-range v.iov_base v.iov_len,
            ))
            behind in
        (
          end,
          rw (wholly r v whole filled.0, progress) (rw freed run),
          (bytes ∙ spread-past r v (u ∷ us) (omega (arith, whole)), later, ok_later),
        )
  ]

  -- The loop of writev ends; the bytes that the socket has taken then.
  abbrev pub Written :
      {S : Type 0} → (S → List ℕ) → S → List Iovec → W → ℕ × ℕ × List Iovec × S × W → Type 0
  Written taken s iov w' (ret, base', iov', s', w₁) =
      (release_left null_value release base' iov' w₁ ≡ ok w')
      × Out ret (taken s') (taken s) (spread iov)

  module _ {S : Type 0} {writev : Write (List Iovec) S} {taken : S → List ℕ} {patience : S → ℕ}
      (law : Stream writev taken patience) where
    -- Each call writes a byte, or brings the socket closer to taking one.
    fewer :
        (iov iov' : List Iovec) (s : S) (rounds : ℕ)
        → spread iov' ≡ drop (writev iov s).1 (spread iov)
        → 0 < length (spread iov)
        → failed (writev iov s).0 ≡ false
        → length (spread iov) + patience s ≤ suc rounds
        → length (spread iov') + patience (writev iov s).2 ≤ rounds
    fewer iov iov' s rounds bytes some_left good enough =
        let n = (writev iov s).1 in
        let left = ap length bytes ∙ length-drop n (spread iov) in
        elim (dec_lt 0 n) [
          | yes some_bytes ↦
              omega (arith, left, some_bytes, enough, law.counts iov s, law.waits iov s)
          | no nothing ↦
              let closer = law.goes_on iov s some_left good (omega (arith, nothing)) in
              omega (arith, left, closer, enough)
        ]

    write_loop_lem :
        (rounds base : ℕ) (iov : List Iovec) (s : S) (w w' : W)
        → Filled iov
        → length (spread iov) + patience s ≤ rounds
        → release_left null_value release base iov w ≡ ok w'
        → Returns
            (write_loop null_value release writev rounds base iov s w)
            (Written taken s iov w')
    unfolding write_loop Filled spread
    write_loop_lem rounds base [] s w w' filled enough left =
        ((0, base, [], s, w), refl, (left, inl (refl, sym (append-nil (taken s)))))
    write_loop_lem zero base (v ∷ vs) s w w' filled enough left = absurd (
        omega (
          arith,
          enough,
          filled.0,
          length-append (range v.iov_base v.iov_len) (spread vs),
          length-range v.iov_base v.iov_len,
        ))
    write_loop_lem (suc rounds) base (v ∷ vs) s w w' filled enough left =
        let iov = v ∷ vs in
        let o = writev iov s in
        elim (Bool-cases (failed o.0)) [
          | inl bad ↦ (
            (2, base, iov, o.2, w),
            rw (bad, write_loop),
            (left, inr (refl, (o.1, law.takes iov s))),
          )
          | inr good ↦
              let ((base', iov', w₁), run, (bytes, later, filled')) =
                progress_lem o.1 base iov w w' filled (law.counts iov s) left in
              let (end, run', (freed, out)) =
                write_loop_lem rounds base' iov' o.2 w₁ w' filled'
                  (fewer iov iov' s rounds bytes
                    (omega (
                      arith,
                      filled.0,
                      length-append (range v.iov_base v.iov_len) (spread vs),
                      length-range v.iov_base v.iov_len,
                    ))
                    good enough)
                  later in
              (
                end,
                rw (good, write_loop) (rw run run'),
                (
                  freed,
                  continued o.1 (spread iov) (spread iov') (taken end.3) (taken s) (taken o.2) end.0
                      bytes (law.takes iov s) out,
                ),
              )
        ]

    -- A result of write_iovs.
    abbrev pub WroteIovs : S → List Iovec → W → ℕ × S × W → Type 0
    WroteIovs s iov w' (ret, s', w'') = (w'' ≡ w') × Out ret (taken s') (taken s) (spread iov)

    pub write_iovs_refines :
        (rounds iovcnt : ℕ) (array : List Iovec) (s : S) (w w' : W)
        → 0 < iovcnt
        → iovcnt ≤ length array
        → Filled (take iovcnt array)
        → length (spread (take iovcnt array)) + patience s ≤ rounds
        → release_bases null_value release (take iovcnt array) w ≡ ok w'
        → Returns
            (write_iovs null_value release writev rounds array iovcnt s w)
            (WroteIovs s (take iovcnt array) w')
    unfolding write_iovs release_left release_bases
    write_iovs_refines rounds zero array s w w' some_iovs inside filled enough all =
        absurd (omega arith)
    write_iovs_refines rounds (suc n) [] s w w' some_iovs inside filled enough all =
        absurd (omega arith)
    write_iovs_refines rounds (suc n) (v ∷ vs) s w w' some_iovs inside filled enough all =
        let ((ret, base, left, s', w₁), run, (freed, out)) =
          write_loop_lem rounds v.iov_base (v ∷ take n vs) s w w' filled enough all in
        ((ret, s', w'), rw (run, freed), (refl, out))
