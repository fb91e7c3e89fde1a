-- ===== src/Memory/Counts.antt =====
-- Reference counts: what the release functions do to a count, and when they free.
use smphash_table.Base.{
  ℕ, ◌+◌, ◌*◌, ◌/◌, ◌%◌, ◌^◌, ◌<◌, ◌≡◌, ◌≢◌, ◌↔◌, ℕ_discrete, refl, sym, ap, ◌∙◌, none, some, arith,
  bit_and, bit_and_mask, bit_and_high, ◌==◌, if◌then◌else◌, eq→==, ne→==, ok,
}
use smphash_table.Memory.{
  Ptr, Elem, Heap, deref, data_ready_mask, not_data_ready_mask, is_value_ready, dec64, put_count,
  mp_release, atomic_release, atomic_ready,
}

pub clear_bit : (rc : ℕ) → bit_and rc not_data_ready_mask ≡ rc % 2 ^ 63
clear_bit rc = bit_and_mask 63 rc

pub keep_bit : (rc : ℕ) → rc < 2 ^ 64 → bit_and rc data_ready_mask ≡ rc / 2 ^ 63 * 2 ^ 63
keep_bit rc fits =
    let split : rc ≡ rc / 2 ^ 63 * 2 ^ 63 + rc % 2 ^ 63 = omega arith in
    ap (λ n. bit_and n data_ready_mask) split
    ∙ bit_and_high 63 (rc / 2 ^ 63) (rc % 2 ^ 63) 1 (omega arith)
    ∙ ap (λ n. n * 2 ^ 63) (one_bit (rc / 2 ^ 63) (omega arith))
  where
    one_bit : (b : ℕ) → b < 2 → bit_and b 1 ≡ b
    one_bit b h = bit_and_mask 1 b ∙ omega arith

-- A value is ready exactly while the top bit of the count word is clear.
pub is_value_ready_iff :
    (x : Elem) → x.ref_count < 2 ^ 64 → is_value_ready x ≡ (x.ref_count / 2 ^ 63 == 0)
unfolding is_value_ready
is_value_ready_iff x fits = rw (keep_bit x.ref_count fits) (ground arith)

module _ (e : Ptr) (h : Heap) (x : Elem) (l : h e ≡ some x) where
  pub mp_release-put : mp_release e h ≡ ok (put_count h e x (dec64 (x.ref_count % 2 ^ 63)))
  unfolding mp_release
  mp_release-put = rw (deref, l) (ap (λ n. ok (put_count h e x (dec64 n))) (clear_bit x.ref_count))

  pub atomic_release-put : atomic_release e h ≡ ok (put_count h e x (dec64 x.ref_count))
  unfolding atomic_release
  atomic_release-put = rw (deref, l)

  pub atomic_ready-put : atomic_ready e h ≡ ok (put_count h e x (x.ref_count % 2 ^ 63))
  unfolding atomic_ready
  atomic_ready-put = rw (deref, l) (ap (λ n. ok (put_count h e x n)) (clear_bit x.ref_count))

  pub put_count-elsewhere : (rc : ℕ) (q : Ptr) → q ≢ e → put_count h e x rc q ≡ h q
  put_count-elsewhere rc q n = rw (ne→== e q (λ s. n (sym s)))

  -- The element is freed exactly when the new count is zero, and else keeps key and size.
  pub put_count-here :
      (rc : ℕ)
      → put_count h e x rc e ≡ (if rc == 0 then none else some (record x { ref_count = rc }))
  put_count-here rc = rw (eq→== e e refl)

  pub put_count-freed : (rc : ℕ) → (put_count h e x rc e ≡ none) ↔ (rc ≡ 0)
  put_count-freed rc = elim (ℕ_discrete rc 0) [
    | yes z ↦ (λ _. z, λ _. put_count-here rc ∙ rw (eq→== rc 0 z))
    | no nz ↦ (
      λ gone. absurd (
          let some_left =
            sym gone
            ∙ put_count-here rc
            ∙ ap (λ b. if b then none else some (record x { ref_count = rc })) (ne→== rc 0 nz) in
          cc),
      λ z. absurd (nz z),
    )
  ]
