-- ===== src/Ring.antt =====
-- Arrays used as rings: the buffers of mpbuffers.c and onewaybuffer.c and the pending requests of
-- smphashtable.c keep free-running indices and reduce them to a slot when they touch the array.
use native.Mathlib.Nat.{mod-add-mod, mod-eq_of_lt, mod-eq-sub-mod, mod-lt}
use smphash_table.Base.{
  ℕ, zero, suc, ◌+◌, ◌-◌, ◌%◌, ◌≤◌, ◌<◌, ◌≡◌, ◌≢◌, refl, ap, ◌∙◌, sym, List, [], ◌∷◌, ◌++◌, arith,
  length, get_or, set, get_or-set, ne→==, eq→==, dec_lt,
}

pub suc-mod_congr : (cap i j : ℕ) → 0 < cap → i % cap ≡ j % cap → suc i % cap ≡ suc j % cap
suc-mod_congr cap i j h e =
    let step : (k : ℕ) → suc k % cap ≡ (k % cap + 1) % cap =
      λ k. rw mod-add-mod (ap (λ t. t % cap) (omega arith)) in
    step i ∙ ap (λ t. (t + 1) % cap) e ∙ sym (step j)

-- Fewer than `cap` steps round the ring do not come back to the start.
pub add-mod-ne : (cap a d : ℕ) → 0 < d → d < cap → (a + d) % cap ≢ a % cap
add-mod-ne cap a d pos small same = elim (dec_lt (a % cap + d) cap) [
  | yes p ↦ omega (arith, round, mod-eq_of_lt p)
  | no p ↦ omega (
    arith,
    round,
    mod-lt a {m = cap} (omega arith),
    mod-eq-sub-mod {n = a % cap + d} {m = cap} (omega arith),
    mod-eq_of_lt {n = a % cap + d - cap} {m = cap}
        (omega (arith, mod-lt a {m = cap} (omega arith))),
  )
]
  where
    round : (a % cap + d) % cap ≡ a % cap
    round = rw mod-add-mod same

module _ {ℓ} {A : Type ℓ} (cap : ℕ) (d : A) where
  -- The `n` entries from index `i` on.
  abbrev pub window : List A → ℕ → ℕ → List A
  window buf i zero = []
  window buf i (suc n) = get_or buf (i % cap) d ∷ window buf (suc i) n

  pub length-window : (buf : List A) (i n : ℕ) → length (window buf i n) ≡ n
  length-window buf i zero = refl
  length-window buf i (suc n) = ap suc (length-window buf (suc i) n)

  pub window-cons :
      (buf : List A) (i n : ℕ) {x : A} {q : List A}
      → window buf i (suc n) ≡ x ∷ q
      → (get_or buf (i % cap) d ≡ x) × (window buf (suc i) n ≡ q)
  window-cons buf i n e = (cc, cc)

  -- Only the slot of the index matters.
  pub window_congr :
      (buf : List A) (i j n : ℕ) → 0 < cap → i % cap ≡ j % cap → window buf i n ≡ window buf j n
  window_congr buf i j zero h e = refl
  window_congr buf i j (suc n) h e =
      rw (e, window_congr buf (suc i) (suc j) n h (suc-mod_congr cap i j h e))

  -- A write just past the entries extends them.
  pub window-set :
      (buf : List A) (i n s : ℕ) (x : A)
      → cap ≤ length buf
      → n < cap
      → s ≡ (i + n) % cap
      → window (set buf s x) i (suc n) ≡ window buf i n ++ x ∷ []
  window-set buf i zero s x fits room e =
      let here : s ≡ i % cap = e ∙ ap (λ t. t % cap) (omega arith) in
      rw (
        get_or-set buf s (i % cap) x d (omega (arith, mod-lt i {m = cap} room)),
        eq→== s (i % cap) here,
      )
  window-set buf i (suc n) s x fits room e =
      let other : s ≢ i % cap = rw e (add-mod-ne cap i (suc n) (omega arith) room) in
      let below : s < cap = rw e (mod-lt (i + suc n) {m = cap} (omega arith)) in
      rw
        (
          get_or-set buf s (i % cap) x d (omega arith),
          ne→== s (i % cap) other,
          window-set buf (suc i) n s x fits (omega arith) (e ∙ ap (λ t. t % cap) (omega arith)),
        )
        refl
