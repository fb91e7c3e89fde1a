-- ===== src/Alock/Order.antt =====
-- The threads at a lock in the order of their slots.
use smphash_table.Base.{
  ℕ, suc, ◌+◌, ◌%◌, ◌≤◌, ◌≡◌, refl, ap, ◌∙◌, Bool, true, false, List, [], ◌∷◌, ◌++◌, length, arith,
  if◌then◌else◌,
}
use smphash_table.Alock.{Call, fetched, waiting, holding, wraps, int_mod}

abbrev pub slot_in : ℕ → Call → ℕ
slot_in n (fetched me) = int_mod me n
slot_in n (waiting me) = me
slot_in n (holding me) = me

-- The threads have the slots from `first` on, one after another.
unfoldable pub Aligned : ℕ → ℕ → List Call → Type 0
Aligned n first [] = Unit
Aligned n first (c ∷ cs) = (slot_in n c ≡ first % n) × Aligned n (suc first) cs

abbrev pub holds : Call → Bool
holds (fetched me) = false
holds (waiting me) = false
holds (holding me) = true

unfoldable pub NoneHolds : List Call → Type 0
NoneHolds [] = Unit
NoneHolds (c ∷ cs) = (holds c ≡ false) × NoneHolds cs

abbrev pub turns : ℕ → Call → ℕ
turns n (fetched me) = if wraps n me then 1 else 0
turns n (waiting me) = 0
turns n (holding me) = 0

-- The threads that still have to take a round off the counter.
unfoldable pub pending_turns : ℕ → List Call → ℕ
pending_turns n [] = 0
pending_turns n (c ∷ cs) = turns n c + pending_turns n cs

-- The thread at one place.
pub Aligned-at :
    (n first : ℕ) (us : List Call) (c : Call) (vs : List Call)
    → Aligned n first (us ++ c ∷ vs)
    → slot_in n c ≡ (first + length us) % n
unfolding Aligned
Aligned-at n first [] c vs a = a.0 ∙ ap (λ t. t % n) (omega arith)
Aligned-at n first (u ∷ us) c vs a =
    Aligned-at n (suc first) us c vs a.1 ∙ ap (λ t. t % n) (omega arith)

pub Aligned-replace :
    (n first : ℕ) (us : List Call) (c d : Call) (vs : List Call)
    → slot_in n d ≡ slot_in n c
    → Aligned n first (us ++ c ∷ vs)
    → Aligned n first (us ++ d ∷ vs)
unfolding Aligned
Aligned-replace n first [] c d vs e a = (e ∙ a.0, a.1)
Aligned-replace n first (u ∷ us) c d vs e a = (a.0, Aligned-replace n (suc first) us c d vs e a.1)

pub Aligned-append :
    (n first : ℕ) (cs : List Call) (d : Call)
    → slot_in n d ≡ (first + length cs) % n
    → Aligned n first cs
    → Aligned n first (cs ++ d ∷ [])
unfolding Aligned
Aligned-append n first [] d e a = (e ∙ ap (λ t. t % n) (omega arith), tt)
Aligned-append n first (c ∷ cs) d e a =
    (a.0, Aligned-append n (suc first) cs d (e ∙ ap (λ t. t % n) (omega arith)) a.1)

pub NoneHolds-at :
    (us : List Call) (c : Call) (vs : List Call) → NoneHolds (us ++ c ∷ vs) → holds c ≡ false
unfolding NoneHolds
NoneHolds-at [] c vs a = a.0
NoneHolds-at (u ∷ us) c vs a = NoneHolds-at us c vs a.1

pub NoneHolds-replace :
    (us : List Call) (c d : Call) (vs : List Call)
    → holds d ≡ false
    → NoneHolds (us ++ c ∷ vs)
    → NoneHolds (us ++ d ∷ vs)
unfolding NoneHolds
NoneHolds-replace [] c d vs e a = (e, a.1)
NoneHolds-replace (u ∷ us) c d vs e a = (a.0, NoneHolds-replace us c d vs e a.1)

pub NoneHolds-append :
    (cs : List Call) (d : Call) → holds d ≡ false → NoneHolds cs → NoneHolds (cs ++ d ∷ [])
unfolding NoneHolds
NoneHolds-append [] d e a = (e, tt)
NoneHolds-append (c ∷ cs) d e a = (a.0, NoneHolds-append cs d e a.1)

pub pending_turns-at :
    (n : ℕ) (us : List Call) (c : Call) (vs : List Call)
    → pending_turns n (us ++ c ∷ vs) ≡ turns n c + pending_turns n (us ++ vs)
unfolding pending_turns
pending_turns-at n [] c vs = refl
pending_turns-at n (u ∷ us) c vs = omega (arith, pending_turns-at n us c vs)

turns_le : (n : ℕ) (c : Call) → turns n c ≤ 1
turns_le n (fetched me) = ground arith
turns_le n (waiting me) = omega arith
turns_le n (holding me) = omega arith

pub pending_turns-le : (n : ℕ) (cs : List Call) → pending_turns n cs ≤ length cs
unfolding pending_turns
pending_turns-le n [] = omega arith
pending_turns-le n (c ∷ cs) = omega (arith, pending_turns-le n cs, turns_le n c)
