-- ===== src/Alock/Counter.antt =====
-- The invariant of a lock, and the counter that hands out its slots.
use native.Mathlib.Nat.{mod-eq-sub-mod, mod-eq_of_lt, mod_self, add-mod_left}
use smphash_table.Base.{
  ℕ, zero, suc, ◌+◌, ◌-◌, ◌*◌, ◌%◌, ◌^◌, ◌≤◌, ◌<◌, ◌≡◌, ◌≢◌, inl, inr, refl, sym, ap, ◌∙◌, Bool,
  true, false, List, [], ◌∷◌, ◌++◌, append-nil, length, length-append, get_or, arith, ◌==◌,
  if◌then◌else◌, Bool-cases, dec_lt, ℕ_discrete,
}
use smphash_table.Ring.{suc-mod_congr}
use smphash_table.Alock.{
  Alock, Call, fetched, waiting, max_clients, int_mod, wraps, acquire_fetch, acquire_wrap,
}
use smphash_table.Alock.Order.{
  Aligned, Aligned-replace, Aligned-append, holds, NoneHolds, NoneHolds-at, NoneHolds-replace,
  NoneHolds-append, turns, pending_turns, pending_turns-at, pending_turns-le,
}

-- Only the first thread may have the lock.
abbrev pub Holder : Bool → List Call → Type 0
Holder false cs = NoneHolds cs
Holder true [] = 0 < 0
Holder true (c ∷ cs) = (holds c ≡ true) × NoneHolds cs

-- `p` times `n`
unfoldable pub rounds : ℕ → ℕ → ℕ
rounds n zero = 0
rounds n (suc p) = n + rounds n p

rounds-mod : (n p x : ℕ) → (x + rounds n p) % n ≡ x % n
unfolding rounds
rounds-mod n zero x = ap (λ t. t % n) (omega arith)
rounds-mod n (suc p) x =
    mod-eq-sub-mod {n = x + (n + rounds n p)} {m = n} (omega arith)
    ∙ ap (λ t. t % n) (omega arith)
    ∙ rounds-mod n p x

rounds-le : (n p : ℕ) → n ≤ max_clients → rounds n p ≤ 1024 * p
unfolding rounds
rounds-le n zero h = omega arith
rounds-le n (suc p) h = omega (arith, rounds-le n p h)

pub record Inv (n : ℕ) (l : Alock) (cs : List Call) : Type 0 where
  pub threads : l.nthread ≡ n
  pub some_thread : 0 < n
  pub few_threads : n ≤ max_clients
  pub size : length l.has_lock ≡ max_clients
  pub few : length cs ≤ n
  pub first : ℕ
  pub aligned : Aligned n first cs
  pub held : Bool
  pub holder : Holder held cs
  pub flags :
      (i : ℕ)
      → i < n
      → get_or l.has_lock i 0 ≡ (if held then 0 else (if i == first % n then 1 else 0))
  pub turn : ℕ
  pub turn_le : turn ≤ n
  pub turn_zero : turn ≡ 0 → pending_turns n cs ≡ 0
  pub counter : l.next_slot ≡ turn + rounds n (pending_turns n cs)
  pub next_turn : turn % n ≡ (first + length cs) % n

pub Holder-replace :
    (h : Bool) (us : List Call) (c d : Call) (vs : List Call)
    → holds c ≡ false
    → holds d ≡ false
    → Holder h (us ++ c ∷ vs)
    → Holder h (us ++ d ∷ vs)
unfolding NoneHolds
Holder-replace false us c d vs e f a = NoneHolds-replace us c d vs f a
Holder-replace true [] c d vs e f a = absurd (let t = a.0 in cc)
Holder-replace true (u ∷ us) c d vs e f a = (a.0, NoneHolds-replace us c d vs f a.1)

Holder-append :
    (h : Bool) (cs : List Call) (d : Call) → holds d ≡ false → Holder h cs → Holder h (cs ++ d ∷ [])
Holder-append false cs d e a = NoneHolds-append cs d e a
Holder-append true [] d e a = absurd (omega arith)
Holder-append true (c ∷ cs) d e a = (a.0, NoneHolds-append cs d e a.1)

-- A thread with the lock is the first.
pub Holder-at :
    (h : Bool) (us : List Call) (c : Call) (vs : List Call)
    → holds c ≡ true
    → Holder h (us ++ c ∷ vs)
    → (h ≡ true) × (us ≡ []) × NoneHolds vs
Holder-at false us c vs e a = absurd (let f = NoneHolds-at us c vs a in cc)
Holder-at true [] c vs e a = (refl, refl, a.1)
Holder-at true (u ∷ us) c vs e a = absurd (let f = NoneHolds-at us c vs a.1 in cc)

wrapped_test : (n me : ℕ) → me < 2 ^ 31 → 0 < me → me % n ≡ 0 → wraps n me ≡ true
wrapped_test n me h pos z = ground arith

unwrapped_test : (n me : ℕ) → me < 2 ^ 31 → me % n ≢ 0 → wraps n me ≡ false
unwrapped_test n me h nz = ground arith

module _ {n : ℕ} {l : Alock} {cs : List Call} (v : Inv n l cs) where
  -- The counter is far from the bounds of an int.
  pub counter_small : l.next_slot < 2 ^ 21
  counter_small = omega (
    arith,
    v.counter,
    v.turn_le,
    v.few_threads,
    v.few,
    rounds-le n (pending_turns n cs) v.few_threads,
    pending_turns-le n cs,
  )

  slot_next : l.next_slot % n ≡ (v.first + length cs) % n
  slot_next = ap (λ t. t % n) v.counter ∙ rounds-mod n (pending_turns n cs) v.turn ∙ v.next_turn

-- The counter behind a fetch.
fetch_count :
    (n turn p me : ℕ)
    → 0 < n
    → turn ≤ n
    → (turn ≡ 0 → p ≡ 0)
    → me ≡ turn + rounds n p
    → me < 2 ^ 21
    → (turn' : ℕ) × (turn' ≤ n)
      × (0 < turn')
      × ((k : ℕ) → k ≡ turns n (fetched me) + p → me + 1 ≡ turn' + rounds n k)
      × (turn' % n ≡ (turn + 1) % n)
unfolding rounds
fetch_count n turn p me pos le zero_only e small = elim (dec_lt turn n) [
  | yes below ↦
      let rest : me % n ≡ turn =
        ap (λ t. t % n) e ∙ rounds-mod n p turn ∙ mod-eq_of_lt {n = turn} {m = n} below in
      let stays : wraps n me ≡ false = elim (ℕ_discrete turn 0) [
        | yes z ↦ at_zero n me (e ∙ ap (λ t. turn + rounds n t) (zero_only z) ∙ omega arith)
        | no nz ↦ unwrapped_test n me (omega arith) (omega arith)
      ] in
      (turn + 1, omega arith, omega arith, λ k f. same_rounds k (f ∙ rw stays (omega arith)), refl)
  | no over ↦
      let full : turn ≡ n = omega arith in
      let rest : me % n ≡ 0 =
        ap (λ t. t % n) e ∙ rounds-mod n p turn ∙ ap (λ t. t % n) full ∙ mod_self n in
      let test : wraps n me ≡ true = wrapped_test n me (omega arith) (omega arith) rest in
      (
        1,
        omega arith,
        omega arith,
        λ k f. one_round k (e ∙ ap (λ t. t + rounds n p) full) (f ∙ rw test (omega arith)),
        sym (ap (λ t. (t + 1) % n) full ∙ add-mod_left n 1),
      )
]
  where
    at_zero : (n me : ℕ) → me ≡ 0 → wraps n me ≡ false
    at_zero n me z = rw z

    same_rounds : (k : ℕ) → k ≡ p → me + 1 ≡ turn + 1 + rounds n k
    same_rounds k f = omega (arith, ap (rounds n) f)

    one_round : (k : ℕ) → me ≡ n + rounds n p → k ≡ suc p → me + 1 ≡ 1 + rounds n k
    one_round k g f = ap (λ t. t + 1) g ∙ omega arith ∙ ap (λ t. 1 + rounds n t) (sym f)

pub int_mod_small : (a b : ℕ) → a < 2 ^ 31 → int_mod a b ≡ a % b
int_mod_small a b h = ground arith

pub fetch-Inv :
    (n : ℕ) (l : Alock) (cs : List Call)
    → Inv n l cs
    → length cs < n
    → Inv n (acquire_fetch l).1 (cs ++ fetched l.next_slot ∷ [])
fetch-Inv n l cs v room =
    let me = l.next_slot in
    let small = counter_small v in
    let (turn', le, pos, count, same) =
      fetch_count n v.turn (pending_turns n cs) me v.some_thread v.turn_le v.turn_zero v.counter
        small in
    let more : pending_turns n (cs ++ fetched me ∷ []) ≡ turns n (fetched me) + pending_turns n cs =
      pending_turns-at n cs (fetched me) []
      ∙ ap (λ t. turns n (fetched me) + pending_turns n t) (append-nil cs) in
    let longer = length-append cs (fetched me ∷ []) in
    record {
      threads = v.threads;
      some_thread = v.some_thread;
      few_threads = v.few_threads;
      size = v.size;
      few = omega (arith, longer);
      first = v.first;
      aligned =
          Aligned-append n v.first cs (fetched me) (int_mod_small me n (omega arith) ∙ slot_next v)
            v.aligned;
      held = v.held;
      holder = Holder-append v.held cs (fetched me) refl v.holder;
      flags = v.flags;
      turn = turn';
      turn_le = le;
      turn_zero = λ z. absurd (omega arith);
      counter = omega (arith, count (pending_turns n (cs ++ fetched me ∷ [])) more);
      next_turn =
          same
          ∙ ap (λ t. t % n) (plus_one v.turn)
          ∙ suc-mod_congr n v.turn (v.first + length cs) v.some_thread v.next_turn
          ∙ ap (λ t. t % n) (omega (arith, longer));
    }
  where
    plus_one : (t : ℕ) → t + 1 ≡ suc t
    plus_one t = omega arith

wrap_count :
    (n next me p turn : ℕ)
    → next ≡ turn + rounds n p
    → (b : Bool) → p ≡ (if b then 1 else 0) + me
    → next < 2 ^ 21
    → 0 < n
    → (if b then (next + 2 ^ 32 - n) % 2 ^ 32 else next) ≡ turn + rounds n me
unfolding rounds
wrap_count n next me zero turn e true f small pos = absurd (omega arith)
wrap_count n next me (suc p) turn e true f small pos =
    let g : p ≡ me = omega arith in omega (arith, ap (rounds n) g)
wrap_count n next me p turn e false f small pos =
    let g : p ≡ me = omega arith in omega (arith, ap (rounds n) g)

wrap_next :
    (l : Alock) (me : ℕ)
    → (acquire_wrap l me).next_slot
      ≡ (if wraps l.nthread me then (l.next_slot + 2 ^ 32 - l.nthread) % 2 ^ 32 else l.next_slot)
unfolding acquire_wrap
wrap_next l me = elim (Bool-cases (wraps l.nthread me)) [ inl t ↦ rw t | inr f ↦ rw f ]

wrap_fields :
    (l : Alock) (me : ℕ)
    → ((acquire_wrap l me).has_lock ≡ l.has_lock) × ((acquire_wrap l me).nthread ≡ l.nthread)
unfolding acquire_wrap
wrap_fields l me = elim (Bool-cases (wraps l.nthread me)) [
  | inl t ↦ rw t (refl, refl)
  | inr f ↦ rw f (refl, refl)
]

pub length_swap :
    (us : List Call) (c d : Call) (vs : List Call) → length (us ++ d ∷ vs) ≡ length (us ++ c ∷ vs)
length_swap [] c d vs = refl
length_swap (u ∷ us) c d vs = ap suc (length_swap us c d vs)

pub wrap-Inv :
    (n : ℕ) (l : Alock) (me : ℕ) (us vs : List Call)
    → Inv n l (us ++ fetched me ∷ vs)
    → Inv n (acquire_wrap l me) (us ++ waiting (int_mod me l.nthread) ∷ vs)
wrap-Inv n l me us vs v =
    let here = int_mod me l.nthread in
    let (flags_kept, threads_kept) = wrap_fields l me in
    let before = pending_turns-at n us (fetched me) vs in
    let after : pending_turns n (us ++ waiting here ∷ vs) ≡ pending_turns n (us ++ vs) =
      pending_turns-at n us (waiting here) vs ∙ omega arith in
    let swap = length_swap us (fetched me) (waiting here) vs in
    record {
      threads = threads_kept ∙ v.threads;
      some_thread = v.some_thread;
      few_threads = v.few_threads;
      size = ap length flags_kept ∙ v.size;
      few = omega (arith, swap, v.few);
      first = v.first;
      aligned =
          Aligned-replace n v.first us (fetched me) (waiting here) vs (ap (int_mod me) v.threads)
            v.aligned;
      held = v.held;
      holder = Holder-replace v.held us (fetched me) (waiting here) vs refl refl v.holder;
      flags = λ i h. ap (λ t. get_or t i 0) flags_kept ∙ v.flags i h;
      turn = v.turn;
      turn_le = v.turn_le;
      turn_zero = λ z. omega (arith, after, before, v.turn_zero z);
      counter =
          wrap_next l me
          ∙ ap (λ t. if wraps t me then (l.next_slot + 2 ^ 32 - t) % 2 ^ 32 else l.next_slot)
              v.threads
          ∙ wrap_count n l.next_slot (pending_turns n (us ++ vs)) _ v.turn v.counter (wraps n me)
              before (counter_small v) v.some_thread
          ∙ ap (λ t. v.turn + rounds n t) (sym after);
      next_turn = v.next_turn ∙ ap (λ t. (v.first + t) % n) (sym swap);
    }
