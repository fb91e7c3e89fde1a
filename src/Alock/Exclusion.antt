-- ===== src/Alock/Exclusion.antt =====
-- Which thread has the lock.
use native.Mathlib.Nat.{mod-eq_of_lt, mod-lt, mod-add-mod}
use smphash_table.Base.{
  ℕ, suc, ◌+◌, ◌%◌, ◌^◌, ◌≤◌, ◌<◌, ◌≡◌, ◌≢◌, inl, inr, refl, sym, ap, subst, ◌∙◌, some, Bool, true,
  false, List, [], ◌∷◌, ◌++◌, length, length-append, length-set, get_or, get_or-set, set, replicate,
  length-replicate, get_or-replicate, arith, ◌==◌, if◌then◌else◌, eq→==, ne→==, Bool-cases,
  ℕ_discrete, ok, leb, leb→le,
}
use smphash_table.Ring.{add-mod-ne}
use smphash_table.Alock.{
  Alock, Call, waiting, holding, Step, fetch, wrap, take, leave, Reach, start, later, max_clients,
  int_mod, acquire_take, anderson_release, anderson_init,
}
use smphash_table.Alock.Order.{
  Aligned, Aligned-at, Aligned-replace, NoneHolds, pending_turns, pending_turns-at,
}
use smphash_table.Alock.Counter.{
  Inv, Holder, Holder-at, rounds, fetch-Inv, wrap-Inv, int_mod_small, counter_small,
}

take_cases :
    (l l' : Alock) (me : ℕ)
    → acquire_take l me ≡ some l'
    → (get_or l.has_lock me 0 ≢ 0) × (l' ≡ record l { has_lock = set l.has_lock me 0 })
unfolding acquire_take
take_cases l l' me e = elim (ℕ_discrete (get_or l.has_lock me 0) 0) [
  | yes z ↦ absurd (let t = rw (eq→== (get_or l.has_lock me 0) 0 z) at e in cc)
  | no nz ↦ (nz, (let t = rw (ne→== (get_or l.has_lock me 0) 0 nz) at e in cc))
]

-- Only the first in turn finds its flag set, and then nobody has the lock.
set_flag :
    {n : ℕ} {l : Alock} (me : ℕ) (us vs : List Call)
    → (v : Inv n l (us ++ waiting me ∷ vs)) → get_or l.has_lock me 0 ≢ 0
    → (us ≡ []) × (v.held ≡ false) × (me ≡ v.first % n)
set_flag {n} {l} me us vs v lit =
    let here : me ≡ (v.first + length us) % n = Aligned-at n v.first us (waiting me) vs v.aligned in
    let inside : me < n = rw here (mod-lt (v.first + length us) {m = n} v.some_thread) in
    let flag = v.flags me inside in
    let short : length us < n = omega (arith, v.few, length-append us (waiting me ∷ vs)) in
    elim (Bool-cases v.held) [
      | inl t ↦
          absurd (lit (flag ∙ ap (λ b. if b then 0 else (if me == v.first % n then 1 else 0)) t))
      | inr f ↦ elim (ℕ_discrete me (v.first % n)) [
        | no other ↦ absurd (
            lit (
              flag
              ∙ ap (λ b. if b then 0 else (if me == v.first % n then 1 else 0)) f
              ∙ ap (λ b. if b then 1 else 0) (ne→== me (v.first % n) other)))
        | yes same ↦ (front us short (sym here ∙ same), f, same)
      ]
    ]
  where
    front : (us : List Call) → length us < n → (v.first + length us) % n ≡ v.first % n → us ≡ []
    front [] h e = refl
    front (u ∷ us) h e = absurd (add-mod-ne n v.first (length (u ∷ us)) (omega arith) h e)

take_front-Inv :
    (n : ℕ) (l : Alock) (me : ℕ) (vs : List Call) (v : Inv n l (waiting me ∷ vs))
    → v.held ≡ false
    → me ≡ v.first % n
    → Inv n (record l { has_lock = set l.has_lock me 0 }) (holding me ∷ vs)
unfolding NoneHolds
take_front-Inv n l me vs v free turn =
    let inside : me < n = rw turn (mod-lt v.first {m = n} v.some_thread) in
    let others : NoneHolds (waiting me ∷ vs) =
      subst (λ h. Holder h (waiting me ∷ vs)) free v.holder in
    let same =
      pending_turns-at n [] (waiting me) vs ∙ sym (pending_turns-at n [] (holding me) vs) in
    record {
      threads = v.threads;
      some_thread = v.some_thread;
      few_threads = v.few_threads;
      size = length-set l.has_lock me 0 ∙ v.size;
      few = v.few;
      first = v.first;
      aligned = Aligned-replace n v.first [] (waiting me) (holding me) vs refl v.aligned;
      held = true;
      holder = (refl, others.1);
      flags = λ i h.
          get_or-set l.has_lock me i 0 0 (omega (arith, v.size, v.few_threads))
          ∙ elim (ℕ_discrete me i) [
            | yes here ↦ rw (eq→== me i here)
            | no other ↦ rw (ne→== me i other) (
                v.flags i h
                ∙ ap (λ b. if b then 0 else (if i == v.first % n then 1 else 0)) free
                ∙ ap (λ b. if b then 1 else 0) (ne→== i (v.first % n) (λ t. other (turn ∙ sym t))))
          ];
      turn = v.turn;
      turn_le = v.turn_le;
      turn_zero = λ z. sym same ∙ v.turn_zero z;
      counter = v.counter ∙ ap (λ t. v.turn + rounds n t) same;
      next_turn = v.next_turn;
    }

leave_front-Inv :
    (n : ℕ) (l : Alock) (me : ℕ) (vs : List Call)
    → Inv n l (holding me ∷ vs)
    → Inv n (anderson_release l me) vs
unfolding anderson_release Aligned
leave_front-Inv n l me vs v =
    let (held, _, others) = Holder-at v.held [] (holding me) vs refl v.holder in
    let here : me ≡ v.first % n = v.aligned.0 in
    let inside : me < n = rw here (mod-lt v.first {m = n} v.some_thread) in
    let next : int_mod (me + 1) l.nthread ≡ suc v.first % n =
      ap (int_mod (me + 1)) v.threads
      ∙ int_mod_small (me + 1) n (omega (arith, v.few_threads))
      ∙ ap (λ t. (t + 1) % n) here
      ∙ mod-add-mod v.first n 1
      ∙ ap (λ t. t % n) (plus_one v.first) in
    let next_in : int_mod (me + 1) l.nthread < n =
      rw next (mod-lt (suc v.first) {m = n} v.some_thread) in
    let same : pending_turns n (holding me ∷ vs) ≡ pending_turns n vs =
      pending_turns-at n [] (holding me) vs ∙ omega arith in
    record {
      threads = v.threads;
      some_thread = v.some_thread;
      few_threads = v.few_threads;
      size = length-set l.has_lock (int_mod (me + 1) l.nthread) 1 ∙ v.size;
      few = omega (arith, v.few);
      first = suc v.first;
      aligned = v.aligned.1;
      held = false;
      holder = others;
      flags = λ i h.
          get_or-set l.has_lock (int_mod (me + 1) l.nthread) i 1 0
            (omega (arith, v.size, v.few_threads))
          ∙ elim (ℕ_discrete (int_mod (me + 1) l.nthread) i) [
            | yes at_i ↦ rw (
              eq→== (int_mod (me + 1) l.nthread) i at_i,
              eq→== i (suc v.first % n) (sym at_i ∙ next),
            )
            | no other ↦
                rw
                  (
                    ne→== (int_mod (me + 1) l.nthread) i other,
                    ne→== i (suc v.first % n) (λ t. other (next ∙ sym t)),
                  )
                  (v.flags i h
                    ∙ ap (λ b. if b then 0 else (if i == v.first % n then 1 else 0)) held)
          ];
      turn = v.turn;
      turn_le = v.turn_le;
      turn_zero = λ z. sym same ∙ v.turn_zero z;
      counter = v.counter ∙ ap (λ t. v.turn + rounds n t) same;
      next_turn = v.next_turn ∙ ap (λ t. t % n) (omega arith);
    }
  where
    plus_one : (t : ℕ) → t + 1 ≡ suc t
    plus_one t = omega arith

Step-Inv : (n : ℕ) (s s' : Alock × List Call) → Step s s' → Inv n s.0 s.1 → Inv n s'.0 s'.1
Step-Inv n _ _ (fetch l calls room) v = fetch-Inv n l calls v (rw (sym v.threads) room)
Step-Inv n _ _ (wrap l me before after) v = wrap-Inv n l me before after v
Step-Inv n _ _ (take l l' me before after e) v =
    let (lit, same) = take_cases l l' me e in
    let (empty, free, turn) = set_flag me before after v lit in
    let v' = subst (λ t. Inv n l (t ++ waiting me ∷ after)) empty v in
    let (_, free', turn') = set_flag me [] after v' lit in
    subst (λ t. Inv n l' (t ++ holding me ∷ after)) (sym empty)
      (subst (λ k. Inv n k (holding me ∷ after)) (sym same)
        (take_front-Inv n l me after v' free' turn'))
Step-Inv n _ _ (leave l me before after) v =
    let (held, empty, others) = Holder-at v.held before (holding me) after refl v.holder in
    subst (λ t. Inv n (anderson_release l me) (t ++ after)) (sym empty)
      (leave_front-Inv n l me after (subst (λ t. Inv n l (t ++ holding me ∷ after)) empty v))

Reach-Inv : (n : ℕ) (l₀ : Alock) (s : Alock × List Call) → Inv n l₀ [] → Reach l₀ s → Inv n s.0 s.1
Reach-Inv n l₀ _ v start = v
Reach-Inv n l₀ _ v (later s s' r t) = Step-Inv n s s' t (Reach-Inv n l₀ s v r)

abbrev pub cleared_flags : List ℕ
cleared_flags = replicate max_clients 0

-- A lock whose array was cleared before anderson_init.
abbrev pub fresh_alock : ℕ → Alock
fresh_alock n = record { has_lock = set cleared_flags 0 1; nthread = n; next_slot = 0 }

fresh-Inv : (n : ℕ) → 0 < n → n ≤ max_clients → Inv n (fresh_alock n) []
unfolding Aligned NoneHolds pending_turns rounds
fresh-Inv n pos few = record {
  threads = refl;
  some_thread = pos;
  few_threads = few;
  size = length-set cleared_flags 0 1 ∙ length-replicate {A = ℕ} max_clients 0;
  few = omega arith;
  first = 0;
  aligned = tt;
  held = false;
  holder = tt;
  flags = λ i h.
      get_or-set cleared_flags 0 i 1 0 (omega (arith, length-replicate {A = ℕ} max_clients 0))
      ∙ rw (zero_mod n pos, get_or-replicate {A = ℕ} max_clients i 0) (swap i);
  turn = 0;
  turn_le = omega arith;
  turn_zero = λ z. refl;
  counter = refl;
  next_turn = refl;
}
  where
    zero_mod : (n : ℕ) → 0 < n → 0 % n ≡ 0
    zero_mod n h = mod-eq_of_lt {n = 0} {m = n} h

    swap : (i : ℕ) → ◌≡◌ {A = ℕ} (if 0 == i then 1 else 0) (if i == 0 then 1 else 0)
    swap i = ground arith

init_cases :
    (n : ℕ) (l₀ : Alock)
    → anderson_init cleared_flags n ≡ ok l₀
    → (n ≤ max_clients) × (l₀ ≡ fresh_alock n)
unfolding anderson_init
init_cases n l₀ e = elim (Bool-cases (leb n max_clients)) [
  | inl t ↦ (leb→le n max_clients t, (let f = rw t at e in cc))
  | inr f ↦ absurd (let g = rw f at e in cc)
]

init-Inv :
    (n : ℕ) (l₀ : Alock) (s : Alock × List Call)
    → 0 < n
    → anderson_init cleared_flags n ≡ ok l₀
    → Reach l₀ s
    → Inv n s.0 s.1
init-Inv n l₀ s pos e r =
    let (few, same) = init_cases n l₀ e in
    Reach-Inv n l₀ s (subst (λ l. Inv n l []) (sym same) (fresh-Inv n pos few)) r

-- At most one thread has the lock: in any order of steps, with at most nthread threads at a time, a
-- thread with the lock is the one whose slot was handed out first, and no other has it. The lock is
-- one that anderson_init sets up in a cleared array.
pub Reach-Exclusive :
    (n : ℕ) (l₀ l : Alock) (me : ℕ) (before after : List Call)
    → 0 < n
    → anderson_init cleared_flags n ≡ ok l₀
    → Reach l₀ (l, before ++ holding me ∷ after)
    → (before ≡ []) × NoneHolds after
Reach-Exclusive n l₀ l me before after pos e r =
    let v = init-Inv n l₀ (l, before ++ holding me ∷ after) pos e r in
    let (held, empty, others) = Holder-at v.held before (holding me) after refl v.holder in
    (empty, others)

-- The first thread in turn does not wait once it is in the loop.
pub Reach-Enters :
    (n : ℕ) (l₀ l : Alock) (me : ℕ) (after : List Call)
    → 0 < n
    → anderson_init cleared_flags n ≡ ok l₀
    → Reach l₀ (l, waiting me ∷ after)
    → (l' : Alock) × (acquire_take l me ≡ some l')
unfolding acquire_take NoneHolds
Reach-Enters n l₀ l me after pos e r =
    let v = init-Inv n l₀ (l, waiting me ∷ after) pos e r in
    let here : me ≡ v.first % n =
      Aligned-at n v.first [] (waiting me) after v.aligned ∙ ap (λ t. t % n) (omega arith) in
    let inside : me < n = rw here (mod-lt v.first {m = n} v.some_thread) in
    let free : v.held ≡ false = front_free v.held v.holder in
    let lit : get_or l.has_lock me 0 ≢ 0 = λ z.
      let one =
        sym z
        ∙ v.flags me inside
        ∙ ap (λ b. if b then 0 else (if me == v.first % n then 1 else 0)) free
        ∙ ap (λ b. if b then 1 else 0) (eq→== me (v.first % n) here) in
      omega arith in
    (record l { has_lock = set l.has_lock me 0 }, rw (ne→== (get_or l.has_lock me 0) 0 lit))
  where
    front_free : (h : Bool) → Holder h (waiting me ∷ after) → h ≡ false
    front_free false a = refl
    front_free true a = absurd (let t = a.0 in cc)

-- The counter stays below 2^21, so no int overflows.
pub Reach-counter :
    (n : ℕ) (l₀ : Alock) (s : Alock × List Call)
    → 0 < n
    → anderson_init cleared_flags n ≡ ok l₀
    → Reach l₀ s
    → s.0.next_slot < 2 ^ 21
Reach-counter n l₀ s pos e r = counter_small (init-Inv n l₀ s pos e r)
