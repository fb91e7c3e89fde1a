-- ===== src/Client/Owed.antt =====
-- What the servers owe a client, and how the client reads answers to make way for a request.
use smphash_table.Base.{
  ℕ, zero, suc, ◌+◌, ◌-◌, ◌%◌, ◌^◌, ◌≤◌, ◌<◌, ◌≡◌, ◌≢◌, ◌⊎◌, refl, sym, ap, subst, ◌∙◌, Option,
  none, some, Bool, true, false, List, [], ◌∷◌, ◌++◌, append_assoc, length, length-append,
  length-set, get_or, arith, le→leb, lt→leb, ok, Returns, dec_lt, ℕ_discrete,
}
use smphash_table.Message.{Request}
use smphash_table.Partition.Lists.{occurs, occurs-append, occurs-one, occurs-cons, occurs-nil}
use smphash_table.Client.{
  Boxes, Pending, max_pending_size, max_pending_per_server, too_many, received,
  read_next_pending_value, make_way,
}
use smphash_table.Client.Ports.{
  Service, Serves, next_view, next_word-Serves, results, results-popped, length-results,
}
use smphash_table.Client.Holds.{Holds, too_many-count, next_server, received-Holds}

module _ {W V : Type 0} (S : Service W V) (nservers : ℕ) where
  -- `vs` is read, and each server owes the answers of its requests in `qs`.
  pub record Owed (pd : Pending) (w : W) (vs qs : List ℕ) : Type 0 where
    pub good : S.good w
    pub holds : Holds pd vs qs
    pub owes : (t : ℕ) → length (S.expects w t) ≡ occurs t qs
    pub counters : length pd.pending_count ≡ nservers

  pub record Outstanding (pd : Pending) (w : W) (answers : List ℕ) : Type 0 where
    pub vs : List ℕ
    pub qs : List ℕ
    pub owed : Owed pd w vs qs
    pub all : vs ++ results (S.expects w) qs ≡ answers

  abbrev pub SameViews : W → W → Type 0
  SameViews w w' = (t : ℕ) → S.view w' t ≡ S.view w t

  -- The loop ends with room for one more answer of the server; what is outstanding stays.
  abbrev pub Way : W → ℕ → List ℕ → ℕ → Pending × W → Type 0
  Way w s answers total (pd', w') =
      (o : Outstanding pd' w' answers) × (occurs s o.qs < max_pending_per_server)
      × (length o.vs + length o.qs ≡ total)
      × SameViews w w'

  -- What a request to server `s` returns and leaves: with 65536 answers outstanding it is refused and
  -- nothing happens; else the answer of the server stands behind the others.
  abbrev pub Accepted : W → ℕ → Request → List ℕ → Bool × Pending × W → Type 0
  Accepted w s r answers (done, pd', w') =
      ((done ≡ false) × (length answers ≡ max_pending_size) × (w' ≡ w) × Outstanding pd' w' answers)
      ⊎ ((done ≡ true)
          × (length answers < max_pending_size)
          × Outstanding pd' w' (answers ++ (S.step (S.view w s) r).0 ∷ [])
          × ((t : ℕ) → S.view w' t ≡ next_view S.step (S.view w) s r t))

  -- What smp_get_next hands out and leaves.
  abbrev pub Next : W → List ℕ → Option ℕ × Pending × W → Type 0
  Next w [] (r, pd', w') = (r ≡ none) × Outstanding pd' w' [] × SameViews w w'
  Next w (x ∷ answers) (r, pd', w') = (r ≡ some x) × Outstanding pd' w' answers × SameViews w w'

pub length-Outstanding :
    {W V : Type 0} {S : Service W V} {nservers : ℕ} {pd : Pending} {w : W} {answers : List ℕ}
    (o : Outstanding S nservers pd w answers)
    → length answers ≡ length o.vs + length o.qs
length-Outstanding {S = S} {w = w} o =
    sym (ap length o.all)
    ∙ length-append o.vs (results (S.expects w) o.qs)
    ∙ ap (λ n. length o.vs + n) (length-results (S.expects w) o.qs)

pub owes_rest :
    (e e' : ℕ → List ℕ) (p : ℕ) (qs : List ℕ) {x : ℕ} {rest : List ℕ}
    → ((t : ℕ) → length (e t) ≡ occurs t (p ∷ qs))
    → e p ≡ x ∷ rest
    → e' p ≡ rest
    → ((t : ℕ) → t ≢ p → e' t ≡ e t)
    → (t : ℕ) → length (e' t) ≡ occurs t qs
owes_rest e e' p qs {x} {rest} owes h now others t = elim (ℕ_discrete t p) [
  | yes same ↦
      let size : length (e t) ≡ suc (length rest) = ap (λ u. length (e u)) same ∙ ap length h in
      let left : length (e' t) ≡ length rest = ap (λ u. length (e' u)) same ∙ ap length now in
      ground (arith, owes t, occurs-cons t p qs)
  | no other ↦ ap length (others t other) ∙ ground (arith, owes t, occurs-cons t p qs)
]

pub owes_more :
    (e e' : ℕ → List ℕ) (s a : ℕ) (qs : List ℕ)
    → ((t : ℕ) → length (e t) ≡ occurs t qs)
    → e' s ≡ e s ++ a ∷ []
    → ((t : ℕ) → t ≢ s → e' t ≡ e t)
    → (t : ℕ) → length (e' t) ≡ occurs t (qs ++ s ∷ [])
owes_more e e' s a qs owes now others t = elim (ℕ_discrete t s) [
  | yes same ↦
      let size : length (e' t) ≡ length (e t) + 1 =
        ap length (subst (λ u. e' u ≡ e u ++ a ∷ []) (sym same) now)
        ∙ length-append (e t) (a ∷ []) in
      ground (arith, owes t, occurs-append t qs (s ∷ []), occurs-one t s)
  | no other ↦
      ap length (others t other)
      ∙ ground (arith, owes t, occurs-append t qs (s ∷ []), occurs-one t s)
]

module _ {W : Type 0} (boxes : Boxes W) where
  make_way_done :
      (rounds s : ℕ) (pd : Pending) (w : W)
      → too_many (get_or pd.pending_count s 0) ≡ false
      → make_way boxes rounds s pd w ≡ ok (pd, w)
  unfolding make_way
  make_way_done zero s pd w e = rw e
  make_way_done (suc rounds) s pd w e = rw (e, make_way)

  make_way_more :
      (rounds s : ℕ) (pd pd' : Pending) (w w' : W)
      → too_many (get_or pd.pending_count s 0) ≡ true
      → read_next_pending_value boxes pd w ≡ ok (pd', w')
      → make_way boxes (suc rounds) s pd w ≡ make_way boxes rounds s pd' w'
  unfolding make_way
  make_way_more rounds s pd pd' w w' e run = rw (e, make_way) (rw run)

module _ {W V : Type 0} {boxes : Boxes W} {S : Service W V} (law : Serves boxes S)
    {nservers : ℕ} where
  -- The answer of the oldest pending request is read.
  pub fetch :
      {pd : Pending} {w : W} (vs : List ℕ) (p : ℕ) (qs : List ℕ)
      → Owed S nservers pd w vs (p ∷ qs)
      → (pd' : Pending) × (w' : W) × (val : ℕ) × (read_next_pending_value boxes pd w ≡ ok (pd', w'))
        × (results (S.expects w) (p ∷ qs) ≡ val ∷ results (S.expects w') qs)
        × Owed S nservers pd' w' (vs ++ val ∷ []) qs
        × SameViews S nservers w w'
  unfolding read_next_pending_value
  fetch {pd} {w} vs p qs o =
      let (x, rest, e) = first (S.expects w p) (omega (arith, o.owes p, at_p)) in
      let (w', run, good, (now, others), still) = next_word-Serves law p w x rest o.good e in
      let v = x in
      let c = (get_or pd.pending_count p 0 + 2 ^ 32 - 1) % 2 ^ 32 in
      (
        received pd p v,
        w',
        v,
        rw (next_server o.holds) (rw run),
        results-popped (S.expects w) (S.expects w') p qs e now others,
        record {
          good = good;
          holds = received-Holds o.holds v;
          owes = owes_rest (S.expects w) (S.expects w') p qs o.owes e now others;
          counters = length-set pd.pending_count p c ∙ o.counters;
        },
        still,
      )
    where
      at_p : occurs p (p ∷ qs) ≡ suc (occurs p qs)
      at_p = ground (arith, occurs-cons p p qs)

      first : (l : List ℕ) → 0 < length l → (x : ℕ) × (rest : List ℕ) × (l ≡ x ∷ rest)
      first [] h = absurd (omega arith)
      first (x ∷ rest) h = (x, rest, refl)

  pub make_way_lem :
      (rounds s : ℕ) {pd : Pending} {w : W} (answers vs qs : List ℕ) (total : ℕ)
      → Owed S nservers pd w vs qs
      → vs ++ results (S.expects w) qs ≡ answers
      → length vs + length qs ≡ total
      → s < nservers
      → length qs ≤ rounds
      → Returns (make_way boxes rounds s pd w) (Way S nservers w s answers total)
  make_way_lem rounds s {pd} {w} answers vs [] total o all sum inside enough = (
    (pd, w),
    make_way_done boxes rounds s pd w (
        too_many-count o.holds s (omega (arith, o.counters))
        ∙ lt→leb max_pending_per_server (occurs s []) (omega (arith, occurs-nil s))),
    (record { vs = vs; qs = []; owed = o; all = all }, omega (arith, occurs-nil s), sum, λ t. refl),
  )
  make_way_lem zero s answers vs (p ∷ qs) total o all sum inside enough = absurd (omega arith)
  make_way_lem (suc rounds) s {pd} {w} answers vs (p ∷ qs) total o all sum inside enough =
      let test = too_many-count o.holds s (omega (arith, o.counters)) in
      elim (dec_lt (occurs s (p ∷ qs)) max_pending_per_server) [
        | yes few ↦ (
          (pd, w),
          make_way_done boxes (suc rounds) s pd w
              (test ∙ lt→leb max_pending_per_server (occurs s (p ∷ qs)) few),
          (record { vs = vs; qs = p ∷ qs; owed = o; all = all }, few, sum, λ t. refl),
        )
        | no many ↦
            let (pd', w', val, run, same, o', still) = fetch vs p qs o in
            let (r, run', (o'', few', sum', still')) =
              make_way_lem rounds s answers (vs ++ val ∷ []) qs total o'
                (append_assoc vs (val ∷ []) (results (S.expects w') qs)
                  ∙ ap (λ l. vs ++ l) (sym same)
                  ∙ all)
                (omega (arith, length-append vs (val ∷ []))) inside (omega arith) in
            (
              r,
              make_way_more boxes rounds s pd pd' w w'
                    (test ∙ le→leb max_pending_per_server (occurs s (p ∷ qs)) (omega arith)) run
                  ∙ run',
              (o'', few', sum', λ t. still' t ∙ still t),
            )
      ]
