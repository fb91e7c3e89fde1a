-- ===== src/Client/Ports.antt =====
-- What the client relies on of its boxes: each server answers the requests sent to it in their order,
-- as long as fewer than 56 of its answers wait and it can answer them without a fault.
use smphash_table.Base.{
  ℕ, suc, ◌+◌, ◌<◌, ◌≡◌, ◌≢◌, ◌⊎◌, inl, inr, refl, sym, ap, subst, ◌∙◌, none, some, List, [], ◌∷◌,
  ◌++◌, length, get_or, drop, arith, ◌==◌, if◌then◌else◌, eq→==, ne→==, ok, ℕ_discrete,
}
use smphash_table.Message.{Request, lookup, insert, release, encode, Fits}
use smphash_table.Partition.Lists.{occurs}
use smphash_table.Client.{Boxes, max_pending_per_server, word_or_wait, next_word}

-- The requests that get an answer.
abbrev pub Asks : Request → Type 0
Asks (lookup key) = Unit
Asks (insert key size) = Unit
Asks (release e) = 0 < 0

-- The answers of server `s` become `q`, and those of the other servers stay.
abbrev pub Changed {ℓ} : {W : Type ℓ} → (W → ℕ → List ℕ) → W → W → ℕ → List ℕ → Type 0
Changed expects w w' s q = (expects w' s ≡ q) × ((t : ℕ) → t ≢ s → expects w' t ≡ expects w t)

-- What is known of some boxes. A server is a machine of states `V`: `view w s` is its state behind the
-- requests sent so far, `step` answers one request, and `can` says that it answers it without a
-- fault. `expects w s` are the answers still to be read, whether the server has written them or not;
-- `flushed w s` says that the server sees all requests sent to it, and `good` what holds of the boxes
-- and the servers between two calls.
pub record Service (W V : Type 0) : Type 1 where
  pub step : V → Request → ℕ × V
  pub can : V → Request → Type 0
  pub view : W → ℕ → V
  pub expects : W → ℕ → List ℕ
  pub flushed : W → ℕ → Type 0
  pub good : W → Type 0

pub record Serves {W V : Type 0} (boxes : Boxes W) (S : Service W V) : Type 0 where
  pub writes :
      (w : W) (s : ℕ) (r : Request)
      → S.good w
      → Asks r
      → Fits r
      → S.can (S.view w s) r
      → length (S.expects w s) < max_pending_per_server
      → (w' : W) × (boxes.inpb_write s (encode r) w ≡ ok w')
        × S.good w'
        × Changed S.expects w w' s (S.expects w s ++ (S.step (S.view w s) r).0 ∷ [])
        × (S.view w' s ≡ (S.step (S.view w s) r).1)
        × ((t : ℕ) → t ≢ s → S.view w' t ≡ S.view w t)
  pub reads :
      (w : W) (s : ℕ)
      → S.good w
      → ((w' : W) × (boxes.outb_read s w ≡ (none, w'))
          × S.good w'
          × ((t : ℕ) → S.expects w' t ≡ S.expects w t)
          × ((t : ℕ) → S.view w' t ≡ S.view w t))
        ⊎ ((x : ℕ) × (rest : List ℕ) × (w' : W) × (boxes.outb_read s w ≡ (some x, w'))
            × S.good w'
            × (S.expects w s ≡ x ∷ rest)
            × Changed S.expects w w' s rest
            × ((t : ℕ) → S.view w' t ≡ S.view w t))
  pub flushes :
      (w : W) (s : ℕ)
      → S.good w
      → (w' : W) × (boxes.inpb_flush s w ≡ ok w')
        × S.good w'
        × ((t : ℕ) → S.expects w' t ≡ S.expects w t)
        × ((t : ℕ) → S.view w' t ≡ S.view w t)
        × S.flushed w' s
        × ((t : ℕ) → S.flushed w t → S.flushed w' t)
  pub blocks :
      (w : W) (s x : ℕ) (rest : List ℕ)
      → S.good w
      → S.flushed w s
      → S.expects w s ≡ x ∷ rest
      → (w' : W) × (boxes.outb_blocking_read s w ≡ ok (x, w'))
        × S.good w'
        × Changed S.expects w w' s rest
        × ((t : ℕ) → S.view w' t ≡ S.view w t)
        × ((t : ℕ) → S.flushed w t → S.flushed w' t)

-- The states of the servers behind one more request.
abbrev pub next_view : {V : Type 0} → (V → Request → ℕ × V) → (ℕ → V) → ℕ → Request → ℕ → V
next_view step views s r t = if t == s then (step (views s) r).1 else views t

module _ {W V : Type 0} {boxes : Boxes W} {S : Service W V} (law : Serves boxes S) where
  -- The next answer of a server, flushed if need be.
  pub next_word-Serves :
      (s : ℕ) (w : W) (x : ℕ) (rest : List ℕ)
      → S.good w
      → S.expects w s ≡ x ∷ rest
      → (w' : W) × (next_word boxes s w ≡ ok (x, w'))
        × S.good w'
        × Changed S.expects w w' s rest
        × ((t : ℕ) → S.view w' t ≡ S.view w t)
  unfolding next_word
  next_word-Serves s w x rest good e = elim (law.reads w s good) [
    | inl (w₁, run, good₁, same, still) ↦
        let (w₂, flushed, good₂, same', still', ready, keeps) = law.flushes w₁ s good₁ in
        let (w₃, blocked, good₃, (now, others), still'', keeps') =
          law.blocks w₂ s x rest good₂ ready (same' s ∙ same s ∙ e) in
        (
          w₃,
          ap (word_or_wait boxes s) run ∙ rw flushed blocked,
          good₃,
          (now, λ t n. others t n ∙ same' t ∙ same t),
          λ t. still'' t ∙ still' t ∙ still t,
        )
    | inr (y, q, w₁, run, good₁, f, (now, others), still) ↦
        let both = sym f ∙ e in
        let head : y ≡ x = ap (λ l. get_or l 0 0) both in
        let tail : q ≡ rest = cc in
        (
          w₁,
          ap (word_or_wait boxes s) run ∙ ap (λ v. ok (v, w₁)) head,
          good₁,
          (now ∙ tail, others),
          still,
        )
  ]

-- One answer of server `q` is read.
abbrev pub popped : (ℕ → List ℕ) → ℕ → ℕ → List ℕ
popped e q t = if t == q then drop 1 (e t) else e t

-- The answers to the requests whose servers are `qs`, in the order of the requests.
unfoldable pub results : (ℕ → List ℕ) → List ℕ → List ℕ
results e [] = []
results e (q ∷ qs) = get_or (e q) 0 0 ∷ results (popped e q) qs

pub results_congr :
    (e e' : ℕ → List ℕ) (qs : List ℕ) → ((t : ℕ) → e' t ≡ e t) → results e' qs ≡ results e qs
unfolding results
results_congr e e' [] same = refl
results_congr e e' (q ∷ qs) same =
    rw (results_congr (popped e q) (popped e' q) qs (λ t. rw (same t)))
      (ap (λ l. get_or l 0 0 ∷ results (popped e q) qs) (same q))

get_or-append_first :
    (xs : List ℕ) (a n : ℕ) → length xs ≡ suc n → get_or (xs ++ a ∷ []) 0 0 ≡ get_or xs 0 0
get_or-append_first [] a n h = absurd (omega arith)
get_or-append_first (x ∷ xs) a n h = refl

drop-append_first :
    (xs : List ℕ) (a n : ℕ) → length xs ≡ suc n → drop 1 (xs ++ a ∷ []) ≡ drop 1 xs ++ a ∷ []
drop-append_first [] a n h = absurd (omega arith)
drop-append_first (x ∷ xs) a n h = refl

length-drop : (xs : List ℕ) (n : ℕ) → length xs ≡ suc n → length (drop 1 xs) ≡ n
length-drop [] n h = absurd (omega arith)
length-drop (x ∷ xs) n h = omega arith

popped_at : (e : ℕ → List ℕ) (q t : ℕ) → t ≡ q → popped e q t ≡ drop 1 (e t)
popped_at e q t same = rw (eq→== t q same)

popped_away : (e : ℕ → List ℕ) (q t : ℕ) → t ≢ q → popped e q t ≡ e t
popped_away e q t other = rw (ne→== t q other)

-- One more request, and its answer.
pub results-append :
    (e e' : ℕ → List ℕ) (qs : List ℕ) (s a : ℕ)
    → ((t : ℕ) → length (e t) ≡ occurs t qs)
    → e' s ≡ e s ++ a ∷ []
    → ((t : ℕ) → t ≢ s → e' t ≡ e t)
    → results e' (qs ++ s ∷ []) ≡ results e qs ++ a ∷ []
unfolding results occurs
results-append e e' [] s a counts now others =
    ap (λ l. get_or l 0 0 ∷ []) (now ∙ ap (λ l. l ++ a ∷ []) (empty (e s) (counts s)))
  where
    empty : (l : List ℕ) → length l ≡ 0 → l ≡ []
    empty [] h = refl
    empty (x ∷ xs) h = absurd (omega arith)
results-append e e' (q ∷ qs) s a counts now others =
    let size : (t : ℕ) → length (e t) ≡ (if t == q then 1 else 0) + occurs t qs = counts in
    let at_q : length (e q) ≡ suc (occurs q qs) = ground (arith, size q) in
    let head : get_or (e' q) 0 0 ≡ get_or (e q) 0 0 = elim (ℕ_discrete q s) [
      | yes same ↦
          ap (λ l. get_or l 0 0) (subst (λ t. e' t ≡ e t ++ a ∷ []) (sym same) now)
          ∙ get_or-append_first (e q) a (occurs q qs) at_q
      | no other ↦ ap (λ l. get_or l 0 0) (others q other)
    ] in
    let counts' : (t : ℕ) → length (popped e q t) ≡ occurs t qs = λ t. elim (ℕ_discrete t q) [
      | yes same ↦
          ap length (popped_at e q t same)
          ∙ length-drop (e t) (occurs t qs) (ground (arith, size t))
      | no other ↦ ap length (popped_away e q t other) ∙ ground (arith, size t)
    ] in
    let now' : popped e' q s ≡ popped e q s ++ a ∷ [] = elim (ℕ_discrete s q) [
      | yes same ↦
          popped_at e' q s same
          ∙ ap (drop 1) now
          ∙ drop-append_first (e s) a (occurs s qs) (ground (arith, size s))
          ∙ ap (λ l. l ++ a ∷ []) (sym (popped_at e q s same))
      | no other ↦
          popped_away e' q s other ∙ now ∙ ap (λ l. l ++ a ∷ []) (sym (popped_away e q s other))
    ] in
    let others' : (t : ℕ) → t ≢ s → popped e' q t ≡ popped e q t =
      λ t n. ap (λ l. if t == q then drop 1 l else l) (others t n) in
    let rest = results-append (popped e q) (popped e' q) qs s a counts' now' others' in
    rw (head, rest)

pub length-results : (e : ℕ → List ℕ) (qs : List ℕ) → length (results e qs) ≡ length qs
unfolding results
length-results e [] = refl
length-results e (q ∷ qs) = ap suc (length-results (popped e q) qs)

pub results-cons :
    (e : ℕ → List ℕ) (q : ℕ) (qs : List ℕ) {x : ℕ} {rest : List ℕ}
    → e q ≡ x ∷ rest
    → results e (q ∷ qs) ≡ x ∷ results (popped e q) qs
unfolding results
results-cons e q qs h = ap (λ l. get_or l 0 0 ∷ results (popped e q) qs) h

-- Once the first answer of a server is read, the others are as before.
pub results-popped :
    (e e' : ℕ → List ℕ) (q : ℕ) (qs : List ℕ) {x : ℕ} {rest : List ℕ}
    → e q ≡ x ∷ rest
    → e' q ≡ rest
    → ((t : ℕ) → t ≢ q → e' t ≡ e t)
    → results e (q ∷ qs) ≡ x ∷ results e' qs
results-popped e e' q qs {x} h now others =
    results-cons e q qs h
    ∙ ap (λ l. x ∷ l)
        (results_congr e' (popped e q) qs (λ t. elim (ℕ_discrete t q) [
          | yes same ↦
              popped_at e q t same
              ∙ ap (λ u. drop 1 (e u)) same
              ∙ ap (drop 1) h
              ∙ sym now
              ∙ ap e' (sym same)
          | no other ↦ popped_away e q t other ∙ sym (others t other)
        ]))

-- The states of the servers when a request is sent.
pub sent_views :
    {V : Type 0} (step : V → Request → ℕ × V) (views views₁ views₂ : ℕ → V) (s : ℕ) (r : Request)
    → ((t : ℕ) → views₁ t ≡ views t)
    → views₂ s ≡ (step (views₁ s) r).1
    → ((t : ℕ) → t ≢ s → views₂ t ≡ views₁ t)
    → (t : ℕ) → views₂ t ≡ next_view step views s r t
sent_views step views views₁ views₂ s r still stepped away t = elim (ℕ_discrete t s) [
  | yes here ↦ rw (eq→== t s here) (ap views₂ here ∙ stepped ∙ ap (λ v. (step v r).1) (still s))
  | no other ↦ rw (ne→== t s other) (away t other ∙ still t)
]
