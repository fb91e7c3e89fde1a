-- ===== src/Memory/Life.antt =====
-- The life of an element with the message-passing design: who holds references to it, and when its
-- memory goes back.
use smphash_table.Base.{
  ok-injective, ℕ, ◌+◌, ◌%◌, ◌^◌, ◌≤◌, ◌<◌, ◌≡◌, ◌≢◌, refl, sym, ap, subst, ◌∙◌, Option, none, some,
  Bool, true, false, arith, ◌==◌, if◌then◌else◌, eq→==, ne→==, ok, ℕ_discrete, inl, inr, Bool-cases,
}
use smphash_table.Memory.{Ptr, Elem, Heap, put_count, dec64, mp_release}
use smphash_table.Memory.Counts.{mp_release-put, put_count-elsewhere, put_count-here}

-- An allocated element: its table entries (`linked`, one or none) and the clients' references are
-- counted; it is being written by the client that inserted it, its only holder, until that client
-- marks it ready; what the table holds is ready exactly if it is written.
pub record Counted (x : Elem) (linked refs : ℕ) (writing : Bool) : Type 0 where
  pub count : x.ref_count % 2 ^ 63 ≡ linked + refs
  pub held : 0 < linked + refs
  pub word : x.ref_count < 2 ^ 64
  pub writer : writing ≡ true → refs ≡ 1
  pub ready : 0 < linked → writing ≡ false → x.ref_count < 2 ^ 63
  pub unready : 0 < linked → writing ≡ true → 2 ^ 63 ≤ x.ref_count

-- Memory that is not allocated has no entry and no reference.
abbrev pub Owned : Option Elem → ℕ → ℕ → Bool → Type 0
Owned none linked refs writing = (linked ≡ 0) × (refs ≡ 0) × (writing ≡ false)
Owned (some x) linked refs writing = Counted x linked refs writing

-- One reference or entry less.
released-Owned :
    (x : Elem) (n r n' r' c : ℕ) (w w' : Bool)
    → Counted x n r w
    → n' + r' + 1 ≡ n + r
    → (w' ≡ true → r' ≡ 1)
    → (0 < n' → w' ≡ false)
    → c ≡ dec64 (x.ref_count % 2 ^ 63)
    → Owned (if c == 0 then none else some (record x { ref_count = c })) n' r' w'
released-Owned x n r n' r' c w w' k less writer ready e =
    let count : c ≡ n' + r' = omega (arith, k.count, k.word, e) in
    let small : c < 2 ^ 63 = omega (arith, k.count, e) in
    elim (ℕ_discrete c 0) [
      | yes z ↦ rw (eq→== c 0 z) (
        omega arith,
        omega arith,
        elim (Bool-cases w') [ inl t ↦ absurd (omega (arith, writer t)) | inr f ↦ f ],
      )
      | no nz ↦ rw (ne→== c 0 nz) (record {
        count = omega arith;
        held = omega arith;
        word = omega arith;
        writer = writer;
        ready = λ l f. small;
        unready = λ l t. absurd (let f = ready l in cc);
      })
    ]

-- All of the memory: `linked` counts entries of the table, `refs` the references of clients.
pub record Owns (h : Heap) (linked refs : Ptr → ℕ) (writing : Ptr → Bool) : Type 0 where
  pub owned : (q : Ptr) → Owned (h q) (linked q) (refs q) (writing q)

-- What is held is allocated, and mp_release_value_ of it returns.
pub held-live :
    {h : Heap} {linked refs : Ptr → ℕ} {writing : Ptr → Bool}
    → Owns h linked refs writing
    → (e : Ptr) → 0 < linked e + refs e
    → (x : Elem) × (h e ≡ some x) × Counted x (linked e) (refs e) (writing e)
held-live {h} {linked} {refs} {writing} o e held = go (h e) refl
  where
    go :
        (v : Option Elem)
        → h e ≡ v
        → (x : Elem) × (h e ≡ some x) × Counted x (linked e) (refs e) (writing e)
    go none l =
        let dead : Owned none (linked e) (refs e) (writing e) =
          subst (λ v. Owned v (linked e) (refs e) (writing e)) l (o.owned e) in
        let (no_entry, no_ref, rest) = dead in absurd (omega arith)
    go (some x) l = (x, l, subst (λ v. Owned v (linked e) (refs e) (writing e)) l (o.owned e))

-- mp_release_value_ takes one entry or one reference of one element away, frees it exactly if that
-- was the last, and touches no other.
pub mp_release-Owns :
    {h h' : Heap} {linked linked' refs refs' : Ptr → ℕ} {writing writing' : Ptr → Bool} (e : Ptr)
    → Owns h linked refs writing
    → mp_release e h ≡ ok h'
    → linked' e + refs' e + 1 ≡ linked e + refs e
    → (writing' e ≡ true → refs' e ≡ 1)
    → (0 < linked' e → writing' e ≡ false)
    → ((q : Ptr) → q ≢ e → (linked' q ≡ linked q) × (refs' q ≡ refs q) × (writing' q ≡ writing q))
    → Owns h' linked' refs' writing'
mp_release-Owns {h} {h'} {linked} {linked'} {refs} {refs'} {writing} {writing'} e o run less writer
      ready others =
    let (x, l, k) = held-live o e (omega arith) in
    let c = dec64 (x.ref_count % 2 ^ 63) in
    let now : h' ≡ put_count h e x c = ok-injective (sym run ∙ mp_release-put e h x l) in
    record {
      owned = λ q. elim (ℕ_discrete q e) [
        | yes same ↦
            let here : h' q ≡ (if c == 0 then none else some (record x { ref_count = c })) =
              ap (λ g. g q) now ∙ ap (put_count h e x c) same ∙ put_count-here e h x l c in
            rw (here, same)
              (released-Owned x (linked e) (refs e) (linked' e) (refs' e) c (writing e) (writing' e)
                k less writer ready refl)
        | no other ↦
            let (a, b, d) = others q other in
            rw (ap (λ g. g q) now ∙ put_count-elsewhere e h x l c q other, a, b, d) (o.owned q)
      ];
    }
