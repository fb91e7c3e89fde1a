-- ===== src/Locking/Shares.antt =====
-- The life of an element with the locking design, whose counts change by atomic operations.
use smphash_table.Base.{
  ℕ, ◌+◌, ◌%◌, ◌^◌, ◌<◌, ◌≡◌, ◌≢◌, refl, sym, ap, subst, ◌∙◌, Option, none, some, Bool, true, false,
  arith, ◌==◌, if◌then◌else◌, eq→==, ne→==, ok, ℕ_discrete, inl, inr, Bool-cases,
}
use smphash_table.Base.{ok-injective}
use smphash_table.Memory.{Ptr, Elem, Heap, put_count, dec64, atomic_release, atomic_ready}
use smphash_table.Memory.Counts.{
  atomic_release-put, atomic_ready-put, put_count-elsewhere, put_count-here,
}
use smphash_table.Partition.Unlinked.{Unlinks}

-- The top bit of the count word.
abbrev pub bit_of : Bool → ℕ
bit_of writing = if writing then 2 ^ 63 else 0

-- An allocated element. Its entries in the partition (`linked`, one or none) and the other references,
-- of clients and of other partitions, are counted. The client that writes a new value has no
-- reference: the bit keeps the element while it writes.
pub record Shares (x : Elem) (linked refs : ℕ) (writing : Bool) : Type 0 where
  pub count : x.ref_count ≡ linked + refs + bit_of writing
  pub held : 0 < x.ref_count
  pub few : linked + refs < 2 ^ 63

-- Memory that is not allocated has no entry and no reference, and nobody writes it.
abbrev pub InUse : Option Elem → ℕ → ℕ → Bool → Type 0
InUse none linked refs writing = (linked ≡ 0) × (refs ≡ 0) × (writing ≡ false)
InUse (some x) linked refs writing = Shares x linked refs writing

pub record SharesAll (h : Heap) (linked refs : Ptr → ℕ) (writing : Ptr → Bool) : Type 0 where
  pub owned : (q : Ptr) → InUse (h q) (linked q) (refs q) (writing q)

pub shared-live :
    {h : Heap} {linked refs : Ptr → ℕ} {writing : Ptr → Bool}
    → SharesAll h linked refs writing
    → (e : Ptr) → 0 < linked e + refs e + bit_of (writing e)
    → (x : Elem) × (h e ≡ some x) × Shares x (linked e) (refs e) (writing e)
shared-live {h} {linked} {refs} {writing} o e held = go (h e) refl
  where
    go :
        (v : Option Elem)
        → h e ≡ v
        → (x : Elem) × (h e ≡ some x) × Shares x (linked e) (refs e) (writing e)
    go none l =
        let dead : InUse none (linked e) (refs e) (writing e) =
          subst (λ v. InUse v (linked e) (refs e) (writing e)) l (o.owned e) in
        let (no_entry, no_ref, idle) = dead in
        let bit : bit_of (writing e) ≡ 0 = ap bit_of idle in
        absurd (omega (arith, bit, no_entry, no_ref))
    go (some x) l = (x, l, subst (λ v. InUse v (linked e) (refs e) (writing e)) l (o.owned e))

-- A new count that is what is left: zero frees the element.
recounted :
    (x : Elem) (n r c : ℕ) (w : Bool)
    → c ≡ n + r + bit_of w
    → n + r < 2 ^ 63
    → InUse (if c == 0 then none else some (record x { ref_count = c })) n r w
recounted x n r c w count few = elim (ℕ_discrete c 0) [
  | yes z ↦ rw (eq→== c 0 z) (
    omega arith,
    omega arith,
    elim (Bool-cases w) [ inl t ↦ absurd (omega (arith, ap bit_of t)) | inr f ↦ f ],
  )
  | no nz ↦ rw (ne→== c 0 nz) (record { count = count; held = omega arith; few = few })
]

module _ {h : Heap} {n n' refs refs' : Ptr → ℕ} {writing writing' : Ptr → Bool}
    (o : SharesAll h n refs writing) (e : Ptr) (x : Elem) (l : h e ≡ some x) (c : ℕ)
    (count : c ≡ n' e + refs' e + bit_of (writing' e)) (few : n' e + refs' e < 2 ^ 63)
    (others : (q : Ptr)
      → q ≢ e
      → (n' q ≡ n q) × (refs' q ≡ refs q) × (writing' q ≡ writing q)) where
  -- The store of a count that is what is left.
  pub put_count-SharesAll : SharesAll (put_count h e x c) n' refs' writing'
  put_count-SharesAll = record {
    owned = λ q. elim (ℕ_discrete q e) [
      | yes same ↦
          let here : put_count h e x c q
              ≡ (if c == 0 then none else some (record x { ref_count = c })) =
            ap (put_count h e x c) same ∙ put_count-here e h x l c in
          rw (here, same) (recounted x (n' e) (refs' e) c (writing' e) count few)
      | no other ↦
          let (a, b, d) = others q other in
          rw (put_count-elsewhere e h x l c q other, a, b, d) (o.owned q)
    ];
  }

-- atomic_release_value_ of an element takes an entry or a reference away.
pub release-SharesAll :
    {h h' : Heap} {n n' refs refs' : Ptr → ℕ} {writing : Ptr → Bool} (e : Ptr)
    → SharesAll h n refs writing
    → atomic_release e h ≡ ok h'
    → n' e + refs' e + 1 ≡ n e + refs e
    → ((q : Ptr) → q ≢ e → (n' q ≡ n q) × (refs' q ≡ refs q))
    → SharesAll h' n' refs' writing
release-SharesAll {h} {h'} {n} {n'} {refs} {refs'} {writing} e o run less others =
    let (x, l, k) = shared-live o e (omega arith) in
    let c = dec64 x.ref_count in
    let now : put_count h e x c ≡ h' = ok-injective (sym (atomic_release-put e h x l) ∙ run) in
    subst (λ g. SharesAll g n' refs' writing) now
      (put_count-SharesAll o e x l c
        (elim (Bool-cases (writing e)) [
          | inl t ↦ omega (arith, k.count, k.few, ap bit_of t)
          | inr f ↦ omega (arith, k.count, k.few, ap bit_of f)
        ])
        (omega (arith, k.few)) (λ q m. let (a, b) = others q m in (a, b, refl)))

pub SharesAll-Unlinks :
    (refs : Ptr → ℕ) (writing : Ptr → Bool)
    → Unlinks atomic_release (λ h n. SharesAll h n refs writing)
SharesAll-Unlinks refs writing = record {
  same = λ h n n' o same. record { owned = λ q. rw (same q) (o.owned q) };
  unlink = λ h h' n n' e o run one zero others.
      release-SharesAll e o run (omega arith) (λ q m. (others q m, refl));
}

abbrev pub finished : (Ptr → Bool) → Ptr → Ptr → Bool
finished writing e q = if e == q then false else writing q

-- atomic_mark_ready clears the bit, and frees an element that nobody holds any longer.
pub ready-SharesAll :
    {h h' : Heap} {n refs : Ptr → ℕ} {writing : Ptr → Bool} (e : Ptr)
    → SharesAll h n refs writing
    → atomic_ready e h ≡ ok h'
    → writing e ≡ true
    → SharesAll h' n refs (finished writing e)
ready-SharesAll {h} {h'} {n} {refs} {writing} e o run busy =
    let (x, l, k) = shared-live o e (omega (arith, ap bit_of busy)) in
    let c = x.ref_count % 2 ^ 63 in
    let now : put_count h e x c ≡ h' = ok-injective (sym (atomic_ready-put e h x l) ∙ run) in
    let clear : bit_of (finished writing e e) ≡ 0 = rw (eq→== e e refl) in
    subst (λ g. SharesAll g n refs (finished writing e)) now
      (put_count-SharesAll o e x l c (omega (arith, k.count, k.few, ap bit_of busy, clear)) k.few
        (λ q m. (refl, refl, rw (ne→== e q (λ t. m (sym t))))))
