-- ===== src/Partition/Link.antt =====
-- The end of `hash_insert`: a fresh element enters its chain and the order of use.
use smphash_table.Base.{
  ℕ, ◌+◌, ◌<◌, ◌≡◌, ◌≢◌, refl, sym, ap, ◌∙◌, none, some, List, [], ◌∷◌, ◌++◌, arith, ◌==◌,
  if◌then◌else◌, length-set, get_or, set, get_or-set, eq→==, ne→==, Run, ℕ_discrete,
}
use smphash_table.Memory.{Ptr, Elem, Heap, update}
use smphash_table.Partition.{
  Partition, evict_lru, hash_get_bucket, chain_of, rounded_size, Allocator, link,
}
use smphash_table.Partition.Lists.{
  occurs, occurs-cons, occurs-append, occurs-one, total, total-cons, total_congr,
}
use smphash_table.Partition.Linked.{
  Linked, Linked-frame, Absent, key_in, size_in, key_at, size_at, bucket_in,
}

count_new :
    (q e k b j n : ℕ)
    → b ≡ j
    → (q ≡ e → k ≡ b)
    → (if k == b then n else 0) + (if q == e then 1 else 0)
      ≡ (if k == j then (if q == e then 1 else 0) + n else 0)
count_new q e k b j n at own = elim (ℕ_discrete q e) [
  | yes same ↦ rw (eq→== q e same) (ground (arith, own same))
  | no other ↦ rw (ne→== q e other) (ground arith)
]

count_old :
    (q e k j n : ℕ)
    → (q ≡ e → k ≢ j)
    → (if k == j then n else 0) ≡ (if k == j then (if q == e then 1 else 0) + n else 0)
count_old q e k j n off = elim (ℕ_discrete q e) [
  | yes same ↦ rw (ne→== k j (off same))
  | no other ↦ rw (ne→== q e other) (ground arith)
]

module _ (alloc : Allocator) (release : Ptr → Heap → Run Heap) {h : Heap} {p : Partition}
    {es : List Ptr} (e : Ptr) (key size : ℕ) (v : Linked h p (rounded_size size) es)
    (fresh : h e ≡ none) (absent : Absent h key es) where
  abbrev header : Elem
  header = record { key = key; ref_count = alloc.stale e; size = rounded_size size }

  abbrev h' : Heap
  h' = update h e (some header)

  abbrev bucket : ℕ
  bucket = hash_get_bucket p key

  here : h' e ≡ some header
  here = rw (eq→== e e refl)

  elsewhere : (q : Ptr) → q ≢ e → h' q ≡ h q
  elsewhere q n = rw (ne→== e q (λ s. n (sym s)))

  not_member : (q : Ptr) → 0 < occurs q es → q ≢ e
  not_member q i s = let (x, l) = v.live q i in let at : h q ≡ none = ap h s ∙ fresh in cc

  out : occurs e es ≡ 0
  out = elim (ℕ_discrete (occurs e es) 0) [
    | yes z ↦ z
    | no n ↦ absurd (not_member e (omega arith) refl)
  ]

  kept : Linked h' p (rounded_size size) es
  kept = Linked-frame v (λ q i. elsewhere q (not_member q i))

  placed :
      (q : Ptr) (j : ℕ)
      → j < p.nhash
      → occurs q (get_or (set p.table bucket (chain_of p key ++ e ∷ [])) j [])
        ≡ (if hash_get_bucket p (key_at h' q) == j then occurs q (e ∷ es) else 0)
  placed q j lt =
      rw
        (
          get_or-set p.table bucket j (chain_of p key ++ e ∷ []) []
              (rw v.buckets (bucket_in v key)),
          occurs-cons q e es,
        )
        (elim (ℕ_discrete bucket j) [
          | yes at ↦
              rw
                (
                  eq→== bucket j at,
                  occurs-append q (chain_of p key) (e ∷ []),
                  occurs-one q e,
                  kept.placed q bucket (bucket_in v key),
                )
                (count_new q e (hash_get_bucket p (key_at h' q)) bucket j (occurs q es) at (λ s.
                  ap (λ t. hash_get_bucket p (key_at h' t)) s
                  ∙ ap (λ o. hash_get_bucket p (key_in o)) here))
          | no off ↦
              rw (ne→== bucket j off, kept.placed q j lt)
                (count_old q e (hash_get_bucket p (key_at h' q)) j (occurs q es) (λ s k. off (
                  sym (
                    ap (λ t. hash_get_bucket p (key_at h' t)) s
                    ∙ ap (λ o. hash_get_bucket p (key_in o)) here)
                  ∙ k)))
        ])

  member_cases : (q : Ptr) → q ≢ e → 0 < occurs q (e ∷ es) → 0 < occurs q es
  member_cases q n i = ground (arith, occurs-cons q e es)

  unique :
      (q r : Ptr)
      → 0 < occurs q (e ∷ es)
      → 0 < occurs r (e ∷ es)
      → key_at h' q ≡ key_at h' r
      → q ≡ r
  unique q r i j same = elim (ℕ_discrete q e) [
    | yes a ↦ elim (ℕ_discrete r e) [
      | yes b ↦ a ∙ sym b
      | no b ↦
          let k = member_cases r b j in
          absurd (
            absent r k
              (sym (ap key_in (elsewhere r b)) ∙ sym same ∙ ap (key_at h') a ∙ ap key_in here))
    ]
    | no a ↦ elim (ℕ_discrete r e) [
      | yes b ↦
          let k = member_cases q a i in
          absurd (
            absent q k (sym (ap key_in (elsewhere q a)) ∙ same ∙ ap (key_at h') b ∙ ap key_in here))
      | no b ↦ kept.unique q r (member_cases q a i) (member_cases r b j) same
    ]
  ]

  weight : rounded_size size + total (size_at h) es ≡ 0 + total (size_at h') (e ∷ es)
  weight =
      let own : size_at h' e ≡ rounded_size size = ap size_in here in
      let same =
        total_congr (size_at h') (size_at h) es
          (λ q i. ap size_in (elsewhere q (not_member q i))) in
      omega (arith, total-cons (size_at h') e es, own, same)

  pub link-Linked :
      let (g, p') = link alloc release e key size h p in
      Linked g p' 0 (e ∷ es) × (g e ≡ some header)
  unfolding link
  link-Linked = (
    record {
      buckets = length-set p.table bucket (chain_of p key ++ e ∷ []) ∙ v.buckets;
      nonempty = v.nonempty;
      once = λ q. elim (ℕ_discrete q e) [
        | yes s ↦ ground (arith, occurs-cons q e es, ap (λ t. occurs t es) s, out)
        | no n ↦ ground (arith, occurs-cons q e es, v.once q)
      ];
      live = λ q i. elim (ℕ_discrete q e) [
        | yes s ↦ (header, ap h' s ∙ here)
        | no n ↦ kept.live q (member_cases q n i)
      ];
      placed = placed;
      unique = unique;
      lru_order = λ a. rw (eq→== p.evictalgo evict_lru a, v.lru_order a);
      accounted = v.accounted ∙ weight;
      sizes = v.sizes;
    },
    here,
  )

  pub link-elsewhere : (q : Ptr) → 0 < occurs q es → (link alloc release e key size h p).0 q ≡ h q
  unfolding link
  link-elsewhere q i = elsewhere q (not_member q i)
