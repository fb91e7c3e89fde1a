-- ===== src/HashServer/Results/Answers.antt =====
-- The bytes that a lookup sends are those that an insert stored.
use smphash_table.Base.{
  ℕ, zero, suc, ◌+◌, ◌^◌, ◌≤◌, ◌<◌, ◌≡◌, ◌≢◌, ◌⊎◌, inl, inr, refl, sym, ap, ◌∙◌, some, List, [],
  ◌∷◌, ◌++◌, append-nil, append_split, length, arith, Run, ok, Returns, eq→==, ne→==,
}
use smphash_table.Protocol.{HashQuery, answer, le_bytes, le_value}
use smphash_table.Protocol.Bytes.{length-le_bytes, le_value-le_bytes}
use smphash_table.HashServer.{Iovec}
use smphash_table.HashServer.Iovs.{spread, range}
use smphash_table.HashServer.Sockets.{ClientData, socket_at}
use smphash_table.HashServer.Gather.{looked, inserted, store_at}
use smphash_table.HashServer.Results.{
  Handling, load_bytes, value_size, answer_iov, push_iov, stored_size, store_value, handle,
}

length-load_bytes : (mem : ℕ → ℕ) (p n : ℕ) → length (load_bytes mem p n) ≡ n
unfolding load_bytes
length-load_bytes mem p zero = refl
length-load_bytes mem p (suc n) = ap suc (length-load_bytes mem (suc p) n)

load_bytes-append :
    (mem : ℕ → ℕ) (p n k : ℕ)
    → load_bytes mem p (n + k) ≡ load_bytes mem p n ++ load_bytes mem (p + n) k
unfolding load_bytes
load_bytes-append mem p zero k =
    ap (λ t. load_bytes mem p t) (omega arith) ∙ ap (λ t. load_bytes mem t k) (omega arith)
load_bytes-append mem p (suc n) k =
    let sum : suc n + k ≡ suc (n + k) = omega arith in
    ap (load_bytes mem p) sum
    ∙ ap (λ t. mem p ∷ t)
        (load_bytes-append mem (suc p) n k
          ∙ ap (λ t. load_bytes mem (suc p) n ++ load_bytes mem t k) (omega arith))

-- Memory in front of what is stored stays.
store_at-before :
    (mem : ℕ → ℕ) (p : ℕ) (bytes : List ℕ) (q : ℕ) → q < p → store_at mem p bytes q ≡ mem q
store_at-before mem p [] q h = refl
store_at-before mem p (b ∷ bs) q h =
    rw (ne→== q p (omega arith)) (store_at-before mem (suc p) bs q (omega arith))

-- Memory outside of what is stored stays.
store_at-outside :
    (mem : ℕ → ℕ) (p : ℕ) (bytes : List ℕ) (q : ℕ)
    → (q < p) ⊎ (p + length bytes ≤ q)
    → store_at mem p bytes q ≡ mem q
store_at-outside mem p [] q away = refl
store_at-outside mem p (b ∷ bs) q away =
    let other : q ≢ p = elim away [ inl low ↦ λ e. omega arith | inr high ↦ λ e. omega arith ] in
    rw (ne→== q p other) (
      store_at-outside mem (suc p) bs q
        (elim away [ inl low ↦ inl (omega arith) | inr high ↦ inr (omega arith) ]))

load_bytes_congr :
    (mem mem' : ℕ → ℕ) (p n : ℕ)
    → ((q : ℕ) → p ≤ q → q < p + n → mem' q ≡ mem q)
    → load_bytes mem' p n ≡ load_bytes mem p n
unfolding load_bytes
load_bytes_congr mem mem' p zero same = refl
load_bytes_congr mem mem' p (suc n) same =
    ap (λ t. t ∷ load_bytes mem' (suc p) n) (same p (omega arith) (omega arith))
    ∙ ap (λ t. mem p ∷ t)
        (load_bytes_congr mem mem' (suc p) n (λ q low high. same q (omega arith) (omega arith)))

load_bytes-store_at :
    (mem : ℕ → ℕ) (p : ℕ) (bytes : List ℕ)
    → load_bytes (store_at mem p bytes) p (length bytes) ≡ bytes
unfolding load_bytes
load_bytes-store_at mem p [] = refl
load_bytes-store_at mem p (b ∷ bs) =
    let here : store_at mem p (b ∷ bs) p ≡ b = rw (eq→== p p refl) in
    let behind =
      load_bytes_congr (store_at mem (suc p) bs) (store_at mem p (b ∷ bs)) (suc p) (length bs)
        (λ q low high. rw (ne→== q p (omega arith))) in
    ap (λ t. t ∷ load_bytes (store_at mem p (b ∷ bs)) (suc p) (length bs)) here
    ∙ ap (λ t. b ∷ t) (behind ∙ load_bytes-store_at mem (suc p) bs)

-- The bytes at some addresses.
abbrev pub bytes_at : (ℕ → ℕ) → List ℕ → List ℕ
bytes_at mem [] = []
bytes_at mem (a ∷ rest) = mem a ∷ bytes_at mem rest

bytes_at-range : (mem : ℕ → ℕ) (p n : ℕ) → bytes_at mem (range p n) ≡ load_bytes mem p n
unfolding range load_bytes
bytes_at-range mem p zero = refl
bytes_at-range mem p (suc n) = ap (λ t. mem p ∷ t) (bytes_at-range mem (suc p) n)

module _ (valuebuf : ℕ → ℕ) (offset : ℕ) (q : HashQuery) (val n : ℕ) (mem : ℕ → ℕ)
    (sized : q.size ≡ n + 4) (small : n < 2 ^ 31) where
  no_wrap : stored_size q.size ≡ n
  no_wrap = omega arith

  -- The value that an insert stores.
  stored_answer :
      load_bytes (store_value valuebuf offset q val mem) val (4 + n)
      ≡ answer (load_bytes valuebuf offset n)
  unfolding store_value
  stored_answer =
      let value = load_bytes valuebuf offset n in
      let size_bytes = length-le_bytes 4 n in
      let sized_mem = store_at mem val (le_bytes 4 n) in
      let final = store_at sized_mem (val + 4) value in
      let long = length-load_bytes valuebuf offset n in
      let size_part : load_bytes final val 4 ≡ le_bytes 4 n =
        load_bytes_congr sized_mem final val 4
          (λ k low high. store_at-before sized_mem (val + 4) value k high)
        ∙ ap (load_bytes sized_mem val) (sym size_bytes)
        ∙ load_bytes-store_at mem val (le_bytes 4 n) in
      let data_part : load_bytes final (val + 4) n ≡ value =
        ap (load_bytes final (val + 4)) (sym long)
        ∙ load_bytes-store_at sized_mem (val + 4) value in
      rw no_wrap (
        load_bytes-append final val 4 n
        ∙ ap (λ t. t ++ load_bytes final (val + 4) n) size_part
        ∙ ap (λ t. le_bytes 4 n ++ t) data_part
        ∙ ap (λ t. le_bytes 4 t ++ value) (sym long))

stored_elsewhere :
    (valuebuf : ℕ → ℕ) (offset : ℕ) (q : HashQuery) (val n : ℕ) (mem : ℕ → ℕ)
    → q.size ≡ n + 4
    → n < 2 ^ 31
    → (k : ℕ) → (k < val) ⊎ (val + (4 + n) ≤ k)
    → store_value valuebuf offset q val mem k ≡ mem k
unfolding store_value
stored_elsewhere valuebuf offset q val n mem sized small k away =
    let size : stored_size q.size ≡ n = omega arith in
    let value = load_bytes valuebuf offset (stored_size q.size) in
    let long = length-load_bytes valuebuf offset (stored_size q.size) in
    let header = length-le_bytes 4 (stored_size q.size) in
    store_at-outside (store_at mem val (le_bytes 4 (stored_size q.size))) (val + 4) value k
      (elim away [ inl low ↦ inl (omega arith) | inr high ↦ inr (omega (arith, long, size)) ])
    ∙ store_at-outside mem val (le_bytes 4 (stored_size q.size)) k
        (elim away [ inl low ↦ inl low | inr high ↦ inr (omega (arith, header)) ])

-- Memory that holds an answer makes the entry of writev that sends it.
answer_sent :
    (null_value val : ℕ) (mem : ℕ → ℕ) (value : List ℕ)
    → 0 < val
    → length value < 2 ^ 31
    → load_bytes mem val (4 + length value) ≡ answer value
    → bytes_at mem (spread (answer_iov null_value mem val ∷ [])) ≡ answer value
unfolding answer_iov spread value_size
answer_sent null_value val mem value real small there =
    let n = length value in
    let (first, behind) =
      append_split (load_bytes mem val 4) (le_bytes 4 n)
        (length-load_bytes mem val 4 ∙ sym (length-le_bytes 4 n))
        (sym (load_bytes-append mem val 4 n) ∙ there) in
    let size : value_size mem val ≡ n = ap le_value first ∙ le_value-le_bytes 4 n (omega arith) in
    rw (ne→== val 0 (omega arith)) (
      ap (bytes_at mem) (append-nil (range val (4 + value_size mem val)))
      ∙ ap (λ k. bytes_at mem (range val (4 + k))) size
      ∙ bytes_at-range mem val (4 + n)
      ∙ there)

module _ {F W : Type 0} (null_value : ℕ) (mark_ready : ℕ → (ℕ → ℕ) → W → Run W) (valuebuf : ℕ → ℕ)
    (cd : ClientData F) where
  -- A value that a query inserted, and the lookups that find it as long as its memory stays.
  abbrev pub Stored : ℕ → List ℕ → Handling W → W → Handling W → Type 0
  Stored val value h w h' =
      (h'.table ≡ w)
      × (h'.writeiov ≡ h.writeiov)
      × ((q : ℕ) → (q < val) ⊎ (val + (4 + length value) ≤ q) → h'.mem q ≡ h.mem q)
      × ((q : HashQuery) (sid s : ℕ) (later : Handling W)
          → ((k : ℕ) → val ≤ k → k < val + (4 + length value) → later.mem k ≡ h'.mem k)
          → socket_at cd sid ≡ some s
          → Returns (handle null_value mark_ready valuebuf cd (looked q sid (some s)) val later)
              (λ end.
                (v : Iovec) × (end.writeiov ≡ push_iov later.writeiov sid v)
                × (bytes_at later.mem (spread (v ∷ [])) ≡ answer value)))

  away_from :
      {val n m : ℕ} (k : ℕ)
      → (k < val) ⊎ (val + (4 + m) ≤ k)
      → m ≡ n
      → (k < val) ⊎ (val + (4 + n) ≤ k)
  away_from k (inl low) e = inl low
  away_from k (inr high) e = inr (omega arith)

  pub handle_answers :
      (q : HashQuery) (offset val n : ℕ) (h : Handling W) (w : W)
      → q.size ≡ n + 4
      → n < 2 ^ 31
      → 0 < val
      → ((mem : ℕ → ℕ)
          → load_bytes mem val (4 + n) ≡ answer (load_bytes valuebuf offset n)
          → mark_ready val mem h.table ≡ ok w)
      → Returns
          (handle null_value mark_ready valuebuf cd (inserted q offset) val h)
          (Stored val (load_bytes valuebuf offset n) h w)
  unfolding handle
  handle_answers q offset val n h w sized small real ready =
      let value = load_bytes valuebuf offset n in
      let long = length-load_bytes valuebuf offset n in
      let mem' = store_value valuebuf offset q val h.mem in
      let stored = stored_answer valuebuf offset q val n h.mem sized small in
      (
        record h { mem = mem'; table = w },
        rw (ne→== val 0 (omega arith), ready mem' stored),
        (
          refl,
          refl,
          λ k away.
              stored_elsewhere valuebuf offset q val n h.mem sized small k (away_from k away long),
          λ q' sid s later same in_use. (
            record later {
              writeiov = push_iov later.writeiov sid (answer_iov null_value later.mem val);
            },
            rw (in_use, eq→== s s refl),
            (
              answer_iov null_value later.mem val,
              refl,
              answer_sent null_value val later.mem value real (omega (arith, long)) (
                  load_bytes_congr mem' later.mem val (4 + length value) same
                  ∙ ap (λ t. load_bytes mem' val (4 + t)) long
                  ∙ stored),
            ),
          ),
        ),
      )
