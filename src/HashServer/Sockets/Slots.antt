-- ===== src/HashServer/Sockets/Slots.antt =====
-- The places of the sockets: which are free, and how many are used.
use smphash_table.Base.{
  ℕ, zero, suc, ◌+◌, ◌≤◌, ◌<◌, ◌≡◌, ◌≢◌, ◌⊎◌, inl, inr, refl, sym, ap, ◌∙◌, Option, none, some,
  Bool, true, false, List, [], ◌∷◌, length, length-set, get_or, get_or-set, set, arith, bit_and,
  bit_and_mask, eq→==, ne→==, ok, Returns, ℕ_discrete,
}
use smphash_table.HashServer.Sockets.{
  ClientData, max_sockets, socket_at, close_socket, open_at, open_from, open_socket,
}

-- How many places are used.
unfoldable pub used : List (Option ℕ) → ℕ
used [] = 0
used (none ∷ xs) = used xs
used (some s ∷ xs) = suc (used xs)

used_filled :
    (xs : List (Option ℕ)) (i s : ℕ)
    → i < length xs
    → get_or xs i none ≡ none
    → used (set xs i (some s)) ≡ suc (used xs)
unfolding used
used_filled [] i s h free = absurd (omega arith)
used_filled (none ∷ xs) zero s h free = refl
used_filled (some t ∷ xs) zero s h free = absurd cc
used_filled (none ∷ xs) (suc i) s h free = used_filled xs i s (omega arith) free
used_filled (some t ∷ xs) (suc i) s h free = ap suc (used_filled xs i s (omega arith) free)

used_freed :
    (xs : List (Option ℕ)) (i s : ℕ)
    → get_or xs i none ≡ some s
    → suc (used (set xs i none)) ≡ used xs
unfolding used
used_freed [] i s there = absurd cc
used_freed (none ∷ xs) zero s there = absurd cc
used_freed (some t ∷ xs) zero s there = refl
used_freed (none ∷ xs) (suc i) s there = used_freed xs i s there
used_freed (some t ∷ xs) (suc i) s there = ap suc (used_freed xs i s there)

pub used-length : (xs : List (Option ℕ)) → used xs ≤ length xs
unfolding used
used-length [] = omega arith
used-length (none ∷ xs) = omega (arith, used-length xs)
used-length (some s ∷ xs) = omega (arith, used-length xs)

inside_of : (xs : List (Option ℕ)) (i s : ℕ) → get_or xs i none ≡ some s → i < length xs
inside_of [] i s there = absurd cc
inside_of (x ∷ xs) zero s there = omega arith
inside_of (x ∷ xs) (suc i) s there = omega (arith, inside_of xs i s there)

-- The first free place.
abbrev pub FirstFree : List (Option ℕ) → ℕ → Type 0
FirstFree xs i =
    (i < length xs)
    × (get_or xs i none ≡ none)
    × ((j : ℕ) → j < i → (s : ℕ) × (get_or xs j none ≡ some s))

first_free : (xs : List (Option ℕ)) → used xs < length xs → (i : ℕ) × FirstFree xs i
unfolding used
first_free [] h = absurd (omega arith)
first_free (none ∷ xs) h = (0, (omega arith, refl, λ j lt. absurd (omega arith)))
first_free (some s ∷ xs) h =
    let (i, (inside, free, below)) = first_free xs (omega arith) in
    (suc i, (omega (arith, inside), free, λ j lt. at j lt below))
  where
    at :
        (j : ℕ) {i : ℕ}
        → j < suc i
        → ((k : ℕ) → k < i → (t : ℕ) × (get_or xs k none ≡ some t))
        → (t : ℕ) × (get_or (some s ∷ xs) j none ≡ some t)
    at zero lt below = (s, refl)
    at (suc j) lt below = below j (omega arith)

-- The thread has its 128 places, and counts the used ones.
pub record Consistent {F : Type 0} (cd : ClientData F) : Type 0 where
  pub places : length cd.sockets ≡ max_sockets
  pub counted : cd.nsockets ≡ used cd.sockets

-- A closed socket leaves its place free.
pub close_socket-Consistent :
    {F : Type 0} (cd : ClientData F) (sid s : ℕ)
    → Consistent cd
    → socket_at cd sid ≡ some s
    → Consistent (close_socket cd sid)
      × (socket_at (close_socket cd sid) sid ≡ none)
      × ((j : ℕ) → j ≢ sid → socket_at (close_socket cd sid) j ≡ socket_at cd j)
unfolding close_socket
close_socket-Consistent cd sid s v there =
    let fewer = used_freed cd.sockets sid s there in
    let inside : sid < length cd.sockets = inside_of cd.sockets sid s there in
    (
      record {
        places = length-set cd.sockets sid none ∙ v.places;
        counted = omega (arith, fewer, v.counted, used-length cd.sockets, v.places);
      },
      get_or-set cd.sockets sid sid none none inside ∙ rw (eq→== sid sid refl),
      λ j other.
          get_or-set cd.sockets sid j none none inside ∙ rw (ne→== sid j (λ e. other (sym e))),
    )

module _ {F : Type 0} (fdopen : ℕ → Option F) where
  -- A result of open_socket: the first free place has the socket, if its stream opened.
  abbrev pub Opened : ClientData F → ℕ → Bool × ClientData F → Type 0
  Opened cd sock (opened, cd') =
      (i : ℕ) × FirstFree cd.sockets i
      × Consistent cd'
      × (((opened ≡ false) × (fdopen sock ≡ none) × (cd'.sockets ≡ cd.sockets))
          ⊎ ((opened ≡ true)
              × ((f : F) × (fdopen sock ≡ some f)
                  × (cd'.fin i ≡ some f)
                  × (cd'.sockets ≡ set cd.sockets i (some sock)))))

  open_at-Opened :
      (r : Option F) (cd : ClientData F) (sock i : ℕ)
      → Consistent cd
      → fdopen sock ≡ r
      → FirstFree cd.sockets i
      → Opened cd sock (open_at r sock i cd)
  unfolding open_at
  open_at-Opened none cd sock i v there free =
      (i, free, record { places = v.places; counted = v.counted }, inl (refl, there, refl))
  open_at-Opened (some f) cd sock i v there free =
      let more = used_filled cd.sockets i sock free.0 free.1 in
      (
        i,
        free,
        record {
          places = length-set cd.sockets i (some sock) ∙ v.places;
          counted = omega (arith, more, v.counted, used-length cd.sockets, v.places);
        },
        inr (refl, (f, there, rw (eq→== i i refl), refl)),
      )

  open_from_lem :
      (rounds sock k i : ℕ) (cd : ClientData F)
      → Consistent cd
      → FirstFree cd.sockets i
      → k ≤ i
      → i < k + rounds
      → Returns (open_from fdopen rounds sock k cd) (Opened cd sock)
  unfolding open_from
  open_from_lem zero sock k i cd v free low high = absurd (omega arith)
  open_from_lem (suc rounds) sock k i cd v free low high = elim (ℕ_discrete k i) [
    | yes here ↦ (
      open_at (fdopen sock) sock i cd,
      rw (open_from, here, free.1) (ap (λ t. ok (open_at (fdopen sock) sock t cd)) here),
      open_at-Opened (fdopen sock) cd sock i v refl free,
    )
    | no before ↦
        let (s, there) = free.2 k (omega (arith, before)) in
        let next : bit_and (k + 1) 127 ≡ k + 1 =
          bit_and_mask 7 (k + 1) ∙ omega (arith, before, free.0, v.places) in
        let (end, run, opened) =
          open_from_lem rounds sock (k + 1) i cd v free (omega (arith, before)) (omega arith) in
        (
          end,
          rw (open_from, there) (ap (λ t. open_from fdopen rounds sock t cd) next ∙ run),
          opened,
        )
  ]

  pub open_socket_refines :
      (cd : ClientData F) (sock : ℕ)
      → Consistent cd
      → cd.nsockets < max_sockets
      → Returns (open_socket fdopen cd sock) (Opened cd sock)
  unfolding open_socket
  open_socket_refines cd sock v room =
      let (i, free) = first_free cd.sockets (omega (arith, v.places, v.counted)) in
      open_from_lem max_sockets sock 0 i cd v free (omega arith) (omega (arith, v.places, free.0))
