-- ===== src/HashServer/Sockets/Accept.antt =====
-- tcpserver gives an accepted socket to the client thread with the fewest.
use smphash_table.Base.{
  ℕ, zero, suc, ◌+◌, ◌-◌, ◌%◌, ◌^◌, ◌≤◌, ◌<◌, ◌≡◌, refl, sym, subst, Option, Bool, true, false,
  List, length, get_or, get_or-set, set, arith, ◌==◌, if◌then◌else◌, lt→ltb, le→ltb, Returns,
  dec_lt, ℕ_discrete,
}
use smphash_table.HashServer.Sockets.{
  ClientData, max_sockets, int_lt, least_loaded, load_of, accept_socket,
}
use smphash_table.HashServer.Sockets.Slots.{Consistent, Opened, open_socket_refines, used-length}

int_lt-true : (a b : ℕ) → a < 2 ^ 31 → b < 2 ^ 31 → a < b → int_lt a b ≡ true
int_lt-true a b fits fits' lt = lt→ltb ((a + 2 ^ 31) % 2 ^ 32) ((b + 2 ^ 31) % 2 ^ 32) (omega arith)

int_lt-false : (a b : ℕ) → a < 2 ^ 31 → b < 2 ^ 31 → b ≤ a → int_lt a b ≡ false
int_lt-false a b fits fits' le =
    le→ltb ((a + 2 ^ 31) % 2 ^ 32) ((b + 2 ^ 31) % 2 ^ 32) (omega arith)

-- The client chosen is one of them, and none of them has fewer sockets.
abbrev pub Fewest : (ℕ → ℕ) → ℕ → ℕ → Type 0
Fewest load n cid = (cid < n) × ((j : ℕ) → j < n → load cid ≤ load j)

extend-Fewest :
    (load : ℕ → ℕ) (i cid : ℕ)
    → ((j : ℕ) → load j < 2 ^ 31)
    → Fewest load i cid
    → Fewest load (i + 1) (if int_lt (load i) (load cid) then i else cid)
extend-Fewest load i cid fits (inside, least) = elim (dec_lt (load i) (load cid)) [
  | yes less ↦ rw (int_lt-true (load i) (load cid) (fits i) (fits cid) less) (
    omega arith,
    λ j lt. elim (ℕ_discrete j i) [
      | yes same ↦ subst (λ t. load i ≤ load t) (sym same) (omega arith)
      | no other ↦ omega (arith, least j (omega (arith, other)), less)
    ],
  )
  | no more ↦ rw (int_lt-false (load i) (load cid) (fits i) (fits cid) (omega (arith, more))) (
    omega (arith, inside),
    λ j lt. elim (ℕ_discrete j i) [
      | yes same ↦ subst (λ t. load cid ≤ load t) (sym same) (omega (arith, more))
      | no other ↦ least j (omega (arith, other))
    ],
  )
]

least_loaded-Fewest :
    (load : ℕ → ℕ) (left i cid : ℕ)
    → ((j : ℕ) → load j < 2 ^ 31)
    → Fewest load i cid
    → Fewest load (i + left) (least_loaded load left i cid)
unfolding least_loaded
least_loaded-Fewest load zero i cid fits v = subst (λ t. Fewest load t cid) (omega arith) v
least_loaded-Fewest load (suc left) i cid fits v =
    let next = if int_lt (load i) (load cid) then i else cid in
    subst (λ t. Fewest load t (least_loaded load left (i + 1) next)) (omega arith)
      (least_loaded-Fewest load left (i + 1) next fits (extend-Fewest load i cid fits v))

module _ {F : Type 0} (fdopen : ℕ → Option F) (spare : ClientData F) where
  abbrev pub AllConsistent : List (ClientData F) → Type 0
  AllConsistent cdata = (j : ℕ) → Consistent (get_or cdata j spare)

  set-AllConsistent :
      (cdata : List (ClientData F)) (cid : ℕ) (cd : ClientData F)
      → AllConsistent cdata
      → cid < length cdata
      → Consistent cd
      → AllConsistent (set cdata cid cd)
  set-AllConsistent cdata cid cd v inside c j =
      subst Consistent (sym (get_or-set cdata cid j cd spare inside)) (either (cid == j) (v j))
    where
      either :
          (b : Bool)
          → Consistent (get_or cdata j spare)
          → Consistent (if b then cd else get_or cdata j spare)
      either true w = c
      either false w = w

  -- A result of handing out a socket.
  abbrev pub Accepted : List (ClientData F) → ℕ → ℕ × Bool × List (ClientData F) → Type 0
  Accepted cdata sock (cid, opened, cdata') =
      Fewest (λ i. load_of cdata i spare) (length cdata) cid
      × ((cd' : ClientData F) × (cdata' ≡ set cdata cid cd')
          × Opened fdopen (get_or cdata cid spare) sock (opened, cd'))
      × AllConsistent cdata'

  pub accept_socket_refines :
      (cdata : List (ClientData F)) (sock j : ℕ)
      → AllConsistent cdata
      → j < length cdata
      → load_of cdata j spare < max_sockets
      → Returns (accept_socket fdopen spare cdata sock) (Accepted cdata sock)
  unfolding accept_socket
  accept_socket_refines cdata sock j v inside room =
      let load : ℕ → ℕ = λ i. load_of cdata i spare in
      let cid = least_loaded load (length cdata - 1) 1 0 in
      let fits : (i : ℕ) → load i < 2 ^ 31 = λ i.
        let c = v i in
        omega (arith, c.counted, c.places, used-length (get_or cdata i spare).sockets) in
      let here : (i : ℕ) → i < 1 → load 0 ≤ load i =
        λ i lt. let same : 0 ≡ i = omega arith in subst (λ t. load 0 ≤ load t) same (omega arith) in
      let first : Fewest load 1 0 = (omega arith, λ i lt. here i lt) in
      let fewest : Fewest load (length cdata) cid =
        subst (λ n. Fewest load n cid) (omega arith)
          (least_loaded-Fewest load (length cdata - 1) 1 0 fits first) in
      let some_room : load cid < max_sockets = omega (arith, fewest.1 j inside) in
      let ((opened, cd'), run, result) =
        open_socket_refines fdopen (get_or cdata cid spare) sock (v cid) some_room in
      (
        (cid, opened, set cdata cid cd'),
        rw (int_lt-true (load cid) max_sockets (fits cid) (omega arith) some_room, run),
        (fewest, (cd', refl, result), set-AllConsistent cdata cid cd' v fewest.0 result.2),
      )
