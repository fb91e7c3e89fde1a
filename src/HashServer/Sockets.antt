-- ===== src/HashServer/Sockets.antt =====
-- hashserver2.c: the sockets of the client threads, and how tcpserver hands a new one to a thread.
pub mod Slots
pub mod Accept
use smphash_table.Base.{
  ℕ, zero, suc, ◌+◌, ◌-◌, ◌%◌, ◌^◌, Option, none, some, Bool, true, false, List, length, get_or,
  set, bit_and, ◌==◌, ltb, if◌then◌else◌, Run, ok, fault, waiting, ◌>>=◌,
}

-- MAX_SOCKETS
abbrev pub max_sockets : ℕ
max_sockets = 128

-- `a < b` of ints.
abbrev pub int_lt : ℕ → ℕ → Bool
int_lt a b = ltb ((a + 2 ^ 31) % 2 ^ 32) ((b + 2 ^ 31) % 2 ^ 32)

-- `struct client_data` without the queues of writev. A socket is `none` for -1, a stream for NULL;
-- the count is the bit pattern of its int.
pub record ClientData (F : Type 0) : Type 0 where
  pub nsockets : ℕ
  pub sockets : List (Option ℕ)
  pub fin : ℕ → Option F

abbrev pub socket_at : {F : Type 0} → ClientData F → ℕ → Option ℕ
socket_at cd i = get_or cd.sockets i none

abbrev pub put_fin : {F : Type 0} → (ℕ → Option F) → ℕ → Option F → ℕ → Option F
put_fin fin i f k = if i == k then f else fin k

unfoldable pub close_socket : {F : Type 0} → ClientData F → ℕ → ClientData F
close_socket cd sid = record cd {
  nsockets = (cd.nsockets + 2 ^ 32 - 1) % 2 ^ 32;
  sockets = set cd.sockets sid none;
}

-- The branch of a free place, with what fdopen returns.
unfoldable pub open_at : {F : Type 0} → Option F → ℕ → ℕ → ClientData F → Bool × ClientData F
open_at none sock i cd = (false, record cd { fin = put_fin cd.fin i none })
open_at (some f) sock i cd = (
  true,
  record {
    nsockets = (cd.nsockets + 1) % 2 ^ 32;
    sockets = set cd.sockets i (some sock);
    fin = put_fin cd.fin i (some f);
  },
)

module _ {F : Type 0} (fdopen : ℕ → Option F) where
  -- The `while (1)` loop, with the rounds left: after a whole turn it waits for a socket to be closed.
  unfoldable pub open_from : ℕ → ℕ → ℕ → ClientData F → Run (Bool × ClientData F)
  open_from zero sock i cd = fault waiting
  open_from (suc rounds) sock i cd = elim (socket_at cd i) [
    | none ↦ ok (open_at (fdopen sock) sock i cd)
    | some s ↦ open_from rounds sock (bit_and (i + 1) 127) cd
  ]

  unfoldable pub open_socket : ClientData F → ℕ → Run (Bool × ClientData F)
  open_socket cd sock = open_from max_sockets sock 0 cd

-- The `for` loop of tcpserver over `cdata[i].nsockets`, with the clients left.
unfoldable pub least_loaded : (ℕ → ℕ) → ℕ → ℕ → ℕ → ℕ
least_loaded load zero i cid = cid
least_loaded load (suc left) i cid =
    least_loaded load left (i + 1) (if int_lt (load i) (load cid) then i else cid)

abbrev pub load_of : {F : Type 0} → List (ClientData F) → ℕ → ClientData F → ℕ
load_of cdata i spare = (get_or cdata i spare).nsockets

module _ {F : Type 0} (fdopen : ℕ → Option F) where
  -- What tcpserver does with an accepted socket: the client, whether its stream opened, and the
  -- clients then. `spare` stands for what lies behind the clients in `cdata`.
  unfoldable pub accept_socket :
      ClientData F → List (ClientData F) → ℕ → Run (ℕ × Bool × List (ClientData F))
  accept_socket spare cdata sock =
      let cid = least_loaded (λ i. load_of cdata i spare) (length cdata - 1) 1 0 in
      let cd = get_or cdata cid spare in
      if int_lt cd.nsockets max_sockets
      then (do (opened, cd') ← open_socket fdopen cd sock; ok (cid, opened, set cdata cid cd'))
      else fault waiting
