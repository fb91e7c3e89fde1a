-- ===== src/Server/Rounds.antt =====
-- hash_table_server: a round over the boxes of all clients, as the body of its outer loop.
pub mod Sizes
pub mod Refine
pub mod Quit
use smphash_table.Base.{
  ℕ, Bool, true, false, List, [], ◌∷◌, length, drop, ◌==◌, Run, ok, fault, waiting, ◌>>=◌,
}
use smphash_table.Partition.{Allocator}
use smphash_table.Inbuf.{inpb_read}
use smphash_table.Outbuf.{outb_write}
use smphash_table.Table.{Box}
use smphash_table.Server.{State, serve_batch}

-- One client: its box for this server, `localbuf`, and the state of the server.
unfoldable pub serve_client : Allocator → Box → List ℕ → State → Run (Box × List ℕ × State)
serve_client alloc box buf s =
    let r = inpb_read box.in_buffer in
    elim (length r.0 == 0) [
      | true ↦ ok (record box { in_buffer = r.1 }, buf, s)
      | false ↦ do
        (out, buf', s') ← serve_batch alloc r.0 (drop (length r.0) buf) s
        written ← outb_write box.out_buffer out
        ok (record { in_buffer = r.1; out_buffer = written }, buf', s')
    ]

-- The loop over the clients, without the cycle counters.
unfoldable pub serve_clients :
    Allocator → List Box → List ℕ → State → Run (List Box × List ℕ × State)
serve_clients alloc [] buf s = ok ([], buf, s)
serve_clients alloc (b ∷ bs) buf s = do
  (b', buf₁, s₁) ← serve_client alloc b buf s
  (bs', buf₂, s₂) ← serve_clients alloc bs buf₁ s₁
  ok (b' ∷ bs', buf₂, s₂)

-- The `while (quitting == 0)` loop. In front of each round stand what the clients have done to their
-- boxes since the last one, and the reading of `quitting`; the loop does not end before a reading
-- says so.
unfoldable pub server_loop :
    Allocator
    → List ((List Box → List Box) × ℕ)
    → List Box
    → List ℕ
    → State
    → Run (List Box × State)
server_loop alloc [] bs buf s = fault waiting
server_loop alloc ((work, quitting) ∷ later) bs buf s = do
  (bs', buf', s') ← serve_clients alloc (work bs) buf s
  elim (quitting == 0) [ true ↦ server_loop alloc later bs' buf' s' | false ↦ ok (bs', s') ]
