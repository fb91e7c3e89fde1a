-- ===== src/Channel.antt =====
-- A client's boxes with the servers at their other end: mpbuffers.c and hash_table_server together. A
-- server does a round whenever the client has to wait for it, and any number of rounds behind a call.
pub mod Handled
pub mod Rounds
pub mod Lanes
pub mod Calls
pub mod Waits
pub mod Serves
use smphash_table.Base.{
  ℕ, zero, suc, ◌+◌, ◌%◌, ◌^◌, Option, none, some, Bool, true, false, List, [], ◌∷◌, ◌++◌, drop,
  bit_and, ◌==◌, if◌then◌else◌, Run, ok, fault, waiting, ◌>>=◌,
}
use smphash_table.Message.{
  Request, lookup, insert, release, hashop_mask, not_hashop_mask, hashop_lookup,
}
use smphash_table.Partition.{Allocator}
use smphash_table.Inbuf.{InputBuffer, inpb_flush, inpb_write}
use smphash_table.Outbuf.{OutputBuffer, outb_read}
use smphash_table.Outbuf.Refine.{polled}
use smphash_table.Table.{Box}
use smphash_table.Client.{Boxes}
use smphash_table.Server.{State}
use smphash_table.Server.Batch.{handle}
use smphash_table.Server.Rounds.{serve_client}

-- One server and the client's box for it. Nothing that runs depends on the last two fields, which
-- keep the account: the answers that are still to be read, and the state of the server behind all
-- requests.
pub record Lane : Type 0 where
  pub box : Box
  pub localbuf : List ℕ
  pub state : State
  pub owed : List ℕ
  pub final : State

abbrev pub with_input : Lane → InputBuffer → Lane
with_input l b = record l { box = record l.box { in_buffer = b } }

abbrev pub with_output : Lane → OutputBuffer → Lane
with_output l b = record l { box = record l.box { out_buffer = b } }

-- The request that some words make, for the account.
unfoldable pub decode : List ℕ → Request
decode [] = release 0
decode (w ∷ []) =
    if bit_and w hashop_mask == hashop_lookup
    then lookup (bit_and w not_hashop_mask)
    else release (bit_and w not_hashop_mask)
decode (w ∷ size ∷ ws) = insert (bit_and w not_hashop_mask) size

abbrev pub entered_in : Lane → Run (List ℕ × State) → Lane
entered_in l (fault stop) = l
entered_in l (ok (out, s)) = record l { owed = l.owed ++ out; final = s }

abbrev pub recorded : Allocator → List ℕ → Lane → Lane
recorded alloc ws l = entered_in l (handle alloc (decode ws) l.final)

abbrev pub taken_out : Lane → Option ℕ → Lane
taken_out l none = l
taken_out l (some x) = record l { owed = drop 1 l.owed }

abbrev pub read_lane : Lane → Option ℕ × Lane
read_lane l = let r = outb_read l.box.out_buffer in (r.0, taken_out (with_output l r.1) r.0)

module _ (alloc : Allocator) where
  -- A round of the server for this client.
  unfoldable pub serve_lane : Lane → Run Lane
  serve_lane l = do
    (b, buf, s) ← serve_client alloc l.box l.localbuf l.state
    ok (record l { box = b; localbuf = buf; state = s })

  unfoldable pub serve_rounds : ℕ → Lane → Run Lane
  serve_rounds zero l = ok l
  serve_rounds (suc n) l = do l' ← serve_lane l; serve_rounds n l'

  -- inpb_flush from call to return, with the tests left.
  unfoldable pub flush_lane : ℕ → Lane → Run Lane
  flush_lane zero l = fault waiting
  flush_lane (suc tests) l =
      let r = inpb_flush l.box.in_buffer in
      elim r.0 [
        | true ↦ ok (with_input l r.1)
        | false ↦ do l' ← serve_lane (with_input l r.1); flush_lane tests l'
      ]

  unfoldable pub write_lane : ℕ → List ℕ → Lane → Run Lane
  write_lane zero ws l = fault waiting
  write_lane (suc tests) ws l = do
    (done, b) ← inpb_write l.box.in_buffer ws
    elim done [
      | true ↦ ok (recorded alloc ws (with_input l b))
      | false ↦ do l' ← serve_lane (with_input l b); write_lane tests ws l'
    ]

  -- outb_blocking_read from call to return.
  unfoldable pub block_lane : ℕ → Lane → Run (ℕ × Lane)
  block_lane zero l = fault waiting
  block_lane (suc tests) l =
      let r = outb_read l.box.out_buffer in
      elim r.0 [
        | some x ↦ ok (x, taken_out (with_output l r.1) (some x))
        | none ↦ do l' ← serve_lane (with_output l (polled r.1)); block_lane tests l'
      ]

abbrev pub put_lane : (ℕ → Lane) → ℕ → Lane → ℕ → Lane
put_lane w s l t = if t == s then l else w t

-- Two tests of a flush or a write, and five of a read, are enough: a round of the server frees a line,
-- and there are four. Behind a call the server does as many rounds more as `rounds` says.
abbrev pub channel_boxes : Allocator → (Lane → ℕ) → Boxes (ℕ → Lane)
channel_boxes alloc rounds = record {
  outb_read = λ s w. ((read_lane (w s)).0, put_lane w s (read_lane (w s)).1);
  inpb_flush = λ s w. (do
    l ← flush_lane alloc 2 (w s)
    l' ← serve_rounds alloc (rounds l) l
    ok (put_lane w s l'));
  outb_blocking_read = λ s w. (do
    (x, l) ← block_lane alloc 5 (w s)
    l' ← serve_rounds alloc (rounds l) l
    ok (x, put_lane w s l'));
  inpb_write = λ s ws w. (do
    l ← write_lane alloc 2 ws (w s)
    l' ← serve_rounds alloc (rounds l) l
    ok (put_lane w s l'));
}
