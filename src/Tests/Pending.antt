-- ===== src/Tests/Pending.antt =====
-- A client of smphashtable.c with the program's boxes and servers, before the first request.
use smphash_table.Base.{
  ℕ, inl, inr, false, ◌≡◌, refl, none, some, List, [], ◌∷◌, arith, ◌==◌, if◌then◌else◌, replicate,
  length-replicate, ok, Returns, ◌>>=◌,
}
use smphash_table.Memory.{Heap, mp_release, is_value_ready}
use smphash_table.Message.{lookup, release, encode}
use smphash_table.Protocol.{HashQuery}
use smphash_table.Partition.{
  fresh_partition, hash_size, max_ten, hash_lookup, hash_insert, rounded_size, elem_bytes, remove,
  last, walk, move_to_front, touch, hash_remove, try_alloc, victim, pick_random, make_room,
  drop_old, link,
}
use smphash_table.Server.{State, hit, serve_lookup, serve_insert, serve_release}
use smphash_table.Server.Serving.{Serving, fresh_partition-Serving}
use smphash_table.Client.{
  Boxes, Pending, new_pending, smp_hash_lookup, smp_get_next, mp_release_value, mp_mark_ready,
}
use smphash_table.Client.Releases.{mp_release-Sends}
use smphash_table.Client.Ports.{Service, Serves}
use smphash_table.Client.Owed.{Outstanding, Accepted, Next}
use smphash_table.Client.Refine.{
  new_pending-Outstanding, smp_hash_lookup_refines, smp_get_next_refines,
}
use smphash_table.Client.Doall.{smp_hash_doall}
use smphash_table.Client.Doall.Serves.{AllServable, serve_in_order}
use smphash_table.Client.Doall.Refine.{smp_hash_doall_refines}
use smphash_table.Channel.{Lane, channel_boxes}
use smphash_table.Channel.Serves.{
  channel_service, new_lane, new_lane-Sound, channel-Serves, lookup_answerable,
}
use smphash_table.Tests.Table.{no_memory, one_cell, small_partition}

-- Three servers with empty partitions, which have handled nothing yet.
abbrev pub first_state : State
first_state = record { heap = no_memory; part = small_partition; clock = [] }

abbrev pub idle : ℕ → Lane
idle s = new_lane first_state

-- A round of the server behind each call.
abbrev one_round : Lane → ℕ
one_round l = 1

abbrev pub boxes_here : Boxes (ℕ → Lane)
boxes_here = channel_boxes one_cell one_round

abbrev pub servers_here : Service (ℕ → Lane) State
servers_here = channel_service one_cell

pub here-Serves : Serves boxes_here servers_here
here-Serves = channel-Serves one_cell one_round

channel-Serves_example : Serves (channel_boxes one_cell one_round) (channel_service one_cell)
channel-Serves_example = channel-Serves one_cell one_round

pub idle_good : servers_here.good idle
idle_good s = new_lane-Sound one_cell first_state

abbrev pub new_client : Pending
new_client = new_pending (replicate 65536 0) (replicate 65536 0) 3

pub new-Outstanding : Outstanding servers_here 3 new_client idle []
new-Outstanding =
    new_pending-Outstanding servers_here 3 (replicate 65536 0) (replicate 65536 0) idle
      (length-replicate {A = ℕ} 65536 0) (length-replicate {A = ℕ} 65536 0) idle_good (λ t. refl)

pending_code : Unit {0}
unfolding fresh_partition hash_size max_ten hash_lookup hash_insert rounded_size elem_bytes remove
    last walk move_to_front touch hash_remove try_alloc victim pick_random make_room drop_old link
    mp_release is_value_ready encode hit serve_lookup serve_insert serve_release
pending_code = tt

first_state-Serving : Serving first_state [] (λ q. 0) (λ q. false)
first_state-Serving = fresh_partition-Serving 1000 1 [] (omega arith) (omega arith)

smp_hash_lookup_refines_example :
    Returns
      (smp_hash_lookup boxes_here 3 10 new_client idle)
      (Accepted servers_here 3 idle 1 (lookup 10) [])
smp_hash_lookup_refines_example =
    smp_hash_lookup_refines here-Serves 10 new-Outstanding (omega arith) (omega arith)
      (lookup_answerable first_state-Serving one_cell 10 (λ q. omega arith))

smp_get_next_refines_example :
    Returns (smp_get_next boxes_here new_client idle) (Next servers_here 3 idle [])
smp_get_next_refines_example = smp_get_next_refines here-Serves [] new-Outstanding

-- Two queries to the same server, and one to another.
abbrev pub three_queries : List HashQuery
three_queries =
    record { optype = 1; size = 5; key = 4 }
    ∷ record { optype = 0; size = 0; key = 5 }
    ∷ record { optype = 0; size = 0; key = 4 }
    ∷ []

pub three_queries_servable : AllServable servers_here 3 (λ s. first_state) three_queries
unfolding pending_code
three_queries_servable = ((164, _, refl), ((0, _, refl), ((0, _, refl), tt)))

smp_hash_doall_refines_example :
    Returns
      (smp_hash_doall boxes_here 3 three_queries idle)
      (λ (values, w'). values ≡ serve_in_order servers_here.step 3 (λ s. first_state) three_queries)
smp_hash_doall_refines_example =
    smp_hash_doall_refines here-Serves 3 (omega arith) three_queries idle idle_good (λ t. refl)
      (
        (omega arith, inr (refl, λ e. omega arith)),
        ((omega arith, inl refl), ((omega arith, inl refl), tt)),
      )
      three_queries_servable

-- The value is not yet marked ready when it is looked up.
answers_in_order :
    serve_in_order servers_here.step 3 (λ s. first_state) three_queries ≡ 164 ∷ 0 ∷ 0 ∷ []
unfolding pending_code serve_in_order
answers_in_order = refl

abbrev one_element : Heap
one_element q = if q == 100 then some (record { key = 10; ref_count = 1; size = 64 }) else none

mp_release-Sends_example :
    (mp_release_value boxes_here 3 one_element 164 idle
      ≡ (boxes_here.inpb_write 1 (encode (release 100)) idle >>= λ w'. ok w'))
    × (mp_mark_ready boxes_here 3 one_element 164 idle ≡ (
        boxes_here.inpb_write 1 (encode (release 100)) idle >>= λ w'. boxes_here.inpb_flush 1 w'))
mp_release-Sends_example =
    mp_release-Sends boxes_here 3 one_element 100 (record { key = 10; ref_count = 1; size = 64 })
      idle refl (omega arith)
