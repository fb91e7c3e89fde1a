-- ===== src/Tests/Rounds.antt =====
-- A round of the server of smphashtable.c over the boxes of two clients.
use smphash_table.Base.{
  ℕ, zero, suc, ◌<◌, ◌≡◌, refl, [], ◌∷◌, arith, replicate, get_or, List, Run, ok, fault, Returns,
}
use smphash_table.Message.{Request, lookup, insert, encode}
use smphash_table.Inbuf.{InputBuffer, zeroed_inpb, read_words}
use smphash_table.Inbuf.Refine.{HoldsBatches, line_at, zeroed-HoldsBatches}
use smphash_table.Outbuf.Refine.{zeroed-HoldsWords}
use smphash_table.Table.{Box, zeroed_box}
use smphash_table.Memory.{mp_release, is_value_ready}
use smphash_table.Partition.{
  fresh_partition, hash_size, max_ten, hash_lookup, hash_insert, rounded_size, elem_bytes, remove,
  last, walk, move_to_front, touch, hash_remove, try_alloc, victim, pick_random, make_room,
  drop_old, link,
}
use smphash_table.Server.Rounds.Quit.{waiting_batches, all_but_oldest, server_loop_quits}
use smphash_table.Server.{State, hit, serve_lookup, serve_insert, serve_release}
use smphash_table.Server.Rounds.{serve_clients, server_loop}
use smphash_table.Server.Rounds.Refine.{
  Port, Stands, encode_batches, no_clients, one_client, Agrees, handle_clients,
  serve_clients-Agrees,
}
use smphash_table.Tests.Table.{no_memory, one_cell, small_partition}

abbrev empty_server : State
empty_server = record { heap = no_memory; part = small_partition; clock = [] }

-- An insert of ten bytes, and a lookup.
abbrev two_requests : List Request
two_requests = insert 5 10 ∷ lookup 5 ∷ []

abbrev two_requests_words : List ℕ
two_requests_words = 0x2000_0000_0000_0005 ∷ 10 ∷ 0x1000_0000_0000_0005 ∷ []

-- A lookup in a batch of its own.
abbrev third_request : List Request
third_request = lookup 6 ∷ []

abbrev third_request_words : List ℕ
third_request_words = 0x1000_0000_0000_0006 ∷ []

requests_encoded :
    encode_batches (two_requests ∷ third_request ∷ [])
    ≡ two_requests_words ∷ third_request_words ∷ []
unfolding encode
requests_encoded = refl

abbrev asking : InputBuffer
asking = record zeroed_inpb {
  lines =
      (0x2000_0000_0000_0005 ∷ 10 ∷ 0x1000_0000_0000_0005 ∷ replicate 5 0)
      ∷ (0x1000_0000_0000_0006 ∷ replicate 7 0)
      ∷ replicate 2 (replicate 8 0);
  data_wr = 2;
}

asking-batch :
    (k : ℕ)
    → k < 4
    → read_words (line_at asking k) 0 8
      ≡ get_or (two_requests_words ∷ third_request_words ∷ []) k []
unfolding read_words
asking-batch zero h = refl
asking-batch (suc zero) h = refl
asking-batch (suc (suc zero)) h = refl
asking-batch (suc (suc (suc zero))) h = refl
asking-batch (suc (suc (suc (suc k)))) h = absurd (omega arith)

asking-HoldsBatches : HoldsBatches asking (encode_batches (two_requests ∷ third_request ∷ []))
asking-HoldsBatches = rw requests_encoded (record {
  size = refl;
  widths = λ i h. ground arith;
  rd_in = omega arith;
  count = omega arith;
  wr_at = refl;
  batches = asking-batch;
  nonempty = λ k h e. ground arith;
  local_size = refl;
  local_in = omega arith;
  local_words = tt;
})

-- The first client waits for nothing, the second has two batches.
abbrev boxes_of_two : List Box
boxes_of_two = zeroed_box ∷ record zeroed_box { in_buffer = asking } ∷ []

abbrev ports_of_two : List Port
ports_of_two =
    record { requests = []; answers = [] }
    ∷ record { requests = two_requests ∷ third_request ∷ []; answers = [] }
    ∷ []

ports_of_two-Stands : Stands boxes_of_two ports_of_two
ports_of_two-Stands =
    one_client _ _ _ _
      (record { input = zeroed-HoldsBatches; output = zeroed-HoldsWords; fit = tt })
      (one_client _ _ _ _
        (record {
          input = asking-HoldsBatches;
          output = zeroed-HoldsWords;
          fit = (((omega arith, λ e. omega arith), (omega arith, tt)), ((omega arith, tt), tt));
        })
        no_clients)

serve_clients-Agrees_example :
    Agrees
      (handle_clients one_cell ports_of_two empty_server)
      (serve_clients one_cell boxes_of_two (replicate 8 0) empty_server)
serve_clients-Agrees_example =
    serve_clients-Agrees one_cell boxes_of_two ports_of_two (replicate 8 0) empty_server
      ports_of_two-Stands (omega arith, (omega arith, tt)) refl

abbrev result_of : Run (List Port × State) → List Port × State
result_of (fault stop) = ([], empty_server)
result_of (ok r) = r

abbrev last_result : List Port × State
last_result = result_of (handle_clients one_cell ports_of_two empty_server)

rounds_code : Unit {0}
unfolding fresh_partition hash_size max_ten hash_lookup hash_insert rounded_size elem_bytes remove
    last walk move_to_front touch hash_remove try_alloc victim pick_random make_room drop_old link
    mp_release is_value_ready encode hit serve_lookup serve_insert serve_release
rounds_code = tt

handled : handle_clients one_cell ports_of_two empty_server ≡ ok (last_result.0, last_result.1)
unfolding rounds_code
handled = refl

-- The lookup of the second batch is not answered.
one_batch_left : waiting_batches last_result.0 ≡ [] ∷ (third_request ∷ []) ∷ []
unfolding rounds_code
one_batch_left = refl

server_loop_quits_example :
    Returns
      (server_loop one_cell ((λ bs. bs, 1) ∷ []) boxes_of_two (replicate 8 0) empty_server)
      (λ (bs', s'').
        Stands bs' last_result.0
        × (waiting_batches last_result.0 ≡ all_but_oldest (waiting_batches ports_of_two))
        × (s'' ≡ last_result.1))
server_loop_quits_example =
    server_loop_quits one_cell (λ bs. bs) 1 [] boxes_of_two ports_of_two last_result.0
      (replicate 8 0) empty_server last_result.1 (λ e. omega arith) ports_of_two-Stands
      (omega arith, (omega arith, tt)) refl handled
