-- ===== src/Tests/Requests.antt =====
-- Requests and the server of smphashtable.c.
use smphash_table.Base.{
  ℕ, ◌+◌, ◌≡◌, refl, none, some, List, [], ◌∷◌, arith, replicate, Run, ok, fault, ◌==◌, ◌↔◌, false,
  if◌then◌else◌, eq→==, ne→==, ℕ_discrete, Returns,
}
use smphash_table.Memory.{Ptr, Elem, mp_release, is_value_ready}
use smphash_table.Message.{Request, lookup, insert, release, encode, encode-NonZero}
use smphash_table.Inbuf.Lines.{NonZero}
use smphash_table.Partition.{
  fresh_partition, hash_size, max_ten, hash_lookup, hash_insert, rounded_size, elem_bytes, remove,
  last, walk, move_to_front, touch, hash_remove, try_alloc, victim, pick_random, make_room,
  drop_old, link,
}
use smphash_table.Server.{
  State, hit, serve_lookup, serve_insert, serve_release, dispatch, serve_loop, serve_batch,
}
use smphash_table.Server.Serving.{Serving, Answered, fresh_partition-Serving, serve_lookup_refines}
use smphash_table.Server.Releasing.{less, written, serve_release_refines}
use smphash_table.Server.Inserting.{Stored, serve_insert_refines}
use smphash_table.Partition.Init.{init-Linked}
use smphash_table.Partition.Lists.{occurs}
use smphash_table.Memory.Life.{Owns}
use smphash_table.Server.Batch.{sent, handle_all, encode_all, serve_batch_refines}
use smphash_table.Tests.Table.{no_memory, one_cell, one_cell-Succeeds, small_partition}

abbrev fresh_server : State
fresh_server = record { heap = no_memory; part = small_partition; clock = [] }

-- An insert, a lookup before the value is marked ready, the mark, and a lookup after it.
abbrev four_requests : List Request
four_requests = insert 5 10 ∷ lookup 5 ∷ release 100 ∷ lookup 5 ∷ []

server_code : Unit {0}
unfolding fresh_partition hash_size max_ten hash_lookup hash_insert rounded_size elem_bytes remove
    last walk move_to_front touch hash_remove try_alloc victim pick_random make_room drop_old link
    mp_release is_value_ready encode hit serve_lookup serve_insert serve_release dispatch serve_loop
    serve_batch
server_code = tt

abbrev reply_words : List ℕ
reply_words = 164 ∷ 0 ∷ 164 ∷ []

abbrev words_of : Run (List ℕ × State) → List ℕ
words_of (fault stop) = []
words_of (ok (vs, s)) = vs

served :
    words_of (sent (serve_batch one_cell (encode_all four_requests) (replicate 3 7) fresh_server))
    ≡ reply_words
unfolding server_code
served = refl

serve_batch_refines_example :
    sent (serve_batch one_cell (encode_all four_requests) (replicate 3 7) fresh_server)
    ≡ handle_all one_cell four_requests [] fresh_server
unfolding server_code
serve_batch_refines_example =
    serve_batch_refines one_cell four_requests (replicate 3 7) fresh_server
      ((omega arith, λ e. omega arith), (omega arith, (omega arith, (omega arith, tt)))) refl

encode-NonZero_example : NonZero (encode (insert 5 10))
encode-NonZero_example = encode-NonZero (insert 5 10) (omega arith, λ e. omega arith)

fresh-Serving : Serving fresh_server [] (λ q. 0) (λ q. false)
fresh-Serving = fresh_partition-Serving 1000 1 [] (omega arith) (omega arith)

serve_lookup_refines_example :
    Returns (serve_lookup 5 fresh_server) (Answered 5 fresh_server [] (λ q. 0) (λ q. false))
serve_lookup_refines_example = serve_lookup_refines 5 fresh-Serving (λ q. omega arith)

serve_insert_refines_example :
    Returns
      (serve_insert one_cell 5 10 fresh_server)
      (Stored 5 10 fresh_server [] (λ q. 0) (λ q. false))
unfolding server_code
serve_insert_refines_example =
    serve_insert_refines 5 10 fresh-Serving one_cell-Succeeds (omega arith)

-- An element that has left the table while one client holds it.
abbrev held_element : Elem
held_element = record { key = 5; ref_count = 1; size = 128 }

abbrev holding_server : State
holding_server = record {
  heap = λ q. if q == 100 then some held_element else none;
  part = small_partition;
  clock = [];
}

abbrev one_reference : Ptr → ℕ
one_reference q = if q == 100 then 1 else 0

holding-Owns : Owns holding_server.heap (λ q. occurs q []) one_reference (λ q. false)
unfolding occurs
holding-Owns = record {
  owned = λ q. elim (ℕ_discrete q 100) [
    | yes same ↦ rw (eq→== q 100 same) (record {
      count = refl;
      held = omega arith;
      word = omega arith;
      writer = λ t. absurd (cc);
      ready = λ i f. omega arith;
      unready = λ i t. absurd (omega arith);
    })
    | no other ↦ rw (ne→== q 100 other) (refl, refl, refl)
  ];
}

holding-Serving : Serving holding_server [] one_reference (λ q. false)
unfolding server_code
holding-Serving = record {
  linked = init-Linked holding_server.heap 1000 1 1 (omega arith);
  algo = refl;
  fits = omega arith;
  bound = omega arith;
  owns = holding-Owns;
}

serve_release_refines_example : Returns (serve_release 100 holding_server) (λ s'.
    Serving s' [] (less one_reference 100) (written (λ q. false) 100)
    × ((s'.heap 100 ≡ none) ↔ (occurs 100 [] + one_reference 100 ≡ 1)))
serve_release_refines_example = serve_release_refines 100 holding-Serving (omega arith)
