-- ===== src/Tests/Sockets.antt =====
-- The client threads of hashserver2.c.
use smphash_table.Base.{
  ℕ, ◌+◌, ◌≡◌, refl, inr, Option, none, some, List, [], ◌∷◌, ◌++◌, replicate, arith, Run, ok, fault,
  out_of_fuel, Returns, zero, suc,
}
use smphash_table.Protocol.{HashQuery, le_bytes, query_bytes}
use smphash_table.HashServer.Sockets.{ClientData, open_socket, accept_socket}
use smphash_table.HashServer.Sockets.Slots.{Consistent, Opened, used, open_socket_refines}
use smphash_table.HashServer.Sockets.Accept.{Accepted, AllConsistent, accept_socket_refines}
use smphash_table.HashServer.Gather.{Gathering, inserted, gather_step, read_value}
use smphash_table.HashServer.Gather.Queries.{read_value_stuck}
use smphash_table.HashServer.Gather.Taken.{Round, gather_step_refines}
use smphash_table.HashServer.Results.{Handling, handle, load_bytes}
use smphash_table.HashServer.Results.Answers.{Stored, handle_answers}
use smphash_table.Tests.Wire.{fread_there, fread_there-Readable}

sockets_code : Unit {0}
unfolding used le_bytes query_bytes load_bytes
sockets_code = tt

-- fdopen never fails; a stream is the list of the bytes to come.
abbrev open_empty : ℕ → Option (List ℕ)
open_empty sock = some []

abbrev no_sockets : ClientData (List ℕ)
no_sockets = record { nsockets = 0; sockets = replicate 128 none; fin = λ k. none }

no_sockets-Consistent : Consistent no_sockets
unfolding sockets_code
no_sockets-Consistent = record { places = refl; counted = refl }

open_socket_refines_example :
    Returns (open_socket open_empty no_sockets 5) (Opened open_empty no_sockets 5)
open_socket_refines_example =
    open_socket_refines open_empty no_sockets 5 no_sockets-Consistent (omega arith)

abbrev two_threads : List (ClientData (List ℕ))
two_threads = no_sockets ∷ no_sockets ∷ []

two_threads-Consistent : AllConsistent open_empty no_sockets two_threads
two_threads-Consistent zero = no_sockets-Consistent
two_threads-Consistent (suc zero) = no_sockets-Consistent
two_threads-Consistent (suc (suc j)) = no_sockets-Consistent

accept_socket_refines_example :
    Returns
      (accept_socket open_empty no_sockets two_threads 5)
      (Accepted open_empty no_sockets two_threads 5)
accept_socket_refines_example =
    accept_socket_refines open_empty no_sockets two_threads 5 1 two_threads-Consistent (omega arith)
      (omega arith)

-- An insert of two bytes that comes on the socket 5, with one byte of the next query.
abbrev coming_bytes : List ℕ
coming_bytes = 1 ∷ 0 ∷ 0 ∷ 0 ∷ 2 ∷ 0 ∷ 0 ∷ 0 ∷ 44 ∷ 1 ∷ 0 ∷ 0 ∷ 0 ∷ 0 ∷ 0 ∷ 0 ∷ 8 ∷ 9 ∷ 1 ∷ []

abbrev one_open : Gathering (List ℕ)
one_open = record {
  entries = [];
  bufoffset = 0;
  valuebuf = λ k. 0;
  slot = 0;
  last_socket = 0;
  cd = record { nsockets = 1; sockets = some 5 ∷ replicate 127 none; fin = λ k. some coming_bytes };
}

abbrev an_insert : HashQuery
an_insert = record { optype = 1; size = 2; key = 300 }

gather_step_refines_example :
    Returns
      (gather_step fread_there 2000000 10 one_open)
      (Round fread_there-Readable 2000000 one_open an_insert (8 ∷ 9 ∷ []) (1 ∷ []) coming_bytes)
unfolding sockets_code
gather_step_refines_example =
    gather_step_refines fread_there-Readable 2000000 10 one_open an_insert (8 ∷ 9 ∷ []) (1 ∷ []) 5
      coming_bytes (omega arith, omega arith, inr (refl, refl, omega arith, omega arith))
      (omega arith) (omega arith) refl refl (omega arith) refl

read_value_stuck_example : read_value fread_there 10 3 0 (7 ∷ []) ≡ fault out_of_fuel
read_value_stuck_example = read_value_stuck fread_there-Readable 10 3 (7 ∷ [])

abbrev no_answers : Handling (List ℕ)
no_answers = record { mem = λ k. 0; writeiov = λ k. []; table = [] }

-- The query as it stands in the batch: its size counts the stored size too.
abbrev longer_insert : HashQuery
longer_insert = record an_insert { size = 6 }

abbrev log_ready : ℕ → (ℕ → ℕ) → List ℕ → Run (List ℕ)
log_ready ptr mem w = ok (w ++ ptr ∷ [])

handle_answers_example :
    Returns
      (handle 7 log_ready (λ k. k + 8) one_open.cd (inserted longer_insert 0) 100 no_answers)
      (Stored 7 log_ready (λ k. k + 8) one_open.cd 100 (8 ∷ 9 ∷ []) no_answers (100 ∷ []))
unfolding sockets_code
handle_answers_example =
    handle_answers 7 log_ready (λ k. k + 8) one_open.cd longer_insert 0 100 2 no_answers (100 ∷ [])
      refl (omega arith) (omega arith) (λ mem there. refl)
