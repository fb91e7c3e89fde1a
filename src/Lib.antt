-- ===== src/Lib.antt =====
-- SMPHashTable: a hash table that is cut into partitions, one per server thread. Clients send their
-- requests through shared-memory buffers, and a server answers them in batches.
--
-- The parts and how they interact. A client writes request words (lookup, insert, release) into the
-- input buffer of the server that owns the key, and reads the answers from the output buffer behind
-- it (mpbuffers.c). The server (hash_table_server of smphashtable.c) takes a line of words at a
-- time, works on its partition (partition.c), and writes the answers back. Elements are counted:
-- the table and the clients hold them together, and the last release frees one. A new element is
-- not ready before the client that inserted it marks it so. A TCP server (hashserver2.c) is a
-- client of the table that reads queries from its sockets, passes them on in batches, and writes
-- the values back; the client of that server is hashclient.c.
--
--   Base       shared names, arrays as lists, masks, and results of code that may stop
--   Ring       a window of a ring of words
--   Outbuf     mpbuffers.c: outb_write, outb_read, outb_blocking_read. Outbuf/Refine: against a queue
--   Inbuf      mpbuffers.c: inpb_write, inpb_flush, inpb_read. Inbuf/Lines: one line; Inbuf/Refine:
--              against a queue of batches; Inbuf/Writes and Inbuf/Reads: the operations; Inbuf/Traffic:
--              all interleavings of writer and reader
--   Memory     struct elem of partition.h, is_value_ready, mp_release_value_, atomic_release_value_,
--              atomic_mark_ready of smphashtable.c. Memory/Counts: count words; Memory/Life: who
--              holds an element
--   Partition  partition.c. Partition/Linked: the representation invariant; Init, Lookup, Remove,
--              Evict, Link, Insert: the operations against it
--   Alock      alock.c: anderson_init, anderson_acquire, anderson_release as atomic steps.
--              Alock/Order: the threads in the order of their slots; Alock/Counter: the invariant
--              and the counter; Alock/Exclusion: who has the lock
--   Oneway     onewaybuffer.c, which the library does not use now: buffer_write,
--              buffer_write_all, buffer_flush, buffer_read_all. Oneway/Refine and
--              Oneway/Reading: against a bounded queue
--   Message    smphashtable.c: the words of a request
--   Server     smphashtable.c: the switch and the loop of hash_table_server. Server/Batch: a batch
--              against its requests; Server/Serving, Releasing, Inserting: the invariant of a server;
--              Server/Rounds: the rounds over the boxes of all clients, and their end
--   Client     smphashtable.c: read_next_pending_value, smp_hash_lookup, smp_hash_insert,
--              smp_try_get_next, smp_get_next, mp_release_value, mp_mark_ready, over an interface to
--              the boxes. Client/Ports: the laws of the interface; Client/Releases: releases;
--              Client/Holds: the ring; Client/Owed: the pending answers; Client/Refine: one queue of answers
--   Client/Doall  smphashtable.c: smp_hash_doall. Serves: servers as machines; Sent and Answered: the
--              two loops; Refine: the batch
--   Channel    mpbuffers.c and hash_table_server together: the boxes of one client with the servers at
--              their other end. Handled: requests without a fault; Rounds: a round of a server;
--              Lanes, Calls, Waits: the calls; Serves: the interface of the client
--   Table      smphashtable.c: create_hash_table, destroy_hash_table, create_hash_table_client,
--              start_hash_table_servers and the counters. Table/Stats: a table of partitions;
--              Life, Destroyed, Clients: the operations
--   Locking    smphashtable.c: locking_hash_lookup, locking_hash_insert, atomic_release_value,
--              atomic_mark_ready. Shares: who holds an element; Lookups, Inserts: under a lock;
--              Frees: without one
--   Protocol   hashprotocol.h. Protocol/Bytes: words and their bytes
--   HashClient  hashclient.c: sendquery, sendqueries, readvalue, over streams. Wire: the bytes
--   HashServer  hashserver2.c: read_object, write_object, write_iovs, over streams and sockets.
--              Objects, Iovs: these against the bytes and the values; Sockets: open_socket,
--              close_socket and the hand-out of tcpserver; Gather: the loop of clientgo that reads a
--              batch from the sockets; Results: what clientgo does with the values of the batch;
--              Doqueries: doqueries, release_value and mark_ready for the three designs
--   Tests      runs of the model, and the theorems at concrete inputs
--
-- State and operations. A struct is a record under its name. A TAILQ is the list of the addresses
-- in it, a chain of the table or the order of use; an element is found in memory, a function from
-- addresses that says none where nothing is allocated. A machine word is a natural number and its
-- wrap is written out. A call that may fail is a Run: a failed assertion, an access to freed
-- memory, an int that overflows, a wait that does not end, or its result. The two sides of an input
-- buffer interleave call by call; a call that waits for the other side is one test of the wait, and
-- comes again. What a thread does under the lock of a partition is one step; what it does by an
-- atomic instruction is one as well.
--
-- Bounds and fuel. Loops over lines have the eight words of a line as their rounds; the loop of
-- hash_insert gets one round more than there are elements, as each round drops one; the loop over a
-- batch gets a round per word; the rounds of a server are as many as readings of its flag are
-- given; a client that makes way for a request reads as many answers as are pending at most, and
-- smp_hash_doall no more than there are queries; open_socket comes back to its first place after
-- 128 rounds. A client that waits at its boxes tests twice in a flush or a write and five times in
-- a blocking read: a server does a round at each test that fails, a round frees a line, and there
-- are four. Behind a call it does as many rounds more as it is told. A loop over a stream or a
-- socket gets a round per byte and as many more as the stream or socket may be without news; that
-- this number is finite is a hypothesis.
--
-- Parameters, as code that is not in the repository: memalign (a function of the memory in use; the
-- theorems take from its documentation that it hands out memory not in use), what fresh memory
-- happens to hold, the readings of the clock that EVICT_RANDOM draws from, what a server writes
-- while a client waits in outb_blocking_read, fdopen, fread, fwrite, write and writev with the
-- states of streams and sockets, and pthread_create. The client's operations take the boxes, from
-- call to return of their functions, as an interface, which Channel fills with the program's own
-- buffers and servers. A server can answer a request if its handler ends without a fault. The parts
-- of the TCP server that write answers and handle values take release_value and mark_ready as
-- functions; the latter gets the memory as it stands.
--
-- Not modelled: stop_hash_table_servers, which waits for threads, and the doubles of the
-- statistics; of the TCP server its options, the start of its threads and the statistics it prints;
-- openconn and closeconn, which are calls of the system; benchmarks, test drivers and performance
-- counters, which only call the rest or the machine. Word-by-word interleavings within one flush or
-- read are not modelled either. Channel has one client for each server, and the client's interface
-- speaks of lookups and inserts, not of releases between them. The theorems on insertion speak of
-- EVICT_LRU.
pub mod Base
pub mod Ring
pub mod Outbuf
pub mod Inbuf
pub mod Memory
pub mod Partition
pub mod Alock
pub mod Oneway
pub mod Message
pub mod Server
pub mod Client
pub mod Channel
pub mod Table
pub mod Protocol
pub mod HashClient
pub mod HashServer
pub mod Locking
mod Tests
