-- ===== src/Table.antt =====
-- smphashtable.c: the table as a whole, from its creation to its end, and its statistics.
pub mod Life
pub mod Destroyed
pub mod Clients
pub mod Stats
use smphash_table.Base.{
  ℕ, zero, suc, ◌+◌, ◌-◌, ◌*◌, ◌/◌, ◌%◌, ◌^◌, Bool, List, [], ◌∷◌, ◌++◌, length, get_or, replicate,
  leb, ltb, ◌==◌, if◌then◌else◌, Run, ok, fault, dangling, ◌>>=◌, ◌>>◌, assert,
}
use smphash_table.Memory.{Heap, Ptr, atomic_release}
use smphash_table.Partition.{Partition, init_hash_partition, destroy_hash_partition}
use smphash_table.Inbuf.{InputBuffer, zeroed_inpb}
use smphash_table.Outbuf.{OutputBuffer, zeroed_outb}
use smphash_table.Client.{Pending, new_pending}
use smphash_table.Alock.{max_clients}

-- `struct box`
pub record Box : Type 0 where
  pub in_buffer : InputBuffer
  pub out_buffer : OutputBuffer

-- `struct thread_args`, without the pointer to the table.
pub record ThreadArgs : Type 0 where
  pub id : ℕ
  pub core : ℕ

-- `struct hash_table`. The arrays of clients hold those created so far, of 1024 places each.
pub record HashTable : Type 0 where
  pub nservers : ℕ
  pub nclients : ℕ
  pub max_size : ℕ
  pub quitting : ℕ
  pub thread_data : List ThreadArgs
  pub partitions : List Partition
  pub pending_data : List Pending
  pub boxes : List (List Box)
  pub track_cpu_usage : ℕ

-- What fresh memory holds where the code does not set a field: `quitting`, `track_cpu_usage`, and
-- the two rings of a client.
pub record Stale : Type 0 where
  pub quitting : ℕ
  pub track_cpu_usage : ℕ
  pub values : List ℕ
  pub servers : List ℕ

-- The loop that sets up the partitions, with those left.
unfoldable pub init_partitions : ℕ → ℕ → ℕ → ℕ → Run (List Partition)
init_partitions zero share nservers evictalgo = ok []
init_partitions (suc left) share nservers evictalgo = do
  p ← init_hash_partition share nservers evictalgo
  ps ← init_partitions left share nservers evictalgo
  ok (p ∷ ps)

unfoldable pub create_hash_table : Stale → ℕ → ℕ → ℕ → Run HashTable
create_hash_table stale max_size nservers evictalgo = do
  ps ← init_partitions nservers (max_size / nservers) nservers evictalgo
  ok (record {
    nservers = nservers;
    nclients = 0;
    max_size = max_size;
    quitting = stale.quitting;
    thread_data = [];
    partitions = ps;
    pending_data = [];
    boxes = [];
    track_cpu_usage = stale.track_cpu_usage;
  })

-- The loop over the partitions, whose elements share one memory.
unfoldable pub destroy_partitions : Heap → List Partition → Run Heap
destroy_partitions h [] = ok h
destroy_partitions h (p ∷ ps) = do
  h' ← destroy_hash_partition atomic_release h p
  destroy_partitions h' ps

unfoldable pub destroy_hash_table : Heap → HashTable → Run Heap
destroy_hash_table h t = destroy_partitions h t.partitions

-- The threads from `i` on, which get the cores from `first_core` on.
unfoldable pub server_args : ℕ → ℕ → ℕ → List ThreadArgs
server_args first_core zero i = []
server_args first_core (suc left) i =
    record { id = i; core = (first_core + i) % 2 ^ 32 } ∷ server_args first_core left (suc i)

-- `pthread_create` is a parameter: its result for each thread.
unfoldable pub create_threads : (ThreadArgs → ℕ) → List ThreadArgs → Run (Unit {0})
create_threads pthread_create [] = ok tt
create_threads pthread_create (a ∷ threads) = do
  assert (pthread_create a == 0)
  create_threads pthread_create threads

unfoldable pub start_hash_table_servers : (ThreadArgs → ℕ) → HashTable → ℕ → Run HashTable
start_hash_table_servers pthread_create t first_core =
    let threads = server_args first_core t.nservers 0 in
    do create_threads pthread_create threads; ok (record t { quitting = 0; thread_data = threads })

abbrev pub zeroed_box : Box
zeroed_box = record { in_buffer = zeroed_inpb; out_buffer = zeroed_outb }

-- The client is the place in the arrays, which have 1024 of them.
unfoldable pub create_hash_table_client : Stale → HashTable → Run (ℕ × HashTable)
create_hash_table_client stale t =
    let client = t.nclients in
    do
      assert (leb t.nclients max_clients)
      (if ltb client max_clients
          then ok (
            client,
            record t {
              nclients = t.nclients + 1;
              boxes = t.boxes ++ replicate t.nservers zeroed_box ∷ [];
              pending_data =
                  t.pending_data ++ new_pending stale.values stale.servers t.nservers ∷ [];
            },
          )
          else fault dangling)

abbrev pub reset_counters : Partition → Partition
reset_counters p = record p { nhits = 0; nlookups = 0; ninserts = 0 }

unfoldable pub reset_all : List Partition → List Partition
reset_all [] = []
reset_all (p ∷ ps) = reset_counters p ∷ reset_all ps

unfoldable pub stats_reset : HashTable → HashTable
stats_reset t = record t { partitions = reset_all t.partitions }

-- The loops that add up one field of the partitions, in an int or in a word of 64 bits.
unfoldable pub sum_from : ℕ → (Partition → ℕ) → ℕ → List Partition → ℕ
sum_from width field n [] = n
sum_from width field n (p ∷ ps) = sum_from width field ((n + field p) % 2 ^ width) ps

unfoldable pub stats_get_nhits : HashTable → ℕ
stats_get_nhits t = sum_from 32 (λ p. p.nhits) 0 t.partitions

unfoldable pub stats_get_nlookups : HashTable → ℕ
stats_get_nlookups t = sum_from 32 (λ p. p.nlookups) 0 t.partitions

unfoldable pub stats_get_ninserts : HashTable → ℕ
stats_get_ninserts t = sum_from 32 (λ p. p.ninserts) 0 t.partitions

-- `used` and `total`.
unfoldable pub stats_get_mem : HashTable → ℕ × ℕ
stats_get_mem t =
    (sum_from 64 (λ p. p.size) 0 t.partitions, sum_from 64 (λ p. p.max_size) 0 t.partitions)

-- The two sums whose quotient stats_get_cpu_usage returns as a double.
unfoldable pub cpu_clocks : HashTable → ℕ × ℕ
cpu_clocks t =
    (sum_from 64 (λ p. p.busyclock) 0 t.partitions, sum_from 64 (λ p. p.idleclock) 0 t.partitions)

unfoldable pub stats_set_track_cpu_usage : HashTable → ℕ → HashTable
stats_set_track_cpu_usage t track_cpu_usage = record t { track_cpu_usage = track_cpu_usage }

-- `nelems` of stats_get_buckets: the first loop over the chains.
unfoldable pub count_elems : ℕ → List (List Ptr) → ℕ
count_elems n [] = n
count_elems n (c ∷ cs) = count_elems ((n + length c) % 2 ^ 32) cs
