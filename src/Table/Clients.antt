-- ===== src/Table/Clients.antt =====
-- A new client of a table.
use smphash_table.Base.{
  ℕ, ◌+◌, ◌≤◌, ◌<◌, ◌≡◌, refl, sym, [], ◌∷◌, ◌++◌, length, length-append, replicate, get_or,
  get_or-append_last, subst, arith, le→leb, lt→ltb, le→ltb, fault, dangling, Returns,
}
use smphash_table.Alock.{max_clients}
use smphash_table.Client.{Pending, new_pending, max_pending_size}
use smphash_table.Client.Owed.{Outstanding}
use smphash_table.Client.Refine.{new_pending-Outstanding}
use smphash_table.Partition.{Allocator}
use smphash_table.Server.{State}
use smphash_table.Channel.Serves.{channel_service, new_lane, new_lane-Sound}
use smphash_table.Table.{HashTable, Stale, zeroed_box, create_hash_table_client}

-- The arrays hold one entry for each client.
pub record Filed (t : HashTable) : Type 0 where
  pub pending : length t.pending_data ≡ t.nclients
  pub boxed : length t.boxes ≡ t.nclients
  pub bound : t.nclients ≤ max_clients

-- The client and the table behind its creation. Nothing is outstanding, whatever state the servers at
-- the other end of the zeroed boxes are in.
abbrev pub Created : HashTable → ℕ × HashTable → Type 0
Created t (client, t') =
    (client ≡ t.nclients)
    × Filed t'
    × ((spare : Pending) (alloc : Allocator) (states : ℕ → State)
        → Outstanding (channel_service alloc) t.nservers (get_or t'.pending_data client spare)
            (λ s. new_lane (states s)) [])
    × (get_or t'.boxes client [] ≡ replicate t.nservers zeroed_box)
    × (t'.partitions ≡ t.partitions)

-- In a table that keeps one entry per client: with fewer than 1024 clients a new client gets the next
-- number, boxes of zeros and nothing outstanding, whatever state the servers behind the boxes are in;
-- with 1024 the assertion passes too, and the code writes behind its arrays.
pub create_hash_table_client_refines :
    (stale : Stale) (t : HashTable)
    → Filed t
    → length stale.values ≡ max_pending_size
    → length stale.servers ≡ max_pending_size
    → (t.nclients < max_clients → Returns (create_hash_table_client stale t) (Created t))
      × (t.nclients ≡ max_clients → create_hash_table_client stale t ≡ fault dangling)
unfolding create_hash_table_client
create_hash_table_client_refines stale t v fits fits' =
    let test = le→leb t.nclients max_clients v.bound in
    let boxes = replicate t.nservers zeroed_box in
    let pending = new_pending stale.values stale.servers t.nservers in
    (
      λ room. (
        (
          t.nclients,
          record t {
            nclients = t.nclients + 1;
            boxes = t.boxes ++ boxes ∷ [];
            pending_data = t.pending_data ++ pending ∷ [];
          },
        ),
        rw (test, lt→ltb t.nclients max_clients room),
        (
          refl,
          record {
            pending = omega (arith, length-append t.pending_data (pending ∷ []), v.pending);
            boxed = omega (arith, length-append t.boxes (boxes ∷ []), v.boxed);
            bound = omega (arith, room);
          },
          λ spare alloc states.
              subst
                (λ pd.
                  Outstanding (channel_service alloc) t.nservers pd (λ s. new_lane (states s)) [])
                (sym (get_or-append_last t.pending_data pending t.nclients spare (sym v.pending)))
                (new_pending-Outstanding (channel_service alloc) t.nservers stale.values
                  stale.servers (λ s. new_lane (states s)) fits fits'
                  (λ s. new_lane-Sound alloc (states s)) (λ s. refl)),
          get_or-append_last t.boxes boxes t.nclients [] (sym v.boxed),
          refl,
        ),
      ),
      λ full. rw (test, le→ltb t.nclients max_clients (omega (arith, full))),
    )
