-- ===== src/Server/Rounds/Quit.antt =====
-- The end of a server: the round in which it reads that the table quits is its last.
use smphash_table.Base.{
  ℕ, ◌≡◌, ◌≢◌, refl, sym, ap, subst, ◌∙◌, List, [], ◌∷◌, length, drop, ne→==, ok, Returns, bind_ok,
  ok-injective,
}
use smphash_table.Message.{Request}
use smphash_table.Partition.{Allocator}
use smphash_table.Table.{Box}
use smphash_table.Server.{State}
use smphash_table.Server.Batch.{handle_all}
use smphash_table.Server.Rounds.{serve_clients, server_loop}
use smphash_table.Server.Rounds.Refine.{
  Port, Stands, AllShort, Agrees, handle_client, handle_clients, serve_clients-Agrees,
}

-- The batches that wait for the server, client by client.
abbrev pub waiting_batches : List Port → List (List (List Request))
waiting_batches [] = []
waiting_batches (v ∷ vs) = v.requests ∷ waiting_batches vs

abbrev pub all_but_oldest : List (List (List Request)) → List (List (List Request))
all_but_oldest [] = []
all_but_oldest (batches ∷ others) = drop 1 batches ∷ all_but_oldest others

client_left :
    (alloc : Allocator) (requests : List (List Request)) (answers : List ℕ) (s s₁ : State)
    (v : Port)
    → handle_client alloc (record { requests = requests; answers = answers }) s ≡ ok (v, s₁)
    → v.requests ≡ drop 1 requests
client_left alloc [] answers s s₁ v run = ap (λ r. r.0.requests) (sym (ok-injective run))
client_left alloc (rs ∷ batches) answers s s₁ v run =
    let ((out, s'), handled, rest) = bind_ok (handle_all alloc rs [] s) _ run in
    ap (λ r. r.0.requests) (sym (ok-injective rest))

clients_left :
    (alloc : Allocator) (vs vs' : List Port) (s s' : State)
    → handle_clients alloc vs s ≡ ok (vs', s')
    → waiting_batches vs' ≡ all_but_oldest (waiting_batches vs)
clients_left alloc [] vs' s s' run = ap (λ r. waiting_batches r.0) (sym (ok-injective run))
clients_left alloc (v ∷ vs) vs' s s' run =
    let ((v₁, s₁), one, rest) = bind_ok (handle_client alloc v s) _ run in
    let ((vs₁, s₂), others, all) = bind_ok (handle_clients alloc vs s₁) _ rest in
    ap (λ r. waiting_batches r.0) (sym (ok-injective all))
    ∙ ap (λ l. l ∷ waiting_batches vs₁) (client_left alloc v.requests v.answers s s₁ v₁ one)
    ∙ ap (λ l. drop 1 v.requests ∷ l) (clients_left alloc vs vs₁ s₁ s₂ others)

last_round :
    (alloc : Allocator) (work : List Box → List Box) (quitting : ℕ)
    (later : List ((List Box → List Box) × ℕ)) (bs bs' : List Box) (buf buf' : List ℕ)
    (s s' : State)
    → quitting ≢ 0
    → serve_clients alloc (work bs) buf s ≡ ok (bs', buf', s')
    → server_loop alloc ((work, quitting) ∷ later) bs buf s ≡ ok (bs', s')
unfolding server_loop
last_round alloc work quitting later bs bs' buf buf' s s' quits run =
    rw (run, ne→== quitting 0 quits) refl

-- When the server reads that the table quits, and the requests of the oldest batches do not fault, it
-- ends after one more round: each client gets the answers to its oldest batch only, and all other
-- batches are left in the boxes.
pub server_loop_quits :
    (alloc : Allocator) (work : List Box → List Box) (quitting : ℕ)
    (later : List ((List Box → List Box) × ℕ)) (bs : List Box) (vs vs' : List Port) (buf : List ℕ)
    (s s' : State)
    → quitting ≢ 0
    → Stands (work bs) vs
    → AllShort vs
    → length buf ≡ 8
    → handle_clients alloc vs s ≡ ok (vs', s')
    → Returns (server_loop alloc ((work, quitting) ∷ later) bs buf s) (λ (bs', s'').
      Stands bs' vs' × (waiting_batches vs' ≡ all_but_oldest (waiting_batches vs)) × (s'' ≡ s'))
server_loop_quits alloc work quitting later bs vs vs' buf s s' quits stands short wide handled =
    let ((bs', buf', s''), run, (left, wide', same)) : Agrees (ok (vs', s'))
        (serve_clients alloc (work bs) buf s) =
      subst (λ r. Agrees r (serve_clients alloc (work bs) buf s)) handled
        (serve_clients-Agrees alloc (work bs) vs buf s stands short wide) in
    (
      (bs', s''),
      last_round alloc work quitting later bs bs' buf buf' s s'' quits run,
      (left, clients_left alloc vs vs' s s' handled, same),
    )
