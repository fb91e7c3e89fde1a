-- ===== src/Server/Rounds/Refine.antt =====
-- A round of the server against the requests of its clients, one client after another.
use smphash_table.Base.{
  ℕ, ◌+◌, ◌≤◌, ◌≡◌, ◌≢◌, refl, sym, ap, subst, false, List, [], ◌∷◌, ◌++◌, length, length-drop,
  drop, arith, ◌==◌, ne→==, Run, ok, fault, Returns, ◌>>=◌,
}
use smphash_table.Message.{Request}
use smphash_table.Partition.{Allocator}
use smphash_table.Inbuf.{InputBuffer, inpb_read, inpb_size}
use smphash_table.Inbuf.Refine.{HoldsBatches, line_at}
use smphash_table.Inbuf.Reads.{inpb_read_refines}
use smphash_table.Outbuf.{OutputBuffer, outb_write}
use smphash_table.Outbuf.Refine.{HoldsWords, outb_write_refines}
use smphash_table.Table.{Box}
use smphash_table.Server.{State, serve_batch}
use smphash_table.Server.Batch.{handle_all, encode_all, AllFit, sent, serve_batch_refines}
use smphash_table.Server.Rounds.{serve_client, serve_clients}
use smphash_table.Server.Rounds.Sizes.{Yields, Fitting, serve_batch_size, read_words_size}

-- What a box holds for the server: batches of requests, and answers that are not read.
pub record Port : Type 0 where
  pub requests : List (List Request)
  pub answers : List ℕ

abbrev pub encode_batches : List (List Request) → List (List ℕ)
encode_batches [] = []
encode_batches (rs ∷ batches) = encode_all rs ∷ encode_batches batches

abbrev pub AllBatchesFit : List (List Request) → Type 0
AllBatchesFit [] = Unit
AllBatchesFit (rs ∷ batches) = AllFit rs × AllBatchesFit batches

pub record At (b : Box) (v : Port) : Type 0 where
  pub input : HoldsBatches b.in_buffer (encode_batches v.requests)
  pub output : HoldsWords b.out_buffer v.answers
  pub fit : AllBatchesFit v.requests

pub data Stands : List Box → List Port → Type 0 where
  no_clients : Stands [] []
  one_client :
      (b : Box) (v : Port) (bs : List Box) (vs : List Port)
      → At b v
      → Stands bs vs
      → Stands (b ∷ bs) (v ∷ vs)

-- The oldest batch of a client, request by request.
abbrev pub handle_client : Allocator → Port → State → Run (Port × State)
handle_client alloc v s = elim v.requests [
  | [] ↦ ok (v, s)
  | rs ∷ batches ↦ do
    (out, s') ← handle_all alloc rs [] s
    ok (record { requests = batches; answers = v.answers ++ out }, s')
]

abbrev pub handle_clients : Allocator → List Port → State → Run (List Port × State)
handle_clients alloc [] s = ok ([], s)
handle_clients alloc (v ∷ vs) s = do
  (v', s₁) ← handle_client alloc v s
  (vs', s₂) ← handle_clients alloc vs s₁
  ok (v' ∷ vs', s₂)

-- At most 56 answers of each client wait, as smp_hash_lookup sees to.
abbrev pub AllShort : List Port → Type 0
AllShort [] = Unit
AllShort (v ∷ vs) = (length v.answers ≤ 56) × AllShort vs

-- One client, and the round, do what the requests do by themselves, faults included.
abbrev pub OneAgrees : Run (Port × State) → Run (Box × List ℕ × State) → Type 0
OneAgrees (fault stop) run = run ≡ fault stop
OneAgrees (ok (v, s)) run = Returns run (λ (b, buf, s'). At b v × (length buf ≡ 8) × (s' ≡ s))

abbrev pub Agrees : Run (List Port × State) → Run (List Box × List ℕ × State) → Type 0
Agrees (fault stop) run = run ≡ fault stop
Agrees (ok (vs, s)) run = Returns run (λ (bs, buf, s'). Stands bs vs × (length buf ≡ 8) × (s' ≡ s))

batch_size :
    {b : InputBuffer} {q : List ℕ} {qs : List (List ℕ)} → HoldsBatches b (q ∷ qs) → length q ≤ 8
batch_size {b} {q} v =
    let e = v.batches 0 (omega arith) in
    omega (arith, ap length e, read_words_size (line_at b 0) 0 inpb_size)

ne_empty : (xs : List ℕ) → xs ≢ [] → (length xs == 0) ≡ false
ne_empty [] h = absurd (h refl)
ne_empty (x ∷ xs) h = ne→== (length (x ∷ xs)) 0 (omega arith)

module _ (rest : InputBuffer) (out_buffer : OutputBuffer) (batches : List (List Request))
    (answers : List ℕ) where
  -- The answers of a batch, and what the server writes of them.
  written-OneAgrees :
      (m : Run (List ℕ × List ℕ × State))
      → Yields Fitting m
      → HoldsBatches rest (encode_batches batches)
      → HoldsWords out_buffer answers
      → AllBatchesFit batches
      → length answers ≤ 56
      → OneAgrees
          (sent m >>= λ (out, s'). ok (record { requests = batches; answers = answers ++ out }, s'))
          (m >>= λ (out, buf', s'). outb_write out_buffer out >>= λ written.
            ok (record { in_buffer = rest; out_buffer = written }, buf', s'))
  written-OneAgrees (fault stop) h input output fit short = refl
  written-OneAgrees (ok (out, buf', s')) (few, wide) input output fit short =
      let (written, run, holds) = outb_write_refines out output (omega arith) in
      (
        (record { in_buffer = rest; out_buffer = written }, buf', s'),
        rw run refl,
        (record { input = input; output = holds; fit = fit }, wide, refl),
      )

pub serve_client-OneAgrees :
    (alloc : Allocator) (b : Box) (requests : List (List Request)) (answers buf : List ℕ)
    (s : State)
    → At b (record { requests = requests; answers = answers })
    → length buf ≡ 8
    → length answers ≤ 56
    → OneAgrees
        (handle_client alloc (record { requests = requests; answers = answers }) s)
        (serve_client alloc b buf s)
unfolding serve_client
serve_client-OneAgrees alloc b [] answers buf s v wide short =
    let (none_read, same) = inpb_read_refines [] v.input in
    (
      (record b { in_buffer = (inpb_read b.in_buffer).1 }, buf, s),
      rw (serve_client, none_read) refl,
      (record { input = rw same v.input; output = v.output; fit = tt }, wide, refl),
    )
serve_client-OneAgrees alloc b (rs ∷ batches) answers buf s v wide short =
    let ws = encode_all rs in
    let (all_read, left, open_words) = inpb_read_refines (ws ∷ encode_batches batches) v.input in
    let few = batch_size v.input in
    let some_words = ne_empty ws (v.input.nonempty 0 (omega arith)) in
    let filled : length ws + length (drop (length ws) buf) ≡ 8 =
      omega (arith, length-drop (length ws) buf, few) in
    let m = serve_batch alloc ws (drop (length ws) buf) s in
    let same = serve_batch_refines alloc rs (drop (length ws) buf) s v.fit.0 filled in
    rw (serve_client, all_read, some_words, all_read, sym same)
      (written-OneAgrees (inpb_read b.in_buffer).1 b.out_buffer batches answers m
        (serve_batch_size alloc ws (drop (length ws) buf) s filled) left v.output v.fit.1 short)

-- On boxes that hold batches of requests and answers, at most 56 of them for each client, the server
-- takes the oldest batch of each client and does what its requests do one after another: the answers
-- go behind those of the same client, the state is the same, no assertion on the room for answers
-- fails, and a fault is the first fault of the requests.
pub serve_clients-Agrees :
    (alloc : Allocator) (bs : List Box) (vs : List Port) (buf : List ℕ) (s : State)
    → Stands bs vs
    → AllShort vs
    → length buf ≡ 8
    → Agrees (handle_clients alloc vs s) (serve_clients alloc bs buf s)
unfolding serve_clients
serve_clients-Agrees alloc _ _ buf s no_clients short wide =
    (([], buf, s), refl, (no_clients, wide, refl))
serve_clients-Agrees alloc _ _ buf s (one_client b v bs vs here others) short wide =
    first (handle_client alloc v s)
      (serve_client-OneAgrees alloc b v.requests v.answers buf s here wide short.0)
      (λ buf₁ s₁ wide₁. serve_clients-Agrees alloc bs vs buf₁ s₁ others short.1 wide₁)
  where
    second :
        (v' : Port) (b' : Box) (buf₁ : List ℕ) (s₁ : State)
        → At b' v'
        → (r : Run (List Port × State)) → Agrees r (serve_clients alloc bs buf₁ s₁)
        → Agrees
            (r >>= λ (vs', s₂). ok (v' ∷ vs', s₂))
            (serve_clients alloc bs buf₁ s₁ >>= λ (bs', buf₂, s₂). ok (b' ∷ bs', buf₂, s₂))
    second v' b' buf₁ s₁ there (fault stop) run = rw run refl
    second v' b' buf₁ s₁ there (ok (vs', s₂)) ((bs', buf₂, s₃), run, (stands, wide₂, same)) =
        ((b' ∷ bs', buf₂, s₃), rw run refl, (one_client b' v' bs' vs' there stands, wide₂, same))

    first :
        (r : Run (Port × State))
        → OneAgrees r (serve_client alloc b buf s)
        → ((buf₁ : List ℕ) (s₁ : State)
            → length buf₁ ≡ 8
            → Agrees (handle_clients alloc vs s₁) (serve_clients alloc bs buf₁ s₁))
        → Agrees
            (r >>= λ (v', s₁). handle_clients alloc vs s₁ >>= λ (vs', s₂). ok (v' ∷ vs', s₂))
            (serve_clients alloc (b ∷ bs) buf s)
    first (fault stop) run next = rw (serve_clients, run) refl
    first (ok (v', s₁)) ((b', buf₁, s'), run, (there, wide₁, same)) next =
        rw (serve_clients, run)
          (subst
            (λ t.
              Agrees (handle_clients alloc vs s₁ >>= λ (vs', s₂). ok (v' ∷ vs', s₂))
                (serve_clients alloc bs buf₁ t >>= λ (bs', buf₂, s₂). ok (b' ∷ bs', buf₂, s₂)))
            (sym same)
            (second v' b' buf₁ s₁ there (handle_clients alloc vs s₁) (next buf₁ s₁ wide₁)))
