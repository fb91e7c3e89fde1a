-- ===== src/Channel/Rounds.antt =====
-- What a lane holds between two calls, and a round of its server.
use smphash_table.Base.{
  ℕ, zero, suc, ◌≤◌, ◌≡◌, refl, sym, ap, subst, ◌∙◌, List, [], ◌∷◌, ◌++◌, append_assoc, concat,
  length, length-append, drop, arith, ◌==◌, ok, Returns, ◌>>=◌, bind_ok, ok-injective, Bool-cases,
  inl, inr,
}
use smphash_table.Message.{Request}
use smphash_table.Partition.{Allocator}
use smphash_table.Inbuf.{InputBuffer, inpb_read}
use smphash_table.Inbuf.Refine.{unpublished}
use smphash_table.Inbuf.Reads.{ReadBatch, inpb_read_refines}
use smphash_table.Outbuf.{outb_write}
use smphash_table.Table.{Box}
use smphash_table.Server.{State, serve_batch}
use smphash_table.Server.Batch.{encode_all, AllFit}
use smphash_table.Server.Rounds.{serve_client}
use smphash_table.Server.Rounds.Refine.{
  Port, At, OneAgrees, encode_batches, handle_client, serve_client-OneAgrees,
}
use smphash_table.Channel.{Lane, serve_lane, serve_rounds}
use smphash_table.Channel.Handled.{Handles, Handles-handle_all, Handles-split}

-- The batches in the lines, the open requests, and the answers in the output buffer; the server can
-- handle all requests, and their answers come behind those that are written.
pub record Sound (alloc : Allocator) (l : Lane) : Type 0 where
  pub batches : List (List Request)
  pub pending : List Request
  pub words : List ℕ
  pub outs : List ℕ
  pub stands : At l.box (record { requests = batches; answers = words })
  pub opened : unpublished l.box.in_buffer ≡ encode_all pending
  pub fit : AllFit pending
  pub handled : Handles alloc (concat batches ++ pending) l.state outs l.final
  pub owed : l.owed ≡ words ++ outs
  pub few : length l.owed ≤ 56
  pub wide : length l.localbuf ≡ 8

-- The server takes the oldest batch of the input buffer and touches no open word.
serve_client_input :
    (alloc : Allocator) (b b' : Box) (buf buf' : List ℕ) (s s' : State)
    → serve_client alloc b buf s ≡ ok (b', buf', s')
    → b'.in_buffer ≡ (inpb_read b.in_buffer).1
unfolding serve_client
serve_client_input alloc b b' buf buf' s s' run =
    elim (Bool-cases (length (inpb_read b.in_buffer).0 == 0)) [
      | inl none_read ↦
          let run' = rw (serve_client, none_read) at run in
          ap (λ r. r.0.in_buffer) (sym (ok-injective run'))
      | inr some_read ↦
          let run' = rw (serve_client, some_read) at run in
          let ((out, buf₁, s₁), batch, rest) =
            bind_ok (serve_batch alloc (inpb_read b.in_buffer).0 _ s) _ run' in
          let (written, sent, end) = bind_ok (outb_write b.out_buffer out) _ rest in
          ap (λ r. r.0.in_buffer) (sym (ok-injective end))
    ]

read_keeps_open :
    (b : InputBuffer) (qs : List (List ℕ))
    → ReadBatch b qs (inpb_read b)
    → unpublished (inpb_read b).1 ≡ unpublished b
read_keeps_open b [] (none_read, same) = ap unpublished same
read_keeps_open b (q ∷ qs) (read, left, kept) = kept

-- What a round leaves: one batch less, and the account as it was.
pub record Served (alloc : Allocator) (l : Lane) (s : Sound alloc l) (l' : Lane) : Type 0 where
  pub sound : Sound alloc l'
  pub rest : sound.batches ≡ drop 1 s.batches
  pub open_words : unpublished l'.box.in_buffer ≡ unpublished l.box.in_buffer
  pub same_owed : l'.owed ≡ l.owed
  pub same_final : l'.final ≡ l.final

-- How the answers of the oldest batch are told apart from the later ones.
record Oldest (alloc : Allocator) (batches : List (List Request)) (pending : List Request)
    (words outs : List ℕ) (s f : State) (v : Port) (s' : State) : Type 0 where
  later : List ℕ
  run :
      handle_client alloc (record { requests = batches; answers = words }) s
      ≡ ok (record { requests = drop 1 batches; answers = v.answers }, s')
  handled : Handles alloc (concat (drop 1 batches) ++ pending) s' later f
  answers : v.answers ++ later ≡ words ++ outs

oldest :
    (alloc : Allocator) (batches : List (List Request)) (pending : List Request)
    (words outs : List ℕ) (s f : State)
    → Handles alloc (concat batches ++ pending) s outs f
    → (v : Port) × (s' : State) × Oldest alloc batches pending words outs s f v s'
oldest alloc [] pending words outs s f h = (
  record { requests = []; answers = words },
  s,
  record { later = outs; run = refl; handled = h; answers = refl },
)
oldest alloc (rs ∷ batches) pending words outs s f h =
    let (o₁, s', o₂, now, behind, e) =
      Handles-split alloc rs (concat batches ++ pending) s outs f
        (subst (λ l. Handles alloc l s outs f) (append_assoc rs (concat batches) pending) h) in
    (
      record { requests = batches; answers = words ++ o₁ },
      s',
      record {
        later = o₂;
        run =
            ap
              (λ m. m >>= λ (out, t). ok (record { requests = batches; answers = words ++ out }, t))
              (Handles-handle_all alloc rs [] s o₁ s' now);
        handled = behind;
        answers = append_assoc words o₁ o₂ ∙ ap (λ l. words ++ l) (sym e);
      },
    )

pub serve_lane-Served :
    (alloc : Allocator) (l : Lane) (s : Sound alloc l)
    → Returns (serve_lane alloc l) (Served alloc l s)
unfolding serve_lane
serve_lane-Served alloc l s =
    let (v, s', o) = oldest alloc s.batches s.pending s.words s.outs l.state l.final s.handled in
    let short : length s.words ≤ 56 =
      omega (arith, s.few, ap length s.owed, length-append s.words s.outs) in
    let ((b, buf, t), run, (there, wide, same)) : OneAgrees
        (ok (record { requests = drop 1 s.batches; answers = v.answers }, s'))
        (serve_client alloc l.box l.localbuf l.state) =
      subst (λ r. OneAgrees r (serve_client alloc l.box l.localbuf l.state)) o.run
        (serve_client-OneAgrees alloc l.box s.batches s.words l.localbuf l.state s.stands s.wide
          short) in
    let input = serve_client_input alloc l.box b l.localbuf buf l.state t run in
    let open_words =
      ap unpublished input
      ∙ read_keeps_open l.box.in_buffer (encode_batches s.batches)
          (inpb_read_refines (encode_batches s.batches) s.stands.input) in
    (
      record l { box = b; localbuf = buf; state = t },
      rw run refl,
      record {
        sound = record {
          batches = drop 1 s.batches;
          pending = s.pending;
          words = v.answers;
          outs = o.later;
          stands = there;
          opened = open_words ∙ s.opened;
          fit = s.fit;
          handled =
              subst (λ u. Handles alloc (concat (drop 1 s.batches) ++ s.pending) u o.later l.final)
                (sym same) o.handled;
          owed = s.owed ∙ sym o.answers;
          few = s.few;
          wide = wide;
        };
        rest = refl;
        open_words = open_words;
        same_owed = refl;
        same_final = refl;
      },
    )

-- Any number of rounds keeps the account, and the words that are still open.
pub record Rested (alloc : Allocator) (l l' : Lane) : Type 0 where
  pub sound : Sound alloc l'
  pub same_owed : l'.owed ≡ l.owed
  pub same_final : l'.final ≡ l.final
  pub same_open : unpublished l'.box.in_buffer ≡ unpublished l.box.in_buffer

pub serve_rounds-Rested :
    (alloc : Allocator) (n : ℕ) {l : Lane}
    → Sound alloc l
    → Returns (serve_rounds alloc n l) (Rested alloc l)
unfolding serve_rounds
serve_rounds-Rested alloc zero {l} s =
    (l, refl, record { sound = s; same_owed = refl; same_final = refl; same_open = refl })
serve_rounds-Rested alloc (suc n) {l} s =
    let (l₁, served, v) = serve_lane-Served alloc l s in
    let (l₂, run, k) = serve_rounds-Rested alloc n v.sound in
    (
      l₂,
      rw served run,
      record {
        sound = k.sound;
        same_owed = k.same_owed ∙ v.same_owed;
        same_final = k.same_final ∙ v.same_final;
        same_open = k.same_open ∙ v.open_words;
      },
    )
