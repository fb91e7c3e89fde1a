-- ===== src/Channel/Serves.antt =====
-- A client's boxes with the servers at their other end fill the interface that the client relies on.
use smphash_table.Base.{
  ℕ, ◌+◌, ◌<◌, ◌≡◌, ◌≢◌, inl, inr, refl, sym, ap, subst, ◌∙◌, List, [], ◌∷◌, ◌++◌, ◌≤◌, ◌^◌, Bool,
  replicate, arith, eq→==, ne→==, ok, fault, Run, ℕ_discrete, ◌>>=◌,
}
use smphash_table.Memory.{Ptr}
use smphash_table.Message.{lookup, insert}
use smphash_table.Partition.{Allocator, rounded_size}
use smphash_table.Partition.Evict.{Succeeds}
use smphash_table.Inbuf.Refine.{unpublished, zeroed-HoldsBatches}
use smphash_table.Outbuf.Refine.{zeroed-HoldsWords}
use smphash_table.Table.{zeroed_box}
use smphash_table.Server.{State}
use smphash_table.Server.Batch.{handle}
use smphash_table.Server.Serving.{Serving, serve_lookup_refines}
use smphash_table.Server.Inserting.{serve_insert_refines}
use smphash_table.Client.Ports.{Changed, Service, Serves}
use smphash_table.Channel.{serve_rounds, Lane, put_lane, channel_boxes}
use smphash_table.Channel.Rounds.{Sound, serve_rounds-Rested}
use smphash_table.Channel.Lanes.{length-encode_batches}
use smphash_table.Channel.Calls.{flush_lane-Flushes}
use smphash_table.Channel.Waits.{write_lane-Writes, block_lane-Reading, read_lane-Reading}

-- What a server makes of one request.
abbrev pub answered : State → Run (List ℕ × State) → ℕ × State
answered v (ok (a ∷ out, v')) = (a, v')
answered v (ok ([], v')) = (0, v')
answered v (fault stop) = (0, v)

-- A server answers a request when the handler of the request ends without a fault, with one word.
abbrev pub channel_service : Allocator → Service (ℕ → Lane) State
channel_service alloc = record {
  step = λ v r. answered v (handle alloc r v);
  can = λ v r. (a : ℕ) × (v' : State) × (handle alloc r v ≡ ok (a ∷ [], v'));
  view = λ w s. (w s).final;
  expects = λ w s. (w s).owed;
  flushed = λ w s. unpublished (w s).box.in_buffer ≡ [];
  good = λ w. (s : ℕ) → Sound alloc (w s);
}

-- A server in state `s` and a client that has sent nothing.
abbrev pub new_lane : State → Lane
new_lane s = record { box = zeroed_box; localbuf = replicate 8 0; state = s; owed = []; final = s }

pub new_lane-Sound : (alloc : Allocator) (s : State) → Sound alloc (new_lane s)
new_lane-Sound alloc s = record {
  batches = [];
  pending = [];
  words = [];
  outs = [];
  stands = record { input = zeroed-HoldsBatches; output = zeroed-HoldsWords; fit = tt };
  opened = refl;
  fit = tt;
  handled = (refl, refl);
  owed = refl;
  few = omega arith;
  wide = refl;
}

-- A property of the lanes holds once it holds of the new lane and held of the others.
put_lane_lift :
    (P : ℕ → Lane → Type 0) (w : ℕ → Lane) (s : ℕ) (l : Lane)
    → P s l
    → ((t : ℕ) → t ≢ s → P t (w t))
    → (t : ℕ) → P t (put_lane w s l t)
put_lane_lift P w s l here others t = elim (ℕ_discrete t s) [
  | yes same ↦ rw (eq→== t s same) (subst (λ u. P u l) (sym same) here)
  | no other ↦ rw (ne→== t s other) (others t other)
]

put_lane-here : (w : ℕ → Lane) (s : ℕ) (l : Lane) → put_lane w s l s ≡ l
put_lane-here w s l = rw (eq→== s s refl) refl

put_lane-elsewhere : (w : ℕ → Lane) (s : ℕ) (l : Lane) (t : ℕ) → t ≢ s → put_lane w s l t ≡ w t
put_lane-elsewhere w s l t other = rw (ne→== t s other) refl

module _ (alloc : Allocator) (w : ℕ → Lane) (good : (s : ℕ) → Sound alloc (w s)) (s : ℕ)
    (l : Lane) where
  put_lane-Sound : Sound alloc l → (t : ℕ) → Sound alloc (put_lane w s l t)
  put_lane-Sound sound = put_lane_lift (λ t l. Sound alloc l) w s l sound (λ t n. good t)

  put_lane_owed : {q : List ℕ} → l.owed ≡ q → Changed (λ w s. (w s).owed) w (put_lane w s l) s q
  put_lane_owed e = (
    ap (λ l. l.owed) (put_lane-here w s l) ∙ e,
    λ t n. ap (λ l. l.owed) (put_lane-elsewhere w s l t n),
  )

  put_lane_final : l.final ≡ (w s).final → (t : ℕ) → (put_lane w s l t).final ≡ (w t).final
  put_lane_final same = put_lane_lift (λ t l. l.final ≡ (w t).final) w s l same (λ t n. refl)

  put_lane_flushed :
      (unpublished (w s).box.in_buffer ≡ [] → unpublished l.box.in_buffer ≡ [])
      → (t : ℕ) → unpublished (w t).box.in_buffer ≡ []
      → unpublished (put_lane w s l t).box.in_buffer ≡ []
  put_lane_flushed same =
      put_lane_lift (λ t l. unpublished (w t).box.in_buffer ≡ [] → unpublished l.box.in_buffer ≡ [])
        w s l same (λ t n h. h)

-- The program's buffers, with its servers at the other end doing a round at each test of a wait that
-- fails and any number of rounds behind a write, a flush or a blocking read, fill the client's
-- interface. A lookup or insert of fitting words that the handler of the
-- server ends without a fault, while fewer than 56 answers of the server wait, is written; its answer
-- is the handler's, in the state behind all earlier requests, and stands behind the earlier ones.
-- Reads hand the answers out in order. A flush ends, and all requests stand where the server sees
-- them; after it a blocking read ends if an answer is owed. The other servers stay as they are.
pub channel-Serves :
    (alloc : Allocator) (rounds : Lane → ℕ)
    → Serves (channel_boxes alloc rounds) (channel_service alloc)
channel-Serves alloc rounds = record {
  writes = λ w s r good asks fits (a, f, can) few.
      let (l₁, run, c) = write_lane-Writes alloc r asks fits (good s) a f can few in
      let (l, run', k) = serve_rounds-Rested alloc (rounds l₁) c.sound in
      (
        put_lane w s l,
        ap (λ m. m >>= λ l. serve_rounds alloc (rounds l) l >>= λ l'. ok (put_lane w s l')) run
            ∙ ap (λ m. m >>= λ l. ok (put_lane w s l)) run',
        put_lane-Sound alloc w good s l k.sound,
        put_lane_owed alloc w good s l (
            k.same_owed
            ∙ c.owed
            ∙ ap (λ m. (w s).owed ++ (answered (w s).final m).0 ∷ []) (sym can)),
        ap (λ l. l.final) (put_lane-here w s l)
            ∙ k.same_final
            ∙ c.final
            ∙ ap (λ m. (answered (w s).final m).1) (sym can),
        λ t n. ap (λ l. l.final) (put_lane-elsewhere w s l t n),
      );
  reads = λ w s good. elim (read_lane-Reading alloc (good s)) [
    | inl (l, run, c) ↦ inl (
      put_lane w s l,
      ap (λ r. (r.0, put_lane w s r.1)) run,
      put_lane-Sound alloc w good s l c.sound,
      put_lane_lift (λ t l. l.owed ≡ (w t).owed) w s l c.owed (λ t n. refl),
      put_lane_final alloc w good s l c.same_final,
    )
    | inr (x, rest, l, run, e, c) ↦ inr (
      x,
      rest,
      put_lane w s l,
      ap (λ r. (r.0, put_lane w s r.1)) run,
      put_lane-Sound alloc w good s l c.sound,
      e,
      put_lane_owed alloc w good s l c.owed,
      put_lane_final alloc w good s l c.same_final,
    )
  ];
  flushes = λ w s good.
      let (l₁, run, c) = flush_lane-Flushes alloc (good s) in
      let (l, run', k) = serve_rounds-Rested alloc (rounds l₁) c.sound in
      (
        put_lane w s l,
        ap (λ m. m >>= λ l. serve_rounds alloc (rounds l) l >>= λ l'. ok (put_lane w s l')) run
            ∙ ap (λ m. m >>= λ l. ok (put_lane w s l)) run',
        put_lane-Sound alloc w good s l k.sound,
        put_lane_lift (λ t l. l.owed ≡ (w t).owed) w s l (k.same_owed ∙ c.same_owed) (λ t n. refl),
        put_lane_final alloc w good s l (k.same_final ∙ c.same_final),
        ap (λ l. unpublished l.box.in_buffer) (put_lane-here w s l) ∙ k.same_open ∙ c.all_seen,
        put_lane_flushed alloc w good s l (λ h. k.same_open ∙ c.all_seen),
      );
  blocks = λ w s x rest good seen e.
      let lane = good s in
      let ((y, l₁), run, (word, c)) =
        block_lane-Reading alloc 5 lane x rest
          (omega (arith, lane.stands.input.count, length-encode_batches lane.batches)) seen e in
      let (l, run', k) = serve_rounds-Rested alloc (rounds l₁) c.sound in
      (
        put_lane w s l,
        ap (λ m. m >>= λ (x, l). serve_rounds alloc (rounds l) l >>= λ l'. ok (x, put_lane w s l'))
              run
            ∙ ap (λ m. m >>= λ l. ok (y, put_lane w s l)) run'
            ∙ ap (λ y. ok (y, put_lane w s l)) word,
        put_lane-Sound alloc w good s l k.sound,
        put_lane_owed alloc w good s l (k.same_owed ∙ c.owed),
        put_lane_final alloc w good s l (k.same_final ∙ c.same_final),
        put_lane_flushed alloc w good s l (λ h. k.same_open ∙ c.same_open ∙ h),
      );
}

module _ {s : State} {es : List Ptr} {refs : Ptr → ℕ} {writing : Ptr → Bool}
    (z : Serving s es refs writing) (alloc : Allocator) where
  -- A server whose state is valid can answer every lookup.
  pub lookup_answerable :
      (key : ℕ) → ((q : Ptr) → refs q + 2 < 2 ^ 63) → (channel_service alloc).can s (lookup key)
  lookup_answerable key few =
      let ((v, s'), run, more) = serve_lookup_refines key z few in
      (v, s', ap (λ m. m >>= λ (v, s'). ok (v ∷ [], s')) run)

  -- An insert too, if its element fits in the partition.
  pub insert_answerable :
      (key size : ℕ)
      → Succeeds alloc s.heap
      → rounded_size size ≤ s.part.max_size
      → (channel_service alloc).can s (insert key size)
  insert_answerable key size mem small =
      let ((v, s'), run, more) = serve_insert_refines key size z mem small in
      (v, s', ap (λ m. m >>= λ (v, s'). ok (v ∷ [], s')) run)
