-- ===== src/Channel/Calls.antt =====
-- The calls of the boxes on one lane, from call to return.
use smphash_table.Base.{
  ℕ, suc, ◌+◌, ◌≤◌, ◌<◌, ◌≡◌, ◌⊎◌, refl, sym, ap, subst, ◌∙◌, List, [], ◌∷◌, ◌++◌, append_assoc,
  concat, length, length-append, length-take, drop, arith, ok, Returns, inl, inr, le→leb, lt→ltb,
  le→ltb, dec_lt,
}
use smphash_table.Message.{Request, encode, Fits, encode-NonZero}
use smphash_table.Partition.{Allocator}
use smphash_table.Inbuf.{inpb_size, inpb_count, inpb_write, published, spun, appended}
use smphash_table.Inbuf.Refine.{unpublished}
use smphash_table.Inbuf.Writes.{appended-HoldsBatches, inpb_flush_cases}
use smphash_table.Server.{State}
use smphash_table.Server.Batch.{handle}
use smphash_table.Client.Ports.{Asks}
use smphash_table.Channel.{Lane, with_input, decode, recorded, flush_lane, write_lane}
use smphash_table.Channel.Handled.{Handles, Handles-append}
use smphash_table.Channel.Rounds.{Sound, serve_lane-Served}
use smphash_table.Channel.Lanes.{
  decode-encode, length-encode_batches, encode_all-append, AllFit-append, length-encode, spun-Sound,
  published-Sound,
}

pub length-rest :
    {A : Type 0} (xs : List A)
    → (length (drop 1 xs) ≤ length xs) × (0 < length xs → length (drop 1 xs) < length xs)
length-rest [] = (omega arith, λ h. absurd (omega arith))
length-rest (x ∷ xs) = (omega arith, λ h. omega arith)

module _ (alloc : Allocator) where
  -- A flush keeps the account, and the server sees all requests.
  pub record Flushes (l l' : Lane) : Type 0 where
    pub sound : Sound alloc l'
    pub same_owed : l'.owed ≡ l.owed
    pub same_final : l'.final ≡ l.final
    pub all_seen : unpublished l'.box.in_buffer ≡ []

  -- With a free line.
  flush_now :
      (tests : ℕ) {l : Lane} (s : Sound alloc l)
      → length s.batches < inpb_count
      → Returns (flush_lane alloc (suc tests) l) (Flushes l)
  unfolding flush_lane
  flush_now tests {l} s room = elim (inpb_flush_cases s.stands.input) [
    | inl (nothing, run) ↦ (
      l,
      rw (flush_lane, run, run) refl,
      record { sound = s; same_owed = refl; same_final = refl; all_seen = nothing },
    )
    | inr (inl (run, holds)) ↦ (
      with_input l (published l.box.in_buffer),
      rw (flush_lane, run, run) refl,
      record {
        sound = published-Sound s holds;
        same_owed = refl;
        same_final = refl;
        all_seen = refl;
      },
    )
    | inr (inr (full, run)) ↦ absurd (omega (arith, full, length-encode_batches s.batches, room))
  ]

  pub flush_lane-Flushes : {l : Lane} → Sound alloc l → Returns (flush_lane alloc 2 l) (Flushes l)
  unfolding flush_lane
  flush_lane-Flushes {l} s = elim (dec_lt (length s.batches) inpb_count) [
    | yes room ↦ flush_now 1 s room
    | no many ↦ elim (inpb_flush_cases s.stands.input) [
      | inl (nothing, run) ↦ (
        l,
        rw (flush_lane, run, run) refl,
        record { sound = s; same_owed = refl; same_final = refl; all_seen = nothing },
      )
      | inr (inl (run, holds)) ↦ (
        with_input l (published l.box.in_buffer),
        rw (flush_lane, run, run) refl,
        record {
          sound = published-Sound s holds;
          same_owed = refl;
          same_final = refl;
          all_seen = refl;
        },
      )
      | inr (inr (full, run)) ↦
          let s₁ = spun-Sound s in
          let (l₂, served, v) = serve_lane-Served alloc (with_input l (spun l.box.in_buffer)) s₁ in
          let (l₃, run', f) = flush_now 0 v.sound (
            omega (
              arith,
              full,
              length-encode_batches s.batches,
              ap length v.rest,
              (length-rest s.batches).1 (omega (arith, full, length-encode_batches s.batches)),
            )) in
          (
            l₃,
            rw (flush_lane, run, run, served) run',
            record {
              sound = f.sound;
              same_owed = f.same_owed ∙ v.same_owed;
              same_final = f.same_final ∙ v.same_final;
              all_seen = f.all_seen;
            },
          )
    ]
  ]

  -- A request that its server answers with `a` is written, and entered into the account.
  pub record Writes (l : Lane) (a : ℕ) (f : State) (l' : Lane) : Type 0 where
    pub sound : Sound alloc l'
    pub owed : l'.owed ≡ l.owed ++ a ∷ []
    pub final : l'.final ≡ f

  module _ (r : Request) (asks : Asks r) (fits : Fits r) where
    append_now :
        {l : Lane} (s : Sound alloc l) (a : ℕ) (f : State)
        → handle alloc r l.final ≡ ok (a ∷ [], f)
        → length l.owed < 56
        → l.box.in_buffer.local_index + length (encode r) ≤ inpb_size
        → Writes l a f
            (recorded alloc (encode r) (with_input l (appended l.box.in_buffer (encode r))))
    append_now {l} s a f can few room =
        let (holds, words) =
          appended-HoldsBatches (encode r) s.stands.input (encode-NonZero r fits) room in
        let known : handle alloc (decode (encode r)) l.final ≡ ok (a ∷ [], f) =
          ap (λ q. handle alloc q l.final) (decode-encode r asks fits) ∙ can in
        rw known (record {
          sound = record {
            batches = s.batches;
            pending = s.pending ++ r ∷ [];
            words = s.words;
            outs = s.outs ++ a ∷ [];
            stands = record { input = holds; output = s.stands.output; fit = s.stands.fit };
            opened = words ∙ ap (λ u. u ++ encode r) s.opened ∙ sym (encode_all-append s.pending r);
            fit = AllFit-append s.pending r s.fit fits;
            handled =
                subst (λ rs. Handles alloc rs l.state (s.outs ++ a ∷ []) f)
                  (append_assoc (concat s.batches) s.pending (r ∷ []))
                  (Handles-append alloc (concat s.batches ++ s.pending) r l.state s.outs l.final f
                    (a ∷ []) s.handled can);
            owed = ap (λ u. u ++ a ∷ []) s.owed ∙ append_assoc s.words s.outs (a ∷ []);
            few = omega (arith, length-append l.owed (a ∷ []), few);
            wide = s.wide;
          };
          owed = refl;
          final = refl;
        })

    pub open_count :
        {l : Lane}
        → Sound alloc l
        → length (unpublished l.box.in_buffer) ≡ l.box.in_buffer.local_index
    open_count {l} s =
        let v = s.stands.input in
        length-take l.box.in_buffer.local_index l.box.in_buffer.local_data
          (omega (arith, v.local_size, v.local_in))

    pub write_now :
        (tests : ℕ) {l : Lane} (s : Sound alloc l) (a : ℕ) (f : State)
        → handle alloc r l.final ≡ ok (a ∷ [], f)
        → length l.owed < 56
        → (l.box.in_buffer.local_index + length (encode r) ≤ inpb_size)
          ⊎ (length s.batches < inpb_count)
        → Returns (write_lane alloc (suc tests) (encode r) l) (Writes l a f)
    unfolding write_lane inpb_write
    write_now tests {l} s a f can few place =
        let b = l.box.in_buffer in
        let short = le→leb (length (encode r)) inpb_size (omega (arith, length-encode r)) in
        elim (dec_lt inpb_size (b.local_index + length (encode r))) [
          | no room ↦ (
            recorded alloc (encode r) (with_input l (appended b (encode r))),
            rw (short, le→ltb inpb_size (b.local_index + length (encode r)) (omega (arith, room)))
                refl,
            append_now s a f can few (omega (arith, room)),
          )
          | yes over ↦ elim (inpb_flush_cases s.stands.input) [
            | inl (nothing, run) ↦
                absurd (omega (arith, over, ap length nothing, open_count s, length-encode r))
            | inr (inl (run, holds)) ↦
                let s₁ = published-Sound s holds in
                let l₁ = with_input l (published b) in
                let w = append_now s₁ a f can few (omega (arith, length-encode r)) in
                (
                  recorded alloc (encode r) (with_input l₁ (appended (published b) (encode r))),
                  rw (short, lt→ltb inpb_size (b.local_index + length (encode r)) over, run) refl,
                  record { sound = w.sound; owed = w.owed; final = w.final },
                )
            | inr (inr (full, run)) ↦ elim place [
              | inl fits_in ↦ absurd (omega (arith, over, fits_in))
              | inr free ↦ absurd (omega (arith, full, length-encode_batches s.batches, free))
            ]
          ]
        ]
