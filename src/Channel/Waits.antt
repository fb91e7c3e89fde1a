-- ===== src/Channel/Waits.antt =====
-- A write and a read of a lane, from call to return.
use smphash_table.Base.{
  ℕ, zero, suc, ◌+◌, ◌<◌, ◌≡◌, ◌⊎◌, refl, sym, ap, subst, ◌∙◌, none, some, List, [], ◌∷◌, ◌++◌,
  concat, length, length-append, drop, arith, ok, Returns, inl, inr, get_or, le→leb, lt→ltb, dec_lt,
}
use smphash_table.Message.{Request, encode, Fits}
use smphash_table.Partition.{Allocator}
use smphash_table.Inbuf.{inpb_size, inpb_count, inpb_write, spun}
use smphash_table.Inbuf.Refine.{unpublished}
use smphash_table.Inbuf.Writes.{inpb_flush_cases}
use smphash_table.Outbuf.Refine.{polled, polled-HoldsWords, outb_read_cases}
use smphash_table.Server.{State}
use smphash_table.Server.Batch.{handle}
use smphash_table.Server.Rounds.Refine.{encode_batches}
use smphash_table.Client.Ports.{Asks}
use smphash_table.Channel.{
  Lane, with_input, with_output, read_lane, taken_out, write_lane, block_lane,
}
use smphash_table.Channel.Handled.{Handles}
use smphash_table.Channel.Rounds.{Sound, serve_lane-Served}
use smphash_table.Channel.Lanes.{
  none_pending, length-encode_batches, length-encode, spun-Sound, output-Sound, taken-Sound,
}
use smphash_table.Channel.Calls.{length-rest, Writes, write_now, open_count}

empty_or : {A : Type 0} (xs : List A) → (xs ≡ []) ⊎ (0 < length xs)
empty_or [] = inl refl
empty_or (x ∷ xs) = inr (omega arith)

empty_batches : (batches : List (List Request)) → length batches ≡ 0 → batches ≡ []
empty_batches [] h = refl
empty_batches (b ∷ batches) h = absurd (omega arith)

-- With no request on its way, the answers that are owed are those in the output buffer.
nothing_owed :
    {alloc : Allocator} {l : Lane} (s : Sound alloc l)
    → s.batches ≡ []
    → s.words ≡ []
    → unpublished l.box.in_buffer ≡ []
    → l.owed ≡ []
nothing_owed {alloc} {l} s no_batches no_words seen =
    let no_pending = none_pending s.pending (sym s.opened ∙ seen) in
    let (no_outs, same) : Handles alloc [] l.state s.outs l.final =
      subst (λ bs. Handles alloc (concat bs ++ []) l.state s.outs l.final) no_batches
        (subst (λ p. Handles alloc (concat s.batches ++ p) l.state s.outs l.final) no_pending
          s.handled) in
    s.owed ∙ ap (λ t. t ++ s.outs) no_words ∙ no_outs

module _ (alloc : Allocator) where
  pub write_lane-Writes :
      (r : Request)
      → Asks r
      → Fits r
      → {l : Lane} (s : Sound alloc l) (a : ℕ) (f : State) → handle alloc r l.final ≡ ok (a ∷ [], f)
      → length l.owed < 56
      → Returns (write_lane alloc 2 (encode r) l) (Writes alloc l a f)
  unfolding write_lane inpb_write
  write_lane-Writes r asks fits {l} s a f can few =
      let b = l.box.in_buffer in
      elim (dec_lt inpb_size (b.local_index + length (encode r))) [
        | no room ↦ write_now alloc r asks fits 1 s a f can few (inl (omega (arith, room)))
        | yes over ↦ elim (dec_lt (length s.batches) inpb_count) [
          | yes free ↦ write_now alloc r asks fits 1 s a f can few (inr free)
          | no many ↦ elim (inpb_flush_cases s.stands.input) [
            | inl (nothing, run) ↦ absurd (
                omega
                  (arith, over, ap length nothing, open_count alloc r asks fits s, length-encode r))
            | inr (inl (run, holds)) ↦ absurd (
                omega (
                  arith,
                  holds.count,
                  length-append (encode_batches s.batches) (unpublished b ∷ []),
                  length-encode_batches s.batches,
                  many,
                ))
            | inr (inr (full, run)) ↦
                let s₁ = spun-Sound s in
                let (l₂, served, v) = serve_lane-Served alloc (with_input l (spun b)) s₁ in
                let fewer : length v.sound.batches < inpb_count = omega (
                  arith,
                  full,
                  length-encode_batches s.batches,
                  ap length v.rest,
                  (length-rest s.batches).1 (omega (arith, full, length-encode_batches s.batches)),
                ) in
                let (l₃, run', w) =
                  write_now alloc r asks fits 0 v.sound a f (ap (handle alloc r) v.same_final ∙ can)
                    (omega (arith, ap length v.same_owed, few)) (inr fewer) in
                (
                  l₃,
                  rw
                      (
                        le→leb (length (encode r)) inpb_size (omega (arith, length-encode r)),
                        lt→ltb inpb_size (b.local_index + length (encode r)) over,
                        run,
                        served,
                      )
                      run',
                  record {
                    sound = w.sound;
                    owed = w.owed ∙ ap (λ o. o ++ a ∷ []) v.same_owed;
                    final = w.final;
                  },
                )
          ]
        ]
      ]

  -- The next answer is read, and the rest of the account stays.
  pub record Reading (l : Lane) (rest : List ℕ) (l' : Lane) : Type 0 where
    pub sound : Sound alloc l'
    pub owed : l'.owed ≡ rest
    pub same_final : l'.final ≡ l.final
    pub same_open : unpublished l'.box.in_buffer ≡ unpublished l.box.in_buffer

  pub block_lane-Reading :
      (tests : ℕ) {l : Lane} (s : Sound alloc l) (x : ℕ) (rest : List ℕ)
      → length s.batches < tests
      → unpublished l.box.in_buffer ≡ []
      → l.owed ≡ x ∷ rest
      → Returns (block_lane alloc tests l) (λ (y, l'). (y ≡ x) × Reading l rest l')
  unfolding block_lane
  block_lane-Reading zero s x rest enough seen e = absurd (omega (arith, enough))
  block_lane-Reading (suc tests) {l} s x rest enough seen e =
      elim (outb_read_cases s.stands.output) [
        | inr (y, c, t, run, full, holds) ↦
            let (same, s') = taken-Sound s c y t holds full in
            let both : y ∷ (t ++ s.outs) ≡ x ∷ rest = sym same ∙ e in
            (
              (y, taken_out (with_output l c) (some y)),
              rw (block_lane, run, run) refl,
              (
                ap (λ o. get_or o 0 0) both,
                record { sound = s'; owed = ap (drop 1) e; same_final = refl; same_open = refl },
              ),
            )
        | inl (c, run, empty, holds) ↦
            let s₁ = output-Sound s (polled c) [] (polled-HoldsWords holds) (sym empty) in
            let (l₂, served, v) = serve_lane-Served alloc (with_output l (polled c)) s₁ in
            elim (empty_or s.batches) [
              | inl none_left ↦
                  absurd (omega (arith, ap length (sym (nothing_owed s none_left empty seen) ∙ e)))
              | inr some_left ↦
                  let (r, run', (word, g)) =
                    block_lane-Reading tests v.sound x rest
                      (omega (arith, enough, ap length v.rest, (length-rest s.batches).1 some_left))
                      (v.open_words ∙ seen) (v.same_owed ∙ e) in
                  (
                    r,
                    rw (block_lane, run, run, served) run',
                    (
                      word,
                      record {
                        sound = g.sound;
                        owed = g.owed;
                        same_final = g.same_final ∙ v.same_final;
                        same_open = g.same_open ∙ v.open_words;
                      },
                    ),
                  )
            ]
      ]

  pub read_lane-Reading :
      {l : Lane}
      → Sound alloc l
      → ((l' : Lane) × (read_lane l ≡ (none, l')) × Reading l l.owed l')
        ⊎ ((x : ℕ) × (rest : List ℕ) × (l' : Lane) × (read_lane l ≡ (some x, l'))
            × (l.owed ≡ x ∷ rest)
            × Reading l rest l')
  read_lane-Reading {l} s = elim (outb_read_cases s.stands.output) [
    | inl (c, run, empty, holds) ↦ inl (
      with_output l c,
      ap (λ r. (r.0, taken_out (with_output l r.1) r.0)) run,
      record {
        sound = output-Sound s c [] holds (sym empty);
        owed = refl;
        same_final = refl;
        same_open = refl;
      },
    )
    | inr (y, c, t, run, full, holds) ↦
        let (same, s') = taken-Sound s c y t holds full in
        inr (
          y,
          t ++ s.outs,
          taken_out (with_output l c) (some y),
          ap (λ r. (r.0, taken_out (with_output l r.1) r.0)) run,
          same,
          record { sound = s'; owed = ap (drop 1) same; same_final = refl; same_open = refl },
        )
  ]
