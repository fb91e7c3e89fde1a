-- ===== src/Inbuf/Refine.antt =====
-- The input buffer refines a queue of at most four batches with an open batch behind it.
use smphash_table.Base.{
  ℕ, ◌+◌, ◌%◌, ◌≤◌, ◌<◌, ◌≡◌, ◌≢◌, refl, sym, ap, ◌∙◌, true, false, List, [], ◌∷◌, ◌++◌, length,
  length-append, length-set, set, get_or, get_or-set, get_or_beyond, get_or-append,
  get_or-append_last, take, concat, arith, bit_and_mask, ◌==◌, if◌then◌else◌, eq→==, ne→==,
  length-take, dec_lt, ℕ_discrete,
}
use smphash_table.Inbuf.{
  InputBuffer, inpb_size, inpb_count, zeroed_inpb, fill_line, write_line, published, read_words,
}
use smphash_table.Inbuf.Lines.{NonZero, length-fill_line, read-fill_line, first_word-free}

-- The line `k` places ahead of the reader.
abbrev pub line_at : InputBuffer → ℕ → List ℕ
line_at b k = get_or b.lines ((b.data_rd + k) % 4) []

abbrev pub unpublished : InputBuffer → List ℕ
unpublished b = take b.local_index b.local_data

-- The shared lines hold the batches `qs`, oldest first.
pub record HoldsBatches (b : InputBuffer) (qs : List (List ℕ)) : Type 0 where
  pub size : length b.lines ≡ inpb_count
  pub widths : (i : ℕ) → i < inpb_count → length (get_or b.lines i []) ≡ inpb_size
  pub rd_in : b.data_rd < inpb_count
  pub count : length qs ≤ inpb_count
  pub wr_at : b.data_wr ≡ (b.data_rd + length qs) % 4
  pub batches : (k : ℕ) → k < inpb_count → read_words (line_at b k) 0 inpb_size ≡ get_or qs k []
  pub nonempty : (k : ℕ) → k < length qs → get_or qs k [] ≢ []
  pub local_size : length b.local_data ≡ inpb_size
  pub local_in : b.local_index ≤ inpb_size
  pub local_words : NonZero (unpublished b)

-- All that was written and not yet read, in order.
abbrev pub stream : InputBuffer → List (List ℕ) → List ℕ
stream b qs = concat qs ++ unpublished b

read_free : (line : List ℕ) → get_or line 0 0 ≡ 0 → read_words line 0 inpb_size ≡ []
unfolding read_words
read_free line e = rw e

-- A fresh buffer is empty.
pub zeroed-HoldsBatches : HoldsBatches zeroed_inpb []
zeroed-HoldsBatches = record {
  size = refl;
  widths = λ i h. ground arith;
  rd_in = omega arith;
  count = omega arith;
  wr_at = refl;
  batches = λ k h. read_free (line_at zeroed_inpb k) (ground arith);
  nonempty = λ k h. absurd (omega arith);
  local_size = refl;
  local_in = omega arith;
  local_words = tt;
}

length-ne_zero {ℓ} : {A : Type ℓ} (xs : List A) → xs ≢ [] → length xs ≢ 0
length-ne_zero [] h e = h refl
length-ne_zero (x ∷ xs) h e = omega arith

get_or_past :
    (qs : List (List ℕ)) (u : List ℕ) (k : ℕ) → length qs < k → get_or (qs ++ u ∷ []) k [] ≡ []
get_or_past qs u k h = get_or_beyond (qs ++ u ∷ []) k [] (omega (arith, length-append qs (u ∷ [])))

module _ {b : InputBuffer} {qs : List (List ℕ)} (v : HoldsBatches b qs) where
  write_line-batch :
      (k : ℕ)
      → k < inpb_count
      → (b.data_rd + k) % 4 ≡ b.data_wr
      → read_words (write_line b) 0 inpb_size ≡ get_or qs k []
  unfolding write_line
  write_line-batch k h e =
      ap (λ i. read_words (get_or b.lines i []) 0 inpb_size) (sym e) ∙ v.batches k h

  -- The writer's line is free exactly while fewer than four batches wait.
  pub write_line_free : length qs < inpb_count → (get_or (write_line b) 0 0 == 0) ≡ true
  write_line_free h =
      let e =
        write_line-batch (length qs) h (sym v.wr_at)
        ∙ get_or_beyond qs (length qs) [] (omega arith) in
      first_word-free (write_line b) ∙ ap (λ t. length t == 0) e

  pub write_line_taken : length qs ≡ inpb_count → (get_or (write_line b) 0 0 == 0) ≡ false
  write_line_taken h =
      let e = write_line-batch 0 (omega arith) (omega (arith, v.wr_at, v.rd_in)) in
      first_word-free (write_line b)
      ∙ ap (λ t. length t == 0) e
      ∙ ne→== _ 0 (length-ne_zero (get_or qs 0 []) (v.nonempty 0 (omega arith)))

  module _ (room : length qs < inpb_count) (pos : 0 < b.local_index) where
    new_line : List ℕ
    new_line = fill_line (write_line b) b.local_data b.local_index

    wr_in : b.data_wr < length b.lines
    wr_in = omega (arith, v.wr_at, v.size)

    wr_width : length (write_line b) ≡ inpb_size
    unfolding write_line
    wr_width = v.widths b.data_wr (omega (arith, v.wr_at))

    new_batch : read_words new_line 0 inpb_size ≡ unpublished b
    unfolding new_line
    new_batch =
        read-fill_line (write_line b) b.local_data b.local_index wr_width pos v.local_in
          v.local_size v.local_words

    line_after :
        (i : ℕ)
        → get_or (set b.lines b.data_wr new_line) i []
          ≡ (if b.data_wr == i then new_line else get_or b.lines i [])
    line_after i = get_or-set b.lines b.data_wr i new_line [] wr_in

    new_batches :
        (k : ℕ)
        → k < inpb_count
        → read_words (get_or (set b.lines b.data_wr new_line) ((b.data_rd + k) % 4) []) 0 inpb_size
          ≡ get_or (qs ++ unpublished b ∷ []) k []
    new_batches k h = elim (dec_lt k (length qs)) [
      | yes p ↦
          rw
            (
              line_after ((b.data_rd + k) % 4),
              ne→== b.data_wr ((b.data_rd + k) % 4) (omega (arith, v.wr_at)),
            )
            (v.batches k h ∙ sym (get_or-append qs (unpublished b ∷ []) k [] p))
      | no p ↦ elim (ℕ_discrete k (length qs)) [
        | yes e ↦
            rw
              (
                line_after ((b.data_rd + k) % 4),
                eq→== b.data_wr ((b.data_rd + k) % 4) (omega (arith, v.wr_at)),
              )
              (new_batch ∙ sym (get_or-append_last qs (unpublished b) k [] e))
        | no n ↦
            rw
              (
                line_after ((b.data_rd + k) % 4),
                ne→== b.data_wr ((b.data_rd + k) % 4) (omega (arith, v.wr_at)),
              )
              (v.batches k h
                ∙ get_or_beyond qs k [] (omega arith)
                ∙ sym (get_or_past qs (unpublished b) k (omega arith)))
      ]
    ]

    new_nonempty : (k : ℕ) → k < length qs + 1 → get_or (qs ++ unpublished b ∷ []) k [] ≢ []
    new_nonempty k h z = elim (dec_lt k (length qs)) [
      | yes p ↦ v.nonempty k p (sym (get_or-append qs (unpublished b ∷ []) k [] p) ∙ z)
      | no p ↦
          let e = sym (get_or-append_last qs (unpublished b) k [] (omega arith)) ∙ z in
          omega (
            arith,
            ap length e,
            length-take b.local_index b.local_data (omega (arith, v.local_size, v.local_in)),
          )
    ]

    -- Publishing turns the open batch into the youngest batch.
    pub published-HoldsBatches : HoldsBatches (published b) (qs ++ unpublished b ∷ [])
    unfolding new_line
    published-HoldsBatches = record {
      size = length-set b.lines b.data_wr new_line ∙ v.size;
      widths = λ i h. rw (line_after i) (
          ground (
            arith,
            length-fill_line (write_line b) b.local_data b.local_index wr_width pos v.local_in,
            v.widths i h,
          ));
      rd_in = v.rd_in;
      count = omega (arith, length-append qs (unpublished b ∷ []));
      wr_at =
          bit_and_mask 2 (b.data_wr + 1)
          ∙ omega (arith, v.wr_at, length-append qs (unpublished b ∷ []));
      batches = new_batches;
      nonempty = λ k h. new_nonempty k (omega (arith, length-append qs (unpublished b ∷ [])));
      local_size = v.local_size;
      local_in = omega arith;
      local_words = tt;
    }
