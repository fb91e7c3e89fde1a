-- ===== src/Inbuf/Reads.antt =====
-- What a read takes from the input buffer.
use smphash_table.Base.{
  ℕ, suc, ◌+◌, ◌%◌, ◌<◌, ◌≡◌, refl, sym, ap, ◌∙◌, false, List, [], ◌∷◌, length, length-set, set,
  get_or, get_or-set, get_or_beyond, arith, bit_and, bit_and_mask, ◌==◌, if◌then◌else◌, eq→==,
  ne→==, dec_lt,
}
use smphash_table.Inbuf.{InputBuffer, inpb_size, inpb_count, read_words, read_line, inpb_read}
use smphash_table.Inbuf.Lines.{read_cleared}
use smphash_table.Inbuf.Refine.{unpublished, HoldsBatches}

abbrev taken : InputBuffer → InputBuffer
taken b = record b {
  lines = set b.lines b.data_rd (set (read_line b) 0 0);
  data_rd = bit_and (b.data_rd + 1) 3;
}

read_line-batch :
    {b : InputBuffer} {qs : List (List ℕ)}
    → HoldsBatches b qs
    → read_words (read_line b) 0 inpb_size ≡ get_or qs 0 []
unfolding read_line
read_line-batch {b} v =
    let here : b.data_rd ≡ (b.data_rd + 0) % 4 = omega (arith, v.rd_in) in
    ap (λ i. read_words (get_or b.lines i []) 0 inpb_size) here ∙ v.batches 0 (omega arith)

taken-HoldsBatches :
    {b : InputBuffer} {q : List ℕ} {qs : List (List ℕ)}
    → HoldsBatches b (q ∷ qs)
    → HoldsBatches (taken b) qs
unfolding read_line
taken-HoldsBatches {b} {q} {qs} v = record {
  size = length-set b.lines b.data_rd cleared ∙ v.size;
  widths = λ i h. rw (line_after i) (
      ground (
        arith,
        v.widths i h,
        length-set (get_or b.lines b.data_rd []) 0 0,
        v.widths b.data_rd v.rd_in,
      ));
  rd_in = omega (arith, step);
  count = omega (arith, v.count);
  wr_at = omega (arith, v.wr_at, step);
  batches = λ k h. rw (step, line_after (((b.data_rd + 1) % 4 + k) % 4)) (batch k h);
  nonempty = λ k h. v.nonempty (suc k) (omega arith);
  local_size = v.local_size;
  local_in = v.local_in;
  local_words = v.local_words;
}
  where
    cleared : List ℕ
    cleared = set (read_line b) 0 0

    step : bit_and (b.data_rd + 1) 3 ≡ (b.data_rd + 1) % 4
    step = bit_and_mask 2 (b.data_rd + 1)

    line_after :
        (i : ℕ)
        → get_or (set b.lines b.data_rd cleared) i []
          ≡ (if b.data_rd == i then cleared else get_or b.lines i [])
    line_after i = get_or-set b.lines b.data_rd i cleared [] (omega (arith, v.rd_in, v.size))

    batch :
        (k : ℕ)
        → k < inpb_count
        → read_words
            (if b.data_rd == (((b.data_rd + 1) % 4 + k) % 4)
              then cleared
              else get_or b.lines (((b.data_rd + 1) % 4 + k) % 4) [])
            0
            inpb_size
          ≡ get_or qs k []
    batch k h = elim (dec_lt k 3) [
      | yes p ↦
          let e : ((b.data_rd + 1) % 4 + k) % 4 ≡ (b.data_rd + suc k) % 4 = omega arith in
          rw (ne→== b.data_rd (((b.data_rd + 1) % 4 + k) % 4) (omega (arith, v.rd_in)), e)
            (v.batches (suc k) (omega arith))
      | no p ↦ rw (eq→== b.data_rd (((b.data_rd + 1) % 4 + k) % 4) (omega (arith, v.rd_in))) (
          read_cleared (read_line b) (omega (arith, v.widths b.data_rd v.rd_in))
          ∙ sym (get_or_beyond qs k [] (omega (arith, v.count))))
    ]

-- What a read returns and leaves, by the batches: the oldest one, or nothing where there is none.
abbrev pub ReadBatch : InputBuffer → List (List ℕ) → List ℕ × InputBuffer → Type 0
ReadBatch b [] r = (r.0 ≡ []) × (r.1 ≡ b)
ReadBatch b (q ∷ qs) r = (r.0 ≡ q) × HoldsBatches r.1 qs × (unpublished r.1 ≡ unpublished b)

-- A read takes the oldest published batch whole, frees its line, and leaves the others; with no
-- batch published it returns no word and changes nothing.
pub inpb_read_refines :
    {b : InputBuffer} (qs : List (List ℕ)) → HoldsBatches b qs → ReadBatch b qs (inpb_read b)
unfolding inpb_read
inpb_read_refines [] v = rw (read_line-batch v) (refl, refl)
inpb_read_refines ([] ∷ qs) v = absurd (v.nonempty 0 (omega arith) refl)
inpb_read_refines ((x ∷ q) ∷ qs) v =
    let e : (suc (length q) == 0) ≡ false = ground arith in
    rw (read_line-batch v) (rw e (refl, taken-HoldsBatches v, refl))
