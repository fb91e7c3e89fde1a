-- ===== src/Tests/Buffers.antt =====
-- The message buffers of mpbuffers.c.
use smphash_table.Base.{
  ℕ, zero, suc, get_or, ◌<◌, ◌≡◌, refl, true, [], ◌∷◌, arith, replicate, ok, Returns,
}
use smphash_table.Outbuf.{zeroed_outb, outb_write, outb_read, outb_blocking_read}
use smphash_table.Outbuf.Refine.{
  HoldsWords, zeroed-HoldsWords, Reads, Blocks, outb_write_refines, outb_read_refines,
  outb_blocking_read_refines,
}
use smphash_table.Inbuf.{
  InputBuffer, zeroed_inpb, inpb_write, inpb_flush, inpb_read, write_line, copy_words, fill_line,
  store_local, read_words, read_line,
}
use smphash_table.Inbuf.Refine.{HoldsBatches, line_at, zeroed-HoldsBatches}
use smphash_table.Inbuf.Reads.{ReadBatch, inpb_read_refines}
use smphash_table.Inbuf.Traffic.{Reach, start, later, write, flush, InOrder, Reach-InOrder}

outb_write_refines_example :
    Returns (outb_write zeroed_outb (7 ∷ 8 ∷ 9 ∷ [])) (λ b. HoldsWords b (7 ∷ 8 ∷ 9 ∷ []))
outb_write_refines_example = outb_write_refines (7 ∷ 8 ∷ 9 ∷ []) zeroed-HoldsWords (omega arith)

outb_read_refines_example : Reads (7 ∷ 8 ∷ 9 ∷ []) (outb_read outb_write_refines_example.0)
outb_read_refines_example = outb_read_refines outb_write_refines_example.2

-- The server writes nothing in the first round of the spin, and two words in the second.
outb_blocking_read_refines_example :
    Returns (outb_blocking_read ([] ∷ (5 ∷ 6 ∷ []) ∷ []) zeroed_outb) (Blocks 5 (6 ∷ []))
outb_blocking_read_refines_example =
    outb_blocking_read_refines ([] ∷ (5 ∷ 6 ∷ []) ∷ []) 5 (6 ∷ []) zeroed-HoldsWords refl
      (omega arith)

-- Everything that a run of the input buffer computes with.
inbuf_code : Unit {0}
unfolding copy_words fill_line write_line inpb_flush store_local inpb_write read_words read_line
    inpb_read
inbuf_code = tt

abbrev filled : InputBuffer
filled = record zeroed_inpb { local_data = 3 ∷ 4 ∷ replicate 6 0; local_index = 2 }

abbrev sent_line : InputBuffer
sent_line = record zeroed_inpb {
  lines = (3 ∷ 4 ∷ replicate 6 0) ∷ replicate 3 (replicate 8 0);
  local_data = 3 ∷ 4 ∷ replicate 6 0;
  data_wr = 1;
}

write_runs : inpb_write zeroed_inpb (3 ∷ 4 ∷ []) ≡ ok (true, filled)
unfolding inbuf_code
write_runs = refl

flush_runs : inpb_flush filled ≡ (true, sent_line)
unfolding inbuf_code
flush_runs = refl

read_runs : (inpb_read sent_line).0 ≡ 3 ∷ 4 ∷ []
unfolding inbuf_code
read_runs = refl

filled-HoldsBatches : HoldsBatches filled []
filled-HoldsBatches = record {
  size = refl;
  widths = zeroed-HoldsBatches.widths;
  rd_in = omega arith;
  count = omega arith;
  wr_at = refl;
  batches = zeroed-HoldsBatches.batches;
  nonempty = zeroed-HoldsBatches.nonempty;
  local_size = refl;
  local_in = omega arith;
  local_words = ((λ e. omega arith), ((λ e. omega arith), tt));
}

sent_line-batch :
    (k : ℕ) → k < 4 → read_words (line_at sent_line k) 0 8 ≡ get_or ((3 ∷ 4 ∷ []) ∷ []) k []
unfolding inbuf_code
sent_line-batch zero h = refl
sent_line-batch (suc zero) h = refl
sent_line-batch (suc (suc zero)) h = refl
sent_line-batch (suc (suc (suc zero))) h = refl
sent_line-batch (suc (suc (suc (suc k)))) h = absurd (omega arith)

sent_line-HoldsBatches : HoldsBatches sent_line ((3 ∷ 4 ∷ []) ∷ [])
sent_line-HoldsBatches = record {
  size = refl;
  widths = λ i h. ground arith;
  rd_in = omega arith;
  count = omega arith;
  wr_at = refl;
  batches = sent_line-batch;
  nonempty = λ k h e. ground arith;
  local_size = refl;
  local_in = omega arith;
  local_words = tt;
}

inpb_read_refines_example : ReadBatch sent_line ((3 ∷ 4 ∷ []) ∷ []) (inpb_read sent_line)
inpb_read_refines_example = inpb_read_refines ((3 ∷ 4 ∷ []) ∷ []) sent_line-HoldsBatches

written_once : Reach (record { buffer = filled; sent = 3 ∷ 4 ∷ []; received = [] })
written_once = later start (
    write (3 ∷ 4 ∷ []) {done = true} {b = filled} ((λ e. omega arith), ((λ e. omega arith), tt))
      (omega arith) write_runs)

Reach-InOrder_example :
    InOrder (record { buffer = (inpb_flush filled).1; sent = 3 ∷ 4 ∷ []; received = [] })
Reach-InOrder_example = Reach-InOrder (later written_once flush)
