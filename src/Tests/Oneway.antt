-- ===== src/Tests/Oneway.antt =====
-- The one-way buffer of onewaybuffer.c.
use smphash_table.Base.{refl, true, false, [], ◌∷◌, arith, replicate, set, Returns}
use smphash_table.Oneway.{OnewayBuffer, buffer_write, buffer_write_all, buffer_read_all}
use smphash_table.Oneway.Refine.{Holds, Wrote, buffer_write_refines, buffer_write_all_refines}
use smphash_table.Oneway.Reading.{Took, at_most, buffer_read_all_refines}

-- Three words behind index 14, two of them published.
abbrev three_words : OnewayBuffer
three_words = record {
  data_words = set (set (set (replicate 16 0) 14 1) 15 2) 0 3;
  rd_index = 14;
  wr_index = 16;
  tmp_wr_index = 17;
}

three-Holds : Holds three_words (1 ∷ 2 ∷ 3 ∷ []) 2
three-Holds = record {
  size = refl;
  fits = omega arith;
  seen_in = omega arith;
  low = omega arith;
  wr_at = refl;
  tmp_at = refl;
  words = refl;
}

buffer_write_all_refines_example :
    Returns
      (buffer_write_all three_words (4 ∷ 5 ∷ []) true)
      (Wrote three_words (1 ∷ 2 ∷ 3 ∷ []) 2 (4 ∷ 5 ∷ []) true)
buffer_write_all_refines_example =
    buffer_write_all_refines (4 ∷ 5 ∷ []) true three-Holds (omega arith) (omega arith)

buffer_write_refines_example :
    Wrote three_words (1 ∷ 2 ∷ 3 ∷ []) 2 (4 ∷ []) false (buffer_write three_words 4)
buffer_write_refines_example = buffer_write_refines 4 three-Holds

buffer_read_all_refines_example :
    Took (1 ∷ 2 ∷ 3 ∷ []) 2 (at_most 8 2) (buffer_read_all three_words 8)
buffer_read_all_refines_example = buffer_read_all_refines 8 three-Holds (omega arith)
