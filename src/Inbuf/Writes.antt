-- ===== src/Inbuf/Writes.antt =====
-- What a flush and a write do to the words in the input buffer.
use smphash_table.Base.{
  ℕ, ◌+◌, ◌≤◌, ◌≡◌, ◌⊎◌, inl, inr, take, refl, sym, ap, ◌∙◌, Bool, true, false, ◌||◌, List, [], ◌∷◌,
  ◌++◌, append_assoc, append-nil, length, concat, concat-append, arith, Returns, ok, ltb, ◌==◌,
  if◌then◌else◌, le→leb, lt→ltb, le→ltb, eq→==, ne→==, dec_lt, ℕ_discrete,
}
use smphash_table.Inbuf.{
  InputBuffer, inpb_size, inpb_count, spun, published, inpb_flush, appended, inpb_write,
}
use smphash_table.Inbuf.Lines.{NonZero, NonZero-append, length-store_local, take-store_local}
use smphash_table.Inbuf.Refine.{
  unpublished, HoldsBatches, stream, write_line_free, write_line_taken, published-HoldsBatches,
}

pub spun-HoldsBatches :
    {b : InputBuffer} {qs : List (List ℕ)} → HoldsBatches b qs → HoldsBatches (spun b) qs
spun-HoldsBatches v = record {
  size = v.size;
  widths = v.widths;
  rd_in = v.rd_in;
  count = v.count;
  wr_at = v.wr_at;
  batches = v.batches;
  nonempty = v.nonempty;
  local_size = v.local_size;
  local_in = v.local_in;
  local_words = v.local_words;
}

-- What one test of a flush leaves. It ends at once unless four batches wait.
pub record Flushed (b : InputBuffer) (qs : List (List ℕ)) (r : Bool × InputBuffer) : Type 0 where
  pub after : List (List ℕ)
  pub holds : HoldsBatches r.1 after
  pub kept : stream r.1 after ≡ stream b qs
  pub ends : r.0 ≡ (b.local_index == 0 || ltb (length qs) inpb_count)
  pub open_after : r.1.local_index ≡ (if r.0 then 0 else b.local_index)

-- A flush loses no word and keeps the order, and waits exactly while the writer's line is taken.
pub inpb_flush-Flushed :
    {b : InputBuffer} {qs : List (List ℕ)} → HoldsBatches b qs → Flushed b qs (inpb_flush b)
unfolding inpb_flush
inpb_flush-Flushed {b} {qs} v = elim (ℕ_discrete b.local_index 0) [
  | yes e ↦ rw (eq→== b.local_index 0 e) record {
    after = qs;
    holds = v;
    kept = refl;
    ends = rw (eq→== b.local_index 0 e);
    open_after = e;
  }
  | no n ↦ elim (dec_lt (length qs) inpb_count) [
    | yes p ↦
        rw (ne→== b.local_index 0 n, write_line_free v p)
          record {
            after = qs ++ unpublished b ∷ [];
            holds = published-HoldsBatches v p (omega arith);
            kept =
                append-nil _
                ∙ concat-append qs (unpublished b ∷ [])
                ∙ ap (λ t. concat qs ++ t) (append-nil _);
            ends = rw (ne→== b.local_index 0 n, lt→ltb (length qs) inpb_count p);
            open_after = refl;
          }
    | no p ↦
        rw (ne→== b.local_index 0 n, write_line_taken v (omega (arith, v.count)))
          record {
            after = qs;
            holds = spun-HoldsBatches v;
            kept = refl;
            ends = rw (ne→== b.local_index 0 n, le→ltb (length qs) inpb_count (omega arith));
            open_after = refl;
          }
  ]
]

pub appended-HoldsBatches :
    {b : InputBuffer} {qs : List (List ℕ)} (ws : List ℕ)
    → HoldsBatches b qs
    → NonZero ws
    → b.local_index + length ws ≤ inpb_size
    → HoldsBatches (appended b ws) qs × (unpublished (appended b ws) ≡ unpublished b ++ ws)
appended-HoldsBatches {b} ws v words room =
    let e = take-store_local b.local_data b.local_index ws (omega (arith, v.local_size)) in
    (
      record {
        size = v.size;
        widths = v.widths;
        rd_in = v.rd_in;
        count = v.count;
        wr_at = v.wr_at;
        batches = v.batches;
        nonempty = v.nonempty;
        local_size = length-store_local b.local_data b.local_index ws ∙ v.local_size;
        local_in = room;
        local_words = rw e (NonZero-append (unpublished b) ws v.local_words words);
      },
      e,
    )

-- What a write leaves: while it waits, the words that were there; when it is done, those and the
-- message behind them, which stands whole in the open batch.
pub record Wrote (b : InputBuffer) (qs : List (List ℕ)) (ws : List ℕ) (r : Bool × InputBuffer)
    : Type 0 where
  pub after : List (List ℕ)
  pub holds : HoldsBatches r.1 after
  pub words : stream r.1 after ≡ (if r.0 then stream b qs ++ ws else stream b qs)
  pub before : List ℕ
  pub whole : r.0 ≡ true → unpublished r.1 ≡ before ++ ws
  pub waits : r.0 ≡ false → length qs ≡ inpb_count

appended-Wrote :
    {b c : InputBuffer} {qs after : List (List ℕ)} (ws : List ℕ)
    → HoldsBatches c after
    → stream c after ≡ stream b qs
    → NonZero ws
    → c.local_index + length ws ≤ inpb_size
    → Wrote b qs ws (true, appended c ws)
appended-Wrote {b} {c} {qs} {after} ws v same words room =
    let (h, e) = appended-HoldsBatches ws v words room in
    record {
      after = after;
      holds = h;
      words =
          ap (λ t. concat after ++ t) e
          ∙ sym (append_assoc (concat after) (unpublished c) ws)
          ∙ ap (λ t. t ++ ws) same;
      before = unpublished c;
      whole = λ _. e;
      waits = λ z. cc;
    }

after_flush : InputBuffer → List ℕ → Bool × InputBuffer → Bool × InputBuffer
after_flush b ws (true, c) = (true, appended c ws)
after_flush b ws (false, c) = (false, c)

after_flush_lem :
    (b : InputBuffer) (ws : List ℕ) (r : Bool × InputBuffer)
    → (if r.0 then (true, appended r.1 ws) else (false, r.1)) ≡ after_flush b ws r
unfolding after_flush
after_flush_lem b ws (true, c) = refl
after_flush_lem b ws (false, c) = refl

after_flush-Wrote :
    {b : InputBuffer} {qs : List (List ℕ)} (ws : List ℕ)
    → HoldsBatches b qs
    → NonZero ws
    → length ws ≤ inpb_size
    → (r : Bool × InputBuffer) → Flushed b qs r
    → Wrote b qs ws (after_flush b ws r)
unfolding after_flush
after_flush-Wrote ws v words short (true, c) f =
    appended-Wrote ws f.holds f.kept words (omega (arith, f.open_after))
after_flush-Wrote {b} {qs} ws v words short (false, c) f = record {
  after = f.after;
  holds = f.holds;
  words = f.kept;
  before = [];
  whole = λ z. cc;
  waits = λ _. ground (arith, f.ends, v.count);
}

-- A message of nonzero words that fits a line is written whole behind all words before it, or the
-- call waits because four batches are not read yet; the assertion holds.
pub inpb_write-Wrote :
    {b : InputBuffer} {qs : List (List ℕ)} (ws : List ℕ)
    → HoldsBatches b qs
    → NonZero ws
    → length ws ≤ inpb_size
    → Returns (inpb_write b ws) (Wrote b qs ws)
unfolding inpb_write
inpb_write-Wrote {b} {qs} ws v words short = elim (dec_lt inpb_size (b.local_index + length ws)) [
  | yes p ↦ (
    after_flush b ws (inpb_flush b),
    rw (le→leb (length ws) inpb_size short, lt→ltb inpb_size (b.local_index + length ws) p)
        (ap ok (after_flush_lem b ws (inpb_flush b))),
    after_flush-Wrote ws v words short (inpb_flush b) (inpb_flush-Flushed v),
  )
  | no p ↦ (
    (true, appended b ws),
    rw (
      le→leb (length ws) inpb_size short,
      le→ltb inpb_size (b.local_index + length ws) (omega arith),
    ),
    appended-Wrote ws v refl words (omega arith),
  )
]

-- What one test of a flush does: nothing is open, or the line is free and the open words become the
-- youngest batch, or four batches wait.
pub inpb_flush_cases :
    {b : InputBuffer} {qs : List (List ℕ)}
    → HoldsBatches b qs
    → ((unpublished b ≡ []) × (inpb_flush b ≡ (true, b)))
      ⊎ ((inpb_flush b ≡ (true, published b))
          × HoldsBatches (published b) (qs ++ unpublished b ∷ []))
      ⊎ ((length qs ≡ inpb_count) × (inpb_flush b ≡ (false, spun b)))
unfolding inpb_flush
inpb_flush_cases {b} {qs} v = elim (ℕ_discrete b.local_index 0) [
  | yes e ↦ inl (ap (λ n. take n b.local_data) e, rw (eq→== b.local_index 0 e) refl)
  | no n ↦ elim (dec_lt (length qs) inpb_count) [
    | yes p ↦ inr (
        inl (
          rw (ne→== b.local_index 0 n, write_line_free v p) refl,
          published-HoldsBatches v p (omega arith),
        ))
    | no p ↦ inr (
        inr (
          omega (arith, v.count),
          rw (ne→== b.local_index 0 n, write_line_taken v (omega (arith, v.count))) refl,
        ))
  ]
]
