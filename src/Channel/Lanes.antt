-- ===== src/Channel/Lanes.antt =====
-- The calls of the boxes on one lane.
use smphash_table.Base.{
  ℕ, suc, ◌≤◌, ◌<◌, ◌≡◌, refl, sym, ap, subst, ◌∙◌, some, List, [], ◌∷◌, ◌++◌, append_assoc,
  append-nil, concat, concat-append, length, length-append, drop, arith,
}
use smphash_table.Message.{Request, lookup, insert, release, encode, Fits, word_parts}
use smphash_table.Partition.{Allocator}
use smphash_table.Inbuf.{published, spun}
use smphash_table.Inbuf.Refine.{unpublished, HoldsBatches}
use smphash_table.Inbuf.Writes.{spun-HoldsBatches}
use smphash_table.Outbuf.Refine.{HoldsWords}
use smphash_table.Server.Batch.{encode_all, AllFit}
use smphash_table.Server.Rounds.Refine.{encode_batches, AllBatchesFit}
use smphash_table.Client.Ports.{Asks}
use smphash_table.Channel.{Lane, with_input, with_output, decode, taken_out}
use smphash_table.Channel.Handled.{Handles}
use smphash_table.Channel.Rounds.{Sound}

encode_batches-append :
    (batches : List (List Request)) (rs : List Request)
    → encode_batches (batches ++ rs ∷ []) ≡ encode_batches batches ++ encode_all rs ∷ []
encode_batches-append [] rs = refl
encode_batches-append (b ∷ batches) rs =
    ap (λ l. encode_all b ∷ l) (encode_batches-append batches rs)

pub encode_all-append :
    (rs : List Request) (r : Request) → encode_all (rs ++ r ∷ []) ≡ encode_all rs ++ encode r
encode_all-append [] r = append-nil (encode r)
encode_all-append (q ∷ rs) r =
    ap (λ l. encode q ++ l) (encode_all-append rs r)
    ∙ sym (append_assoc (encode q) (encode_all rs) (encode r))

AllBatchesFit-append :
    (batches : List (List Request)) (rs : List Request)
    → AllBatchesFit batches
    → AllFit rs
    → AllBatchesFit (batches ++ rs ∷ [])
AllBatchesFit-append [] rs fits fit = (fit, tt)
AllBatchesFit-append (b ∷ batches) rs (one, others) fit =
    (one, AllBatchesFit-append batches rs others fit)

pub AllFit-append : (rs : List Request) (r : Request) → AllFit rs → Fits r → AllFit (rs ++ r ∷ [])
AllFit-append [] r fits fit = (fit, tt)
AllFit-append (q ∷ rs) r (one, others) fit = (one, AllFit-append rs r others fit)

pub length-encode_batches :
    (batches : List (List Request)) → length (encode_batches batches) ≡ length batches
length-encode_batches [] = refl
length-encode_batches (b ∷ batches) = ap suc (length-encode_batches batches)

pub length-encode : (r : Request) → (0 < length (encode r)) × (length (encode r) ≤ 2)
unfolding encode
length-encode (lookup key) = (omega arith, omega arith)
length-encode (insert key size) = (omega arith, omega arith)
length-encode (release e) = (omega arith, omega arith)

pub none_pending : (rs : List Request) → encode_all rs ≡ [] → rs ≡ []
none_pending [] e = refl
none_pending (r ∷ rs) e =
    absurd (omega (arith, ap length e, length-append (encode r) (encode_all rs), length-encode r))

-- The account knows the request that is written.
pub decode-encode : (r : Request) → Asks r → Fits r → decode (encode r) ≡ r
unfolding decode encode
decode-encode (lookup key) asks fits =
    let parts = word_parts key 1 fits (omega arith) in rw (parts.0, parts.1) refl
decode-encode (insert key size) asks (small, some_bytes) =
    let parts = word_parts key 2 small (omega arith) in rw parts.1 refl
decode-encode (release e) asks fits = absurd (omega arith)

module _ {alloc : Allocator} {l : Lane} (s : Sound alloc l) where
  -- A test of a flush that ends, and one that does not.
  abbrev pub spun-Sound : Sound alloc (with_input l (spun l.box.in_buffer))
  spun-Sound = record {
    batches = s.batches;
    pending = s.pending;
    words = s.words;
    outs = s.outs;
    stands = record {
      input = spun-HoldsBatches s.stands.input;
      output = s.stands.output;
      fit = s.stands.fit;
    };
    opened = s.opened;
    fit = s.fit;
    handled = s.handled;
    owed = s.owed;
    few = s.few;
    wide = s.wide;
  }

  pub published-Sound :
      HoldsBatches
        (published l.box.in_buffer)
        (encode_batches s.batches ++ unpublished l.box.in_buffer ∷ [])
      → Sound alloc (with_input l (published l.box.in_buffer))
  published-Sound holds = record {
    batches = s.batches ++ s.pending ∷ [];
    pending = [];
    words = s.words;
    outs = s.outs;
    stands = record {
      input =
          subst (HoldsBatches (published l.box.in_buffer))
            (ap (λ u. encode_batches s.batches ++ u ∷ []) s.opened
              ∙ sym (encode_batches-append s.batches s.pending))
            holds;
      output = s.stands.output;
      fit = AllBatchesFit-append s.batches s.pending s.stands.fit s.fit;
    };
    opened = refl;
    fit = tt;
    handled =
        subst (λ rs. Handles alloc rs l.state s.outs l.final)
          (sym (
            append-nil (concat (s.batches ++ s.pending ∷ []))
            ∙ concat-append s.batches (s.pending ∷ [])
            ∙ ap (λ t. concat s.batches ++ t) (append-nil s.pending)))
          s.handled;
    owed = s.owed;
    few = s.few;
    wide = s.wide;
  }

  -- The answers that are written after the output buffer is read.
  abbrev pub output-Sound :
      (b : _) (q : List ℕ) → HoldsWords b q → q ≡ s.words → Sound alloc (with_output l b)
  output-Sound b q holds same = record {
    batches = s.batches;
    pending = s.pending;
    words = q;
    outs = s.outs;
    stands = record { input = s.stands.input; output = holds; fit = s.stands.fit };
    opened = s.opened;
    fit = s.fit;
    handled = s.handled;
    owed = s.owed ∙ ap (λ t. t ++ s.outs) (sym same);
    few = s.few;
    wide = s.wide;
  }

  pub taken-Sound :
      (b : _) (x : ℕ) (q : List ℕ)
      → HoldsWords b q
      → s.words ≡ x ∷ q
      → (l.owed ≡ x ∷ (q ++ s.outs)) × Sound alloc (taken_out (with_output l b) (some x))
  taken-Sound b x q holds full =
      let e : l.owed ≡ x ∷ (q ++ s.outs) = s.owed ∙ ap (λ t. t ++ s.outs) full in
      (
        e,
        record {
          batches = s.batches;
          pending = s.pending;
          words = q;
          outs = s.outs;
          stands = record { input = s.stands.input; output = holds; fit = s.stands.fit };
          opened = s.opened;
          fit = s.fit;
          handled = s.handled;
          owed = ap (drop 1) e;
          few = omega (arith, ap length e, ap length (ap (drop 1) e), s.few);
          wide = s.wide;
        },
      )
