-- ===== src/Inbuf/Traffic.antt =====
-- Every interleaving of the writes and flushes of a client and the reads of its server.
use smphash_table.Base.{
  ℕ, ◌≤◌, ◌≡◌, refl, sym, ap, subst, ◌∙◌, Bool, true, false, List, [], ◌∷◌, ◌++◌, append_assoc,
  append-nil, length, concat, ok, if◌then◌else◌,
}
use smphash_table.Inbuf.{InputBuffer, inpb_size, zeroed_inpb, inpb_flush, inpb_write, inpb_read}
use smphash_table.Inbuf.Lines.{NonZero}
use smphash_table.Inbuf.Refine.{unpublished, HoldsBatches, stream, zeroed-HoldsBatches}
use smphash_table.Inbuf.Writes.{inpb_flush-Flushed, Wrote, inpb_write-Wrote}
use smphash_table.Inbuf.Reads.{ReadBatch, inpb_read_refines}

-- One client and one server over a buffer, with all words that the client has written and all that
-- the server has taken. A call that waits is a step that leaves the words alone and is tried again.
pub record Link : Type 0 where
  pub buffer : InputBuffer
  pub sent : List ℕ
  pub received : List ℕ

abbrev pub opened : Link
opened = record { buffer = zeroed_inpb; sent = []; received = [] }

pub data Step (l : Link) : Link → Type 0 where
  write :
      (ws : List ℕ) {done : Bool} {b : InputBuffer}
      → NonZero ws
      → length ws ≤ inpb_size
      → inpb_write l.buffer ws ≡ ok (done, b)
      → Step l (record {
        buffer = b;
        sent = if done then l.sent ++ ws else l.sent;
        received = l.received;
      })
  flush : Step l (record l { buffer = (inpb_flush l.buffer).1 })
  read : Step l (record l {
    buffer = (inpb_read l.buffer).1;
    received = l.received ++ (inpb_read l.buffer).0;
  })

pub data Reach : Link → Type 0 where
  start : Reach opened
  later : {l m : Link} → Reach l → Step l m → Reach m

-- The words taken, then the words still on the way, are the words written.
pub record InOrder (l : Link) : Type 0 where
  pub batches : List (List ℕ)
  pub holds : HoldsBatches l.buffer batches
  pub order : l.received ++ stream l.buffer batches ≡ l.sent

write-InOrder :
    (l : Link) {qs : List (List ℕ)} (ws : List ℕ) (done : Bool) (b : InputBuffer)
    → l.received ++ stream l.buffer qs ≡ l.sent
    → Wrote l.buffer qs ws (done, b)
    → InOrder
        (record { buffer = b; sent = if done then l.sent ++ ws else l.sent; received = l.received })
write-InOrder l {qs} ws true b e w = record {
  batches = w.after;
  holds = w.holds;
  order =
      ap (λ t. l.received ++ t) w.words
      ∙ sym (append_assoc l.received (stream l.buffer qs) ws)
      ∙ ap (λ t. t ++ ws) e;
}
write-InOrder l ws false b e w = record {
  batches = w.after;
  holds = w.holds;
  order = ap (λ t. l.received ++ t) w.words ∙ e;
}

read-InOrder :
    (l : Link) (qs : List (List ℕ)) (r : List ℕ × InputBuffer)
    → HoldsBatches l.buffer qs
    → l.received ++ stream l.buffer qs ≡ l.sent
    → ReadBatch l.buffer qs r
    → InOrder (record l { buffer = r.1; received = l.received ++ r.0 })
read-InOrder l [] (words, b) h e f = record {
  batches = [];
  holds = rw f.1 h;
  order = rw (f.0, f.1, append-nil) e;
}
read-InOrder l (q ∷ qs) (words, b) h e f = record {
  batches = qs;
  holds = f.1;
  order =
      rw (f.0, f.2)
        (append_assoc l.received q (stream l.buffer qs)
          ∙ ap (λ t. l.received ++ t) (sym (append_assoc q (concat qs) (unpublished l.buffer)))
          ∙ e);
}

Step-InOrder : {l m : Link} → Step l m → InOrder l → InOrder m
Step-InOrder {l} (write ws {done} {b} words short run) v =
    let (r, e, w) = inpb_write-Wrote ws v.holds words short in
    let same : r ≡ (done, b) = cc in
    write-InOrder l ws done b v.order (subst (λ t. Wrote l.buffer v.batches ws t) same w)
Step-InOrder {l} flush v =
    let f = inpb_flush-Flushed v.holds in
    record {
      batches = f.after;
      holds = f.holds;
      order = ap (λ t. l.received ++ t) f.kept ∙ v.order;
    }
Step-InOrder {l} read v =
    read-InOrder l v.batches (inpb_read l.buffer) v.holds v.order
      (inpb_read_refines v.batches v.holds)

-- In every interleaving of writes, flushes and reads the server takes exactly the words that the
-- client wrote, in order and each once: what it has taken is a prefix of what was written, and the
-- rest is still in the buffer.
pub Reach-InOrder : {l : Link} → Reach l → InOrder l
Reach-InOrder start = record { batches = []; holds = zeroed-HoldsBatches; order = refl }
Reach-InOrder (later r st) = Step-InOrder st (Reach-InOrder r)
