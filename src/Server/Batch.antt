-- ===== src/Server/Batch.antt =====
-- hash_table_server: a batch of requests, answered in place, against the requests one after another.
use smphash_table.Base.{
  ℕ, zero, suc, ◌+◌, ◌≤◌, ◌<◌, ◌≡◌, refl, sym, ap, subst, ◌∙◌, true, List, [], ◌∷◌, ◌++◌,
  append-nil, length, get_or, set, take, get_or-set, get_or-append, length-set, length-append,
  arith, bit_or, bit_and, ltb, ne→==, if◌then◌else◌, Run, ok, fault, ◌>>=◌,
}
use smphash_table.Message.{
  Request, lookup, insert, release, encode, Fits, word_parts, hashop_mask, not_hashop_mask,
  hashop_lookup, hashop_insert, hashop_release,
}
use smphash_table.Partition.{Allocator}
use smphash_table.Server.{
  State, serve_lookup, serve_insert, serve_release, put_reply, dispatch, serve_loop, serve_batch,
}

-- One request by itself: the replies to it, one or none.
abbrev pub handle : Allocator → Request → State → Run (List ℕ × State)
handle alloc (lookup key) s = do (v, s') ← serve_lookup key s; ok (v ∷ [], s')
handle alloc (insert key size) s = do (v, s') ← serve_insert alloc key size s; ok (v ∷ [], s')
handle alloc (release e) s = do s' ← serve_release e s; ok ([], s')

-- The requests in order, behind the replies `out`.
abbrev pub handle_all : Allocator → List Request → List ℕ → State → Run (List ℕ × State)
handle_all alloc [] out s = ok (out, s)
handle_all alloc (r ∷ rs) out s = do (vs, s') ← handle alloc r s; handle_all alloc rs (out ++ vs) s'

abbrev pub encode_all : List Request → List ℕ
encode_all [] = []
encode_all (r ∷ rs) = encode r ++ encode_all rs

abbrev pub AllFit : List Request → Type 0
AllFit [] = Unit
AllFit (r ∷ rs) = Fits r × AllFit rs

-- What `hash_table_server` passes to `outb_write`.
abbrev pub replies : Run (ℕ × List ℕ × State) → Run (List ℕ × State)
replies (fault stop) = fault stop
replies (ok (j, buf, s)) = ok (take j buf, s)

take-set :
    (buf : List ℕ) (j v : ℕ) → j < length buf → take (suc j) (set buf j v) ≡ take j buf ++ v ∷ []
take-set [] j v h = absurd (omega arith)
take-set (x ∷ xs) zero v h = refl
take-set (x ∷ xs) (suc j) v h = ap (◌∷◌ x) (take-set xs j v (omega arith))

-- The words from `k` on are `ws`, and nothing else is still to be read.
record Unread (count k j : ℕ) (buf ws : List ℕ) : Type 0 where
  behind : j ≤ k
  here : (i n : ℕ) → n ≡ k + i → i < length ws → get_or buf n 0 ≡ get_or ws i 0
  ends : k + length ws ≡ count
  fits : count ≤ 8
  width : length buf ≡ 8

module _ {count k j : ℕ} {buf ws : List ℕ} {w : ℕ} (u : Unread count k j buf (w ∷ ws)) where
  reads : get_or buf k 0 ≡ w
  reads = u.here 0 k (omega arith) (omega arith)

  more : ltb k count ≡ true
  more = ground (arith, u.ends)

  skip : Unread count (k + 1) j buf ws
  skip = record {
    behind = omega (arith, u.behind);
    here = λ i n e h. u.here (suc i) n (omega arith) (omega arith);
    ends = omega (arith, u.ends);
    fits = u.fits;
    width = u.width;
  }

-- A reply goes over a word that is read already.
reply :
    {count k j : ℕ} {buf ws : List ℕ} (v : ℕ)
    → j < k
    → Unread count k j buf ws
    → Unread count k (j + 1) (set buf j v) ws
reply {k} {j} {buf} v lt u = record {
  behind = omega arith;
  here = λ i n e h.
      get_or-set buf j n v 0 (omega (arith, u.width, u.ends, u.fits))
      ∙ ap (λ b. if b then v else get_or buf n 0) (ne→== j n (omega arith))
      ∙ u.here i n e h;
  ends = u.ends;
  fits = u.fits;
  width = length-set buf j v ∙ u.width;
}

abbrev Next : Type 0
Next = ℕ × ℕ × List ℕ × State

module _ (alloc : Allocator) (count : ℕ) where
  abbrev resume : ℕ → Next → Run (ℕ × List ℕ × State)
  resume rounds (k, j, buf, s) = serve_loop alloc count rounds k j buf s

  loop_done :
      (rounds k j : ℕ) (buf : List ℕ) (s : State)
      → count ≤ k
      → serve_loop alloc count rounds k j buf s ≡ ok (j, buf, s)
  unfolding serve_loop
  loop_done zero k j buf s h = ground arith
  loop_done (suc rounds) k j buf s h = ground arith

  loop_next :
      (rounds k j w op arg : ℕ) (buf : List ℕ) (s : State)
      → k < count
      → get_or buf k 0 ≡ w
      → bit_and w hashop_mask ≡ op
      → bit_and w not_hashop_mask ≡ arg
      → serve_loop alloc count (suc rounds) k j buf s
        ≡ (dispatch alloc op arg k j buf s >>= resume rounds)
  unfolding serve_loop
  loop_next rounds k j w op arg buf s h e e₁ e₂ = ground arith

  -- The loop from `k` on answers the requests that are left.
  abbrev Answers : ℕ → ℕ → List ℕ → List Request → Type 0
  Answers k j buf rs =
      (rounds : ℕ) (s : State)
      → length (encode_all rs) ≤ rounds
      → replies (serve_loop alloc count rounds k j buf s) ≡ handle_all alloc rs (take j buf) s

  -- A request with a reply.
  answered :
      (k j : ℕ) (buf : List ℕ) (rs : List Request) (rounds : ℕ) (r : Run (ℕ × State))
      → j < length buf
      → length (encode_all rs) ≤ rounds
      → ((v : ℕ) → Answers k (j + 1) (set buf j v) rs)
      → replies ((r >>= λ (v, s). ok (k, j + 1, put_reply buf j v, s)) >>= resume rounds)
        ≡ ((r >>= λ (v, s). ok (v ∷ [], s)) >>= λ (vs, s). handle_all alloc rs (take j buf ++ vs) s)
  answered k j buf rs rounds (fault stop) lt h rest = refl
  answered k j buf rs rounds (ok (v, s)) lt h rest =
      let e : j + 1 ≡ suc j = omega arith in
      rest v rounds s h
      ∙ ap (λ out. handle_all alloc rs out s)
          (ap (λ n. take n (set buf j v)) e ∙ take-set buf j v lt)

  unanswered :
      (k j : ℕ) (buf : List ℕ) (rs : List Request) (rounds : ℕ) (r : Run State)
      → length (encode_all rs) ≤ rounds
      → Answers k j buf rs
      → replies ((r >>= λ s. ok (k, j, buf, s)) >>= resume rounds)
        ≡ ((r >>= λ s. ok ([], s)) >>= λ (vs, s). handle_all alloc rs (take j buf ++ vs) s)
  unanswered k j buf rs rounds (fault stop) h rest = refl
  unanswered k j buf rs rounds (ok s) h rest =
      rest rounds s h ∙ ap (λ out. handle_all alloc rs out s) (sym (append-nil (take j buf)))

  dispatch-insert :
      (key size k j : ℕ) (buf : List ℕ) (s : State)
      → k + 1 < 8
      → get_or buf (k + 1) 0 ≡ size
      → dispatch alloc hashop_insert key k j buf s
        ≡ (serve_insert alloc key size s >>= λ (v, s'). ok (k + 2, j + 1, put_reply buf j v, s'))
  unfolding dispatch
  dispatch-insert key size k j buf s h e = ground arith

  serve_loop_lem :
      (rs : List Request) (k j : ℕ) (buf : List ℕ)
      → AllFit rs
      → Unread count k j buf (encode_all rs)
      → Answers k j buf rs
  unfolding encode dispatch
  serve_loop_lem [] k j buf fit u rounds s h =
      ap replies (loop_done rounds k j buf s (omega (arith, u.ends)))
  serve_loop_lem (lookup key ∷ rs) k j buf fit u zero s h = absurd (omega arith)
  serve_loop_lem (lookup key ∷ rs) k j buf fit u (suc rounds) s h =
      let parts = word_parts key 1 fit.0 (omega arith) in
      ap replies (
        loop_next rounds k j (bit_or key hashop_lookup) hashop_lookup key buf s
          (omega (arith, u.ends)) (reads u) parts.0 parts.1)
      ∙ answered (k + 1) j buf rs rounds (serve_lookup key s)
          (omega (arith, u.behind, u.width, u.ends, u.fits)) (omega arith)
          (λ v.
            serve_loop_lem rs (k + 1) (j + 1) (set buf j v) fit.1
              (reply v (omega (arith, u.behind)) (skip u)))
  serve_loop_lem (insert key size ∷ rs) k j buf fit u zero s h = absurd (omega arith)
  serve_loop_lem (insert key size ∷ rs) k j buf fit u (suc rounds) s h =
      let parts = word_parts key 2 fit.0.0 (omega arith) in
      let two : k + 1 + 1 ≡ k + 2 = omega arith in
      let u₂ = subst (λ n. Unread count n j buf (encode_all rs)) two (skip (skip u)) in
      ap replies (
        loop_next rounds k j (bit_or key hashop_insert) hashop_insert key buf s
          (omega (arith, u.ends)) (reads u) parts.0 parts.1
        ∙ ap (λ d. d >>= resume rounds)
            (dispatch-insert key size k j buf s (omega (arith, u.ends, u.fits)) (reads (skip u))))
      ∙ answered (k + 2) j buf rs rounds (serve_insert alloc key size s)
          (omega (arith, u.behind, u.width, u.ends, u.fits)) (omega arith)
          (λ v.
            serve_loop_lem rs (k + 2) (j + 1) (set buf j v) fit.1
              (reply v (omega (arith, u.behind)) u₂))
  serve_loop_lem (release e ∷ rs) k j buf fit u zero s h = absurd (omega arith)
  serve_loop_lem (release e ∷ rs) k j buf fit u (suc rounds) s h =
      let parts = word_parts e 3 fit.0 (omega arith) in
      ap replies (
        loop_next rounds k j (bit_or e hashop_release) hashop_release e buf s
          (omega (arith, u.ends)) (reads u) parts.0 parts.1)
      ∙ unanswered (k + 1) j buf rs rounds (serve_release e s) (omega arith) (
          serve_loop_lem rs (k + 1) j buf fit.1
            (record (skip u) { behind = omega (arith, u.behind) }))

-- What goes out, and the state; the rest of `localbuf` is left out.
abbrev pub sent : Run (List ℕ × List ℕ × State) → Run (List ℕ × State)
sent (fault stop) = fault stop
sent (ok (vs, buf, s)) = ok (vs, s)

sent-replies :
    (r : Run (ℕ × List ℕ × State)) → sent (r >>= λ (j, buf, s). ok (take j buf, buf, s)) ≡ replies r
sent-replies (fault stop) = refl
sent-replies (ok (j, buf, s)) = refl

-- hash_table_server answers the requests of a batch, which leave the top four bits of keys and
-- addresses free and insert no empty value, as if it handled them one after another: the replies
-- written over the batch harm no word that is still to be read, whatever earlier batches left in
-- the eight words, and a fault of the batch is the first fault of its requests.
pub serve_batch_refines :
    (alloc : Allocator) (rs : List Request) (stale : List ℕ) (s : State)
    → AllFit rs
    → length (encode_all rs) + length stale ≡ 8
    → sent (serve_batch alloc (encode_all rs) stale s) ≡ handle_all alloc rs [] s
unfolding serve_batch
serve_batch_refines alloc rs stale s fit h =
    let ws = encode_all rs in
    let u : Unread (length ws) 0 0 (ws ++ stale) ws = record {
      behind = omega arith;
      here = λ i n e lt.
          ap (λ m. get_or (ws ++ stale) m 0) (omega arith) ∙ get_or-append ws stale i 0 lt;
      ends = omega arith;
      fits = omega arith;
      width = length-append ws stale ∙ h;
    } in
    sent-replies (serve_loop alloc (length ws) (length ws) 0 0 (ws ++ stale) s)
    ∙ serve_loop_lem alloc (length ws) rs 0 0 (ws ++ stale) fit u (length ws) s (omega arith)
