-- ===== src/Partition/Evict.antt =====
-- The eviction loop of `hash_insert` with EVICT_LRU.
use smphash_table.Base.{
  ℕ, zero, suc, ◌+◌, ◌≤◌, ◌<◌, ◌≡◌, ◌≢◌, inl, inr, refl, sym, ap, subst, ◌∙◌, none, some, List, [],
  ◌∷◌, ◌++◌, append_assoc, append-nil, arith, ◌==◌, if◌then◌else◌, length, length-append, eq→==,
  le→leb, lt→leb, lt→ltb, Run, ok, Returns, dec_lt,
}
use smphash_table.Memory.{Ptr, Heap}
use smphash_table.Partition.{
  Partition, evict_lru, remove, last, hash_remove, elem_bytes, rounded_size, Allocator, victim,
  try_alloc, make_room,
}
use smphash_table.Partition.Lists.{
  occurs, occurs-append, occurs-one, total, total-nil, total_congr, remove-append_last, last-append,
  snoc_cases,
}
use smphash_table.Partition.Linked.{Linked, size_at, size_in}
use smphash_table.Partition.Remove.{Releaser, drop-Dropped}

-- What the documentation of memalign promises while there is memory, here while no more is in use
-- than in the heap `h₀`: an address that is not in use.
pub record Succeeds (alloc : Allocator) (h₀ : Heap) : Type 0 where
  pub gives :
      (boundary n : ℕ) (h : Heap)
      → ((q : Ptr) → h₀ q ≡ none → h q ≡ none)
      → (e : Ptr) × (alloc.memalign boundary n h ≡ some e) × (h e ≡ none)

module _ (alloc : Allocator) (release : Ptr → Heap → Run Heap) where
  try_now :
      (size : ℕ) (h : Heap) (p : Partition) {e : Ptr}
      → p.size ≤ p.max_size
      → alloc.memalign (elem_bytes size) 64 h ≡ some e
      → try_alloc alloc release size h p ≡ some e
  unfolding try_alloc
  try_now size h p fits a = rw (le→leb p.size p.max_size fits) a

  try_later :
      (size : ℕ) (h : Heap) (p : Partition)
      → p.max_size < p.size
      → try_alloc alloc release size h p ≡ none
  unfolding try_alloc
  try_later size h p full = rw (lt→leb p.size p.max_size full)

  room_now :
      (rounds : ℕ) (ts : List ℕ) (size : ℕ) (h : Heap) (p : Partition) {e : Ptr}
      → try_alloc alloc release size h p ≡ some e
      → make_room alloc release (suc rounds) ts size h p ≡ ok (e, h, p, ts)
  unfolding make_room
  room_now rounds ts size h p a = rw (a, make_room)

  victim_lru :
      (ts : List ℕ) (p : Partition) {l : Ptr}
      → p.evictalgo ≡ evict_lru
      → last p.lru ≡ some l
      → victim ts p ≡ ok (l, ts)
  unfolding victim
  victim_lru ts p algo l = rw (eq→== p.evictalgo evict_lru algo) (rw l)

  room_later :
      (rounds : ℕ) (ts ts' : List ℕ) (size : ℕ) (h : Heap) (p : Partition) {l : Ptr}
      {p' : Partition} {h' : Heap}
      → try_alloc alloc release size h p ≡ none
      → rounded_size size < p.size
      → victim ts p ≡ ok (l, ts')
      → hash_remove h p l ≡ ok p'
      → release l h ≡ ok h'
      → make_room alloc release (suc rounds) ts size h p
        ≡ make_room alloc release rounds ts' size h' p'
  unfolding make_room
  room_later rounds ts ts' size h p full big v a b =
      rw (full, make_room) (rw (lt→ltb (rounded_size size) p.size big) (rw v (rw a (rw b))))

-- The elements `ds` are released, the last one first.
pub data Released (release : Ptr → Heap → Run Heap) : Heap → List Ptr → Heap → Type 0 where
  nothing : (h : Heap) → Released release h [] h
  before :
      (h h₁ h' : Heap) (ds es : List Ptr) (l : Ptr)
      → es ≡ ds ++ l ∷ []
      → release l h ≡ ok h₁
      → Released release h₁ ds h'
      → Released release h es h'

-- What the loop leaves: the `kept` most recently used elements and room for the new one. `w` is the
-- size of each element before the call.
pub record Room (release : Ptr → Heap → Run Heap) (w : Ptr → ℕ) (h : Heap) (p : Partition)
    (extra : ℕ) (es : List Ptr) (r : Ptr × Heap × Partition × List ℕ) : Type 0 where
  pub kept : List Ptr
  pub dropped : List Ptr
  pub split : es ≡ kept ++ dropped
  pub linked : Linked r.1 r.2 extra kept
  pub fits : r.2.size ≤ r.2.max_size
  pub fresh : r.1 r.0 ≡ none
  pub freed : Released release h dropped r.1
  pub frame : (q : Ptr) → 0 < occurs q kept → r.1 q ≡ h q
  pub needed :
      (l : Ptr) (rest : List Ptr)
      → dropped ≡ l ∷ rest
      → p.max_size < extra + total w (kept ++ l ∷ [])
  pub nhash : r.2.nhash ≡ p.nhash
  pub evictalgo : r.2.evictalgo ≡ p.evictalgo
  pub max_size : r.2.max_size ≡ p.max_size

occurs_last :
    (q l : Ptr) (ys : List Ptr) → occurs q (ys ++ l ∷ []) ≡ occurs q ys + (if q == l then 1 else 0)
occurs_last q l ys = omega (arith, occurs-append q ys (l ∷ []), occurs-one q l)

-- One more element dropped at the end.
needed_more :
    (w : Ptr → ℕ) (max extra : ℕ) (ys kept ds : List Ptr) (l : Ptr)
    → ys ≡ kept ++ ds
    → max < extra + total w (ys ++ l ∷ [])
    → ((d : Ptr) (rest : List Ptr) → ds ≡ d ∷ rest → max < extra + total w (kept ++ d ∷ []))
    → (d : Ptr) (rest : List Ptr) → ds ++ l ∷ [] ≡ d ∷ rest
    → max < extra + total w (kept ++ d ∷ [])
needed_more w max extra ys kept [] l e full old d rest same =
    let whole : ys ≡ kept = e ∙ append-nil kept in let head : l ≡ d = cc in rw (whole, head) at full
needed_more w max extra ys kept (x ∷ xs) l e full old d rest same =
    let head : x ≡ d = cc in old d xs (ap (λ t. t ∷ xs) head)

Room-step :
    (release : Ptr → Heap → Run Heap) (w : Ptr → ℕ) {h h' : Heap} {p p' : Partition} {extra : ℕ}
    {es : List Ptr} (ys : List Ptr) (l : Ptr) (r : Ptr × Heap × Partition × List ℕ)
    → es ≡ ys ++ l ∷ []
    → ((q : Ptr) → 0 < occurs q ys → h' q ≡ h q)
    → p.max_size < extra + total w (ys ++ l ∷ [])
    → p'.nhash ≡ p.nhash
    → p'.evictalgo ≡ p.evictalgo
    → p'.max_size ≡ p.max_size
    → release l h ≡ ok h'
    → Room release w h' p' extra ys r
    → Room release w h p extra es r
Room-step release w {h = h} {h' = h'} {p = p} {p' = p'} {extra = extra} ys l r e frame full n a m
      gone k =
    record {
      kept = k.kept;
      dropped = k.dropped ++ l ∷ [];
      split = e ∙ ap (λ t. t ++ l ∷ []) k.split ∙ append_assoc k.kept k.dropped (l ∷ []);
      linked = k.linked;
      fits = k.fits;
      fresh = k.fresh;
      freed = before h h' r.1 k.dropped (k.dropped ++ l ∷ []) l refl gone k.freed;
      frame = λ q i.
          k.frame q i ∙ frame q (rw k.split (omega (arith, occurs-append q k.kept k.dropped)));
      needed =
          needed_more w p.max_size extra ys k.kept k.dropped l k.split full
            (λ d rest same. rw m at (k.needed d rest same));
      nhash = k.nhash ∙ n;
      evictalgo = k.evictalgo ∙ a;
      max_size = k.max_size ∙ m;
    }

module _ {alloc : Allocator} {release : Ptr → Heap → Run Heap} {h₀ : Heap} (mem : Succeeds alloc h₀)
    (rel : Releaser release) where
  pub make_room-Room :
      (w : Ptr → ℕ) (rounds : ℕ) (ts : List ℕ) (size : ℕ) {h : Heap} {p : Partition} (es : List Ptr)
      → Linked h p (rounded_size size) es
      → p.evictalgo ≡ evict_lru
      → rounded_size size ≤ p.max_size
      → length es < rounds
      → ((q : Ptr) → 0 < occurs q es → size_at h q ≡ w q)
      → ((q : Ptr) → h₀ q ≡ none → h q ≡ none)
      → Returns
          (make_room alloc release rounds ts size h p)
          (Room release w h p (rounded_size size) es)
  make_room-Room w zero ts size es v algo small enough same low = absurd (omega arith)
  make_room-Room w (suc rounds) ts size {h} {p} es v algo small enough same low =
      elim (dec_lt p.max_size p.size) [
        | no p_fits ↦
            let (e, a, fresh) = mem.gives (elem_bytes size) 64 h low in
            (
              (e, h, p, ts),
              room_now alloc release rounds ts size h p
                  (try_now alloc release size h p (omega arith) a),
              record {
                kept = es;
                dropped = [];
                split = sym (append-nil es);
                linked = v;
                fits = omega arith;
                fresh = fresh;
                freed = nothing h;
                frame = λ q i. refl;
                needed = λ l rest d. cc;
                nhash = refl;
                evictalgo = refl;
                max_size = refl;
              },
            )
        | yes full ↦ elim (snoc_cases es) [
          | inl empty ↦
              absurd
                (omega (arith, v.accounted, ap (total (size_at h)) empty, total-nil (size_at h)))
          | inr (ys, l, e) ↦
              let at_l : occurs l es ≡ occurs l ys + (if l == l then 1 else 0) =
                ap (occurs l) e ∙ occurs_last l l ys in
              let out : occurs l ys ≡ 0 = ground (arith, v.once l) in
              let inside : (q : Ptr) → 0 < occurs q ys → 0 < occurs q es =
                λ q i. rw e (omega (arith, occurs_last q l ys)) in
              let (p', h', removed, released, d) = drop-Dropped rel v l (ground arith) in
              let rest : remove l es ≡ ys = ap (remove l) e ∙ remove-append_last l ys out in
              let other : (q : Ptr) → 0 < occurs q ys → q ≢ l =
                λ q i f. omega (arith, ap (λ t. occurs t ys) f) in
              let sum : total (size_at h) es ≡ total w (ys ++ l ∷ []) =
                total_congr (size_at h) w es same ∙ ap (total w) e in
              let shorter : length es ≡ length ys + 1 = ap length e ∙ length-append ys (l ∷ []) in
              let (r, run, k) =
                make_room-Room w rounds ts size {h = h'} {p = p'} ys
                  (subst (Linked h' p' (rounded_size size)) rest d.linked) (d.evictalgo ∙ algo)
                  (rw d.max_size small) (omega arith)
                  (λ q i. ap size_in (d.frame q (other q i)) ∙ same q (inside q i))
                  (λ q z. d.shrinks q (low q z)) in
              (
                r,
                room_later alloc release rounds ts ts size h p
                      (try_later alloc release size h p full) (omega arith)
                      (victim_lru alloc release ts p algo
                        (ap last (v.lru_order algo ∙ e) ∙ last-append ys l))
                      removed released
                    ∙ run,
                Room-step release w {h = h} {h' = h'} {p = p} {p' = p'} ys l r e
                    (λ q i. d.frame q (other q i)) (omega (arith, v.accounted)) d.nhash d.evictalgo
                    d.max_size released k,
              )
        ]
      ]
