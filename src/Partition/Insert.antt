-- ===== src/Partition/Insert.antt =====
-- `hash_insert` as a whole, with EVICT_LRU.
use smphash_table.Base.{
  ℕ, ◌+◌, ◌%◌, ◌^◌, ◌≤◌, ◌<◌, ◌≡◌, refl, ◌≢◌, ne→==, sym, ap, subst, ◌∙◌, Option, none, some, List,
  [], ◌∷◌, ◌++◌, arith, length, concat, Run, ok, Returns, ◌>>=◌,
}
use smphash_table.Memory.{Ptr, Heap}
use smphash_table.Partition.{
  Partition, evict_lru, remove, rounded_size, Allocator, make_room, drop_old, link, hash_lookup,
  hash_insert,
}
use smphash_table.Partition.Lists.{
  occurs, occurs-append, total, length-remove, total-remove, total_congr, occurs-cons,
}
use smphash_table.Partition.Linked.{Linked, Absent, size_at, key_in, size_in}
use smphash_table.Partition.Lookup.{find, find-some, find-none, used, LookedUp, hash_lookup_refines}
use smphash_table.Partition.Remove.{
  Releaser, drop-Dropped, removed-Absent, removed_ne, Absent-frame,
}
use smphash_table.Partition.Evict.{Succeeds, Released, Room, make_room-Room}
use smphash_table.Partition.Link.{link-Linked, link-elsewhere}

-- The elements but the one with the key.
abbrev pub without : Option Ptr → List Ptr → List Ptr
without none es = es
without (some e) es = remove e es

-- Bytes that are claimed before they are used.
Linked-claim :
    {h : Heap} {p : Partition} {es : List Ptr} (n : ℕ)
    → Linked h p 0 es
    → p.size + n < 2 ^ 64
    → Linked h (record p { size = (p.size + n) % 2 ^ 64 }) n es
Linked-claim n v room = record {
  buckets = v.buckets;
  nonempty = v.nonempty;
  once = v.once;
  live = v.live;
  placed = v.placed;
  unique = v.unique;
  lru_order = v.lru_order;
  accounted = omega (arith, v.accounted);
  sizes = omega arith;
}

-- The release of the old element of the key, if there is one.
abbrev pub OldReleased : (Ptr → Heap → Run Heap) → Option Ptr → Heap → Heap → Type 0
OldReleased release none h h' = h' ≡ h
OldReleased release (some e) h h' = release e h ≡ ok h'

-- The state after the old element of the key is gone.
record Prepared (h : Heap) (p : Partition) (key : ℕ) (es : List Ptr) (h' : Heap) (p' : Partition)
    : Type 0 where
  linked : Linked h' p' 0 es
  absent : Absent h' key es
  frame : (q : Ptr) → 0 < occurs q es → h' q ≡ h q
  shrinks : (q : Ptr) → h q ≡ none → h' q ≡ none
  nhash : p'.nhash ≡ p.nhash
  evictalgo : p'.evictalgo ≡ p.evictalgo
  max_size : p'.max_size ≡ p.max_size
  smaller : p'.size ≤ p.size

remove-used :
    (p : Partition) (e : Ptr) (es : List Ptr) → remove e (used p (some e) es) ≡ remove e es
unfolding remove
remove-used p e es = ground arith

length-without : (r : Option Ptr) (es : List Ptr) → length (without r es) ≤ length es
length-without none es = omega arith
length-without (some e) es = length-remove e es

mem-used :
    (p : Partition) (e : Ptr) (es : List Ptr) → 0 < occurs e es → 0 < occurs e (used p (some e) es)
mem-used p e es i = ground (arith, occurs-cons e e (remove e es))

module _ {release : Ptr → Heap → Run Heap} (alloc : Allocator) (rel : Releaser release) where
  prepare :
      {h : Heap} {p p₁ : Partition} (key : ℕ) (es : List Ptr) (r : Option Ptr)
      → LookedUp h p 0 key es (r, p₁)
      → (h' : Heap) × (p' : Partition) × (drop_old alloc release r h p₁ ≡ ok (h', p'))
        × OldReleased release r h h'
        × Prepared h p key (without r es) h' p'
  unfolding drop_old
  prepare {h} {p} {p₁} key es none u = (
    h,
    p₁,
    refl,
    refl,
    record {
      linked = u.linked;
      absent = find-none h key es (sym u.found);
      frame = λ q i. refl;
      shrinks = λ q z. z;
      nhash = u.nhash;
      evictalgo = u.evictalgo;
      max_size = u.max_size;
      smaller = omega (arith, u.size);
    },
  )
  prepare {h} {p} {p₁} key es (some e) u =
      let (i, k) = find-some h key es e (sym u.found) in
      let j = mem-used p e es i in
      let (x, l) = u.linked.live e j in
      let (p', h', removed, released, d) = drop-Dropped rel u.linked e j in
      let rest = remove-used p e es in
      let gone = removed-Absent u.linked e j l in
      let same_key : x.key ≡ key = sym (ap key_in l) ∙ k in
      let others : (q : Ptr) → 0 < occurs q (remove e es) → h' q ≡ h q =
        λ q m. d.frame q (removed_ne q e (used p (some e) es) (u.linked.once e) (rw rest m)) in
      let linked : Linked h' p' 0 (remove e es) = subst (Linked h' p' 0) rest d.linked in
      (
        h',
        p',
        rw (removed, ◌>>=◌) (rw released),
        released,
        record {
          linked = linked;
          absent =
              Absent-frame h h' key (remove e es)
                (subst (λ t. Absent h t (remove e es)) same_key (subst (Absent h x.key) rest gone))
                others;
          frame = others;
          shrinks = d.shrinks;
          nhash = d.nhash ∙ u.nhash;
          evictalgo = d.evictalgo ∙ u.evictalgo;
          max_size = d.max_size ∙ u.max_size;
          smaller = omega (
            arith,
            u.size,
            u.linked.accounted,
            linked.accounted,
            total_congr (size_at h') (size_at h) (remove e es) (λ q m. ap size_in (others q m)),
            ap (total (size_at h)) rest,
            total-remove (size_at h) e (used p (some e) es) j,
          );
        },
      )

-- What an insert returns and leaves: the new element first in the order of use, behind it the
-- `kept` most recently used of the others; no more than necessary is dropped. `cleared` is the memory
-- once the old element of the key is released, `heap` the memory before the new one is linked.
pub record Inserted (alloc : Allocator) (release : Ptr → Heap → Run Heap) (key size : ℕ) (h : Heap)
    (p : Partition) (es : List Ptr) (r : Ptr × Heap × Partition × List ℕ) : Type 0 where
  pub kept : List Ptr
  pub dropped : List Ptr
  pub split : without (find h key es) es ≡ kept ++ dropped
  pub cleared : Heap
  pub heap : Heap
  pub linked : Linked r.1 r.2 0 (r.0 ∷ kept)
  pub fits : r.2.size ≤ r.2.max_size
  pub element :
      r.1 r.0 ≡ some (record { key = key; ref_count = alloc.stale r.0; size = rounded_size size })
  pub fresh : heap r.0 ≡ none
  pub old_released : OldReleased release (find h key es) h cleared
  pub freed : Released release cleared dropped heap
  pub elsewhere : (q : Ptr) → q ≢ r.0 → r.1 q ≡ heap q
  pub untouched : (q : Ptr) → 0 < occurs q kept → r.1 q ≡ h q
  pub needed :
      (l : Ptr) (rest : List Ptr)
      → dropped ≡ l ∷ rest
      → p.max_size < rounded_size size + total (size_at h) (kept ++ l ∷ [])
  pub evictalgo : r.2.evictalgo ≡ p.evictalgo
  pub max_size : r.2.max_size ≡ p.max_size

insert_run :
    (alloc : Allocator) (release : Ptr → Heap → Run Heap) (ts : List ℕ) (key size : ℕ) (h : Heap)
    (p : Partition) {r : Option Ptr} {p₁ p₂ : Partition} {h₂ : Heap}
    {m : Ptr × Heap × Partition × List ℕ}
    → hash_lookup h p key ≡ ok (r, p₁)
    → drop_old alloc release r h p₁ ≡ ok (h₂, p₂)
    → make_room alloc release
        (length p₂.lru + length (concat p₂.table) + 1)
        ts
        size
        h₂
        (record p₂ { size = (p₂.size + rounded_size size) % 2 ^ 64 })
      ≡ ok m
    → hash_insert alloc release ts key size h p
      ≡ ok (
        m.0,
        (link alloc release m.0 key size m.1 m.2).0,
        (link alloc release m.0 key size m.1 m.2).1,
        m.3,
      )
unfolding hash_insert
insert_run alloc release ts key size h p a b c = rw a (rw b (rw c))

-- From the loop's result to the call's.
Room-Inserted :
    (alloc : Allocator) (release : Ptr → Heap → Run Heap) (key size : ℕ) {h h₂ : Heap}
    {p p₂ p₃ : Partition} {es : List Ptr} {r : Option Ptr} (m : Ptr × Heap × Partition × List ℕ)
    → r ≡ find h key es
    → OldReleased release r h h₂
    → Prepared h p key (without r es) h₂ p₂
    → p₃.max_size ≡ p₂.max_size
    → p₃.evictalgo ≡ p₂.evictalgo
    → Room release (size_at h) h₂ p₃ (rounded_size size) (without r es) m
    → Inserted alloc release key size h p es (
      m.0,
      (link alloc release m.0 key size m.1 m.2).0,
      (link alloc release m.0 key size m.1 m.2).1,
      m.3,
    )
unfolding link
Room-Inserted alloc release key size {h} {h₂} {p} {p₂} {p₃} {es} {r} m found old pre same_max
      same_algo k =
    let inside : (q : Ptr) → 0 < occurs q k.kept → 0 < occurs q (without r es) =
      λ q i. rw k.split (omega (arith, occurs-append q k.kept k.dropped)) in
    let absent : Absent m.1 key k.kept =
      Absent-frame h₂ m.1 key k.kept (λ q i. pre.absent q (inside q i)) k.frame in
    let (linked, element) = link-Linked alloc release m.0 key size k.linked k.fresh absent in
    record {
      kept = k.kept;
      dropped = k.dropped;
      split = ap (λ t. without t es) (sym found) ∙ k.split;
      linked = linked;
      fits = k.fits;
      element = element;
      cleared = h₂;
      heap = m.1;
      fresh = k.fresh;
      old_released = subst (λ t. OldReleased release t h h₂) found old;
      freed = k.freed;
      elsewhere = λ q n. rw (ne→== m.0 q (λ s. n (sym s)));
      untouched = λ q i.
          link-elsewhere alloc release m.0 key size k.linked k.fresh absent q i
          ∙ k.frame q i
          ∙ pre.frame q (inside q i);
      needed = λ l rest d. omega (arith, k.needed l rest d, same_max, pre.max_size);
      evictalgo = k.evictalgo ∙ same_algo ∙ pre.evictalgo;
      max_size = k.max_size ∙ same_max ∙ pre.max_size;
    }

-- With room for the value at all and memory to be had, an insert returns. It drops the old element
-- of the key and the least recently used others, none that need not go, and never more than
-- max_size bytes stay accounted. No freed memory is read and no assertion fails on the way.
pub hash_insert_refines :
    {alloc : Allocator} {release : Ptr → Heap → Run Heap} {h : Heap} (mem : Succeeds alloc h)
    (rel : Releaser release) (ts : List ℕ) (key size : ℕ) {p : Partition} {es : List Ptr}
    → Linked h p 0 es
    → p.evictalgo ≡ evict_lru
    → rounded_size size ≤ p.max_size
    → p.size ≤ p.max_size
    → p.max_size < 2 ^ 63
    → Returns (hash_insert alloc release ts key size h p) (Inserted alloc release key size h p es)
hash_insert_refines {alloc} {release} {h} mem rel ts key size {p} {es} v algo small fits bound =
    let ((r, p₁), run₁, u) = hash_lookup_refines key v in
    let (h₂, p₂, run₂, old, pre) = prepare alloc rel key es r u in
    let claimed = Linked-claim (rounded_size size) pre.linked (omega (arith, pre.smaller)) in
    let order : p₂.lru ≡ without r es = pre.linked.lru_order (pre.evictalgo ∙ algo) in
    let (m, run₃, k) =
      make_room-Room mem rel (size_at h) (length p₂.lru + length (concat p₂.table) + 1) ts size
        (without r es) claimed (pre.evictalgo ∙ algo) (rw pre.max_size small)
        (omega (arith, ap length order)) (λ q i. ap size_in (pre.frame q i)) pre.shrinks in
    (
      _,
      insert_run alloc release ts key size h p run₁ run₂ run₃,
      Room-Inserted alloc release key size m u.found old pre refl refl k,
    )
