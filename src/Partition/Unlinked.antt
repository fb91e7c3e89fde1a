-- ===== src/Partition/Unlinked.antt =====
-- Ownership of the memory through hash_insert: what the table drops loses its entry and nothing else.
use smphash_table.Base.{
  ℕ, ◌+◌, ◌≤◌, ◌≡◌, ◌≢◌, refl, sym, ap, subst, ◌∙◌, Option, none, some, List, [], ◌∷◌, arith, ◌==◌,
  if◌then◌else◌, eq→==, ne→==, Run, ok,
}
use smphash_table.Memory.{Ptr, Heap}
use smphash_table.Partition.{Partition, Allocator, remove}
use smphash_table.Partition.Lists.{occurs, occurs-append, occurs-one, occurs-remove, occurs-nil}
use smphash_table.Partition.Lookup.{find, find-some}
use smphash_table.Partition.Remove.{occurs-remove-le}
use smphash_table.Partition.Evict.{Released, nothing, before}
use smphash_table.Partition.Insert.{without, OldReleased, Inserted}

-- `Own h n`: the memory is owned, with `n` entries of the table for each element.
pub record Unlinks (release : Ptr → Heap → Run Heap) (Own : Heap → (Ptr → ℕ) → Type 0)
    : Type 0 where
  pub same : (h : Heap) (n n' : Ptr → ℕ) → Own h n → ((q : Ptr) → n' q ≡ n q) → Own h n'
  pub unlink :
      (h h' : Heap) (n n' : Ptr → ℕ) (e : Ptr)
      → Own h n
      → release e h ≡ ok h'
      → n e ≡ 1
      → n' e ≡ 0
      → ((q : Ptr) → q ≢ e → n' q ≡ n q)
      → Own h' n'

occurs-without : (q : Ptr) (r : Option Ptr) (es : List Ptr) → occurs q (without r es) ≤ occurs q es
occurs-without q none es = omega arith
occurs-without q (some e) es = occurs-remove-le q e es

module _ {release : Ptr → Heap → Run Heap} {Own : Heap → (Ptr → ℕ) → Type 0}
    (law : Unlinks release Own) where
  dropped-Own :
      (h h' : Heap) (ds : List Ptr) (n : Ptr → ℕ)
      → Released release h ds h'
      → Own h (λ q. n q + occurs q ds)
      → ((q : Ptr) → n q + occurs q ds ≤ 1)
      → Own h' n
  dropped-Own _ _ _ n (nothing h) o once =
      law.same h (λ q. n q + occurs q []) n o (λ q. omega (arith, occurs-nil q))
  dropped-Own _ _ _ n (before h h₁ h' ds es l e run rest) o once =
      let split : (q : Ptr) → occurs q es ≡ occurs q ds + (if q == l then 1 else 0) =
        λ q. ap (occurs q) e ∙ omega (arith, occurs-append q ds (l ∷ []), occurs-one q l) in
      let at_l : occurs l es ≡ occurs l ds + 1 =
        split l ∙ ap (λ b. occurs l ds + (if b then 1 else 0)) (eq→== l l refl) in
      let away : (q : Ptr) → q ≢ l → occurs q es ≡ occurs q ds =
        λ q m. ground (arith, split q, ne→== q l m) in
      let less =
        law.unlink h h₁ (λ q. n q + occurs q es) (λ q. n q + occurs q ds) l o run
          (omega (arith, once l)) (omega (arith, once l)) (λ q m. omega (arith, away q m)) in
      dropped-Own h₁ h' ds n rest less (λ q. ground (arith, once q, split q))

  old-Own :
      (h h' : Heap) (es : List Ptr) (r : Option Ptr)
      → OldReleased release r h h'
      → ((e : Ptr) → r ≡ some e → occurs e es ≡ 1)
      → Own h (λ q. occurs q es)
      → Own h' (λ q. occurs q (without r es))
  old-Own h h' es none same one o = subst (λ g. Own g (λ q. occurs q es)) (sym same) o
  old-Own h h' es (some e) run one o =
      law.unlink h h' (λ q. occurs q es) (λ q. occurs q (remove e es)) e o run (one e refl)
        (ground (arith, occurs-remove e e es, one e refl))
        (λ q n. ground (arith, occurs-remove q e es))

  -- What is owned before the new element is placed.
  pub kept-Own :
      {alloc : Allocator} {key size : ℕ} {h : Heap} {p : Partition} {es : List Ptr}
      {r : Ptr × Heap × Partition × List ℕ} (k : Inserted alloc release key size h p es r)
      → ((q : Ptr) → occurs q es ≤ 1)
      → Own h (λ q. occurs q es)
      → Own k.heap (λ q. occurs q k.kept)
  kept-Own {alloc} {key} {size} {h} {p} {es} k once o =
      let found = find h key es in
      let both : (q : Ptr) → occurs q (without found es) ≡ occurs q k.kept + occurs q k.dropped =
        λ q. ap (occurs q) k.split ∙ occurs-append q k.kept k.dropped in
      let o₁ =
        old-Own h k.cleared es found k.old_released
          (λ q f. let (i, same_key) = find-some h key es q f in omega (arith, once q)) o in
      dropped-Own k.cleared k.heap k.dropped (λ q. occurs q k.kept) k.freed
        (law.same k.cleared (λ q. occurs q (without found es))
          (λ q. occurs q k.kept + occurs q k.dropped) o₁ (λ q. sym (both q)))
        (λ q. omega (arith, both q, occurs-without q found es, once q))
