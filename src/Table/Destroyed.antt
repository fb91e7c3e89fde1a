-- ===== src/Table/Destroyed.antt =====
-- The end of a table: every element of every partition is released once.
use smphash_table.Base.{
  ◌+◌, ◌≤◌, ◌<◌, ◌≡◌, refl, ap, ◌∙◌, List, [], ◌∷◌, ◌++◌, concat, arith, Returns, ℕ_discrete, ◌≢◌,
  ne→==,
}
use smphash_table.Memory.{Ptr, Heap}
use smphash_table.Partition.{Partition}
use smphash_table.Partition.Lists.{occurs, occurs-append, occurs-nil}
use smphash_table.Partition.Linked.{Linked-frame}
use smphash_table.Partition.Destroy.{AllReleased, released, destroy_hash_partition_refines}
use smphash_table.Table.{HashTable, destroy_partitions, destroy_hash_table}
use smphash_table.Table.Stats.{Stocked}

Stocked-frame :
    {h h' : Heap} (ps : List Partition) (ess : List (List Ptr))
    → Stocked h ps ess
    → ((q : Ptr) → 0 < occurs q (concat ess) → h' q ≡ h q)
    → Stocked h' ps ess
Stocked-frame [] (es ∷ ess) wrong same = absurd (omega arith)
Stocked-frame (p ∷ ps) [] wrong same = absurd (omega arith)
Stocked-frame [] [] stocked same = tt
Stocked-frame (p ∷ ps) (es ∷ ess) (v, within, rest) same =
    let count : (q : Ptr) → occurs q (es ++ concat ess) ≡ occurs q es + occurs q (concat ess) =
      λ q. occurs-append q es (concat ess) in
    (
      Linked-frame v (λ q i. same q (omega (arith, count q, i))),
      within,
      Stocked-frame ps ess rest (λ q i. same q (omega (arith, count q, i))),
    )

-- First some elements are released, and then others.
released_both :
    (es fs : List Ptr) (h h₁ h₂ : Heap)
    → ((q : Ptr) → occurs q (es ++ fs) ≤ 1)
    → AllReleased h es h₁
    → AllReleased h₁ fs h₂
    → AllReleased h (es ++ fs) h₂
released_both es fs h h₁ h₂ once first second q =
    let count = occurs-append q es fs in
    elim (ℕ_discrete (occurs q fs) 0) [
      | yes apart ↦
          let same : occurs q (es ++ fs) ≡ occurs q es = omega (arith, count, apart) in
          second q ∙ rw (apart, same) (first q)
      | no inside ↦
          let apart : occurs q es ≡ 0 = omega (arith, count, inside, once q) in
          let kept : h₁ q ≡ h q = first q ∙ rw apart in
          let here : occurs q (es ++ fs) ≢ 0 = λ e. omega (arith, e, count, inside) in
          second q
          ∙ rw (ne→== (occurs q fs) 0 inside, ne→== (occurs q (es ++ fs)) 0 here) (ap released kept)
    ]

destroy_partitions_lem :
    (h : Heap) (ps : List Partition) (ess : List (List Ptr))
    → Stocked h ps ess
    → ((q : Ptr) → occurs q (concat ess) ≤ 1)
    → Returns (destroy_partitions h ps) (AllReleased h (concat ess))
unfolding destroy_partitions
destroy_partitions_lem h [] (es ∷ ess) wrong once = absurd (omega arith)
destroy_partitions_lem h (p ∷ ps) [] wrong once = absurd (omega arith)
destroy_partitions_lem h [] [] stocked once = (h, refl, λ q. rw (occurs-nil q))
destroy_partitions_lem h (p ∷ ps) (es ∷ ess) (v, within, rest) once =
    let count : (q : Ptr) → occurs q (es ++ concat ess) ≡ occurs q es + occurs q (concat ess) =
      λ q. occurs-append q es (concat ess) in
    let (h₁, run, freed) = destroy_hash_partition_refines v in
    let away : (q : Ptr) → 0 < occurs q (concat ess) → h₁ q ≡ h q = λ q i.
      let apart : occurs q es ≡ 0 = omega (arith, count q, once q, i) in freed q ∙ rw apart in
    let (h₂, run', freed') =
      destroy_partitions_lem h₁ ps ess (Stocked-frame ps ess rest away)
        (λ q. omega (arith, count q, once q)) in
    (h₂, rw run run', released_both es (concat ess) h h₁ h₂ once freed freed')

-- A table whose partitions satisfy the invariant, each with elements of its own, is destroyed without
-- a failure, and every element has been released exactly once.
pub destroy_hash_table_refines :
    (h : Heap) (t : HashTable) (ess : List (List Ptr))
    → Stocked h t.partitions ess
    → ((q : Ptr) → occurs q (concat ess) ≤ 1)
    → Returns (destroy_hash_table h t) (AllReleased h (concat ess))
unfolding destroy_hash_table
destroy_hash_table_refines h t ess stocked once =
    destroy_partitions_lem h t.partitions ess stocked once
