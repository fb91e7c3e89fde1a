-- ===== src/Server/Releasing.antt =====
-- `case HASHOP_RELEASE`: a client gives a reference back, or marks its new value ready.
use smphash_table.Base.{
  ℕ, ◌+◌, ◌-◌, ◌%◌, ◌^◌, ◌<◌, ◌≡◌, ◌≢◌, ◌↔◌, refl, sym, ap, ◌∙◌, none, some, Bool, false, List,
  arith, ◌==◌, if◌then◌else◌, eq→==, ne→==, Returns, ℕ_discrete,
}
use smphash_table.Memory.{Ptr, put_count, dec64}
use smphash_table.Memory.Counts.{
  mp_release-put, put_count-elsewhere, put_count-here, put_count-freed,
}
use smphash_table.Memory.Life.{held-live, mp_release-Owns}
use smphash_table.Partition.Lists.{occurs}
use smphash_table.Partition.Linked.{Linked-recount, key_in, size_in}
use smphash_table.Server.{State, serve_release}
use smphash_table.Server.Serving.{Serving}

abbrev pub less : (Ptr → ℕ) → Ptr → Ptr → ℕ
less refs e q = if e == q then refs q - 1 else refs q

abbrev pub written : (Ptr → Bool) → Ptr → Ptr → Bool
written writing e q = if e == q then false else writing q

-- A client that holds a reference to an element releases it: the server does not fault, the
-- element has one reference less and is marked ready, and it is freed exactly if neither the table
-- nor a client holds it any longer.
pub serve_release_refines :
    {s : State} {es : List Ptr} {refs : Ptr → ℕ} {writing : Ptr → Bool} (e : Ptr)
    → Serving s es refs writing
    → 0 < refs e
    → Returns (serve_release e s) (λ s'.
      Serving s' es (less refs e) (written writing e)
      × ((s'.heap e ≡ none) ↔ (occurs e es + refs e ≡ 1)))
unfolding serve_release
serve_release_refines {s} {es} {refs} {writing} e z held =
    let (x, l, k) = held-live z.owns e (omega arith) in
    let c = dec64 (x.ref_count % 2 ^ 63) in
    let h' = put_count s.heap e x c in
    let run = mp_release-put e s.heap x l in
    let freed = put_count-freed e s.heap x l c in
    let count : c + 1 ≡ occurs e es + refs e = omega (arith, k.count, k.word) in
    let here : h' e ≡ (if c == 0 then none else some (record x { ref_count = c })) =
      put_count-here e s.heap x l c in
    (
      record s { heap = h' },
      rw run,
      (
        record {
          linked = Linked-recount z.linked (λ q i. elim (ℕ_discrete e q) [
            | yes same ↦
                let there : s.heap q ≡ some x = ap s.heap (sym same) ∙ l in
                let stays : c ≢ 0 = λ t. omega (arith, ap (λ n. occurs n es) same) in
                (
                  record x { ref_count = c },
                  ap h' (sym same) ∙ here ∙ rw (ne→== c 0 stays),
                  sym (ap key_in there),
                  sym (ap size_in there),
                )
            | no other ↦
                let (y, there) = z.linked.live q i in
                (
                  y,
                  put_count-elsewhere e s.heap x l c q (λ t. other (sym t)) ∙ there,
                  sym (ap key_in there),
                  sym (ap size_in there),
                )
          ]);
          algo = z.algo;
          fits = z.fits;
          bound = z.bound;
          owns =
              mp_release-Owns e z.owns run (rw (eq→== e e refl) (omega arith))
                (λ t.
                  absurd (let f = ap (λ b. if b then false else writing e) (eq→== e e refl) in cc))
                (λ _. rw (eq→== e e refl))
                (λ q n. (refl, rw (ne→== e q (λ t. n (sym t))), rw (ne→== e q (λ t. n (sym t)))));
        },
        (λ gone. omega (arith, freed.0 gone, count), λ one. freed.1 (omega (arith, one, count))),
      ),
    )
