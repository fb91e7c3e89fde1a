-- ===== src/Channel/Handled.antt =====
-- Requests that a server handles without a fault, in order.
use smphash_table.Base.{
  ℕ, ◌≡◌, refl, sym, ap, ◌∙◌, List, [], ◌∷◌, ◌++◌, append_assoc, append-nil, ok, ◌>>=◌,
}
use smphash_table.Message.{Request}
use smphash_table.Partition.{Allocator}
use smphash_table.Server.{State}
use smphash_table.Server.Batch.{handle, handle_all}

module _ (alloc : Allocator) where
  -- The answers to some requests from state `s`, and the state behind them.
  abbrev pub Handles : List Request → State → List ℕ → State → Type 0
  Handles [] s out f = (out ≡ []) × (f ≡ s)
  Handles (r ∷ rs) s out f =
      (first : List ℕ) × (s' : State) × (rest : List ℕ) × (handle alloc r s ≡ ok (first, s'))
      × (out ≡ first ++ rest)
      × Handles rs s' rest f

  pub Handles-handle_all :
      (rs : List Request) (before : List ℕ) (s : State) (out : List ℕ) (f : State)
      → Handles rs s out f
      → handle_all alloc rs before s ≡ ok (before ++ out, f)
  Handles-handle_all [] before s out f (none_left, same) =
      ap (λ l. ok (l, s)) (sym (append-nil before) ∙ ap (λ l. before ++ l) (sym none_left))
      ∙ ap (λ t. ok (before ++ out, t)) (sym same)
  Handles-handle_all (r ∷ rs) before s out f (first, s', rest, run, e, h) =
      ap (λ m. m >>= λ (vs, t). handle_all alloc rs (before ++ vs) t) run
      ∙ Handles-handle_all rs (before ++ first) s' rest f h
      ∙ ap (λ l. ok (l, f)) (append_assoc before first rest ∙ ap (λ l. before ++ l) (sym e))

  -- The requests of a batch, and those behind it.
  pub Handles-split :
      (rs later : List Request) (s : State) (out : List ℕ) (f : State)
      → Handles (rs ++ later) s out f
      → (first : List ℕ) × (s' : State) × (rest : List ℕ) × Handles rs s first s'
        × Handles later s' rest f
        × (out ≡ first ++ rest)
  Handles-split [] later s out f h = ([], s, out, (refl, refl), h, refl)
  Handles-split (r ∷ rs) later s out f (first, s', rest, run, e, h) =
      let (o₁, s₁, o₂, h₁, h₂, e') = Handles-split rs later s' rest f h in
      (
        first ++ o₁,
        s₁,
        o₂,
        (first, s', o₁, run, refl, h₁),
        h₂,
        e ∙ ap (λ l. first ++ l) e' ∙ sym (append_assoc first o₁ o₂),
      )

  -- One request more.
  pub Handles-append :
      (rs : List Request) (r : Request) (s : State) (out : List ℕ) (f f' : State) (vs : List ℕ)
      → Handles rs s out f
      → handle alloc r f ≡ ok (vs, f')
      → Handles (rs ++ r ∷ []) s (out ++ vs) f'
  Handles-append [] r s out f f' vs (none_left, same) run = (
    vs,
    f',
    [],
    ap (handle alloc r) (sym same) ∙ run,
    ap (λ l. l ++ vs) none_left ∙ sym (append-nil vs),
    (refl, refl),
  )
  Handles-append (q ∷ rs) r s out f f' vs (first, s', rest, one, e, h) run = (
    first,
    s',
    rest ++ vs,
    one,
    ap (λ l. l ++ vs) e ∙ append_assoc first rest vs,
    Handles-append rs r s' rest f f' vs h run,
  )
