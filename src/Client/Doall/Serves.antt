-- ===== src/Client/Doall/Serves.antt =====
-- The queries that the servers can answer, and the answers that the servers give one by one.
use smphash_table.Base.{
  ℕ, ◌<◌, ◌≡◌, ◌≢◌, ◌⊎◌, refl, sym, ap, subst, ◌∙◌, List, [], ◌∷◌, ◌==◌, if◌then◌else◌,
}
use smphash_table.Protocol.{HashQuery, optype_lookup, optype_insert}
use smphash_table.Message.{Request, lookup, insert, op_bits}
use smphash_table.Client.Ports.{Service, next_view}
use smphash_table.Client.Doall.{server_of}

-- The request that a query makes.
abbrev pub request_of : HashQuery → Request
request_of q = if q.optype == optype_lookup then lookup q.key else insert q.key q.size

-- A query that may be sent: of a known operation, with a key below 2^60 and no empty value.
abbrev pub Sendable : HashQuery → Type 0
Sendable q =
    (q.key < op_bits) × ((q.optype ≡ optype_lookup) ⊎ ((q.optype ≡ optype_insert) × (q.size ≢ 0)))

abbrev pub AllSendable : List HashQuery → Type 0
AllSendable [] = Unit
AllSendable (q ∷ qs) = Sendable q × AllSendable qs

-- The answers, if the queries are served one after the other, each by the server of its key.
unfoldable pub serve_in_order :
    {V : Type 0} → (V → Request → ℕ × V) → ℕ → (ℕ → V) → List HashQuery → List ℕ
serve_in_order step nservers views [] = []
serve_in_order step nservers views (q ∷ qs) =
    let s = server_of nservers q in
    let r = request_of q in
    (step (views s) r).0 ∷ serve_in_order step nservers (next_view step views s r) qs

pub serve_in_order_congr :
    {V : Type 0} (step : V → Request → ℕ × V) (nservers : ℕ) (views views' : ℕ → V)
    (qs : List HashQuery)
    → ((t : ℕ) → views' t ≡ views t)
    → serve_in_order step nservers views' qs ≡ serve_in_order step nservers views qs
unfolding serve_in_order
serve_in_order_congr step nservers views views' [] same = refl
serve_in_order_congr step nservers views views' (q ∷ qs) same =
    let s = server_of nservers q in
    let r = request_of q in
    ap (λ v. (step v r).0 ∷ serve_in_order step nservers (next_view step views' s r) qs) (same s)
    ∙ ap (λ l. (step (views s) r).0 ∷ l)
        (serve_in_order_congr step nservers (next_view step views s r) (next_view step views' s r)
          qs
          (λ t.
            ap (λ v. if t == s then (step v r).1 else views' t) (same s)
            ∙ ap (λ v. if t == s then (step (views s) r).1 else v) (same t)))

-- Each query is one that its server can answer, behind those before it.
abbrev pub AllServable : {W V : Type 0} → Service W V → ℕ → (ℕ → V) → List HashQuery → Type 0
AllServable S nservers views [] = Unit
AllServable S nservers views (q ∷ qs) =
    S.can (views (server_of nservers q)) (request_of q)
    × AllServable S nservers (next_view S.step views (server_of nservers q) (request_of q)) qs

pub next_view_congr :
    {V : Type 0} (step : V → Request → ℕ × V) (views views' : ℕ → V) (s : ℕ) (r : Request)
    → ((t : ℕ) → views' t ≡ views t)
    → (t : ℕ) → next_view step views' s r t ≡ next_view step views s r t
next_view_congr step views views' s r same t =
    ap (λ v. if t == s then (step v r).1 else views' t) (same s)
    ∙ ap (λ v. if t == s then (step (views s) r).1 else v) (same t)

pub AllServable-congr :
    {W V : Type 0} (S : Service W V) (nservers : ℕ) (views views' : ℕ → V) (qs : List HashQuery)
    → ((t : ℕ) → views' t ≡ views t)
    → AllServable S nservers views qs
    → AllServable S nservers views' qs
AllServable-congr S nservers views views' [] same all = tt
AllServable-congr S nservers views views' (q ∷ qs) same (one, others) =
    let s = server_of nservers q in
    (
      subst (λ v. S.can v (request_of q)) (sym (same s)) one,
      AllServable-congr S nservers (next_view S.step views s (request_of q))
          (next_view S.step views' s (request_of q)) qs
          (next_view_congr S.step views views' s (request_of q) same) others,
    )
