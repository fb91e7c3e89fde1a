-- ===== src/Client/Doall/Sent.antt =====
-- The first loop of smp_hash_doall: what the servers owe while the queries are sent.
use native.Mathlib.Nat.{mod-lt}
use smphash_table.Base.{
  ℕ, zero, suc, ◌+◌, ◌-◌, ◌%◌, ◌^◌, ◌≤◌, ◌<◌, ◌≡◌, refl, sym, ap, ◌∙◌, List, [], ◌∷◌, ◌++◌,
  append_assoc, length, length-append, length-set, get_or, get_or-set, drop, arith, ◌==◌,
  if◌then◌else◌, eq→==, ne→==, ℕ_discrete,
}
use smphash_table.Protocol.{HashQuery}
use smphash_table.Partition.Lists.{occurs, occurs-cons, occurs-append, occurs-one}
use smphash_table.Client.{max_pending_per_server}
use smphash_table.Client.Ports.{Service, Changed, results, results-append, results-popped}
use smphash_table.Client.Owed.{owes_rest, owes_more}
use smphash_table.Client.Doall.{Doall, server_of, put_value, count_sent}

-- The servers of some queries.
abbrev pub servers : ℕ → List HashQuery → List ℕ
servers nservers [] = []
servers nservers (q ∷ qs) = server_of nservers q ∷ servers nservers qs

servers-append :
    (nservers : ℕ) (qs rs : List HashQuery)
    → servers nservers (qs ++ rs) ≡ servers nservers qs ++ servers nservers rs
servers-append nservers [] rs = refl
servers-append nservers (q ∷ qs) rs =
    ap (λ t. server_of nservers q ∷ t) (servers-append nservers qs rs)

pub get_or_of-drop :
    (k : ℕ) (qs : List HashQuery) (q d : HashQuery) (rest : List HashQuery)
    → drop k qs ≡ q ∷ rest
    → get_or qs k d ≡ q
get_or_of-drop zero [] q d rest e = ap (λ l. get_or l 0 d) e
get_or_of-drop zero (x ∷ xs) q d rest e = ap (λ l. get_or l 0 d) e
get_or_of-drop (suc k) [] q d rest e = ap (λ l. get_or l 0 d) e
get_or_of-drop (suc k) (x ∷ xs) q d rest e = get_or_of-drop k xs q d rest e

pub drop_next :
    (k : ℕ) (qs : List HashQuery) (q : HashQuery) (rest : List HashQuery)
    → drop k qs ≡ q ∷ rest
    → drop (k + 1) qs ≡ rest
drop_next zero [] q rest e = ap (drop 1) e
drop_next zero (x ∷ xs) q rest e = ap (drop 1) e
drop_next (suc k) [] q rest e = absurd (omega (arith, ap length e))
drop_next (suc k) (x ∷ xs) q rest e =
    let sum : suc k + 1 ≡ suc (k + 1) = omega arith in
    ap (λ t. drop t (x ∷ xs)) sum ∙ drop_next k xs q rest e

module _ {W V : Type 0} (S : Service W V) (nservers : ℕ) (queries : List HashQuery) where
  -- The queries `pending` are sent and not answered, those of `todo` are not sent, and `answers` are
  -- the answers to all that are sent.
  pub record Owing (st : Doall) (w : W) (pending todo : List HashQuery) (answers : List ℕ)
      : Type 0 where
    pub good : S.good w
    pub owes : (t : ℕ) → length (S.expects w t) ≡ occurs t (servers nservers pending)
    pub few : (t : ℕ) → occurs t (servers nservers pending) ≤ max_pending_per_server
    pub counts :
        (t : ℕ) → t < nservers → get_or st.pending_count t 0 ≡ occurs t (servers nservers pending)
    pub counters : length st.pending_count ≡ nservers
    pub all : st.values ++ results (S.expects w) (servers nservers pending) ≡ answers
    pub place : drop (length st.values) queries ≡ pending ++ todo

module _ {W V : Type 0} {S : Service W V} {nservers : ℕ} {queries : List HashQuery}
    (some_server : 0 < nservers) where
  -- The oldest answer is read.
  pub popped-Owing :
      {st : Doall} {w w' : W} {q : HashQuery} {pending todo : List HashQuery} {answers : List ℕ}
      {x : ℕ} {rest : List ℕ}
      → Owing S nservers queries st w (q ∷ pending) todo answers
      → S.expects w (server_of nservers q) ≡ x ∷ rest
      → S.good w'
      → Changed S.expects w w' (server_of nservers q) rest
      → Owing S nservers queries (put_value st (server_of nservers q) x) w' pending todo answers
  popped-Owing {st} {w} {w'} {q} {pending} {todo} {answers} {x} {rest} v e good (now, others) =
      let p = server_of nservers q in
      let c = (get_or st.pending_count p 0 + 2 ^ 32 - 1) % 2 ^ 32 in
      let inside : p < length st.pending_count =
        omega (arith, mod-lt q.key some_server, v.counters) in
      let one_less : (t : ℕ)
          → occurs t (p ∷ servers nservers pending)
            ≡ (if t == p then 1 else 0) + occurs t (servers nservers pending) =
        λ t. occurs-cons t p (servers nservers pending) in
      record {
        good = good;
        owes =
            owes_rest (S.expects w) (S.expects w') p (servers nservers pending) v.owes e now others;
        few = λ t. ground (arith, one_less t, v.few t);
        counts = λ t h. get_or-set st.pending_count p t c 0 inside ∙ elim (ℕ_discrete p t) [
          | yes same ↦
              rw (eq→== p t same)
                (ground (arith, one_less t, v.counts p (omega (arith, same)), same, v.few p))
          | no other ↦ rw (ne→== p t other) (v.counts t h ∙ ground (arith, one_less t))
        ];
        counters = length-set st.pending_count p c ∙ v.counters;
        all =
            append_assoc st.values (x ∷ []) (results (S.expects w') (servers nservers pending))
            ∙ ap (λ l. st.values ++ l)
                (sym (
                  results-popped (S.expects w) (S.expects w') p (servers nservers pending) e now
                    others))
            ∙ v.all;
        place =
            ap (λ k. drop k queries) (length-append st.values (x ∷ []))
            ∙ drop_next (length st.values) queries q (pending ++ todo) v.place;
      }

  -- One more query is sent.
  pub sent-Owing :
      {st : Doall} {w w' : W} {q : HashQuery} {pending todo : List HashQuery} {answers : List ℕ}
      (a : ℕ)
      → Owing S nservers queries st w pending (q ∷ todo) answers
      → occurs (server_of nservers q) (servers nservers pending) < max_pending_per_server
      → S.good w'
      → Changed S.expects w w' (server_of nservers q) (S.expects w (server_of nservers q) ++ a ∷ [])
      → Owing S nservers queries
          (count_sent st (server_of nservers q))
          w'
          (pending ++ q ∷ [])
          todo
          (answers ++ a ∷ [])
  sent-Owing {st} {w} {w'} {q} {pending} {todo} {answers} a v room good (now, others) =
      let s = server_of nservers q in
      let c = (get_or st.pending_count s 0 + 1) % 2 ^ 32 in
      let inside : s < length st.pending_count =
        omega (arith, mod-lt q.key some_server, v.counters) in
      let all_servers = servers-append nservers pending (q ∷ []) in
      let one_more : (t : ℕ)
          → occurs t (servers nservers (pending ++ q ∷ []))
            ≡ occurs t (servers nservers pending) + (if t == s then 1 else 0) =
        λ t.
          ap (occurs t) all_servers
          ∙ occurs-append t (servers nservers pending) (s ∷ [])
          ∙ ap (λ n. occurs t (servers nservers pending) + n) (occurs-one t s) in
      record {
        good = good;
        owes = λ t.
            owes_more (S.expects w) (S.expects w') s a (servers nservers pending) v.owes now others
              t
            ∙ ap (occurs t) (sym all_servers);
        few = λ t. ground (arith, one_more t, v.few t, room);
        counts = λ t h. get_or-set st.pending_count s t c 0 inside ∙ elim (ℕ_discrete s t) [
          | yes same ↦
              rw (eq→== s t same)
                (ground (arith, one_more t, v.counts s (omega (arith, same)), same, room))
          | no other ↦ rw (ne→== s t other) (v.counts t h ∙ ground (arith, one_more t))
        ];
        counters = length-set st.pending_count s c ∙ v.counters;
        all =
            ap (λ l. st.values ++ results (S.expects w') l) all_servers
            ∙ ap (λ l. st.values ++ l)
                (results-append (S.expects w) (S.expects w') (servers nservers pending) s a v.owes
                  now others)
            ∙ sym
                (append_assoc st.values (results (S.expects w) (servers nservers pending)) (a ∷ []))
            ∙ ap (λ l. l ++ a ∷ []) v.all;
        place = v.place ∙ sym (append_assoc pending (q ∷ []) todo);
      }
