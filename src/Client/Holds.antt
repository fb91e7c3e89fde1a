-- ===== src/Client/Holds.antt =====
-- The pending data of a client as two queues: the answers that are read and not yet handed out, and
-- the servers of the requests without an answer.
use smphash_table.Base.{
  ℕ, suc, ◌+◌, ◌-◌, ◌%◌, ◌^◌, ◌≤◌, ◌<◌, ◌≡◌, refl, sym, ap, ◌∙◌, some, List, [], ◌∷◌, ◌++◌, length,
  length-append, length-set, get_or, get_or-set, get_or-replicate, set, arith, bit_and_mask, ◌==◌,
  leb, if◌then◌else◌, eq→==, ne→==, ℕ_discrete,
}
use smphash_table.Ring.{window, window_congr, window-set, window-cons}
use smphash_table.Partition.Lists.{occurs, occurs-cons, occurs-append, occurs-one, occurs-nil}
use smphash_table.Client.{
  Pending, max_pending_size, max_pending_per_server, slot, too_many, is_full, received, enqueued,
  taken, new_pending,
}

pub record Holds (pd : Pending) (vs qs : List ℕ) : Type 0 where
  pub values_size : length pd.pending_values ≡ max_pending_size
  pub servers_size : length pd.pending_servers ≡ max_pending_size
  pub room : length vs + length qs ≤ max_pending_size
  pub rd_in : pd.rd_index < 2 ^ 64
  pub wr_at : pd.wr_index ≡ (pd.rd_index + length vs) % 2 ^ 64
  pub pending_at : pd.pending_index ≡ (pd.rd_index + (length vs + length qs)) % 2 ^ 64
  pub values : window max_pending_size 0 pd.pending_values pd.rd_index (length vs) ≡ vs
  pub servers : window max_pending_size 0 pd.pending_servers pd.wr_index (length qs) ≡ qs
  pub counts : (s : ℕ) → s < length pd.pending_count → get_or pd.pending_count s 0 ≡ occurs s qs
  pub counts_in : (s : ℕ) → occurs s qs ≤ max_pending_per_server
  pub servers_in : (s : ℕ) → 0 < occurs s qs → s < length pd.pending_count

slot_mod : (i : ℕ) → slot i ≡ i % max_pending_size
slot_mod i = bit_and_mask 16 i

pub new_pending-Holds :
    (values servers : List ℕ) (nservers : ℕ)
    → length values ≡ max_pending_size
    → length servers ≡ max_pending_size
    → Holds (new_pending values servers nservers) [] []
new_pending-Holds values servers nservers fits fits' = record {
  values_size = fits;
  servers_size = fits';
  room = omega arith;
  rd_in = omega arith;
  wr_at = refl;
  pending_at = refl;
  values = refl;
  servers = refl;
  counts = λ s h. get_or-replicate nservers s 0 ∙ sym (occurs-nil s);
  counts_in = λ s. omega (arith, occurs-nil s);
  servers_in = λ s i. absurd (omega (arith, occurs-nil s));
}

one_longer : (n : ℕ) → n + 1 ≡ suc n
one_longer n = omega arith

module _ {pd : Pending} {vs qs : List ℕ} (v : Holds pd vs qs) where
  pub too_many-count :
      (s : ℕ)
      → s < length pd.pending_count
      → too_many (get_or pd.pending_count s 0) ≡ leb max_pending_per_server (occurs s qs)
  too_many-count s h = rw (v.counts s h) (ground (arith, v.counts_in s))

  pub is_full-room : is_full pd ≡ leb max_pending_size (length vs + length qs)
  is_full-room = ap (leb max_pending_size) (omega (arith, v.pending_at, v.rd_in, v.room))

  -- The loop has as many rounds as requests are pending.
  pub pending_rounds : (pd.pending_index + 2 ^ 64 - pd.wr_index) % 2 ^ 64 ≡ length qs
  pending_rounds = omega (arith, v.pending_at, v.wr_at, v.room)

  pub enqueued-Holds :
      (s : ℕ)
      → length vs + length qs < max_pending_size
      → s < length pd.pending_count
      → occurs s qs < max_pending_per_server
      → Holds (enqueued pd s) vs (qs ++ s ∷ [])
  enqueued-Holds s room inside few =
      let one_more : (t : ℕ) → occurs t (qs ++ s ∷ []) ≡ occurs t qs + (if t == s then 1 else 0) =
        λ t. omega (arith, occurs-append t qs (s ∷ []), occurs-one t s) in
      let same_length =
        length-set pd.pending_count s ((get_or pd.pending_count s 0 + 1) % 2 ^ 32) in
      let longer = length-append qs (s ∷ []) in
      record {
        values_size = v.values_size;
        servers_size = length-set pd.pending_servers (slot pd.pending_index) s ∙ v.servers_size;
        room = omega arith;
        rd_in = v.rd_in;
        wr_at = v.wr_at;
        pending_at = omega (arith, v.pending_at);
        values = v.values;
        servers =
            ap
              (window max_pending_size 0 (set pd.pending_servers (slot pd.pending_index) s)
                pd.wr_index)
              (longer ∙ one_longer (length qs))
            ∙ window-set max_pending_size 0 pd.pending_servers pd.wr_index (length qs)
                (slot pd.pending_index) s (omega (arith, v.servers_size)) (omega arith)
                (slot_mod pd.pending_index ∙ omega (arith, v.pending_at, v.wr_at))
            ∙ ap (λ l. l ++ s ∷ []) v.servers;
        counts = λ t h.
            get_or-set pd.pending_count s t ((get_or pd.pending_count s 0 + 1) % 2 ^ 32) 0 inside
            ∙ elim (ℕ_discrete s t) [
              | yes same ↦
                  rw (eq→== s t same) (ground (arith, one_more t, v.counts s inside, same, few))
              | no other ↦
                  rw (ne→== s t other)
                    (v.counts t (omega (arith, same_length)) ∙ ground (arith, one_more t))
            ];
        counts_in = λ t. ground (arith, one_more t, v.counts_in t);
        servers_in = λ t h. elim (ℕ_discrete t s) [
          | yes same ↦ omega (arith, same_length)
          | no other ↦
              let i = v.servers_in t (ground (arith, one_more t)) in omega (arith, same_length)
        ];
      }

module _ {pd : Pending} {vs qs : List ℕ} {p : ℕ} (v : Holds pd vs (p ∷ qs)) where
  pub next_server : get_or pd.pending_servers (slot pd.wr_index) 0 ≡ p
  next_server =
      ap (λ i. get_or pd.pending_servers i 0) (slot_mod pd.wr_index)
      ∙ (window-cons max_pending_size 0 pd.pending_servers pd.wr_index (length qs) v.servers).0

  pub received-Holds : (val : ℕ) → Holds (received pd p val) (vs ++ val ∷ []) qs
  received-Holds val =
      let one_less : (t : ℕ) → occurs t (p ∷ qs) ≡ (if t == p then 1 else 0) + occurs t qs =
        λ t. occurs-cons t p qs in
      let c = (get_or pd.pending_count p 0 + 2 ^ 32 - 1) % 2 ^ 32 in
      let inside : p < length pd.pending_count = v.servers_in p (ground (arith, one_less p)) in
      let same_length = length-set pd.pending_count p c in
      let longer = length-append vs (val ∷ []) in
      record {
        values_size = length-set pd.pending_values (slot pd.wr_index) val ∙ v.values_size;
        servers_size = v.servers_size;
        room = omega (arith, v.room);
        rd_in = v.rd_in;
        wr_at = omega (arith, v.wr_at);
        pending_at = omega (arith, v.pending_at);
        values =
            ap
              (window max_pending_size 0 (set pd.pending_values (slot pd.wr_index) val) pd.rd_index)
              (longer ∙ one_longer (length vs))
            ∙ window-set max_pending_size 0 pd.pending_values pd.rd_index (length vs)
                (slot pd.wr_index) val (omega (arith, v.values_size)) (omega (arith, v.room))
                (slot_mod pd.wr_index ∙ omega (arith, v.wr_at))
            ∙ ap (λ l. l ++ val ∷ []) v.values;
        servers =
            window_congr max_pending_size 0 pd.pending_servers ((pd.wr_index + 1) % 2 ^ 64)
              (suc pd.wr_index) (length qs) (omega arith) (omega arith)
            ∙ (window-cons max_pending_size 0 pd.pending_servers pd.wr_index (length qs)
                v.servers).1;
        counts = λ t h. get_or-set pd.pending_count p t c 0 inside ∙ elim (ℕ_discrete p t) [
          | yes same ↦
              rw (eq→== p t same)
                (ground (arith, one_less t, v.counts p inside, same, v.counts_in p))
          | no other ↦
              rw (ne→== p t other)
                (v.counts t (omega (arith, same_length)) ∙ ground (arith, one_less t))
        ];
        counts_in = λ t. ground (arith, one_less t, v.counts_in t);
        servers_in = λ t h.
            let i = v.servers_in t (ground (arith, one_less t)) in omega (arith, same_length);
      }

-- The oldest answer is handed out.
pub taken-Holds :
    {pd : Pending} {vs qs : List ℕ} {x : ℕ}
    → Holds pd (x ∷ vs) qs
    → ((taken pd).0 ≡ some x) × Holds (taken pd).1 vs qs
taken-Holds {pd} {vs} {qs} {x} v =
    let (head, rest) =
      window-cons max_pending_size 0 pd.pending_values pd.rd_index (length vs) v.values in
    (
      ap some (ap (λ i. get_or pd.pending_values i 0) (slot_mod pd.rd_index) ∙ head),
      record {
        values_size = v.values_size;
        servers_size = v.servers_size;
        room = omega (arith, v.room);
        rd_in = omega arith;
        wr_at = omega (arith, v.wr_at);
        pending_at = omega (arith, v.pending_at);
        values =
            window_congr max_pending_size 0 pd.pending_values ((pd.rd_index + 1) % 2 ^ 64)
              (suc pd.rd_index) (length vs) (omega arith) (omega arith)
            ∙ rest;
        servers = v.servers;
        counts = v.counts;
        counts_in = v.counts_in;
        servers_in = v.servers_in;
      },
    )
