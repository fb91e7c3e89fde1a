-- ===== src/Protocol/Bytes.antt =====
-- The bytes of integers and of queries, there and back.
use native.Mathlib.Nat.{pow-suc}
use smphash_table.Base.{ℕ, zero, suc, ◌/◌, ◌^◌, ◌<◌, ◌≡◌, refl, ap, length, arith}
use smphash_table.Protocol.{HashQuery, le_bytes, le_value, query_bytes, query_of}

pub length-le_bytes : (width n : ℕ) → length (le_bytes width n) ≡ width
unfolding le_bytes
length-le_bytes zero n = refl
length-le_bytes (suc width) n = ap suc (length-le_bytes width (n / 256))

-- An integer that fits its width comes back from its bytes.
pub le_value-le_bytes : (width n : ℕ) → n < 256 ^ width → le_value (le_bytes width n) ≡ n
unfolding le_bytes le_value
le_value-le_bytes zero n fits = omega arith
le_value-le_bytes (suc width) n fits =
    let bound : n / 256 < 256 ^ width = omega (arith, pow-suc 256 width, fits) in
    let rest = le_value-le_bytes width (n / 256) bound in omega (arith, rest)

pub length-query_bytes : (q : HashQuery) → length (query_bytes q) ≡ 16
unfolding query_bytes le_bytes
length-query_bytes q = refl

-- A query whose fields fit their widths comes back from its bytes.
pub query_of-query_bytes :
    (q : HashQuery)
    → q.optype < 2 ^ 32
    → q.size < 2 ^ 32
    → q.key < 2 ^ 64
    → query_of (query_bytes q) ≡ q
unfolding query_of query_bytes le_bytes
query_of-query_bytes q op size key =
    same_query (le_value-le_bytes 4 q.optype op) (le_value-le_bytes 4 q.size size)
      (le_value-le_bytes 8 q.key key)
  where
    same_query :
        {a b c a' b' c' : ℕ}
        → a ≡ a'
        → b ≡ b'
        → c ≡ c'
        → ◌≡◌ {A = HashQuery}
            (record { optype = a; size = b; key = c })
            (record { optype = a'; size = b'; key = c' })
    same_query p q r = rw (p, q, r)
