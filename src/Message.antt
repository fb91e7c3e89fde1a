-- ===== src/Message.antt =====
-- The words of a request: an operation in the top four bits, and a key or an address below it.
use smphash_table.Base.{
  ℕ, ◌+◌, ◌*◌, ◌^◌, ◌<◌, ◌≡◌, ◌≢◌, ap, ◌∙◌, List, [], ◌∷◌, arith, bit_and, bit_or, bit_and_mask,
  bit_and_low, bit_and_high, bit_or_high, zero-bit_or_lem,
}
use smphash_table.Inbuf.Lines.{NonZero}

-- HASHOP_MASK and its complement, HASHOP_LOOKUP, HASHOP_INSERT, HASHOP_RELEASE
abbrev pub hashop_mask : ℕ
hashop_mask = 0xf000_0000_0000_0000

abbrev pub not_hashop_mask : ℕ
not_hashop_mask = 0x0fff_ffff_ffff_ffff

abbrev pub hashop_lookup : ℕ
hashop_lookup = 0x1000_0000_0000_0000

abbrev pub hashop_insert : ℕ
hashop_insert = 0x2000_0000_0000_0000

abbrev pub hashop_release : ℕ
hashop_release = 0x3000_0000_0000_0000

-- What a client asks of a server.
pub data Request : Type 0 where
  lookup : (key : ℕ) → Request
  insert : (key size : ℕ) → Request
  release : (e : ℕ) → Request

-- The words that `smp_hash_lookup`, `smp_hash_insert` and `mp_send_release_msg_` write.
unfoldable pub encode : Request → List ℕ
encode (lookup key) = bit_or key hashop_lookup ∷ []
encode (insert key size) = bit_or key hashop_insert ∷ size ∷ []
encode (release e) = bit_or e hashop_release ∷ []

abbrev pub operand : Request → ℕ
operand (lookup key) = key
operand (insert key size) = key
operand (release e) = e

abbrev pub op_bits : ℕ
op_bits = 2 ^ 60

-- The key or the address leaves the top four bits free, and a size is not zero.
abbrev pub Fits : Request → Type 0
Fits (lookup key) = key < op_bits
Fits (insert key size) = (key < op_bits) × (size ≢ 0)
Fits (release e) = e < op_bits

or_op : (key op : ℕ) → key < op_bits → bit_or key (op * 2 ^ 60) ≡ op * 2 ^ 60 + key
or_op key op h =
    let none_above : key ≡ 0 * 2 ^ 60 + key = omega arith in
    ap (λ k. bit_or k (op * 2 ^ 60)) none_above
    ∙ bit_or_high 60 0 key op h
    ∙ ap (λ t. t * 2 ^ 60 + key) (zero-bit_or_lem op)

-- Both halves of a word come back, for a key that leaves the top bits free.
pub word_parts :
    (key op : ℕ)
    → key < op_bits
    → op < 16
    → (bit_and (bit_or key (op * 2 ^ 60)) hashop_mask ≡ op * 2 ^ 60)
      × (bit_and (bit_or key (op * 2 ^ 60)) not_hashop_mask ≡ key)
word_parts key op h small =
    let e = or_op key op h in
    (
      ap (λ w. bit_and w hashop_mask) e
          ∙ bit_and_high 60 op key 15 h
          ∙ ap (λ t. t * 2 ^ 60) (bit_and_mask 4 op ∙ omega arith),
      ap (λ w. bit_and w not_hashop_mask) e ∙ bit_and_low 60 op key h,
    )

-- No word of a fitting request is zero.
pub encode-NonZero : (r : Request) → Fits r → NonZero (encode r)
unfolding encode
encode-NonZero (lookup key) f = ((λ z. omega (arith, or_op key 1 f)), tt)
encode-NonZero (insert key size) f = ((λ z. omega (arith, or_op key 2 f.0)), (f.1, tt))
encode-NonZero (release e) f = ((λ z. omega (arith, or_op e 3 f)), tt)
