-- ===== src/Client/Releases.antt =====
-- What a client sends for a value that it no longer needs, or has finished writing.
use smphash_table.Base.{
  ℕ, ◌%◌, ◌<◌, ◌≡◌, sym, Bool, true, false, some, arith, bit_and, bit_or, ◌==◌, eq→==,
  if◌then◌else◌, ok, ◌>>=◌,
}
use smphash_table.Memory.{Ptr, Elem, Heap, deref}
use smphash_table.Message.{release, encode, op_bits, hashop_release, not_hashop_mask, word_parts}
use smphash_table.Server.{value_of}
use smphash_table.Client.{
  Boxes, hash_get_server, elem_of, mp_send_release_msg, mp_release_value, mp_mark_ready,
}

module _ {W : Type 0} (boxes : Boxes W) (nservers : ℕ) (h : Heap) where
  send_run :
      (e ptr : ℕ) (x : Elem) (force : Bool) (w : W)
      → elem_of ptr ≡ e
      → (e == bit_and (bit_or e hashop_release) not_hashop_mask) ≡ true
      → h e ≡ some x
      → mp_send_release_msg boxes nservers h ptr force w ≡ (
          boxes.inpb_write (hash_get_server nservers x.key) (encode (release e)) w >>= λ w'.
          if force then boxes.inpb_flush (hash_get_server nservers x.key) w' else ok w')
  unfolding mp_send_release_msg encode
  send_run e ptr x force w same test l = rw (same, test) (rw (l, deref))

  -- For a value whose element is allocated below 2^60, mp_release_value passes its assertion and writes
  -- the release request of that element to the server that owns its key, and mp_mark_ready flushes
  -- that server's buffer as well.
  pub mp_release-Sends :
      (e : Ptr) (x : Elem) (w : W)
      → h e ≡ some x
      → e < op_bits
      → (mp_release_value boxes nservers h (value_of e) w
          ≡ (boxes.inpb_write (x.key % nservers) (encode (release e)) w >>= λ w'. ok w'))
        × (mp_mark_ready boxes nservers h (value_of e) w ≡ (
            boxes.inpb_write (x.key % nservers) (encode (release e)) w >>= λ w'.
            boxes.inpb_flush (x.key % nservers) w'))
  unfolding mp_release_value mp_mark_ready
  mp_release-Sends e x w l small =
      let same : elem_of (value_of e) ≡ e = omega arith in
      let test =
        eq→== e (bit_and (bit_or e hashop_release) not_hashop_mask)
          (sym (word_parts e 3 small (omega arith)).1) in
      (send_run e (value_of e) x false w same test l, send_run e (value_of e) x true w same test l)
