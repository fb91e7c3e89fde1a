-- ===== src/HashServer.antt =====
-- hashserver2.c: the objects that a client thread reads from its sockets and writes to them. The
-- calls of the system are parameters: fread, write and writev.
pub mod Iovs
pub mod Objects
pub mod Sockets
pub mod Gather
pub mod Results
pub mod Doqueries
use smphash_table.Base.{
  ℕ, zero, suc, ◌+◌, ◌-◌, Bool, true, false, not, ◌&&◌, ◌||◌, List, [], ◌∷◌, ◌++◌, length, get_or,
  take, drop, ◌==◌, ltb, leb, Run, ok, fault, out_of_fuel, ◌>>=◌, ◌>>◌, assert, if◌then◌else◌,
}

-- EAGAIN of errno.h
abbrev pub eagain : ℕ
eagain = 11

-- `errno != 0 && errno != EAGAIN`
abbrev pub failed : ℕ → Bool
failed errno = not (errno == 0) && not (errno == eagain)

-- One call of fread: the bytes it stored, errno, and the flags of the stream behind it.
pub record Reading : Type 0 where
  pub bytes : List ℕ
  pub errno : ℕ
  pub ferror : Bool
  pub feof : Bool

unfoldable pub stream_error : Reading → Bool
stream_error g = (g.ferror && not (g.errno == eagain)) || g.feof

-- `fread(buf, 1, size, f)` behind `errno = 0` and `clearerr(f)`
abbrev pub Fread : Type 0 → Type 0
Fread F = ℕ → F → Reading × F

module _ {F : Type 0} (fread : Fread F) where
  -- The `while (bread < size)` loop with the bytes read so far, and the rounds left.
  unfoldable pub read_rest : ℕ → ℕ → List ℕ → F → Run (ℕ × List ℕ × F)
  read_rest zero size buf f =
      if ltb (length buf) size
      then fault out_of_fuel
      else (do assert (length buf == size); ok (0, buf, f))
  read_rest (suc rounds) size buf f = elim (ltb (length buf) size) [
    | false ↦ do assert (length buf == size); ok (0, buf, f)
    | true ↦
        let r = fread (size - length buf) f in
        elim (stream_error r.0) [
          | true ↦ ok (2, buf ++ r.0.bytes, r.1)
          | false ↦ read_rest rounds size (buf ++ r.0.bytes) r.1
        ]
  ]

  -- The result, and the bytes that stand in `buf` then.
  unfoldable pub read_object : ℕ → ℕ → F → Run (ℕ × List ℕ × F)
  read_object rounds size f =
      let r = fread size f in
      elim (length r.0.bytes == 0) [
        | true ↦ ok (if stream_error r.0 then 2 else 1, [], r.1)
        | false ↦ read_rest rounds size r.0.bytes r.1
      ]

-- `struct iovec`
pub record Iovec : Type 0 where
  pub iov_base : ℕ
  pub iov_len : ℕ

-- The `else` branch: `r` bytes of the entry are written.
abbrev pub advanced : ℕ → Iovec → Iovec
advanced r v = record { iov_base = v.iov_base + r; iov_len = v.iov_len - r }

-- One call of write or writev: errno, the number of bytes (0 where the call returns -1), and the
-- socket behind it.
abbrev pub Write : Type 0 → Type 0 → Type 0
Write B S = B → S → ℕ × ℕ × S

module _ {S : Type 0} (write : Write (List ℕ) S) where
  -- The loop, and the assertion behind it.
  unfoldable pub write_rest : ℕ → List ℕ → ℕ → S → Run (ℕ × S)
  write_rest zero buf bwritten s =
      if ltb bwritten (length buf)
      then fault out_of_fuel
      else (do assert (bwritten == length buf); ok (0, s))
  write_rest (suc rounds) buf bwritten s = elim (ltb bwritten (length buf)) [
    | false ↦ do assert (bwritten == length buf); ok (0, s)
    | true ↦
        let o = write (drop bwritten buf) s in
        elim (failed o.0) [
          | true ↦ ok (2, o.2)
          | false ↦ write_rest rounds buf (bwritten + o.1) o.2
        ]
  ]

  unfoldable pub write_object : ℕ → List ℕ → S → Run (ℕ × S)
  write_object rounds buf s = write_rest rounds buf 0 s

-- `release` is release_value with the client's id, and `null_value` the address of NULL_VALUE.
module _ {W : Type 0} (null_value : ℕ) (release : ℕ → W → Run W) where
  abbrev pub release_unless_null : ℕ → W → Run W
  release_unless_null base w = if base == null_value then ok w else release base w

  -- The releases behind the loop: `ciov_base`, and then the entries behind the current one.
  unfoldable pub release_bases : List Iovec → W → Run W
  release_bases [] w = ok w
  release_bases (v ∷ vs) w = do w' ← release_unless_null v.iov_base w; release_bases vs w'

  unfoldable pub release_left : ℕ → List Iovec → W → Run W
  release_left base iov w = do w' ← release_unless_null base w; release_bases (drop 1 iov) w'

  -- The `while (r > 0)` loop, on the entries from `ciov` on; with the last of them it breaks.
  unfoldable pub progress : ℕ → ℕ → List Iovec → W → Run (ℕ × List Iovec × W)
  progress r base [] w = ok (base, [], w)
  progress r base (v ∷ []) w =
      if ltb 0 r && leb v.iov_len r
      then ok (base, [], w)
      else ok (base, (if ltb 0 r then advanced r v else v) ∷ [], w)
  progress r base (v ∷ u ∷ us) w = elim (ltb 0 r && leb v.iov_len r) [
    | true ↦ do w' ← release_unless_null base w; progress (r - v.iov_len) u.iov_base (u ∷ us) w'
    | false ↦ ok (base, (if ltb 0 r then advanced r v else v) ∷ u ∷ us, w)
  ]

  module _ {S : Type 0} (writev : Write (List Iovec) S) where
    -- The `while (ciov < iovcnt)` loop, with the rounds left.
    unfoldable pub write_loop : ℕ → ℕ → List Iovec → S → W → Run (ℕ × ℕ × List Iovec × S × W)
    write_loop rounds base [] s w = ok (0, base, [], s, w)
    write_loop zero base (v ∷ vs) s w = fault out_of_fuel
    write_loop (suc rounds) base (v ∷ vs) s w =
        let o = writev (v ∷ vs) s in
        elim (failed o.0) [
          | true ↦ ok (2, base, v ∷ vs, o.2, w)
          | false ↦ do
            (base', iov', w') ← progress o.1 base (v ∷ vs) w
            write_loop rounds base' iov' o.2 w'
        ]

    -- `iov[0]` is read before anything is tested.
    unfoldable pub write_iovs : ℕ → List Iovec → ℕ → S → W → Run (ℕ × S × W)
    write_iovs rounds iov iovcnt s w =
        let first = get_or iov 0 (record { iov_base = null_value; iov_len = 0 }) in
        do
          (ret, base, left, s', w') ← write_loop rounds first.iov_base (take iovcnt iov) s w
          w'' ← release_left base left w'
          ok (ret, s', w'')
