-- ===== src/Bfile.antt =====
-- The buffered binary files of src/util/bfile.c: the `bfile_t` and the stdio stream behind it, the
-- buffer's refill and flush, and the byte operations. Sizes are 64-bit, bytes are below 256.
-- The progress callback, the file's name and the messages on stderr are left out: none is read back.
pub mod Get
pub mod Put
pub mod Float
pub mod Peek
pub mod Sessions
mod Tests
pub mod Reading
pub mod Writing
use profit.Prelude.{
  ℕ, zero, suc, ◌+◌, ◌-◌, ◌*◌, ◌/◌, ◌%◌, ◌^◌, ◌≤◌, ◌<◌, ◌≡◌, Bool, true, false, Option, none, some,
  List, [], ◌∷◌, ◌++◌, not, ◌&&◌, ltb, leb, ◌==◌, if◌then◌else◌, length, get_elem?, set, take, drop,
  min,
}
use profit.Prelude.Windows.{splice}

-- `struct bfile_s`. The flags are three Booleans; `is_open` says that `file` is not NULL, `disk` is
-- the stream's bytes on disk, and `fpos` where it stands.
pub record Bfile : Type 0 where
  pub readable : Bool
  pub writable : Bool
  pub membuffer : Bool
  pub is_open : Bool
  pub disk : List ℕ
  pub fpos : ℕ
  pub size : ℕ
  pub pos : ℕ
  pub ipos : ℕ
  pub buffer : List ℕ
  pub buffer_size : ℕ

-- What a call does: it returns with the file's new state, fails an assertion or leaves a buffer
-- (`fault`), or goes on when the fuel of a loop is used up.
pub data Run (A : Type 0) : Type 0 where
  ok : A → Bfile → Run A
  fault : Run A
  out_of_fuel : Run A

abbrev pub Cmd : Type 0 → Type 0
Cmd A = Bfile → Run A

infixl 5 ◌>>=◌ ◌>>◌
abbrev pub and_then : {A B : Type 0} → Run A → (A → Cmd B) → Run B
and_then (ok a b) f = f a b
and_then fault f = fault
and_then out_of_fuel f = out_of_fuel

abbrev pub ◌>>=◌ : {A B : Type 0} → Cmd A → (A → Cmd B) → Cmd B
◌>>=◌ m f b = and_then (m b) f

abbrev pub ◌>>◌ : {B : Type 0} → Cmd (Unit {0}) → Cmd B → Cmd B
m >> k = m >>= λ _. k

abbrev pub pure : {A : Type 0} → A → Cmd A
pure a b = ok a b

abbrev pub assert : (Bfile → Bool) → Cmd (Unit {0})
assert p b = if p b then ok tt b else fault

-- `size_t` subtraction
abbrev pub size_sub : ℕ → ℕ → ℕ
size_sub a b = (a + 2 ^ 64 - b) % 2 ^ 64

-- The C library: how many of the wanted bytes one call of `fread` at a position of a stream gives,
-- and how many one call of `fwrite` takes.
pub record Stdio : Type 0 where
  pub fread_count : List ℕ → ℕ → ℕ → ℕ
  pub fwrite_count : ℕ → ℕ

-- Documented behaviour, with no error on the stream: `fread` never gives more than was asked for or
-- is left, and something if both are positive; `fwrite` takes at most what it was given, and
-- something of it.
pub record IsStdio (io : Stdio) : Type 0 where
  pub fread_le : (disk : List ℕ) (p n : ℕ) → io.fread_count disk p n ≤ min n (length disk - p)
  pub fread_pos : (disk : List ℕ) (p n : ℕ) → 0 < n → p < length disk → 0 < io.fread_count disk p n
  pub fwrite_le : (n : ℕ) → io.fwrite_count n ≤ n
  pub fwrite_pos : (n : ℕ) → 0 < n → 0 < io.fwrite_count n

-- `create_bfile_t`, with the buffer that `malloc` gives: of BFILE_BLOCK_SIZE bytes for a file
unfoldable pub create_bfile_t : List ℕ → Bfile
create_bfile_t buffer = record {
  readable = false;
  writable = false;
  membuffer = false;
  is_open = false;
  disk = [];
  fpos = 0;
  size = 0;
  pos = 0;
  ipos = 0;
  buffer = buffer;
  buffer_size = length buffer;
}

-- `bf_create_m`; `len` is a 32-bit number
unfoldable pub create_m : List ℕ → ℕ → Bfile
unfolding create_bfile_t
create_m buffer len = record (create_bfile_t []) {
  buffer = buffer;
  size = len;
  buffer_size = len;
  membuffer = true;
  readable = true;
  ipos = len;
}

-- `bf_create_r` on a file that opens; `st_size` is what `stat` says.
unfoldable pub create_r : List ℕ → List ℕ → ℕ → Bfile
unfolding create_bfile_t
create_r buffer disk st_size = record (create_bfile_t buffer) {
  is_open = true;
  disk = disk;
  size = st_size;
  readable = true;
}

-- `bf_create_w` on a file that opens, which truncates it.
unfoldable pub create_w : List ℕ → Bfile
unfolding create_bfile_t
create_w buffer = record (create_bfile_t buffer) { is_open = true; writable = true }

unfoldable pub at_eof : Bfile → Bool
at_eof b = b.pos == b.size

-- the getters
unfoldable pub is_readable : Bfile → Bool
is_readable b = b.readable

unfoldable pub is_writable : Bfile → Bool
is_writable b = b.writable

unfoldable pub get_position : Bfile → ℕ
get_position b = b.pos

unfoldable pub get_length : Bfile → ℕ
get_length b = b.size

unfoldable pub get_remaining_length : Cmd ℕ
get_remaining_length = do assert (λ b. leb b.pos b.size); λ b. ok (b.size - b.pos) b

-- the byte at `pos`, and the step past it
unfoldable pub take_byte : Cmd ℕ
take_byte b = elim (get_elem? b.buffer (b.pos % b.buffer_size)) [
  | some v ↦ ok v (record b { pos = b.pos + 1 })
  | none ↦ fault
]

-- One round of the loop of `bf_read` where bytes are buffered: a `memcpy` out of the buffer.
unfoldable pub copy_out : ℕ → Cmd (List ℕ)
copy_out wanted b =
    let bufoff = b.pos % b.buffer_size in
    let cpylen = min (b.buffer_size - bufoff) wanted in
    if leb (bufoff + cpylen) (length b.buffer)
    then ok (take cpylen (drop bufoff b.buffer)) (record b { pos = b.pos + cpylen })
    else fault

module _ (io : Stdio) where
  -- One round of the loop of `bf_read_buffer`: `fread` into the buffer behind the first `bytes`.
  unfoldable pub fread_round : ℕ → Cmd ℕ
  fread_round bytes b =
      let wanted = b.buffer_size - bytes in
      let n = io.fread_count b.disk b.fpos wanted in
      let got = take n (drop b.fpos b.disk) in
      if b.is_open && leb (bytes + length got) (length b.buffer)
      then ok (bytes + n)
          (record b { buffer = splice bytes got b.buffer; fpos = b.fpos + n; ipos = b.ipos + n })
      else fault

  unfoldable pub read_loop : ℕ → ℕ → Cmd (Unit {0})
  read_loop zero bytes b = out_of_fuel
  read_loop (suc fuel) bytes b = elim (ltb bytes b.buffer_size && ltb b.ipos b.size) [
    | true ↦ and_then (fread_round bytes b) (read_loop fuel)
    | false ↦ ok tt b
  ]

  -- `bf_read_buffer`. Every round reads a byte at least, so one round for each place suffices.
  unfoldable pub read_buffer : Cmd (Unit {0})
  read_buffer b = if b.ipos == b.size then ok tt b else read_loop (b.buffer_size + 1) 0 b

  -- `fwrite` of the part of the buffer from `off` on, which appends to the stream.
  unfoldable pub write_loop : ℕ → ℕ → ℕ → Cmd ℕ
  write_loop zero written towrite b = out_of_fuel
  write_loop (suc fuel) written towrite b = elim (ltb written towrite) [
    | true ↦
        let off = b.ipos % b.buffer_size + written in
        let n = io.fwrite_count (towrite - written) in
        if leb (off + (towrite - written)) (length b.buffer)
        then write_loop fuel (written + n) towrite
            (record b { disk = b.disk ++ take n (drop off b.buffer); fpos = b.fpos + n })
        else fault
    | false ↦ ok written b
  ]

  -- `bf_write_buffer`
  unfoldable pub write_buffer : Cmd (Unit {0})
  write_buffer = do
    assert (λ b. b.is_open)
    assert (λ b. b.writable)
    written ← (λ b. let towrite = size_sub b.pos b.ipos in write_loop (towrite + 1) 0 towrite b)
    λ b. ok tt (record b { ipos = b.ipos + written })

  -- `bf_destroy`: a writer flushes what is left. (A reader only closes its file.)
  unfoldable pub destroy : Cmd (Unit {0})
  destroy b = if b.writable then write_buffer b else ok tt b

  unfoldable pub refill : Cmd (Unit {0})
  refill b = if ltb (size_sub b.ipos b.pos) 1 then read_buffer b else ok tt b

  -- `bf_get_uint8`. `bf_get_int8` has the same text, and reads the byte as a signed one.
  unfoldable pub get_uint8 : Cmd ℕ
  get_uint8 = do assert (λ b. b.readable); λ b. if at_eof b then ok 0 b else (refill >> take_byte) b

  -- `bf_put_uint8`, and `bf_put_int8` for the pattern of a signed byte
  unfoldable pub put_uint8 : ℕ → Cmd (Unit {0})
  put_uint8 value = do
    assert (λ b. b.writable)
    (λ b. if leb b.buffer_size (size_sub b.pos b.ipos) then write_buffer b else ok tt b)
    λ b.
        let bufpos = b.pos % b.buffer_size in
        if ltb bufpos (length b.buffer)
        then ok tt (record b { buffer = set b.buffer bufpos (value % 256); pos = b.pos + 1 })
        else fault

  -- The loop of `bf_read`, with the bytes still wanted; it gives the bytes that it copies.
  unfoldable pub bf_read_loop : ℕ → ℕ → Cmd (List ℕ)
  bf_read_loop zero wanted b = out_of_fuel
  bf_read_loop (suc fuel) zero b = ok [] b
  bf_read_loop (suc fuel) (suc w) b = elim (ltb b.pos b.ipos) [
    | true ↦
        and_then (copy_out (suc w) b)
          λ part b'. and_then (bf_read_loop fuel (suc w - length part) b') λ rest. ok (part ++ rest)
    | false ↦ and_then (read_buffer b) λ _. bf_read_loop fuel (suc w)
  ]

  -- `bf_read`, whose `len` has 32 bits: the list is what arrives in the caller's buffer, and its length,
  -- as an `int`, the result. Every second
  -- round copies a byte at least.
  unfoldable pub bf_read : ℕ → Cmd (List ℕ)
  bf_read len = do
    assert (λ b. b.readable)
    λ b.
        let toread = min (len % 2 ^ 32) (size_sub b.size b.pos) in
        bf_read_loop (2 * toread + 2) toread b

  -- The loop of `bf_write`, with the bytes that are left
  unfoldable pub bf_write_loop : ℕ → List ℕ → Cmd (Unit {0})
  bf_write_loop zero bytes b = out_of_fuel
  bf_write_loop (suc fuel) [] b = ok tt b
  bf_write_loop (suc fuel) (v ∷ vs) b = elim (ltb (size_sub b.pos b.ipos) b.buffer_size) [
    | true ↦
        let bufoff = b.pos % b.buffer_size in
        let cpylen = min (b.buffer_size - bufoff) (length (v ∷ vs)) in
        if leb (bufoff + cpylen) (length b.buffer)
        then bf_write_loop fuel (drop cpylen (v ∷ vs)) (record b {
          buffer = splice bufoff (take cpylen (v ∷ vs)) b.buffer;
          pos = b.pos + cpylen;
        })
        else fault
    | false ↦ and_then (write_buffer b) λ _. bf_write_loop fuel (v ∷ vs)
  ]

  -- `bf_write`, whose `len` has 32 bits, and takes the length of the list; the result is an `int`, that
  -- is a pattern of 32 bits.
  unfoldable pub bf_write : List ℕ → Cmd ℕ
  bf_write bytes = do
    assert (λ b. b.writable)
    let len = length bytes % 2 ^ 32
    bf_write_loop (2 * len + 2) (take len bytes)
    pure len

  -- `bf_rewind`. `fseek` moves the stream. A division by zero is a fault.
  unfoldable pub rewind : ℕ → Cmd ℕ
  rewind num_bytes b =
      let prevbuf = b.pos / b.buffer_size in
      let n = if ltb b.pos num_bytes then b.pos else num_bytes in
      let b' = record b { pos = b.pos - n } in
      let newbuf = b'.pos / b.buffer_size in
      let back = record b' { ipos = newbuf * b.buffer_size; fpos = newbuf * b.buffer_size } in
      if b.buffer_size == 0
      then fault
      else if ltb newbuf prevbuf
      then (if b.is_open then and_then (read_buffer back) (λ _. ok n) else fault)
      else ok n b'
