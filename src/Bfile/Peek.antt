-- ===== src/Bfile/Peek.antt =====
-- The look-ahead of src/util/bfile.c: the four peeks, and `bf_unget_uint32_be`.
pub mod Look
use profit.Prelude.{
  ℕ, ◌+◌, ◌-◌, ◌%◌, not, ◌&&◌, ltb, leb, ◌==◌, if◌then◌else◌, bit_or, length, get_elem?, some, none,
  ◌∷◌, [],
}
use profit.Prelude.Bits.{shr}
use profit.Prelude.Windows.{splice}
use profit.Bfile.{Cmd, Stdio, ok, fault, assert, read_buffer, size_sub, ◌>>=◌, ◌>>◌, pure}
use profit.Bfile.Get.{shl_int, int_of_int8, int_of_int16, to_16}

-- a byte of the buffer
unfoldable pub at : ℕ → Cmd ℕ
at i b = elim (get_elem? b.buffer i) [ some v ↦ ok v b | none ↦ fault ]

module _ (io : Stdio) where
  -- What the four peeks share. The bytes at `pos` and behind it go to `value`; if fewer than two
  -- bytes are buffered the result is 0. (`ipos - 2` is a `size_t`.)
  peek : (ℕ → ℕ → ℕ) → Cmd ℕ
  peek value = do
    assert (λ b. b.readable && not (b.buffer_size == 0))
    (λ b. if b.pos % b.buffer_size == 0 && b.pos == b.ipos then read_buffer io b else ok tt b)
    λ b.
        if ltb (size_sub b.ipos 2) b.pos
        then ok 0 b
        else (do
          x ← at (b.pos % b.buffer_size)
          y ← at ((b.pos % b.buffer_size + 1) % b.buffer_size)
          pure (value x y))
            b

  unfoldable pub peek_int16_be : Cmd ℕ
  unfolding peek at
  peek_int16_be = peek λ x y. to_16 (bit_or (int_of_int16 (to_16 (shl_int (int_of_int8 x) 8))) y)

  unfoldable pub peek_uint16_be : Cmd ℕ
  unfolding peek at
  peek_uint16_be = peek λ x y. to_16 (bit_or (to_16 (shl_int x 8)) y)

  unfoldable pub peek_int16_le : Cmd ℕ
  unfolding peek at
  peek_int16_le = peek λ x y. to_16 (bit_or x (shl_int (int_of_int8 y) 8))

  unfoldable pub peek_uint16_le : Cmd ℕ
  unfolding peek at
  peek_uint16_le = peek λ x y. to_16 (bit_or x (shl_int y 8))

-- `bf_unget_uint32_be` asserts that the four bytes before `pos` lie in the buffer's block.
unfoldable pub unget_uint32_be : ℕ → Cmd (Unit {0})
unget_uint32_be value = do
  assert (λ b. not (b.buffer_size == 0))
  assert (λ b. leb 4 (b.pos % b.buffer_size))
  assert (λ b. leb (b.pos % b.buffer_size) (length b.buffer))
  λ b.
      let bufpos = b.pos % b.buffer_size - 4 in
      let bytes = shr value 24 % 256 ∷ shr value 16 % 256 ∷ shr value 8 % 256 ∷ value % 256 ∷ [] in
      ok tt (record b { buffer = splice bufpos bytes b.buffer; pos = b.pos - 4 })
