-- ===== src/Bfile/Put/Write.antt =====
-- Each integer writer of src/util/bfile.c puts bytes that stand for its number.
use profit.Prelude.{
  ℕ, ◌+◌, ◌%◌, ◌^◌, ◌<◌, ◌≡◌, refl, ap, ◌∙◌, subst, List, [], ◌∷◌, ◌++◌, arith, length,
  append_assoc,
}
use profit.Bfile.{Bfile, Run, ok, Stdio, IsStdio, put_uint8, and_then, ◌>>◌}
use profit.Bfile.Writing.{Writes, put_uint8-Writes}
use profit.Bfile.Put.{
  put_int8, put_int16_be, put_uint16_be, put_int16_le, put_uint16_le, put_int32_be, put_uint32_be,
  put_int32_le, put_uint32_le,
}
use profit.Bfile.Get.Values.{big_endian, little_endian, IsBytes}

-- A call puts n bytes, which the reading `of_bytes` takes for v.
abbrev pub Puts : List ℕ → Bfile → Run (Unit {0}) → (List ℕ → ℕ) → ℕ → ℕ → Type 0
Puts out b r of_bytes v n =
    (bytes : List ℕ) × (b' : Bfile) × (r ≡ ok tt b')
    × Writes (out ++ bytes) b'
    × (of_bytes bytes ≡ v)
    × IsBytes bytes
    × (length bytes ≡ n)
    × (b'.pos ≡ b.pos + n)

module _ (io : Stdio) (std : IsStdio io) (out : List ℕ) where
  pub put_2 :
      (x y : ℕ) (b : Bfile)
      → Writes out b
      → b.pos + 2 < 2 ^ 63
      → (b' : Bfile) × ((put_uint8 io x >> put_uint8 io y) b ≡ ok tt b')
        × Writes (out ++ x % 256 ∷ y % 256 ∷ []) b'
        × (b'.pos ≡ b.pos + 2)
  put_2 x y b w h =
      let (b₁, run₁, w₁, p₁) = put_uint8-Writes io std out x b w (omega arith) in
      let (b₂, run₂, w₂, p₂) =
        put_uint8-Writes io std (out ++ x % 256 ∷ []) y b₁ w₁ (omega arith) in
      (
        b₂,
        ap (λ m. and_then m (λ _. put_uint8 io y)) run₁ ∙ run₂,
        subst (λ l. Writes l b₂) (append_assoc out (x % 256 ∷ []) (y % 256 ∷ [])) w₂,
        omega arith,
      )

module _ (io : Stdio) (std : IsStdio io) (out : List ℕ) where
  pub put_4 :
      (x y z w : ℕ) (b : Bfile)
      → Writes out b
      → b.pos + 4 < 2 ^ 63
      → (b' : Bfile) × ((put_uint8 io x >> (put_uint8 io y >> (put_uint8 io z >> put_uint8 io w))) b
          ≡ ok tt b')
        × Writes (out ++ x % 256 ∷ y % 256 ∷ z % 256 ∷ w % 256 ∷ []) b'
        × (b'.pos ≡ b.pos + 4)
  put_4 x y z w b wr h =
      let (b₁, run₁, w₁, p₁) = put_uint8-Writes io std out x b wr (omega arith) in
      let out₁ : List ℕ = out ++ x % 256 ∷ [] in
      let (b₂, run₂, w₂, p₂) = put_uint8-Writes io std out₁ y b₁ w₁ (omega arith) in
      let out₂ : List ℕ = out₁ ++ y % 256 ∷ [] in
      let (b₃, run₃, w₃, p₃) = put_2 io std out₂ z w b₂ w₂ (omega arith) in
      (
        b₃,
        ap (λ m. and_then m (λ _. put_uint8 io y >> (put_uint8 io z >> put_uint8 io w))) run₁
            ∙ ap (λ m. and_then m (λ _. put_uint8 io z >> put_uint8 io w)) run₂
            ∙ run₃,
        subst (λ l. Writes l b₃)
            (append_assoc out₁ (y % 256 ∷ []) _ ∙ append_assoc out (x % 256 ∷ []) _) w₃,
        omega arith,
      )

  two_bytes-Puts :
      (x y v : ℕ) (b : Bfile) (of_bytes : List ℕ → ℕ)
      → Writes out b
      → b.pos + 2 < 2 ^ 63
      → of_bytes (x % 256 ∷ y % 256 ∷ []) ≡ v
      → Puts out b ((put_uint8 io x >> put_uint8 io y) b) of_bytes v 2
  two_bytes-Puts x y v b of_bytes w room e =
      let (b', run, w', p) = put_2 io std out x y b w room in
      (_, b', run, w', e, omega arith, refl, p)

  pub four_bytes-Puts :
      (x y z t v : ℕ) (b : Bfile) (of_bytes : List ℕ → ℕ)
      → Writes out b
      → b.pos + 4 < 2 ^ 63
      → of_bytes (x % 256 ∷ y % 256 ∷ z % 256 ∷ t % 256 ∷ []) ≡ v
      → Puts out b
          ((put_uint8 io x >> (put_uint8 io y >> (put_uint8 io z >> put_uint8 io t))) b)
          of_bytes
          v
          4
  four_bytes-Puts x y z t v b of_bytes w room e =
      let (b', run, w', p) = put_4 x y z t b w room in (_, b', run, w', e, omega arith, refl, p)

  -- On a writer with room below 2^63 bytes, all four 16-bit writers succeed for a number below 2^16
  -- (a signed one by its pattern) and put two bytes behind those put before. Those named `be` put its
  -- big-endian, those named `le` its little-endian form.
  pub put_16-Writes :
      (v : ℕ) (b : Bfile)
      → Writes out b
      → v < 2 ^ 16
      → b.pos + 2 < 2 ^ 63
      → Puts out b (put_uint16_be io v b) big_endian v 2
        × Puts out b (put_int16_be io v b) big_endian v 2
        × Puts out b (put_uint16_le io v b) little_endian v 2
        × Puts out b (put_int16_le io v b) little_endian v 2
  unfolding put_uint16_be put_int16_be put_uint16_le put_int16_le put_int8
  put_16-Writes v b w h room = (
    two_bytes-Puts _ _ v b big_endian w room (omega arith),
    two_bytes-Puts _ _ v b big_endian w room (ground arith),
    two_bytes-Puts _ _ v b little_endian w room (omega arith),
    two_bytes-Puts _ _ v b little_endian w room (ground arith),
  )

  -- On a writer with room below 2^63 bytes, the 32-bit puts of a number below 2^32 end and append four
  -- bytes: `be` those of which it is the big-endian, `le` those of which it is the little-endian number.
  pub put_32-Writes :
      (v : ℕ) (b : Bfile)
      → Writes out b
      → v < 2 ^ 32
      → b.pos + 4 < 2 ^ 63
      → Puts out b (put_uint32_be io v b) big_endian v 4
        × Puts out b (put_int32_be io v b) big_endian v 4
        × Puts out b (put_uint32_le io v b) little_endian v 4
        × Puts out b (put_int32_le io v b) little_endian v 4
  unfolding put_uint32_be put_int32_be put_uint32_le put_int32_le put_int8
  put_32-Writes v b w h room = (
    four_bytes-Puts _ _ _ _ v b big_endian w room (omega arith),
    four_bytes-Puts _ _ _ _ v b big_endian w room (ground arith),
    four_bytes-Puts _ _ _ _ v b little_endian w room (omega arith),
    four_bytes-Puts _ _ _ _ v b little_endian w room (ground arith),
  )
