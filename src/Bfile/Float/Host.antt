-- ===== src/Bfile/Float/Host.antt =====
-- The byte order of the host does not show in a file.
use profit.Prelude.{
  ℕ, ◌+◌, ◌≤◌, ◌<◌, ◌^◌, ◌≡◌, refl, ap, sym, ◌∙◌, Bool, true, false, List, ◌∷◌, [], arith, take,
  drop,
}
use profit.Bfile.{Bfile, ok, Stdio, IsStdio}
use profit.Bfile.Float.{
  get_float32_be, get_float32_le, get_float64_be, get_float64_le, put_float32_be, put_float32_le,
  put_float64_be, put_float64_le,
}
use profit.Bfile.Reading.{Reads}
use profit.Bfile.Writing.{Writes}
use profit.Bfile.Get.Values.{big_endian, little_endian}
use profit.Bfile.Get.Read.{Gives, get_4}
use profit.Bfile.Put.Write.{Puts, four_bytes-Puts}

float_bytes :
    (of_bytes : List ℕ → ℕ) (x y z w v : ℕ) {l : List ℕ}
    → l ≡ x ∷ y ∷ z ∷ w ∷ []
    → v ≡ of_bytes (x ∷ y ∷ z ∷ w ∷ [])
    → v ≡ of_bytes l
float_bytes of_bytes x y z w v e h = h ∙ ap of_bytes (sym e)

module _ (io : Stdio) (std : IsStdio io) where
  -- In a file with four bytes left, the readers of 32-bit floats give, on a host of either byte order,
  -- the bit pattern that the next four bytes stand for: `be` their big-endian, `le` their
  -- little-endian number.
  pub get_float32-Reads :
      (big : Bool) (content : List ℕ) (b : Bfile)
      → Reads content b
      → b.pos + 4 ≤ b.size
      → let bytes : List ℕ = take 4 (drop b.pos content) in
        Gives content b (get_float32_be io big b) (big_endian bytes) 4
        × Gives content b (get_float32_le io big b) (little_endian bytes) 4
  unfolding get_float32_be get_float32_le
  get_float32-Reads true content b r h =
      let (x, y, z, w, b', run, e, r', p) = get_4 io std content b r h in
      (
        (b', run _ ∙ ap (λ v. ok v b') (float_bytes big_endian x y z w _ e (omega arith)), r', p),
        (
          b',
          run _ ∙ ap (λ v. ok v b') (float_bytes little_endian x y z w _ e (omega arith)),
          r',
          p,
        ),
      )
  get_float32-Reads false content b r h =
      let (x, y, z, w, b', run, e, r', p) = get_4 io std content b r h in
      (
        (b', run _ ∙ ap (λ v. ok v b') (float_bytes big_endian x y z w _ e (omega arith)), r', p),
        (
          b',
          run _ ∙ ap (λ v. ok v b') (float_bytes little_endian x y z w _ e (omega arith)),
          r',
          p,
        ),
      )

  -- The writers of 32-bit floats put, on a host of either byte order, four bytes that stand for the
  -- bit pattern in the same two ways.
  pub put_float32-Writes :
      (big : Bool) (v : ℕ) (out : List ℕ) (b : Bfile)
      → Writes out b
      → v < 2 ^ 32
      → b.pos + 4 < 2 ^ 63
      → Puts out b (put_float32_be io big v b) big_endian v 4
        × Puts out b (put_float32_le io big v b) little_endian v 4
  unfolding put_float32_be put_float32_le
  put_float32-Writes true v out b w h room = (
    four_bytes-Puts io std out _ _ _ _ v b big_endian w room (omega arith),
    four_bytes-Puts io std out _ _ _ _ v b little_endian w room (omega arith),
  )
  put_float32-Writes false v out b w h room = (
    four_bytes-Puts io std out _ _ _ _ v b big_endian w room (omega arith),
    four_bytes-Puts io std out _ _ _ _ v b little_endian w room (omega arith),
  )

-- The 64-bit floats are read and written by the same bytes on hosts of either byte order.
pub float64_hosts :
    (io : Stdio) (v : ℕ) (b : Bfile)
    → (get_float64_be io true b ≡ get_float64_be io false b)
      × (get_float64_le io true b ≡ get_float64_le io false b)
      × (put_float64_be io true v b ≡ put_float64_be io false v b)
      × (put_float64_le io true v b ≡ put_float64_le io false v b)
unfolding get_float64_be get_float64_le put_float64_be put_float64_le
float64_hosts io v b = (refl, refl, refl, refl)
