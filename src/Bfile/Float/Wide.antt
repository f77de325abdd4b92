-- ===== src/Bfile/Float/Wide.antt =====
-- The 64-bit float readers and writers of src/util/bfile.c.
use profit.Prelude.{
  ℕ, ◌+◌, ◌%◌, ◌≤◌, ◌<◌, ◌^◌, ◌≡◌, refl, ap, sym, ◌∙◌, Bool, true, false, List, ◌∷◌, ◌++◌, [],
  arith, take, drop, subst, append_assoc,
}
use profit.Prelude.Windows.{take-add, drop-drop}
use profit.Bfile.{Bfile, ok, Stdio, IsStdio, put_uint8, and_then, ◌>>◌}
use profit.Bfile.Float.{get_float64_be, get_float64_le, put_float64_be, put_float64_le}
use profit.Bfile.Float.Host.{float64_hosts}
use profit.Bfile.Reading.{Reads}
use profit.Bfile.Writing.{Writes}
use profit.Bfile.Get.Values.{big_endian, little_endian}
use profit.Bfile.Get.Read.{Gives, get_4}
use profit.Bfile.Put.Write.{Puts, put_4}

float_bytes_8 :
    (of_bytes : List ℕ → ℕ) (x y z w x' y' z' w' : ℕ) {v : ℕ} {l : List ℕ}
    → l ≡ x ∷ y ∷ z ∷ w ∷ x' ∷ y' ∷ z' ∷ w' ∷ []
    → v ≡ of_bytes (x ∷ y ∷ z ∷ w ∷ x' ∷ y' ∷ z' ∷ w' ∷ [])
    → v ≡ of_bytes l
float_bytes_8 of_bytes x y z w x' y' z' w' e h = h ∙ ap of_bytes (sym e)

module _ (io : Stdio) (std : IsStdio io) where
  -- on a little-endian host
  get_float64_little :
      (content : List ℕ) (b : Bfile)
      → Reads content b
      → b.pos + 8 ≤ b.size
      → let bytes : List ℕ = take 8 (drop b.pos content) in
        Gives content b (get_float64_be io false b) (big_endian bytes) 8
        × Gives content b (get_float64_le io false b) (little_endian bytes) 8
  unfolding get_float64_be get_float64_le
  get_float64_little content b r h =
      let (x, y, z, w, b₁, run₁, e₁, r₁, p₁) = get_4 io std content b r (omega arith) in
      let (x', y', z', w', b₂, run₂, e₂, r₂, p₂) =
        get_4 io std content b₁ r₁ (omega (arith, r₁.whole, r.whole)) in
      let e : take 8 (drop b.pos content) ≡ x ∷ y ∷ z ∷ w ∷ x' ∷ y' ∷ z' ∷ w' ∷ [] =
        take-add 4 4 (drop b.pos content) ∙ rw (e₁, drop-drop, ← p₁, e₂) refl in
      (
        (
          b₂,
          run₁ _
              ∙ run₂ _
              ∙ ap (λ v. ok v b₂) (float_bytes_8 big_endian x y z w x' y' z' w' e (omega arith)),
          r₂,
          omega arith,
        ),
        (
          b₂,
          run₁ _
              ∙ run₂ _
              ∙ ap (λ v. ok v b₂) (float_bytes_8 little_endian x y z w x' y' z' w' e (omega arith)),
          r₂,
          omega arith,
        ),
      )

  -- In a file with eight bytes left, the readers of 64-bit floats give the IEEE pattern that the next
  -- eight bytes stand for, on a host of either byte order: `be` their big-endian, `le` their
  -- little-endian number.
  pub get_float64-Reads :
      (big : Bool) (content : List ℕ) (b : Bfile)
      → Reads content b
      → b.pos + 8 ≤ b.size
      → let bytes : List ℕ = take 8 (drop b.pos content) in
        Gives content b (get_float64_be io big b) (big_endian bytes) 8
        × Gives content b (get_float64_le io big b) (little_endian bytes) 8
  get_float64-Reads false content b r h = get_float64_little content b r h
  get_float64-Reads true content b r h =
      let ((b₁, run₁, r₁, p₁), (b₂, run₂, r₂, p₂)) = get_float64_little content b r h in
      let (same_be, same_le, _, _) = float64_hosts io 0 b in
      ((b₁, same_be ∙ run₁, r₁, p₁), (b₂, same_le ∙ run₂, r₂, p₂))

  -- Four bytes and four more behind them.
  put_8 :
      (x y z w x' y' z' w' v : ℕ) (out : List ℕ) (b : Bfile) (of_bytes : List ℕ → ℕ)
      → Writes out b
      → b.pos + 8 < 2 ^ 63
      → of_bytes
          (x % 256 ∷ y % 256 ∷ z % 256 ∷ w % 256 ∷ x' % 256 ∷ y' % 256 ∷ z' % 256 ∷ w' % 256 ∷ [])
        ≡ v
      → Puts out b
          (((put_uint8 io x >> (put_uint8 io y >> (put_uint8 io z >> put_uint8 io w)))
              >> (put_uint8 io x' >> (put_uint8 io y' >> (put_uint8 io z' >> put_uint8 io w'))))
            b)
          of_bytes
          v
          8
  put_8 x y z w x' y' z' w' v out b of_bytes wr room e =
      let (b₁, run₁, w₁, p₁) = put_4 io std out x y z w b wr (omega arith) in
      let out₁ : List ℕ = out ++ x % 256 ∷ y % 256 ∷ z % 256 ∷ w % 256 ∷ [] in
      let (b₂, run₂, w₂, p₂) = put_4 io std out₁ x' y' z' w' b₁ w₁ (omega arith) in
      (
        _,
        b₂,
        ap
              (λ m.
                and_then m (λ _.
                  put_uint8 io x' >> (put_uint8 io y' >> (put_uint8 io z' >> put_uint8 io w'))))
              run₁
            ∙ run₂,
        subst (λ l. Writes l b₂) (append_assoc out (x % 256 ∷ y % 256 ∷ z % 256 ∷ w % 256 ∷ []) _)
            w₂,
        e,
        omega arith,
        refl,
        omega arith,
      )

  -- On a writer with room below 2^63 bytes, the writers of 64-bit floats put eight bytes that stand for
  -- the IEEE pattern, on a host of either byte order: `be` as their big-endian, `le` as their
  -- little-endian number.
  pub put_float64-Writes :
      (big : Bool) (v : ℕ) (out : List ℕ) (b : Bfile)
      → Writes out b
      → v < 2 ^ 64
      → b.pos + 8 < 2 ^ 63
      → Puts out b (put_float64_be io big v b) big_endian v 8
        × Puts out b (put_float64_le io big v b) little_endian v 8
  unfolding put_float64_be put_float64_le
  put_float64-Writes true v out b w h room = (
    put_8 _ _ _ _ _ _ _ _ v out b big_endian w room (omega arith),
    put_8 _ _ _ _ _ _ _ _ v out b little_endian w room (omega arith),
  )
  put_float64-Writes false v out b w h room = (
    put_8 _ _ _ _ _ _ _ _ v out b big_endian w room (omega arith),
    put_8 _ _ _ _ _ _ _ _ v out b little_endian w room (omega arith),
  )
