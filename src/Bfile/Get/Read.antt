-- ===== src/Bfile/Get/Read.antt =====
-- Each integer reader of src/util/bfile.c gives the number that the next bytes of the file stand for.
use profit.Prelude.{
  ℕ, zero, suc, ◌+◌, ◌≤◌, ◌<◌, ◌≡◌, refl, sym, ap, ◌∙◌, List, [], ◌∷◌, arith, take, drop, get_elem?,
  some, bit_or,
}
use profit.Bfile.{Bfile, Run, Cmd, ok, Stdio, IsStdio, get_uint8, and_then, ◌>>=◌}
use profit.Prelude.Windows.{take-add, drop-drop}
use profit.Bfile.Reading.{Reads, get_uint8-Reads}
use profit.Bfile.Get.{
  get_int8, get_int16_be, get_uint16_be, get_int16_le, get_uint16_le, get_int32_be, get_uint32_be,
  get_int32_le, get_uint32_le, shl_int,
}
use profit.Bfile.Get.Values.{
  big_endian, little_endian, IsBytes, drop-IsBytes, take-IsBytes, uint16_be, uint16_le, int16_be,
  int16_le, uint32_be, uint32_le, shl_signed,
}

pub drop-step :
    (p : ℕ) (v : ℕ) (xs : List ℕ) → get_elem? xs p ≡ some v → drop p xs ≡ v ∷ drop (p + 1) xs
drop-step p v [] e = cc
drop-step zero v (x ∷ xs) e = ground arith
drop-step (suc p) v (x ∷ xs) e =
    drop-step p v xs e
    ∙ ap (λ n. v ∷ drop n (x ∷ xs)) {x = suc (p + 1)} {y = suc p + 1} (omega arith)

-- A call returns v, and leaves the reader n bytes further on.
abbrev pub Gives : List ℕ → Bfile → Run ℕ → ℕ → ℕ → Type 0
Gives content b r v n = (b' : Bfile) × (r ≡ ok v b') × Reads content b' × (b'.pos ≡ b.pos + n)

module _ (io : Stdio) (std : IsStdio io) (content : List ℕ) where
  -- Two readings in a row, and what is done with the bytes.
  get_2 :
      (b : Bfile)
      → Reads content b
      → b.pos + 2 ≤ b.size
      → (x y : ℕ) × (b' : Bfile) × ((k : ℕ → ℕ → Cmd ℕ)
          → (get_uint8 io >>= λ x. get_uint8 io >>= λ y. k x y) b ≡ k x y b')
        × (take 2 (drop b.pos content) ≡ x ∷ y ∷ [])
        × Reads content b'
        × (b'.pos ≡ b.pos + 2)
  get_2 b r h =
      let (x, b₁, ex, run₁, r₁, p₁) = get_uint8-Reads io std content b r (omega arith) in
      let (y, b₂, ey, run₂, r₂, p₂) =
        get_uint8-Reads io std content b₁ r₁ (omega (arith, r₁.whole, r.whole)) in
      (
        x,
        y,
        b₂,
        λ k.
            ap (λ m. and_then m (λ x. get_uint8 io >>= λ y. k x y)) run₁
            ∙ ap (λ m. and_then m (k x)) run₂,
        rw (drop-step b.pos x content ex, ← p₁, drop-step b₁.pos y content ey) refl,
        r₂,
        omega arith,
      )

  pub get_4 :
      (b : Bfile)
      → Reads content b
      → b.pos + 4 ≤ b.size
      → (x y z w : ℕ) × (b' : Bfile) × ((k : ℕ → ℕ → ℕ → ℕ → Cmd ℕ)
          → (get_uint8 io >>= λ x.
                get_uint8 io >>= λ y. get_uint8 io >>= λ z. get_uint8 io >>= λ w. k x y z w)
              b
            ≡ k x y z w b')
        × (take 4 (drop b.pos content) ≡ x ∷ y ∷ z ∷ w ∷ [])
        × Reads content b'
        × (b'.pos ≡ b.pos + 4)
  get_4 b r h =
      let (x, y, b₁, run₁, e₁, r₁, p₁) = get_2 b r (omega arith) in
      let (z, w, b₂, run₂, e₂, r₂, p₂) = get_2 b₁ r₁ (omega (arith, r₁.whole, r.whole)) in
      (
        x,
        y,
        z,
        w,
        b₂,
        λ k. run₁ (λ x y. get_uint8 io >>= λ z. get_uint8 io >>= λ w. k x y z w) ∙ run₂ (k x y),
        take-add 2 2 (drop b.pos content) ∙ rw (e₁, drop-drop, ← p₁, e₂) refl,
        r₂,
        omega arith,
      )

  -- In a file of bytes with two left, all four 16-bit readers succeed and move on by two bytes. Those
  -- named `be` give the big-endian, those named `le` the little-endian number of the two bytes.
  pub get_16-Reads :
      (b : Bfile)
      → Reads content b
      → IsBytes content
      → b.pos + 2 ≤ b.size
      → let bytes : List ℕ = take 2 (drop b.pos content) in
        Gives content b (get_uint16_be io b) (big_endian bytes) 2
        × Gives content b (get_int16_be io b) (big_endian bytes) 2
        × Gives content b (get_uint16_le io b) (little_endian bytes) 2
        × Gives content b (get_int16_le io b) (little_endian bytes) 2
  unfolding get_uint16_be get_int16_be get_uint16_le get_int16_le get_int8
  get_16-Reads b r bytes h =
      let (x, y, b', run, e, r', p) = get_2 b r h in
      let small : IsBytes (x ∷ y ∷ []) =
        rw e at (take-IsBytes 2 (drop b.pos content) (drop-IsBytes b.pos content bytes)) in
      let hx : x < 256 = small.0 in
      let hy : y < 256 = small.1.0 in
      (
        (b', run _ ∙ ap (λ v. ok v b') (uint16_be x y hx hy ∙ ap big_endian (sym e)), r', p),
        (b', run _ ∙ ap (λ v. ok v b') (int16_be x y hx hy ∙ ap big_endian (sym e)), r', p),
        (b', run _ ∙ ap (λ v. ok v b') (uint16_le x y hx hy ∙ ap little_endian (sym e)), r', p),
        (b', run _ ∙ ap (λ v. ok v b') (int16_le x y hx hy ∙ ap little_endian (sym e)), r', p),
      )

  -- In a file of bytes with four left, the 32-bit gets end and move on by four: `be` gives the
  -- big-endian and `le` the little-endian number of the next four bytes, as a 32-bit pattern.
  pub get_32-Reads :
      (b : Bfile)
      → Reads content b
      → IsBytes content
      → b.pos + 4 ≤ b.size
      → let bytes : List ℕ = take 4 (drop b.pos content) in
        Gives content b (get_uint32_be io b) (big_endian bytes) 4
        × Gives content b (get_int32_be io b) (big_endian bytes) 4
        × Gives content b (get_uint32_le io b) (little_endian bytes) 4
        × Gives content b (get_int32_le io b) (little_endian bytes) 4
  unfolding get_uint32_be get_int32_be get_uint32_le get_int32_le get_int8
  get_32-Reads b r bytes h =
      let (x, y, z, w, b', run, e, r', p) = get_4 b r h in
      let small : IsBytes (x ∷ y ∷ z ∷ w ∷ []) =
        rw e at (take-IsBytes 4 (drop b.pos content) (drop-IsBytes b.pos content bytes)) in
      let be =
        uint32_be x y z w small.0 small.1.0 small.1.1.0 small.1.1.1.0 ∙ ap big_endian (sym e) in
      let le =
        uint32_le x y z w small.0 small.1.0 small.1.1.0 small.1.1.1.0 ∙ ap little_endian (sym e) in
      (
        (b', run _ ∙ ap (λ v. ok v b') be, r', p),
        (
          b',
          run _
              ∙ ap (λ v. ok v b')
                  (ap (λ t. bit_or (bit_or (bit_or t (shl_int y 16)) (shl_int z 8)) w)
                      (shl_signed x small.0)
                    ∙ be),
          r',
          p,
        ),
        (b', run _ ∙ ap (λ v. ok v b') le, r', p),
        (
          b',
          run _
              ∙ ap (λ v. ok v b')
                  (ap (bit_or (bit_or (bit_or x (shl_int y 8)) (shl_int z 16)))
                      (shl_signed w small.1.1.1.0)
                    ∙ le),
          r',
          p,
        ),
      )
