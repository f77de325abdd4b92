-- ===== src/Bfile/Peek/Look.antt =====
-- A peek at an even position of a file that is read through a buffer of an even size.
use profit.Prelude.{
  ℕ, ◌+◌, ◌-◌, ◌*◌, ◌%◌, ◌≤◌, ◌<◌, ◌≡◌, refl, sym, ap, subst, ◌∙◌, true, false, List, [], ◌∷◌, ◌&&◌,
  ltb, ◌==◌, if◌then◌else◌, inl, inr, Bool-cases, arith, take, drop, get_elem?, some, none, bit_or,
}
use profit.Bfile.{
  Bfile, Cmd, Stdio, IsStdio, ok, fault, and_then, read_buffer, size_sub, ◌>>=◌, pure,
}
use profit.Bfile.Get.{shl_int, to_16}
use profit.Bfile.Get.Values.{big_endian, IsBytes, uint16_be, drop-IsBytes, take-IsBytes}
use profit.Bfile.Get.Read.{drop-step}
use profit.Bfile.Peek.{at, peek_uint16_be}
use native.Mathlib.Nat.{mod-eq_of_lt}
use profit.Bfile.Reading.{Reads, Reads-advance, read_buffer-Reads, offset-eq, held_byte}
use profit.Bfile.Reading.Block.{Ends, fixed, read_buffer-Keeps}

module _ (io : Stdio) (std : IsStdio io) (content : List ℕ) (bytes : IsBytes content) where
  -- the part of the peek behind the refill
  value : ℕ → ℕ → Cmd ℕ
  value x y = pure (to_16 (bit_or (to_16 (shl_int x 8)) y))

  second : Bfile → ℕ → Cmd ℕ
  second b x = at ((b.pos % b.buffer_size + 1) % b.buffer_size) >>= value x

  look : Cmd ℕ
  look b =
      if ltb (size_sub b.ipos 2) b.pos then ok 0 b else (at (b.pos % b.buffer_size) >>= second b) b

  at-some : (i v : ℕ) (b : Bfile) → get_elem? b.buffer i ≡ some v → at i b ≡ ok v b
  unfolding at
  at-some i v b e = ap (λ r. elim r [ some v ↦ ok v b | none ↦ fault ]) e

  next_offset : (q n p : ℕ) → q * n ≤ p → p + 1 < q * n + n → (p % n + 1) % n ≡ (p + 1) % n
  next_offset q n p lo hi =
      let here : p % n ≡ p - q * n = offset-eq q n p lo (omega arith) in
      let there : (p + 1) % n ≡ p + 1 - q * n = offset-eq q n (p + 1) (omega arith) hi in
      mod-eq_of_lt (omega (arith, here)) ∙ omega (arith, here, there)

  look-Reads :
      (b : Bfile)
      → Reads content b
      → b.pos + 2 ≤ b.ipos
      → look b ≡ ok (big_endian (take 2 (drop b.pos content))) b
  unfolding look second value
  look-Reads b r lt =
      let (x, ex, hx) = held_byte content b r (omega arith) in
      let next : Bfile = record b { pos = b.pos + 1 } in
      let (y, ey, hy) =
        held_byte content next (Reads-advance content b 1 r (omega arith)) (omega arith) in
      let hy' : get_elem? b.buffer ((b.pos % b.buffer_size + 1) % b.buffer_size) ≡ some y =
        ap (get_elem? b.buffer)
          (next_offset r.q b.buffer_size b.pos r.starts (omega (arith, r.ahead)))
        ∙ hy in
      let room : ltb (size_sub b.ipos 2) b.pos ≡ false =
        let s : size_sub b.ipos 2 ≡ b.ipos - 2 = omega (arith, r.small, r.ends) in ground arith in
      let two : take 2 (drop b.pos content) ≡ x ∷ y ∷ [] =
        rw (drop-step b.pos x content ex, drop-step (b.pos + 1) y content ey) refl in
      let small : IsBytes (x ∷ y ∷ []) =
        rw two at (take-IsBytes 2 (drop b.pos content) (drop-IsBytes b.pos content bytes)) in
      rw room (
        ap (λ m. and_then m (second b)) (at-some (b.pos % b.buffer_size) x b hx)
        ∙ ap (λ m. and_then m (value x))
            (at-some ((b.pos % b.buffer_size + 1) % b.buffer_size) y b hy')
        ∙ ap (λ v. ok v b) (uint16_be x y small.0 small.1.0 ∙ ap big_endian (sym two)))

  even_left :
      (b : Bfile) (p h : ℕ)
      → Reads content b
      → b.pos ≡ 2 * p
      → b.buffer_size ≡ 2 * h
      → b.pos < b.ipos
      → b.pos + 2 ≤ b.size
      → b.pos + 2 ≤ b.ipos
  even_left b p h r even half lt left = elim r.edge [
    | inl e ↦
        let ipos : b.ipos ≡ 2 * (r.next * h) = e ∙ ap (λ n. r.next * n) half ∙ omega arith in
        omega (arith, ipos)
    | inr e ↦ omega (arith, e)
  ]

  peek-open :
      (b : Bfile)
      → b.readable ≡ true
      → 0 < b.buffer_size
      → peek_uint16_be io b
        ≡ and_then
            (if b.pos % b.buffer_size == 0 && b.pos == b.ipos then read_buffer io b else ok tt b)
            (λ _. look)
  unfolding peek_uint16_be look second value
  peek-open b readable pos =
      let some_size : (b.buffer_size == 0) ≡ false = ground arith in rw (readable, some_size) refl

  -- A peek at an even position of a file of bytes with two left, through a buffer of an even size,
  -- gives the big-endian number of the next two bytes; the file stays where it is.
  pub peek_uint16_be-Reads :
      (b : Bfile) (p h : ℕ)
      → Reads content b
      → b.pos ≡ 2 * p
      → b.buffer_size ≡ 2 * h
      → b.pos + 2 ≤ b.size
      → (b' : Bfile) × (peek_uint16_be io b ≡ ok (big_endian (take 2 (drop b.pos content))) b')
        × Reads content b'
        × (b'.pos ≡ b.pos)
        × (b'.buffer_size ≡ b.buffer_size)
  peek_uint16_be-Reads b p h r even half left = elim (Bool-cases (ltb b.pos b.ipos)) [
    | inl buffered ↦
        let lt : b.pos < b.ipos = ground arith in
        let stays : (b.pos % b.buffer_size == 0 && b.pos == b.ipos) ≡ false = ground arith in
        (
          b,
          peek-open b r.readable r.block_pos
              ∙ ap (λ c. and_then (if c then read_buffer io b else ok tt b) (λ _. look)) stays
              ∙ look-Reads b r (even_left b p h r even half lt left),
          r,
          refl,
          refl,
        )
    | inr drained ↦
        let at_end : b.pos ≡ b.ipos = ground (arith, r.behind) in
        let edge : b.ipos ≡ r.next * b.buffer_size = ground (arith, r.edge) in
        let off : b.pos % b.buffer_size ≡ 0 =
          offset-eq r.next b.buffer_size b.pos (omega (arith, edge))
            (omega (arith, edge, r.block_pos))
          ∙ omega (arith, edge) in
        let fills : (b.pos % b.buffer_size == 0 && b.pos == b.ipos) ≡ true = ground arith in
        let (b', run, r', p', lt) = read_buffer-Reads io std content b r at_end (omega arith) in
        let kept : b'.buffer_size ≡ b.buffer_size =
          ap (λ k. k.0) (subst (Ends (fixed b)) run (read_buffer-Keeps io b)) in
        (
          b',
          peek-open b r.readable r.block_pos
              ∙ ap (λ c. and_then (if c then read_buffer io b else ok tt b) (λ _. look)) fills
              ∙ ap (λ m. and_then m (λ _. look)) run
              ∙ look-Reads b' r' (
                  even_left b' p h r' (p' ∙ even) (kept ∙ half) lt
                    (omega (arith, p', r.whole, r'.whole)))
              ∙ ap (λ n. ok (big_endian (take 2 (drop n content))) b') p',
          r',
          p',
          kept,
        )
  ]
