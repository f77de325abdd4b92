-- ===== src/Bfile/Reading/Bulk.antt =====
-- `bf_read` of src/util/bfile.c.
use profit.Prelude.{
  ◌^◌, ℕ, zero, suc, ◌+◌, ◌-◌, ◌*◌, ◌%◌, ◌≤◌, ◌<◌, ◌≡◌, refl, sym, ap, ◌∙◌, List, ◌++◌, arith,
  length, take, drop, ltb, inl, inr, ◌⊎◌, Bool-cases, length-take, length-drop, min, ltb→lt, true,
  false,
}
use profit.Prelude.Windows.{take-add, drop-drop, take-drop_agree, take-length}
use native.Mathlib.Nat.{mul-le-mul_right}
use profit.Bfile.{
  Bfile, Run, ok, and_then, Stdio, IsStdio, size_sub, read_buffer, copy_out, bf_read_loop, bf_read,
}
use profit.Bfile.Reading.{Reads, Reads-advance, read_buffer-Reads, offset-eq}
use profit.Bfile.Writing.{le→leb}

ge : (n q : ℕ) → ltb q n ≡ false → n ≤ q
ge n q h = ground arith

-- What is buffered ends with the block, or with the file.
buffered_end :
    (q next bs pos ipos size : ℕ)
    → q * bs ≤ pos
    → pos < ipos
    → (ipos ≡ next * bs) ⊎ (ipos ≡ size)
    → (q * bs + bs ≤ ipos) ⊎ (ipos ≡ size)
buffered_end q next bs pos ipos size lo hi (inl e) = elim (Bool-cases (ltb q next)) [
  | inl lt ↦
      let next_block : suc q * bs ≤ next * bs = mul-le-mul_right bs (ltb→lt q next lt) in
      inl (omega arith)
  | inr le ↦
      let earlier : next * bs ≤ q * bs = mul-le-mul_right bs (ge next q le) in absurd (omega arith)
]
buffered_end q next bs pos ipos size lo hi (inr e) = inr e

copy_out-eq :
    (w c : ℕ) (b : Bfile)
    → min (b.buffer_size - b.pos % b.buffer_size) w ≡ c
    → b.pos % b.buffer_size + c ≤ length b.buffer
    → copy_out w b
      ≡ ok (take c (drop (b.pos % b.buffer_size) b.buffer)) (record b { pos = b.pos + c })
unfolding copy_out
copy_out-eq w c b e h =
    rw (e, copy_out) (rw (le→leb (b.pos % b.buffer_size + c) (length b.buffer) h) refl)

-- One `memcpy`: a part of the file, of a byte at least.
copy_out-Reads :
    (content : List ℕ) (w : ℕ) (b : Bfile)
    → Reads content b
    → b.pos < b.ipos
    → 0 < w
    → b.pos + w ≤ b.size
    → (c : ℕ) × (copy_out w b ≡ ok (take c (drop b.pos content)) (record b { pos = b.pos + c }))
      × Reads content (record b { pos = b.pos + c })
      × (0 < c)
      × (c ≤ w)
copy_out-Reads content w b r lt pos h =
    let base : ℕ = r.q * b.buffer_size in
    let off : b.pos % b.buffer_size ≡ b.pos - base =
      offset-eq r.q b.buffer_size b.pos r.starts (omega (arith, r.ahead)) in
    let c : ℕ = min (b.buffer_size - (b.pos - base)) w in
    let end = buffered_end r.q r.next b.buffer_size b.pos b.ipos b.size r.starts lt r.edge in
    let inside : b.pos + c ≤ b.ipos = ground (arith, end, r.starts, r.ahead) in
    let part : take c (drop (b.pos % b.buffer_size) b.buffer) ≡ take c (drop b.pos content) =
      ap (λ i. take c (drop i b.buffer)) off
      ∙ take-drop_agree (b.ipos - base) (b.pos - base) c b.buffer (drop base content) r.window
          (omega (arith, r.starts))
      ∙ ap (take c) (drop-drop base (b.pos - base) content)
      ∙ ap (λ i. take c (drop i content)) {x = base + (b.pos - base)} {y = b.pos}
          (omega (arith, r.starts)) in
    (
      c,
      copy_out-eq w c b (ap (λ i. min (b.buffer_size - i) w) off)
            (omega (arith, r.block, r.ahead, r.starts))
          ∙ ap (λ l. ok l (record b { pos = b.pos + c })) part,
      Reads-advance content b c r inside,
      omega (arith, r.ahead, r.starts),
      omega arith,
    )

take-min : (n m : ℕ) (xs : List ℕ) → length xs ≡ m → take (min n m) xs ≡ take n xs
take-min n m xs e = elim (Bool-cases (ltb m n)) [
  | inl more ↦
      ap (λ k. take k xs) {x = min n m} {y = m} (ground arith)
      ∙ take-length m xs (omega arith)
      ∙ sym (take-length n xs (ground arith))
  | inr within ↦ ap (λ k. take k xs) {x = min n m} {y = n} (ground arith)
]

module _ (io : Stdio) (std : IsStdio io) (content : List ℕ) where
  abbrev rest_of : ℕ → ℕ → List ℕ → Bfile → Run (List ℕ)
  rest_of fuel w part b' =
      and_then (bf_read_loop io fuel (suc w - length part) b') λ rest. ok (part ++ rest)

  read_copy :
      (fuel w : ℕ) (b : Bfile)
      → ltb b.pos b.ipos ≡ true
      → bf_read_loop io (suc fuel) (suc w) b ≡ and_then (copy_out (suc w) b) (rest_of fuel w)
  unfolding bf_read_loop
  read_copy fuel w b e = rw (e, bf_read_loop) refl

  read_fill :
      (fuel w : ℕ) (b : Bfile)
      → ltb b.pos b.ipos ≡ false
      → bf_read_loop io (suc fuel) (suc w) b
        ≡ and_then (read_buffer io b) (λ _. bf_read_loop io fuel (suc w))
  unfolding bf_read_loop
  read_fill fuel w b e = rw (e, bf_read_loop) refl

  bf_read_loop-Reads :
      (fuel w : ℕ) (b : Bfile)
      → Reads content b
      → b.pos + w ≤ b.size
      → ((b.pos < b.ipos) × (2 * w < fuel)) ⊎ (2 * w + 1 < fuel)
      → (b' : Bfile) × (bf_read_loop io fuel w b ≡ ok (take w (drop b.pos content)) b')
        × Reads content b'
        × (b'.pos ≡ b.pos + w)
  unfolding bf_read_loop
  bf_read_loop-Reads zero w b r h f = absurd (ground arith)
  bf_read_loop-Reads (suc fuel) zero b r h f = (b, refl, r, omega arith)
  bf_read_loop-Reads (suc fuel) (suc w) b r h f = elim (Bool-cases (ltb b.pos b.ipos)) [
    | inl buffered ↦
        let (c, run, r', c_pos, le) =
          copy_out-Reads content (suc w) b r (ltb→lt _ _ buffered) (omega arith) h in
        let b₁ : Bfile = record b { pos = b.pos + c } in
        let part : List ℕ = take c (drop b.pos content) in
        let len : length part ≡ c =
          omega (arith, length-take c (drop b.pos content), length-drop b.pos content, r.whole) in
        let left : suc w - length part ≡ suc w - c = omega arith in
        let (b', run', r'', p) =
          bf_read_loop-Reads fuel (suc w - c) b₁ r' (omega arith) (inr (ground arith)) in
        (
          b',
          read_copy fuel w b buffered
              ∙ ap (λ m. and_then m (rest_of fuel w)) run
              ∙ ap (λ k. and_then (bf_read_loop io fuel k b₁) λ rest. ok (part ++ rest)) left
              ∙ ap (λ m. and_then m λ rest. ok (part ++ rest)) run'
              ∙ ap (λ l. ok (part ++ take (suc w - c) l) b') (sym (drop-drop b.pos c content))
              ∙ ap (λ l. ok l b') (sym (take-add c (suc w - c) (drop b.pos content)))
              ∙ ap (λ k. ok (take k (drop b.pos content)) b') {x = c + (suc w - c)} {y = suc w}
                  (omega arith),
          r'',
          omega arith,
        )
    | inr drained ↦
        let empty : b.pos ≡ b.ipos = ground (arith, r.behind) in
        let (b₁, run, r', p, lt) = read_buffer-Reads io std content b r empty (omega arith) in
        let (b', run', r'', p') =
          bf_read_loop-Reads fuel (suc w) b₁ r' (omega (arith, r'.whole, r.whole))
            (inl (lt, ground arith)) in
        (
          b',
          read_fill fuel w b drained
              ∙ ap (λ m. and_then m (λ _. bf_read_loop io fuel (suc w))) run
              ∙ run'
              ∙ ap (λ k. ok (take (suc w) (drop k content)) b') p,
          r'',
          omega arith,
        )
  ]

  read_start :
      (len : ℕ) (b : Bfile)
      → b.readable ≡ true
      → bf_read io len b
        ≡ bf_read_loop io
            (2 * min (len % 2 ^ 32) (size_sub b.size b.pos) + 2)
            (min (len % 2 ^ 32) (size_sub b.size b.pos))
            b
  unfolding bf_read
  read_start len b h = ground arith

  -- On a reader, `bf_read` of a `len` below 2^31 gives the next `len` bytes of the file, or all that is
  -- left if that is less; it ends, and moves on by as many.
  pub bf_read-Reads :
      (len : ℕ) (b : Bfile)
      → Reads content b
      → len < 2 ^ 31
      → (b' : Bfile) × (bf_read io len b ≡ ok (take len (drop b.pos content)) b')
        × Reads content b'
        × (b'.pos ≡ b.pos + min len (b.size - b.pos))
  bf_read-Reads len b r low =
      let wrapped : len % 2 ^ 32 ≡ len = omega arith in
      let n : ℕ = min len (b.size - b.pos) in
      let left : size_sub b.size b.pos ≡ b.size - b.pos =
        omega (arith, r.small, r.behind, r.ends) in
      let (b', run, r', p) =
        bf_read_loop-Reads (2 * n + 2) n b r (omega (arith, r.behind, r.ends))
          (inr (omega arith)) in
      (
        b',
        read_start len b r.readable
            ∙ ap
                (λ k.
                  bf_read_loop io (2 * min k (size_sub b.size b.pos) + 2)
                    (min k (size_sub b.size b.pos)) b)
                wrapped
            ∙ ap (λ k. bf_read_loop io (2 * min len k + 2) (min len k) b) left
            ∙ run
            ∙ ap (λ l. ok l b')
                (take-min len (b.size - b.pos) (drop b.pos content)
                  (omega (arith, length-drop b.pos content, r.whole))),
        r',
        p,
      )
