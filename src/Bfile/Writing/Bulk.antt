-- ===== src/Bfile/Writing/Bulk.antt =====
-- `bf_write` of src/util/bfile.c.
use profit.Prelude.{
  ℕ, zero, suc, ◌+◌, ◌-◌, ◌*◌, ◌%◌, ◌^◌, ◌≤◌, ◌<◌, ◌≡◌, refl, sym, ap, ◌∙◌, subst, List, [], ◌∷◌,
  ◌++◌, arith, length, take, drop, ltb, inl, inr, ◌⊎◌, Bool-cases, length-take, length-drop, min,
  true, false, append_assoc, append-nil, take-append-drop,
}
use profit.Prelude.Windows.{splice, take-length}
use profit.Bfile.{
  Bfile, ok, and_then, Stdio, IsStdio, size_sub, write_buffer, bf_write_loop, bf_write,
}
use profit.Bfile.Writing.{
  Writes, write_buffer-Writes, flushed_of, full-Writes, extend-Writes, offset-Writes, le→leb,
}

module _ (io : Stdio) (std : IsStdio io) where
  write_flush :
      (fuel v : ℕ) (vs : List ℕ) (b : Bfile)
      → ltb (size_sub b.pos b.ipos) b.buffer_size ≡ false
      → bf_write_loop io (suc fuel) (v ∷ vs) b
        ≡ and_then (write_buffer io b) (λ _. bf_write_loop io fuel (v ∷ vs))
  unfolding bf_write_loop
  write_flush fuel v vs b e = rw (e, bf_write_loop) refl

  -- A `memcpy` of c bytes into the buffer at `off`
  write_copy :
      (fuel off c v : ℕ) (vs : List ℕ) (b : Bfile)
      → ltb (size_sub b.pos b.ipos) b.buffer_size ≡ true
      → b.pos % b.buffer_size ≡ off
      → min (b.buffer_size - off) (length (v ∷ vs)) ≡ c
      → off + c ≤ length b.buffer
      → bf_write_loop io (suc fuel) (v ∷ vs) b
        ≡ bf_write_loop io fuel
            (drop c (v ∷ vs))
            (record b { buffer = splice off (take c (v ∷ vs)) b.buffer; pos = b.pos + c })
  unfolding bf_write_loop
  write_copy fuel off c v vs b e o m fits =
      rw (e, bf_write_loop) (rw (o, m, le→leb (off + c) (length b.buffer) fits) refl)

  bf_write_loop-Writes :
      (fuel : ℕ) (vs out : List ℕ) (b : Bfile)
      → Writes out b
      → b.pos + length vs < 2 ^ 63
      → ((b.pos < b.ipos + b.buffer_size) × (2 * length vs < fuel)) ⊎ (2 * length vs + 1 < fuel)
      → (b' : Bfile) × (bf_write_loop io fuel vs b ≡ ok tt b')
        × Writes (out ++ vs) b'
        × (b'.pos ≡ b.pos + length vs)
  unfolding bf_write_loop
  bf_write_loop-Writes zero vs out b w h f = absurd (ground arith)
  bf_write_loop-Writes (suc fuel) [] out b w h f =
      (b, refl, subst (λ l. Writes l b) (sym (append-nil out)) w, omega arith)
  bf_write_loop-Writes (suc fuel) (v ∷ vs) out b w h f =
      elim (Bool-cases (ltb (size_sub b.pos b.ipos) b.buffer_size)) [
        | inl roomy ↦
            let lt : b.pos < b.ipos + b.buffer_size = ground (arith, w.ahead, w.behind, w.small) in
            let n : ℕ = b.pos - b.ipos in
            let c : ℕ = min (b.buffer_size - n) (length (v ∷ vs)) in
            let part : List ℕ = take c (v ∷ vs) in
            let len : length part ≡ c = omega (arith, length-take c (v ∷ vs)) in
            let p : b.pos + length part ≡ b.pos + c = omega arith in
            let b₁ : Bfile = record b { buffer = splice n part b.buffer; pos = b.pos + c } in
            let w₁ : Writes (out ++ part) b₁ =
              subst
                (λ k. Writes (out ++ part) (record b { buffer = splice n part b.buffer; pos = k }))
                p (extend-Writes io std out part b w (omega (arith, w.behind)) (omega arith)) in
            let (b', run, w', p') =
              bf_write_loop-Writes fuel (drop c (v ∷ vs)) (out ++ part) b₁ w₁
                (omega (arith, length-drop c (v ∷ vs)))
                (inr (ground (arith, length-drop c (v ∷ vs)))) in
            (
              b',
              write_copy fuel n c v vs b roomy (offset-Writes io std out b w lt) refl
                    (omega (arith, w.block, w.behind))
                  ∙ run,
              subst (λ l. Writes l b')
                  (append_assoc out part (drop c (v ∷ vs))
                    ∙ ap (λ l. out ++ l) (take-append-drop c (v ∷ vs)))
                  w',
              omega (arith, length-drop c (v ∷ vs)),
            )
        | inr full ↦
            let e : b.pos ≡ b.ipos + b.buffer_size = ground (arith, w.ahead, w.behind, w.small) in
            let w₁ = full-Writes io std out b w e in
            let (b', run, w', p) =
              bf_write_loop-Writes fuel (v ∷ vs) out (flushed_of io std out b) w₁ h
                (inl (omega (arith, w.block_pos), ground arith)) in
            (
              b',
              write_flush fuel v vs b full
                  ∙ ap (λ m. and_then m (λ _. bf_write_loop io fuel (v ∷ vs)))
                      (write_buffer-Writes io std out b w)
                  ∙ run,
              w',
              p,
            )
      ]

  write_start :
      (vs : List ℕ) (b : Bfile)
      → b.writable ≡ true
      → bf_write io vs b
        ≡ and_then
            (bf_write_loop io (2 * (length vs % 2 ^ 32) + 2) (take (length vs % 2 ^ 32) vs) b)
            (λ _. ok (length vs % 2 ^ 32))
  unfolding bf_write
  write_start vs b h = ground arith

  -- On a writer with room below 2^63 bytes, `bf_write` of fewer than 2^31 bytes ends, takes all the
  -- bytes, and puts them in order behind those put before.
  pub bf_write-Writes :
      (vs out : List ℕ) (b : Bfile)
      → Writes out b
      → length vs < 2 ^ 31
      → b.pos + length vs < 2 ^ 63
      → (b' : Bfile) × (bf_write io vs b ≡ ok (length vs) b')
        × Writes (out ++ vs) b'
        × (b'.pos ≡ b.pos + length vs)
  bf_write-Writes vs out b w small h =
      let n : length vs % 2 ^ 32 ≡ length vs = omega arith in
      let all : take (length vs) vs ≡ vs = take-length (length vs) vs (omega arith) in
      let (b', run, w', p) =
        bf_write_loop-Writes (2 * length vs + 2) vs out b w h (inr (omega arith)) in
      (
        b',
        write_start vs b w.writable
            ∙ ap (λ k. and_then (bf_write_loop io (2 * k + 2) (take k vs) b) (λ _. ok k)) n
            ∙ ap (λ l. and_then (bf_write_loop io (2 * length vs + 2) l b) (λ _. ok (length vs)))
                all
            ∙ ap (λ m. and_then m (λ _. ok (length vs))) run,
        w',
        p,
      )
