-- ===== src/Bfile/Reading/Rewind.antt =====
-- `bf_rewind` on a file that is read from a disk.
use profit.Prelude.{
  ℕ, ◌+◌, ◌-◌, ◌*◌, ◌/◌, ◌≤◌, ◌<◌, ◌≡◌, refl, sym, ap, ◌∙◌, true, false, List, inl, inr, Bool-cases,
  arith, length, take, drop, ltb, ◌==◌,
}
use native.Mathlib.Nat.{div-mul-le_self, lt-div-mul-add, le-div_iff_mul-le}
use profit.Bfile.{Bfile, Stdio, IsStdio, ok, and_then, read_buffer, rewind}
use profit.Bfile.Reading.{Reads, Filled, filled, read_loop-Filled, lt→ne}

module _ (io : Stdio) (std : IsStdio io) (content : List ℕ) where
  -- the file with `pos` moved back, and at the start of the block of that place
  abbrev back_to : Bfile → ℕ → ℕ → Bfile
  back_to b p k = record b { pos = p; ipos = k * b.buffer_size; fpos = k * b.buffer_size }

  -- A refill from the start of the block that `pos` lies in.
  reread :
      (b : Bfile) (p k : ℕ)
      → Reads content b
      → b.is_open ≡ true
      → b.disk ≡ content
      → k * b.buffer_size ≤ p
      → p < k * b.buffer_size + b.buffer_size
      → p ≤ b.size
      → k * b.buffer_size < b.size
      → (b' : Bfile) × (read_buffer io (back_to b p k) ≡ ok tt b') × Reads content b' × (b'.pos ≡ p)
  unfolding read_buffer
  reread b p k r opened disk lo hi room more =
      let start : Filled io std (k * b.buffer_size) 0 (back_to b p k) = record {
        opened = opened;
        at_pos = omega arith;
        at_ipos = omega arith;
        total = r.whole ∙ ap length (sym disk);
        within = omega arith;
        room = r.block;
        fits = omega arith;
        holds = refl;
      } in
      let (buffer, n, run, f, done) =
        read_loop-Filled io std (b.buffer_size + 1) (k * b.buffer_size) 0 (back_to b p k) start
          (omega arith) in
      let off : k * b.buffer_size + n - k * b.buffer_size ≡ n = omega arith in
      (
        filled io std (back_to b p k) buffer (k * b.buffer_size + n),
        rw (lt→ne (k * b.buffer_size) b.size more) run,
        record {
          q = k;
          next = k + 1;
          readable = r.readable;
          whole = r.whole;
          small = r.small;
          block = f.room;
          block_pos = r.block_pos;
          starts = lo;
          behind = ground (arith, done, hi, room);
          ahead = omega (arith, f.fits);
          ends = f.within;
          edge = ground (arith, done);
          window =
              ap (λ k. take k buffer) off
              ∙ f.holds
              ∙ ap (λ d. take n (drop (k * b.buffer_size) d)) disk
              ∙ ap (λ j. take j (drop (k * b.buffer_size) content)) (sym off);
          source = inl (opened, disk, refl);
        },
        refl,
      )

  -- where the block of a place in the file begins and ends
  in_block : (p n : ℕ) → 0 < n → (p / n * n ≤ p) × (p < p / n * n + n)
  in_block p n h = (div-mul-le_self p n, lt-div-mul-add h)

  -- A file that stays in its block
  stay :
      (b : Bfile) (p : ℕ)
      → Reads content b
      → p ≤ b.pos
      → b.pos / b.buffer_size ≤ p / b.buffer_size
      → Reads content (record b { pos = p })
  stay b p r le same = record {
    q = r.q;
    next = r.next;
    readable = r.readable;
    whole = r.whole;
    small = r.small;
    block = r.block;
    block_pos = r.block_pos;
    starts =
        let q_le : r.q ≤ b.pos / b.buffer_size = (le-div_iff_mul-le r.block_pos).1 r.starts in
        (le-div_iff_mul-le r.block_pos).0 (omega (arith, q_le, same));
    behind = omega (arith, r.behind);
    ahead = r.ahead;
    ends = r.ends;
    edge = r.edge;
    window = r.window;
    source = r.source;
  }

  rewind-stays :
      (b : Bfile) (n : ℕ)
      → Reads content b
      → n ≤ b.pos
      → ltb ((b.pos - n) / b.buffer_size) (b.pos / b.buffer_size) ≡ false
      → rewind io n b ≡ ok n (record b { pos = b.pos - n })
  unfolding rewind
  rewind-stays b n r h e =
      let some_size : (b.buffer_size == 0) ≡ false = ground (arith, r.block_pos) in
      let enough : ltb b.pos n ≡ false = ground arith in rw (some_size, enough, e) refl

  rewind-crosses :
      (b : Bfile) (n : ℕ)
      → Reads content b
      → b.is_open ≡ true
      → n ≤ b.pos
      → ltb ((b.pos - n) / b.buffer_size) (b.pos / b.buffer_size) ≡ true
      → rewind io n b
        ≡ and_then (read_buffer io (back_to b (b.pos - n) ((b.pos - n) / b.buffer_size))) λ _. ok n
  unfolding rewind
  rewind-crosses b n r opened h e =
      let some_size : (b.buffer_size == 0) ≡ false = ground (arith, r.block_pos) in
      let enough : ltb b.pos n ≡ false = ground arith in simp (some_size, enough, e, opened) refl

  -- On a reader of a file on disk, at n or more bytes behind its start, a rewind by n succeeds, and the
  -- reader stands n bytes further back, also where that is in an earlier block.
  pub rewind-Reads :
      (b : Bfile) (n : ℕ)
      → Reads content b
      → b.is_open ≡ true
      → b.disk ≡ content
      → n ≤ b.pos
      → (b' : Bfile) × (rewind io n b ≡ ok n b') × Reads content b' × (b'.pos ≡ b.pos - n)
  rewind-Reads b n r opened disk h =
      let p : ℕ = b.pos - n in
      let (lo, hi) = in_block (b.pos - n) b.buffer_size r.block_pos in
      elim (Bool-cases (ltb ((b.pos - n) / b.buffer_size) (b.pos / b.buffer_size))) [
        | inl crosses ↦
            let earlier : (b.pos - n) / b.buffer_size + 1 ≤ b.pos / b.buffer_size = ground arith in
            let full : ((b.pos - n) / b.buffer_size + 1) * b.buffer_size ≤ b.pos =
              (le-div_iff_mul-le r.block_pos).0 earlier in
            let (b', run, r', at) =
              reread b (b.pos - n) ((b.pos - n) / b.buffer_size) r opened disk lo hi
                (omega (arith, r.behind, r.ends))
                (omega (arith, full, r.behind, r.ends, r.block_pos)) in
            (b', rewind-crosses b n r opened h crosses ∙ ap (λ m. and_then m λ _. ok n) run, r', at)
        | inr stays ↦ (
          record b { pos = b.pos - n },
          rewind-stays b n r h stays,
          stay b (b.pos - n) r (omega arith) (ground arith),
          refl,
        )
      ]
