-- ===== src/Bfile/Writing.antt =====
-- A writer of src/util/bfile.c: what is on disk and what waits in the buffer make up the bytes put so
-- far, whatever the block size is and however `fwrite` cuts them up.
pub mod Bulk
use profit.Prelude.{
  ℕ, zero, suc, ◌+◌, ◌-◌, ◌*◌, ◌/◌, ◌%◌, ◌^◌, ◌≤◌, ◌<◌, ◌≡◌, refl, sym, ap, ap₂, subst, ◌∙◌, Bool,
  true, false, List, [], ◌∷◌, ◌++◌, arith, length, take, drop, set, ltb, leb, ◌==◌, inl, inr, ◌⊎◌,
  Bool-cases, if◌then◌else◌, lt→ltb, length-take, length-drop, length-append, length-set, min,
  append_assoc, append-nil,
}
use profit.Prelude.Windows.{
  take-add, drop-drop, splice, length-splice, take-splice, take-set_end, take-length, take-nil,
}
use native.Mathlib.Nat.{mul-mod_left}
use profit.Bfile.{
  Bfile, Run, ok, fault, out_of_fuel, and_then, Stdio, IsStdio, size_sub, write_loop, write_buffer,
  destroy, put_uint8, bf_write, bf_write_loop, ◌>>=◌, ◌>>◌, pure,
}
use profit.Bfile.Reading.{offset-eq}

-- The bytes put so far are `out`. The buffer holds those from q blocks on; the others are on disk.
pub record Writes (out : List ℕ) (b : Bfile) : Type 0 where
  pub q : ℕ
  pub writable : b.writable ≡ true
  pub opened : b.is_open ≡ true
  pub small : b.pos < 2 ^ 63
  pub block : length b.buffer ≡ b.buffer_size
  pub block_pos : 0 < b.buffer_size
  pub starts : b.ipos ≡ q * b.buffer_size
  pub behind : b.ipos ≤ b.pos
  pub ahead : b.pos ≤ b.ipos + b.buffer_size
  pub flushed : length b.disk ≡ b.ipos
  pub bytes : out ≡ b.disk ++ take (b.pos - b.ipos) b.buffer

pub le→leb : (m n : ℕ) → m ≤ n → leb m n ≡ true
le→leb m n h = ground arith

-- A writer has put as many bytes as `bf_get_position` says.
pub length-Writes : (out : List ℕ) (b : Bfile) → Writes out b → length out ≡ b.pos
length-Writes out b w = omega (
  arith,
  ap length w.bytes,
  length-append b.disk (take (b.pos - b.ipos) b.buffer),
  length-take (b.pos - b.ipos) b.buffer,
  w.flushed,
  w.block,
  w.behind,
  w.ahead,
)

set-splice : (i v : ℕ) (xs : List ℕ) → i < length xs → set xs i v ≡ splice i (v ∷ []) xs
set-splice i v [] h = absurd (omega arith)
set-splice zero v (x ∷ xs) h = refl
set-splice (suc i) v (x ∷ xs) h =
    ap (λ l. x ∷ l) (set-splice i v xs (omega arith))
    ∙ ap (λ n. x ∷ (take i xs ++ v ∷ drop n (x ∷ xs))) {x = suc (i + 1)} {y = suc i + 1}
        (omega arith)

module _ (io : Stdio) (std : IsStdio io) where
  write_loop-go :
      (fuel w t : ℕ) (b : Bfile)
      → w < t
      → b.ipos % b.buffer_size ≡ 0
      → t ≤ length b.buffer
      → let n : ℕ = io.fwrite_count (t - w) in
        write_loop io (suc fuel) w t b
        ≡ write_loop io fuel
            (w + n)
            t
            (record b { disk = b.disk ++ take n (drop w b.buffer); fpos = b.fpos + n })
  unfolding write_loop
  write_loop-go fuel w t b h z room =
      let off : b.ipos % b.buffer_size + w ≡ w = omega arith in
      let fits : leb (w + (t - w)) (length b.buffer) ≡ true = le→leb _ _ (omega arith) in
      rw (lt→ltb w t h, write_loop) (rw (off, fits) refl)

  write_loop-done :
      (fuel w t : ℕ) (b : Bfile) → ltb w t ≡ false → write_loop io (suc fuel) w t b ≡ ok w b
  unfolding write_loop
  write_loop-done fuel w t b h = rw (h, write_loop) refl

  -- The loop puts the rest of the buffer's first t bytes on disk.
  write_loop-all :
      (fuel w t : ℕ) (b : Bfile)
      → w ≤ t
      → t - w < fuel
      → b.ipos % b.buffer_size ≡ 0
      → t ≤ length b.buffer
      → write_loop io fuel w t b
        ≡ ok t
            (record b { disk = b.disk ++ take (t - w) (drop w b.buffer); fpos = b.fpos + (t - w) })
  write_loop-all zero w t b h f z room = absurd (omega arith)
  write_loop-all (suc fuel) w t b h f z room = elim (Bool-cases (ltb w t)) [
    | inl more ↦
        let n : ℕ = io.fwrite_count (t - w) in
        let lt : w < t = ground arith in
        let le : n ≤ t - w = std.fwrite_le (t - w) in
        let pos : 0 < n = std.fwrite_pos (t - w) (omega arith) in
        let part : List ℕ = take n (drop w b.buffer) in
        let b' : Bfile = record b { disk = b.disk ++ part; fpos = b.fpos + n } in
        let joined : (b.disk ++ part) ++ take (t - (w + n)) (drop (w + n) b.buffer)
            ≡ b.disk ++ take (t - w) (drop w b.buffer) =
          append_assoc b.disk part _
          ∙ ap (λ l. b.disk ++ (part ++ take (t - (w + n)) l)) (sym (drop-drop w n b.buffer))
          ∙ ap (λ l. b.disk ++ l) (sym (take-add n (t - (w + n)) (drop w b.buffer)))
          ∙ ap (λ k. b.disk ++ take k (drop w b.buffer)) {x = n + (t - (w + n))} {y = t - w}
              (omega arith) in
        write_loop-go fuel w t b lt z room
        ∙ write_loop-all fuel (w + n) t b' (omega arith) (omega arith) z room
        ∙ ap₂ (λ l p. ok t (record b { disk = l; fpos = p })) joined (omega arith)
    | inr done ↦
        let e : w ≡ t = ground arith in
        let gap : t - w ≡ 0 = omega arith in
        write_loop-done fuel w t b done
        ∙ ap (λ k. ok k b) e
        ∙ ap₂ (λ l p. ok t (record b { disk = l; fpos = p }))
            (sym (append-nil b.disk) ∙ ap (λ k. b.disk ++ take k (drop w b.buffer)) (sym gap))
            (omega arith)
  ]

  -- what `bf_write_buffer` does after its loop
  abbrev advance : ℕ → Bfile → Run (Unit {0})
  advance n b = ok tt (record b { ipos = b.ipos + n })

  write_buffer-loop :
      (b : Bfile)
      → b.is_open ≡ true
      → b.writable ≡ true
      → let t : ℕ = size_sub b.pos b.ipos in
        write_buffer io b ≡ and_then (write_loop io (t + 1) 0 t b) advance
  unfolding write_buffer
  write_buffer-loop b o w = ground arith

  -- A flush: all bytes are on disk.
  pub write_buffer-Writes :
      (out : List ℕ) (b : Bfile)
      → Writes out b
      → write_buffer io b
        ≡ ok tt (record b { disk = out; fpos = b.fpos + (b.pos - b.ipos); ipos = b.pos })
  unfolding write_buffer
  write_buffer-Writes out b w =
      let t : ℕ = b.pos - b.ipos in
      let e : size_sub b.pos b.ipos ≡ t = omega (arith, w.small, w.behind) in
      let z : b.ipos % b.buffer_size ≡ 0 =
        ap (λ n. n % b.buffer_size) w.starts ∙ mul-mod_left w.q b.buffer_size in
      let room : t ≤ length b.buffer = omega (arith, w.block, w.ahead) in
      let run = write_loop-all (t + 1) 0 t b (omega arith) (omega arith) z room in
      write_buffer-loop b w.opened w.writable
      ∙ ap (λ k. and_then (write_loop io (k + 1) 0 k b) advance) e
      ∙ ap (λ r. and_then r advance) run
      ∙ ap
          (λ k.
            ok tt
              (record b { disk = b.disk ++ take k b.buffer; fpos = b.fpos + k; ipos = b.ipos + t }))
          {x = t - 0} {y = t} (omega arith)
      ∙ ap₂ (λ l p. ok tt (record b { disk = l; fpos = b.fpos + t; ipos = p })) (sym w.bytes)
          (omega (arith, w.behind))

  -- A file in which the waiting bytes are flushed.
  abbrev pub flushed_of : List ℕ → Bfile → Bfile
  flushed_of out b = record b { disk = out; fpos = b.fpos + (b.pos - b.ipos); ipos = b.pos }

  -- A flush of a full buffer leaves a writer with all of it free.
  pub full-Writes :
      (out : List ℕ) (b : Bfile)
      → Writes out b
      → b.pos ≡ b.ipos + b.buffer_size
      → Writes out (flushed_of out b)
  full-Writes out b w full = record {
    q = w.q + 1;
    writable = w.writable;
    opened = w.opened;
    small = w.small;
    block = w.block;
    block_pos = w.block_pos;
    starts = omega (arith, w.starts);
    behind = omega arith;
    ahead = omega arith;
    flushed = length-Writes out b w;
    bytes =
        sym (append-nil out)
        ∙ ap (λ k. out ++ take k b.buffer) {x = 0} {y = b.pos - b.pos} (omega arith);
  }

  -- `memcpy` of bytes that fit into the block, behind those that wait
  pub extend-Writes :
      (out bytes : List ℕ) (b : Bfile)
      → Writes out b
      → b.pos + length bytes ≤ b.ipos + b.buffer_size
      → b.pos + length bytes < 2 ^ 63
      → Writes
          (out ++ bytes)
          (record b { buffer = splice (b.pos - b.ipos) bytes b.buffer; pos = b.pos + length bytes })
  extend-Writes out bytes b w fits small = record {
    q = w.q;
    writable = w.writable;
    opened = w.opened;
    small = small;
    block =
        length-splice (b.pos - b.ipos) bytes b.buffer (omega (arith, w.block, w.behind)) ∙ w.block;
    block_pos = w.block_pos;
    starts = w.starts;
    behind = omega (arith, w.behind);
    ahead = fits;
    flushed = w.flushed;
    bytes =
        ap (λ l. l ++ bytes) w.bytes
        ∙ append_assoc b.disk (take (b.pos - b.ipos) b.buffer) bytes
        ∙ ap (λ l. b.disk ++ l)
            (sym (take-splice (b.pos - b.ipos) bytes b.buffer (omega (arith, w.block, w.ahead))))
        ∙ ap (λ k. b.disk ++ take k (splice (b.pos - b.ipos) bytes b.buffer))
            {x = b.pos - b.ipos + length bytes} {y = b.pos + length bytes - b.ipos}
            (omega (arith, w.behind));
  }

  -- where the next byte goes
  pub offset-Writes :
      (out : List ℕ) (b : Bfile)
      → Writes out b
      → b.pos < b.ipos + b.buffer_size
      → b.pos % b.buffer_size ≡ b.pos - b.ipos
  offset-Writes out b w h =
      offset-eq w.q b.buffer_size b.pos (omega (arith, w.starts, w.behind))
        (omega (arith, w.starts))
      ∙ ap (λ n. b.pos - n) (sym w.starts)

  put_uint8-roomy :
      (v : ℕ) (b : Bfile)
      → b.writable ≡ true
      → leb b.buffer_size (size_sub b.pos b.ipos) ≡ false
      → b.pos % b.buffer_size < length b.buffer
      → put_uint8 io v b
        ≡ ok tt
            (record b { buffer = set b.buffer (b.pos % b.buffer_size) (v % 256); pos = b.pos + 1 })
  unfolding put_uint8
  put_uint8-roomy v b h e fits = ground arith

  put_uint8-full :
      (v : ℕ) (b b' : Bfile)
      → b.writable ≡ true
      → leb b.buffer_size (size_sub b.pos b.ipos) ≡ true
      → write_buffer io b ≡ ok tt b'
      → b'.pos % b'.buffer_size < length b'.buffer
      → put_uint8 io v b
        ≡ ok tt (record b' {
          buffer = set b'.buffer (b'.pos % b'.buffer_size) (v % 256);
          pos = b'.pos + 1;
        })
  unfolding put_uint8
  put_uint8-full v b b' h e flush fits = ground arith

  put-Writes :
      (out : List ℕ) (v : ℕ) (b : Bfile)
      → Writes out b
      → b.pos < b.ipos + b.buffer_size
      → b.pos + 1 < 2 ^ 63
      → (b.pos % b.buffer_size < length b.buffer)
        × Writes
            (out ++ v ∷ [])
            (record b { buffer = set b.buffer (b.pos % b.buffer_size) v; pos = b.pos + 1 })
  put-Writes out v b w room h =
      let off : b.pos % b.buffer_size ≡ b.pos - b.ipos = offset-Writes out b w room in
      let fits : b.pos % b.buffer_size < length b.buffer = omega (arith, w.block, w.behind) in
      (
        fits,
        subst (λ l. Writes (out ++ v ∷ []) (record b { buffer = l; pos = b.pos + 1 }))
            (ap (λ i. splice i (v ∷ []) b.buffer) (sym off)
              ∙ sym (set-splice (b.pos % b.buffer_size) v b.buffer fits))
            (extend-Writes out (v ∷ []) b w (omega arith) h),
      )

  -- `bf_put_uint8` adds one byte to what is put, the value's lowest, and flushes where it must.
  pub put_uint8-Writes :
      (out : List ℕ) (v : ℕ) (b : Bfile)
      → Writes out b
      → b.pos + 1 < 2 ^ 63
      → (b' : Bfile) × (put_uint8 io v b ≡ ok tt b')
        × Writes (out ++ v % 256 ∷ []) b'
        × (b'.pos ≡ b.pos + 1)
  put_uint8-Writes out v b w h = elim (Bool-cases (leb b.buffer_size (size_sub b.pos b.ipos))) [
    | inl full ↦
        let e : b.pos ≡ b.ipos + b.buffer_size = ground (arith, w.ahead, w.behind, w.small) in
        let b' : Bfile = flushed_of out b in
        let (fits, w') =
          put-Writes out (v % 256) b' (full-Writes out b w e) (omega (arith, w.block_pos)) h in
        (_, put_uint8-full v b b' w.writable full (write_buffer-Writes out b w) fits, w', refl)
    | inr roomy ↦
        let lt : b.pos < b.ipos + b.buffer_size = ground (arith, w.ahead, w.behind, w.small) in
        let (fits, w') = put-Writes out (v % 256) b w lt h in
        (_, put_uint8-roomy v b w.writable roomy fits, w', refl)
  ]

  destroy-writer : (b : Bfile) → b.writable ≡ true → destroy io b ≡ write_buffer io b
  unfolding destroy
  destroy-writer b h = ground arith

  -- `bf_destroy` leaves exactly the bytes put on disk.
  pub destroy-Writes :
      (out : List ℕ) (b : Bfile)
      → Writes out b
      → (b' : Bfile) × (destroy io b ≡ ok tt b') × (b'.disk ≡ out)
  destroy-Writes out b w =
      (flushed_of out b, destroy-writer b w.writable ∙ write_buffer-Writes out b w, refl)
