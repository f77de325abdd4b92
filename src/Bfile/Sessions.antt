-- ===== src/Bfile/Sessions.antt =====
-- Whole sessions with the files of src/util/bfile.c: opened, written, closed, opened again and read.
use profit.Prelude.{
  ℕ, ◌+◌, ◌*◌, ◌^◌, ◌≤◌, ◌<◌, ◌≡◌, refl, ap, ◌∙◌, List, [], arith, length, take, inl, inr,
}
use profit.Prelude.Windows.{take-length}
use profit.Bfile.{
  Bfile, Cmd, ok, and_then, Stdio, IsStdio, create_w, create_r, create_m, bf_write, bf_read,
  destroy, ◌>>=◌, ◌>>◌,
}
use profit.Bfile.Get.{get_uint32_be, get_int32_le}
use profit.Bfile.Get.Read.{Gives, get_32-Reads}
use profit.Bfile.Get.Values.{IsBytes, big_endian, little_endian}
use profit.Bfile.Put.{put_uint32_be, put_int32_le}
use profit.Bfile.Put.Write.{Puts, put_32-Writes}
use profit.Bfile.Reading.{Reads}
use profit.Bfile.Reading.Bulk.{bf_read-Reads}
use profit.Bfile.Writing.{Writes, destroy-Writes}
use profit.Bfile.Writing.Bulk.{bf_write-Writes}

-- A file opened for writing has nothing put.
pub create_w-Writes : (buffer : List ℕ) → 0 < length buffer → Writes [] (create_w buffer)
unfolding create_w
create_w-Writes buffer h = record {
  q = 0;
  writable = refl;
  opened = refl;
  small = omega arith;
  block = refl;
  block_pos = h;
  starts = omega arith;
  behind = omega arith;
  ahead = omega arith;
  flushed = refl;
  bytes = refl;
}

-- A file opened for reading stands at its start.
pub create_r-Reads :
    (buffer content : List ℕ)
    → 0 < length buffer
    → length content < 2 ^ 63
    → Reads content (create_r buffer content (length content))
unfolding create_r
create_r-Reads buffer content h small = record {
  q = 0;
  next = 0;
  readable = refl;
  whole = refl;
  small = small;
  block = refl;
  block_pos = h;
  starts = omega arith;
  behind = omega arith;
  ahead = omega arith;
  ends = omega arith;
  edge = inl (omega arith);
  window = let z : 0 * length buffer ≡ 0 = omega arith in rw z refl;
  source = inl (refl, refl, refl);
}

-- A buffer in memory reads like a file of its bytes, if it has any.
pub create_m-Reads :
    (content : List ℕ)
    → 0 < length content
    → length content < 2 ^ 32
    → Reads content (create_m content (length content))
unfolding create_m
create_m-Reads content h small = record {
  q = 0;
  next = 0;
  readable = refl;
  whole = refl;
  small = omega arith;
  block = refl;
  block_pos = h;
  starts = omega arith;
  behind = omega arith;
  ahead = omega arith;
  ends = omega arith;
  edge = inr refl;
  window = let z : 0 * length content ≡ 0 = omega arith in rw z refl;
  source = inr refl;
}

module _ (io : Stdio) (std : IsStdio io) (wbuf rbuf : List ℕ) (wpos : 0 < length wbuf)
    (rpos : 0 < length rbuf) where
  -- With buffers of any positive size, and a C library that cuts up the transfers as it likes: what
  -- is written, of fewer than 2^31 bytes, to a new file, which is then closed, is what is read from it.
  pub write-read :
      (vs : List ℕ)
      → length vs < 2 ^ 31
      → (b₁ b₂ : Bfile) × ((bf_write io vs >>= λ _. destroy io) (create_w wbuf) ≡ ok tt b₁)
        × (bf_read io (length vs) (create_r rbuf b₁.disk (length b₁.disk)) ≡ ok vs b₂)
  unfolding create_r create_w
  write-read vs h =
      let (b, run, w, p) =
        bf_write-Writes io std vs [] (create_w wbuf) (create_w-Writes wbuf wpos) h (omega arith) in
      let (b₁, run₁, e) = destroy-Writes io std vs b w in
      let (b₂, run₂, r, p₂) =
        bf_read-Reads io std vs (length vs) (create_r rbuf vs (length vs))
          (create_r-Reads rbuf vs rpos (omega arith)) h in
      (
        b₁,
        b₂,
        ap (λ m. and_then m (λ _. destroy io)) run ∙ run₁,
        ap (λ d. bf_read io (length vs) (create_r rbuf d (length d))) e
            ∙ run₂
            ∙ ap (λ l. ok l b₂) (take-length (length vs) vs (omega arith)),
      )

  session :
      (put : Cmd (Unit {0})) (get : Cmd ℕ) (of_bytes : List ℕ → ℕ) (v : ℕ)
      → Puts [] (create_w wbuf) (put (create_w wbuf)) of_bytes v 4
      → ((content : List ℕ)
          → IsBytes content
          → length content ≡ 4
          → Gives content
              (create_r rbuf content (length content))
              (get (create_r rbuf content (length content)))
              (of_bytes (take 4 content))
              4)
      → (b₁ b₂ : Bfile) × ((put >> destroy io) (create_w wbuf) ≡ ok tt b₁)
        × (get (create_r rbuf b₁.disk (length b₁.disk)) ≡ ok v b₂)
  session put get of_bytes v (bytes, b, run, w, e, small, len, p) reads =
      let (b₁, run₁, on_disk) = destroy-Writes io std bytes b w in
      let (b₂, run₂, r, p₂) = reads bytes small len in
      (
        b₁,
        b₂,
        ap (λ m. and_then m (λ _. destroy io)) run ∙ run₁,
        ap (λ d. get (create_r rbuf d (length d))) on_disk
            ∙ run₂
            ∙ ap (λ l. ok (of_bytes l) b₂) (take-length 4 bytes (omega arith))
            ∙ ap (λ n. ok n b₂) e,
      )

  -- A 32-bit number put into a new file, which is then closed, is the number got from it: unsigned
  -- big-endian, and signed (by its pattern) little-endian.
  pub put-get_32 :
      (v : ℕ)
      → v < 2 ^ 32
      → ((b₁ b₂ : Bfile) × ((put_uint32_be io v >> destroy io) (create_w wbuf) ≡ ok tt b₁)
          × (get_uint32_be io (create_r rbuf b₁.disk (length b₁.disk)) ≡ ok v b₂))
        × ((b₁ b₂ : Bfile) × ((put_int32_le io v >> destroy io) (create_w wbuf) ≡ ok tt b₁)
            × (get_int32_le io (create_r rbuf b₁.disk (length b₁.disk)) ≡ ok v b₂))
  unfolding create_w create_r
  put-get_32 v h =
      let (be, _, _, le) =
        put_32-Writes io std [] v (create_w wbuf) (create_w-Writes wbuf wpos) h fresh_room in
      (
        session (put_uint32_be io v) (get_uint32_be io) big_endian v be λ c small len.
            (get_32-Reads io std c (create_r rbuf c (length c))
              (create_r-Reads rbuf c rpos (omega arith)) small (fresh_left c len)).0,
        session (put_int32_le io v) (get_int32_le io) little_endian v le λ c small len.
            (get_32-Reads io std c (create_r rbuf c (length c))
              (create_r-Reads rbuf c rpos (omega arith)) small (fresh_left c len)).3,
      )
    where
      fresh_room : (create_w wbuf).pos + 4 < 2 ^ 63
      fresh_room = omega arith

      fresh_left :
          (c : List ℕ)
          → length c ≡ 4
          → (create_r rbuf c (length c)).pos + 4 ≤ (create_r rbuf c (length c)).size
      fresh_left c len = omega arith
