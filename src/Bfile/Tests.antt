-- ===== src/Bfile/Tests.antt =====
-- Runs of the files, and their theorems at concrete files.
use profit.Prelude.{inl, ℕ, ◌-◌, ◌≡◌, refl, List, [], ◌∷◌, arith, length, min}
use profit.Bfile.{
  Bfile, Run, ok, fault, Stdio, IsStdio, create_w, create_r, bf_write, bf_read, destroy, ◌>>=◌,
  ◌>>◌, get_uint8, at_eof, refill, read_buffer, read_loop, fread_round, take_byte,
}
use profit.Bfile.Get.{get_uint16_be, get_uint32_be, get_int32_be, get_uint32_le, get_int32_le}
use profit.Bfile.Get.Read.{Gives, get_32-Reads}
use profit.Bfile.Get.Values.{big_endian, little_endian}
use profit.Bfile.Put.{put_uint32_be, put_int32_be, put_uint32_le, put_int32_le}
use profit.Bfile.Put.Write.{Puts, put_32-Writes}
use profit.Bfile.Peek.Look.{peek_uint16_be-Reads}
use profit.Bfile.Peek.{peek_uint16_be, unget_uint32_be}
use profit.Bfile.Reading.{Reads}
use profit.Bfile.Reading.Bulk.{bf_read-Reads}
use profit.Bfile.Writing.{Writes}
use profit.Bfile.Writing.Bulk.{bf_write-Writes}
use profit.Bfile.Sessions.{create_r-Reads, create_w-Writes, write-read, put-get_32}

-- A library that moves at most two bytes a call.
abbrev in_pairs : Stdio
in_pairs = record {
  fread_count = λ disk p n. min 2 (min n (length disk - p));
  fwrite_count = λ n. min 2 n;
}

in_pairs-IsStdio : IsStdio in_pairs
in_pairs-IsStdio = record {
  fread_le = λ disk p n. omega arith;
  fread_pos = λ disk p n h k. omega arith;
  fwrite_le = λ n. omega arith;
  fwrite_pos = λ n h. omega arith;
}

-- A buffer of three bytes, and a file of eight
abbrev block : List ℕ
block = 0 ∷ 0 ∷ 0 ∷ []

abbrev content : List ℕ
content = 0 ∷ 1 ∷ 0 ∷ 8 ∷ 200 ∷ 6 ∷ 7 ∷ 255 ∷ []

abbrev reader : Bfile
reader = create_r block content 8

abbrev writer : Bfile
writer = create_w block

reader-Reads : Reads content reader
reader-Reads = create_r-Reads block content (omega arith) (omega arith)

writer-Writes : Writes [] writer
writer-Writes = create_w-Writes block (omega arith)

value : Run ℕ → ℕ
value (ok v b) = v
value _ = 999

reads_run :
    (value ((get_uint16_be in_pairs >>= λ _. get_uint32_be in_pairs) reader) ≡ 0x0008_c806)
    × (value (peek_uint16_be in_pairs reader) ≡ 1)
unfolding value get_uint16_be get_uint32_be get_uint8 refill read_buffer read_loop fread_round
    take_byte at_eof create_r peek_uint16_be
reads_run = (refl, refl)

-- Four bytes of a file in blocks of four: pushing them back fails an assertion.
unget_at_edge :
    (get_uint32_be in_pairs >>= λ v. unget_uint32_be v) (create_r (0 ∷ block) content 8) ≡ fault
unfolding get_uint32_be get_uint8 refill read_buffer read_loop fread_round take_byte at_eof create_r
    unget_uint32_be
unget_at_edge = refl

bf_read-Reads_example :
    (b' : Bfile) × (bf_read in_pairs 100 reader ≡ ok content b') × Reads content b' × (b'.pos ≡ 8)
unfolding create_r
bf_read-Reads_example =
    bf_read-Reads in_pairs in_pairs-IsStdio content 100 reader reader-Reads (omega arith)

get_32-Reads_example :
    Gives content reader (get_uint32_be in_pairs reader) 0x10008 4
    × Gives content reader (get_int32_be in_pairs reader) 0x10008 4
    × Gives content reader (get_uint32_le in_pairs reader) 0x8000100 4
    × Gives content reader (get_int32_le in_pairs reader) 0x8000100 4
unfolding create_r
get_32-Reads_example =
    get_32-Reads in_pairs in_pairs-IsStdio content reader reader-Reads (omega arith) (omega arith)

bf_write-Writes_example :
    (b' : Bfile) × (bf_write in_pairs content writer ≡ ok 8 b') × Writes content b' × (b'.pos ≡ 8)
unfolding create_w
bf_write-Writes_example =
    bf_write-Writes in_pairs in_pairs-IsStdio content [] writer writer-Writes (omega arith)
      (omega arith)

put_32-Writes_example :
    Puts [] writer (put_uint32_be in_pairs 0xfffefdfc writer) big_endian 0xfffefdfc 4
    × Puts [] writer (put_int32_be in_pairs 0xfffefdfc writer) big_endian 0xfffefdfc 4
    × Puts [] writer (put_uint32_le in_pairs 0xfffefdfc writer) little_endian 0xfffefdfc 4
    × Puts [] writer (put_int32_le in_pairs 0xfffefdfc writer) little_endian 0xfffefdfc 4
unfolding create_w
put_32-Writes_example =
    put_32-Writes in_pairs in_pairs-IsStdio [] 0xfffefdfc writer writer-Writes (omega arith)
      (omega arith)

write-read_example :
    (b₁ b₂ : Bfile) × ((bf_write in_pairs content >>= λ _. destroy in_pairs) writer ≡ ok tt b₁)
    × (bf_read in_pairs 8 (create_r block b₁.disk (length b₁.disk)) ≡ ok content b₂)
write-read_example =
    write-read in_pairs in_pairs-IsStdio block block (omega arith) (omega arith) content
      (omega arith)

put-get_32_example :
    ((b₁ b₂ : Bfile) × ((put_uint32_be in_pairs 0xfffefdfc >> destroy in_pairs) writer ≡ ok tt b₁)
      × (get_uint32_be in_pairs (create_r block b₁.disk (length b₁.disk)) ≡ ok 0xfffefdfc b₂))
    × ((b₁ b₂ : Bfile) × ((put_int32_le in_pairs 0xfffefdfc >> destroy in_pairs) writer ≡ ok tt b₁)
        × (get_int32_le in_pairs (create_r block b₁.disk (length b₁.disk)) ≡ ok 0xfffefdfc b₂))
put-get_32_example =
    put-get_32 in_pairs in_pairs-IsStdio block block (omega arith) (omega arith) 0xfffefdfc
      (omega arith)

-- The same file through a buffer of four bytes
abbrev even_reader : Bfile
even_reader = create_r (0 ∷ block) content 8

peek_uint16_be-Reads_example :
    (b' : Bfile) × (peek_uint16_be in_pairs even_reader ≡ ok 1 b')
    × Reads content b'
    × (b'.pos ≡ even_reader.pos)
    × (b'.buffer_size ≡ even_reader.buffer_size)
unfolding create_r
peek_uint16_be-Reads_example =
    peek_uint16_be-Reads in_pairs in_pairs-IsStdio content
      (
        omega arith,
        (
          omega arith,
          (
            omega arith,
            (omega arith, (omega arith, (omega arith, (omega arith, (omega arith, tt))))),
          ),
        ),
      )
      even_reader 0 2 (create_r-Reads (0 ∷ block) content (omega arith) (omega arith)) refl refl
      (omega arith)

-- The file in its second block, at the fifth byte
abbrev later : Bfile
later = record reader { buffer = 8 ∷ 200 ∷ 6 ∷ []; ipos = 6; fpos = 6; pos = 5 }

later-Reads : Reads content later
unfolding create_r
later-Reads = record {
  q = 1;
  next = 2;
  readable = refl;
  whole = refl;
  small = omega arith;
  block = refl;
  block_pos = omega arith;
  starts = omega arith;
  behind = omega arith;
  ahead = omega arith;
  ends = omega arith;
  edge = inl refl;
  window = refl;
  source = inl (refl, refl, refl);
}
