-- ===== src/Bfile/Reading.antt =====
-- A reader of src/util/bfile.c walks through the bytes of its file, whatever the block size is and
-- however `fread` cuts them up.
pub mod Bulk
pub mod Block
pub mod Rewind
use profit.Prelude.{
  ◌&&◌, ℕ, zero, suc, ◌+◌, ◌-◌, ◌*◌, ◌/◌, ◌%◌, ◌^◌, ◌≤◌, ◌<◌, ◌≡◌, refl, sym, ap, ◌∙◌, Bool, true,
  false, List, [], ◌∷◌, ◌++◌, arith, length, take, drop, ltb, leb, ◌==◌, inl, inr, ◌⊎◌, Bool-cases,
  if◌then◌else◌, lt→ltb, length-take, length-drop, min, get_elem?, some,
}
use profit.Prelude.Windows.{
  take-append_left, take-add, drop-drop, splice, length-splice, take-splice, get_elem?-agree,
  get_elem?-drop, take-drop_agree, get_elem?-some,
}
use native.Mathlib.Nat.{mul-add-mod_self_right, mod-eq_of_lt}
use profit.Bfile.{
  Bfile, Run, ok, fault, out_of_fuel, and_then, Stdio, IsStdio, fread_round, read_loop, read_buffer,
  refill, take_byte, size_sub, get_uint8, at_eof,
}

-- The reader stands at `pos` in `content`. Its buffer holds the part from q blocks on up to `ipos`,
-- where the stream stands: at a block's edge, or at the end.
pub record Reads (content : List ℕ) (b : Bfile) : Type 0 where
  pub q : ℕ
  pub next : ℕ
  pub readable : b.readable ≡ true
  pub whole : b.size ≡ length content
  pub small : b.size < 2 ^ 63
  pub block : length b.buffer ≡ b.buffer_size
  pub block_pos : 0 < b.buffer_size
  pub starts : q * b.buffer_size ≤ b.pos
  pub behind : b.pos ≤ b.ipos
  pub ahead : b.ipos ≤ q * b.buffer_size + b.buffer_size
  pub ends : b.ipos ≤ b.size
  pub edge : (b.ipos ≡ next * b.buffer_size) ⊎ (b.ipos ≡ b.size)
  pub window :
      take (b.ipos - q * b.buffer_size) b.buffer
      ≡ take (b.ipos - q * b.buffer_size) (drop (q * b.buffer_size) content)
  pub source : ((b.is_open ≡ true) × (b.disk ≡ content) × (b.fpos ≡ b.ipos)) ⊎ (b.ipos ≡ b.size)

pub lt→ne : (m n : ℕ) → m < n → (m == n) ≡ false
lt→ne m n h = ground arith

pub offset-eq : (q bs p : ℕ) → q * bs ≤ p → p < q * bs + bs → p % bs ≡ p - q * bs
offset-eq q bs p lo hi =
    let split : p ≡ q * bs + (p - q * bs) = omega arith in
    ap (λ n. n % bs) split ∙ mul-add-mod_self_right q bs (p - q * bs) ∙ mod-eq_of_lt (omega arith)

-- Any move within what is buffered.
pub Reads-advance :
    (content : List ℕ) (b : Bfile) (n : ℕ)
    → Reads content b
    → b.pos + n ≤ b.ipos
    → Reads content (record b { pos = b.pos + n })
Reads-advance content b n r h = record {
  q = r.q;
  next = r.next;
  readable = r.readable;
  whole = r.whole;
  small = r.small;
  block = r.block;
  block_pos = r.block_pos;
  starts = omega (arith, r.starts);
  behind = h;
  ahead = r.ahead;
  ends = r.ends;
  edge = r.edge;
  window = r.window;
  source = r.source;
}

take_byte-some :
    (b : Bfile) (v : ℕ)
    → get_elem? b.buffer (b.pos % b.buffer_size) ≡ some v
    → take_byte b ≡ ok v (record b { pos = b.pos + 1 })
unfolding take_byte
take_byte-some b v e = rw (e, take_byte) refl

-- The buffered byte at `pos` is the file's.
pub held_byte :
    (content : List ℕ) (b : Bfile)
    → Reads content b
    → b.pos < b.ipos
    → (v : ℕ) × (get_elem? content b.pos ≡ some v)
      × (get_elem? b.buffer (b.pos % b.buffer_size) ≡ some v)
held_byte content b r lt =
    let off : b.pos % b.buffer_size ≡ b.pos - r.q * b.buffer_size =
      offset-eq r.q b.buffer_size b.pos r.starts (omega (arith, r.ahead)) in
    let (v, e) = get_elem?-some content b.pos (omega (arith, r.ends, r.whole)) in
    (
      v,
      e,
      ap (get_elem? b.buffer) off
          ∙ get_elem?-agree (b.ipos - r.q * b.buffer_size) (b.pos - r.q * b.buffer_size) b.buffer
              (drop (r.q * b.buffer_size) content) r.window (omega (arith, r.starts))
          ∙ get_elem?-drop (r.q * b.buffer_size) (b.pos - r.q * b.buffer_size) content
          ∙ ap (get_elem? content) {x = r.q * b.buffer_size + (b.pos - r.q * b.buffer_size)}
              {y = b.pos} (omega (arith, r.starts))
          ∙ e,
    )

take_byte-Reads :
    (content : List ℕ) (b : Bfile)
    → Reads content b
    → b.pos < b.ipos
    → (v : ℕ) × (get_elem? content b.pos ≡ some v)
      × (take_byte b ≡ ok v (record b { pos = b.pos + 1 }))
      × Reads content (record b { pos = b.pos + 1 })
take_byte-Reads content b r lt =
    let (v, e, held) = held_byte content b r lt in
    (v, e, take_byte-some b v held, Reads-advance content b 1 r (omega arith))

has_bytes :
    (content : List ℕ) (b : Bfile)
    → Reads content b
    → b.pos < b.ipos
    → ltb (size_sub b.ipos b.pos) 1 ≡ false
has_bytes content b r h =
    let lt : 1 ≤ size_sub b.ipos b.pos = omega (arith, r.small, r.ends) in ground arith

no_bytes : (b : Bfile) → b.pos ≡ b.ipos → ltb (size_sub b.ipos b.pos) 1 ≡ true
no_bytes b h = let z : size_sub b.ipos b.pos ≡ 0 = omega arith in rw z refl

module _ (io : Stdio) (std : IsStdio io) where
  -- A buffer that is filled from `start` on holds m bytes.
  record Filled (start m : ℕ) (b : Bfile) : Type 0 where
    opened : b.is_open ≡ true
    at_pos : b.fpos ≡ start + m
    at_ipos : b.ipos ≡ start + m
    total : b.size ≡ length b.disk
    within : start + m ≤ b.size
    room : length b.buffer ≡ b.buffer_size
    fits : m ≤ b.buffer_size
    holds : take m b.buffer ≡ take m (drop start b.disk)

  -- A buffer and a position in place of those of b.
  abbrev filled : Bfile → List ℕ → ℕ → Bfile
  filled b buffer p = record b { buffer = buffer; fpos = p; ipos = p }

  round-Filled :
      (start m : ℕ) (b : Bfile)
      → Filled start m b
      → m < b.buffer_size
      → b.ipos < b.size
      → let n : ℕ = io.fread_count b.disk b.fpos (b.buffer_size - m) in
        (buffer : List ℕ) × (fread_round io m b ≡ ok (m + n) (filled b buffer (start + (m + n))))
        × Filled start (m + n) (filled b buffer (start + (m + n)))
        × (0 < n)
  unfolding fread_round
  round-Filled start m b f lt more =
      let n : ℕ = io.fread_count b.disk b.fpos (b.buffer_size - m) in
      let got : List ℕ = take n (drop b.fpos b.disk) in
      let le : n ≤ min (b.buffer_size - m) (length b.disk - b.fpos) =
        std.fread_le b.disk b.fpos (b.buffer_size - m) in
      let len : length got ≡ n =
        omega (arith, length-take n (drop b.fpos b.disk), length-drop b.fpos b.disk) in
      let buffer : List ℕ = splice m got b.buffer in
      let holds : take (m + n) buffer ≡ take (m + n) (drop start b.disk) =
        ap (λ k. take (m + k) buffer) (sym len)
        ∙ take-splice m got b.buffer (omega (arith, f.room, f.fits))
        ∙ ap (λ l. l ++ got) f.holds
        ∙ ap (λ p. take m (drop start b.disk) ++ take n (drop p b.disk)) f.at_pos
        ∙ ap (λ l. take m (drop start b.disk) ++ take n l) (sym (drop-drop start m b.disk))
        ∙ sym (take-add m n (drop start b.disk)) in
      (
        buffer,
        ground arith,
        record {
          opened = f.opened;
          at_pos = refl;
          at_ipos = refl;
          total = f.total;
          within = omega (arith, f.total, f.at_pos, f.within);
          room = length-splice m got b.buffer (omega (arith, f.room)) ∙ f.room;
          fits = omega arith;
          holds = holds;
        },
        std.fread_pos b.disk b.fpos (b.buffer_size - m) (omega arith)
            (omega (arith, f.total, f.at_pos, f.at_ipos)),
      )

  read_loop-go :
      (fuel m : ℕ) (b : Bfile)
      → (ltb m b.buffer_size && ltb b.ipos b.size) ≡ true
      → read_loop io (suc fuel) m b ≡ and_then (fread_round io m b) (read_loop io fuel)
  unfolding read_loop
  read_loop-go fuel m b e = rw (e, read_loop) refl

  read_loop-stop :
      (fuel m : ℕ) (b : Bfile)
      → (ltb m b.buffer_size && ltb b.ipos b.size) ≡ false
      → read_loop io (suc fuel) m b ≡ ok tt b
  unfolding read_loop
  read_loop-stop fuel m b e = rw (e, read_loop) refl

  -- The loop fills the buffer, or reaches the end of the file.
  read_loop-Filled :
      (fuel start m : ℕ) (b : Bfile)
      → Filled start m b
      → b.buffer_size - m < fuel
      → (buffer : List ℕ) × (n : ℕ) × (read_loop io fuel m b ≡ ok tt (filled b buffer (start + n)))
        × Filled start n (filled b buffer (start + n))
        × ((n ≡ b.buffer_size) ⊎ (start + n ≡ b.size))
  read_loop-Filled zero start m b f h = absurd (omega arith)
  read_loop-Filled (suc fuel) start m b f h =
      elim (Bool-cases (ltb m b.buffer_size && ltb b.ipos b.size)) [
        | inl more ↦
            let lt : m < b.buffer_size = ground arith in
            let m' : ℕ = m + io.fread_count b.disk b.fpos (b.buffer_size - m) in
            let (buffer, step, f', pos) = round-Filled start m b f lt (ground arith) in
            let (buffer', n, run, f'', done) =
              read_loop-Filled fuel start m' (filled b buffer (start + m')) f' (omega arith) in
            (
              buffer',
              n,
              read_loop-go fuel m b more ∙ ap (λ r. and_then r (read_loop io fuel)) step ∙ run,
              f'',
              done,
            )
        | inr stop ↦ (
          b.buffer,
          m,
          read_loop-stop fuel m b stop ∙ ground (arith, f.at_pos, f.at_ipos),
          record {
            opened = f.opened;
            at_pos = refl;
            at_ipos = refl;
            total = f.total;
            within = f.within;
            room = f.room;
            fits = f.fits;
            holds = f.holds;
          },
          ground (arith, f.fits, f.within, f.at_ipos),
        )
      ]

  -- A refill where all buffered bytes are read: the next block, or what is left of the file.
  pub read_buffer-Reads :
      (content : List ℕ) (b : Bfile)
      → Reads content b
      → b.pos ≡ b.ipos
      → b.pos < b.size
      → (b' : Bfile) × (read_buffer io b ≡ ok tt b')
        × Reads content b'
        × (b'.pos ≡ b.pos)
        × (b'.pos < b'.ipos)
  unfolding read_buffer
  read_buffer-Reads content b r drained more =
      let base : r.next * b.buffer_size ≡ b.ipos = ground (arith, r.edge) in
      let open_at : (b.is_open ≡ true) × (b.disk ≡ content) × (b.fpos ≡ b.ipos) =
        ground (arith, r.source) in
      let start : Filled b.ipos 0 b = record {
        opened = open_at.0;
        at_pos = omega (arith, open_at.2);
        at_ipos = omega arith;
        total = r.whole ∙ ap length (sym open_at.1);
        within = omega arith;
        room = r.block;
        fits = omega arith;
        holds = refl;
      } in
      let (buffer, n, run, f, done) =
        read_loop-Filled (b.buffer_size + 1) b.ipos 0 b start (omega arith) in
      let some_read : 0 < n = ground (arith, done, r.block_pos) in
      let off : b.ipos + n - r.next * b.buffer_size ≡ n = omega (arith, base) in
      (
        filled b buffer (b.ipos + n),
        rw (lt→ne b.ipos b.size (omega arith)) run,
        record {
          q = r.next;
          next = r.next + 1;
          readable = r.readable;
          whole = r.whole;
          small = r.small;
          block = f.room;
          block_pos = r.block_pos;
          starts = omega (arith, base);
          behind = omega arith;
          ahead = omega (arith, base, f.fits);
          ends = f.within;
          edge = ground (arith, done, base);
          window =
              ap (λ k. take k buffer) off
              ∙ f.holds
              ∙ ap (λ d. take n (drop b.ipos d)) open_at.1
              ∙ ap (λ p. take n (drop p content)) (sym base)
              ∙ ap (λ k. take k (drop (r.next * b.buffer_size) content)) (sym off);
          source = inl (open_at.0, open_at.1, refl);
        },
        refl,
        omega arith,
      )

  get_uint8-buffered :
      (b : Bfile)
      → b.readable ≡ true
      → b.pos < b.size
      → ltb (size_sub b.ipos b.pos) 1 ≡ false
      → get_uint8 io b ≡ take_byte b
  unfolding get_uint8 refill at_eof
  get_uint8-buffered b h more e = ground arith

  get_uint8-drained :
      (b : Bfile)
      → b.readable ≡ true
      → b.pos < b.size
      → ltb (size_sub b.ipos b.pos) 1 ≡ true
      → get_uint8 io b ≡ and_then (read_buffer io b) (λ _. take_byte)
  unfolding get_uint8 refill at_eof
  get_uint8-drained b h more e = ground arith

  -- `bf_get_uint8` before the end: the next byte of the file, and one step on.
  pub get_uint8-Reads :
      (content : List ℕ) (b : Bfile)
      → Reads content b
      → b.pos < b.size
      → (v : ℕ) × (b' : Bfile) × (get_elem? content b.pos ≡ some v)
        × (get_uint8 io b ≡ ok v b')
        × Reads content b'
        × (b'.pos ≡ b.pos + 1)
  get_uint8-Reads content b r more = elim (Bool-cases (ltb b.pos b.ipos)) [
    | inl buffered ↦
        let (v, e, run, r') = take_byte-Reads content b r (ground arith) in
        (
          v,
          record b { pos = b.pos + 1 },
          e,
          get_uint8-buffered b r.readable more (has_bytes content b r (ground arith)) ∙ run,
          r',
          refl,
        )
    | inr drained ↦
        let empty : b.pos ≡ b.ipos = ground (arith, r.behind) in
        let (b', run', r', p, lt) = read_buffer-Reads content b r empty more in
        let (v, e, run, r'') = take_byte-Reads content b' r' lt in
        (
          v,
          record b' { pos = b'.pos + 1 },
          ap (get_elem? content) (sym p) ∙ e,
          get_uint8-drained b r.readable more (no_bytes b empty)
              ∙ ap (λ m. and_then m (λ _. take_byte)) run'
              ∙ run,
          r'',
          omega arith,
        )
  ]

  -- At the end `bf_get_uint8` gives 0 and stays.
  pub get_uint8-end :
      (content : List ℕ) (b : Bfile) → Reads content b → b.pos ≡ b.size → get_uint8 io b ≡ ok 0 b
  unfolding get_uint8 at_eof
  get_uint8-end content b r e = ground (arith, r.readable)
