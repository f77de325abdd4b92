-- ===== src/Bfile/Reading/Block.antt =====
-- The size of the buffer, and what is on disk, stay what they are while a file is read.
use profit.Prelude.{
  List, ℕ, zero, suc, ◌+◌, ◌-◌, ◌%◌, ◌≡◌, refl, subst, Bool, true, false, if◌then◌else◌, ltb, leb,
  ◌&&◌, ◌==◌, length, get_elem?, some, none, Option,
}
use profit.Bfile.{
  Bfile, Run, Cmd, Stdio, ok, fault, out_of_fuel, and_then, ◌>>=◌, assert, take_byte, copy_out,
  fread_round, read_loop, read_buffer, refill, get_uint8, bf_read_loop, bf_read, at_eof, size_sub,
  rewind,
}
use profit.Bfile.Get.{get_int8, get_int16_be, get_uint16_be, get_int32_be, get_uint32_be}
use profit.Bfile.Float.{get_float32_be, get_float64_be}

-- what a read leaves as it is: the size of the buffer, and the stream but for its place
abbrev pub fixed : Bfile → (ℕ × Bool × List ℕ)
fixed b = (b.buffer_size, b.is_open, b.disk)

abbrev pub Ends : {A : Type 0} → (ℕ × Bool × List ℕ) → Run A → Type 0
Ends n (ok a b) = fixed b ≡ n
Ends n fault = Unit
Ends n out_of_fuel = Unit

abbrev pub Keeps : {A : Type 0} → Cmd A → Type 0
Keeps m = (b : Bfile) → Ends (fixed b) (m b)

pub then-Ends :
    {A B : Type 0} (n : ℕ × Bool × List ℕ) (r : Run A) (k : A → Cmd B)
    → Ends n r
    → ((a : A) → Keeps (k a))
    → Ends n (and_then r k)
then-Ends n (ok a b) k e h = subst (λ n. Ends n (k a b)) e (h a b)
then-Ends n fault k e h = tt
then-Ends n out_of_fuel k e h = tt

pub then-Keeps :
    {A B : Type 0} (m : Cmd A) (k : A → Cmd B) → Keeps m → ((a : A) → Keeps (k a)) → Keeps (m >>= k)
then-Keeps m k hm hk b = then-Ends (fixed b) (m b) k (hm b) hk

pub if-Ends :
    {A : Type 0} (n : ℕ × Bool × List ℕ) (c : Bool) (r r' : Run A)
    → Ends n r
    → Ends n r'
    → Ends n (if c then r else r')
if-Ends n true r r' h h' = h
if-Ends n false r r' h h' = h'

pub if-Keeps :
    {A : Type 0} (c : Bool) (m m' : Cmd A) → Keeps m → Keeps m' → Keeps (if c then m else m')
if-Keeps true m m' h h' = h
if-Keeps false m m' h h' = h'

round-Ends :
    {A : Type 0} (n : ℕ × Bool × List ℕ) (c : Bool) (r r' : Run A)
    → Ends n r
    → Ends n r'
    → Ends n (elim c [ true ↦ r | false ↦ r' ])
round-Ends n true r r' h h' = h
round-Ends n false r r' h h' = h'

pub assert-Keeps : (p : Bfile → Bool) → Keeps (assert p)
assert-Keeps p b = if-Ends (fixed b) (p b) (ok tt b) fault refl tt

take_byte-Keeps : Keeps take_byte
unfolding take_byte
take_byte-Keeps b = byte (get_elem? b.buffer (b.pos % b.buffer_size))
  where
    byte :
        (r : Option ℕ)
        → Ends (fixed b) (elim r [ some v ↦ ok v (record b { pos = b.pos + 1 }) | none ↦ fault ])
    byte (some v) = refl
    byte none = tt

copy_out-Keeps : (n : ℕ) → Keeps (copy_out n)
unfolding copy_out
copy_out-Keeps n b = if-Ends (fixed b) (leb _ (length b.buffer)) _ fault refl tt

module _ (io : Stdio) where
  fread_round-Keeps : (bytes : ℕ) → Keeps (fread_round io bytes)
  unfolding fread_round
  fread_round-Keeps bytes b =
      if-Ends (fixed b) (b.is_open && leb _ (length b.buffer)) _ fault refl tt

  read_loop-Keeps : (fuel bytes : ℕ) → Keeps (read_loop io fuel bytes)
  unfolding read_loop
  read_loop-Keeps zero bytes b = tt
  read_loop-Keeps (suc fuel) bytes b =
      round-Ends (fixed b) (ltb bytes b.buffer_size && ltb b.ipos b.size) _ (ok tt b)
        (then-Keeps (fread_round io bytes) (read_loop io fuel) (fread_round-Keeps bytes)
          (read_loop-Keeps fuel) b)
        refl

  pub read_buffer-Keeps : Keeps (read_buffer io)
  unfolding read_buffer
  read_buffer-Keeps b =
      if-Ends (fixed b) (b.ipos == b.size) (ok tt b) _ refl
        (read_loop-Keeps (b.buffer_size + 1) 0 b)

  pub get_uint8-Keeps : Keeps (get_uint8 io)
  unfolding get_uint8 refill
  get_uint8-Keeps = then-Keeps (assert (λ b. b.readable)) _ (assert-Keeps (λ b. b.readable)) λ _ b.
      if-Ends (fixed b) (at_eof b) (ok 0 b) _ refl (
        then-Keeps (refill io) (λ _. take_byte)
          (λ b.
            if-Ends (fixed b) (ltb (size_sub b.ipos b.pos) 1) _ (ok tt b) (read_buffer-Keeps b)
              refl)
          (λ _. take_byte-Keeps) b)

  bf_read_loop-Keeps : (fuel wanted : ℕ) → Keeps (bf_read_loop io fuel wanted)
  unfolding bf_read_loop
  bf_read_loop-Keeps zero wanted b = tt
  bf_read_loop-Keeps (suc fuel) zero b = refl
  bf_read_loop-Keeps (suc fuel) (suc w) b =
      round-Ends (fixed b) (ltb b.pos b.ipos) _ _
        (then-Keeps (copy_out (suc w)) _ (copy_out-Keeps (suc w))
          (λ part.
            then-Keeps (bf_read_loop io fuel (suc w - length part)) _
              (bf_read_loop-Keeps fuel (suc w - length part)) (λ rest b. refl))
          b)
        (then-Keeps (read_buffer io) (λ _. bf_read_loop io fuel (suc w)) read_buffer-Keeps
          (λ _. bf_read_loop-Keeps fuel (suc w)) b)

  pub bf_read-Keeps : (n : ℕ) → Keeps (bf_read io n)
  unfolding bf_read
  bf_read-Keeps n =
      then-Keeps (assert (λ b. b.readable)) _ (assert-Keeps (λ b. b.readable))
        λ _ b. bf_read_loop-Keeps _ _ b

  two :
      {A : Type 0} (m m' : Cmd ℕ) (k : ℕ → ℕ → Cmd A)
      → Keeps m
      → Keeps m'
      → ((x y : ℕ) → Keeps (k x y))
      → Keeps (m >>= λ x. m' >>= λ y. k x y)
  two m m' k h h' hk = then-Keeps m _ h λ x. then-Keeps m' _ h' λ y. hk x y

  pub get_int8-Keeps : Keeps (get_int8 io)
  unfolding get_int8
  get_int8-Keeps = get_uint8-Keeps

  pub get_16-Keeps : Keeps (get_uint16_be io) × Keeps (get_int16_be io)
  unfolding get_uint16_be get_int16_be get_int8
  get_16-Keeps = (
    two (get_uint8 io) (get_uint8 io) _ get_uint8-Keeps get_uint8-Keeps (λ x y b. refl),
    two (get_uint8 io) (get_uint8 io) _ get_uint8-Keeps get_uint8-Keeps (λ x y b. refl),
  )

  four :
      {A : Type 0} (k : ℕ → ℕ → ℕ → ℕ → Cmd A)
      → ((x y z w : ℕ) → Keeps (k x y z w))
      → Keeps (
          get_uint8 io >>= λ x.
          get_uint8 io >>= λ y. get_uint8 io >>= λ z. get_uint8 io >>= λ w. k x y z w)
  four k hk =
      two (get_uint8 io) (get_uint8 io) _ get_uint8-Keeps get_uint8-Keeps
        λ x y. two (get_uint8 io) (get_uint8 io) _ get_uint8-Keeps get_uint8-Keeps (hk x y)

  pub get_32-Keeps : Keeps (get_uint32_be io) × Keeps (get_int32_be io)
  unfolding get_uint32_be get_int32_be get_int8
  get_32-Keeps = (four _ (λ x y z w b. refl), four _ (λ x y z w b. refl))

  pub get_float-Keeps : (big : Bool) → Keeps (get_float32_be io big) × Keeps (get_float64_be io big)
  unfolding get_float32_be get_float64_be
  get_float-Keeps big = (four _ (λ x y z w b. refl), four _ λ x y z w. four _ (λ x y z w b. refl))

  pub rewind-Keeps : (n : ℕ) → Keeps (rewind io n)
  unfolding rewind
  rewind-Keeps n b = if-Ends (fixed b) (b.buffer_size == 0) fault _ tt (
      if-Ends (fixed b) _ (if b.is_open then _ else fault) (ok _ _)
        (if-Ends (fixed b) b.is_open (and_then (read_buffer io _) (λ _. ok _)) fault
          (then-Ends (fixed b) (read_buffer io _) (λ _. ok _) (read_buffer-Keeps _) (λ a b. refl))
          tt)
        refl)
