-- ===== src/Record/Kinds.antt =====
-- What each kind of member is in a file.
use profit.Prelude.{
  ℕ, ◌+◌, ◌*◌, ◌%◌, ◌^◌, ◌≤◌, ◌<◌, ◌≡◌, refl, sym, ap, ◌∙◌, subst, Bool, List, [], ◌∷◌, ◌++◌, arith,
  length, take, drop,
}
use profit.Bfile.{Bfile, Run, Stdio, IsStdio, ok, and_then, pure, get_uint8, put_uint8}
use profit.Bfile.Reading.{Reads, get_uint8-Reads}
use profit.Bfile.Reading.Bulk.{bf_read-Reads}
use profit.Bfile.Writing.{Writes, put_uint8-Writes}
use profit.Bfile.Writing.Bulk.{bf_write-Writes}
use profit.Bfile.Get.{get_int8}
use profit.Bfile.Get.Read.{Gives, drop-step, get_16-Reads, get_32-Reads}
use profit.Bfile.Get.Values.{big_endian, IsBytes}
use profit.Bfile.Put.{put_int8}
use profit.Bfile.Put.Write.{Puts, put_16-Writes, put_32-Writes}
use profit.Bfile.Float.Host.{get_float32-Reads, put_float32-Writes}
use profit.Bfile.Float.Wide.{get_float64-Reads, put_float64-Writes}
use profit.Record.{
  Kind, Value, int8, uint8, int16, uint16, int32, uint32, float32, float64, text, size, number,
  bytes, get_kind, put_kind,
}

-- A value that a member of the kind can hold.
abbrev pub Holds : Kind → Value → Type 0
Holds (text n) (bytes l) = (length l ≡ n) × IsBytes l × (n < 2 ^ 16)
Holds (text n) (number v) = ⊥
Holds k (number v) = v < 2 ^ (8 * size k)
Holds k (bytes l) = ⊥

-- The bytes that stand for a value: a number's are big-endian.
abbrev pub Stands : Kind → Value → List ℕ → Type 0
Stands (text n) (bytes l) bs = bs ≡ l
Stands (text n) (number v) bs = ⊥
Stands k (number v) bs = (big_endian bs ≡ v) × IsBytes bs × (length bs ≡ size k)
Stands k (bytes l) bs = ⊥

-- A call puts the bytes bs.
abbrev pub PutsBytes : List ℕ → Bfile → Run (Unit {0}) → List ℕ → Type 0
PutsBytes out b r bs =
    (b' : Bfile) × (r ≡ ok tt b') × Writes (out ++ bs) b' × (b'.pos ≡ b.pos + length bs)

single : (v : ℕ) (l xs : List ℕ) → l ≡ v ∷ xs → v ≡ big_endian (take 1 l)
single v l xs e = omega arith ∙ sym (ap (λ l. big_endian (take 1 l)) e)

pub length-Stands :
    (k : Kind) (v : Value) (bs : List ℕ) → Holds k v → Stands k v bs → length bs ≡ size k
length-Stands (text n) (bytes l) bs h s = ap length s ∙ h.0
length-Stands int8 (number v) bs h s = s.2
length-Stands uint8 (number v) bs h s = s.2
length-Stands int16 (number v) bs h s = s.2
length-Stands uint16 (number v) bs h s = s.2
length-Stands int32 (number v) bs h s = s.2
length-Stands uint32 (number v) bs h s = s.2
length-Stands float32 (number v) bs h s = s.2
length-Stands float64 (number v) bs h s = s.2
length-Stands (text n) (number v) bs h s = absurd h
length-Stands int8 (bytes l) bs h s = absurd h
length-Stands uint8 (bytes l) bs h s = absurd h
length-Stands int16 (bytes l) bs h s = absurd h
length-Stands uint16 (bytes l) bs h s = absurd h
length-Stands int32 (bytes l) bs h s = absurd h
length-Stands uint32 (bytes l) bs h s = absurd h
length-Stands float32 (bytes l) bs h s = absurd h
length-Stands float64 (bytes l) bs h s = absurd h

pub Stands-IsBytes : (k : Kind) (v : Value) (bs : List ℕ) → Holds k v → Stands k v bs → IsBytes bs
Stands-IsBytes (text n) (bytes l) bs h s = subst IsBytes (sym s) h.1
Stands-IsBytes int8 (number v) bs h s = s.1
Stands-IsBytes uint8 (number v) bs h s = s.1
Stands-IsBytes int16 (number v) bs h s = s.1
Stands-IsBytes uint16 (number v) bs h s = s.1
Stands-IsBytes int32 (number v) bs h s = s.1
Stands-IsBytes uint32 (number v) bs h s = s.1
Stands-IsBytes float32 (number v) bs h s = s.1
Stands-IsBytes float64 (number v) bs h s = s.1
Stands-IsBytes (text n) (number v) bs h s = absurd h
Stands-IsBytes int8 (bytes l) bs h s = absurd h
Stands-IsBytes uint8 (bytes l) bs h s = absurd h
Stands-IsBytes int16 (bytes l) bs h s = absurd h
Stands-IsBytes uint16 (bytes l) bs h s = absurd h
Stands-IsBytes int32 (bytes l) bs h s = absurd h
Stands-IsBytes uint32 (bytes l) bs h s = absurd h
Stands-IsBytes float32 (bytes l) bs h s = absurd h
Stands-IsBytes float64 (bytes l) bs h s = absurd h

module _ (io : Stdio) (std : IsStdio io) (big : Bool) where
  -- What is put as the big-endian number v stands for v.
  pub number-put :
      (out : List ℕ) (b : Bfile) (v n : ℕ) (r : Run (Unit {0}))
      → Puts out b r big_endian v n
      → (bs : List ℕ) × ((big_endian bs ≡ v) × IsBytes bs × (length bs ≡ n)) × PutsBytes out b r bs
  number-put out b v n r (bs, b', run, w, e, h, len, p) =
      (bs, (e, h, len), (b', run, w, omega arith))

  byte-put :
      (out : List ℕ) (b : Bfile) (v : ℕ)
      → Writes out b
      → v < 256
      → b.pos + 1 < 2 ^ 63
      → Puts out b (put_uint8 io v b) big_endian v 1
  byte-put out b v w h room =
      let (b', run, w', p) = put_uint8-Writes io std out v b w room in
      (v % 256 ∷ [], b', run, w', omega arith, omega arith, refl, p)

  pub put_kind-Writes :
      (k : Kind) (v : Value) (out : List ℕ) (b : Bfile)
      → Holds k v
      → Writes out b
      → b.pos + size k < 2 ^ 63
      → (bs : List ℕ) × Stands k v bs × PutsBytes out b (put_kind io big k v b) bs
  unfolding put_kind put_int8
  put_kind-Writes int8 (number v) out b h w room =
      number-put out b v 1 _ (byte-put out b v w h room)
  put_kind-Writes uint8 (number v) out b h w room =
      number-put out b v 1 _ (byte-put out b v w h room)
  put_kind-Writes int16 (number v) out b h w room =
      number-put out b v 2 _ (put_16-Writes io std out v b w h room).1
  put_kind-Writes uint16 (number v) out b h w room =
      number-put out b v 2 _ (put_16-Writes io std out v b w h room).0
  put_kind-Writes int32 (number v) out b h w room =
      number-put out b v 4 _ (put_32-Writes io std out v b w h room).1
  put_kind-Writes uint32 (number v) out b h w room =
      number-put out b v 4 _ (put_32-Writes io std out v b w h room).0
  put_kind-Writes float32 (number v) out b h w room =
      number-put out b v 4 _ (put_float32-Writes io std big v out b w h room).0
  put_kind-Writes float64 (number v) out b h w room =
      number-put out b v 8 _ (put_float64-Writes io std big v out b w h room).0
  put_kind-Writes (text n) (bytes l) out b (len, h, small) w room =
      let (b', run, w', p) = bf_write-Writes io std l out b w (omega arith) (omega arith) in
      (l, refl, (b', ap (λ m. and_then m (λ _. pure tt)) run, w', p))
  put_kind-Writes (text n) (number v) out b h w room = absurd h
  put_kind-Writes int8 (bytes l) out b h w room = absurd h
  put_kind-Writes uint8 (bytes l) out b h w room = absurd h
  put_kind-Writes int16 (bytes l) out b h w room = absurd h
  put_kind-Writes uint16 (bytes l) out b h w room = absurd h
  put_kind-Writes int32 (bytes l) out b h w room = absurd h
  put_kind-Writes uint32 (bytes l) out b h w room = absurd h
  put_kind-Writes float32 (bytes l) out b h w room = absurd h
  put_kind-Writes float64 (bytes l) out b h w room = absurd h

  -- A call gives a value and moves on by n bytes.
  abbrev pub GivesValue : List ℕ → Bfile → Run Value → Value → ℕ → Type 0
  GivesValue content b r v n =
      (b' : Bfile) × (r ≡ ok v b') × Reads content b' × (b'.pos ≡ b.pos + n)

  number-got :
      (content : List ℕ) (b : Bfile) (r : Run ℕ) (v w n : ℕ)
      → Gives content b r v n
      → v ≡ w
      → GivesValue content b (and_then r λ x. pure (number x)) (number w) n
  number-got content b r v w n (b', run, r', p) e =
      (b', ap (λ m. and_then m (λ x. pure (number x))) run ∙ ap (λ x. ok (number x) b') e, r', p)

  byte-got :
      (content : List ℕ) (b : Bfile)
      → Reads content b
      → b.pos + 1 ≤ b.size
      → Gives content b (get_uint8 io b) (big_endian (take 1 (drop b.pos content))) 1
  byte-got content b r h =
      let (v, b', e, run, r', p) = get_uint8-Reads io std content b r (omega arith) in
      (b', run ∙ ap (λ x. ok x b') (single v _ _ (drop-step b.pos v content e)), r', p)

  pub get_kind-Reads :
      (k : Kind) (v : Value) (bs content : List ℕ) (b : Bfile)
      → Holds k v
      → Stands k v bs
      → Reads content b
      → IsBytes content
      → take (size k) (drop b.pos content) ≡ bs
      → b.pos + size k ≤ b.size
      → GivesValue content b (get_kind io big k b) v (size k)
  unfolding get_kind get_int8
  get_kind-Reads int8 (number v) bs content b h s r cb e room =
      number-got content b _ _ v 1 (byte-got content b r room) (ap big_endian e ∙ s.0)
  get_kind-Reads uint8 (number v) bs content b h s r cb e room =
      number-got content b _ _ v 1 (byte-got content b r room) (ap big_endian e ∙ s.0)
  get_kind-Reads int16 (number v) bs content b h s r cb e room =
      number-got content b _ _ v 2 (get_16-Reads io std content b r cb room).1
        (ap big_endian e ∙ s.0)
  get_kind-Reads uint16 (number v) bs content b h s r cb e room =
      number-got content b _ _ v 2 (get_16-Reads io std content b r cb room).0
        (ap big_endian e ∙ s.0)
  get_kind-Reads int32 (number v) bs content b h s r cb e room =
      number-got content b _ _ v 4 (get_32-Reads io std content b r cb room).1
        (ap big_endian e ∙ s.0)
  get_kind-Reads uint32 (number v) bs content b h s r cb e room =
      number-got content b _ _ v 4 (get_32-Reads io std content b r cb room).0
        (ap big_endian e ∙ s.0)
  get_kind-Reads float32 (number v) bs content b h s r cb e room =
      number-got content b _ _ v 4 (get_float32-Reads io std big content b r room).0
        (ap big_endian e ∙ s.0)
  get_kind-Reads float64 (number v) bs content b h s r cb e room =
      number-got content b _ _ v 8 (get_float64-Reads io std big content b r room).0
        (ap big_endian e ∙ s.0)
  get_kind-Reads (text n) (bytes l) bs content b (_, _, small) s r cb e room =
      let (b', run, r', p) = bf_read-Reads io std content n b r (omega arith) in
      (
        b',
        ap (λ m. and_then m (λ x. pure (bytes x))) run ∙ ap (λ x. ok (bytes x) b') (e ∙ s),
        r',
        omega arith,
      )
  get_kind-Reads (text n) (number v) bs content b h s r cb e room = absurd h
  get_kind-Reads int8 (bytes l) bs content b h s r cb e room = absurd h
  get_kind-Reads uint8 (bytes l) bs content b h s r cb e room = absurd h
  get_kind-Reads int16 (bytes l) bs content b h s r cb e room = absurd h
  get_kind-Reads uint16 (bytes l) bs content b h s r cb e room = absurd h
  get_kind-Reads int32 (bytes l) bs content b h s r cb e room = absurd h
  get_kind-Reads uint32 (bytes l) bs content b h s r cb e room = absurd h
  get_kind-Reads float32 (bytes l) bs content b h s r cb e room = absurd h
  get_kind-Reads float64 (bytes l) bs content b h s r cb e room = absurd h
