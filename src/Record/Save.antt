-- ===== src/Record/Save.antt =====
-- What a save function puts into a file.
use profit.Prelude.{
  ℕ, ◌+◌, ◌-◌, ◌^◌, ◌≤◌, ◌<◌, ◌≡◌, refl, sym, ap, ◌∙◌, subst, Bool, true, false, List, [], ◌∷◌,
  ◌++◌, arith, length, take, ltb, leb, ◌&&◌, if◌then◌else◌, inl, inr, Bool-cases, append_assoc,
  append-nil, length-append,
}
use profit.Bfile.{
  Bfile, Run, Cmd, Stdio, IsStdio, ok, and_then, ◌>>=◌, ◌>>◌, pure, bf_write, assert,
}
use profit.Bfile.Writing.{Writes, le→leb}
use profit.Bfile.Writing.Bulk.{bf_write-Writes}
use profit.Bfile.Get.Values.{big_endian, IsBytes}
use profit.Prelude.Windows.{take-length}
use profit.Bfile.Put.{put_uint16_be}
use profit.Bfile.Put.Write.{put_16-Writes}
use profit.Record.{Value, Step, Layout, Loaded, kind, size, breaks, put_kind, save_row, save_f}
use profit.Record.Kinds.{Holds, Stands, length-Stands, PutsBytes, number-put, put_kind-Writes}

-- The members fit the row: one for each step that is taken, which can hold it.
abbrev pub Fits : List Step → ℕ → ℕ → List Value → Type 0
Fits [] len pos [] = Unit {0}
Fits [] len pos (v ∷ vs) = ⊥
Fits (s ∷ ss) len pos [] = breaks s len pos ≡ true
Fits (s ∷ ss) len pos (v ∷ vs) =
    (breaks s len pos ≡ false) × (4 < len) × Holds (kind s) v × Fits ss len (pos + size (kind s)) vs

-- The bytes of the members, one behind the other
abbrev pub Row : List Step → List Value → List ℕ → Type 0
Row [] vs bs = bs ≡ []
Row (s ∷ ss) [] bs = bs ≡ []
Row (s ∷ ss) (v ∷ vs) bs =
    (here : List ℕ) × (more : List ℕ) × Stands (kind s) v here
    × (bs ≡ here ++ more)
    × Row ss vs more

-- where `pos` stands behind the members
abbrev pub end_of : List Step → ℕ → List Value → ℕ
end_of [] pos vs = pos
end_of (s ∷ ss) pos [] = pos
end_of (s ∷ ss) pos (v ∷ vs) = end_of ss (pos + size (kind s)) vs

-- the size of all members of a row
abbrev pub width : List Step → ℕ
width [] = 0
width (s ∷ ss) = size (kind s) + width ss

pub length-Row :
    (ss : List Step) (len pos : ℕ) (vs : List Value) (bs : List ℕ)
    → Fits ss len pos vs
    → Row ss vs bs
    → (end_of ss pos vs ≡ pos + length bs) × (length bs ≤ width ss)
length-Row [] len pos [] bs f e = (omega (arith, ap length e), omega (arith, ap length e))
length-Row [] len pos (v ∷ vs) bs f e = absurd f
length-Row (s ∷ ss) len pos [] bs f e = (omega (arith, ap length e), omega (arith, ap length e))
length-Row (s ∷ ss) len pos (v ∷ vs) bs (_, _, h, f) (here, more, st, e, row) =
    let (i, le) = length-Row ss len (pos + size (kind s)) vs more f row in
    let n : length bs ≡ length here + length more = ap length e ∙ length-append here more in
    let m : length here ≡ size (kind s) = length-Stands (kind s) v here h st in
    (omega (arith, i, n, m), omega (arith, le, n, m))

-- A call that puts bytes and gives a value.
abbrev pub PutsAnd : {A : Type 0} → List ℕ → Bfile → Run A → A → List ℕ → Type 0
PutsAnd out b r a bs =
    (b' : Bfile) × (r ≡ ok a b') × Writes (out ++ bs) b' × (b'.pos ≡ b.pos + length bs)

-- One call behind another
then_puts :
    {A B : Type 0} (out : List ℕ) (b b₁ : Bfile) (r : Run A) (a : A) (k : A → Cmd B) (x : B)
    (bs cs : List ℕ)
    → r ≡ ok a b₁
    → b₁.pos ≡ b.pos + length bs
    → PutsAnd (out ++ bs) b₁ (k a b₁) x cs
    → PutsAnd out b (and_then r k) x (bs ++ cs)
then_puts out b b₁ r a k x bs cs run p (b₂, run₂, w₂, p₂) = (
  b₂,
  ap (λ m. and_then m k) run ∙ run₂,
  subst (λ l. Writes l b₂) (append_assoc out bs cs) w₂,
  omega (arith, p, p₂, length-append bs cs),
)

puts_nothing :
    {A : Type 0} (out : List ℕ) (b : Bfile) (a : A) → Writes out b → PutsAnd out b (ok a b) a []
puts_nothing out b a w = (b, refl, subst (λ l. Writes l b) (sym (append-nil out)) w, omega arith)

empty : (l : List ℕ) → length l ≡ 0 → l ≡ []
empty [] e = refl
empty (x ∷ l) e = absurd (omega arith)

-- how many bytes are kept behind the row
abbrev pub left : Layout → Loaded → ℕ → ℕ
left l r pos = if l.keeps_rest && ltb pos r.len then r.len - pos else 0

-- A record that the layout's save function can write: its length is one of 16 bits and not too
-- short, its members fit the row, and what is behind them is as long as the length leaves over, where
-- it is kept.
pub record IsRecord (l : Layout) (r : Loaded) : Type 0 where
  pub op_small : l.opcode < 2 ^ 16
  pub len_small : r.len < 2 ^ 16
  pub enough : l.min_length ≤ r.len
  pub long : l.asserted ≤ r.len
  pub fits : Fits (l.save_steps r.len) r.len 4 r.members
  pub rest_length : length r.rest ≡ left l r (end_of (l.save_steps r.len) 4 r.members)
  pub rest_bytes : IsBytes r.rest
  pub narrow : width (l.save_steps r.len) < 2 ^ 20

-- two bytes for a 16-bit number
abbrev pub Word : ℕ → List ℕ → Type 0
Word v bs = (big_endian bs ≡ v) × IsBytes bs × (length bs ≡ 2)

-- The bytes of a record
abbrev pub Whole : Layout → Loaded → List ℕ → Type 0
Whole l r bs =
    (op : List ℕ) × (len : List ℕ) × (row : List ℕ) × (bs ≡ op ++ (len ++ (row ++ r.rest)))
    × Word l.opcode op
    × Word r.len len
    × Row (l.save_steps r.len) r.members row

pub left_le : (l : Layout) (r : Loaded) (pos : ℕ) → left l r pos ≤ r.len
left_le l r pos = elim (Bool-cases (l.keeps_rest && ltb pos r.len)) [
  | inl e ↦ rw e (omega arith)
  | inr e ↦ rw e (omega arith)
]

module _ (io : Stdio) (std : IsStdio io) (big : Bool) where
  save_row-ends :
      (s : Step) (ss : List Step) (len pos : ℕ) (b : Bfile)
      → breaks s len pos ≡ true
      → save_row io big (s ∷ ss) len pos [] b ≡ ok pos b
  unfolding save_row
  save_row-ends s ss len pos b e = rw e refl

  save_row-goes :
      (s : Step) (ss : List Step) (len pos : ℕ) (v : Value) (vs : List Value) (b : Bfile)
      → breaks s len pos ≡ false
      → save_row io big (s ∷ ss) len pos (v ∷ vs) b
        ≡ and_then
            (put_kind io big (kind s) v b)
            λ _. save_row io big ss len (pos + size (kind s)) vs
  unfolding save_row
  save_row-goes s ss len pos v vs b e = rw e refl

  save_row-Row :
      (ss : List Step) (len pos : ℕ) (vs : List Value) (out : List ℕ) (b : Bfile)
      → Fits ss len pos vs
      → Writes out b
      → b.pos + width ss < 2 ^ 63
      → (bs : List ℕ) × Row ss vs bs
        × PutsAnd out b (save_row io big ss len pos vs b) (end_of ss pos vs) bs
  unfolding save_row
  save_row-Row [] len pos [] out b f w room = ([], refl, puts_nothing out b pos w)
  save_row-Row [] len pos (v ∷ vs) out b f w room = absurd f
  save_row-Row (s ∷ ss) len pos [] out b f w room =
      let (b', run, w', p') = puts_nothing out b pos w in
      ([], refl, (b', save_row-ends s ss len pos b f ∙ run, w', p'))
  save_row-Row (s ∷ ss) len pos (v ∷ vs) out b (goes, _, h, f) w room =
      let (here, st, (b₁, run₁, w₁, p₁)) =
        put_kind-Writes io std big (kind s) v out b h w (omega arith) in
      let n : length here ≡ size (kind s) = length-Stands (kind s) v here h st in
      let (more, row, puts) =
        save_row-Row ss len (pos + size (kind s)) vs (out ++ here) b₁ f w₁ (omega arith) in
      let (b₂, run₂, w₂, p₂) =
        then_puts out b b₁ (put_kind io big (kind s) v b) tt
          (λ _. save_row io big ss len (pos + size (kind s)) vs) _ here more run₁ p₁ puts in
      (
        here ++ more,
        (here, more, st, refl, row),
        (b₂, save_row-goes s ss len pos v vs b goes ∙ run₂, w₂, p₂),
      )

  put-Word :
      (v : ℕ) (out : List ℕ) (b : Bfile)
      → v < 2 ^ 16
      → Writes out b
      → b.pos + 2 < 2 ^ 63
      → (bs : List ℕ) × Word v bs × PutsBytes out b (put_uint16_be io v b) bs
  put-Word v out b h w room =
      number-put io std big out b v 2 _ (put_16-Writes io std out v b w h room).0

  -- the part of `save_f` behind the row
  save_rest : Layout → Loaded → ℕ → Cmd (Unit {0})
  save_rest l r pos =
      if l.keeps_rest && ltb pos r.len
      then (do
        assert (λ b. leb (r.len - pos) (length r.rest))
        n ← bf_write io (take (r.len - pos) r.rest)
        pure tt)
      else pure tt

  save_rest-more :
      (l : Layout) (r : Loaded) (pos : ℕ) (b : Bfile)
      → (l.keeps_rest && ltb pos r.len) ≡ true
      → length r.rest ≡ r.len - pos
      → save_rest l r pos b ≡ and_then (bf_write io r.rest b) λ _. pure tt
  unfolding save_rest
  save_rest-more l r pos b more e =
      let all : take (r.len - pos) r.rest ≡ r.rest =
        take-length (r.len - pos) r.rest (omega (arith, e)) in
      rw (more, le→leb (r.len - pos) (length r.rest) (omega (arith, e)), all) refl

  save_rest-Whole :
      (l : Layout) (r : Loaded) (pos : ℕ) (out : List ℕ) (b : Bfile)
      → length r.rest ≡ left l r pos
      → length r.rest < 2 ^ 31
      → Writes out b
      → b.pos + length r.rest < 2 ^ 63
      → PutsAnd out b (save_rest l r pos b) tt r.rest
  unfolding save_rest
  save_rest-Whole l r pos out b e small w room = elim (Bool-cases (l.keeps_rest && ltb pos r.len)) [
    | inl more ↦
        let (b', run, w', p) = bf_write-Writes io std r.rest out b w small room in
        (
          b',
          save_rest-more l r pos b more (e ∙ ap (λ t. if t then r.len - pos else 0) more)
              ∙ ap (λ m. and_then m (λ _. pure tt)) run,
          w',
          p,
        )
    | inr all ↦
        let none_left : r.rest ≡ [] =
          empty r.rest (e ∙ ap (λ t. if t then r.len - pos else 0) all) in
        let (b', run, w', p) = puts_nothing out b tt w in rw (all, none_left) (b', run, w', p)
  ]

  save_f-open :
      (l : Layout) (r : Loaded) (b : Bfile)
      → save_f io big l r b
        ≡ (put_uint16_be io l.opcode
              >> (put_uint16_be io r.len
                  >> (save_row io big (l.save_steps r.len) r.len 4 r.members >>= save_rest l r)))
            b
  unfolding save_f save_rest
  save_f-open l r b = refl

  -- On a writer with room, the save function of a layout writes a record of it without a fault: its
  -- opcode and its length as big-endian numbers, its members as the row says, and the bytes behind them.
  pub save_f-Whole :
      (l : Layout) (r : Loaded) (out : List ℕ) (b : Bfile)
      → IsRecord l r
      → Writes out b
      → b.pos + 2 ^ 21 < 2 ^ 63
      → (bs : List ℕ) × Whole l r bs × PutsAnd out b (save_f io big l r b) tt bs
  save_f-Whole l r out b ok_r w room =
      let (op, is_op, (b₁, run₁, w₁, p₁)) = put-Word l.opcode out b ok_r.op_small w (omega arith) in
      let op2 : length op ≡ 2 = is_op.2 in
      let (len, is_len, (b₂, run₂, w₂, p₂)) =
        put-Word r.len (out ++ op) b₁ ok_r.len_small w₁ (omega arith) in
      let len2 : length len ≡ 2 = is_len.2 in
      let (row, is_row, (b₃, run₃, w₃, p₃)) =
        save_row-Row (l.save_steps r.len) r.len 4 r.members ((out ++ op) ++ len) b₂ ok_r.fits w₂
          (omega (arith, ok_r.narrow)) in
      let (ends, le) = length-Row (l.save_steps r.len) r.len 4 r.members row ok_r.fits is_row in
      let puts =
        save_rest-Whole l r (end_of (l.save_steps r.len) 4 r.members) (((out ++ op) ++ len) ++ row)
          b₃ ok_r.rest_length
          (omega (
            arith,
            ok_r.len_small,
            ok_r.rest_length,
            left_le l r (end_of (l.save_steps r.len) 4 r.members),
          ))
          w₃
          (omega (
            arith,
            ok_r.narrow,
            ok_r.len_small,
            ok_r.rest_length,
            left_le l r (end_of (l.save_steps r.len) 4 r.members),
          )) in
      let puts₃ =
        then_puts ((out ++ op) ++ len) b₂ b₃
          (save_row io big (l.save_steps r.len) r.len 4 r.members b₂)
          (end_of (l.save_steps r.len) 4 r.members) (save_rest l r) tt row r.rest run₃ p₃ puts in
      let puts₂ =
        then_puts (out ++ op) b₁ b₂ (put_uint16_be io r.len b₁) tt
          (λ _. save_row io big (l.save_steps r.len) r.len 4 r.members >>= save_rest l r) tt len
          (row ++ r.rest) run₂ p₂ puts₃ in
      let (b', run, w', p) =
        then_puts out b b₁ (put_uint16_be io l.opcode b) tt
          (λ _.
            put_uint16_be io r.len
            >> (save_row io big (l.save_steps r.len) r.len 4 r.members >>= save_rest l r))
          tt op (len ++ (row ++ r.rest)) run₁ p₁ puts₂ in
      (
        op ++ (len ++ (row ++ r.rest)),
        (op, len, row, refl, is_op, is_len, is_row),
        (b', save_f-open l r b ∙ run, w', p),
      )
