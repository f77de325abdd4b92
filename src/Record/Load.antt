-- ===== src/Record/Load.antt =====
-- What a load function reads from a file.
pub mod Reject
use profit.Prelude.{
  ◌^◌, ℕ, ◌+◌, ◌-◌, ◌≤◌, ◌<◌, ◌≡◌, refl, sym, ap, ◌∙◌, Bool, true, false, List, [], ◌∷◌, ◌++◌,
  Option, none, some, arith, length, take, drop, ltb, leb, ◌&&◌, lt→ltb, ◌==◌, not, if◌then◌else◌,
  inl, inr, Bool-cases, append_assoc, length-append, length-drop,
}
use profit.Prelude.Windows.{take-append_left, drop-append_left, drop-drop}
use profit.Bfile.{
  Bfile, Run, Cmd, Stdio, IsStdio, ok, and_then, ◌>>=◌, ◌>>◌, pure, bf_read, rewind, assert,
}
use profit.Bfile.Reading.{Reads}
use profit.Bfile.Reading.Bulk.{bf_read-Reads}
use profit.Bfile.Get.{get_uint16_be}
use profit.Bfile.Get.Read.{get_16-Reads}
use profit.Bfile.Get.Values.{big_endian, IsBytes}
use profit.Record.{Value, Step, Layout, Loaded, kind, size, breaks, get_kind, load_row, load_f}
use profit.Record.Kinds.{length-Stands, get_kind-Reads}
use profit.Record.Save.{Fits, Row, end_of, left, IsRecord, Word, Whole}

empty : (l : List ℕ) → length l ≡ 0 → l ≡ []
empty [] e = refl
empty (x ∷ l) e = absurd (omega arith)

pub four_in_a_row : (a b c d e : List ℕ) → (a ++ (b ++ (c ++ d))) ++ e ≡ a ++ (b ++ (c ++ (d ++ e)))
four_in_a_row a b c d e = simp append_assoc refl

pub split-drop :
    (p : ℕ) (content xs ys : List ℕ)
    → drop p content ≡ xs ++ ys
    → (take (length xs) (drop p content) ≡ xs) × (drop (p + length xs) content ≡ ys)
split-drop p content xs ys e = (
  ap (take (length xs)) e ∙ take-append_left (length xs) xs ys refl,
  sym (drop-drop p (length xs) content)
      ∙ ap (drop (length xs)) e
      ∙ drop-append_left (length xs) xs ys refl,
)

pub room_for :
    (content xs ys : List ℕ) (b : Bfile)
    → Reads content b
    → drop b.pos content ≡ xs ++ ys
    → b.pos + length xs ≤ b.size
room_for content xs ys b r e =
    let n : length content - b.pos ≡ length xs + length ys =
      sym (length-drop b.pos content) ∙ ap length e ∙ length-append xs ys in
    omega (arith, n, r.whole, r.behind, r.ends)

-- A call that gives a value and moves on by n bytes.
abbrev pub GivesAnd : {A : Type 0} → List ℕ → Bfile → Run A → A → ℕ → Type 0
GivesAnd content b r a n = (b' : Bfile) × (r ≡ ok a b') × Reads content b' × (b'.pos ≡ b.pos + n)

-- One call behind another
then_gives :
    {A B : Type 0} (content : List ℕ) (b b₁ : Bfile) (r : Run A) (a : A) (k : A → Cmd B) (x : B)
    (m n : ℕ)
    → r ≡ ok a b₁
    → b₁.pos ≡ b.pos + m
    → GivesAnd content b₁ (k a b₁) x n
    → GivesAnd content b (and_then r k) x (m + n)
then_gives content b b₁ r a k x m n run p (b₂, run₂, r₂, p₂) =
    (b₂, ap (λ m. and_then m k) run ∙ run₂, r₂, omega (arith, p, p₂))

module _ (io : Stdio) (std : IsStdio io) (big : Bool) where
  load_row-ends :
      (s : Step) (ss : List Step) (len pos : ℕ) (b : Bfile)
      → breaks s len pos ≡ true
      → load_row io big (s ∷ ss) len pos b ≡ ok ([], pos) b
  unfolding load_row
  load_row-ends s ss len pos b e = rw e refl

  -- what a row does with the members behind the first
  row_with : Value → List Value × ℕ → Cmd (List Value × ℕ)
  row_with v found = pure (v ∷ found.0, found.1)

  load_row-goes :
      (s : Step) (ss : List Step) (len pos : ℕ) (b : Bfile)
      → breaks s len pos ≡ false
      → 4 < len
      → load_row io big (s ∷ ss) len pos b
        ≡ and_then
            (get_kind io big (kind s) b)
            λ v. load_row io big ss len (pos + size (kind s)) >>= row_with v
  unfolding load_row row_with
  load_row-goes s ss len pos b e lt = rw (e, lt→ltb 4 len lt) refl

  pub load_row-Row :
      (content : List ℕ) (ss : List Step) (len pos : ℕ) (vs : List Value) (bs tail : List ℕ)
      (b : Bfile)
      → IsBytes content
      → Fits ss len pos vs
      → Row ss vs bs
      → Reads content b
      → drop b.pos content ≡ bs ++ tail
      → GivesAnd content b (load_row io big ss len pos b) (vs, end_of ss pos vs) (length bs)
  unfolding load_row row_with
  load_row-Row content [] len pos [] bs tail b cb f e r at =
      (b, refl, r, omega (arith, ap length e))
  load_row-Row content [] len pos (v ∷ vs) bs tail b cb f e r at = absurd f
  load_row-Row content (s ∷ ss) len pos [] bs tail b cb f e r at =
      (b, load_row-ends s ss len pos b f, r, omega (arith, ap length e))
  load_row-Row content (s ∷ ss) len pos (v ∷ vs) bs tail b cb (goes, lt, h, f)
        (here, more, st, e, row) r at =
      let n : length here ≡ size (kind s) = length-Stands (kind s) v here h st in
      let at' : drop b.pos content ≡ here ++ (more ++ tail) =
        at ∙ ap (λ l. l ++ tail) e ∙ append_assoc here more tail in
      let (now, next) = split-drop b.pos content here (more ++ tail) at' in
      let (b₁, run₁, r₁, p₁) =
        get_kind-Reads io std big (kind s) v here content b h st r cb
          (ap (λ k. take k (drop b.pos content)) (sym n) ∙ now)
          (omega (arith, n, room_for content here (more ++ tail) b r at')) in
      let (b₂, run₂, r₂, p₂) =
        load_row-Row content ss len (pos + size (kind s)) vs more tail b₁ cb f row r₁ (
          ap (λ k. drop k content) {x = b₁.pos} {y = b.pos + length here} (omega (arith, p₁, n))
          ∙ next) in
      (
        b₂,
        load_row-goes s ss len pos b goes lt
            ∙ ap
                (λ m. and_then m (λ v. load_row io big ss len (pos + size (kind s)) >>= row_with v))
                run₁
            ∙ ap (λ m. and_then m (row_with v)) run₂,
        r₂,
        omega (arith, p₁, p₂, n, ap length e, length-append here more),
      )

  pub get-Word :
      (v : ℕ) (content bs tail : List ℕ) (b : Bfile)
      → Word v bs
      → IsBytes content
      → Reads content b
      → drop b.pos content ≡ bs ++ tail
      → GivesAnd content b (get_uint16_be io b) v 2
  get-Word v content bs tail b (e, _, n) cb r at =
      let (now, _) = split-drop b.pos content bs tail at in
      let (b', run, r', p) =
        (get_16-Reads io std content b r cb
          (omega (arith, n, room_for content bs tail b r at))).0 in
      (
        b',
        run
            ∙ ap (λ x. ok x b')
                (ap big_endian (ap (λ k. take k (drop b.pos content)) (sym n) ∙ now) ∙ e),
        r',
        p,
      )

  shorter-lt : (a b : ℕ) → a < 2 ^ 16 → a - b < 2 ^ 31
  shorter-lt a b h = omega arith

  -- the part of `load_f` behind the row
  unfoldable pub load_rest : Layout → ℕ → List Value × ℕ → Cmd (Option Loaded)
  load_rest l len found =
      (if l.keeps_rest && ltb found.1 len then bf_read io (len - found.1) else pure []) >>= λ more.
      pure (some (record { len = len; members = found.0; rest = more }))

  pub load_rest-Whole :
      (l : Layout) (r : Loaded) (pos : ℕ) (content tail : List ℕ) (b : Bfile)
      → length r.rest ≡ left l r pos
      → r.len < 2 ^ 16
      → Reads content b
      → drop b.pos content ≡ r.rest ++ tail
      → GivesAnd content b (load_rest l r.len (r.members, pos) b) (some r) (length r.rest)
  unfolding load_rest
  load_rest-Whole l r pos content tail b e small rd at =
      elim (Bool-cases (l.keeps_rest && ltb pos r.len)) [
        | inl more ↦
            let n : length r.rest ≡ r.len - pos = e ∙ ap (λ t. if t then r.len - pos else 0) more in
            let (b', run, r', p) =
              bf_read-Reads io std content (r.len - pos) b rd (shorter-lt r.len pos small) in
            let (now, _) = split-drop b.pos content r.rest tail at in
            let got : take (r.len - pos) (drop b.pos content) ≡ r.rest =
              ap (λ k. take k (drop b.pos content)) (sym n) ∙ now in
            (
              b',
              rw more (
                  ap
                    (λ m. and_then m (λ more.
                      pure (some (record { len = r.len; members = r.members; rest = more }))))
                    run
                  ∙ ap (λ x. ok (some (record { len = r.len; members = r.members; rest = x })) b')
                      got),
              r',
              omega (arith, p, n, room_for content r.rest tail b rd at),
            )
        | inr all ↦
            let n : length r.rest ≡ 0 = e ∙ ap (λ t. if t then r.len - pos else 0) all in
            let none_left : r.rest ≡ [] = empty r.rest n in
            (
              b,
              rw all (
                  ap (λ x. ok (some (record { len = r.len; members = r.members; rest = x })) b)
                    (sym none_left)),
              rd,
              omega (arith, n),
            )
      ]

  -- the part of `load_f` behind the length
  load_body : Layout → ℕ → Cmd (Option Loaded)
  load_body l len =
      let content =
        assert (λ b. leb l.asserted len)
        >> (load_row io big (l.load_steps len) len 4 >>= load_rest l len) in
      if ltb len l.min_length
      then (if l.returns
          then (if l.rewinds then (rewind io 4 >>= λ _. pure none) else pure none)
          else (if l.rewinds then (rewind io 4 >>= λ _. content) else content))
      else content

  -- the part of `load_f` behind the opcode
  load_head : Layout → ℕ → Cmd (Option Loaded)
  load_head l op =
      if not (op == l.opcode)
      then (assert (λ b. not l.asserts) >> (rewind io 2 >>= λ _. pure none))
      else (get_uint16_be io >>= load_body l)

  load_f-head :
      (l : Layout) (b : Bfile) → load_f io big l b ≡ and_then (get_uint16_be io b) (load_head l)
  unfolding load_f load_head load_body load_rest
  load_f-head l b = refl

  load_head-goes :
      (l : Layout) (b : Bfile)
      → load_head l l.opcode b ≡ and_then (get_uint16_be io b) (load_body l)
  unfolding load_head
  load_head-goes l b = let same : (l.opcode == l.opcode) ≡ true = ground arith in rw same refl

  load_body-goes :
      (l : Layout) (len : ℕ) (b : Bfile)
      → l.min_length ≤ len
      → l.asserted ≤ len
      → load_body l len b ≡ (load_row io big (l.load_steps len) len 4 >>= load_rest l len) b
  unfolding load_body
  load_body-goes l len b enough long =
      let is_enough : ltb len l.min_length ≡ false = ground arith in
      let is_long : leb l.asserted len ≡ true = ground arith in rw (is_enough, is_long) refl

  load_f-open :
      (l : Layout) (b b₁ b₂ : Bfile) (len : ℕ)
      → get_uint16_be io b ≡ ok l.opcode b₁
      → get_uint16_be io b₁ ≡ ok len b₂
      → l.min_length ≤ len
      → l.asserted ≤ len
      → load_f io big l b ≡ (load_row io big (l.load_steps len) len 4 >>= load_rest l len) b₂
  load_f-open l b b₁ b₂ len run₁ run₂ enough long =
      load_f-head l b
      ∙ ap (λ m. and_then m (load_head l)) run₁
      ∙ load_head-goes l b₁
      ∙ ap (λ m. and_then m (load_body l)) run₂
      ∙ load_body-goes l len b₂ enough long

  -- Where the file goes on with the bytes of a record, the load function of a layout with one row for
  -- loading and saving gives that record, and moves on past those bytes.
  pub load_f-Whole :
      (l : Layout) (r : Loaded) (content bs tail : List ℕ) (b : Bfile)
      → l.load_steps ≡ l.save_steps
      → IsRecord l r
      → Whole l r bs
      → IsBytes content
      → Reads content b
      → drop b.pos content ≡ bs ++ tail
      → GivesAnd content b (load_f io big l b) (some r) (length bs)
  load_f-Whole l r content bs tail b same ok_r (op, len, row, e, is_op, is_len, is_row) cb rd at =
      let at₁ : drop b.pos content ≡ op ++ (len ++ (row ++ (r.rest ++ tail))) =
        at ∙ ap (λ l. l ++ tail) e ∙ four_in_a_row op len row r.rest tail in
      let (b₁, run₁, r₁, p₁) =
        get-Word l.opcode content op (len ++ (row ++ (r.rest ++ tail))) b is_op cb rd at₁ in
      let at₂ : drop b₁.pos content ≡ len ++ (row ++ (r.rest ++ tail)) =
        ap (λ k. drop k content) {x = b₁.pos} {y = b.pos + length op} (omega (arith, p₁, is_op.2))
        ∙ (split-drop b.pos content op _ at₁).1 in
      let (b₂, run₂, r₂, p₂) =
        get-Word r.len content len (row ++ (r.rest ++ tail)) b₁ is_len cb r₁ at₂ in
      let at₃ : drop b₂.pos content ≡ row ++ (r.rest ++ tail) =
        ap (λ k. drop k content) {x = b₂.pos} {y = b₁.pos + length len}
          (omega (arith, p₂, is_len.2))
        ∙ (split-drop b₁.pos content len _ at₂).1 in
      let (b₃, run₃, r₃, p₃) =
        load_row-Row content (l.save_steps r.len) r.len 4 r.members row (r.rest ++ tail) b₂ cb
          ok_r.fits is_row r₂ at₃ in
      let at₄ : drop b₃.pos content ≡ r.rest ++ tail =
        ap (λ k. drop k content) p₃ ∙ (split-drop b₂.pos content row _ at₃).1 in
      let (b₄, run₄, r₄, p₄) =
        load_rest-Whole l r (end_of (l.save_steps r.len) 4 r.members) content tail b₃
          ok_r.rest_length ok_r.len_small r₃ at₄ in
      (
        b₄,
        load_f-open l b b₁ b₂ r.len run₁ run₂ ok_r.enough ok_r.long
            ∙ ap (λ ss. (load_row io big (ss r.len) r.len 4 >>= load_rest l r.len) b₂) same
            ∙ ap (λ m. and_then m (load_rest l r.len)) run₃
            ∙ run₄,
        r₄,
        omega (
          arith,
          p₁,
          p₂,
          p₃,
          p₄,
          is_op.2,
          is_len.2,
          ap length e,
          length-append op (len ++ (row ++ r.rest)),
          length-append len (row ++ r.rest),
          length-append row r.rest,
        ),
      )
