-- ===== src/Record/Layouts/Bounds.antt =====
-- The record types whose members lie in the record's length.
use profit.Prelude.{
  ℕ, ◌+◌, ◌-◌, ◌^◌, ◌≤◌, ◌<◌, ◌≡◌, refl, sym, ap, ◌∙◌, Bool, true, some, List, [], ◌∷◌, ◌++◌, ltb,
  leb, max, ◌&&◌, inl, inr, Bool-cases, arith, length, length-append,
}
use profit.Bfile.{Bfile, Stdio, IsStdio, ok}
use profit.Bfile.Writing.{Writes}
use profit.Record.{Step, Value, Layout, Loaded, plain, checked, size, save_f}
use profit.Record.Save.{Fits, end_of, length-Row, left, IsRecord, Whole, save_f-Whole}
use profit.Record.Layouts.{find_layout, bounded}
use profit.Record.Layouts.Agree.{All, find_layout-All}

-- Whether the steps without a test lie below the least length, and the others behind a test that is
-- large enough.
abbrev pub sound : List Step → ℕ → ℕ → Bool
sound [] pos least = true
sound (plain k ∷ ss) pos least = leb (pos + size k) least && sound ss (pos + size k) least
sound (checked n k ∷ ss) pos least = leb (size k) n && sound ss (pos + size k) least

end_of-sound :
    (ss : List Step) (len pos least : ℕ) (vs : List Value)
    → sound ss pos least ≡ true
    → least ≤ len
    → pos ≤ len
    → Fits ss len pos vs
    → end_of ss pos vs ≤ len
end_of-sound [] len pos least [] s e p f = p
end_of-sound [] len pos least (v ∷ vs) s e p f = absurd f
end_of-sound (s ∷ ss) len pos least [] b e p f = p
end_of-sound (plain k ∷ ss) len pos least (v ∷ vs) b e p (_, _, _, f) =
    end_of-sound ss len (pos + size k) least vs (ground arith) e (ground arith) f
end_of-sound (checked n k ∷ ss) len pos least (v ∷ vs) b e p (goes, _, _, f) =
    end_of-sound ss len (pos + size k) least vs (ground arith) e (ground arith) f

-- a layout that keeps what is behind its row, where its members lie in the length
abbrev pub IsBounded : Layout → Type 0
IsBounded l =
    (l.keeps_rest ≡ true)
    × ((len : ℕ) → sound (l.save_steps len) 4 (max l.min_length l.asserted) ≡ true)

bounded-IsBounded : All IsBounded bounded
bounded-IsBounded = (
  (refl, λ len. refl),
  (
    (refl, λ len. refl),
    (
      (refl, λ len. refl),
      (
        (refl, λ len. refl),
        (
          (refl, λ len. refl),
          (
            (refl, λ len. refl),
            (
              (refl, λ len. refl),
              (
                (refl, λ len. refl),
                (
                  (refl, λ len. refl),
                  (
                    (refl, λ len. refl),
                    ((refl, λ len. refl), ((refl, λ len. refl), ((refl, λ len. refl), tt))),
                  ),
                ),
              ),
            ),
          ),
        ),
      ),
    ),
  ),
)

pub left_kept :
    (l : Layout) (r : Loaded) (pos : ℕ) → l.keeps_rest ≡ true → left l r pos ≡ r.len - pos
left_kept l r pos keeps = elim (Bool-cases (ltb pos r.len)) [
  | inl more ↦ rw (keeps, more) refl
  | inr all ↦ let none_left : r.len - pos ≡ 0 = ground arith in rw (keeps, all) (sym none_left)
]

length-bounded :
    (l : Layout) (r : Loaded) (bs : List ℕ)
    → IsBounded l
    → IsRecord l r
    → Whole l r bs
    → 4 ≤ r.len
    → length bs ≡ r.len
length-bounded l r bs (keeps, s) ok_r (op, len, row, e, is_op, is_len, is_row) four =
    let ss = l.save_steps r.len in
    let (ends, _) = length-Row (l.save_steps r.len) r.len 4 r.members row ok_r.fits is_row in
    let inside : end_of (l.save_steps r.len) 4 r.members ≤ r.len =
      end_of-sound (l.save_steps r.len) r.len 4 (max l.min_length l.asserted) r.members (s r.len)
        (omega (arith, ok_r.enough, ok_r.long)) four ok_r.fits in
    let n : length bs ≡ length op + (length len + (length row + length r.rest)) =
      ap length e
      ∙ length-append op (len ++ (row ++ r.rest))
      ∙ ap (λ k. length op + k) (length-append len (row ++ r.rest))
      ∙ ap (λ k. length op + (length len + k)) (length-append row r.rest) in
    let rest : length r.rest ≡ r.len - end_of (l.save_steps r.len) 4 r.members =
      ok_r.rest_length ∙ left_kept l r (end_of (l.save_steps r.len) 4 r.members) keeps in
    omega (arith, n, ends, inside, rest, is_op.2, is_len.2)

module _ (io : Stdio) (std : IsStdio io) (big : Bool) where
  -- On a writer with room, saving a record of a type in `bounded`, whose length is 4 or more, succeeds
  -- and moves the file on by exactly the length that is written into it.
  pub bounded-length :
      (op : ℕ) (l : Layout) (r : Loaded) (out : List ℕ) (b : Bfile)
      → find_layout bounded op ≡ some l
      → IsRecord l r
      → 4 ≤ r.len
      → Writes out b
      → b.pos + 2 ^ 21 < 2 ^ 63
      → (b' : Bfile) × (save_f io big l r b ≡ ok tt b') × (b'.pos ≡ b.pos + r.len)
  bounded-length op l r out b found ok_r four w room =
      let (bs, whole, (b', run, _, p)) = save_f-Whole io std big l r out b ok_r w room in
      let n : length bs ≡ r.len =
        length-bounded l r bs (find_layout-All IsBounded bounded op l bounded-IsBounded found) ok_r
          whole four in
      (b', run, omega (arith, p, n))
