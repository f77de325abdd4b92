-- ===== src/Record/Load/Reject.antt =====
-- The records that a load function does not take.
use profit.Prelude.{
  ℕ, ◌+◌, ◌-◌, ◌≤◌, ◌<◌, ◌≡◌, ◌≢◌, refl, sym, ap, subst, ◌∙◌, Bool, true, false, Option, none, List,
  arith, take, drop, ltb, ◌==◌, ◌⊎◌, inl, inr,
}
use profit.Bfile.{Bfile, Run, Stdio, IsStdio, ok, and_then, ◌>>=◌, pure, rewind}
use profit.Bfile.Get.{get_uint16_be}
use profit.Bfile.Get.Read.{get_16-Reads}
use profit.Bfile.Get.Values.{big_endian, IsBytes}
use profit.Bfile.Reading.{Reads}
use profit.Bfile.Reading.Block.{Ends, fixed, get_16-Keeps}
use profit.Bfile.Reading.Rewind.{rewind-Reads}
use profit.Record.{Layout, Loaded, load_f}
use profit.Record.Load.{load_f-head, load_head, load_head-goes, load_body}

-- the 16-bit number at a place of a file
abbrev pub word_at : List ℕ → ℕ → ℕ
word_at content p = big_endian (take 2 (drop p content))

-- What makes a load function end with FALSE: a record of another type, where that is not asserted, or one
-- that is too short, where that rewinds and ends the function.
abbrev pub IsRejected : Layout → List ℕ → ℕ → Type 0
IsRejected l content p =
    ((l.asserts ≡ false) × (word_at content p ≢ l.opcode))
    ⊎ ((l.rewinds ≡ true)
        × (l.returns ≡ true)
        × (word_at content p ≡ l.opcode)
        × (word_at content (p + 2) < l.min_length))

module _ (io : Stdio) (std : IsStdio io) (big : Bool) (content : List ℕ)
    (bytes : IsBytes content) where
  -- A call that ends with FALSE, with the reader at the place p.
  abbrev Fails : Run (Option Loaded) → ℕ → Type 0
  Fails r p = (b' : Bfile) × (r ≡ ok none b') × Reads content b' × (b'.pos ≡ p)

  back :
      (b : Bfile) (n : ℕ)
      → Reads content b
      → b.is_open ≡ true
      → b.disk ≡ content
      → n ≤ b.pos
      → Fails ((rewind io n >>= λ _. pure none) b) (b.pos - n)
  back b n r opened disk h =
      let (b', run, r', p) = rewind-Reads io std content b n r opened disk h in
      (b', ap (λ m. and_then m λ _. pure none) run, r', p)

  -- a number that is got from a file on disk, which is the file still
  got :
      (b : Bfile)
      → Reads content b
      → b.is_open ≡ true
      → b.disk ≡ content
      → b.pos + 2 ≤ b.size
      → (b₁ : Bfile) × (get_uint16_be io b ≡ ok (word_at content b.pos) b₁)
        × Reads content b₁
        × (b₁.pos ≡ b.pos + 2)
        × (b₁.is_open ≡ true)
        × (b₁.disk ≡ content)
  got b r opened disk left =
      let (b₁, run, r₁, p₁) = (get_16-Reads io std content b r bytes left).0 in
      let kept : fixed b₁ ≡ fixed b = subst (Ends (fixed b)) run ((get_16-Keeps io).0 b) in
      (b₁, run, r₁, p₁, ap (λ k. k.1) kept ∙ opened, ap (λ k. k.2) kept ∙ disk)

  load_head-rejects :
      (l : Layout) (op : ℕ) (b : Bfile)
      → l.asserts ≡ false
      → op ≢ l.opcode
      → load_head io std big l op b ≡ (rewind io 2 >>= λ _. pure none) b
  unfolding load_head
  load_head-rejects l op b asserts ne =
      let other : (op == l.opcode) ≡ false = ground arith in rw (other, asserts) refl

  load_body-rejects :
      (l : Layout) (len : ℕ) (b : Bfile)
      → l.rewinds ≡ true
      → l.returns ≡ true
      → len < l.min_length
      → load_body io std big l len b ≡ (rewind io 4 >>= λ _. pure none) b
  unfolding load_body
  load_body-rejects l len b rewinds returns short =
      let too_short : ltb len l.min_length ≡ true = ground arith in
      rw (too_short, returns, rewinds) refl

  -- On a reader of a file of bytes on disk with four left, a load function ends with FALSE where the
  -- record is of another type, which is not asserted, or too short, where that rewinds and ends the
  -- function; the reader stands at the start of the record again.
  pub load_f-rejects :
      (l : Layout) (b : Bfile)
      → Reads content b
      → b.is_open ≡ true
      → b.disk ≡ content
      → b.pos + 4 ≤ b.size
      → IsRejected l content b.pos
      → (b' : Bfile) × (load_f io big l b ≡ ok none b') × Reads content b' × (b'.pos ≡ b.pos)
  load_f-rejects l b r opened disk left rejected =
      let (b₁, run₁, r₁, p₁, opened₁, disk₁) = got b r opened disk (omega arith) in
      elim rejected [
        | inl (asserts, ne) ↦
            let (b₂, run₂, r₂, p₂) = back b₁ 2 r₁ opened₁ disk₁ (omega (arith, p₁)) in
            (
              b₂,
              load_f-head io std big l b
                  ∙ ap (λ m. and_then m (load_head io std big l)) run₁
                  ∙ load_head-rejects l (word_at content b.pos) b₁ asserts ne
                  ∙ run₂,
              r₂,
              omega (arith, p₁, p₂),
            )
        | inr (rewinds, returns, same, short) ↦
            let (b₂, run₂, r₂, p₂, opened₂, disk₂) =
              got b₁ r₁ opened₁ disk₁ (omega (arith, p₁, r₁.whole, r.whole)) in
            let (b₃, run₃, r₃, p₃) = back b₂ 4 r₂ opened₂ disk₂ (omega (arith, p₁, p₂)) in
            (
              b₃,
              load_f-head io std big l b
                  ∙ ap (λ m. and_then m (load_head io std big l)) run₁
                  ∙ ap (λ op. load_head io std big l op b₁) same
                  ∙ load_head-goes io std big l b₁
                  ∙ ap (λ m. and_then m (load_body io std big l)) run₂
                  ∙ load_body-rejects l (word_at content b₁.pos) b₂ rewinds returns
                      (subst (λ p. word_at content p < l.min_length) (sym p₁) short)
                  ∙ run₃,
              r₃,
              omega (arith, p₁, p₂, p₃),
            )
      ]
