-- ===== src/Palette/Memory.antt =====
-- Members that are written one behind the other, and read back.
use profit.Prelude.{
  ℕ, ◌+◌, ◌^◌, ◌≤◌, ◌<◌, ◌≡◌, refl, sym, ap, ◌∙◌, some, List, [], ◌∷◌, ◌++◌, arith, le→leb, length,
  take, drop, length-append, length-take, append_assoc,
}
use profit.Prelude.Windows.{
  splice, length-splice, take-drop_agree, drop-append_left, take-append_left, take-add, drop-drop,
}
use profit.Palette.{Host, IsHost, Cell, read, write}

-- the bytes of some members, and how many they are
abbrev pub encode : Host → List Cell → List ℕ
encode h [] = []
encode h ((n, v) ∷ cs) = h.bytes n v ++ encode h cs

abbrev pub sizes : List Cell → ℕ
sizes [] = 0
sizes ((n, v) ∷ cs) = n + sizes cs

-- Each member fits in its size.
abbrev pub Fits : List Cell → Type 0
Fits [] = Unit {0}
Fits ((n, v) ∷ cs) = (v < 256 ^ n) × Fits cs

-- Each member can be read, from index k of an object on.
abbrev pub Reads : Host → List ℕ → ℕ → List Cell → Type 0
Reads h ptr k [] = Unit {0}
Reads h ptr k ((n, v) ∷ cs) = (read h k n ptr ≡ some v) × Reads h ptr (k + n) cs

module _ (h : Host) (host : IsHost h) where
  pub length-encode : (cs : List Cell) → length (encode h cs) ≡ sizes cs
  length-encode [] = refl
  length-encode ((n, v) ∷ cs) =
      omega
        (arith, length-append (h.bytes n v) (encode h cs), host.length-bytes n v, length-encode cs)

  pub length-write :
      (off : ℕ) (cs : List Cell) (block : List ℕ)
      → off + sizes cs ≤ length block
      → length (write h off cs block) ≡ length block
  length-write off [] block p = refl
  length-write off ((n, v) ∷ cs) block p =
      let b : length (h.bytes n v) ≡ n = host.length-bytes n v in
      let s : length (splice off (h.bytes n v) block) ≡ length block =
        length-splice off (h.bytes n v) block (omega arith) in
      length-write (off + n) cs (splice off (h.bytes n v) block) (omega arith) ∙ s

  -- A write leaves what stands before it.
  pub take-write :
      (k off : ℕ) (cs : List Cell) (block : List ℕ)
      → k ≤ off
      → off + sizes cs ≤ length block
      → take k (write h off cs block) ≡ take k block
  take-write k off [] block q p = refl
  take-write k off ((n, v) ∷ cs) block q p =
      let b : length (h.bytes n v) ≡ n = host.length-bytes n v in
      let mid : List ℕ = splice off (h.bytes n v) block in
      let s : length mid ≡ length block = length-splice off (h.bytes n v) block (omega arith) in
      take-write k (off + n) cs mid (omega arith) (omega arith)
      ∙ take-drop_agree off 0 k mid block
          (take-append_left off (take off block) _ (omega (arith, length-take off block)))
          (omega arith)

  -- What it wrote stands there.
  pub take-drop-write :
      (off : ℕ) (cs : List Cell) (block : List ℕ)
      → off + sizes cs ≤ length block
      → take (sizes cs) (drop off (write h off cs block)) ≡ encode h cs
  take-drop-write off [] block p = refl
  take-drop-write off ((n, v) ∷ cs) block p =
      let b : length (h.bytes n v) ≡ n = host.length-bytes n v in
      let mid : List ℕ = splice off (h.bytes n v) block in
      let s : length mid ≡ length block = length-splice off (h.bytes n v) block (omega arith) in
      let out : List ℕ = write h (off + n) cs mid in
      let first : take n (drop off out) ≡ h.bytes n v =
        take-drop_agree (off + n) off n out mid
          (take-write (off + n) (off + n) cs mid (omega arith) (omega arith)) (omega arith)
        ∙ ap (take n)
            (drop-append_left off (take off block) _ (omega (arith, length-take off block)))
        ∙ take-append_left n (h.bytes n v) _ b in
      let second : take (sizes cs) (drop n (drop off out)) ≡ encode h cs =
        ap (take (sizes cs)) (drop-drop off n out)
        ∙ take-drop-write (off + n) cs mid (omega arith) in
      take-add n (sizes cs) (drop off out)
      ∙ ap (λ l. l ++ take (sizes cs) (drop n (drop off out))) first
      ∙ ap (λ l. h.bytes n v ++ l) second

  -- behind the first of some members
  pub drop-encode :
      (n v : ℕ) (cs : List Cell) (k : ℕ) (ptr rest : List ℕ)
      → drop k ptr ≡ encode h ((n, v) ∷ cs) ++ rest
      → drop (k + n) ptr ≡ encode h cs ++ rest
  drop-encode n v cs k ptr rest e =
      sym (drop-drop k n ptr)
      ∙ ap (drop n) (e ∙ append_assoc (h.bytes n v) (encode h cs) rest)
      ∙ drop-append_left n (h.bytes n v) (encode h cs ++ rest) (host.length-bytes n v)

  -- Members that stand in an object from index k on can be read there.
  pub encode-Reads :
      (cs : List Cell) (k : ℕ) (ptr rest : List ℕ)
      → Fits cs
      → drop k ptr ≡ encode h cs ++ rest
      → k + sizes cs ≤ length ptr
      → Reads h ptr k cs
  unfolding read
  encode-Reads [] k ptr rest f e p = tt
  encode-Reads ((n, v) ∷ cs) k ptr rest f e p =
      let b : length (h.bytes n v) ≡ n = host.length-bytes n v in
      let e' : drop k ptr ≡ h.bytes n v ++ (encode h cs ++ rest) =
        e ∙ append_assoc (h.bytes n v) (encode h cs) rest in
      let bytes : take n (drop k ptr) ≡ h.bytes n v =
        ap (take n) e' ∙ take-append_left n (h.bytes n v) (encode h cs ++ rest) b in
      (
        rw (le→leb (k + n) (length ptr) (omega arith), bytes) (ap some (host.value-bytes n v f.0)),
        encode-Reads cs (k + n) ptr rest f.1 (drop-encode n v cs k ptr rest e) (omega arith),
      )
