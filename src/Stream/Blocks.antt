-- ===== src/Stream/Blocks.antt =====
-- A byte stream as the blocks that a blank line ends, and the bytes after the last of them. This
-- is a description by recursion on the bytes, with no search and no erasing.
use ai_switch.Base.{
  ℕ, ◌≡◌, refl, Bool, true, false, ◌&&◌, List, [], ◌∷◌, ◌++◌, arith, none, some, one_later,
  List-cases, append-nil, length-append, Bytes, bytes, find, length, ◌==◌, ap, ◌∙◌, Bool-cases, inl,
  inr,
}

abbrev pub newline : ℕ
newline = 10

abbrev pub separator : Bytes
separator = bytes "\n\n"

pub record Cut : Type 0 where
  pub blocks : List Bytes
  pub rest : Bytes

abbrev pub ends_block : ℕ → ℕ → Bool
ends_block c d = c == newline && d == newline

-- Put a byte in front of the first block.
abbrev pub onto : ℕ → List Bytes → Bytes → Cut
onto c [] t = record { blocks = []; rest = c ∷ t }
onto c (b ∷ bs) t = record { blocks = (c ∷ b) ∷ bs; rest = t }

unfoldable pub cut : Bytes → Cut
cut [] = record { blocks = []; rest = [] }
cut (c ∷ []) = record { blocks = []; rest = c ∷ [] }
cut (c ∷ d ∷ s) = elim (ends_block c d) [
  | true ↦ record { blocks = [] ∷ (cut s).blocks; rest = (cut s).rest }
  | false ↦ onto c (cut (d ∷ s)).blocks (cut (d ∷ s)).rest
]

module _ (c d : ℕ) (s : Bytes) where
  pub cut_end :
      ends_block c d ≡ true
      → cut (c ∷ d ∷ s) ≡ record { blocks = [] ∷ (cut s).blocks; rest = (cut s).rest }
  unfolding cut
  cut_end h = rw (h, cut)

  pub cut_inside :
      ends_block c d ≡ false → cut (c ∷ d ∷ s) ≡ onto c (cut (d ∷ s)).blocks (cut (d ∷ s)).rest
  unfolding cut
  cut_inside h = rw (h, cut)

  pub find_end : ends_block c d ≡ true → find separator (c ∷ d ∷ s) ≡ some 0
  unfolding find
  find_end h = ground arith

  pub find_inside :
      ends_block c d ≡ false → find separator (c ∷ d ∷ s) ≡ one_later (find separator (d ∷ s))
  unfolding find
  find_inside h = ground arith

pub cut_nil : cut [] ≡ record { blocks = []; rest = [] }
unfolding cut
cut_nil = refl

-- Where nothing is cut, all is left over.
pub cut_whole : (s : Bytes) → (cut s).blocks ≡ [] → cut s ≡ record { blocks = []; rest = s }
unfolding cut
cut_whole [] h = refl
cut_whole (c ∷ []) h = refl
cut_whole (c ∷ d ∷ s) h = elim (Bool-cases (ends_block c d)) [
  | inl e ↦ cc (ap (λ (r : Cut). r.blocks) (cut_end c d s e))
  | inr e ↦ elim (List-cases (cut (d ∷ s)).blocks) [
    | inl whole ↦ cut_inside c d s e ∙ ap (λ r. onto c r.blocks r.rest) (cut_whole (d ∷ s) whole)
    | inr (x, r, more) ↦ cc (
      ap (λ (t : Cut). t.blocks) (cut_inside c d s e),
      ap (λ l. (onto c l (cut (d ∷ s)).rest).blocks) more,
    )
  ]
]

-- Cutting two pieces of a stream one after the other.
abbrev pub Joined : Bytes → Bytes → Type 0
Joined a b = cut (a ++ b) ≡ record {
  blocks = (cut a).blocks ++ (cut ((cut a).rest ++ b)).blocks;
  rest = (cut ((cut a).rest ++ b)).rest;
}

Joined-whole : (a b : Bytes) → (cut a).blocks ≡ [] → Joined a b
Joined-whole a b h = rw (cut_whole a h)

-- The cuts do not depend on where a stream is divided.
pub cut-append : (a b : Bytes) → Joined a b
cut-append [] b = Joined-whole [] b (unfold cut in refl)
cut-append (c ∷ []) b = Joined-whole (c ∷ []) b (unfold cut in refl)
cut-append (c ∷ d ∷ s) b = elim (Bool-cases (ends_block c d)) [
  | inl e ↦ rw (cut_end c d s e, cut_end c d (s ++ b) e, cut-append s b)
  | inr e ↦ elim (List-cases (cut (d ∷ s)).blocks) [
    | inl whole ↦ Joined-whole (c ∷ d ∷ s) b (
        ap (λ (r : Cut). r.blocks)
          (cut_inside c d s e ∙ ap (λ r. onto c r.blocks r.rest) (cut_whole (d ∷ s) whole)))
    | inr (x, r, more) ↦
        rw (cut_inside c d s e, cut_inside c d (s ++ b) e, cut-append (d ∷ s) b, more)
  ]
]

-- A block that holds no separator, nor makes one with the newline behind it.
abbrev pub IsBlock : Bytes → Type 0
IsBlock b = find separator (b ++ bytes "\n") ≡ none

-- Such a block, ended by a separator, is cut off whole.
pub cut-block :
    (b s : Bytes)
    → IsBlock b
    → cut (b ++ separator ++ s) ≡ record { blocks = b ∷ (cut s).blocks; rest = (cut s).rest }
cut-block [] s h = cut_end newline newline s refl
cut-block (c ∷ []) s h = elim (Bool-cases (ends_block c newline)) [
  | inl e ↦ cc (find_end c newline [] e)
  | inr e ↦ rw (cut_inside c newline (newline ∷ s) e, cut_end newline newline s refl)
]
cut-block (c ∷ d ∷ b) s h = elim (Bool-cases (ends_block c d)) [
  | inl e ↦ cc (find_end c d (b ++ bytes "\n") e)
  | inr e ↦ rw (
    cut_inside c d (b ++ separator ++ s) e,
    cut-block (d ∷ b) s (ground (arith, find_inside c d (b ++ bytes "\n") e)),
  )
]

-- A byte that is no newline may stand in front of a block.
pub IsBlock-cons : (c : ℕ) (b : Bytes) → (c == newline) ≡ false → IsBlock b → IsBlock (c ∷ b)
IsBlock-cons c [] e h = find_inside c newline [] (rw e) ∙ ap one_later h
IsBlock-cons c (d ∷ b) e h = find_inside c d (b ++ bytes "\n") (rw e) ∙ ap one_later h

empty_of_length : (xs : List Bytes) → length xs ≡ 0 → xs ≡ []
empty_of_length [] h = refl
empty_of_length (x ∷ xs) h = absurd (omega arith)

-- What is left over holds no separator.
pub cut-rest : (s : Bytes) → (cut (cut s).rest).blocks ≡ []
cut-rest s =
    let again : Joined s [] = cut-append s [] in
    let whole : cut s ≡ record {
      blocks = (cut s).blocks ++ (cut (cut s).rest).blocks;
      rest = (cut (cut s).rest).rest;
    } =
      rw (append-nil s, append-nil (cut s).rest) at again in
    let lengths : length (cut s).blocks ≡ length ((cut s).blocks ++ (cut (cut s).rest).blocks) =
      ap (λ (r : Cut). length r.blocks) whole in
    empty_of_length _
      (omega (arith, lengths, length-append (cut s).blocks (cut (cut s).rest).blocks))
