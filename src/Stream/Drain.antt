-- ===== src/Stream/Drain.antt =====
-- The loop of both parsers, and that it comes to the cuts of Stream/Blocks.
use ai_switch.Base.{
  ℕ, zero, suc, ◌+◌, ◌<◌, ◌≤◌, ◌≡◌, refl, List, [], ◌∷◌, ◌++◌, arith, Option, none, some, Bytes,
  find, starts_with, length, take, drop, ap, ◌∙◌, Bool-cases, inl, inr, length-drop, one_later,
  Option-cases,
}
use ai_switch.Stream.Blocks.{
  separator, cut, onto, ends_block, cut_end, cut_inside, find_end, find_inside,
}

-- Before the first separator nothing is cut.
cut-none : (s : Bytes) → find separator s ≡ none → cut s ≡ record { blocks = []; rest = s }
unfolding cut
cut-none [] h = refl
cut-none (c ∷ []) h = refl
cut-none (c ∷ d ∷ s) h = elim (Bool-cases (ends_block c d)) [
  | inl e ↦ cc (find_end c d s e)
  | inr e ↦ rw (cut_inside c d s e, cut-none (d ∷ s) (ground (arith, find_inside c d s e)))
]

-- At `p` the first separator begins, and `cut` splits off the block before it.
abbrev Cuts : Bytes → ℕ → Type 0
Cuts s p =
    (cut s ≡ record {
      blocks = take p s ∷ (cut (drop (suc (suc p)) s)).blocks;
      rest = (cut (drop (suc (suc p)) s)).rest;
    })
    × (suc (suc p) ≤ length s)

cut_some : (s : Bytes) (p : ℕ) → find separator s ≡ some p → Cuts s p
unfolding find starts_with
cut_some [] p h = cc
cut_some (c ∷ []) p h = ground arith
cut_some (c ∷ d ∷ s) p h = elim (Bool-cases (ends_block c d)) [
  | inl e ↦
      let zero_p : p ≡ 0 = ground (arith, find_end c d s e) in
      rw zero_p (cut_end c d s e, omega arith)
  | inr e ↦ elim (Option-cases (find separator (d ∷ s))) [
    | inl missing ↦ cc (find_inside c d s e, ap one_later missing)
    | inr (q, found) ↦
        let (split, fits) = cut_some (d ∷ s) q found in
        let later : p ≡ suc q = ground (arith, find_inside c d s e) in
        rw later (cut_inside c d s e ∙ ap (λ r. onto c r.blocks r.rest) split, omega arith)
  ]
]

module _ {ℓ} {S : Type ℓ} where
  -- `while (true)`: cut off the block before the first separator and handle it, until there is none.
  -- `none` means that the fuel ran out.
  unfoldable pub drain : (Bytes → S → S) → ℕ → Bytes → S → Option (Bytes × S)
  drain handle zero buffer s = none
  drain handle (suc fuel) buffer s = elim (find separator buffer) [
    | none ↦ some (buffer, s)
    | some pos ↦ drain handle fuel (drop (pos + 2) buffer) (handle (take pos buffer) s)
  ]

  unfoldable pub handle_all : (Bytes → S → S) → List Bytes → S → S
  handle_all handle [] s = s
  handle_all handle (b ∷ bs) s = handle_all handle bs (handle b s)

  pub handle_all-append :
      (handle : Bytes → S → S) (xs ys : List Bytes) (s : S)
      → handle_all handle (xs ++ ys) s ≡ handle_all handle ys (handle_all handle xs s)
  unfolding handle_all
  handle_all-append handle [] ys s = refl
  handle_all-append handle (x ∷ xs) ys s = handle_all-append handle xs ys (handle x s)

  -- Each round takes two bytes at least, so fuel above the length is enough: the loop ends, with the
  -- blocks of the buffer handled in order and its rest left.
  pub drain-cut :
      (handle : Bytes → S → S) (fuel : ℕ) (buffer : Bytes) (s : S)
      → length buffer < fuel
      → drain handle fuel buffer s
        ≡ some ((cut buffer).rest, handle_all handle (cut buffer).blocks s)
  unfolding drain handle_all
  drain-cut handle zero buffer s h = absurd (omega arith)
  drain-cut handle (suc fuel) buffer s h = elim (Option-cases (find separator buffer)) [
    | inl e ↦ rw (e, drain, cut-none buffer e)
    | inr (p, e) ↦
        let two : p + 2 ≡ suc (suc p) = omega arith in
        let (split, fits) = cut_some buffer p e in
        rw (e, drain, two, split)
          (drain-cut handle fuel (drop (suc (suc p)) buffer) (handle (take p buffer) s)
            (omega (arith, length-drop (suc (suc p)) buffer)))
  ]
