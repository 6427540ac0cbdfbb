-- ===== src/Text/Trim.antt =====
-- Trimming, and the ends of a text.
use hive_memory.Base.{
  ℕ, ◌≡◌, ap, ◌∙◌, ◌++◌, refl, inl, inr, Bool, true, false, ◌&&◌, [], ◌∷◌, Bool-cases,
  if◌then◌else◌, arith, is_empty,
}
use hive_memory.Text.Defs.{Text, trim_start, trim_end, trim_matches, trim, is_whitespace}

module _ (p : ℕ → Bool) where
  trim_end_idem : (s : Text) → trim_end p (trim_end p s) ≡ trim_end p s
  unfolding trim_end
  trim_end_idem [] = refl
  trim_end_idem (c ∷ s) = ground (arith, trim_end_idem s)

  -- The text does not begin with such a character.
  abbrev BeginsKept : Text → Type 0
  BeginsKept [] = Unit
  BeginsKept (c ∷ s) = p c ≡ false

  trim_start-BeginsKept : (s : Text) → BeginsKept (trim_start p s)
  unfolding trim_start
  trim_start-BeginsKept [] = tt
  trim_start-BeginsKept (c ∷ s) = elim (Bool-cases (p c)) [
    | inl t ↦ rw t (trim_start-BeginsKept s)
    | inr f ↦ rw f f
  ]

  trim_start_kept : (s : Text) → BeginsKept s → trim_start p s ≡ s
  unfolding trim_start
  trim_start_kept [] h = refl
  trim_start_kept (c ∷ s) h = rw h

  trim_end-BeginsKept : (s : Text) → BeginsKept s → BeginsKept (trim_end p s)
  unfolding trim_end
  trim_end-BeginsKept [] h = tt
  trim_end-BeginsKept (c ∷ s) h = keep (is_empty (trim_end p s))
    where
      keep : (b : Bool) → BeginsKept (if b && p c then [] else c ∷ trim_end p s)
      keep true = rw h h
      keep false = h

  pub trim_matches_idem : (s : Text) → trim_matches p (trim_matches p s) ≡ trim_matches p s
  unfolding trim_matches
  trim_matches_idem s =
      rw (trim_start_kept _ (trim_end-BeginsKept _ (trim_start-BeginsKept s)))
        (trim_end_idem (trim_start p s))

pub trim_idem : (s : Text) → trim (trim s) ≡ trim s
unfolding trim
trim_idem s = trim_matches_idem is_whitespace s

-- What is left is a part of the text.
module _ (p : ℕ → Bool) where
  trim_start_part : (s : Text) → (u : Text) × (s ≡ u ++ trim_start p s)
  unfolding trim_start
  trim_start_part [] = ([], refl)
  trim_start_part (c ∷ s) = elim (Bool-cases (p c)) [
    | inl t ↦ let (u, e) = trim_start_part s in (c ∷ u, rw t (ap (λ (r : Text). c ∷ r) e))
    | inr f ↦ ([], rw f)
  ]

  trim_end_part : (s : Text) → (v : Text) × (s ≡ trim_end p s ++ v)
  unfolding trim_end
  trim_end_part [] = ([], refl)
  trim_end_part (c ∷ s) =
      let (v, e) = trim_end_part s in
      elim (Bool-cases (is_empty (trim_end p s) && p c)) [
        | inl t ↦ (c ∷ s, rw t)
        | inr f ↦ (v, rw f (ap (λ (r : Text). c ∷ r) e))
      ]

  trim_matches_part : (s : Text) → (u : Text) × (v : Text) × (s ≡ u ++ (trim_matches p s ++ v))
  unfolding trim_matches
  trim_matches_part s =
      let (u, e) = trim_start_part s in
      let (v, q) = trim_end_part (trim_start p s) in (u, v, e ∙ ap (λ (r : Text). u ++ r) q)

pub trim_part : (s : Text) → (u : Text) × (v : Text) × (s ≡ u ++ (trim s ++ v))
unfolding trim
trim_part s = trim_matches_part is_whitespace s
