-- ===== src/Text/Search.antt =====
-- `starts_with` and `contains`, and the prefixes and parts of a text.
use hive_memory.Base.{
  ◌≡◌, refl, sym, ap, ◌∙◌, true, [], ◌∷◌, ◌++◌, append_assoc, Bool-cases, inl, inr, arith, subst,
}
use hive_memory.Text.Defs.{Text, starts_with, contains}

pub starts_with-append : (t s : Text) → starts_with (t ++ s) t ≡ true
unfolding starts_with
starts_with-append [] [] = refl
starts_with-append [] (c ∷ s) = refl
starts_with-append (c ∷ t) s = ground (arith, starts_with-append t s)

pub starts_with_rest : (s t : Text) → starts_with s t ≡ true → (r : Text) × (s ≡ t ++ r)
unfolding starts_with
starts_with_rest s [] h = (s, refl)
starts_with_rest [] (d ∷ t) h = absurd (cc)
starts_with_rest (c ∷ s) (d ∷ t) h =
    let (r, e) = starts_with_rest s t (ground arith) in (r, ground arith)

contains_here : (t v : Text) → contains (t ++ v) t ≡ true
unfolding contains
contains_here [] [] = refl
contains_here [] (c ∷ v) = unfold starts_with in refl
contains_here (c ∷ t) v = ground (arith, starts_with-append (c ∷ t) v)

-- A text contains each of its parts.
pub contains_part : (u t v : Text) → contains (u ++ (t ++ v)) t ≡ true
unfolding contains
contains_part [] t v = contains_here t v
contains_part (c ∷ u) t v = ground (arith, contains_part u t v)

-- What a text contains is a part of it.
pub contains_sound :
    (s t : Text) → contains s t ≡ true → (u : Text) × (v : Text) × (s ≡ u ++ (t ++ v))
unfolding contains
contains_sound [] [] h = ([], [], refl)
contains_sound [] (d ∷ t) h = absurd (cc)
contains_sound (c ∷ s) t h = elim (Bool-cases (starts_with (c ∷ s) t)) [
  | inl p ↦ let (r, e) = starts_with_rest (c ∷ s) t p in ([], r, e)
  | inr n ↦ let (u, v, e) = contains_sound s t (ground arith) in (c ∷ u, v, ap (λ r. c ∷ r) e)
]

-- A text that stands within another brings along what it contains.
pub contains_within : (u s v t : Text) → contains s t ≡ true → contains (u ++ (s ++ v)) t ≡ true
contains_within u s v t h =
    let (a, b, e) = contains_sound s t h in
    subst (λ x. contains x t ≡ true) (sym (regroup a b e)) (contains_part (u ++ a) t (b ++ v))
  where
    regroup : (a b : Text) → s ≡ a ++ (t ++ b) → u ++ (s ++ v) ≡ (u ++ a) ++ (t ++ (b ++ v))
    regroup a b e = ap (λ x. u ++ (x ++ v)) e ∙ simp append_assoc
