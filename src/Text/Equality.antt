-- ===== src/Text/Equality.antt =====
-- The tests of equality and of order on texts.
use hive_memory.Base.{
  ◌≡◌, refl, ap, ◌↔◌, ◌⊎◌, inl, inr, true, List, [], ◌∷◌, arith, any, In, any-In, any_witness,
  Option, none, some,
}
use hive_memory.Text.Defs.{Text, same, text_le, same_option}

pub same_refl : (s : Text) → same s s ≡ true
unfolding same
same_refl [] = refl
same_refl (c ∷ s) = ground (arith, same_refl s)

pub same→eq : (s t : Text) → same s t ≡ true → s ≡ t
unfolding same
same→eq [] [] h = refl
same→eq [] (d ∷ t) h = cc
same→eq (c ∷ s) [] h = cc
same→eq (c ∷ s) (d ∷ t) h = ground (arith, same→eq s t)

pub eq→same : (s t : Text) → s ≡ t → same s t ≡ true
eq→same s t e = ground (arith, same_refl s, ap (same s) e)

pub same_iff : (s t : Text) → (same s t ≡ true) ↔ (s ≡ t)
same_iff s t = (same→eq s t, eq→same s t)

pub same_sym : (s t : Text) → same s t ≡ same t s
unfolding same
same_sym [] [] = refl
same_sym [] (d ∷ t) = refl
same_sym (c ∷ s) [] = refl
same_sym (c ∷ s) (d ∷ t) = ground (arith, same_sym s t)

pub same_option→eq : (a b : Option Text) → same_option a b ≡ true → a ≡ b
same_option→eq none none h = refl
same_option→eq none (some t) h = cc
same_option→eq (some s) none h = cc
same_option→eq (some s) (some t) h = ap some (same→eq s t h)

-- `iter().any(|x| x == s)` is membership.
pub any-same_iff : (s : Text) (xs : List Text) → (any (λ x. same x s) xs ≡ true) ↔ In s xs
any-same_iff s xs = (
  λ h. let (a, i, e) = any_witness (λ x. same x s) xs h in found a xs (same→eq a s e) i,
  λ i. any-In (λ x. same x s) s xs i (same_refl s),
)
  where
    found : (a : Text) (ys : List Text) → a ≡ s → In a ys → In s ys
    found a [] e i = absurd i
    found a (y ∷ ys) e (inl q) = inl (cc)
    found a (y ∷ ys) e (inr q) = inr (found a ys e q)

pub text_le_refl : (s : Text) → text_le s s ≡ true
unfolding text_le
text_le_refl [] = refl
text_le_refl (c ∷ s) = ground (arith, text_le_refl s)

pub text_le_total : (s t : Text) → (text_le s t ≡ true) ⊎ (text_le t s ≡ true)
unfolding text_le
text_le_total [] t = inl refl
text_le_total (c ∷ s) [] = inr refl
text_le_total (c ∷ s) (d ∷ t) = ground (arith, text_le_total s t)

pub text_le_trans : (s t u : Text) → text_le s t ≡ true → text_le t u ≡ true → text_le s u ≡ true
unfolding text_le
text_le_trans [] t u h k = refl
text_le_trans (c ∷ s) [] u h k = cc
text_le_trans (c ∷ s) (d ∷ t) [] h k = cc
text_le_trans (c ∷ s) (d ∷ t) (e ∷ u) h k = ground (arith, text_le_trans s t u)

pub text_le_antisym : (s t : Text) → text_le s t ≡ true → text_le t s ≡ true → s ≡ t
unfolding text_le
text_le_antisym [] [] h k = refl
text_le_antisym [] (d ∷ t) h k = cc
text_le_antisym (c ∷ s) [] h k = cc
text_le_antisym (c ∷ s) (d ∷ t) h k = ground (arith, text_le_antisym s t)
