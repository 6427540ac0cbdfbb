-- ===== src/Text/Ascii.antt =====
-- ASCII texts and lower case.
use hive_memory.Base.{ℕ, ◌≡◌, refl, ap, true, ◌&&◌, [], ◌∷◌, ◌++◌, all, all-append, arith, ltb}
use hive_memory.Text.Defs.{Text, is_ascii, to_ascii_lowercase, lower_char}

pub is_ascii_part : (u s v : Text) → is_ascii (u ++ (s ++ v)) ≡ true → is_ascii s ≡ true
unfolding is_ascii
is_ascii_part u s v h = ground (arith, both u (s ++ v), both s v)
  where
    both :
        (x y : Text)
        → all (λ c. ltb c 0x80) (x ++ y) ≡ all (λ c. ltb c 0x80) x && all (λ c. ltb c 0x80) y
    both x y = all-append (λ c. ltb c 0x80) x y

pub lower-append :
    (s t : Text) → to_ascii_lowercase (s ++ t) ≡ to_ascii_lowercase s ++ to_ascii_lowercase t
unfolding to_ascii_lowercase
lower-append [] t = refl
lower-append (c ∷ s) t = ap (λ (r : Text). lower_char c ∷ r) (lower-append s t)

lower_char_idem : (c : ℕ) → lower_char (lower_char c) ≡ lower_char c
lower_char_idem c = ground arith

pub lower_idem : (s : Text) → to_ascii_lowercase (to_ascii_lowercase s) ≡ to_ascii_lowercase s
unfolding to_ascii_lowercase
lower_idem [] = refl
lower_idem (c ∷ s) = rw (lower_char_idem c, lower_idem s)

pub is_ascii-lower : (s : Text) → is_ascii s ≡ true → is_ascii (to_ascii_lowercase s) ≡ true
unfolding is_ascii to_ascii_lowercase
is_ascii-lower [] h = refl
is_ascii-lower (c ∷ s) h = ground (arith, is_ascii-lower s)
