-- ===== src/Ident/Decimal.antt =====
-- The decimal print of the format strings, `{}` and `{:0w}`, and its order.
use hive_memory.Base.{
  ℕ, zero, suc, ◌+◌, ◌-◌, ◌*◌, ◌/◌, ◌%◌, ◌^◌, ◌<◌, ◌≡◌, refl, ap, true, false, [], ◌∷◌, ◌++◌,
  append_assoc, length, length-append, ltb, ltb→lt, lt→ltb, if◌then◌else◌, arith, Bool-cases, inl,
  inr, ◌⊎◌,
}
use native.Mathlib.Nat.{pow-suc}
use hive_memory.Text.{Text, text_le}

-- The digits of a number; the fuel bounds their count.
unfoldable pub digits : ℕ → ℕ → Text
digits zero n = []
digits (suc fuel) n =
    let rest = digits fuel (n / 10) in
    if ltb n 10 then (b'0' + n) ∷ [] else rest ++ (b'0' + n % 10) ∷ []

unfoldable pub decimal : ℕ → Text
unfolding digits
decimal n = digits (suc n) n

unfoldable pub zeros : ℕ → Text
zeros zero = []
zeros (suc k) = b'0' ∷ zeros k

unfoldable pub padded : ℕ → ℕ → Text
unfolding decimal zeros
padded width n = zeros (width - length (decimal n)) ++ decimal n

-- The last `width` digits of a number.
pub fixed : ℕ → ℕ → Text
fixed zero n = []
fixed (suc width) n = fixed width (n / 10) ++ (b'0' + n % 10) ∷ []

zeros-snoc : (k : ℕ) → zeros k ++ b'0' ∷ [] ≡ b'0' ∷ zeros k
unfolding zeros
zeros-snoc zero = refl
zeros-snoc (suc k) = ap (λ (s : Text). b'0' ∷ s) (zeros-snoc k)

fixed-zero : (width : ℕ) → fixed width 0 ≡ zeros width
unfolding fixed zeros
fixed-zero zero = refl
fixed-zero (suc width) = rw (fixed-zero width) (zeros-snoc width)

-- One more digit behind a padded print.
pad-snoc :
    (width c : ℕ) (d : Text)
    → zeros (suc width - length (d ++ c ∷ [])) ++ (d ++ c ∷ [])
      ≡ (zeros (width - length d) ++ d) ++ c ∷ []
pad-snoc width c d = rw (same_width, append_assoc)
  where
    same_width : suc width - length (d ++ c ∷ []) ≡ width - length d
    same_width = omega (arith, length-append {0} d (c ∷ []))

-- Two or more digits: the last one stands behind the padded print of the others.
pad_more :
    (fuel w n : ℕ)
    → ltb n 10 ≡ false
    → zeros (suc w - length (digits fuel (n / 10))) ++ digits fuel (n / 10) ≡ fixed (suc w) (n / 10)
    → zeros (suc (suc w) - length (digits (suc fuel) n)) ++ digits (suc fuel) n
      ≡ fixed (suc (suc w)) n
unfolding digits
pad_more fuel w n m ih =
    rw (m, pad-snoc (suc w) (b'0' + n % 10) (digits fuel (n / 10)), ih) (unfold fixed in refl)

pad_one :
    (fuel w n : ℕ)
    → ltb n 10 ≡ true
    → zeros (suc w - length (digits (suc fuel) n)) ++ digits (suc fuel) n ≡ fixed (suc w) n
unfolding digits fixed
pad_one fuel w n one_digit =
    let e : n / 10 ≡ 0 = omega (arith, ltb→lt n 10 one_digit) in
    let r : n % 10 ≡ n = omega (arith, ltb→lt n 10 one_digit) in
    let s : suc w - 1 ≡ w = omega arith in rw (one_digit, e, r, fixed-zero w, s)

pad_digits :
    (fuel width n : ℕ)
    → n < fuel
    → n < 10 ^ suc width
    → zeros (suc width - length (digits fuel n)) ++ digits fuel n ≡ fixed (suc width) n
pad_digits zero width n h k = elim h [ ]
pad_digits (suc fuel) zero n h k = pad_one fuel zero n (lt→ltb n 10 (omega arith))
pad_digits (suc fuel) (suc w) n h k = elim (Bool-cases (ltb n 10)) [
  | inl one_digit ↦ pad_one fuel (suc w) n one_digit
  | inr more ↦
      pad_more fuel w n more
        (pad_digits fuel w (n / 10) (ground arith) (tenth (10 ^ suc w) n (rw pow-suc at k)))
]
  where
    tenth : (p m : ℕ) → m < p * 10 → m / 10 < p
    tenth p m q = omega arith

-- A number that fits is printed by its last digits, whatever stands before them.
pub padded-fixed : (width n : ℕ) → n < 10 ^ suc width → padded (suc width) n ≡ fixed (suc width) n
unfolding padded
padded-fixed width n h = pad_digits (suc n) width n (omega arith) h

pub text_le-prefix : (p s t : Text) → text_le (p ++ s) (p ++ t) ≡ text_le s t
unfolding text_le
text_le-prefix [] s t = refl
text_le-prefix (c ∷ p) s t = ground (arith, text_le-prefix p s t)

last_digit :
    (m n : ℕ) (s t : Text)
    → m % 10 < n % 10
    → text_le ((b'0' + n % 10) ∷ t) ((b'0' + m % 10) ∷ s) ≡ false
unfolding text_le
last_digit m n s t h = ground arith

-- Of two prints of the same width the smaller number's comes first, whatever follows them.
pub fixed-lt :
    (width m n : ℕ) (s t : Text)
    → m < n
    → n < 10 ^ width
    → text_le (fixed width n ++ t) (fixed width m ++ s) ≡ false
unfolding fixed
fixed-lt zero m n s t h k = absurd (omega arith)
fixed-lt (suc w) m n s t h k = simp append_assoc (
    cases (λ l. fixed-lt w (m / 10) (n / 10) _ _ l (tenth (10 ^ w) n (rw pow-suc at k)))
      (Bool-cases (ltb (m / 10) (n / 10))))
  where
    tenth : (p q : ℕ) → q < p * 10 → q / 10 < p
    tenth p q e = omega arith

    cases :
        (m / 10 < n / 10
          → text_le
              (fixed w (n / 10) ++ ((b'0' + n % 10) ∷ t))
              (fixed w (m / 10) ++ ((b'0' + m % 10) ∷ s))
            ≡ false)
        → (ltb (m / 10) (n / 10) ≡ true) ⊎ (ltb (m / 10) (n / 10) ≡ false)
        → text_le
            (fixed w (n / 10) ++ ((b'0' + n % 10) ∷ t))
            (fixed w (m / 10) ++ ((b'0' + m % 10) ∷ s))
          ≡ false
    cases ih (inl l) = ih (ltb→lt _ _ l)
    cases ih (inr e) =
        let q : n / 10 ≡ m / 10 = ground arith in
        rw (q, text_le-prefix) (last_digit m n s t (ground arith))
