-- ===== src/Ident/Safety.antt =====
-- The characters of write ids.
use hive_memory.Base.{
  ℕ, zero, suc, ◌+◌, ◌-◌, ◌/◌, ◌%◌, ◌<◌, ◌≡◌, ◌≢◌, inl, inr, refl, Bool, true, ◌||◌, [], ◌∷◌, map,
  ◌==◌, if◌then◌else◌, all, all-append, arith, Bool-cases, ltb, length,
}
use hive_memory.Text.{Text, to_ascii_lowercase, lower_char}
use hive_memory.Ident.Decimal.{decimal, padded, digits, zeros}
use hive_memory.Ident.{
  Timestamp, is_component_char, sanitize_component, timestamp_prefix, write_id_with_parts,
}

abbrev sanitize_char : ℕ → ℕ
sanitize_char ch = if is_component_char ch then ch else b'-'

sanitize_char-safe : (ch : ℕ) → is_component_char (sanitize_char ch) ≡ true
sanitize_char-safe ch = ground arith

map-sanitize_char : (s : Text) → all is_component_char (map sanitize_char s) ≡ true
map-sanitize_char [] = refl
map-sanitize_char (ch ∷ s) = rw (sanitize_char-safe ch, map-sanitize_char s)

kept : (s : Text) → all is_component_char s ≡ true → map sanitize_char s ≡ s
kept [] h = refl
kept (ch ∷ s) h = elim (Bool-cases (is_component_char ch)) [
  | inl t ↦ rw (t, kept s (rw t at h))
  | inr f ↦ absurd (cc (rw f at h))
]

-- What `sanitize_component` promises.
pub record IsComponent (input output : Text) : Type 0 where
  pub safe : all is_component_char output ≡ true
  pub nonempty : output ≢ []
  pub stable : sanitize_component output ≡ output

-- The result is not empty and holds only letters, digits, `_` and `-`, and to sanitize it again
-- changes nothing.
pub sanitize_component-IsComponent : (input : Text) → IsComponent input (sanitize_component input)
unfolding sanitize_component
sanitize_component-IsComponent [] = record { safe = refl; nonempty = λ e. cc; stable = refl }
sanitize_component-IsComponent (ch ∷ s) = record {
  safe = map-sanitize_char (ch ∷ s);
  nonempty = λ e. cc;
  stable = kept (map sanitize_char (ch ∷ s)) (map-sanitize_char (ch ∷ s));
}

-- The characters of an id: those of a component, and the dot before the microseconds.
abbrev pub is_id_char : ℕ → Bool
is_id_char c = is_component_char c || c == b'.'

weaken : (s : Text) → all is_component_char s ≡ true → all is_id_char s ≡ true
weaken [] h = refl
weaken (c ∷ s) h = elim (Bool-cases (is_component_char c)) [
  | inl t ↦ rw (t, weaken s (rw t at h))
  | inr f ↦ absurd (cc (rw f at h))
]

lower_char-safe : (c : ℕ) → is_component_char c ≡ true → is_component_char (lower_char c) ≡ true
lower_char-safe c h = ground arith

lower-safe :
    (s : Text) → all is_component_char s ≡ true → all is_component_char (map lower_char s) ≡ true
lower-safe [] h = refl
lower-safe (c ∷ s) h = elim (Bool-cases (is_component_char c)) [
  | inl t ↦ rw (lower_char-safe c t, lower-safe s (rw t at h))
  | inr f ↦ absurd (cc (rw f at h))
]

digit-safe : (d : ℕ) → d < 10 → is_id_char (b'0' + d) ≡ true
digit-safe d h = ground arith

digits-safe : (fuel n : ℕ) → all is_id_char (digits fuel n) ≡ true
unfolding digits
digits-safe zero n = refl
digits-safe (suc fuel) n = elim (Bool-cases (ltb n 10)) [
  | inl l ↦ rw (l, digit-safe n (ground arith))
  | inr m ↦ rw (m, all-append, digits-safe fuel (n / 10), digit-safe (n % 10) (omega arith))
]

decimal-safe : (n : ℕ) → all is_id_char (decimal n) ≡ true
unfolding decimal
decimal-safe n = digits-safe (suc n) n

zeros-safe : (k : ℕ) → all is_id_char (zeros k) ≡ true
unfolding zeros
zeros-safe zero = refl
zeros-safe (suc k) = zeros-safe k

padded-safe : (w n : ℕ) → all is_id_char (padded w n) ≡ true
padded-safe w n =
    unfold padded in rw (all-append, zeros-safe (w - length (decimal n)), decimal-safe n)

component-safe : (s : Text) → all is_id_char (sanitize_component s) ≡ true
component-safe s = weaken (sanitize_component s) (sanitize_component-IsComponent s).safe

random-safe : (s : Text) → all is_id_char (to_ascii_lowercase (sanitize_component s)) ≡ true
unfolding to_ascii_lowercase
random-safe s =
    weaken (map lower_char (sanitize_component s))
      (lower-safe (sanitize_component s) (sanitize_component-IsComponent s).safe)

prefix-safe : (t : Timestamp) → all is_id_char (timestamp_prefix t) ≡ true
unfolding timestamp_prefix
prefix-safe t = simp (all-append, padded-safe)

-- No id holds a character outside letters, digits, `_`, `-` and `.`, whatever the hosts and agents
-- are called: an id is one path component, with no separator.
pub write_id-safe :
    (t : Timestamp) (pid : ℕ) (host agent random : Text)
    → all is_id_char (write_id_with_parts t pid host agent random) ≡ true
unfolding write_id_with_parts
write_id-safe t pid host agent random =
    simp (all-append, prefix-safe, component-safe, decimal-safe, random-safe)
