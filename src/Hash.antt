-- ===== src/Hash.antt =====
-- `lower_hex` of src/hash.rs, and the reading of its print. SHA-256 itself is a parameter where it is
-- used.
use hive_memory.Base.{
  ℕ, zero, suc, ◌+◌, ◌*◌, ◌/◌, ◌%◌, ◌-◌, ◌<◌, ◌≡◌, refl, ◌&&◌, Option, none, some, List, [], ◌∷◌,
  leb, if◌then◌else◌, length, arith, All,
}
use hive_memory.Text.{Text, codes}

abbrev lower_hex_table : Text
lower_hex_table = codes "0123456789abcdef"

-- An index into the table; the source's index is below 16.
abbrev nth : Text → ℕ → ℕ
nth [] i = 0
nth (c ∷ s) zero = c
nth (c ∷ s) (suc i) = nth s i

abbrev hex_char : ℕ → ℕ
hex_char i = nth lower_hex_table i

unfoldable pub lower_hex : List ℕ → Text
lower_hex [] = []
lower_hex (byte ∷ bytes) = hex_char (byte / 16) ∷ hex_char (byte % 16) ∷ lower_hex bytes

-- The value of a lower-case hexadecimal digit, and of a print.
abbrev hex_value : ℕ → Option ℕ
hex_value c =
    if leb b'0' c && leb c b'9'
    then some (c - b'0')
    else if leb b'a' c && leb c b'f'
    then some (c - b'a' + 10)
    else none

abbrev pair : Option ℕ → Option ℕ → Option (List ℕ) → Option (List ℕ)
pair (some h) (some l) (some bytes) = some ((h * 16 + l) ∷ bytes)
pair _ _ _ = none

pub read_hex : Text → Option (List ℕ)
read_hex [] = some []
read_hex (c ∷ []) = none
read_hex (c ∷ d ∷ s) = pair (hex_value c) (hex_value d) (read_hex s)

hex_value-hex_char : (i : ℕ) → i < 16 → hex_value (hex_char i) ≡ some i
hex_value-hex_char zero h = refl
hex_value-hex_char (suc zero) h = refl
hex_value-hex_char (suc (suc zero)) h = refl
hex_value-hex_char (suc (suc (suc zero))) h = refl
hex_value-hex_char (suc (suc (suc (suc zero)))) h = refl
hex_value-hex_char (suc (suc (suc (suc (suc zero))))) h = refl
hex_value-hex_char (suc (suc (suc (suc (suc (suc zero)))))) h = refl
hex_value-hex_char (suc (suc (suc (suc (suc (suc (suc zero))))))) h = refl
hex_value-hex_char (suc (suc (suc (suc (suc (suc (suc (suc zero)))))))) h = refl
hex_value-hex_char (suc (suc (suc (suc (suc (suc (suc (suc (suc zero))))))))) h = refl
hex_value-hex_char (suc (suc (suc (suc (suc (suc (suc (suc (suc (suc zero)))))))))) h = refl
hex_value-hex_char (suc (suc (suc (suc (suc (suc (suc (suc (suc (suc (suc zero))))))))))) h = refl
hex_value-hex_char (suc (suc (suc (suc (suc (suc (suc (suc (suc (suc (suc (suc zero)))))))))))) h =
    refl
hex_value-hex_char
      (suc (suc (suc (suc (suc (suc (suc (suc (suc (suc (suc (suc (suc zero))))))))))))) h =
    refl
hex_value-hex_char
      (suc (suc (suc (suc (suc (suc (suc (suc (suc (suc (suc (suc (suc (suc zero)))))))))))))) h =
    refl
hex_value-hex_char
      (suc (suc (suc (suc (suc (suc (suc (suc (suc (suc (suc (suc (suc (suc (suc zero)))))))))))))))
      h =
    refl
hex_value-hex_char
      (suc
        (suc (suc (suc (suc (suc (suc (suc (suc (suc (suc (suc (suc (suc (suc (suc i))))))))))))))))
      h =
    absurd (omega arith)

abbrev pub IsByte : ℕ → Type 0
IsByte b = b < 256

-- The print of a list of bytes has two characters for each byte and is read back as that list, so
-- different contents have different prints.
pub read_hex-lower_hex :
    (bytes : List ℕ)
    → All IsByte bytes
    → (length (lower_hex bytes) ≡ 2 * length bytes) × (read_hex (lower_hex bytes) ≡ some bytes)
unfolding lower_hex read_hex
read_hex-lower_hex [] h = (refl, refl)
read_hex-lower_hex (b ∷ bs) (hb, h) =
    let (l, e) = read_hex-lower_hex bs h in
    let q : b / 16 * 16 + b % 16 ≡ b = omega arith in
    (
      omega arith,
      rw (
        hex_value-hex_char (b / 16) (omega arith),
        hex_value-hex_char (b % 16) (omega arith),
        e,
        q,
      ),
    )
