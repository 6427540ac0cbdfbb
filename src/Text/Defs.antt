-- ===== src/Text/Defs.antt =====
-- The operations of `str` that the source calls. Each is named after the standard library's.
use Prim.Native.Char.{code}
use hive_memory.Base.{
  ℕ, ◌+◌, ◌-◌, String, Bool, true, false, ◌&&◌, ◌||◌, not, Option, none, some, List, [], ◌∷◌, ◌++◌,
  map, ltb, leb, ◌==◌, if◌then◌else◌, any, all, filter, is_empty,
}

abbrev pub Text : Type 0
Text = List ℕ

-- The code points of a literal.
abbrev pub codes : String → Text
codes String.[] = []
codes (String.◌∷◌ c s) = code c ∷ codes s

-- `==` on `str`.
unfoldable pub same : Text → Text → Bool
same [] [] = true
same [] (d ∷ t) = false
same (c ∷ s) [] = false
same (c ∷ s) (d ∷ t) = c == d && same s t

-- `==` on `Option<&str>`.
abbrev pub same_option : Option Text → Option Text → Bool
same_option none none = true
same_option (some s) (some t) = same s t
same_option _ _ = false

-- The order of `str`: that of the bytes, which for UTF-8 is that of the code points.
unfoldable pub text_le : Text → Text → Bool
text_le [] t = true
text_le (c ∷ s) [] = false
text_le (c ∷ s) (d ∷ t) = ltb c d || c == d && text_le s t

-- `len()`: the number of bytes in UTF-8.
abbrev pub char_len : ℕ → ℕ
char_len c = if ltb c 0x80 then 1 else if ltb c 0x800 then 2 else if ltb c 0x10000 then 3 else 4

unfoldable pub byte_len : Text → ℕ
byte_len [] = 0
byte_len (c ∷ s) = char_len c + byte_len s

unfoldable pub starts_with : Text → Text → Bool
starts_with s [] = true
starts_with [] (d ∷ t) = false
starts_with (c ∷ s) (d ∷ t) = c == d && starts_with s t

unfoldable pub contains : Text → Text → Bool
contains [] t = is_empty t
contains (c ∷ s) t = starts_with (c ∷ s) t || contains s t

-- Whether any of the needles occurs.
abbrev pub contains_any : Text → List Text → Bool
contains_any s needles = any (contains s) needles

-- `split` with a predicate: the pieces between the separators, at least one piece.
abbrev pub push_front : ℕ → List Text → List Text
push_front c [] = (c ∷ []) ∷ []
push_front c (w ∷ ws) = (c ∷ w) ∷ ws

unfoldable pub split : (ℕ → Bool) → Text → List Text
split p [] = [] ∷ []
split p (c ∷ s) = let rest = split p s in if p c then [] ∷ rest else push_front c rest

-- `split(p).filter(|token| !token.is_empty())`.
unfoldable pub words : (ℕ → Bool) → Text → List Text
unfolding split
words p s = filter (λ w. not (is_empty w)) (split p s)

-- `split_once` with a character.
unfoldable pub split_once : ℕ → Text → Option (Text × Text)
split_once d [] = none
split_once d (c ∷ s) =
    if c == d
    then some ([], s)
    else elim (split_once d s) [ none ↦ none | some (k, v) ↦ some (c ∷ k, v) ]

-- `trim_start_matches`, `trim_end_matches` and `trim_matches` with a predicate.
unfoldable pub trim_start : (ℕ → Bool) → Text → Text
trim_start p [] = []
trim_start p (c ∷ s) = let rest = trim_start p s in if p c then rest else c ∷ s

unfoldable pub trim_end : (ℕ → Bool) → Text → Text
trim_end p [] = []
trim_end p (c ∷ s) = let rest = trim_end p s in if is_empty rest && p c then [] else c ∷ rest

unfoldable pub trim_matches : (ℕ → Bool) → Text → Text
unfolding trim_start trim_end
trim_matches p s = trim_end p (trim_start p s)

-- `char::is_whitespace`: the characters with the Unicode property White_Space.
unfoldable pub is_whitespace : ℕ → Bool
is_whitespace c =
    (leb 9 c && leb c 13)
    || c == 0x20
    || c == 0x85
    || c == 0xA0
    || c == 0x1680
    || (leb 0x2000 c && leb c 0x200A)
    || c == 0x2028
    || c == 0x2029
    || c == 0x202F
    || c == 0x205F
    || c == 0x3000

unfoldable pub trim : Text → Text
unfolding trim_matches is_whitespace
trim s = trim_matches is_whitespace s

unfoldable pub split_whitespace : Text → List Text
unfolding words is_whitespace
split_whitespace s = words is_whitespace s

-- `lines()`: the pieces between line feeds, each without one carriage return at its end; what
-- follows the last line feed is a line only if it is not empty.
abbrev pub chomp : Text → Text
chomp [] = []
chomp (c ∷ []) = if c == 13 then [] else c ∷ []
chomp (c ∷ d ∷ s) = c ∷ chomp (d ∷ s)

abbrev pub line_list : List Text → List Text
line_list [] = []
line_list (w ∷ []) = if is_empty w then [] else w ∷ []
line_list (w ∷ v ∷ ws) = chomp w ∷ line_list (v ∷ ws)

unfoldable pub lines : Text → List Text
unfolding split
lines s = line_list (split (λ c. c == 10) s)

abbrev pub is_ascii_upper : ℕ → Bool
is_ascii_upper c = leb b'A' c && leb c b'Z'

abbrev pub is_ascii_lower : ℕ → Bool
is_ascii_lower c = leb b'a' c && leb c b'z'

abbrev pub is_ascii_digit : ℕ → Bool
is_ascii_digit c = leb b'0' c && leb c b'9'

abbrev pub is_ascii_alphanumeric : ℕ → Bool
is_ascii_alphanumeric c = is_ascii_upper c || is_ascii_lower c || is_ascii_digit c

abbrev pub lower_char : ℕ → ℕ
lower_char c = if is_ascii_upper c then c + 32 else c

abbrev pub upper_char : ℕ → ℕ
upper_char c = if is_ascii_lower c then c - 32 else c

unfoldable pub to_ascii_lowercase : Text → Text
to_ascii_lowercase s = map lower_char s

unfoldable pub to_ascii_uppercase : Text → Text
to_ascii_uppercase s = map upper_char s

unfoldable pub is_ascii : Text → Bool
is_ascii s = all (λ c. ltb c 0x80) s

-- `find` with a character, as the rest of the text from there on.
unfoldable pub find_from : ℕ → Text → Option Text
find_from d [] = none
find_from d (c ∷ s) = if c == d then some (c ∷ s) else find_from d s

-- `join` of a slice of strings.
unfoldable pub join : Text → List Text → Text
join sep [] = []
join sep (w ∷ []) = w
join sep (w ∷ v ∷ ws) = w ++ (sep ++ join sep (v ∷ ws))

-- `trim_start()`.
unfoldable pub trim_leading : Text → Text
unfolding trim_start is_whitespace
trim_leading s = trim_start is_whitespace s

-- A byte offset that lies between two characters parts a text.
unfoldable pub split_at : Text → ℕ → Option (Text × Text)
split_at [] n = if n == 0 then some ([], []) else none
split_at (c ∷ s) n =
    let rest = split_at s (n - char_len c) in
    if n == 0
    then some ([], c ∷ s)
    else if ltb n (char_len c)
    then none
    else elim rest [ none ↦ none | some (l, r) ↦ some (c ∷ l, r) ]
