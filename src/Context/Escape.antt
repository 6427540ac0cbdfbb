-- ===== src/Context/Escape.antt =====
-- The escaping of bodies, attributes and header values.
pub mod Boundary
use hive_memory.Base.{ℕ, Bool, ◌||◌, [], ◌∷◌, ◌++◌, map, ◌==◌, if◌then◌else◌}
use hive_memory.Text.{Text, codes, starts_with, lines, join, trim, trim_leading}

-- The lines that could pass for front matter, a diff marker, or the boundary of a memory.
unfoldable pub is_marker : Text → Bool
is_marker trimmed =
    starts_with trimmed (codes "---")
    || starts_with trimmed (codes "+++")
    || starts_with trimmed (codes "<memory")
    || starts_with trimmed (codes "</memory")

unfoldable pub escape_line : Text → Text
escape_line line = if is_marker (trim_leading line) then b'\\' ∷ line else line

unfoldable pub escape_memory_body : Text → Text
escape_memory_body body = join (codes "\n") (map escape_line (lines body))

abbrev pub attr_char : ℕ → Text
attr_char ch =
    if ch == b'&'
    then codes "&amp;"
    else if ch == b'"'
    then codes "&quot;"
    else if ch == b'<'
    then codes "&lt;"
    else if ch == b'>'
    then codes "&gt;"
    else ch ∷ []

unfoldable pub escape_attr : Text → Text
escape_attr [] = []
escape_attr (ch ∷ value) = attr_char ch ++ escape_attr value

abbrev pub header_char : ℕ → ℕ
header_char ch = if ch == 13 || ch == 10 || ch == 9 then 32 else ch

unfoldable pub sanitize_header_value : Text → Text
sanitize_header_value value = trim (map header_char value)
