-- ===== src/Context/Escape/Boundary.antt =====
-- No line of an escaped body can pass for the boundary of a memory.
use hive_memory.Text.Split.{split-IsPiece, split-separator, split-piece, IsPiece}
use hive_memory.Context.Escape.{escape_memory_body, is_marker, escape_line}
use hive_memory.Base.{
  map, inr, false, ◌==◌, inl, Bool-cases, ◌≢◌, Bool, ℕ, ◌≡◌, refl, List, [], ◌∷◌, arith, All,
}
use hive_memory.Text.{
  chomp, line_list, lines, starts_with, is_whitespace, trim_start, split, trim_leading, join, Text,
  codes,
}

abbrev line_feed : ℕ → Bool
line_feed c = c == 10

-- A line that no reader takes for front matter, a diff marker, or the boundary of a memory.
abbrev pub Harmless : Text → Type 0
Harmless line = is_marker (trim_leading line) ≡ false

split-join :
    (ws : List Text)
    → All (IsPiece line_feed) ws
    → ws ≢ []
    → split line_feed (join (codes "\n") ws) ≡ ws
unfolding join
split-join [] h n = absurd (n refl)
split-join (w ∷ []) (p, h) n = split-piece line_feed w p
split-join (w ∷ v ∷ ws) (p, h) n =
    rw
      (
        split-separator line_feed w (join (codes "\n") (v ∷ ws)) 10 refl,
        split-piece line_feed w p,
        split-join (v ∷ ws) h (λ e. cc),
      )
      refl

chomp-IsPiece : (w : Text) → IsPiece line_feed w → IsPiece line_feed (chomp w)
chomp-IsPiece [] h = h
chomp-IsPiece (c ∷ []) h = ground (arith, h)
chomp-IsPiece (c ∷ d ∷ s) (p, h) = (p, chomp-IsPiece (d ∷ s) h)

line_list-IsPiece :
    (ws : List Text) → All (IsPiece line_feed) ws → All (IsPiece line_feed) (line_list ws)
line_list-IsPiece [] h = tt
line_list-IsPiece ([] ∷ []) (p, h) = tt
line_list-IsPiece ((c ∷ w) ∷ []) (p, h) = (p, tt)
line_list-IsPiece (w ∷ v ∷ ws) (p, h) = (chomp-IsPiece w p, line_list-IsPiece (v ∷ ws) h)

escape_line-IsPiece : (w : Text) → IsPiece line_feed w → IsPiece line_feed (escape_line w)
unfolding escape_line
escape_line-IsPiece w h = elim (Bool-cases (is_marker (trim_leading w))) [
  | inl t ↦ rw t (refl, h)
  | inr f ↦ rw f h
]

escape_line-Harmless : (w : Text) → Harmless (escape_line w)
unfolding escape_line is_marker trim_leading trim_start is_whitespace starts_with
escape_line-Harmless w = elim (Bool-cases (is_marker (trim_leading w))) [
  | inl t ↦ rw t refl
  | inr f ↦ rw f f
]

empty-Harmless : Harmless []
unfolding is_marker trim_leading trim_start starts_with
empty-Harmless = refl

All-escape_line :
    (ws : List Text)
    → All (IsPiece line_feed) ws
    → All (IsPiece line_feed) (map escape_line ws) × All Harmless (map escape_line ws)
All-escape_line [] h = (tt, tt)
All-escape_line (w ∷ ws) (p, h) =
    let (a, b) = All-escape_line ws h in ((escape_line-IsPiece w p, a), (escape_line-Harmless w, b))

-- However the body of a memory is written, none of the lines of its escaped form passes for front
-- matter, for a diff marker, or for the beginning or the end of a memory block, indented or not.
pub escape_memory_body-Harmless :
    (body : Text) → All Harmless (split (λ c. c == 10) (escape_memory_body body))
unfolding escape_memory_body lines join split
escape_memory_body-Harmless body =
    let pieces = line_list-IsPiece (split line_feed body) (split-IsPiece line_feed body) in
    let (a, b) = All-escape_line (lines body) pieces in joined (map escape_line (lines body)) a b
  where
    joined :
        (ws : List Text)
        → All (IsPiece line_feed) ws
        → All Harmless ws
        → All Harmless (split line_feed (join (codes "\n") ws))
    joined [] a b = (empty-Harmless, tt)
    joined (w ∷ ws) a b = rw (split-join (w ∷ ws) a (λ e. cc)) b
