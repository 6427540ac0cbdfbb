-- ===== src/Hook/Receipts/Lines.antt =====
-- One more line at the end of a text of lines.
use hive_memory.Text.Split.{split-piece, split-separator, IsPiece}
use hive_memory.Hook.Receipts.{ends_with_feed, separated}
use hive_memory.Base.{
  append_assoc, ==_iff, Bool-cases, ◌==◌, sym, ◌∙◌, false, Bool, is_empty, ℕ, ap, ◌≡◌, ◌≢◌, ◌⊎◌,
  inl, inr, refl, List, [], ◌∷◌, ◌++◌, arith, map,
}
use hive_memory.Text.{chomp, push_front, split, line_list, lines, Text}

abbrev feed : ℕ → Bool
feed c = c == 10

-- The text is empty, or ends with a line feed, or with another character than a carriage return.
abbrev pub EndsWell : Text → Type 0
EndsWell text =
    (text ≡ []) ⊎ ((front : Text) × (last : ℕ) × (text ≡ front ++ last ∷ []) × (last ≢ 13))

line_list-terminated : (ws : List Text) → line_list (ws ++ [] ∷ []) ≡ map chomp ws
line_list-terminated [] = refl
line_list-terminated (w ∷ []) = refl
line_list-terminated (w ∷ v ∷ ws) =
    ap (λ (l : List Text). chomp w ∷ l) (line_list-terminated (v ∷ ws))

-- The last piece is not empty and ends with no carriage return.
abbrev EndsKept : List Text → Type 0
EndsKept [] = ⊥
EndsKept (w ∷ []) = (is_empty w ≡ false) × (chomp w ≡ w)
EndsKept (w ∷ v ∷ ws) = EndsKept (v ∷ ws)

line_list-kept : (ws : List Text) → EndsKept ws → line_list ws ≡ map chomp ws
line_list-kept [] h = absurd h
line_list-kept ([] ∷ []) (e, k) = absurd (cc)
line_list-kept ((c ∷ w) ∷ []) (e, k) = ap (λ (v : Text). v ∷ []) (sym k)
line_list-kept (w ∷ v ∷ ws) h = ap (λ (l : List Text). chomp w ∷ l) (line_list-kept (v ∷ ws) h)

push_front-EndsKept : (d : ℕ) (ws : List Text) → EndsKept ws → EndsKept (push_front d ws)
push_front-EndsKept d [] h = absurd h
push_front-EndsKept d ([] ∷ []) (e, k) = absurd (cc)
push_front-EndsKept d ((c ∷ w) ∷ []) (e, k) = (refl, ap (λ (v : Text). d ∷ v) k)
push_front-EndsKept d (w ∷ v ∷ ws) h = h

cons-EndsKept : (w : Text) (ws : List Text) → EndsKept ws → EndsKept (w ∷ ws)
cons-EndsKept w [] h = absurd h
cons-EndsKept w (v ∷ ws) h = h

split-EndsKept :
    (front : Text) (last : ℕ)
    → feed last ≡ false
    → last ≢ 13
    → EndsKept (split feed (front ++ last ∷ []))
unfolding split
split-EndsKept [] last f n = rw f (refl, ground arith)
split-EndsKept (d ∷ front) last f n = elim (Bool-cases (feed d)) [
  | inl t ↦
      rw t (cons-EndsKept [] (split feed (front ++ last ∷ [])) (split-EndsKept front last f n))
  | inr g ↦
      rw g (push_front-EndsKept d (split feed (front ++ last ∷ [])) (split-EndsKept front last f n))
]

map-append : (f : Text → Text) (xs ys : List Text) → map f (xs ++ ys) ≡ map f xs ++ map f ys
map-append f [] ys = refl
map-append f (x ∷ xs) ys = ap (λ (l : List Text). f x ∷ l) (map-append f xs ys)

-- A line that is read as it was written.
abbrev pub IsLine : Text → Type 0
IsLine line = IsPiece feed line × (chomp line ≡ line)

split_line : (line : Text) → IsPiece feed line → split feed (line ++ 10 ∷ []) ≡ line ∷ [] ∷ []
unfolding split
split_line line p =
    split-separator feed line [] 10 refl
    ∙ ap (λ (l : List Text). l ++ [] ∷ []) (split-piece feed line p)

after_feed :
    (front line : Text)
    → IsLine line
    → lines (front ++ (10 ∷ (line ++ 10 ∷ []))) ≡ map chomp (split feed front) ++ line ∷ []
unfolding lines
after_feed front line (p, k) =
    let whole : split feed (front ++ (10 ∷ (line ++ 10 ∷ [])))
        ≡ (split feed front ++ line ∷ []) ++ [] ∷ [] =
      split-separator feed front (line ++ 10 ∷ []) 10 refl
      ∙ ap (λ (l : List Text). split feed front ++ l) (split_line line p)
      ∙ sym (append_assoc (split feed front) (line ∷ []) ([] ∷ [])) in
    ap line_list whole
    ∙ line_list-terminated (split feed front ++ line ∷ [])
    ∙ map-append chomp (split feed front) (line ∷ [])
    ∙ ap (λ (v : Text). map chomp (split feed front) ++ v ∷ []) k

ends_with_feed-append :
    (front : Text) (last : ℕ) → ends_with_feed (front ++ last ∷ []) ≡ (last == 10)
ends_with_feed-append [] last = refl
ends_with_feed-append (c ∷ []) last = refl
ends_with_feed-append (c ∷ d ∷ front) last = ends_with_feed-append (d ∷ front) last

is_empty-append : (front : Text) (last : ℕ) → is_empty (front ++ last ∷ []) ≡ false
is_empty-append [] last = refl
is_empty-append (c ∷ front) last = refl

lines-terminated : (front : Text) → lines (front ++ 10 ∷ []) ≡ map chomp (split feed front)
unfolding lines split
lines-terminated front =
    ap line_list (split-separator feed front [] 10 refl) ∙ line_list-terminated (split feed front)

lines-kept :
    (front : Text) (last : ℕ)
    → feed last ≡ false
    → last ≢ 13
    → lines (front ++ last ∷ []) ≡ map chomp (split feed (front ++ last ∷ []))
unfolding lines
lines-kept front last f n =
    line_list-kept (split feed (front ++ last ∷ [])) (split-EndsKept front last f n)

separated-append :
    (front line : Text) (last : ℕ)
    → last ≢ 13
    → IsLine line
    → lines (separated (front ++ last ∷ []) ++ (line ++ 10 ∷ []))
      ≡ lines (front ++ last ∷ []) ++ line ∷ []
unfolding separated
separated-append front line last n l = elim (Bool-cases (last == 10)) [
  | inl t ↦
      let e : last ≡ 10 = (==_iff last 10).0 t in
      rw (is_empty-append front last, ends_with_feed-append front last, t, e)
        (ap lines (append_assoc front (10 ∷ []) (line ++ 10 ∷ []))
          ∙ after_feed front line l
          ∙ ap (λ (ls : List Text). ls ++ line ∷ []) (sym (lines-terminated front)))
  | inr f ↦
      rw (is_empty-append front last, ends_with_feed-append front last, f)
        (ap lines (append_assoc (front ++ last ∷ []) (10 ∷ []) (line ++ 10 ∷ []))
          ∙ after_feed (front ++ last ∷ []) line l
          ∙ ap (λ (ls : List Text). ls ++ line ∷ []) (sym (lines-kept front last f n)))
]

pub lines-separated :
    (text line : Text)
    → EndsWell text
    → IsLine line
    → lines (separated text ++ (line ++ 10 ∷ [])) ≡ lines text ++ line ∷ []
unfolding separated lines split
lines-separated text line (inl e) (p, k) = rw (e, split_line line p, k) refl
lines-separated text line (inr (front, last, e, n)) l = rw e (separated-append front line last n l)
