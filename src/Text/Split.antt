-- ===== src/Text/Split.antt =====
-- The pieces of a split and the parts between separators.
use hive_memory.Base.{
  ℕ, ◌≡◌, ◌≢◌, ◌↔◌, ◌∙◌, sym, refl, ap, ◌⊎◌, inl, inr, Bool, true, false, not, List, [], ◌∷◌, ◌++◌,
  append_assoc, append-nil, Bool-cases, arith, is_empty, In, All, In-append_right, In-filter,
  In-filter_inv, All-In,
}
use hive_memory.Text.Defs.{Text, split, words, push_front}

abbrev pub IsPiece : (ℕ → Bool) → Text → Type 0
IsPiece p = All (λ c. p c ≡ false)

-- A text that ends with a separator, or is empty; and one that begins with a separator.
abbrev pub Closes : (ℕ → Bool) → Text → Type 0
Closes p u = (u ≡ []) ⊎ ((u' : Text) × (c : ℕ) × (u ≡ u' ++ c ∷ []) × (p c ≡ true))

abbrev pub Opens : (ℕ → Bool) → Text → Type 0
Opens p v = (v ≡ []) ⊎ ((c : ℕ) × (v' : Text) × (v ≡ c ∷ v') × (p c ≡ true))

module _ (p : ℕ → Bool) where
  split-ne-nil : (s : Text) → (split p s ≡ []) → ⊥
  unfolding split
  split-ne-nil [] h = cc
  split-ne-nil (c ∷ s) h = push (split p s) (ground arith)
    where
      push : (l : List Text) → push_front c l ≡ [] → ⊥
      push [] e = cc
      push (w ∷ ws) e = cc

  push_front-append :
      (c : ℕ) (l m : List Text) → (l ≡ [] → ⊥) → push_front c (l ++ m) ≡ push_front c l ++ m
  push_front-append c [] m h = absurd (h refl)
  push_front-append c (w ∷ ws) m h = refl

  pub split-separator :
      (u v : Text) (d : ℕ) → p d ≡ true → split p (u ++ d ∷ v) ≡ split p u ++ split p v
  unfolding split
  split-separator [] v d h = rw h
  split-separator (c ∷ u) v d h = elim (Bool-cases (p c)) [
    | inl t ↦ rw (t, split-separator u v d h)
    | inr f ↦ rw (f, split-separator u v d h) (push_front-append c _ _ (split-ne-nil u))
  ]

  pub split-piece : (w : Text) → IsPiece p w → split p w ≡ w ∷ []
  unfolding split
  split-piece [] h = refl
  split-piece (c ∷ w) (hc, h) = rw (hc, split-piece w h)

  All-push_front :
      (c : ℕ) (l : List Text) → p c ≡ false → All (IsPiece p) l → All (IsPiece p) (push_front c l)
  All-push_front c [] h k = ((h, tt), tt)
  All-push_front c (w ∷ ws) h (hw, hws) = ((h, hw), hws)

  pub split-IsPiece : (s : Text) → All (IsPiece p) (split p s)
  unfolding split
  split-IsPiece [] = (tt, tt)
  split-IsPiece (c ∷ s) = elim (Bool-cases (p c)) [
    | inl t ↦ rw t (tt, split-IsPiece s)
    | inr f ↦ rw f (All-push_front c (split p s) f (split-IsPiece s))
  ]

  -- A piece that is not empty is a word.
  words_from_split : (w s : Text) → (w ≡ [] → ⊥) → In w (split p s) → In w (words p s)
  unfolding words
  words_from_split [] s h i = absurd (h refl)
  words_from_split (c ∷ w) s h i = In-filter (λ x. not (is_empty x)) (c ∷ w) (split p s) i refl

  -- No word is empty or holds a separator.
  pub words_sound : (w s : Text) → In w (words p s) → (w ≢ []) × IsPiece p w
  unfolding words
  words_sound w s i =
      let (j, e) = In-filter_inv (λ x. not (is_empty x)) w (split p s) i in
      (λ q. cc (ap is_empty q), All-In (IsPiece p) w (split p s) (split-IsPiece s) j)

  split_before : (w v : Text) → IsPiece p w → Opens p v → In w (split p (w ++ v))
  split_before w v h (inl e) = rw (e, append-nil, split-piece w h) (inl refl)
  split_before w v h (inr (c, v', e, t)) =
      rw (e, split-separator w v' c t, split-piece w h) (inl refl)

  split_between :
      (u w v : Text) → Closes p u → IsPiece p w → Opens p v → In w (split p (u ++ (w ++ v)))
  split_between u w v (inl e) h o = rw e (split_before w v h o)
  split_between u w v (inr (u', c, e, t)) h o =
      rw (e, append_assoc, split-separator u' (w ++ v) c t)
        (In-append_right w (split p u') (split p (w ++ v)) (split_before w v h o))

  -- A part without separators that stands between separators, or at the ends, is a word.
  pub words_complete :
      (u w v : Text)
      → w ≢ []
      → IsPiece p w
      → Closes p u
      → Opens p v
      → In w (words p (u ++ (w ++ v)))
  words_complete u w v n h c o = words_from_split w _ n (split_between u w v c h o)

-- Where the pieces of a split stand in the text.
module _ (p : ℕ → Bool) where
  abbrev FirstPiece : Text → Text → Type 0
  FirstPiece w s = (v : Text) × (s ≡ w ++ v) × Opens p v

  abbrev LaterPiece : Text → Text → Type 0
  LaterPiece w s =
      (u : Text) × (c : ℕ) × (v : Text) × (s ≡ u ++ (c ∷ (w ++ v))) × (p c ≡ true) × Opens p v

  -- What a split says of its pieces.
  abbrev Places : List Text → Text → Type 0
  Places [] s = ⊥
  Places (w ∷ ws) s = FirstPiece w s × All (λ x. LaterPiece x s) ws

  later_cons :
      (c : ℕ) (s : Text) (ws : List Text)
      → All (λ x. LaterPiece x s) ws
      → All (λ x. LaterPiece x (c ∷ s)) ws
  later_cons c s [] h = tt
  later_cons c s (x ∷ ws) ((u, d, v, e, t, o), h) =
      ((c ∷ u, d, v, ap (λ (r : Text). c ∷ r) e, t, o), later_cons c s ws h)

  split-Places : (s : Text) → Places (split p s) s
  unfolding split
  split-Places [] = (([], refl, inl refl), tt)
  split-Places (c ∷ s) = elim (Bool-cases (p c)) [
    | inl t ↦ rw t ((c ∷ s, refl, inr (c, s, refl, t)), separated t (split p s) (split-Places s))
    | inr f ↦ rw f (joined (split p s) (split-Places s))
  ]
    where
      separated : p c ≡ true → (l : List Text) → Places l s → All (λ x. LaterPiece x (c ∷ s)) l
      separated t [] h = absurd h
      separated t (w ∷ ws) ((v, e, o), h) =
          (([], c, v, ap (λ (r : Text). c ∷ r) e, t, o), later_cons c s ws h)

      joined : (l : List Text) → Places l s → Places (push_front c l) (c ∷ s)
      joined [] h = absurd h
      joined (w ∷ ws) ((v, e, o), h) = ((v, ap (λ (r : Text). c ∷ r) e, o), later_cons c s ws h)

  -- A piece of the text between separators, or at its ends.
  abbrev pub Delimited : Text → Text → Type 0
  Delimited w s = (u : Text) × (v : Text) × (s ≡ u ++ (w ++ v)) × Closes p u × Opens p v

  placed : (w s : Text) (l : List Text) → Places l s → In w l → Delimited w s
  placed w s [] h i = absurd h
  placed w s (x ∷ xs) ((v, e, o), h) (inl q) =
      ([], v, e ∙ ap (λ (r : Text). r ++ v) (sym q), inl refl, o)
  placed w s (x ∷ xs) (f, h) (inr i) =
      let (u, c, v, e, t, o) = All-In (λ y. LaterPiece y s) w xs h i in
      (u ++ c ∷ [], v, e ∙ sym (append_assoc u (c ∷ []) (w ++ v)), inr (u, c, refl, t), o)

  -- The words of a text are the parts without separators, not empty, that separators delimit.
  pub words_iff : (w s : Text) → In w (words p s) ↔ ((w ≢ []) × IsPiece p w × Delimited w s)
  words_iff w s = (
    λ i.
        let (n, q) = words_sound p w s i in
        (n, q, placed w s (split p s) (split-Places s) (word-In i)),
    λ (n, q, (u, v, e, c, o)). rw e (words_complete p u w v n q c o),
  )
    where
      word-In : In w (words p s) → In w (split p s)
      word-In i = (In-filter_inv (λ x. not (is_empty x)) w (split p s) (unfold words in i)).0
