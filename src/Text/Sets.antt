-- ===== src/Text/Sets.antt =====
-- `BTreeSet<String>`: the elements in the order of texts, each once. `insert` also answers whether
-- the element is new.
use hive_memory.Base.{
  ◌≡◌, refl, sym, ◌↔◌, ◌⊎◌, inl, inr, Bool, true, List, [], ◌∷◌, if◌then◌else◌, Bool-cases, any, In,
}
use hive_memory.Text.Defs.{Text, same, text_le}
use hive_memory.Text.Equality.{same→eq, any-same_iff}

unfoldable pub member : Text → List Text → Bool
member s xs = any (λ x. same x s) xs

unfoldable pub insert : Text → List Text → List Text
insert s [] = s ∷ []
insert s (x ∷ xs) =
    let rest = insert s xs in
    if same x s then x ∷ xs else if text_le s x then s ∷ x ∷ xs else x ∷ rest

-- `collect` into a set that holds elements.
unfoldable pub insert_all : List Text → List Text → List Text
insert_all [] set = set
insert_all (x ∷ xs) set = insert_all xs (insert x set)

pub member_iff : (s : Text) (xs : List Text) → (member s xs ≡ true) ↔ In s xs
unfolding member
member_iff s xs = any-same_iff s xs

pub In-insert_self : (s : Text) (xs : List Text) → In s (insert s xs)
unfolding insert
In-insert_self s [] = inl refl
In-insert_self s (x ∷ xs) = elim (Bool-cases (same x s)) [
  | inl t ↦ rw t (inl (sym (same→eq x s t)))
  | inr f ↦ elim (Bool-cases (text_le s x)) [
    | inl l ↦ rw (f, l) (inl refl)
    | inr g ↦ rw (f, g) (inr (In-insert_self s xs))
  ]
]

pub In-insert_old : (a s : Text) (xs : List Text) → In a xs → In a (insert s xs)
unfolding insert
In-insert_old a s [] i = absurd i
In-insert_old a s (x ∷ xs) i = elim (Bool-cases (same x s)) [
  | inl t ↦ rw t i
  | inr f ↦ elim (Bool-cases (text_le s x)) [
    | inl l ↦ rw (f, l) (inr i)
    | inr g ↦ elim i [
      | inl e ↦ rw (f, g) (inl e)
      | inr j ↦ rw (f, g) (inr (In-insert_old a s xs j))
    ]
  ]
]

pub In-insert_inv : (a s : Text) (xs : List Text) → In a (insert s xs) → (a ≡ s) ⊎ In a xs
unfolding insert
In-insert_inv a s [] (inl e) = inl e
In-insert_inv a s [] (inr i) = absurd i
In-insert_inv a s (x ∷ xs) i = elim (Bool-cases (same x s)) [
  | inl t ↦ inr (rw t at i)
  | inr f ↦ elim (Bool-cases (text_le s x)) [
    | inl l ↦ elim (rw (f, l) at i) [ inl e ↦ inl e | inr j ↦ inr j ]
    | inr g ↦ elim (rw (f, g) at i) [
      | inl e ↦ inr (inl e)
      | inr j ↦ elim (In-insert_inv a s xs j) [ inl e ↦ inl e | inr k ↦ inr (inr k) ]
    ]
  ]
]
