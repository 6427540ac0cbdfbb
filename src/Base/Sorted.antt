-- ===== src/Base/Sorted.antt =====
-- `sort` and `dedup` of a vector, over an order with its laws.
use hive_memory.Base.Tests.{if◌then◌else◌, Bool-cases}
use hive_memory.Base.Members.{In, All, All-In}
use mathlib.Core.Path.{◌≡◌, ◌∙◌, refl, subst, sym}
use mathlib.Core.Logic.{◌≢◌, ◌⊎◌, inl, inr}
use mathlib.Core.Bool.{Bool, true, false}
use mathlib.Core.List.{List, [], ◌∷◌}

-- A type with `Ord` and `Eq`.
pub record Order (A : Type 0) : Type 0 where
  pub le : A → A → Bool
  pub same : A → A → Bool
  pub le_total : (a b : A) → (le a b ≡ true) ⊎ (le b a ≡ true)
  pub le_trans : (a b c : A) → le a b ≡ true → le b c ≡ true → le a c ≡ true
  pub le_antisym : (a b : A) → le a b ≡ true → le b a ≡ true → a ≡ b
  pub same→eq : (a b : A) → same a b ≡ true → a ≡ b
  pub eq→same : (a b : A) → a ≡ b → same a b ≡ true

module _ {A : Type 0} (o : Order A) where
  abbrev pub insert_sorted : A → List A → List A
  insert_sorted x [] = x ∷ []
  insert_sorted x (y ∷ ys) =
      let rest = insert_sorted x ys in if o.le x y then x ∷ y ∷ ys else y ∷ rest

  unfoldable pub sort : List A → List A
  sort [] = []
  sort (x ∷ xs) = insert_sorted x (sort xs)

  unfoldable pub dedup : List A → List A
  dedup [] = []
  dedup (x ∷ []) = x ∷ []
  dedup (x ∷ y ∷ ys) = let rest = dedup (y ∷ ys) in if o.same x y then rest else x ∷ rest

  abbrev pub Ascends : List A → Type 0
  Ascends [] = Unit
  Ascends (x ∷ xs) = All (λ y. o.le x y ≡ true) xs × Ascends xs

  -- In order, and no element twice.
  abbrev pub IsSorted : List A → Type 0
  IsSorted [] = Unit
  IsSorted (x ∷ xs) = All (λ y. (o.le x y ≡ true) × (x ≢ y)) xs × IsSorted xs

  In-insert_sorted : (a x : A) (xs : List A) → (a ≡ x) ⊎ In a xs → In a (insert_sorted x xs)
  In-insert_sorted a x [] h = h
  In-insert_sorted a x (y ∷ ys) h = elim (Bool-cases (o.le x y)) [
    | inl t ↦ rw t h
    | inr f ↦ rw f (elim h [
      | inl e ↦ inr (In-insert_sorted a x ys (inl e))
      | inr i ↦ elim i [ inl e ↦ inl e | inr j ↦ inr (In-insert_sorted a x ys (inr j)) ]
    ])
  ]

  In-insert_sorted_inv : (a x : A) (xs : List A) → In a (insert_sorted x xs) → (a ≡ x) ⊎ In a xs
  In-insert_sorted_inv a x [] h = h
  In-insert_sorted_inv a x (y ∷ ys) h = elim (Bool-cases (o.le x y)) [
    | inl t ↦ rw t at h
    | inr f ↦ elim (rw f at h) [
      | inl e ↦ inr (inl e)
      | inr i ↦ elim (In-insert_sorted_inv a x ys i) [ inl e ↦ inl e | inr j ↦ inr (inr j) ]
    ]
  ]

  In-sort : (a : A) (xs : List A) → In a xs → In a (sort xs)
  unfolding sort
  In-sort a [] h = h
  In-sort a (x ∷ xs) (inl e) = In-insert_sorted a x (sort xs) (inl e)
  In-sort a (x ∷ xs) (inr i) = In-insert_sorted a x (sort xs) (inr (In-sort a xs i))

  In-sort_inv : (a : A) (xs : List A) → In a (sort xs) → In a xs
  unfolding sort
  In-sort_inv a [] h = h
  In-sort_inv a (x ∷ xs) h = elim (In-insert_sorted_inv a x (sort xs) h) [
    | inl e ↦ inl e
    | inr i ↦ inr (In-sort_inv a xs i)
  ]

  In-dedup : (a : A) (xs : List A) → In a xs → In a (dedup xs)
  unfolding dedup
  In-dedup a [] h = h
  In-dedup a (x ∷ []) h = h
  In-dedup a (x ∷ y ∷ ys) h = elim (Bool-cases (o.same x y)) [
    | inl t ↦ rw t (elim h [
      | inl e ↦ In-dedup a (y ∷ ys) (inl (subst (λ (z : A). a ≡ z) (o.same→eq x y t) e))
      | inr i ↦ In-dedup a (y ∷ ys) i
    ])
    | inr f ↦ rw f (elim h [ inl e ↦ inl e | inr i ↦ inr (In-dedup a (y ∷ ys) i) ])
  ]

  In-dedup_inv : (a : A) (xs : List A) → In a (dedup xs) → In a xs
  unfolding dedup
  In-dedup_inv a [] h = h
  In-dedup_inv a (x ∷ []) h = h
  In-dedup_inv a (x ∷ y ∷ ys) h = elim (Bool-cases (o.same x y)) [
    | inl t ↦ inr (In-dedup_inv a (y ∷ ys) (rw t at h))
    | inr f ↦ elim (rw f at h) [ inl e ↦ inl e | inr i ↦ inr (In-dedup_inv a (y ∷ ys) i) ]
  ]

  All-of_In : (P : A → Type 0) (xs : List A) → ((a : A) → In a xs → P a) → All P xs
  All-of_In P [] h = tt
  All-of_In P (x ∷ xs) h = (h x (inl refl), All-of_In P xs (λ a i. h a (inr i)))

  insert_sorted-Ascends : (x : A) (xs : List A) → Ascends xs → Ascends (insert_sorted x xs)
  insert_sorted-Ascends x [] h = (tt, tt)
  insert_sorted-Ascends x (y ∷ ys) (l, h) = elim (Bool-cases (o.le x y)) [
    | inl t ↦ rw t (
      (
        t,
        All-of_In (λ z. o.le x z ≡ true) ys
            (λ z i. o.le_trans x y z t (All-In (λ w. o.le y w ≡ true) z ys l i)),
      ),
      (l, h),
    )
    | inr f ↦ rw f (
      All-of_In (λ z. o.le y z ≡ true) (insert_sorted x ys)
          (λ z i. elim (In-insert_sorted_inv z x ys i) [
            | inl e ↦ subst (λ (w : A). o.le y w ≡ true) (sym e) (flipped x y f)
            | inr j ↦ All-In (λ w. o.le y w ≡ true) z ys l j
          ]),
      insert_sorted-Ascends x ys h,
    )
  ]
    where
      flipped : (a b : A) → o.le a b ≡ false → o.le b a ≡ true
      flipped a b f = elim (o.le_total a b) [ inl t ↦ absurd (cc (t, f)) | inr t ↦ t ]

  sort-Ascends : (xs : List A) → Ascends (sort xs)
  unfolding sort
  sort-Ascends [] = tt
  sort-Ascends (x ∷ xs) = insert_sorted-Ascends x (sort xs) (sort-Ascends xs)

  dedup-IsSorted : (xs : List A) → Ascends xs → IsSorted (dedup xs)
  unfolding dedup
  dedup-IsSorted [] h = tt
  dedup-IsSorted (x ∷ []) h = (tt, tt)
  dedup-IsSorted (x ∷ y ∷ ys) ((p, l), (q, h)) = elim (Bool-cases (o.same x y)) [
    | inl t ↦ rw t (dedup-IsSorted (y ∷ ys) (q, h))
    | inr f ↦ rw f (
      All-of_In (λ z. (o.le x z ≡ true) × (x ≢ z)) (dedup (y ∷ ys))
          (λ z i. above f z (In-dedup_inv z (y ∷ ys) i)),
      dedup-IsSorted (y ∷ ys) (q, h),
    )
  ]
    where
      above : o.same x y ≡ false → (z : A) → In z (y ∷ ys) → (o.le x z ≡ true) × (x ≢ z)
      above f z (inl e) =
          (subst (λ (w : A). o.le x w ≡ true) (sym e) p, λ k. cc (f, o.eq→same x y (k ∙ e)))
      above f z (inr i) =
          let b = All-In (λ w. o.le y w ≡ true) z ys q i in
          (
            o.le_trans x y z p b,
            λ k. cc (
              f,
              o.eq→same x y (o.le_antisym x y p (subst (λ (w : A). o.le y w ≡ true) (sym k) b)),
            ),
          )

  -- A vector that is sorted and freed of repetitions.
  unfoldable pub sort_dedup : List A → List A
  sort_dedup xs = dedup (sort xs)

  pub sort_dedup-IsSorted : (xs : List A) → IsSorted (sort_dedup xs)
  unfolding sort_dedup
  sort_dedup-IsSorted xs = dedup-IsSorted (sort xs) (sort-Ascends xs)

  pub In-sort_dedup : (a : A) (xs : List A) → In a xs → In a (sort_dedup xs)
  unfolding sort_dedup
  In-sort_dedup a xs i = In-dedup a (sort xs) (In-sort a xs i)

  pub In-sort_dedup_inv : (a : A) (xs : List A) → In a (sort_dedup xs) → In a xs
  unfolding sort_dedup
  In-sort_dedup_inv a xs i = In-sort_inv a xs (In-dedup_inv a (sort xs) i)
