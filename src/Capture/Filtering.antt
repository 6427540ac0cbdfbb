-- ===== src/Capture/Filtering.antt =====
-- Which candidates are staged.
use hive_memory.Base.{
  ◌≤◌, ◌≡◌, ◌≢◌, ◌⊎◌, inl, inr, refl, sym, ap, Bool, true, false, ◌&&◌, not, List, [], ◌∷◌, length,
  is_empty, arith, In, All, Distinct, Bool-cases, subst,
}
use hive_memory.Text.{Text, trim}
use hive_memory.Text.Trim.{trim_idem}
use hive_memory.Text.Sets.{member, insert, member_iff, In-insert_self, In-insert_old, In-insert_inv}
use hive_memory.Secret.{detect}
use hive_memory.Capture.{is_stageable, filter_from, filter_candidates}

-- A staged fact is trimmed, not empty, short, and has no secret that a detector finds.
pub record IsSafe (t : Text) : Type 0 where
  pub trimmed : trim t ≡ t
  pub nonempty : t ≢ []
  pub short : length t ≤ 280
  pub no_secret : detect t ≡ []

empty_list : {A : Type 0} (l : List A) → is_empty l ≡ true → l ≡ []
empty_list [] q = refl
empty_list (x ∷ xs) q = absurd (cc)

nonempty_list : {A : Type 0} (l : List A) → is_empty l ≡ false → l ≢ []
nonempty_list l q e = cc (ap is_empty e)

stageable-IsSafe : (c : Text) → is_stageable (trim c) ≡ true → IsSafe (trim c)
unfolding is_stageable
stageable-IsSafe c h = record {
  trimmed = trim_idem c;
  nonempty = nonempty_list (trim c) (ground arith);
  short = ground arith;
  no_secret = empty_list (detect (trim c)) (ground arith);
}

-- The candidate is taken: it passes the tests and is new.
abbrev is_taken : List Text → Text → Bool
is_taken seen c = is_stageable (trim c) && not (member (trim c) seen)

taken_stageable :
    (seen : List Text) (c : Text) → is_taken seen c ≡ true → is_stageable (trim c) ≡ true
taken_stageable seen c h = ground arith

taken_new : (seen : List Text) (c : Text) → is_taken seen c ≡ true → In (trim c) seen → ⊥
taken_new seen c h i = cc (both _ _ h, (member_iff (trim c) seen).1 i)
  where
    both : (a b : Bool) → a && not b ≡ true → b ≡ false
    both a b q = ground arith

filter_from-IsSafe : (seen cs : List Text) → All IsSafe (filter_from seen cs)
unfolding filter_from
filter_from-IsSafe seen [] = tt
filter_from-IsSafe seen (c ∷ cs) = elim (Bool-cases (is_taken seen c)) [
  | inl t ↦
      rw t (
        stageable-IsSafe c (taken_stageable seen c t),
        filter_from-IsSafe (insert (trim c) seen) cs,
      )
  | inr f ↦ rw f (filter_from-IsSafe seen cs)
]

-- What is taken later is not among what was seen before.
filter_from_new : (seen cs : List Text) (t : Text) → In t (filter_from seen cs) → In t seen → ⊥
unfolding filter_from
filter_from_new seen [] t i j = i
filter_from_new seen (c ∷ cs) t i j = elim (Bool-cases (is_taken seen c)) [
  | inl y ↦ elim (rw y at i) [
    | inl e ↦ taken_new seen c y (subst (λ x. In x seen) e j)
    | inr k ↦ filter_from_new (insert (trim c) seen) cs t k (In-insert_old t (trim c) seen j)
  ]
  | inr f ↦ filter_from_new seen cs t (rw f at i) j
]

filter_from-Distinct : (seen cs : List Text) → Distinct (filter_from seen cs)
unfolding filter_from
filter_from-Distinct seen [] = tt
filter_from-Distinct seen (c ∷ cs) = elim (Bool-cases (is_taken seen c)) [
  | inl y ↦ rw y (
    λ i. filter_from_new (insert (trim c) seen) cs (trim c) i (In-insert_self (trim c) seen),
    filter_from-Distinct (insert (trim c) seen) cs,
  )
  | inr f ↦ rw f (filter_from-Distinct seen cs)
]

-- Whatever candidates a model proposes, each staged fact is safe, and none is staged twice.
pub filter_candidates-IsSafe :
    (candidates : List Text)
    → All IsSafe (filter_candidates candidates) × Distinct (filter_candidates candidates)
unfolding filter_candidates
filter_candidates-IsSafe cs = (filter_from-IsSafe [] cs, filter_from-Distinct [] cs)

is_taken_lem :
    (seen : List Text) (d : Text)
    → is_stageable (trim d) ≡ true
    → member (trim d) seen ≡ false
    → is_taken seen d ≡ true
is_taken_lem seen d h n = ground arith

-- Seen before, or taken now.
filter_from_complete :
    (seen cs : List Text) (c : Text)
    → In c cs
    → is_stageable (trim c) ≡ true
    → In (trim c) seen ⊎ In (trim c) (filter_from seen cs)
unfolding filter_from
filter_from_complete seen [] c i h = absurd i
filter_from_complete seen (d ∷ cs) c (inl e) h = elim (Bool-cases (member (trim d) seen)) [
  | inl m ↦ inl (subst (λ x. In x seen) (sym (ap trim e)) ((member_iff (trim d) seen).0 m))
  | inr n ↦ inr (
      rw (is_taken_lem seen d (subst (λ x. is_stageable x ≡ true) (ap trim e) h) n)
        (inl (ap trim e)))
]
filter_from_complete seen (d ∷ cs) c (inr i) h = elim (Bool-cases (is_taken seen d)) [
  | inl y ↦ elim (filter_from_complete (insert (trim d) seen) cs c i h) [
    | inl s ↦ elim (In-insert_inv (trim c) (trim d) seen s) [
      | inl e ↦ inr (rw y (inl e))
      | inr k ↦ inl k
    ]
    | inr t ↦ inr (rw y (inr t))
  ]
  | inr f ↦ elim (filter_from_complete seen cs c i h) [ inl s ↦ inl s | inr t ↦ inr (rw f t) ]
]

-- Every candidate whose trimmed text passes the tests is staged.
pub filter_candidates_complete :
    (candidates : List Text) (c : Text)
    → In c candidates
    → is_stageable (trim c) ≡ true
    → In (trim c) (filter_candidates candidates)
unfolding filter_candidates
filter_candidates_complete cs c i h = elim (filter_from_complete [] cs c i h) [
  | inl s ↦ absurd s
  | inr t ↦ t
]
