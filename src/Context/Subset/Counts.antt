-- ===== src/Context/Subset/Counts.antt =====
-- What becomes of each section of a selection.
use hive_memory.Base.{
  sym, subst, ◌⊎◌, ℕ, ◌+◌, ◌≡◌, refl, Bool, true, Option, none, some, List, [], ◌∷◌, ◌++◌, arith,
  inl, inr, Option-cases, length, length-append, All, All-append, In,
}
use hive_memory.Text.{Text}
use hive_memory.Context.{ContextSection, ContextOutput, SizeLimit}
use hive_memory.Context.Subset.{
  ContextSubset, Packing, fit, point_to, pack_section, pack_sections, begin, select_from,
  select_sections, split_prefix,
}

abbrev total : Packing → ℕ
total p = p.filtered + p.over_budget + length p.kept + length p.omitted

module _ (keep : ContextSection → Bool) (prefix : Text) where
  total-point_to :
      (limit : SizeLimit) (s : ContextSection) (p : Packing)
      → total (point_to limit s p) ≡ total p + 1
  total-point_to limit s p = ground (arith, length-append {0} p.omitted (s.id ∷ []))

  total-fit :
      (limit : Option SizeLimit) (s : ContextSection) (p : Packing)
      → total (fit prefix limit s p) ≡ total p + 1
  total-fit none s p = ground (arith, length-append {0} p.kept (s ∷ []))
  total-fit (some limit) s p =
      ground (arith, total-point_to limit s p, length-append {0} p.kept (s ∷ []))

  total-pack_section :
      (limit : Option SizeLimit) (s : ContextSection) (p : Packing)
      → total (pack_section keep prefix limit s p) ≡ total p + 1
  unfolding pack_section
  total-pack_section limit s p = ground (arith, total-fit limit s p)

  total-pack_sections :
      (limit : Option SizeLimit) (ss : List ContextSection) (p : Packing)
      → total (pack_sections keep prefix limit ss p) ≡ total p + length ss
  unfolding pack_sections
  total-pack_sections limit [] p = omega arith
  total-pack_sections limit (s ∷ ss) p = omega (
    arith,
    total-pack_sections limit ss (pack_section keep prefix limit s p),
    total-pack_section limit s p,
  )

  module _ (sections : List ContextSection) where
    -- A section of the output that the caller keeps.
    abbrev pub IsChosen : ContextSection → Type 0
    IsChosen s = (keep s ≡ true) × In s sections

    fit_kept :
        (limit : Option SizeLimit) (s : ContextSection) (p : Packing)
        → ((fit prefix limit s p).kept ≡ p.kept) ⊎ ((fit prefix limit s p).kept ≡ p.kept ++ s ∷ [])
    fit_kept none s p = inr refl
    fit_kept (some limit) s p = ground arith

    pack_section_kept :
        (limit : Option SizeLimit) (s : ContextSection) (p : Packing)
        → ((pack_section keep prefix limit s p).kept ≡ p.kept)
          ⊎ ((keep s ≡ true) × ((pack_section keep prefix limit s p).kept ≡ p.kept ++ s ∷ []))
    unfolding pack_section
    pack_section_kept limit s p = ground (arith, fit_kept limit s p)

    pack_section-IsChosen :
        (limit : Option SizeLimit) (s : ContextSection) (p : Packing)
        → In s sections
        → All IsChosen p.kept
        → All IsChosen (pack_section keep prefix limit s p).kept
    pack_section-IsChosen limit s p i h = elim (pack_section_kept limit s p) [
      | inl e ↦ subst (All IsChosen) (sym e) h
      | inr (k, e) ↦
          subst (All IsChosen) (sym e) (All-append IsChosen p.kept (s ∷ []) h ((k, i), tt))
    ]

    pack_sections-IsChosen :
        (limit : Option SizeLimit) (ss : List ContextSection) (p : Packing)
        → ((s : ContextSection) → In s ss → In s sections)
        → All IsChosen p.kept
        → All IsChosen (pack_sections keep prefix limit ss p).kept
    unfolding pack_sections
    pack_sections-IsChosen limit [] p sub h = h
    pack_sections-IsChosen limit (s ∷ ss) p sub h =
        pack_sections-IsChosen limit ss (pack_section keep prefix limit s p) (λ x i. sub x (inr i))
          (pack_section-IsChosen limit s p (sub s (inl refl)) h)

-- Each section of the output is kept, filtered, over budget or replaced by a pointer, and counted
-- once; what is kept is a section of the output that the caller keeps.
pub select_sections_counts :
    (keep : ContextSection → Bool) (limit : Option SizeLimit) (output : ContextOutput)
    (r : ContextSubset)
    → select_sections keep limit output ≡ some r
    → (r.filtered + r.over_budget + length r.output.sections + length r.omitted
        ≡ length output.sections)
      × All (IsChosen keep [] output.sections) r.output.sections
unfolding select_sections
select_sections_counts keep limit output r h = elim (Option-cases (split_prefix output)) [
  | inl n ↦ absurd (ground arith)
  | inr (prefix, e) ↦
      subst
        (λ (x : ContextSubset).
          (x.filtered + x.over_budget + length x.output.sections + length x.omitted
            ≡ length output.sections)
          × All (IsChosen keep [] output.sections) x.output.sections)
        (some_injective (rw (e, select_from) at h))
        (
          omega (arith, total-pack_sections keep prefix limit output.sections (begin prefix limit)),
          pack_sections-IsChosen keep prefix output.sections limit output.sections
              (begin prefix limit) (λ x i. i) tt,
        )
]
  where
    some_injective : {x y : ContextSubset} → some x ≡ some y → x ≡ y
    some_injective e = cc
