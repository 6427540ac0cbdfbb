-- ===== src/Context/Subset/Bounds.antt =====
-- The size of what a selection renders.
use hive_memory.Base.{
  subst, ◌+◌, ◌≤◌, ◌≡◌, refl, Bool, some, List, [], ◌∷◌, ◌++◌, arith, Bool-cases, inl, inr, ltb,
  ◌||◌, Option-cases,
}
use hive_memory.Text.{Text, byte_len}
use hive_memory.Context.{ContextSection, ContextOutput, SizeLimit, SizeMeasure, size_of, json_size}
use hive_memory.Context.Render.{render_omitted_block}
use hive_memory.Context.Subset.{
  ContextSubset, Packing, fit, point_to, pack_section, pack_sections, begin, finish, select_from,
  select_sections, split_prefix,
}

pub byte_len-append : (s t : Text) → byte_len (s ++ t) ≡ byte_len s + byte_len t
unfolding byte_len
byte_len-append [] t = omega arith
byte_len-append (c ∷ s) t = omega (arith, byte_len-append s t)

json_size-append : (s t : Text) → json_size (s ++ t) ≡ json_size s + json_size t
json_size-append [] t = omega arith
json_size-append (c ∷ s) t = omega (arith, json_size-append s t)

pub size_of-append : (m : SizeMeasure) (s t : Text) → size_of m (s ++ t) ≡ size_of m s + size_of m t
unfolding size_of
size_of-append SizeMeasure.bytes s t = byte_len-append s t
size_of-append SizeMeasure.json_string s t = json_size-append s t

-- The counters of the loop are the sizes of the Markdown, and they go past the limit only where the
-- prefix does, so that the loop has stopped before its first block.
record IsCounted (limit : SizeLimit) (p : Packing) : Type 0 where
  pub used : p.used ≡ size_of limit.measure p.markdown
  pub raw_used : p.raw_used ≡ byte_len p.markdown

module _ (keep : ContextSection → Bool) (prefix : Text) (limit : SizeLimit) where
  point_to-IsCounted :
      (s : ContextSection) (p : Packing) → IsCounted limit p → IsCounted limit (point_to limit s p)
  point_to-IsCounted s p h = ground (
    arith,
    size_of-append limit.measure p.markdown (render_omitted_block s),
    byte_len-append p.markdown (render_omitted_block s),
  )

  fit-IsCounted :
      (s : ContextSection) (p : Packing)
      → IsCounted limit p
      → IsCounted limit (fit prefix (some limit) s p)
  fit-IsCounted s p h = ground (
    arith,
    point_to-IsCounted s p h,
    size_of-append limit.measure p.markdown s.block,
    byte_len-append p.markdown s.block,
  )

  pack_section-IsCounted :
      (s : ContextSection) (p : Packing)
      → IsCounted limit p
      → IsCounted limit (pack_section keep prefix (some limit) s p)
  unfolding pack_section
  pack_section-IsCounted s p h = ground (arith, fit-IsCounted s p h)

  pack_sections-IsCounted :
      (ss : List ContextSection) (p : Packing)
      → IsCounted limit p
      → IsCounted limit (pack_sections keep prefix (some limit) ss p)
  unfolding pack_sections
  pack_sections-IsCounted [] p h = h
  pack_sections-IsCounted (s ∷ ss) p h =
      pack_sections-IsCounted ss (pack_section keep prefix (some limit) s p)
        (pack_section-IsCounted s p h)

finish_bounds :
    (limit : SizeLimit) (output : ContextOutput) (p : Packing)
    → IsCounted limit p
    → (size_of limit.measure (finish (some limit) output p).output.markdown ≤ limit.max)
      × (byte_len (finish (some limit) output p).output.markdown ≤ limit.raw_max)
finish_bounds limit output p h =
    elim (Bool-cases (ltb limit.max p.used || ltb limit.raw_max p.raw_used)) [
      | inl t ↦ rw t (nothing limit.measure, unfold byte_len in omega arith)
      | inr f ↦ rw f (ground arith, ground arith)
    ]
  where
    nothing : (m : SizeMeasure) → size_of m [] ≤ limit.max
    nothing SizeMeasure.bytes = unfold size_of byte_len in omega arith
    nothing SizeMeasure.json_string = unfold size_of in omega arith

-- Whatever is selected under a limit, the Markdown is within it, in the limit's own measure and in
-- bytes, also where the prefix alone is too large.
pub select_sections_bounds :
    (keep : ContextSection → Bool) (limit : SizeLimit) (output : ContextOutput) (r : ContextSubset)
    → select_sections keep (some limit) output ≡ some r
    → (size_of limit.measure r.output.markdown ≤ limit.max)
      × (byte_len r.output.markdown ≤ limit.raw_max)
unfolding select_sections
select_sections_bounds keep limit output r h = elim (Option-cases (split_prefix output)) [
  | inl n ↦ absurd (ground arith)
  | inr (prefix, e) ↦
      subst
        (λ (x : ContextSubset).
          (size_of limit.measure x.output.markdown ≤ limit.max)
          × (byte_len x.output.markdown ≤ limit.raw_max))
        (some_injective (rw (e, select_from) at h))
        (finish_bounds limit output _ (
          pack_sections-IsCounted keep prefix limit output.sections (begin prefix (some limit))
            (record { used = refl; raw_used = refl })))
]
  where
    some_injective : {x y : ContextSubset} → some x ≡ some y → x ≡ y
    some_injective e = cc
