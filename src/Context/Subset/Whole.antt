-- ===== src/Context/Subset/Whole.antt =====
-- Selections without a size limit, on an output that its blocks make up.
use hive_memory.Base.{
  ◌==◌, ◌+◌, ◌-◌, ◌≤◌, ◌≡◌, ◌∙◌, sym, ap, refl, Bool, true, false, none, some, List, [], ◌∷◌, ◌++◌,
  arith, Bool-cases, inl, inr, ltb, any, is_empty, filter, append_assoc, append-nil,
}
use hive_memory.Text.{Text, byte_len, split_at, char_len}
use hive_memory.Text.Equality.{same_refl}
use hive_memory.Context.{ContextSection, ContextOutput}
use hive_memory.Context.Subset.{
  ContextSubset, Packing, fit, pack_section, pack_sections, begin, select_sections, split_prefix,
  has_blocks, blocks_len, finish,
}
use hive_memory.Context.Subset.Bounds.{byte_len-append}

abbrev pub blocks_of : List ContextSection → Text
blocks_of [] = []
blocks_of (s ∷ ss) = s.block ++ blocks_of ss

-- The Markdown is a prefix and the blocks of the sections, none of them empty.
pub record IsRendered (prefix : Text) (output : ContextOutput) : Type 0 where
  pub markdown : output.markdown ≡ prefix ++ blocks_of output.sections
  pub blocks : any (λ (s : ContextSection). is_empty s.block) output.sections ≡ false

split_at-append : (s t : Text) → split_at (s ++ t) (byte_len s) ≡ some (s, t)
unfolding split_at byte_len
split_at-append [] [] = refl
split_at-append [] (c ∷ t) = refl
split_at-append (c ∷ s) t =
    let e : char_len c + byte_len s - char_len c ≡ byte_len s = omega arith in
    let pos : 1 ≤ char_len c = ground arith in
    let a : (char_len c + byte_len s == 0) ≡ false = ground arith in
    let b : ltb (char_len c + byte_len s) (char_len c) ≡ false = ground arith in
    rw (e, a, b, split_at-append s t) refl

has_blocks-blocks_of : (ss : List ContextSection) → has_blocks ss (blocks_of ss) ≡ true
unfolding has_blocks
has_blocks-blocks_of [] = refl
has_blocks-blocks_of (s ∷ ss) =
    rw (split_at-append s.block (blocks_of ss), same_refl s.block, has_blocks-blocks_of ss) refl

blocks_len-blocks_of : (ss : List ContextSection) → blocks_len ss ≡ byte_len (blocks_of ss)
unfolding byte_len
blocks_len-blocks_of [] = refl
blocks_len-blocks_of (s ∷ ss) =
    omega (arith, blocks_len-blocks_of ss, byte_len-append s.block (blocks_of ss))

split_prefix-IsRendered :
    (prefix : Text) (output : ContextOutput)
    → IsRendered prefix output
    → split_prefix output ≡ some prefix
unfolding split_prefix
split_prefix-IsRendered prefix output h =
    let ss = output.sections in
    let size : byte_len output.markdown ≡ byte_len prefix + blocks_len ss = omega (
      arith,
      ap byte_len h.markdown,
      byte_len-append prefix (blocks_of ss),
      blocks_len-blocks_of ss,
    ) in
    let enough : ltb (byte_len output.markdown) (blocks_len ss) ≡ false = ground (arith, size) in
    let rest : byte_len output.markdown - blocks_len ss ≡ byte_len prefix = omega (arith, size) in
    let parted : split_at output.markdown (byte_len prefix) ≡ some (prefix, blocks_of ss) =
      ap (λ m. split_at m (byte_len prefix)) h.markdown ∙ split_at-append prefix (blocks_of ss) in
    rw (h.blocks, enough, rest, parted, has_blocks-blocks_of ss) refl

module _ (keep : ContextSection → Bool) (prefix : Text) where
  pack_section_kept :
      (s : ContextSection) (p : Packing)
      → keep s ≡ true
      → p.budget_reached ≡ false
      → pack_section keep prefix none s p ≡ fit prefix none s p
  unfolding pack_section
  pack_section_kept s p k b = ground (arith, k, b)

  pack_section_left :
      (s : ContextSection) (p : Packing)
      → keep s ≡ false
      → pack_section keep prefix none s p ≡ record p { filtered = p.filtered + 1 }
  unfolding pack_section
  pack_section_left s p k = rw k refl

  pack_sections_nil : (p : Packing) → pack_sections keep prefix none [] p ≡ p
  unfolding pack_sections
  pack_sections_nil p = refl

  pack_sections_kept :
      (s : ContextSection) (ss : List ContextSection) (p : Packing)
      → keep s ≡ true
      → p.budget_reached ≡ false
      → pack_sections keep prefix none (s ∷ ss) p
        ≡ pack_sections keep prefix none ss (fit prefix none s p)
  unfolding pack_sections
  pack_sections_kept s ss p k b =
      ap (λ q. pack_sections keep prefix none ss q) (pack_section_kept s p k b)

  pack_sections_left :
      (s : ContextSection) (ss : List ContextSection) (p : Packing)
      → keep s ≡ false
      → pack_sections keep prefix none (s ∷ ss) p
        ≡ pack_sections keep prefix none ss (record p { filtered = p.filtered + 1 })
  unfolding pack_sections
  pack_sections_left s ss p k =
      ap (λ q. pack_sections keep prefix none ss q) (pack_section_left s p k)

  pack_all :
      (ss : List ContextSection) (p : Packing)
      → p.budget_reached ≡ false
      → ((pack_sections keep prefix none ss p).kept ≡ p.kept ++ filter keep ss)
        × ((pack_sections keep prefix none ss p).markdown
            ≡ p.markdown ++ blocks_of (filter keep ss))
  pack_all [] p b = rw (pack_sections_nil p) (sym (append-nil p.kept), sym (append-nil p.markdown))
  pack_all (s ∷ ss) p b = elim (Bool-cases (keep s)) [
    | inl t ↦
        let (k, m) = pack_all ss (fit prefix none s p) b in
        rw (pack_sections_kept s ss p t b, t)
          (
            k ∙ append_assoc p.kept (s ∷ []) (filter keep ss),
            m ∙ append_assoc p.markdown s.block (blocks_of (filter keep ss)),
          )
    | inr f ↦
        rw (pack_sections_left s ss p f, f) (pack_all ss (record p { filtered = p.filtered + 1 }) b)
  ]

-- Without a limit, a selection of an output that is a prefix and its blocks never fails: it keeps the
-- sections that the caller keeps, in their order, and renders the prefix and their blocks.
pub select_sections_whole :
    (keep : ContextSection → Bool) (prefix : Text) (output : ContextOutput)
    → IsRendered prefix output
    → (r : ContextSubset) × (select_sections keep none output ≡ some r)
      × (r.output.sections ≡ filter keep output.sections)
      × (r.output.markdown ≡ prefix ++ blocks_of (filter keep output.sections))
unfolding select_sections
select_sections_whole keep prefix output h =
    let (k, m) = pack_all keep prefix output.sections (begin prefix none) refl in
    (
      finish none output (pack_sections keep prefix none output.sections (begin prefix none)),
      rw (split_prefix-IsRendered prefix output h) refl,
      k,
      m,
    )
