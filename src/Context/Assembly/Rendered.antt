-- ===== src/Context/Assembly/Rendered.antt =====
-- The composition of the assembly and the later selection of its sections.
use hive_memory.Context.Subset.{select_sections, ContextSubset}
use hive_memory.Context.Assembly.{header, assemble_context_with_mode}
use hive_memory.Context.Assembly.Loop.{assembled_keeps, FromEntry, Keeps, FromFile}
use hive_memory.Context.Render.{render_curated_memory_block, render_memory_block}
use hive_memory.Context.Request.{Mode, ContextInput, StoreFiles}
use hive_memory.Base.Int.{ℤ}
use hive_memory.Context.Subset.Whole.{select_sections_whole, IsRendered, blocks_of}
use hive_memory.Classify.Signals.{Unicode}
use hive_memory.Context.{ContextOutput, ContextSection}
use hive_memory.Base.{
  filter, some, none, Bool, any-append, false, append_assoc, sym, is_empty, append-nil, any, ◌++◌,
  Option, ℕ, ◌≡◌, ◌⊎◌, inl, inr, refl, List, [], ◌∷◌, arith, ap,
}
use hive_memory.Text.{Text}

abbrev Shaped : Text → Text → List ContextSection → ℕ → Type 0
Shaped prefix markdown sections tokens =
    (markdown ≡ prefix ++ blocks_of sections)
    × (any (λ (s : ContextSection). is_empty s.block) sections ≡ false)

blocks_of-append :
    (xs : List ContextSection) (s : ContextSection)
    → blocks_of (xs ++ s ∷ []) ≡ blocks_of xs ++ s.block
blocks_of-append [] s = append-nil s.block
blocks_of-append (x ∷ xs) s =
    rw (blocks_of-append xs s) (sym (append_assoc x.block (blocks_of xs) s.block))

module _ (u : Unicode) (parse_time : Text → Option ℤ) (now : ℤ) (files : StoreFiles) where
  block_present :
      (input : ContextInput) (mode : Mode) (section : ContextSection)
      → FromFile u parse_time now files input mode section
        ⊎ FromEntry u parse_time now files input mode section
      → is_empty section.block ≡ false
  unfolding render_memory_block render_curated_memory_block
  block_present input mode section (inl (collection, file, c, i, t, e)) =
      ap (λ (s : ContextSection). is_empty s.block) e
  block_present input mode section (inr (ids, entry, body, f, i, s, e)) =
      ap (λ (s : ContextSection). is_empty s.block) e

  push_section-Shaped :
      (input : ContextInput) (mode : Mode)
      → Keeps u parse_time now files input mode (Shaped (header input))
  push_section-Shaped input mode section origin a fits (m, b) = (
    rw (m, blocks_of-append a.sections section)
        (append_assoc (header input) (blocks_of a.sections) section.block),
    ground (
      arith,
      b,
      block_present input mode section origin,
      any-append (λ (s : ContextSection). is_empty s.block) a.sections (section ∷ []),
    ),
  )

  assembled-IsRendered :
      (input : ContextInput) (mode : Mode) (output : ContextOutput)
      → assemble_context_with_mode u parse_time now files input mode ≡ inr output
      → IsRendered (header input) output
  assembled-IsRendered input mode output e =
      let (m, b) =
        assembled_keeps u parse_time now files input mode (Shaped (header input))
          (push_section-Shaped input mode) (sym (append-nil (header input)), refl) output e in
      record { markdown = m; blocks = b }

  -- A selection without a size limit never fails on an assembled context, in any mode: it keeps the
  -- sections that the caller keeps, in their order, and renders the header and their blocks.
  pub assemble-select_sections :
      (input : ContextInput) (mode : Mode) (output : ContextOutput)
      → assemble_context_with_mode u parse_time now files input mode ≡ inr output
      → (keep : ContextSection → Bool)
      → (r : ContextSubset) × (select_sections keep none output ≡ some r)
        × (r.output.sections ≡ filter keep output.sections)
        × (r.output.markdown ≡ header input ++ blocks_of (filter keep output.sections))
  assemble-select_sections input mode output e keep =
      select_sections_whole keep (header input) output (assembled-IsRendered input mode output e)
