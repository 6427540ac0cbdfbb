-- ===== src/Context/Assembly/Bounds.antt =====
-- The budget of an assembled context.
use hive_memory.Context.Subset.Bounds.{byte_len-append}
use hive_memory.Context.Assembly.{
  trust_for, render_memory_block, render_curated_memory_block, header, assemble_context_with_mode,
}
use hive_memory.Context.Assembly.Loop.{assembled_keeps, FromEntry, FromFile, Keeps}
use hive_memory.Context.Request.{Mode, ContextInput, StoreFiles}
use hive_memory.Base.Int.{ℤ}
use hive_memory.Context.{ContextOutput, ContextSection, estimate_tokens}
use hive_memory.Classify.Signals.{Unicode}
use hive_memory.Base.{sym, subst, ◌*◌, Option, ◌≤◌, ℕ, ◌≡◌, ◌⊎◌, inl, inr, refl, List, [], arith}
use hive_memory.Text.{Text, byte_len}

-- The estimate pays for every byte, and passes the budget only where nothing but the header is there.
abbrev Paid : ℕ → Text → List ContextSection → ℕ → Type 0
Paid max_tokens markdown sections tokens =
    (byte_len markdown ≤ 4 * tokens) × ((sections ≡ []) ⊎ (tokens ≤ max_tokens))

estimate_tokens_lem : (text : Text) → byte_len text ≤ 4 * estimate_tokens text
unfolding estimate_tokens
estimate_tokens_lem text = omega arith

module _ (u : Unicode) (parse_time : Text → Option ℤ) (now : ℤ) (files : StoreFiles) where
  priced :
      (input : ContextInput) (mode : Mode) (section : ContextSection)
      → FromFile u parse_time now files input mode section
        ⊎ FromEntry u parse_time now files input mode section
      → byte_len section.block ≤ 4 * section.estimated_tokens
  priced input mode section (inl (collection, file, c, i, t, e)) =
      subst (λ (s : ContextSection). byte_len s.block ≤ 4 * s.estimated_tokens) (sym e)
        (estimate_tokens_lem (render_curated_memory_block input.store_name file))
  priced input mode section (inr (ids, entry, body, f, i, s, e)) =
      subst (λ (s : ContextSection). byte_len s.block ≤ 4 * s.estimated_tokens) (sym e)
        (estimate_tokens_lem (render_memory_block input.store_name entry (trust_for entry) body))

  push_section-Paid :
      (input : ContextInput) (mode : Mode)
      → Keeps u parse_time now files input mode (Paid input.max_tokens)
  push_section-Paid input mode section origin a fits (bytes, budget) = (
    omega
        (arith, byte_len-append a.markdown section.block, priced input mode section origin, bytes),
    inr (ground (arith, fits)),
  )

  -- An assembled context is its header alone, or its estimated tokens are at most the budget of the
  -- request; its Markdown has at most four bytes for each estimated token, in every mode.
  pub assemble_context_with_mode_bounds :
      (input : ContextInput) (mode : Mode) (output : ContextOutput)
      → assemble_context_with_mode u parse_time now files input mode ≡ inr output
      → (byte_len output.markdown ≤ 4 * output.estimated_tokens)
        × ((output.sections ≡ []) ⊎ (output.estimated_tokens ≤ input.max_tokens))
  assemble_context_with_mode_bounds input mode output e =
      assembled_keeps u parse_time now files input mode (Paid input.max_tokens)
        (push_section-Paid input mode) (estimate_tokens_lem (header input), inl refl) output e
