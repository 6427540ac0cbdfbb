-- ===== src/Context/Subset.antt =====
-- `ContextOutput::select_sections`: part of an assembled context within a size limit.
pub mod Bounds
pub mod Counts
pub mod Whole
use hive_memory.Base.{
  ℕ, ◌+◌, Bool, true, false, ◌&&◌, ◌||◌, Option, none, some, List, [], ◌∷◌, ◌++◌, any, ltb,
  is_empty, max, ◌-◌, if◌then◌else◌,
}
use hive_memory.Text.{Text, same, byte_len, split_at}
use hive_memory.Context.{
  ContextSection, ContextOutput, SizeLimit, estimate_tokens, size_of, SizeMeasure,
}
use hive_memory.Context.Render.{render_omitted_block}

pub record ContextSubset : Type 0 where
  pub output : ContextOutput
  pub filtered : ℕ
  pub over_budget : ℕ
  pub omitted : List Text

-- The variables of the packing loop.
pub record Packing : Type 0 where
  pub markdown : Text
  pub kept : List ContextSection
  pub filtered : ℕ
  pub over_budget : ℕ
  pub omitted : List Text
  pub used : ℕ
  pub raw_used : ℕ
  pub budget_reached : Bool

abbrev pub blocks_len : List ContextSection → ℕ
blocks_len [] = 0
blocks_len (s ∷ ss) = byte_len s.block + blocks_len ss

-- Whether the text is made of the blocks, in order, up to its end or beyond.
abbrev pub block_at : Option (Text × Text) → Text → (Text → Bool) → Bool
block_at none block next = false
block_at (some (piece, rest)) block next = same piece block && next rest

unfoldable pub has_blocks : List ContextSection → Text → Bool
has_blocks [] text = true
has_blocks (s ∷ ss) text =
    block_at (split_at text (byte_len s.block)) s.block (λ rest. has_blocks ss rest)

abbrev pub prefix_of : Option (Text × Text) → List ContextSection → Option Text
prefix_of none sections = none
prefix_of (some (prefix, rest)) sections = if has_blocks sections rest then some prefix else none

-- The prefix before the blocks, if the Markdown ends with them.
unfoldable pub split_prefix : ContextOutput → Option Text
split_prefix output =
    if any (λ s. is_empty s.block) output.sections
    then none
    else if ltb (byte_len output.markdown) (blocks_len output.sections)
    then none
    else prefix_of
        (split_at output.markdown (byte_len output.markdown - blocks_len output.sections))
        output.sections

abbrev pub push_block : ContextSection → ℕ → Packing → Packing
push_block section block_size p = record p {
  markdown = p.markdown ++ section.block;
  kept = p.kept ++ section ∷ [];
  used = p.used + block_size;
  raw_used = p.raw_used + byte_len section.block;
}

abbrev pub stop_packing : Packing → Packing
stop_packing p = record p { over_budget = p.over_budget + 1; budget_reached = true }

-- A section that the whole limit cannot hold is replaced by a pointer.
abbrev pub point_to : SizeLimit → ContextSection → Packing → Packing
point_to limit section p =
    let pointer = render_omitted_block section in
    let pointer_size = size_of limit.measure pointer in
    if ltb limit.max (p.used + pointer_size) || ltb limit.raw_max (p.raw_used + byte_len pointer)
    then stop_packing p
    else record p {
      markdown = p.markdown ++ pointer;
      used = p.used + pointer_size;
      raw_used = p.raw_used + byte_len pointer;
      omitted = p.omitted ++ section.id ∷ [];
    }

abbrev pub fit : Text → Option SizeLimit → ContextSection → Packing → Packing
fit prefix none section p = record p {
  markdown = p.markdown ++ section.block;
  kept = p.kept ++ section ∷ [];
}
fit prefix (some limit) section p =
    let block_size = size_of limit.measure section.block in
    if ltb (max limit.alone_max limit.max) (size_of limit.measure prefix + block_size)
      || ltb limit.raw_max (byte_len prefix + byte_len section.block)
    then point_to limit section p
    else if ltb limit.max (p.used + block_size)
        || ltb limit.raw_max (p.raw_used + byte_len section.block)
    then stop_packing p
    else push_block section block_size p

-- One round of the loop.
unfoldable pub pack_section :
    (ContextSection → Bool) → Text → Option SizeLimit → ContextSection → Packing → Packing
pack_section keep prefix limit section p =
    if keep section
    then (if p.budget_reached
        then record p { over_budget = p.over_budget + 1 }
        else fit prefix limit section p)
    else record p { filtered = p.filtered + 1 }

unfoldable pub pack_sections :
    (ContextSection → Bool) → Text → Option SizeLimit → List ContextSection → Packing → Packing
pack_sections keep prefix limit [] p = p
pack_sections keep prefix limit (s ∷ ss) p =
    pack_sections keep prefix limit ss (pack_section keep prefix limit s p)

-- The size of a text under an optional limit, and whether two sizes go past it.
abbrev pub size_under : Option SizeLimit → Text → ℕ
size_under none text = 0
size_under (some limit) text = size_of limit.measure text

abbrev pub exceeds : Option SizeLimit → ℕ → ℕ → Bool
exceeds none used raw_used = false
exceeds (some limit) used raw_used = ltb limit.max used || ltb limit.raw_max raw_used

abbrev pub begin : Text → Option SizeLimit → Packing
begin prefix limit = record {
  markdown = prefix;
  kept = [];
  filtered = 0;
  over_budget = 0;
  omitted = [];
  used = size_under limit prefix;
  raw_used = byte_len prefix;
  budget_reached = exceeds limit (size_under limit prefix) (byte_len prefix);
}

abbrev pub finish : Option SizeLimit → ContextOutput → Packing → ContextSubset
finish limit output p =
    let markdown : Text = if exceeds limit p.used p.raw_used then [] else p.markdown in
    record {
      output = record {
        markdown = markdown;
        sections = p.kept;
        decisions = output.decisions;
        estimated_tokens = estimate_tokens markdown;
        warnings = output.warnings;
      };
      filtered = p.filtered;
      over_budget = p.over_budget;
      omitted = p.omitted;
    }

abbrev pub select_from :
    (ContextSection → Bool) → Option SizeLimit → ContextOutput → Option Text → Option ContextSubset
select_from keep limit output none = none
select_from keep limit output (some prefix) =
    some
      (finish limit output (pack_sections keep prefix limit output.sections (begin prefix limit)))

unfoldable pub select_sections :
    (ContextSection → Bool) → Option SizeLimit → ContextOutput → Option ContextSubset
unfolding split_prefix
select_sections keep limit output = select_from keep limit output (split_prefix output)
