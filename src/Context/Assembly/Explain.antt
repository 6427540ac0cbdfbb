-- ===== src/Context/Assembly/Explain.antt =====
-- The flag `explain` records decisions and changes nothing else.
use hive_memory.Context.Assembly.Loop.{superseded_ids}
use hive_memory.Text.Sets.{member}
use hive_memory.Context.Policy.{sorted_candidates, duplicate_key, curated_scope_allowed}
use hive_memory.Context.Assembly.{
  output_of, empty_assembly, project_keys, collected, screen, assemble_related, assemble_collected,
  family_ids, entry_round, assemble, take_screened, assemble_context_with_mode, Screened,
}
use hive_memory.Base.Int.{ℤ}
use hive_memory.Text.Maps.{TextMap}
use hive_memory.Context.Render.{CuratedFile}
use hive_memory.Record.{IndexEntry}
use hive_memory.Context.{ContextOutput}
use hive_memory.Classify.Signals.{Unicode}
use hive_memory.Context.Request.{
  entry_section, curated_section, overflows, Mode, StoreFiles, ContextInput, Progress, Assembly,
  curated_round, for_each, ContextError, push_decision,
}
use hive_memory.Base.{
  ◌∙◌, Bool-cases, false, true, Option, sym, Bool, ◌≡◌, ◌⊎◌, inl, inr, refl, List, [], ◌∷◌, ap,
}
use hive_memory.Text.{Text}

-- Without its decisions.
abbrev bare : Assembly → Assembly
bare a = record a { decisions = [] }

abbrev bare_progress : Progress → Progress
bare_progress (Progress.onward a) = Progress.onward (bare a)
bare_progress (Progress.stopped a) = Progress.stopped (bare a)

abbrev pub undecided : ContextError ⊎ ContextOutput → ContextError ⊎ ContextOutput
undecided (inl error) = inl error
undecided (inr output) = inr (record output { decisions = [] })

abbrev as_result : ContextOutput → ContextError ⊎ ContextOutput
as_result output = inr output

abbrev pub explained : Bool → ContextInput → ContextInput
explained b input = record input { explain = b }

for_each-bare :
    {X : Type 0} (f g : X → Assembly → Progress) (xs : List X)
    → ((x : X) (a : Assembly) → bare_progress (f x a) ≡ g x (bare a))
    → (a : Assembly) → bare (for_each f xs a) ≡ for_each g xs (bare a)
unfolding for_each
for_each-bare f g [] same_round a = refl
for_each-bare f g (x ∷ xs) same_round a =
    go (for_each-bare f g xs same_round) (f x a) (g x (bare a)) (same_round x a)
  where
    go :
        ((b : Assembly) → bare (for_each f xs b) ≡ for_each g xs (bare b))
        → (r s : Progress) → bare_progress r ≡ s
        → bare (elim r [ Progress.onward b ↦ for_each f xs b | Progress.stopped b ↦ b ])
          ≡ elim s [ Progress.onward b ↦ for_each g xs b | Progress.stopped b ↦ b ]
    go rest (Progress.onward b) s e = rw (sym e) (rest b)
    go rest (Progress.stopped b) s e = rw (sym e) refl

push_decision-bare :
    (explain : Bool) (entry : IndexEntry) (action reason : Text) (a : Assembly)
    → bare (push_decision explain entry action reason a) ≡ bare a
unfolding push_decision
push_decision-bare true entry action reason a = refl
push_decision-bare false entry action reason a = refl

curated_round-bare :
    (input : ContextInput) (file : CuratedFile) (a : Assembly)
    → bare_progress (curated_round (explained true input) file a)
      ≡ curated_round (explained false input) file (bare a)
unfolding curated_round
curated_round-bare input file a = elim (Bool-cases (curated_scope_allowed file input.scopes)) [
  | inr f ↦ rw f refl
  | inl t ↦ elim (Bool-cases (overflows input (curated_section input.store_name file) a)) [
    | inl o ↦ rw (t, o) refl
    | inr o ↦ rw (t, o) refl
  ]
]

take_screened-bare :
    (input : ContextInput) (keys : TextMap Text) (entry : IndexEntry) (s : Screened) (a : Assembly)
    → bare_progress (take_screened (explained true input) keys entry s a)
      ≡ take_screened (explained false input) keys entry s (bare a)
unfolding push_decision
take_screened-bare input keys entry (Screened.skipped reason) a = refl
take_screened-bare input keys entry (Screened.unreadable message) a = refl
take_screened-bare input keys entry (Screened.ready body) a =
    elim (Bool-cases (member (duplicate_key entry body keys) a.seen_bodies)) [
      | inl t ↦ rw t refl
      | inr n ↦ elim (Bool-cases (overflows input (entry_section input.store_name entry body) a)) [
        | inl o ↦ rw (n, o) refl
        | inr o ↦ rw (n, o) refl
      ]
    ]

module _ (u : Unicode) (parse_time : Text → Option ℤ) (now : ℤ) (files : StoreFiles) where
  assemble-bare :
      (input : ContextInput) (mode : Mode) (ids : Option (List Text))
      (collection : List CuratedFile)
      → bare (assemble u parse_time now files (explained true input) mode ids collection)
        ≡ assemble u parse_time now files (explained false input) mode ids collection
  unfolding entry_round screen
  assemble-bare input mode ids collection =
      for_each-bare
        (entry_round u parse_time now files (explained true input) mode ids
          (project_keys files mode input) (superseded_ids u parse_time now files input))
        (entry_round u parse_time now files (explained false input) mode ids
          (project_keys files mode input) (superseded_ids u parse_time now files input))
        (sorted_candidates parse_time input.entries)
        (λ entry a.
          take_screened-bare input (project_keys files mode input) entry
            (screen u parse_time now files input mode ids
              (superseded_ids u parse_time now files input) entry)
            a)
        (for_each (curated_round (explained true input)) collection (empty_assembly input))
      ∙ ap
          (λ a.
            for_each
              (entry_round u parse_time now files (explained false input) mode ids
                (project_keys files mode input) (superseded_ids u parse_time now files input))
              (sorted_candidates parse_time input.entries) a)
          (for_each-bare (curated_round (explained true input))
            (curated_round (explained false input)) collection (curated_round-bare input)
            (empty_assembly input))

  collected-undecided :
      (input : ContextInput) (mode : Mode) (ids : Option (List Text))
      (r : ContextError ⊎ List CuratedFile)
      → undecided (assemble_collected u parse_time now files (explained true input) mode ids r)
        ≡ assemble_collected u parse_time now files (explained false input) mode ids r
  collected-undecided input mode ids (inl error) = refl
  collected-undecided input mode ids (inr collection) =
      ap (λ (a : Assembly). as_result (output_of a)) (assemble-bare input mode ids collection)

  related-undecided :
      (input : ContextInput) (mode : Mode) (r : ContextError ⊎ Option (List Text))
      → undecided (assemble_related u parse_time now files (explained true input) mode r)
        ≡ assemble_related u parse_time now files (explained false input) mode r
  related-undecided input mode (inl error) = refl
  related-undecided input mode (inr ids) =
      collected-undecided input mode ids (collected files mode input)

  -- A request with explanations gives what the same request without them gives, with decisions added:
  -- the same error, or the same Markdown, sections, estimate and warnings, in every mode.
  pub explain_neutral :
      (input : ContextInput) (mode : Mode)
      → undecided (assemble_context_with_mode u parse_time now files (explained true input) mode)
        ≡ assemble_context_with_mode u parse_time now files (explained false input) mode
  unfolding assemble_context_with_mode
  explain_neutral input mode = related-undecided input mode (family_ids files mode input)
