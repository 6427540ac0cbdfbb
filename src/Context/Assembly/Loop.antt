-- ===== src/Context/Assembly/Loop.antt =====
-- The rule of the two loops: what holds of the header alone, and is kept by each section that fits, holds
-- of the output.
use mathlib.Core.Sum.{inr-injective}
use hive_memory.Context.Assembly.{
  assemble_collected, assemble_related, ContextError, member, insert, duplicate_key, empty_assembly,
  push_warning, project_keys, take_screened, entry_section, assemble, push_section, Screened,
  header, TextMap, curated_scope_allowed, screen, collected, assemble_context_with_mode, family_ids,
  entry_round,
}
use hive_memory.Record.{IndexEntry}
use hive_memory.Context.Render.{CuratedFile}
use hive_memory.Context.{ContextOutput, estimate_tokens, ContextSection}
use hive_memory.Context.Policy.{sorted_candidates, superseded_among}
use hive_memory.Base.Int.{ℤ}
use hive_memory.Context.Request.{
  curated_section, push_decision, overflows, curated_round, Mode, ContextInput, StoreFiles,
  Assembly, for_each, Progress,
}
use hive_memory.Classify.Signals.{Unicode}
use hive_memory.Base.{
  subst, Bool-cases, true, false, Bool, ℕ, Option, ◌≡◌, ◌⊎◌, inl, inr, refl, List, [], ◌∷◌, In,
}
use hive_memory.Text.{Text, codes}

abbrev after : Progress → Assembly
after (Progress.onward a) = a
after (Progress.stopped a) = a

for_each_keeps :
    {X : Type 0} (P : Assembly → Type 0) (round : X → Assembly → Progress) (xs : List X)
    → ((x : X) → In x xs → (a : Assembly) → P a → P (after (round x a)))
    → (a : Assembly) → P a
    → P (for_each round xs a)
unfolding for_each
for_each_keeps P round [] keeps a h = h
for_each_keeps P round (x ∷ xs) keeps a h =
    go (λ b k. for_each_keeps P round xs (λ y i. keeps y (inr i)) b k) (round x a)
      (keeps x (inl refl) a h)
  where
    go :
        ((b : Assembly) → P b → P (for_each round xs b))
        → (r : Progress) → P (after r)
        → P (elim r [ Progress.onward b ↦ for_each round xs b | Progress.stopped b ↦ b ])
    go rest (Progress.onward b) k = rest b k
    go rest (Progress.stopped b) k = k

module _ (u : Unicode) (parse_time : Text → Option ℤ) (now : ℤ) (files : StoreFiles) where
  -- The ids that supersession hides from the request.
  abbrev pub superseded_ids : ContextInput → List Text
  superseded_ids input =
      superseded_among parse_time now (sorted_candidates parse_time input.entries) input.sources
        input.include_inbox input.agent_id

  -- Where a section comes from: a collected file, or an indexed entry that passes the tests.
  abbrev pub FromFile : ContextInput → Mode → ContextSection → Type 0
  FromFile input mode section =
      (collection : List CuratedFile) × (file : CuratedFile) × (collected files mode input
        ≡ inr collection)
      × In file collection
      × (curated_scope_allowed file input.scopes ≡ true)
      × (section ≡ curated_section input.store_name file)

  abbrev pub FromEntry : ContextInput → Mode → ContextSection → Type 0
  FromEntry input mode section =
      (project_ids : Option (List Text)) × (entry : IndexEntry) × (body : Text) × (family_ids files
          mode input
        ≡ inr project_ids)
      × In entry (sorted_candidates parse_time input.entries)
      × (screen u parse_time now files input mode project_ids (superseded_ids input) entry
          ≡ Screened.ready body)
      × (section ≡ entry_section input.store_name entry body)

  module _ (input : ContextInput) (mode : Mode) (P : Text → List ContextSection → ℕ → Type 0) where
    abbrev Holds : Assembly → Type 0
    Holds a = P a.markdown a.sections a.estimated_tokens

    abbrev pub Keeps : Type 0
    Keeps =
        (section : ContextSection)
        → FromFile input mode section ⊎ FromEntry input mode section
        → (a : Assembly) → overflows input section a ≡ false
        → Holds a
        → Holds (push_section section a)

    push_decision_lem :
        (explain : Bool) (entry : IndexEntry) (action reason : Text) (a : Assembly)
        → Holds a
        → Holds (push_decision explain entry action reason a)
    unfolding push_decision
    push_decision_lem true entry action reason a h = h
    push_decision_lem false entry action reason a h = h

    curated_round_keeps :
        Keeps
        → (collection : List CuratedFile) → collected files mode input ≡ inr collection
        → (file : CuratedFile) → In file collection
        → (a : Assembly) → Holds a
        → Holds (after (curated_round input file a))
    unfolding curated_round
    curated_round_keeps keeps collection c file i a h =
        let section = curated_section input.store_name file in
        elim (Bool-cases (curated_scope_allowed file input.scopes)) [
          | inr f ↦ rw f h
          | inl t ↦ elim (Bool-cases (overflows input section a)) [
            | inl o ↦ rw (t, o) h
            | inr o ↦ rw (t, o) (keeps section (inl (collection, file, c, i, t, refl)) a o h)
          ]
        ]

    take_screened_keeps :
        Keeps
        → (project_ids : Option (List Text)) → family_ids files mode input ≡ inr project_ids
        → (entry : IndexEntry) → In entry (sorted_candidates parse_time input.entries)
        → (keys : TextMap Text) (s : Screened)
        → screen u parse_time now files input mode project_ids (superseded_ids input) entry ≡ s
        → (a : Assembly) → Holds a
        → Holds (after (take_screened input keys entry s a))
    take_screened_keeps keeps ids f entry i keys (Screened.skipped reason) e a h =
        push_decision_lem input.explain entry (codes "skipped") reason a h
    take_screened_keeps keeps ids f entry i keys (Screened.unreadable message) e a h =
        push_decision_lem input.explain entry (codes "skipped") (codes "unreadable")
          (push_warning entry message a) h
    take_screened_keeps keeps ids f entry i keys (Screened.ready body) e a h =
        let key = duplicate_key entry body keys in
        let section = entry_section input.store_name entry body in
        let b = record a { seen_bodies = insert key a.seen_bodies } in
        elim (Bool-cases (member key a.seen_bodies)) [
          | inl t ↦
              rw t (push_decision_lem input.explain entry (codes "skipped") (codes "duplicate") a h)
          | inr n ↦ elim (Bool-cases (overflows input section a)) [
            | inl o ↦
                rw (n, o)
                  (push_decision_lem input.explain entry (codes "skipped") (codes "budget") b h)
            | inr o ↦
                rw (n, o)
                  (push_decision_lem input.explain entry (codes "included") (codes "included")
                    (push_section section b)
                    (keeps section (inr (ids, entry, body, f, i, e, refl)) b o h))
          ]
        ]

    assemble_keeps :
        Keeps
        → (project_ids : Option (List Text)) → family_ids files mode input ≡ inr project_ids
        → (collection : List CuratedFile) → collected files mode input ≡ inr collection
        → P (header input) [] (estimate_tokens (header input))
        → Holds (assemble u parse_time now files input mode project_ids collection)
    unfolding entry_round
    assemble_keeps keeps ids f collection c h =
        for_each_keeps Holds
          (entry_round u parse_time now files input mode ids (project_keys files mode input)
            (superseded_ids input))
          (sorted_candidates parse_time input.entries)
          (λ entry i a k.
            take_screened_keeps keeps ids f entry i (project_keys files mode input)
              (screen u parse_time now files input mode ids (superseded_ids input) entry) refl a k)
          (for_each (curated_round input) collection (empty_assembly input))
          (for_each_keeps Holds (curated_round input) collection
            (λ file i a k. curated_round_keeps keeps collection c file i a k) (empty_assembly input)
            h)

    collected_keeps :
        Keeps
        → P (header input) [] (estimate_tokens (header input))
        → (project_ids : Option (List Text)) → family_ids files mode input ≡ inr project_ids
        → (r : ContextError ⊎ List CuratedFile) → collected files mode input ≡ r
        → (output : ContextOutput)
        → assemble_collected u parse_time now files input mode project_ids r ≡ inr output
        → P output.markdown output.sections output.estimated_tokens
    collected_keeps keeps h ids f (inl error) c output e = absurd (cc)
    collected_keeps keeps h ids f (inr collection) c output e =
        subst (λ (o : ContextOutput). P o.markdown o.sections o.estimated_tokens)
          (inr-injective _ _ e) (assemble_keeps keeps ids f collection c h)

    related_keeps :
        Keeps
        → P (header input) [] (estimate_tokens (header input))
        → (r : ContextError ⊎ Option (List Text)) → family_ids files mode input ≡ r
        → (output : ContextOutput)
        → assemble_related u parse_time now files input mode r ≡ inr output
        → P output.markdown output.sections output.estimated_tokens
    related_keeps keeps h (inl error) f output e = absurd (cc)
    related_keeps keeps h (inr ids) f output e =
        collected_keeps keeps h ids f (collected files mode input) refl output e

    pub assembled_keeps :
        Keeps
        → P (header input) [] (estimate_tokens (header input))
        → (output : ContextOutput)
        → assemble_context_with_mode u parse_time now files input mode ≡ inr output
        → P output.markdown output.sections output.estimated_tokens
    unfolding assemble_context_with_mode
    assembled_keeps keeps h output e =
        related_keeps keeps h (family_ids files mode input) refl output e
