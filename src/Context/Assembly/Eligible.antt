-- ===== src/Context/Assembly/Eligible.antt =====
-- Which records an assembled context may show.
use hive_memory.Text.Equality.{eq→same}
use mathlib.Core.Sum.{inr-injective}
use hive_memory.Text.Sets.{member_iff}
use hive_memory.Classify.Write.{project}
use hive_memory.Context.Assembly.Loop.{FromEntry, FromFile, assembled_keeps, Keeps, superseded_ids}
use hive_memory.Validity.{allows_search_of_current, allows_search_iff, InWindow}
use hive_memory.Visibility.{audience_allows_iff, Readable}
use hive_memory.Context.Assembly.{
  entry_body, screen_body, withheld, source_allowed, scope_allowed, curated_source_allowed,
  curated_scope_allowed, collected, entry_section, assemble_context_with_mode, CuratedFile,
  ContextSection, ContextOutput, family_ids, member, allows_current, audience_allows, Screened,
  Mode, screen,
}
use hive_memory.Context.Request.{curated_section, ContextInput, StoreFiles}
use hive_memory.Record.{IndexEntry}
use hive_memory.Base.Int.{ℤ}
use hive_memory.Classify.Signals.{Unicode}
use hive_memory.Context.Policy.{project_allowed, in_family, ranks_before, place, sorted_candidates}
use hive_memory.Base.{
  ap, sym, subst, none, some, All-append, not, All, ◌&&◌, ◌≢◌, some, false, true, Bool-cases,
  Option, ◌≡◌, ◌⊎◌, inl, inr, refl, List, [], ◌∷◌, arith, In,
}
use hive_memory.Text.{same, Text}

place-In :
    (parse_time : Text → Option ℤ) (e x : IndexEntry) (xs : List IndexEntry)
    → In e (place parse_time x xs)
    → (e ≡ x) ⊎ In e xs
place-In parse_time e x [] i = i
place-In parse_time e x (y ∷ ys) i = elim (Bool-cases (ranks_before parse_time x y)) [
  | inl t ↦ rw t at i
  | inr f ↦ elim (rw f at i) [
    | inl q ↦ inr (inl q)
    | inr j ↦ elim (place-In parse_time e x ys j) [ inl q ↦ inl q | inr k ↦ inr (inr k) ]
  ]
]

pub sorted_candidates-In :
    (parse_time : Text → Option ℤ) (e : IndexEntry) (xs : List IndexEntry)
    → In e (sorted_candidates parse_time xs)
    → In e xs
unfolding sorted_candidates
sorted_candidates-In parse_time e [] i = i
sorted_candidates-In parse_time e (x ∷ xs) i =
    elim (place-In parse_time e x (sorted_candidates parse_time xs) i) [
      | inl q ↦ inl q
      | inr j ↦ inr (sorted_candidates-In parse_time e xs j)
    ]

module _ (u : Unicode) (parse_time : Text → Option ℤ) (now : ℤ) (files : StoreFiles) where
  -- A record of the request that its reader may see, that is in its window, that nothing replaces, and
  -- that is of the project's family where projects are told apart.
  abbrev pub Eligible : ContextInput → Mode → IndexEntry → Type 0
  Eligible input mode entry =
      In entry input.entries
      × Readable entry input.agent_id
      × InWindow parse_time now entry false
      × (¬ In entry.id (superseded_ids u parse_time now files input))
      × ((mode.filter_project ≡ false)
          ⊎ (entry.scope ≢ project)
          ⊎ ((ids : List Text) × (id : Text) × (family_ids files mode input ≡ inr (some ids))
              × (entry.project_id ≡ some id)
              × In id ids))

  -- A section shows a file that the store gave for the project and whose scope is asked for, or an
  -- eligible record of a source and a scope that are asked for, with its own body.
  abbrev pub Shows : ContextInput → Mode → ContextSection → Type 0
  Shows input mode section =
      ((collection : List CuratedFile) × (file : CuratedFile) × (mode.collect_curated ≡ true)
        × (curated_source_allowed input.sources ≡ true)
        × (files.curated input.project_id ≡ inr collection)
        × In file collection
        × (curated_scope_allowed file input.scopes ≡ true)
        × (section ≡ curated_section input.store_name file))
      ⊎ ((entry : IndexEntry) × (body : Text) × Eligible input mode entry
          × (source_allowed entry input.sources input.include_inbox ≡ true)
          × (scope_allowed entry input.scopes ≡ true)
          × (entry_body files mode.read_canonical_body_fallback entry ≡ inr body)
          × (withheld u input entry body ≡ false)
          × (section ≡ entry_section input.store_name entry body))

  screen_body_lem :
      (input : ContextInput) (entry : IndexEntry) (body : Text) (read : Text ⊎ Text)
      → screen_body u input entry read ≡ Screened.ready body
      → (read ≡ inr body) × (withheld u input entry body ≡ false)
  screen_body_lem input entry body (inl message) h = absurd (cc)
  screen_body_lem input entry body (inr own) h = elim (Bool-cases (withheld u input entry own)) [
    | inl t ↦ absurd (cc (rw t at h))
    | inr f ↦
        let e : own ≡ body = cc (rw f at h) in
        (ap (λ (b : Text). inr b) e, subst (λ (b : Text). withheld u input entry b ≡ false) e f)
  ]

  screen_reads :
      (input : ContextInput) (mode : Mode) (ids : Option (List Text)) (superseded : List Text)
      (entry : IndexEntry) (body : Text)
      → screen u parse_time now files input mode ids superseded entry ≡ Screened.ready body
      → (source_allowed entry input.sources input.include_inbox ≡ true)
        × (scope_allowed entry input.scopes ≡ true)
        × (screen_body u input entry (entry_body files mode.read_canonical_body_fallback entry)
            ≡ Screened.ready body)
  unfolding screen
  screen_reads input mode ids superseded entry body h = (ground arith, ground arith, ground arith)

  screen_lem :
      (input : ContextInput) (mode : Mode) (ids : Option (List Text)) (superseded : List Text)
      (entry : IndexEntry) (body : Text)
      → screen u parse_time now files input mode ids superseded entry ≡ Screened.ready body
      → (audience_allows entry input.agent_id ≡ true)
        × (allows_current parse_time now entry ≡ true)
        × (member entry.id superseded ≡ false)
        × (mode.filter_project && not (project_allowed entry ids) ≡ false)
  unfolding screen
  screen_lem input mode ids superseded entry body h =
      (ground arith, ground arith, ground arith, ground arith)

  current-InWindow :
      (entry : IndexEntry)
      → allows_current parse_time now entry ≡ true
      → InWindow parse_time now entry false
  current-InWindow entry h =
      (allows_search_iff parse_time now entry false).0
        (allows_search_of_current parse_time now entry false h)

  collected_lem :
      (input : ContextInput) (mode : Mode) (collection : List CuratedFile) (file : CuratedFile)
      → collected files mode input ≡ inr collection
      → In file collection
      → (mode.collect_curated ≡ true)
        × (curated_source_allowed input.sources ≡ true)
        × (files.curated input.project_id ≡ inr collection)
  collected_lem input mode collection file c i =
      elim (Bool-cases (mode.collect_curated && curated_source_allowed input.sources)) [
        | inl t ↦ (ground arith, ground arith, rw t at c)
        | inr f ↦
            absurd
              (subst (λ (l : List CuratedFile). In file l) (sym (inr-injective _ _ (rw f at c))) i)
      ]

  family_lem :
      (input : ContextInput) (mode : Mode) (entry : IndexEntry) (project_id : Option Text)
      (ids : Option (List Text))
      → entry.project_id ≡ project_id
      → family_ids files mode input ≡ inr ids
      → in_family project_id ids ≡ true
      → (xs : List Text) × (id : Text) × (family_ids files mode input ≡ inr (some xs))
        × (entry.project_id ≡ some id)
        × In id xs
  family_lem input mode entry project_id none p f h = absurd (cc)
  family_lem input mode entry none (some xs) p f h = absurd (cc)
  family_lem input mode entry (some id) (some xs) p f h = (xs, id, f, p, (member_iff id xs).0 h)

  project_lem :
      (input : ContextInput) (mode : Mode) (entry : IndexEntry) (ids : Option (List Text))
      → family_ids files mode input ≡ inr ids
      → mode.filter_project && not (project_allowed entry ids) ≡ false
      → (mode.filter_project ≡ false)
        ⊎ (entry.scope ≢ project)
        ⊎ ((xs : List Text) × (id : Text) × (family_ids files mode input ≡ inr (some xs))
            × (entry.project_id ≡ some id)
            × In id xs)
  unfolding project_allowed
  project_lem input mode entry ids f h = elim (Bool-cases mode.filter_project) [
    | inr n ↦ inl n
    | inl t ↦ elim (Bool-cases (same entry.scope project)) [
      | inr n ↦ inr (inl (λ e. cc (n, eq→same entry.scope project e)))
      | inl p ↦ inr (inr (family_lem input mode entry entry.project_id ids refl f (ground arith)))
    ]
  ]

  entry-Eligible :
      (input : ContextInput) (mode : Mode) (ids : Option (List Text)) (entry : IndexEntry)
      (body : Text)
      → family_ids files mode input ≡ inr ids
      → In entry (sorted_candidates parse_time input.entries)
      → screen u parse_time now files input mode ids
          (superseded_ids u parse_time now files input)
          entry
        ≡ Screened.ready body
      → Eligible input mode entry
  entry-Eligible input mode ids entry body f i s =
      let (a, v, m, p) =
        screen_lem input mode ids (superseded_ids u parse_time now files input) entry body s in
      (
        sorted_candidates-In parse_time entry input.entries i,
        (audience_allows_iff entry input.agent_id).0 a,
        current-InWindow entry v,
        λ j. cc (m, (member_iff entry.id (superseded_ids u parse_time now files input)).1 j),
        project_lem input mode entry ids f p,
      )

  push_section-Shows :
      (input : ContextInput) (mode : Mode)
      → Keeps u parse_time now files input mode (λ m ss n. All (Shows input mode) ss)
  push_section-Shows input mode section origin a fits h =
      All-append (Shows input mode) a.sections (section ∷ []) h (shown origin, tt)
    where
      shown :
          FromFile u parse_time now files input mode section
            ⊎ FromEntry u parse_time now files input mode section
          → Shows input mode section
      shown (inl (collection, file, c, i, t, e)) =
          let (asked, allowed, given) = collected_lem input mode collection file c i in
          inl (collection, file, asked, allowed, given, i, t, e)
      shown (inr (ids, entry, body, f, i, s, e)) =
          let (source, scope, screened) =
            screen_reads input mode ids (superseded_ids u parse_time now files input) entry body
              s in
          let (own, shown_now) =
            screen_body_lem input entry body
              (entry_body files mode.read_canonical_body_fallback entry) screened in
          inr (
            entry,
            body,
            entry-Eligible input mode ids entry body f i s,
            source,
            scope,
            own,
            shown_now,
            e,
          )

  -- Every section of an assembled context is one of two. It is the section of a curated file that the
  -- store gives for the project, where the mode collects them and the request asks for the source and
  -- the scope. Or it is the section of a record of the request with that record's own body, or that of its
  -- note, not withheld by the strategy: of a source and a scope asked for, readable by the agent, in its
  -- window, replaced by no other record, and of the project's family where the mode filters by project.
  pub assembled-Eligible :
      (input : ContextInput) (mode : Mode) (output : ContextOutput)
      → assemble_context_with_mode u parse_time now files input mode ≡ inr output
      → All (Shows input mode) output.sections
  assembled-Eligible input mode output e =
      assembled_keeps u parse_time now files input mode (λ m ss n. All (Shows input mode) ss)
        (push_section-Shows input mode) tt output e
