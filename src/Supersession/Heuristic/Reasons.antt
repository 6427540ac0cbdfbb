-- ===== src/Supersession/Heuristic/Reasons.antt =====
-- Which records are hidden in all: by the links, or by the words of a later record in the window.
use hive_memory.Base.{
  ◌≡◌, ◌↔◌, ◌⊎◌, inl, inr, refl, sym, subst, true, false, Option, List, [], ◌∷◌, In, Bool-cases,
  arith, any, any-In, any_witness, take, if◌then◌else◌, leb,
}
use hive_memory.Base.Int.{ℤ, ltb_ℤ}
use hive_memory.Text.{Text, same, to_ascii_lowercase}
use hive_memory.Text.Sets.{insert, member, member_iff, In-insert_self, In-insert_old, In-insert_inv}
use hive_memory.Record.{IndexEntry, is_remember}
use hive_memory.Supersession.Words.{has_stale_marker, has_replacement_marker, topic_overlap}
use hive_memory.Supersession.Links.{names, is_exempt, timestamp_rank, explicit_suppressed_ids}
use hive_memory.Supersession.Heuristic.{
  heuristic_scan_window, same_scope, is_newer, suppress_for_heuristic, should_suppress_older, hides,
  hide_stale, suppressed_ids,
}

module _ (parse_time : Text → Option ℤ) (query : Option Text) where
  -- A record that the other one does not name, and whose words the other one's replace.
  pub record IsReplaced (older newer : IndexEntry) : Type 0 where
    pub unnamed : names newer older.id ≡ false
    pub different : same older.id newer.id ≡ false
    pub older_remember : is_remember older.entry_kind ≡ true
    pub newer_remember : is_remember newer.entry_kind ≡ true
    pub scopes : same_scope older newer ≡ true
    pub later :
        ltb_ℤ
          (timestamp_rank parse_time older.created_at)
          (timestamp_rank parse_time newer.created_at)
        ≡ true
    pub stale : has_stale_marker (to_ascii_lowercase older.body) ≡ true
    pub replacement : has_replacement_marker (to_ascii_lowercase newer.body) ≡ true
    pub not_asked : is_exempt older newer query ≡ false
    pub overlap :
        leb 2 (topic_overlap (to_ascii_lowercase older.body) (to_ascii_lowercase newer.body)) ≡ true

  hides-IsReplaced :
      (older newer : IndexEntry)
      → hides parse_time older query newer ≡ true
      → IsReplaced older newer
  unfolding should_suppress_older suppress_for_heuristic is_newer
  hides-IsReplaced older newer h = record {
    unnamed = ground arith;
    different = ground arith;
    older_remember = ground arith;
    newer_remember = ground arith;
    scopes = ground arith;
    later = ground arith;
    stale = ground arith;
    replacement = ground arith;
    not_asked = ground arith;
    overlap = ground arith;
  }

  pub IsReplaced-hides :
      (older newer : IndexEntry)
      → IsReplaced older newer
      → hides parse_time older query newer ≡ true
  unfolding should_suppress_older suppress_for_heuristic is_newer
  IsReplaced-hides older newer r =
      rw
        (
          r.unnamed, r.different, r.older_remember, r.newer_remember, r.scopes, r.later, r.stale,
          r.replacement, r.not_asked, r.overlap,
        )
        refl

  module _ (window : List IndexEntry) where
    -- The record of that id among some records, and the one of the window that replaces it.
    abbrev Stale : Text → List IndexEntry → Type 0
    Stale id rest =
        (older : IndexEntry) × In older rest
        × (older.id ≡ id)
        × (newer : IndexEntry) × In newer window
        × IsReplaced older newer

    abbrev next : IndexEntry → List Text → List Text
    next older s =
        if member older.id s
        then s
        else if any (hides parse_time older query) window
        then insert older.id s
        else s

    next_sound :
        (id : Text) (older : IndexEntry) (rest : List IndexEntry) (s : List Text)
        → In id (next older s)
        → In id s ⊎ Stale id (older ∷ rest)
    next_sound id older rest s i = elim (Bool-cases (member older.id s)) [
      | inl m ↦ inl (rw m at i)
      | inr m ↦ elim (Bool-cases (any (hides parse_time older query) window)) [
        | inr a ↦ inl (rw (m, a) at i)
        | inl a ↦ elim (In-insert_inv id older.id s (rw (m, a) at i)) [
          | inr j ↦ inl j
          | inl e ↦
              let (newer, k, h) = any_witness (hides parse_time older query) window a in
              inr (older, inl refl, sym e, newer, k, hides-IsReplaced older newer h)
        ]
      ]
    ]

    next_keep : (id : Text) (older : IndexEntry) (s : List Text) → In id s → In id (next older s)
    next_keep id older s i = elim (Bool-cases (member older.id s)) [
      | inl m ↦ rw m i
      | inr m ↦ elim (Bool-cases (any (hides parse_time older query) window)) [
        | inr a ↦ rw (m, a) i
        | inl a ↦ rw (m, a) (In-insert_old id older.id s i)
      ]
    ]

    next_hit :
        (older newer : IndexEntry) (s : List Text)
        → In newer window
        → IsReplaced older newer
        → In older.id (next older s)
    next_hit older newer s k r = elim (Bool-cases (member older.id s)) [
      | inl m ↦ rw m ((member_iff older.id s).0 m)
      | inr m ↦
          rw
            (
              m,
              any-In (hides parse_time older query) newer window k (IsReplaced-hides older newer r),
            )
            (In-insert_self older.id s)
    ]

    Stale-sound :
        (id : Text) (rest : List IndexEntry) (s : List Text)
        → In id (hide_stale parse_time window query rest s)
        → In id s ⊎ Stale id rest
    unfolding hide_stale
    Stale-sound id [] s i = inl i
    Stale-sound id (older ∷ rest) s i = elim (Stale-sound id rest (next older s) i) [
      | inr (o, j, e, n, k, r) ↦ inr (o, inr j, e, n, k, r)
      | inl j ↦ next_sound id older rest s j
    ]

    stale_keep :
        (id : Text) (rest : List IndexEntry) (s : List Text)
        → In id s
        → In id (hide_stale parse_time window query rest s)
    unfolding hide_stale
    stale_keep id [] s i = i
    stale_keep id (older ∷ rest) s i = stale_keep id rest (next older s) (next_keep id older s i)

    stale_hit :
        (older newer : IndexEntry) (rest : List IndexEntry) (s : List Text)
        → In older rest
        → In newer window
        → IsReplaced older newer
        → In older.id (hide_stale parse_time window query rest s)
    unfolding hide_stale
    stale_hit older newer [] s i k r = absurd i
    stale_hit older newer (o ∷ rest) s (inr i) k r = stale_hit older newer rest (next o s) i k r
    stale_hit older newer (o ∷ rest) s (inl e) k r =
        stale_keep older.id rest (next o s)
          (subst (λ y. In older.id (next y s)) e (next_hit older newer s k r))

    Stale-complete :
        (id : Text) (s : List Text)
        → In id s ⊎ Stale id window
        → In id (hide_stale parse_time window query window s)
    Stale-complete id s (inl i) = stale_keep id window s i
    Stale-complete id s (inr (older, i, e, newer, k, r)) =
        subst (λ y. In y (hide_stale parse_time window query window s)) e
          (stale_hit older newer window s i k r)

  -- An id is hidden if and only if the links hide it, or a record of that id among the 256 scanned
  -- is replaced by another scanned record: one that does not name it, of another id and the same
  -- scope, later in time, both of kind `remember`, with a stale marker in the one body, a replacement
  -- marker in the other, at least two topic words in common, and a query that does not ask for it.
  pub suppressed_iff :
      (entries : List IndexEntry) (id : Text)
      → In id (suppressed_ids parse_time entries query) ↔ (
          In id (explicit_suppressed_ids parse_time entries query)
          ⊎ ((older : IndexEntry) × In older (take heuristic_scan_window entries)
              × (older.id ≡ id)
              × (newer : IndexEntry) × In newer (take heuristic_scan_window entries)
              × IsReplaced older newer))
  unfolding suppressed_ids
  suppressed_iff entries id =
      let window = take heuristic_scan_window entries in
      let explicit = explicit_suppressed_ids parse_time entries query in
      (Stale-sound window id window explicit, Stale-complete window id explicit)
