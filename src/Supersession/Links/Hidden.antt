-- ===== src/Supersession/Links/Hidden.antt =====
-- Which records the explicit links hide.
use hive_memory.Base.{
  ◌≡◌, ◌↔◌, ◌⊎◌, ◌∙◌, inl, inr, refl, sym, ap, subst, true, false, not, Option, some, List, [], ◌∷◌,
  In, Bool-cases, Option-cases, filter, is_empty, In-filter, In-filter_inv,
}
use hive_memory.Base.Int.{ℤ}
use hive_memory.Text.{Text}
use hive_memory.Text.Maps.{TextMap}
use hive_memory.Text.Sets.{insert, In-insert_self, In-insert_old, In-insert_inv}
use hive_memory.Record.{IndexEntry}
use hive_memory.Supersession.Graph.{by_id}
use hive_memory.Supersession.Graph.Lookup.{by_id-id}
use hive_memory.Supersession.Links.{
  is_exempt, has_links, loses, hide_targets, hide_target, hide_links, cycle_winners,
  explicit_suppressed_ids,
}

module _ (entries : List IndexEntry) (winners : TextMap Text) (query : Option Text) where
  -- The target is present, the query does not ask for it, and it is no winner of a cycle.
  abbrev pub Lost : IndexEntry → Text → Type 0
  Lost newer id =
      (older : IndexEntry) × (by_id entries id ≡ some older)
      × (is_exempt older newer query ≡ false)
      × (loses winners id ≡ true)

  target_sound :
      (newer : IndexEntry) (t : Text) (s : List Text) (id : Text)
      → In id (hide_target entries winners newer query t s)
      → In id s ⊎ ((id ≡ t) × Lost newer id)
  unfolding hide_target
  target_sound newer t s id i = elim (Option-cases (by_id entries t)) [
    | inl n ↦ inl (rw (n, hide_target) at i)
    | inr (older, e) ↦
        let named : older.id ≡ t = by_id-id entries t older e in
        elim (Bool-cases (is_exempt older newer query)) [
          | inl x ↦ inl (rw (e, x, hide_target) at i)
          | inr x ↦ elim (Bool-cases (loses winners older.id)) [
            | inr k ↦ inl (rw (e, x, k, hide_target) at i)
            | inl l ↦ elim (In-insert_inv id older.id s (rw (e, x, l, hide_target) at i)) [
              | inr j ↦ inl j
              | inl q ↦ inr (
                q ∙ named,
                (older, ap (by_id entries) (q ∙ named) ∙ e, x, ap (loses winners) q ∙ l),
              )
            ]
          ]
        ]
  ]

  target_keep :
      (newer : IndexEntry) (t : Text) (s : List Text) (id : Text)
      → In id s
      → In id (hide_target entries winners newer query t s)
  unfolding hide_target
  target_keep newer t s id i = elim (Option-cases (by_id entries t)) [
    | inl n ↦ rw (n, hide_target) i
    | inr (older, e) ↦ elim (Bool-cases (is_exempt older newer query)) [
      | inl x ↦ rw (e, x, hide_target) i
      | inr x ↦ elim (Bool-cases (loses winners older.id)) [
        | inr k ↦ rw (e, x, k, hide_target) i
        | inl l ↦ rw (e, x, l, hide_target) (In-insert_old id older.id s i)
      ]
    ]
  ]

  target_complete :
      (newer : IndexEntry) (s : List Text) (id : Text)
      → Lost newer id
      → In id (hide_target entries winners newer query id s)
  unfolding hide_target
  target_complete newer s id (older, e, x, l) =
      let named : older.id ≡ id = by_id-id entries id older e in
      rw (e, x, ap (loses winners) named ∙ l, hide_target)
        (subst (λ y. In id (insert y s)) (sym named) (In-insert_self id s))

  targets_sound :
      (newer : IndexEntry) (ts s : List Text) (id : Text)
      → In id (hide_targets entries winners newer query ts s)
      → In id s ⊎ (In id ts × Lost newer id)
  unfolding hide_targets
  targets_sound newer [] s id i = inl i
  targets_sound newer (t ∷ ts) s id i = elim (targets_sound newer ts _ id i) [
    | inr (j, l) ↦ inr (inr j, l)
    | inl j ↦ elim (target_sound newer t s id j) [ inl k ↦ inl k | inr (e, l) ↦ inr (inl e, l) ]
  ]

  targets_keep :
      (newer : IndexEntry) (ts s : List Text) (id : Text)
      → In id s
      → In id (hide_targets entries winners newer query ts s)
  unfolding hide_targets
  targets_keep newer [] s id i = i
  targets_keep newer (t ∷ ts) s id i = targets_keep newer ts _ id (target_keep newer t s id i)

  targets_complete :
      (newer : IndexEntry) (ts s : List Text) (id : Text)
      → In id ts
      → Lost newer id
      → In id (hide_targets entries winners newer query ts s)
  unfolding hide_targets
  targets_complete newer [] s id i l = absurd i
  targets_complete newer (t ∷ ts) s id (inl e) l = targets_keep newer ts _ id (
      subst (λ y. In id (hide_target entries winners newer query y s)) e
        (target_complete newer s id l))
  targets_complete newer (t ∷ ts) s id (inr i) l = targets_complete newer ts _ id i l

  -- A record of the list names the id and hides it.
  abbrev pub HiddenBy : List IndexEntry → Text → Type 0
  HiddenBy records id =
      (newer : IndexEntry) × In newer records × In id newer.supersedes × Lost newer id

  links_sound :
      (linked : List IndexEntry) (s : List Text) (id : Text)
      → In id (hide_links entries winners query linked s)
      → In id s ⊎ HiddenBy linked id
  unfolding hide_links
  links_sound [] s id i = inl i
  links_sound (e ∷ es) s id i = elim (links_sound es _ id i) [
    | inr (newer, j, t, l) ↦ inr (newer, inr j, t, l)
    | inl j ↦ elim (targets_sound e e.supersedes s id j) [
      | inl k ↦ inl k
      | inr (t, l) ↦ inr (e, inl refl, t, l)
    ]
  ]

  links_keep :
      (linked : List IndexEntry) (s : List Text) (id : Text)
      → In id s
      → In id (hide_links entries winners query linked s)
  unfolding hide_links
  links_keep [] s id i = i
  links_keep (e ∷ es) s id i = links_keep es _ id (targets_keep e e.supersedes s id i)

  links_complete :
      (linked : List IndexEntry) (s : List Text) (id : Text)
      → HiddenBy linked id
      → In id (hide_links entries winners query linked s)
  unfolding hide_links
  links_complete [] s id (newer, j, t, l) = absurd j
  links_complete (e ∷ es) s id (newer, inl q, t, l) = links_keep es _ id (
      subst (λ y. In id (hide_targets entries winners y query y.supersedes s)) q
        (targets_complete newer newer.supersedes s id t l))
  links_complete (e ∷ es) s id (newer, inr j, t, l) = links_complete es _ id (newer, j, t, l)

-- A record with a link passes the filter of the records with links.
linked_of_target :
    (e : IndexEntry) (id : Text) (ts : List Text)
    → e.supersedes ≡ ts
    → In id ts
    → has_links e ≡ true
linked_of_target e id [] q i = absurd i
linked_of_target e id (t ∷ ts) q i = ap (λ l. not (is_empty l)) q

-- The explicit links hide exactly the ids of present records that a present record names, unless the
-- query asks for the older of the two, or the id is the winner of a cycle of links.
pub explicit_suppressed_iff :
    (parse_time : Text → Option ℤ) (entries : List IndexEntry) (query : Option Text) (id : Text)
    → In id (explicit_suppressed_ids parse_time entries query)
      ↔ HiddenBy entries (cycle_winners parse_time (filter has_links entries)) query entries id
unfolding explicit_suppressed_ids
explicit_suppressed_iff parse_time entries query id = (
  λ i. elim (links_sound entries winners query linked [] id i) [
    | inl j ↦ absurd j
    | inr (newer, j, t, l) ↦ (newer, (In-filter_inv has_links newer entries j).0, t, l)
  ],
  λ (newer, j, t, l). links_complete entries winners query linked [] id (
    newer,
    In-filter has_links newer entries j (linked_of_target newer id newer.supersedes refl t),
    t,
    l,
  ),
)
  where
    linked : List IndexEntry
    linked = filter has_links entries

    winners : TextMap Text
    winners = cycle_winners parse_time linked
