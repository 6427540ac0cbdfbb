-- ===== src/Supersession/Graph/Lookup.antt =====
-- The lookup of a record by its id.
use hive_memory.Base.{
  true, ◌≡◌, ◌∙◌, inl, inr, sym, ap, none, some, List, [], ◌∷◌, arith, In, Bool-cases, Option-cases,
}
use hive_memory.Text.{Text, same}
use hive_memory.Text.Equality.{same→eq, same_refl}
use hive_memory.Record.{IndexEntry}
use hive_memory.Supersession.Graph.{by_id}

pub by_id-id :
    (es : List IndexEntry) (id : Text) (e : IndexEntry) → by_id es id ≡ some e → e.id ≡ id
unfolding by_id
by_id-id [] id e h = absurd (cc)
by_id-id (x ∷ es) id e h = elim (Option-cases (by_id es id)) [
  | inl n ↦ elim (Bool-cases (same x.id id)) [
    | inl t ↦ ap (λ (y : IndexEntry). y.id) (sym (here n t)) ∙ same→eq x.id id t
    | inr f ↦ absurd (ground arith)
  ]
  | inr (y, s) ↦ by_id-id es id e (ground arith)
]
  where
    here : by_id es id ≡ none → same x.id id ≡ true → x ≡ e
    here n t = ground arith

pub by_id-In : (es : List IndexEntry) (id : Text) (e : IndexEntry) → by_id es id ≡ some e → In e es
unfolding by_id
by_id-In [] id e h = absurd (cc)
by_id-In (x ∷ es) id e h = elim (Option-cases (by_id es id)) [
  | inl n ↦ elim (Bool-cases (same x.id id)) [
    | inl t ↦ inl (ground arith)
    | inr f ↦ absurd (ground arith)
  ]
  | inr (y, s) ↦ inr (by_id-In es id e (ground arith))
]

-- A record that is found is found under its own id.
pub by_id_self :
    (es : List IndexEntry) (id : Text) (e : IndexEntry)
    → by_id es id ≡ some e
    → by_id es e.id ≡ some e
by_id_self es id e h = ap (by_id es) (by_id-id es id e h) ∙ h

-- Each record's id is found.
pub by_id_present :
    (es : List IndexEntry) (e : IndexEntry)
    → In e es
    → (found : IndexEntry) × (by_id es e.id ≡ some found)
unfolding by_id
by_id_present [] e i = absurd i
by_id_present (x ∷ es) e (inl q) = elim (Option-cases (by_id es e.id)) [
  | inl n ↦ (x, ground (arith, same_refl e.id, ap (λ (y : IndexEntry). same y.id e.id) q))
  | inr (y, s) ↦ (y, ground arith)
]
by_id_present (x ∷ es) e (inr i) = let (y, s) = by_id_present es e i in (y, ground arith)
