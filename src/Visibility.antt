-- ===== src/Visibility.antt =====
-- Who may read an indexed record: `audience_allows` of src/visibility.rs.
use hive_memory.Base.{
  ◌≡◌, ◌≢◌, ◌↔◌, ◌⊎◌, inl, inr, refl, ap, Bool, true, false, Option, none, some, List, [], ◌∷◌, In,
  any, if◌then◌else◌, is_empty, not, arith, Bool-cases,
}
use hive_memory.Text.{Text, codes, same}
use hive_memory.Text.Equality.{same→eq, eq→same, any-same_iff}
use hive_memory.Record.{IndexEntry}

abbrev pub agent_private : Text
agent_private = codes "agent-private"

-- The early returns of `audience_allows` after the test of the scope.
abbrev private_allows : IndexEntry → Option Text → Bool
private_allows entry none = false
private_allows entry (some agent_id) =
    if is_empty entry.audience
    then same entry.agent_id agent_id
    else any (λ audience. same audience agent_id) entry.audience

unfoldable pub audience_allows : IndexEntry → Option Text → Bool
audience_allows entry agent_id =
    if not (same entry.scope agent_private) then true else private_allows entry agent_id

-- The rule of the source's documentation: a record outside the private scope is readable; a private
-- one only by an identified agent, which its audience names, or which wrote it if it names nobody.
abbrev pub Readable : IndexEntry → Option Text → Type 0
Readable entry agent =
    (entry.scope ≢ agent_private)
    ⊎ ((a : Text) × (agent ≡ some a)
        × (((entry.audience ≡ []) × (entry.agent_id ≡ a)) ⊎ In a entry.audience))

private_allows_sound :
    (e : IndexEntry) (agent : Option Text) → private_allows e agent ≡ true → Readable e agent
private_allows_sound e none h = absurd (cc)
private_allows_sound e (some a) h = split e.audience refl
  where
    split : (l : List Text) → e.audience ≡ l → Readable e (some a)
    split [] q = inr (a, refl, inl (q, same→eq e.agent_id a (ground (arith, q))))
    split (x ∷ xs) q = inr (a, refl, inr ((any-same_iff a e.audience).0 (ground (arith, q))))

private_allows_complete :
    (e : IndexEntry) (a : Text)
    → ((e.audience ≡ []) × (e.agent_id ≡ a)) ⊎ In a e.audience
    → private_allows e (some a) ≡ true
private_allows_complete e a (inl (q, w)) = ground (arith, eq→same e.agent_id a w, ap is_empty q)
private_allows_complete e a (inr i) = named e.audience i ((any-same_iff a e.audience).1 i)
  where
    named :
        (l : List Text)
        → In a l
        → any (λ x. same x a) l ≡ true
        → (if is_empty l then same e.agent_id a else any (λ x. same x a) l) ≡ true
    named [] j h = absurd j
    named (x ∷ xs) j h = h

-- `audience_allows` answers true exactly for the readers of the documented rule.
pub audience_allows_iff :
    (e : IndexEntry) (agent : Option Text) → (audience_allows e agent ≡ true) ↔ Readable e agent
unfolding audience_allows
audience_allows_iff e agent = elim (Bool-cases (same e.scope agent_private)) [
  | inl t ↦ (
    λ h. private_allows_sound e agent (rw t at h),
    λ r. elim r [
      | inl n ↦ absurd (n (same→eq e.scope agent_private t))
      | inr (a, q, w) ↦ rw (t, q) (private_allows_complete e a w)
    ],
  )
  | inr f ↦ (λ h. inl (λ q. cc (f, eq→same e.scope agent_private q)), λ r. rw f)
]
