-- ===== src/Classify/Agreement.antt =====
-- Where the kind inferred at writing and the heuristic at reading agree on one text, and where not.
use hive_memory.Text.Trim.{trim_part}
use hive_memory.Text.Search.{contains_within}
use hive_memory.Record.{EntryKind, MemoryKind}
use hive_memory.Classify.Write.{
  project, reads_as_incident, KindInference, InferKindInput, infer_kind,
}
use hive_memory.Classify.Inject.{
  InjectClass, Strategy, select, classify_adaptive, default_markers, classify, ClassifyInput,
}
use hive_memory.Text.Ascii.{lower-append, lower_idem, is_ascii_part, is_ascii-lower}
use hive_memory.Base.{
  sym, subst, none, ◌∙◌, some, Option, ap, or_rest, or_right, or_left, any, ℕ, ◌≡◌, refl, Bool,
  true, false, ◌||◌, List, [], ◌∷◌, ◌++◌, arith, Bool-cases, inl, inr,
}
use hive_memory.Text.{
  same, trim, contains, is_ascii, is_ascii_digit, lower_char, to_ascii_lowercase, Text,
}
use hive_memory.Classify.Signals.{
  operational_keywords, looks_operational, Unicode, is_dash, has_iso_date, fits, iso_date,
}

-- A date in a part of a text is a date in the text.
fits-append : (ps : List (ℕ → Bool)) (s v : Text) → fits ps s ≡ true → fits ps (s ++ v) ≡ true
fits-append [] s v h = refl
fits-append (p ∷ ps) [] v h = absurd (cc)
fits-append (p ∷ ps) (c ∷ s) v h = ground (arith, fits-append ps s v)

has_iso_date-before : (s v : Text) → has_iso_date s ≡ true → has_iso_date (s ++ v) ≡ true
unfolding has_iso_date
has_iso_date-before [] v h = absurd (cc)
has_iso_date-before (c ∷ s) v h = elim (Bool-cases (fits iso_date (c ∷ s))) [
  | inl t ↦ or_left _ _ (fits-append iso_date (c ∷ s) v t)
  | inr f ↦
      or_right (fits iso_date (c ∷ (s ++ v))) (has_iso_date (s ++ v))
        (has_iso_date-before s v (or_rest (fits iso_date (c ∷ s)) (has_iso_date s) f h))
]

has_iso_date-part : (u s v : Text) → has_iso_date s ≡ true → has_iso_date (u ++ (s ++ v)) ≡ true
unfolding has_iso_date
has_iso_date-part [] s v h = has_iso_date-before s v h
has_iso_date-part (c ∷ u) s v h = or_right _ _ (has_iso_date-part u s v h)

-- Lower case keeps digits and dashes, and makes none.
digit-lower_char : (c : ℕ) → is_ascii_digit (lower_char c) ≡ is_ascii_digit c
digit-lower_char c = ground arith

dash-lower_char : (c : ℕ) → is_dash (lower_char c) ≡ is_dash c
dash-lower_char c = ground arith

abbrev KeptByLower : List (ℕ → Bool) → Type 0
KeptByLower [] = Unit
KeptByLower (p ∷ ps) = ((c : ℕ) → p (lower_char c) ≡ p c) × KeptByLower ps

iso_date-KeptByLower : KeptByLower iso_date
iso_date-KeptByLower =
    let d = digit-lower_char in
    let h = dash-lower_char in (d, (d, (d, (d, (h, (d, (d, (h, (d, (d, tt))))))))))

fits-lower :
    (ps : List (ℕ → Bool)) (s : Text) → KeptByLower ps → fits ps (to_ascii_lowercase s) ≡ fits ps s
unfolding to_ascii_lowercase
fits-lower [] s h = refl
fits-lower (p ∷ ps) [] h = refl
fits-lower (p ∷ ps) (c ∷ s) (hp, h) = rw (hp c, fits-lower ps s h)

has_iso_date-lower : (s : Text) → has_iso_date (to_ascii_lowercase s) ≡ has_iso_date s
unfolding has_iso_date to_ascii_lowercase
has_iso_date-lower [] = refl
has_iso_date-lower (c ∷ s) =
    rw (has_iso_date-lower s)
      (ap (λ b. b || has_iso_date s) (fits-lower iso_date (c ∷ s) iso_date-KeptByLower))

any_mono :
    (p q : Text → Bool) (l : List Text)
    → ((x : Text) → p x ≡ true → q x ≡ true)
    → any p l ≡ true
    → any q l ≡ true
any_mono p q [] f h = h
any_mono p q (x ∷ xs) f h = elim (Bool-cases (p x)) [
  | inl t ↦ or_left (q x) (any q xs) (f x t)
  | inr e ↦ or_right (q x) (any q xs) (any_mono p q xs f (or_rest (p x) (any p xs) e h))
]

operational-inv :
    (u : Unicode) (body : Text) (keywords : List Text)
    → looks_operational u body keywords ≡ true
    → (has_iso_date body ≡ true)
      × (any (λ keyword. contains (u.to_lowercase body) (u.to_lowercase keyword)) keywords ≡ true)
unfolding looks_operational
operational-inv u body keywords h = elim (Bool-cases (has_iso_date body)) [
  | inl t ↦ (t, rw t at h)
  | inr f ↦ absurd (cc (rw f at h))
]

-- What is operational in the lower case of a part of an ASCII text is operational in the text.
operational-part :
    (u : Unicode) (a s b : Text) (keywords : List Text)
    → is_ascii (a ++ (s ++ b)) ≡ true
    → looks_operational u (to_ascii_lowercase s) keywords ≡ true
    → looks_operational u (a ++ (s ++ b)) keywords ≡ true
operational-part u a s b keywords h k =
    let (d, m) = operational-inv u (to_ascii_lowercase s) keywords k in
    let dated : has_iso_date (a ++ (s ++ b)) ≡ true =
      has_iso_date-part a s b (rw has_iso_date-lower at d) in
    let part_lower : u.to_lowercase (to_ascii_lowercase s) ≡ to_ascii_lowercase s =
      u.on_ascii (to_ascii_lowercase s) (is_ascii-lower s (is_ascii_part a s b h)) ∙ lower_idem s in
    let whole_lower : u.to_lowercase (a ++ (s ++ b))
        ≡ to_ascii_lowercase a ++ (to_ascii_lowercase s ++ to_ascii_lowercase b) =
      u.on_ascii (a ++ (s ++ b)) h ∙ simp lower-append in
    unfold looks_operational in
    rw (dated, whole_lower)
      (any_mono (λ x. contains (u.to_lowercase (to_ascii_lowercase s)) (u.to_lowercase x)) _
        keywords
        (λ x e.
          contains_within (to_ascii_lowercase a) (to_ascii_lowercase s) (to_ascii_lowercase b)
            (u.to_lowercase x) (rw part_lower at e))
        m)

abbrev pub untagged : Text → Option Text → Text → ClassifyInput
untagged scope project_id body = record {
  scope = scope;
  project_id = project_id;
  entry_kind = EntryKind.remember;
  kind = none;
  body = body;
}

infer_kind-incident :
    (u : Unicode) (input : InferKindInput) (r : KindInference)
    → infer_kind u input ≡ some r
    → r.kind ≡ MemoryKind.incident
    → looks_operational u (u.to_lowercase (trim input.body)) operational_keywords ≡ true
unfolding infer_kind reads_as_incident
infer_kind-incident u input r h k = ground arith

-- An ASCII text that a write would tag as an incident, and that comes without a tag and outside the
-- scope of a project, is withheld under the relevance strategy and injected under the adaptive one.
pub incident_withheld :
    (u : Unicode) (input : InferKindInput) (r : KindInference) (scope : Text)
    (project_id : Option Text)
    → is_ascii input.body ≡ true
    → infer_kind u input ≡ some r
    → r.kind ≡ MemoryKind.incident
    → same scope project ≡ false
    → (select u Strategy.relevance (untagged scope project_id input.body) default_markers
        ≡ InjectClass.search_only)
      × (select u Strategy.adaptive (untagged scope project_id input.body) default_markers
          ≡ InjectClass.always_on)
unfolding select classify_adaptive
incident_withheld u input r scope project_id ascii h k elsewhere =
    let (a, b, e) = trim_part input.body in
    let part_ascii : is_ascii (a ++ (trim input.body ++ b)) ≡ true =
      subst (λ x. is_ascii x ≡ true) e ascii in
    let lowered : u.to_lowercase (trim input.body) ≡ to_ascii_lowercase (trim input.body) =
      u.on_ascii (trim input.body) (is_ascii_part a (trim input.body) b part_ascii) in
    let found : looks_operational u (a ++ (trim input.body ++ b)) operational_keywords ≡ true =
      operational-part u a (trim input.body) b operational_keywords part_ascii (
        subst (λ x. looks_operational u x operational_keywords ≡ true) lowered
          (infer_kind-incident u input r h k)) in
    (
      operational_withheld
          (subst (λ x. looks_operational u x operational_keywords ≡ true) (sym e) found),
      rw elsewhere refl,
    )
  where
    operational_withheld :
        looks_operational u input.body operational_keywords ≡ true
        → classify u (untagged scope project_id input.body) default_markers
          ≡ InjectClass.search_only
    operational_withheld q = unfold classify in ground (arith, q)
