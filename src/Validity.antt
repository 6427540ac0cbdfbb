-- ===== src/Validity.antt =====
-- The validity window of a record: `allows` of src/validity.rs. The parser of RFC 3339 times (the
-- `time` crate) and the clock are parameters.
use hive_memory.Base.{
  ◌≡◌, ◌↔◌, ◌⊎◌, inl, inr, refl, Bool, true, false, not, ◌&&◌, Option, none, some, if◌then◌else◌,
  arith, inl, inr,
}
use hive_memory.Base.Int.{ℤ, ltb_ℤ, leb_ℤ, ◌≤ℤ◌, ◌<ℤ◌}
use hive_memory.Text.{Text}
use hive_memory.Record.{IndexEntry}

module _ (parse_time : Text → Option ℤ) (now : ℤ) where
  -- The time of an optional bound, if it is there and can be read.
  abbrev pub bound : Option Text → Option ℤ
  bound none = none
  bound (some value) = parse_time value

  unfoldable pub allows : IndexEntry → Bool → Bool
  allows entry include_expired =
      if elim (bound entry.valid_from) [ none ↦ false | some valid_from ↦ ltb_ℤ now valid_from ]
      then false
      else if not include_expired
          && elim (bound entry.valid_to) [ none ↦ false | some valid_to ↦ leb_ℤ valid_to now ]
      then false
      else true

  unfoldable pub allows_current : IndexEntry → Bool
  unfolding allows
  allows_current entry = allows entry false

  unfoldable pub allows_search : IndexEntry → Bool → Bool
  unfolding allows
  allows_search entry include_expired = allows entry include_expired

  -- The record has begun, and has not ended. A bound that is absent or cannot be read bounds nothing.
  abbrev pub Begun : Option ℤ → Type 0
  Begun none = Unit
  Begun (some t) = t ≤ℤ now

  abbrev pub NotEnded : Option ℤ → Type 0
  NotEnded none = Unit
  NotEnded (some t) = now <ℤ t

  abbrev pub InWindow : IndexEntry → Bool → Type 0
  InWindow e include_expired =
      Begun (bound e.valid_from) × ((include_expired ≡ true) ⊎ NotEnded (bound e.valid_to))

  allows_iff :
      (e : IndexEntry) (inc : Bool) (from to : Option ℤ)
      → bound e.valid_from ≡ from
      → bound e.valid_to ≡ to
      → (allows e inc ≡ true) ↔ (Begun from × ((inc ≡ true) ⊎ NotEnded to))
  unfolding allows
  allows_iff e true none to p q = (λ h. (tt, inl refl), λ w. ground arith)
  allows_iff e true (some t) to p q = (λ h. (ground arith, inl refl), λ w. ground arith)
  allows_iff e false none none p q = (λ h. (tt, inr tt), λ w. ground arith)
  allows_iff e false none (some t) p q = (λ h. (tt, inr (ground arith)), λ w. ground arith)
  allows_iff e false (some t) none p q = (λ h. (ground arith, inr tt), λ w. ground arith)
  allows_iff e false (some t) (some t') p q =
      (λ h. (ground arith, inr (ground arith)), λ w. ground arith)

  -- Search shows a record exactly while the clock is in its window; the end of the window does not
  -- count when ended records are asked for.
  pub allows_search_iff :
      (e : IndexEntry) (include_expired : Bool)
      → (allows_search e include_expired ≡ true) ↔ InWindow e include_expired
  unfolding allows_search
  allows_search_iff e inc = allows_iff e inc (bound e.valid_from) (bound e.valid_to) refl refl

  -- What is injected as current is found by every search too.
  pub allows_search_of_current :
      (e : IndexEntry) (include_expired : Bool)
      → allows_current e ≡ true
      → allows_search e include_expired ≡ true
  unfolding allows_current allows_search
  allows_search_of_current e inc h = ground arith
