-- ===== src/Ident.antt =====
-- Write identifiers (src/id.rs). The process id, the clock and the UUID are arguments, as in
-- `write_id_with_parts`; a year before 0, which the clock of a running program does not give, is not
-- modelled.
pub mod Decimal
pub mod Sorting
pub mod Safety
use hive_memory.Base.{
  ℕ, ◌/◌, ◌≡◌, Bool, true, false, ◌||◌, List, [], ◌∷◌, ◌++◌, map, ◌==◌, if◌then◌else◌, is_empty,
}
use hive_memory.Text.{Text, codes, is_ascii_alphanumeric, to_ascii_lowercase}
use hive_memory.Ident.Decimal.{decimal, padded}

-- The fields of `OffsetDateTime` that the prefix prints.
pub record Timestamp : Type 0 where
  pub year : ℕ
  pub month : ℕ
  pub day : ℕ
  pub hour : ℕ
  pub minute : ℕ
  pub second : ℕ
  pub nanosecond : ℕ

abbrev pub is_component_char : ℕ → Bool
is_component_char ch = is_ascii_alphanumeric ch || ch == b'_' || ch == b'-'

unfoldable pub sanitize_component : Text → Text
sanitize_component input =
    let sanitized : Text = map (λ ch. if is_component_char ch then ch else b'-') input in
    if is_empty sanitized then codes "unknown" else sanitized

unfoldable pub timestamp_prefix : Timestamp → Text
timestamp_prefix t =
    padded 4 t.year
    ++ (padded 2 t.month
        ++ (padded 2 t.day
            ++ (b'T'
                ∷ (padded 2 t.hour
                    ++ (padded 2 t.minute
                        ++ (padded 2 t.second
                            ++ (b'.' ∷ (padded 6 (t.nanosecond / 1000) ++ (b'Z' ∷ [])))))))))

unfoldable pub write_id_with_parts : Timestamp → ℕ → Text → Text → Text → Text
write_id_with_parts timestamp pid host_id agent_id random =
    timestamp_prefix timestamp
    ++ (b'_'
        ∷ (sanitize_component host_id
            ++ (b'_'
                ∷ (decimal pid
                    ++ (b'_'
                        ∷ (sanitize_component agent_id
                            ++ (b'_' ∷ to_ascii_lowercase (sanitize_component random))))))))
