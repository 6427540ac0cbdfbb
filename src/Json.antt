-- ===== src/Json.antt =====
-- What the source uses of `serde_json`, as a parameter: the first value of a text, a string field of
-- an object, the items of an array, and the text of a string.
use hive_memory.Base.{Option, List}
use hive_memory.Text.{Text}

pub record Json : Type 1 where
  pub Value : Type 0
  pub first_value : Text → Option Value
  pub get_str : Value → Text → Option Text
  pub as_array : Value → Option (List Value)
  pub as_str : Value → Option Text
