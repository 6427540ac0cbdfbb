-- ===== src/Text/Maps.antt =====
-- `HashMap<String, V>` where the source only inserts and looks up: the last value inserted under a
-- key is found.
use hive_memory.Base.{Option, none, some, List, [], ◌∷◌, if◌then◌else◌}
use hive_memory.Text.Defs.{Text, same}

abbrev pub TextMap : Type 0 → Type 0
TextMap V = List (Text × V)

module _ {V : Type 0} where
  abbrev pub get : Text → TextMap V → Option V
  get k [] = none
  get k ((j, v) ∷ m) = if same j k then some v else get k m

  abbrev pub put : Text → V → TextMap V → TextMap V
  put k v m = (k, v) ∷ m

  -- The same value under each of the keys.
  abbrev pub put_all : List Text → V → TextMap V → TextMap V
  put_all [] v m = m
  put_all (k ∷ ks) v m = put_all ks v (put k v m)
