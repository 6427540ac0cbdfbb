-- ===== src/Hook/Intent.antt =====
-- Whether a prompt asks to remember something (src/hook.rs).
use hive_memory.Base.{Bool, List, [], ◌∷◌}
use hive_memory.Text.{Text, codes, contains_any, to_ascii_lowercase}

abbrev pub memory_phrases : List Text
memory_phrases =
    codes "remember this"
    ∷ codes "remember that"
    ∷ codes "please remember"
    ∷ codes "don't forget"
    ∷ codes "do not forget"
    ∷ codes "keep in mind"
    ∷ codes "for future reference"
    ∷ codes "from now on"
    ∷ codes "add to memory"
    ∷ codes "save this"
    ∷ codes "make a note"
    ∷ []

unfoldable pub prompt_has_memory_intent : Text → Bool
prompt_has_memory_intent text = contains_any (to_ascii_lowercase text) memory_phrases
