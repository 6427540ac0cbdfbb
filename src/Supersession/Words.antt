-- ===== src/Supersession/Words.antt =====
-- The words of bodies and queries: markers, topics, and the historical exception.
use hive_memory.Base.{
  ℕ, ◌+◌, Bool, true, false, ◌&&◌, ◌||◌, not, Option, none, some, List, [], ◌∷◌, ◌==◌, leb, any,
  map, filter, is_empty, if◌then◌else◌,
}
use hive_memory.Text.{
  Text, codes, same, contains, words, split_whitespace, trim_matches, to_ascii_lowercase, byte_len,
  is_ascii_alphanumeric,
}
use hive_memory.Text.Sets.{insert, member}

abbrev pub is_word_char : ℕ → Bool
is_word_char ch = is_ascii_alphanumeric ch || ch == b'-' || ch == b'_'

unfoldable pub body_tokens : Text → List Text
body_tokens body = words (λ ch. not (is_word_char ch)) body

unfoldable pub contains_word : Text → Text → Bool
contains_word body word = any (λ token. same token word) (body_tokens body)

-- Whether the tokens begin with the words, and whether a window of them is the words.
abbrev begins_with : List Text → List Text → Bool
begins_with tokens [] = true
begins_with [] (w ∷ ws) = false
begins_with (t ∷ ts) (w ∷ ws) = same t w && begins_with ts ws

abbrev some_window : List Text → List Text → Bool
some_window [] ws = false
some_window (t ∷ ts) ws = begins_with (t ∷ ts) ws || some_window ts ws

unfoldable pub contains_phrase : Text → List Text → Bool
contains_phrase body phrase =
    if is_empty phrase then false else some_window (body_tokens body) phrase

unfoldable pub has_stale_marker : Text → Bool
has_stale_marker body =
    contains_phrase body (codes "used" ∷ codes "to" ∷ [])
    || contains_word body (codes "previously")
    || contains_word body (codes "formerly")
    || contains_word body (codes "old")
    || contains_phrase body (codes "no" ∷ codes "longer" ∷ [])

unfoldable pub has_replacement_marker : Text → Bool
has_replacement_marker body =
    contains_word body (codes "now")
    || contains_word body (codes "instead")
    || contains_word body (codes "replaces")
    || contains_word body (codes "replaced")
    || contains_word body (codes "current")

abbrev marker_words : List Text
marker_words =
    codes "current"
    ∷ codes "instead"
    ∷ codes "longer"
    ∷ codes "now"
    ∷ codes "old"
    ∷ codes "previously"
    ∷ codes "replaced"
    ∷ codes "replaces"
    ∷ codes "used"
    ∷ []

unfoldable pub is_marker_word : Text → Bool
is_marker_word term = any (λ word. same word term) marker_words

abbrev stopwords : List Text
stopwords = map codes (
    "a" ∷ "an" ∷ "and" ∷ "are" ∷ "as" ∷ "at" ∷ "be" ∷ "before" ∷ "for" ∷ "from" ∷ "how" ∷ "i" ∷ "in"
    ∷ "is" ∷ "it" ∷ "of" ∷ "on" ∷ "or" ∷ "should" ∷ "the" ∷ "to" ∷ "what" ∷ "when" ∷ "where"
    ∷ "which" ∷ "with" ∷ [])

unfoldable pub is_query_stopword : Text → Bool
is_query_stopword term = any (λ word. same word term) stopwords

-- The set of a list of words.
abbrev collect : List Text → List Text
collect [] = []
collect (w ∷ ws) = insert w (collect ws)

abbrev normalize : Text → Text
normalize token = to_ascii_lowercase (trim_matches (λ ch. not (is_word_char ch)) token)

unfoldable pub query_tokens : Text → List Text
query_tokens input =
    collect (filter (λ token. not (is_empty token)) (map normalize (split_whitespace input)))

unfoldable pub topic_tokens : Text → List Text
topic_tokens input =
    filter
      (λ term. leb 4 (byte_len term) && not (is_query_stopword term) && not (is_marker_word term))
      (query_tokens input)

-- The size of the intersection of two sets.
abbrev count_common : List Text → List Text → ℕ
count_common [] right = 0
count_common (w ∷ left) right = (if member w right then 1 else 0) + count_common left right

unfoldable pub topic_overlap : Text → Text → ℕ
topic_overlap left right = count_common (topic_tokens left) (topic_tokens right)

-- The query names a token that stands only in the older body.
unfoldable pub explicitly_searches_old_fact : Text → Text → Option Text → Bool
explicitly_searches_old_fact old_body new_body none = false
explicitly_searches_old_fact old_body new_body (some query) =
    any
      (λ term.
        contains old_body term && not (contains new_body term) && not (is_query_stopword term))
      (query_tokens query)
