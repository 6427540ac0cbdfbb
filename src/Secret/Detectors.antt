-- ===== src/Secret/Detectors.antt =====
-- What the detectors find in a text that holds a key.
use hive_memory.Base.{
  ℕ, suc, ◌≤◌, ◌<◌, ◌≡◌, ◌≢◌, ◌∙◌, inl, inr, refl, Bool, true, false, ◌||◌, List, [], ◌∷◌, ◌++◌,
  all, arith, In, In-map, any-In, length, length-append, All, All-append,
}
use hive_memory.Text.{
  Text, codes, contains, starts_with, words, byte_len, is_ascii_upper, is_ascii_digit,
}
use hive_memory.Text.Search.{starts_with-append, contains_part}
use hive_memory.Text.Split.{IsPiece, Closes, Opens, words_complete}
use hive_memory.Text.Sets.{In-insert_self, In-insert_old}
use hive_memory.Secret.{
  SecretFinding, looks_like_private_key, is_separator, tokens, is_aws_key,
  contains_aws_access_key_id, github_prefixes, is_github_token, contains_github_token,
  contains_assignment_secret, private_key_id, aws_access_key_id, github_token_id,
  secret_assignment_id, insert_if, detect,
}

abbrev pub finding : Text → SecretFinding
finding id = record { detector_id = id }

In-insert_if : (b : Bool) (id : Text) (s : List Text) → b ≡ true → In id (insert_if b id s)
In-insert_if true id s h = In-insert_self id s
In-insert_if false id s h = absurd (cc)

In-insert_if_old : (b : Bool) (a id : Text) (s : List Text) → In a s → In a (insert_if b id s)
In-insert_if_old true a id s i = In-insert_old a id s i
In-insert_if_old false a id s i = i

-- The set of detectors after each test, in the order of the source.
abbrev after_private : Text → List Text
after_private t = insert_if (looks_like_private_key t) private_key_id []

abbrev after_aws : Text → List Text
after_aws t = insert_if (contains_aws_access_key_id t) aws_access_key_id (after_private t)

abbrev after_github : Text → List Text
after_github t = insert_if (contains_github_token t) github_token_id (after_aws t)

module _ (t : Text) where
  from_github : (a : Text) → In a (after_github t) → In (finding a) (detect t)
  unfolding detect
  from_github a i =
      In-map finding a _
        (In-insert_if_old (contains_assignment_secret t) a secret_assignment_id (after_github t) i)

  from_aws : (a : Text) → In a (after_aws t) → In (finding a) (detect t)
  from_aws a i =
      from_github a (In-insert_if_old (contains_github_token t) a github_token_id (after_aws t) i)

  detect-assignment :
      contains_assignment_secret t ≡ true → In (finding secret_assignment_id) (detect t)
  unfolding detect
  detect-assignment h =
      In-map finding secret_assignment_id _
        (In-insert_if (contains_assignment_secret t) secret_assignment_id (after_github t) h)

  detect-github : contains_github_token t ≡ true → In (finding github_token_id) (detect t)
  detect-github h =
      from_github github_token_id
        (In-insert_if (contains_github_token t) github_token_id (after_aws t) h)

  detect-aws : contains_aws_access_key_id t ≡ true → In (finding aws_access_key_id) (detect t)
  detect-aws h =
      from_aws aws_access_key_id
        (In-insert_if (contains_aws_access_key_id t) aws_access_key_id (after_private t) h)

  detect-private : looks_like_private_key t ≡ true → In (finding private_key_id) (detect t)
  detect-private h = from_aws private_key_id (
      In-insert_if_old (contains_aws_access_key_id t) private_key_id aws_access_key_id
        (after_private t) (In-insert_if (looks_like_private_key t) private_key_id [] h))

-- An ASCII text has as many bytes as characters.
abbrev IsAscii : Text → Type 0
IsAscii = All (λ c. c < 0x80)

byte_len-ascii : (s : Text) → IsAscii s → byte_len s ≡ length s
unfolding byte_len
byte_len-ascii [] h = refl
byte_len-ascii (c ∷ s) (hc, h) = ground (arith, byte_len-ascii s h)

-- A character of an AWS key id.
abbrev pub IsKeyChar : ℕ → Type 0
IsKeyChar c = (is_ascii_upper c || is_ascii_digit c) ≡ true

-- A character that does not end a token.
abbrev pub IsTokenChar : ℕ → Type 0
IsTokenChar c = is_separator c ≡ false

key_chars : (s : Text) → All IsKeyChar s → all (λ c. is_ascii_upper c || is_ascii_digit c) s ≡ true
key_chars [] h = refl
key_chars (c ∷ s) (hc, h) = rw (hc, key_chars s h)

key-IsAscii : (s : Text) → All IsKeyChar s → IsAscii s
key-IsAscii [] h = tt
key-IsAscii (c ∷ s) (hc, h) = (ground arith, key-IsAscii s h)

key-IsPiece : (s : Text) → All IsKeyChar s → IsPiece is_separator s
key-IsPiece [] h = tt
key-IsPiece (c ∷ s) (hc, h) = (ground arith, key-IsPiece s h)

token-IsAscii : (s : Text) → All IsTokenChar s → IsAscii s
token-IsAscii [] h = tt
token-IsAscii (c ∷ s) (hc, h) = (ground arith, token-IsAscii s h)

-- An AWS access key id: one of two prefixes and sixteen upper-case letters and digits.
abbrev pub aws_prefixes : List Text
aws_prefixes = codes "AKIA" ∷ codes "ASIA" ∷ []

prefix_keyed : (x : Text) → In x aws_prefixes → All IsKeyChar x × (length x ≡ 4)
prefix_keyed x (inl e) = rw e ((refl, (refl, (refl, (refl, tt)))), refl)
prefix_keyed x (inr (inl e)) = rw e ((refl, (refl, (refl, (refl, tt)))), refl)
prefix_keyed x (inr (inr i)) = absurd i

prefix_tested :
    (x r : Text)
    → In x aws_prefixes
    → starts_with (x ++ r) (codes "AKIA") || starts_with (x ++ r) (codes "ASIA") ≡ true
prefix_tested x r (inl e) = rw e (ground (arith, starts_with-append (codes "AKIA") r))
prefix_tested x r (inr (inl e)) = rw e (ground (arith, starts_with-append (codes "ASIA") r))
prefix_tested x r (inr (inr i)) = absurd i

aws_key :
    (x r : Text) → In x aws_prefixes → length r ≡ 16 → All IsKeyChar r → is_aws_key (x ++ r) ≡ true
unfolding is_aws_key
aws_key x r i l h =
    let (kx, lx) = prefix_keyed x i in
    let keyed : All IsKeyChar (x ++ r) = All-append IsKeyChar x r kx h in
    let n : byte_len (x ++ r) ≡ 20 =
      byte_len-ascii (x ++ r) (key-IsAscii (x ++ r) keyed) ∙ omega (arith, length-append {0} x r) in
    rw (n, prefix_tested x r i, key_chars (x ++ r) keyed)

nonempty : (s : Text) (n : ℕ) → length s ≡ suc n → s ≢ []
nonempty [] n h e = omega arith
nonempty (c ∷ s) n h e = cc

-- An AWS access key id is found wherever it stands, if a character that no token holds, or the end
-- of the text, is on either side of it.
pub detect_aws_key :
    (u x r v : Text)
    → In x aws_prefixes
    → length r ≡ 16
    → All IsKeyChar r
    → Closes is_separator u
    → Opens is_separator v
    → In (finding aws_access_key_id) (detect (u ++ ((x ++ r) ++ v)))
detect_aws_key u x r v i l h cu ov =
    let (kx, lx) = prefix_keyed x i in
    let keyed : All IsKeyChar (x ++ r) = All-append IsKeyChar x r kx h in
    let full : length (x ++ r) ≡ 20 = omega (arith, length-append {0} x r) in
    detect-aws (u ++ ((x ++ r) ++ v)) (
      unfold contains_aws_access_key_id tokens in
      any-In is_aws_key (x ++ r) (words is_separator (u ++ ((x ++ r) ++ v)))
        (words_complete is_separator u (x ++ r) v (nonempty (x ++ r) 19 full)
          (key-IsPiece (x ++ r) keyed) cu ov)
        (aws_key x r i l h))

github_prefixed : (x : Text) → In x github_prefixes → All IsTokenChar x × (length x ≡ 4)
github_prefixed x (inl e) = rw e ((refl, (refl, (refl, (refl, tt)))), refl)
github_prefixed x (inr (inl e)) = rw e ((refl, (refl, (refl, (refl, tt)))), refl)
github_prefixed x (inr (inr (inl e))) = rw e ((refl, (refl, (refl, (refl, tt)))), refl)
github_prefixed x (inr (inr (inr (inl e)))) = rw e ((refl, (refl, (refl, (refl, tt)))), refl)
github_prefixed x (inr (inr (inr (inr (inl e))))) = rw e ((refl, (refl, (refl, (refl, tt)))), refl)
github_prefixed x (inr (inr (inr (inr (inr i))))) = absurd i

github_token :
    (x r : Text)
    → In x github_prefixes
    → All IsTokenChar (x ++ r)
    → 30 ≤ length (x ++ r)
    → is_github_token (x ++ r) ≡ true
unfolding is_github_token
github_token x r i keyed full = ground (
  arith,
  any-In (λ prefix. starts_with (x ++ r) prefix) x github_prefixes i (starts_with-append x r),
  byte_len-ascii (x ++ r) (token-IsAscii (x ++ r) keyed),
)

-- A GitHub token, one of five prefixes and at least twenty-six characters of a token, is found wherever it
-- stands, if a character that no token holds, or the end of the text, is on either side of it.
pub detect_github_token :
    (u x r v : Text)
    → In x github_prefixes
    → 26 ≤ length r
    → All IsTokenChar r
    → Closes is_separator u
    → Opens is_separator v
    → In (finding github_token_id) (detect (u ++ ((x ++ r) ++ v)))
detect_github_token u x r v i l h cu ov =
    let (kx, lx) = github_prefixed x i in
    let keyed : All IsTokenChar (x ++ r) = All-append IsTokenChar x r kx h in
    let full : 30 ≤ length (x ++ r) = omega (arith, length-append {0} x r) in
    detect-github (u ++ ((x ++ r) ++ v)) (
      unfold contains_github_token tokens in
      any-In is_github_token (x ++ r) (words is_separator (u ++ ((x ++ r) ++ v)))
        (words_complete is_separator u (x ++ r) v (some_char (x ++ r) full) keyed cu ov)
        (github_token x r i keyed full))
  where
    some_char : (s : Text) → 30 ≤ length s → s ≢ []
    some_char [] q e = omega arith
    some_char (c ∷ s) q e = cc

-- The two marks of a private key, in a text that has the one before the other or after it.
pub detect_private_key :
    (u v : Text)
    → contains (u ++ (codes "-----BEGIN " ++ v)) (codes "PRIVATE KEY-----") ≡ true
    → In (finding private_key_id) (detect (u ++ (codes "-----BEGIN " ++ v)))
detect_private_key u v h =
    detect-private (u ++ (codes "-----BEGIN " ++ v))
      (unfold looks_like_private_key in rw (contains_part u (codes "-----BEGIN ") v) h)

-- No finding is made where none of the four detectors answers.
pub detect-none :
    (t : Text)
    → looks_like_private_key t ≡ false
    → contains_aws_access_key_id t ≡ false
    → contains_github_token t ≡ false
    → contains_assignment_secret t ≡ false
    → detect t ≡ []
unfolding detect
detect-none t a b c d = rw (a, b, c, d)
