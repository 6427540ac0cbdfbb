-- ===== src/Ident/Sorting.antt =====
-- The order of write ids and the order of the times they show.
use hive_memory.Base.{
  ℕ, suc, ◌/◌, ◌^◌, ◌<◌, ◌≡◌, ◌⊎◌, inl, inr, false, List, [], ◌∷◌, ◌++◌, arith, append_assoc,
}
use hive_memory.Text.{Text, text_le}
use hive_memory.Ident.Decimal.{padded-fixed, fixed-lt, text_le-prefix, padded}
use hive_memory.Ident.{Timestamp, timestamp_prefix, write_id_with_parts}

-- The ranges of the calendar, and years of four digits.
pub record InRange (t : Timestamp) : Type 0 where
  pub year : t.year < 10000
  pub month : t.month < 100
  pub day : t.day < 100
  pub hour : t.hour < 100
  pub minute : t.minute < 100
  pub second : t.second < 100
  pub nanosecond : t.nanosecond < 1000000000

-- The fields that an id shows, the most significant first.
abbrev pub shown : Timestamp → List ℕ
shown t = t.year ∷ t.month ∷ t.day ∷ t.hour ∷ t.minute ∷ t.second ∷ (t.nanosecond / 1000) ∷ []

-- The first difference decides.
abbrev pub Before : List ℕ → List ℕ → Type 0
Before (x ∷ xs) (y ∷ ys) = (x < y) ⊎ ((x ≡ y) × Before xs ys)
Before _ _ = ⊥

-- One field of fixed width, and what follows it.
field_before :
    (w m n : ℕ) (s t : Text)
    → m < 10 ^ suc w
    → n < 10 ^ suc w
    → (m < n) ⊎ ((m ≡ n) × (text_le t s ≡ false))
    → text_le (padded (suc w) n ++ t) (padded (suc w) m ++ s) ≡ false
field_before w m n s t hm hn (inl l) =
    rw (padded-fixed w m hm, padded-fixed w n hn) (fixed-lt (suc w) m n s t l hn)
field_before w m n s t hm hn (inr (e, h)) = rw (e, text_le-prefix) h

separator : (c : ℕ) (s t : Text) → text_le t s ≡ false → text_le (c ∷ t) (c ∷ s) ≡ false
unfolding text_le
separator c s t h = ground arith

-- On to the fields that follow.
next : {B C : Type 0} {m n : ℕ} → (m < n) ⊎ ((m ≡ n) × B) → (B → C) → (m < n) ⊎ ((m ≡ n) × C)
next (inl l) f = inl l
next (inr (e, b)) f = inr (e, f b)

-- The last field, the microseconds.
micros_before :
    (a b : ℕ) (s t : Text)
    → a < 1000000000
    → b < 1000000000
    → (a / 1000 < b / 1000) ⊎ ((a / 1000 ≡ b / 1000) × ⊥)
    → text_le (padded 6 (b / 1000) ++ t) (padded 6 (a / 1000) ++ s) ≡ false
micros_before a b s t ha hb h =
    field_before 5 (a / 1000) (b / 1000) s t (omega arith) (omega arith) (next h (λ e. absurd e))

prefix-Before :
    (a b : Timestamp) (s t : Text)
    → InRange a
    → InRange b
    → Before (shown a) (shown b)
    → text_le (timestamp_prefix b ++ t) (timestamp_prefix a ++ s) ≡ false
unfolding timestamp_prefix
prefix-Before a b s t ra rb h = simp append_assoc (
    field_before 3 a.year b.year _ _ ra.year rb.year (
      next h λ h. field_before 1 a.month b.month _ _ ra.month rb.month (
        next h λ h. field_before 1 a.day b.day _ _ ra.day rb.day (
          next h λ h. separator b'T' _ _ (
            field_before 1 a.hour b.hour _ _ ra.hour rb.hour (
              next h λ h. field_before 1 a.minute b.minute _ _ ra.minute rb.minute (
                next h λ h. field_before 1 a.second b.second _ _ ra.second rb.second (
                  next h λ h. separator b'.' _ _ (
                    micros_before a.nanosecond b.nanosecond _ _ ra.nanosecond rb.nanosecond
                      h)))))))))

-- If the time shown by one id is before that of another, the first id sorts before the second,
-- whatever the hosts, the processes, the agents and the random parts.
pub write_id-Before :
    (a b : Timestamp) (pid pid' : ℕ) (host host' agent agent' random random' : Text)
    → InRange a
    → InRange b
    → Before (shown a) (shown b)
    → text_le
        (write_id_with_parts b pid' host' agent' random')
        (write_id_with_parts a pid host agent random)
      ≡ false
unfolding write_id_with_parts
write_id-Before a b pid pid' host host' agent agent' random random' ra rb h =
    prefix-Before a b _ _ ra rb h
