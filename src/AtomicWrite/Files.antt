-- ===== src/AtomicWrite/Files.antt =====
-- The file system that src/write.rs works on: paths as lists of components, and the contents of the
-- files that exist. A set of faults says which calls fail; `arrivals` are the files that other
-- processes create while a temporary file is being written.
use hive_memory.Base.{
  ◌∙◌, sym, subst, All, inr, inl, ℕ, ◌≡◌, refl, ap, Bool, true, false, ◌&&◌, Option, none, some,
  List, [], ◌∷◌, ◌++◌, if◌then◌else◌, arith, Bool-cases,
}
use hive_memory.Text.{Text, codes, same}
use hive_memory.Text.Equality.{same→eq, same_refl}

abbrev pub FilePath : Type 0
FilePath = List Text

unfoldable pub same_path : FilePath → FilePath → Bool
same_path [] [] = true
same_path [] (d ∷ q) = false
same_path (c ∷ p) [] = false
same_path (c ∷ p) (d ∷ q) = same c d && same_path p q

-- `Path::parent`, `Path::file_name` and `Path::join` with one component.
unfoldable pub parent : FilePath → Option FilePath
parent [] = none
parent (c ∷ p) = let rest = parent p in elim rest [ none ↦ some [] | some dir ↦ some (c ∷ dir) ]

unfoldable pub file_name : FilePath → Option Text
file_name [] = none
file_name (c ∷ []) = if same c (codes "..") then none else some c
file_name (c ∷ d ∷ p) = file_name (d ∷ p)

abbrev pub join : FilePath → Text → FilePath
join dir name = dir ++ name ∷ []

abbrev pub Bytes : Type 0
Bytes = List ℕ

abbrev pub Disk : Type 0
Disk = FilePath → Option Bytes

unfoldable pub write_at : FilePath → Bytes → Disk → Disk
write_at p contents files = λ q. if same_path p q then some contents else files q

unfoldable pub erase : FilePath → Disk → Disk
erase p files = λ q. if same_path p q then none else files q

pub record Faults : Type 0 where
  pub mkdir : Option Text
  pub create_temp : Option Text
  pub write_temp : Option Text
  pub sync_temp : Option Text
  pub rename : Option Text
  pub link : Option Text
  pub open_temp : Option Text
  pub create_final : Option Text
  pub copy : Option Text
  pub sync_final : Option Text
  pub sync_dir : Option Text
  pub partial : Bytes
  pub removable : Bool
  pub arrivals : List (FilePath × Bytes)

abbrev put_new : Option Bytes → FilePath → Bytes → Disk → Disk
put_new none p contents files = write_at p contents files
put_new (some old) p contents files = files

unfoldable pub arrive : List (FilePath × Bytes) → Disk → Disk
arrive [] files = files
arrive ((p, contents) ∷ rest) files = arrive rest (put_new (files p) p contents files)

pub same_path→eq : (p q : FilePath) → same_path p q ≡ true → p ≡ q
unfolding same_path
same_path→eq [] [] h = refl
same_path→eq [] (d ∷ q) h = cc
same_path→eq (c ∷ p) [] h = cc
same_path→eq (c ∷ p) (d ∷ q) h = ground (arith, same→eq c d, same_path→eq p q)

pub same_path_refl : (p : FilePath) → same_path p p ≡ true
unfolding same_path
same_path_refl [] = refl
same_path_refl (c ∷ p) = ground (arith, same_refl c, same_path_refl p)

-- What a path holds is held still.
abbrev pub Keeps : FilePath → Disk → Disk → Type 0
Keeps q files files' = (c : Bytes) → files q ≡ some c → files' q ≡ some c

pub write_at-Keeps :
    (q p : FilePath) (contents : Bytes) (files : Disk)
    → files p ≡ none
    → Keeps q files (write_at p contents files)
unfolding write_at
write_at-Keeps q p contents files n c h = elim (Bool-cases (same_path p q)) [
  | inl t ↦ absurd (ground (arith, ap files (same_path→eq p q t)))
  | inr f ↦ ground arith
]

pub arrive-Keeps :
    (q : FilePath) (l : List (FilePath × Bytes)) (files : Disk) → Keeps q files (arrive l files)
unfolding arrive
arrive-Keeps q [] files c h = h
arrive-Keeps q ((p, contents) ∷ rest) files c h =
    arrive-Keeps q rest (put_new (files p) p contents files) c (one (files p) refl)
  where
    one : (o : Option Bytes) → files p ≡ o → put_new o p contents files q ≡ some c
    one none e = write_at-Keeps q p contents files e c h
    one (some old) e = h

-- A path that no process creates.
abbrev pub NotAmong : FilePath → List (FilePath × Bytes) → Type 0
NotAmong q l = All (λ (a : FilePath × Bytes). same_path a.0 q ≡ false) l

put_new-here :
    (o : Option Bytes) (p : FilePath) (contents : Bytes) (files : Disk)
    → files p ≡ o
    → (c : Bytes) × (put_new o p contents files p ≡ some c)
unfolding write_at
put_new-here none p contents files e = (contents, rw (same_path_refl p) refl)
put_new-here (some old) p contents files e = (old, e)

put_new-elsewhere :
    (o : Option Bytes) (p q : FilePath) (contents : Bytes) (files : Disk)
    → same_path p q ≡ false
    → put_new o p contents files q ≡ files q
unfolding write_at
put_new-elsewhere none p q contents files f = rw f refl
put_new-elsewhere (some old) p q contents files f = refl

put_new_agree :
    (o : Option Bytes) (p : FilePath) (contents : Bytes) (files others : Disk)
    → files p ≡ others p
    → put_new o p contents files p ≡ put_new o p contents others p
unfolding write_at
put_new_agree none p contents files others e = rw (same_path_refl p) refl
put_new_agree (some old) p contents files others e = e

-- A path is free after the arrivals only if nothing arrives there.
pub arrive-NotAmong :
    (q : FilePath) (l : List (FilePath × Bytes)) (files : Disk)
    → arrive l files q ≡ none
    → NotAmong q l
unfolding arrive
arrive-NotAmong q [] files n = tt
arrive-NotAmong q ((p, contents) ∷ rest) files n =
    (apart, arrive-NotAmong q rest (put_new (files p) p contents files) n)
  where
    apart : same_path p q ≡ false
    apart = elim (Bool-cases (same_path p q)) [
      | inr f ↦ f
      | inl t ↦
          let (c, h) = put_new-here (files p) p contents files refl in
          let kept = arrive-Keeps p rest (put_new (files p) p contents files) c h in
          absurd (
            ground (
              arith,
              kept,
              n,
              ap (arrive rest (put_new (files p) p contents files)) (same_path→eq p q t),
            ))
    ]

-- What a path holds after the arrivals depends on what it held before.
pub arrive_agree :
    (q : FilePath) (l : List (FilePath × Bytes)) (files others : Disk)
    → files q ≡ others q
    → arrive l files q ≡ arrive l others q
unfolding arrive
arrive_agree q [] files others e = e
arrive_agree q ((p, contents) ∷ rest) files others e =
    arrive_agree q rest (put_new (files p) p contents files) (put_new (others p) p contents others)
      (elim (Bool-cases (same_path p q)) [
        | inr f ↦
            put_new-elsewhere (files p) p q contents files f
            ∙ e
            ∙ sym (put_new-elsewhere (others p) p q contents others f)
        | inl t ↦ there p (same_path→eq p q t)
      ])
  where
    there :
        (r : FilePath)
        → r ≡ q
        → put_new (files r) r contents files q ≡ put_new (others r) r contents others q
    there r s =
        subst
          (λ (x : FilePath).
            put_new (files x) x contents files q ≡ put_new (others x) x contents others q)
          (sym s)
          (put_new_agree (files q) q contents files others e
            ∙ ap (λ o. put_new o q contents others q) e)
