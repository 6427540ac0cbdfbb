-- ===== src/AtomicWrite/Unique.antt =====
-- What the loop of a unique write does to the files that are there.
use hive_memory.Base.{◌⊎◌, false, ℕ, zero, suc, ◌≡◌, refl, Option, none, some, inl, inr, Bool-cases}
use hive_memory.Text.{Text}
use hive_memory.AtomicWrite.Files.{same_path, FilePath, Bytes, Disk, Faults, Keeps}
use hive_memory.AtomicWrite.{PublishMode, AtomicWriteOptions, temp_opened, write_temp_then_publish}
use hive_memory.AtomicWrite.Calls.{
  UniqueOutcome, final_of, temp_of, settle, attempt, unique_attempts, bad_extension, with_directory,
  write_unique_with_id_generator,
}
use hive_memory.AtomicWrite.Kept.{temp_opened-Keeps, settle-Keeps, apart_paths}

module _ (pid : ℕ) (dir : FilePath) (extension : Text) (contents : Bytes)
    (options : AtomicWriteOptions) (next_id : ℕ → Text) (faults : ℕ → Faults) where
  abbrev attempts_from : ℕ → ℕ → Disk → UniqueOutcome
  attempts_from n k files =
      unique_attempts pid dir extension contents options next_id faults n k files

  -- A file is not touched by an attempt if it is not at the temporary path of the attempt, or if the
  -- creation of the temporary file fails at most because the file exists.
  abbrev IsApart : FilePath → ℕ → Type 0
  IsApart q k =
      (same_path (temp_of pid dir (next_id k)) q ≡ false) ⊎ ((faults k).create_temp ≡ none)

  pub attempt-Keeps :
      (q : FilePath) (retry : Disk → UniqueOutcome) (k : ℕ) (files : Disk) (o : Option Bytes)
      → IsApart q k
      → ((left : Disk) → Keeps q left (retry left).0)
      → Keeps q files (attempt pid dir extension contents options next_id faults retry k files o).0
  attempt-Keeps q retry k files (some old) d again c h = again files c h
  attempt-Keeps q retry k files none d again c h =
      unfold write_temp_then_publish in
      attempted (files (temp_of pid dir (next_id k))) (faults k).create_temp refl refl
    where
      settled :
          (held : Option Bytes) (fault : Option Text)
          → files (temp_of pid dir (next_id k)) ≡ held
          → same_path (temp_of pid dir (next_id k)) q ≡ false
          → (settle retry
                (next_id k)
                (final_of dir extension (next_id k))
                (temp_of pid dir (next_id k))
                (faults k)
                (temp_opened held fault
                  (temp_of pid dir (next_id k))
                  (final_of dir extension (next_id k))
                  contents
                  options
                  PublishMode.create_new
                  (faults k)
                  files)).0
              q
            ≡ some c
      settled held fault n apart =
          settle-Keeps q (final_of dir extension (next_id k)) (temp_of pid dir (next_id k)) retry
            (next_id k) (faults k)
            (temp_opened held fault (temp_of pid dir (next_id k))
              (final_of dir extension (next_id k)) contents options PublishMode.create_new
              (faults k) files)
            files apart again
            (temp_opened-Keeps q (final_of dir extension (next_id k)) contents options (faults k)
              (temp_of pid dir (next_id k)) apart held fault files n)
            c h

      attempted :
          (held : Option Bytes) (fault : Option Text)
          → files (temp_of pid dir (next_id k)) ≡ held
          → (faults k).create_temp ≡ fault
          → (settle retry
                (next_id k)
                (final_of dir extension (next_id k))
                (temp_of pid dir (next_id k))
                (faults k)
                (temp_opened held fault
                  (temp_of pid dir (next_id k))
                  (final_of dir extension (next_id k))
                  contents
                  options
                  PublishMode.create_new
                  (faults k)
                  files)).0
              q
            ≡ some c
      attempted none fault n e =
          settled none fault n (apart_paths (temp_of pid dir (next_id k)) q files c n h)
      attempted (some old) none n e = again files c h
      attempted (some old) (some m) n e = elim d [
        | inl apart ↦ settled (some old) (some m) n apart
        | inr calm ↦ absurd (cc)
      ]

  pub attempts-Keeps :
      (q : FilePath) (n k : ℕ) (files : Disk)
      → ((j : ℕ) → IsApart q j)
      → Keeps q files (attempts_from n k files).0
  unfolding unique_attempts
  attempts-Keeps q zero k files d c h = h
  attempts-Keeps q (suc n) k files d c h =
      attempt-Keeps q (λ left. attempts_from n (suc k) left) k files
        (files (final_of dir extension (next_id k))) (d k)
        (λ left. attempts-Keeps q n (suc k) left d) c h

  -- A unique write changes and removes no file that is there, whatever ids are generated and whatever
  -- calls fail, if for each attempt the file is not at its temporary path, or the creation of its
  -- temporary file fails at most because the file exists. So a temporary file of another process is
  -- kept as long as that creation does not fail in any other way.
  pub write_unique-Keeps :
      (q : FilePath) (files : Disk)
      → ((k : ℕ)
          → (same_path (temp_of pid dir (next_id k)) q ≡ false) ⊎ ((faults k).create_temp ≡ none))
      → Keeps q files
          (write_unique_with_id_generator pid dir extension contents options next_id faults files).0
  unfolding write_unique_with_id_generator
  write_unique-Keeps q files d c h =
      elim (Bool-cases (bad_extension pid dir extension contents options next_id faults)) [
        | inl t ↦ rw t h
        | inr f ↦ rw f (made (faults 0).mkdir)
      ]
    where
      made :
          (o : Option Text)
          → (with_directory pid dir extension contents options next_id faults o files).0 q ≡ some c
      made (some m) = h
      made none = attempts-Keeps q _ 0 files d c h
