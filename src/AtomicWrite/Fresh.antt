-- ===== src/AtomicWrite/Fresh.antt =====
-- What the loop of a unique write reports.
use hive_memory.Base.{
  ℕ, zero, suc, ◌≡◌, refl, Bool, Option, none, some, inl, inr, arith, Bool-cases, Option-cases,
  if◌then◌else◌,
}
use hive_memory.Text.{codes, Text, same}
use hive_memory.AtomicWrite.Files.{FilePath, Bytes, Disk, Faults, Keeps}
use hive_memory.AtomicWrite.{
  PublishMode, AtomicWriteOptions, AtomicWriteError, io, install, temp_exists, collision_limit,
  remove_temp, Outcome, temp_opened, write_temp_then_publish,
}
use hive_memory.AtomicWrite.Calls.{
  UniqueOutcome, final_of, temp_of, settle, attempt, unique_attempts, bad_extension, with_directory,
  write_unique_with_id_generator,
}
use hive_memory.AtomicWrite.Kept.{remove-Keeps, apart_paths, temp_opened-Keeps}
use hive_memory.AtomicWrite.Reported.{IsInstalled, IsWritten, temp_opened-IsWritten}

-- A file that is not there later was not there before.
absent_before :
    (q : FilePath) (files left : Disk) → Keeps q files left → left q ≡ none → files q ≡ none
absent_before q files left k n = elim (Option-cases (files q)) [
  | inl e ↦ e
  | inr (c, e) ↦ absurd (ground (arith, k c e, n))
]

module _ (dir : FilePath) (extension : Text) (contents : Bytes) (next_id : ℕ → Text)
    (faults : ℕ → Faults) where
  abbrev Installs : Disk → UniqueOutcome → Type 0
  Installs files o = IsInstalled dir extension contents next_id faults files o

  IsInstalled-before :
      (files left : Disk) (o : UniqueOutcome)
      → ((q : FilePath) → Keeps q files left)
      → Installs left o
      → Installs files o
  IsInstalled-before files left (after, inr err) k h = tt
  IsInstalled-before files left (after, inl r) k (h, n, at, arrived) =
      (h, absent_before r.path files left (k r.path) n, at, arrived)

  -- A failure other than that of the installation is returned.
  failed :
      (final_path temp_path : FilePath) (retry : Disk → UniqueOutcome) (j : ℕ) (message : Text)
      (files : Disk)
      → Installs files (
          settle retry
            (next_id j)
            final_path
            temp_path
            (faults j)
            (files, inr (io (codes "create temporary file") temp_path message)))
  unfolding same
  failed final_path temp_path retry j message files = tt

  settle-IsInstalled :
      (temp_path : FilePath) (retry : Disk → UniqueOutcome) (j : ℕ) (r : Outcome) (files : Disk)
      (options : AtomicWriteOptions)
      → files (final_of dir extension (next_id j)) ≡ none
      → files temp_path ≡ none
      → ((left : Disk) → Installs left (retry left))
      → ((q : FilePath) → Keeps q files r.0)
      → IsWritten (final_of dir extension (next_id j)) contents options (faults j) r
      → Installs files
          (settle retry (next_id j) (final_of dir extension (next_id j)) temp_path (faults j) r)
  settle-IsInstalled temp_path retry j (left, inl w) files options n t again k (h, a) =
      (h, n, refl, (j, refl, a))
  settle-IsInstalled temp_path retry j (left, inr (io action p m)) files options n t again k h =
      tried (same action install)
    where
      removed : (q : FilePath) → Keeps q files (remove_temp (faults j) temp_path left)
      removed q c e =
          remove-Keeps q temp_path (faults j) left (apart_paths temp_path q files c t e) c (k q c e)

      tried :
          (b : Bool)
          → Installs files (
              if b
              then retry (remove_temp (faults j) temp_path left)
              else (remove_temp (faults j) temp_path left, inr (io action p m)))
      tried Bool.true =
          IsInstalled-before files (remove_temp (faults j) temp_path left) _ removed
            (again (remove_temp (faults j) temp_path left))
      tried Bool.false = tt
  settle-IsInstalled temp_path retry j (left, inr (temp_exists p)) files options n t again k h =
      IsInstalled-before files left (retry left) k (again left)
  settle-IsInstalled temp_path retry j (left, inr AtomicWriteError.empty_extension) files options n
        t again k h =
      tt
  settle-IsInstalled temp_path retry j (left, inr (collision_limit a)) files options n t again k h =
      tt

module _ (pid : ℕ) (dir : FilePath) (extension : Text) (contents : Bytes)
    (options : AtomicWriteOptions) (next_id : ℕ → Text) (faults : ℕ → Faults) where
  attempt-IsInstalled :
      (retry : Disk → UniqueOutcome) (k : ℕ) (files : Disk) (o : Option Bytes)
      → files (final_of dir extension (next_id k)) ≡ o
      → ((left : Disk) → IsInstalled dir extension contents next_id faults left (retry left))
      → IsInstalled dir extension contents next_id faults files
          (attempt pid dir extension contents options next_id faults retry k files o)
  attempt-IsInstalled retry k files (some old) e again = again files
  attempt-IsInstalled retry k files none e again =
      unfold write_temp_then_publish in
      attempted (files (temp_of pid dir (next_id k))) (faults k).create_temp refl
    where
      attempted :
          (held : Option Bytes) (fault : Option Text)
          → files (temp_of pid dir (next_id k)) ≡ held
          → IsInstalled dir extension contents next_id faults files (
              settle retry
                (next_id k)
                (final_of dir extension (next_id k))
                (temp_of pid dir (next_id k))
                (faults k)
                (temp_opened held fault
                  (temp_of pid dir (next_id k))
                  (final_of dir extension (next_id k))
                  contents
                  options
                  PublishMode.create_new
                  (faults k)
                  files))
      attempted (some old) (some m) h =
          failed dir extension contents next_id faults (final_of dir extension (next_id k))
            (temp_of pid dir (next_id k)) retry k m files
      attempted (some old) none h = again files
      attempted none fault n =
          let temp_path = temp_of pid dir (next_id k) in
          let final_path = final_of dir extension (next_id k) in
          settle-IsInstalled dir extension contents next_id faults temp_path retry k
            (temp_opened none fault temp_path final_path contents options PublishMode.create_new
              (faults k) files)
            files options e n again
            (λ q c h.
              temp_opened-Keeps q final_path contents options (faults k) temp_path
                (apart_paths temp_path q files c n h) none fault files n c h)
            (temp_opened-IsWritten final_path contents options (faults k) temp_path none fault
              files)

  attempts-IsInstalled :
      (n k : ℕ) (files : Disk)
      → IsInstalled dir extension contents next_id faults files
          (unique_attempts pid dir extension contents options next_id faults n k files)
  unfolding unique_attempts
  attempts-IsInstalled zero k files = tt
  attempts-IsInstalled (suc n) k files =
      attempt-IsInstalled
        (λ left. unique_attempts pid dir extension contents options next_id faults n (suc k) left) k
        files (files (final_of dir extension (next_id k))) refl
        (λ left. attempts-IsInstalled n (suc k) left)

  -- Where a unique write reports a path, it is the path of a generated id, whose file holds the contents
  -- now, was not there before the call, and was not created by another process during the attempt with
  -- that id, whatever ids are generated, whatever calls fail and whatever files other processes create.
  pub write_unique-IsInstalled :
      (files : Disk)
      → IsInstalled dir extension contents next_id faults files
          (write_unique_with_id_generator pid dir extension contents options next_id faults files)
  unfolding write_unique_with_id_generator
  write_unique-IsInstalled files =
      elim (Bool-cases (bad_extension pid dir extension contents options next_id faults)) [
        | inl t ↦ rw t tt
        | inr f ↦ rw f (made (faults 0).mkdir)
      ]
    where
      made :
          (o : Option Text)
          → IsInstalled dir extension contents next_id faults files
              (with_directory pid dir extension contents options next_id faults o files)
      made (some m) = tt
      made none = attempts-IsInstalled _ 0 files
