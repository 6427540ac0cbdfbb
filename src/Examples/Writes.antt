-- ===== src/Examples/Writes.antt =====
-- Runs of the file writer, with a disk that holds one file.
use hive_memory.AtomicWrite.Replaced.{write_atomic-IsWhole, IsWhole}
use hive_memory.Base.{
  inr, ℕ, ◌==◌, ◌≢◌, All, inl, ◌≡◌, refl, true, false, none, some, [], ◌∷◌, if◌then◌else◌,
}
use hive_memory.Text.{Text, codes, same, words, split}
use hive_memory.AtomicWrite.Files.{
  write_at, arrive, FilePath, parent, Disk, Faults, same_path, file_name,
}
use hive_memory.AtomicWrite.{
  sync_parent, copy_temp_create_new, publish_temp, write_temp_then_publish, AtomicWriteOptions,
  FsyncPolicy,
}
use hive_memory.Outbox.{publish_payload, validate_relative_path}
use hive_memory.Outbox.Publication.{
  publish_payload-Keeps, validate_relative_path-IsNormal, IsNormal,
}
use hive_memory.AtomicWrite.Reported.{IsInstalled}
use hive_memory.AtomicWrite.Fresh.{write_unique-IsInstalled}
use hive_memory.AtomicWrite.Calls.{
  write_atomic, write_atomic_create_new, write_unique_with_id_generator,
}
use hive_memory.AtomicWrite.Arrived.{write_atomic_create_new-arrived}
use hive_memory.AtomicWrite.Unique.{write_unique-Keeps}

abbrev pub note_path : FilePath
note_path = codes "inbox" ∷ codes "a.md" ∷ []

-- One file, at the path to be written.
abbrev pub one_file : Disk
one_file = λ p. if same_path note_path p then some (codes "old") else none

-- A file system without hard links, where the copy would be made.
abbrev pub no_links : Faults
no_links = record {
  mkdir = none;
  create_temp = none;
  write_temp = none;
  sync_temp = none;
  rename = none;
  link = some (codes "not supported");
  open_temp = none;
  create_final = none;
  copy = none;
  sync_final = none;
  sync_dir = none;
  partial = [];
  removable = true;
  arrivals = [];
}

abbrev pub best_effort : AtomicWriteOptions
best_effort = record {
  fsync = FsyncPolicy.best_effort;
  max_attempts = 5;
  skip_parent_fsync = false;
}

-- Another process creates the final file while the temporary one is written.
abbrev overtaken : Faults
overtaken = record no_links { arrivals = (note_path, codes "theirs") ∷ [] }

abbrev empty_disk : Disk
empty_disk = λ p. none

write_atomic_create_new-arrived_example :
    (write_atomic_create_new 7
        (codes "u")
        note_path
        (codes "new")
        best_effort
        overtaken
        empty_disk).0
      note_path
    ≡ some (codes "theirs")
unfolding parent same_path same file_name arrive write_at
write_atomic_create_new-arrived_example =
    write_atomic_create_new-arrived 7 (codes "u") note_path (codes "inbox" ∷ []) note_path
      (codes "new") best_effort overtaken empty_disk (codes "theirs") refl refl refl refl refl refl
      refl refl

-- The file is the temporary file of another process with the same id.
abbrev temp_held : Disk
temp_held =
    λ p. if same_path (codes "inbox" ∷ codes ".tmp.a.7" ∷ []) p then some (codes "old") else none

write_unique-Keeps_example :
    (write_unique_with_id_generator 7
        (codes "inbox" ∷ [])
        (codes "md")
        (codes "new")
        best_effort
        (λ k. codes "a")
        (λ k. no_links)
        temp_held).0
      (codes "inbox" ∷ codes ".tmp.a.7" ∷ [])
    ≡ some (codes "old")
unfolding same_path same
write_unique-Keeps_example =
    write_unique-Keeps 7 (codes "inbox" ∷ []) (codes "md") (codes "new") best_effort
      (λ k. codes "a") (λ k. no_links) (codes "inbox" ∷ codes ".tmp.a.7" ∷ []) temp_held
      (λ k. inr refl) (codes "old") refl

publish_payload-Keeps_example :
    (publish_payload
        (λ contents. contents)
        (λ err. [])
        true
        (inl (codes "new"))
        none
        (codes "outbox" ∷ [])
        []
        (codes "inbox/./a.md")
        (codes "new")
        7
        (codes "u")
        best_effort
        no_links
        one_file).0
      note_path
    ≡ some (codes "old")
unfolding parent same_path same file_name validate_relative_path words split
publish_payload-Keeps_example =
    publish_payload-Keeps (λ contents. contents) (λ err. []) true (codes "new") none
      (codes "outbox" ∷ []) [] note_path (codes "inbox" ∷ []) note_path (codes "inbox/./a.md")
      (codes "new") 7 (codes "u") best_effort no_links one_file refl refl refl (codes "old") refl

validate_relative_path_example : (note_path ≢ []) × All IsNormal note_path
unfolding validate_relative_path words split same
validate_relative_path_example =
    validate_relative_path-IsNormal (codes "inbox/./a.md") note_path refl

-- The copy takes the place of the link: the file is written at once under the first id that is free.
abbrev ids : ℕ → Text
ids k = if k == 0 then codes "a" else codes "b"

write_unique_run :
    (write_unique_with_id_generator 7
      (codes "inbox" ∷ [])
      (codes "md")
      (codes "new")
      best_effort
      ids
      (λ k. no_links)
      one_file).1
    ≡ inl (record { id = codes "b"; path = codes "inbox" ∷ codes "b.md" ∷ []; warnings = [] })
unfolding write_unique_with_id_generator same_path same write_temp_then_publish publish_temp
    copy_temp_create_new arrive write_at sync_parent parent
write_unique_run = refl

write_unique-IsInstalled_example :
    IsInstalled
      (codes "inbox" ∷ [])
      (codes "md")
      (codes "new")
      ids
      (λ k. no_links)
      one_file
      (write_unique_with_id_generator 7
        (codes "inbox" ∷ [])
        (codes "md")
        (codes "new")
        best_effort
        ids
        (λ k. no_links)
        one_file)
write_unique-IsInstalled_example =
    write_unique-IsInstalled 7 (codes "inbox" ∷ []) (codes "md") (codes "new") best_effort ids
      (λ k. no_links) one_file

write_atomic-IsWhole_example : IsWhole note_path (codes "old") (codes "new") (
    write_atomic 7
      (codes "u")
      note_path
      (codes "new")
      best_effort
      (record no_links { rename = some (codes "busy") })
      one_file)
unfolding parent same_path same file_name
write_atomic-IsWhole_example =
    write_atomic-IsWhole 7 (codes "u") note_path (codes "inbox" ∷ []) (codes "new") best_effort
      (record no_links { rename = some (codes "busy") }) one_file (codes "old") refl refl refl
