-- ===== src/AtomicWrite/Kept.antt =====
-- What the exclusive mode of publishing does to the files that are there.
use hive_memory.Base.{
  if◌then◌else◌, ℕ, ◌≡◌, refl, ap, false, Option, none, some, inl, inr, arith, Bool-cases,
}
use hive_memory.Text.{Text, same}
use hive_memory.AtomicWrite.Files.{
  FilePath, same_path, same_path→eq, Bytes, Disk, write_at, erase, Faults, arrive, Keeps,
  write_at-Keeps, arrive-Keeps,
}
use hive_memory.AtomicWrite.{
  collision_limit, temp_exists, Bool, parent, io, PublishMode, AtomicWriteOptions, AtomicWriteError,
  remove_temp, copy_synced, copy_created, copy_opened, copy_from, copy_temp_create_new, after_copy,
  linked, publish_temp, Outcome, published, temp_synced, temp_created, temp_opened,
  write_temp_then_publish,
}
use hive_memory.AtomicWrite.{install}
use hive_memory.AtomicWrite.Calls.{
  fixed_temp, cleaned, in_directory, write_atomic_with_mode, write_atomic_create_new, UniqueOutcome,
  settle,
}

pub remove-Keeps :
    (q p : FilePath) (faults : Faults) (files : Disk)
    → same_path p q ≡ false
    → Keeps q files (remove_temp faults p files)
unfolding erase
remove-Keeps q p faults files d c h = elim (Bool-cases faults.removable) [
  | inl t ↦ rw (t, d) h
  | inr f ↦ rw f h
]

-- A file that was not there is written and may be removed again.
retract-Keeps :
    (q p : FilePath) (contents : Bytes) (faults : Faults) (files : Disk)
    → files p ≡ none
    → Keeps q files (remove_temp faults p (write_at p contents files))
retract-Keeps q p contents faults files n c h = elim (Bool-cases (same_path p q)) [
  | inl t ↦ absurd (ground (arith, ap files (same_path→eq p q t)))
  | inr f ↦
      remove-Keeps q p faults (write_at p contents files) f c
        (write_at-Keeps q p contents files n c h)
]

module _ (q final_path : FilePath) (contents : Bytes) (options : AtomicWriteOptions)
    (faults : Faults) where
  copy_synced-Keeps :
      (o : Option AtomicWriteError) (files : Disk)
      → files final_path ≡ none
      → Keeps q files (copy_synced o final_path contents faults files).0
  copy_synced-Keeps none files n = write_at-Keeps q final_path contents files n
  copy_synced-Keeps (some err) files n = retract-Keeps q final_path contents faults files n

  copy_created-Keeps :
      (o : Option Text) (files : Disk)
      → files final_path ≡ none
      → Keeps q files (copy_created o final_path contents options faults files).0
  copy_created-Keeps (some m) files n = retract-Keeps q final_path faults.partial faults files n
  copy_created-Keeps none files n = copy_synced-Keeps _ files n

  copy_opened-Keeps :
      (held : Option Bytes) (o : Option Text) (files : Disk)
      → files final_path ≡ held
      → Keeps q files (copy_opened held o final_path contents options faults files).0
  copy_opened-Keeps held (some m) files n c h = h
  copy_opened-Keeps (some old) none files n c h = h
  copy_opened-Keeps none none files n c h = copy_created-Keeps faults.copy files n c h

  copy_from-Keeps :
      (o : Option Text) (temp_path : FilePath) (files : Disk)
      → Keeps q files (copy_from o temp_path final_path contents options faults files).0
  copy_from-Keeps none temp_path files =
      copy_opened-Keeps (files final_path) faults.create_final files refl
  copy_from-Keeps (some m) temp_path files = λ c h. h

  copied-Keeps :
      (temp_path : FilePath) (files : Disk)
      → Keeps q files (copy_temp_create_new temp_path final_path contents options faults files).0
  unfolding copy_temp_create_new
  copied-Keeps temp_path files = copy_from-Keeps faults.open_temp temp_path files

  module _ (temp_path : FilePath) (apart : same_path temp_path q ≡ false) where
    after_copy-Keeps :
        (r : Disk × Option AtomicWriteError) (files : Disk)
        → Keeps q files r.0
        → Keeps q files (after_copy temp_path faults r).0
    after_copy-Keeps (left, none) files k c h = remove-Keeps q temp_path faults left apart c (k c h)
    after_copy-Keeps (left, some err) files k c h = k c h

    pub linked-Keeps :
        (o : Option Text) (held : Option Bytes) (files : Disk)
        → files final_path ≡ held
        → Keeps q files (linked o held temp_path final_path contents options faults files).0
    linked-Keeps none none files n c h =
        remove-Keeps q temp_path faults (write_at final_path contents files) apart c
          (write_at-Keeps q final_path contents files n c h)
    linked-Keeps none (some old) files n c h = h
    linked-Keeps (some m) held files n c h =
        after_copy-Keeps (copy_temp_create_new temp_path final_path contents options faults files)
          files (copied-Keeps temp_path files) c h

    pub published-Keeps :
        (r : Disk × Option AtomicWriteError) (files : Disk)
        → Keeps q files r.0
        → Keeps q files (published r final_path options faults).0
    published-Keeps (left, none) files k = k
    published-Keeps (left, some err) files k = k

    temp_synced-Keeps :
        (o : Option AtomicWriteError) (files : Disk)
        → Keeps q files
            (temp_synced o temp_path final_path contents options PublishMode.create_new faults
              files).0
    temp_synced-Keeps (some err) files c h = h
    temp_synced-Keeps none files c h =
        published-Keeps
          (publish_temp temp_path final_path contents PublishMode.create_new options faults
            (arrive faults.arrivals files))
          (arrive faults.arrivals files)
          (unfold publish_temp in
            linked-Keeps faults.link (arrive faults.arrivals files final_path)
              (arrive faults.arrivals files) refl)
          c (arrive-Keeps q faults.arrivals files c h)

    temp_created-Keeps :
        (o : Option Text) (files : Disk)
        → files temp_path ≡ none
        → Keeps q files
            (temp_created o temp_path final_path contents options PublishMode.create_new faults
              files).0
    temp_created-Keeps (some m) files n c h = write_at-Keeps q temp_path faults.partial files n c h
    temp_created-Keeps none files n c h =
        temp_synced-Keeps _ (write_at temp_path contents files) c
          (write_at-Keeps q temp_path contents files n c h)

    pub temp_opened-Keeps :
        (held : Option Bytes) (o : Option Text) (files : Disk)
        → files temp_path ≡ held
        → Keeps q files
            (temp_opened held o temp_path final_path contents options PublishMode.create_new faults
              files).0
    temp_opened-Keeps held (some m) files n c h = h
    temp_opened-Keeps (some old) none files n c h = h
    temp_opened-Keeps none none files n c h = temp_created-Keeps faults.write_temp files n c h

    pub write_temp-Keeps :
        (files : Disk)
        → Keeps q files
            (write_temp_then_publish temp_path final_path contents options PublishMode.create_new
              faults files).0
    unfolding write_temp_then_publish
    write_temp-Keeps files = temp_opened-Keeps (files temp_path) faults.create_temp files refl

-- A path that holds a file is not one that holds none.
pub apart_paths :
    (p q : FilePath) (files : Disk) (c : Bytes)
    → files p ≡ none
    → files q ≡ some c
    → same_path p q ≡ false
apart_paths p q files c n h = elim (Bool-cases (same_path p q)) [
  | inl t ↦ absurd (ground (arith, ap files (same_path→eq p q t)))
  | inr f ↦ f
]

module _ (q : FilePath) (pid : ℕ) (uuid : Text) (final_path : FilePath) (contents : Bytes)
    (options : AtomicWriteOptions) (faults : Faults) where
  cleaned-Keeps :
      (temp_path : FilePath) (r : Outcome) (files : Disk)
      → same_path temp_path q ≡ false
      → Keeps q files r.0
      → Keeps q files (cleaned temp_path faults r).0
  cleaned-Keeps temp_path (left, inl w) files d k c h = k c h
  cleaned-Keeps temp_path (left, inr err) files d k c h =
      remove-Keeps q temp_path faults left d c (k c h)

  in_directory-Keeps :
      (o : Option Text) (dir : FilePath) (files : Disk)
      → files (fixed_temp pid uuid dir final_path) ≡ none
      → Keeps q files
          (in_directory o pid uuid dir final_path contents options PublishMode.create_new faults
            files).0
  in_directory-Keeps (some m) dir files n c h = h
  in_directory-Keeps none dir files n c h =
      let temp_path = fixed_temp pid uuid dir final_path in
      let apart = apart_paths temp_path q files c n h in
      cleaned-Keeps temp_path
        (write_temp_then_publish temp_path final_path contents options PublishMode.create_new faults
          files)
        files apart (write_temp-Keeps q final_path contents options faults temp_path apart files) c
        h

-- A write that must create its file keeps what is there before it, if its temporary path is fresh.
pub write_atomic_create_new-Keeps :
    (pid : ℕ) (uuid : Text) (final_path dir q : FilePath) (contents : Bytes)
    (options : AtomicWriteOptions) (faults : Faults) (files : Disk)
    → parent final_path ≡ some dir
    → files (fixed_temp pid uuid dir final_path) ≡ none
    → Keeps q files (write_atomic_create_new pid uuid final_path contents options faults files).0
unfolding write_atomic_create_new
write_atomic_create_new-Keeps pid uuid final_path dir q contents options faults files e n c h =
    rw (e, write_atomic_with_mode)
      (in_directory-Keeps q pid uuid final_path contents options faults faults.mkdir dir files n c
        h)

pub settle-Keeps :
    (q final_path temp_path : FilePath) (retry : Disk → UniqueOutcome) (id : Text) (faults : Faults)
    (r : Outcome) (files : Disk)
    → same_path temp_path q ≡ false
    → ((left : Disk) → Keeps q left (retry left).0)
    → Keeps q files r.0
    → Keeps q files (settle retry id final_path temp_path faults r).0
settle-Keeps q final_path temp_path retry id faults (left, inl w) files d again k c h = k c h
settle-Keeps q final_path temp_path retry id faults (left, inr (io action path m)) files d again k c
      h =
    tried (same action install) (remove-Keeps q temp_path faults left d c (k c h))
  where
    tried :
        (b : Bool)
        → remove_temp faults temp_path left q ≡ some c
        → (if b
              then retry (remove_temp faults temp_path left)
              else (remove_temp faults temp_path left, inr (io action path m))).0
            q
          ≡ some c
    tried Bool.true held = again (remove_temp faults temp_path left) c held
    tried Bool.false held = held
settle-Keeps q final_path temp_path retry id faults (left, inr (temp_exists p)) files d again k c
      h =
    again left c (k c h)
settle-Keeps q final_path temp_path retry id faults (left, inr AtomicWriteError.empty_extension)
      files d again k c h =
    remove-Keeps q temp_path faults left d c (k c h)
settle-Keeps q final_path temp_path retry id faults (left, inr (collision_limit n)) files d again k
      c h =
    remove-Keeps q temp_path faults left d c (k c h)
