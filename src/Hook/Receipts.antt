-- ===== src/Hook/Receipts.antt =====
-- The receipts of a session's writes (src/hook.rs): one JSON record for each line of a file. The JSON
-- reader and writer and UTF-8 are parameters. The outcome of the blocking lock is an argument.
pub mod Lines
pub mod Appended
use hive_memory.AtomicWrite.Calls.{write_atomic}
use hive_memory.AtomicWrite.{AtomicWriteOptions, AtomicWriteError, Outcome}
use hive_memory.AtomicWrite.Files.{Faults, FilePath, Disk, Bytes}
use hive_memory.Base.{
  ◌++◌, ◌&&◌, is_empty, not, ◌==◌, ℕ, false, if◌then◌else◌, filter, ◌⊎◌, inl, inr, Bool, Option,
  none, some, List, [], ◌∷◌,
}
use hive_memory.Text.{lines, trim, Text, codes}
use hive_memory.Hook.Cycle.{HookStateError, run_path}

pub record WriteReceipt : Type 0 where
  pub created_at : Text
  pub store : Text
  pub scope : Text
  pub project_id : Option Text
  pub note_id : Text
  pub created : Bool

pub record ReceiptCodec : Type 0 where
  pub decode : Bytes → Text ⊎ Text
  pub encode : Text → Bytes
  pub from_str : Text → Text ⊎ WriteReceipt
  pub to_writer : WriteReceipt → Text ⊎ Text
  pub shown : AtomicWriteError → Text

unfoldable pub write_receipts_path : FilePath → Text → FilePath
write_receipts_path state_dir session_id = run_path state_dir session_id (codes "writes.jsonl")

abbrev pub ends_with_feed : Text → Bool
ends_with_feed [] = false
ends_with_feed (c ∷ []) = c == 10
ends_with_feed (c ∷ d ∷ s) = ends_with_feed (d ∷ s)

-- The prior text with the separator that its last record lacks.
unfoldable pub separated : Text → Text
separated existing =
    if not (is_empty existing) && not (ends_with_feed existing)
    then existing ++ 10 ∷ []
    else existing

abbrev pub Appending : Type 0
Appending = Disk × Option HookStateError

module _ (codec : ReceiptCodec) where
  abbrev pub read_line : Text ⊎ WriteReceipt → HookStateError ⊎ WriteReceipt
  read_line (inl message) = inl (HookStateError.json message)
  read_line (inr receipt) = inr receipt

  abbrev pub put_first :
      HookStateError ⊎ WriteReceipt
      → HookStateError ⊎ List WriteReceipt
      → HookStateError ⊎ List WriteReceipt
  put_first (inl err) rest = inl err
  put_first (inr receipt) (inl err) = inl err
  put_first (inr receipt) (inr receipts) = inr (receipt ∷ receipts)

  -- `collect`: the first error, or all the receipts.
  abbrev pub collect : List Text → HookStateError ⊎ List WriteReceipt
  collect [] = inr []
  collect (line ∷ rest) = put_first (read_line (codec.from_str line)) (collect rest)

  unfoldable pub parse_write_receipts : Text → HookStateError ⊎ List WriteReceipt
  parse_write_receipts contents =
      collect (filter (λ line. not (is_empty (trim line))) (lines contents))

  abbrev pub read_decoded : FilePath → Text ⊎ Text → HookStateError ⊎ Text
  read_decoded path (inl message) = inl (HookStateError.io (codes "read") path message)
  read_decoded path (inr text) = inr text

  -- The reading, by its fault and by what the path holds: a missing file is an empty one.
  abbrev pub read_from : FilePath → Option Text → Option Bytes → HookStateError ⊎ Text
  read_from path (some message) held = inl (HookStateError.io (codes "read") path message)
  read_from path none none = inr []
  read_from path none (some bytes) = read_decoded path (codec.decode bytes)

  unfoldable pub read_write_receipts_path : FilePath → Option Text → Disk → HookStateError ⊎ Text
  read_write_receipts_path path fault files = read_from path fault (files path)

  abbrev pub parse_read : HookStateError ⊎ Text → HookStateError ⊎ List WriteReceipt
  parse_read (inl err) = inl err
  parse_read (inr contents) = parse_write_receipts contents

  unfoldable pub load_write_receipts :
      FilePath → Text → Option Text → Disk → HookStateError ⊎ List WriteReceipt
  load_write_receipts state_dir session_id fault files =
      parse_read (read_write_receipts_path (write_receipts_path state_dir session_id) fault files)

  abbrev pub appended : FilePath → Outcome → Appending
  appended path (files, inl warnings) = (files, none)
  appended path (files, inr err) =
      (files, some (HookStateError.io (codes "write") path (codec.shown err)))

  -- The arguments of the write: the process id, the random part of the temporary name, the faults.
  abbrev pub append_json :
      FilePath → Text → Text ⊎ Text → ℕ → Text → AtomicWriteOptions → Faults → Disk → Appending
  append_json path existing (inl message) pid uuid options faults files =
      (files, some (HookStateError.json message))
  append_json path existing (inr line) pid uuid options faults files = appended path (
      write_atomic pid uuid path (codec.encode (separated existing ++ (line ++ 10 ∷ []))) options
        faults files)

  abbrev pub append_parsed :
      FilePath
      → Text
      → WriteReceipt
      → HookStateError ⊎ List WriteReceipt
      → ℕ
      → Text
      → AtomicWriteOptions
      → Faults
      → Disk
      → Appending
  append_parsed path existing receipt (inl err) pid uuid options faults files = (files, some err)
  append_parsed path existing receipt (inr receipts) pid uuid options faults files =
      append_json path existing (codec.to_writer receipt) pid uuid options faults files

  abbrev pub append_read :
      FilePath
      → WriteReceipt
      → HookStateError ⊎ Text
      → ℕ
      → Text
      → AtomicWriteOptions
      → Faults
      → Disk
      → Appending
  append_read path receipt (inl err) pid uuid options faults files = (files, some err)
  append_read path receipt (inr existing) pid uuid options faults files =
      append_parsed path existing receipt (parse_write_receipts existing) pid uuid options faults
        files

  unfoldable pub append_write_receipt_with_options :
      FilePath
      → Text
      → WriteReceipt
      → Option HookStateError
      → Option Text
      → ℕ
      → Text
      → AtomicWriteOptions
      → Faults
      → Disk
      → Appending
  append_write_receipt_with_options state_dir session_id receipt (some err) fault pid uuid options
        faults files =
      (files, some err)
  append_write_receipt_with_options state_dir session_id receipt none fault pid uuid options faults
        files =
      let path = write_receipts_path state_dir session_id in
      append_read path receipt (read_write_receipts_path path fault files) pid uuid options faults
        files
