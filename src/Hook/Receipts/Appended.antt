-- ===== src/Hook/Receipts/Appended.antt =====
-- What is loaded after a receipt has been appended.
use hive_memory.Hook.Cycle.Session.{run_path-parent}
use hive_memory.AtomicWrite.Replaced.{write_atomic-Stores, Stores}
use hive_memory.AtomicWrite.{Outcome, AtomicWriteOptions}
use hive_memory.Hook.Cycle.{HookStateError}
use hive_memory.Hook.Receipts.Lines.{IsLine, lines-separated, EndsWell}
use hive_memory.AtomicWrite.Files.{Disk, Faults, FilePath}
use hive_memory.Base.{
  false, ap, ◌∙◌, filter-append, filter, is_empty, not, ◌≡◌, ◌⊎◌, inl, inr, refl, Option, none,
  some, List, [], ◌∷◌, ◌++◌, ℕ,
}
use hive_memory.Text.{lines, trim, Text, codes}
use hive_memory.Hook.Receipts.{
  read_line, put_first, appended, write_receipts_path, append_parsed, read_write_receipts_path,
  load_write_receipts, append_write_receipt_with_options, Appending, separated,
  parse_write_receipts, collect, ReceiptCodec, WriteReceipt,
}

module _ (codec : ReceiptCodec) where
  -- The line of a receipt: one line, not blank, that is read back as the receipt.
  pub record IsRecord (receipt : WriteReceipt) (line : Text) : Type 0 where
    pub written : codec.to_writer receipt ≡ inr line
    pub one_line : IsLine line
    pub present : is_empty (trim line) ≡ false
    pub read : codec.from_str line ≡ inr receipt

  -- One more receipt, where there is no error.
  abbrev add_receipt :
      WriteReceipt → HookStateError ⊎ List WriteReceipt → HookStateError ⊎ List WriteReceipt
  add_receipt receipt (inl err) = inl err
  add_receipt receipt (inr receipts) = inr (receipts ++ receipt ∷ [])

  put_first-add_receipt :
      (receipt : WriteReceipt) (r : HookStateError ⊎ WriteReceipt)
      (rest : HookStateError ⊎ List WriteReceipt)
      → put_first codec r (add_receipt receipt rest) ≡ add_receipt receipt (put_first codec r rest)
  put_first-add_receipt receipt (inl err) rest = refl
  put_first-add_receipt receipt (inr first) (inl err) = refl
  put_first-add_receipt receipt (inr first) (inr receipts) = refl

  collect-append :
      (ls : List Text) (line : Text) (receipt : WriteReceipt)
      → codec.from_str line ≡ inr receipt
      → collect codec (ls ++ line ∷ []) ≡ add_receipt receipt (collect codec ls)
  collect-append [] line receipt f = rw f refl
  collect-append (l ∷ ls) line receipt f =
      ap (put_first codec (read_line codec (codec.from_str l))) (collect-append ls line receipt f)
      ∙ put_first-add_receipt receipt (read_line codec (codec.from_str l)) (collect codec ls)

  alone :
      (line : Text)
      → is_empty (trim line) ≡ false
      → filter (λ w. not (is_empty (trim w))) (line ∷ []) ≡ line ∷ []
  alone line h = rw h refl

  parse-separated :
      (text line : Text) (receipt : WriteReceipt) (receipts : List WriteReceipt)
      → EndsWell text
      → IsRecord receipt line
      → parse_write_receipts codec text ≡ inr receipts
      → parse_write_receipts codec (separated text ++ (line ++ 10 ∷ []))
        ≡ inr (receipts ++ receipt ∷ [])
  unfolding parse_write_receipts
  parse-separated text line receipt receipts e r h =
      let kept = λ (w : Text). not (is_empty (trim w)) in
      let more : filter kept (lines text ++ line ∷ []) ≡ filter kept (lines text) ++ line ∷ [] =
        filter-append kept (lines text) (line ∷ [])
        ∙ ap (λ (ls : List Text). filter kept (lines text) ++ ls) (alone line r.present) in
      ap (λ (ls : List Text). collect codec (filter kept ls))
        (lines-separated text line e r.one_line)
      ∙ ap (collect codec) more
      ∙ collect-append (filter kept (lines text)) line receipt r.read
      ∙ ap (add_receipt receipt) h

  -- Where the append reports success, the receipts could be read before, and are there now, the new one
  -- after them.
  abbrev pub Adds :
      FilePath → Text → HookStateError ⊎ List WriteReceipt → WriteReceipt → Appending → Type 0
  Adds state_dir session_id before receipt (files, some err) = Unit
  Adds state_dir session_id before receipt (files, none) =
      (receipts : List WriteReceipt) × (before ≡ inr receipts)
      × (load_write_receipts codec state_dir session_id none files ≡ inr (receipts ++ receipt ∷ []))

  module _ (state_dir : FilePath) (session_id : Text) (receipt : WriteReceipt) (text line : Text)
      (e : EndsWell text) (r : IsRecord receipt line)
      (decodes : (t : Text) → codec.decode (codec.encode t) ≡ inr t) where
    appended-Adds :
        (receipts : List WriteReceipt) (o : Outcome)
        → parse_write_receipts codec text ≡ inr receipts
        → Stores
            (write_receipts_path state_dir session_id)
            (codec.encode (separated text ++ (line ++ 10 ∷ [])))
            o
        → Adds state_dir session_id
            (parse_write_receipts codec text)
            receipt
            (appended codec (write_receipts_path state_dir session_id) o)
    unfolding load_write_receipts read_write_receipts_path
    appended-Adds receipts (files, inl w) h s = (
      receipts,
      h,
      rw (s, decodes (separated text ++ (line ++ 10 ∷ [])))
          (parse-separated text line receipt receipts e r h),
    )
    appended-Adds receipts (files, inr err) h s = tt

    parsed-Adds :
        (p : HookStateError ⊎ List WriteReceipt) (pid : ℕ) (uuid : Text)
        (options : AtomicWriteOptions) (faults : Faults) (files : Disk)
        → parse_write_receipts codec text ≡ p
        → Adds state_dir session_id (parse_write_receipts codec text) receipt (
            append_parsed codec
              (write_receipts_path state_dir session_id)
              text
              receipt
              p
              pid
              uuid
              options
              faults
              files)
    parsed-Adds (inl err) pid uuid options faults files h = tt
    parsed-Adds (inr receipts) pid uuid options faults files h =
        let (dir, parent_of) = run_path-parent state_dir session_id (codes "writes.jsonl") in
        rw r.written (
          appended-Adds receipts _ h (
            write_atomic-Stores pid uuid (write_receipts_path state_dir session_id) dir
              (codec.encode (separated text ++ (line ++ 10 ∷ []))) options faults files
              (unfold write_receipts_path in parent_of)))

    -- An append that reports success has kept every receipt and added the new one at the end, and none
    -- succeeds on a file with a line that cannot be read: whatever calls fail, if the file's text is empty
    -- or does not end with a carriage return, and the receipt is read back from its line.
    pub append_write_receipt-Adds :
        (lock : Option HookStateError) (fault : Option Text) (pid : ℕ) (uuid : Text)
        (options : AtomicWriteOptions) (faults : Faults) (files : Disk)
        → read_write_receipts_path codec (write_receipts_path state_dir session_id) none files
          ≡ inr text
        → Adds state_dir session_id
            (load_write_receipts codec state_dir session_id none files)
            receipt
            (append_write_receipt_with_options codec state_dir session_id receipt lock fault pid
              uuid options faults files)
    unfolding append_write_receipt_with_options load_write_receipts read_write_receipts_path
    append_write_receipt-Adds (some err) fault pid uuid options faults files h = tt
    append_write_receipt-Adds none (some m) pid uuid options faults files h = tt
    append_write_receipt-Adds none none pid uuid options faults files h =
        rw h (parsed-Adds (parse_write_receipts codec text) pid uuid options faults files refl)
