-- ===== src/Outbox/Publication.antt =====
-- What a publication may write.
use hive_memory.Base.{
  subst, ℕ, ◌≡◌, ◌≢◌, refl, Bool, false, Option, none, some, List, [], ◌∷◌, ◌++◌, inl, inr, All,
  All-append, In, arith, Bool-cases,
}
use hive_memory.Text.{Text, codes, same, words}
use hive_memory.Text.Split.{IsPiece, words_sound}
use hive_memory.AtomicWrite.Files.{FilePath, parent, Bytes, Disk, Faults, Keeps}
use hive_memory.AtomicWrite.{AtomicWriteOptions, AtomicWriteError, Outcome}
use hive_memory.AtomicWrite.Calls.{write_atomic_create_new, fixed_temp}
use hive_memory.AtomicWrite.Kept.{write_atomic_create_new-Keeps}
use hive_memory.Outbox.{
  is_slash, normalize, validate_relative_path, after_write, at_final, validated, publish_payload,
}

-- A component that stays where it is: not empty, no separator in it, neither `.` nor `..`.
pub record IsNormal (c : Text) : Type 0 where
  pub nonempty : c ≢ []
  pub one_piece : IsPiece is_slash c
  pub no_parent : same c (codes "..") ≡ false
  pub no_current : same c (codes ".") ≡ false

normalize-IsNormal :
    (path : Text) (components : List Text) (normalized p : FilePath)
    → ((c : Text) → In c components → (c ≢ []) × IsPiece is_slash c)
    → All IsNormal normalized
    → normalize path components normalized ≡ inl p
    → (p ≢ []) × All IsNormal p
normalize-IsNormal path [] [] p w n h = absurd (cc)
normalize-IsNormal path [] (c ∷ normalized) p w n h = kept (inl_injective h)
  where
    inl_injective : normalize path [] (c ∷ normalized) ≡ inl p → c ∷ normalized ≡ p
    inl_injective e = cc

    kept : c ∷ normalized ≡ p → (p ≢ []) × All IsNormal p
    kept e = (λ q. cc (e, q), subst (All IsNormal) e n)
normalize-IsNormal path (c ∷ components) normalized p w n h =
    elim (Bool-cases (same c (codes ".."))) [
      | inl t ↦ absurd (ground (arith, t))
      | inr f ↦ elim (Bool-cases (same c (codes "."))) [
        | inl t ↦
            normalize-IsNormal path components normalized p (λ x i. w x (inr i)) n
              (ground (arith, f, t))
        | inr g ↦
            let (ne, piece) = w c (inl refl) in
            let it : IsNormal c = record {
              nonempty = ne;
              one_piece = piece;
              no_parent = f;
              no_current = g;
            } in
            normalize-IsNormal path components (normalized ++ c ∷ []) p (λ x i. w x (inr i))
              (All-append IsNormal normalized (c ∷ []) n (it, tt)) (ground (arith, f, g))
      ]
    ]

-- A path that is accepted is not empty, and each of its components stays inside the directory it
-- stands in: none is empty, `.` or `..`, or holds a separator.
pub validate_relative_path-IsNormal :
    (path : Text) (relative : FilePath)
    → validate_relative_path path ≡ inl relative
    → (relative ≢ []) × All IsNormal relative
unfolding validate_relative_path
validate_relative_path-IsNormal [] relative h =
    normalize-IsNormal [] (words is_slash []) [] relative (λ c i. words_sound is_slash c [] i) tt h
validate_relative_path-IsNormal (c ∷ path) relative h = elim (Bool-cases (is_slash c)) [
  | inl t ↦ absurd (ground (arith, t))
  | inr f ↦
      normalize-IsNormal (c ∷ path) (words is_slash (c ∷ path)) [] relative
        (λ x i. words_sound is_slash x (c ∷ path) i) tt (ground (arith, f))
]

module _ (sha256 : Bytes → Text) (display : AtomicWriteError → Text) (rereadable : Bool) where
  module _ (q final_path dir : FilePath) (pid : ℕ) (uuid expected_hash : Text) (contents : Bytes)
      (options : AtomicWriteOptions) (faults : Faults) (files : Disk) where
    after_write-Keeps :
        (r : Outcome)
        → Keeps q files r.0
        → Keeps q files (after_write sha256 display rereadable expected_hash final_path r).0
    after_write-Keeps (left, inl w) k c h = k c h
    after_write-Keeps (left, inr err) k c h = k c h

    at_final-Keeps :
        (fault : Option Text) (held : Option Bytes)
        → parent final_path ≡ some dir
        → files (fixed_temp pid uuid dir final_path) ≡ none
        → Keeps q files
            (at_final sha256 display rereadable fault held pid uuid expected_hash final_path
              contents options faults files).0
    at_final-Keeps (some m) held e n c h = h
    at_final-Keeps none (some existing) e n c h = h
    at_final-Keeps none none e n c h =
        after_write-Keeps
          (write_atomic_create_new pid uuid final_path contents options faults files)
          (write_atomic_create_new-Keeps pid uuid final_path dir q contents options faults files e
            n)
          c h

  -- Publishing a payload changes no file that is there, in the store or outside it, if the temporary
  -- path beside the final path is fresh.
  pub publish_payload-Keeps :
      (contents : Bytes) (read_fault : Option Text) (source store_root relative dir q : FilePath)
      (path expected_hash : Text) (pid : ℕ) (uuid : Text) (options : AtomicWriteOptions)
      (faults : Faults) (files : Disk)
      → validate_relative_path path ≡ inl relative
      → parent (store_root ++ relative) ≡ some dir
      → files (fixed_temp pid uuid dir (store_root ++ relative)) ≡ none
      → Keeps q files
          (publish_payload sha256 display rereadable
            (inl contents)
            read_fault
            source
            store_root
            path
            expected_hash
            pid
            uuid
            options
            faults
            files).0
  unfolding publish_payload
  publish_payload-Keeps contents read_fault source store_root relative dir q path expected_hash pid
        uuid options faults files v e n c h =
      elim (Bool-cases (same (sha256 contents) expected_hash)) [
        | inr f ↦ rw (f, publish_payload) h
        | inl t ↦
            rw (t, v, publish_payload, validated)
              (at_final-Keeps q (store_root ++ relative) dir pid uuid expected_hash contents options
                faults files read_fault (files (store_root ++ relative)) e n c h)
      ]
