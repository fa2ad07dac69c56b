-- ===== src/Sessions/Labels/Renamed.antt =====
-- internal/sessions/session.go: what the entry of a rename changes for the parse of the summary.
use pican.Base.{
  ℕ, ◌≡◌, ◌≢◌, refl, ◌∙◌, sym, ap, inl, inr, Bool, true, false, List, [], ◌∷◌, ◌++◌, Option, none,
  some, Result, ok, err, String, if◌then◌else◌, str_eq, str_eq_ne, str_eq_iff, Bool-cases,
}
use pican.Sessions.Json.{Fields}
use pican.Sessions.Fold.Typed.{SummaryFold, new_summary_fold, is_typed, typed_line, summary_line_of}
use pican.Sessions.Fold.Lines.{fold_line}
use pican.Sessions.Fold.Agreement.{fold_decoded, fold_typed}
use pican.Sessions.Fold.Finalize.{Disk as Answers, apply_summary_context, finalize_summary}
use pican.Sessions.Labels.{
  EditError, not_written, not_encoded, not_opened, empty_session_name, Disk, name_entry, trim_text,
  write_line, append_encoded, append_session_name,
}

fold_typed-append :
    (fs : SummaryFold) (xs ys : List Fields)
    → fold_typed fs (xs ++ ys) ≡ fold_typed (fold_typed fs xs) ys
fold_typed-append fs [] ys = refl
fold_typed-append fs (x ∷ xs) ys = fold_typed-append (fold_decoded fs (summary_line_of x)) xs ys

name_entry-decoded :
    (stamp name : String) (auto : Bool)
    → summary_line_of (name_entry stamp name auto) ≡ some (typed_line (name_entry stamp name auto))
unfolding summary_line_of is_typed
name_entry-decoded stamp name true = refl
name_entry-decoded stamp name false = refl

-- The entry of a name sets the name of the session_info alone.
abbrev named : String → SummaryFold → SummaryFold
named name fs = record fs { context = record fs.context { session_info_name = name } }

fold-name_entry :
    (fs : SummaryFold) (stamp name : String) (auto : Bool)
    → str_eq name "" ≡ false
    → fold_line fs (typed_line (name_entry stamp name auto)) ≡ named name fs
unfolding fold_line
fold-name_entry fs stamp name true h = rw h refl
fold-name_entry fs stamp name false h = rw h refl

module _ (answers : Answers) (project file_name : String) where
  finalize-named :
      (fs : SummaryFold) (name : String)
      → str_eq name "" ≡ false
      → finalize_summary answers project file_name (named name fs) ≡ (
        record (finalize_summary answers project file_name fs).0 { name = name },
        (finalize_summary answers project file_name fs).1,
      )
  unfolding apply_summary_context
  finalize-named fs name h = rw h refl

  rename-finalize :
      (lines : List Fields) (stamp name : String) (auto : Bool)
      → name ≢ ""
      → finalize_summary answers project file_name
          (fold_typed new_summary_fold (lines ++ name_entry stamp name auto ∷ []))
        ≡ (
          record (finalize_summary answers project file_name
              (fold_typed new_summary_fold lines)).0 { name = name },
          (finalize_summary answers project file_name (fold_typed new_summary_fold lines)).1,
        )
  rename-finalize lines stamp name auto h =
      let fs = fold_typed new_summary_fold lines in
      ap (finalize_summary answers project file_name) (
        fold_typed-append new_summary_fold lines (name_entry stamp name auto ∷ [])
        ∙ ap (fold_decoded fs) (name_entry-decoded stamp name auto)
        ∙ fold-name_entry fs stamp name auto (str_eq_ne name "" h))
      ∙ finalize-named fs name (str_eq_ne name "" h)

module _ (encode : Fields → Option (List ℕ)) (disk : Disk) where
  -- A rename that worked: a line stands at the end of the file, the encoding of an entry after
  -- which the summary of the file's lines shows the name, and all else as before.
  pub record IsRenamed (stamp name : String) (auto : Bool) (bytes after : List ℕ) : Type 0 where
    pub line : List ℕ
    pub encoded : encode (name_entry stamp name auto) ≡ some line
    pub written : after ≡ bytes ++ (line ++ b'\n' ∷ [])
    pub shows :
        (answers : Answers) (project file_name : String) (lines : List Fields)
        → finalize_summary answers project file_name
            (fold_typed new_summary_fold (lines ++ name_entry stamp name auto ∷ []))
          ≡ (
            record (finalize_summary answers project file_name
                (fold_typed new_summary_fold lines)).0 { name = name },
            (finalize_summary answers project file_name (fold_typed new_summary_fold lines)).1,
          )

  ok_only :
      (b : Option ℕ) (line bytes after : List ℕ)
      → write_line encode disk b line bytes ≡ (ok tt, after)
      → after ≡ bytes ++ (line ++ b'\n' ∷ [])
  ok_only none line bytes after h = sym (ap (λ x. x.1) h)
  ok_only (some n) line bytes after h = absurd (refused (ap (λ x. x.0) h))
    where
      refused : ◌≡◌ {A = Result EditError (Unit {0})} (err not_written) (ok tt) → ⊥
      refused k = cc

  appended :
      (o : Option (List ℕ)) (bytes after : List ℕ)
      → append_encoded encode disk o bytes ≡ (ok tt, after)
      → (line : List ℕ) × (o ≡ some line) × (after ≡ bytes ++ (line ++ b'\n' ∷ []))
  appended none bytes after h = absurd (refused (ap (λ x. x.0) h))
    where
      refused : ◌≡◌ {A = Result EditError (Unit {0})} (err not_encoded) (ok tt) → ⊥
      refused k = cc
  appended (some line) bytes after h = elim (Bool-cases disk.opens) [
    | inl e ↦ (line, refl, ok_only disk.breaks_at line bytes after (sym (by_open true e) ∙ h))
    | inr e ↦ absurd (refused (ap (λ x. x.0) (sym (by_open false e) ∙ h)))
  ]
    where
      by_open :
          (b : Bool)
          → disk.opens ≡ b
          → append_encoded encode disk (some line) bytes ≡ (
              if b
              then write_line encode disk disk.breaks_at line bytes
              else (err not_opened, bytes))
      by_open b e = rw e refl

      refused : ◌≡◌ {A = Result EditError (Unit {0})} (err not_opened) (ok tt) → ⊥
      refused k = cc

  -- A rename or an automatic title that answers no error has appended one line to the file; after
  -- the entry that this line encodes, the summary of any lines shows the name without the space
  -- around it, and all else of it is as before.
  pub append_session_name-IsRenamed :
      (name : String) (auto : Bool) (stamp : String) (bytes after : List ℕ)
      → append_session_name encode disk name auto stamp bytes ≡ (ok tt, after)
      → IsRenamed stamp (trim_text name) auto bytes after
  unfolding append_session_name
  append_session_name-IsRenamed name auto stamp bytes after h =
      elim (Bool-cases (str_eq (trim_text name) "")) [
        | inl e ↦ absurd (refused (ap (λ x. x.0) (sym (by_name true e) ∙ h)))
        | inr e ↦
            let (line, encoded, written) = appended _ bytes after (sym (by_name false e) ∙ h) in
            record {
              line = line;
              encoded = encoded;
              written = written;
              shows = λ answers project file_name lines.
                  rename-finalize answers project file_name lines stamp (trim_text name) auto
                    (differ e);
            }
      ]
    where
      by_name :
          (b : Bool)
          → str_eq (trim_text name) "" ≡ b
          → append_session_name encode disk name auto stamp bytes ≡ (
              if b
              then (err empty_session_name, bytes)
              else append_encoded encode disk
                  (encode (name_entry stamp (trim_text name) auto))
                  bytes)
      by_name b e = rw e refl

      refused : ◌≡◌ {A = Result EditError (Unit {0})} (err empty_session_name) (ok tt) → ⊥
      refused k = cc

      differ : str_eq (trim_text name) "" ≡ false → trim_text name ≢ ""
      differ e k = let bad : false ≡ true = sym e ∙ (str_eq_iff (trim_text name) "").1 k in cc
