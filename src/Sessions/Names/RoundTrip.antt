-- ===== src/Sessions/Names/RoundTrip.antt =====
-- internal/sessions/session.go: which paths DecodeProjectName gives back.
use pican.Base.{
  ℕ, ◌≡◌, ◌≢◌, refl, ◌∙◌, ap, ◌⊎◌, Bool, true, false, ◌&&◌, List, [], ◌∷◌, ◌==◌, if◌then◌else◌,
  arith,
}
use mathlib.Core.List.{reverse_aux-append, reverse-reverse}
use pican.Base.Text.{contains}
use pican.Sessions.Bytes.{trim_bytes}
use pican.Sessions.Names.{
  slash, dash, underscore, replace_one, trim_slashes, unwrap, wrap, is_windows_path, escape,
  encode_project_name, decode_project_body, is_dashed_drive, decoded_drive, rooted,
  decode_project_name,
}

-- No underscore has a dash right after it.
abbrev pub has_break : List ℕ → Bool
has_break [] = false
has_break (a ∷ []) = false
has_break (a ∷ b ∷ cs) = if a == underscore && b == dash then true else has_break (b ∷ cs)

double : List ℕ → List ℕ
double = replace_one underscore (underscore ∷ underscore ∷ [])

abbrev starts_with : ℕ → List ℕ → Bool
starts_with b [] = false
starts_with b (c ∷ cs) = c == b

-- Each byte of a path is a slash, an underscore or another.
abbrev IsOther : ℕ → Type 0
IsOther c = ((c == slash) ≡ false) × ((c == underscore) ≡ false)

unwrap-wrap : (s : List ℕ) → unwrap (wrap s) ≡ s
unwrap-wrap s = rw (reverse_aux-append s (dash ∷ dash ∷ []) []) (reverse-reverse s)

escape_plain :
    (s : List ℕ) → contains underscore s ≡ false → contains slash s ≡ false → escape s ≡ s
escape_plain [] h k = refl
escape_plain (c ∷ s) h k = ground (arith, escape_plain s)

-- What the path of a project is under its root, for the name to be decoded to it: it has no dash
-- right after an underscore, an underscore or a slash if it has a dash, and is no letter and two
-- dashes, as the name of a Windows drive is.
pub record IsRecovered (s : List ℕ) : Type 0 where
  pub unbroken : has_break s ≡ false
  pub marked :
      (contains underscore s ≡ true) ⊎ (contains slash s ≡ true) ⊎ (contains dash s ≡ false)
  pub no_drive : is_dashed_drive s ≡ false

-- The path of a project, absolute and with no space or slash at its ends but the root's.
pub record IsProjectPath (path s : List ℕ) : Type 0 where
  pub under_root : path ≡ slash ∷ s
  pub trimmed : trim_bytes path ≡ path
  pub one_root : trim_slashes path ≡ s
  pub not_windows : is_windows_path path ≡ false
  pub begins : rooted s ≡ slash ∷ s

slashed_no_dash : (s : List ℕ) → contains dash (replace_one dash (slash ∷ []) s) ≡ false
slashed_no_dash [] = refl
slashed_no_dash (c ∷ s) = ground (arith, slashed_no_dash s)

contains-rooted : (s : List ℕ) → contains dash (rooted s) ≡ contains dash s
contains-rooted [] = refl
contains-rooted (c ∷ s) = ground arith

drive_unrooted : (s : List ℕ) (r : List ℕ) → is_dashed_drive s ≡ true → decoded_drive s ≢ slash ∷ r
drive_unrooted [] r h e = cc
drive_unrooted (a ∷ []) r h e = cc
drive_unrooted (a ∷ b ∷ []) r h e = cc
drive_unrooted (a ∷ b ∷ c ∷ s) r h e = let root : a ≡ slash = cc in absurd (ground arith)

-- The name of a project right under the root whose own name has a dash and no underscore is not
-- decoded to its path.
pub decode-dashed :
    (path s : List ℕ)
    → IsProjectPath path s
    → contains underscore s ≡ false
    → contains slash s ≡ false
    → contains dash s ≡ true
    → decode_project_name (encode_project_name path) ≢ path
unfolding decode_project_name encode_project_name decode_project_body
decode-dashed path s p u l d e = by_drive (is_dashed_drive s) refl
  where
    whole : decode_project_name (encode_project_name path) ≡ slash ∷ s
    whole = e ∙ p.under_root

    by_drive : (b : Bool) → is_dashed_drive s ≡ b → ⊥
    by_drive true drive = drive_unrooted s s drive (
        rw (p.trimmed, p.not_windows, p.one_root, unwrap-wrap (escape s), escape_plain s u l, drive)
          at whole)
    by_drive false plain =
        let shown : rooted (replace_one dash (slash ∷ []) s) ≡ slash ∷ s =
          rw
            (
              p.trimmed,
              p.not_windows,
              p.one_root,
              unwrap-wrap (escape s),
              escape_plain s u l,
              plain,
              u,
            )
            at whole in
        absurd (
          ground (
            arith,
            slashed_no_dash s,
            contains-rooted (replace_one dash (slash ∷ []) s),
            ap (contains dash) shown,
          ))
