-- ===== src/BasePath/Parse.antt =====
-- internal/basepath/basepath.go: what `Parse` accepts and what it makes of it.
use pican.Base.{◌≡◌, ◌≢◌, ℕ, ◌⊎◌, true, false, ◌||◌, List, [], Result, ok, err}
use pican.Base.Text.{codes, contains, has_prefix}
use pican.BasePath.{MountPath, ParseError, no_slash, has_query, not_normalized, clean, trim_slash}

-- The mount that a text without space around it writes: a rooted path without query and fragment,
-- which is the text, or the text but for a slash at its end, and is cleaned.
pub record IsMount (raw value : List ℕ) : Type 0 where
  pub rooted : has_prefix (codes "/") raw ≡ true
  pub no_query : (contains b'?' raw || contains b'#' raw) ≡ false
  pub normal : value ≡ clean raw
  pub no_root : value ≢ codes "/"
  pub written : (raw ≡ value) ⊎ (trim_slash raw ≡ value)

abbrev pub Parsed : List ℕ → Result ParseError MountPath → Type 0
Parsed raw (ok p) = (p.value ≡ []) ⊎ IsMount raw p.value
Parsed raw (err no_slash) = has_prefix (codes "/") raw ≡ false
Parsed raw (err has_query) = (contains b'?' raw || contains b'#' raw) ≡ true
Parsed raw (err not_normalized) = (clean raw ≢ raw) × (trim_slash raw ≢ clean raw)
