-- ===== src/Workspace.antt =====
-- internal/workspace/containment.go: the paths that a hosted workspace admits. A cleaned absolute
-- path is the list of its names, none for "/"; what the operating system answers is an argument.
pub mod Inside
pub mod Contained
mod Tests
use pican.Base.{
  ℕ, Bool, true, false, not, ◌&&◌, ◌||◌, List, [], ◌∷◌, ◌++◌, map, reverse, Option, none, some,
  Result, ok, err, ◌==◌, if◌then◌else◌,
}
use pican.Base.Text.{codes, same}
use pican.Sessions.Bytes.{trim_bytes}

abbrev pub Names : Type 0
Names = List (List ℕ)

pub data Presence : Type 0 where
  there : Presence
  absent : Presence
  unknown : Presence

-- `filepath.Abs`, `filepath.EvalSymlinks`, `os.Lstat`, and whether `os.Stat` finds a directory.
pub record Disk : Type 0 where
  pub abs : List ℕ → Option Names
  pub eval_symlinks : Names → Option Names
  pub lstat : Names → Presence
  pub is_dir : Names → Option Bool

pub data Refusal : Type 0 where
  no_path : Refusal
  outside_root : Refusal
  traversal : Refusal
  not_absolute : Refusal
  not_resolved : Refusal
  not_read : Refusal
  not_there : Refusal
  no_directory : Refusal
  not_made : Refusal

pub record Resolver : Type 0 where
  pub root : Names

abbrev pub is_empty : List ℕ → Bool
is_empty [] = true
is_empty (b ∷ bs) = false

abbrev pub no_names : Names → Bool
no_names [] = true
no_names (n ∷ ns) = false

-- The components of a text between slashes and backslashes.
abbrev pub push_byte : ℕ → Names → Names
push_byte b [] = (b ∷ []) ∷ []
push_byte b (p ∷ ps) = (b ∷ p) ∷ ps

abbrev pub components : List ℕ → Names
components [] = [] ∷ []
components (b ∷ bs) =
    if b == b'/' || b == 92 then [] ∷ components bs else push_byte b (components bs)

abbrev pub any_dots : Names → Bool
any_dots [] = false
any_dots (p ∷ ps) = same p (codes "..") || any_dots ps

unfoldable pub has_traversal : List ℕ → Bool
has_traversal path = any_dots (components path)

-- Two paths without the names that both begin with.
abbrev pub strip_common : Names → Names → Names × Names
strip_common [] ts = ([], ts)
strip_common (b ∷ bs) [] = (b ∷ bs, [])
strip_common (b ∷ bs) (t ∷ ts) = if same b t then strip_common bs ts else (b ∷ bs, t ∷ ts)

-- `filepath.Rel` of absolute paths, the names of the answer; none is ".".
abbrev pub rel_of : Names × Names → Option Names
rel_of ([], ts) = some ts
rel_of (b ∷ bs, ts) =
    if same b (codes "..") then none else some (codes ".." ∷ (map (λ n. codes "..") bs ++ ts))

abbrev pub is_below : Option Names → Bool
is_below none = false
is_below (some []) = true
is_below (some (n ∷ ns)) = not (same n (codes ".."))

unfoldable pub contains : Names → Names → Bool
contains root path = is_below (rel_of (strip_common root path))

abbrev pub as_root : Names → Option Bool → Result Refusal Resolver
as_root canonical none = err not_read
as_root canonical (some dir) = if dir then ok (record { root = canonical }) else err no_directory

abbrev pub inside : Resolver → Names → Result Refusal Names
inside r candidate = if contains r.root candidate then ok candidate else err outside_root

module _ (disk : Disk) where
  abbrev pub new_linked : Option Names → Result Refusal Resolver
  new_linked none = err not_resolved
  new_linked (some canonical) = as_root canonical (disk.is_dir canonical)

  abbrev pub new_at : Option Names → Result Refusal Resolver
  new_at none = err not_absolute
  new_at (some absolute) = new_linked (disk.eval_symlinks absolute)

  unfoldable pub new : List ℕ → Result Refusal Resolver
  unfolding trim_bytes
  new root =
      let trimmed = trim_bytes root in
      if is_empty trimmed then err no_path else new_at (disk.abs trimmed)

  module _ (r : Resolver) where
    abbrev pub existing_linked : Option Names → Result Refusal Names
    existing_linked none = err not_resolved
    existing_linked (some canonical) = inside r canonical

    abbrev pub existing_at : Option Names → Result Refusal Names
    existing_at none = err not_absolute
    existing_at (some absolute) = existing_linked (disk.eval_symlinks absolute)

    unfoldable pub resolve_existing : List ℕ → Result Refusal Names
    resolve_existing path =
        let trimmed = trim_bytes path in
        if is_empty trimmed
        then err no_path
        else if has_traversal trimmed
        then err traversal
        else existing_at (disk.abs trimmed)

    -- The loop to the nearest ancestor that is there: the names of the path from the last one on,
    -- and those that were taken off it, which are joined in this order.
    abbrev pub component_checked :
        List ℕ → Result Refusal (Names × Names) → Result Refusal (Names × Names)
    component_checked name rest =
        if is_empty name || same name (codes ".") || same name (codes "..")
        then err traversal
        else rest

    abbrev pub step_up :
        Presence → Names → Names → Result Refusal (Names × Names) → Result Refusal (Names × Names)
    step_up there ancestor suffix rest = ok (ancestor, suffix)
    step_up absent ancestor suffix rest = rest
    step_up unknown ancestor suffix rest = err not_read

    unfoldable pub find_ancestor : Names → Names → Result Refusal (Names × Names)
    find_ancestor [] suffix = step_up (disk.lstat []) [] suffix (err not_there)
    find_ancestor (name ∷ up) suffix =
        let rest = find_ancestor up (name ∷ suffix) in
        let ancestor = reverse (name ∷ up) in
        step_up (disk.lstat ancestor) ancestor suffix (component_checked name rest)

    abbrev pub joined : Names → Names → Option Bool → Result Refusal Names
    joined canonical suffix none = err not_read
    joined canonical suffix (some dir) =
        if not dir && not (no_names suffix)
        then err no_directory
        else inside r (canonical ++ suffix)

    abbrev pub creation_linked : Names → Option Names → Result Refusal Names
    creation_linked suffix none = err not_resolved
    creation_linked suffix (some canonical) = joined canonical suffix (disk.is_dir canonical)

    abbrev pub creation_from : Result Refusal (Names × Names) → Result Refusal Names
    creation_from (err e) = err e
    creation_from (ok (ancestor, suffix)) = creation_linked suffix (disk.eval_symlinks ancestor)

    abbrev pub creation_at : Option Names → Result Refusal Names
    creation_at none = err not_absolute
    creation_at (some absolute) = creation_from (find_ancestor (reverse absolute) [])

    unfoldable pub resolve_for_creation : List ℕ → Result Refusal Names
    resolve_for_creation path =
        let raw = trim_bytes path in
        if is_empty raw
        then err no_path
        else if has_traversal raw
        then err traversal
        else creation_at (disk.abs raw)

-- The text of a path.
abbrev pub text_of : Names → List ℕ
text_of [] = codes "/"
text_of (n ∷ []) = b'/' ∷ n
text_of (n ∷ m ∷ ns) = b'/' ∷ (n ++ text_of (m ∷ ns))

-- Whether the directory is made in the root, by its path from there, and the disk after that.
module _ (disk : Disk) (makes : Names → Bool) (later : Disk) (r : Resolver) where
  abbrev pub made : Names → Option Names → Result Refusal Names
  made candidate none = err outside_root
  made candidate (some rel) =
      if not (is_below (some rel))
      then err outside_root
      else if makes rel
      then resolve_existing later r (text_of candidate)
      else err not_made

  abbrev pub create_at : Result Refusal Names → Result Refusal Names
  create_at (err e) = err e
  create_at (ok candidate) = made candidate (rel_of (strip_common r.root candidate))

  unfoldable pub create_dir : List ℕ → Result Refusal Names
  create_dir path = create_at (resolve_for_creation disk r path)
