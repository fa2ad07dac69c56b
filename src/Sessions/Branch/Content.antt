-- ===== src/Sessions/Branch/Content.antt =====
-- internal/sessions/session.go: what a fork or a clone of a session writes.
use pican.Base.{
  ℕ, suc, ◌<◌, ◌≤◌, ◌≡◌, ◌≢◌, refl, ◌⊎◌, inl, inr, Bool, true, List, [], ◌∷◌, ◌++◌, reverse, Option,
  none, some, Result, ok, err, ◌==◌, if◌then◌else◌, arith, length, String, str_eq, Bool-cases,
  str_eq_iff, eq_iff, str_eq_ne,
}
use pican.Base.Assoc.{lookup, lookup-insert}
use pican.Base.Text.{codes}
use pican.Sessions.Names.{encode_project_name}
use pican.Sessions.Json.{Fields, text_of}
use pican.Sessions.Branch.{
  Source, Surroundings, BranchError, BranchFile, scan_lines, add_lines, no_source, add_id,
  index_from, by_id, encode_all, branch_name, new_header, create_branch_session_file, with_path,
  with_uuid, write_branch,
}
use pican.Sessions.Branch.Walk.{GoesOn, Branch, walk_ends, walk-Branch, walk_cycles}

-- Where the last entry with this identity stands, from one; zero if there is none.
abbrev pub position : List Fields → String → ℕ
position [] id = 0
position (e ∷ es) id =
    let later = position es id in
    if later == 0 then if str_eq (text_of "id" e) id then 1 else 0 else suc later

-- No entry stands before its parent, as where entries are only ever appended.
abbrev pub IsAppended : List Fields → Type 0
IsAppended [] = Unit
IsAppended (e ∷ es) =
    ((text_of "parentId" e ≡ "")
      ⊎ (text_of "parentId" e ≡ text_of "id" e)
      ⊎ (position es (text_of "parentId" e) ≡ 0))
    × IsAppended es

position-le : (es : List Fields) (id : String) → position es id ≤ length es
position-le [] id = omega arith
position-le (e ∷ es) id = ground (arith, position-le es id)

lookup-add_id :
    (k j : String) (e : Fields) (m : List (String × Fields))
    → j ≢ ""
    → lookup j (add_id k e m) ≡ (if str_eq k j then some e else lookup j m)
lookup-add_id k j e m h = ground (arith, eq_iff k "", eq_iff k j, lookup-insert k j e m)

parent_before :
    (x : Fields) (xs : List Fields) (p c : String)
    → (text_of "parentId" x ≡ "")
      ⊎ (text_of "parentId" x ≡ text_of "id" x)
      ⊎ (position xs (text_of "parentId" x) ≡ 0)
    → text_of "id" x ≡ c
    → text_of "parentId" x ≡ p
    → p ≢ ""
    → p ≢ c
    → position xs p ≡ 0
parent_before x xs p c (inl h) own parent r s = absurd (r cc)
parent_before x xs p c (inr (inl h)) own parent r s = absurd (s cc)
parent_before x xs p c (inr (inr h)) own parent r s = rw (← parent) h

-- An entry that is found by its identity, and its parent.
found :
    (es : List Fields) (m : List (String × Fields)) (c p : String) (e : Fields)
    → IsAppended es
    → c ≢ ""
    → lookup c (index_from es m) ≡ some e
    → text_of "parentId" e ≡ p
    → p ≢ ""
    → p ≢ c
    → ((position es c ≡ 0) × (lookup c m ≡ some e)) ⊎ (position es p < position es c)
found [] m c p e a n l q r s = inl (refl, l)
found (x ∷ xs) m c p e (x_ok, a) n l q r s =
    elim (found xs (add_id (text_of "id" x) x m) c p e a n l q r s) [
      | inr later ↦ inr (ground arith)
      | inl (first, here) ↦ elim (Bool-cases (str_eq (text_of "id" x) c)) [
        | inl same ↦
            let own : text_of "id" x ≡ c = (str_eq_iff (text_of "id" x) c).0 same in
            let this : x ≡ e = ground (arith, lookup-add_id (text_of "id" x) c x m n) in
            let parent : text_of "parentId" x ≡ p = cc in
            let none_later : position xs p ≡ 0 = parent_before x xs p c x_ok own parent r s in
            inr
              (rw (first, same, none_later, str_eq_ne (text_of "id" x) p (λ t. s cc)) (omega arith))
        | inr other ↦
            inl (rw (first, other) refl, ground (arith, lookup-add_id (text_of "id" x) c x m n))
      ]
    ]

falls :
    (es : List Fields) (c p : String)
    → IsAppended es
    → GoesOn (by_id es) c p
    → position es p < position es c
falls es c p a (e, at, parent, n, r, s) = elim (found es [] c p e a n at parent r s) [
  | inl (_, none_at) ↦ cc
  | inr less ↦ less
]

module _ (decode : List ℕ → Option Fields) (encode : Fields → Option (List ℕ)) (limit : ℕ)
    (env : Surroundings) (source_path target : String) (is_fork : Bool) where
  abbrev create : ℕ → List ℕ → Option (Result BranchError BranchFile)
  create = create_branch_session_file decode encode limit env source_path target is_fork

  abbrev read : List (List ℕ) → Source
  read lines = add_lines decode lines no_source

  -- The new file: its header, and the entries of the branch from its root to the target.
  abbrev pub IsCopy : Source → BranchFile → Type 0
  IsCopy s file =
      (id : String) × (header : List ℕ) × (e : Fields) × (es : List Fields) × (env.random_uuid
        ≡ some id)
      × (encode (new_header env id (text_of "cwd" s.header) source_path target is_fork)
          ≡ some header)
      × Branch (by_id s.entries) target (e ∷ es)
      × (file.bytes ≡ header ++ 10 ∷ encode_all encode (reverse (e ∷ es)))
      × (file.directory ≡ encode_project_name (codes (text_of "cwd" s.header)))
      × (file.filename ≡ branch_name env id)

  abbrev Copies : Source → Result BranchError BranchFile → Type 0
  Copies s (ok file) = IsCopy s file
  Copies s (err e) = Unit

  written :
      (s : Source) (e : Fields) (es : List Fields)
      → Branch (by_id s.entries) target (e ∷ es)
      → Copies s (
          with_path decode encode limit env source_path target is_fork
            (text_of "cwd" s.header)
            (e ∷ es))
  written s e es b = elim (Bool-cases env.makes_directory) [
    | inr no_dir ↦ rw no_dir tt
    | inl dir ↦ rw dir (by_uuid env.random_uuid refl)
  ]
    where
      by_header :
          (id : String) (header : Option (List ℕ))
          → env.random_uuid ≡ some id
          → encode (new_header env id (text_of "cwd" s.header) source_path target is_fork) ≡ header
          → Copies s (
              write_branch decode encode limit env source_path target is_fork
                (text_of "cwd" s.header)
                (reverse (e ∷ es))
                id
                header)
      by_header id none u h = tt
      by_header id (some header) u h = elim (Bool-cases env.writes) [
        | inr fails ↦ rw fails tt
        | inl writes ↦ rw writes (id, header, e, es, u, h, b, refl, refl, refl)
      ]

      by_uuid :
          (id : Option String)
          → env.random_uuid ≡ id
          → Copies s (
              with_uuid decode encode limit env source_path target is_fork
                (text_of "cwd" s.header)
                (reverse (e ∷ es))
                id)
      by_uuid none u = tt
      by_uuid (some id) u =
          by_header id
            (encode (new_header env id (text_of "cwd" s.header) source_path target is_fork)) u refl

  copied :
      (s : Source) (path : List Fields)
      → Branch (by_id s.entries) target path
      → Copies s (
          with_path decode encode limit env source_path target is_fork
            (text_of "cwd" s.header)
            path)
  copied s [] b = tt
  copied s (e ∷ es) b = written s e es b

  inverted :
      (s : Source) (r : Result BranchError BranchFile) (file : BranchFile)
      → Copies s r
      → r ≡ ok file
      → IsCopy s file
  inverted s r file c h = rw h at c

  -- The fork or clone of a session whose entries were appended after their parents returns, on one
  -- round of the walk for each entry and one more, and a file that it wrote holds the new header
  -- and then the entries from the target's root to the target, and is named by the time and the new
  -- identity, in the directory of the source's project.
  pub create_branch_lem :
      (bytes : List ℕ) (lines : List (List ℕ)) (fuel : ℕ)
      → scan_lines limit env.broken [] bytes ≡ ok lines
      → IsAppended (read lines).entries
      → length (read lines).entries < fuel
      → (r : Result BranchError BranchFile) × (create fuel bytes ≡ some r)
        × ((file : BranchFile) → r ≡ ok file → IsCopy (read lines) file)
  unfolding create_branch_session_file
  create_branch_lem bytes lines fuel scanned a enough = elim (Bool-cases env.opens) [
    | inr closed ↦ (err BranchError.not_opened, rw closed refl, λ file h. cc)
    | inl open_ok ↦ elim (Bool-cases (str_eq (text_of "cwd" (read lines).header) "")) [
      | inl no_cwd ↦ (err BranchError.missing_cwd, rw (open_ok, scanned, no_cwd) refl, λ file h. cc)
      | inr cwd ↦
          let (path, walked) =
            walk_ends (by_id (read lines).entries) (position (read lines).entries)
              (λ c p. falls (read lines).entries c p a) fuel target
              (omega (arith, position-le (read lines).entries target)) in
          let b = walk-Branch (by_id (read lines).entries) fuel target path walked in
          (
            with_path decode encode limit env source_path target is_fork
                (text_of "cwd" (read lines).header) path,
            rw (open_ok, scanned, cwd, walked) refl,
            λ file h. inverted (read lines) _ file (copied (read lines) path b) h,
          )
    ]
  ]

  -- A fork or clone never returns if its target is on a cycle of parents of two or more entries.
  pub create_branch_cycles :
      (bytes : List ℕ) (lines : List (List ℕ)) (OnCycle : String → Type 0)
      → env.opens ≡ true
      → scan_lines limit env.broken [] bytes ≡ ok lines
      → text_of "cwd" (read lines).header ≢ ""
      → ((current : String)
          → OnCycle current
          → (parent : String) × GoesOn (by_id (read lines).entries) current parent × OnCycle parent)
      → OnCycle target
      → (fuel : ℕ) → create fuel bytes ≡ none
  unfolding create_branch_session_file
  create_branch_cycles bytes lines OnCycle opens scanned cwd turns here fuel =
      rw
        (
          opens,
          scanned,
          str_eq_ne (text_of "cwd" (read lines).header) "" cwd,
          walk_cycles (by_id (read lines).entries) OnCycle turns fuel target here,
        )
        refl
