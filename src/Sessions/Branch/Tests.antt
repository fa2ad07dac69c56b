-- ===== src/Sessions/Branch/Tests.antt =====
-- Forks on small inputs, and their theorems at them.
use pican.Base.{
  ℕ, ◌<◌, ◌≡◌, ◌≢◌, ◌⊎◌, refl, inl, inr, true, false, List, [], ◌∷◌, Option, none, some, Result, ok,
  arith, length, String, ◌==◌, if◌then◌else◌, eq_iff,
}
use pican.Base.Text.{codes}
use pican.Sessions.Bytes.{trim_bytes, trim_left, trim_left_reversed}
use pican.Sessions.Json.{Json, Fields, text_of}
use pican.Sessions.Branch.{
  BranchError, BranchFile, Surroundings, scan_lines, add_lines, add_line, session_header_key, by_id,
  create_branch_session_file, no_source,
}
use pican.Sessions.Branch.Walk.{GoesOn}
use pican.Sessions.Branch.Content.{IsAppended, IsCopy, create_branch_lem, create_branch_cycles}

abbrev entry_of : String → String → Fields
entry_of id parent =
    Fields.field "id" (Json.text id) (Fields.field "parentId" (Json.text parent) Fields.empty)

-- `h` is a header; `a` has no parent, `b` has `a`; `c` and `d` are each other's.
abbrev decode_entry : List ℕ → Option Fields
decode_entry [] = none
decode_entry (b ∷ bs) =
    if b == b'h'
    then some (
        Fields.field "type" (Json.text "session")
          (Fields.field "cwd" (Json.text "/w") Fields.empty))
    else if b == b'a'
    then some (entry_of "a" "")
    else if b == b'b'
    then some (entry_of "b" "a")
    else if b == b'c'
    then some (entry_of "c" "d")
    else some (entry_of "d" "c")

abbrev encode_entry : Fields → Option (List ℕ)
encode_entry e = some (codes "{}")

abbrev around : Surroundings
around = record {
  opens = true;
  broken = false;
  makes_directory = true;
  random_uuid = some "u";
  file_time = "t";
  header_time = "t2";
  writes = true;
}

abbrev tree_lines : List (List ℕ)
tree_lines = codes "h" ∷ codes "a" ∷ codes "b" ∷ [] ∷ []

tree_scanned : scan_lines 10 around.broken [] (codes "h\na\nb\n") ≡ ok tree_lines
unfolding scan_lines
tree_scanned = refl

tree-IsAppended : IsAppended (add_lines decode_entry tree_lines no_source).entries
unfolding add_lines add_line session_header_key trim_bytes trim_left trim_left_reversed
tree-IsAppended = (inl refl, (inr (inr refl), tt))

tree_short : length (add_lines decode_entry tree_lines no_source).entries < 3
unfolding add_lines add_line session_header_key trim_bytes trim_left trim_left_reversed
tree_short = omega arith

create_branch_lem_example :
    (r : Result BranchError BranchFile) × (create_branch_session_file decode_entry encode_entry 10
        around "/s" "b" true 3
        (codes "h\na\nb\n")
      ≡ some r)
    × ((file : BranchFile)
        → r ≡ ok file
        → IsCopy decode_entry encode_entry 10 around "/s" "b" true
            (add_lines decode_entry tree_lines no_source)
            file)
create_branch_lem_example =
    create_branch_lem decode_entry encode_entry 10 around "/s" "b" true (codes "h\na\nb\n")
      tree_lines 3 tree_scanned tree-IsAppended tree_short

abbrev ring_lines : List (List ℕ)
ring_lines = codes "h" ∷ codes "c" ∷ codes "d" ∷ [] ∷ []

ring_scanned : scan_lines 10 around.broken [] (codes "h\nc\nd\n") ≡ ok ring_lines
unfolding scan_lines
ring_scanned = refl

abbrev InRing : String → Type 0
InRing id = (id ≡ "c") ⊎ (id ≡ "d")

abbrev ring_ids : List (String × Fields)
ring_ids = ("c", entry_of "c" "d") ∷ ("d", entry_of "d" "c") ∷ []

ring_indexed : by_id (add_lines decode_entry ring_lines no_source).entries ≡ ring_ids
unfolding add_lines add_line session_header_key trim_bytes trim_left trim_left_reversed
ring_indexed = refl

ring_turns :
    (current : String)
    → InRing current
    → (parent : String) × GoesOn ring_ids current parent × InRing parent
ring_turns current (inl e) = rw e (
  "d",
  (
    entry_of "c" "d",
    refl,
    refl,
    λ h. absurd (ground (arith, eq_iff "c" "")),
    λ h. absurd (ground (arith, eq_iff "d" "")),
    λ h. absurd (ground (arith, eq_iff "d" "c")),
  ),
  inr refl,
)
ring_turns current (inr e) = rw e (
  "c",
  (
    entry_of "d" "c",
    refl,
    refl,
    λ h. absurd (ground (arith, eq_iff "d" "")),
    λ h. absurd (ground (arith, eq_iff "c" "")),
    λ h. absurd (ground (arith, eq_iff "c" "d")),
  ),
  inl refl,
)

ring_has_cwd : text_of "cwd" (add_lines decode_entry ring_lines no_source).header ≢ ""
unfolding add_lines add_line session_header_key trim_bytes trim_left trim_left_reversed
ring_has_cwd h = absurd (ground (arith, eq_iff "/w" ""))

create_branch_cycles_example :
    create_branch_session_file decode_entry encode_entry 10 around "/s" "c" true 1_000_000
      (codes "h\nc\nd\n")
    ≡ none
create_branch_cycles_example =
    create_branch_cycles decode_entry encode_entry 10 around "/s" "c" true (codes "h\nc\nd\n")
      ring_lines InRing refl ring_scanned ring_has_cwd
      (λ current h. rw ring_indexed (ring_turns current h)) (inl refl) 1_000_000
