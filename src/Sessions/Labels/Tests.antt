-- ===== src/Sessions/Labels/Tests.antt =====
-- Names and labels on small inputs, and the theorem on a rename at one.
use pican.Base.{ℕ, ◌≡◌, refl, true, false, List, Option, none, some, ok, err}
use pican.Base.Text.{codes, is_space}
use pican.Sessions.Bytes
use pican.Sessions.Bytes.{trim_bytes, trim_left_reversed}
use pican.Sessions.Branch.{scan_lines}
use pican.Sessions.Json.{Json, Fields}
use pican.Sessions.Labels.{
  Disk, session_entry_not_found, append_session_name, label_session_entry, load_entries_from_file,
  trim_text, trim_left, trim_right,
}
use pican.Sessions.Labels.Renamed.{IsRenamed, append_session_name-IsRenamed}

abbrev sound : Disk
sound = record { readable = true; opens = true; breaks_at = none }

abbrev encode_any : Fields → Option (List ℕ)
encode_any fs = some (codes "{}")

abbrev one_entry : List ℕ → Option Fields
one_entry bytes = some (Fields.field "id" (Json.text "e1") Fields.empty)

renames :
    append_session_name encode_any sound " new " false "t" (codes "h\n") ≡ (ok tt, codes "h\n{}\n")
unfolding append_session_name trim_text trim_left trim_right is_space
renames = refl

labels :
    label_session_entry encode_any sound one_entry 10 false (some "e2") "e1" "x" "t" (codes "h\n")
    ≡ (ok tt, codes "h\n{}\n")
unfolding label_session_entry load_entries_from_file scan_lines trim_bytes Bytes.trim_left
    trim_left_reversed trim_text trim_left trim_right is_space
labels = refl

refuses_label :
    label_session_entry encode_any sound one_entry 10 false (some "e2") "e3" "x" "t" (codes "h\n")
    ≡ (err session_entry_not_found, codes "h\n")
unfolding label_session_entry load_entries_from_file scan_lines trim_bytes Bytes.trim_left
    trim_left_reversed trim_text trim_left trim_right is_space
refuses_label = refl

append_session_name-IsRenamed_example :
    IsRenamed encode_any sound "t" (trim_text " new ") false (codes "h\n") (codes "h\n{}\n")
append_session_name-IsRenamed_example =
    append_session_name-IsRenamed encode_any sound " new " false "t" (codes "h\n") (codes "h\n{}\n")
      renames
