-- ===== src/Sessions/Tests.antt =====
-- Session files and project names on small inputs, and their theorems at them.
use pican.Base.{ℕ, ◌≡◌, ◌≢◌, refl, inl, false, List, [], ◌∷◌, ◌++◌, none, some, ok, length}
use pican.Base.Text.{codes}
use pican.Sessions.Bytes.{trim_bytes, trim_left, trim_left_reversed}
use pican.Sessions.Incremental.{File, ParseState, scan, scan_appended_lines, parse_cached}
use pican.Sessions.Incremental.Resume.{Captured, parse_cached-parse_full, parse_full-Captured}
use pican.Sessions.Names.{
  encode_project_name, decode_project_name, decode_project_body, replace_two,
}
use pican.Sessions.Names.RoundTrip.{IsProjectPath, decode-dashed}

-- Each line is folded as its bytes, and the hash of a header is its length.
abbrev pub lines_of : List (List ℕ) → List ℕ → List (List ℕ)
lines_of st line = st ++ line ∷ []

abbrev pub file_of : List ℕ → File
file_of bytes = record {
  stat = some (length bytes);
  head = some bytes;
  bytes = bytes;
  broken = false;
}

abbrev half : ParseState (List (List ℕ))
half = record { offset = 3; size = 5; header_hash = 5; header_hash_len = 5; fold = codes "ab" ∷ [] }

half-Captured : Captured some lines_of 10 length (λ s. s) [] half (codes "ab\ncd")
unfolding scan trim_bytes trim_left trim_left_reversed
half-Captured = refl

parse_cached-parse_full_example :
    parse_cached some lines_of 10 length (λ s. s) [] (file_of (codes "ab\ncd\n")) (some half)
    ≡ parse_cached some lines_of 10 length (λ s. s) [] (file_of (codes "ab\ncd\n")) none
parse_cached-parse_full_example =
    parse_cached-parse_full some lines_of 10 length (λ s. s) [] (file_of (codes "ab\ncd\n")) half
      (inl (codes "ab\ncd", codes "\n", refl, half-Captured))

parsed_half :
    parse_cached some lines_of 10 length (λ s. s) [] (file_of (codes "ab\ncd")) none
    ≡ ok (codes "ab" ∷ [], half)
unfolding parse_cached scan_appended_lines scan trim_bytes trim_left trim_left_reversed
parsed_half = refl

parse_full-Captured_example :
    Captured some lines_of 10 length (λ s. s) [] half (codes "ab\ncd") × (half.fold ≡ half.fold)
parse_full-Captured_example =
    parse_full-Captured some lines_of 10 length (λ s. s) [] (file_of (codes "ab\ncd")) half.fold
      half parsed_half

abbrev home : List ℕ
home = codes "home/me/my-project_x"

short-IsProjectPath : IsProjectPath (codes "/my-project") (codes "my-project")
unfolding trim_bytes trim_left trim_left_reversed
short-IsProjectPath = record {
  under_root = refl;
  trimmed = refl;
  one_root = refl;
  not_windows = refl;
  begins = refl;
}

decode-dashed_example :
    decode_project_name (encode_project_name (codes "/my-project")) ≢ codes "/my-project"
decode-dashed_example =
    decode-dashed (codes "/my-project") (codes "my-project") short-IsProjectPath refl refl refl

-- A path with a dash after an underscore is decoded to another one.
broken : decode_project_name (encode_project_name (codes "/a/b_-c")) ≡ codes "/a/b_/c"
unfolding decode_project_name encode_project_name decode_project_body replace_two trim_bytes
    trim_left trim_left_reversed
broken = refl
