-- ===== src/Sessions/Cache/Tests.antt =====
-- The cache on small inputs, and its theorems at them.
use pican.Sessions.Tests.{lines_of, file_of}
use pican.Base.{
  ℕ, ◌<◌, ◌≡◌, ◌⊎◌, refl, inl, true, false, List, [], ◌∷◌, ◌++◌, none, some, length, String,
  if◌then◌else◌, str_eq,
}
use pican.Base.Integers.{pos}
use pican.Base.Text.{codes}
use pican.Base.Assoc.{lookup}
use pican.Base.Recency.{occurs, without}
use pican.Sessions.Incremental.{File}
use pican.Sessions.Cache.{
  Cache, SessionEntry, exceeds, new_cache, store_session_entry, remove_session_entry, evict,
}
use pican.Sessions.Cache.Lookup.{Disk, resolve}
use pican.Sessions.Cache.Retained.{IsCounted, store-IsEvicted}
use pican.Sessions.Cache.Fresh.{IsHistory, Answers, parse_file, resolve-Answers}

-- Sessions are kept as numbers; a budget of 10 bytes holds two of 4 and no third.
abbrev session_at : String → SessionEntry ℕ Unit
session_at path = record {
  mod_time = 1;
  session = 7;
  parse = record { offset = 0; size = 0; header_hash = 0; header_hash_len = 0; fold = tt };
  path = path;
  bytes = 4;
}

abbrev empty_cache : Cache ℕ ℕ ℕ Unit
empty_cache = new_cache (pos 10)

empty-IsCounted : IsCounted empty_cache
empty-IsCounted = record { keys = tt; in_step = λ k. refl; counted = refl; named = λ k e h. cc }

abbrev filled : Cache ℕ ℕ ℕ Unit
unfolding store_session_entry
filled =
    store_session_entry
      (store_session_entry (store_session_entry empty_cache (session_at "a")) (session_at "b"))
      (session_at "c")

oldest_gone : filled.session_lru ≡ "c" ∷ "b" ∷ []
unfolding filled store_session_entry remove_session_entry evict
oldest_gone = refl

store-IsEvicted_example :
    let d = store_session_entry empty_cache (session_at "a") in
    IsCounted d
    × ((exceeds d.session_bytes d.session_budget ≡ false) ⊎ (d.session_lru ≡ []))
    × (d.session_budget ≡ pos 10)
    × ((gone : List String) × ("a" ∷ without "a" [] ≡ d.session_lru ++ gone))
    × ((k : String)
        → 0 < occurs k d.session_lru
        → lookup k d.session_cache ≡ (if str_eq "a" k then some (session_at "a") else none))
    × (exceeds 4 (pos 10) ≡ false → lookup "a" d.session_cache ≡ some (session_at "a"))
store-IsEvicted_example = store-IsEvicted empty_cache (session_at "a") empty-IsCounted

-- A directory with one file, the same at any time.
abbrev one_file : Disk
one_file = record {
  sessions_dir = "/s";
  listing =
      some (record { name = "p"; is_dir = true; files = some (("x.jsonl", false) ∷ []) } ∷ []);
  stat = λ path. some 5;
}

abbrev steady : String → File
steady path = file_of (codes "ab\n")

abbrev Lines : Type 0
Lines = List (List ℕ)

steady-IsHistory :
    IsHistory some lines_of 10 length
      (λ path s. s)
      (λ path. [])
      (λ path t. Unit)
      (λ path t. codes "ab\n")
      steady
      one_file
steady-IsHistory = record {
  now = λ path t h. (tt, refl);
  usable = λ path t ps past caught. inl (codes "ab\n", [], refl, caught);
}

abbrev no_sessions : Cache ℕ ℕ Lines Lines
no_sessions = new_cache (pos 100)

resolve-Answers_example :
    Answers some lines_of 10 length
      (λ path s. s)
      (λ path. [])
      (λ path t. Unit)
      (λ path t. codes "ab\n")
      steady
      one_file
      (resolve
        (parse_file some lines_of 10 length
          (λ path s. s)
          (λ path. [])
          (λ path t. Unit)
          (λ path t. codes "ab\n")
          steady
          one_file)
        length
        one_file
        (λ n c. c)
        no_sessions
        "x.jsonl")
resolve-Answers_example =
    resolve-Answers some lines_of 10 length (λ path s. s) (λ path. []) (λ path t. Unit)
      (λ path t. codes "ab\n") steady one_file length (λ n c. c) no_sessions "x.jsonl"
      steady-IsHistory (λ n d h. h)
      (
        record { keys = tt; in_step = λ k. refl; counted = refl; named = λ k e h. cc },
        λ path e h. cc,
      )
