-- ===== src/Sessions/Cache.antt =====
-- internal/sessions/cache.go and lookup.go: the cache of parsed sessions. An operation is the
-- critical sections that it takes the lock for, and what it does on the disk between them.
-- Modification times are numbers; `parse_summary` and `parse_file` are the two parses of
-- Sessions/Incremental.antt at a path.
pub mod Retained
pub mod Lookup
pub mod Fresh
mod Tests
use pican.Base.{
  ℕ, zero, suc, ◌+◌, ◌-◌, Bool, true, false, not, ◌&&◌, ◌||◌, List, [], ◌∷◌, ◌++◌, Option, none,
  some, Result, ok, err, ltb, ◌==◌, if◌then◌else◌, length, filter_by, any_by, String, str_eq,
}
use pican.Base.Assoc.{lookup, insert, delete}
use pican.Base.Integers.{ℤ, pos, negsuc}
use pican.Base.Paths.{base_name, ext, join}
use pican.Base.Recency.{without, last, is_some}
use pican.Sessions.Incremental.{ParseState, ParseError}

abbrev pub exceeds : ℕ → ℤ → Bool
exceeds n (pos b) = ltb b n
exceeds n (negsuc b) = true

pub record CacheEntry (Summary S : Type 0) : Type 0 where
  pub mod_time : ℕ
  pub dir_name : String
  pub summary : Summary
  pub parse : ParseState S

pub record SessionEntry (Session F : Type 0) : Type 0 where
  pub mod_time : ℕ
  pub session : Session
  pub parse : ParseState F
  pub path : String
  pub bytes : ℕ

-- `session_cache` and `session_lru` are the map of list elements and the list, the most recently
-- used first.
pub record Cache (Summary S Session F : Type 0) : Type 0 where
  pub entries : List (String × CacheEntry Summary S)
  pub path_index : List (String × String)
  pub session_cache : List (String × SessionEntry Session F)
  pub session_lru : List String
  pub session_bytes : ℕ
  pub session_budget : ℤ
  pub parses : ℕ
  pub hits : ℕ
  pub session_parses : ℕ
  pub session_hits : ℕ
  pub session_evictions : ℕ

pub data ResolveError : Type 0 where
  invalid_session_id : ResolveError
  session_not_found : ResolveError
  not_listed : ResolveError
  not_there : ResolveError
  not_parsed : ParseError → ResolveError

module _ {Summary S Session F : Type 0} where
  abbrev pub new_cache : ℤ → Cache Summary S Session F
  new_cache budget = record {
    entries = [];
    path_index = [];
    session_cache = [];
    session_lru = [];
    session_bytes = 0;
    session_budget = budget;
    parses = 0;
    hits = 0;
    session_parses = 0;
    session_hits = 0;
    session_evictions = 0;
  }

  abbrev pub remove_found :
      Cache Summary S Session F
      → String
      → Option (SessionEntry Session F)
      → Cache Summary S Session F
  remove_found c path none = c
  remove_found c path (some entry) = record c {
    session_bytes = c.session_bytes - entry.bytes;
    session_lru = without path c.session_lru;
    session_cache = delete path c.session_cache;
  }

  unfoldable pub remove_session_entry :
      Cache Summary S Session F → String → Cache Summary S Session F
  remove_session_entry c path = remove_found c path (lookup path c.session_cache)

  abbrev pub evict_back : Cache Summary S Session F → Option String → Cache Summary S Session F
  unfolding remove_session_entry
  evict_back c none = c
  evict_back c (some path) =
      let d = remove_session_entry c path in
      record d { session_evictions = d.session_evictions + 1 }

  -- The loop that evicts the oldest sessions, on fuel for each session in the list.
  unfoldable pub evict : ℕ → Cache Summary S Session F → Cache Summary S Session F
  unfolding evict_back
  evict zero c = c
  evict (suc fuel) c =
      let rest = evict fuel (evict_back c (last c.session_lru)) in
      if exceeds c.session_bytes c.session_budget && is_some (last c.session_lru) then rest else c

  abbrev pub push_front :
      Cache Summary S Session F → SessionEntry Session F → Cache Summary S Session F
  push_front c entry = record c {
    session_lru = entry.path ∷ c.session_lru;
    session_cache = insert entry.path entry c.session_cache;
    session_bytes = c.session_bytes + entry.bytes;
  }

  unfoldable pub store_session_entry :
      Cache Summary S Session F → SessionEntry Session F → Cache Summary S Session F
  unfolding remove_session_entry evict
  store_session_entry c entry =
      let pushed = push_front (remove_session_entry c entry.path) entry in
      evict (length pushed.session_lru) pushed
