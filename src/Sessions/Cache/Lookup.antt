-- ===== src/Sessions/Cache/Lookup.antt =====
-- internal/sessions/cache.go and lookup.go: finding a session's file, Resolve, ResolveSummary and
-- Invalidate. `others n` is what other goroutines do to the cache where the lock is not held.
use pican.Base.{
  ℕ, ◌+◌, Bool, true, false, not, ◌&&◌, List, [], ◌∷◌, Option, none, some, Result, ok, err, ◌==◌,
  if◌then◌else◌, filter_by, String, str_eq,
}
use pican.Base.Assoc.{lookup, insert, delete}
use pican.Base.Paths.{base_name, ext, join}
use pican.Base.Recency.{without}
use pican.Sessions.Incremental.{ParseState, ParseError}
use pican.Sessions.Cache.{
  Cache, SessionEntry, ResolveError, invalid_session_id, session_not_found, not_listed, not_there,
  not_parsed, remove_session_entry, store_session_entry,
}

-- An entry of a directory: its name, whether it is a directory, and the names in that.
pub record DirEntry : Type 0 where
  pub name : String
  pub is_dir : Bool
  pub files : Option (List (String × Bool))

-- What the calls on the file system give.
pub record Disk : Type 0 where
  pub sessions_dir : String
  pub listing : Option (List DirEntry)
  pub stat : String → Option ℕ

unfoldable pub is_session_id : String → Bool
unfolding base_name ext
is_session_id id = not (str_eq id "") && str_eq (base_name id) id && str_eq (ext id) ".jsonl"

abbrev pub holds : String → List (String × Bool) → Bool
holds id [] = false
holds id ((name, is_dir) ∷ files) =
    if not is_dir && str_eq name id && str_eq (ext name) ".jsonl" then true else holds id files

-- The files of a project directory, none where it cannot be read.
abbrev pub holds_in : String → Option (List (String × Bool)) → Bool
holds_in id none = false
holds_in id (some files) = holds id files

unfoldable pub find_in : String → String → List DirEntry → Result ResolveError String
unfolding join ext
find_in dir id [] = err session_not_found
find_in dir id (e ∷ es) =
    if e.is_dir && holds_in id e.files then ok (join (join dir e.name) id) else find_in dir id es

abbrev pub find_listed : String → String → Option (List DirEntry) → Result ResolveError String
unfolding find_in
find_listed dir id none = err not_listed
find_listed dir id (some es) = find_in dir id es

unfoldable pub find_path_by_filename : Disk → String → Result ResolveError String
unfolding find_in
find_path_by_filename disk id = find_listed disk.sessions_dir id disk.listing

abbrev pub is_fresh : {Session F : Type 0} → ℕ → Option (SessionEntry Session F) → Bool
is_fresh mod_time none = false
is_fresh mod_time (some e) = e.mod_time == mod_time

module _ {Summary S Session F : Type 0} where
  -- The critical sections.
  abbrev pub find_path : Cache Summary S Session F → String → Option String
  find_path c name = lookup name c.path_index

  abbrev pub index_path : String → String → Cache Summary S Session F → Cache Summary S Session F
  index_path id path c = record c { path_index = insert id path c.path_index }

  unfoldable pub drop_path : String → String → Cache Summary S Session F → Cache Summary S Session F
  unfolding remove_session_entry
  drop_path id path c =
      remove_session_entry
        (record c { path_index = delete id c.path_index; entries = delete path c.entries }) path

  -- A hit moves the session to the front.
  unfoldable pub touch : String → ℕ → Cache Summary S Session F → Cache Summary S Session F
  touch path mod_time c =
      if is_fresh mod_time (lookup path c.session_cache)
      then record c {
        session_lru = path ∷ without path c.session_lru;
        session_hits = c.session_hits + 1;
      }
      else c

  unfoldable pub keep_session :
      SessionEntry Session F → Cache Summary S Session F → Cache Summary S Session F
  unfolding store_session_entry
  keep_session e c = store_session_entry (record c { session_parses = c.session_parses + 1 }) e

  -- `delete` while ranging over the keys whose base is the session's file name.
  abbrev pub remove_named :
      String
      → List (String × SessionEntry Session F)
      → Cache Summary S Session F
      → Cache Summary S Session F
  unfolding remove_session_entry base_name
  remove_named id [] c = c
  remove_named id ((path, e) ∷ m) c =
      remove_named id m (if str_eq (base_name path) id then remove_session_entry c path else c)

  unfoldable pub invalidate : String → Cache Summary S Session F → Cache Summary S Session F
  unfolding remove_named
  invalidate id c =
      let d = remove_named id c.session_cache (record c { path_index = delete id c.path_index }) in
      record d { entries = filter_by (λ b. not (str_eq (base_name b.0) id)) d.entries }

  module _
      (parse_file : String → Option (ParseState F) → Result ParseError (Session × ParseState F))
      (approximate_bytes : Session → ℕ) (disk : Disk)
      (others : ℕ → Cache Summary S Session F → Cache Summary S Session F) where
    abbrev pub parsed :
        String
        → ℕ
        → Cache Summary S Session F
        → Result ParseError (Session × ParseState F)
        → Result ResolveError (Session × String) × Cache Summary S Session F
    parsed path mod_time c (err e) = (err (not_parsed e), c)
    parsed path mod_time c (ok (session, state)) = (
      ok (session, path),
      keep_session
          (record {
            mod_time = mod_time;
            session = session;
            parse = state;
            path = path;
            bytes = approximate_bytes session;
          })
          (others 3 c),
    )

    abbrev pub at_entry :
        String
        → ℕ
        → Cache Summary S Session F
        → Option (SessionEntry Session F)
        → Result ResolveError (Session × String) × Cache Summary S Session F
    at_entry path mod_time c none = parsed path mod_time c (parse_file path none)
    at_entry path mod_time c (some e) =
        if e.mod_time == mod_time
        then (ok (e.session, path), touch path mod_time c)
        else parsed path mod_time c (parse_file path (some e.parse))

    abbrev pub at_stat :
        String
        → String
        → Cache Summary S Session F
        → Option ℕ
        → Result ResolveError (Session × String) × Cache Summary S Session F
    at_stat id path c none = (err not_there, drop_path id path (others 1 c))
    at_stat id path c (some mod_time) =
        let d = others 2 c in at_entry path mod_time d (lookup path d.session_cache)

    abbrev pub at_found :
        String
        → Cache Summary S Session F
        → Result ResolveError String
        → Result ResolveError (Session × String) × Cache Summary S Session F
    at_found id c (err e) = (err e, c)
    at_found id c (ok path) = at_stat id path (index_path id path (others 0 c)) (disk.stat path)

    abbrev pub at_index :
        String
        → Cache Summary S Session F
        → Option String
        → Result ResolveError (Session × String) × Cache Summary S Session F
    at_index id c none = at_found id c (find_path_by_filename disk id)
    at_index id c (some path) = at_stat id path c (disk.stat path)

    unfoldable pub resolve :
        Cache Summary S Session F
        → String
        → Result ResolveError (Session × String) × Cache Summary S Session F
    unfolding is_session_id find_path_by_filename drop_path touch keep_session
    resolve c id =
        if is_session_id id then at_index id c (find_path c id) else (err invalid_session_id, c)
