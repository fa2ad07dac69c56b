-- ===== src/Sessions/Cache/Fresh.antt =====
-- internal/sessions/cache.go: what Resolve returns is the parse of the file as it is.
use pican.Base.{
  ℕ, ◌+◌, ◌≡◌, refl, ◌∙◌, sym, ap, subst, inl, inr, List, Option, none, some, Result, ok, err, ◌==◌,
  if◌then◌else◌, arith, String, str_eq, Bool-cases, Option-cases, eq_iff,
}
use pican.Base.Assoc.{lookup, delete, lookup-delete}
use pican.Base.Recency.{InStep-touch}
use pican.Sessions.Incremental.{ParseState, ParseError, File, parse_cached}
use pican.Sessions.Incremental.Resume.{
  Captured, IsUsable, parse_cached-parse_full, parse_full-Captured,
}
use pican.Sessions.Cache.{
  Cache, SessionEntry, ResolveError, remove_session_entry, store_session_entry,
}
use pican.Sessions.Cache.Lookup.{
  Disk, index_path, drop_path, touch, keep_session, parsed, at_entry, at_stat, at_found, at_index,
  find_path, find_path_by_filename, is_session_id, resolve,
}
use pican.Sessions.Cache.Retained.{IsCounted, remove-Removed, store-IsEvicted, listed}

module _ {Summary S Session F : Type 0} (Good : String → ℕ → Session → ParseState F → Type 0) where
  -- Consistent, and each session is a good one for its file at its time.
  abbrev pub IsSound : Cache Summary S Session F → Type 0
  IsSound c =
      IsCounted c
      × ((path : String) (e : SessionEntry Session F)
          → lookup path c.session_cache ≡ some e
          → Good path e.mod_time e.session e.parse)

  index-IsSound :
      (id path : String) (c : Cache Summary S Session F)
      → IsSound c
      → IsSound (index_path id path c)
  index-IsSound id path c (w, g) =
      (record { keys = w.keys; in_step = w.in_step; counted = w.counted; named = w.named }, g)

  remove-IsSound :
      (path : String) (c : Cache Summary S Session F)
      → IsSound c
      → IsSound (remove_session_entry c path)
  remove-IsSound path c (w, g) =
      let (ok_d, cache, lru, budget) = remove-Removed c path w in
      (ok_d, λ k e at. g k e (below k e c.session_cache (ap (lookup k) (sym cache) ∙ at)))
    where
      below :
          (k : String) (e : SessionEntry Session F) (m : List (String × SessionEntry Session F))
          → lookup k (delete path m) ≡ some e
          → lookup k m ≡ some e
      below k e m h = ground (arith, lookup-delete path k m)

  drop-IsSound :
      (id path : String) (c : Cache Summary S Session F) → IsSound c → IsSound (drop_path id path c)
  unfolding drop_path
  drop-IsSound id path c (w, g) =
      remove-IsSound path
        (record c { path_index = delete id c.path_index; entries = delete path c.entries })
        (record { keys = w.keys; in_step = w.in_step; counted = w.counted; named = w.named }, g)

  touch-IsSound :
      (path : String) (t : ℕ) (c : Cache Summary S Session F) → IsSound c → IsSound (touch path t c)
  unfolding touch
  touch-IsSound path t c (w, g) = elim (Option-cases (lookup path c.session_cache)) [
    | inl missing ↦ rw missing (w, g)
    | inr (e, at) ↦ elim (Bool-cases (e.mod_time == t)) [
      | inr stale ↦ rw (at, stale) (w, g)
      | inl fresh ↦
          rw (at, fresh)
            (
              record {
                keys = w.keys;
                in_step = InStep-touch path e c.session_cache c.session_lru at w.in_step;
                counted = w.counted;
                named = w.named;
              },
              g,
            )
    ]
  ]

  keep-IsSound :
      (e : SessionEntry Session F) (c : Cache Summary S Session F)
      → IsSound c
      → Good e.path e.mod_time e.session e.parse
      → IsSound (keep_session e c)
  unfolding keep_session
  keep-IsSound e c (w, g) good =
      let counted = record c { session_parses = c.session_parses + 1 } in
      let (ok_d, bounded, budget, cut, values, kept) =
        store-IsEvicted counted e
          (record { keys = w.keys; in_step = w.in_step; counted = w.counted; named = w.named }) in
      (
        ok_d,
        λ k x at.
            of_entry k x (sym (values k (listed (store_session_entry counted e) k x ok_d at)) ∙ at),
      )
    where
      of_entry :
          (k : String) (x : SessionEntry Session F)
          → (if str_eq e.path k then some e else lookup k c.session_cache) ≡ some x
          → Good k x.mod_time x.session x.parse
      of_entry k x h = elim (Bool-cases (str_eq e.path k)) [
        | inl own ↦
            let this : e ≡ x = ground arith in
            subst (λ y. Good k y.mod_time y.session y.parse) this
              (subst (λ p. Good p e.mod_time e.session e.parse) ((eq_iff e.path k).0 own) good)
        | inr other ↦ g k x (rw other at h)
      ]

-- The files and their history, the content of each by its modification time: a state from a past
-- content can be told from one that another file left, as Sessions/Incremental/Resume.antt has it.
module _ {Session F Raw : Type 0} (decode : List ℕ → Option Raw) (fold_line : F → Raw → F)
    (limit : ℕ) (hash : List ℕ → ℕ) (finalize : String → F → Session) (start : String → F)
    (IsPast : String → ℕ → Type 0) (content : String → ℕ → List ℕ) (file : String → File)
    (disk : Disk) where
  -- A session that was parsed from the whole content that its file had at a time.
  abbrev pub IsParsed : String → ℕ → Session → ParseState F → Type 0
  IsParsed path t session ps =
      IsPast path t
      × Captured decode fold_line limit hash (finalize path) (start path) ps (content path t)
      × (session ≡ finalize path ps.fold)

  pub record IsHistory : Type 0 where
    pub now :
        (path : String) (t : ℕ)
        → disk.stat path ≡ some t
        → IsPast path t × ((file path).bytes ≡ content path t)
    pub usable :
        (path : String) (t : ℕ) (ps : ParseState F)
        → IsPast path t
        → Captured decode fold_line limit hash (finalize path) (start path) ps (content path t)
        → IsUsable decode fold_line limit hash (finalize path) (start path) ps (file path)

  abbrev pub parse_file :
      String → Option (ParseState F) → Result ParseError (Session × ParseState F)
  parse_file path =
      parse_cached decode fold_line limit hash (finalize path) (start path) (file path)

  fresh_parse :
      (path : String) (t : ℕ) (session : Session) (ps : ParseState F)
      → IsHistory
      → disk.stat path ≡ some t
      → parse_file path none ≡ ok (session, ps)
      → IsParsed path t session ps
  fresh_parse path t session ps h at e =
      let (past, same) = h.now path t at in
      let (caught, out) =
        parse_full-Captured decode fold_line limit hash (finalize path) (start path) (file path)
          session ps e in
      (past, rw same at caught, out)

  -- What Resolve answers: the session is parsed from the content that the file now has.
  abbrev pub Answers :
      {Summary S : Type 0}
      → Result ResolveError (Session × String) × Cache Summary S Session F
      → Type 0
  Answers (err e, c) = IsSound IsParsed c
  Answers (ok (session, path), c) =
      IsSound IsParsed c
      × ((t : ℕ) × (ps : ParseState F) × (disk.stat path ≡ some t) × IsParsed path t session ps)

  module _ {Summary S : Type 0} (approximate_bytes : Session → ℕ)
      (others : ℕ → Cache Summary S Session F → Cache Summary S Session F) where
    abbrev KeepSound : Type 0
    KeepSound =
        (n : ℕ) (c : Cache Summary S Session F) → IsSound IsParsed c → IsSound IsParsed (others n c)

    parsed-Answers :
        (path : String) (t : ℕ) (c : Cache Summary S Session F)
        (r : Result ParseError (Session × ParseState F))
        → IsHistory
        → KeepSound
        → IsSound IsParsed c
        → disk.stat path ≡ some t
        → r ≡ parse_file path none
        → Answers (parsed parse_file approximate_bytes disk others path t c r)
    parsed-Answers path t c (err e) h keep w at p = w
    parsed-Answers path t c (ok (session, ps)) h keep w at p =
        let good = fresh_parse path t session ps h at (sym p) in
        (
          keep-IsSound IsParsed
              (record {
                mod_time = t;
                session = session;
                parse = ps;
                path = path;
                bytes = approximate_bytes session;
              })
              (others 3 c) (keep 3 c w) good,
          (t, ps, at, good),
        )

    entry-Answers :
        (path : String) (t : ℕ) (c : Cache Summary S Session F)
        (found : Option (SessionEntry Session F))
        → IsHistory
        → KeepSound
        → IsSound IsParsed c
        → disk.stat path ≡ some t
        → lookup path c.session_cache ≡ found
        → Answers (at_entry parse_file approximate_bytes disk others path t c found)
    entry-Answers path t c none h keep w at e =
        parsed-Answers path t c (parse_file path none) h keep w at refl
    entry-Answers path t c (some x) h keep (w, g) at e = elim (Bool-cases (x.mod_time == t)) [
      | inl hit ↦
          let same : x.mod_time ≡ t = ground arith in
          rw hit (
            touch-IsSound IsParsed path t c (w, g),
            (t, x.parse, at, subst (λ u. IsParsed path u x.session x.parse) same (g path x e)),
          )
      | inr stale ↦
          let (past, caught, out) = g path x e in
          let same =
            parse_cached-parse_full decode fold_line limit hash (finalize path) (start path)
              (file path) x.parse (h.usable path x.mod_time x.parse past caught) in
          rw stale (parsed-Answers path t c (parse_file path (some x.parse)) h keep (w, g) at same)
    ]

    stat-Answers :
        (id path : String) (c : Cache Summary S Session F) (stat : Option ℕ)
        → IsHistory
        → KeepSound
        → IsSound IsParsed c
        → disk.stat path ≡ stat
        → Answers (at_stat parse_file approximate_bytes disk others id path c stat)
    stat-Answers id path c none h keep w at =
        drop-IsSound IsParsed id path (others 1 c) (keep 1 c w)
    stat-Answers id path c (some t) h keep w at =
        entry-Answers path t (others 2 c) _ h keep (keep 2 c w) at refl

    index-Answers :
        (id : String) (c : Cache Summary S Session F) (indexed : Option String)
        → IsHistory
        → KeepSound
        → IsSound IsParsed c
        → Answers (at_index parse_file approximate_bytes disk others id c indexed)
    index-Answers id c (some path) h keep w = stat-Answers id path c (disk.stat path) h keep w refl
    index-Answers id c none h keep w = by_search (find_path_by_filename disk id)
      where
        by_search :
            (r : Result ResolveError String)
            → Answers (at_found parse_file approximate_bytes disk others id c r)
        by_search (err e) = w
        by_search (ok path) =
            stat-Answers id path (index_path id path (others 0 c)) (disk.stat path) h keep
              (index-IsSound IsParsed id path (others 0 c) (keep 0 c w)) refl

    -- A session that Resolve returns, from the cache or parsed anew or on from an earlier parse, is
    -- the parse of the whole content that the file has at its present modification time; and the
    -- cache stays consistent, with each session in it the parse of its file's content at the
    -- session's time. So it is if a file's content is the one of its modification time, if a past
    -- content can be told from a rewritten file, and if what others do meanwhile keeps the cache
    -- so.
    pub resolve-Answers :
        (c : Cache Summary S Session F) (id : String)
        → IsHistory
        → ((n : ℕ) (d : Cache Summary S Session F)
            → IsSound IsParsed d
            → IsSound IsParsed (others n d))
        → IsSound IsParsed c
        → Answers (resolve parse_file approximate_bytes disk others c id)
    unfolding resolve
    resolve-Answers c id h keep w = elim (Bool-cases (is_session_id id)) [
      | inr bad ↦ rw bad w
      | inl good ↦ rw good (index-Answers id c (find_path c id) h keep w)
    ]
