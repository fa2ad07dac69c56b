-- ===== src/Sessions/Incremental.antt =====
-- internal/sessions/incremental.go: the parse that goes on where the last one stopped. What a line
-- does to the running state is a parameter: `decode` is `json.Unmarshal` into the line's type, and
-- `fold_line` is `foldLine`. The two caches, of summaries and of whole sessions, differ in these,
-- in the state they start with and in `finalize` only. The hash of a header is a parameter too.
pub mod Resume
use pican.Base.{
  ℕ, zero, suc, ◌+◌, ◌*◌, Bool, true, false, ◌&&◌, List, [], ◌∷◌, ◌++◌, Option, none, some, Result,
  ok, err, ltb, leb, ◌==◌, if◌then◌else◌, length, take, drop,
}
use pican.Sessions.Bytes.{trim_bytes}

-- `maxScanLineBytes`
abbrev pub max_line : ℕ
max_line = 256 * 1024 * 1024

-- `headerFingerprintBytes`
abbrev pub header_bytes : ℕ
header_bytes = 64

pub data ParseError : Type 0 where
  not_opened : ParseError
  header_unread : ParseError
  line_too_long : ParseError
  not_read : ParseError

-- What one parse sees of a file that others append to meanwhile: the size that `Stat` reports (none
-- where the file cannot be opened or asked), the bytes that are there when the header is read (none
-- on an error), those there for the scan, and whether reading them ends with an error.
pub record File : Type 0 where
  pub stat : Option ℕ
  pub head : Option (List ℕ)
  pub bytes : List ℕ
  pub broken : Bool

pub record ParseState (State : Type 0) : Type 0 where
  pub offset : ℕ
  pub size : ℕ
  pub header_hash : ℕ
  pub header_hash_len : ℕ
  pub fold : State

unfoldable pub can_extend : {State : Type 0} → ParseState State → ℕ → ℕ → ℕ → Bool
can_extend ps size hash hash_len =
    ltb 0 ps.offset && leb ps.size size && hash == ps.header_hash && hash_len == ps.header_hash_len

module _ {State Raw : Type 0} (decode : List ℕ → Option Raw) (fold_line : State → Raw → State)
    (limit : ℕ) where
  abbrev pub decoded : State → Option Raw → State
  decoded st none = st
  decoded st (some raw) = fold_line st raw

  abbrev pub on_trimmed : State → List ℕ → State
  on_trimmed st [] = st
  on_trimmed st (b ∷ bs) = decoded st (decode (b ∷ bs))

  -- The scan, with the bytes of the unfinished line so far in `pending`. `ReadSlice` hands a long
  -- line over in chunks; only whether the whole of it is over the limit can be seen.
  unfoldable pub scan : Bool → ℕ → List ℕ → State → List ℕ → Result ParseError (ℕ × State)
  unfolding trim_bytes
  scan broken consumed pending st [] =
      if ltb limit (length pending)
      then err line_too_long
      else if broken
      then err not_read
      else ok (consumed, st)
  scan broken consumed pending st (b ∷ bs) =
      let line = pending ++ b ∷ [] in
      let rest = scan broken (consumed + length line) [] (on_trimmed st (trim_bytes line)) bs in
      let more = scan broken consumed line st bs in
      if b == 10 then if ltb limit (length line) then err line_too_long else rest else more

  unfoldable pub scan_appended_lines : File → ℕ → State → Result ParseError (ℕ × State)
  unfolding scan
  scan_appended_lines f offset st = scan f.broken offset [] st (drop offset f.bytes)

  module _ {Out : Type 0} (hash : List ℕ → ℕ) (finalize : State → Out) (start : State) where
    abbrev pub parsed :
        ℕ → List ℕ → Result ParseError (ℕ × State) → Result ParseError (Out × ParseState State)
    parsed size header (err e) = err e
    parsed size header (ok (offset, fold)) = ok (
      finalize fold,
      record {
        offset = offset;
        size = size;
        header_hash = hash header;
        header_hash_len = length header;
        fold = fold;
      },
    )

    abbrev pub parse_full : File → ℕ → List ℕ → Result ParseError (Out × ParseState State)
    parse_full f size header = parsed size header (scan_appended_lines f 0 start)

    abbrev pub unless_failed :
        ℕ
        → List ℕ
        → Result ParseError (ℕ × State)
        → Result ParseError (Out × ParseState State)
        → Result ParseError (Out × ParseState State)
    unless_failed size header (ok r) full = parsed size header (ok r)
    unless_failed size header (err e) full = full

    abbrev pub parse_with :
        File → ℕ → List ℕ → Option (ParseState State) → Result ParseError (Out × ParseState State)
    parse_with f size header none = parse_full f size header
    parse_with f size header (some prior) =
        if can_extend prior size (hash header) (length header)
        then unless_failed size header (scan_appended_lines f prior.offset prior.fold)
            (parse_full f size header)
        else parse_full f size header

    abbrev pub with_header :
        File
        → ℕ
        → Option (List ℕ)
        → Option (ParseState State)
        → Result ParseError (Out × ParseState State)
    with_header f size none prior = err header_unread
    with_header f size (some head) prior = parse_with f size (take header_bytes head) prior

    abbrev pub with_stat :
        File → Option ℕ → Option (ParseState State) → Result ParseError (Out × ParseState State)
    with_stat f none prior = err not_opened
    with_stat f (some size) prior = with_header f size f.head prior

    unfoldable pub parse_cached :
        File → Option (ParseState State) → Result ParseError (Out × ParseState State)
    unfolding scan_appended_lines can_extend
    parse_cached f prior = with_stat f f.stat prior
