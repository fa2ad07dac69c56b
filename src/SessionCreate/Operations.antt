-- ===== src/SessionCreate/Operations.antt =====
-- What the operations of internal/sessioncreate/store.go answer. `sts` are the statements that
-- other callers execute between an operation's write and its read.
use pican.Base.{
  ℕ, ◌≡◌, refl, ap, ◌∙◌, sym, ◌≢◌, String, Bool, true, false, not, ◌&&◌, List, [], ◌∷◌, some, arith,
  str_eq, eq_iff, if◌then◌else◌, Bool-cases, inl, inr, str_eq_iff, str_eq_ne, ok, err, Result-cases,
}
use mathlib.Core.Path.{ap₂}
use pican.SessionCreate.Table.{
  Record, Db, created, dispatching, Statement, insert_claim, set_created, set_dispatching, matches,
  assign, update_row, exec, affected, find_key, has_key, is_creating, is_created, is_pending,
}
use pican.SessionCreate.Once.{run, IsUnique}
use pican.SessionCreate.States.{run-Followed, exec-Stepped, find-update}
use pican.SessionCreate.Selection.{
  Addresses, count-found, set_created-Addresses, set_dispatching-Addresses,
}
use pican.SessionCreate.{
  Error, Faults, Claim, validate_key, get, claim, transition, mark_created, begin_prompt_dispatch,
  conflict, invalid_state, store_unavailable, claim_key, read_claim_result, read_record,
  parse_creation_time, parse_update_time, update_record, read_transition_result, claim_dispatch,
  read_prompt_claim_result,
}

abbrev pub IsSound : Faults → Type 0
IsSound faults = (e : Error) → faults e ≡ false

pub get_sound :
    (faults : Faults) (db : Db) (k : String) (r : Record)
    → IsSound faults
    → find_key k db ≡ some r
    → get faults db k ≡ ok r
unfolding get
get_sound faults db k r s e = rw (s read_record, e, s parse_creation_time, s parse_update_time) refl

find_key-key : (k : String) (db : Db) (r : Record) → find_key k db ≡ some r → str_eq r.key k ≡ true
find_key-key k [] r e = cc
find_key-key k (x ∷ db) r e = elim (Bool-cases (str_eq x.key k)) [
  | inl h ↦ let first : x ≡ r = ground arith in rw (← first) h
  | inr h ↦ find_key-key k db r (ground arith)
]

pub get-ok :
    (faults : Faults) (db : Db) (k : String) (r : Record)
    → get faults db k ≡ ok r
    → find_key k db ≡ some r
unfolding get
get-ok faults db k r e = ground arith

-- A successful `Claim` makes its caller the owner exactly if the key was free when its INSERT ran,
-- whatever other callers did before it read the record; the record is the key's and has the
-- fingerprint of the request.
pub claim-owner :
    (faults : Faults) (sts : List Statement) (now : ℕ) (db : Db) (key fingerprint runtime : String)
    (has_prompt : Bool) (c : Claim)
    → (claim faults (λ d. run d sts) now db key fingerprint runtime has_prompt).0 ≡ ok c
    → (c.owner ≡ not (has_key key db))
      × (c.row.fingerprint ≡ fingerprint)
      × (find_key key (claim faults (λ d. run d sts) now db key fingerprint runtime has_prompt).1
          ≡ some c.row)
unfolding claim affected
claim-owner faults sts now db key fingerprint runtime has_prompt c e =
    elim (Result-cases (get faults after key)) [
      | inl (r, h) ↦ (
        ground arith,
        ground (arith, eq_iff r.fingerprint fingerprint),
        ground (arith, get-ok faults after key r),
      )
      | inr h ↦ absurd (ground arith)
    ]
  where
    after : Db
    after = run (exec db (insert_claim now key fingerprint runtime has_prompt)) sts

-- A key that was used for another request is refused, also when other callers have moved its record
-- on in the meantime, and the table is what they made of it.
pub claim-conflict :
    (faults : Faults) (sts : List Statement) (now : ℕ) (db : Db) (key fingerprint runtime : String)
    (has_prompt : Bool) (r : Record)
    → IsSound faults
    → validate_key key ≡ true
    → fingerprint ≢ ""
    → runtime ≢ ""
    → find_key key db ≡ some r
    → r.fingerprint ≢ fingerprint
    → claim faults (λ d. run d sts) now db key fingerprint runtime has_prompt
      ≡ (err conflict, run (exec db (insert_claim now key fingerprint runtime has_prompt)) sts)
unfolding claim
claim-conflict faults sts now db key fingerprint runtime has_prompt r s v hf hr e other =
    let (m, found, step) =
      exec-Stepped key db (insert_claim now key fingerprint runtime has_prompt) r e in
    let (r', last, f) = run-Followed key _ sts m found in
    let differs : str_eq r'.fingerprint fingerprint ≡ false =
      str_eq_ne r'.fingerprint fingerprint
        (λ h. other (sym (f.same_fingerprint ∙ step.same_fingerprint) ∙ h)) in
    let reads = get_sound faults _ key r' s last in
    rw
      (
        s store_unavailable,
        v,
        str_eq_ne fingerprint "" hf,
        str_eq_ne runtime "" hr,
        s claim_key,
        s read_claim_result,
        reads,
        differs,
      )
      refl

-- An UPDATE of one record: it is applied and the new record returned, or refused in the record's
-- present state.
pub transition_lem :
    (faults : Faults) (db : Db) (key fingerprint : String) (st : Statement) (r : Record)
    → IsSound faults
    → IsUnique db
    → Addresses key fingerprint st
    → find_key key db ≡ some r
    → r.fingerprint ≡ fingerprint
    → (update_row st r).fingerprint ≡ r.fingerprint
    → transition faults (λ d. d) db key fingerprint st ≡ (
        if matches st r
        then (ok (assign st r), exec db st)
        else (err (invalid_state r), exec db st))
unfolding transition update_row
transition_lem faults db key fingerprint st r s u (a, counts, maps) e f keeps =
    let found : find_key key (exec db st) ≡ some (update_row st r) =
      rw (maps db) (find-update key st db r e) in
    let reads = get_sound faults (exec db st) key (update_row st r) s found in
    let same : str_eq (update_row st r).fingerprint fingerprint ≡ true =
      (str_eq_iff _ _).1 (keeps ∙ f) in
    let n = counts db ∙ count-found key fingerprint st a db r (u key) e in
    rw (s update_record, s read_transition_result, reads, same, n)
      (elim (Bool-cases (matches st r)) [
        | inl h ↦ rw (h, update_row) refl
        | inr h ↦ rw (h, update_row) refl
      ])

-- `MarkCreated` maps a record that is still creating to its native identity, and refuses any other
-- record without changing it; the answer is the record that the table then holds.
pub mark_created_lem :
    (faults : Faults) (now : ℕ) (db : Db) (key fingerprint session_id runtime native_id : String)
    (r : Record)
    → IsSound faults
    → IsUnique db
    → session_id ≢ ""
    → runtime ≢ ""
    → native_id ≢ ""
    → find_key key db ≡ some r
    → r.fingerprint ≡ fingerprint
    → let mapped : Record = record r {
      create_state = created;
      session_id = session_id;
      runtime = runtime;
      native_id = native_id;
      updated_at = now;
    } in
      let (reply, db') =
        mark_created faults (λ d. d) now db key fingerprint session_id runtime native_id in
      (reply ≡ (if is_creating r.create_state then ok mapped else err (invalid_state r)))
      × (find_key key db' ≡ some (if is_creating r.create_state then mapped else r))
unfolding mark_created matches assign update_row exec
mark_created_lem faults now db key fingerprint session_id runtime native_id r s u hs hr hn e f =
    let st = set_created now key fingerprint session_id runtime native_id in
    let a = set_created-Addresses key fingerprint now session_id runtime native_id in
    let keeps : (update_row st r).fingerprint ≡ r.fingerprint = ground arith in
    let kept : str_eq r.key key ≡ true = find_key-key key db r e in
    let fits : str_eq r.fingerprint fingerprint ≡ true = (str_eq_iff _ _).1 f in
    let t = transition_lem faults db key fingerprint st r s u a e f keeps in
    let found = find-update key st db r e in
    rw (str_eq_ne session_id "" hs, str_eq_ne runtime "" hr, str_eq_ne native_id "" hn, t)
      (elim (Bool-cases (is_creating r.create_state)) [
        | inl h ↦
            let moved : update_row st r ≡ record r {
              create_state = created;
              session_id = session_id;
              runtime = runtime;
              native_id = native_id;
              updated_at = now;
            } =
              rw (kept, fits, h) refl in
            rw (kept, fits, h) (refl, found ∙ ap (λ x. some x) moved)
        | inr h ↦
            let still : update_row st r ≡ r = rw (kept, fits, h) refl in
            rw (kept, fits, h) (refl, found ∙ ap (λ x. some x) still)
      ])

-- `BeginPromptDispatch` lets its caller dispatch exactly if the session is created and its prompt
-- still pending, and the table then says that it is being dispatched; else the record stays.
pub begin_prompt_dispatch_lem :
    (faults : Faults) (now : ℕ) (db : Db) (key fingerprint : String) (r : Record)
    → IsSound faults
    → IsUnique db
    → find_key key db ≡ some r
    → r.fingerprint ≡ fingerprint
    → let ready : Bool = is_created r.create_state && is_pending r.prompt_state in
      let after : Record =
        if ready then record r { prompt_state = dispatching; updated_at = now } else r in
      let (reply, db') = begin_prompt_dispatch faults (λ d. d) now db key fingerprint in
      (reply ≡ ok (after, ready)) × (find_key key db' ≡ some after)
unfolding begin_prompt_dispatch matches assign update_row exec affected
begin_prompt_dispatch_lem faults now db key fingerprint r s u e f =
    let st = set_dispatching now key fingerprint in
    let (a, counts, _) = set_dispatching-Addresses key fingerprint now in
    let kept : str_eq r.key key ≡ true = find_key-key key db r e in
    let fits : str_eq r.fingerprint fingerprint ≡ true = (str_eq_iff _ _).1 f in
    let found = find-update key st db r e in
    let n = count-found key fingerprint st a db r (u key) e in
    let moved : update_row st r ≡ (
        if is_created r.create_state && is_pending r.prompt_state
        then record r { prompt_state = dispatching; updated_at = now }
        else r) =
      rw (kept, fits) refl in
    let same : str_eq (update_row st r).fingerprint fingerprint ≡ true = ground arith in
    let reads = get_sound faults (exec db st) key (update_row st r) s found in
    rw (s claim_dispatch, s read_prompt_claim_result, reads, same, n)
      (
        ap₂ (λ x (b : Bool). ok (x, b)) moved
            (elim (Bool-cases (is_created r.create_state && is_pending r.prompt_state)) [
              | inl h ↦ rw (kept, fits, h) refl
              | inr h ↦ rw (kept, fits, h) refl
            ]),
        found ∙ ap (λ x. some x) moved,
      )
