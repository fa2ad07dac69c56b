-- ===== src/SessionCreate.antt =====
-- internal/sessioncreate/store.go: the operations of the store. `faults` says which database calls
-- fail; `others` is what the statements of other callers do to the table between an operation's
-- write and its read.
pub mod Table
pub mod Once
pub mod States
mod Selection
pub mod Operations
pub mod Recovery
pub mod Keys
mod Tests
use pican.Base.{
  ℕ, ◌+◌, String, Bool, true, false, not, ◌&&◌, ◌||◌, List, [], ◌∷◌, Option, none, some, ltb, ◌==◌,
  str_eq, if◌then◌else◌, any_by, Result, ok, err, ◌>>=◌, ◌>>◌, guard, or_fail, attempt,
}
use pican.Base.Text.{codes, is_control, trim_space, byte_len, same}
use Table.{
  Record, Db, Statement, insert_claim, set_created, set_create_unknown, set_dispatching,
  set_accepted, set_prompt_unknown, recover_creating, recover_dispatching, find_key, exec, affected,
  is_creating, is_dispatching,
}

-- An error that comes with a record carries it. `context_done` is the end of the context in
-- `WaitForMapping`, `context_done_at` that in `WaitForPromptResolution`.
pub data Error : Type 0 where
  conflict invalid_key record_missing : Error
  invalid_state : Record → Error
  context_done : Error
  context_done_at : Record → Error
  store_unavailable fingerprint_and_runtime_required ids_required : Error
  claim_key read_claim_result read_record parse_creation_time parse_update_time : Error
  update_record read_transition_result claim_dispatch read_prompt_claim_result : Error
  begin_recovery recover_creation recover_dispatch commit_recovery : Error

abbrev pub Faults : Type 0
Faults = Error → Bool

abbrev pub Outcome : Type 0 → Type 0
Outcome A = Result Error A

pub record Claim : Type 0 where
  pub row : Record
  pub owner : Bool

abbrev max_idempotency_key_bytes : ℕ
max_idempotency_key_bytes = 200

unfoldable pub validate_key : String → Bool
unfolding is_control trim_space byte_len
validate_key key =
    not (
      str_eq key ""
      || ltb max_idempotency_key_bytes (byte_len (codes key))
      || not (same (trim_space (codes key)) (codes key)))
    && not (any_by is_control (codes key))

unfoldable pub get : Faults → Db → String → Outcome Record
get faults db key = do
  attempt faults read_record
  r ← or_fail (find_key key db) record_missing
  attempt faults parse_creation_time
  attempt faults parse_update_time
  ok r

unfoldable pub claim :
    Faults → (Db → Db) → ℕ → Db → String → String → String → Bool → Outcome Claim × Db
unfolding get
claim faults others now db key fingerprint runtime has_prompt =
    if faults store_unavailable
    then (err store_unavailable, db)
    else if not (validate_key key)
    then (err invalid_key, db)
    else if str_eq fingerprint "" || str_eq runtime ""
    then (err fingerprint_and_runtime_required, db)
    else if faults claim_key
    then (err claim_key, db)
    else (reply, after)
  where
    st : Statement
    st = insert_claim now key fingerprint runtime has_prompt

    after : Db
    after = others (exec db st)

    reply : Outcome Claim
    reply = do
      attempt faults read_claim_result
      r ← get faults after key
      guard (str_eq r.fingerprint fingerprint) conflict
      ok (record { row = r; owner = affected db st == 1 })

-- `transition`, for an UPDATE.
unfoldable pub transition :
    Faults → (Db → Db) → Db → String → String → Statement → Outcome Record × Db
unfolding get
transition faults others db key fingerprint st =
    if faults update_record then (err update_record, db) else (reply, after)
  where
    after : Db
    after = others (exec db st)

    reply : Outcome Record
    reply = do
      attempt faults read_transition_result
      r ← get faults after key
      guard (str_eq r.fingerprint fingerprint) conflict
      guard (affected db st == 1) (invalid_state r)
      ok r

unfoldable pub mark_created :
    Faults → (Db → Db) → ℕ → Db → String → String → String → String → String → Outcome Record × Db
unfolding transition
mark_created faults others now db key fingerprint session_id runtime native_id =
    if str_eq session_id "" || str_eq runtime "" || str_eq native_id ""
    then (err ids_required, db)
    else transition faults others db key fingerprint
        (set_created now key fingerprint session_id runtime native_id)

unfoldable pub mark_create_unknown :
    Faults → (Db → Db) → ℕ → Db → String → String → Outcome Record × Db
unfolding transition
mark_create_unknown faults others now db key fingerprint =
    transition faults others db key fingerprint (set_create_unknown now key fingerprint)

unfoldable pub mark_prompt_accepted :
    Faults → (Db → Db) → ℕ → Db → String → String → Outcome Record × Db
unfolding transition
mark_prompt_accepted faults others now db key fingerprint =
    transition faults others db key fingerprint (set_accepted now key fingerprint)

unfoldable pub mark_prompt_unknown :
    Faults → (Db → Db) → ℕ → Db → String → String → Outcome Record × Db
unfolding transition
mark_prompt_unknown faults others now db key fingerprint =
    transition faults others db key fingerprint (set_prompt_unknown now key fingerprint)

-- The record, and whether this caller has the one opportunity to dispatch.
unfoldable pub begin_prompt_dispatch :
    Faults → (Db → Db) → ℕ → Db → String → String → Outcome (Record × Bool) × Db
unfolding get
begin_prompt_dispatch faults others now db key fingerprint =
    if faults claim_dispatch then (err claim_dispatch, db) else (reply, after)
  where
    st : Statement
    st = set_dispatching now key fingerprint

    after : Db
    after = others (exec db st)

    reply : Outcome (Record × Bool)
    reply = do
      attempt faults read_prompt_claim_result
      r ← get faults after key
      guard (str_eq r.fingerprint fingerprint) conflict
      ok (r, affected db st == 1)

-- Both statements, or none.
unfoldable pub recover_interrupted : Faults → ℕ → Db → Outcome (Unit {0}) × Db
recover_interrupted faults now db =
    if faults begin_recovery
    then (err begin_recovery, db)
    else if faults recover_creation
    then (err recover_creation, db)
    else if faults recover_dispatch
    then (err recover_dispatch, db)
    else if faults commit_recovery
    then (err commit_recovery, db)
    else (ok tt, exec (exec db (recover_creating now)) (recover_dispatching now))

-- The polling loop of `WaitForMapping`. `db` is the table at this poll and `polls` are those at the
-- later ones; when they run out, the context is done.
unfoldable pub wait_for_mapping : Faults → String → String → Db → List Db → Outcome Record
unfolding get
wait_for_mapping faults key fingerprint db [] = do
  r ← get faults db key
  guard (str_eq r.fingerprint fingerprint) conflict
  guard (not (is_creating r.create_state)) context_done
  ok r
wait_for_mapping faults key fingerprint db (next ∷ polls) =
    let rest = wait_for_mapping faults key fingerprint next polls in
    do
      r ← get faults db key
      guard (str_eq r.fingerprint fingerprint) conflict
      if is_creating r.create_state then rest else ok r

-- That of `WaitForPromptResolution`, which returns the last record when the context is done.
unfoldable pub wait_for_prompt_resolution : Faults → String → String → Db → List Db → Outcome Record
unfolding get
wait_for_prompt_resolution faults key fingerprint db [] = do
  r ← get faults db key
  guard (str_eq r.fingerprint fingerprint) conflict
  guard (not (is_dispatching r.prompt_state)) (context_done_at r)
  ok r
wait_for_prompt_resolution faults key fingerprint db (next ∷ polls) =
    let rest = wait_for_prompt_resolution faults key fingerprint next polls in
    do
      r ← get faults db key
      guard (str_eq r.fingerprint fingerprint) conflict
      if is_dispatching r.prompt_state then rest else ok r
