-- ===== src/SessionCreate/Recovery.antt =====
-- Recovery after a crash, and the polling loops of internal/sessioncreate/store.go.
use pican.Base.{
  ℕ, ◌≡◌, refl, ap, ◌∙◌, ◌≢◌, ◌⊎◌, String, true, false, ◌&&◌, List, [], ◌∷◌, map, some, arith,
  str_eq, eq_iff, if◌then◌else◌, Bool-cases, inl, inr, str_eq_iff, ok, err, All, Any, Result-cases,
}
use pican.SessionCreate.Table.{
  Record, Db, creating, unknown, prompt_unknown, recover_creating, recover_dispatching, matches,
  assign, update_row, exec, find_key, is_creating, is_created, is_dispatching,
}
use pican.SessionCreate.Operations.{IsSound, get-ok, get_sound}
use pican.SessionCreate.{Error, Faults, get, recover_interrupted, wait_for_mapping}

-- What recovery makes of a record: what a crash left in doubt becomes a terminal unknown.
abbrev pub recovered : ℕ → Record → Record
recovered now r =
    if is_creating r.create_state
    then record r { create_state = unknown; updated_at = now }
    else if is_created r.create_state && is_dispatching r.prompt_state
    then record r { prompt_state = prompt_unknown; updated_at = now }
    else r

recovered_lem :
    (now : ℕ) (r : Record)
    → update_row (recover_dispatching now) (update_row (recover_creating now) r) ≡ recovered now r
unfolding update_row matches assign
recovered_lem now r = ground arith

recovered_rows :
    (now : ℕ) (db : Db)
    → map (update_row (recover_dispatching now)) (map (update_row (recover_creating now)) db)
      ≡ map (recovered now) db
recovered_rows now [] = refl
recovered_rows now (r ∷ db) = rw (recovered_lem now r, recovered_rows now db) refl

-- Nothing is left in doubt.
abbrev pub IsSettled : Record → Type 0
IsSettled r =
    (is_creating r.create_state ≡ false)
    × ((is_created r.create_state && is_dispatching r.prompt_state) ≡ false)

IsSettled-rows : (now : ℕ) (db : Db) → All IsSettled (map (recovered now) db)
IsSettled-rows now [] = tt
IsSettled-rows now (r ∷ db) = ((ground arith, ground arith), IsSettled-rows now db)

-- `RecoverInterrupted` either fails and leaves the table as it was, or turns every creation that
-- was in progress and every dispatch of a created session into an unknown one, keeps every other
-- record as it was, and leaves no record in doubt.
pub recover_interrupted_lem :
    (faults : Faults) (now : ℕ) (db : Db)
    → let (reply, db') = recover_interrupted faults now db in
      ((e : Error) × (reply ≡ err e) × (db' ≡ db))
      ⊎ ((reply ≡ ok tt) × (db' ≡ map (recovered now) db) × All IsSettled db')
unfolding recover_interrupted exec
recover_interrupted_lem faults now db = elim (Result-cases (recover_interrupted faults now db).0) [
  | inr (e, h) ↦ inl (e, h, ground arith)
  | inl (_, h) ↦
      let done : (recover_interrupted faults now db).1 ≡ map (recovered now) db =
        ground (arith, recovered_rows now db) in
      inr (h, done, rw done (IsSettled-rows now db))
]

-- `WaitForMapping` only returns a record of the key at one of its polls, with the fingerprint of
-- the request, whose creation is over.
pub wait_for_mapping_lem :
    (faults : Faults) (key fingerprint : String) (db : Db) (polls : List Db) (r : Record)
    → wait_for_mapping faults key fingerprint db polls ≡ ok r
    → Any (λ d. find_key key d ≡ some r) (db ∷ polls)
      × (r.fingerprint ≡ fingerprint)
      × (r.create_state ≢ creating)
unfolding wait_for_mapping
wait_for_mapping_lem faults key fingerprint db [] r e = elim (Result-cases (get faults db key)) [
  | inr h ↦ absurd (ground arith)
  | inl (x, h) ↦
      let same : x ≡ r = ground arith in
      (
        inl (get-ok faults db key r (h ∙ ap (λ y. ok y) same)),
        ground (arith, eq_iff x.fingerprint fingerprint),
        ground arith,
      )
]
wait_for_mapping_lem faults key fingerprint db (next ∷ polls) r e =
    elim (Result-cases (get faults db key)) [
      | inr h ↦ absurd (ground arith)
      | inl (x, h) ↦ elim (Bool-cases (is_creating x.create_state)) [
        | inl still ↦
            let (one, fits, over) =
              wait_for_mapping_lem faults key fingerprint next polls r (ground arith) in
            (inr one, fits, over)
        | inr over ↦
            let same : x ≡ r = ground arith in
            (
              inl (get-ok faults db key r (h ∙ ap (λ y. ok y) same)),
              ground (arith, eq_iff x.fingerprint fingerprint),
              ground arith,
            )
      ]
    ]

-- While the context lasts to a poll at which the creation is over, `WaitForMapping` returns.
pub wait_for_mapping-total :
    (faults : Faults) (key fingerprint : String) (db : Db) (polls : List Db)
    → IsSound faults
    → All
        (λ d. (r : Record) × (find_key key d ≡ some r) × (r.fingerprint ≡ fingerprint))
        (db ∷ polls)
    → Any
        (λ d. (r : Record) × (find_key key d ≡ some r) × (is_creating r.create_state ≡ false))
        (db ∷ polls)
    → (r : Record) × (wait_for_mapping faults key fingerprint db polls ≡ ok r)
unfolding wait_for_mapping
wait_for_mapping-total faults key fingerprint db [] s ((r, e, f), _) (inl (x, e', over)) =
    let same : x ≡ r = ground arith in
    let fits : str_eq r.fingerprint fingerprint ≡ true = (str_eq_iff _ _).1 f in
    let over' : is_creating r.create_state ≡ false = ground arith in
    (r, rw (get_sound faults db key r s e, fits, over') refl)
wait_for_mapping-total faults key fingerprint db [] s a (inr none_left) = absurd none_left
wait_for_mapping-total faults key fingerprint db (next ∷ polls) s ((r, e, f), rest) settled =
    let fits : str_eq r.fingerprint fingerprint ≡ true = (str_eq_iff _ _).1 f in
    let reads = get_sound faults db key r s e in
    elim (Bool-cases (is_creating r.create_state)) [
      | inr over ↦ (r, rw (reads, fits, over) refl)
      | inl still ↦ elim settled [
        | inl (x, e', over) ↦ absurd (let same : x ≡ r = ground arith in ground arith)
        | inr later ↦
            let (x, h) = wait_for_mapping-total faults key fingerprint next polls s rest later in
            (x, rw (reads, fits, still) h)
      ]
    ]
