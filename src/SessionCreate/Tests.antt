-- ===== src/SessionCreate/Tests.antt =====
-- Runs of the session creation store on small inputs, and its theorems at them.
use pican.Base.{
  ◌≤◌, ◌≡◌, refl, ◌≢◌, String, true, false, List, [], ◌∷◌, some, arith, str_eq, str_eq_iff, ok,
}
use pican.SessionCreate.Table.{
  Record, Db, created, unknown, pending, Statement, insert_claim, set_created, set_dispatching,
  recover_creating, recover_dispatching, exec, find_key, has_key, new_record, affected,
}
use pican.SessionCreate.Once.{
  run, owners, dispatches, owner_of, dispatch_of, IsUnique, owners-le-one, dispatches-le-one,
  run-IsUnique,
}
use pican.SessionCreate.States.{Followed, run-Followed, run-closed}
use pican.SessionCreate.Operations.{IsSound}
use pican.SessionCreate.{
  Faults, Claim, claim, mark_created, begin_prompt_dispatch, recover_interrupted, wait_for_mapping,
  validate_key,
}

abbrev sound : Faults
sound _ = false

sound-IsSound : IsSound sound
sound-IsSound e = refl

creates : Unit {0}
unfolding claim mark_created begin_prompt_dispatch recover_interrupted wait_for_mapping validate_key
    exec affected
creates = tt

abbrev fresh : Record
fresh = new_record 10 "k1" "f1" "codex" true

abbrev one_record : Db
one_record = fresh ∷ []

one_record-IsUnique : IsUnique one_record
unfolding run exec
one_record-IsUnique =
    run-IsUnique [] (insert_claim 10 "k1" "f1" "codex" true ∷ []) (λ k. omega arith)

-- Two requests with one key, a crash after the dispatch began, and a retry.
abbrev history : List Statement
history =
    insert_claim 10 "k1" "f1" "codex" true
    ∷ insert_claim 11 "k1" "f1" "codex" true
    ∷ set_created 12 "k1" "f1" "s1" "codex" "n1"
    ∷ set_dispatching 13 "k1" "f1"
    ∷ recover_creating 20
    ∷ recover_dispatching 20
    ∷ set_dispatching 21 "k1" "f1"
    ∷ []

one_owner : owners "k1" [] history ≡ 1
unfolding creates owners owner_of
one_owner = refl

one_dispatch : dispatches "k1" [] history ≡ 1
unfolding creates dispatches dispatch_of
one_dispatch = refl

owners-le-one_example :
    (owners "k1" [] history ≤ 1) × (has_key "k1" [] ≡ true → owners "k1" [] history ≡ 0)
owners-le-one_example = owners-le-one "k1" [] history

dispatches-le-one_example : dispatches "k1" [] history ≤ 1
dispatches-le-one_example = dispatches-le-one "k1" [] history (λ k. omega arith)

run-Followed_example :
    (r' : Record) × (find_key "k1" (run one_record history) ≡ some r') × Followed fresh r'
run-Followed_example = run-Followed "k1" one_record history fresh refl

abbrev lost : Record
lost = record fresh { create_state = unknown }

run-closed_example :
    (r' : Record) × (find_key "k1" (run (lost ∷ []) history) ≡ some r')
    × (r'.create_state ≡ unknown)
    × (r'.prompt_state ≡ pending)
run-closed_example = run-closed "k1" (lost ∷ []) history lost refl refl

abbrev won : Claim
won = record { row = fresh; owner = true }

claimed : (claim sound (λ d. run d []) 10 [] "k1" "f1" "codex" true).0 ≡ ok won
unfolding creates run
claimed = refl

abbrev between_reads : List Statement
between_reads = set_created 12 "k1" "f1" "s1" "codex" "n1" ∷ []

valid_k1 : validate_key "k1" ≡ true
unfolding creates
valid_k1 = refl

invalid_padded : validate_key " k1" ≡ false
unfolding creates
invalid_padded = refl

text_ne : {s t : String} → str_eq s t ≡ false → s ≢ t
text_ne {s} {t} h e = cc (h, (str_eq_iff s t).1 e)

abbrev mapped : Record
mapped = record fresh {
  create_state = created;
  session_id = "s1";
  runtime = "codex";
  native_id = "n1";
  updated_at = 12;
}

abbrev mapped_record : Db
mapped_record = mapped ∷ []

mapped_record-IsUnique : IsUnique mapped_record
mapped_record-IsUnique k = one_record-IsUnique k

mapped_at_last : wait_for_mapping sound "k1" "f1" one_record (mapped_record ∷ []) ≡ ok mapped
unfolding creates
mapped_at_last = refl
