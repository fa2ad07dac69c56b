-- ===== src/Server/Drainer/Progress.antt =====
-- When the drainer of internal/server/chat_queue_drainer.go sends.
use pican.Base.{
  ◌≡◌, ◌≢◌, refl, sym, ap, ◌∙◌, inl, inr, String, true, false, List, [], ◌∷◌, ◌++◌, map, Option,
  none, some, arith, str_eq, str_eq_iff, str_eq_self, Result, ok, err, Result-cases, List-cases,
  Bool-cases, Option-cases, ◌==◌,
}
use pican.ChatQueue.Table.{Item, Db, find_state, paused_of, order_by_position, of_session}
use pican.ChatQueue.Invariant.{IsOrdered, pop_head-cases}
use pican.ChatQueue.Fifo.{queue}
use pican.ChatQueue.Sessions.{mem_str, is_empty, sessions_with_items_iff, sessions_with_items-total}
use pican.ChatQueue.{
  Error, Faults, pop_head, pop_head_tx, is_paused, sessions_with_items, query_paused, begin_tx,
  query_head, delete_head, commit,
}
use pican.Server.Drainer.{
  Resolved, Surroundings, may_dispatch, Dispatch, send_head, drain_session, sends, drain_each,
  drain_all,
}
use pican.Server.Drainer.Conserved.{waiting, sent_to, drain_session-ok, drain_session-cases}

pop_head-states :
    (faults : Faults) (db : Db) (s : String) → (pop_head faults db s).1.states ≡ db.states
pop_head-states faults db s = elim (pop_head-cases faults db s) [
  | inl (r, _, _, e) ↦ rw e refl
  | inr (inl (_, e)) ↦ rw e refl
  | inr (inr (_, e)) ↦ rw e refl
]

send_head-db :
    (s : String) (r : Resolved) (p : Result Error (Option Item) × Db) → (send_head s r p).1 ≡ p.1
send_head-db s r (err e, db) = refl
send_head-db s r (ok none, db) = refl
send_head-db s r (ok (some item), db) = refl

drain_session-states :
    (around : Surroundings) (faults : Faults) (db : Db) (s : String)
    → (drain_session around faults db s).1.states ≡ db.states
unfolding drain_session
drain_session-states around faults db s = elim (Result-cases (may_dispatch around faults db s)) [
  | inl (r, e) ↦
      rw (drain_session-ok around faults db s r e)
        (ap (λ x. x.states) (send_head-db s r (pop_head faults db s)) ∙ pop_head-states faults db s)
  | inr (_, e) ↦ rw (drain_session, e) refl
]

is_paused-states :
    (faults : Faults) (db db' : Db) (s : String)
    → db'.states ≡ db.states
    → is_paused faults db' s ≡ is_paused faults db s
unfolding is_paused
is_paused-states faults db db' s h = ap (λ sts. is_paused faults (record db { states = sts }) s) h

-- The checks read only the state rows.
may_dispatch-states :
    (around : Surroundings) (faults : Faults) (db db' : Db) (s : String)
    → db'.states ≡ db.states
    → may_dispatch around faults db' s ≡ may_dispatch around faults db s
unfolding may_dispatch
may_dispatch-states around faults db db' s h =
    rw (may_dispatch, is_paused-states faults db db' s h) refl

-- What the checks have found when they let a session pass.
may_dispatch-passed :
    (around : Surroundings) (faults : Faults) (db : Db) (s : String) (r : Resolved)
    → may_dispatch around faults db s ≡ ok r
    → (str_eq s "" ≡ false) × (around.has_queue ≡ true) × (is_paused faults db s ≡ ok false)
unfolding may_dispatch
may_dispatch-passed around faults db s r h = elim (Bool-cases (str_eq s "")) [
  | inl e ↦ absurd (ground arith)
  | inr e ↦ elim (Bool-cases around.has_queue) [
    | inr q ↦ absurd (ground arith)
    | inl q ↦ elim (Result-cases (is_paused faults db s)) [
      | inr (x, p) ↦ absurd (ground arith)
      | inl (b, p) ↦ elim (Bool-cases b) [
        | inl k ↦ absurd (ground arith)
        | inr k ↦ (e, q, p ∙ ap (λ y. ok y) k)
      ]
    ]
  ]
]

awake_of :
    (faults : Faults) (db : Db) (s : String)
    → is_paused faults db s ≡ ok false
    → (paused_of s db.states == 0) ≡ true
unfolding is_paused
awake_of faults db s h = elim (Option-cases (find_state s db.states)) [
  | inl e ↦ rw (e, paused_of) refl
  | inr (st, e) ↦ elim (Bool-cases (faults query_paused)) [
    | inl k ↦ absurd (ground arith)
    | inr k ↦ ground (arith, e, k)
  ]
]

has_message :
    (s : String) (db : Db) (m : String) (ms : List String)
    → waiting s db ≡ m ∷ ms
    → is_empty (queue s db) ≡ false
has_message s db m ms waits = elim (List-cases (queue s db)) [
  | inl e ↦ absurd (cc (sym (ap (map (λ (x : Item). x.message)) e) ∙ waits))
  | inr (x, xs, e) ↦ rw e refl
]

module _ (around : Surroundings) (faults : Faults) (sound : (e : Error) → faults e ≡ false) where
  pop_head-succeeds :
      (db : Db) (s : String) (e : Error) → str_eq s "" ≡ false → pop_head faults db s ≢ (err e, db)
  unfolding pop_head pop_head_tx
  pop_head-succeeds db s e named h = elim (List-cases (order_by_position (of_session s db.items))) [
    | inl none_waits ↦ absurd (ground (arith, sound begin_tx, sound query_head, none_waits))
    | inr (item, rs, row) ↦
        absurd
          (ground (arith, sound begin_tx, sound query_head, sound delete_head, sound commit, row))
  ]

  -- A session that passes the checks and has a message waiting gets its head.
  drain_session-sends :
      (db : Db) (s : String) (r : Resolved) (m : String) (ms : List String)
      → IsOrdered db
      → may_dispatch around faults db s ≡ ok r
      → waiting s db ≡ m ∷ ms
      → (d : Dispatch) × ((drain_session around faults db s).0 ≡ some d)
        × (d.session ≡ s)
        × (d.message ≡ m)
  drain_session-sends db s r m ms v good waits =
      let (named, _, _) = may_dispatch-passed around faults db s r good in
      let start = drain_session-ok around faults db s r good in
      elim (pop_head-cases faults db s) [
        | inl (item, rs, row, e) ↦ (
          record { session = s; path = r.path; message = item.message },
          rw (start, e) refl,
          refl,
          cc (sym (ap (map (λ (x : Item). x.message)) row) ∙ waits),
        )
        | inr (inl (row, _)) ↦ absurd (cc (sym (ap (map (λ (x : Item). x.message)) row) ∙ waits))
        | inr (inr (x, e)) ↦ absurd (pop_head-succeeds db s x named e)
      ]

  drain_each-step :
      (db : Db) (t : String) (ts : List String)
      → (drain_each around faults db (t ∷ ts)).0
        ≡ sends (drain_session around faults db t).0
          ++ (drain_each around faults (drain_session around faults db t).1 ts).0
  unfolding drain_each
  drain_each-step db t ts = refl

  head_sent :
      (s : String) (o : Option Dispatch) (d : Dispatch) (os : List Dispatch)
      → o ≡ some d
      → d.session ≡ s
      → sent_to s (sends o ++ os) ≡ d.message ∷ sent_to s os
  head_sent s o d os e own = rw (e, own, str_eq_self s) refl

  -- A scan of a list of sessions that has `s`: nothing that happens to the others keeps it back.
  drain_each-sends :
      (db : Db) (ids : List String) (s : String) (r : Resolved) (m : String) (ms : List String)
      → mem_str s ids ≡ true
      → IsOrdered db
      → may_dispatch around faults db s ≡ ok r
      → waiting s db ≡ m ∷ ms
      → (rest : List String) × (sent_to s (drain_each around faults db ids).0 ≡ m ∷ rest)
  drain_each-sends db [] s r m ms there v good waits = absurd (cc there)
  drain_each-sends db (t ∷ ts) s r m ms there v good waits = elim (Bool-cases (str_eq t s)) [
    | inl own ↦
        let (d, e, of_s, own_message) = drain_session-sends db s r m ms v good waits in
        let o = drain_session around faults db s in
        let os = (drain_each around faults o.1 ts).0 in
        (
          sent_to s os,
          rw ((str_eq_iff t s).0 own, drain_each-step db s ts)
              (head_sent s o.0 d os e of_s ∙ ap (λ x. x ∷ sent_to s os) own_message),
        )
    | inr other ↦ elim (drain_session-cases around faults db t v) [
      | inl e ↦
          let (rest, h) = drain_each-sends db ts s r m ms (ground arith) v good waits in
          (rest, rw (drain_each-step db t ts, e) h)
      | inr (d, db', e, own, _, others, v') ↦
          let states : db'.states ≡ db.states =
            sym (ap (λ (p : Option Dispatch × Db). p.1.states) e)
            ∙ drain_session-states around faults db t in
          let apart : t ≢ s = λ same. cc (other, (str_eq_iff t s).1 same) in
          let (rest, h) =
            drain_each-sends db' ts s r m ms (ground arith) v'
              (may_dispatch-states around faults db db' s states ∙ good)
              (ap (map (λ (x : Item). x.message)) (others s apart) ∙ waits) in
          (rest, rw (drain_each-step db t ts, e, own, other) h)
    ]
  ]

  scanned :
      (db : Db) (ids : List String)
      → around.has_queue ≡ true
      → sessions_with_items faults db ≡ ok ids
      → drain_all around faults db ≡ drain_each around faults db ids
  unfolding drain_all
  scanned db ids q e = ground (arith, q, e)

  -- While the database works, a scan of all sessions sends the head of the queue of every session
  -- that may be dispatched to and has a message waiting, as the first message that it sends there,
  -- whatever becomes of the other sessions.
  pub drain_all-sends :
      (db : Db) (s : String) (r : Resolved) (m : String) (ms : List String)
      → IsOrdered db
      → may_dispatch around faults db s ≡ ok r
      → waiting s db ≡ m ∷ ms
      → (rest : List String) × (sent_to s (drain_all around faults db).0 ≡ m ∷ rest)
  drain_all-sends db s r m ms v good waits =
      let (_, q, awake) = may_dispatch-passed around faults db s r good in
      let (ids, e) = sessions_with_items-total faults db sound in
      let there : mem_str s ids ≡ true =
        sessions_with_items_iff faults db ids s e
        ∙ rw (has_message s db m ms waits, awake_of faults db s awake) refl in
      rw (scanned db ids q e) (drain_each-sends db ids s r m ms there v good waits)
