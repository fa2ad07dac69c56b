-- ===== src/Server/Drainer/Conserved.antt =====
-- The drainer of internal/server/chat_queue_drainer.go: what becomes of the waiting messages.
use pican.Base.{
  ◌≡◌, ◌≢◌, refl, ap, ◌∙◌, ◌⊎◌, inl, inr, String, List, [], ◌∷◌, ◌++◌, map, Option, none, some,
  arith, str_eq, if◌then◌else◌, Result, ok, err, Result-cases,
}
use pican.ChatQueue.Table.{Item, Db}
use pican.ChatQueue.Invariant.{IsOrdered, pop_head-IsOrdered}
use pican.ChatQueue.Fifo.{queue, pop_head-queue}
use pican.ChatQueue.{Error, Faults, pop_head}
use pican.Server.Drainer.{
  Resolved, Surroundings, may_dispatch, Dispatch, send_head, drain_session, sends, Drainer,
}

-- The messages that wait in a session, and those that were sent to it.
abbrev pub waiting : String → Db → List String
waiting t db = map (λ r. r.message) (queue t db)

abbrev pub sent_to : String → List Dispatch → List String
sent_to t [] = []
sent_to t (d ∷ ds) = if str_eq d.session t then d.message ∷ sent_to t ds else sent_to t ds

pub sent_to-append :
    (t : String) (xs ys : List Dispatch) → sent_to t (xs ++ ys) ≡ sent_to t xs ++ sent_to t ys
sent_to-append t [] ys = refl
sent_to-append t (x ∷ xs) ys = ground (arith, sent_to-append t xs ys)

pub drain_session-ok :
    (around : Surroundings) (faults : Faults) (db : Db) (s : String) (r : Resolved)
    → may_dispatch around faults db s ≡ ok r
    → drain_session around faults db s ≡ send_head s r (pop_head faults db s)
unfolding drain_session
drain_session-ok around faults db s r h = rw (h, drain_session) refl

module _ (s : String) (r : Resolved) where
  send_head-some :
      (p : Result Error (Option Item) × Db) (item : Item)
      → p.0 ≡ ok (some item)
      → send_head s r p
        ≡ (some (record { session = s; path = r.path; message = item.message }), p.1)
  send_head-some (reply, db) item e = rw e refl

  send_head-none :
      (p : Result Error (Option Item) × Db) → p.0 ≡ ok none → send_head s r p ≡ (none, p.1)
  send_head-none (reply, db) e = rw e refl

  pub send_head-err :
      (p : Result Error (Option Item) × Db) (bad : Error)
      → p.0 ≡ err bad
      → send_head s r p ≡ (none, p.1)
  send_head-err (reply, db) bad e = rw e refl

-- A session is passed over, or the head of its queue is sent.
pub drain_session-cases :
    (around : Surroundings) (faults : Faults) (db : Db) (s : String)
    → IsOrdered db
    → (drain_session around faults db s ≡ (none, db))
      ⊎ ((d : Dispatch) × (db' : Db) × (drain_session around faults db s ≡ (some d, db'))
          × (d.session ≡ s)
          × (waiting s db ≡ d.message ∷ waiting s db')
          × ((t : String) → s ≢ t → queue t db' ≡ queue t db)
          × IsOrdered db')
unfolding drain_session
drain_session-cases around faults db s v = elim (Result-cases (may_dispatch around faults db s)) [
  | inr (e, skip) ↦ inl (rw (skip, drain_session) refl)
  | inl (r, good) ↦
      let pops = pop_head faults db s in
      let start = drain_session-ok around faults db s r good in
      elim (pop_head-queue faults db s v) [
        | inl (item, e, heads, others) ↦
            let db' = pops.1 in
            let d : Dispatch = record { session = s; path = r.path; message = item.message } in
            inr (
              d,
              db',
              start ∙ send_head-some s r pops item e,
              refl,
              ap (map (λ r. r.message)) heads,
              others,
              pop_head-IsOrdered faults db s v,
            )
        | inr (inl (e, _, same)) ↦ inl (start ∙ (send_head-none s r pops e ∙ rw same refl))
        | inr (inr (bad, e, same)) ↦ inl (start ∙ (send_head-err s r pops bad e ∙ rw same refl))
      ]
]

-- What was sent to a session, followed by what waits in it, is what waited.
abbrev Conserves : Db → List Dispatch × Db → Type 0
Conserves db (os, db') =
    IsOrdered db' × ((t : String) → sent_to t os ++ waiting t db' ≡ waiting t db)

abbrev as_sent : Option Dispatch × Db → List Dispatch × Db
as_sent (o, db) = (sends o, db)
