-- ===== src/ChatQueue/History/Claims.antt =====
-- An item of the chat queue is handed out at most once.
use pican.Base.{
  ℕ, ◌<◌, ◌≡◌, refl, ap, ◌∙◌, sym, ◌≢◌, String, Bool, true, false, List, [], ◌∷◌, ◌++◌, arith,
  str_eq, Bool-cases, inl, inr, str_eq_iff, ◌⊎◌, Result-cases, All,
}
use pican.ChatQueue.Table.{Item, Db, delete_row, of_session}
use pican.ChatQueue.Rows.{any-outside, drop_position}
use pican.ChatQueue.Next.{next_of}
use pican.ChatQueue.Invariant.{
  IsOrdered, str-cases, add-next_le, set_paused-next_le, pop_head-cases,
}
use pican.ChatQueue.Fifo.{queue, queue-rows, add-queue, add-failed, delete-queue, remove-queue}
use pican.ChatQueue.{Faults, add, remove, pop_head, set_paused}
use pican.ChatQueue.History.{
  Call, adds, removes, pops, pauses, step, claims, run_claims, has_position, Distinct, removed,
  popped, step-IsOrdered,
}

-- A position that was handed out and no longer waits.
abbrev Gone : String → ℕ → Db → Type 0
Gone s p db = (p < next_of s db.states) × (has_position p (queue s db) ≡ false)

has-append :
    (p : ℕ) (xs : List Item) (r : Item)
    → has_position p xs ≡ false
    → r.position ≢ p
    → has_position p (xs ++ r ∷ []) ≡ false
has-append p [] r h k = ground arith
has-append p (x ∷ xs) r h k = ground (arith, has-append p xs r)

has-drop :
    (p q : ℕ) (xs : List Item)
    → has_position p xs ≡ false
    → has_position p (drop_position q xs) ≡ false
has-drop p q [] h = refl
has-drop p q (x ∷ xs) h = ground (arith, has-drop p q xs)

has-drop_self : (p : ℕ) (xs : List Item) → has_position p (drop_position p xs) ≡ false
has-drop_self p [] = refl
has-drop_self p (x ∷ xs) = ground (arith, has-drop_self p xs)

pub set_paused-items :
    (faults : Faults) (now : ℕ) (db : Db) (s : String) (paused : Bool)
    → (set_paused faults now db s paused).1.items ≡ db.items
unfolding set_paused
set_paused-items faults now db s paused = ground arith

remove-states :
    (faults : Faults) (db : Db) (s : String) (p : ℕ) → (remove faults db s p).1.states ≡ db.states
unfolding remove
remove-states faults db s p = ground arith

-- A failed `Remove` either deletes the row or leaves it.
remove-rows :
    (faults : Faults) (db : Db) (s : String) (p : ℕ)
    → (remove faults db s p).1 ≡ db
      ⊎ (remove faults db s p).1 ≡ record db { items = delete_row s p db.items }
unfolding remove
remove-rows faults db s p = ground arith

pop_head-states :
    (faults : Faults) (db : Db) (s : String) → (pop_head faults db s).1.states ≡ db.states
pop_head-states faults db s = elim (pop_head-cases faults db s) [
  | inl (_, _, _, e) ↦ rw e refl
  | inr (inl (_, e)) ↦ rw e refl
  | inr (inr (_, e)) ↦ rw e refl
]

module _ (s : String) (p : ℕ) where
  delete-Gone :
      (db : Db) (t : String) (q : ℕ)
      → IsOrdered db
      → has_position p (queue s db) ≡ false
      → has_position p (queue s (record db { items = delete_row t q db.items })) ≡ false
  delete-Gone db t q v g =
      let (own, others) = delete-queue db t q v in
      elim (str-cases t s) [
        | inl e ↦
            rw
              (
                ap (λ x. has_position p (queue x (record db { items = delete_row t q db.items })))
                    (sym e),
                own,
              )
              (has-drop p q (queue t db) (rw e g))
        | inr other ↦ rw (others s other) g
      ]

  add-Gone :
      (faults : Faults) (now : ℕ) (db : Db) (t message display_text : String)
      → IsOrdered db
      → p < next_of s db.states
      → has_position p (queue s db) ≡ false
      → has_position p (queue s (add faults now db t message display_text).1) ≡ false
  add-Gone faults now db t message display_text v lt g =
      elim (Result-cases (add faults now db t message display_text).0) [
        | inr (e, h) ↦ rw (add-failed faults now db t message display_text e h) g
        | inl (item, h) ↦
            let (own, others, above, _) = add-queue faults now db t message display_text item v h in
            elim (str-cases t s) [
              | inl e ↦
                  let lt' : p < next_of t db.states = rw e lt in
                  rw
                    (
                      ap
                          (λ x.
                            has_position p (queue x (add faults now db t message display_text).1))
                          (sym e),
                      own,
                    )
                    (has-append p (queue t db) item (rw e g) (omega arith))
              | inr other ↦ rw (others s other) g
            ]
      ]

  step-Gone : (db : Db) (c : Call) → IsOrdered db → Gone s p db → Gone s p (step db c)
  unfolding step
  step-Gone db (adds faults now t message display_text) v g = (
    omega (arith, add-next_le faults now db t message display_text s),
    add-Gone faults now db t message display_text v g.0 g.1,
  )
  step-Gone db (removes faults t q) v g = (
    rw (remove-states faults db t q) g.0,
    elim (remove-rows faults db t q) [
      | inl e ↦ rw (e, step) g.1
      | inr e ↦ rw (e, step) (delete-Gone db t q v g.1)
    ],
  )
  step-Gone db (pops faults t) v g = (
    rw (pop_head-states faults db t) g.0,
    elim (pop_head-cases faults db t) [
      | inl (r, _, _, e) ↦ rw (e, step) (delete-Gone db t r.position v g.1)
      | inr (inl (_, e)) ↦ rw (e, step) g.1
      | inr (inr (_, e)) ↦ rw (e, step) g.1
    ],
  )
  step-Gone db (pauses faults now t paused) v g = (
    omega (arith, set_paused-next_le faults now db t paused s),
    rw (set_paused-items faults now db t paused) g.1,
  )

waiting-lt-next :
    (db : Db) (s : String) (p : ℕ)
    → IsOrdered db
    → has_position p (queue s db) ≡ true
    → p < next_of s db.states
waiting-lt-next db s p v h =
    ground (
      arith,
      queue-rows s db v,
      any-outside 0 (next_of s db.states) p (of_session s db.items) (v s),
    )

-- A call hands out nothing, or one position that was waiting and is gone afterwards.
abbrev OneClaim : String → Db → Db → List ℕ → Type 0
OneClaim s db db' ps =
    (ps ≡ []) ⊎ ((p : ℕ) × (ps ≡ p ∷ []) × (has_position p (queue s db) ≡ true) × Gone s p db')

remove-OneClaim :
    (faults : Faults) (db : Db) (s : String) (p : ℕ)
    → IsOrdered db
    → OneClaim s db (remove faults db s p).1 (removed (remove faults db s p).0 p)
remove-OneClaim faults db s p v = elim (Result-cases (remove faults db s p).0) [
  | inr (e, h) ↦ rw h (inl refl)
  | inl (found, h) ↦
      let (own, _, was) = remove-queue faults db s p found v h in
      elim (Bool-cases found) [
        | inr no_row ↦ rw (h, no_row) (inl refl)
        | inl row ↦
            let here : has_position p (queue s db) ≡ true = sym was ∙ row in
            rw (h, row)
              (inr (
                p,
                refl,
                here,
                (
                  rw (remove-states faults db s p) (waiting-lt-next db s p v here),
                  rw own (has-drop_self p (queue s db)),
                ),
              ))
      ]
]

pop_head-OneClaim :
    (faults : Faults) (db : Db) (s : String)
    → IsOrdered db
    → OneClaim s db (pop_head faults db s).1 (popped (pop_head faults db s).0)
pop_head-OneClaim faults db s v = elim (pop_head-cases faults db s) [
  | inr (inl (_, e)) ↦ rw e (inl refl)
  | inr (inr (_, e)) ↦ rw e (inl refl)
  | inl (r, rs, front, e) ↦
      let (own, _) = delete-queue db s r.position v in
      let here : has_position r.position (queue s db) ≡ true = rw front (ground arith) in
      rw e (
        inr (
          r.position,
          refl,
          here,
          (waiting-lt-next db s r.position v here, rw own (has-drop_self r.position (queue s db))),
        ))
]

claims-OneClaim :
    (s : String) (db : Db) (c : Call) → IsOrdered db → OneClaim s db (step db c) (claims s db c)
unfolding claims step
claims-OneClaim s db (adds _ _ _ _ _) v = inl refl
claims-OneClaim s db (pauses _ _ _ _) v = inl refl
claims-OneClaim s db (removes faults t p) v = elim (Bool-cases (str_eq t s)) [
  | inr h ↦ inl (rw h refl)
  | inl h ↦ rw (h, ← (str_eq_iff t s).0 h) (remove-OneClaim faults db t p v)
]
claims-OneClaim s db (pops faults t) v = elim (Bool-cases (str_eq t s)) [
  | inr h ↦ inl (rw h refl)
  | inl h ↦ rw (h, ← (str_eq_iff t s).0 h) (pop_head-OneClaim faults db t v)
]

-- What is gone is not handed out again by the rest of a history.
run_claims-Gone :
    (s : String) (p : ℕ) (db : Db) (cs : List Call)
    → IsOrdered db
    → Gone s p db
    → All (λ q. q ≢ p) (run_claims s db cs)
unfolding run_claims
run_claims-Gone s p db [] v g = tt
run_claims-Gone s p db (c ∷ cs) v g =
    let rest =
      run_claims-Gone s p (step db c) cs (step-IsOrdered db c v) (step-Gone s p db c v g) in
    elim (claims-OneClaim s db c v) [
      | inl e ↦ rw e rest
      | inr (q, e, here, _) ↦
          rw e ((λ same. cc (g.1, here, ap (λ x. has_position x (queue s db)) same)), rest)
    ]

-- In any history of calls without `Clear`, whichever database calls fail, no queued item is handed
-- out twice, neither by `PopHead`, nor by `Remove`, nor once by each.
pub run_claims-Distinct :
    (s : String) (db : Db) (cs : List Call) → IsOrdered db → Distinct (run_claims s db cs)
unfolding run_claims
run_claims-Distinct s db [] v = tt
run_claims-Distinct s db (c ∷ cs) v =
    let v' = step-IsOrdered db c v in
    let rest = run_claims-Distinct s (step db c) cs v' in
    elim (claims-OneClaim s db c v) [
      | inl e ↦ rw e rest
      | inr (q, e, _, gone) ↦ rw e (run_claims-Gone s q (step db c) cs v' gone, rest)
    ]
