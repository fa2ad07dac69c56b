-- ===== src/Workers/Sends.antt =====
-- `Send` of internal/workers/manager.go: the count of pending sends, the cancel functions that are
-- registered, and what `Status` shows of them.
use pican.Base.{
  ℕ, ◌+◌, ◌-◌, ◌≤◌, ◌<◌, ◌≡◌, refl, ap, ◌∙◌, ◌≢◌, inl, inr, String, List, [], ◌∷◌, ◌++◌, none,
  arith, str_eq, str_eq_self, if◌then◌else◌, Bool-cases, Option-cases, length, length-append, ltb,
}
use pican.Base.Assoc.{lookup, delete, count, lookup-insert, lookup-delete, count-append}
use pican.Workers.Manager.{
  idle, WorkerStatus, Manager, pending, cancels, count_of, items_of, without, put_cancels,
  send_begin, send_end, status_of, abort_existing,
}

-- The count of a session is the number of its sends in flight, each registered once under an id
-- that was issued.
pub record IsCounted (m : Manager) : Type 0 where
  pub matched : (s : String) → pending m s ≡ length (cancels m s)
  pub single : (s : String) (c : ℕ) → count c (cancels m s) ≤ 1
  pub issued : (s : String) (c : ℕ) → m.next_send_cancel < c → count c (cancels m s) ≡ 0

pub pending-begin :
    (m : Manager) (s t : String)
    → pending (send_begin m s) t ≡ (if str_eq s t then pending m s + 1 else pending m t)
unfolding send_begin
pending-begin m s t =
    ap count_of (lookup-insert s t (pending m s + 1) m.pending_sends) ∙ ground arith

pub cancels-begin :
    (m : Manager) (s t : String)
    → cancels (send_begin m s) t
      ≡ (if str_eq s t then cancels m s ++ (m.next_send_cancel + 1) ∷ [] else cancels m t)
unfolding send_begin
cancels-begin m s t =
    ap items_of (lookup-insert s t (cancels m s ++ (m.next_send_cancel + 1) ∷ []) m.send_cancels)
    ∙ ground arith

pub pending-end :
    (m : Manager) (s t : String) (c : ℕ)
    → pending (send_end m s c) t ≡ (if str_eq s t then pending m s - 1 else pending m t)
unfolding send_end
pending-end m s t c = elim (Bool-cases (ltb 1 (pending m s))) [
  | inl h ↦ rw h (ap count_of (lookup-insert s t (pending m s - 1) m.pending_sends) ∙ ground arith)
  | inr h ↦ rw h (ap count_of (lookup-delete s t m.pending_sends) ∙ ground arith)
]

items-put_cancels :
    (s t : String) (xs : List ℕ) (m : List (String × List ℕ))
    → items_of (lookup t (put_cancels s xs m)) ≡ (if str_eq s t then xs else items_of (lookup t m))
items-put_cancels s t [] m = ap items_of (lookup-delete s t m) ∙ ground arith
items-put_cancels s t (x ∷ xs) m = ap items_of (lookup-insert s t (x ∷ xs) m) ∙ ground arith

pub cancels-end :
    (m : Manager) (s t : String) (c : ℕ)
    → cancels (send_end m s c) t ≡ (if str_eq s t then without c (cancels m s) else cancels m t)
unfolding send_end
cancels-end m s t c = items-put_cancels s t (without c (cancels m s)) m.send_cancels

next-begin : (m : Manager) (s : String) → (send_begin m s).next_send_cancel ≡ m.next_send_cancel + 1
unfolding send_begin
next-begin m s = refl

next-end :
    (m : Manager) (s : String) (c : ℕ) → (send_end m s c).next_send_cancel ≡ m.next_send_cancel
unfolding send_end
next-end m s c = refl

length-without : (c : ℕ) (xs : List ℕ) → length (without c xs) + count c xs ≡ length xs
length-without c [] = refl
length-without c (x ∷ xs) = ground (arith, length-without c xs)

count-without-le : (c d : ℕ) (xs : List ℕ) → count d (without c xs) ≤ count d xs
count-without-le c d [] = omega arith
count-without-le c d (x ∷ xs) = ground (arith, count-without-le c d xs)

pub count-without_ne : (c d : ℕ) (xs : List ℕ) → c ≢ d → count d (without c xs) ≡ count d xs
count-without_ne c d [] h = refl
count-without_ne c d (x ∷ xs) h = ground (arith, count-without_ne c d xs h)

send_begin-IsCounted : (m : Manager) (s : String) → IsCounted m → IsCounted (send_begin m s)
send_begin-IsCounted m s v = record {
  matched = λ t.
      rw (pending-begin m s t, cancels-begin m s t)
        (ground (arith, v.matched s, v.matched t, length-append (cancels m s) (next ∷ [])));
  single = λ t c. rw (cancels-begin m s t) (
      ground (
        arith,
        v.single s c,
        v.single t c,
        v.issued s c,
        count-append c (cancels m s) (next ∷ []),
      ));
  issued = λ t c h.
      let k : next < c = rw (next-begin m s) at h in
      rw (cancels-begin m s t)
        (ground (arith, v.issued s c, v.issued t c, count-append c (cancels m s) (next ∷ [])));
}
  where
    next : ℕ
    next = m.next_send_cancel + 1

send_end-IsCounted :
    (m : Manager) (s : String) (c : ℕ)
    → count c (cancels m s) ≡ 1
    → IsCounted m
    → IsCounted (send_end m s c)
send_end-IsCounted m s c h v = record {
  matched = λ t.
      rw (pending-end m s t c, cancels-end m s t c)
        (ground (arith, v.matched s, v.matched t, length-without c (cancels m s)));
  single = λ t d.
      rw (cancels-end m s t c)
        (ground (arith, v.single s d, v.single t d, count-without-le c d (cancels m s)));
  issued = λ t d k.
      let k' : m.next_send_cancel < d = rw (next-end m s c) at k in
      rw (cancels-end m s t c)
        (ground (arith, v.issued s d, v.issued t d, count-without-le c d (cancels m s)));
}

-- Sends that overlap in any way, in any sessions: each ends while it is in flight.
pub data Sends : Manager → Manager → Type 0 where
  done : {m : Manager} → Sends m m
  begin : {m m' : Manager} (s : String) → Sends (send_begin m s) m' → Sends m m'
  finish :
      {m m' : Manager} (s : String) (c : ℕ)
      → count c (cancels m s) ≡ 1
      → Sends (send_end m s c) m'
      → Sends m m'

-- Without an abort, however sends overlap, the pending count of each session is the number of its
-- sends in flight, and each of those is registered once for cancellation.
pub Sends-IsCounted : {m m' : Manager} → Sends m m' → IsCounted m → IsCounted m'
Sends-IsCounted done v = v
Sends-IsCounted (begin {m} s rest) v = Sends-IsCounted rest (send_begin-IsCounted m s v)
Sends-IsCounted (finish {m} s c h rest) v = Sends-IsCounted rest (send_end-IsCounted m s c h v)

nonempty_of_count : (c : ℕ) (xs : List ℕ) → count c xs ≡ 1 → 0 < length xs
nonempty_of_count c [] k = absurd (omega arith)
nonempty_of_count c (x ∷ xs) k = omega arith

-- While the count is right, a session with a send in flight is never shown as idle, whatever its
-- worker reports and also if it has none yet.
pub status_busy :
    (m : Manager) (report : ℕ → WorkerStatus) (s : String) (c : ℕ)
    → IsCounted m
    → count c (cancels m s) ≡ 1
    → (status_of m report s).state ≢ idle
unfolding status_of
status_busy m report s c v h =
    let busy : 0 < pending m s = rw (v.matched s) (nonempty_of_count c (cancels m s) h) in
    elim (Option-cases (lookup s m.workers)) [
      | inl e ↦ rw (e, status_of) (ground arith)
      | inr (w, e) ↦ rw (e, status_of) (ground arith)
    ]

abort_existing_lem :
    (m : Manager) (s : String) (c : ℕ)
    → count c (cancels m s) ≡ 1
    → (abort_existing m s).0 ≡ record m { pending_sends = delete s m.pending_sends }
unfolding abort_existing
abort_existing_lem m s c h = ground (arith, nonempty_of_count c (cancels m s) h)

workers-send :
    (m : Manager) (s : String) (c : ℕ) → (send_end (send_begin m s) s c).workers ≡ m.workers
unfolding send_end send_begin
workers-send m s c = refl

status_of-idle :
    (m : Manager) (report : ℕ → WorkerStatus) (s : String)
    → lookup s m.workers ≡ none
    → pending m s ≡ 0
    → (status_of m report s).state ≡ idle
unfolding status_of
status_of-idle m report s e p = rw (e, status_of) (ground arith)

-- An abort breaks the count. When a send `c` is in flight, the session is aborted, a new send is
-- accepted, and only then the aborted send runs its deferred section, that section erases the new
-- send's mark: the new send is in flight, and a session without a worker is shown as idle.
pub abort_undercounts :
    (m : Manager) (report : ℕ → WorkerStatus) (s : String) (c : ℕ)
    → IsCounted m
    → count c (cancels m s) ≡ 1
    → let m' = send_end (send_begin (abort_existing m s).0 s) s c in
      (pending m' s ≡ 0)
      × (count (m.next_send_cancel + 1) (cancels m' s) ≡ 1)
      × (lookup s m.workers ≡ none → (status_of m' report s).state ≡ idle)
abort_undercounts m report s c v h = rw (abort_existing_lem m s c h) (
  erased,
  in_flight,
  λ e. status_of-idle last report s (ap (lookup s) (workers-send aborted s c) ∙ e) erased,
)
  where
    aborted : Manager
    aborted = record m { pending_sends = delete s m.pending_sends }

    last : Manager
    last = send_end (send_begin aborted s) s c

    erased : pending last s ≡ 0
    erased = ground (
      arith,
      pending-end (send_begin aborted s) s s c,
      pending-begin aborted s s,
      lookup-delete s s m.pending_sends,
      str_eq_self s,
    )

    other : c ≢ m.next_send_cancel + 1
    other same = absurd (omega (arith, v.issued s c (omega arith)))

    in_flight : count (m.next_send_cancel + 1) (cancels last s) ≡ 1
    in_flight =
        let fresh = v.issued s (m.next_send_cancel + 1) (omega arith) in
        rw
          (
            cancels-end (send_begin aborted s) s s c,
            str_eq_self s,
            cancels-begin aborted s s,
            str_eq_self s,
          )
          (ground (
            arith,
            count-without_ne c (m.next_send_cancel + 1)
                (cancels m s ++ (m.next_send_cancel + 1) ∷ []) other,
            count-append (m.next_send_cancel + 1) (cancels m s) ((m.next_send_cancel + 1) ∷ []),
          ))
