-- ===== src/SessionCreate/Once.antt =====
-- Idempotency of hosted session creation (internal/sessioncreate/store.go) over any history of
-- statements: one owner for a key, and one dispatch of its prompt.
use pican.Base.{
  ℕ, ◌+◌, ◌≤◌, ◌≡◌, refl, ap, ◌∙◌, sym, String, Bool, true, false, ◌&&◌, List, [], ◌∷◌, ◌++◌, map,
  arith, str_eq, str_eq_iff, eq_iff, if◌then◌else◌, Bool-cases, inl, inr,
}
use pican.SessionCreate.Table.{
  Record, Db, Statement, insert_claim, set_created, set_create_unknown, set_dispatching, matches,
  update_row, exec, affected, count_by, has_key, new_record, is_pending,
}

unfoldable pub run : Db → List Statement → Db
run db [] = db
run db (st ∷ sts) = run (exec db st) sts

-- The rows that a statement inserts for key `k`: the callers that `Claim` makes an owner.
unfoldable pub owner_of : String → Db → Statement → ℕ
owner_of k db (insert_claim now j fp rt has_prompt) =
    if str_eq j k then affected db (insert_claim now j fp rt has_prompt) else 0
owner_of k db _ = 0

unfoldable pub owners : String → Db → List Statement → ℕ
owners k db [] = 0
owners k db (st ∷ sts) = owner_of k db st + owners k (exec db st) sts

-- The rows of key `k` that a statement takes from pending to dispatching: the callers that
-- `BeginPromptDispatch` lets send the prompt.
unfoldable pub dispatch_of : String → Db → Statement → ℕ
dispatch_of k db (set_dispatching now j fp) =
    if str_eq j k then affected db (set_dispatching now j fp) else 0
dispatch_of k db _ = 0

unfoldable pub dispatches : String → Db → List Statement → ℕ
dispatches k db [] = 0
dispatches k db (st ∷ sts) = dispatch_of k db st + dispatches k (exec db st) sts

-- `idempotency_key TEXT PRIMARY KEY`
abbrev pub IsUnique : Db → Type 0
IsUnique db = (k : String) → count_by (λ r. str_eq r.key k) db ≤ 1

pub update_row-key : (st : Statement) (r : Record) → (update_row st r).key ≡ r.key
unfolding update_row
update_row-key (insert_claim _ _ _ _ _) r = refl
update_row-key (set_created _ _ _ _ _ _) r = ground arith
update_row-key _ r = ground arith

pub has_key-update :
    (k : String) (st : Statement) (db : Db) → has_key k (map (update_row st) db) ≡ has_key k db
has_key-update k st [] = refl
has_key-update k st (r ∷ db) = rw (update_row-key st r, has_key-update k st db) refl

has_key-append :
    (k : String) (db : Db) (r : Record)
    → has_key k (db ++ r ∷ []) ≡ (if has_key k db then true else str_eq r.key k)
has_key-append k [] r = ground arith
has_key-append k (x ∷ db) r = ground (arith, has_key-append k db r)

-- No statement removes a key, and only its own INSERT adds it.
pub has_key-exec :
    (k : String) (db : Db) (st : Statement) → has_key k db ≡ true → has_key k (exec db st) ≡ true
unfolding exec
has_key-exec k db (insert_claim now j fp rt p) h =
    ground (arith, has_key-append k db (new_record now j fp rt p))
has_key-exec k db st h = has_key-update k st db ∙ h

-- 1 while the key is free.
abbrev free : String → Db → ℕ
free k db = if has_key k db then 0 else 1

owner_of-free :
    (k : String) (db : Db) (st : Statement) → owner_of k db st + free k (exec db st) ≤ free k db
unfolding owner_of affected exec
owner_of-free k db (insert_claim now j fp rt p) = elim (Bool-cases (str_eq j k)) [
  | inl h ↦
      rw ((str_eq_iff j k).0 h)
        (ground (arith, has_key-append k db (new_record now k fp rt p), eq_iff k k))
  | inr h ↦ ground (arith, has_key-append k db (new_record now j fp rt p))
]
owner_of-free k db st = rw (has_key-update k st db) (omega arith)

owners-le-free : (k : String) (db : Db) (sts : List Statement) → owners k db sts ≤ free k db
unfolding owners
owners-le-free k db [] = omega arith
owners-le-free k db (st ∷ sts) =
    omega (arith, owner_of-free k db st, owners-le-free k (exec db st) sts)

-- In any history of statements, of any callers in any order, at most one `Claim` of a key makes its
-- caller the owner, and none does once the key has a record.
pub owners-le-one :
    (k : String) (db : Db) (sts : List Statement)
    → (owners k db sts ≤ 1) × (has_key k db ≡ true → owners k db sts ≡ 0)
owners-le-one k db sts =
    (ground (arith, owners-le-free k db sts), λ h. ground (arith, owners-le-free k db sts))

-- The rows of a key whose prompt still waits, and one more while the key is free.
pend : String → Db → ℕ
pend k = count_by (λ r. str_eq r.key k && is_pending r.prompt_state)

row_dispatch : String → Statement → Record → ℕ
row_dispatch k (set_dispatching now j fp) r =
    if str_eq j k && matches (set_dispatching now j fp) r then 1 else 0
row_dispatch k _ r = 0

abbrev one_if : Bool → ℕ
one_if b = if b then 1 else 0

row_pend :
    (k : String) (st : Statement) (r : Record)
    → row_dispatch k st r + one_if (str_eq r.key k && is_pending (update_row st r).prompt_state)
      ≤ one_if (str_eq r.key k && is_pending r.prompt_state)
unfolding row_dispatch update_row
row_pend k (insert_claim _ _ _ _ _) r = omega arith
row_pend k (set_dispatching now j fp) r = ground (arith, eq_iff j k, eq_iff r.key j, eq_iff r.key k)
row_pend k (set_created _ _ _ _ _ _) r = ground arith
row_pend k (set_create_unknown _ _ _) r = ground arith
row_pend k _ r = ground arith

-- The rows that a WHERE clause selects of key `k`, summed over the table.
selected : String → Statement → Db → ℕ
selected k st [] = 0
selected k st (r ∷ db) = row_dispatch k st r + selected k st db

pend-update :
    (k : String) (st : Statement) (db : Db)
    → selected k st db + pend k (map (update_row st) db) ≤ pend k db
unfolding selected pend
pend-update k st [] = omega arith
pend-update k st (r ∷ db) =
    ground (arith, pend-update k st db, row_pend k st r, update_row-key st r)

selected-zero :
    (k : String) (st : Statement)
    → ((r : Record) → row_dispatch k st r ≡ 0)
    → (db : Db) → selected k st db ≡ 0
unfolding selected
selected-zero k st h [] = refl
selected-zero k st h (r ∷ db) = omega (arith, h r, selected-zero k st h db)

selected-dispatch_of :
    (k : String) (db : Db) (st : Statement) → dispatch_of k db st ≡ selected k st db
unfolding dispatch_of affected selected row_dispatch
selected-dispatch_of k db (set_dispatching now j fp) = chosen db
  where
    chosen :
        (db : Db)
        → (if str_eq j k then count_by (matches (set_dispatching now j fp)) db else 0)
          ≡ selected k (set_dispatching now j fp) db
    chosen [] = ground arith
    chosen (r ∷ rs) = ground (arith, chosen rs)
selected-dispatch_of k db st = sym (selected-zero k st (λ r. refl) db)

pend-append :
    (k : String) (db : Db) (r : Record)
    → pend k (db ++ r ∷ []) ≡ pend k db + one_if (str_eq r.key k && is_pending r.prompt_state)
unfolding pend
pend-append k [] r = ground arith
pend-append k (x ∷ db) r = ground (arith, pend-append k db r)

-- A statement that dispatches uses up a row that waits; an INSERT that adds one uses up the key.
dispatch_of-pend :
    (k : String) (db : Db) (st : Statement)
    → dispatch_of k db st + (pend k (exec db st) + free k (exec db st)) ≤ pend k db + free k db
unfolding exec dispatch_of
dispatch_of-pend k db (insert_claim now j fp rt p) = ground (
  arith,
  pend-append k db (new_record now j fp rt p),
  has_key-append k db (new_record now j fp rt p),
  eq_iff j k,
  ap (λ x. has_key x db) {x = j} {y = k},
)
dispatch_of-pend k db st =
    rw (selected-dispatch_of k db st, has_key-update k st db) (omega (arith, pend-update k st db))

dispatches-le :
    (k : String) (db : Db) (sts : List Statement) → dispatches k db sts ≤ pend k db + free k db
unfolding dispatches
dispatches-le k db [] = omega arith
dispatches-le k db (st ∷ sts) =
    omega (arith, dispatch_of-pend k db st, dispatches-le k (exec db st) sts)

pend-le-count : (k : String) (db : Db) → pend k db ≤ count_by (λ r. str_eq r.key k) db
unfolding pend
pend-le-count k [] = omega arith
pend-le-count k (r ∷ db) = ground (arith, pend-le-count k db)

pub count-free :
    (k : String) (db : Db) → has_key k db ≡ false → count_by (λ r. str_eq r.key k) db ≡ 0
count-free k [] h = refl
count-free k (r ∷ db) h = ground (arith, count-free k db)

pend-le-one :
    (k : String) (db : Db) → count_by (λ r. str_eq r.key k) db ≤ 1 → pend k db + free k db ≤ 1
pend-le-one k db u = ground (arith, pend-le-count k db, count-free k db)

-- In any history of statements, of any callers in any order and with recoveries between them, the
-- prompt of a key is let go for dispatch at most once.
pub dispatches-le-one :
    (k : String) (db : Db) (sts : List Statement) → IsUnique db → dispatches k db sts ≤ 1
dispatches-le-one k db sts u = omega (arith, dispatches-le k db sts, pend-le-one k db (u k))

count-append :
    (k : String) (db : Db) (r : Record)
    → count_by (λ x. str_eq x.key k) (db ++ r ∷ [])
      ≡ count_by (λ x. str_eq x.key k) db + one_if (str_eq r.key k)
count-append k [] r = ground arith
count-append k (x ∷ db) r = ground (arith, count-append k db r)

count-update :
    (k : String) (st : Statement) (db : Db)
    → count_by (λ x. str_eq x.key k) (map (update_row st) db) ≡ count_by (λ x. str_eq x.key k) db
count-update k st [] = refl
count-update k st (r ∷ db) = rw (update_row-key st r, count-update k st db) refl

exec-IsUnique : (db : Db) (st : Statement) → IsUnique db → IsUnique (exec db st)
unfolding exec
exec-IsUnique db (insert_claim now j fp rt p) u k = elim (Bool-cases (has_key j db)) [
  | inl taken ↦ rw taken (u k)
  | inr vacant ↦ rw vacant (
      ground (
        arith,
        u k,
        count-append k db (new_record now j fp rt p),
        eq_iff j k,
        count-free j db,
        ap (λ x. count_by (λ r. str_eq r.key x) db) {x = j} {y = k},
      ))
]
exec-IsUnique db st u k = rw (count-update k st db) (u k)

-- The primary key holds after every history.
pub run-IsUnique : (db : Db) (sts : List Statement) → IsUnique db → IsUnique (run db sts)
unfolding run
run-IsUnique db [] u = u
run-IsUnique db (st ∷ sts) u = run-IsUnique (exec db st) sts (exec-IsUnique db st u)
