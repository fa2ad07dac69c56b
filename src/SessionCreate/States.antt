-- ===== src/SessionCreate/States.antt =====
-- The states of a record of internal/sessioncreate/store.go, as a transition relation.
use pican.Base.{
  ℕ, ◌≡◌, refl, ap, ◌∙◌, ◌≢◌, String, Bool, true, false, ◌&&◌, List, [], ◌∷◌, ◌++◌, map, some,
  arith, str_eq, Bool-cases, inl, inr,
}
use pican.SessionCreate.Table.{
  Record, Db, CreateState, creating, created, unknown, PromptState, pending, dispatching, accepted,
  prompt_unknown, Statement, insert_claim, set_created, set_create_unknown, set_dispatching,
  set_accepted, set_prompt_unknown, recover_creating, recover_dispatching, matches, assign,
  update_row, exec, find_key, has_key, is_creating, is_created, is_dispatching,
}
use pican.SessionCreate.Once.{run, update_row-key}

-- The moves of a record's two states.
pub data Move : CreateState → PromptState → CreateState → PromptState → Type 0 where
  stay : {c : CreateState} {p : PromptState} → Move c p c p
  map_native : {p : PromptState} → Move creating p created p
  lose_native : {p : PromptState} → Move creating p unknown p
  dispatch : Move created pending created dispatching
  accept : Move created dispatching created accepted
  give_up : Move created dispatching created prompt_unknown

pub data Moves : CreateState → PromptState → CreateState → PromptState → Type 0 where
  here : {c : CreateState} {p : PromptState} → Moves c p c p
  next :
      {c c' c'' : CreateState} {p p' p'' : PromptState}
      → Move c p c' p'
      → Moves c' p' c'' p''
      → Moves c p c'' p''

-- What one statement may do to a record.
pub record Stepped (r r' : Record) : Type 0 where
  pub move : Move r.create_state r.prompt_state r'.create_state r'.prompt_state
  pub same_key : r'.key ≡ r.key
  pub same_fingerprint : r'.fingerprint ≡ r.fingerprint
  pub same_creation : r'.created_at ≡ r.created_at
  pub settled :
      r.create_state ≢ creating
      → (r'.session_id ≡ r.session_id) × (r'.native_id ≡ r.native_id) × (r'.runtime ≡ r.runtime)

unchanged : (r : Record) → Stepped r r
unchanged r = record {
  move = stay;
  same_key = refl;
  same_fingerprint = refl;
  same_creation = refl;
  settled = λ _. (refl, refl, refl);
}

eq-creating : (b : Bool) (c : CreateState) → (b && is_creating c) ≡ true → c ≡ creating
eq-creating b c h = ground arith

-- The states of a row that the UPDATEs of `prompt_state` select.
eq-dispatching :
    (b : Bool) (c : CreateState) (p : PromptState)
    → (b && (is_created c && is_dispatching p)) ≡ true
    → (c ≡ created) × (p ≡ dispatching)
eq-dispatching b c p h = (ground arith, ground arith)

-- An UPDATE of `create_state` on a selected row.
assign-create :
    (r r' : Record)
    → r.create_state ≡ creating
    → Move creating r.prompt_state r'.create_state r'.prompt_state
    → r'.key ≡ r.key
    → r'.fingerprint ≡ r.fingerprint
    → r'.created_at ≡ r.created_at
    → Stepped r r'
assign-create r r' e m k f c = record {
  move = rw e m;
  same_key = k;
  same_fingerprint = f;
  same_creation = c;
  settled = λ n. absurd (n e);
}

-- An UPDATE of `prompt_state` on a selected row.
assign-prompt :
    (r : Record) (p : PromptState) (now : ℕ)
    → Move r.create_state r.prompt_state r.create_state p
    → Stepped r (record r { prompt_state = p; updated_at = now })
assign-prompt r p now m = record {
  move = m;
  same_key = refl;
  same_fingerprint = refl;
  same_creation = refl;
  settled = λ _. (refl, refl, refl);
}

assign-Stepped : (st : Statement) (r : Record) → matches st r ≡ true → Stepped r (assign st r)
unfolding matches assign
assign-Stepped (insert_claim _ _ _ _ _) r h = unchanged r
assign-Stepped (set_created _ k fp _ _ _) r h =
    assign-create r _ (eq-creating _ r.create_state h) map_native refl refl refl
assign-Stepped (set_create_unknown _ k fp) r h =
    assign-create r _ (eq-creating _ r.create_state h) lose_native refl refl refl
assign-Stepped (recover_creating _) r h =
    assign-create r _ (eq-creating true r.create_state h) lose_native refl refl refl
assign-Stepped (set_dispatching now k fp) r h =
    let c : r.create_state ≡ created = ground arith in
    let p : r.prompt_state ≡ pending = ground arith in
    assign-prompt r dispatching now (rw (c, p) dispatch)
assign-Stepped (set_accepted now k fp) r h =
    let (c, p) = eq-dispatching _ r.create_state r.prompt_state h in
    assign-prompt r accepted now (rw (c, p) accept)
assign-Stepped (set_prompt_unknown now k fp) r h =
    let (c, p) = eq-dispatching _ r.create_state r.prompt_state h in
    assign-prompt r prompt_unknown now (rw (c, p) give_up)
assign-Stepped (recover_dispatching now) r h =
    let (c, p) = eq-dispatching true r.create_state r.prompt_state h in
    assign-prompt r prompt_unknown now (rw (c, p) give_up)

update_row-Stepped : (st : Statement) (r : Record) → Stepped r (update_row st r)
unfolding update_row
update_row-Stepped st r = elim (Bool-cases (matches st r)) [
  | inr h ↦ rw (h, update_row) (unchanged r)
  | inl h ↦ rw (h, update_row) (assign-Stepped st r h)
]

pub find-update :
    (k : String) (st : Statement) (db : Db) (r : Record)
    → find_key k db ≡ some r
    → find_key k (map (update_row st) db) ≡ some (update_row st r)
find-update k st [] r e = cc
find-update k st (x ∷ db) r e =
    let same : str_eq (update_row st x).key k ≡ str_eq x.key k =
      ap (λ y. str_eq y k) (update_row-key st x) in
    elim (Bool-cases (str_eq x.key k)) [
      | inl h ↦
          let first : x ≡ r = ground arith in rw (same, h) (ap (λ y. some (update_row st y)) first)
      | inr h ↦ rw (same, h) (find-update k st db r (ground arith))
    ]

find-append :
    (k : String) (db rest : Db) (r : Record)
    → find_key k db ≡ some r
    → find_key k (db ++ rest) ≡ some r
find-append k [] rest r e = cc
find-append k (x ∷ db) rest r e = ground (arith, find-append k db rest r)

-- A statement keeps the record of a key, and moves it along the relation or not at all.
pub exec-Stepped :
    (k : String) (db : Db) (st : Statement) (r : Record)
    → find_key k db ≡ some r
    → (r' : Record) × (find_key k (exec db st) ≡ some r') × Stepped r r'
unfolding exec
exec-Stepped k db (insert_claim now j fp rt p) r e = elim (Bool-cases (has_key j db)) [
  | inl h ↦ (r, rw h e, unchanged r)
  | inr h ↦ (r, rw h (find-append k db _ r e), unchanged r)
]
exec-Stepped k db st r e = (update_row st r, find-update k st db r e, update_row-Stepped st r)

-- What a history may do to a record.
pub record Followed (r r' : Record) : Type 0 where
  pub moves : Moves r.create_state r.prompt_state r'.create_state r'.prompt_state
  pub same_key : r'.key ≡ r.key
  pub same_fingerprint : r'.fingerprint ≡ r.fingerprint
  pub settled :
      r.create_state ≢ creating
      → (r'.session_id ≡ r.session_id) × (r'.native_id ≡ r.native_id) × (r'.runtime ≡ r.runtime)

-- Native creation is not begun again.
Move-settled :
    {c c' : CreateState} {p p' : PromptState} → Move c p c' p' → c ≢ creating → c' ≢ creating
Move-settled stay n = n
Move-settled map_native n = absurd (n refl)
Move-settled lose_native n = absurd (n refl)
Move-settled dispatch n = n
Move-settled accept n = n
Move-settled give_up n = n

-- Through any history of statements the record of a key stays, its states move only along the
-- relation `Move`, and once its creation is over its identity (session, native id, runtime) never
-- changes.
pub run-Followed :
    (k : String) (db : Db) (sts : List Statement) (r : Record)
    → find_key k db ≡ some r
    → (r' : Record) × (find_key k (run db sts) ≡ some r') × Followed r r'
unfolding run
run-Followed k db [] r e = (
  r,
  e,
  record {
    moves = here;
    same_key = refl;
    same_fingerprint = refl;
    settled = λ _. (refl, refl, refl);
  },
)
run-Followed k db (st ∷ sts) r e =
    let (m, found, step) = exec-Stepped k db st r e in
    let (r', last, rest) = run-Followed k (exec db st) sts m found in
    (
      r',
      last,
      record {
        moves = next step.move rest.moves;
        same_key = rest.same_key ∙ step.same_key;
        same_fingerprint = rest.same_fingerprint ∙ step.same_fingerprint;
        settled = λ n.
            let (a, b, c) = rest.settled (Move-settled step.move n) in
            let (a', b', c') = step.settled n in (a ∙ a', b ∙ b', c ∙ c');
      },
    )

-- The states in which a record can still move.
abbrev pub is_open : CreateState → PromptState → Bool
is_open creating p = true
is_open created pending = true
is_open created dispatching = true
is_open _ _ = false

pub Moves-closed :
    {c c' : CreateState} {p p' : PromptState}
    → Moves c p c' p'
    → is_open c p ≡ false
    → (c' ≡ c) × (p' ≡ p)
Moves-closed here h = (refl, refl)
Moves-closed (next stay rest) h = Moves-closed rest h
Moves-closed (next map_native rest) h = cc
Moves-closed (next lose_native rest) h = cc
Moves-closed (next dispatch rest) h = cc
Moves-closed (next accept rest) h = cc
Moves-closed (next give_up rest) h = cc

-- A record whose creation is unknown, or whose created session's prompt was accepted, given up or
-- never asked for, keeps both states through every history: nothing is retried.
pub run-closed :
    (k : String) (db : Db) (sts : List Statement) (r : Record)
    → find_key k db ≡ some r
    → is_open r.create_state r.prompt_state ≡ false
    → (r' : Record) × (find_key k (run db sts) ≡ some r')
      × (r'.create_state ≡ r.create_state)
      × (r'.prompt_state ≡ r.prompt_state)
run-closed k db sts r e h =
    let (r', last, f) = run-Followed k db sts r e in
    let (c, p) = Moves-closed f.moves h in (r', last, c, p)
