-- ===== src/SessionCreate/Selection.antt =====
-- How many rows an UPDATE of internal/sessioncreate/store.go affects, by the primary key.
use pican.Base.{
  ℕ, ◌≤◌, ◌≡◌, refl, String, true, false, ◌&&◌, [], ◌∷◌, map, some, arith, str_eq, if◌then◌else◌,
  Bool-cases, inl, inr,
}
use pican.SessionCreate.Table.{
  Record, Db, Statement, set_created, set_create_unknown, set_dispatching, set_accepted,
  set_prompt_unknown, matches, update_row, exec, affected, find_key, has_key, count_by, addressed,
}

-- The UPDATEs of one record, by its key and fingerprint.
abbrev pub Addresses : String → String → Statement → Type 0
Addresses k fp st =
    ((r : Record) → matches st r ≡ (addressed k fp r && matches st r))
    × ((db : Db) → affected db st ≡ count_by (matches st) db)
    × ((db : Db) → exec db st ≡ map (update_row st) db)

module _ (k fp : String) where
  pub set_created-Addresses :
      (now : ℕ) (sid rt nid : String) → Addresses k fp (set_created now k fp sid rt nid)
  unfolding matches affected exec
  set_created-Addresses now sid rt nid = (λ r. ground arith, λ db. refl, λ db. refl)

  pub set_create_unknown-Addresses : (now : ℕ) → Addresses k fp (set_create_unknown now k fp)
  unfolding matches affected exec
  set_create_unknown-Addresses now = (λ r. ground arith, λ db. refl, λ db. refl)

  pub set_dispatching-Addresses : (now : ℕ) → Addresses k fp (set_dispatching now k fp)
  unfolding matches affected exec
  set_dispatching-Addresses now = (λ r. ground arith, λ db. refl, λ db. refl)

  pub set_accepted-Addresses : (now : ℕ) → Addresses k fp (set_accepted now k fp)
  unfolding matches affected exec
  set_accepted-Addresses now = (λ r. ground arith, λ db. refl, λ db. refl)

  pub set_prompt_unknown-Addresses : (now : ℕ) → Addresses k fp (set_prompt_unknown now k fp)
  unfolding matches affected exec
  set_prompt_unknown-Addresses now = (λ r. ground arith, λ db. refl, λ db. refl)

module _ (k fp : String) (st : Statement)
    (a : (r : Record) → matches st r ≡ (addressed k fp r && matches st r)) where
  matches-other : (r : Record) → str_eq r.key k ≡ false → matches st r ≡ false
  matches-other r h = ground (arith, a r)

  count-other : (db : Db) → has_key k db ≡ false → count_by (matches st) db ≡ 0
  count-other [] h = refl
  count-other (r ∷ db) h = ground (arith, matches-other r, count-other db)

  one-key-left :
      (r : Record) (db : Db)
      → str_eq r.key k ≡ true
      → count_by (λ x. str_eq x.key k) (r ∷ db) ≤ 1
      → has_key k db ≡ false
  one-key-left r [] h u = refl
  one-key-left r (x ∷ db) h u = ground (arith, one-key-left r db h)

  -- An UPDATE affects the one record of its key, or none.
  pub count-found :
      (db : Db) (r : Record)
      → count_by (λ x. str_eq x.key k) db ≤ 1
      → find_key k db ≡ some r
      → count_by (matches st) db ≡ (if matches st r then 1 else 0)
  count-found [] r u e = cc
  count-found (x ∷ db) r u e = elim (Bool-cases (str_eq x.key k)) [
    | inl h ↦
        let first : x ≡ r = ground arith in
        let rest = count-other db (one-key-left x db h u) in rw (← first) (ground arith)
    | inr h ↦ ground (arith, matches-other x h, count-found db r)
  ]
