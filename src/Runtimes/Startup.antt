-- ===== src/Runtimes/Startup.antt =====
-- What the registry of internal/runtimes/registry.go holds after startup, and what its look-ups
-- find.
use pican.Base.{
  ℕ, ◌≡◌, ◌≢◌, refl, sym, subst, ap, ◌∙◌, ◌⊎◌, inl, inr, String, true, List, [], ◌∷◌, ◌++◌, Option,
  none, some, arith, str_eq, str_eq_iff, str_eq_self, ◌==◌, Bool-cases, Option-cases, ok, err,
  Result-cases, length, get_elem?, All, get-extended, get-lt, append-nil, append_assoc, All-append,
}
use pican.Base.Text.{codes}
use pican.Base.Assoc.{lookup, insert, lookup-insert}
use pican.Runtimes.Id.{parse_id, parse_id_iff, IsId}
use pican.Runtimes.Registry.{
  Registration, Registry, Error, duplicate_id, invalid_id, not_registered, validate, register,
  register_all, new, empty_registry, lookup_id, open_runtime, new_worker,
}

-- The map and the list agree: the map sends the id of each registration to its index, and knows no
-- other id. Every registration is valid.
pub record IsWellFormed (g : Registry) : Type 0 where
  pub indexed :
      (id : String) (i : ℕ)
      → lookup id g.by_id ≡ some i
      → (r : Registration) × (get_elem? g.ordered i ≡ some r) × (r.descriptor.id ≡ id)
  pub known :
      (i : ℕ) (r : Registration)
      → get_elem? g.ordered i ≡ some r
      → lookup r.descriptor.id g.by_id ≡ some i
  pub valid : All (λ r. validate r ≡ ok tt) g.ordered

abbrev pub extended : Registry → Registration → Registry
extended g r = record {
  ordered = g.ordered ++ r ∷ [];
  by_id = insert r.descriptor.id (length g.ordered) g.by_id;
}

-- The outcomes of a registration.
register-cases :
    (g : Registry) (r : Registration)
    → ((e : Error) × (validate r ≡ err e) × (register g r ≡ err e))
      ⊎ (((i : ℕ) × (lookup r.descriptor.id g.by_id ≡ some i) × (register g r ≡ err duplicate_id))
          ⊎ ((validate r ≡ ok tt)
              × (lookup r.descriptor.id g.by_id ≡ none)
              × (register g r ≡ ok (extended g r))))
unfolding register
register-cases g r = elim (Result-cases (validate r)) [
  | inr (e, bad) ↦ inl (e, bad, rw bad refl)
  | inl (_, good) ↦ elim (Option-cases (lookup r.descriptor.id g.by_id)) [
    | inl e ↦ inr (inr (good, e, rw (good, e) refl))
    | inr (i, e) ↦ inr (inl (i, e, rw (good, e) refl))
  ]
]

extended-IsWellFormed :
    (g : Registry) (r : Registration)
    → validate r ≡ ok tt
    → lookup r.descriptor.id g.by_id ≡ none
    → IsWellFormed g
    → IsWellFormed (extended g r)
extended-IsWellFormed g r good free w = record {
  indexed = λ id i h. elim (Bool-cases (str_eq r.descriptor.id id)) [
    | inl same ↦ (
      r,
      ground (
        arith,
        lookup-insert r.descriptor.id id (length g.ordered) g.by_id,
        get-extended g.ordered r i,
      ),
      (str_eq_iff _ _).0 same,
    )
    | inr other ↦
        let (r', at, e) =
          w.indexed id i
            (ground (arith, lookup-insert r.descriptor.id id (length g.ordered) g.by_id)) in
        (r', ground (arith, get-extended g.ordered r i, get-lt g.ordered i r' at), e)
  ];
  known = λ i r' h. elim (Bool-cases (i == length g.ordered)) [
    | inl last ↦
        let e : r ≡ r' = ground (arith, get-extended g.ordered r i) in
        rw (← e) (
          ground (
            arith,
            lookup-insert r.descriptor.id r.descriptor.id (length g.ordered) g.by_id,
            str_eq_self r.descriptor.id,
          ))
    | inr early ↦
        let old = w.known i r' (ground (arith, get-extended g.ordered r i)) in
        ground (
          arith,
          lookup-insert r.descriptor.id r'.descriptor.id (length g.ordered) g.by_id,
          str_eq_iff r.descriptor.id r'.descriptor.id,
        )
  ];
  valid = All-append _ g.ordered (r ∷ []) w.valid (good, tt);
}

empty-IsWellFormed : IsWellFormed empty_registry
empty-IsWellFormed = record { indexed = λ id i h. cc; known = λ i r h. cc; valid = tt }

register_all-IsWellFormed :
    (g g' : Registry) (rs : List Registration)
    → IsWellFormed g
    → register_all g rs ≡ ok g'
    → IsWellFormed g' × (g'.ordered ≡ g.ordered ++ rs)
register_all-IsWellFormed g g' [] w h =
    let e : g ≡ g' = cc in
    (subst IsWellFormed e w, rw (append-nil g.ordered) (ap (λ x. x.ordered) (sym e)))
register_all-IsWellFormed g g' (r ∷ rs) w h = elim (register-cases g r) [
  | inl (e, _, bad) ↦ absurd (ground arith)
  | inr (inl (i, _, bad)) ↦ absurd (ground arith)
  | inr (inr (good, free, e)) ↦
      let (w', o) =
        register_all-IsWellFormed (extended g r) g' rs (extended-IsWellFormed g r good free w)
          (ground arith) in
      (w', o ∙ append_assoc g.ordered (r ∷ []) rs)
]

-- A registry that startup builds is well-formed, and lists the registrations in startup order.
pub new-IsWellFormed :
    (rs : List Registration) (g : Registry) → new rs ≡ ok g → IsWellFormed g × (g.ordered ≡ rs)
unfolding new
new-IsWellFormed rs g h = register_all-IsWellFormed empty_registry g rs empty-IsWellFormed h

-- `Lookup` in a well-formed registry does not panic.
lookup_id-cases :
    (g : Registry) (id : String)
    → IsWellFormed g
    → ((lookup_id g id ≡ ok none) × (lookup id g.by_id ≡ none))
      ⊎ ((i : ℕ) × (r : Registration) × (lookup_id g id ≡ ok (some r))
          × (get_elem? g.ordered i ≡ some r)
          × (r.descriptor.id ≡ id))
unfolding lookup_id
lookup_id-cases g id w = elim (Option-cases (lookup id g.by_id)) [
  | inl e ↦ inl (rw (e, lookup_id) refl, e)
  | inr (i, e) ↦
      let (r, at, same) = w.indexed id i e in inr (i, r, rw (e, lookup_id, at) refl, at, same)
]

-- `Open` on a well-formed registry never panics: it refuses a text that is no id, reports an id
-- that no registration has, and otherwise returns the registration with that id.
pub open_runtime_lem :
    (g : Registry) (value : String)
    → IsWellFormed g
    → ((open_runtime g value ≡ err invalid_id) × ¬ IsId (codes value))
      ⊎ (((open_runtime g value ≡ err not_registered)
            × ((i : ℕ) (r : Registration)
                → get_elem? g.ordered i ≡ some r
                → r.descriptor.id ≢ value))
          ⊎ ((i : ℕ) × (r : Registration) × (open_runtime g value ≡ ok r)
              × (get_elem? g.ordered i ≡ some r)
              × (r.descriptor.id ≡ value)))
unfolding open_runtime
open_runtime_lem g value w = elim (Option-cases (parse_id value)) [
  | inl e ↦
      inl (
        rw e refl,
        λ grammar. absurd (ground (arith, (parse_id_iff value value).1 (refl, grammar))),
      )
  | inr (id, e) ↦
      let same : value ≡ id = ((parse_id_iff value id).0 e).0 in
      elim (lookup_id-cases g id w) [
        | inl (missing, absent) ↦
            inr (inl (rw (e, missing) refl, λ i r at own. absurd (ground (arith, w.known i r at))))
        | inr (i, r, found, at, own) ↦ inr (inr (i, r, rw (e, found) refl, at, own ∙ sym same))
      ]
]

-- A worker comes from the factory of the registered runtime that was asked for, and only if that
-- runtime declares the chat capability.
pub new_worker_sound :
    (g : Registry) (make : ℕ → String → String → Option ℕ) (id session path : String) (w : ℕ)
    → IsWellFormed g
    → new_worker g make id session path ≡ ok w
    → (i : ℕ) × (r : Registration) × (f : ℕ) × (get_elem? g.ordered i ≡ some r)
      × (r.descriptor.id ≡ id)
      × (r.descriptor.capabilities.chat ≡ true)
      × (r.worker_factory ≡ some f)
      × (make f session path ≡ some w)
unfolding new_worker
new_worker_sound g make id session path w v h = elim (open_runtime_lem g id v) [
  | inl (e, _) ↦ absurd (ground arith)
  | inr (inl (e, _)) ↦ absurd (ground arith)
  | inr (inr (i, r, e, at, own)) ↦ elim (Bool-cases r.descriptor.capabilities.chat) [
    | inr off ↦ absurd (ground arith)
    | inl on ↦ elim (Option-cases r.worker_factory) [
      | inl off ↦ absurd (ground arith)
      | inr (f, has) ↦ (i, r, f, at, own, on, has, ground arith)
    ]
  ]
]
