-- ===== src/Sessions/Cache/Retained.antt =====
-- internal/sessions/cache.go: which parsed sessions are kept.
use pican.Base.{
  subst, ℕ, zero, suc, ◌+◌, ◌<◌, ◌≤◌, ◌≡◌, refl, ◌∙◌, sym, ap, ◌⊎◌, inl, inr, true, false, List, [],
  ◌∷◌, ◌++◌, Option, none, some, if◌then◌else◌, arith, length, length-append, append-nil,
  append_assoc, String, str_eq, str_eq_self, Bool-cases, List-cases, eq_iff,
}
use pican.Base.Assoc.{
  lookup, insert, delete, IsMap, insert-IsMap, delete-IsMap, delete-absent, lookup-insert,
  lookup-delete,
}
use pican.Base.Recency.{
  without, occurs, occurs-append, is_some, InStep, last_cases, without-last, InStep-delete,
  InStep-insert, InStep-none,
}
use pican.Sessions.Cache.{
  Cache, SessionEntry, exceeds, remove_session_entry, remove_found, evict, evict_back, push_front,
  store_session_entry,
}

-- The sizes of the sessions that the map holds.
abbrev pub total_bytes : {Session F : Type 0} → List (String × SessionEntry Session F) → ℕ
total_bytes [] = 0
total_bytes ((k, e) ∷ m) = e.bytes + total_bytes m

within :
    (k : String) (o gone front : List String)
    → front ≡ o ++ gone
    → 0 < occurs k o
    → 0 < occurs k front
within k o gone front e h = rw e (omega (arith, h, occurs-append k o gone))

module _ {Session F : Type 0} where
  total-delete :
      (k : String) (e : SessionEntry Session F) (m : List (String × SessionEntry Session F))
      → IsMap m
      → lookup k m ≡ some e
      → total_bytes m ≡ e.bytes + total_bytes (delete k m)
  total-delete k e [] h at = cc
  total-delete k e ((j, w) ∷ m) (a, h) at = elim (Bool-cases (str_eq j k)) [
    | inl same ↦
        let own : w ≡ e = ground arith in
        let gone : delete k m ≡ m = delete-absent k m (rw (← (eq_iff j k).0 same) a) in
        rw (same, gone, own) refl
    | inr other ↦
        let below : lookup k m ≡ some e = ground arith in
        rw other (omega (arith, total-delete k e m h below))
  ]

  total-insert :
      (k : String) (e : SessionEntry Session F) (m : List (String × SessionEntry Session F))
      → lookup k m ≡ none
      → total_bytes (insert k e m) ≡ e.bytes + total_bytes m
  total-insert k e [] h = refl
  total-insert k e ((j, w) ∷ m) h = ground (arith, total-insert k e m)

  no_keys : (m : List (String × SessionEntry Session F)) → InStep m [] → m ≡ []
  no_keys [] h = refl
  no_keys ((k, e) ∷ m) h =
      let one : ◌≡◌ {A = ℕ} 0 1 = h k ∙ rw (str_eq_self k) refl in absurd (omega arith)

  only_one :
      (k : String) (e : SessionEntry Session F) (m : List (String × SessionEntry Session F))
      → IsMap m
      → InStep m (k ∷ [])
      → lookup k m ≡ some e
      → total_bytes m ≡ e.bytes
  only_one k e m h s at =
      let alone : without k (k ∷ []) ≡ [] = rw (str_eq_self k) refl in
      let below : InStep (delete k m) (without k (k ∷ [])) = InStep-delete k m (k ∷ []) s in
      let nothing : delete k m ≡ [] = no_keys (delete k m) (rw alone at below) in
      total-delete k e m h at ∙ rw nothing (omega arith)

  once_each :
      (m : List (String × SessionEntry Session F)) (o : List String) (k : String)
      → InStep m o
      → occurs k o ≤ 1
  once_each m o k h = elim (Bool-cases (is_some (lookup k m))) [
    | inl e ↦ let one : occurs k o ≡ 1 = h k ∙ rw e refl in omega arith
    | inr e ↦ let none_of : occurs k o ≡ 0 = h k ∙ rw e refl in omega arith
  ]

  passed :
      (k j : String) (e : SessionEntry Session F) (m n : List (String × SessionEntry Session F))
      → n ≡ delete k m
      → (if str_eq k j then some e else lookup j n) ≡ (if str_eq k j then some e else lookup j m)
  passed k j e m n h = elim (Bool-cases (str_eq k j)) [
    | inl own ↦ rw own refl
    | inr other ↦ rw (h, lookup-delete k j m, other) refl
  ]

module _ {Summary S Session F : Type 0} where
  -- The map and the list are in step, the bytes are counted, and each session is kept under its
  -- path.
  pub record IsCounted (c : Cache Summary S Session F) : Type 0 where
    pub keys : IsMap c.session_cache
    pub in_step : InStep c.session_cache c.session_lru
    pub counted : c.session_bytes ≡ total_bytes c.session_cache
    pub named :
        (k : String) (e : SessionEntry Session F) → lookup k c.session_cache ≡ some e → e.path ≡ k

  pub listed :
      (c : Cache Summary S Session F) (k : String) (e : SessionEntry Session F)
      → IsCounted c
      → lookup k c.session_cache ≡ some e
      → 0 < occurs k c.session_lru
  listed c k e w at =
      let one : ◌≡◌ {A = ℕ} (if is_some (lookup k c.session_cache) then 1 else 0) 1 = rw at refl in
      let count : occurs k c.session_lru ≡ 1 = w.in_step k ∙ one in omega (arith, count)

  -- What a removal leaves.
  abbrev Removed : Cache Summary S Session F → String → Cache Summary S Session F → Type 0
  Removed c path d =
      IsCounted d
      × (d.session_cache ≡ delete path c.session_cache)
      × (d.session_lru ≡ without path c.session_lru)
      × (d.session_budget ≡ c.session_budget)

  removed :
      (c : Cache Summary S Session F) (path : String) (found : Option (SessionEntry Session F))
      → IsCounted c
      → lookup path c.session_cache ≡ found
      → Removed c path (remove_found c path found)
  removed c path none w at = (
    w,
    sym (delete-absent path c.session_cache at),
    sym (InStep-none path c.session_cache c.session_lru w.in_step at),
    refl,
  )
  removed c path (some e) w at = (
    record {
      keys = delete-IsMap path c.session_cache w.keys;
      in_step = InStep-delete path c.session_cache c.session_lru w.in_step;
      counted = omega (arith, w.counted, total-delete path e c.session_cache w.keys at);
      named = λ k x h. w.named k x (still k x h);
    },
    refl,
    refl,
    refl,
  )
    where
      still :
          (k : String) (x : SessionEntry Session F)
          → lookup k (delete path c.session_cache) ≡ some x
          → lookup k c.session_cache ≡ some x
      still k x h = ground (arith, lookup-delete path k c.session_cache)

  pub remove-Removed :
      (c : Cache Summary S Session F) (path : String)
      → IsCounted c
      → Removed c path (remove_session_entry c path)
  unfolding remove_session_entry
  remove-Removed c path w = removed c path (lookup path c.session_cache) w refl

  push-IsCounted :
      (c : Cache Summary S Session F) (e : SessionEntry Session F)
      → IsCounted c
      → lookup e.path c.session_cache ≡ none
      → IsCounted (push_front c e)
  push-IsCounted c e w absent =
      let front : InStep (insert e.path e c.session_cache) (e.path ∷ without e.path c.session_lru) =
        InStep-insert e.path e c.session_cache c.session_lru w.in_step in
      record {
        keys = insert-IsMap e.path e c.session_cache w.keys;
        in_step = rw (InStep-none e.path c.session_cache c.session_lru w.in_step absent) at front;
        counted = omega (arith, w.counted, total-insert e.path e c.session_cache absent);
        named = λ k x h. named' k x h;
      }
    where
      named' :
          (k : String) (x : SessionEntry Session F)
          → lookup k (insert e.path e c.session_cache) ≡ some x
          → x.path ≡ k
      named' k x h = elim (Bool-cases (str_eq e.path k)) [
        | inl same ↦
            let this : e ≡ x = ground (arith, lookup-insert e.path k e c.session_cache) in
            rw (← this) ((eq_iff e.path k).0 same)
        | inr other ↦ w.named k x (ground (arith, lookup-insert e.path k e c.session_cache))
      ]

  back_once :
      (c : Cache Summary S Session F) (front : List String) (p : String)
      → IsCounted c
      → c.session_lru ≡ front ++ p ∷ []
      → (occurs p c.session_lru ≡ 1) × (occurs p front ≡ 0)
  back_once c front p w at =
      let split : occurs p c.session_lru ≡ occurs p front + 1 =
        ap (occurs p) at ∙ occurs-append p front (p ∷ []) ∙ rw (str_eq_self p) refl in
      let most = once_each c.session_cache c.session_lru p w.in_step in (omega arith, omega arith)

  -- One round of the eviction.
  round-IsCounted :
      (c : Cache Summary S Session F) (front : List String) (p : String)
      → IsCounted c
      → c.session_lru ≡ front ++ p ∷ []
      → let d = evict_back c (some p) in
        IsCounted d
        × (d.session_lru ≡ front)
        × (d.session_cache ≡ delete p c.session_cache)
        × (d.session_budget ≡ c.session_budget)
  unfolding evict_back
  round-IsCounted c front p w at =
      let (ok_d, cache, lru, budget) = remove-Removed c p w in
      let once : occurs p c.session_lru ≡ 1 = (back_once c front p w at).0 in
      (
        record {
          keys = ok_d.keys;
          in_step = ok_d.in_step;
          counted = ok_d.counted;
          named = ok_d.named;
        },
        lru ∙ without-last c.session_lru front p at once,
        cache,
        budget,
      )

  -- The stored session is kept, if it fits the budget alone.
  abbrev pub Keeps : Cache Summary S Session F → String → SessionEntry Session F → Type 0
  Keeps c k e =
      (rest : List String) × (c.session_lru ≡ k ∷ rest)
      × (lookup k c.session_cache ≡ some e)
      × (exceeds e.bytes c.session_budget ≡ false)

  -- What an eviction leaves: no more than the budget, and of the list the front.
  pub record IsEvicted (c d : Cache Summary S Session F) : Type 0 where
    pub consistent : IsCounted d
    pub bounded : (exceeds d.session_bytes d.session_budget ≡ false) ⊎ (d.session_lru ≡ [])
    pub same_budget : d.session_budget ≡ c.session_budget
    pub oldest_go : (gone : List String) × (c.session_lru ≡ d.session_lru ++ gone)
    pub values :
        (k : String)
        → 0 < occurs k d.session_lru
        → lookup k d.session_cache ≡ lookup k c.session_cache
    pub newest_stays :
        (k : String) (e : SessionEntry Session F) → Keeps c k e → lookup k d.session_cache ≡ some e

  stopped :
      (c : Cache Summary S Session F)
      → IsCounted c
      → (exceeds c.session_bytes c.session_budget ≡ false) ⊎ (c.session_lru ≡ [])
      → IsEvicted c c
  stopped c w b = record {
    consistent = w;
    bounded = b;
    same_budget = refl;
    oldest_go = ([], sym (append-nil c.session_lru));
    values = λ k h. refl;
    newest_stays = λ k e h. h.2;
  }

  stays :
      (c : Cache Summary S Session F) (front : List String) (p k : String)
      → IsCounted c
      → c.session_lru ≡ front ++ p ∷ []
      → 0 < occurs k front
      → str_eq p k ≡ false
  stays c front p k w at h = elim (Bool-cases (str_eq p k)) [
    | inr e ↦ e
    | inl e ↦
        let never : occurs k front ≡ 0 = rw (← (eq_iff p k).0 e) (back_once c front p w at).1 in
        absurd (omega (arith, h, never))
  ]

  newest_after :
      (c : Cache Summary S Session F) (front : List String) (p k : String)
      (e : SessionEntry Session F)
      → IsCounted c
      → c.session_lru ≡ front ++ p ∷ []
      → exceeds c.session_bytes c.session_budget ≡ true
      → Keeps c k e
      → Keeps (evict_back c (some p)) k e
  unfolding evict_back
  newest_after c [] p k e w at over (rest, lru, here, fits) =
      let own : k ∷ rest ≡ p ∷ [] = sym lru ∙ at in
      let key : k ≡ p = cc in
      let listed : c.session_lru ≡ k ∷ [] = at ∙ ap (λ r. r ∷ []) (sym key) in
      let alone : InStep c.session_cache (k ∷ []) =
        subst (λ o. InStep c.session_cache o) listed w.in_step in
      let size : c.session_bytes ≡ e.bytes =
        w.counted ∙ only_one k e c.session_cache w.keys alone here in
      absurd (cc (over, fits, size))
  newest_after c (f ∷ front) p k e w at over (rest, lru, here, fits) =
      let own : k ∷ rest ≡ f ∷ (front ++ p ∷ []) = sym lru ∙ at in
      let key : k ≡ f = cc in
      let (ok_d, left, cache, budget) = round-IsCounted c (f ∷ front) p w at in
      let first : 0 < occurs k (f ∷ front) = rw (key, str_eq_self f) (omega arith) in
      let other = stays c (f ∷ front) p k w at first in
      (
        front,
        left ∙ ap (λ r. r ∷ front) (sym key),
        rw (cache, lookup-delete p k c.session_cache, other) here,
        rw budget fits,
      )

  evict-IsEvicted :
      (fuel : ℕ) (c : Cache Summary S Session F)
      → IsCounted c
      → length c.session_lru ≤ fuel
      → IsEvicted c (evict fuel c)
  unfolding evict
  evict-IsEvicted zero c w h = stopped c w (
      inr (elim (List-cases c.session_lru) [
        | inl e ↦ e
        | inr (x, xs, e) ↦ absurd (omega (arith, h, ap length e))
      ]))
  evict-IsEvicted (suc fuel) c w h = elim (Bool-cases (exceeds c.session_bytes c.session_budget)) [
    | inr fits ↦ rw fits (stopped c w (inl fits))
    | inl over ↦ elim (last_cases c.session_lru) [
      | inl (e, none_last) ↦ rw (over, none_last) (stopped c w (inr e))
      | inr (front, p, e, back) ↦
          rw (over, back)
            (let (ok_d, left, cache, budget) = round-IsCounted c front p w e in
              let rest =
                evict-IsEvicted fuel (evict_back c (some p)) ok_d
                  (rw left (omega (arith, h, ap length e, length-append front (p ∷ [])))) in
              let (gone, cut) = rest.oldest_go in
              record {
                consistent = rest.consistent;
                bounded = rest.bounded;
                same_budget = rest.same_budget ∙ budget;
                oldest_go = (
                  gone ++ p ∷ [],
                  e ∙ ap (λ r. r ++ p ∷ []) (sym left ∙ cut) ∙ append_assoc _ gone (p ∷ []),
                );
                values = λ k inside.
                    let in_front = within k _ gone front (sym left ∙ cut) inside in
                    let other = stays c front p k w e in_front in
                    let miss : (if str_eq p k then none else lookup k c.session_cache)
                        ≡ lookup k c.session_cache =
                      rw other refl in
                    rest.values k inside
                    ∙ ap (lookup k) cache
                    ∙ lookup-delete p k c.session_cache
                    ∙ miss;
                newest_stays =
                    λ k x keeps. rest.newest_stays k x (newest_after c front p k x w e over keeps);
              })
    ]
  ]

  -- Storing a parsed session keeps the map, the list and the count of bytes consistent. Then the
  -- sessions kept take no more than the budget, or none is kept; they are the ones used last, the
  -- stored one first, with their values as they were; and the stored one is among them if it fits
  -- the budget alone.
  pub store-IsEvicted :
      (c : Cache Summary S Session F) (e : SessionEntry Session F)
      → IsCounted c
      → let d = store_session_entry c e in
        IsCounted d
        × (((exceeds d.session_bytes d.session_budget ≡ false) ⊎ (d.session_lru ≡ [])))
        × (d.session_budget ≡ c.session_budget)
        × ((gone : List String) × (e.path ∷ without e.path c.session_lru ≡ d.session_lru ++ gone))
        × ((k : String)
            → 0 < occurs k d.session_lru
            → lookup k d.session_cache
              ≡ (if str_eq e.path k then some e else lookup k c.session_cache))
        × (exceeds e.bytes c.session_budget ≡ false → lookup e.path d.session_cache ≡ some e)
  unfolding store_session_entry
  store-IsEvicted c e w =
      let base = remove_session_entry c e.path in
      let (ok_r, cache, lru, budget) = remove-Removed c e.path w in
      let self : (if str_eq e.path e.path then none else lookup e.path c.session_cache) ≡ none =
        rw (str_eq_self e.path) refl in
      let absent : lookup e.path base.session_cache ≡ none =
        ap (lookup e.path) cache ∙ lookup-delete e.path e.path c.session_cache ∙ self in
      let pushed = push-IsCounted base e ok_r absent in
      let r =
        evict-IsEvicted (length (push_front base e).session_lru) (push_front base e) pushed
          (omega arith) in
      let (gone, cut) = r.oldest_go in
      let front : (if str_eq e.path e.path then some e else lookup e.path base.session_cache)
          ≡ some e =
        rw (str_eq_self e.path) refl in
      (
        r.consistent,
        r.bounded,
        r.same_budget ∙ budget,
        (gone, ap (λ o. e.path ∷ o) (sym lru) ∙ cut),
        λ k inside.
            r.values k inside
            ∙ lookup-insert e.path k e base.session_cache
            ∙ passed e.path k e c.session_cache base.session_cache cache,
        λ fits. r.newest_stays e.path e (
          base.session_lru,
          refl,
          lookup-insert e.path e.path e base.session_cache ∙ front,
          rw budget fits,
        ),
      )
