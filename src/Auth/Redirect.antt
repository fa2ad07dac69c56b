-- ===== src/Auth/Redirect.antt =====
-- The redirects of internal/auth/auth.go, and its configurations.
use pican.Base.{
  ◌≡◌, refl, ◌⊎◌, inl, inr, Bool, true, false, not, ◌||◌, List, Option, none, some, arith,
  Bool-cases, All, ok,
}
use pican.Base.Text.{codes, same, trim_space}
use pican.Auth.{
  Text, proxy_only, Middleware, Config, Request, is_empty, enabled, new_configured,
  valid_header_name, clean_url, clean_query, with_error, proxy_middleware,
}

-- No entry of the query has the key.
abbrev pub Absent : Text → List (Text × Text) → Type 0
Absent k = All (λ b. same b.0 k ≡ false)

module _ (encode : List (Text × Text) → Text) where
  -- What a redirect may carry.
  abbrev pub IsClean : Middleware → Request → Option Text → Text → Type 0
  IsClean a r cookie target =
      (((cookie ≡ some a.token) × (target ≡ clean_url encode r))
        ⊎ ((cookie ≡ none) × (target ≡ with_error encode (clean_url encode r))))
      × Absent (codes "token") (clean_query r)
      × Absent (codes "error") (clean_query r)

or-false : (a b : Bool) → not (a || b) ≡ true → b ≡ false
or-false true b h = cc
or-false false b h = ground arith

proxy_middleware_ok :
    (header token : Text) (a : Middleware)
    → proxy_middleware header token ≡ ok a
    → (a.mode ≡ proxy_only)
      × (enabled a ≡ true)
      × (a.token ≡ token)
      × (valid_header_name a.proxy_header ≡ true)
proxy_middleware_ok header token a h = elim (Bool-cases (not (is_empty header || is_empty token))) [
  | inr e ↦ absurd (ground arith)
  | inl e ↦ elim (Bool-cases (valid_header_name header)) [
    | inr k ↦ absurd (ground arith)
    | inl k ↦
        let made : record { mode = proxy_only; token = token; proxy_header = header } ≡ a =
          ground arith in
        rw (← made) (refl, rw (or-false (is_empty header) (is_empty token) e) refl, refl, k)
  ]
]

-- A proxy-only policy that is accepted has a token, which is the configured one, and a valid name
-- of the private header: it is never open.
pub proxy_only-closed :
    (config : Config) (a : Middleware)
    → config.mode ≡ proxy_only
    → new_configured config ≡ ok a
    → (a.mode ≡ proxy_only)
      × (enabled a ≡ true)
      × (a.token ≡ config.token)
      × (valid_header_name a.proxy_header ≡ true)
unfolding new_configured
proxy_only-closed config a m h =
    proxy_middleware_ok (trim_space config.header) config.token a (rw m at h)
