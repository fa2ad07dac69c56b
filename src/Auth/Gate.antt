-- ===== src/Auth/Gate.antt =====
-- What passes the middleware of internal/auth/auth.go.
use pican.Base.{◌≡◌, ◌≢◌, ◌⊎◌, false, [], ◌∷◌}
use pican.Auth.{Text, Mode, proxy_only, Middleware, Request, is_login, extract_token}

-- No login form, and the token in a header or the cookie but not in the query.
abbrev pub Carries : Middleware → Request → Type 0
Carries a r = (is_login r ≡ false) × ((extract_token r).0 ≡ a.token) × ((extract_token r).1 ≡ false)

-- The two ways past a token that is set.
abbrev pub Presented : Mode → Middleware → Request → Type 0
Presented m a r =
    ((m ≡ proxy_only) × (r.header_values a.proxy_header ≡ a.token ∷ []))
    ⊎ ((m ≢ proxy_only) × Carries a r)
