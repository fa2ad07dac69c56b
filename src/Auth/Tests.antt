-- ===== src/Auth/Tests.antt =====
-- Requests to the middleware on small inputs, and its theorems at them.
use pican.Base.{◌≡◌, refl, false, List, [], ◌∷◌, none, ok, ◌++◌}
use pican.Base.Text.{codes, trim_space, trim_left, is_space}
use pican.Auth.{
  Text, standalone, proxy_only, Middleware, Config, Request, serves, new_configured,
  valid_header_name, candidate, extract_token, wrap_standalone, wrap_handler,
}

abbrev encode : List (Text × Text) → Text
encode [] = []
encode ((k, v) ∷ q) = k ++ codes "=" ++ v ++ encode q

abbrev secret : Middleware
secret = record { mode = standalone; token = codes "t1"; proxy_header = [] }

abbrev with_bearer : Request
with_bearer = record {
  is_post = false;
  path = codes "/a";
  query = (codes "x", codes "1") ∷ [];
  form_token = [];
  accept = codes "text/html";
  authorization = codes "Bearer t1";
  pican_token = [];
  token_cookie = none;
  theme_cookie = none;
  header_values = λ k. [];
}

abbrev with_query : Request
with_query = record with_bearer {
  query = (codes "token", codes "t1") ∷ (codes "x", codes "1") ∷ [];
  authorization = [];
}

bearer_passes : wrap_handler encode secret with_bearer ≡ serves
unfolding wrap_handler wrap_standalone candidate extract_token
bearer_passes = refl

abbrev private_header : Config
private_header = record { mode = proxy_only; token = codes "t1"; header = codes " X-Auth " }

abbrev behind_proxy : Middleware
behind_proxy = record { mode = proxy_only; token = codes "t1"; proxy_header = codes "X-Auth" }

configured : new_configured private_header ≡ ok behind_proxy
unfolding new_configured valid_header_name trim_space trim_left is_space
configured = refl
