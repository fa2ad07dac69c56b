-- ===== src/Auth.antt =====
-- internal/auth/auth.go: the token check around the server's handlers. A text is its code points;
-- what the middleware reads of a request is a record, and its answer is a value.
pub mod Gate
pub mod Redirect
mod Tests
use pican.Base.{
  ℕ, Bool, true, false, not, ◌&&◌, ◌||◌, List, [], ◌∷◌, ◌++◌, Option, none, some, if◌then◌else◌,
  filter_by, drop, Result, ok, err, ◌==◌, ◌>>=◌, ◌>>◌, guard,
}
use pican.Base.Text.{codes, between, trim_space, same, contains, has_prefix}

abbrev pub Text : Type 0
Text = List ℕ

pub data Mode : Type 0 where
  standalone proxy_only unknown_mode : Mode

pub record Middleware : Type 0 where
  pub mode : Mode
  pub token : Text
  pub proxy_header : Text

pub record Config : Type 0 where
  pub mode : Mode
  pub token : Text
  pub header : Text

abbrev pub is_empty : Text → Bool
is_empty [] = true
is_empty (c ∷ cs) = false

-- `New`
abbrev pub new : Text → Middleware
new token = record { mode = standalone; token = trim_space token; proxy_header = [] }

abbrev is_letter_or_digit : ℕ → Bool
is_letter_or_digit c = between b'a' b'z' c || between b'A' b'Z' c || between b'0' b'9' c

abbrev is_name_char : ℕ → Bool
is_name_char c = is_letter_or_digit c || contains c (codes "!#$%&'*+-.^_`|~")

abbrev all_name_chars : Text → Bool
all_name_chars [] = true
all_name_chars (c ∷ cs) = is_name_char c && all_name_chars cs

unfoldable pub valid_header_name : Text → Bool
valid_header_name name = not (is_empty name) && all_name_chars name

pub data ConfigError : Type 0 where
  header_and_token_required invalid_header unknown_auth_mode : ConfigError

abbrev proxy_middleware : Text → Text → Result ConfigError Middleware
proxy_middleware header token = do
  guard (not (is_empty header || is_empty token)) header_and_token_required
  guard (valid_header_name header) invalid_header
  ok (record { mode = proxy_only; token = token; proxy_header = header })

abbrev by_mode : Mode → Config → Result ConfigError Middleware
by_mode standalone config = ok (new config.token)
by_mode proxy_only config = proxy_middleware (trim_space config.header) config.token
by_mode unknown_mode config = err unknown_auth_mode

unfoldable pub new_configured : Config → Result ConfigError Middleware
new_configured config = by_mode config.mode config

abbrev pub enabled : Middleware → Bool
enabled a = not (is_empty a.token)

-- What the middleware reads of a request; a missing header is empty. `header_values` are the values
-- of a header by its name, `form_token` is the token in the form of the body.
pub record Request : Type 0 where
  pub is_post : Bool
  pub path : Text
  pub query : List (Text × Text)
  pub form_token : Text
  pub accept : Text
  pub authorization : Text
  pub pican_token : Text
  pub token_cookie : Option Text
  pub theme_cookie : Option Text
  pub header_values : Text → List Text

-- The answer: the handler behind the middleware runs, or a redirect, perhaps with the token's
-- cookie, the page that asks for the token, or a plain 401.
pub data Response : Type 0 where
  serves : Response
  redirects : Option Text → Text → Response
  prompts : Text → Response
  unauthorized : Response

-- `strings.Contains`, the part first.
abbrev contains_text : Text → Text → Bool
contains_text part [] = is_empty part
contains_text part (c ∷ cs) = has_prefix part (c ∷ cs) || contains_text part cs

abbrev pub wants_html : Request → Bool
wants_html r = contains_text (codes "text/html") r.accept

-- `Query().Get`
abbrev pub query_get : Text → List (Text × Text) → Text
query_get k [] = []
query_get k ((j, v) ∷ q) = if same j k then v else query_get k q

-- `Query().Del`
abbrev pub query_del : Text → List (Text × Text) → List (Text × Text)
query_del k = filter_by (λ b. not (same b.0 k))

abbrev cookie_or_empty : Option Text → Text
cookie_or_empty none = []
cookie_or_empty (some c) = c

abbrev pub bearer : Text
bearer = codes "Bearer "

unfoldable pub extract_token : Request → Text × Bool
extract_token r =
    if not (is_empty (query_get (codes "token") r.query))
    then (query_get (codes "token") r.query, true)
    else if has_prefix bearer r.authorization
    then (drop 7 r.authorization, false)
    else if not (is_empty r.pican_token)
    then (r.pican_token, false)
    else (cookie_or_empty r.token_cookie, false)

-- Where the candidate token comes from.
pub data Source : Type 0 where
  posted queried carried : Source

abbrev is_login : Request → Bool
is_login r = (r.is_post && wants_html r) && not (is_empty r.form_token)

unfoldable pub candidate : Request → Text × Source
unfolding extract_token
candidate r =
    if is_login r
    then (r.form_token, posted)
    else ((extract_token r).0, if (extract_token r).1 then queried else carried)

abbrev pub clean_query : Request → List (Text × Text)
clean_query r = query_del (codes "error") (query_del (codes "token") r.query)

abbrev proxy_answer : Text → List Text → Response
proxy_answer token (v ∷ []) = if same v token then serves else unauthorized
proxy_answer token _ = unauthorized

unfoldable pub wrap_proxy_only : Middleware → Request → Response
wrap_proxy_only a r = proxy_answer a.token (r.header_values a.proxy_header)

-- `encode` is `Values.Encode`.
module _ (encode : List (Text × Text) → Text) where
  abbrev target_of : Text → List (Text × Text) → Text
  target_of path [] = path
  target_of path (b ∷ q) = path ++ codes "?" ++ encode (b ∷ q)

  unfoldable pub clean_url : Request → Text
  clean_url r = target_of r.path (clean_query r)

  abbrev pub with_error : Text → Text
  with_error target =
      if contains b'?' target then target ++ codes "&error=1" else target ++ codes "?error=1"

  -- The answer to a wrong token.
  abbrev refuse : Request → Source → Response
  refuse r posted = if wants_html r then redirects none (with_error (clean_url r)) else unauthorized
  refuse r _ = if wants_html r then prompts (cookie_or_empty r.theme_cookie) else unauthorized

  abbrev accept_from : Request → Text → Source → Response
  accept_from r got carried = serves
  accept_from r got _ = redirects (some got) (clean_url r)

  abbrev answer_to : Middleware → Request → Text × Source → Response
  answer_to a r (got, from) = if same got a.token then accept_from r got from else refuse r from

  unfoldable pub wrap_standalone : Middleware → Request → Response
  wrap_standalone a r = answer_to a r (candidate r)

  abbrev wrap_by : Mode → Middleware → Request → Response
  wrap_by proxy_only a r = wrap_proxy_only a r
  wrap_by _ a r = wrap_standalone a r

  -- `WrapHandler`
  unfoldable pub wrap_handler : Middleware → Request → Response
  wrap_handler a r = if not (enabled a) then serves else wrap_by a.mode a r
