-- ===== src/Auth/Tokens/Requests.antt =====
-- parseBearerToken, tokenAuth and wsTokenAuth of lib/auth.js. The parsed request is the argument:
-- the Accept and Authorization headers and the `token` of the query, which is a single text.
pub mod Guard
use tmux_web_panel.Base.{
  ℕ, ◌≡◌, refl, Bool, true, false, Option, none, some, List, [], ◌∷◌, arith, Text, text, text_eq,
  ◌==◌, if◌then◌else◌, ◌⊎◌, inl, inr, ◌≢◌, Option-cases, Bool-cases, any, length, ◌++◌, ◌<◌, suc,
  nat_beq,
}
use tmux_web_panel.Base.Texts.{split, includes, truthy, or_text, starts_with}
use tmux_web_panel.Auth.Tokens.{Store, is_valid_token}

pub record Request : Type 0 where
  pub accept : Option Text
  pub authorization : Option Text
  pub query_token : Option Text

pub data Outcome : Type 0 where
  next redirect unauthorized : Outcome

abbrev pub two_parts : List Text → Option Text
two_parts (scheme ∷ token ∷ []) = if scheme == text "Bearer" then some token else none
two_parts _ = none

unfoldable pub parse_bearer_token : Option Text → Option Text
unfolding split
parse_bearer_token none = none
parse_bearer_token (some []) = none
parse_bearer_token (some (c ∷ header)) = two_parts (split b' ' (c ∷ header))

unfoldable pub is_html : Option Text → Bool
unfolding includes
is_html none = false
is_html (some accept) = includes accept (text "text/html")

-- The token that tokenAuth looks at.
unfoldable pub presented : Request → Option Text
unfolding parse_bearer_token is_html
presented r = truthy (
    or_text (parse_bearer_token r.authorization) (if is_html r.accept then none else r.query_token))

-- `token && isServiceToken && isServiceToken(token)`.
abbrev pub is_service : Option (Text → Bool) → Option Text → Bool
is_service none token = false
is_service (some test) none = false
is_service (some test) (some token) = test token

unfoldable pub token_auth : Option (Text → Bool) → ℕ → Request → Store → Store × Outcome
unfolding presented is_valid_token
token_auth service now r s =
    let token = presented r in
    let (s', valid) = is_valid_token token now s in
    if valid
    then (s', next)
    else if is_service service token
    then (s', next)
    else if is_html r.accept
    then (s', redirect)
    else (s', unauthorized)

-- The URL is parsed by the platform: `query` is its `token` parameter.
unfoldable pub ws_token_auth :
    Option (Text → Bool) → ℕ → Option Text → Option Text → Store → Store × Bool
unfolding parse_bearer_token is_valid_token
ws_token_auth service now authorization query s =
    if is_service service (truthy (parse_bearer_token authorization))
    then (s, true)
    else is_valid_token query now s
