-- ===== src/Auth/Tokens/Requests/Guard.antt =====
-- Whom tokenAuth and wsTokenAuth of lib/auth.js let in.
use tmux_web_panel.Base.{
  ℕ, ◌≡◌, refl, Bool, true, false, Option, none, some, List, [], ◌∷◌, ◌++◌, arith, Text, text,
  text_eq, if◌then◌else◌, ◌⊎◌, inl, inr, ◌≢◌, Bool-cases, any, nat_beq,
}
use tmux_web_panel.Base.Equality.{text_beq}
use tmux_web_panel.Base.Dict.{get}
use tmux_web_panel.Base.Texts.{split, truthy, or_text}
use tmux_web_panel.Auth.Tokens.{Store, is_valid_token}
use tmux_web_panel.Auth.Tokens.Validity.{live, is_valid_token-live}
use tmux_web_panel.Auth.Tokens.Requests.{
  Request, Outcome, next, redirect, unauthorized, parse_bearer_token, is_html, presented,
  is_service, token_auth,
}

abbrev pub has_space : Text → Bool
has_space t = any (λ c. nat_beq c b' ') t

abbrev TwoOrMore : List Text → Type 0
TwoOrMore parts = (a : Text) × (b : Text) × (rest : List Text) × (parts ≡ a ∷ b ∷ rest)

split-one : (t : Text) → has_space t ≡ false → split b' ' t ≡ t ∷ []
unfolding split
split-one [] h = refl
split-one (c ∷ t) h = ground (arith, split-one t)

split-some : (t : Text) → (a : Text) × (rest : List Text) × (split b' ' t ≡ a ∷ rest)
unfolding split
split-some [] = ([], [], refl)
split-some (c ∷ t) = elim (Bool-cases (nat_beq c b' ')) [
  | inl e ↦ ([], split b' ' t, ground arith)
  | inr e ↦ let (a, rest, q) = split-some t in (c ∷ a, rest, ground arith)
]

split-more : (t : Text) → has_space t ≡ true → TwoOrMore (split b' ' t)
unfolding split
split-more [] h = cc
split-more (c ∷ t) h = elim (Bool-cases (nat_beq c b' ')) [
  | inl e ↦ let (a, rest, q) = split-some t in ([], a, rest, ground arith)
  | inr e ↦ let (a, b, rest, q) = split-more t (ground arith) in (c ∷ a, b, rest, ground arith)
]

-- A bearer header carries its token exactly when the token holds no space; with a space in it the
-- header is refused as a whole.
pub parse_bearer_token-text :
    (t : Text)
    → parse_bearer_token (some (text "Bearer " ++ t)) ≡ (if has_space t then none else some t)
unfolding parse_bearer_token text_beq
parse_bearer_token-text t = elim (Bool-cases (has_space t)) [
  | inl e ↦ let (a, b, rest, q) = split-more t e in rw (e, q)
  | inr e ↦ rw (e, split-one t e)
]

-- Where a request can carry a token: in its bearer header, or, if it is no page navigation, in its
-- query.
abbrev pub Carries : Request → Text → Type 0
Carries r t =
    (parse_bearer_token r.authorization ≡ some t)
    ⊎ ((is_html r.accept ≡ false) × (r.query_token ≡ some t))

either-Carries :
    (a q : Option Text) (html : Bool) (t : Text)
    → truthy (or_text a (if html then none else q)) ≡ some t
    → ((a ≡ some t) ⊎ ((html ≡ false) × (q ≡ some t))) × (t ≢ [])
either-Carries none none html t h = ground arith
either-Carries none (some []) html t h = ground arith
either-Carries none (some (c ∷ u)) html t h = ground arith
either-Carries (some []) none html t h = ground arith
either-Carries (some []) (some []) html t h = ground arith
either-Carries (some []) (some (c ∷ u)) html t h = ground arith
either-Carries (some (c ∷ u)) q html t h = ground arith

presented-Carries : (r : Request) (t : Text) → presented r ≡ some t → Carries r t × (t ≢ [])
unfolding presented
presented-Carries r t h =
    either-Carries (parse_bearer_token r.authorization) r.query_token (is_html r.accept) t h

valid_or_service :
    (service : Option (Text → Bool)) (now : ℕ) (t : Text) (s : Store)
    → t ≢ []
    → ((is_valid_token (some t) now s).1 ≡ true) ⊎ (is_service service (some t) ≡ true)
    → (live now (get t s.tokens) ≡ true) ⊎ (is_service service (some t) ≡ true)
valid_or_service service now [] s h o = absurd (h refl)
valid_or_service service now (c ∷ t) s h o = ground (arith, is_valid_token-live c t now s)

is_service-none : (service : Option (Text → Bool)) → is_service service none ≡ false
is_service-none none = refl
is_service-none (some test) = refl

token_auth-next :
    (service : Option (Text → Bool)) (now : ℕ) (r : Request) (s : Store) (o : Option Text)
    → presented r ≡ o
    → (token_auth service now r s).1 ≡ next
    → (t : Text) × (presented r ≡ some t)
      × (((is_valid_token (some t) now s).1 ≡ true) ⊎ (is_service service (some t) ≡ true))
unfolding token_auth is_valid_token
token_auth-next service now r s none e h = ground (arith, is_service-none service)
token_auth-next service now r s (some t) e h = (t, e, ground arith)

-- What each answer to a request vouches for.
abbrev pub IsJustified : Option (Text → Bool) → ℕ → Request → Store → Outcome → Type 0
IsJustified service now r s next =
    (t : Text) × Carries r t
    × ((live now (get t s.tokens) ≡ true) ⊎ (is_service service (some t) ≡ true))
IsJustified service now r s redirect = is_html r.accept ≡ true
IsJustified service now r s unauthorized = is_html r.accept ≡ false

answer :
    (service : Option (Text → Bool)) (now : ℕ) (r : Request) (s : Store) (o : Outcome)
    → (token_auth service now r s).1 ≡ o
    → IsJustified service now r s o
unfolding token_auth
answer service now r s next h =
    let (t, p, o) = token_auth-next service now r s (presented r) refl h in
    let (carried, filled) = presented-Carries r t p in
    (t, carried, valid_or_service service now t s filled o)
answer service now r s redirect h = ground arith
answer service now r s unauthorized h = ground arith

-- A request is let in only with a token that it carries and that is live in the map or accepted as
-- a service token; of the requests refused, only page navigations are redirected, and only others
-- are answered with 401.
pub token_auth_cases :
    (service : Option (Text → Bool)) (now : ℕ) (r : Request) (s : Store)
    → IsJustified service now r s (token_auth service now r s).1
token_auth_cases service now r s = answer service now r s (token_auth service now r s).1 refl
