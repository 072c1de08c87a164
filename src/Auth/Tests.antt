-- ===== src/Auth/Tests.antt =====
-- Runs of the limiter and of the tokens of lib/auth.js on concrete inputs.
use tmux_web_panel.Base.{
  ℕ, ◌≤◌, ◌≡◌, refl, arith, true, false, none, some, List, [], ◌∷◌, Text, text, text_eq, inl, inr,
}
use tmux_web_panel.Base.Dict.{get, set}
use tmux_web_panel.Base.Equality.{text_beq}
use tmux_web_panel.Auth.Limiter.{State, default_config, is_blocked}
use tmux_web_panel.Auth.Limiter.Invariant.{Call, asks, fails, succeeds, run}
use tmux_web_panel.Auth.Limiter.Locking.{fail_at, is_blocked-fail_at, is_blocked-run_locked}
use tmux_web_panel.Auth.Tokens.{
  Store, create_token, is_valid_token, is_expired, set_token, schedule_persist, flush, init,
}
use tmux_web_panel.Auth.Tokens.Validity.{is_valid_token-restart}
use tmux_web_panel.Auth.Tokens.Requests.{
  Request, parse_bearer_token, presented, is_html, token_auth, next, redirect,
}
use tmux_web_panel.Auth.Tokens.Requests.Guard.{IsJustified, token_auth_cases}

abbrev alice : Text
alice = text "10.0.0.1"

abbrev bob : Text
bob = text "10.0.0.2"

abbrev calls : List Call
calls = fails alice 0 ∷ asks bob 5 ∷ fails alice 10 ∷ succeeds bob ∷ []

is_blocked-fail_at_example :
    (is_blocked default_config alice 1000
      (fail_at default_config alice (1 ∷ 2 ∷ 3 ∷ 4 ∷ 5 ∷ []) [])).1
    ≡ some 600005
unfolding get
is_blocked-fail_at_example =
    is_blocked-fail_at default_config alice 1 1000 (2 ∷ 3 ∷ 4 ∷ 5 ∷ []) [] refl (omega arith) refl
      (omega arith)

abbrev locked : State
locked = (alice, record { count = 0; window_start = 5; locked_until = some 600005 }) ∷ []

is_blocked-run_locked_example :
    (t : ℕ) × ((is_blocked default_config alice 1000
        (run default_config (fails alice 10 ∷ fails bob 20 ∷ asks alice 30 ∷ []) locked)).1
      ≡ some t)
    × (600005 ≤ t)
unfolding get text_beq
is_blocked-run_locked_example =
    is_blocked-run_locked default_config alice 5 1000
      (fails alice 10 ∷ fails bob 20 ∷ asks alice 30 ∷ []) locked
      (
        record { count = 0; window_start = 5; locked_until = some 600005 },
        5,
        refl,
        refl,
        omega arith,
      )
      (
        inr (omega arith, omega arith),
        (inl (λ e. ground arith), (inr (omega arith, omega arith), tt)),
      )
      (omega arith)

abbrev no_tokens : Store
no_tokens = record { tokens = []; scheduled = false; disk = none }

abbrev store : Store
store = create_token (text "t1") false 100 (create_token (text "t2") true 50 no_tokens)

is_valid_token-restart_example :
    (is_valid_token (some (text "t2")) 200 (init 150 (flush true store).disk)).1
    ≡ (is_valid_token (some (text "t2")) 200 store).1
unfolding create_token set get text_beq
is_valid_token-restart_example =
    is_valid_token-restart (some (text "t2")) 150 200 store (refl, (refl, tt)) (omega arith)

abbrev page : Request
page = record {
  accept = some (text "text/html");
  authorization = none;
  query_token = some (text "t1");
}

token_auth_cases_example : IsJustified none 200 page store (token_auth none 200 page store).1
token_auth_cases_example = token_auth_cases none 200 page store

-- The page is sent to the login page although its URL holds a live token.
token_auth-page : (token_auth none 200 page store).1 ≡ redirect
unfolding token_auth is_html presented parse_bearer_token is_valid_token
token_auth-page = refl

-- A fetch with the same token is let in.
token_auth_fetch : (token_auth none 200 (record page { accept = none }) store).1 ≡ next
unfolding token_auth is_html presented parse_bearer_token is_valid_token create_token set get
    text_beq is_expired set_token schedule_persist
token_auth_fetch = refl
