-- ===== src/Auth/Tokens.antt =====
-- The token map of lib/auth.js: createToken, deleteToken, isValidToken, the reaper, the file that
-- keeps the tokens, and the two guards. The map is a `Dict` from token to entry; the file holds
-- the entries of the last write, since the JSON that is written reads back as it was.
pub mod Requests
pub mod Validity
use tmux_web_panel.Base.{
  ℕ, ◌+◌, ◌*◌, Bool, true, false, not, Option, none, some, List, [], ◌∷◌, Text, text_eq, leb, any,
  ◌||◌, if◌then◌else◌,
}
use tmux_web_panel.Base.Dict.{Dict, get, set, delete, retain}

abbrev pub session_ttl_ms : ℕ
session_ttl_ms = 24 * 60 * 60 * 1000

pub record Entry : Type 0 where
  pub expires_at : Option ℕ
  pub trusted : Bool

abbrev pub TokenMap : Type 0
TokenMap = Dict Text Entry

-- The map, whether a write of the file is scheduled, and the file once it has been written.
pub record Store : Type 0 where
  pub tokens : TokenMap
  pub scheduled : Bool
  pub disk : Option TokenMap

unfoldable pub schedule_persist : Store → Store
schedule_persist s = record s { scheduled = true }

-- `set` and `delete` of the map as initTokenPersistence wraps them.
unfoldable pub set_token : Text → Entry → Store → Store
unfolding schedule_persist
set_token t entry s = schedule_persist (record s { tokens = set t entry s.tokens })

unfoldable pub delete_token : Text → Store → Store
unfolding schedule_persist
delete_token t s = schedule_persist (record s { tokens = delete t s.tokens })

-- `token` is the random text that createToken draws.
unfoldable pub create_token : Text → Bool → ℕ → Store → Store
unfolding set_token
create_token token trusted now s =
    set_token token
      (record {
        expires_at = if trusted then none else some (now + session_ttl_ms);
        trusted = trusted;
      })
      s

unfoldable pub is_expired : ℕ → Entry → Bool
is_expired now entry = elim entry.expires_at [ none ↦ false | some t ↦ leb t now ]

-- isValidToken; an expired token is deleted on the way.
unfoldable pub is_valid_token : Option Text → ℕ → Store → Store × Bool
unfolding is_expired delete_token
is_valid_token none now s = (s, false)
is_valid_token (some []) now s = (s, false)
is_valid_token (some (c ∷ t)) now s = elim (get (c ∷ t) s.tokens) [
  | none ↦ (s, false)
  | some entry ↦ if is_expired now entry then (delete_token (c ∷ t) s, false) else (s, true)
]

-- One round of the timer of startTokenReaper. A write is scheduled if a token went.
unfoldable pub reap : ℕ → Store → Store
unfolding is_expired
reap now s = record s {
  tokens = retain (λ t entry. not (is_expired now entry)) s.tokens;
  scheduled = s.scheduled || any (λ p. is_expired now p.1) s.tokens;
}

-- persistNow; `written` is false if the file system refused, which is ignored.
unfoldable pub persist_now : Bool → Store → Store
persist_now written s = record s { disk = if written then some s.tokens else s.disk }

unfoldable pub flush : Bool → Store → Store
unfolding persist_now
flush written s = record (persist_now written s) { scheduled = false }

-- The loop of initTokenPersistence over the entries of the file.
unfoldable pub load_entries : ℕ → List (Text × Entry) → TokenMap → TokenMap
unfolding is_expired
load_entries now [] m = m
load_entries now ((t, entry) ∷ rest) m =
    load_entries now rest (if is_expired now entry then m else set t entry m)

-- A start of the process with the file that it finds, or none that can be read.
unfoldable pub init : ℕ → Option TokenMap → Store
unfolding load_entries
init now disk = record {
  tokens = elim disk [ none ↦ [] | some entries ↦ load_entries now entries [] ];
  scheduled = false;
  disk = disk;
}
