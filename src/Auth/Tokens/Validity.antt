-- ===== src/Auth/Tokens/Validity.antt =====
-- Which tokens are valid, across expiry, reaping and a restart.
use tmux_web_panel.Base.{
  ℕ, ◌+◌, ◌≤◌, ◌≡◌, refl, Bool, true, false, not, Option, none, some, [], ◌∷◌, arith, Text, text_eq,
  ◌==◌, if◌then◌else◌, ltb, ◌||◌, ◌∙◌, sym,
}
use tmux_web_panel.Base.Equality.{text_beq_iff}
use tmux_web_panel.Base.Dict.{get, set, kept, get-set, get-delete, get-retain, HasDistinctKeys}
use tmux_web_panel.Auth.Tokens.{
  Entry, TokenMap, Store, create_token, is_expired, is_valid_token, reap, flush, load_entries, init,
  session_ttl_ms, set_token, delete_token, schedule_persist, persist_now,
}

-- The entry of a token, if it has one that has not expired.
abbrev pub live : ℕ → Option Entry → Bool
live now none = false
live now (some entry) = not (is_expired now entry)

pub is_valid_token-live :
    (c : ℕ) (t : Text) (now : ℕ) (s : Store)
    → (is_valid_token (some (c ∷ t)) now s).1 ≡ live now (get (c ∷ t) s.tokens)
unfolding is_valid_token
is_valid_token-live c t now s = ground arith

is_expired_mono :
    (now later : ℕ) (entry : Entry)
    → now ≤ later
    → is_expired now entry ≡ true
    → is_expired later entry ≡ true
unfolding is_expired
is_expired_mono now later entry h e = ground arith

live-kept :
    (now later : ℕ) (t : Text) (o : Option Entry)
    → now ≤ later
    → live later (kept (λ t entry. not (is_expired now entry)) t o) ≡ live later o
live-kept now later t none h = refl
live-kept now later t (some entry) h = ground (arith, is_expired_mono now later entry)

-- Reaping changes no later answer: a token is valid after it exactly when it would have been
-- without it. The map has distinct keys and the clock does not go back.
pub is_valid_token-reap :
    (token : Option Text) (now later : ℕ) (s : Store)
    → HasDistinctKeys s.tokens
    → now ≤ later
    → (is_valid_token token later (reap now s)).1 ≡ (is_valid_token token later s).1
unfolding reap is_valid_token
is_valid_token-reap none now later s d h = refl
is_valid_token-reap (some []) now later s d h = refl
is_valid_token-reap (some (c ∷ t)) now later s d h =
    is_valid_token-live c t later (reap now s)
    ∙ (rw get-retain (live-kept now later (c ∷ t) (get (c ∷ t) s.tokens) h))
    ∙ sym (is_valid_token-live c t later s)

-- The token that is created is valid until its day is over, or for good if it is trusted, and the
-- answer for every other token stays.
pub is_valid_token-create :
    (t u : Text) (c : ℕ) (trusted : Bool) (now later : ℕ) (s : Store)
    → (is_valid_token (some (c ∷ u)) later (create_token t trusted now s)).1 ≡ (
        if c ∷ u == t
        then trusted || ltb later (now + session_ttl_ms)
        else (is_valid_token (some (c ∷ u)) later s).1)
unfolding create_token set_token schedule_persist is_expired
is_valid_token-create t u c trusted now later s = ground (
  arith,
  is_valid_token-live c u later (create_token t trusted now s),
  is_valid_token-live c u later s,
  get-set (c ∷ u) t
      (record {
        expires_at = if trusted then none else some (now + session_ttl_ms);
        trusted = trusted;
      })
      s.tokens,
)

-- A deleted token is not valid again, and the answer for every other token stays.
pub is_valid_token-delete :
    (t u : Text) (c now : ℕ) (s : Store)
    → (is_valid_token (some (c ∷ u)) now (delete_token t s)).1
      ≡ (if c ∷ u == t then false else (is_valid_token (some (c ∷ u)) now s).1)
unfolding delete_token schedule_persist
is_valid_token-delete t u c now s = ground (
  arith,
  is_valid_token-live c u now (delete_token t s),
  is_valid_token-live c u now s,
  get-delete (c ∷ u) t s.tokens,
)

abbrev overlaid : ℕ → Option Entry → Option Entry → Option Entry
overlaid now none old = old
overlaid now (some entry) old = if is_expired now entry then old else some entry

get-load_entries :
    (now : ℕ) (j : Text) (es m : TokenMap)
    → HasDistinctKeys es
    → get j (load_entries now es m) ≡ overlaid now (get j es) (get j m)
unfolding load_entries get
get-load_entries now j [] m d = refl
get-load_entries now j ((t, entry) ∷ es) m d = ground (
  arith,
  get-load_entries now j es (if is_expired now entry then m else set t entry m) d.1,
  get-set j t entry m,
  text_beq_iff j t,
)

live-overlaid :
    (now later : ℕ) (o : Option Entry)
    → now ≤ later
    → live later (overlaid now o none) ≡ live later o
live-overlaid now later none h = refl
live-overlaid now later (some entry) h = ground (arith, is_expired_mono now later entry)

-- After a flush that was written, a process that starts on the file at `now` gives the answers of
-- the old one from then on. The old map has distinct keys.
pub is_valid_token-restart :
    (token : Option Text) (now later : ℕ) (s : Store)
    → HasDistinctKeys s.tokens
    → now ≤ later
    → (is_valid_token token later (init now (flush true s).disk)).1
      ≡ (is_valid_token token later s).1
unfolding flush persist_now init is_valid_token get
is_valid_token-restart none now later s d h = refl
is_valid_token-restart (some []) now later s d h = refl
is_valid_token-restart (some (c ∷ t)) now later s d h =
    is_valid_token-live c t later (init now (some s.tokens))
    ∙ (rw (get-load_entries now (c ∷ t) s.tokens [] d, get)
        (live-overlaid now later (get (c ∷ t) s.tokens) h))
    ∙ sym (is_valid_token-live c t later s)
