-- ===== src/Registry/Clean.antt =====
-- A string that requireCleanString of lib/servers/registry.js lets through is let through again.
use tmux_web_panel.Base.{
  ℕ, ◌≡◌, inl, inr, refl, sym, ap, ◌∙◌, Bool, true, false, not, ◌||◌, Option, none, some, [], ◌∷◌,
  Text, arith, if◌then◌else◌, ltb, length, any,
}
use tmux_web_panel.Base.Tests.{Bool-cases}
use tmux_web_panel.Base.Texts.{trim, trim_start, trim_end, is_space}
use tmux_web_panel.AgentEvents.Event.{Value, null, bool, number, string, array, object}
use tmux_web_panel.Registry.Failure.{ok}
use tmux_web_panel.Registry.Input.{is_none_text}
use tmux_web_panel.Registry.Strings.{is_empty, is_control, clean_text, require_clean_string}

-- `trim_end` of a text with one character in front.
abbrev before_end : ℕ → Text → Text
before_end c r = elim r [ [] ↦ if is_space c then [] else c ∷ [] | d ∷ u ↦ c ∷ d ∷ u ]

trim_end-before_end :
    (c : ℕ) (r : Text) → trim_end r ≡ r → trim_end (before_end c r) ≡ before_end c r
unfolding trim_end
trim_end-before_end c [] h = ground arith
trim_end-before_end c (d ∷ u) h = ground (arith, h)

trim_end-trim_end : (t : Text) → trim_end (trim_end t) ≡ trim_end t
unfolding trim_end
trim_end-trim_end [] = refl
trim_end-trim_end (c ∷ t) = trim_end-before_end c (trim_end t) (trim_end-trim_end t)

trim_start-trim_end_head :
    (c : ℕ) (t : Text) → is_space c ≡ false → trim_start (trim_end (c ∷ t)) ≡ trim_end (c ∷ t)
unfolding trim_end trim_start
trim_start-trim_end_head c t h = ground (arith, h)

trim_start-trim_end : (t : Text) → trim_start (trim_end (trim_start t)) ≡ trim_end (trim_start t)
unfolding trim_start trim_end
trim_start-trim_end [] = refl
trim_start-trim_end (c ∷ t) = elim (Bool-cases (is_space c)) [
  | inl e ↦ ground (arith, e, trim_start-trim_end t)
  | inr e ↦ ground (arith, e, trim_start-trim_end_head c t e)
]

trim-trim : (t : Text) → trim (trim t) ≡ trim t
unfolding trim
trim-trim t = ap trim_end (trim_start-trim_end t) ∙ trim_end-trim_end (trim_start t)

-- The text passes the checks as it stands.
abbrev pub IsClean : Text → ℕ → (Text → Bool) → Text → Type 0
IsClean field max valid t =
    (clean_text field max valid true t ≡ ok (some t))
    × (clean_text field max valid false t ≡ ok (some t))

abbrev pub IsCleanOrNone : Text → ℕ → (Text → Bool) → Option Text → Type 0
IsCleanOrNone field max valid none = Unit
IsCleanOrNone field max valid (some t) = IsClean field max valid t

module _ (field : Text) (max : ℕ) (valid : Text → Bool) where
  abbrev fails : Text → Bool
  fails t = ltb max (length t) || (any is_control t || not (valid t))

  clean_text-some :
      (required : Bool) (t u : Text)
      → clean_text field max valid required t ≡ ok (some u)
      → (trim t ≡ u) × ((is_empty u ≡ false) × (fails u ≡ false))
  unfolding clean_text
  clean_text-some required t u h = elim (Bool-cases (is_empty (trim t))) [
    | inl e ↦ ground (arith, h, e)
    | inr e ↦ elim (Bool-cases (fails (trim t))) [
      | inl f ↦ ground (arith, h, e, f)
      | inr f ↦ ground (arith, h, e, f)
    ]
  ]

  clean_text-again :
      (required : Bool) (u : Text)
      → trim u ≡ u
      → is_empty u ≡ false
      → fails u ≡ false
      → clean_text field max valid required u ≡ ok (some u)
  unfolding clean_text
  clean_text-again required u t e f = rw (t, e, f)

  clean_text-IsClean :
      (required : Bool) (t : Text) (o : Option Text)
      → clean_text field max valid required t ≡ ok o
      → IsCleanOrNone field max valid o
  clean_text-IsClean required t none h = tt
  clean_text-IsClean required t (some u) h =
      let s = clean_text-some required t u h in
      let again : trim u ≡ u = sym (ap trim s.0) ∙ trim-trim t ∙ s.0 in
      (clean_text-again true u again s.1.0 s.1.1, clean_text-again false u again s.1.0 s.1.1)

  pub require_clean_string-IsClean :
      (required : Bool) (v : Option Value) (o : Option Text)
      → require_clean_string v field max valid required ≡ ok o
      → IsCleanOrNone field max valid o
  unfolding require_clean_string
  require_clean_string-IsClean required none none h = tt
  require_clean_string-IsClean required none (some u) h = ground (arith, h)
  require_clean_string-IsClean required (some null) none h = tt
  require_clean_string-IsClean required (some null) (some u) h = ground (arith, h)
  require_clean_string-IsClean required (some (string t)) o h = clean_text-IsClean required t o h
  require_clean_string-IsClean required (some (bool b)) o h = ground (arith, h)
  require_clean_string-IsClean required (some (number b)) o h = ground (arith, h)
  require_clean_string-IsClean required (some (array b)) o h = ground (arith, h)
  require_clean_string-IsClean required (some (object b)) o h = ground (arith, h)

  -- A string that is required is there.
  pub require_clean_string_required :
      (v : Option Value) (o : Option Text)
      → require_clean_string v field max valid true ≡ ok o
      → is_none_text o ≡ false
  unfolding require_clean_string clean_text
  require_clean_string_required none o h = ground (arith, h)
  require_clean_string_required (some null) o h = ground (arith, h)
  require_clean_string_required (some (string t)) o h = ground (arith, h)
  require_clean_string_required (some (bool b)) o h = ground (arith, h)
  require_clean_string_required (some (number b)) o h = ground (arith, h)
  require_clean_string_required (some (array b)) o h = ground (arith, h)
  require_clean_string_required (some (object b)) o h = ground (arith, h)
