-- ===== src/Tmux/Output.antt =====
-- The lines of what tmux prints, as the parsers of lib/tmux.js come to them: they trim the whole output
-- and split it.
use tmux_web_panel.Base.{
  some, ℕ, ◌≡◌, refl, ap, ◌∙◌, sym, true, false, not, List, [], ◌∷◌, ◌++◌, Text, text, nat_eq, ◌==◌,
  arith, every, All, map, if◌then◌else◌,
}
use tmux_web_panel.Base.Texts.{is_space, trim_start, trim_end, trim, split}
use tmux_web_panel.AgentEvents.Event.{string}
use tmux_web_panel.Tmux.Fields.{field_sep, join_sep}
use tmux_web_panel.Tmux.Parts.{ends_open}
use tmux_web_panel.Tmux.Names.{is_empty, validate_pane_label, command_name}
use tmux_web_panel.Tmux.Lines.{Pane, number_of, is_one, lines, parse_pane, parse_panes}
use tmux_web_panel.Tmux.RoundTrip.{HasNoColon, parse_pane-join_sep}

abbrev pub HasNoBreak : Text → Type 0
HasNoBreak t = every (λ c. not (c == b'\n')) t ≡ true

-- A line that begins and ends with something else than a space, and does not break.
abbrev pub IsLine : Text → Type 0
IsLine [] = true ≡ false
IsLine (c ∷ t) = (is_space c ≡ false) × (trim_end (c ∷ t) ≡ c ∷ t) × HasNoBreak (c ∷ t)

-- The lines as tmux prints them.
abbrev pub printed : List Text → Text
printed [] = []
printed (l ∷ ls) = l ++ b'\n' ∷ printed ls

abbrev joined : List Text → Text
joined [] = []
joined (l ∷ []) = l
joined (l ∷ m ∷ ls) = l ++ b'\n' ∷ joined (m ∷ ls)

trim_end-blank : (a b : Text) → trim_end b ≡ [] → trim_end (a ++ b) ≡ trim_end a
unfolding trim_end
trim_end-blank [] b h = h
trim_end-blank (c ∷ a) b h = ground (arith, trim_end-blank a b h)

trim_end-append :
    (a b : Text) (c : ℕ) (u : Text) → trim_end b ≡ c ∷ u → trim_end (a ++ b) ≡ a ++ c ∷ u
unfolding trim_end
trim_end-append [] b c u h = h
trim_end-append (x ∷ []) b c u h = rw h refl
trim_end-append (x ∷ y ∷ a) b c u h = let rest = trim_end-append (y ∷ a) b c u h in rw rest refl

joined-cons : (d : ℕ) (m : Text) (ls : List Text) → (v : Text) × (joined ((d ∷ m) ∷ ls) ≡ d ∷ v)
joined-cons d m [] = (m, refl)
joined-cons d m (l ∷ ls) = (m ++ b'\n' ∷ joined (l ∷ ls), refl)

trim_end-printed :
    (l : Text) (ls : List Text)
    → All IsLine (l ∷ ls)
    → trim_end (printed (l ∷ ls)) ≡ joined (l ∷ ls)
unfolding trim_end is_space
trim_end-printed [] ls h = absurd (ground (arith, h.0))
trim_end-printed (c ∷ l) [] h = trim_end-blank (c ∷ l) (b'\n' ∷ []) refl ∙ h.0.1
trim_end-printed (c ∷ l) ([] ∷ ls) h = absurd (ground (arith, h.1.0))
trim_end-printed (c ∷ l) ((d ∷ m) ∷ ls) h =
    let (v, e) = joined-cons d m ls in
    let rest = trim_end-printed (d ∷ m) ls h.1 ∙ e in
    trim_end-append (c ∷ l) (b'\n' ∷ printed ((d ∷ m) ∷ ls)) b'\n' (d ∷ v)
      (trim_end-append (b'\n' ∷ []) (printed ((d ∷ m) ∷ ls)) d v rest)
    ∙ ap (λ t. (c ∷ l) ++ b'\n' ∷ t) (sym e)

split-break :
    (l rest : Text) → HasNoBreak l → split b'\n' (l ++ b'\n' ∷ rest) ≡ l ∷ split b'\n' rest
unfolding split
split-break [] rest h = refl
split-break (c ∷ l) rest h = ground (arith, split-break l rest)

split-line : (l : Text) → HasNoBreak l → split b'\n' l ≡ l ∷ []
unfolding split
split-line [] h = refl
split-line (c ∷ l) h = ground (arith, split-line l)

IsLine-break : (l : Text) → IsLine l → HasNoBreak l
IsLine-break [] h = absurd (ground (arith, h))
IsLine-break (c ∷ l) h = h.2

split-joined :
    (l : Text) (ls : List Text) → All IsLine (l ∷ ls) → split b'\n' (joined (l ∷ ls)) ≡ l ∷ ls
split-joined l [] h = split-line l (IsLine-break l h.0)
split-joined l (m ∷ ls) h =
    split-break l (joined (m ∷ ls)) (IsLine-break l h.0) ∙ ap (◌∷◌ l) (split-joined m ls h.1)

trim_start-line : (c : ℕ) (l : Text) → is_space c ≡ false → trim_start (c ∷ l) ≡ c ∷ l
unfolding trim_start
trim_start-line c l h = rw h refl

-- The lines of an output are read as they were printed.
pub lines-printed : (ls : List Text) → All IsLine ls → lines (printed ls) ≡ ls
unfolding lines trim
lines-printed [] h = refl
lines-printed ([] ∷ ls) h = absurd (ground (arith, h.0))
lines-printed ((c ∷ l) ∷ ls) h =
    let (v, e) = joined-cons c l ls in
    let whole : trim (printed ((c ∷ l) ∷ ls)) ≡ c ∷ v =
      ap trim_end (trim_start-line c (l ++ b'\n' ∷ printed ls) h.0.0)
      ∙ trim_end-printed (c ∷ l) ls h
      ∙ e in
    ap (λ t. if is_empty t then [] else split b'\n' t) whole
    ∙ ap (split b'\n') (sym e)
    ∙ split-joined (c ∷ l) ls h

abbrev EndsWell : Text → Type 0
EndsWell t = trim_end t ≡ t

EndsWell-sep : (t : Text) → EndsWell t → EndsWell (field_sep ++ t)
unfolding trim_end is_space
EndsWell-sep [] h = refl
EndsWell-sep (c ∷ t) h = trim_end-append field_sep (c ∷ t) c t h

EndsWell-field : (p t : Text) → EndsWell t → EndsWell (p ++ (field_sep ++ t))
EndsWell-field p t h = trim_end-append p (field_sep ++ t) b'=' (text ":=" ++ t) (EndsWell-sep t h)

join_sep-EndsWell : (ps : List Text) (l : Text) → EndsWell l → EndsWell (join_sep (ps ++ l ∷ []))
unfolding join_sep
join_sep-EndsWell [] l h = h
join_sep-EndsWell (p ∷ []) l h = EndsWell-field p l h
join_sep-EndsWell (p ∷ q ∷ ps) l h =
    EndsWell-field p (join_sep ((q ∷ ps) ++ l ∷ [])) (join_sep-EndsWell (q ∷ ps) l h)

HasNoBreak-append : (a b : Text) → HasNoBreak a → HasNoBreak b → HasNoBreak (a ++ b)
HasNoBreak-append [] b h k = k
HasNoBreak-append (c ∷ a) b h k = ground (arith, HasNoBreak-append a b, h, k)

join_sep-HasNoBreak : (ps : List Text) → All HasNoBreak ps → HasNoBreak (join_sep ps)
unfolding join_sep
join_sep-HasNoBreak [] h = refl
join_sep-HasNoBreak (p ∷ []) h = h.0
join_sep-HasNoBreak (p ∷ q ∷ ps) h =
    HasNoBreak-append p (field_sep ++ join_sep (q ∷ ps)) h.0
      (HasNoBreak-append field_sep (join_sep (q ∷ ps)) refl (join_sep-HasNoBreak (q ∷ ps) h.1))

-- The fields of a pane; its id is `%` and a number.
pub record PaneRow : Type 0 where
  pub number : Text
  pub x : Text
  pub y : Text
  pub width : Text
  pub height : Text
  pub active : Text
  pub command : Text
  pub label : Text

abbrev pub fields_of : PaneRow → List Text
fields_of r = (b'%' ∷ r.number) ∷ r.x ∷ r.y ∷ r.width ∷ r.height ∷ r.active ∷ r.command ∷ []

abbrev pub pane_line : PaneRow → Text
pane_line r = join_sep (fields_of r ++ r.label ∷ [])

abbrev pub pane_of : PaneRow → Pane
pane_of r = record {
  id = some (b'%' ∷ r.number);
  x = number_of (some r.x);
  y = number_of (some r.y);
  width = number_of (some r.width);
  height = number_of (some r.height);
  active = is_one (some r.active);
  command = command_name (some r.command);
  label = r.label;
}

pub record IsPrintable (r : PaneRow) : Type 0 where
  pub accepted : validate_pane_label (string r.label) ≡ true
  pub trimmed : trim_end r.label ≡ r.label
  pub closed : ends_open r.command ≡ false
  pub plain : All HasNoColon ((b'%' ∷ r.number) ∷ r.x ∷ r.y ∷ r.width ∷ r.height ∷ r.active ∷ [])
  pub unbroken : All HasNoBreak (fields_of r ++ r.label ∷ [])

pane_line-IsLine : (r : PaneRow) → IsPrintable r → IsLine (pane_line r)
unfolding join_sep is_space
pane_line-IsLine r h = (
  refl,
  join_sep-EndsWell (fields_of r) r.label h.trimmed,
  join_sep-HasNoBreak (fields_of r ++ r.label ∷ []) h.unbroken,
)

map-IsLine : (rs : List PaneRow) → All IsPrintable rs → All IsLine (map pane_line rs)
map-IsLine [] h = tt
map-IsLine (r ∷ rs) h = (pane_line-IsLine r h.0, map-IsLine rs h.1)

map-parse_pane :
    (rs : List PaneRow) → All IsPrintable rs → map parse_pane (map pane_line rs) ≡ map pane_of rs
map-parse_pane [] h = refl
map-parse_pane (r ∷ rs) h =
    ap (λ p. p ∷ map parse_pane (map pane_line rs))
      (parse_pane-join_sep (b'%' ∷ r.number) r.x r.y r.width r.height r.active r.command r.label
        h.0.accepted h.0.closed h.0.plain)
    ∙ ap (◌∷◌ (pane_of r)) (map-parse_pane rs h.1)

-- A list of panes is read from the whole output of tmux as it was printed, one line for each pane: their
-- places and sizes, in which no colon stands, their commands with the name cut as commandName does,
-- and their labels, if validatePaneLabel accepts each label, none ends in spaces, no command ends in
-- `=:`, and no field breaks the line.
pub parse_panes-printed :
    (rs : List PaneRow)
    → All IsPrintable rs
    → parse_panes (printed (map pane_line rs)) ≡ map pane_of rs
unfolding parse_panes
parse_panes-printed rs h =
    ap (map parse_pane) (lines-printed (map pane_line rs) (map-IsLine rs h)) ∙ map-parse_pane rs h
