-- ===== src/Profile/Entries.antt =====
-- The entries of a profile in kernel/profile.js, and how a profile is read. A parsed YAML document
-- is a `Value`; the path functions and the file test are an argument.
use tmux_web_panel.Base.{
  ℕ, Bool, true, false, ◌&&◌, ◌||◌, Option, none, some, List, [], ◌∷◌, Text, text, text_eq, nat_eq,
  ◌==◌, leb, if◌then◌else◌, any, every,
}
use tmux_web_panel.AgentEvents.Event.{Value, Fields, null, bool, string, object, field, end}

pub record Entry : Type 0 where
  pub id : Text
  pub use_name : Text
  pub module_url : Text
  pub config : Value
  pub disabled : Bool

-- The errors, each with its reason.
pub data Error : Type 0 where
  not_a_mapping unknown_key bad_id needs_use bad_disabled duplicate_id : Error
  both_anchors needs_id bad_use already_exists no_anchor no_target : Error

pub data Result {ℓ} (A : Type ℓ) : Type ℓ where
  ok : A → Result A
  fail : Error → Result A

abbrev pub then_do {ℓ κ} : {A : Type ℓ} {B : Type κ} → Result A → (A → Result B) → Result B
then_do (ok a) f = f a
then_do (fail e) f = fail e

-- What node:path, node:url and node:fs answer.
pub record Paths : Type 0 where
  pub is_absolute : Text → Bool
  pub resolve_from : (declared_in use_name : Text) → Text
  pub to_href : Text → Text
  pub builtin_path : (root id : Text) → Text
  pub exists : Text → Bool

-- ID_RE, `^[a-z][a-z0-9-]*$`.
abbrev is_lower : ℕ → Bool
is_lower c = leb b'a' c && leb c b'z'

abbrev is_id_char : ℕ → Bool
is_id_char c = is_lower c || (leb b'0' c && leb c b'9') || c == b'-'

unfoldable pub is_id : Text → Bool
is_id [] = false
is_id (c ∷ t) = is_lower c && every is_id_char t

-- `^\.{1,2}[\\/]`.
unfoldable pub is_dotted : Text → Bool
is_dotted (a ∷ b ∷ []) = a == b'.' && (b == b'/' || b == b'\\')
is_dotted (a ∷ b ∷ c ∷ t) =
    a == b'.' && (b == b'/' || b == b'\\' || (b == b'.' && (c == b'/' || c == b'\\')))
is_dotted _ = false

unfoldable pub resolve_use : Paths → (use_name declared_in root : Text) → Text
unfolding is_id is_dotted
resolve_use os u file root =
    if is_dotted u || os.is_absolute u
    then os.to_href (os.resolve_from file u)
    else if is_id u && os.exists (os.builtin_path root u)
    then os.to_href (os.builtin_path root u)
    else u

abbrev pub known_keys : List Text → Fields → Bool
known_keys ks end = true
known_keys ks (field k v fs) = any (λ j. j == k) ks && known_keys ks fs

-- A member of a mapping, none if it is missing.
abbrev pub field_of : Text → Fields → Option Value
field_of k end = none
field_of k (field j v fs) = if k == j then some v else field_of k fs

-- `raw.disabled !== undefined && typeof raw.disabled !== 'boolean'`, and the value.
abbrev pub disabled_of : Option Value → Result (Option Bool)
disabled_of none = ok none
disabled_of (some (bool b)) = ok (some b)
disabled_of _ = fail bad_disabled

abbrev pub or_old {ℓ} : {A : Type ℓ} → Option A → A → A
or_old none a = a
or_old (some b) a = b

abbrev or_false : Option Bool → Bool
or_false none = false
or_false (some b) = b

abbrev pub id_of : Option Value → Result Text
id_of (some (string t)) = if is_id t then ok t else fail bad_id
id_of _ = fail bad_id

abbrev pub use_of : Error → Option Value → Result Text
use_of e (some (string (c ∷ t))) = ok (c ∷ t)
use_of e _ = fail e

unfoldable pub normalize_entry : Paths → (file root : Text) → Value → Result Entry
unfolding is_id resolve_use
normalize_entry os file root (object fs) =
    if known_keys (text "id" ∷ text "use" ∷ text "config" ∷ text "disabled" ∷ []) fs
    then then_do (id_of (field_of (text "id") fs)) (λ id.
      then_do (use_of needs_use (field_of (text "use") fs)) (λ u.
        then_do (disabled_of (field_of (text "disabled") fs)) (λ d. ok (record {
          id = id;
          use_name = u;
          module_url = resolve_use os u file root;
          config = or_old (field_of (text "config") fs) null;
          disabled = or_false d;
        }))))
    else fail unknown_key
normalize_entry os file root _ = fail not_a_mapping

abbrev pub has_id : Text → List Entry → Bool
has_id id entries = any (λ e. e.id == id) entries

-- assertUniqueIds with the set of the ids that it has seen.
unfoldable pub assert_unique_from : List Text → List Entry → Result (Unit {0})
assert_unique_from seen [] = ok tt
assert_unique_from seen (e ∷ es) =
    let rest = assert_unique_from (e.id ∷ seen) es in
    if any (λ t. t == e.id) seen then fail duplicate_id else rest

unfoldable pub assert_unique_ids : List Entry → Result (Unit {0})
unfolding assert_unique_from
assert_unique_ids es = assert_unique_from [] es

unfoldable pub normalize_all : Paths → (file root : Text) → List Value → Result (List Entry)
unfolding normalize_entry
normalize_all os file root [] = ok []
normalize_all os file root (v ∷ vs) =
    then_do (normalize_entry os file root v)
      (λ e. then_do (normalize_all os file root vs) (λ es. ok (e ∷ es)))

-- readProfile, of the `plugins` list of its document.
unfoldable pub read_profile : Paths → (file root : Text) → List Value → Result (List Entry)
unfolding normalize_all assert_unique_ids
read_profile os file root plugins =
    then_do (normalize_all os file root plugins) (λ es. then_do (assert_unique_ids es) (λ _. ok es))
