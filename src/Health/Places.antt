-- ===== src/Health/Places.antt =====
-- The entry objects of lib/servers/health-service.js: a server keeps its object, whose generation
-- never falls, until it is forgotten.
use tmux_web_panel.Base.{
  ℕ, zero, suc, ◌≤◌, ◌≡◌, some, List, [], ◌∷◌, ◌++◌, Text, text_eq, arith, nat_beq, nat_beq_iff,
  nat_eq, option_eq, if◌then◌else◌, length, get_elem?, set_elem, Option-cases, Bool-cases, inl, inr,
}
use tmux_web_panel.Base.Equality.{text_beq_iff}
use tmux_web_panel.Base.Dict.{get, get-set}
use tmux_web_panel.Health.Status.{Entry, Service}
use tmux_web_panel.Health.Service.{entry_of, object_at, put_object, fresh_entry}

-- The server's entry is the object at `ref`, in generation `g` or a later one.
pub record Holds (id : Text) (ref g : ℕ) (s : Service) : Type 0 where
  pub place : get id s.entries ≡ some ref
  pub entry : Entry
  pub there : get_elem? s.objects ref ≡ some entry
  pub since : g ≤ entry.generation

get_elem?-append {ℓ} :
    {A : Type ℓ} (xs : List A) (i : ℕ) (x y : A)
    → get_elem? xs i ≡ some x
    → get_elem? (xs ++ y ∷ []) i ≡ some x
get_elem?-append [] i x y h = ground arith
get_elem?-append (z ∷ xs) zero x y h = h
get_elem?-append (z ∷ xs) (suc i) x y h = get_elem?-append xs i x y h

pub get_elem?-set_elem_at {ℓ} :
    {A : Type ℓ} (xs : List A) (i j : ℕ) (x y : A)
    → get_elem? xs i ≡ some x
    → get_elem? (set_elem xs j y) i ≡ some (if nat_beq i j then y else x)
get_elem?-set_elem_at [] i j x y h = ground arith
get_elem?-set_elem_at (z ∷ xs) zero zero x y h = ground arith
get_elem?-set_elem_at (z ∷ xs) zero (suc j) x y h = ground arith
get_elem?-set_elem_at (z ∷ xs) (suc i) zero x y h = ground arith
get_elem?-set_elem_at (z ∷ xs) (suc i) (suc j) x y h =
    ground (arith, get_elem?-set_elem_at xs i j x y h)

pub entry_of-Holds :
    (id j : Text) (ref g : ℕ) (s : Service) → Holds id ref g s → Holds id ref g (entry_of j s).0
unfolding entry_of
entry_of-Holds id j ref g s h = elim (Option-cases (get j s.entries)) [
  | inl new ↦ record {
    place = ground (arith, get-set id j (length s.objects) s.entries, text_beq_iff id j, h.place);
    entry = h.entry;
    there = ground (arith, get_elem?-append s.objects ref h.entry (fresh_entry j) h.there);
    since = h.since;
  }
  | inr (r, e) ↦ record {
    place = ground (arith, h.place);
    entry = h.entry;
    there = ground (arith, h.there);
    since = h.since;
  }
]

pub put_object-Holds :
    (id j : Text) (ref g r : ℕ) (entry : Entry) (s : Service)
    → (object_at j r s).generation ≤ entry.generation
    → Holds id ref g s
    → Holds id ref g (put_object r entry s)
put_object-Holds id j ref g r entry s l h = elim (Bool-cases (nat_beq ref r)) [
  | inl same ↦ record {
    place = h.place;
    entry = entry;
    there = ground (arith, get_elem?-set_elem_at s.objects ref r h.entry entry h.there);
    since = ground (arith, l, h.there, h.since, nat_beq_iff ref r);
  }
  | inr other ↦ record {
    place = h.place;
    entry = h.entry;
    there = ground (arith, get_elem?-set_elem_at s.objects ref r h.entry entry h.there);
    since = h.since;
  }
]
