-- ===== src/Shares.antt =====
-- ShareStore of lib/share-store.js: snapshots of previews that are shared for a time. The files are
-- a map from ids to their content, and the metadata file its rows once it has been written. Whether a
-- file can be written is an argument, and an operation says what became of its write of the metadata;
-- where that failed, it throws. A snapshot that is there can be read and removed. The queue runs one
-- operation after the other. An html text is the list of its code points.
pub mod Sharing
pub mod Tests
use tmux_web_panel.Base.{
  ℕ, zero, suc, ◌+◌, ◌*◌, Bool, true, false, not, ◌||◌, Option, none, some, List, [], ◌∷◌, Text,
  text, text_eq, ◌==◌, leb, ltb, min, nat_beq, or_else, ◌⊎◌, inl, inr, if◌then◌else◌, any,
}
use tmux_web_panel.Base.Int.{ℤ, pos, negsuc}
use tmux_web_panel.Base.Dict.{Dict, get, set, delete, has}
use tmux_web_panel.Base.Texts.{trim}
use tmux_web_panel.Panes.Utf8.{Chars, byte_length}

abbrev pub max_ttl_ms : ℕ
max_ttl_ms = 90 * 24 * 60 * 60 * 1000

abbrev pub max_html_bytes : ℕ
max_html_bytes = 12 * 1024 * 1024

pub record Share : Type 0 where
  pub filename : Text
  pub created_at : ℕ
  pub expires_at : ℕ

-- A member of the object in the metadata file: one with a number as its end, or any other value.
pub data Row : Type 0 where
  row : Share → Row
  malformed : Row

pub record Store : Type 0 where
  pub meta : Dict Text Share
  pub snapshots : Dict Text Chars
  pub disk : Option (Dict Text Row)

-- What became of the write of the metadata file: there was none, it was taken, or it threw.
pub data Write : Type 0 where
  untouched written failed : Write

abbrev pub rows : Dict Text Share → Dict Text Row
rows [] = []
rows ((id, m) ∷ ms) = (id, row m) ∷ rows ms

unfoldable pub is_expired : ℕ → Share → Bool
is_expired now m = leb m.expires_at now

-- _writeUnsafe: the file is replaced as a whole or not at all.
unfoldable pub write : (takes : Bool) → Store → Store × Write
write true s = (record s { disk = some (rows s.meta) }, written)
write false s = (s, failed)

-- The loop of `sweep` over a copy of the entries, and whether it removed any.
unfoldable pub sweep_loop : ℕ → List (Text × Share) → Store → Store × Bool
unfolding is_expired
sweep_loop now [] s = (s, false)
sweep_loop now ((id, m) ∷ ms) s =
    if is_expired now m
    then (let (s', changed) =
          sweep_loop now ms
            (record s { meta = delete id s.meta; snapshots = delete id s.snapshots }) in
        (s', true))
    else sweep_loop now ms s

unfoldable pub sweep : (takes : Bool) → ℕ → Store → Store × Write
unfolding sweep_loop write
sweep takes now s =
    let (s', changed) = sweep_loop now s.meta s in
    if changed then write takes s' else (s', untouched)

-- The loop of `load` over the members of the file.
abbrev pub shares_of : Dict Text Row → Dict Text Share
shares_of [] = []
shares_of ((id, row m) ∷ ms) = (id, m) ∷ shares_of ms
shares_of ((id, malformed) ∷ ms) = shares_of ms

-- `load` of a file that holds an object, or of none; a member without a number as its end is passed
-- over, and stays in the file until the next write.
unfoldable pub load : (takes : Bool) → ℕ → Option (Dict Text Row) → Dict Text Chars → Store × Write
unfolding sweep
load takes now disk snapshots =
    sweep takes now
      (record { meta = shares_of (or_else disk []); snapshots = snapshots; disk = disk })

unfoldable pub delete_share : (takes : Bool) → Text → Store → (Store × Write) × Bool
unfolding write
delete_share takes id s =
    let s' = record s { meta = delete id s.meta; snapshots = delete id s.snapshots } in
    if has id s.meta then (write takes s', true) else ((s', untouched), false)

pub data Error : Type 0 where
  html_required html_too_large invalid_ttl not_stored : Error

abbrev pub taken : ℕ → Text → Text
taken zero t = []
taken (suc n) [] = []
taken (suc n) (c ∷ t) = c ∷ taken n t

-- A name of at most 255 code units, or `preview`.
unfoldable pub name_of : Option Text → Text
unfolding trim
name_of none = text "preview"
name_of (some t) = elim (trim t) [ [] ↦ text "preview" | c ∷ u ↦ taken 255 (c ∷ u) ]

-- The queued part of `create`: `stores` says whether the snapshot can be written.
unfoldable pub put_share :
    (stores takes : Bool) → Text → Chars → Share → Store → (Store × Write) × (Error ⊎ Share)
unfolding write
put_share false takes id html m s = ((s, untouched), inl not_stored)
put_share true takes id html m s = (
  write takes (record s { snapshots = set id html s.snapshots; meta = set id m s.meta }),
  if takes then inr m else inl not_stored,
)

-- `create`: `html` is none if it is no text, and `ttl` none if it is no finite number.
unfoldable pub create :
    (stores takes : Bool)
    → Text
    → ℕ
    → Option Chars
    → Option Text
    → Option ℤ
    → Store
    → (Store × Write) × (Error ⊎ Share)
unfolding put_share name_of
create stores takes id now none filename ttl s = ((s, untouched), inl html_required)
create stores takes id now (some []) filename ttl s = ((s, untouched), inl html_required)
create stores takes id now (some (c ∷ html)) filename none s = (
  (s, untouched),
  inl (if ltb max_html_bytes (byte_length (c ∷ html)) then html_too_large else invalid_ttl),
)
create stores takes id now (some (c ∷ html)) filename (some (negsuc n)) s = (
  (s, untouched),
  inl (if ltb max_html_bytes (byte_length (c ∷ html)) then html_too_large else invalid_ttl),
)
create stores takes id now (some (c ∷ html)) filename (some (pos n)) s =
    if ltb max_html_bytes (byte_length (c ∷ html))
    then ((s, untouched), inl html_too_large)
    else if nat_beq n 0
    then ((s, untouched), inl invalid_ttl)
    else put_share stores takes id (c ∷ html)
        (record {
          filename = name_of filename;
          created_at = now;
          expires_at = now + min n max_ttl_ms;
        })
        s

-- `get`: an expired share, or one whose file has gone, is deleted.
unfoldable pub get_share :
    (takes : Bool) → Text → ℕ → Store → (Store × Write) × Option (Share × Chars)
unfolding is_expired delete_share
get_share takes id now s = elim (get id s.meta) [
  | none ↦ ((s, untouched), none)
  | some m ↦
      if is_expired now m then ((delete_share takes id s).0, none) else (elim (get id s.snapshots) [
        | none ↦ ((delete_share takes id s).0, none)
        | some html ↦ ((s, untouched), some (m, html))
      ])
]

-- A stable sort by the time of creation, newest first.
unfoldable pub insert_newest : Text × Share → List (Text × Share) → List (Text × Share)
insert_newest (id, m) [] = (id, m) ∷ []
insert_newest (id, m) ((j, n) ∷ ms) =
    if leb n.created_at m.created_at
    then (id, m) ∷ (j, n) ∷ ms
    else (j, n) ∷ insert_newest (id, m) ms

unfoldable pub list : ℕ → List (Text × Share) → List (Text × Share)
unfolding is_expired insert_newest
list now [] = []
list now ((id, m) ∷ ms) =
    let rest = list now ms in if is_expired now m then rest else insert_newest (id, m) rest
