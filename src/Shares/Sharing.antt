-- ===== src/Shares/Sharing.antt =====
-- What lib/share-store.js hands out, and what it keeps on disk.
use tmux_web_panel.Base.{
  ℕ, suc, ◌+◌, ◌≤◌, ◌≡◌, refl, false, Option, none, some, List, [], ◌∷◌, Text, text_eq, arith, leb,
  min, or_else, if◌then◌else◌, inl, inr, Bool, true, ltb, nat_beq, Bool-cases, Option-cases, ap,
  sym, ◌∙◌, subst,
}
use tmux_web_panel.Base.Int.{ℤ, pos, negsuc}
use tmux_web_panel.Base.Dict.{Dict, get, set, has, delete, get-set_self}
use tmux_web_panel.Panes.Utf8.{Chars, byte_length}
use tmux_web_panel.Shares.{
  Share, Store, Row, Write, untouched, written, failed, rows, shares_of, max_ttl_ms, max_html_bytes,
  is_expired, write, sweep_loop, sweep, load, delete_share, create, put_share, get_share, name_of,
}

-- What a share answers while it lives.
abbrev pub served : ℕ → Share → Chars → Option (Share × Chars)
served later m html = if leb m.expires_at later then none else some (m, html)

-- A snapshot that is accepted and stored is handed out, whole and under its name, until its time has passed,
-- which is at most ninety days, and from then on no more.
pub get_share-create :
    (id : Text) (c n now later : ℕ) (html : Chars) (filename : Option Text) (s : Store)
    → byte_length (c ∷ html) ≤ max_html_bytes
    → let ((s', w), result) =
        create true true id now (some (c ∷ html)) filename (some (pos (suc n))) s in
      let m : Share = record {
        filename = name_of filename;
        created_at = now;
        expires_at = now + min (suc n) max_ttl_ms;
      } in
      (result ≡ inr m) × ((get_share true id later s').1 ≡ served later m (c ∷ html))
unfolding create put_share get_share is_expired write
get_share-create id c n now later html filename s h =
    let m : Share = record {
      filename = name_of filename;
      created_at = now;
      expires_at = now + min (suc n) max_ttl_ms;
    } in
    ground (arith, get-set_self id m s.meta, get-set_self id (c ∷ html) s.snapshots)

delete-absent {ℓ} : {A : Type ℓ} (k : Text) (m : Dict Text A) → get k m ≡ none → delete k m ≡ m
unfolding get delete
delete-absent k [] h = refl
delete-absent k ((j, v) ∷ m) h = ground (arith, delete-absent k m)

sweep_loop-same :
    (now : ℕ) (ms : List (Text × Share)) (s : Store)
    → (sweep_loop now ms s).1 ≡ false
    → (sweep_loop now ms s).0 ≡ s
unfolding sweep_loop
sweep_loop-same now [] s h = refl
sweep_loop-same now ((id, m) ∷ ms) s h = ground (arith, sweep_loop-same now ms s)

-- The shares of the file are those of the store.
abbrev pub IsSaved : Store → Type 0
IsSaved s = shares_of (or_else s.disk []) ≡ s.meta

shares_of-rows : (ms : Dict Text Share) → shares_of (rows ms) ≡ ms
shares_of-rows [] = refl
shares_of-rows ((id, m) ∷ ms) = ap (◌∷◌ (id, m)) (shares_of-rows ms)

-- Whether the file is in step after an operation: it was, and was not to be written, or it was written.
abbrev pub in_step : Bool → Write → Bool
in_step b untouched = b
in_step b written = true
in_step b failed = false

-- What an operation does to a store that is in step with its file if `b`.
abbrev Keeps : Bool → Store × Write → Type 0
Keeps b r = in_step b r.1 ≡ true → IsSaved r.0

write-Keeps : (b takes : Bool) (s : Store) → Keeps b (write takes s)
unfolding write
write-Keeps b true s h = shares_of-rows s.meta
write-Keeps b false s h = absurd (ground (arith, h))

module _ (b takes : Bool) (s : Store) (saved : b ≡ true → IsSaved s) where
  delete_share-Keeps : (id : Text) → Keeps b (delete_share takes id s).0
  unfolding delete_share
  delete_share-Keeps id = elim (Bool-cases (has id s.meta)) [
    | inl known ↦ rw known (
        write-Keeps b takes
          (record s { meta = delete id s.meta; snapshots = delete id s.snapshots }))
    | inr new ↦ rw new (λ h. saved h ∙ sym (delete-absent id s.meta (ground (arith, new))))
  ]

  sweep-Keeps : (now : ℕ) → Keeps b (sweep takes now s)
  unfolding sweep
  sweep-Keeps now = elim (Bool-cases (sweep_loop now s.meta s).1) [
    | inl changed ↦ rw changed (write-Keeps b takes (sweep_loop now s.meta s).0)
    | inr same ↦ rw same (λ h. subst IsSaved (sym (sweep_loop-same now s.meta s same)) (saved h))
  ]

  put_share-Keeps :
      (stores : Bool) (id : Text) (html : Chars) (m : Share)
      → Keeps b (put_share stores takes id html m s).0
  unfolding put_share
  put_share-Keeps true id html m =
      write-Keeps b takes (record s { snapshots = set id html s.snapshots; meta = set id m s.meta })
  put_share-Keeps false id html m = saved

  create-Keeps :
      (stores : Bool) (id : Text) (now : ℕ) (html : Option Chars) (filename : Option Text)
      (ttl : Option ℤ)
      → Keeps b (create stores takes id now html filename ttl s).0
  unfolding create
  create-Keeps stores id now none filename ttl = saved
  create-Keeps stores id now (some []) filename ttl = saved
  create-Keeps stores id now (some (c ∷ html)) filename none = saved
  create-Keeps stores id now (some (c ∷ html)) filename (some (negsuc n)) = saved
  create-Keeps stores id now (some (c ∷ html)) filename (some (pos n)) =
      elim (Bool-cases (ltb max_html_bytes (byte_length (c ∷ html)))) [
        | inl large ↦ rw large saved
        | inr fits ↦ elim (Bool-cases (nat_beq n 0)) [
          | inl no_time ↦ rw (fits, no_time) saved
          | inr lives ↦ rw (fits, lives) (put_share-Keeps stores id (c ∷ html) _)
        ]
      ]

  get_share-Keeps : (id : Text) (now : ℕ) → Keeps b (get_share takes id now s).0
  unfolding get_share
  get_share-Keeps id now = elim (Option-cases (get id s.meta)) [
    | inl missing ↦ rw (missing, get_share) saved
    | inr (m, found) ↦ elim (Bool-cases (is_expired now m)) [
      | inl expired ↦ rw (found, get_share) (rw expired (delete_share-Keeps id))
      | inr lives ↦ elim (Option-cases (get id s.snapshots)) [
        | inl gone ↦ rw (found, get_share) (rw lives (rw gone (delete_share-Keeps id)))
        | inr (html, there) ↦ rw (found, get_share) (rw lives (rw there saved))
      ]
    ]
  ]

-- The calls, each with whether the files can be written during it.
pub data Call : Type 0 where
  creates : (stores takes : Bool) → Text → ℕ → Option Chars → Option Text → Option ℤ → Call
  gets : (takes : Bool) → Text → ℕ → Call
  deletes : (takes : Bool) → Text → Call
  sweeps : (takes : Bool) → ℕ → Call

unfoldable pub step : Call → Store → Store × Write
step (creates stores takes id now html filename ttl) s =
    (create stores takes id now html filename ttl s).0
step (gets takes id now) s = (get_share takes id now s).0
step (deletes takes id) s = (delete_share takes id s).0
step (sweeps takes now) s = sweep takes now s

step-Keeps : (c : Call) (b : Bool) (s : Store) → (b ≡ true → IsSaved s) → Keeps b (step c s)
unfolding step
step-Keeps (creates stores takes id now html filename ttl) b s h =
    create-Keeps b takes s h stores id now html filename ttl
step-Keeps (gets takes id now) b s h = get_share-Keeps b takes s h id now
step-Keeps (deletes takes id) b s h = delete_share-Keeps b takes s h id
step-Keeps (sweeps takes now) b s h = sweep-Keeps b takes s h now

-- The store after some calls, and whether the last write that was tried was taken.
unfoldable pub run : List Call → Store × Bool → Store × Bool
unfolding step
run [] r = r
run (c ∷ cs) r = let after = step c r.0 in run cs (after.0, in_step r.1 after.1)

run-Keeps :
    (cs : List Call) (b : Bool) (s : Store)
    → (b ≡ true → IsSaved s)
    → (run cs (s, b)).1 ≡ true
    → IsSaved (run cs (s, b)).0
unfolding run
run-Keeps [] b s h k = h k
run-Keeps (c ∷ cs) b s h k =
    run-Keeps cs (in_step b (step c s).1) (step c s).0 (step-Keeps c b s h) k

-- A process that has loaded its file, with what became of the write of the sweep.
abbrev pub started : Store × Write → Store × Bool
started r = (r.0, in_step true r.1)

-- A process that loads a file, or none, which may hold members that are no shares, and takes any
-- calls, has in its file exactly the shares that the store knows, unless the last write that was tried
-- failed. It does not matter which writes failed before that one.
pub run-load-IsSaved :
    (takes : Bool) (now : ℕ) (disk : Option (Dict Text Row)) (snapshots : Dict Text Chars)
    (cs : List Call)
    → (run cs (started (load takes now disk snapshots))).1 ≡ true
    → IsSaved (run cs (started (load takes now disk snapshots))).0
unfolding load
run-load-IsSaved takes now disk snapshots cs =
    let s : Store = record {
      meta = shares_of (or_else disk []);
      snapshots = snapshots;
      disk = disk;
    } in
    run-Keeps cs (in_step true (sweep takes now s).1) (sweep takes now s).0
      (sweep-Keeps true takes s (λ t. refl) now)
