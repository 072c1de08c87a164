-- ===== src/Registry/Atomic.antt =====
-- What lib/servers/registry.js keeps of an operation whose write fails: nothing, where it is alone,
-- and more or less than that where two operations overlap.
use tmux_web_panel.Base.{◌≡◌, Bool, true, false, Option, none, some, [], Text, text, arith}
use tmux_web_panel.Base.Int.{ℤ}
use tmux_web_panel.AgentEvents.Event.{Value}
use tmux_web_panel.Errors.{internal}
use tmux_web_panel.Registry.Failure.{Result, ok, fail}
use tmux_web_panel.Registry.Store.{Memory, Store, Op, change}
use tmux_web_panel.Registry.Disk.{serialize}
use tmux_web_panel.Registry.Writes.{Answer, done, failed, start, settle, perform}

-- What an operation ought to do with the store, by what its checks say, by whether the file may be
-- written, and by whether the write is carried out: it changes the memory and the file, or nothing.
abbrev pub all_or_nothing :
    (Text → Text → Text) → Result Memory → Option Text → (written : Bool) → Store → Store × Answer
all_or_nothing encrypt (fail f) block written s = (s, failed f)
all_or_nothing encrypt (ok m) (some reason) written s =
    (s, failed (record { code = internal; field = [] }))
all_or_nothing encrypt (ok m) none false s =
    (s, failed (record { code = internal; field = text "write" }))
all_or_nothing encrypt (ok m) none true s =
    (record s { memory = m; file = serialize encrypt m }, done)

module _ (is_ipv6 : Text → Bool) (to_integer : Value → Option ℤ) (encrypt : Text → Text → Text)
    (revision now : Text) where
  -- An operation with nothing else at work changes the memory and the file alike where its checks
  -- pass, the file may be written and the write is carried out; in every other case it is answered
  -- with a failure, and the memory, the file and all else are as before.
  pub perform-all_or_nothing :
      (op : Op) (written : Bool) (s : Store)
      → s.pending ≡ []
      → perform is_ipv6 to_integer encrypt revision now op written s
        ≡ all_or_nothing encrypt
            (change is_ipv6 to_integer revision now op s.memory)
            s.write_block
            written
            s
  unfolding perform start settle
  perform-all_or_nothing op written s p = ground (arith, p)

  -- The store after the first part of an operation.
  abbrev pub begun : Op → Store → Store
  begun op s = (start is_ipv6 to_integer revision now op s).0

  -- Two operations begin, and then their writes are settled.
  abbrev pub overlapped : Op → Op → (first second : Bool) → Store → Store × Option Answer
  overlapped op other first second s =
      settle encrypt second (settle encrypt first (begun other (begun op s))).0

  -- Two operations overlap, the file may be written, no other write waits, and the checks of both
  -- pass. Where both writes fail, the change of the first one stays in the memory and the file is as
  -- before. Where only the first write fails, the second operation is answered as done, and the
  -- memory is as before both and the file is what is written of that.
  pub settle-start_overlap :
      (op other : Op) (s : Store) (m n : Memory)
      → s.pending ≡ []
      → s.write_block ≡ none
      → change is_ipv6 to_integer revision now op s.memory ≡ ok m
      → change is_ipv6 to_integer revision now other m ≡ ok n
      → (((overlapped op other false false s).0.memory ≡ m)
          × ((overlapped op other false false s).0.file ≡ s.file))
        × (((overlapped op other false true s).1 ≡ some done)
            × (((overlapped op other false true s).0.memory ≡ s.memory)
                × ((overlapped op other false true s).0.file ≡ serialize encrypt s.memory)))
  unfolding start settle
  settle-start_overlap op other s m n p b h k = ground (arith, p, b, h, k)
