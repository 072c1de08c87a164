-- ===== src/Shares/Tests.antt =====
-- Runs of lib/share-store.js on concrete inputs.
use tmux_web_panel.Base.{refl, ◌+◌, none, some, List, [], ◌∷◌, text, Text, true, false, min}
use tmux_web_panel.Base.Int.{pos}
use tmux_web_panel.Shares.{
  Share, Row, row, malformed, sweep, sweep_loop, write, create, put_share, get_share, delete_share,
  is_expired, name_of, load, max_ttl_ms,
}
use tmux_web_panel.Shares.Sharing.{
  Call, creates, gets, deletes, run, step, started, IsSaved, run-load-IsSaved,
}
use tmux_web_panel.Base.Dict.{Dict, get, set, delete}
use tmux_web_panel.Base.Equality.{text_beq}
use tmux_web_panel.Base.Texts.{trim}
use tmux_web_panel.Panes.Utf8.{byte_length, encode, encode_char, replaced}

abbrev page : Share
page = record { filename = name_of none; created_at = 100; expires_at = 100 + min 50 max_ttl_ms }

-- A file with a share that lives, one that is over and a member that is none.
abbrev file : Dict Text Row
file =
    (text "a", row page)
    ∷ (text "b", row (record page { expires_at = 1 }))
    ∷ (text "c", malformed)
    ∷ []

-- The write after a share has expired fails, and the next one is taken.
abbrev calls : List Call
calls =
    creates true true (text "k") 100 (some (text "<p>")) none (some (pos 50))
    ∷ gets false (text "k") 200
    ∷ deletes true (text "other")
    ∷ creates true true (text "l") 100 (some (text "<p>")) none (some (pos 50))
    ∷ []

run-load-IsSaved_example : IsSaved (run calls (started (load true 5 (some file) []))).0
unfolding run step load sweep sweep_loop write create put_share get_share delete_share is_expired
    get set delete text_beq byte_length encode encode_char replaced name_of trim
run-load-IsSaved_example = run-load-IsSaved true 5 (some file) [] calls refl
