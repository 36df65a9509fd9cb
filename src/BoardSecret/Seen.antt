-- ===== src/BoardSecret/Seen.antt =====
-- cmd/board-secret/main.go: checkSeenList and markSeen.
use Prim.Native.Char.{code}
use Prim.Native.String
use mcp_symposium.Prelude.{
  String, Bool, false, ◌||◌, List, [], ◌∷◌, any, nat_eq, ◌==◌, not, trim_space, if◌then◌else◌,
}
use mcp_symposium.BoardSecret.Host.{
  FileOf, absent, corrupt, content, Op, read_seen, make_keys_dir, open_seen, write_seen, sync_seen,
  close_seen, Process, CliError, replayed, not_marked, Cmd, done, stop, ◌>>◌, require,
}

abbrev pub onto_first : String → List String → List String
onto_first c [] = c ∷ []
onto_first c (l ∷ ls) = String.◌++◌ c l ∷ ls

-- strings.Split(s, "\n")
abbrev pub split_lines : String → List String
split_lines String.[] = "" ∷ []
split_lines (String.◌∷◌ c s) =
    let rest = split_lines s in
    if nat_eq (code c) 10 then "" ∷ rest else onto_first (String.◌∷◌ c "") rest

-- the text of the file, which is empty when there is none
abbrev pub text_of : FileOf String → String
text_of absent = ""
text_of corrupt = ""
text_of (content s) = s

abbrev pub has_line : String → FileOf String → Bool
has_line id absent = false
has_line id corrupt = false
has_line id (content s) = any (λ line. trim_space line == id) (split_lines s)

-- a step that can fail
unfoldable pub attempt : Process → Op → CliError → Cmd Unit
attempt p op e = require (not (p.refuses op)) e

unfoldable pub add_text : String → Cmd Unit
add_text s h = done tt (record h { seen = content (String.◌++◌ (text_of h.seen) s) })

module _ (p : Process) where
  -- checkSeenList: a list that cannot be read refuses nothing
  unfoldable pub check_seen_list : String → Cmd Unit
  check_seen_list id h = require (p.refuses read_seen || not (has_line id h.seen)) replayed h

  -- fmt.Fprintln(f, id)
  unfoldable pub write_line : String → Cmd Unit
  write_line id =
      if p.refuses write_seen
      then add_text (p.torn (String.◌++◌ id "\n")) >> stop not_marked
      else add_text (String.◌++◌ id "\n")

  -- markSeen
  unfoldable pub mark_seen : String → Cmd Unit
  unfolding write_line
  mark_seen id =
      attempt p make_keys_dir not_marked
      >> attempt p open_seen not_marked
      >> write_line id
      >> attempt p sync_seen not_marked
      >> attempt p close_seen not_marked
