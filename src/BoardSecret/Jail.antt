-- ===== src/BoardSecret/Jail.antt =====
-- cmd/board-secret/main.go: confineToSecretsDir. A path is its components from the root.
use Prim.Native.Char.{code}
use mcp_symposium.Prelude.{
  String, Bool, false, ◌||◌, Option, none, some, List, [], ◌∷◌, ◌++◌, is_some, nat_eq, ◌==◌,
  if◌then◌else◌,
}
use mcp_symposium.Storage.Agents.{cut_prefix}
use mcp_symposium.BoardSecret.Host.{
  find_home, Process, no_home, outside_jail, symlink, Cmd, done, stop, ◌>>◌,
}
use mcp_symposium.BoardSecret.Seen.{onto_first, attempt}

-- the parts between the slashes
abbrev pub split_path : String → List String
split_path String.[] = "" ∷ []
split_path (String.◌∷◌ c s) =
    let rest = split_path s in
    if nat_eq (code c) b'/' then "" ∷ rest else onto_first (String.◌∷◌ c "") rest

abbrev pub without_last : List String → List String
without_last [] = []
without_last (c ∷ []) = []
without_last (c ∷ d ∷ cs) = c ∷ without_last (d ∷ cs)

-- one part of a path, behind those before it
abbrev pub walk : List String → String → List String
walk dir part =
    if part == "" || part == "."
    then dir
    else if part == ".."
    then without_last dir
    else dir ++ part ∷ []

-- filepath.Clean of a path that goes on from a clean directory
abbrev pub clean_from : List String → List String → List String
clean_from dir [] = dir
clean_from dir (part ∷ parts) = clean_from (walk dir part) parts

-- what is left of a path under a directory, or nothing when it is elsewhere
abbrev pub under : List String → List String → Option (List String)
under [] path = some path
under (d ∷ dir) [] = none
under (d ∷ dir) (c ∷ path) = let rest = under dir path in if d == c then rest else none

-- a link on the way from a directory to a path
abbrev pub linked : (List String → Bool) → List String → List String → Bool
linked is_symlink dir [] = false
linked is_symlink dir (c ∷ rest) =
    is_symlink (dir ++ c ∷ []) || linked is_symlink (dir ++ c ∷ []) rest

-- filepath.IsAbs
abbrev pub is_abs : String → Bool
is_abs path = is_some (cut_prefix "/" path)

module _ (p : Process) where
  abbrev pub jail : List String
  jail = p.home ++ ".secrets" ∷ []

  -- filepath.Clean, behind the jail when the path is relative
  abbrev pub destination : String → List String
  destination path = clean_from (if is_abs path then [] else jail) (split_path path)

  unfoldable pub confined : List String → Option (List String) → Cmd (List String)
  confined dest none = stop outside_jail
  confined dest (some rest) =
      if p.is_symlink jail || linked p.is_symlink jail rest then stop symlink else done dest

  -- confineToSecretsDir
  unfoldable pub confine_to_secrets_dir : String → Cmd (List String)
  confine_to_secrets_dir path =
      attempt p find_home no_home >> confined (destination path) (under jail (destination path))
