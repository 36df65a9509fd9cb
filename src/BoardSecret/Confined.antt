-- ===== src/BoardSecret/Confined.antt =====
-- Where an opened secret can be written.
use mcp_symposium.Prelude.{
  String, ◌≡◌, refl, sym, ap, ◌∙◌, Bool, false, ◌||◌, Option, none, some, List, [], ◌∷◌, ◌++◌, ◌==◌,
  eq_iff, inl, inr, Bool-cases, arith, All, get_or,
}
use mcp_symposium.BoardSecret.Host.{Host, find_home, Process, returned, stop, done, require, ◌>>◌}
use mcp_symposium.BoardSecret.Triples.{or_value}
use mcp_symposium.BoardSecret.Seen.{attempt}
use mcp_symposium.BoardSecret.Jail.{
  without_last, walk, clean_from, under, linked, split_path, is_abs, jail, destination, confined,
  confine_to_secrets_dir,
}

-- a component that names an entry of its directory
abbrev pub IsEntry : String → Type 0
IsEntry c = ((c == "") ≡ false) × ((c == ".") ≡ false) × ((c == "..") ≡ false)

-- no directory on the way from one directory down to a path is a link, nor is the path
abbrev pub Unlinked : (List String → Bool) → List String → List String → Type 0
Unlinked is_symlink dir [] = Unit
Unlinked is_symlink dir (c ∷ rest) =
    (is_symlink (dir ++ c ∷ []) ≡ false) × Unlinked is_symlink (dir ++ c ∷ []) rest

All-without_last : (cs : List String) → All IsEntry cs → All IsEntry (without_last cs)
All-without_last [] h = tt
All-without_last (c ∷ []) h = tt
All-without_last (c ∷ d ∷ cs) h = (h.0, All-without_last (d ∷ cs) h.1)

All-last : (cs : List String) (c : String) → All IsEntry cs → IsEntry c → All IsEntry (cs ++ c ∷ [])
All-last [] c h k = (k, tt)
All-last (d ∷ cs) c h k = (h.0, All-last cs c h.1 k)

All-walk : (dir : List String) (part : String) → All IsEntry dir → All IsEntry (walk dir part)
All-walk dir part h = elim (Bool-cases (part == "" || part == ".")) [
  | inl stays ↦ rw stays h
  | inr named ↦ elim (Bool-cases (part == "..")) [
    | inl up ↦ rw (named, up) (All-without_last dir h)
    | inr down ↦
        rw (named, down) (All-last dir part h (ground (arith, named), ground (arith, named), down))
  ]
]

All-clean_from : (parts dir : List String) → All IsEntry dir → All IsEntry (clean_from dir parts)
All-clean_from [] dir h = h
All-clean_from (p ∷ parts) dir h = All-clean_from parts (walk dir p) (All-walk dir p h)

under_append :
    (dir path : List String) {rest : List String} → under dir path ≡ some rest → path ≡ dir ++ rest
under_append [] path {rest} h = ap (λ o. get_or o []) h
under_append (d ∷ dir) [] {rest} h = cc
under_append (d ∷ dir) (c ∷ path) {rest} h = elim (Bool-cases (d == c)) [
  | inl same ↦
      let below = under_append dir path {rest = rest} (rw same at h) in
      rw ((eq_iff d c).0 same, below) refl
  | inr other ↦ cc (rw other at h)
]

All-rest : (dir rest : List String) → All IsEntry (dir ++ rest) → All IsEntry rest
All-rest [] rest h = h
All-rest (d ∷ dir) rest h = All-rest dir rest h.1

linked-Unlinked :
    (s : List String → Bool) (dir rest : List String)
    → linked s dir rest ≡ false
    → Unlinked s dir rest
linked-Unlinked s dir [] h = tt
linked-Unlinked s dir (c ∷ rest) h =
    (ground (arith, h), linked-Unlinked s (dir ++ c ∷ []) rest (ground (arith, h)))

module _ (p : Process) where
  -- the path is below the jail or the jail itself, by names of entries, with no link on the way
  abbrev pub IsConfined : List String → Type 0
  IsConfined dest =
      (rest : List String) × (dest ≡ jail p ++ rest)
      × All IsEntry rest
      × (p.is_symlink (jail p) ≡ false)
      × Unlinked p.is_symlink (jail p) rest

  confined-IsConfined :
      (dest : List String) (o : Option (List String)) (h : Host) {r : List String}
      → All IsEntry dest
      → under (jail p) dest ≡ o
      → (confined p dest o h).0 ≡ returned r
      → IsConfined r
  unfolding confined done stop
  confined-IsConfined dest none h {r} entries at_o ok = cc
  confined-IsConfined dest (some rest) h {r} entries at_o ok =
      elim (Bool-cases (p.is_symlink (jail p) || linked p.is_symlink (jail p) rest)) [
        | inl link ↦ cc (rw link at ok)
        | inr none_there ↦
            let below = under_append (jail p) dest {rest = rest} at_o in
            let same : dest ≡ r = ap (or_value dest) (rw none_there at ok) in
            (
              rest,
              sym same ∙ below,
              All-rest (jail p) rest (rw below at entries),
              ground (arith, none_there),
              linked-Unlinked p.is_symlink (jail p) rest (ground (arith, none_there)),
            )
      ]

  destination-IsEntry : (path : String) → All IsEntry p.home → All IsEntry (destination p path)
  destination-IsEntry path home = elim (Bool-cases (is_abs path)) [
    | inl absolute ↦ rw absolute (All-clean_from (split_path path) [] tt)
    | inr relative ↦ rw relative (
        All-clean_from (split_path path) (jail p)
          (All-last p.home ".secrets" home (refl, refl, refl)))
  ]

  -- A path that is accepted for the plaintext is the directory of the secrets or lies below it,
  -- has no `.` and no `..` in it, and neither that directory nor a part of the path under it is
  -- a symbolic link when it is looked at: for every text, when the home directory's path is clean.
  pub confine_to_secrets_dir-IsConfined :
      (path : String) (h : Host) (dest : List String)
      → All IsEntry p.home
      → (confine_to_secrets_dir p path h).0 ≡ returned dest
      → IsConfined dest
  unfolding confine_to_secrets_dir ◌>>◌ attempt require done stop
  confine_to_secrets_dir-IsConfined path h dest home ok = elim (Bool-cases (p.refuses find_home)) [
    | inl down ↦ cc (rw down at ok)
    | inr up ↦
        confined-IsConfined (destination p path) (under (jail p) (destination p path)) h {r = dest}
          (destination-IsEntry path home) refl (rw up at ok)
  ]
