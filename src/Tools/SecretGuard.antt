-- ===== src/Tools/SecretGuard.antt =====
-- internal/tools/rendezvous/secret_guard.go: what a post must not contain.
use mcp_symposium.Prelude.{String, Option, none, some, List, [], ◌∷◌, take}
use mcp_symposium.Encoding.{Bytes, bytes_of}

-- secretShapes
abbrev pub secret_shapes : List String
secret_shapes =
    "\\bsk-[A-Za-z0-9_-]{16,}" ∷ "\\bglsa_[A-Za-z0-9_-]{16,}" ∷ "\\bgh[pousr]_[A-Za-z0-9]{20,}"
    ∷ "\\bxox[baprs]-[A-Za-z0-9-]{10,}" ∷ "\\bAKIA[0-9A-Z]{16}\\b"
    ∷ "-----BEGIN [A-Z ]*PRIVATE KEY-----" ∷ "\\beyJ[A-Za-z0-9_-]{40,}\\.[A-Za-z0-9_-]{20,}"
    ∷ "(?i)\\bbearer\\s+[A-Za-z0-9._~+/-]{30,}=*"
    ∷ "(?i)\\b(password|passwd|secret)\\s*[:=]\\s*\\S{12,}\\b" ∷ []

-- safePrefix: the first 8 bytes
abbrev pub safe_prefix : Bytes → Bytes
safe_prefix match = take 8 match

-- The text between the indexes that FindStringIndex of a pattern finds, if it finds any.
module _ (find_string : String → String → Option String) where
  abbrev pub prefix_or : Option String → Option Bytes → Option Bytes
  prefix_or none later = later
  prefix_or (some text) later = some (safe_prefix (bytes_of text))

  abbrev pub first_shape : List String → String → Option Bytes
  first_shape [] body = none
  first_shape (re ∷ res) body =
      let later = first_shape res body in prefix_or (find_string re body) later

  -- checkBodyForSecrets: what its error quotes, if it refuses
  unfoldable pub check_body_for_secrets : String → Option Bytes
  check_body_for_secrets body = first_shape secret_shapes body
