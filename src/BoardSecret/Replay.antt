-- ===== src/BoardSecret/Replay.antt =====
-- A secret's identifier that was accepted on a host is not accepted there again.
use Prim.Native.String
use mcp_symposium.Prelude.{
  String, ◌≡◌, refl, Bool, true, false, some, List, any, All, ◌==◌, eq_refl, trim_space, inl, inr,
  Bool-cases,
}
use text.Mathlib.TextLemmas.{append-nil}
use mcp_symposium.BoardSecret.Host.{
  FileOf, absent, corrupt, content, AgentKeys, Host, CliError, returned, failed, require, read_seen,
  write_seen, sync_seen, close_seen, Process, not_marked, done, stop, ◌>>◌,
}
use mcp_symposium.BoardSecret.Seen.{
  attempt, text_of, has_line, split_lines, add_text, write_line, mark_seen, check_seen_list,
}
use mcp_symposium.BoardSecret.Lines.{
  is_complete, has_newline, is_complete-append, is_complete-line, any-split_old, any-split_new,
}
use mcp_symposium.BoardSecret.Triples.{
  Keeps, Post, Ends-returned, Ends-failed, Keeps-Post, Post-seq, Post-after, Post-then, Keeps-seq,
  Keeps-stop, Keeps-if, Post-stop, keeps_steps,
}
use mcp_symposium.BoardSecret.Frames.{
  Keeps-check_bundle_pin, KeepsWrites, run_commands-left, Keeps-check_seen_list, Keeps-write_secret,
  Post-run_open,
}
use mcp_symposium.BoardSecret.Pins.{check_bundle_pin, write_file}
use mcp_symposium.BoardSecret.Commands.{
  put_secret, run_open, write_secret, accept, Command, process_of, run_commands,
}
use mcp_symposium.Encoding.{Bytes}
use mcp_symposium.Envelope.Format.{KeyBundle, Envelope}
use mcp_symposium.Envelope.Sealing.{Crypto}

-- an identifier that the list can tell: no newline, no space around it, not empty
abbrev pub IsPlain : String → Type 0
IsPlain id = (has_newline id ≡ false) × (trim_space id ≡ id) × (("" == id) ≡ false)

-- the seen list has whole lines, and one of them is the identifier
abbrev pub IsWhole : FileOf String → Type 0
IsWhole f = is_complete (text_of f) ≡ true

abbrev pub Recorded : String → FileOf String → Type 0
Recorded id f = IsWhole f × (has_line id f ≡ true)

abbrev is_line : String → String → Bool
is_line id line = trim_space line == id

-- the file with a line more
abbrev pub with_line : String → FileOf String → FileOf String
with_line id f = content (String.◌++◌ (text_of f) (String.◌++◌ id "\n"))

IsWhole-with_line : (id : String) (f : FileOf String) → IsWhole f → IsWhole (with_line id f)
IsWhole-with_line id f h =
    is_complete-append (text_of f) (String.◌++◌ id "\n") h (is_complete-line id)

has_line-text :
    (i : String) (f : FileOf String)
    → has_line i f ≡ true
    → any (is_line i) (split_lines (text_of f)) ≡ true
has_line-text i absent h = cc
has_line-text i corrupt h = cc
has_line-text i (content s) h = h

has_line-with_line :
    (i id : String) (f : FileOf String)
    → IsWhole f
    → has_line i f ≡ true
    → ("" == i) ≡ false
    → has_line i (with_line id f) ≡ true
unfolding trim_space
has_line-with_line i id f whole h k =
    any-split_old (is_line i) (text_of f) whole (String.◌++◌ id "\n") k (has_line-text i f h)

has_line-new :
    (id : String) (f : FileOf String) → IsPlain id → IsWhole f → has_line id (with_line id f) ≡ true
has_line-new id f plain whole =
    any-split_new (is_line id) (text_of f) whole id plain.0 (rw plain.1 (eq_refl id))

-- a failing write that leaves nothing behind
abbrev pub NeverTorn : Process → Type 0
NeverTorn p = (s : String) → p.torn s ≡ ""

module _ (J : FileOf String → Type 0) where
  abbrev OfSeen : Host → Type 0
  OfSeen h = J h.seen

  Keeps-add_text :
      (s : String)
      → ((f : FileOf String) → J f → J (content (String.◌++◌ (text_of f) s)))
      → Keeps OfSeen (add_text s)
  unfolding add_text done
  Keeps-add_text s k = record { at = λ h i. k h.seen i }

  -- J survives a line more, and the making of an empty file
  abbrev Grows : Type 0
  Grows =
      ((id : String) (f : FileOf String) → J f → J (with_line id f))
      × ((f : FileOf String) → J f → J (content (String.◌++◌ (text_of f) "")))

  Keeps-write_line :
      (p : Process) → Grows → NeverTorn p → (id : String) → Keeps OfSeen (write_line p id)
  unfolding write_line
  Keeps-write_line p grows whole id =
      let line = String.◌++◌ id "\n" in
      Keeps-if (p.refuses write_seen) (add_text (p.torn line) >> stop not_marked) (add_text line)
        (Keeps-seq (add_text (p.torn line)) (stop not_marked)
          (Keeps-add_text (p.torn line) (rw (whole line) grows.1)) (Keeps-stop not_marked))
        (Keeps-add_text line (grows.0 id))

  Keeps-mark_seen :
      (p : Process) → Grows → NeverTorn p → (id : String) → Keeps OfSeen (mark_seen p id)
  unfolding mark_seen
  Keeps-mark_seen p grows whole id = search (keeps_steps, Keeps-write_line p grows whole) depth 20

IsWhole-Grows : Grows IsWhole
IsWhole-Grows = (IsWhole-with_line, λ f h. rw (append-nil (text_of f)) h)

Recorded-Grows : (id : String) → ("" == id) ≡ false → Grows (Recorded id)
Recorded-Grows id k = (
  λ other f r. (IsWhole-with_line other f r.0, has_line-with_line id other f r.0 r.1 k),
  λ f r. rw (append-nil (text_of f)) (r.0, has_line-text id f r.1),
)

module _ (J : FileOf String → Type 0) where
  pins-OfSeen : (p : Process) (b : KeyBundle) → Keeps (OfSeen J) (check_bundle_pin p b)
  unfolding write_file done
  pins-OfSeen p b = Keeps-check_bundle_pin p (λ pins. record { at = λ h i. i }) b

  puts-OfSeen : (dest : List String) (s : Bytes) → Keeps (OfSeen J) (put_secret dest s)
  unfolding put_secret done
  puts-OfSeen dest s = record { at = λ h i. i }

  OfSeen-KeepsWrites : Grows J → (p : Process) → NeverTorn p → KeepsWrites (OfSeen J) p
  OfSeen-KeepsWrites grows p whole = record {
    pins = pins-OfSeen p;
    puts = puts-OfSeen;
    marks = Keeps-mark_seen J p grows whole;
  }

module _ (crypto : Crypto) (p : Process) (id : String) (whole : NeverTorn p)
    (plain : IsPlain id) where
  write_line-Recorded :
      Post (OfSeen IsWhole) (λ _. OfSeen (Recorded id)) (OfSeen IsWhole) (write_line p id)
  unfolding write_line add_text done
  write_line-Recorded = elim (Bool-cases (p.refuses write_seen)) [
    | inl down ↦
        let line = String.◌++◌ id "\n" in
        rw down (
          Post-then (add_text (p.torn line)) (stop not_marked)
            (Keeps-add_text IsWhole (p.torn line) (rw (whole line) IsWhole-Grows.1))
            (Post-stop not_marked))
    | inr up ↦
        rw up
          (record { at = λ h i. (IsWhole-with_line id h.seen i, has_line-new id h.seen plain i) })
  ]

  mark_seen-Recorded :
      Post (OfSeen IsWhole) (λ _. OfSeen (Recorded id)) (OfSeen IsWhole) (mark_seen p id)
  unfolding mark_seen
  mark_seen-Recorded =
      Post-seq (OfSeen (Recorded id)) _ (attempt p close_seen not_marked)
        (Post-seq (OfSeen (Recorded id)) _ (attempt p sync_seen not_marked)
          (Post-then _ (write_line p id) (search keeps_steps) write_line-Recorded)
          (Keeps-Post (attempt p sync_seen not_marked) (λ h r. r.0) (search keeps_steps)))
        (Keeps-Post (attempt p close_seen not_marked) (λ h r. r.0) (search keeps_steps))

  accept-Recorded :
      (k : AgentKeys) (b : KeyBundle) (dest : List String) (e : Envelope)
      → e.header.secret_id ≡ id
      → Post
          (OfSeen IsWhole)
          (λ _. OfSeen (Recorded id))
          (OfSeen IsWhole)
          (accept crypto p k b dest e)
  unfolding accept
  accept-Recorded k b dest e same = Post-then _ _ (Keeps-check_seen_list p e.header.secret_id) (
      Post-then _ _ (search keeps_steps) (
        Post-after _ _ (search keeps_steps) λ plaintext.
          Post-seq (OfSeen (Recorded id)) _ _ (rw same mark_seen-Recorded) (
            Keeps-Post (write_secret crypto p dest plaintext) (λ h r. r.0)
              (Keeps-write_secret p (pins-OfSeen (Recorded id) p) crypto (puts-OfSeen (Recorded id))
                dest plaintext))))

module _ (crypto : Crypto) (q : Process) (id : String)
    (readable : q.refuses read_seen ≡ false) where
  check_seen_list-Recorded :
      Post (OfSeen (Recorded id)) (λ _ _. ⊥) (OfSeen (Recorded id)) (check_seen_list q id)
  unfolding check_seen_list require stop
  check_seen_list-Recorded = record { at = λ h r. rw (readable, r.1) r }

  accept-replayed :
      (k : AgentKeys) (b : KeyBundle) (dest : List String) (e : Envelope)
      → e.header.secret_id ≡ id
      → Post (OfSeen (Recorded id)) (λ _ _. ⊥) (OfSeen (Recorded id)) (accept crypto q k b dest e)
  unfolding accept
  accept-replayed k b dest e same =
      Post-seq (λ _. ⊥) _ _ (rw same check_seen_list-Recorded) (record { at = λ h. absurd })

module _ (crypto : Crypto) (p q : Process) (e e' : Envelope) (cs : List Command) (h : Host) where
  -- After the opening of an envelope has returned on a host whose seen list has whole lines, every
  -- opening of an envelope with the same identifier fails there, whatever was sealed and opened in
  -- between: when the identifier has no newline, no space around it and is not empty, when no
  -- failing write leaves a part of a line behind, and when the later process can read the list.
  pub run_open-replayed :
      IsPlain e.header.secret_id
      → IsWhole h.seen
      → NeverTorn p
      → All (λ c. NeverTorn (process_of c)) cs
      → q.refuses read_seen ≡ false
      → p.envelope ≡ some e
      → q.envelope ≡ some e'
      → e'.header.secret_id ≡ e.header.secret_id
      → (run_open crypto p h).0 ≡ returned tt
      → (err : CliError) × ((run_open crypto q (run_commands crypto cs (run_open crypto p h).1)).0
          ≡ failed err)
  run_open-replayed plain whole torn torns readable given given' same opened =
      let id = e.header.secret_id in
      let first =
        (Post-run_open p crypto (pins-OfSeen IsWhole p) e given
            λ k b dest. accept-Recorded crypto p id torn plain k b dest e refl).at
          h whole in
      let recorded =
        Ends-returned (λ _. OfSeen (Recorded id)) (OfSeen IsWhole) (run_open crypto p h) tt first
          opened in
      let kept =
        run_commands-left crypto NeverTorn
          (OfSeen-KeepsWrites (Recorded id) (Recorded-Grows id plain.2)) cs torns
          (run_open crypto p h).1 recorded in
      Ends-failed (OfSeen (Recorded id))
        (run_open crypto q (run_commands crypto cs (run_open crypto p h).1))
        ((Post-run_open q crypto (pins-OfSeen (Recorded id) q) e' given'
            λ k b dest. accept-replayed crypto q id readable k b dest e' same).at
          (run_commands crypto cs (run_open crypto p h).1) kept)
