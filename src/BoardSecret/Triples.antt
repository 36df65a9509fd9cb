-- ===== src/BoardSecret/Triples.antt =====
-- What a part of a process guarantees: of the host when it returns, and when it ends with an error.
use mcp_symposium.Prelude.{
  ◌≡◌, refl, sym, ap, Bool, true, false, Option, none, some, not, if◌then◌else◌,
}
use mcp_symposium.Envelope.Sealing.{Fault, Checked, passed, fault}
use mcp_symposium.BoardSecret.Host.{
  FileOf, absent, corrupt, content, Host, Op, Process, CliError, Done, returned, failed, Cmd, done,
  stop, followed, ◌>>=◌, ◌>>◌, checked, require,
}
use mcp_symposium.BoardSecret.Seen.{attempt}
use mcp_symposium.BoardSecret.Pins.{decoded}
use mcp_symposium.BoardSecret.Commands.{or_stop}

module _ {A : Type 0} where
  -- the first property after a return, the second after an error
  abbrev pub Ends : (A → Host → Type 0) → (Host → Type 0) → Done A × Host → Type 0
  Ends Q E (returned a, h) = Q a h
  Ends Q E (failed e, h) = E h

  pub record Post (P : Host → Type 0) (Q : A → Host → Type 0) (E : Host → Type 0) (m : Cmd A)
      : Type 0 where
    pub at : (h : Host) → P h → Ends Q E (m h)

  -- what holds before holds after, however it ends
  pub record Keeps (I : Host → Type 0) (m : Cmd A) : Type 0 where
    pub at : (h : Host) → I h → Ends (λ _. I) I (m h)

  Ends-weaken :
      (I E : Host → Type 0)
      → ((h : Host) → I h → E h)
      → (r : Done A × Host) → Ends (λ _. I) I r
      → Ends (λ _. I) E r
  Ends-weaken I E imp (returned a, h) x = x
  Ends-weaken I E imp (failed f, h) x = imp h x

  abbrev pub or_value : A → Done A → A
  or_value d (returned a) = a
  or_value d (failed e) = d

  pub Ends-returned :
      (Q : A → Host → Type 0) (E : Host → Type 0) (r : Done A × Host) (a : A)
      → Ends Q E r
      → r.0 ≡ returned a
      → Q a r.1
  Ends-returned Q E (returned b, h) a x same = rw (sym (ap (or_value b) same)) x
  Ends-returned Q E (failed e, h) a x same = cc

  pub Ends-failed :
      (E : Host → Type 0) (r : Done A × Host)
      → Ends (λ _ _. ⊥) E r
      → (e : CliError) × (r.0 ≡ failed e)
  Ends-failed E (returned a, h) x = absurd x
  Ends-failed E (failed e, h) x = (e, refl)

  -- What is kept holds after a return, and after an error what follows from it.
  pub Keeps-Post :
      {I E : Host → Type 0} (m : Cmd A) → ((h : Host) → I h → E h) → Keeps I m → Post I (λ _. I) E m
  Keeps-Post {I} {E} m imp k = record { at = λ h i. Ends-weaken I E imp (m h) (k.at h i) }

  pub Post-stop : {P : Host → Type 0} {Q : A → Host → Type 0} (e : CliError) → Post P Q P (stop e)
  unfolding stop
  Post-stop e = record { at = λ h p. p }

module _ {A B : Type 0} where
  Ends-followed :
      (R : A → Host → Type 0) (Q : B → Host → Type 0) (E : Host → Type 0) (f : A → Cmd B)
      → ((a : A) → Post (R a) Q E (f a))
      → (r : Done A × Host) → Ends R E r
      → Ends Q E (followed f r)
  Ends-followed R Q E f k (returned a, h) x = (k a).at h x
  Ends-followed R Q E f k (failed e, h) x = x

  pub Post-bind :
      {P : Host → Type 0} {Q : B → Host → Type 0} {E : Host → Type 0} (R : A → Host → Type 0)
      (m : Cmd A) (f : A → Cmd B)
      → Post P R E m
      → ((a : A) → Post (R a) Q E (f a))
      → Post P Q E (m >>= f)
  unfolding ◌>>=◌
  Post-bind {P} {Q} {E} R m f first second = record {
    at = λ h p. Ends-followed R Q E f second (m h) (first.at h p);
  }

  pub Post-seq :
      {P : Host → Type 0} {Q : B → Host → Type 0} {E : Host → Type 0} (R : Host → Type 0)
      (m : Cmd A) (n : Cmd B)
      → Post P (λ _. R) E m
      → Post R Q E n
      → Post P Q E (m >> n)
  unfolding ◌>>◌
  Post-seq {P} {Q} {E} R m n first second = record {
    at = λ h p. Ends-followed (λ _. R) Q E (λ _. n) (λ _. second) (m h) (first.at h p);
  }

  pub Post-after :
      {I : Host → Type 0} {Q : B → Host → Type 0} (m : Cmd A) (f : A → Cmd B)
      → Keeps I m
      → ((a : A) → Post I Q I (f a))
      → Post I Q I (m >>= f)
  Post-after {I} {Q} m f k second =
      Post-bind {Q = Q} (λ _. I) m f (Keeps-Post m (λ _ i. i) k) second

  pub Post-then :
      {I : Host → Type 0} {Q : B → Host → Type 0} (m : Cmd A) (n : Cmd B)
      → Keeps I m
      → Post I Q I n
      → Post I Q I (m >> n)
  Post-then {I} {Q} m n k second = Post-seq {Q = Q} I m n (Keeps-Post m (λ _ i. i) k) second

module _ {A : Type 0} {P : Host → Type 0} {B : Type 0} {Q : B → Host → Type 0}
    {E : Host → Type 0} where
  -- What is read is what is there.
  pub Post-or_stop :
      (e : CliError) (o : Option A) (a : A) (f : A → Cmd B)
      → o ≡ some a
      → Post P Q E (f a)
      → Post P Q E (or_stop e o >>= f)
  unfolding or_stop ◌>>=◌ done
  Post-or_stop e o a f there k = record { at = λ h p. rw there (k.at h p) }

  pub Post-decoded :
      (p : Process) (e e' : CliError) (o : FileOf A) (a : A) (f : A → Cmd B)
      → o ≡ content a
      → Post P Q E (f a)
      → Post P Q E (decoded p e e' o >>= f)
  unfolding decoded ◌>>=◌ done
  Post-decoded p e e' o a f there k = record { at = λ h p. rw there (k.at h p) }

module _ {B : Type 0} {P : Host → Type 0} {Q : B → Host → Type 0} {E : Host → Type 0} where
  pub Post-if :
      (b : Bool) (m n : Cmd B) → Post P Q E m → Post P Q E n → Post P Q E (if b then m else n)
  Post-if true m n k l = k
  Post-if false m n k l = l

module _ {I : Host → Type 0} where
  pub Keeps-done : {A : Type 0} (a : A) → Keeps I (done a)
  unfolding done
  Keeps-done a = record { at = λ h i. i }

  pub Keeps-stop : {A : Type 0} (e : CliError) → Keeps I (stop {A = A} e)
  unfolding stop
  Keeps-stop e = record { at = λ h i. i }

  pub Keeps-bind :
      {A B : Type 0} (m : Cmd A) (f : A → Cmd B)
      → Keeps I m
      → ((a : A) → Keeps I (f a))
      → Keeps I (m >>= f)
  Keeps-bind m f k l = record {
    at = (Post-after {Q = λ _. I} m f k λ a. Keeps-Post (f a) (λ _ i. i) (l a)).at;
  }

  pub Keeps-seq : {A B : Type 0} (m : Cmd A) (n : Cmd B) → Keeps I m → Keeps I n → Keeps I (m >> n)
  Keeps-seq m n k l = record { at = (Post-then {Q = λ _. I} m n k (Keeps-Post n (λ _ i. i) l)).at }

  pub Keeps-require : (ok : Bool) (e : CliError) → Keeps I (require ok e)
  unfolding require done stop
  Keeps-require true e = record { at = λ h i. i }
  Keeps-require false e = record { at = λ h i. i }

  pub Keeps-checked :
      {A : Type 0} (report : Fault → CliError) (c : Checked A) → Keeps I (checked report c)
  unfolding checked done stop
  Keeps-checked report (passed a) = record { at = λ h i. i }
  Keeps-checked report (fault f) = record { at = λ h i. i }

  pub Keeps-or_stop : {A : Type 0} (e : CliError) (o : Option A) → Keeps I (or_stop e o)
  unfolding or_stop done stop
  Keeps-or_stop e none = record { at = λ h i. i }
  Keeps-or_stop e (some a) = record { at = λ h i. i }

  pub Keeps-attempt : (p : Process) (op : Op) (e : CliError) → Keeps I (attempt p op e)
  unfolding attempt
  Keeps-attempt p op e = Keeps-require (not (p.refuses op)) e

  pub Keeps-decoded :
      {A : Type 0} (p : Process) (e e' : CliError) (f : FileOf A) → Keeps I (decoded p e e' f)
  unfolding decoded
  Keeps-decoded p e e' absent = Keeps-stop e
  Keeps-decoded p e e' corrupt = Keeps-stop e'
  Keeps-decoded p e e' (content a) = Keeps-done a

  pub Keeps-if :
      {A : Type 0} (b : Bool) (m n : Cmd A) → Keeps I m → Keeps I n → Keeps I (if b then m else n)
  Keeps-if true m n k l = k
  Keeps-if false m n k l = l

pub ruleset keeps_steps = (
  Keeps-done, Keeps-stop, Keeps-bind, Keeps-seq, Keeps-require, Keeps-checked, Keeps-or_stop,
  Keeps-attempt, Keeps-decoded, Keeps-if,
)
