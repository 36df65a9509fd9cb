-- ===== src/Engine/Defs.antt =====
-- The parameters, the errors, and actions that may fail.
use mcp_symposium.Prelude.{ℕ, suc, String, Bool, List}
use mcp_symposium.Models.{Db}

-- The outside world. What it answers depends on how many steps were taken before.
pub record Env : Type 1 where
  -- the driver returns an error for the statement at this step
  pub fails : ℕ → Bool
  -- time.Now()
  pub clock : ℕ → ℕ
  -- uuid.NewString()
  pub fresh : ℕ → String
  -- the order of the rows that ORDER BY gives, oldest first, for a column of times
  pub sort_asc : {A : Type 0} → (A → ℕ) → List A → List A
  -- the SQL function lower, which differs between the backends
  pub lower : String → String

pub data Error : Type 0 where
  -- any error of the driver, gorm.ErrRecordNotFound, and a violated unique index
  driver not_found duplicate : Error
  -- thread_repo.go
  empty_title empty_body : Error
  no_thread : String → Error → Error
  -- secret_handoff.go
  secret_not_found secret_already_fetched secret_foreign_fetch secret_needs_approval : Error
  not_approvable no_such_name : Error
  -- profile_repo.go
  empty_name empty_nickname invalid_nickname nickname_taken nickname_locked : Error
  -- actor_repo.go, auth.go
  invalid_token empty_display_name no_entropy : Error
  -- tools/rendezvous
  no_actor foreign_secret burned_secret unapproved_secret : Error
  oversized malformed incomplete_bundle foreign_bundle unpublished unsupported_version : Error
  ttl_out_of_range unknown_class bad_secret_id bad_label hash_mismatch foreign_sender : Error
  unknown_recipient wrong_name own_secret not_allowed secret_shaped : Error
  cancelled_call : Error
  -- thread_query.go
  bad_cursor : Error

pub data Result (A : Type 0) : Type 0 where
  ok : A → Result A
  err : Error → Result A

pub record World : Type 0 where
  pub db : Db
  pub step : ℕ

-- The world one step later.
abbrev pub tick : World → World
tick w = record w { step = suc w.step }

-- What was written before an error stays written, but in a transaction.
abbrev pub Tx : Type 0 → Type 0
Tx A = World → Result A × World

module _ {A : Type 0} where
  unfoldable pub pure : A → Tx A
  pure a w = (ok a, w)

  unfoldable pub fail : Error → Tx A
  fail e w = (err e, w)

  -- the error is a value that the caller inspects
  unfoldable pub attempt : Tx A → Tx (Result A)
  attempt m w = let (r, w') = m w in (ok r, w')

module _ {A B : Type 0} where
  abbrev pub continue : Result A → (A → Tx B) → Tx B
  continue (ok a) f w = f a w
  continue (err e) f w = (err e, w)

infixl 5 ◌>>=◌ ◌>>◌
unfoldable pub ◌>>=◌ : {A B : Type 0} → Tx A → (A → Tx B) → Tx B
unfolding pure fail attempt
◌>>=◌ m f w = let (r, w') = m w in continue r f w'

abbrev pub ◌>>◌ : {A B : Type 0} → Tx A → Tx B → Tx B
m >> k = m >>= λ _. k
