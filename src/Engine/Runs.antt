-- ===== src/Engine/Runs.antt =====
-- Runs of actions that succeed.
use mcp_symposium.Prelude.{◌≡◌, refl}
use mcp_symposium.Models.{Db}
use mcp_symposium.Engine.Defs.{Env, ok, World, tick, Tx, pure, ◌>>=◌}
use mcp_symposium.Engine.Statements.{statement}
use mcp_symposium.Engine.Transactions.{Works}

pub bind_ok :
    {A B : Type 0} (m : Tx A) (f : A → Tx B) (w : World) (a : A) (w' : World)
    → m w ≡ (ok a, w')
    → (m >>= f) w ≡ f a w'
unfolding ◌>>=◌
bind_ok m f w a w' h = rw h refl

pub bind_pure :
    {A B : Type 0} (m : Tx A) (g : A → B) (w : World) (a : A)
    → (m w).0 ≡ ok a
    → ((m >>= λ x. pure (g x)) w).0 ≡ ok (g a)
unfolding ◌>>=◌ pure
bind_pure m g w a h = rw h refl

-- A read returns what it reads when the driver does not refuse it.
pub read_ok :
    {A : Type 0} (env : Env) (f : Db → A) (w : World)
    → Works env
    → statement env (λ d. ok (f d, d)) w ≡ (ok (f w.db), tick w)
unfolding statement
read_ok env f w works = rw (works w.step) refl
