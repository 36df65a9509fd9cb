-- ===== src/Engine.antt =====
-- What the program takes from outside: gorm's driver, the clock, `uuid.NewString` and the
-- database's functions, in a record of parameters; and the statements that the source writes, as
-- actions on the tables. A statement takes one step, and at each step the driver may refuse.
mod Defs
mod Statements
pub mod Tables
pub mod Keeps
pub mod Ensures
pub mod Order
pub mod Transactions
pub mod Runs
pub mod Succeeds
unfoldable pub use Defs.*
unfoldable pub use Statements.*
