-- ===== src/Header/Invariant.antt =====
-- The invariant of the threads that share a `Header`.
mod Defs
mod Changes
mod Moves
mod Calls
mod Steps
pub use Defs.*
pub use Changes.{Inv-IsAllowed}
pub use Calls.{starts}
pub use Steps.{init-Inv, Step-Inv, Reach-Inv, act-Change}
