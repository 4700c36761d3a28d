-- ===== src/Invariants.antt =====
-- backend/app/core/invariants.py.
pub mod Check
pub mod Sound
pub mod Cards
pub mod Books
pub mod Turns
pub mod Calls
pub mod Reveals
pub mod Guesses
pub mod Silent
pub mod Start
unfoldable pub use Check.*
