-- ===== src/Prelude/Bits.antt =====
-- Words read bit by bit: what `&`, `|`, `&^`, `^`, shifts and masks do to each bit.
mod Digits
pub mod Masks
pub mod Counts
pub use Digits.*
pub use Masks.*
unfoldable pub use Counts.*
