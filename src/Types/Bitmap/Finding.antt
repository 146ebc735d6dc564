-- ===== src/Types/Bitmap/Finding.antt =====
-- FindContiguous: first fit, against the definition of a free run.
mod Runs
mod Words
mod FirstFit
pub use Runs.*
pub use FirstFit.*
