-- ===== src/Adapter/Sound.antt =====
-- What holds of a turn of internal/adapter/adapter.go while it runs and after: its frames, its tables of
-- tool calls and its counts. Each part is a record over the fields that it speaks of, so that a change
-- of the other fields needs no proof. A turn is compared with an earlier state of itself, `t0`.
pub mod Sequence
mod Tables
pub mod Keys
pub mod Frames
pub mod Finish
pub mod Calls
pub mod Sorted
pub mod Stage
pub mod Continue
pub mod Run
pub use Sequence.*
pub use Tables.*
pub mod Pigeonhole
