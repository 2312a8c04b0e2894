-- ===== src/Safety.antt =====
-- What holds of every state of a run, and how a run can fail: the interpreter (interpreter.cpp,
-- program-state.cpp, non-deterministic.cpp) over a memory model that keeps its own invariant.
pub mod Lawful
pub mod Formed
pub mod Kept
pub mod Instructions
pub mod States
pub mod Causes
pub mod Runs
pub mod Models
pub mod Programs
mod Examples
