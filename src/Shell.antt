-- ===== src/Shell.antt =====
-- The shell of labs/so25lab1g16.
pub mod Outcome
pub mod Command
pub mod Parsing
pub mod Builtin
pub mod Execute
pub mod Loop
pub mod Release
mod Tests
