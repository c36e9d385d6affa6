-- ===== src/Term.antt =====
-- crates/term: the terminal. Ansi is the parser of its byte stream, Screen the grid of cells.
pub mod Ansi
pub mod Screen
