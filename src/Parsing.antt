-- ===== src/Parsing.antt =====
-- vm/parser_state.cpp: what the generated parser does to build the tree.
pub mod State
pub mod Actions
pub mod Steps
pub mod Built
pub mod Kept
pub mod Scoped
pub mod Performs
pub mod Trees
pub mod Program
mod Tests
