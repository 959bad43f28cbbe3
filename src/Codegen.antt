-- ===== src/Codegen.antt =====
-- vm/ast.cpp, vm/ast.hpp: code generation. `State` is the buffer under construction with its tables,
-- `Values`, `Sends`, `Control` and `Defs` hold the nodes' `drive` functions over those of their
-- parts, and `Drive` ties them into one recursion.
pub mod State
pub mod Values
pub mod Sends
pub mod Control
pub mod Defs
pub mod Drive
pub mod Layout
mod Tests
