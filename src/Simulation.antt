-- ===== src/Simulation.antt =====
-- vm/ast.cpp against vm/vm.cpp: the machine runs the generated code of expressions without calls to
-- their values.
pub mod Fragment
pub mod Emits
pub mod Generated
pub mod Runs
pub mod Correct
pub mod Lambda
mod Tests
