-- ===== src/Codegen/Layout.antt =====
-- vm/ast.cpp: the shape of the generated code. `Rules` has the property that every `drive` keeps, and
-- a rule for each operation of `ast::State`; the other children apply them to the nodes.
pub mod Rules
pub mod Values
pub mod Locals
pub mod Sends
pub mod Control
pub mod Defs
pub mod Tree
pub mod Program
