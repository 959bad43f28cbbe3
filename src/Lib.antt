-- ===== src/Lib.antt =====
-- marius: a small object language with a parser, a compiler to byte code and a virtual machine.
--
-- The parser (vm/parser.cpp, vm/parser.lm) builds a tree of nodes (vm/ast.hpp). Scope tracking
-- (vm/scope_tracker.cpp) gives every variable of a scope a register or a place in a closure
-- (vm/local.hpp). Compiler::compile (vm/compiler.cpp) then lets every node put its instructions into
-- a buffer (Node::drive, vm/ast.cpp), and the buffer becomes a Code (vm/code.hpp), which the machine
-- (vm/vm.cpp) runs over lists, tuples, closures and tables of attributes and methods.
--
-- The files, and the code that they model:
--   Base, Base/Tests, Base/Lists, Base/Slices, Base/Int, Base/Loops: shared names, lemmas, C's
--     integers, and loops whose body may return.
--   Instruction: the opcodes (InstructionTypes in vm/code.hpp), their lengths (insn_len in
--     vm/compiler.cpp) and the name table (vm/code.cpp). Instruction/Stream: byte code as a sequence
--     of whole instructions, and its reader.
--   Local: Local and LocalMap (vm/local.hpp). Locals are shared, so they stand in a heap.
--   Ast: the node classes (vm/ast.hpp). A node's identity is a number, since LocalMap goes by pointers.
--   Codegen/State: ast::State (vm/ast.hpp, vm/ast.cpp), with one function per operation. An operation
--     maps a state to a result and a state, or to none where an assert or a null pointer ends the
--     program. Bytes keep their conversion to uint8_t (`% 2 ^ 8`).
--   Codegen/Values, Codegen/Sends, Codegen/Control, Codegen/Defs: one `drive_...` for the drive of
--     each node class (vm/ast.cpp). They take what the children do as functions.
--   Codegen/Drive: the recursion over the tree, and Compiler::compile behind scope tracking.
--   Codegen/Layout and its children: a rule for each operation and each node, by which the generated
--     code is whole instructions and labels are operands.
--   Tracking: ScopeTracker (vm/scope_tracker.cpp), one function per visit; a step maps a tracker to a
--     tracker, or to none where an assert fails. Tracking/Names: the maps by String::compare
--     (vm/string_map.hpp, vm/string.cpp). Tracking/Visit: Node::accept (vm/ast.cpp) over the tree.
--     Tracking/Sound, Steps, Visits, Searches, Globals, Scopes, Identities, Tree: what the locals keep to,
--     and that each visit keeps to it. Tracking/Ready, Tracking/Registers: the registers of a scope.
--   Parsing: ParserState (vm/parser_state.cpp), one function per action. Parsing/State: its fields, with
--     the number of nodes made, which numbers the next one. Parsing/Actions: the actions. Parsing/Steps:
--     any sequence of them, which stands for what the generated parser does. Parsing/Built, Kept, Scoped,
--     Performs, Trees, Program: what the actions keep to, up to the compiled program.
--   Compiler: Compiler::compile (vm/compiler.cpp) behind the parser.
--   Optimizer, Optimizer/Same: Compiler::optimize (vm/compiler.cpp).
--   Objects/List, Objects/Tuple, Objects/LTuple, Objects/Closure: vm/list.cpp, vm/tuple.cpp,
--     vm/ltuple.hpp, vm/closure.hpp. Closures are shared, so they stand in a store.
--   Table, Table/Bucket, Table/Laws, Table/Listing: Bindings (vm/bindings.cpp), whose code
--     MethodTable (vm/method_table.cpp) repeats. Table/Iteration: MethodTable::Iterator
--     (vm/method_table.hpp) and the loop over it.
--   Classes, Classes/Lookup, Classes/Descent, Classes/Traits, Classes/Required: lookup and ancestry of
--     classes, Class::uses_trait and Class::check_traits (vm/class.cpp). Classes are shared, so they stand
--     in a heap.
--   Disassembler: the walk of Disassembler::print (vm/disassembler.cpp).
--   Scanner/Scratch, Scanner/Contents: ScratchBuffer (vm/buffer.hpp).
--   Scanner/Input: Parser::next_str and next_c (vm/parser.cpp), over a file as the bytes that it has still
--     to give. Scanner/Token: vm/parser_tokens.h. Scanner/Tokens: the functions that match one token.
--     Scanner/Next: keywords and Parser::next_token. A step of the scanner is none where it leaves its
--     memory or a table.
--   Scanner/Reads, Gathers, Words, Blanks, Quoted, Matches, Keywords, Identifiers: what is scanned of which text.
--   Machine, Machine/Interface: VM::run (vm/vm.cpp). A step gives the next frame, a reply to the caller,
--     or the end of the program. What values are, and the calls of other methods, are the record Host.
--   Machine/Keywords: VM::reorg_args, with the registers as a function of their number.
--   Simulation and its children: expressions without calls (Fragment), the bytes that they become
--     (Emits, Generated), and the run over these bytes (Runs, Correct, Lambda).
--   The modules called Tests run the definitions on concrete values.
--
-- Bounds and fuel: Local::idx follows the owners of a local on fuel, one more than there are locals,
-- which an acyclic chain cannot exceed. The reader, the disassembler and the
-- optimiser take the length of the code as fuel; every instruction has at least one byte. Walks along superclasses take one unit for each class
-- in the heap up to where they begin, as a superclass is made before its subclass. A run of the
-- machine takes its turns as fuel; where a run ends, the theorem gives the fuel. The loop over an
-- iterator takes its turns, too. A loop of the scanner takes the bytes that are held and those of the
-- file, since each turn passes one. All other functions recur on their data.
--
-- Parameters: the hash of a name (MurmurHash3 is third-party code), what new memory holds, what stands
-- behind the code's memory, which the optimiser's test reads, and behind the buckets of a table, which
-- its iterator reads. The code generator takes what scope tracking has found (Analysis) as an argument;
-- Compiler puts the two together.
--
-- Not modelled: method dispatch, the loop that feeds the generated parser, the text that the
-- disassembler prints for an instruction, code files, the C back end, the collector, and input and
-- output. The generated parser and the protobuf classes are other programs' output.
pub mod Base
pub mod Instruction
pub mod Local
pub mod Ast
pub mod Codegen
pub mod Tracking
pub mod Compiler
pub mod Objects
pub mod Table
pub mod Optimizer
pub mod Machine
pub mod Scanner
pub mod Parsing
pub mod Classes
pub mod Simulation
pub mod Disassembler
