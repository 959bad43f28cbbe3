-- ===== src/Disassembler/Tests.antt =====
-- A walk over two instructions.
use marius.Base.{ℕ, ◌≡◌, refl, some, List, [], ◌∷◌}
use marius.Instruction.{Opcode, opcode, to_opcode}
use marius.Objects.LTuple
use marius.Objects.LTuple.{LTuple}
use marius.Disassembler.{line, insn, print, print_from, print_line, print_one}

-- `R(1) := nil` and `<- R(1)`, of line 7.
abbrev code : List ℕ
code = opcode Opcode.movn ∷ 1 ∷ opcode Opcode.ret ∷ 1 ∷ []

abbrev lines : LTuple ℕ
lines = record { elems = 0 ∷ 7 ∷ 4 ∷ []; size = 3 }

shown : print lines code ≡ some (line 7 ∷ insn 0 Opcode.movn ∷ insn 2 Opcode.ret ∷ [])
unfolding print_from print_line print_one opcode to_opcode LTuple.at
shown = refl
