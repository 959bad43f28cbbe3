-- ===== src/Optimizer.antt =====
-- vm/compiler.cpp: `Compiler::optimize`, which drops a move that undoes the move in front of it.
pub mod Same
mod Tests
use marius.Base.{
  ℕ, zero, suc, ◌+◌, Bool, true, false, ◌&&◌, Option, none, some, List, [], ◌∷◌, ◌++◌, ◌==◌, length,
  take, drop, get_or, if◌then◌else◌,
}
use marius.Instruction.{Opcode, opcode, to_opcode, insn_len}

-- `insns[ip + k]` at the current position. `past` is what stands behind the buffer, which the test
-- of the last instructions reads.
abbrev pub peek : (past : ℕ → ℕ) → List ℕ → ℕ → ℕ
peek past [] k = past k
peek past (b ∷ bs) zero = b
peek past (b ∷ bs) (suc k) = peek past bs k

-- The test of the case MOVR: the next instruction moves back.
unfoldable pub moves_back : (ℕ → ℕ) → List ℕ → Bool
moves_back past rest =
    (peek past rest 3 == opcode Opcode.movr)
    && (peek past rest 4 == peek past rest 2)
    && (peek past rest 5 == peek past rest 1)

abbrev pub is_movr : Opcode → Bool
is_movr Opcode.movr = true
is_movr _ = false

-- The copy of one instruction in front of the rest's output, unless it is skipped.
abbrev pub emit : Bool → List ℕ → Option (List ℕ) → Option (List ℕ)
emit true insn rest = rest
emit false insn none = none
emit false insn (some out) = some (insn ++ out)

-- The loop: what is left of the code and `skip_next`, and the code that is put out. `none` is a byte
-- that is no opcode. The fuel is the length of the code.
unfoldable pub optimize_from : (ℕ → ℕ) → ℕ → Bool → List ℕ → Option (List ℕ)
unfolding moves_back
optimize_from past fuel skip [] = some []
optimize_from past zero skip (b ∷ bs) = none
optimize_from past (suc fuel) skip (b ∷ bs) = elim (to_opcode b) [
  | none ↦ none
  | some op ↦ emit (is_movr op && skip) (take (insn_len op) (b ∷ bs)) (
      optimize_from past fuel (is_movr op && moves_back past (b ∷ bs))
        (drop (insn_len op) (b ∷ bs)))
]

-- `optimize`, with the code that `update` stores.
unfoldable pub optimize : (ℕ → ℕ) → List ℕ → Option (List ℕ)
unfolding optimize_from
optimize past code = optimize_from past (length code) false code
