-- ===== src/Optimizer/Tests.antt =====
-- Runs of the optimiser.
use marius.Base.{ℕ, ◌+◌, ◌≡◌, refl, some, List, [], ◌∷◌, get_or, length}
use marius.Instruction.{Opcode, opcode, to_opcode, insn_len}
use marius.Instruction.Stream.{Fits, done, more}
use marius.Optimizer.{optimize, optimize_from, moves_back}
use marius.Optimizer.Same.{Registers, Others, execute, write, optimize-execute}

-- MOVR 0 1; MOVR 1 0; MOVR 0 1; NOT 2 0
abbrev program : List ℕ
program = 2 ∷ 0 ∷ 1 ∷ 2 ∷ 1 ∷ 0 ∷ 2 ∷ 0 ∷ 1 ∷ 26 ∷ 2 ∷ 0 ∷ []

abbrev nothing : ℕ → ℕ
nothing i = 0

abbrev others : Others ℕ
others op bytes r = write r (get_or bytes 1 0) (r (get_or bytes 2 0) + 1)

optimized : optimize nothing program ≡ some (2 ∷ 0 ∷ 1 ∷ 26 ∷ 2 ∷ 0 ∷ [])
unfolding optimize optimize_from moves_back to_opcode opcode insn_len
optimized = refl

abbrev program_ops : List Opcode
program_ops = Opcode.movr ∷ Opcode.movr ∷ Opcode.movr ∷ Opcode.not ∷ []

program-Fits : Fits program_ops program
unfolding opcode insn_len
program-Fits =
    more (0 ∷ 1 ∷ []) (2 ∷ 1 ∷ 0 ∷ 2 ∷ 0 ∷ 1 ∷ 26 ∷ 2 ∷ 0 ∷ []) refl
      (more (1 ∷ 0 ∷ []) (2 ∷ 0 ∷ 1 ∷ 26 ∷ 2 ∷ 0 ∷ []) refl
        (more (0 ∷ 1 ∷ []) (26 ∷ 2 ∷ 0 ∷ []) refl (more (2 ∷ 0 ∷ []) [] refl done refl) refl) refl)
      refl

abbrev registers : Registers ℕ
registers i = i

optimize-execute_example :
    (out : List ℕ) × (optimize nothing program ≡ some out)
    × ((last : Registers ℕ) × (execute others (length program) program registers ≡ some last)
        × (execute others (length out) out registers ≡ some last))
optimize-execute_example =
    optimize-execute others nothing program_ops program registers program-Fits
