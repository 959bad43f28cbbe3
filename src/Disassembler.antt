-- ===== src/Disassembler.antt =====
-- vm/disassembler.cpp: the walk of `Disassembler::print` over the instructions of one code. Of what
-- is printed, the model keeps the line numbers, and the place and the opcode of each instruction.
mod Tests
use mathlib.Core.Option
use marius.Base.{
  ℕ, zero, suc, ◌+◌, ◌-◌, ◌<◌, ◌≡◌, Option, none, some, List, [], ◌∷◌, ◌++◌, ◌==◌, leb,
  if◌then◌else◌, length, drop, ◌⊎◌,
}
use marius.Instruction.{Opcode, to_opcode, insn_len}
use marius.Objects.LTuple
use marius.Objects.LTuple.{LTuple}

pub data Printed : Type 0 where
  line : ℕ → Printed
  insn : ℕ → Opcode → Printed

-- What `print_one` returns.
unfoldable pub print_one : Opcode → ℕ
print_one Opcode.movr = 3
print_one Opcode.movn = 2
print_one Opcode.movt = 2
print_one Opcode.movf = 2
print_one Opcode.movi8 = 3
print_one Opcode.loadc = 3
print_one Opcode.movi32 = 6
print_one Opcode.sendi = 5
print_one Opcode.sendi_kw = 6
print_one Opcode.send = 5
print_one Opcode.send_kw = 6
print_one Opcode.iva = 3
print_one Opcode.ivr = 3
print_one Opcode.lattr = 4
print_one Opcode.loads = 3
print_one Opcode.ret = 2
print_one Opcode.lret = 2
print_one Opcode.self = 2
print_one Opcode.jmpf = 2
print_one Opcode.jmpb = 2
print_one Opcode.jmpit = 3
print_one Opcode.jmpif = 3
print_one Opcode.jmpha = 3
print_one Opcode.rege = 3
print_one Opcode.pope = 1
print_one Opcode.lvar = 4
print_one Opcode.svar = 4
print_one Opcode.raise = 2
print_one Opcode.not = 3
print_one Opcode.tuple = 4
print_one Opcode.list = 4

-- The line in front of an instruction. The index `le` is `none` for -1; a check that fails ends the
-- program.
unfoldable pub print_line : LTuple ℕ → Option ℕ → ℕ → Option (List Printed × Option ℕ)
print_line lines none ip = some ([], none)
print_line lines (some le) ip = elim (LTuple.at lines le) [
  | none ↦ none
  | some p ↦
      if p == ip
      then elim (LTuple.at lines (suc le)) [
        | none ↦ none
        | some k ↦ some (line k ∷ [], if leb lines.size (le + 2) then none else some (le + 2))
      ]
      else some ([], some le)
]

-- The loop, at the instructions from `ip` on.
unfoldable pub print_from : ℕ → LTuple ℕ → Option ℕ → ℕ → List ℕ → Option (List Printed)
unfolding print_line print_one
print_from fuel lines le ip [] = some []
print_from zero lines le ip (b ∷ bs) = none
print_from (suc fuel) lines le ip (b ∷ bs) = elim (print_line lines le ip) [
  | none ↦ none
  | some r ↦ elim (to_opcode b) [
    | none ↦ none
    | some op ↦
        Option.map (λ (es : List Printed). r.0 ++ insn ip op ∷ es)
          (print_from fuel lines r.1 (ip + print_one op) (drop (print_one op - 1) bs))
  ]
]

-- `Disassembler::print` for the code itself.
abbrev pub print : LTuple ℕ → List ℕ → Option (List Printed)
print lines code = print_from (length code) lines (some 0) 0 code

-- The places of the instructions.
abbrev pub places : ℕ → List Opcode → List (ℕ × Opcode)
places ip [] = []
places ip (op ∷ ops) = (ip, op) ∷ places (ip + insn_len op) ops

abbrev pub instructions : List Printed → List (ℕ × Opcode)
instructions [] = []
instructions (line k ∷ es) = instructions es
instructions (insn ip op ∷ es) = (ip, op) ∷ instructions es

-- Pairs of a place and a line with the size of the code behind them.
abbrev pub IsLineTable : LTuple ℕ → ℕ → Type 0
IsLineTable lines total =
    (m : ℕ)
    → m + m < lines.size
    → (p : ℕ) × (LTuple.at lines (m + m) ≡ some p)
      × ((p ≡ total)
          ⊎ ((m + m + 2 < lines.size) × ((k : ℕ) × (LTuple.at lines (suc (m + m)) ≡ some k))))

record Showing (lines : LTuple ℕ) (m ip : ℕ) : Type 0 where
  shown : List Printed
  next : ℕ
  small : next + next < lines.size
  ran : print_line lines (some (m + m)) ip ≡ some (shown, some (next + next))
  silent : (es : List Printed) → instructions (shown ++ es) ≡ instructions es
