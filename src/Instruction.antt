-- ===== src/Instruction.antt =====
-- vm/code.hpp, vm/compiler.cpp, vm/disassembler.cpp: the byte-code instructions and their lengths.
pub mod Stream
use marius.Base.{ℕ, ◌<◌, ◌≡◌, refl, arith, Option, none, some, List, [], ◌∷◌, ◌==◌, if◌then◌else◌}
use Prim.Native.String.{String}

pub data Opcode : Type 0 where
  movi8 movi32 movr movn movt movf send send_kw lattr iva ivr ret loads loadc self : Opcode
  jmpf jmpb jmpit jmpif rege pope lvar svar sendi sendi_kw raise not tuple list lret jmpha : Opcode

-- The value of the enumerator, which is the byte in the instruction buffer.
unfoldable pub opcode : Opcode → ℕ
opcode Opcode.movi8 = 0
opcode Opcode.movi32 = 1
opcode Opcode.movr = 2
opcode Opcode.movn = 3
opcode Opcode.movt = 4
opcode Opcode.movf = 5
opcode Opcode.send = 6
opcode Opcode.send_kw = 7
opcode Opcode.lattr = 8
opcode Opcode.iva = 9
opcode Opcode.ivr = 10
opcode Opcode.ret = 11
opcode Opcode.loads = 12
opcode Opcode.loadc = 13
opcode Opcode.self = 14
opcode Opcode.jmpf = 15
opcode Opcode.jmpb = 16
opcode Opcode.jmpit = 17
opcode Opcode.jmpif = 18
opcode Opcode.rege = 19
opcode Opcode.pope = 20
opcode Opcode.lvar = 21
opcode Opcode.svar = 22
opcode Opcode.sendi = 23
opcode Opcode.sendi_kw = 24
opcode Opcode.raise = 25
opcode Opcode.not = 26
opcode Opcode.tuple = 27
opcode Opcode.list = 28
opcode Opcode.lret = 29
opcode Opcode.jmpha = 30

-- The enumerators.
abbrev pub opcodes : List Opcode
opcodes =
    Opcode.movi8 ∷ Opcode.movi32 ∷ Opcode.movr ∷ Opcode.movn ∷ Opcode.movt ∷ Opcode.movf
    ∷ Opcode.send ∷ Opcode.send_kw ∷ Opcode.lattr ∷ Opcode.iva ∷ Opcode.ivr ∷ Opcode.ret
    ∷ Opcode.loads ∷ Opcode.loadc ∷ Opcode.self ∷ Opcode.jmpf ∷ Opcode.jmpb ∷ Opcode.jmpit
    ∷ Opcode.jmpif ∷ Opcode.rege ∷ Opcode.pope ∷ Opcode.lvar ∷ Opcode.svar ∷ Opcode.sendi
    ∷ Opcode.sendi_kw ∷ Opcode.raise ∷ Opcode.not ∷ Opcode.tuple ∷ Opcode.list ∷ Opcode.lret
    ∷ Opcode.jmpha ∷ []

abbrev with_value : ℕ → List Opcode → Option Opcode
with_value b [] = none
with_value b (op ∷ ops) = if opcode op == b then some op else with_value b ops

-- The cast of a byte to the enumeration: the enumerator with that value, and `none` for a byte that
-- no enumerator has.
unfoldable pub to_opcode : ℕ → Option Opcode
unfolding opcode
to_opcode b = with_value b opcodes

-- `insn_len` of the compiler.
unfoldable pub insn_len : Opcode → ℕ
insn_len Opcode.movr = 3
insn_len Opcode.movn = 2
insn_len Opcode.movt = 2
insn_len Opcode.movf = 2
insn_len Opcode.movi8 = 3
insn_len Opcode.loadc = 3
insn_len Opcode.movi32 = 6
insn_len Opcode.sendi = 5
insn_len Opcode.sendi_kw = 6
insn_len Opcode.send = 5
insn_len Opcode.send_kw = 6
insn_len Opcode.iva = 3
insn_len Opcode.ivr = 3
insn_len Opcode.lattr = 4
insn_len Opcode.loads = 3
insn_len Opcode.lret = 2
insn_len Opcode.ret = 2
insn_len Opcode.self = 2
insn_len Opcode.jmpf = 2
insn_len Opcode.jmpb = 2
insn_len Opcode.jmpif = 3
insn_len Opcode.jmpit = 3
insn_len Opcode.jmpha = 3
insn_len Opcode.rege = 3
insn_len Opcode.pope = 1
insn_len Opcode.lvar = 4
insn_len Opcode.svar = 4
insn_len Opcode.raise = 2
insn_len Opcode.not = 3
insn_len Opcode.tuple = 4
insn_len Opcode.list = 4

-- `InstructionNames`, as the table stands.
abbrev pub instruction_names : List String
instruction_names =
    "MOVI8" ∷ "MOVI32" ∷ "MOVR" ∷ "MOVN" ∷ "MOVT" ∷ "MOVF" ∷ "SEND" ∷ "SEND_KW" ∷ "LATTR" ∷ "IVA"
    ∷ "IVR" ∷ "RET" ∷ "LOADS" ∷ "LOADC" ∷ "SELF" ∷ "JMPF" ∷ "JMPB" ∷ "JMPIT" ∷ "JMPIF" ∷ "REGE"
    ∷ "POPE" ∷ "LVAR" ∷ "SVAR" ∷ "LAMBDA" ∷ "SENDI" ∷ "RAISE" ∷ "NOT" ∷ "TUPLE" ∷ "LIST" ∷ "LRET"
    ∷ "JMPHA" ∷ []

pub to_opcode-opcode : (op : Opcode) → to_opcode (opcode op) ≡ some op
unfolding to_opcode opcode
to_opcode-opcode Opcode.movi8 = refl
to_opcode-opcode _ = refl

pub opcode-lt : (op : Opcode) → opcode op < 256
unfolding opcode
opcode-lt Opcode.movi8 = omega arith
opcode-lt _ = omega arith
