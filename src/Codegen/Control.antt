-- ===== src/Codegen/Control.antt =====
-- vm/ast.cpp: `drive` of the nodes that jump.
use marius.Base.{ℕ, ◌+◌, ◌-◌, Bool, Option, none, some, [], ◌∷◌, codes, if◌then◌else◌}
use marius.Ast.{Bytes, Meta}
use marius.Instruction.{Opcode}
use marius.Codegen.State.{
  M, ◌>>=◌, ◌>>◌, instr, instr_label, label, set_label, set_label_abs, string, mark, local_of,
  set_local, Analysis,
}
use marius.Codegen.Values.{Drive}

unfoldable pub drive_seq : Drive → Drive → Drive
drive_seq parent child t = do parent t; child t

-- `lambda_p()`
unfoldable pub lambda_p : M Bool
lambda_p s = some (s.lambda, s)

unfoldable pub drive_return : Meta → Drive → Drive
drive_return m val t = do
  mark m
  val t
  lambda ← lambda_p
  if lambda then instr Opcode.lret (t ∷ []) else instr Opcode.ret (t ∷ [])

-- JMPB's operand is the distance from itself back to the condition.
unfoldable pub drive_while : Meta → Drive → Drive → Drive
drive_while m cond body t = do
  mark m
  top ← label
  cond t
  l ← instr_label Opcode.jmpif (t ∷ [])
  body t
  here ← label
  instr Opcode.jmpb ((here + 1 - top - 1) ∷ [])
  set_label l

-- The arms of a conditional; `none` is the null pointer of a missing `else`.
abbrev pub drive_else : Option Drive → ℕ → Drive
drive_else none l t = set_label l
drive_else (some ebody) l t = do e ← instr_label Opcode.jmpf []; set_label l; ebody t; set_label e

unfoldable pub drive_if_cond : Meta → Drive → Drive → Option Drive → Drive
drive_if_cond m recv body ebody t = do
  mark m
  recv t
  l ← instr_label Opcode.jmpif (t ∷ [])
  body t
  drive_else ebody l t

unfoldable pub drive_unless : Meta → Drive → Drive → Drive
drive_unless m recv body t = do
  mark m
  recv t
  l ← instr_label Opcode.jmpit (t ∷ [])
  body t
  set_label l

unfoldable pub drive_and : Meta → Drive → Drive → Drive
drive_and m left right t = do
  mark m
  left t
  l ← instr_label Opcode.jmpif (t ∷ [])
  right t
  set_label l

module _ (an : Analysis) where
  -- The handler: behind a test of the exception's type, if there is one.
  abbrev pub drive_handler : Meta → Option Bytes → Option Drive → Drive → Drive
  drive_handler m (some id) (some type) handler t = do
    type (t + 1)
    instr Opcode.movr ((t + 2) ∷ t ∷ [])
    i ← string (codes "===")
    instr Opcode.send ((t + 1) ∷ i ∷ (t + 1) ∷ 1 ∷ [])
    p ← instr_label Opcode.jmpif ((t + 1) ∷ [])
    l ← local_of an m
    set_local an l t
    handler t
    a ← instr_label Opcode.jmpf []
    set_label p
    instr Opcode.raise (t ∷ [])
    set_label a
  drive_handler m none type handler t = handler t
  drive_handler m (some id) none handler t = handler t

  unfoldable pub drive_try : Meta → Drive → Option Bytes → Option Drive → Drive → Drive
  drive_try m body id type handler t = do
    mark m
    h ← instr_label Opcode.rege (t ∷ [])
    body t
    instr Opcode.pope []
    b ← instr_label Opcode.jmpf []
    set_label_abs h
    drive_handler m id type handler t
    set_label b
