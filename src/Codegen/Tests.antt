-- ===== src/Codegen/Tests.antt =====
-- vm/ast.cpp: a program compiled, and the theorems at it. The program is
--   x = 300; while x; x = not x; end; def m(a: 1); a; end
use marius.Base.{
  subst, get_or, ℕ, ◌≡◌, refl, true, Option, none, some, List, [], ◌∷◌, codes, get_elem?,
}
use marius.Base.Int.{ℤ, pos}
use marius.Ast.{Meta, Node, Scope, scope, no_more, argument, null, just}
use marius.Instruction.{opcode}
use marius.Local.{Local, LocalType, new_local, idx, reg_p, depth, map_get}
use marius.Codegen.State
use marius.Codegen.State.{Analysis, Code, code, cons, end}
use marius.Codegen.Values
use marius.Codegen.Control
use marius.Codegen.Defs
use marius.Codegen.Drive.{compile_top}
use marius.Codegen.Layout.Locals.{PointerFits, NodeFits}
use marius.Codegen.Layout.Tree.{ScopeCovered}
use marius.Codegen.Layout.Program.{CodeReads, compile_top-CodeReads}

abbrev at : ℕ → ℕ → Meta
at id line = record { id = id; line = line }

abbrev x : List ℕ
x = codes "x"

abbrev program : Scope
program = scope (at 0 1) none no_more (
    Node.seq (at 0 1) (Node.assign (at 1 1) x (Node.number (at 0 1) (pos 300))) (
      Node.seq (at 0 2)
        (Node.while (at 0 2) (Node.named (at 2 2) x)
          (Node.assign (at 3 2) x (Node.not (at 0 2) (Node.named (at 4 2) x))))
        (Node.def (at 0 3) none (codes "m")
          (scope (at 9 3) none
            (argument (at 5 3) (codes "a") null 0 (just (Node.number (at 0 3) (pos 1))) no_more)
            (Node.named (at 6 3) (codes "a")))
          ((codes "a", 0) ∷ []))))

-- Local 0 is `x` in register 0, local 1 is the argument `a`.
abbrev analysis : Analysis
analysis = record {
  heap = new_local ∷ record new_local { type = LocalType.argument; set_idx = true } ∷ [];
  lm = (1, 0) ∷ (2, 0) ∷ (3, 0) ∷ (4, 0) ∷ (5, 1) ∷ (6, 1) ∷ [];
  scope_locals = λ id. (x, pos 0) ∷ [];
  closed_locals = λ id. [];
  self_sends = λ id. [];
}

running : Unit {0}
unfolding opcode reg_p idx depth map_get State.need State.push State.push_all State.instr
    State.string State.code_index State.keyword State.label State.set_label State.instr_label
    State.mark State.movr State.load_register State.local_at State.local_idx State.local_of
    State.set_local State.get_local Values.drive_number Values.drive_named Values.drive_assign
    Values.drive_not Control.drive_seq Control.drive_while Defs.drive_def Defs.drive_method
    Defs.drive_prologue Defs.drive_body Defs.drive_scope Defs.drive_arguments Defs.drive_argument
    Defs.sub_state Defs.to_code compile_top Defs.outer_labels
running = tt

abbrev instructions : Option Code → Option (List ℕ)
instructions none = none
instructions (some (code info cs)) = some info.instructions

abbrev method_instructions : Option Code → Option (List ℕ)
method_instructions (some (code info (cons (code i c) cs))) = some i.instructions
method_instructions _ = none

-- MOVI32, MOVR; the loop, whose JMPIF passes the JMPB; the method's SELF, LOADS, LOADC, SEND.
program-instructions :
    instructions (compile_top analysis (codes "f") program)
    ≡ some (
        1 ∷ 1 ∷ 44 ∷ 1 ∷ 0 ∷ 0 ∷ 2 ∷ 0 ∷ 1 ∷ 2 ∷ 1 ∷ 0 ∷ 18 ∷ 1 ∷ 11 ∷ 2 ∷ 1 ∷ 0 ∷ 26 ∷ 1 ∷ 1 ∷ 2
        ∷ 0 ∷ 1 ∷ 16 ∷ 15 ∷ 14 ∷ 1 ∷ 12 ∷ 2 ∷ 0 ∷ 13 ∷ 3 ∷ 0 ∷ 6 ∷ 1 ∷ 1 ∷ 1 ∷ 2 ∷ [])
unfolding running
program-instructions = refl

-- The operand of JMPHA, the third byte, stays 0: the default value is computed on every call.
method-instructions :
    method_instructions (compile_top analysis (codes "f") program)
    ≡ some (30 ∷ 0 ∷ 0 ∷ 0 ∷ 2 ∷ 1 ∷ 2 ∷ 0 ∷ 2 ∷ 2 ∷ 2 ∷ 0 ∷ 11 ∷ 2 ∷ [])
unfolding running
method-instructions = refl

abbrev buffer_of_one : State.State
buffer_of_one = record (State.new_state [] true) { buffer = 7 ∷ [] }

-- The label of a default value, set on the outer state, is a write of 255 one past its buffer's end.
written_outside :
    Defs.outer_label (some (λ first. State.push 1)) buffer_of_one
    ≡ some (tt, record buffer_of_one { outside = (1, 255) ∷ [] })
unfolding State.label State.set_label
written_outside = refl

module _ (p : ℕ) (l : Local) (i : ℤ) (here : get_elem? analysis.heap p ≡ some l)
    (at' : idx 3 analysis.heap p ≡ some i) where
  pointer_fits : PointerFits ⊥ analysis p
  pointer_fits = record { there = λ e. cc; indexed = λ e. cc }

  may_fit :
      (id : ℕ)
      → map_get analysis.lm id ≡ some p
      → (q : ℕ) → map_get analysis.lm id ≡ some q
      → PointerFits ⊥ analysis q
  may_fit id e q f = let same : p ≡ q = cc in subst (PointerFits ⊥ analysis) same pointer_fits

  node_fits : (id : ℕ) → map_get analysis.lm id ≡ some p → NodeFits ⊥ analysis id
  node_fits id e = record { mapped = λ n. cc; pointer = may_fit id e }

-- Every node of the program that needs a local has one.
program-ScopeCovered : ScopeCovered ⊥ analysis program
unfolding map_get idx
program-ScopeCovered =
    let x_fits = node_fits 0 new_local (pos 0) refl refl in
    let x_may = may_fit 0 new_local (pos 0) refl refl in
    let arg = get_or analysis.heap 1 new_local in
    (
      tt,
      tt,
      (
        (x_fits 1 refl, tt),
        (
          (x_may 2 refl, (x_fits 3 refl, x_may 4 refl)),
          (
            tt,
            (node_fits 1 arg (pos 0) refl refl 5 refl, tt, tt, tt),
            may_fit 1 arg (pos 0) refl refl 6 refl,
          ),
        ),
      ),
    )

compile_top-CodeReads_example :
    (c : Code) × (compile_top analysis (codes "f") program ≡ some c) × CodeReads c
compile_top-CodeReads_example =
    compile_top-CodeReads analysis (codes "f") program program-ScopeCovered
