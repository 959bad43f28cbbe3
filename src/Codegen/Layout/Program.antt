-- ===== src/Codegen/Layout/Program.antt =====
-- vm/compiler.cpp: the code of a program, read by the loop that the disassembler and the optimiser
-- run over it.
use marius.Base.{ℕ, ◌≡◌, refl, ap, Option, some, List, [], length, false, codes, arith}
use mathlib.Core.List.{[]}
use marius.Ast.{Bytes, Scope}
use marius.Instruction.{Opcode}
use marius.Instruction.Stream.{read, read-Fits}
use marius.Codegen.State.{State, Code, Codes, code, end, cons, new_state, Analysis}
use marius.Codegen.Drive.{top_code, compile_top, driven_scope}
use marius.Codegen.Defs.{to_code}
use marius.Codegen.Layout.Rules.{CodeFits, CodesFit, After, stops, goes}
use marius.Codegen.Layout.Defs.{drive_scope-Keeps, new_state-IsLaidOut, to_code-CodeFits}
use marius.Codegen.Layout.Tree.{ScopeCovered, driven_scope-Keeps}

-- The reader finds a whole number of instructions in a code and in all the codes in it.
abbrev mutual
  pub CodeReads : Code → Type 0
  CodeReads (code info cs) =
      ((ops : List Opcode) × (read (length info.instructions) info.instructions ≡ some ops))
      × CodesRead cs

  pub CodesRead : Codes → Type 0
  CodesRead end = Unit
  CodesRead (cons c cs) = CodeReads c × CodesRead cs

mutual
  CodeFits-CodeReads : (c : Code) → CodeFits c → CodeReads c
  CodeFits-CodeReads (code info cs) h =
      ((h.0.0, read-Fits (length info.instructions) h.0.1 (omega arith)), CodesFit-CodesRead cs h.1)

  CodesFit-CodesRead : (cs : Codes) → CodesFit cs → CodesRead cs
  CodesFit-CodesRead end h = tt
  CodesFit-CodesRead (cons c cs) h = (CodeFits-CodeReads c h.0, CodesFit-CodesRead cs h.1)

After-returns :
    {A : Type 0} {P : State → Type 0} {r : Option (A × State)}
    → After ⊥ P r
    → (a : A) × (s : State) × (r ≡ some (a, s)) × P s
After-returns (stops h) = absurd h
After-returns (goes {a = a} {s = s} h) = (a, s, refl, h)

-- Where every node that needs a local has one, the compiler produces a code, and it and the codes
-- of its methods, lambdas, classes and traits are whole instructions from the first byte to the last.
pub compile_top-CodeReads :
    (an : Analysis) (name : Bytes) (top : Scope)
    → ScopeCovered ⊥ an top
    → (c : Code) × (compile_top an name top ≡ some c) × CodeReads c
unfolding compile_top
compile_top-CodeReads an name top h =
    let sc = driven_scope an top in
    let (a, s, ran, laid) = After-returns (
      (drive_scope-Keeps an sc (driven_scope-Keeps ⊥ an top h) (length (an.scope_locals sc.meta.id))
          []).run
        [] (new_state name false) (new_state-IsLaidOut name false)) in
    let cov : ℕ = length (an.closed_locals sc.meta.id) in
    let main = to_code (codes "__main__") [] 0 cov false s in
    (
      main,
      ap (top_code cov) ran,
      CodeFits-CodeReads main (to_code-CodeFits (codes "__main__") [] 0 cov false s laid),
    )
