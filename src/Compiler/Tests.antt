-- ===== src/Compiler/Tests.antt =====
-- A program compiled from its tree:
--   import a; x = 1; f = { x = self }; def m(n: 1); n; end
use marius.Base.{[], ◌∷◌, ℕ, ◌≡◌, refl, Bool, ◌==◌, none, some, codes}
use marius.Base.Int.{pos}
use marius.Ast.{Meta, Node, Scope, scope, no_more, argument, null, just}
use marius.Codegen.Layout.Program.{CodeReads}
use marius.Codegen.Layout.Tree.{ScopeCovered}
use marius.Codegen.State.{Code, Analysis}
use marius.Tracking.Visit.{calculate_locals}
use marius.Tracking.Identities.{ScopeIds}
use marius.Compiler.{
  compile, globals, globals-HasGlobals, compile-CodeReads, calculate_locals-ScopeCovered,
}

abbrev at : ℕ → Meta
at id = record { id = id; line = 1 }

abbrev body : Node
body = Node.seq (at 2) (Node.import (at 3) (codes "a") (codes "a")) (
    Node.seq (at 2) (Node.assign (at 4) (codes "x") (Node.number (at 5) (pos 1))) (
      Node.seq (at 2)
        (Node.assign (at 6) (codes "f") (
          Node.lambda (at 7)
            (scope (at 8) none no_more (Node.assign (at 9) (codes "x") (Node.self (at 10))))))
        (Node.def (at 11) none (codes "m")
          (scope (at 12) (some 13)
            (argument (at 14) (codes "n") null 0 (just (Node.number (at 15) (pos 1))) no_more)
            (Node.named (at 16) (codes "n")))
          ((codes "n", 0) ∷ []))))

abbrev program : Scope
program = scope (at 0) (some 1) no_more body

-- The import is the only node of its kind.
abbrev imports : ℕ → Bool
imports id = id == 3

program-ScopeIds : ScopeIds imports program
program-ScopeIds = (
  refl,
  tt,
  (
    refl,
    ((refl, tt), ((refl, (tt, tt, (refl, refl))), (refl, (refl, tt, (λ an may. tt), tt), refl))),
  ),
)

compile-CodeReads_example : (c : Code) × (compile (codes "f") program ≡ some c) × CodeReads c
compile-CodeReads_example = compile-CodeReads imports (codes "f") program program-ScopeIds (λ e. cc)

calculate_locals-ScopeCovered_example :
    (an : Analysis) × (calculate_locals globals program ≡ some an) × ScopeCovered ⊥ an program
calculate_locals-ScopeCovered_example =
    calculate_locals-ScopeCovered imports globals program globals-HasGlobals program-ScopeIds
      (λ e. cc)
