-- ===== src/Compiler.antt =====
-- vm/compiler.cpp: `Compiler::compile` behind the parser: the globals, scope tracking, code generation.
mod Tests
use mathlib.Core.Option.{none-ne-some}
use marius.Local.{map_get}
use marius.Base.{ℕ, ◌≡◌, ◌≢◌, refl, Bool, Option, none, some, List, [], codes, inl, inr}
use marius.Ast.{Bytes, ArgMap, Scope}
use marius.Codegen.State.{Analysis, Code}
use marius.Codegen.Drive.{compile_top}
use marius.Codegen.Layout.Program.{CodeReads, compile_top-CodeReads}
use marius.Codegen.Layout.Tree.{ScopeCovered}
use marius.Tracking.{new_tracker, analysis}
use marius.Tracking.Names.{assign, find}
use marius.Tracking.Sound.{IsSound}
use marius.Tracking.Visit.{calculate_locals, found}
use marius.Tracking.Identities.{ScopeIds}
use marius.Tracking.Tree.{HasGlobals, scope_self, accept_scope-Run}

unfoldable pub globals : ArgMap
unfolding assign
globals = assign (codes "Moment") 13 (
    assign (codes "Dir") 12 (
      assign (codes "List") 11 (
        assign (codes "Exception") 10 (
          assign (codes "NoMethodError") 9 (
            assign (codes "ArgumentError") 8 (
              assign (codes "Trait") 7 (
                assign (codes "sys") 6 (
                  assign (codes "Integer") 5 (
                    assign (codes "Dictionary") 4 (
                      assign (codes "Importer") 3 (
                        assign (codes "Class") 2
                          (assign (codes "io") 1 (assign (codes "Object") 0 [])))))))))))))

abbrev pub generate : Bytes → Scope → Option Analysis → Option Code
generate name top none = none
generate name top (some an) = compile_top an name top

unfoldable pub compile : Bytes → Scope → Option Code
unfolding calculate_locals globals compile_top
compile name top = generate name top (calculate_locals globals top)

pub globals-HasGlobals : HasGlobals globals
unfolding globals find assign
globals-HasGlobals = record { importer = λ e. cc; trait = λ e. cc; dictionary = λ e. cc }

new_tracker-IsSound : (imports : ℕ → Bool) → IsSound imports new_tracker
unfolding map_get
new_tracker-IsSound imports = record {
  owned = λ p l e. cc;
  mapped = λ id p e. absurd (none-ne-some p e);
  imported = λ id p k e. absurd (none-ne-some p e);
  scope = tt;
  stack = tt;
}

-- Scope tracking comes to an end, and gives every node of the program the local that the code
-- generator asks for.
pub calculate_locals-ScopeCovered :
    (imports : ℕ → Bool) (globals : ArgMap) (top : Scope)
    → HasGlobals globals
    → ScopeIds imports top
    → scope_self top ≢ none
    → (an : Analysis) × (calculate_locals globals top ≡ some an) × ScopeCovered ⊥ an top
unfolding calculate_locals
calculate_locals-ScopeCovered imports globals top has ids self =
    let r =
      accept_scope-Run imports globals has top new_tracker ids (new_tracker-IsSound imports)
        (λ e. absurd (self e)) in
    (
      analysis r.after,
      rw (calculate_locals, r.ran) refl,
      r.passes.covers r.after r.passes.sound (λ id there. there),
    )

-- A program whose nodes are distinct, whose top has a `self`, and whose default values need no local,
-- is compiled: no assert fails and no null pointer is met on the way, and the code and all the codes
-- in it are whole instructions.
pub compile-CodeReads :
    (imports : ℕ → Bool) (name : Bytes) (top : Scope)
    → ScopeIds imports top
    → scope_self top ≢ none
    → (c : Code) × (compile name top ≡ some c) × CodeReads c
unfolding compile
compile-CodeReads imports name top ids self =
    let (an, ran, covered) =
      calculate_locals-ScopeCovered imports globals top globals-HasGlobals ids self in
    let (c, made, reads) = compile_top-CodeReads an name top covered in
    (c, rw (compile, ran) made, reads)
