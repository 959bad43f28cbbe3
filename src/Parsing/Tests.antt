-- ===== src/Parsing/Tests.antt =====
-- A program built by the actions of the parser: `x = 5; import io` in line 3.
use marius.Base.{ℕ, ◌≡◌, refl, none, some, List, [], ◌∷◌, codes, inl, inr}
use marius.Base.Int.{pos}
use marius.Ast.{Meta, Node, Scope, no_more, scope}
use marius.Codegen.State.{Code}
use marius.Codegen.Layout.Program.{CodeReads}
use marius.Compiler.{compile}
use marius.Parsing.State.{ParserState, new_state}
use marius.Parsing.Steps.{Action, Reaches}
use marius.Parsing.Program.{compile-reached}

abbrev at : ℕ → Meta
at id = record { id = id; line = 3 }

abbrev five : Node
five = Node.number (at 0) (pos 5)

abbrev x_is_five : Node
x_is_five = Node.assign (at 1) (codes "x") five

abbrev import_io : Node
import_io = Node.import (at 2) (codes "a.io") (codes "io")

abbrev both : Node
both = Node.seq (at 3) x_is_five import_io

abbrev returned : Node
returned = Node.return (at 4) both

abbrev top_scope : Scope
top_scope = scope (at 6) (some 5) no_more returned

abbrev state : ℕ → ParserState
state made = record (new_state 3) { made = made }

abbrev end_state : ParserState
end_state = record (new_state 3) { made = 7; top = some top_scope }

abbrev all_held : List Node
all_held = returned ∷ both ∷ import_io ∷ x_is_five ∷ five ∷ []

reached : Reaches end_state all_held
reached =
    Reaches.act (state 5) end_state all_held (Action.set_top returned) none
      (Reaches.act (state 4) (state 5) (both ∷ import_io ∷ x_is_five ∷ five ∷ []) (Action.ret both)
        (some returned)
        (Reaches.act (state 3) (state 4) (import_io ∷ x_is_five ∷ five ∷ [])
          (Action.seq x_is_five import_io) (some both)
          (Reaches.act (state 2) (state 3) (x_is_five ∷ five ∷ []) (Action.import (codes "a.io"))
            (some import_io)
            (Reaches.act (state 1) (state 2) (five ∷ []) (Action.assign_to (codes "x") five 3)
              (some x_is_five)
              (Reaches.act (state 0) (state 1) [] (Action.number (pos 5)) (some five)
                (Reaches.start 3) tt refl)
              (inl refl) refl)
            tt refl)
          (inr (inl refl), inl refl) refl)
        (inl refl) refl)
      (inl refl) refl

compile-reached_example : (c : Code) × (compile (codes "main") top_scope ≡ some c) × CodeReads c
compile-reached_example = compile-reached end_state all_held (codes "main") top_scope reached refl
