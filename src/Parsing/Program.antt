-- ===== src/Parsing/Program.antt =====
-- vm/parser_state.cpp and vm/compiler.cpp: the top that a sequence of actions has set, and its code.
use marius.Base.{ℕ, ◌≡◌, Bool, false, some, List, [], ◌∷◌, zero, suc, get_elem?, get_or, subst}
use marius.Ast.{Bytes, Node, Scope}
use marius.Codegen.State.{Code}
use marius.Codegen.Layout.Program.{CodeReads}
use marius.Compiler.{compile, compile-CodeReads}
use marius.Parsing.State.{ParserState}
use marius.Parsing.Steps.{Reaches}
use marius.Parsing.Built.{TopIds}
use marius.Parsing.Trees.{reaches-IsBuilt}
use mathlib.Core.Option.{none-ne-some, some-injective}

get_or-found :
    (kinds : List Bool) (i : ℕ) (b : Bool) → get_elem? kinds i ≡ some b → get_or kinds i false ≡ b
get_or-found [] i b e = absurd (none-ne-some b e)
get_or-found (x ∷ kinds) zero b e = some-injective x b e
get_or-found (x ∷ kinds) (suc i) b e = get_or-found kinds i b e

-- Whatever actions the generated parser takes without failing, each on nodes that it was given before,
-- with default values that need no local: the top that they have set is compiled, no assert fails and
-- no null pointer is met on the way, and the code and all the codes in it are whole instructions.
pub compile-reached :
    (s : ParserState) (held : List Node) (name : Bytes) (top : Scope)
    → Reaches s held
    → s.top ≡ some top
    → (c : Code) × (compile name top ≡ some c) × CodeReads c
compile-reached s held name top there e =
    let b = reaches-IsBuilt there in
    let imports : ℕ → Bool = λ i. get_or b.kinds i false in
    let ids = b.built.held imports (get_or-found b.kinds) in
    let t = subst (TopIds imports) e ids.top in compile-CodeReads imports name top t.0 t.1
