-- ===== src/Parsing/Actions.antt =====
-- vm/parser_state.cpp: the actions that make scopes, calls with arguments, and cascades.
mod Simple
pub use Simple.*
use marius.Base.{codes, ℕ, Option, none, some, List, [], ◌∷◌, ◌==◌, if◌then◌else◌}
use marius.Base.Int.{ℤ}
use marius.Ast.{
  Bytes, Meta, Node, Nodes, OptNode, Args, Arguments, Scope, Special, no_args, args, end, node,
  null, just, no_more, scope,
}
use marius.Parsing.State.{
  ParserState, ArgInfo, CascadeNode, M, ◌>>=◌, ◌>>◌, pure, new_node, check_line, make_at, make,
  get_line, get_context, get_arg_info, pop_context, pop_arg_info, push_node, nodes_size,
  add_argument, gathered_args,
}
use marius.Tracking.Names.{assign}

-- The `self` that is an argument of a scope.
abbrev pub self_argument : M (Option ℕ)
self_argument = do id ← new_node; pure (some id)

-- `new ast::Scope`, which keeps line 0.
abbrev pub new_scope : Option ℕ → Arguments → Node → M Scope
new_scope a as' b = do id ← new_node; pure (scope (record { id = id; line = 0 }) a as' b)

abbrev pub put_top : Scope → ParserState → ParserState
put_top sc s = record s { top = some sc }

abbrev pub set_top : Node → M (Unit {0})
set_top b = do
  a ← self_argument
  id ← new_node
  l ← get_line
  check_line l
  (λ s. some (tt, put_top (scope (record { id = id; line = l }) a no_more b) s))

abbrev pub or_object : OptNode → M Node
or_object null = do l ← get_line; named (codes "Object") l
or_object (just n) = pure n

abbrev pub ast_class : Bytes → OptNode → Node → M Node
ast_class name super body = do
  a ← self_argument
  sup ← or_object super
  sc ← new_scope a no_more body
  n ← make (λ (m : Meta). Node.class m name sup sc)
  pop_context
  pure n

abbrev pub trait : Bytes → Node → M Node
trait name body = do
  a ← self_argument
  sc ← new_scope a no_more body
  n ← make (λ (m : Meta). Node.trait m name sc)
  pop_context
  pure n

-- `ast_def`, and `ast_def_spec` with a scope
abbrev pub ast_def : Option Bytes → Bytes → Node → M Node
ast_def owner name b = do
  a ← self_argument
  c ← get_context
  sc ← new_scope a c.arg_objs b
  n ← make (λ (m : Meta). Node.def m owner name sc c.args)
  pop_context
  pure n

abbrev pub lambda : Node → M Node
lambda b = do
  c ← get_context
  sc ← new_scope none c.arg_objs b
  n ← make (λ (m : Meta). Node.lambda m sc)
  pop_context
  pure n

abbrev pub def_arg : Bytes → M (Unit {0})
def_arg name = add_argument name null null

abbrev pub def_opt_arg : Bytes → Node → M (Unit {0})
def_opt_arg name val = add_argument name null (just val)

abbrev pub def_arg_cast : Bytes → Node → M (Unit {0})
def_arg_cast name c = add_argument name (just c) null

abbrev pub self_send : Bytes → M Node
self_send n = do r ← self; make (λ (m : Meta). Node.send m n r no_args Special.self_less)

abbrev pub dcolon : Node → Bytes → Bytes → M Node
dcolon recv n a = do
  id ← new_node
  make_at (node_line recv) (λ (m : Meta).
      Node.send m n recv (args (node (Node.literal_string (record { id = id; line = 0 }) a) end) [])
        Special.none)

abbrev pub put_cascade : ℕ → Node → ParserState → ParserState
put_cascade id recv s = record s {
  cascades =
      record { meta = record { id = id; line = 0 }; recv = recv; messages = [] } ∷ s.cascades;
}

abbrev pub start_cascade : Node → M (Unit {0})
start_cascade recv = do id ← new_node; (λ s. some (tt, put_cascade id recv s))

abbrev pub push_message : Bytes → List Bytes → List Bytes
push_message name [] = name ∷ []
push_message name (n ∷ ns) = n ∷ push_message name ns

abbrev pub add_message : Bytes → List CascadeNode → M (Unit {0})
add_message name [] s = none
add_message name (c ∷ cs) s =
    some (tt, record s { cascades = record c { messages = push_message name c.messages } ∷ cs })

abbrev pub cascade : Bytes → M (Unit {0})
cascade name s = add_message name s.cascades s

abbrev pub take_cascade : List CascadeNode → M Node
take_cascade [] s = none
take_cascade (c ∷ cs) s = some (Node.cascade c.meta c.recv c.messages, record s { cascades = cs })

abbrev pub end_cascade : M Node
end_cascade s = take_cascade s.cascades s

abbrev pub put_arg_info : ArgInfo → ParserState → ParserState
put_arg_info i s = record s { arg_info = i }

abbrev pub add_arg : Node → M (Unit {0})
add_arg a = do
  i ← get_arg_info
  (λ s. some (tt, put_arg_info (record i { nodes = push_node i.nodes a }) s))

abbrev pub add_kw_arg : Bytes → Node → M (Unit {0})
add_kw_arg name a = do
  i ← get_arg_info
  (λ s. some (
    tt,
    put_arg_info
        (record {
          nodes = push_node i.nodes a;
          keywords = assign name (nodes_size i.nodes) i.keywords;
        })
        s,
  ))

-- A node of the arguments gathered, at a line; then the arguments of the outer list go on.
abbrev pub with_args : (ℕ → ℕ) → (Meta → Args → Node) → M Node
with_args at f = do
  as' ← gathered_args
  l ← get_line
  n ← make_at (at l) (λ (m : Meta). f m as')
  pop_arg_info
  pure n

abbrev pub send_args : Node → Bytes → M Node
send_args recv id = with_args (λ l. node_line recv) (λ m as'. Node.send m id recv as' Special.none)

abbrev pub send_indirect_args : Node → Node → M Node
send_indirect_args recv name = with_args (λ l. l) (λ m as'. Node.send_indirect m name recv as')

abbrev pub self_send_args : Bytes → M Node
self_send_args id = do
  r ← self
  with_args (λ l. l) (λ m as'. Node.send m id r as' Special.self_less)

abbrev pub tuple : M Node
tuple = with_args (λ l. l) (λ m as'. Node.tuple m as')

abbrev pub list : M Node
list = with_args (λ l. l) (λ m as'. Node.list m as')

-- `Dictionary` of its arguments' nodes and keywords
abbrev pub dictionary_of : Meta → Args → Node
dictionary_of m no_args = Node.dictionary m end []
dictionary_of m (args ns kw) = Node.dictionary m ns kw

abbrev pub dict : M Node
dict = with_args (λ l. l) dictionary_of
