-- ===== src/Parsing/State.antt =====
-- vm/parser_state.hpp: the state in which the tree is built. Each `new` of a node takes the next
-- identity; a call of `back` on an empty vector, and a line that `Node::line` refuses, is `none`.
use marius.Base.{true, false, ℕ, suc, Bool, Option, none, some, List, [], ◌∷◌, length, ltb}
use marius.Ast.{
  Bytes, ArgMap, Meta, Node, Nodes, OptNode, Args, Arguments, Scope, args, end, node, no_more,
  argument,
}
use marius.Tracking.Names.{assign}

-- `Context`, without `local_names`, which stays empty.
pub record Context : Type 0 where
  pub args : ArgMap
  pub arg_objs : Arguments

pub record ArgInfo : Type 0 where
  pub nodes : Nodes
  pub keywords : ArgMap

-- `ast::Cascade`, while messages are added.
pub record CascadeNode : Type 0 where
  pub meta : Meta
  pub recv : Node
  pub messages : List Bytes

-- `ParserState`, the vectors with their last element first; `made` nodes were made so far, and the
-- parser stands in a line.
pub record ParserState : Type 0 where
  pub made : ℕ
  pub line : ℕ
  pub context : Context
  pub arg_info : ArgInfo
  pub stack : List Context
  pub cascades : List CascadeNode
  pub arg_infos : List ArgInfo
  pub syntax_error : Bool
  pub top : Option Scope

abbrev pub M : Type 0 → Type 0
M A = ParserState → Option (A × ParserState)

infixl 5 ◌>>=◌ ◌>>◌
abbrev pub ◌>>=◌ : {A B : Type 0} → M A → (A → M B) → M B
◌>>=◌ m k s = elim (m s) [ none ↦ none | some (a, t) ↦ k a t ]

abbrev pub ◌>>◌ : {B : Type 0} → M (Unit {0}) → M B → M B
m >> k = m >>= λ u. k

abbrev pub pure : {A : Type 0} → A → M A
pure a s = some (a, s)

abbrev pub new_context : Context
new_context = record { args = []; arg_objs = no_more }

abbrev pub new_arg_info : ArgInfo
new_arg_info = record { nodes = end; keywords = [] }

abbrev pub new_state : ℕ → ParserState
new_state line = record {
  made = 0;
  line = line;
  context = new_context;
  arg_info = new_arg_info;
  stack = [];
  cascades = [];
  arg_infos = [];
  syntax_error = false;
  top = none;
}

abbrev pub new_node : M ℕ
new_node s = some (s.made, record s { made = suc s.made })

-- The test in `Node::line`.
abbrev pub check_line : ℕ → M (Unit {0})
check_line l s = elim (ltb l 1000) [ true ↦ some (tt, s) | false ↦ none ]

-- `pos(new ..., line)`
abbrev pub make_at : ℕ → (Meta → Node) → M Node
make_at l f = do id ← new_node; check_line l; pure (f (record { id = id; line = l }))

abbrev pub get_line : M ℕ
get_line s = some (s.line, s)

-- `pos(new ...)`
abbrev pub make : (Meta → Node) → M Node
make f = do l ← get_line; make_at l f

abbrev pub get_context : M Context
get_context s = some (s.context, s)

abbrev pub get_arg_info : M ArgInfo
get_arg_info s = some (s.arg_info, s)

abbrev pub push_context : M (Unit {0})
push_context s = some (tt, record s { stack = s.context ∷ s.stack; context = new_context })

-- `context_ = stack_.back(); stack_.pop_back();`
abbrev pub to_context : List Context → M (Unit {0})
to_context [] s = none
to_context (c ∷ cs) s = some (tt, record s { context = c; stack = cs })

abbrev pub pop_context : M (Unit {0})
pop_context s = to_context s.stack s

abbrev pub push_arg_info : M (Unit {0})
push_arg_info s =
    some (tt, record s { arg_infos = s.arg_info ∷ s.arg_infos; arg_info = new_arg_info })

abbrev pub to_arg_info : List ArgInfo → M (Unit {0})
to_arg_info [] s = none
to_arg_info (i ∷ is) s = some (tt, record s { arg_info = i; arg_infos = is })

abbrev pub pop_arg_info : M (Unit {0})
pop_arg_info s = to_arg_info s.arg_infos s

-- `push_back`
abbrev pub push_node : Nodes → Node → Nodes
push_node end n = node n end
push_node (node m ns) n = node m (push_node ns n)

abbrev pub nodes_size : Nodes → ℕ
nodes_size end = 0
nodes_size (node n ns) = suc (nodes_size ns)

abbrev pub push_argument : Arguments → (Arguments → Arguments) → Arguments
push_argument no_more f = f no_more
push_argument (argument m name c p o rest) f = argument m name c p o (push_argument rest f)

abbrev pub put_argument : ℕ → Bytes → OptNode → OptNode → Context → ParserState → ParserState
put_argument id name cast value c s =
    let num : ℕ = length c.args in
    record s {
      context = record {
        args = assign name num c.args;
        arg_objs =
            push_argument c.arg_objs (argument (record { id = id; line = 0 }) name cast num value);
      };
    }

-- A new argument of the context, at the place of the number of names so far.
abbrev pub add_argument : Bytes → OptNode → OptNode → M (Unit {0})
add_argument name cast value = do
  id ← new_node
  c ← get_context
  (λ s. some (tt, put_argument id name cast value c s))

-- `Arguments` of the nodes and keywords that were gathered.
abbrev pub gathered_args : M Args
gathered_args = do i ← get_arg_info; pure (args i.nodes i.keywords)
