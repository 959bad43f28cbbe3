-- ===== src/Parsing/Steps.antt =====
-- vm/parser_state.cpp: the actions as data, and the trees that any sequence of them may build.
use marius.Base.{◌⊎◌, ℕ, Option, none, some, List, [], ◌∷◌, ◌≡◌}
use marius.Base.Int.{ℤ}
use marius.Ast.{Bytes, Node, OptNode, null, just}
use marius.Tracking.Identities.{IsFree}
use marius.Parsing.State.{M, ParserState, ◌>>=◌, ◌>>◌, pure, push_context, push_arg_info, new_state}
use marius.Parsing.Actions

pub data Action : Type 0 where
  seq : Node → Node → Action
  send_indirect : Node → Node → Action
  send : Node → Bytes → Action
  send_attr : Node → Bytes → Action
  send_set_attr : Node → Bytes → Node → Action
  lit_str : Bytes → Action
  attr : Node → Bytes → Action
  named : Bytes → ℕ → Action
  ast_binop : Bytes → Node → Node → Action
  number : ℤ → Action
  ret : Node → Action
  if_cond : Node → Node → Action
  if_else : Node → Node → Node → Action
  unless : Node → Node → Action
  while_ : Node → Node → Action
  ast_nil : Action
  ast_true : Action
  ast_false : Action
  self : Action
  import : Bytes → Action
  import_as : Bytes → Bytes → Action
  import_one : Bytes → Bytes → Action
  import_one_as : Bytes → Bytes → Bytes → Action
  ast_try : Node → Node → Action
  ast_try_as : Node → Bytes → Node → Node → Action
  assign_to : Bytes → Node → ℕ → Action
  ivar_assign : Bytes → Node → Action
  assign_op : Bytes → Bytes → Node → Action
  ivar_assign_op : Bytes → Bytes → Node → Action
  ivar_read : Bytes → Action
  cast : Node → Node → Action
  raise : Node → Action
  not_ : Node → Action
  and_ : Node → Node → Action
  ast_class : Bytes → OptNode → Node → Action
  trait : Bytes → Node → Action
  ast_def : Option Bytes → Bytes → Node → Action
  lambda : Node → Action
  self_send : Bytes → Action
  dcolon : Node → Bytes → Bytes → Action
  end_cascade : Action
  send_args : Node → Bytes → Action
  send_indirect_args : Node → Node → Action
  self_send_args : Bytes → Action
  tuple : Action
  list : Action
  dict : Action
  set_top : Node → Action
  start_scope : Action
  def_arg : Bytes → Action
  def_opt_arg : Bytes → Node → Action
  def_arg_cast : Bytes → Node → Action
  start_cascade : Node → Action
  cascade : Bytes → Action
  start_arg_list : Action
  add_arg : Node → Action
  add_kw_arg : Bytes → Node → Action

abbrev pub node_of : M Node → M (Option Node)
node_of m = do n ← m; pure (some n)

abbrev pub no_node : M (Unit {0}) → M (Option Node)
no_node m = m >> pure none

-- An action, and the node that it gives to the parser. `start_scope` is the body of `start_def`,
-- `start_class`, `start_trait` and `start_lambda`.
abbrev pub perform : Action → M (Option Node)
perform (Action.seq l r) = node_of (Actions.seq l r)
perform (Action.send_indirect recv n) = node_of (Actions.send_indirect recv n)
perform (Action.send recv n) = node_of (Actions.send recv n)
perform (Action.send_attr recv n) = node_of (Actions.send_attr recv n)
perform (Action.send_set_attr recv n val) = node_of (Actions.send_set_attr recv n val)
perform (Action.lit_str n) = node_of (Actions.lit_str n)
perform (Action.attr r n) = node_of (Actions.attr r n)
perform (Action.named s line) = node_of (Actions.named s line)
perform (Action.ast_binop op a b) = node_of (Actions.ast_binop op a b)
perform (Action.number a) = node_of (Actions.number a)
perform (Action.ret n) = node_of (Actions.ret n)
perform (Action.if_cond cond body) = node_of (Actions.if_cond cond body)
perform (Action.if_else cond body ebody) = node_of (Actions.if_else cond body ebody)
perform (Action.unless cond body) = node_of (Actions.unless cond body)
perform (Action.while_ cond body) = node_of (Actions.while_ cond body)
perform Action.ast_nil = node_of Actions.ast_nil
perform Action.ast_true = node_of Actions.ast_true
perform Action.ast_false = node_of Actions.ast_false
perform Action.self = node_of Actions.self
perform (Action.import name) = node_of (Actions.import name)
perform (Action.import_as path name) = node_of (Actions.import_as path name)
perform (Action.import_one name elem) = node_of (Actions.import_one name elem)
perform (Action.import_one_as path elem name) = node_of (Actions.import_one_as path elem name)
perform (Action.ast_try b h) = node_of (Actions.ast_try b h)
perform (Action.ast_try_as b id t h) = node_of (Actions.ast_try_as b id t h)
perform (Action.assign_to name n line) = node_of (Actions.assign_to name n line)
perform (Action.ivar_assign name v) = node_of (Actions.ivar_assign name v)
perform (Action.assign_op name op n) = node_of (Actions.assign_op name op n)
perform (Action.ivar_assign_op name op n) = node_of (Actions.ivar_assign_op name op n)
perform (Action.ivar_read name) = node_of (Actions.ivar_read name)
perform (Action.cast e type) = node_of (Actions.cast e type)
perform (Action.raise v) = node_of (Actions.raise v)
perform (Action.not_ v) = node_of (Actions.not_ v)
perform (Action.and_ a b) = node_of (Actions.and_ a b)
perform (Action.ast_class name super body) = node_of (Actions.ast_class name super body)
perform (Action.trait name body) = node_of (Actions.trait name body)
perform (Action.ast_def owner name b) = node_of (Actions.ast_def owner name b)
perform (Action.lambda b) = node_of (Actions.lambda b)
perform (Action.self_send n) = node_of (Actions.self_send n)
perform (Action.dcolon recv n a) = node_of (Actions.dcolon recv n a)
perform Action.end_cascade = node_of Actions.end_cascade
perform (Action.send_args recv id) = node_of (Actions.send_args recv id)
perform (Action.send_indirect_args recv name) = node_of (Actions.send_indirect_args recv name)
perform (Action.self_send_args id) = node_of (Actions.self_send_args id)
perform Action.tuple = node_of Actions.tuple
perform Action.list = node_of Actions.list
perform Action.dict = node_of Actions.dict
perform (Action.set_top b) = no_node (Actions.set_top b)
perform Action.start_scope = no_node push_context
perform (Action.def_arg name) = no_node (Actions.def_arg name)
perform (Action.def_opt_arg name val) = no_node (Actions.def_opt_arg name val)
perform (Action.def_arg_cast name c) = no_node (Actions.def_arg_cast name c)
perform (Action.start_cascade recv) = no_node (Actions.start_cascade recv)
perform (Action.cascade name) = no_node (Actions.cascade name)
perform Action.start_arg_list = no_node push_arg_info
perform (Action.add_arg a) = no_node (Actions.add_arg a)
perform (Action.add_kw_arg name a) = no_node (Actions.add_kw_arg name a)

abbrev pub OptTakes : (Node → Type 0) → OptNode → Type 0
OptTakes P null = Unit {0}
OptTakes P (just n) = P n

-- P holds of each node that an action takes; and a default value, which scope tracking does not visit,
-- needs no local.
abbrev pub Takes : (Node → Type 0) → Action → Type 0
Takes P (Action.seq l r) = P l × P r
Takes P (Action.send_indirect recv n) = P recv × P n
Takes P (Action.send recv n) = P recv
Takes P (Action.send_attr recv n) = P recv
Takes P (Action.send_set_attr recv n val) = P recv × P val
Takes P (Action.lit_str n) = Unit {0}
Takes P (Action.attr r n) = P r
Takes P (Action.named s line) = Unit {0}
Takes P (Action.ast_binop op a b) = P a × P b
Takes P (Action.number a) = Unit {0}
Takes P (Action.ret n) = P n
Takes P (Action.if_cond cond body) = P cond × P body
Takes P (Action.if_else cond body ebody) = P cond × P body × P ebody
Takes P (Action.unless cond body) = P cond × P body
Takes P (Action.while_ cond body) = P cond × P body
Takes P Action.ast_nil = Unit {0}
Takes P Action.ast_true = Unit {0}
Takes P Action.ast_false = Unit {0}
Takes P Action.self = Unit {0}
Takes P (Action.import name) = Unit {0}
Takes P (Action.import_as path name) = Unit {0}
Takes P (Action.import_one name elem) = Unit {0}
Takes P (Action.import_one_as path elem name) = Unit {0}
Takes P (Action.ast_try b h) = P b × P h
Takes P (Action.ast_try_as b id t h) = P b × P t × P h
Takes P (Action.assign_to name n line) = P n
Takes P (Action.ivar_assign name v) = P v
Takes P (Action.assign_op name op n) = P n
Takes P (Action.ivar_assign_op name op n) = P n
Takes P (Action.ivar_read name) = Unit {0}
Takes P (Action.cast e type) = P e × P type
Takes P (Action.raise v) = P v
Takes P (Action.not_ v) = P v
Takes P (Action.and_ a b) = P a × P b
Takes P (Action.ast_class name super body) = OptTakes P super × P body
Takes P (Action.trait name body) = P body
Takes P (Action.ast_def owner name b) = P b
Takes P (Action.lambda b) = P b
Takes P (Action.self_send n) = Unit {0}
Takes P (Action.dcolon recv n a) = P recv
Takes P Action.end_cascade = Unit {0}
Takes P (Action.send_args recv id) = P recv
Takes P (Action.send_indirect_args recv name) = P recv × P name
Takes P (Action.self_send_args id) = Unit {0}
Takes P Action.tuple = Unit {0}
Takes P Action.list = Unit {0}
Takes P Action.dict = Unit {0}
Takes P (Action.set_top b) = P b
Takes P Action.start_scope = Unit {0}
Takes P (Action.def_arg name) = Unit {0}
Takes P (Action.def_opt_arg name val) = IsFree (just val)
Takes P (Action.def_arg_cast name c) = P c
Takes P (Action.start_cascade recv) = P recv
Takes P (Action.cascade name) = Unit {0}
Takes P Action.start_arg_list = Unit {0}
Takes P (Action.add_arg a) = P a
Takes P (Action.add_kw_arg name a) = P a

abbrev pub keep : Option Node → List Node → List Node
keep none held = held
keep (some n) held = n ∷ held

abbrev pub IsHeld : List Node → Node → Type 0
IsHeld [] n = ⊥
IsHeld (m ∷ held) n = (n ≡ m) ⊎ IsHeld held n

-- The states and nodes that a parser can get to: it gives an action nodes that it got from actions
-- before, and its lines change.
pub data Reaches : ParserState → List Node → Type 0 where
  start : (line : ℕ) → Reaches (new_state line) []
  act :
      (s t : ParserState) (held : List Node) (a : Action) (r : Option Node)
      → Reaches s held
      → Takes (IsHeld held) a
      → perform a s ≡ some (r, t)
      → Reaches t (keep r held)
  go_on :
      (s : ParserState) (held : List Node) (line : ℕ)
      → Reaches s held
      → Reaches (record s { line = line }) held
