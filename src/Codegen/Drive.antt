-- ===== src/Codegen/Drive.antt =====
-- vm/ast.cpp, vm/compiler.cpp: `Node::drive` as one recursion over the tree, and the code of a
-- program.
use marius.Base.{ℕ, suc, ◌+◌, Option, none, some, List, [], ◌∷◌, codes, length, false}
use marius.Ast.{
  Bytes, Node, Nodes, OptNode, Args, Arguments, Scope, end, node, null, just, no_args, args,
  no_more, argument, scope,
}
use marius.Codegen.State.{State, ◌>>◌, pure, Code, new_state, Analysis}
use marius.Codegen.Values
use marius.Codegen.Values.{Drive}
use marius.Codegen.Sends
use marius.Codegen.Sends.{Driven, drive_send, drive_dictionary}
use marius.Codegen.Control
use marius.Codegen.Defs
use marius.Codegen.Defs.{DrivenArg, DrivenScope, drive_scope, to_code}

-- `AS.to_code("__main__", …)`, if the drive has come to its end.
abbrev pub top_code : ℕ → Option (Unit {0} × State) → Option Code
top_code cov none = none
top_code cov (some (u, s)) = some (to_code (codes "__main__") [] 0 cov false s)

module _ (an : Analysis) where
  unfoldable mutual
    pub drive : Node → Drive
    drive (Node.seq m a b) = Control.drive_seq (drive a) (drive b)
    drive (Node.send_indirect m name recv as') =
        Sends.drive_send_indirect (drive name) (drive recv) (driven as')
    drive (Node.cast m value type) = Sends.drive_cast m (drive value) (drive type)
    drive (Node.tuple m as') = Sends.drive_tuple m (driven as')
    drive (Node.list m as') = Sends.drive_list m (driven as')
    drive (Node.dictionary m values kw) =
        drive_dictionary an m (drive_nodes values) (nodes_size values) kw
    drive (Node.send m name recv as' spec) = drive_send an m name (drive recv) (driven as') spec
    drive (Node.number m val) = Values.drive_number m val
    drive (Node.named m name) = Values.drive_named an m name
    drive (Node.return m val) = Control.drive_return m (drive val)
    drive (Node.class m name super body) =
        Defs.drive_class an m name (drive super) (driven_scope body)
    drive (Node.trait m name body) = Defs.drive_trait an m name (driven_scope body)
    drive (Node.def m sc name body as') = Defs.drive_def an m sc name (driven_scope body) as'
    drive (Node.cascade m recv messages) = Sends.drive_cascade m (drive recv) messages
    drive (Node.if_cond m recv body ebody) =
        Control.drive_if_cond m (drive recv) (drive body) (driven_opt ebody)
    drive (Node.unless m recv body) = Control.drive_unless m (drive recv) (drive body)
    drive (Node.while m cond body) = Control.drive_while m (drive cond) (drive body)
    drive (Node.nil m) = Values.drive_nil m
    drive (Node.true m) = Values.drive_true m
    drive (Node.false m) = Values.drive_false m
    drive (Node.self m) = Values.drive_self an m
    drive (Node.import m path name) = Values.drive_import an m path
    drive (Node.import_one m path elem name) = Values.drive_import_one an m path elem
    drive (Node.try m body handler id type) =
        Control.drive_try an m (drive body) id (driven_opt type) (drive handler)
    drive (Node.assign m name value) = Values.drive_assign an m (drive value)
    drive (Node.assign_op m name op value) = Values.drive_assign_op an m op (drive value)
    drive (Node.load_attr m recv name) = Values.drive_load_attr m (drive recv) name
    drive (Node.ivar_assign m name value) = Values.drive_ivar_assign m name (drive value)
    drive (Node.ivar_assign_op m name op value) =
        Values.drive_ivar_assign_op m name op (drive value)
    drive (Node.ivar_read m name) = Values.drive_ivar_read m name
    drive (Node.literal_string m str) = Values.drive_literal_string m str
    drive (Node.lambda m body) = Defs.drive_lambda an m (driven_scope body)
    drive (Node.raise m value) = Values.drive_raise m (drive value)
    drive (Node.not m value) = Values.drive_not m (drive value)
    drive (Node.and m left right) = Control.drive_and m (drive left) (drive right)

    -- The loops over positional arguments: `(*i)->drive(S, j++)`.
    pub drive_nodes : Nodes → Drive
    drive_nodes end j = pure tt
    drive_nodes (node n ns) j = drive n j >> drive_nodes ns (j + 1)

    pub nodes_size : Nodes → ℕ
    nodes_size end = 0
    nodes_size (node n ns) = suc (nodes_size ns)

    pub driven : Args → Driven
    driven no_args = Driven.no_args
    driven (args ns kw) = Driven.some_args (drive_nodes ns) (nodes_size ns) kw

    pub driven_opt : OptNode → Option Drive
    driven_opt null = none
    driven_opt (just n) = some (drive n)

    pub driven_arguments : Arguments → List DrivenArg
    driven_arguments no_more = []
    driven_arguments (argument m name c position o rest) =
        record { meta = m; cast = driven_opt c; position = position; opt_value = driven_opt o }
        ∷ driven_arguments rest

    pub driven_scope : Scope → DrivenScope
    driven_scope (scope m self as' body) = record {
      meta = m;
      self = self;
      args = driven_arguments as';
      body = drive body;
    }

  -- The part of `Compiler::compile` behind the analysis: `top->drive` and `to_code`.
  unfoldable pub compile_top : Bytes → Scope → Option Code
  unfolding drive
  compile_top name top =
      let sc = driven_scope top in
      top_code (length (an.closed_locals sc.meta.id))
        (drive_scope an sc (length (an.scope_locals sc.meta.id)) (new_state name false))
