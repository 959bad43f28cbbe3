-- ===== src/Tracking/Visit.antt =====
-- vm/ast.cpp: `Node::accept`, the order in which a visitor comes to the nodes, with the tracker as the
-- visitor; and `calculate_locals` of vm/scope_tracker.cpp.
use marius.Base.{ℕ, Option, none, some, ◌∷◌, codes}
use marius.Ast.{
  Bytes, ArgMap, Node, Nodes, OptNode, Args, Arguments, Scope, end, node, null, just, no_args, args,
  no_more, argument, scope,
}
use marius.Codegen.State.{Analysis}
use marius.Tracking.{
  Tracker, Step, ◌>>◌, skip, visit_named, visit_import, visit_dictionary, visit_trait, visit_send,
  visit_assign, own_variable, start_try_body, enter_scope, leave_scope, arguments_size, insert_new,
  new_tracker, analysis,
}
use marius.Local.{new_local}

-- `before_visit(Trait*)`
abbrev pub push_trait : ℕ → Step
push_trait id s = some (record s { traits = id ∷ s.traits })

-- `before_visit(Class*)`: the local belongs to the body.
abbrev pub enter_class : Bytes → Scope → Step
enter_class name (scope m self as' body) s = some (insert_new m.id name new_local s)

module _ (globals : ArgMap) where
  unfoldable mutual
    unfolding visit_named visit_import visit_dictionary visit_trait visit_send visit_assign
        own_variable enter_scope leave_scope insert_new

    pub accept : Node → Step
    accept (Node.seq m a b) = accept a >> accept b
    accept (Node.send_indirect m name recv as') = accept recv >> accept name >> accept_args as'
    accept (Node.cast m value type) = accept type >> accept value
    accept (Node.tuple m as') = accept_args as'
    accept (Node.list m as') = accept_args as'
    accept (Node.dictionary m values kw) = accept_nodes values >> visit_dictionary globals m.id
    accept (Node.send m name recv as' spec) =
        accept recv >> accept_args as' >> visit_send globals m.id name spec recv
    accept (Node.number m val) = skip
    accept (Node.named m name) = visit_named globals m.id name
    accept (Node.return m val) = accept val
    accept (Node.class m name super body) =
        enter_class name body >> accept super >> accept_scope body
    accept (Node.trait m name body) =
        push_trait m.id >> accept_scope body >> visit_trait globals m.id name
    accept (Node.def m sc name body as') = accept_scope body
    accept (Node.cascade m recv messages) = accept recv
    accept (Node.if_cond m recv body ebody) = accept recv >> accept body >> accept_opt ebody
    accept (Node.unless m recv body) = accept recv >> accept body
    accept (Node.while m cond body) = accept cond >> accept body
    accept (Node.nil m) = skip
    accept (Node.true m) = skip
    accept (Node.false m) = skip
    accept (Node.self m) = visit_named globals m.id (codes "self")
    accept (Node.import m path name) = visit_import globals m.id name (codes "Importer")
    accept (Node.import_one m path elem name) = visit_import globals m.id name (codes "Importer")
    accept (Node.try m body handler id type) =
        accept body >> start_try_body m.id id >> accept_opt type >> accept handler
    accept (Node.assign m name value) = accept value >> visit_assign m.id name
    accept (Node.assign_op m name op value) = accept value >> own_variable m.id name
    accept (Node.load_attr m recv name) = accept recv
    accept (Node.ivar_assign m name value) = accept value
    accept (Node.ivar_assign_op m name op value) = accept value
    accept (Node.ivar_read m name) = skip
    accept (Node.literal_string m str) = skip
    accept (Node.lambda m body) = accept_scope body
    accept (Node.raise m value) = accept value
    accept (Node.not m value) = accept value
    accept (Node.and m left right) = accept left >> accept right

    pub accept_nodes : Nodes → Step
    accept_nodes end = skip
    accept_nodes (node n ns) = accept n >> accept_nodes ns

    pub accept_opt : OptNode → Step
    accept_opt null = skip
    accept_opt (just n) = accept n

    pub accept_args : Args → Step
    accept_args no_args = skip
    accept_args (args ns kw) = accept_nodes ns

    -- The casts of the arguments. Their default values are not visited.
    pub accept_casts : Arguments → Step
    accept_casts no_more = skip
    accept_casts (argument m name c position o rest) = accept_opt c >> accept_casts rest

    pub accept_scope : Scope → Step
    accept_scope (scope m self as' body) =
        (λ s. some (enter_scope self as' s))
        >> accept_casts as'
        >> accept body
        >> leave_scope m.id (arguments_size as')

  abbrev pub found : Option Tracker → Option Analysis
  found none = none
  found (some s) = some (analysis s)

  unfoldable pub calculate_locals : Scope → Option Analysis
  unfolding accept
  calculate_locals top = found (accept_scope top new_tracker)
