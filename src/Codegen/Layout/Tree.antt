-- ===== src/Codegen/Layout/Tree.antt =====
-- vm/ast.cpp, vm/compiler.cpp: the code of a whole program is laid out.
use marius.Base.{ℕ, ◌≡◌, true, some}
use marius.Ast.{
  Node, Nodes, OptNode, Args, Arguments, Scope, node, null, just, no_args, args, no_more, argument,
  scope, end,
}
use marius.Local.{map_get}
use marius.Codegen.State.{Analysis}
use marius.Codegen.Drive
use marius.Codegen.Layout.Rules.{Keeps-pure, Keeps-then}
use marius.Codegen.Layout.Values
use marius.Codegen.Layout.Values.{DriveKeeps}
use marius.Codegen.Layout.Locals
use marius.Codegen.Layout.Locals.{PointerFits, NodeFits, ImportFits}
use marius.Codegen.Layout.Sends
use marius.Codegen.Layout.Sends.{DrivenKeeps}
use marius.Codegen.Layout.Control
use marius.Codegen.Layout.Control.{OptKeeps, is_some}
use marius.Codegen.Layout.Defs
use marius.Codegen.Layout.Defs.{ArgsKeep, SelfFits, ScopeKeeps}

-- A local where the map has one.
abbrev pub MayFit : Type 0 → Analysis → ℕ → Type 0
MayFit Stop an id = (p : ℕ) → map_get an.lm id ≡ some p → PointerFits Stop an p

-- The identity of a scope.
abbrev pub scope_id : Scope → ℕ
scope_id (scope m self as' body) = m.id

-- Every node that needs a local has one; with `Unit` for Stop this asks nothing.
abbrev mutual
  pub NodeCovered : Type 0 → Analysis → Node → Type 0
  NodeCovered Stop an (Node.seq m a b) = NodeCovered Stop an a × NodeCovered Stop an b
  NodeCovered Stop an (Node.send_indirect m name recv as') =
      NodeCovered Stop an name × NodeCovered Stop an recv × ArgsCovered Stop an as'
  NodeCovered Stop an (Node.cast m value type) =
      NodeCovered Stop an value × NodeCovered Stop an type
  NodeCovered Stop an (Node.tuple m as') = ArgsCovered Stop an as'
  NodeCovered Stop an (Node.list m as') = ArgsCovered Stop an as'
  NodeCovered Stop an (Node.dictionary m values kw) =
      NodeFits Stop an m.id × NodesCovered Stop an values
  NodeCovered Stop an (Node.send m name recv as' spec) =
      MayFit Stop an m.id × NodeCovered Stop an recv × ArgsCovered Stop an as'
  NodeCovered Stop an (Node.number m val) = Unit
  NodeCovered Stop an (Node.named m name) = MayFit Stop an m.id
  NodeCovered Stop an (Node.return m val) = NodeCovered Stop an val
  NodeCovered Stop an (Node.class m name super body) =
      NodeFits Stop an (scope_id body) × NodeCovered Stop an super × ScopeCovered Stop an body
  NodeCovered Stop an (Node.trait m name body) = ImportFits Stop an m.id × ScopeCovered Stop an body
  NodeCovered Stop an (Node.def m sc name body as') = ScopeCovered Stop an body
  NodeCovered Stop an (Node.cascade m recv messages) = NodeCovered Stop an recv
  NodeCovered Stop an (Node.if_cond m recv body ebody) =
      NodeCovered Stop an recv × NodeCovered Stop an body × OptCovered Stop an ebody
  NodeCovered Stop an (Node.unless m recv body) =
      NodeCovered Stop an recv × NodeCovered Stop an body
  NodeCovered Stop an (Node.while m cond body) = NodeCovered Stop an cond × NodeCovered Stop an body
  NodeCovered Stop an (Node.nil m) = Unit
  NodeCovered Stop an (Node.true m) = Unit
  NodeCovered Stop an (Node.false m) = Unit
  NodeCovered Stop an (Node.self m) = NodeFits Stop an m.id
  NodeCovered Stop an (Node.import m path name) = ImportFits Stop an m.id
  NodeCovered Stop an (Node.import_one m path elem name) = ImportFits Stop an m.id
  NodeCovered Stop an (Node.try m body handler id type) =
      (is_some id ≡ true → NodeFits Stop an m.id)
      × NodeCovered Stop an body
      × NodeCovered Stop an handler
      × OptCovered Stop an type
  NodeCovered Stop an (Node.assign m name value) = NodeFits Stop an m.id × NodeCovered Stop an value
  NodeCovered Stop an (Node.assign_op m name op value) =
      NodeFits Stop an m.id × NodeCovered Stop an value
  NodeCovered Stop an (Node.load_attr m recv name) = NodeCovered Stop an recv
  NodeCovered Stop an (Node.ivar_assign m name value) = NodeCovered Stop an value
  NodeCovered Stop an (Node.ivar_assign_op m name op value) = NodeCovered Stop an value
  NodeCovered Stop an (Node.ivar_read m name) = Unit
  NodeCovered Stop an (Node.literal_string m str) = Unit
  NodeCovered Stop an (Node.lambda m body) = ScopeCovered Stop an body
  NodeCovered Stop an (Node.raise m value) = NodeCovered Stop an value
  NodeCovered Stop an (Node.not m value) = NodeCovered Stop an value
  NodeCovered Stop an (Node.and m left right) = NodeCovered Stop an left × NodeCovered Stop an right

  pub NodesCovered : Type 0 → Analysis → Nodes → Type 0
  NodesCovered Stop an end = Unit
  NodesCovered Stop an (node n ns) = NodeCovered Stop an n × NodesCovered Stop an ns

  pub OptCovered : Type 0 → Analysis → OptNode → Type 0
  OptCovered Stop an null = Unit
  OptCovered Stop an (just n) = NodeCovered Stop an n

  pub ArgsCovered : Type 0 → Analysis → Args → Type 0
  ArgsCovered Stop an no_args = Unit
  ArgsCovered Stop an (args ns kw) = NodesCovered Stop an ns

  pub ArgumentsCovered : Type 0 → Analysis → Arguments → Type 0
  ArgumentsCovered Stop an no_more = Unit
  ArgumentsCovered Stop an (argument m name c position o rest) =
      NodeFits Stop an m.id
      × OptCovered Stop an c
      × OptCovered Stop an o
      × ArgumentsCovered Stop an rest

  pub ScopeCovered : Type 0 → Analysis → Scope → Type 0
  ScopeCovered Stop an (scope m self as' body) =
      SelfFits Stop an self × ArgumentsCovered Stop an as' × NodeCovered Stop an body

module _ (Stop : Type 0) (an : Analysis) where
  mutual
    unfolding Drive.drive

    pub drive-Keeps : (n : Node) → NodeCovered Stop an n → DriveKeeps Stop (Drive.drive an n)
    drive-Keeps (Node.seq m a b) h =
        Control.drive_seq-Keeps _ _ (drive-Keeps a h.0) (drive-Keeps b h.1)
    drive-Keeps (Node.send_indirect m name recv as') h =
        Sends.drive_send_indirect-Keeps _ _ _ (drive-Keeps name h.0) (drive-Keeps recv h.1)
          (driven-Keeps as' h.2)
    drive-Keeps (Node.cast m value type) h =
        Sends.drive_cast-Keeps m _ _ (drive-Keeps value h.0) (drive-Keeps type h.1)
    drive-Keeps (Node.tuple m as') h = Sends.drive_tuple-Keeps m _ (driven-Keeps as' h)
    drive-Keeps (Node.list m as') h = Sends.drive_list-Keeps m _ (driven-Keeps as' h)
    drive-Keeps (Node.dictionary m values kw) h =
        Sends.drive_dictionary-Keeps an m _ _ kw h.0 (drive_nodes-Keeps values h.1)
    drive-Keeps (Node.send m name recv as' spec) h =
        Sends.drive_send-Keeps an m name _ _ spec h.0 (drive-Keeps recv h.1) (driven-Keeps as' h.2)
    drive-Keeps (Node.number m val) h = Values.drive_number-Keeps m val
    drive-Keeps (Node.named m name) h = Locals.drive_named-Keeps an m name h
    drive-Keeps (Node.return m val) h = Control.drive_return-Keeps m _ (drive-Keeps val h)
    drive-Keeps (Node.class m name super (scope m' self as' body)) h =
        Defs.drive_class-Keeps an m name _ _ h.0 (drive-Keeps super h.1)
          (driven_scope-Keeps (scope m' self as' body) h.2)
    drive-Keeps (Node.trait m name body) h =
        Defs.drive_trait-Keeps an m name _ h.0 (driven_scope-Keeps body h.1)
    drive-Keeps (Node.def m sc name body as') h =
        Defs.drive_def-Keeps an m sc name _ as' (driven_scope-Keeps body h)
    drive-Keeps (Node.cascade m recv messages) h =
        Sends.drive_cascade-Keeps m _ messages (drive-Keeps recv h)
    drive-Keeps (Node.if_cond m recv body ebody) h =
        Control.drive_if_cond-Keeps _ _ (drive-Keeps recv h.0) (drive-Keeps body h.1) m _
          (driven_opt-Keeps ebody h.2)
    drive-Keeps (Node.unless m recv body) h =
        Control.drive_unless-Keeps _ _ (drive-Keeps recv h.0) (drive-Keeps body h.1) m
    drive-Keeps (Node.while m cond body) h =
        Control.drive_while-Keeps _ _ (drive-Keeps cond h.0) (drive-Keeps body h.1) m
    drive-Keeps (Node.nil m) h = Values.drive_nil-Keeps m
    drive-Keeps (Node.true m) h = Values.drive_true-Keeps m
    drive-Keeps (Node.false m) h = Values.drive_false-Keeps m
    drive-Keeps (Node.self m) h = Locals.drive_self-Keeps an m h
    drive-Keeps (Node.import m path name) h = Locals.drive_import-Keeps an m h path
    drive-Keeps (Node.import_one m path elem name) h =
        Locals.drive_import_one-Keeps an m h path elem
    drive-Keeps (Node.try m body handler id type) h =
        Control.drive_try-Keeps an m _ (drive-Keeps handler h.2) _ id _ (drive-Keeps body h.1) h.0
          (driven_opt-Keeps type h.3)
    drive-Keeps (Node.assign m name value) h =
        Locals.drive_assign-Keeps an m h.0 _ (drive-Keeps value h.1)
    drive-Keeps (Node.assign_op m name op value) h =
        Locals.drive_assign_op-Keeps an m h.0 _ (drive-Keeps value h.1) op
    drive-Keeps (Node.load_attr m recv name) h =
        Values.drive_load_attr-Keeps m name _ (drive-Keeps recv h)
    drive-Keeps (Node.ivar_assign m name value) h =
        Values.drive_ivar_assign-Keeps m name _ (drive-Keeps value h)
    drive-Keeps (Node.ivar_assign_op m name op value) h =
        Values.drive_ivar_assign_op-Keeps m name _ (drive-Keeps value h) op
    drive-Keeps (Node.ivar_read m name) h = Values.drive_ivar_read-Keeps m name
    drive-Keeps (Node.literal_string m str) h = Values.drive_literal_string-Keeps m str
    drive-Keeps (Node.lambda m body) h = Defs.drive_lambda-Keeps an m _ (driven_scope-Keeps body h)
    drive-Keeps (Node.raise m value) h = Values.drive_raise-Keeps m _ (drive-Keeps value h)
    drive-Keeps (Node.not m value) h = Values.drive_not-Keeps m _ (drive-Keeps value h)
    drive-Keeps (Node.and m left right) h =
        Control.drive_and-Keeps _ _ (drive-Keeps left h.0) (drive-Keeps right h.1) m

    pub drive_nodes-Keeps :
        (ns : Nodes) → NodesCovered Stop an ns → DriveKeeps Stop (Drive.drive_nodes an ns)
    drive_nodes-Keeps end h t holes = Keeps-pure tt
    drive_nodes-Keeps (node n ns) h t holes =
        Keeps-then (drive-Keeps n h.0 t holes) (drive_nodes-Keeps ns h.1 _ holes)

    pub driven-Keeps :
        (as' : Args) → ArgsCovered Stop an as' → DrivenKeeps Stop (Drive.driven an as')
    driven-Keeps no_args h = tt
    driven-Keeps (args ns kw) h = drive_nodes-Keeps ns h

    pub driven_opt-Keeps :
        (o : OptNode) → OptCovered Stop an o → OptKeeps Stop (Drive.driven_opt an o)
    driven_opt-Keeps null h = tt
    driven_opt-Keeps (just n) h = drive-Keeps n h

    pub driven_arguments-Keeps :
        (as' : Arguments)
        → ArgumentsCovered Stop an as'
        → ArgsKeep Stop an (Drive.driven_arguments an as')
    driven_arguments-Keeps no_more h = tt
    driven_arguments-Keeps (argument m name c position o rest) h =
        (h.0, driven_opt-Keeps c h.1, driven_opt-Keeps o h.2, driven_arguments-Keeps rest h.3)

    pub driven_scope-Keeps :
        (sc : Scope) → ScopeCovered Stop an sc → ScopeKeeps Stop an (Drive.driven_scope an sc)
    driven_scope-Keeps (scope m self as' body) h = record {
      self = h.0;
      args = driven_arguments-Keeps as' h.1;
      body = drive-Keeps body h.2;
    }
