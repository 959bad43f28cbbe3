-- ===== src/Tracking/Identities.antt =====
-- vm/ast.hpp: nodes are distinct objects, so the identity of a node tells its class. What the proofs
-- need of this is that the identities of imports and traits, `imports`, are those of no other node.
use marius.Base.{ℕ, ◌≡◌, Bool, true, false}
use marius.Ast.{
  Node, Nodes, OptNode, Args, Arguments, Scope, end, node, null, just, no_args, args, no_more,
  argument, scope,
}
use marius.Codegen.State.{Analysis}
use marius.Codegen.Layout.Tree.{MayFit, OptCovered, scope_id}
use marius.Tracking.Scopes.{SelfPlain}

-- A default value, which scope tracking does not visit: none of its nodes needs a local.
abbrev pub IsFree : OptNode → Type 0
IsFree o = (an : Analysis) → ((id : ℕ) → MayFit ⊥ an id) → OptCovered ⊥ an o

module _ (imports : ℕ → Bool) where
  abbrev mutual
    pub NodeIds : Node → Type 0
    NodeIds (Node.seq m a b) = NodeIds a × NodeIds b
    NodeIds (Node.send_indirect m name recv as') = NodeIds name × NodeIds recv × ArgsIds as'
    NodeIds (Node.cast m value type) = NodeIds value × NodeIds type
    NodeIds (Node.tuple m as') = ArgsIds as'
    NodeIds (Node.list m as') = ArgsIds as'
    NodeIds (Node.dictionary m values kw) = (imports m.id ≡ false) × NodesIds values
    NodeIds (Node.send m name recv as' spec) = (imports m.id ≡ false) × NodeIds recv × ArgsIds as'
    NodeIds (Node.number m val) = Unit
    NodeIds (Node.named m name) = imports m.id ≡ false
    NodeIds (Node.return m val) = NodeIds val
    NodeIds (Node.class m name super body) =
        (imports (scope_id body) ≡ false) × NodeIds super × ScopeIds body
    NodeIds (Node.trait m name body) = (imports m.id ≡ true) × ScopeIds body
    NodeIds (Node.def m sc name body as') = ScopeIds body
    NodeIds (Node.cascade m recv messages) = NodeIds recv
    NodeIds (Node.if_cond m recv body ebody) = NodeIds recv × NodeIds body × OptIds ebody
    NodeIds (Node.unless m recv body) = NodeIds recv × NodeIds body
    NodeIds (Node.while m cond body) = NodeIds cond × NodeIds body
    NodeIds (Node.nil m) = Unit
    NodeIds (Node.true m) = Unit
    NodeIds (Node.false m) = Unit
    NodeIds (Node.self m) = imports m.id ≡ false
    NodeIds (Node.import m path name) = imports m.id ≡ true
    NodeIds (Node.import_one m path elem name) = imports m.id ≡ true
    NodeIds (Node.try m body handler id type) =
        (imports m.id ≡ false) × NodeIds body × NodeIds handler × OptIds type
    NodeIds (Node.assign m name value) = (imports m.id ≡ false) × NodeIds value
    NodeIds (Node.assign_op m name op value) = (imports m.id ≡ false) × NodeIds value
    NodeIds (Node.load_attr m recv name) = NodeIds recv
    NodeIds (Node.ivar_assign m name value) = NodeIds value
    NodeIds (Node.ivar_assign_op m name op value) = NodeIds value
    NodeIds (Node.ivar_read m name) = Unit
    NodeIds (Node.literal_string m str) = Unit
    NodeIds (Node.lambda m body) = ScopeIds body
    NodeIds (Node.raise m value) = NodeIds value
    NodeIds (Node.not m value) = NodeIds value
    NodeIds (Node.and m left right) = NodeIds left × NodeIds right

    pub NodesIds : Nodes → Type 0
    NodesIds end = Unit
    NodesIds (node n ns) = NodeIds n × NodesIds ns

    pub OptIds : OptNode → Type 0
    OptIds null = Unit
    OptIds (just n) = NodeIds n

    pub ArgsIds : Args → Type 0
    ArgsIds no_args = Unit
    ArgsIds (args ns kw) = NodesIds ns

    -- Nothing is visited of a default value.
    pub ArgumentsIds : Arguments → Type 0
    ArgumentsIds no_more = Unit
    ArgumentsIds (argument m name c position o rest) =
        (imports m.id ≡ false) × OptIds c × IsFree o × ArgumentsIds rest

    pub ScopeIds : Scope → Type 0
    ScopeIds (scope m self as' body) = SelfPlain imports self × ArgumentsIds as' × NodeIds body
