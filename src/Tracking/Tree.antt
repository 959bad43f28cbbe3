-- ===== src/Tracking/Tree.antt =====
-- vm/ast.cpp, vm/scope_tracker.cpp: the visit of a whole tree gives every node what the code generator
-- asks for.
use marius.Base.{ℕ, ◌≡◌, refl, Bool, true, false, Option, none, some, ◌∷◌, codes}
use marius.Ast.{
  Bytes, ArgMap, Node, Nodes, OptNode, Args, Arguments, Scope, end, node, null, just, no_args, args,
  no_more, argument, scope,
}
use marius.Local.{new_local}
use marius.Codegen.State.{Analysis}
use marius.Codegen.Layout.Locals.{NodeFits}
use marius.Codegen.Layout.Control.{is_some}
use marius.Codegen.Layout.Tree.{
  NodeCovered, NodesCovered, OptCovered, ArgsCovered, ArgumentsCovered, ScopeCovered, MayFit,
  scope_id,
}
use marius.Tracking.{Tracker, start_try_body, arguments_size, analysis, insert_new}
use marius.Tracking.Visit
use marius.Tracking.Visit.{accept, accept_scope, enter_class}
use marius.Tracking.Sound.{IsSound, IsSound-MayFit}
use marius.Tracking.Steps.{Knows, Run, Ensures, Ensures-weaken, >>-Ensures, skip-Ensures}
use marius.Tracking.Visits.{own_variable-Ensures, visit_assign-Ensures, insert_new-Passes}
use marius.Tracking.Searches.{visit_named-Ensures, visit_self-Ensures, visit_send-Ensures}
use marius.Tracking.Globals.{
  IsGlobal, visit_import-Ensures, visit_dictionary-Ensures, push_trait-Ensures, visit_trait-Ensures,
}
use marius.Tracking.Scopes.{ArgumentsPlain, ArgumentsFit, scope-Run}
use marius.Tracking.Identities.{NodeIds, NodesIds, OptIds, ArgsIds, ArgumentsIds, ScopeIds}

abbrev CastsCovered : Arguments → Analysis → Type 0
CastsCovered no_more an = Unit
CastsCovered (argument m name c position o rest) an = OptCovered ⊥ an c × CastsCovered rest an

ArgumentsIds-ArgumentsPlain :
    (imports : ℕ → Bool) (as' : Arguments) → ArgumentsIds imports as' → ArgumentsPlain imports as'
ArgumentsIds-ArgumentsPlain imports no_more h = tt
ArgumentsIds-ArgumentsPlain imports (argument m name c position o rest) h =
    (h.0, ArgumentsIds-ArgumentsPlain imports rest h.3)

ArgumentsFit-ArgumentsCovered :
    (imports : ℕ → Bool) (as' : Arguments) (an : Analysis)
    → ArgumentsIds imports as'
    → ((id : ℕ) → MayFit ⊥ an id)
    → ArgumentsFit imports as' an
    → CastsCovered as' an
    → ArgumentsCovered ⊥ an as'
ArgumentsFit-ArgumentsCovered imports no_more an h may f c = tt
ArgumentsFit-ArgumentsCovered imports (argument m name cast position o rest) an h may f c =
    (f.0, c.0, h.2 an may, ArgumentsFit-ArgumentsCovered imports rest an h.3 may f.1 c.1)

module _ (imports : ℕ → Bool) where
  start_try_body-Ensures :
      (id : ℕ) (name : Option Bytes)
      → imports id ≡ false
      → Ensures imports (λ an. is_some name ≡ true → NodeFits ⊥ an id) (start_try_body id name)
  start_try_body-Ensures id none plain =
      Ensures-weaken imports (λ an c e. cc) (skip-Ensures imports)
  start_try_body-Ensures id (some name) plain =
      Ensures-weaken imports (λ an c e. c) (own_variable-Ensures imports id plain name)

  enter_class-Ensures :
      (name : Bytes) (body : Scope)
      → imports (scope_id body) ≡ false
      → Ensures imports (λ an. NodeFits ⊥ an (scope_id body)) (enter_class name body)
  enter_class-Ensures name (scope m self as' body) plain s good k = record {
    after = insert_new m.id name new_local s;
    ran = refl;
    passes = insert_new-Passes imports good m.id plain name new_local refl (λ e. cc);
  }

  -- In a sound tracker every local that the map has is of use.
  Run-covered :
      {A B : Analysis → Type 0} {s : Tracker} {r : Option Tracker}
      → ((an : Analysis) → ((id : ℕ) → MayFit ⊥ an id) → A an → B an)
      → Run imports A s r
      → Run imports B s r
  Run-covered w r = record {
    after = r.after;
    ran = r.ran;
    passes = record {
      sound = r.passes.sound;
      stack = r.passes.stack;
      self = r.passes.self;
      heap = r.passes.heap;
      extends = r.passes.extends;
      covers = λ f good ext. w (analysis f) (IsSound-MayFit good) (r.passes.covers f good ext);
    };
  }

-- The `self` argument of a scope.
abbrev pub scope_self : Scope → Option ℕ
scope_self (scope m self as' body) = self

-- The globals that the tracker looks up itself.
pub record HasGlobals (globals : ArgMap) : Type 0 where
  pub importer : IsGlobal globals (codes "Importer")
  pub trait : IsGlobal globals (codes "Trait")
  pub dictionary : IsGlobal globals (codes "Dictionary")

module _ (imports : ℕ → Bool) (globals : ArgMap) (has : HasGlobals globals) where
  mutual
    unfolding accept

    pub accept-Ensures :
        (n : Node)
        → NodeIds imports n
        → Ensures imports (λ an. NodeCovered ⊥ an n) (Visit.accept globals n)
    accept-Ensures (Node.seq m a b) h =
        >>-Ensures imports (accept-Ensures a h.0) (accept-Ensures b h.1)
    accept-Ensures (Node.send_indirect m name recv as') h =
        Ensures-weaken imports (λ an c. (c.0.1, c.0.0, c.1))
          (>>-Ensures imports
            (>>-Ensures imports (accept-Ensures recv h.1) (accept-Ensures name h.0))
            (accept_args-Ensures as' h.2))
    accept-Ensures (Node.cast m value type) h =
        Ensures-weaken imports (λ an c. (c.1, c.0))
          (>>-Ensures imports (accept-Ensures type h.1) (accept-Ensures value h.0))
    accept-Ensures (Node.tuple m as') h = accept_args-Ensures as' h
    accept-Ensures (Node.list m as') h = accept_args-Ensures as' h
    accept-Ensures (Node.dictionary m values kw) h =
        Ensures-weaken imports (λ an c. (c.1, c.0))
          (>>-Ensures imports (accept_nodes-Ensures values h.1)
            (visit_dictionary-Ensures imports globals m.id h.0 has.dictionary))
    accept-Ensures (Node.send m name recv as' spec) h =
        Ensures-weaken imports (λ an c. (c.1, c.0.0, c.0.1))
          (>>-Ensures imports
            (>>-Ensures imports (accept-Ensures recv h.1) (accept_args-Ensures as' h.2))
            (visit_send-Ensures imports globals m.id h.0 name spec recv))
    accept-Ensures (Node.number m val) h = skip-Ensures imports
    accept-Ensures (Node.named m name) h = visit_named-Ensures imports globals m.id h name
    accept-Ensures (Node.return m val) h = accept-Ensures val h
    accept-Ensures (Node.class m name super body) h =
        Ensures-weaken imports (λ an c. (c.0.0, c.0.1, c.1))
          (>>-Ensures imports
            (>>-Ensures imports (enter_class-Ensures imports name body h.0)
              (accept-Ensures super h.1))
            (λ s good k. accept_scope-Run body s h.2 good (λ e. k)))
    accept-Ensures (Node.trait m name body) h =
        Ensures-weaken imports (λ an c. (c.1, c.0.1))
          (>>-Ensures imports
            (>>-Ensures imports (push_trait-Ensures imports globals m.id)
              (λ s good k. accept_scope-Run body s h.1 good (λ e. k)))
            (visit_trait-Ensures imports globals m.id name h.0 has.trait))
    accept-Ensures (Node.def m sc name body as') h =
        λ s good k. accept_scope-Run body s h good (λ e. k)
    accept-Ensures (Node.cascade m recv messages) h = accept-Ensures recv h
    accept-Ensures (Node.if_cond m recv body ebody) h =
        Ensures-weaken imports (λ an c. (c.0.0, c.0.1, c.1))
          (>>-Ensures imports
            (>>-Ensures imports (accept-Ensures recv h.0) (accept-Ensures body h.1))
            (accept_opt-Ensures ebody h.2))
    accept-Ensures (Node.unless m recv body) h =
        >>-Ensures imports (accept-Ensures recv h.0) (accept-Ensures body h.1)
    accept-Ensures (Node.while m cond body) h =
        >>-Ensures imports (accept-Ensures cond h.0) (accept-Ensures body h.1)
    accept-Ensures (Node.nil m) h = skip-Ensures imports
    accept-Ensures (Node.true m) h = skip-Ensures imports
    accept-Ensures (Node.false m) h = skip-Ensures imports
    accept-Ensures (Node.self m) h = visit_self-Ensures imports globals m.id h
    accept-Ensures (Node.import m path name) h =
        visit_import-Ensures imports globals m.id name (codes "Importer") h has.importer
    accept-Ensures (Node.import_one m path elem name) h =
        visit_import-Ensures imports globals m.id name (codes "Importer") h has.importer
    accept-Ensures (Node.try m body handler id type) h =
        Ensures-weaken imports (λ an c. (c.0.0.1, c.0.0.0, c.1, c.0.1))
          (>>-Ensures imports
            (>>-Ensures imports
              (>>-Ensures imports (accept-Ensures body h.1)
                (start_try_body-Ensures imports m.id id h.0))
              (accept_opt-Ensures type h.3))
            (accept-Ensures handler h.2))
    accept-Ensures (Node.assign m name value) h =
        Ensures-weaken imports (λ an c. (c.1, c.0))
          (>>-Ensures imports (accept-Ensures value h.1)
            (visit_assign-Ensures imports m.id h.0 name))
    accept-Ensures (Node.assign_op m name op value) h =
        Ensures-weaken imports (λ an c. (c.1, c.0))
          (>>-Ensures imports (accept-Ensures value h.1)
            (own_variable-Ensures imports m.id h.0 name))
    accept-Ensures (Node.load_attr m recv name) h = accept-Ensures recv h
    accept-Ensures (Node.ivar_assign m name value) h = accept-Ensures value h
    accept-Ensures (Node.ivar_assign_op m name op value) h = accept-Ensures value h
    accept-Ensures (Node.ivar_read m name) h = skip-Ensures imports
    accept-Ensures (Node.literal_string m str) h = skip-Ensures imports
    accept-Ensures (Node.lambda m body) h = λ s good k. accept_scope-Run body s h good (λ e. k)
    accept-Ensures (Node.raise m value) h = accept-Ensures value h
    accept-Ensures (Node.not m value) h = accept-Ensures value h
    accept-Ensures (Node.and m left right) h =
        >>-Ensures imports (accept-Ensures left h.0) (accept-Ensures right h.1)

    accept_nodes-Ensures :
        (ns : Nodes)
        → NodesIds imports ns
        → Ensures imports (λ an. NodesCovered ⊥ an ns) (Visit.accept_nodes globals ns)
    accept_nodes-Ensures end h = skip-Ensures imports
    accept_nodes-Ensures (node n ns) h =
        >>-Ensures imports (accept-Ensures n h.0) (accept_nodes-Ensures ns h.1)

    accept_opt-Ensures :
        (o : OptNode)
        → OptIds imports o
        → Ensures imports (λ an. OptCovered ⊥ an o) (Visit.accept_opt globals o)
    accept_opt-Ensures null h = skip-Ensures imports
    accept_opt-Ensures (just n) h = accept-Ensures n h

    accept_args-Ensures :
        (as' : Args)
        → ArgsIds imports as'
        → Ensures imports (λ an. ArgsCovered ⊥ an as') (Visit.accept_args globals as')
    accept_args-Ensures no_args h = skip-Ensures imports
    accept_args-Ensures (args ns kw) h = accept_nodes-Ensures ns h

    accept_casts-Ensures :
        (as' : Arguments)
        → ArgumentsIds imports as'
        → Ensures imports (CastsCovered as') (Visit.accept_casts globals as')
    accept_casts-Ensures no_more h = skip-Ensures imports
    accept_casts-Ensures (argument m name c position o rest) h =
        >>-Ensures imports (accept_opt-Ensures c h.1) (accept_casts-Ensures rest h.3)

    -- A scope with a `self` of its own, or where one is known.
    pub accept_scope-Run :
        (sc : Scope) (s : Tracker)
        → ScopeIds imports sc
        → IsSound imports s
        → (scope_self sc ≡ none → Knows (s.scope ∷ s.stack))
        → Run imports (λ an. ScopeCovered ⊥ an sc) s (Visit.accept_scope globals sc s)
    accept_scope-Run (scope m self as' body) s h good k =
        Run-covered imports
          (λ an may c.
            (c.0.1, ArgumentsFit-ArgumentsCovered imports as' an h.1 may c.0.0 c.1.0, c.1.1))
          (scope-Run imports m.id (arguments_size as') self as' s h.0
            (ArgumentsIds-ArgumentsPlain imports as' h.1) (accept_casts-Ensures as' h.1)
            (accept-Ensures body h.2) good k)
