-- ===== src/Parsing/Scoped.antt =====
-- vm/parser_state.cpp: what the actions keep to that make scopes, cascades and lists of arguments.
use marius.Base.{
  codes, ℕ, ◌≡◌, ◌≢◌, refl, sym, Bool, true, false, Option, none, some, List, [], ◌∷◌, subst,
}
use marius.Ast.{
  Special, no_args, Bytes, Meta, Node, OptNode, null, just, no_more, scope, end, node, args,
}
use marius.Tracking.Identities.{NodeIds, OptIds}
use marius.Tracking.Scopes.{SelfPlain}
use mathlib.Core.Option.{none-ne-some}
use marius.Parsing.State.{
  M, ParserState, CascadeNode, new_node, make, get_line, check_line, get_context, get_arg_info,
  push_node,
}
use marius.Parsing.Actions.{
  self_argument, new_scope, put_top, set_top, or_object, ast_class, trait, ast_def, lambda,
  put_cascade, start_cascade, add_message, push_message, cascade, take_cascade, end_cascade,
  put_arg_info, add_arg, add_kw_arg, self_send, dcolon, self, node_line,
}
use marius.Parsing.Built.{
  CascadesIds, Built, Known, Result, Builds, bind-Builds, result-kept, result-of, keep-Builds,
  get-Builds, pure-Builds, new_node-Builds, check_line-Builds, make_at-Builds, make-Builds,
}
use marius.Parsing.Kept.{
  push_node-NodesIds, self_argument-Builds, get_context-Builds, get_arg_info-Builds,
  new_scope-Builds, then_pop-Builds,
}

abbrev pub Gives : M Node → ((ℕ → Bool) → Type 0) → Type 0
Gives m Pre = Builds m Pre (λ imports n. NodeIds imports n)

abbrev pub Does : M (Unit {0}) → ((ℕ → Bool) → Type 0) → Type 0
Does m Pre = Builds m Pre (λ imports u. Unit {0})

-- Scopes.
abbrev HasSelf : (ℕ → Bool) → Option ℕ → Type 0
HasSelf imports a = SelfPlain imports a × (a ≢ none)

top_argument-Builds : {Pre : (ℕ → Bool) → Type 0} → Builds self_argument Pre HasSelf
top_argument-Builds =
    bind-Builds new_node _ (new_node-Builds false)
      (λ id. pure-Builds (some id) (λ imports pre. (pre.1, λ e. none-ne-some id (sym e))))

pub set_top-Builds : (b : Node) → Does (set_top b) (λ imports. NodeIds imports b)
set_top-Builds b = bind-Builds self_argument _ top_argument-Builds (λ a.
    bind-Builds new_node _ (new_node-Builds false) (λ id.
      bind-Builds get_line _ (get-Builds (λ s. s.line)) (λ l.
        bind-Builds (check_line l) _ (check_line-Builds l) (λ u.
          keep-Builds (λ s. tt) (put_top (scope (record { id = id; line = l }) a no_more b))
            (λ s. refl)
            (λ s imports pre ids. (
              record {
                context = ids.context;
                stack = ids.stack;
                arg_info = ids.arg_info;
                arg_infos = ids.arg_infos;
                cascades = ids.cascades;
                top = ((pre.0.0.0.1.0, tt, pre.0.0.0.0), pre.0.0.0.1.1);
              },
              tt,
            ))))))

pub or_object-Builds :
    {Pre : (ℕ → Bool) → Type 0} (super : OptNode)
    → ((imports : ℕ → Bool) → Pre imports → OptIds imports super)
    → Gives (or_object super) Pre
or_object-Builds null h = bind-Builds get_line _ (get-Builds (λ s. s.line)) (λ l.
    make_at-Builds false (λ (m : Meta). Node.named m (codes "Object")) (λ imports m pre e. e) l)
or_object-Builds (just n) h = pure-Builds n h

pub ast_class-Builds :
    {Pre : (ℕ → Bool) → Type 0} (name : Bytes) (super : OptNode) (body : Node)
    → ((imports : ℕ → Bool) → Pre imports → OptIds imports super × NodeIds imports body)
    → Gives (ast_class name super body) Pre
ast_class-Builds name super body keeps = bind-Builds self_argument _ self_argument-Builds (λ a.
    bind-Builds (or_object super) _
      (or_object-Builds super (λ imports pre. (keeps imports pre.0).0))
      (λ sup.
        bind-Builds (new_scope a no_more body) _
          (new_scope-Builds a no_more body
            (λ imports pre. (pre.0.1, tt, (keeps imports pre.0.0).1)))
          (λ sc. then_pop-Builds (make (λ (m : Meta). Node.class m name sup sc)) (
            make-Builds false (λ (m : Meta). Node.class m name sup sc)
              (λ imports m pre e. (pre.1.0, pre.0.1, pre.1.1))))))

pub trait-Builds :
    (name : Bytes) (body : Node) → Gives (trait name body) (λ imports. NodeIds imports body)
trait-Builds name body = bind-Builds self_argument _ self_argument-Builds (λ a.
    bind-Builds (new_scope a no_more body) _
      (new_scope-Builds a no_more body (λ imports pre. (pre.1, tt, pre.0)))
      (λ sc.
        then_pop-Builds (make (λ (m : Meta). Node.trait m name sc)) (
          make-Builds true (λ (m : Meta). Node.trait m name sc) (λ imports m pre e. (e, pre.1.1)))))

pub ast_def-Builds :
    (owner : Option Bytes) (name : Bytes) (b : Node)
    → Gives (ast_def owner name b) (λ imports. NodeIds imports b)
ast_def-Builds owner name b = bind-Builds self_argument _ self_argument-Builds (λ a.
    bind-Builds get_context _ get_context-Builds (λ c.
      bind-Builds (new_scope a c.arg_objs b) _
        (new_scope-Builds a c.arg_objs b (λ imports pre. (pre.0.1, pre.1, pre.0.0)))
        (λ sc. then_pop-Builds (make (λ (m : Meta). Node.def m owner name sc c.args)) (
          make-Builds false (λ (m : Meta). Node.def m owner name sc c.args)
            (λ imports m pre e. pre.1.1)))))

pub lambda-Builds : (b : Node) → Gives (lambda b) (λ imports. NodeIds imports b)
lambda-Builds b = bind-Builds get_context _ get_context-Builds (λ c.
    bind-Builds (new_scope none c.arg_objs b) _
      (new_scope-Builds none c.arg_objs b (λ imports pre. (tt, pre.1, pre.0)))
      (λ sc.
        then_pop-Builds (make (λ (m : Meta). Node.lambda m sc))
          (make-Builds false (λ (m : Meta). Node.lambda m sc) (λ imports m pre e. pre.1.1))))

-- Calls of `self`, and of a literal.
pub self_send-Builds : (n : Bytes) {Pre : (ℕ → Bool) → Type 0} → Gives (self_send n) Pre
self_send-Builds n =
    bind-Builds self _ (make-Builds false (λ (m : Meta). Node.self m) (λ imports m pre e. e)) (λ r.
      make-Builds false (λ (m : Meta). Node.send m n r no_args Special.self_less)
        (λ imports m pre e. (e, pre.1, tt)))

pub dcolon-Builds :
    (recv : Node) (n a : Bytes) → Gives (dcolon recv n a) (λ imports. NodeIds imports recv)
dcolon-Builds recv n a = bind-Builds new_node _ (new_node-Builds false) (λ id.
    make_at-Builds false
      (λ (m : Meta).
        Node.send m n recv
          (args (node (Node.literal_string (record { id = id; line = 0 }) a) end) []) Special.none)
      (λ imports m pre e. (e, pre.0, (tt, tt))) (node_line recv))

-- Arguments.
pub add_arg-Builds : (a : Node) → Does (add_arg a) (λ imports. NodeIds imports a)
add_arg-Builds a = bind-Builds get_arg_info _ get_arg_info-Builds (λ i.
    keep-Builds (λ s. tt) (put_arg_info (record i { nodes = push_node i.nodes a })) (λ s. refl)
      (λ s imports pre ids. (
        record {
          context = ids.context;
          stack = ids.stack;
          arg_info = push_node-NodesIds imports i.nodes a pre.1 pre.0;
          arg_infos = ids.arg_infos;
          cascades = ids.cascades;
          top = ids.top;
        },
        tt,
      )))

pub add_kw_arg-Builds :
    (name : Bytes) (a : Node) → Does (add_kw_arg name a) (λ imports. NodeIds imports a)
add_kw_arg-Builds name a = bind-Builds get_arg_info _ get_arg_info-Builds (λ i.
    keep-Builds (λ s. tt) (put_arg_info _) (λ s. refl)
      (λ s imports pre ids. (
        record {
          context = ids.context;
          stack = ids.stack;
          arg_info = push_node-NodesIds imports i.nodes a pre.1 pre.0;
          arg_infos = ids.arg_infos;
          cascades = ids.cascades;
          top = ids.top;
        },
        tt,
      )))

-- Cascades.
pub start_cascade-Builds :
    (recv : Node) → Does (start_cascade recv) (λ imports. NodeIds imports recv)
start_cascade-Builds recv = bind-Builds new_node _ (new_node-Builds false) (λ id.
    keep-Builds (λ s. tt) (put_cascade id recv) (λ s. refl)
      (λ s imports pre ids. (
        record {
          context = ids.context;
          stack = ids.stack;
          arg_info = ids.arg_info;
          arg_infos = ids.arg_infos;
          cascades = (pre.0, ids.cascades);
          top = ids.top;
        },
        tt,
      )))

module _ (Pre : (ℕ → Bool) → Type 0) (kinds : List Bool) (s : ParserState) (built : Built kinds s)
    (pre : Known kinds Pre) (t : ParserState) where
  add_message-Result :
      (name : Bytes) (cs : List CascadeNode)
      → s.cascades ≡ cs
      → (a : Unit {0}) → add_message name cs s ≡ some (a, t)
      → Result kinds t (λ imports. Unit {0})
  add_message-Result name [] q a e = absurd (none-ne-some (a, t) e)
  add_message-Result name (c ∷ cs) q a e =
      let next : ParserState = record s {
        cascades = record c { messages = push_message name c.messages } ∷ cs;
      } in
      result-of Pre (λ imports u. Unit {0}) kinds (tt, next) (a, t)
        (result-kept Pre (λ imports u. Unit {0}) kinds s tt next built pre refl
          (λ imports p ids.
            let h = subst (CascadesIds imports) q ids.cascades in
            (
              record {
                context = ids.context;
                stack = ids.stack;
                arg_info = ids.arg_info;
                arg_infos = ids.arg_infos;
                cascades = (h.0, h.1);
                top = ids.top;
              },
              tt,
            )))
        e

  take_cascade-Result :
      (cs : List CascadeNode)
      → s.cascades ≡ cs
      → (n : Node) → take_cascade cs s ≡ some (n, t)
      → Result kinds t (λ imports. NodeIds imports n)
  take_cascade-Result [] q n e = absurd (none-ne-some (n, t) e)
  take_cascade-Result (c ∷ cs) q n e =
      let next : ParserState = record s { cascades = cs } in
      let made : Node = Node.cascade c.meta c.recv c.messages in
      result-of Pre (λ imports m. NodeIds imports m) kinds (made, next) (n, t)
        (result-kept Pre (λ imports m. NodeIds imports m) kinds s made next built pre refl
          (λ imports p ids.
            let h = subst (CascadesIds imports) q ids.cascades in
            (
              record {
                context = ids.context;
                stack = ids.stack;
                arg_info = ids.arg_info;
                arg_infos = ids.arg_infos;
                cascades = h.1;
                top = ids.top;
              },
              h.0,
            )))
        e

pub cascade-Builds : (name : Bytes) {Pre : (ℕ → Bool) → Type 0} → Does (cascade name) Pre
cascade-Builds name {Pre} = record {
  run = λ kinds s a t built pre e.
      add_message-Result Pre kinds s built pre t name s.cascades refl a e;
}

pub end_cascade-Builds : {Pre : (ℕ → Bool) → Type 0} → Gives end_cascade Pre
end_cascade-Builds {Pre = Pre} = record {
  run = λ kinds s n t built pre e. take_cascade-Result Pre kinds s built pre t s.cascades refl n e;
}
