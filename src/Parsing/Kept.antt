-- ===== src/Parsing/Kept.antt =====
-- vm/parser_state.cpp: what the contexts, the gathered arguments and the parts of an action keep to.
use marius.Base.{ℕ, ◌≡◌, refl, Bool, false, Option, some, List, [], ◌∷◌, length, subst}
use marius.Ast.{
  Bytes, Meta, Node, Nodes, OptNode, Args, Arguments, args, end, node, no_more, argument, scope,
}
use marius.Codegen.Layout.Tree.{scope_id}
use marius.Tracking.Scopes.{SelfPlain}
use marius.Tracking.Identities.{IsFree, NodeIds, NodesIds, OptIds, ArgsIds, ArgumentsIds, ScopeIds}
use mathlib.Core.Option.{none-ne-some}
use marius.Parsing.State.{
  to_context, to_arg_info, put_argument, M, ParserState, Context, ArgInfo, ◌>>=◌, ◌>>◌, pure,
  new_context, new_arg_info, new_node, make_at, get_line, get_context, get_arg_info, push_context,
  pop_context, push_arg_info, pop_arg_info, push_node, push_argument, add_argument, gathered_args,
}
use marius.Parsing.Actions.{self_argument, new_scope, with_args}
use marius.Parsing.Built.{
  ContextsIds, InfosIds, Built, Known, Result, Builds, bind-Builds, result-kept, result-of,
  keep-Builds, get-Builds, pure-Builds, new_node-Builds, make_at-Builds,
}

module _ (imports : ℕ → Bool) where
  pub push_node-NodesIds :
      (ns : Nodes) (n : Node)
      → NodesIds imports ns
      → NodeIds imports n
      → NodesIds imports (push_node ns n)
  push_node-NodesIds end n h hn = (hn, tt)
  push_node-NodesIds (node m ns) n (h, hs) hn = (h, push_node-NodesIds ns n hs hn)

  push_argument-ArgumentsIds :
      (as' : Arguments) (m : Meta) (name : Bytes) (c : OptNode) (p : ℕ) (o : OptNode)
      → ArgumentsIds imports as'
      → imports m.id ≡ false
      → OptIds imports c
      → IsFree o
      → ArgumentsIds imports (push_argument as' (argument m name c p o))
  push_argument-ArgumentsIds no_more m name c p o h e hc ho = (e, hc, ho, tt)
  push_argument-ArgumentsIds (argument m' name' c' p' o' rest) m name c p o (a, b, d, h) e hc ho =
      (a, b, d, push_argument-ArgumentsIds rest m name c p o h e hc ho)

module _ {Pre : (ℕ → Bool) → Type 0} where
  pub push_context-Builds : Builds push_context Pre (λ imports u. Unit {0})
  push_context-Builds =
      keep-Builds (λ s. tt) (λ s. record s { stack = s.context ∷ s.stack; context = new_context })
        (λ s. refl)
        (λ s imports pre ids. (
          record {
            context = tt;
            stack = (ids.context, ids.stack);
            arg_info = ids.arg_info;
            arg_infos = ids.arg_infos;
            cascades = ids.cascades;
            top = ids.top;
          },
          tt,
        ))

  pub push_arg_info-Builds : Builds push_arg_info Pre (λ imports u. Unit {0})
  push_arg_info-Builds =
      keep-Builds (λ s. tt)
        (λ s. record s { arg_infos = s.arg_info ∷ s.arg_infos; arg_info = new_arg_info })
        (λ s. refl)
        (λ s imports pre ids. (
          record {
            context = ids.context;
            stack = ids.stack;
            arg_info = tt;
            arg_infos = (ids.arg_info, ids.arg_infos);
            cascades = ids.cascades;
            top = ids.top;
          },
          tt,
        ))

  pub get_context-Builds : Builds get_context Pre (λ imports c. ArgumentsIds imports c.arg_objs)
  get_context-Builds =
      keep-Builds (λ s. s.context) (λ s. s) (λ s. refl) (λ s imports pre ids. (ids, ids.context))

  pub get_arg_info-Builds : Builds get_arg_info Pre (λ imports i. NodesIds imports i.nodes)
  get_arg_info-Builds =
      keep-Builds (λ s. s.arg_info) (λ s. s) (λ s. refl) (λ s imports pre ids. (ids, ids.arg_info))

  pub self_argument-Builds : Builds self_argument Pre (λ imports a. SelfPlain imports a)
  self_argument-Builds =
      bind-Builds new_node _ (new_node-Builds false)
        (λ id. pure-Builds (some id) (λ imports pre. pre.1))

module _ (Pre : (ℕ → Bool) → Type 0) (kinds : List Bool) (s : ParserState) (built : Built kinds s)
    (pre : Known kinds Pre) (a : Unit {0}) (t : ParserState) where
  pop_context-Result :
      (cs : List Context)
      → s.stack ≡ cs
      → to_context cs s ≡ some (a, t)
      → Result kinds t (λ imports. Unit {0})
  pop_context-Result [] q e = absurd (none-ne-some (a, t) e)
  pop_context-Result (c ∷ cs) q e =
      result-of Pre (λ imports u. Unit {0}) kinds (tt, record s { context = c; stack = cs }) (a, t)
        (result-kept Pre (λ imports u. Unit {0}) kinds s tt (record s { context = c; stack = cs })
          built pre refl
          (λ imports p ids.
            let h = subst (ContextsIds imports) q ids.stack in
            (
              record {
                context = h.0;
                stack = h.1;
                arg_info = ids.arg_info;
                arg_infos = ids.arg_infos;
                cascades = ids.cascades;
                top = ids.top;
              },
              tt,
            )))
        e

  pop_arg_info-Result :
      (is : List ArgInfo)
      → s.arg_infos ≡ is
      → to_arg_info is s ≡ some (a, t)
      → Result kinds t (λ imports. Unit {0})
  pop_arg_info-Result [] q e = absurd (none-ne-some (a, t) e)
  pop_arg_info-Result (i ∷ is) q e =
      result-of Pre (λ imports u. Unit {0}) kinds (tt, record s { arg_info = i; arg_infos = is })
        (a, t)
        (result-kept Pre (λ imports u. Unit {0}) kinds s tt
          (record s { arg_info = i; arg_infos = is }) built pre refl
          (λ imports p ids.
            let h = subst (InfosIds imports) q ids.arg_infos in
            (
              record {
                context = ids.context;
                stack = ids.stack;
                arg_info = h.0;
                arg_infos = h.1;
                cascades = ids.cascades;
                top = ids.top;
              },
              tt,
            )))
        e

module _ {Pre : (ℕ → Bool) → Type 0} where
  pub pop_context-Builds : Builds pop_context Pre (λ imports u. Unit {0})
  pop_context-Builds = record {
    run = λ kinds s a t built pre e. pop_context-Result Pre kinds s built pre a t s.stack refl e;
  }

  pub pop_arg_info-Builds : Builds pop_arg_info Pre (λ imports u. Unit {0})
  pop_arg_info-Builds = record {
    run =
        λ kinds s a t built pre e. pop_arg_info-Result Pre kinds s built pre a t s.arg_infos refl e;
  }

  pub new_scope-Builds :
      (a : Option ℕ) (as' : Arguments) (b : Node)
      → ((imports : ℕ → Bool)
          → Pre imports
          → SelfPlain imports a × ArgumentsIds imports as' × NodeIds imports b)
      → Builds
          (new_scope a as' b)
          Pre
          (λ imports sc. (imports (scope_id sc) ≡ false) × ScopeIds imports sc)
  new_scope-Builds a as' b keeps = bind-Builds new_node _ (new_node-Builds false) (λ id.
      pure-Builds (scope (record { id = id; line = 0 }) a as' b)
        (λ imports pre. (pre.1, keeps imports pre.0)))

  pub add_argument-Builds :
      (name : Bytes) (c o : OptNode)
      → ((imports : ℕ → Bool) → Pre imports → OptIds imports c × IsFree o)
      → Builds (add_argument name c o) Pre (λ imports u. Unit {0})
  add_argument-Builds name c o keeps = bind-Builds new_node _ (new_node-Builds false) (λ id.
      bind-Builds get_context _ get_context-Builds (λ x.
        keep-Builds (λ s. tt) (put_argument id name c o x) (λ s. refl)
          (λ s imports pre ids. (
            record {
              context =
                  push_argument-ArgumentsIds imports x.arg_objs (record { id = id; line = 0 }) name
                    c (length x.args) o pre.1 pre.0.1 (keeps imports pre.0.0).0
                    (keeps imports pre.0.0).1;
              stack = ids.stack;
              arg_info = ids.arg_info;
              arg_infos = ids.arg_infos;
              cascades = ids.cascades;
              top = ids.top;
            },
            tt,
          ))))

-- An action whose node is made last, while a context ends.
pub then_pop-Builds :
    {Pre : (ℕ → Bool) → Type 0} (m : M Node)
    → Builds m Pre (λ imports n. NodeIds imports n)
    → Builds (m >>= λ n. pop_context >> pure n) Pre (λ imports n. NodeIds imports n)
then_pop-Builds m h = bind-Builds m _ h (λ n.
    bind-Builds pop_context _ pop_context-Builds (λ u. pure-Builds n (λ imports pre. pre.0.1)))

pub with_args-Builds :
    {Pre : (ℕ → Bool) → Type 0} (b : Bool) (at : ℕ → ℕ) (f : Meta → Args → Node)
    → ((imports : ℕ → Bool) (m : Meta) (as' : Args)
        → Pre imports
        → ArgsIds imports as'
        → imports m.id ≡ b
        → NodeIds imports (f m as'))
    → Builds (with_args at f) Pre (λ imports n. NodeIds imports n)
with_args-Builds b at f keeps =
    bind-Builds gathered_args _
      (bind-Builds get_arg_info _ {Post = λ imports as'. ArgsIds imports as'} get_arg_info-Builds
        (λ i. pure-Builds (args i.nodes i.keywords) (λ imports pre. pre.1)))
      (λ as'. bind-Builds get_line _ (get-Builds (λ s. s.line)) (λ l.
        bind-Builds (make_at (at l) (λ m. f m as')) _
          (make_at-Builds b (λ m. f m as')
            (λ imports m pre e. keeps imports m as' pre.0.0 pre.0.1 e) (at l))
          (λ n.
            bind-Builds pop_arg_info _ pop_arg_info-Builds
              (λ u. pure-Builds n (λ imports pre. pre.0.1)))))
