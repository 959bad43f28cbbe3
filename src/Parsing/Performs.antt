-- ===== src/Parsing/Performs.antt =====
-- vm/parser_state.cpp: the identities in what each action gives.
use marius.Base.{ℕ, ◌≡◌, Bool, true, false, none, some, []}
use marius.Ast.{Meta, Node, OptNode, Args, Special, no_args, args, null, just, end, node}
use marius.Tracking.Identities.{OptIds, NodeIds, ArgsIds}
use marius.Parsing.State.{M}
use marius.Parsing.Actions
use marius.Parsing.Actions.{node_line, dictionary_of, after_last}
use marius.Parsing.Steps.{Action, perform, node_of, no_node, Takes, OptTakes}
use marius.Parsing.Built.{ResultIds, Builds, bind-Builds, pure-Builds, make_at-Builds, make-Builds}
use marius.Parsing.Kept.{
  push_context-Builds, push_arg_info-Builds, add_argument-Builds, with_args-Builds,
}
use marius.Parsing.Scoped.{
  Gives, Does, set_top-Builds, ast_class-Builds, trait-Builds, ast_def-Builds, lambda-Builds,
  self_send-Builds, dcolon-Builds, add_arg-Builds, add_kw_arg-Builds, start_cascade-Builds,
  cascade-Builds, end_cascade-Builds,
}

node_of-Builds :
    {Pre : (ℕ → Bool) → Type 0} (m : M Node) → Gives m Pre → Builds (node_of m) Pre ResultIds
node_of-Builds m h = bind-Builds m _ h (λ n. pure-Builds (some n) (λ imports pre. pre.1))

no_node-Builds :
    {Pre : (ℕ → Bool) → Type 0} (m : M (Unit {0})) → Does m Pre → Builds (no_node m) Pre ResultIds
no_node-Builds m h = bind-Builds m _ h (λ u. pure-Builds none (λ imports pre. tt))

dictionary_of-NodeIds :
    (imports : ℕ → Bool) (m : Meta) (as' : Args)
    → ArgsIds imports as'
    → imports m.id ≡ false
    → NodeIds imports (dictionary_of m as')
dictionary_of-NodeIds imports m no_args h e = (e, tt)
dictionary_of-NodeIds imports m (args ns kw) h e = (e, h)

OptTakes-OptIds :
    (imports : ℕ → Bool) (o : OptNode) → OptTakes (NodeIds imports) o → OptIds imports o
OptTakes-OptIds imports null h = tt
OptTakes-OptIds imports (just n) h = h

-- Each action keeps to the identities, and gives a node that does.
pub perform-Builds :
    (a : Action) → Builds (perform a) (λ imports. Takes (NodeIds imports) a) ResultIds
perform-Builds (Action.seq l r) =
    node_of-Builds _
      (make_at-Builds false (λ (m : Meta). Node.seq m l r) (λ imports m h e. h) (node_line l))
perform-Builds (Action.send_indirect recv n) = node_of-Builds _ (
    make-Builds false (λ (m : Meta). Node.send_indirect m n recv no_args)
      (λ imports m h e. (h.1, h.0, tt)))
perform-Builds (Action.send recv n) = node_of-Builds _ (
    make_at-Builds false (λ (m : Meta). Node.send m n recv no_args Special.none)
      (λ imports m h e. (e, h, tt)) (node_line recv))
perform-Builds (Action.send_attr recv n) = node_of-Builds _ (
    make_at-Builds false (λ (m : Meta). Node.send m n recv no_args Special.attr)
      (λ imports m h e. (e, h, tt)) (node_line recv))
perform-Builds (Action.send_set_attr recv n val) = node_of-Builds _ (
    make_at-Builds false
      (λ (m : Meta). Node.send m n recv (args (node val end) []) Special.set_attr)
      (λ imports m h e. (e, h.0, (h.1, tt))) (node_line recv))
perform-Builds (Action.lit_str n) =
    node_of-Builds _
      (make-Builds false (λ (m : Meta). Node.literal_string m n) (λ imports m h e. tt))
perform-Builds (Action.attr r n) =
    node_of-Builds _ (make-Builds false (λ (m : Meta). Node.load_attr m r n) (λ imports m h e. h))
perform-Builds (Action.named s line) =
    node_of-Builds _ (make_at-Builds false (λ (m : Meta). Node.named m s) (λ imports m h e. e) line)
perform-Builds (Action.ast_binop op a b) = node_of-Builds _ (
    make_at-Builds false (λ (m : Meta). Node.send m op a (args (node b end) []) Special.none)
      (λ imports m h e. (e, h.0, (h.1, tt))) (node_line a))
perform-Builds (Action.number a) =
    node_of-Builds _ (make-Builds false (λ (m : Meta). Node.number m a) (λ imports m h e. tt))
perform-Builds (Action.ret n) =
    node_of-Builds _ (make-Builds false (λ (m : Meta). Node.return m n) (λ imports m h e. h))
perform-Builds (Action.if_cond cond body) = node_of-Builds _ (
    make-Builds false (λ (m : Meta). Node.if_cond m cond body null)
      (λ imports m h e. (h.0, h.1, tt)))
perform-Builds (Action.if_else cond body ebody) =
    node_of-Builds _
      (make-Builds false (λ (m : Meta). Node.if_cond m cond body (just ebody)) (λ imports m h e. h))
perform-Builds (Action.unless cond body) =
    node_of-Builds _
      (make-Builds false (λ (m : Meta). Node.unless m cond body) (λ imports m h e. h))
perform-Builds (Action.while_ cond body) =
    node_of-Builds _ (make-Builds false (λ (m : Meta). Node.while m cond body) (λ imports m h e. h))
perform-Builds Action.ast_nil =
    node_of-Builds _ (make-Builds false (λ (m : Meta). Node.nil m) (λ imports m h e. tt))
perform-Builds Action.ast_true =
    node_of-Builds _ (make-Builds false (λ (m : Meta). Node.true m) (λ imports m h e. tt))
perform-Builds Action.ast_false =
    node_of-Builds _ (make-Builds false (λ (m : Meta). Node.false m) (λ imports m h e. tt))
perform-Builds Action.self =
    node_of-Builds _ (make-Builds false (λ (m : Meta). Node.self m) (λ imports m h e. e))
perform-Builds (Action.import name) = node_of-Builds _ (
    make-Builds true (λ (m : Meta). Node.import m name (after_last name name)) (λ imports m h e. e))
perform-Builds (Action.import_as path name) =
    node_of-Builds _ (make-Builds true (λ (m : Meta). Node.import m path name) (λ imports m h e. e))
perform-Builds (Action.import_one name elem) =
    node_of-Builds _
      (make-Builds true (λ (m : Meta). Node.import_one m name elem elem) (λ imports m h e. e))
perform-Builds (Action.import_one_as path elem name) =
    node_of-Builds _
      (make-Builds true (λ (m : Meta). Node.import_one m path elem name) (λ imports m h e. e))
perform-Builds (Action.ast_try b h) = node_of-Builds _ (
    make-Builds false (λ (m : Meta). Node.try m b h none null) (λ imports m h e. (e, h.0, h.1, tt)))
perform-Builds (Action.ast_try_as b id t h) = node_of-Builds _ (
    make-Builds false (λ (m : Meta). Node.try m b h (some id) (just t))
      (λ imports m h e. (e, h.0, h.2, h.1)))
perform-Builds (Action.assign_to name n line) =
    node_of-Builds _
      (make_at-Builds false (λ (m : Meta). Node.assign m name n) (λ imports m h e. (e, h)) line)
perform-Builds (Action.ivar_assign name v) = node_of-Builds _ (
    make_at-Builds false (λ (m : Meta). Node.ivar_assign m name v) (λ imports m h e. h)
      (node_line v))
perform-Builds (Action.assign_op name op n) = node_of-Builds _ (
    make_at-Builds false (λ (m : Meta). Node.assign_op m name op n) (λ imports m h e. (e, h))
      (node_line n))
perform-Builds (Action.ivar_assign_op name op n) =
    node_of-Builds _
      (make-Builds false (λ (m : Meta). Node.ivar_assign_op m name op n) (λ imports m h e. h))
perform-Builds (Action.ivar_read name) =
    node_of-Builds _ (make-Builds false (λ (m : Meta). Node.ivar_read m name) (λ imports m h e. tt))
perform-Builds (Action.cast e type) =
    node_of-Builds _ (make-Builds false (λ (m : Meta). Node.cast m e type) (λ imports m h e. h))
perform-Builds (Action.raise v) =
    node_of-Builds _ (make-Builds false (λ (m : Meta). Node.raise m v) (λ imports m h e. h))
perform-Builds (Action.not_ v) =
    node_of-Builds _ (make-Builds false (λ (m : Meta). Node.not m v) (λ imports m h e. h))
perform-Builds (Action.and_ a b) =
    node_of-Builds _ (make-Builds false (λ (m : Meta). Node.and m a b) (λ imports m h e. h))
perform-Builds (Action.ast_class name super body) =
    node_of-Builds _
      (ast_class-Builds name super body (λ imports h. (OptTakes-OptIds imports super h.0, h.1)))
perform-Builds (Action.trait name body) = node_of-Builds _ (trait-Builds name body)
perform-Builds (Action.ast_def owner name b) = node_of-Builds _ (ast_def-Builds owner name b)
perform-Builds (Action.lambda b) = node_of-Builds _ (lambda-Builds b)
perform-Builds (Action.self_send n) = node_of-Builds _ (self_send-Builds n)
perform-Builds (Action.dcolon recv n a) = node_of-Builds _ (dcolon-Builds recv n a)
perform-Builds Action.end_cascade = node_of-Builds _ (end_cascade-Builds)
perform-Builds (Action.send_args recv id) = node_of-Builds _ (
    with_args-Builds false (λ l. node_line recv) (λ m as'. Node.send m id recv as' Special.none)
      (λ imports m as' h k e. (e, h, k)))
perform-Builds (Action.send_indirect_args recv name) = node_of-Builds _ (
    with_args-Builds false (λ l. l) (λ m as'. Node.send_indirect m name recv as')
      (λ imports m as' h k e. (h.1, h.0, k)))
perform-Builds (Action.self_send_args id) = node_of-Builds _ (
    bind-Builds Actions.self _ (make-Builds false (λ (m : Meta). Node.self m) (λ imports m h e. e))
      (λ r.
        with_args-Builds false (λ l. l) (λ m as'. Node.send m id r as' Special.self_less)
          (λ imports m as' h k e. (e, h.1, k))))
perform-Builds Action.tuple =
    node_of-Builds _
      (with_args-Builds false (λ l. l) (λ m as'. Node.tuple m as') (λ imports m as' h k e. k))
perform-Builds Action.list =
    node_of-Builds _
      (with_args-Builds false (λ l. l) (λ m as'. Node.list m as') (λ imports m as' h k e. k))
perform-Builds Action.dict = node_of-Builds _ (
    with_args-Builds false (λ l. l) dictionary_of
      (λ imports m as' h k e. dictionary_of-NodeIds imports m as' k e))
perform-Builds (Action.set_top b) = no_node-Builds _ (set_top-Builds b)
perform-Builds Action.start_scope = no_node-Builds _ (push_context-Builds)
perform-Builds (Action.def_arg name) =
    no_node-Builds _ (add_argument-Builds name null null (λ imports h. (tt, λ an fit. tt)))
perform-Builds (Action.def_opt_arg name val) =
    no_node-Builds _ (add_argument-Builds name null (just val) (λ imports h. (tt, h)))
perform-Builds (Action.def_arg_cast name c) =
    no_node-Builds _ (add_argument-Builds name (just c) null (λ imports h. (h, λ an fit. tt)))
perform-Builds (Action.start_cascade recv) = no_node-Builds _ (start_cascade-Builds recv)
perform-Builds (Action.cascade name) = no_node-Builds _ (cascade-Builds name)
perform-Builds Action.start_arg_list = no_node-Builds _ (push_arg_info-Builds)
perform-Builds (Action.add_arg a) = no_node-Builds _ (add_arg-Builds a)
perform-Builds (Action.add_kw_arg name a) = no_node-Builds _ (add_kw_arg-Builds name a)
