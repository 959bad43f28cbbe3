-- ===== src/Parsing/Trees.antt =====
-- vm/parser_state.cpp: the nodes and states that sequences of actions give.
use marius.Base.{◌++◌, ℕ, refl, sym, Bool, Option, none, some, List, [], ◌∷◌, subst, inl, inr}
use marius.Ast.{Node, OptNode, null, just}
use marius.Tracking.Identities.{NodeIds}
use marius.Parsing.State.{ParserState}
use marius.Parsing.Steps.{Action, Takes, OptTakes, IsHeld, keep, Reaches}
use marius.Parsing.Built.{ResultIds, Known, Known-more, Built, Result}
use marius.Parsing.Performs.{perform-Builds}

module _ {P Q : Node → Type 0} (f : (n : Node) → P n → Q n) where
  OptTakes-map : (o : OptNode) → OptTakes P o → OptTakes Q o
  OptTakes-map null h = tt
  OptTakes-map (just n) h = f n h

  Takes-map : (a : Action) → Takes P a → Takes Q a
  Takes-map (Action.seq l r) takes = (f l takes.0, f r takes.1)
  Takes-map (Action.send_indirect recv n) takes = (f recv takes.0, f n takes.1)
  Takes-map (Action.send recv n) takes = f recv takes
  Takes-map (Action.send_attr recv n) takes = f recv takes
  Takes-map (Action.send_set_attr recv n val) takes = (f recv takes.0, f val takes.1)
  Takes-map (Action.lit_str n) takes = tt
  Takes-map (Action.attr r n) takes = f r takes
  Takes-map (Action.named s line) takes = tt
  Takes-map (Action.ast_binop op a b) takes = (f a takes.0, f b takes.1)
  Takes-map (Action.number a) takes = tt
  Takes-map (Action.ret n) takes = f n takes
  Takes-map (Action.if_cond cond body) takes = (f cond takes.0, f body takes.1)
  Takes-map (Action.if_else cond body ebody) takes =
      (f cond takes.0, f body takes.1, f ebody takes.2)
  Takes-map (Action.unless cond body) takes = (f cond takes.0, f body takes.1)
  Takes-map (Action.while_ cond body) takes = (f cond takes.0, f body takes.1)
  Takes-map Action.ast_nil takes = tt
  Takes-map Action.ast_true takes = tt
  Takes-map Action.ast_false takes = tt
  Takes-map Action.self takes = tt
  Takes-map (Action.import name) takes = tt
  Takes-map (Action.import_as path name) takes = tt
  Takes-map (Action.import_one name elem) takes = tt
  Takes-map (Action.import_one_as path elem name) takes = tt
  Takes-map (Action.ast_try b h) takes = (f b takes.0, f h takes.1)
  Takes-map (Action.ast_try_as b id t h) takes = (f b takes.0, f t takes.1, f h takes.2)
  Takes-map (Action.assign_to name n line) takes = f n takes
  Takes-map (Action.ivar_assign name v) takes = f v takes
  Takes-map (Action.assign_op name op n) takes = f n takes
  Takes-map (Action.ivar_assign_op name op n) takes = f n takes
  Takes-map (Action.ivar_read name) takes = tt
  Takes-map (Action.cast e type) takes = (f e takes.0, f type takes.1)
  Takes-map (Action.raise v) takes = f v takes
  Takes-map (Action.not_ v) takes = f v takes
  Takes-map (Action.and_ a b) takes = (f a takes.0, f b takes.1)
  Takes-map (Action.ast_class name super body) takes = (OptTakes-map super takes.0, f body takes.1)
  Takes-map (Action.trait name body) takes = f body takes
  Takes-map (Action.ast_def owner name b) takes = f b takes
  Takes-map (Action.lambda b) takes = f b takes
  Takes-map (Action.self_send n) takes = tt
  Takes-map (Action.dcolon recv n a) takes = f recv takes
  Takes-map Action.end_cascade takes = tt
  Takes-map (Action.send_args recv id) takes = f recv takes
  Takes-map (Action.send_indirect_args recv name) takes = (f recv takes.0, f name takes.1)
  Takes-map (Action.self_send_args id) takes = tt
  Takes-map Action.tuple takes = tt
  Takes-map Action.list takes = tt
  Takes-map Action.dict takes = tt
  Takes-map (Action.set_top b) takes = f b takes
  Takes-map Action.start_scope takes = tt
  Takes-map (Action.def_arg name) takes = tt
  Takes-map (Action.def_opt_arg name val) takes = takes
  Takes-map (Action.def_arg_cast name c) takes = f c takes
  Takes-map (Action.start_cascade recv) takes = f recv takes
  Takes-map (Action.cascade name) takes = tt
  Takes-map Action.start_arg_list takes = tt
  Takes-map (Action.add_arg a) takes = f a takes
  Takes-map (Action.add_kw_arg name a) takes = f a takes

module _ (imports : ℕ → Bool) where
  abbrev HeldIds : List Node → Type 0
  HeldIds [] = Unit {0}
  HeldIds (n ∷ held) = NodeIds imports n × HeldIds held

  HeldIds-find : (held : List Node) (n : Node) → HeldIds held → IsHeld held n → NodeIds imports n
  HeldIds-find [] n h there = elim there [ ]
  HeldIds-find (m ∷ held) n (h, hs) (inl e) = subst (NodeIds imports) (sym e) h
  HeldIds-find (m ∷ held) n (h, hs) (inr there) = HeldIds-find held n hs there

  HeldIds-keep :
      (r : Option Node) (held : List Node)
      → ResultIds imports r
      → HeldIds held
      → HeldIds (keep r held)
  HeldIds-keep none held h hs = hs
  HeldIds-keep (some n) held h hs = (h, hs)

-- What is known of a state and the nodes that were given.
pub record IsBuilt (s : ParserState) (held : List Node) : Type 0 where
  pub kinds : List Bool
  pub built : Built kinds s
  pub holds : Known kinds (λ imports. HeldIds imports held)

pub reaches-IsBuilt : {s : ParserState} {held : List Node} → Reaches s held → IsBuilt s held
reaches-IsBuilt (Reaches.start line) = record {
  kinds = [];
  built = record {
    counted = refl;
    held = λ imports agrees. record {
      context = tt;
      stack = tt;
      arg_info = tt;
      arg_infos = tt;
      cascades = tt;
      top = tt;
    };
  };
  holds = λ imports agrees. tt;
}
reaches-IsBuilt (Reaches.act s t held a r there takes e) =
    let b = reaches-IsBuilt there in
    let q : Result b.kinds t (λ imports. ResultIds imports r) =
      (perform-Builds a).run b.kinds s r t b.built
        (λ imports agrees.
          Takes-map (λ n. HeldIds-find imports held n (b.holds imports agrees)) a takes)
        e in
    record {
      kinds = b.kinds ++ q.more;
      built = q.built;
      holds = λ imports agrees.
          HeldIds-keep imports r held (q.knows imports agrees)
            (Known-more b.kinds q.more (λ im. HeldIds im held) b.holds imports agrees);
    }
reaches-IsBuilt (Reaches.go_on s held line there) =
    let b = reaches-IsBuilt there in
    record {
      kinds = b.kinds;
      built = record {
        counted = b.built.counted;
        held = λ imports agrees.
            let ids = b.built.held imports agrees in
            record {
              context = ids.context;
              stack = ids.stack;
              arg_info = ids.arg_info;
              arg_infos = ids.arg_infos;
              cascades = ids.cascades;
              top = ids.top;
            };
      };
      holds = b.holds;
    }
