-- ===== src/Parsing/Actions/Simple.antt =====
-- vm/parser_state.cpp: the actions that make one node of others. An action that has two forms in the
-- source has two names here.
use marius.Base.{ℕ, none, some, [], ◌∷◌, ◌==◌, if◌then◌else◌}
use marius.Base.Int.{ℤ}
use marius.Ast.{Bytes, Meta, Node, Nodes, Special, no_args, args, end, node, null, just}
use marius.Parsing.State.{M, make_at, make}

-- `Node::line`
abbrev pub node_line : Node → ℕ
node_line (Node.seq m x1 x2) = m.line
node_line (Node.send_indirect m x1 x2 x3) = m.line
node_line (Node.cast m x1 x2) = m.line
node_line (Node.tuple m x1) = m.line
node_line (Node.list m x1) = m.line
node_line (Node.dictionary m x1 x2) = m.line
node_line (Node.send m x1 x2 x3 x4) = m.line
node_line (Node.number m x1) = m.line
node_line (Node.named m x1) = m.line
node_line (Node.return m x1) = m.line
node_line (Node.class m x1 x2 x3) = m.line
node_line (Node.trait m x1 x2) = m.line
node_line (Node.def m x1 x2 x3 x4) = m.line
node_line (Node.cascade m x1 x2) = m.line
node_line (Node.if_cond m x1 x2 x3) = m.line
node_line (Node.unless m x1 x2) = m.line
node_line (Node.while m x1 x2) = m.line
node_line (Node.nil m) = m.line
node_line (Node.true m) = m.line
node_line (Node.false m) = m.line
node_line (Node.self m) = m.line
node_line (Node.import m x1 x2) = m.line
node_line (Node.import_one m x1 x2 x3) = m.line
node_line (Node.try m x1 x2 x3 x4) = m.line
node_line (Node.assign m x1 x2) = m.line
node_line (Node.assign_op m x1 x2 x3) = m.line
node_line (Node.load_attr m x1 x2) = m.line
node_line (Node.ivar_assign m x1 x2) = m.line
node_line (Node.ivar_assign_op m x1 x2 x3) = m.line
node_line (Node.ivar_read m x1) = m.line
node_line (Node.literal_string m x1) = m.line
node_line (Node.lambda m x1) = m.line
node_line (Node.raise m x1) = m.line
node_line (Node.not m x1) = m.line
node_line (Node.and m x1 x2) = m.line

-- `Import::Import`: what stands behind the last dot.
abbrev pub after_last : Bytes → Bytes → Bytes
after_last [] best = best
after_last (c ∷ cs) best = if c == b'.' then after_last cs cs else after_last cs best

abbrev pub seq : Node → Node → M Node
seq l r = make_at (node_line l) (λ (m : Meta). Node.seq m l r)

abbrev pub send_indirect : Node → Node → M Node
send_indirect recv n = make (λ (m : Meta). Node.send_indirect m n recv no_args)

abbrev pub send : Node → Bytes → M Node
send recv n = make_at (node_line recv) (λ (m : Meta). Node.send m n recv no_args Special.none)

abbrev pub send_attr : Node → Bytes → M Node
send_attr recv n = make_at (node_line recv) (λ (m : Meta). Node.send m n recv no_args Special.attr)

abbrev pub send_set_attr : Node → Bytes → Node → M Node
send_set_attr recv n val =
    make_at (node_line recv)
      (λ (m : Meta). Node.send m n recv (args (node val end) []) Special.set_attr)

abbrev pub lit_str : Bytes → M Node
lit_str n = make (λ (m : Meta). Node.literal_string m n)

abbrev pub attr : Node → Bytes → M Node
attr r n = make (λ (m : Meta). Node.load_attr m r n)

abbrev pub named : Bytes → ℕ → M Node
named s line = make_at line (λ (m : Meta). Node.named m s)

abbrev pub ast_send : Bytes → Node → Nodes → M Node
ast_send name r as' =
    make_at (node_line r) (λ (m : Meta). Node.send m name r (args as' []) Special.none)

abbrev pub ast_binop : Bytes → Node → Node → M Node
ast_binop op a b =
    make_at (node_line a) (λ (m : Meta). Node.send m op a (args (node b end) []) Special.none)

abbrev pub number : ℤ → M Node
number a = make (λ (m : Meta). Node.number m a)

abbrev pub ret : Node → M Node
ret n = make (λ (m : Meta). Node.return m n)

abbrev pub if_cond : Node → Node → M Node
if_cond cond body = make (λ (m : Meta). Node.if_cond m cond body null)

abbrev pub if_else : Node → Node → Node → M Node
if_else cond body ebody = make (λ (m : Meta). Node.if_cond m cond body (just ebody))

abbrev pub unless : Node → Node → M Node
unless cond body = make (λ (m : Meta). Node.unless m cond body)

abbrev pub while_ : Node → Node → M Node
while_ cond body = make (λ (m : Meta). Node.while m cond body)

abbrev pub ast_nil : M Node
ast_nil = make (λ (m : Meta). Node.nil m)

abbrev pub ast_true : M Node
ast_true = make (λ (m : Meta). Node.true m)

abbrev pub ast_false : M Node
ast_false = make (λ (m : Meta). Node.false m)

abbrev pub self : M Node
self = make (λ (m : Meta). Node.self m)

abbrev pub import : Bytes → M Node
import name = make (λ (m : Meta). Node.import m name (after_last name name))

abbrev pub import_as : Bytes → Bytes → M Node
import_as path name = make (λ (m : Meta). Node.import m path name)

abbrev pub import_one : Bytes → Bytes → M Node
import_one name elem = make (λ (m : Meta). Node.import_one m name elem elem)

abbrev pub import_one_as : Bytes → Bytes → Bytes → M Node
import_one_as path elem name = make (λ (m : Meta). Node.import_one m path elem name)

abbrev pub ast_try : Node → Node → M Node
ast_try b h = make (λ (m : Meta). Node.try m b h none null)

abbrev pub ast_try_as : Node → Bytes → Node → Node → M Node
ast_try_as b id t h = make (λ (m : Meta). Node.try m b h (some id) (just t))

abbrev pub assign_to : Bytes → Node → ℕ → M Node
assign_to name n line = make_at line (λ (m : Meta). Node.assign m name n)

abbrev pub ivar_assign : Bytes → Node → M Node
ivar_assign name v = make_at (node_line v) (λ (m : Meta). Node.ivar_assign m name v)

abbrev pub assign_op : Bytes → Bytes → Node → M Node
assign_op name op n = make_at (node_line n) (λ (m : Meta). Node.assign_op m name op n)

abbrev pub ivar_assign_op : Bytes → Bytes → Node → M Node
ivar_assign_op name op n = make (λ (m : Meta). Node.ivar_assign_op m name op n)

abbrev pub ivar_read : Bytes → M Node
ivar_read name = make (λ (m : Meta). Node.ivar_read m name)

abbrev pub cast : Node → Node → M Node
cast e type = make (λ (m : Meta). Node.cast m e type)

abbrev pub raise : Node → M Node
raise v = make (λ (m : Meta). Node.raise m v)

abbrev pub not_ : Node → M Node
not_ v = make (λ (m : Meta). Node.not m v)

abbrev pub and_ : Node → Node → M Node
and_ a b = make (λ (m : Meta). Node.and m a b)
