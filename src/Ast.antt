-- ===== src/Ast.antt =====
-- vm/ast.hpp: the syntax tree. A node carries its identity, by which the map of locals finds it,
-- and its line. A pointer that may be null is a type of its own where a node may stand behind it.
use Prim.Native.Nat.{ℕ}
use mathlib.Core.List.{List}
use mathlib.Core.Option.{Option}
use marius.Base.Int.{ℤ}

abbrev pub Bytes : Type 0
Bytes = List ℕ

-- `ArgMap`, a std::map, with its entries in their order.
abbrev pub ArgMap : Type 0
ArgMap = List (Bytes × ℕ)

pub record Meta : Type 0 where
  pub id : ℕ
  pub line : ℕ

-- `Send::Special`
pub data Special : Type 0 where
  none self_less attr set_attr : Special

mutual
  pub data Node : Type 0 where
    seq : Meta → Node → Node → Node
    send_indirect : Meta → Node → Node → Args → Node
    cast : Meta → Node → Node → Node
    tuple : Meta → Args → Node
    list : Meta → Args → Node
    dictionary : Meta → Nodes → ArgMap → Node
    send : Meta → Bytes → Node → Args → Special → Node
    number : Meta → ℤ → Node
    named : Meta → Bytes → Node
    return : Meta → Node → Node
    class : Meta → Bytes → Node → Scope → Node
    trait : Meta → Bytes → Scope → Node
    def : Meta → Option Bytes → Bytes → Scope → ArgMap → Node
    cascade : Meta → Node → List Bytes → Node
    if_cond : Meta → Node → Node → OptNode → Node
    unless : Meta → Node → Node → Node
    while : Meta → Node → Node → Node
    nil : Meta → Node
    true : Meta → Node
    false : Meta → Node
    self : Meta → Node
    import : Meta → Bytes → Bytes → Node
    import_one : Meta → Bytes → Bytes → Bytes → Node
    try : Meta → Node → Node → Option Bytes → OptNode → Node
    assign : Meta → Bytes → Node → Node
    assign_op : Meta → Bytes → Bytes → Node → Node
    load_attr : Meta → Node → Bytes → Node
    ivar_assign : Meta → Bytes → Node → Node
    ivar_assign_op : Meta → Bytes → Bytes → Node → Node
    ivar_read : Meta → Bytes → Node
    literal_string : Meta → Bytes → Node
    lambda : Meta → Scope → Node
    raise : Meta → Node → Node
    not : Meta → Node → Node
    and : Meta → Node → Node → Node

  -- `std::vector<Node*>`
  pub data Nodes : Type 0 where
    end : Nodes
    node : Node → Nodes → Nodes

  -- A node, or a null pointer.
  pub data OptNode : Type 0 where
    null : OptNode
    just : Node → OptNode

  -- `Arguments*`: positional nodes and the keywords' positions, or a null pointer.
  pub data Args : Type 0 where
    no_args : Args
    args : Nodes → ArgMap → Args

  -- `Argument`: name, cast, position, default value; and `ArgumentList`.
  pub data Arguments : Type 0 where
    no_more : Arguments
    argument : Meta → Bytes → OptNode → ℕ → OptNode → Arguments → Arguments

  -- `Scope`: its `self` argument by the node's identity (its name is "self", its position -1, where
  -- the parser makes one), its arguments, and its body.
  pub data Scope : Type 0 where
    scope : Meta → Option ℕ → Arguments → Node → Scope
