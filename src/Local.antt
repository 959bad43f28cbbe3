-- ===== src/Local.antt =====
-- vm/local.hpp: where a variable lives. Locals are shared by pointers, so they stand in a heap, and
-- a `Local*` is its position there. A failed `assert` and a null dereference are `none`.
use marius.Base.{
  ℕ, zero, suc, Bool, true, false, not, ◌&&◌, Option, none, some, List, [], ◌∷◌, ◌==◌,
  if◌then◌else◌, get_elem?,
}
use marius.Base.Int.{ℤ, pos}

pub data LocalType : Type 0 where
  reg closure_own closure_access closure_global argument : LocalType

pub record Local : Type 0 where
  pub type : LocalType
  pub idx : ℤ
  pub set_idx : Bool
  pub owned : Option ℕ
  pub depth : ℕ
  pub extra : Option ℕ

abbrev pub Heap : Type 0
Heap = List Local

abbrev pub new_local : Local
new_local = record {
  type = LocalType.reg;
  idx = pos 0;
  set_idx = false;
  owned = none;
  depth = 0;
  extra = none;
}

unfoldable pub set_extra : ℕ → Local → Local
set_extra e l = record l { extra = some e }

unfoldable pub make_closure : Local → Local
make_closure l = record l { type = LocalType.closure_own; set_idx = false }

unfoldable pub make_closure_access : ℕ → ℕ → Local → Local
make_closure_access o d l = record l { type = LocalType.closure_access; owned = some o; depth = d }

unfoldable pub make_global : ℕ → ℕ → Local → Local
make_global r d l = record l {
  type = LocalType.closure_global;
  depth = d;
  idx = pos r;
  set_idx = true;
}

unfoldable pub make_arg : ℤ → Local → Local
make_arg r l = record l { type = LocalType.argument; idx = r; set_idx = true }

abbrev pub is_reg : LocalType → Bool
is_reg LocalType.reg = true
is_reg LocalType.argument = true
is_reg _ = false

unfoldable pub reg_p : Local → Bool
reg_p l = is_reg l.type

unfoldable pub needs_reg_p : Local → Bool
unfolding reg_p
needs_reg_p l = reg_p l && not l.set_idx

-- `assert(!set_idx_)`
unfoldable pub set_reg : ℤ → Local → Option Local
set_reg r l = if l.set_idx then none else some (record l { idx = r })

-- The cases of `Local::idx`: what the local holds, or the owner's answer.
abbrev pub idx_by_type : LocalType → ℤ → Option ℤ → Option ℤ
idx_by_type LocalType.closure_access i owner = owner
idx_by_type _ i owner = some i

-- `Local::idx`. The fuel bounds the chain of owners.
unfoldable pub idx : ℕ → Heap → ℕ → Option ℤ
idx zero h p = none
idx (suc fuel) h p = elim (get_elem? h p) [
  | none ↦ none
  | some l ↦
      let owner : Option ℤ = elim l.owned [ none ↦ none | some q ↦ idx fuel h q ] in
      idx_by_type l.type l.idx owner
]

abbrev pub depth_by_type : LocalType → ℕ → Option ℕ
depth_by_type LocalType.closure_own d = some 0
depth_by_type LocalType.closure_access d = some d
depth_by_type LocalType.closure_global d = some d
depth_by_type _ d = none

-- `Local::depth`; the `assert(0)` of a register is `none`.
unfoldable pub depth : Local → Option ℕ
depth l = depth_by_type l.type l.depth

-- `LocalMap`: the local of a node, by the node's identity.
abbrev pub LocalMap : Type 0
LocalMap = List (ℕ × ℕ)

unfoldable pub map_get : LocalMap → ℕ → Option ℕ
map_get [] n = none
map_get ((k, l) ∷ m) n = if k == n then some l else map_get m n

-- `map_[n] = l`
unfoldable pub map_add : LocalMap → ℕ → ℕ → LocalMap
map_add [] n l = (n, l) ∷ []
map_add ((k, v) ∷ m) n l = if k == n then (k, l) ∷ m else (k, v) ∷ map_add m n l
