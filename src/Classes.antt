-- ===== src/Classes.antt =====
-- vm/class.cpp: classes with their superclasses and methods. Classes are shared by pointers, so they
-- stand in a heap, and a class is its position there. A walk that needs more fuel, or a pointer
-- into nothing, is `none`.
pub mod Lookup
pub mod Descent
pub mod Traits
pub mod Required
mod Tests
use marius.Base.{
  ℕ, zero, suc, ◌<◌, ◌≡◌, Bool, true, false, Option, none, some, List, [], ◌∷◌, ◌==◌, length,
  get_elem?, set, if◌then◌else◌,
}
use marius.Ast.{Bytes}
use marius.Table
use marius.Table.{Table}
use marius.Objects.List.{LinkedList}

-- The fields of `Class`; M is the type of methods, and a trait is known by its position.
pub record Class (M : Type 0) : Type 0 where
  pub name : Bytes
  pub superclass : Option ℕ
  pub method_table : Table M
  pub traits : LinkedList ℕ

abbrev pub Heap : Type 0 → Type 0
Heap M = List (Class M)

module _ {M : Type 0} (hash : Bytes → ℕ) where
  -- `Class::lookup`: the loop over a class and its superclasses. The inner `none` is a null method.
  unfoldable pub lookup : ℕ → Heap M → ℕ → Bytes → Option (Option M)
  lookup zero h c name = none
  lookup (suc fuel) h c name = elim (get_elem? h c) [
    | none ↦ none
    | some cls ↦ elim (Table.find hash name cls.method_table) [
      | some m ↦ some (some m)
      | none ↦ elim cls.superclass [ none ↦ some none | some p ↦ lookup fuel h p name ]
    ]
  ]

  -- `Class::add_native_method`
  unfoldable pub add_native_method : Heap M → ℕ → Bytes → M → Heap M
  add_native_method h c name m = elim (get_elem? h c) [
    | none ↦ h
    | some cls ↦ set h c (record cls { method_table = Table.add hash name m cls.method_table })
  ]

-- The loop of `class_tequal`, over the class of the argument and its superclasses, and of
-- `class_subclass`: whether they come to `chk`.
unfoldable pub descends : {M : Type 0} → ℕ → Heap M → Option ℕ → ℕ → Option Bool
descends fuel h none chk = some false
descends zero h (some c) chk = none
descends (suc fuel) h (some c) chk =
    let rest : Option Bool = elim (get_elem? h c) [
      | none ↦ none
      | some cls ↦ descends fuel h cls.superclass chk
    ] in
    if c == chk then some true else rest

-- `class_subclass`: the walk begins at the superclass.
unfoldable pub class_subclass : {M : Type 0} → ℕ → Heap M → ℕ → ℕ → Option Bool
unfolding descends
class_subclass fuel h c chk = elim (get_elem? h c) [
  | none ↦ none
  | some cls ↦ descends fuel h cls.superclass chk
]

-- A class is made after its superclass.
abbrev pub IsOrdered : {M : Type 0} → Heap M → Type 0
IsOrdered {M = M} h =
    (c p : ℕ) (cls : Class M) → get_elem? h c ≡ some cls → cls.superclass ≡ some p → p < c
