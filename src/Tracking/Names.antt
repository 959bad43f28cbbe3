-- ===== src/Tracking/Names.antt =====
-- vm/string_map.hpp, vm/string.cpp: `StringMap`, a std::map by `String::compare`, with its entries in
-- their order.
use Prim.Native.Nat.{Ordering, compare}
use marius.Base.{
  ◌≡◌, ◌≢◌, refl, Option, none, some, List, [], ◌∷◌, length, arith, ◌==◌, if◌then◌else◌,
}
use marius.Ast.{Bytes}

-- `strncmp` over as many bytes as both have; it stops at a zero byte.
unfoldable pub strncmp : Bytes → Bytes → Ordering
strncmp [] bs = Ordering.eq
strncmp (a ∷ as') [] = Ordering.eq
strncmp (a ∷ as') (b ∷ bs) =
    let rest = strncmp as' bs in
    elim (compare a b) [
      | Ordering.lt ↦ Ordering.lt
      | Ordering.eq ↦ if a == 0 then Ordering.eq else rest
      | Ordering.gt ↦ Ordering.gt
    ]

-- `String::compare`: the lengths first.
unfoldable pub string_compare : Bytes → Bytes → Ordering
unfolding strncmp
string_compare a b = elim (compare (length a) (length b)) [
  | Ordering.lt ↦ Ordering.lt
  | Ordering.eq ↦ strncmp a b
  | Ordering.gt ↦ Ordering.gt
]

module _ {ℓ} {V : Type ℓ} where
  unfoldable pub find : Bytes → List (Bytes × V) → Option V
  unfolding string_compare
  find name [] = none
  find name (e ∷ m) = elim (string_compare name e.0) [ Ordering.eq ↦ some e.1 | _ ↦ find name m ]

  -- `std::map::insert`: a name that is there keeps its value.
  unfoldable pub insert : Bytes → V → List (Bytes × V) → List (Bytes × V)
  unfolding string_compare
  insert name v [] = (name, v) ∷ []
  insert name v (e ∷ m) = elim (string_compare name e.0) [
    | Ordering.lt ↦ (name, v) ∷ e ∷ m
    | Ordering.eq ↦ e ∷ m
    | Ordering.gt ↦ e ∷ insert name v m
  ]

  -- `map[name] = v`
  unfoldable pub assign : Bytes → V → List (Bytes × V) → List (Bytes × V)
  unfolding string_compare
  assign name v [] = (name, v) ∷ []
  assign name v (e ∷ m) = elim (string_compare name e.0) [
    | Ordering.lt ↦ (name, v) ∷ e ∷ m
    | Ordering.eq ↦ (e.0, v) ∷ m
    | Ordering.gt ↦ e ∷ assign name v m
  ]

strncmp_self : (a : Bytes) → strncmp a a ≡ Ordering.eq
unfolding strncmp
strncmp_self [] = refl
strncmp_self (b ∷ bs) = ground (arith, strncmp_self bs)

pub string_compare_self : (a : Bytes) → string_compare a a ≡ Ordering.eq
unfolding string_compare
string_compare_self a = ground (arith, strncmp_self a)

module _ {ℓ} {V : Type ℓ} where
  -- A name that was inserted is found.
  pub find-insert_self :
      (name : Bytes) (v : V) (m : List (Bytes × V)) → find name (insert name v m) ≢ none
  unfolding find insert
  find-insert_self name v [] h = ground (arith, string_compare_self name)
  find-insert_self name v (e ∷ m) h =
      ground (arith, string_compare_self name, find-insert_self name v m)

  -- A name that is found stays so.
  pub find-insert_mono :
      (name other : Bytes) (v : V) (m : List (Bytes × V))
      → find other m ≢ none
      → find other (insert name v m) ≢ none
  unfolding find insert
  find-insert_mono name other v [] found h = found refl
  find-insert_mono name other v (e ∷ m) found h = ground (arith, find-insert_mono name other v m)
