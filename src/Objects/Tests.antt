-- ===== src/Objects/Tests.antt =====
-- Runs of the containers on concrete values.
use marius.Base.{
  get_or, arith, zero, suc, ℕ, ◌≡◌, refl, Bool, none, some, [], ◌∷◌, ◌==◌, true, false,
}
use marius.Base.Int.{pos, negsuc}
use marius.Objects.List.{
  LinkedList, new_list, push, get, make, get-push, get-make, get_node, push_node,
}
use marius.Objects.Tuple.{Tuple, new_tuple}
use marius.Objects.Tuple
use marius.Objects.LTuple.{LTuple, find, find_from, find-Answer, Answer}
use marius.Objects.Closure.{
  Closure, Store, ancestor, get_at_depth, set_at_depth, set_value, get_at_depth-set_at_depth,
}
use marius.Objects.Closure

abbrev two_items : LinkedList ℕ
two_items = record { nodes = 4 ∷ 5 ∷ []; size = 2 }

pushed : push (push new_list 4) 5 ≡ two_items
unfolding push push_node new_list
pushed = refl

negative : get 0 two_items (negsuc 0) ≡ 0
unfolding get get_node
negative = refl

get-push_example : get 0 (push two_items 6) (pos 2) ≡ 6
get-push_example = get-push 0 two_items 6 (pos 2) refl

get-make_example : get {A = ℕ} 0 (make (7 ∷ 8 ∷ 9 ∷ []) 2) (pos 1) ≡ 8
get-make_example = get-make 0 (7 ∷ 8 ∷ 9 ∷ []) 2 1

-- Two slots, and behind them the memory of something else.
abbrev two_slots : Tuple ℕ
two_slots = record { data_ = 1 ∷ 2 ∷ 3 ∷ []; size = 2 }

get-set_example :
    (get_or (Tuple.set two_slots 2 9).data_ 2 0 ≡ 3) × (Tuple.get 0 (Tuple.set two_slots 2 9) 2 ≡ 0)
get-set_example = Tuple.get-set 0 9 two_slots 2 2 (omega arith)

abbrev names : LTuple ℕ
names = record { elems = 6 ∷ 7 ∷ 7 ∷ []; size = 3 }

abbrev same_number : ℕ → ℕ → Bool
same_number a b = a == b

found : find same_number names 7 ≡ some 1
unfolding find find_from
found = refl

find-Answer_example : Answer same_number (6 ∷ 7 ∷ 7 ∷ []) 7 0 (find same_number names 7)
find-Answer_example = find-Answer same_number names 7

-- A closure, and two closures that have it as their parent.
abbrev store : Store ℕ
store =
    record { parent = none; size = 2; values = 0 ∷ 0 ∷ []; return_to = false }
    ∷ record { parent = some 0; size = 0; values = []; return_to = true }
    ∷ record { parent = some 0; size = 1; values = 3 ∷ []; return_to = true }
    ∷ []

abbrev store_after : Store ℕ
store_after =
    record { parent = none; size = 2; values = 0 ∷ 8 ∷ []; return_to = false }
    ∷ record { parent = some 0; size = 0; values = []; return_to = true }
    ∷ record { parent = some 0; size = 1; values = 3 ∷ []; return_to = true }
    ∷ []

store-IsSized : Closure.IsSized store
store-IsSized zero c h = ground arith
store-IsSized (suc zero) c h = ground arith
store-IsSized (suc (suc zero)) c h = ground arith
store-IsSized (suc (suc (suc q))) c h = ground arith

ancestor-1 : ancestor store 1 1 ≡ some 0
unfolding ancestor
ancestor-1 = refl

ancestor-2 : ancestor store 2 1 ≡ some 0
unfolding ancestor
ancestor-2 = refl

written : set_at_depth store 1 1 1 8 ≡ some store_after
unfolding set_at_depth set_value ancestor
written = refl

get_at_depth-set_at_depth_example : get_at_depth 0 store_after 2 1 1 ≡ some 8
get_at_depth-set_at_depth_example =
    get_at_depth-set_at_depth 0 8 store store_after 1 1 1 0 2 1 1 0 store-IsSized ancestor-1
      ancestor-2 written
