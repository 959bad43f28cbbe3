-- ===== src/Tracking.antt =====
-- vm/scope_tracker.cpp: `ScopeTracker`, the visitor that finds where each variable lives. Locals are
-- shared, so they stand in the heap of vm/local.hpp. A failed assert is `none`.
pub mod Names
pub mod Visit
pub mod Sound
pub mod Steps
pub mod Visits
pub mod Searches
pub mod Globals
pub mod Scopes
pub mod Identities
pub mod Tree
pub mod Ready
pub mod Registers
mod Tests
use Prim.Native.Nat.{ℕ}
use marius.Base.{
  ℕ, zero, suc, ◌+◌, ◌≡◌, Bool, true, false, not, Option, none, some, List, [], ◌∷◌, ◌++◌, ◌==◌,
  if◌then◌else◌, get_elem?, set, length, codes,
}
use marius.Base.Int.{ℤ, pos, negsuc}
use marius.Ast.{Bytes, ArgMap, Meta, Special, Node, Arguments, no_more, argument}
use marius.Local.{
  Local, Heap, LocalMap, new_local, set_extra, make_closure, make_closure_access, make_global,
  make_arg, reg_p, needs_reg_p, set_reg, map_add,
}
use marius.Codegen.State.{Analysis}
use marius.Tracking.Names.{find, insert, assign}

-- `LocalScope`: the locals of the names of one scope.
abbrev pub LocalScope : Type 0
LocalScope = List (Bytes × ℕ)

-- `ScopeTracker`, with the locals and with what it writes to the nodes: the registers and closed
-- variables of each scope and the sends of each trait. The stacks have their back in front.
pub record Tracker : Type 0 where
  pub heap : Heap
  pub lm : LocalMap
  pub scope : LocalScope
  pub stack : List LocalScope
  pub traits : List ℕ
  pub scope_locals : ℕ → List (Bytes × ℤ)
  pub closed_locals : ℕ → ArgMap
  pub self_sends : ℕ → List Bytes

abbrev pub Step : Type 0
Step = Tracker → Option Tracker

abbrev pub bind : Option Tracker → Step → Option Tracker
bind none k = none
bind (some s) k = k s

infixl 5 ◌>>◌
abbrev pub ◌>>◌ : Step → Step → Step
◌>>◌ m k s = bind (m s) k

abbrev pub skip : Step
skip s = some s

abbrev pub update {ℓ} : {A : Type ℓ} → (ℕ → A) → ℕ → A → ℕ → A
update f id v i = if id == i then v else f i

-- `locals_.add(n, l)` for a local that is there.
unfoldable pub add : ℕ → ℕ → Tracker → Tracker
add id p s = record s { lm = map_add s.lm id p }

-- `new Local` with what is done to it at once, and `locals_.add(n, l)`.
unfoldable pub add_new : ℕ → Local → Tracker → Tracker
add_new id l s = record s { heap = s.heap ++ l ∷ []; lm = map_add s.lm id (length s.heap) }

-- The same, with `scope_->insert`.
unfoldable pub insert_new : ℕ → Bytes → Local → Tracker → Tracker
unfolding add_new
insert_new id name l s = record (add_new id l s) { scope = insert name (length s.heap) s.scope }

-- `locals_[p]` is changed in place.
unfoldable pub change : ℕ → Local → Tracker → Tracker
change p l s = record s { heap = set s.heap p l }

-- The search from the innermost scope outwards, with the depth at which it ends.
unfoldable pub find_outer : Bytes → ℕ → List LocalScope → Option (ℕ × ℕ)
find_outer name d [] = none
find_outer name d (sc ∷ scs) = elim (find name sc) [
  | some p ↦ some (p, d)
  | none ↦ find_outer name (suc d) scs
]

-- `j->second->make_closure(); l = locals_.add(n); l->make_closure_access(j->second, d)`
unfoldable pub access : ℕ → ℕ → ℕ → Step
unfolding add_new change
access id p d s = elim (get_elem? s.heap p) [
  | none ↦ none
  | some l ↦ some (add_new id (make_closure_access p d new_local) (change p (make_closure l) s))
]

-- The loops of `start_try_body` and of `visit(AssignOp*)`, which do not stop where they find the name.
unfoldable pub access_all : ℕ → Bytes → ℕ → List LocalScope → Step
unfolding access
access_all id name d [] = skip
access_all id name d (sc ∷ scs) =
    elim (find name sc) [ some p ↦ access id p d | none ↦ skip ] >> access_all id name (suc d) scs

-- `start_try_body` for an id, and `visit(AssignOp*)`.
unfoldable pub own_variable : ℕ → Bytes → Step
unfolding access_all add insert_new
own_variable id name s = elim (find name s.scope) [
  | some p ↦ some (add id p s)
  | none ↦ (access_all id name 0 s.stack >> λ t. some (insert_new id name new_local t)) s
]

abbrev pub start_try_body : ℕ → Option Bytes → Step
start_try_body id none = skip
start_try_body id (some name) = own_variable id name

unfoldable pub visit_assign : ℕ → Bytes → Step
unfolding add insert_new access find_outer
visit_assign id name s = elim (find name s.scope) [
  | some p ↦ some (add id p s)
  | none ↦ elim (find_outer name 1 s.stack) [
    | some o ↦ access id o.0 o.1 s
    | none ↦ some (insert_new id name new_local s)
  ]
]

-- A step with the answer of `find_scoped`.
abbrev pub answer : Bool → Option Tracker → Option (Bool × Tracker)
answer b none = none
answer b (some s) = some (b, s)

abbrev pub forget : Option (Bool × Tracker) → Option Tracker
forget none = none
forget (some (b, s)) = some s

abbrev pub pop_trait : List ℕ → List ℕ
pop_trait [] = []
pop_trait (t ∷ ts) = ts

abbrev pub is_self : Node → Bool
is_self (Node.self m) = true
is_self _ = false

abbrev pub self_less_p : Special → Bool
self_less_p Special.self_less = true
self_less_p _ = false

-- `t->add_send(name)` for the innermost trait, if there is one and the receiver is `self`.
abbrev pub add_send : Bytes → Bool → List ℕ → Tracker → Tracker
add_send name true (t ∷ ts) s = record s {
  self_sends = update s.self_sends t (s.self_sends t ++ name ∷ []);
}
add_send name to_self ts s = s

abbrev pub unless_found : Bytes → Bool → Option (Bool × Tracker) → Option Tracker
unless_found name to_self none = none
unless_found name to_self (some (true, s)) = some s
unless_found name to_self (some (false, s)) = some (add_send name to_self s.traits s)

module _ (globals : ArgMap) where
  unfoldable pub find_scoped : ℕ → Bytes → Tracker → Option (Bool × Tracker)
  unfolding add add_new access find_outer
  find_scoped id name s = elim (find name s.scope) [
    | some p ↦ some (true, add id p s)
    | none ↦ elim (find_outer name 1 s.stack) [
      | some o ↦ answer true (access id o.0 o.1 s)
      | none ↦ elim (find name globals) [
        | some r ↦ some (true, add_new id (make_global r (length s.stack) new_local) s)
        | none ↦ some (false, s)
      ]
    ]
  ]

  -- `visit(Named*)`, and `visit(Self*)` with the name "self".
  unfoldable pub visit_named : ℕ → Bytes → Step
  unfolding find_scoped
  visit_named id name s = forget (find_scoped id name s)

  -- `visit(Import*)`, `visit(ImportOne*)`, and the first part of `visit(Trait*)`: a local of the name,
  -- whose `extra` is the global `of`.
  unfoldable pub visit_import : ℕ → Bytes → Bytes → Step
  unfolding insert_new
  visit_import id name of s = elim (find of globals) [
    | none ↦ none
    | some r ↦
        let l = make_global r (length s.stack) new_local in
        let g = record s { heap = s.heap ++ l ∷ [] } in
        some (insert_new id name (set_extra (length s.heap) new_local) g)
  ]

  unfoldable pub visit_dictionary : ℕ → Step
  unfolding add_new
  visit_dictionary id s = elim (find (codes "Dictionary") globals) [
    | none ↦ none
    | some r ↦ some (add_new id (make_global r (length s.stack) new_local) s)
  ]

  unfoldable pub visit_trait : ℕ → Bytes → Step
  unfolding visit_import
  visit_trait id name =
      visit_import id name (codes "Trait") >> λ s. some (record s { traits = pop_trait s.traits })

  unfoldable pub visit_send : ℕ → Bytes → Special → Node → Step
  unfolding find_scoped
  visit_send id name spec recv s =
      unless_found name (is_self recv)
        (if self_less_p spec then find_scoped id name s else some (false, s))

-- `before_visit(Scope*)`: the arguments, each with a local of its position, and `self`.
unfoldable pub enter_arguments : Arguments → Tracker → Tracker
unfolding insert_new
enter_arguments no_more s = s
enter_arguments (argument m name c position o rest) s =
    enter_arguments rest (insert_new m.id name (make_arg (pos position) new_local) s)

abbrev pub enter_self : Option ℕ → Tracker → Tracker
enter_self none s = s
enter_self (some id) s = insert_new id (codes "self") (make_arg (negsuc 0) new_local) s

unfoldable pub enter_scope : Option ℕ → Arguments → Tracker → Tracker
unfolding enter_arguments insert_new
enter_scope self as' s =
    enter_self self (enter_arguments as' (record s { scope = []; stack = s.scope ∷ s.stack }))

abbrev pub arguments_size : Arguments → ℕ
arguments_size no_more = 0
arguments_size (argument m name c position o rest) = suc (arguments_size rest)

-- The loop of `visit(Scope*)`, with `regs` and `closed`.
unfoldable pub place_locals : ℕ → LocalScope → ℕ → ℕ → Step
unfolding change
place_locals id [] regs closed s = some s
place_locals id ((name, p) ∷ sc) regs closed s = elim (get_elem? s.heap p) [
  | none ↦ none
  | some l ↦ elim (reg_p l) [
    | true ↦ elim (needs_reg_p l) [
      | true ↦ elim (set_reg (pos regs) l) [
        | none ↦ none
        | some l' ↦ place_locals id sc (suc regs) closed (record (change p l' s) {
          scope_locals = update s.scope_locals id (assign name (pos regs) (s.scope_locals id));
        })
      ]
      | false ↦ place_locals id sc regs closed (record s {
        scope_locals = update s.scope_locals id (assign name l.idx (s.scope_locals id));
      })
    ]
    | false ↦ elim (set_reg (pos closed) l) [
      | none ↦ none
      | some l' ↦ place_locals id sc regs (suc closed) (record (change p l' s) {
        closed_locals = update s.closed_locals id (assign name closed (s.closed_locals id));
      })
    ]
  ]
]

-- `scope_ = stack_.back(); stack_.pop_back()`
abbrev pub pop_scope : List LocalScope → Step
pop_scope [] s = none
pop_scope (sc ∷ scs) s = some (record s { scope = sc; stack = scs })

-- `visit(Scope*)`
unfoldable pub leave_scope : ℕ → ℕ → Step
unfolding place_locals
leave_scope id args = (λ s. place_locals id s.scope args 0 s) >> λ s. pop_scope s.stack s

-- A tracker at the start: `scope_` is empty, and so are the parser's locals of each scope.
abbrev pub new_tracker : Tracker
new_tracker = record {
  heap = [];
  lm = [];
  scope = [];
  stack = [];
  traits = [];
  scope_locals = λ id. [];
  closed_locals = λ id. [];
  self_sends = λ id. [];
}

-- What the code generator asks.
abbrev pub analysis : Tracker → Analysis
analysis s = record {
  heap = s.heap;
  lm = s.lm;
  scope_locals = s.scope_locals;
  closed_locals = s.closed_locals;
  self_sends = s.self_sends;
}
