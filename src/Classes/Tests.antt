-- ===== src/Classes/Tests.antt =====
-- Runs over a few classes, Object and those below it, with the length of a name as its hash.
use marius.Base.{
  ℕ, zero, suc, ◌<◌, ◌≡◌, refl, false, Option, none, some, [], ◌∷◌, codes, length, arith, replicate,
}
use marius.Ast.{Bytes}
use marius.Table.{Table, add, find, new_bindings}
use marius.Table.Bucket.{put, find_in}
use marius.Table.Laws.{IsValid, add-IsValid, new_bindings-IsValid}
use marius.Classes.{Class, Heap, lookup, add_native_method, descends, class_subclass, IsOrdered}
use marius.Classes.Descent.{Answers, descends-Answers}
use marius.Classes.Required.{
  check_traits, check_traits-Verdict, AreTraits, Verdict, check_sends, require,
}
use marius.Base.Loops.{loop}
use marius.Objects.List.{LinkedList, get, get_node}
use marius.Objects.Tuple.{Tuple, get as tuple_get}
use marius.Classes.Traits.{uses_trait, uses_trait-lookup}
use mathlib.Core.Option.{or_else}
use marius.Classes.Lookup.{Finds, lookup-Finds, lookup-add_native_method}

abbrev hash : Bytes → ℕ
hash name = length name

abbrev no_methods : Table ℕ
no_methods = record { entries = replicate 8 []; capa = 8; size = 0 }

abbrev no_traits : LinkedList ℕ
no_traits = record { nodes = []; size = 0 }

abbrev object : Class ℕ
object = record {
  name = codes "Object";
  superclass = none;
  method_table = no_methods;
  traits = no_traits;
}

abbrev classes : Heap ℕ
classes =
    object
    ∷ record {
      name = codes "A";
      superclass = some 0;
      method_table = no_methods;
      traits = no_traits;
    }
    ∷ record {
      name = codes "B";
      superclass = some 1;
      method_table = no_methods;
      traits = no_traits;
    }
    ∷ []

classes-IsOrdered : IsOrdered classes
classes-IsOrdered zero p cls e up = ground arith
classes-IsOrdered (suc zero) p cls e up = ground arith
classes-IsOrdered (suc (suc zero)) p cls e up = ground arith
classes-IsOrdered (suc (suc (suc c))) p cls e up = ground arith

no_methods-IsValid : IsValid hash no_methods
unfolding new_bindings
no_methods-IsValid = new_bindings-IsValid hash

descends-Answers_example : Answers classes 0 2 (descends 3 classes (some 2) 0)
descends-Answers_example =
    descends-Answers classes 0 2 3 classes-IsOrdered (omega arith) (omega arith)

subclass : class_subclass 3 classes 2 2 ≡ some false
unfolding class_subclass descends
subclass = refl

lookup-Finds_example :
    (r : Option ℕ) × (lookup hash 3 classes 2 (codes "go") ≡ some r)
    × Finds hash classes (codes "go") r 2
lookup-Finds_example =
    lookup-Finds hash classes 2 3 (codes "go") classes-IsOrdered (omega arith) (omega arith)

inherited :
    lookup hash 3 (add_native_method hash classes 0 (codes "go") 7) 2 (codes "go") ≡ some (some 7)
unfolding lookup add_native_method add find put find_in
inherited = refl

lookup-add_native_method_example :
    lookup hash 1 (add_native_method hash classes 0 (codes "go") 7) 0 (codes "go") ≡ some (some 7)
lookup-add_native_method_example =
    lookup-add_native_method hash classes 0 1 (codes "go") (codes "go") 7 object classes-IsOrdered
      refl no_methods-IsValid (omega arith)

-- A trait with one method.
abbrev trait_methods : Table ℕ
trait_methods = add hash (codes "go") 9 no_methods

trait_methods-IsValid : IsValid hash trait_methods
trait_methods-IsValid = add-IsValid hash (codes "go") 9 no_methods no_methods-IsValid

uses_trait-lookup_example :
    (after : Heap ℕ) × (uses_trait hash 3 [] classes 2 7 trait_methods ≡ some after)
    × ((r : Option ℕ) × (lookup hash 3 classes 2 (codes "go") ≡ some r)
        × (lookup hash 3 after 2 (codes "go")
            ≡ some (or_else r (find hash (codes "go") trait_methods))))
uses_trait-lookup_example =
    uses_trait-lookup hash 3 [] classes 2 7 trait_methods
      record {
        name = codes "B";
        superclass = some 1;
        method_table = no_methods;
        traits = no_traits;
      }
      (codes "go") classes-IsOrdered refl no_methods-IsValid trait_methods-IsValid refl
      (omega arith)

-- A trait that sends `go` to itself, used by a class without methods.
abbrev sent : Tuple (Option Bytes)
sent = record { data_ = some (codes "go") ∷ []; size = 1 }

abbrev sends_of : ℕ → Option (Tuple (Option Bytes))
sends_of zero = none
sends_of (suc v) = some sent

abbrev used : LinkedList ℕ
used = record { nodes = 7 ∷ []; size = 1 }

abbrev user : Class ℕ
user = record { name = codes "A"; superclass = none; method_table = no_methods; traits = used }

abbrev users : Heap ℕ
users = user ∷ []

users-IsOrdered : IsOrdered users
users-IsOrdered zero p cls e up = ground arith
users-IsOrdered (suc c) p cls e up = ground arith

used-AreTraits : AreTraits sends_of 0 used
unfolding get get_node tuple_get
used-AreTraits zero lt = (sent, refl, names)
  where
    names : (j : ℕ) → j < 1 → (q : Bytes) × (tuple_get none sent j ≡ some q)
    names zero small = (codes "go", refl)
    names (suc j) small = absurd (omega arith)
used-AreTraits (suc i) lt = absurd (omega arith)

missing : check_traits hash 1 sends_of 0 users 0 ≡ some (some (codes "go"))
unfolding check_traits check_sends require loop lookup find find_in get get_node tuple_get
missing = refl

check_traits-Verdict_example :
    (o : Option Bytes) × (check_traits hash 1 sends_of 0 users 0 ≡ some o)
    × Verdict hash 1 sends_of 0 users 0 used o
check_traits-Verdict_example =
    check_traits-Verdict hash 1 sends_of 0 users 0 user users-IsOrdered refl (omega arith)
      used-AreTraits
