-- ===== src/Table/Tests.antt =====
-- Runs of the tables on concrete names, with the length of a name as its hash, so that names of one
-- length share a bucket.
use marius.Base.{ℕ, ◌≡◌, refl, some, arith, [], codes, length, replicate}
use mathlib.Core.List.{zip, flatten}
use marius.Ast.{Bytes}
use marius.Table.{Table, new_bindings, find, add, keys, values}
use marius.Table.Bucket.{find_in, put}
use marius.Table.Laws.{IsValid, find-add, add-IsValid, new_bindings-IsValid}
use marius.Table.Listing.{find-keys}
use marius.Table.Iteration.{visit, new_iterator, visit-flatten}

abbrev hash : Bytes → ℕ
hash name = length name

abbrev empty_table : Table ℕ
empty_table = record { entries = replicate 8 []; capa = 8; size = 0 }

empty_table-IsValid : IsValid hash empty_table
unfolding new_bindings
empty_table-IsValid = new_bindings-IsValid hash

abbrev ab : Bytes
ab = codes "ab"

abbrev cd : Bytes
cd = codes "cd"

abbrev table : Table ℕ
unfolding add put
table = add hash cd 2 (add hash ab 1 empty_table)

replaced : find hash ab (add hash ab 5 table) ≡ some 5
unfolding find add find_in put
replaced = refl

find-add_example : find hash cd (add hash ab 1 empty_table) ≡ find hash cd empty_table
find-add_example = find-add hash cd ab 1 empty_table empty_table-IsValid

add-IsValid_example : IsValid hash (add hash ab 1 empty_table)
add-IsValid_example = add-IsValid hash ab 1 empty_table empty_table-IsValid

table-IsValid : IsValid hash table
unfolding add put
table-IsValid =
    add-IsValid hash cd 2 (add hash ab 1 empty_table)
      (add-IsValid hash ab 1 empty_table empty_table-IsValid)

find-keys_example :
    find hash cd table ≡ find_in cd (zip (keys [] table).data_ (values 0 table).data_)
find-keys_example = find-keys hash cd [] 0 table table-IsValid

visit-flatten_example : visit [] table 3 new_iterator ≡ flatten table.entries
unfolding add put
visit-flatten_example = visit-flatten [] table hash 3 refl table-IsValid (omega arith)
