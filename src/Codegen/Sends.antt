-- ===== src/Codegen/Sends.antt =====
-- vm/ast.cpp: `drive` of calls, and of the literals that are built from a list of values. The
-- positional arguments come as the `drive` of all of them, from a first register on, with their
-- number.
use marius.Base.{
  ℕ, ◌+◌, Bool, true, false, ◌++◌, Option, none, some, List, [], ◌∷◌, codes, if◌then◌else◌,
}
use marius.Ast.{Bytes, ArgMap, Meta, Special}
use marius.Instruction.{Opcode}
use marius.Local.{map_get}
use marius.Codegen.State.{
  M, ◌>>=◌, ◌>>◌, pure, instr, string, keyword, mark, local_of, get_local, Analysis,
}
use marius.Codegen.Values.{Drive}

-- `args_`, driven: the positional nodes with their number, and the keywords.
pub data Driven : Type 0 where
  no_args : Driven
  some_args : Drive → ℕ → ArgMap → Driven

abbrev pub positional : Driven → Drive
positional no_args j = pure tt
positional (some_args drive n kw) j = drive j

abbrev pub count : Driven → ℕ
count no_args = 0
count (some_args drive n kw) = n

abbrev pub keywords : Driven → ArgMap
keywords no_args = []
keywords (some_args drive n kw) = kw

-- SEND, or SEND_KW with the index of the keywords.
unfoldable pub send_insn : ArgMap → ℕ → ℕ → ℕ → M (Unit {0})
send_insn [] t name n = instr Opcode.send (t ∷ name ∷ t ∷ n ∷ [])
send_insn (k ∷ kw) t name n = do
  i ← keyword (k ∷ kw)
  instr Opcode.send_kw (t ∷ name ∷ t ∷ n ∷ i ∷ [])

unfoldable pub drive_send_indirect : Drive → Drive → Driven → Drive
drive_send_indirect name recv args t = do
  name t
  recv (t + 1)
  positional args (t + 2)
  instr Opcode.sendi (t ∷ t ∷ (t + 1) ∷ count args ∷ [])

unfoldable pub drive_cast : Meta → Drive → Drive → Drive
drive_cast m value type t = do
  type t
  value (t + 1)
  mark m
  i ← string (codes "cast")
  instr Opcode.send (t ∷ i ∷ t ∷ 1 ∷ [])

unfoldable pub drive_tuple : Meta → Driven → Drive
drive_tuple m args t = do positional args t; mark m; instr Opcode.tuple (t ∷ t ∷ count args ∷ [])

unfoldable pub drive_list : Meta → Driven → Drive
drive_list m args t = do positional args t; mark m; instr Opcode.list (t ∷ t ∷ count args ∷ [])

-- The name that a call looks up: an attribute's setter has `=` behind it.
abbrev pub called_name : Special → Bytes → Bytes
called_name Special.set_attr name = name ++ codes "="
called_name _ name = name

abbrev pub is_self_less : Special → Bool
is_self_less Special.self_less = true
is_self_less _ = false

module _ (an : Analysis) where
  -- The apply half of the Markov rule: a call of a name that is a variable applies its value.
  unfoldable pub drive_apply : Meta → ℕ → Driven → Drive
  drive_apply m l args t = do
    get_local an l t
    positional args (t + 1)
    mark m
    i ← string (codes "apply")
    send_insn (keywords args) t i (count args)

  unfoldable pub drive_call : Meta → Bytes → Drive → Driven → Special → Drive
  drive_call m name recv args spec t = do
    recv t
    positional args (t + 1)
    mark m
    i ← string (called_name spec name)
    send_insn (keywords args) t i (count args)

  -- The local that `drive` of a call asks for.
  abbrev pub markov_local : Meta → Special → Option ℕ
  markov_local m spec = if is_self_less spec then map_get an.lm m.id else none

  unfoldable pub drive_send : Meta → Bytes → Drive → Driven → Special → Drive
  unfolding drive_apply drive_call
  drive_send m name recv args spec t = elim (markov_local m spec) [
    | some l ↦ drive_apply m l args t
    | none ↦ drive_call m name recv args spec t
  ]

  unfoldable pub drive_dictionary : Meta → Drive → ℕ → ArgMap → Drive
  drive_dictionary m values n kw t = do
    mark m
    l ← local_of an m
    get_local an l t
    values (t + 1)
    i ← string (codes "literal")
    k ← keyword kw
    instr Opcode.send_kw (t ∷ i ∷ t ∷ n ∷ k ∷ [])

-- `CascadeSend::drive`: the receiver stays in its register, the result goes to the next.
unfoldable pub drive_cascade_send : Bytes → Drive
drive_cascade_send name t = do i ← string name; instr Opcode.send ((t + 1) ∷ i ∷ t ∷ 0 ∷ [])

unfoldable pub drive_messages : List Bytes → Drive
drive_messages [] t = pure tt
drive_messages (name ∷ names) t = drive_cascade_send name t >> drive_messages names t

unfoldable pub drive_cascade : Meta → Drive → List Bytes → Drive
unfolding drive_messages
drive_cascade m recv messages t = do
  recv t
  drive_messages messages t
  mark m
  instr Opcode.movr (t ∷ (t + 1) ∷ [])
