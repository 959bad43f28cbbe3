-- ===== src/Codegen/Values.antt =====
-- vm/ast.cpp: `drive` of literals, of variables, and of the nodes that read or write one. A node's
-- parts come as their own `drive`, a function of the register that takes the value. Every `drive`
-- returns the register that it is given, so the result is not passed on.
use marius.Base.{
  ℕ, ◌+◌, ◌/◌, ◌%◌, ◌^◌, ◌&&◌, Option, none, some, List, [], ◌∷◌, codes, if◌then◌else◌,
}
use marius.Base.Int.{ℤ, pos, negsuc, ltb_ℤ, to_unsigned}
use marius.Ast.{Bytes, Meta}
use marius.Instruction.{Opcode}
use marius.Local.{map_get}
use marius.Codegen.State.{
  M, ◌>>=◌, ◌>>◌, need, instr, string, mark, local_at, local_of, get_local, set_local, Analysis,
}

abbrev pub Drive : Type 0
Drive = ℕ → M (Unit {0})

-- The bytes of a word, the lowest first.
abbrev pub le_bytes : ℕ → List ℕ
le_bytes x = x % 2 ^ 8 ∷ (x / 2 ^ 8) % 2 ^ 8 ∷ (x / 2 ^ 16) % 2 ^ 8 ∷ (x / 2 ^ 24) % 2 ^ 8 ∷ []

unfoldable pub drive_number : Meta → ℤ → Drive
drive_number m val t = do
  mark m
  if ltb_ℤ val (pos 128) && ltb_ℤ (negsuc 126) val
      then instr Opcode.movi8 (t ∷ to_unsigned 8 val ∷ [])
      else instr Opcode.movi32 (t ∷ le_bytes (to_unsigned 32 val))

unfoldable pub drive_nil : Meta → Drive
drive_nil m t = do mark m; instr Opcode.movn (t ∷ [])

unfoldable pub drive_true : Meta → Drive
drive_true m t = do mark m; instr Opcode.movt (t ∷ [])

unfoldable pub drive_false : Meta → Drive
drive_false m t = do mark m; instr Opcode.movf (t ∷ [])

unfoldable pub drive_literal_string : Meta → Bytes → Drive
drive_literal_string m str t = do mark m; i ← string str; instr Opcode.loads (t ∷ i ∷ [])

unfoldable pub drive_ivar_read : Meta → Bytes → Drive
drive_ivar_read m name t = do mark m; i ← string name; instr Opcode.ivr (t ∷ i ∷ [])

unfoldable pub drive_ivar_assign : Meta → Bytes → Drive → Drive
drive_ivar_assign m name value t = do
  mark m
  value t
  i ← string name
  instr Opcode.iva (i ∷ t ∷ [])

-- The operands of IVR stand in this order in the source.
unfoldable pub drive_ivar_assign_op : Meta → Bytes → Bytes → Drive → Drive
drive_ivar_assign_op m name op value t = do
  mark m
  i ← string name
  instr Opcode.ivr (i ∷ t ∷ [])
  value (t + 1)
  o ← string op
  instr Opcode.send (t ∷ o ∷ t ∷ 1 ∷ [])
  k ← string name
  instr Opcode.iva (k ∷ t ∷ [])

unfoldable pub drive_load_attr : Meta → Drive → Bytes → Drive
drive_load_attr m recv name t = do
  mark m
  recv t
  i ← string name
  instr Opcode.lattr (t ∷ i ∷ t ∷ [])

unfoldable pub drive_raise : Meta → Drive → Drive
drive_raise m value t = do mark m; value t; instr Opcode.raise (t ∷ [])

unfoldable pub drive_not : Meta → Drive → Drive
drive_not m value t = do mark m; value t; instr Opcode.not (t ∷ t ∷ [])

module _ (an : Analysis) where
  -- The local of a node, or where there is none a call of the name on `self`.
  abbrev pub drive_variable : Option ℕ → Bytes → Drive
  drive_variable (some l) name t = get_local an l t
  drive_variable none name t = do
    instr Opcode.self (t ∷ [])
    i ← string name
    instr Opcode.send (t ∷ i ∷ t ∷ 0 ∷ [])

  unfoldable pub drive_named : Meta → Bytes → Drive
  drive_named m name t = do mark m; drive_variable (map_get an.lm m.id) name t

  unfoldable pub drive_self : Meta → Drive
  drive_self m t = do mark m; l ← local_of an m; get_local an l t

  unfoldable pub drive_assign : Meta → Drive → Drive
  drive_assign m value t = do mark m; value t; l ← local_of an m; set_local an l t

  unfoldable pub drive_assign_op : Meta → Bytes → Drive → Drive
  drive_assign_op m op value t = do
    mark m
    l ← local_of an m
    get_local an l t
    value (t + 1)
    o ← string op
    instr Opcode.send (t ∷ o ∷ t ∷ 1 ∷ [])
    set_local an l t

  -- `l->extra()`: the global by which an import, a trait or a dictionary is made.
  unfoldable pub get_extra : ℕ → Drive
  get_extra p t = do l ← local_at an p; e ← need l.extra; get_local an e t

  unfoldable pub drive_import : Meta → Bytes → Drive
  drive_import m path t = do
    mark m
    l ← local_of an m
    get_extra l t
    c ← string (codes "current")
    instr Opcode.send (t ∷ c ∷ t ∷ 0 ∷ [])
    p ← string path
    instr Opcode.loads ((t + 1) ∷ p ∷ [])
    i ← string (codes "import")
    instr Opcode.send (t ∷ i ∷ t ∷ 1 ∷ [])
    set_local an l t

  unfoldable pub drive_import_one : Meta → Bytes → Bytes → Drive
  drive_import_one m path elem t = do
    mark m
    l ← local_of an m
    get_extra l t
    c ← string (codes "current")
    instr Opcode.send (t ∷ c ∷ t ∷ 0 ∷ [])
    p ← string path
    instr Opcode.loads ((t + 1) ∷ p ∷ [])
    i ← string (codes "import")
    instr Opcode.send (t ∷ i ∷ t ∷ 1 ∷ [])
    e ← string elem
    instr Opcode.loads ((t + 1) ∷ e ∷ [])
    d ← string (codes "::")
    instr Opcode.send (t ∷ d ∷ t ∷ 1 ∷ [])
    set_local an l t
