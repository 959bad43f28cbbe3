-- ===== src/Codegen/State.antt =====
-- vm/ast.hpp, vm/ast.cpp: `ast::State`, the code being generated, and its operations. An operation
-- may end the program (a failed `assert`, a null dereference), which is `none`.
use marius.Base.{
  ℕ, zero, suc, ◌+◌, ◌-◌, ◌%◌, ◌^◌, Bool, Option, none, some, List, [], ◌∷◌, ◌++◌, ◌==◌, ltb,
  if◌then◌else◌, length, set, get_elem?,
}
use marius.Base.Int.{ℤ, negsuc, to_unsigned}
use marius.Ast.{Bytes, ArgMap, Meta}
use marius.Instruction.{Opcode, opcode}
use marius.Local.{Local, Heap, LocalMap, reg_p, idx, depth, map_get}

pub record CodeInfo : Type 0 where
  pub name : Bytes
  pub file : Bytes
  pub instructions : List ℕ
  pub strings : List Bytes
  pub args : ArgMap
  pub required_args : ℕ
  pub keywords : List ArgMap
  pub lines : List ℕ
  pub closed_over_vars : ℕ
  pub return_to : Bool

-- `Code`, with the codes that it holds.
mutual
  pub data Code : Type 0 where
    code : CodeInfo → Codes → Code

  pub data Codes : Type 0 where
    end : Codes
    cons : Code → Codes → Codes

unfoldable pub add_code : Codes → Code → Codes
add_code end c = cons c end
add_code (cons d ds) c = cons d (add_code ds c)

unfoldable pub codes_size : Codes → ℕ
codes_size end = 0
codes_size (cons d ds) = suc (codes_size ds)

-- `marks` is the vector `lines` in pairs (position, line), the last pair first. `outside` has the
-- writes behind the end of the buffer, as position and byte, the last one first.
pub record State : Type 0 where
  pub buffer : List ℕ
  pub strings : List Bytes
  pub codes : Codes
  pub keywords : List ArgMap
  pub marks : List (ℕ × ℕ)
  pub cur_line : ℕ
  pub lambda : Bool
  pub file : Bytes
  pub outside : List (ℕ × ℕ)

-- The constructor of `ast::State`.
abbrev pub new_state : Bytes → Bool → State
new_state file lambda = record {
  buffer = [];
  strings = [];
  codes = end;
  keywords = [];
  marks = [];
  cur_line = 0;
  lambda = lambda;
  file = file;
  outside = [];
}

abbrev pub M : Type 0 → Type 0
M A = State → Option (A × State)

abbrev pub pure : {A : Type 0} → A → M A
pure a s = some (a, s)

infixl 5 ◌>>=◌ ◌>>◌
abbrev pub ◌>>=◌ : {A B : Type 0} → M A → (A → M B) → M B
◌>>=◌ m f s = elim (m s) [ none ↦ none | some (a, s') ↦ f a s' ]

abbrev pub ◌>>◌ : {B : Type 0} → M (Unit {0}) → M B → M B
m >> k = m >>= λ _. k

-- A value that the program needs: a null pointer ends it.
unfoldable pub need : {A : Type 0} → Option A → M A
need none s = none
need (some a) s = some (a, s)

-- `push`: the argument is converted to `uint8_t`.
unfoldable pub push : ℕ → M (Unit {0})
push op s = some (tt, record s { buffer = s.buffer ++ (op % 2 ^ 8) ∷ [] })

unfoldable pub push_all : List ℕ → M (Unit {0})
unfolding push
push_all [] s = some (tt, s)
push_all (b ∷ bs) s = push_all bs (record s { buffer = s.buffer ++ (b % 2 ^ 8) ∷ [] })

-- The pushes of one instruction: its opcode, then its operands.
unfoldable pub instr : Opcode → List ℕ → M (Unit {0})
unfolding push_all opcode
instr op operands = push_all (opcode op ∷ operands)

unfoldable pub string : Bytes → M ℕ
string str s = some (length s.strings, record s { strings = s.strings ++ str ∷ [] })

unfoldable pub code_index : Code → M ℕ
unfolding codes_size add_code
code_index c s = some (codes_size s.codes, record s { codes = add_code s.codes c })

unfoldable pub keyword : ArgMap → M ℕ
keyword kw s = some (length s.keywords, record s { keywords = s.keywords ++ kw ∷ [] })

-- `label` and `pos()`
unfoldable pub label : M ℕ
label s = some (length s.buffer, s)

-- `buffer[l] = x`, which the vector does not check: behind its end the write leaves the buffer as it is,
-- and is kept in `outside`.
abbrev pub write_at : ℕ → ℕ → State → State
write_at l x s = record s {
  buffer = set s.buffer l x;
  outside = if ltb l (length s.buffer) then s.outside else (l, x) ∷ s.outside;
}

-- `buffer[l] = buffer.size() - l - 1`
unfoldable pub set_label : ℕ → M (Unit {0})
set_label l s = some (tt, write_at l ((length s.buffer + 2 ^ 8 - l - 1) % 2 ^ 8) s)

unfoldable pub set_label_abs : ℕ → M (Unit {0})
set_label_abs l s = some (tt, write_at l (length s.buffer % 2 ^ 8) s)

-- An instruction whose last operand is a label: the pushes, `label()`, and `push(0)`.
unfoldable pub instr_label : Opcode → List ℕ → M ℕ
instr_label op operands = do instr op operands; l ← label; push 0; pure l

-- `pos(Node*)`: the line table.
abbrev pub mark_line : List (ℕ × ℕ) → ℕ → ℕ → ℕ → List (ℕ × ℕ) × ℕ
mark_line [] cur at l = ((at, l) ∷ [], cur)
mark_line ((p, k) ∷ marks) cur at l =
    if cur == l
    then ((p, k) ∷ marks, cur)
    else if p == at
    then ((p, l) ∷ marks, l)
    else ((at, l) ∷ (p, k) ∷ marks, l)

unfoldable pub mark : Meta → M (Unit {0})
mark m s =
    if ltb m.line 1
    then some (tt, s)
    else let (marks, cur) = mark_line s.marks s.cur_line (length s.buffer) m.line in
      some (tt, record s { marks = marks; cur_line = cur })

unfoldable pub movr : ℕ → ℕ → M (Unit {0})
movr to from = instr Opcode.movr (to ∷ from ∷ [])

-- The register branch of `get_local`: register -1 is `self`.
unfoldable pub load_register : ℤ → ℕ → M (Unit {0})
load_register (negsuc zero) t = instr Opcode.self (t ∷ [])
load_register i t = instr Opcode.movr (t ∷ to_unsigned 8 i ∷ [])

-- What scope tracking has found: the locals, the map from nodes to them, the registers and the
-- closed-over variables of each scope, and the names that each trait sends to itself.
pub record Analysis : Type 0 where
  pub heap : Heap
  pub lm : LocalMap
  pub scope_locals : ℕ → List (Bytes × ℤ)
  pub closed_locals : ℕ → ArgMap
  pub self_sends : ℕ → List Bytes

module _ (an : Analysis) where
  unfoldable pub local_at : ℕ → M Local
  local_at p = need (get_elem? an.heap p)

  unfoldable pub local_idx : ℕ → M ℤ
  local_idx p = need (idx (suc (length an.heap)) an.heap p)

  -- `lm().get(n)` where the node must have a local.
  unfoldable pub local_of : Meta → M ℕ
  local_of m = need (map_get an.lm m.id)

  unfoldable pub set_local : ℕ → ℕ → M (Unit {0})
  set_local p t = do
    l ← local_at p
    i ← local_idx p
    if reg_p l
        then instr Opcode.movr (to_unsigned 8 i ∷ t ∷ [])
        else (do d ← need (depth l); instr Opcode.svar (d ∷ to_unsigned 8 i ∷ t ∷ []))

  unfoldable pub get_local : ℕ → ℕ → M (Unit {0})
  get_local p t = do
    l ← local_at p
    i ← local_idx p
    if reg_p l
        then load_register i t
        else (do d ← need (depth l); instr Opcode.lvar (t ∷ d ∷ to_unsigned 8 i ∷ []))
