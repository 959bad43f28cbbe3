-- ===== src/Codegen/Defs.antt =====
-- vm/ast.cpp: `drive` of scopes and of the nodes whose body is code of its own: methods, lambdas,
-- classes and traits. Their code is generated in a fresh `ast::State`, `subS`.
use marius.Base.{
  ℕ, ◌+◌, Bool, true, false, ◌++◌, Option, none, some, List, [], ◌∷◌, codes, if◌then◌else◌, length,
}
use mathlib.Core.List.{reverse}
use marius.Base.Int.{ℤ, pos, negsuc, to_unsigned}
use marius.Ast.{Bytes, ArgMap, Meta}
use marius.Instruction.{Opcode}
use marius.Local.{reg_p}
use marius.Codegen.State.{
  set_label, label, Code, code, State, new_state, M, ◌>>=◌, ◌>>◌, pure, instr, movr, string,
  code_index, mark, local_at, local_of, set_local, Analysis,
}
use marius.Codegen.Values.{Drive, get_extra}

-- An `Argument` with its parts driven.
pub record DrivenArg : Type 0 where
  pub meta : Meta
  pub cast : Option Drive
  pub position : ℕ
  pub opt_value : Option Drive

-- A `Scope` with its parts driven.
pub record DrivenScope : Type 0 where
  pub meta : Meta
  pub self : Option ℕ
  pub args : List DrivenArg
  pub body : Drive

abbrev pub flatten_marks : List (ℕ × ℕ) → List ℕ
flatten_marks [] = []
flatten_marks ((p, l) ∷ marks) = p ∷ l ∷ flatten_marks marks

-- `to_code`: the vector of lines ends with the size of the buffer.
unfoldable pub to_code : Bytes → ArgMap → ℕ → ℕ → Bool → State → Code
to_code name args req cov ret s =
    code
      (record {
        name = name;
        file = s.file;
        instructions = s.buffer;
        strings = s.strings;
        args = args;
        required_args = req;
        keywords = s.keywords;
        lines = flatten_marks (reverse s.marks) ++ length s.buffer ∷ [];
        closed_over_vars = cov;
        return_to = ret;
      })
      s.codes

-- A `subS` from its constructor to the end of what is driven into it.
unfoldable pub sub_state : {A : Type 0} → Bool → M A → M (A × State)
sub_state lambda m s = elim (m (new_state s.file lambda)) [
  | none ↦ none
  | some (a, sub) ↦ some ((a, sub), s)
]

-- A name in the next register: `S.push(LOADS); S.push(j++); S.push(S.string(name))`.
unfoldable pub load_name : Bytes → ℕ → M (Unit {0})
load_name name j = do i ← string name; instr Opcode.loads (j ∷ i ∷ [])

-- A default value in a method's prologue, in `subS`. JMPHA's operand keeps the 0 that is pushed: its
-- label is one of the outer state (`outer_labels`).
abbrev pub drive_default : ℕ → ℕ → Option Drive → M ℕ
drive_default first position none = pure 1
drive_default first position (some o) = do
  instr Opcode.jmpha (position ∷ 0 ∷ [])
  o first
  movr position first
  pure 0

-- `Label l = S.label()` and `S.set_label(l)` on the outer state, which nothing changes in between.
abbrev pub outer_label : Option Drive → M (Unit {0})
outer_label none = pure tt
outer_label (some o) = label >>= set_label

unfoldable pub outer_labels : List DrivenArg → M (Unit {0})
outer_labels [] = pure tt
outer_labels (a ∷ as') = outer_label a.opt_value >> outer_labels as'

abbrev pub drive_arg_cast : ℕ → ℕ → Option Drive → M (Unit {0})
drive_arg_cast first position none = pure tt
drive_arg_cast first position (some n) = do
  n first
  instr Opcode.movr ((first + 1) ∷ position ∷ [])
  i ← string (codes "cast")
  instr Opcode.send (position ∷ i ∷ first ∷ 1 ∷ [])

-- The loop over the arguments; it counts those without a default value, `req`.
unfoldable pub drive_prologue : ℕ → List DrivenArg → M ℕ
drive_prologue first [] = pure 0
drive_prologue first (a ∷ as') = do
  required ← drive_default first a.position a.opt_value
  drive_arg_cast first a.position a.cast
  more ← drive_prologue first as'
  pure (required + more)

abbrev pub load_scope_name : Option Bytes → ℕ → M ℕ
load_scope_name none next = pure next
load_scope_name (some scope) next = do
  i ← string scope
  instr Opcode.loads (next ∷ i ∷ [])
  pure (next + 1)

abbrev pub add_method_name : Option Bytes → Bytes
add_method_name none = codes "add_method"
add_method_name (some scope) = codes "add_scope_method"

abbrev pub add_method_args : Option Bytes → ℕ
add_method_args none = 2
add_method_args (some scope) = 3

-- The loop over `self_sends_`.
unfoldable pub load_names : List Bytes → ℕ → M (Unit {0})
load_names [] j = pure tt
load_names (name ∷ names) j = load_name name j >> load_names names (j + 1)

module _ (an : Analysis) where
  -- `Argument::drive`: an argument that is closed over is copied to the closure.
  unfoldable pub drive_argument : ℕ → ℤ → M (Unit {0})
  drive_argument id position = do
    p ← local_of an (record { id = id; line = 0 })
    l ← local_at an p
    if reg_p l then pure tt else set_local an p (to_unsigned 8 position)

  unfoldable pub drive_arguments : List DrivenArg → M (Unit {0})
  drive_arguments [] = pure tt
  drive_arguments (a ∷ as') = do drive_argument a.meta.id (pos a.position); drive_arguments as'

  abbrev pub drive_self_argument : Option ℕ → M (Unit {0})
  drive_self_argument none = pure tt
  drive_self_argument (some id) = drive_argument id (negsuc 0)

  -- `Scope::drive`
  unfoldable pub drive_scope : DrivenScope → Drive
  drive_scope sc t = do drive_self_argument sc.self; drive_arguments sc.args; sc.body t

  abbrev pub locals_size : DrivenScope → ℕ
  locals_size sc = length (an.scope_locals sc.meta.id)

  abbrev pub cov : DrivenScope → ℕ
  cov sc = length (an.closed_locals sc.meta.id)

  -- The code of a body in registers from the first behind its locals on: `body_->drive`, RET.
  unfoldable pub drive_body : DrivenScope → Drive
  drive_body sc r = do drive_scope sc r; instr Opcode.ret (r ∷ [])

  -- The code of a method: prologue, body, RET.
  unfoldable pub drive_method : ℕ → DrivenScope → M ℕ
  drive_method first sc = do req ← drive_prologue first sc.args; drive_body sc first; pure req

  unfoldable pub drive_def : Meta → Option Bytes → Bytes → DrivenScope → ArgMap → Drive
  drive_def m scope name body args t = do
    mark m
    instr Opcode.self (t ∷ [])
    next ← load_scope_name scope (t + 1)
    n ← string name
    instr Opcode.loads (next ∷ n ∷ [])
    (req, sub) ← sub_state false (drive_method (length args + locals_size body) body)
    outer_labels body.args
    c ← code_index (to_code name args req (cov body) true sub)
    instr Opcode.loadc ((next + 1) ∷ c ∷ [])
    i ← string (add_method_name scope)
    instr Opcode.send (t ∷ i ∷ t ∷ add_method_args scope ∷ [])

  unfoldable pub drive_lambda : Meta → DrivenScope → Drive
  drive_lambda m body t = do
    mark m
    (_, sub) ← sub_state true (drive_body body (locals_size body))
    c ← code_index (to_code (codes "__lambda__") [] 0 (cov body) false sub)
    instr Opcode.loadc (t ∷ c ∷ [])

  -- The end of a class and of a trait: the body is loaded and run.
  unfoldable pub drive_run_body : DrivenScope → Drive
  drive_run_body body t = do
    (_, sub) ← sub_state false (drive_body body (locals_size body))
    c ← code_index (to_code (codes "__body__") [] 0 (cov body) false sub)
    instr Opcode.loadc ((t + 1) ∷ c ∷ [])
    i ← string (codes "run_body")
    instr Opcode.send (t ∷ i ∷ t ∷ 1 ∷ [])

  unfoldable pub drive_class : Meta → Bytes → Drive → DrivenScope → Drive
  drive_class m name super body t = do
    mark m
    super t
    si ← string name
    instr Opcode.loads ((t + 1) ∷ si ∷ [])
    i ← string (codes "new_subclass")
    instr Opcode.send (t ∷ i ∷ t ∷ 1 ∷ [])
    instr Opcode.iva (si ∷ t ∷ [])
    l ← local_of an body.meta
    set_local an l t
    drive_run_body body t

  unfoldable pub drive_trait : Meta → Bytes → DrivenScope → Drive
  drive_trait m name body t = do
    mark m
    si ← string name
    l ← local_of an m
    get_extra an l t
    instr Opcode.loads ((t + 1) ∷ si ∷ [])
    load_names (an.self_sends m.id) (t + 2)
    instr Opcode.tuple ((t + 2) ∷ (t + 2) ∷ length (an.self_sends m.id) ∷ [])
    i ← string (codes "new")
    instr Opcode.send (t ∷ i ∷ t ∷ 2 ∷ [])
    instr Opcode.iva (si ∷ t ∷ [])
    set_local an l t
    drive_run_body body t
