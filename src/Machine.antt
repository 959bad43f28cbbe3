-- ===== src/Machine.antt =====
-- vm/vm.cpp: `VM::run`, the loop over the instructions of one call. What values are, and what the
-- loop asks of the other parts of the machine, is an interface, `Host`.
pub mod Interface
pub mod Keywords
mod Tests
use marius.Base.{
  ◌++◌, ℕ, zero, suc, ◌+◌, ◌-◌, ◌*◌, ◌^◌, Bool, true, false, not, Option, none, some, List, [], ◌∷◌,
  ◌==◌, ltb, if◌then◌else◌, get_or, get_elem?, length,
}
use marius.Base.Int.{ℤ, pos, negsuc, eq_ℤ}
use marius.Ast.{Bytes, ArgMap}
use marius.Instruction.{Opcode, to_opcode}
use marius.Codegen.State.{CodeInfo, Code, Codes, code, end, cons}
use marius.Objects.Closure.{new_closure, Store, get_at_depth, set_at_depth}
use marius.Machine.Interface.{Host, Reply, value, unwind, long_return}

-- `fp`: the registers of the call from 0 on, `self` at -1, and below it the caller's.
abbrev pub Registers : Type 0 → Type 0
Registers V = ℤ → V

abbrev pub write : {V : Type 0} → Registers V → ℕ → V → Registers V
write fp r v k = if eq_ℤ (pos r) k then v else fp k

-- `(int)(char)b`
abbrev pub signed_char : ℕ → ℤ
signed_char b = if ltb b 128 then pos b else negsuc (255 - b)

-- The integer of four bytes, the lowest first.
abbrev pub from_le_bytes : ℕ → ℕ → ℕ → ℕ → ℤ
from_le_bytes a b c d =
    let n : ℕ = a + b * 2 ^ 8 + c * 2 ^ 16 + d * 2 ^ 24 in
    if ltb n (2 ^ 31) then pos n else negsuc (2 ^ 32 - 1 - n)

-- `&fp[from]`, n of them
abbrev pub slice : {V : Type 0} → Registers V → ℕ → ℕ → List V
slice fp from zero = []
slice fp from (suc n) = fp (pos from) ∷ slice fp (suc from) n

abbrev pub code_at : Codes → ℕ → Option Code
code_at end i = none
code_at (cons c cs) zero = some c
code_at (cons c cs) (suc i) = code_at cs i

-- What the loop keeps: the position, the registers, the handlers `es` with the last one first, the
-- closures, and the rest of the machine.
pub record Frame (V W : Type 0) : Type 0 where
  pub ip : ℕ
  pub fp : Registers V
  pub es : List (ℕ × ℕ)
  pub closures : Store V
  pub world : W

-- What one instruction does: it goes on, it leaves the call, or it ends the program.
pub data Outcome (V W : Type 0) : Type 0 where
  goes : Frame V W → Outcome V W
  returns : Reply V → Frame V W → Outcome V W
  fails : Outcome V W

-- A call's own code, closure, and count of arguments.
pub record Call : Type 0 where
  pub info : CodeInfo
  pub codes : Codes
  pub clos : ℕ
  pub arg_count : ℕ

module _ {V W : Type 0} (host : Host V W) (call : Call) where
  -- The operand k behind position p: `seq[k]`.
  abbrev pub operand : ℕ → ℕ → ℕ
  operand p k = get_or call.info.instructions (p + k) 0

  -- A register is set and the loop goes on at ip.
  abbrev pub put : Frame V W → ℕ → ℕ → V → Outcome V W
  put f ip r v = goes (record f { ip = ip; fp = write f.fp r v })

  -- `fp[te.reg] = v; seq = code->code() + te.ip`, with `te` the last handler, which is taken off;
  -- without a handler the call is left.
  unfoldable pub handle : Frame V W → V → Outcome V W
  handle f v = elim f.es [
    | [] ↦ returns (unwind v) f
    | (reg, ip) ∷ es ↦ goes (record f { ip = ip; fp = write f.fp reg v; es = es })
  ]

  -- `check_unwind`: the reply goes to register r, or to a handler.
  unfoldable pub check_unwind : Frame V W → ℕ → ℕ → Reply V → Outcome V W
  unfolding handle
  check_unwind f ip r (value v) = put f ip r v
  check_unwind f ip r (unwind v) = handle f v
  check_unwind f ip r (long_return target v) =
      if target == call.clos then returns (value v) f else returns (long_return target v) f

  -- A call of `run_method` or `run_kw_method` on register `recv`, with its result in register r. The
  -- callee has the registers behind the receiver.
  unfoldable pub send : Frame V W → ℕ → ℕ → Option Bytes → ℕ → ℕ → Option ArgMap → Outcome V W
  unfolding check_unwind
  send f ip r none recv argc kw = fails
  send f ip r (some name) recv argc kw =
      let (reply, fp, closures, world) =
        host.run_method f.fp (pos recv) name argc kw f.closures f.world in
      check_unwind (record f { fp = fp; closures = closures; world = world }) ip r reply

  -- The cases of the switch; p is the position behind the opcode.
  unfoldable pub execute : Opcode → ℕ → Frame V W → Outcome V W
  unfolding send handle check_unwind
  execute Opcode.movi8 p f = put f (p + 2) (operand p 0) (host.integer (pos (operand p 1)))
  execute Opcode.movi32 p f =
      put f (p + 5) (operand p 0)
        (host.integer (from_le_bytes (operand p 1) (operand p 2) (operand p 3) (operand p 4)))
  execute Opcode.movr p f = put f (p + 2) (operand p 0) (f.fp (pos (operand p 1)))
  execute Opcode.movn p f = put f (p + 1) (operand p 0) host.nil
  execute Opcode.movt p f = put f (p + 1) (operand p 0) host.true_
  execute Opcode.movf p f = put f (p + 1) (operand p 0) host.false_
  execute Opcode.sendi p f =
      send f (p + 4) (operand p 0) (host.as_string (f.fp (pos (operand p 1)))) (operand p 2)
        (operand p 3) none
  execute Opcode.sendi_kw p f = elim (get_elem? call.info.keywords (operand p 4)) [
    | none ↦ fails
    | some kw ↦
        send f (p + 5) (operand p 0) (host.as_string (f.fp (pos (operand p 1)))) (operand p 2)
          (operand p 3) (some kw)
  ]
  execute Opcode.send p f =
      send f (p + 4) (operand p 0) (get_elem? call.info.strings (operand p 1)) (operand p 2)
        (operand p 3) none
  execute Opcode.send_kw p f = elim (get_elem? call.info.keywords (operand p 4)) [
    | none ↦ fails
    | some kw ↦
        send f (p + 5) (operand p 0) (get_elem? call.info.strings (operand p 1)) (operand p 2)
          (operand p 3) (some kw)
  ]
  execute Opcode.lattr p f = elim (get_elem? call.info.strings (operand p 1)) [
    | none ↦ fails
    | some name ↦
        put f (p + 3) (operand p 0) (host.attribute (f.fp (pos (operand p 2))) name f.world)
  ]
  execute Opcode.iva p f = elim (get_elem? call.info.strings (operand p 0)) [
    | none ↦ fails
    | some name ↦
        let world = host.set_attribute (f.fp (negsuc 0)) name (f.fp (pos (operand p 1))) f.world in
        goes (record f { ip = p + 2; world = world })
  ]
  execute Opcode.ivr p f = elim (get_elem? call.info.strings (operand p 1)) [
    | none ↦ fails
    | some name ↦ put f (p + 2) (operand p 0) (host.attribute (f.fp (negsuc 0)) name f.world)
  ]
  execute Opcode.ret p f = returns (value (f.fp (pos (operand p 0)))) f
  execute Opcode.loads p f = elim (get_elem? call.info.strings (operand p 1)) [
    | none ↦ fails
    | some str ↦ put f (p + 2) (operand p 0) (host.string str)
  ]
  execute Opcode.loadc p f = elim (code_at call.codes (operand p 1)) [
    | none ↦ fails
    | some c ↦
        let (m, world) = host.method c call.clos f.world in
        put (record f { world = world }) (p + 2) (operand p 0) m
  ]
  execute Opcode.self p f = put f (p + 1) (operand p 0) (f.fp (negsuc 0))
  execute Opcode.jmpf p f = goes (record f { ip = p + (operand p 0 + 1) })
  execute Opcode.jmpb p f =
      if ltb p (operand p 0 + 1) then fails else goes (record f { ip = p - (operand p 0 + 1) })
  execute Opcode.jmpit p f = goes (record f {
    ip = if host.true_condition (f.fp (pos (operand p 0))) then p + (operand p 1 + 2) else p + 2;
  })
  execute Opcode.jmpif p f = goes (record f {
    ip = if host.true_condition (f.fp (pos (operand p 0))) then p + 2 else p + (operand p 1 + 2);
  })
  execute Opcode.rege p f = goes (record f { ip = p + 2; es = (operand p 0, operand p 1) ∷ f.es })
  execute Opcode.pope p f = elim f.es [ [] ↦ fails | e ∷ es ↦ goes (record f { ip = p; es = es }) ]
  execute Opcode.lvar p f =
      elim (get_at_depth host.nil f.closures call.clos (operand p 1) (operand p 2)) [
        | none ↦ fails
        | some v ↦ put f (p + 3) (operand p 0) v
      ]
  execute Opcode.svar p f =
      elim (set_at_depth f.closures call.clos (operand p 0) (operand p 1)
        (f.fp (signed_char (operand p 2)))) [
          | none ↦ fails
          | some closures ↦ goes (record f { ip = p + 3; closures = closures })
        ]
  execute Opcode.raise p f =
      let (e, world) = host.wrap (f.fp (pos (operand p 0))) f.world in
      handle (record f { world = world }) e
  execute Opcode.not p f =
      put f (p + 2) (operand p 0)
        (if host.true_condition (f.fp (pos (operand p 1))) then host.false_ else host.true_)
  execute Opcode.tuple p f =
      let (t, world) = host.tuple (slice f.fp (operand p 1) (operand p 2)) f.world in
      put (record f { world = world }) (p + 3) (operand p 0) t
  execute Opcode.list p f =
      let (l, world) = host.list (slice f.fp (operand p 1) (operand p 2)) f.world in
      put (record f { world = world }) (p + 3) (operand p 0) l
  execute Opcode.lret p f = returns (host.long_return (f.fp (pos (operand p 0))) f.world) f
  execute Opcode.jmpha p f =
      goes (record f {
        ip = if ltb call.arg_count (operand p 0) then p + (operand p 1 + 2) else p + 2;
      })

  -- One turn of the loop; behind the last instruction the call returns nil.
  unfoldable pub step : Frame V W → Outcome V W
  unfolding execute
  step f = elim (get_elem? call.info.instructions f.ip) [
    | none ↦ returns (value host.nil) f
    | some b ↦ elim (to_opcode b) [ none ↦ fails | some op ↦ execute op (suc f.ip) f ]
  ]

  -- `VM::run` from a frame on: the loop, on fuel, until it leaves the call. `none` is a run that ends
  -- the program or needs more fuel.
  unfoldable pub run : ℕ → Frame V W → Option (Reply V × Frame V W)
  unfolding step
  run zero f = none
  run (suc fuel) f = elim (step f) [
    | goes f' ↦ run fuel f'
    | returns r f' ↦ some (r, f')
    | fails ↦ none
  ]

-- The entry of `VM::run`: a new closure for the code, below the method's own, and the loop from the
-- first instruction.
abbrev pub info_of : Code → CodeInfo
info_of (code info cs) = info

abbrev pub codes_of : Code → Codes
codes_of (code info cs) = cs

abbrev pub new_call : {V : Type 0} → Code → ℕ → Store V → Call
new_call c arg_count closures = record {
  info = info_of c;
  codes = codes_of c;
  clos = length closures;
  arg_count = arg_count;
}

abbrev pub enter : {V W : Type 0} → V → Code → Option ℕ → Registers V → Store V → W → Frame V W
enter nil c parent fp closures world = record {
  ip = 0;
  fp = fp;
  es = [];
  closures =
      closures ++ new_closure nil (info_of c).closed_over_vars parent (info_of c).return_to ∷ [];
  world = world;
}

unfoldable pub run_code :
    {V W : Type 0}
    → Host V W
    → ℕ
    → Code
    → Option ℕ
    → ℕ
    → Registers V
    → Store V
    → W
    → Option (Reply V × Frame V W)
unfolding run new_closure
run_code host fuel c parent arg_count fp closures world =
    run host (new_call c arg_count closures) fuel (enter host.nil c parent fp closures world)
