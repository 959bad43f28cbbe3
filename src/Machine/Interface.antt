-- ===== src/Machine/Interface.antt =====
-- vm/vm.cpp: what the loop asks of the objects, the classes and the other calls.
use marius.Base.{ℕ, Bool, Option, List}
use marius.Base.Int.{ℤ}
use marius.Ast.{Bytes, ArgMap}
use marius.Codegen.State.{Code}
use marius.Objects.Closure.{Store}

-- The OOP that a call gives back: a value, an exception on its way to a handler, or a return from
-- an outer method, which is known by its closure.
pub data Reply (V : Type 0) : Type 0 where
  value : V → Reply V
  unwind : V → Reply V
  long_return : ℕ → V → Reply V

-- V is the type of values, W the rest of the machine.
pub record Host (V W : Type 0) : Type 0 where
  pub nil : V
  pub true_ : V
  pub false_ : V
  pub integer : ℤ → V
  pub string : Bytes → V
  pub true_condition : V → Bool
  pub as_string : V → Option Bytes
  -- `VM::run_method`, and `VM::run_kw_method` where there are keywords. The callee's registers are
  -- those behind the receiver's, which it may change.
  pub run_method :
      (ℤ → V) → ℤ → Bytes → ℕ → Option ArgMap → Store V → W → Reply V × (ℤ → V) × Store V × W
  pub attribute : V → Bytes → W → V
  pub set_attribute : V → Bytes → V → W → W
  -- `new Method(meth->scope(), code, clos)`
  pub method : Code → ℕ → W → V × W
  -- `Exception::wrap`
  pub wrap : V → W → V × W
  -- `LongReturn::make`
  pub long_return : V → W → Reply V
  pub tuple : List V → W → V × W
  pub list : List V → W → V × W
