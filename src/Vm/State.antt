-- ===== src/Vm/State.antt =====
-- runtime/vm.hpp: the state of the virtual core, its registers, and what a pass of the loop does.
use mylamina.Base.{ℕ, ◌+◌}
use mylamina.Base.{List, [], ◌∷◌, Option, none, some, ◌==◌, ltb, if◌then◌else◌}
use mylamina.Base.{replicate}
use mylamina.Opcode.{Op}
use mylamina.Value.{Value, default_value, Libc}

-- `REG_COUNT` and `REG_COUNT_INDEX_MAX` of compiler/common.hpp.
abbrev pub reg_count : ℕ
reg_count = 255

abbrev pub reg_count_index_max : ℕ
reg_count_index_max = 254

-- `StackFrame`; its constructor makes 56 locals.
pub record StackFrame : Type 0 where
  pub locals : List Value
  pub save_regs : List Value

-- `LMXState` with the other members of `VirtualCore`. `text_at` is the memory behind a `char*`;
-- `out` and `log` are what has gone to stdout and stderr.
pub record VirtualCore : Type 0 where
  pub pc : ℕ
  pub regs : ℕ → Value
  pub ret_addr_stack : List ℕ
  pub program : List Op
  pub cur : List StackFrame
  pub const_pool_top : ℕ
  pub text_at : ℕ → List ℕ
  pub out : List ℕ
  pub log : List (List ℕ)

-- What one pass of the loop does: go on, return from `run`, leave the process, or be undefined.
pub data Outcome : Type 0 where
  running : VirtualCore → Outcome
  returned : ℕ → VirtualCore → Outcome
  exited : ℕ → VirtualCore → Outcome
  fault : Outcome

-- `VirtualCore::VirtualCore()`
unfoldable pub initial_core : (ℕ → List ℕ) → VirtualCore
initial_core text_at = record {
  pc = 0;
  regs = λ i. default_value;
  ret_addr_stack = [];
  program = [];
  cur = record { locals = replicate 64 default_value; save_regs = replicate 4 default_value } ∷ [];
  const_pool_top = 0;
  text_at = text_at;
  out = [];
  log = [];
}

-- What the core calls outside the repository: the C++ library, `fgets` on a buffer (the pointer
-- that it returns and the memory after it), and the foreign functions of `DynLib`.
pub record Host : Type 0 where
  pub libc : Libc
  pub fgets : VirtualCore → ℕ → ℕ × (ℕ → List ℕ)
  pub load_library : VirtualCore → ℕ → Option ℕ
  pub set_function : VirtualCore → Option VirtualCore
  pub call_function : VirtualCore → Option VirtualCore

abbrev pub read : VirtualCore → ℕ → Option Value
read s i = if ltb i reg_count then some (s.regs i) else none

abbrev pub update_reg : (ℕ → Value) → ℕ → Value → ℕ → Value
update_reg regs i v j = if j == i then v else regs j

abbrev pub write : VirtualCore → ℕ → Value → VirtualCore
write s i v = record s { regs = update_reg s.regs i v }

-- `ste.pc++`
abbrev pub next : VirtualCore → VirtualCore
next s = record s { pc = s.pc + 1 }

abbrev pub or_fault : Option VirtualCore → Outcome
or_fault none = fault
or_fault (some s) = running s
