-- ===== src/Foreign.antt =====
-- runtime/libloader.hpp, libloader.cpp, and the calls `dyn_load`, `dyn_set` and `dyn_call` of
-- runtime/vmcall.cpp. The system's loader, paths and memory are a `Platform`, and dyncall is the
-- function that makes a call. A `DynLib` is found by its address in a list of them; the map from
-- `const char*` compares addresses.
pub mod Laws
use mylamina.Base.{
  ℕ, zero, suc, ◌+◌, ◌-◌, ◌%◌, ◌^◌, Bool, not, List, [], ◌∷◌, ◌++◌, Option, none, some, ◌==◌, ltb,
  if◌then◌else◌, ◌>>=◌, Text, length, map, get_or,
}
use mylamina.Value.{Value, assign_ptr, assign_bool, assign_u8, assign_u64, assign_f64}
use mylamina.Scope.{is_some}
use mylamina.Vm.State.{VirtualCore, read, write, reg_count_index_max}

pub data CBasicTypes : Type 0 where
  void char short int long_long float double ptr bool no_enum_value : CBasicTypes

-- `static_cast<CBasicTypes>` of a byte.
unfoldable pub ctype_of : ℕ → CBasicTypes
ctype_of b =
    get_or (void ∷ char ∷ short ∷ int ∷ long_long ∷ float ∷ double ∷ ptr ∷ bool ∷ []) b
      no_enum_value

-- What `dcArg…` puts on the list of arguments.
pub data Arg : Type 0 where
  arg_char arg_short arg_int arg_long_long : ℕ → Arg
  arg_float arg_double arg_pointer arg_bool : ℕ → Arg

pub record DynFunc : Type 0 where
  pub func : ℕ
  pub ret_type : CBasicTypes
  pub arg_count : ℕ
  pub arg_type : List CBasicTypes

pub record DynLib : Type 0 where
  pub name : Text
  pub handle : ℕ
  pub funcs : List (ℕ × DynFunc)

-- What the code asks the system for. `call_with` is dyncall: the type of the result, the size of its
-- stack, the arguments, the function and the memory; it gives the result and the memory.
pub record Platform : Type 0 where
  pub prefix : Text
  pub suffix : Text
  pub parent_path : Text → Text
  pub filename : Text → Text
  pub join : Text → Text → Text
  pub dlopen : Text → Option ℕ
  pub dlsym : ℕ → Text → Option ℕ
  pub bytes_at : ℕ → ℕ → List ℕ
  pub f64_of_f32 : ℕ → ℕ
  pub call_with : CBasicTypes → ℕ → List Arg → ℕ → (ℕ → List ℕ) → ℕ × (ℕ → List ℕ)

-- The loop of `DynFunc::call` on one argument.
unfoldable pub arg_of : CBasicTypes → Value → Arg
arg_of char v = arg_char (v.bits % 2 ^ 8)
arg_of short v = arg_short (v.bits % 2 ^ 16)
arg_of int v = arg_int (v.bits % 2 ^ 32)
arg_of long_long v = arg_long_long v.bits
arg_of float v = arg_float (v.bits % 2 ^ 32)
arg_of double v = arg_double v.bits
arg_of bool v = arg_bool (v.bits % 2 ^ 8)
arg_of _ v = arg_pointer v.bits

-- `reg--`
abbrev pub reg_before : ℕ → ℕ
reg_before reg = (reg + (2 ^ 64 - 1)) % 2 ^ 64

-- The arguments, and the register that follows.
unfoldable pub args_from : ℕ → List CBasicTypes → VirtualCore → Option (List Arg × ℕ)
args_from reg [] s = some ([], reg)
args_from reg (t ∷ ts) s = do
  v ← read s reg
  r ← args_from (reg_before reg) ts s
  some (arg_of t v ∷ r.0, r.1)

-- `max_size()`, where it starts at 0.
unfoldable pub max_size : List CBasicTypes → ℕ
max_size [] = 0
max_size (t ∷ ts) = max_size ts + 8

-- The value of `w` bits as a `uint64_t` that was a signed integer.
abbrev extend : ℕ → ℕ → ℕ
extend w n = if ltb (n % 2 ^ w) (2 ^ (w - 1)) then n % 2 ^ w else n % 2 ^ w + (2 ^ 64 - 2 ^ w)

-- `vm->get_register(0) = …`
unfoldable pub return_value : Platform → CBasicTypes → ℕ → Value → Value
return_value p void n v = assign_ptr v 0
return_value p char n v = assign_u8 v (n % 2 ^ 8)
return_value p short n v = assign_u64 v (extend 16 n)
return_value p int n v = assign_u64 v (extend 32 n)
return_value p long_long n v = assign_u64 v n
return_value p float n v = assign_f64 v (p.f64_of_f32 n)
return_value p double n v = assign_f64 v n
return_value p ptr n v = assign_ptr v n
return_value p bool n v = assign_bool v (not (n == 0))
return_value p no_enum_value n v = v

-- The `switch` on the type of the result. Its default makes no call: it only reads a register.
unfoldable pub call_typed :
    Platform → CBasicTypes → ℕ → List Arg → ℕ → ℕ → VirtualCore → Option VirtualCore
unfolding return_value
call_typed p no_enum_value size args func reg s = do _ ← read s reg; some s
call_typed p t size args func reg s = do
  v ← read s 0
  let (n, mem) = p.call_with t size args func s.text_at
  some (record (write s 0 (return_value p t n v)) { text_at = mem })

-- `DynFunc::call`
unfoldable pub call_func : Platform → DynFunc → VirtualCore → Option VirtualCore
unfolding call_typed
call_func p f s = do
  a ← args_from reg_count_index_max f.arg_type s
  call_typed p f.ret_type (max_size f.arg_type) a.0 f.func a.1 s

-- `DynLib::DynLib(name)`; `none` is the `exit(1)` of a library that cannot be loaded.
unfoldable pub new_lib : Platform → Text → Option DynLib
new_lib p name = do
  let path = p.join (p.parent_path name) (p.prefix ++ (p.filename name ++ p.suffix))
  h ← p.dlopen path
  some (record { name = path; handle = h; funcs = [] })

unfoldable pub find_func : ℕ → List (ℕ × DynFunc) → Option DynFunc
find_func n [] = none
find_func n ((m, f) ∷ fs) = if m == n then some f else find_func n fs

-- `DynLib::find`
unfoldable pub find : ℕ → DynLib → Option DynFunc
unfolding find_func
find n lib = find_func n lib.funcs

-- `DynLib::contain`
unfoldable pub contain : ℕ → DynLib → Bool
contain n lib = is_some (find n lib)

-- `DynLib::set_func(n, args_type, ret_type)`; `text` is the text at `n`, and `none` the `exit(1)` of a
-- symbol that is not there.
unfoldable pub set_func :
    Platform → ℕ → Text → List CBasicTypes → CBasicTypes → DynLib → Option DynLib
set_func p n text args_type ret_type lib = do
  fp ← p.dlsym lib.handle text
  some (
      if contain n lib then lib else record lib {
        funcs =
            lib.funcs
            ++ ((
              n,
              record {
                func = fp;
                ret_type = ret_type;
                arg_count = length args_type % 256;
                arg_type = args_type;
              },
            )
                ∷ []);
      })

called : Platform → Option DynFunc → VirtualCore → Option VirtualCore
called p none s = some s
called p (some f) s = call_func p f s

-- `DynLib::call`
unfoldable pub call : Platform → ℕ → DynLib → VirtualCore → Option VirtualCore
unfolding called
call p n lib s = called p (find n lib) s

-- The libraries of a machine by their addresses.
abbrev pub Libs : Type 0
Libs = List (ℕ × DynLib)

unfoldable pub lib_at : ℕ → Libs → Option DynLib
lib_at a [] = none
lib_at a ((b, lib) ∷ libs) = if b == a then some lib else lib_at a libs

unfoldable pub set_lib : ℕ → DynLib → Libs → Libs
set_lib a lib [] = []
set_lib a lib ((b, old) ∷ libs) = if b == a then (b, lib) ∷ libs else (b, old) ∷ set_lib a lib libs

-- `VMC_dyn_load`, with the address of the new object; `set_reg_ptr` leaves the tag of register 0.
unfoldable pub dyn_load : Platform → ℕ → VirtualCore → Libs → Option (VirtualCore × Libs)
dyn_load p address s libs = do
  lib ← new_lib p (s.text_at (s.regs reg_count_index_max).bits)
  some (write s 0 (record (s.regs 0) { bits = address }), libs ++ ((address, lib) ∷ []))

-- `VMC_dyn_set`; `none` is also the use of an address that is no library's.
unfoldable pub dyn_set : Platform → VirtualCore → Libs → Option Libs
dyn_set p s libs = do
  let types = p.bytes_at (s.regs 252).bits (s.regs 251).bits
  let ret = get_or (p.bytes_at (s.regs 250).bits 1) 0 0
  let n = (s.regs 253).bits
  lib ← lib_at (s.regs reg_count_index_max).bits libs
  lib' ← set_func p n (s.text_at n) (map ctype_of types) (ctype_of ret) lib
  some (set_lib (s.regs reg_count_index_max).bits lib' libs)

-- `VMC_dyn_call`
unfoldable pub dyn_call : Platform → VirtualCore → Libs → Option VirtualCore
dyn_call p s libs = do lib ← lib_at (s.regs 0).bits libs; call p (s.regs 1).bits lib s
