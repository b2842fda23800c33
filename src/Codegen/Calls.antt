-- ===== src/Codegen/Calls.antt =====
-- The calls that src/Parser/Codegen.h makes of LLVM's IRBuilder, Function, BasicBlock and pass manager,
-- as data. What LLVM does with a call is not modelled: a value is named by the call that returned it.
use pudl.Prelude.{ℕ, ◌==◌, ◌||◌, Bool, true, false, List, [], ◌∷◌, Bytes, Option}

-- What `toLLVMType` returns.
pub data LlvmType : Type 0 where
  int1 int32 float : LlvmType

-- The formats of the calls of `printf`: `formati` and `formatf`.
pub data Format : Type 0 where
  format_int format_float : Format

-- `CreateFAdd` to `CreateUDiv`, and the predicates of `CreateFCmp` and `CreateICmp`.
pub data Opcode : Type 0 where
  f_add f_sub f_mul f_div : Opcode
  i_add i_sub i_mul u_div : Opcode
  fcmp_oeq fcmp_one fcmp_ogt fcmp_olt fcmp_oge fcmp_ole : Opcode
  icmp_eq icmp_ne icmp_sgt icmp_slt icmp_sge icmp_sle : Opcode

pub data UnaryOpcode : Type 0 where
  f_neg neg not_op : UnaryOpcode

-- A `Value *`: what the call of that number returned, a constant, or an argument of the function of
-- that number.
pub data Value : Type 0 where
  returned : ℕ → Value
  constant_bool : Bool → Value
  constant_int : ℕ → Value
  constant_float : ℕ → Value
  argument : ℕ → ℕ → Value

-- Functions and basic blocks are named by the numbers of the calls that created them. `create_block`
-- has the function that the block is attached to, or nothing for a detached one.
pub data Call : Type 0 where
  create_alloca : LlvmType → Bytes → Call
  create_load : LlvmType → Value → Bytes → Call
  create_store : Value → Value → Call
  create_cast : Value → LlvmType → Call
  create_binary : Opcode → Value → Value → Call
  create_unary : UnaryOpcode → Value → Call
  create_call : ℕ → List Value → Call
  create_gep : Format → Call
  create_fpext create_zext : Value → Call
  create_printf : List Value → Call
  create_ret : Value → Call
  create_br : ℕ → Call
  create_cond_br : Value → ℕ → ℕ → Call
  create_unreachable : Call
  create_function : Bytes → List LlvmType → LlvmType → Call
  create_block : Bytes → Option ℕ → Call
  insert_into : ℕ → Option ℕ → Call
  set_insert_point : ℕ → Call
  set_name : ℕ → ℕ → Bytes → Call
  run_passes : ℕ → Call

-- The calls that insert a terminator at the insertion point.
abbrev pub is_terminator : Call → Bool
is_terminator (Call.create_ret v) = true
is_terminator (Call.create_br b) = true
is_terminator (Call.create_cond_br v b c) = true
is_terminator Call.create_unreachable = true
is_terminator _ = false

-- The calls that work on functions and blocks and insert no instruction.
abbrev pub is_structure : Call → Bool
is_structure (Call.create_function n a t) = true
is_structure (Call.create_block n f) = true
is_structure (Call.insert_into b f) = true
is_structure (Call.set_name f i n) = true
is_structure _ = false

-- The calls on behalf of the function that is being generated which leave the insertion point where it
-- is.
abbrev pub is_local : Call → Bool
is_local (Call.set_insert_point b) = false
is_local (Call.run_passes f) = false
is_local (Call.create_function n a t) = false
is_local _ = true

-- Whether the insertion point was ever set to the block.
abbrev pub enters : ℕ → Call → Bool
enters b (Call.set_insert_point c) = c == b
enters b _ = false

unfoldable pub entered : ℕ → List Call → Bool
entered b [] = false
entered b (c ∷ cs) = enters b c || entered b cs
