-- ===== src/Codegen/Tests.antt =====
-- Runs of the visitors of src/Parser/Codegen.h on small trees, with an account of terminators.
use pudl.Prelude.{◌≡◌, refl, Bool, true, false, List, [], ◌∷◌, codes, Option, none, some, bytes_eq}
use pudl.Prelude.Map.{lookup, insert, update, subscript, pointer}
use pudl.Ast.{Root, vector, type_of}
use pudl.Codegen.Calls.{
  Call, LlvmType, Opcode, Value, is_terminator, is_local, create_alloca, create_load, create_store,
  create_cast, create_binary, create_call, create_ret, create_cond_br, create_br, create_function,
  create_block, insert_into, set_insert_point, set_name, run_passes,
}
use pudl.Codegen.State.{
  Codegen, new_codegen, if_success, gen_error, emit, push_operand, top_operand, drop_operand,
  push_scope, pop_scope, declare_local, find_local, funcs_entry, ast_funcs_entry,
  current_definition, current_function,
}
use pudl.Codegen.Ensures.{TerminatorLaws}
use pudl.Codegen.Expression.{
  visit_expr, visit_binary, visit_var, two_operands, push_result, visit_call, visit_arg,
}
use pudl.Codegen.Statement.{
  visit_root, visit_functions, visit_function, visit_function_def, reset_scopes, register,
  store_params, finish_function, visit_stmt, visit_block, visit_rest, unless_terminated, visit_if,
  visit_return,
}
use pudl.Parser.Tests.{fact}

-- The block at the insertion point ends with a terminator, if each block is begun at most once.
abbrev pub ends_block : List Call → Bool
ends_block [] = false
ends_block (Call.set_insert_point b ∷ cs) = false
ends_block (Call.create_ret v ∷ cs) = true
ends_block (Call.create_br b ∷ cs) = true
ends_block (Call.create_cond_br v b c ∷ cs) = true
ends_block (Call.create_unreachable ∷ cs) = true
ends_block (_ ∷ cs) = ends_block cs

pub ends_block-TerminatorLaws : TerminatorLaws ends_block
ends_block-TerminatorLaws = record { ends = ends; stays = stays; fresh = λ b cs e. refl }
  where
    ends : (c : Call) (cs : List Call) → is_terminator c ≡ true → ends_block (c ∷ cs) ≡ true
    ends (Call.create_ret v) cs h = refl
    ends (Call.create_br b) cs h = refl
    ends (Call.create_cond_br v b c) cs h = refl
    ends Call.create_unreachable cs h = refl
    ends _ cs h = absurd (cc)

    stays :
        (c : Call) (cs : List Call)
        → is_terminator c ≡ false
        → is_local c ≡ true
        → ends_block (c ∷ cs) ≡ ends_block cs
    stays (Call.set_insert_point b) cs h l = absurd (cc)
    stays (Call.create_function n a t) cs h l = absurd (cc)
    stays (Call.create_ret v) cs h l = absurd (cc)
    stays (Call.create_br b) cs h l = absurd (cc)
    stays (Call.create_cond_br v b c) cs h l = absurd (cc)
    stays Call.create_unreachable cs h l = absurd (cc)
    stays _ cs h l = refl

abbrev outcome : Option (Unit {0} × Codegen) → Option (Bool × List Call × List Value)
outcome none = none
outcome (some (a, g)) = some (g.is_success, g.calls, g.operands)

unfoldable run_visitors : Root → Option (Bool × List Call × List Value)
unfolding lookup insert update subscript pointer bytes_eq type_of if_success gen_error emit
    push_operand top_operand drop_operand push_scope pop_scope declare_local find_local funcs_entry
    ast_funcs_entry current_definition current_function visit_root visit_functions visit_function
    visit_function_def reset_scopes register store_params finish_function visit_stmt visit_block
    visit_rest unless_terminated visit_if visit_return visit_expr visit_binary visit_var
    two_operands push_result visit_call visit_arg
run_visitors r = outcome (visit_root ends_block r new_codegen)

-- `if n <= 1 return 1` leaves no jump behind the `return`, and the `else` block stays empty but for its jump.
run_visitors-fact :
    run_visitors (vector (fact ∷ []))
    ≡ some (
      true,
      run_passes 0
          ∷ create_ret (Value.returned 26)
          ∷ create_cast (Value.returned 25) LlvmType.int32
          ∷ create_binary Opcode.i_mul (Value.returned 20) (Value.returned 24)
          ∷ create_call 0 (Value.returned 23 ∷ [])
          ∷ create_cast (Value.returned 22) LlvmType.int32
          ∷ create_binary Opcode.i_sub (Value.returned 21) (Value.constant_int 1)
          ∷ create_load LlvmType.int32 (Value.returned 4) (codes "n")
          ∷ create_load LlvmType.int32 (Value.returned 4) (codes "n")
          ∷ set_insert_point 10
          ∷ insert_into 10 (some 0)
          ∷ create_br 10
          ∷ set_insert_point 9
          ∷ insert_into 9 (some 0)
          ∷ create_ret (Value.returned 13)
          ∷ create_cast (Value.constant_int 1) LlvmType.int32
          ∷ set_insert_point 8
          ∷ create_cond_br (Value.returned 7) 8 9
          ∷ create_block (codes "Merge") none
          ∷ create_block (codes "Else") none
          ∷ create_block (codes "Then") (some 0)
          ∷ create_binary Opcode.icmp_sle (Value.returned 6) (Value.constant_int 1)
          ∷ create_load LlvmType.int32 (Value.returned 4) (codes "n")
          ∷ create_store (Value.argument 0 0) (Value.returned 4)
          ∷ create_alloca LlvmType.int32 (codes "n")
          ∷ set_name 0 0 (codes "n")
          ∷ set_insert_point 1
          ∷ create_block (codes "entry") (some 0)
          ∷ create_function (codes "fact") (LlvmType.int32 ∷ []) LlvmType.int32
          ∷ [],
      [],
    )
unfolding run_visitors
run_visitors-fact = refl
