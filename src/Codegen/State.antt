-- ===== src/Codegen/State.antt =====
-- The state of src/Parser/Codegen.h: the members that the visitors use, and a monad for them. `none` is
-- behaviour that C++ does not define: `top` and `pop` of an empty stack, a null pointer that is
-- dereferenced, `back` of no scope. Debug output (`infoln`) is left out. The builder's calls stand in
-- `calls`, latest first.
use pudl.Prelude.{
  ℕ, Bool, true, false, not, List, [], ◌∷◌, Bytes, length, Option, none, some, if◌then◌else◌,
}
use pudl.Prelude.Map.{Map, subscript}
use pudl.Ast.{TType, FunctionDef}
use pudl.Codegen.Calls.{Call, LlvmType, Value, create_cast}
use pudl.Codegen.ScopeStack.{Scopes, push, pop, declare_in, lookup_in}

-- The texts that are passed to `error`.
pub data GenError : Type 0 where
  no_variable : Bytes → GenError
  unknown : GenError
  undefined_function : Bytes → GenError
  wrong_arguments : ℕ → ℕ → GenError

pub record Codegen : Type 0 where
  pub is_success : Bool
  pub generate_ir : Bool
  pub calls : List Call
  pub operands : List Value
  pub scopes : Scopes Value
  pub funcs : Map (Option ℕ)
  pub ast_funcs : Map (Option FunctionDef)
  pub current_func : Option FunctionDef
  pub errors : List GenError

-- `Codegen()`. The globals and the declaration of `printf` are there before any visitor runs.
abbrev pub new_codegen : Codegen
new_codegen = record {
  is_success = true;
  generate_ir = true;
  calls = [];
  operands = [];
  scopes = [];
  funcs = [];
  ast_funcs = [];
  current_func = none;
  errors = [];
}

abbrev pub G : Type 0 → Type 0
G A = Codegen → Option (A × Codegen)

module _ {A : Type 0} where
  abbrev pub pure : A → G A
  pure a s = some (a, s)

  -- Undefined behaviour.
  abbrev pub crash : G A
  crash s = none

  abbrev pub run : Codegen → G A → Option (A × Codegen)
  run s m = m s

abbrev pub bind : {A B : Type 0} → Option (A × Codegen) → (A → G B) → Option (B × Codegen)
bind none f = none
bind (some (a, s)) f = f a s

infixl 5 ◌>>=◌ ◌>>◌
abbrev pub ◌>>=◌ : {A B : Type 0} → G A → (A → G B) → G B
◌>>=◌ m f s = bind (m s) f

abbrev pub ◌>>◌ : {A B : Type 0} → G A → G B → G B
m >> k = m >>= λ _. k

-- `if (!isSuccess) { return a; }` in front of the rest.
unfoldable pub if_success : {A : Type 0} → A → G A → G A
if_success a k s = if s.is_success then k s else some (a, s)

-- `isFailed()`
abbrev pub is_failed : Codegen → Bool
is_failed s = not s.is_success

-- `error`
unfoldable pub gen_error : GenError → G (Unit {0})
gen_error e s =
    some (tt, record s { generate_ir = false; is_success = false; errors = e ∷ s.errors })

-- A call of the builder, and the value, function or block that it returns.
unfoldable pub emit : Call → G ℕ
emit c s = some (length s.calls, record s { calls = c ∷ s.calls })

abbrev pub emit_value : Call → G Value
emit_value c = do n ← emit c; pure (Value.returned n)

-- `operands.push`, `operands.top` and `operands.pop`
unfoldable pub push_operand : Value → G (Unit {0})
push_operand v s = some (tt, record s { operands = v ∷ s.operands })

abbrev pub top_of : List Value → G Value
top_of [] = crash
top_of (v ∷ vs) = pure v

unfoldable pub top_operand : G Value
top_operand s = top_of s.operands s

abbrev pub without_top : List Value → G (Unit {0})
without_top [] s = none
without_top (v ∷ vs) s = some (tt, record s { operands = vs })

unfoldable pub drop_operand : G (Unit {0})
drop_operand s = without_top s.operands s

-- `pop()`
abbrev pub pop_operand : G Value
pop_operand = do v ← top_operand; drop_operand; pure v

-- `toLLVMType`
abbrev pub llvm_type : TType → LlvmType
llvm_type TType.bool = LlvmType.int1
llvm_type TType.integer = LlvmType.int32
llvm_type TType.float = LlvmType.float
llvm_type TType.undefined = LlvmType.int32

-- `cast(aValue, aFrom, aTo)`, which does not look at `aFrom`.
abbrev pub cast_value : Value → TType → G Value
cast_value v ty = emit_value (create_cast v (llvm_type ty))

abbrev pub with_scopes : Option (Scopes Value) → G (Unit {0})
with_scopes none s = none
with_scopes (some scopes) s = some (tt, record s { scopes = scopes })

-- The calls of `scopeStack`.
unfoldable pub push_scope : G (Unit {0})
push_scope s = some (tt, record s { scopes = push s.scopes })

unfoldable pub pop_scope : G (Unit {0})
pop_scope s = with_scopes (pop s.scopes) s

unfoldable pub declare_local : Bytes → Value → G (Unit {0})
declare_local name alloca s = with_scopes (declare_in name alloca s.scopes) s

unfoldable pub find_local : Bytes → G (Option Value)
find_local name s = some (lookup_in name s.scopes, s)

-- `funcs[name]` and `astFuncs[name]`
unfoldable pub funcs_entry : Bytes → G (Option ℕ)
funcs_entry name s = let (f, m) = subscript name s.funcs in some (f, record s { funcs = m })

unfoldable pub ast_funcs_entry : Bytes → G (Option FunctionDef)
ast_funcs_entry name s =
    let (d, m) = subscript name s.ast_funcs in some (d, record s { ast_funcs = m })

-- `*currentFunc`
abbrev pub deref : Option FunctionDef → G FunctionDef
deref none = crash
deref (some d) = pure d

unfoldable pub current_definition : G FunctionDef
current_definition s = deref s.current_func s

-- `funcs[currentFunc->getName()]`
unfoldable pub current_function : G (Option ℕ)
current_function s = run s do d ← current_definition; funcs_entry d.name
