-- ===== src/Codegen/Witnesses.antt =====
-- The theorem on scopes at a variable that shadows another, and those on the visitors at a small file.
use pudl.Prelude.{
  arith, Bool, ◌+◌, ◌*◌, ℕ, ◌≡◌, ◌⊎◌, ◌∙◌, false, refl, [], ◌∷◌, codes, bytes_eq, Option, none,
  some, ap, if◌then◌else◌,
}
use pudl.Prelude.Map.{lookup, update}
use pudl.Ast.{
  Stmts, stmt, no_stmts, block, assignment, TType, OperatorKind, Expr, vector, var, integer_lit,
  binary, type_of,
}
use pudl.Parser.Tests.{n, no_floats, fact, fact_source, fact_state, run_parse-fact, run_parse_lem}
use pudl.Codegen.Calls.{Value, Opcode, entered}
use pudl.Codegen.State.{Codegen, new_codegen}
use pudl.Codegen.Ensures.{Legal, Closed, IsInside}
use pudl.Parser.Typing.{Context, Typed, TypedStmt, TypedStmts}
use pudl.Codegen.Finished.{created, passed}
use pudl.Codegen.Expression.{visit_expr}
use pudl.Codegen.Expression.Meaning.{Machine, operator_of, on_floats, Means}
use pudl.Codegen.Expression.Meaning.Values.{Computes}
use pudl.Codegen.Expression.Meaning.Computes.{visit_expr-Computes}
use pudl.Codegen.Statement.{visit_stmt, visit_root}
use pudl.Codegen.Statement.Scopes.{visit_stmt-restores}
use pudl.Codegen.Statement.Functions.{visit_root_safe}
use pudl.Codegen.Attached.{AllAttached}
use pudl.Codegen.Attached.Functions.{visit_root-AllAttached}
use pudl.Codegen.Check.{check_root}
use pudl.Codegen.Check.Functions.{visit_root-check_root}
use pudl.Codegen.Tests.{ends_block, ends_block-TerminatorLaws}
use pudl.Codegen.ScopeStack.{Scopes, declare_in, lookup_in, lookup_in-declare_in}

abbrev outer : Scopes ℕ
outer = ((codes "x", 0) ∷ []) ∷ []

declared : declare_in (codes "x") 2 ([] ∷ outer) ≡ some (((codes "x", 2) ∷ []) ∷ outer)
unfolding update
declared = refl

lookup_in-declare_in_example :
    lookup_in (codes "x") (((codes "x", 2) ∷ []) ∷ outer)
    ≡ (if bytes_eq (codes "x") (codes "x") then some 2 else lookup_in (codes "x") ([] ∷ outer))
lookup_in-declare_in_example =
    lookup_in-declare_in (codes "x") (codes "x") 2 ([] ∷ outer) (((codes "x", 2) ∷ []) ∷ outer)
      declared

visit_root_safe_example :
    (g : Codegen) × (visit_root ends_block (vector (fact ∷ [])) new_codegen ≡ some (tt, g))
    × Legal ends_block g.calls
    × ((g.is_success ≡ false)
        ⊎ (Closed ends_block g.calls × (passed g.calls ≡ created g.calls) × (g.operands ≡ [])))
visit_root_safe_example =
    visit_root_safe ends_block ends_block-TerminatorLaws no_floats fact_source (vector (fact ∷ []))
      fact_state (run_parse_lem fact_source ∙ run_parse-fact) refl

-- Natural numbers, with `n` equal to 5 in memory.
abbrev sums : Bool → OperatorKind → ℕ → ℕ → ℕ
sums f OperatorKind.add x y = x + y
sums f OperatorKind.mul x y = x * y
sums f _ x y = 0

-- An instruction that is for no operator gives 0.
abbrev of_operator : Bool → Option OperatorKind → ℕ → ℕ → ℕ
of_operator f none x y = 0
of_operator f (some op) x y = sums f op x y

abbrev numbers : Machine
numbers = record {
  V = ℕ;
  junk = 0;
  of_bool = λ b. 0;
  of_int = λ n. n;
  of_float = λ n. n;
  of_argument = λ f i. 0;
  load = λ ty slot. 5;
  cast = λ x ty. x;
  opcode = λ o x y. of_operator (on_floats o) (operator_of o) x y;
  unary = λ o x. 0;
}

-- `n * (n + 1)`
abbrev product : Expr
product =
    binary TType.integer OperatorKind.mul (var n)
      (binary TType.integer OperatorKind.add (var n) (integer_lit 1))

abbrev with_n : Codegen
with_n = record new_codegen { scopes = ((codes "n", Value.returned 0) ∷ []) ∷ [] }

product-Means : Means numbers sums with_n.scopes product 30
unfolding lookup bytes_eq type_of
product-Means =
    Means.arithmetic TType.integer OperatorKind.mul false refl refl refl
      (Means.var n (Value.returned 0) refl)
      (Means.arithmetic TType.integer OperatorKind.add false refl refl refl
        (Means.var n (Value.returned 0) refl) (Means.integer_lit 1))

sums-documented :
    (o : Opcode) (op : OperatorKind)
    → operator_of o ≡ some op
    → (x y : ℕ) → numbers.opcode o x y ≡ sums (on_floats o) op x y
sums-documented o op e x y = ap (λ p. of_operator (on_floats o) p x y) e

visit_expr-Computes_example : Computes numbers with_n 30 (visit_expr product with_n)
visit_expr-Computes_example =
    visit_expr-Computes numbers sums sums-documented with_n product 30 refl product-Means

visit_root-check_root_example :
    (g : Codegen) × (visit_root ends_block (vector (fact ∷ [])) new_codegen ≡ some (tt, g))
    × (g.is_success ≡ check_root (vector (fact ∷ [])))
visit_root-check_root_example =
    visit_root-check_root ends_block ends_block-TerminatorLaws no_floats fact_source
      (vector (fact ∷ [])) fact_state (run_parse_lem fact_source ∙ run_parse-fact) refl

visit_root-AllAttached_example :
    (g : Codegen) × (visit_root ends_block (vector (fact ∷ [])) new_codegen ≡ some (tt, g))
    × AllAttached g.calls
visit_root-AllAttached_example =
    visit_root-AllAttached ends_block ends_block-TerminatorLaws no_floats fact_source
      (vector (fact ∷ [])) fact_state (run_parse_lem fact_source ∙ run_parse-fact) refl

-- `{ n = 1 }`, where the parser knows `n` and the scopes do not.
abbrev n_context : Context
n_context = record { scope = (codes "n", some n) ∷ []; funcs = [] }

abbrev n_block : Stmts
n_block = stmt (assignment n (integer_lit 1)) no_stmts

n_block-TypedStmt : TypedStmt n_context (block n_block)
unfolding lookup bytes_eq type_of
n_block-TypedStmt = TypedStmt.block n_block (
    TypedStmts.stmt (assignment n (integer_lit 1)) no_stmts
      (TypedStmt.assignment n (integer_lit 1) refl (λ e. cc) refl
        (Typed.integer_lit 1 (omega arith)))
      TypedStmts.no_stmts)

abbrev in_fact : Codegen
in_fact = record new_codegen { current_func = some fact; scopes = [] ∷ [] }

in_fact-IsInside : IsInside ends_block 0 in_fact
unfolding entered lookup
in_fact-IsInside = record {
  sound = record {
    legal = tt;
    closed = λ _. tt;
    known = λ b e. absurd (cc);
    paired = λ name f e. absurd (cc);
  };
  defined = (fact, refl);
  scoped = ([], [], refl);
  from = omega arith;
}

visit_stmt-restores_example :
    (t : Codegen) × (visit_stmt ends_block (block n_block) in_fact ≡ some (tt, t))
    × (t.scopes ≡ in_fact.scopes)
visit_stmt-restores_example =
    visit_stmt-restores ends_block ends_block-TerminatorLaws n_block in_fact n_block-TypedStmt
      in_fact-IsInside refl
