-- ===== src/Fuzz.antt =====
-- fuzz/fuzz_pipeline.cpp: the harness that feeds the fuzzer's bytes to the parser and the code generator.
use pudl.Prelude.{
  ℕ, ◌≡◌, refl, ap, ◌∙◌, Bool, List, Bytes, Option, some, none, if◌then◌else◌, if_intro,
}
use pudl.Ast.{Root}
use pudl.Parser.State.{State, Outcome, value, null, out_of_fuel}
use pudl.Parser.Program.{parse}
use pudl.Parser.Program.Sound.{parse_total}
use pudl.Codegen.Calls.{Call}
use pudl.Codegen.Ensures.{TerminatorLaws}
use pudl.Codegen.State.{Codegen, new_codegen}
use pudl.Codegen.Statement.{visit_root}
use pudl.Codegen.Statement.Functions.{visit_root_safe}

-- The return value behind the code generator; `none` is a crash.
abbrev generated : Option (Unit {0} × Codegen) → Option ℕ
generated none = none
generated (some p) = some 0

module _ (stof : Bytes → Option ℕ) (terminated : List Call → Bool) where
  abbrev pub parsed : Outcome Root → Option ℕ
  parsed (value r s) =
      if s.is_error then some 0 else generated (visit_root terminated r new_codegen)
  parsed (null s) = some 0
  parsed out_of_fuel = none

  -- `LLVMFuzzerTestOneInput`, where `opens` says whether `fmemopen` gives a file.
  unfoldable pub test_one_input : (Bytes → Bool) → Bytes → Option ℕ
  test_one_input opens input = if opens input then parsed (parse stof input) else some 0

  -- If LLVM's test for a terminator answers as documented, the harness comes to its end with 0: the
  -- parser stops, and the visitors pop no empty operand stack, dereference no null pointer and miss
  -- no scope.
  pub test_one_input_total :
      TerminatorLaws terminated
      → (opens : Bytes → Bool) (input : Bytes) → test_one_input opens input ≡ some 0
  unfolding test_one_input
  test_one_input_total laws opens input =
      if_intro (λ o. o ≡ some 0) (opens input) (λ _. on_outcome (parse_total stof input))
        (λ _. refl)
    where
      on_outcome :
          (r : Root) × (s : State) × (parse stof input ≡ value r s)
          → parsed (parse stof input) ≡ some 0
      on_outcome (r, s, e) =
          ap parsed e
          ∙ if_intro (λ o. o ≡ some 0) s.is_error (λ _. refl)
              λ clean. ap generated (visit_root_safe terminated laws stof input r s e clean).1
