-- ===== src/Driver/Witnesses.antt =====
-- The theorems on `main` at small command lines.
use pudl.Prelude.{
  ℕ, ◌≡◌, refl, ◌∙◌, true, false, [], ◌∷◌, ◌++◌, List, Bytes, codes, bytes_eq, Option, some, none,
  if◌then◌else◌,
}
use pudl.Ast.{vector}
use pudl.Host.{World}
use pudl.Host.Tests.{system, fresh}
use pudl.Host.Output.{link_object}
use pudl.Parser.Tests.{no_floats, refused_state, run_parse-refused, run_parse_lem}
use pudl.Codegen.Tests.{ends_block}
use pudl.Driver.{
  main, Plan, carry_out, opt_passes, add_passes, holds_byte, is_separator, is_dot, object_path,
  program_path,
}
use pudl.Driver.Rejects.{visible, main-refused}
use pudl.Driver.Objects.{elf_mark, carry_out-object}
use pudl.Driver.Paths.{default_paths, program_path-plain}

-- One file, which the parser refuses.
abbrev disk : Bytes → Option Bytes
disk path = if bytes_eq path (codes "a.pudl") then some (codes "x") else none

abbrev command : List Bytes
command = codes "a.pudl" ∷ codes "-o" ∷ codes "a" ∷ []

main-refused_example :
    (code : ℕ) × (v : World) × (main system no_floats ends_block disk command fresh
      ≡ some (code, v))
    × (visible v.trace ≡ visible fresh.trace)
unfolding bytes_eq
main-refused_example =
    main-refused system no_floats ends_block (codes "x") (vector []) refused_state
      (run_parse_lem (codes "x") ∙ run_parse-refused) refl disk (codes "a.pudl")
      (codes "-o" ∷ codes "a" ∷ []) fresh refl

abbrev object_plan : Plan
object_plan = record {
  in_path = codes "a.o";
  is_source_file = false;
  compiles = false;
  links = true;
  prints_ir = false;
  c_out = codes "a.o";
  o_out = codes "a";
  p_out = [];
  linker = codes "g++";
}

carry_out-object_example :
    carry_out system no_floats ends_block [] object_plan (elf_mark ∷ codes "ELF") fresh
    ≡ some (
      0,
      (link_object system
          (codes "a.o")
          (codes "a")
          (codes "g++")
          (add_passes (opt_passes []) fresh).1).1,
    )
carry_out-object_example =
    carry_out-object system no_floats ends_block [] object_plan (codes "ELF") fresh refl refl refl
      refl

plain_name : holds_byte is_separator (codes "b" ++ b'.' ∷ codes "pudl") ≡ false
unfolding holds_byte
plain_name = refl

plain_extension : holds_byte is_dot (codes "pudl") ≡ false
unfolding holds_byte
plain_extension = refl

plain_file : (holds_byte is_separator (codes "b") ≡ false) × (holds_byte is_dot (codes "b") ≡ false)
unfolding holds_byte
plain_file = (refl, refl)

default_paths_example :
    (object_path (codes "a" ++ b'/' ∷ (codes "b" ++ b'.' ∷ codes "pudl")) []
      ≡ codes "b" ++ codes ".o")
    × (program_path (codes "a" ++ b'/' ∷ (codes "b" ++ b'.' ∷ codes "pudl")) [] ≡ codes "b")
default_paths_example =
    default_paths (codes "a") (codes "b") (codes "pudl") plain_name plain_extension

program_path-plain_example : program_path (codes "b") [] ≡ codes "b"
program_path-plain_example = program_path-plain (codes "b") plain_file.0 plain_file.1

abbrev fact_plan : Plan
fact_plan = record {
  in_path = codes "a.pudl";
  is_source_file = true;
  compiles = true;
  links = false;
  prints_ir = false;
  c_out = codes "a.o";
  o_out = codes "a";
  p_out = [];
  linker = [];
}
