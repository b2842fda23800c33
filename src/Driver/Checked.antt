-- ===== src/Driver/Checked.antt =====
-- `main` on a file that the parser accepts.
use pudl.Prelude.{ℕ, Bool, true, false, List, [], Bytes, bytes_eq, Option, if◌then◌else◌}
use pudl.Parser.State.{State}
use pudl.Codegen.Calls.{Call}
use pudl.Codegen.State.{Codegen}
use pudl.Host.{Effect, World, Os, act}
use pudl.Host.Output.{open_file, compile, link_source, run_source}
use pudl.Driver.{Plan}

module _ (os : Os) (stof : Bytes → Option ℕ) (terminated : List Call → Bool) where
  -- What is made of a source file: nothing if its tree does not pass the check, otherwise an object with
  -- `-c`, a program with `-o`, and a run without either.
  abbrev pub made : Plan → Bool → World → World
  made p false w = w
  made p true w =
      if p.compiles
      then (compile os p.c_out w).1
      else if p.links
      then (link_source os p.o_out p.linker w).1
      else (run_source os w).1

  -- With `-p` the IR goes to the screen, or to the file that is named.
  abbrev pub shown : Plan → World → World
  shown p w =
      if p.prints_ir
      then (if bytes_eq p.p_out [] then (act Effect.dumped w).1 else (open_file os p.p_out w).1)
      else w
