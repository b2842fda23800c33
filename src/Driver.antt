-- ===== src/Driver.antt =====
-- src/main.cpp: what `main` decides, from the arguments behind the program's name.
pub mod Ends
pub mod Paths
pub mod Rejects
pub mod Objects
pub mod Checked
mod Witnesses
use pudl.Prelude.{
  ℕ, Bool, true, false, not, ◌&&◌, ◌||◌, ◌==◌, leb, List, [], ◌∷◌, ◌++◌, Bytes, codes, bytes_eq,
  all, Option, some, none, if◌then◌else◌,
}
use pudl.Cli.{split_args, has_option, get_option_value}
use pudl.Ast.{Root}
use pudl.Parser.State.{State, Outcome, value, null, out_of_fuel}
use pudl.Parser.Program.{parse}
use pudl.Codegen.Calls.{Call}
use pudl.Codegen.State.{Codegen, new_codegen}
use pudl.Codegen.Statement.{visit_root}
use pudl.Host.{Effect, Pass, World, Os, H, pure, run_in, ◌>>=◌, ◌>>◌, act}
use pudl.Host.Linker.{detect_default}
use pudl.Host.Output.{open_file, run_source, run_object, compile, link_source, link_object}

abbrev pub is_null : Bytes → Bool
is_null [] = true
is_null (c ∷ w) = false

-- `getOptionValue(name, getOptionValue(other))`
abbrev pub option_value : Bytes → Bytes → List Bytes → Bytes
option_value name other args = get_option_value name (get_option_value other [] args) args

abbrev pub has_either : Bytes → Bytes → List Bytes → Bool
has_either name other args = has_option name args || has_option other args

unfoldable pub holds_byte : (ℕ → Bool) → Bytes → Bool
holds_byte p [] = false
holds_byte p (c ∷ w) = p c || holds_byte p w

abbrev pub is_separator : ℕ → Bool
is_separator c = (c == b'/') || (c == b'\\')

abbrev pub is_dot : ℕ → Bool
is_dot c = c == b'.'

-- `path.substr(path.find_last_of("/\\") + 1)`
unfoldable pub base_name : Bytes → Bytes
base_name [] = []
base_name (c ∷ w) =
    let rest = base_name w in
    if holds_byte is_separator w then rest else if is_separator c then w else c ∷ w

-- `path.substr(0, path.find_last_of('.'))`
unfoldable pub stem : Bytes → Bytes
stem [] = []
stem (c ∷ w) =
    let rest = stem w in if holds_byte is_dot w then c ∷ rest else if is_dot c then [] else c ∷ w

-- The output of `-c` and that of `-o`, from the value of the option.
abbrev pub object_path : Bytes → Bytes → Bytes
object_path in_path given = if is_null given then stem (base_name in_path) ++ codes ".o" else given

abbrev pub program_path : Bytes → Bytes → Bytes
program_path in_path given = if is_null given then stem (base_name in_path) else given

abbrev pub pass_if : Bytes → Pass → List Bytes → List Pass
pass_if option pass args = if has_option option args then pass ∷ [] else []

abbrev pub all_passes : List Pass
all_passes =
    Pass.promote ∷ Pass.instcombine ∷ Pass.reassociate ∷ Pass.dce ∷ Pass.gvn ∷ Pass.simplify_cfg
    ∷ []

abbrev pub level_specified : List Bytes → Bool
level_specified args =
    has_option (codes "-O0") args
    || has_option (codes "-ONone") args
    || has_option (codes "-O1") args
    || has_option (codes "-O2") args
    || has_option (codes "-O3") args
    || has_option (codes "-O4") args
    || has_option (codes "-O5") args
    || has_option (codes "-O6") args

-- The passes that are added, in order.
unfoldable pub opt_passes : List Bytes → List Pass
opt_passes args =
    pass_if (codes "-O1") Pass.promote args
    ++ (pass_if (codes "-O2") Pass.instcombine args
        ++ (pass_if (codes "-O3") Pass.reassociate args
            ++ (pass_if (codes "-O4") Pass.dce args
                ++ (pass_if (codes "-O5") Pass.gvn args
                    ++ (pass_if (codes "-O6") Pass.simplify_cfg args
                        ++ (if has_option (codes "-Oall") args || not (level_specified args)
                            then all_passes
                            else []))))))

-- The calls of `opt_promote_to_reg` and the others.
unfoldable pub add_passes : List Pass → H (Unit {0})
add_passes [] w = (tt, w)
add_passes (p ∷ ps) w = run_in w do act (Effect.added p); add_passes ps

-- The variables of `main` behind the options.
pub record Plan : Type 0 where
  pub in_path : Bytes
  pub is_source_file : Bool
  pub compiles : Bool
  pub links : Bool
  pub prints_ir : Bool
  pub c_out : Bytes
  pub o_out : Bytes
  pub p_out : Bytes
  pub linker : Bytes

-- The exit code and the world behind `main`, and nothing where a visitor's behaviour is not defined.
abbrev pub Exit : Type 0
Exit = Option (ℕ × World)

module _ (os : Os) where
  abbrev pub ignore : {A : Type 0} → A → H (Unit {0})
  ignore a = pure tt

  abbrev pub linker_or_default : Bytes → H Bytes
  linker_or_default given = if is_null given then detect_default os else pure given

  abbrev pub compile_step : Plan → H (Unit {0})
  compile_step p = if p.compiles then (compile os p.c_out >>= ignore) else pure tt

  abbrev pub link_step : Plan → H (Unit {0})
  link_step p =
      if p.links
      then (if p.is_source_file
          then link_source os p.o_out p.linker >>= ignore
          else link_object os p.in_path p.o_out p.linker >>= ignore)
      else pure tt

  abbrev pub run_step : Plan → H (Unit {0})
  run_step p =
      if not p.links && not p.compiles
      then (if p.is_source_file then run_source os else (do
        linker ← linker_or_default p.linker
        _ ← run_object os p.in_path linker
        pure tt))
      else pure tt

  -- `dump` or `save`
  abbrev pub print_step : Plan → H (Unit {0})
  print_step p =
      if p.prints_ir
      then (if is_null p.p_out then act Effect.dumped else (open_file os p.p_out >>= ignore))
      else pure tt

  -- What `main` does behind the code generator.
  unfoldable pub finish : Plan → Codegen → H (Unit {0})
  finish p g w = run_in w do
    if g.is_success then (do compile_step p; link_step p; run_step p) else pure tt
    print_step p

  module _ (stof : Bytes → Option ℕ) (terminated : List Call → Bool) where
    abbrev pub generated : Plan → World → Option (Unit {0} × Codegen) → Exit
    generated p w none = none
    generated p w (some (a, g)) = some (0, (finish p g w).1)

    -- What `main` does with the outcome of the parser.
    unfoldable pub generate : Plan → Outcome Root → World → Exit
    generate p (value r s) w =
        if s.is_error then some (0, w) else generated p w (visit_root terminated r new_codegen)
    generate p (null s) w = some (0, w)
    generate p out_of_fuel w = none

    unfoldable pub carry_out : List Bytes → Plan → Bytes → World → Exit
    carry_out args p content w =
        generate p (parse stof content) ((add_passes (opt_passes args) w).1)

    abbrev pub plan : List Bytes → Bytes → Bytes → Plan
    plan args in_path content = record {
      in_path = in_path;
      is_source_file = all (λ c. leb c 127) content;
      compiles = has_either (codes "-c") (codes "--compile") args;
      links = has_either (codes "-o") (codes "--output") args;
      prints_ir = has_either (codes "-p") (codes "--print-ir") args;
      c_out = object_path in_path (option_value (codes "-c") (codes "--compile") args);
      o_out = program_path in_path (option_value (codes "-o") (codes "--output") args);
      p_out = option_value (codes "-p") (codes "--print-ir") args;
      linker = option_value (codes "-l") (codes "--linker") args;
    }

    -- The options of the link step: the output is compared with the input before its default is set.
    abbrev pub linking : List Bytes → Plan → Bytes → Bytes × World → Exit
    linking args p content (linker, w) =
        if bytes_eq p.in_path (option_value (codes "-o") (codes "--output") args)
        then some (1, w)
        else if p.compiles
        then some (1, w)
        else carry_out args (record p { linker = linker }) content w

    unfoldable pub with_plan : List Bytes → Plan → Bytes → World → Exit
    with_plan args p content w =
        if p.links
        then linking args p content (linker_or_default p.linker w)
        else carry_out args p content w

    abbrev pub with_file : List Bytes → Bytes → Option Bytes → World → Exit
    with_file args in_path none w = some (1, w)
    with_file args in_path (some content) w = with_plan args (plan args in_path content) content w

    module _ (files : Bytes → Option Bytes) where
      abbrev pub with_input : List Bytes → List Bytes → World → Exit
      with_input args [] w = some (1, w)
      with_input args (in_path ∷ argv) w =
          if has_either (codes "--help") (codes "-h") args
          then some (1, w)
          else with_file args in_path (files in_path) w

      -- `main`
      unfoldable pub main : List Bytes → World → Exit
      main argv w =
          let args = split_args argv in
          if has_either (codes "--version") (codes "-v") args
          then some (0, w)
          else with_input args argv w
