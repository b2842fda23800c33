-- ===== src/Host/Output.antt =====
-- The methods of src/Parser/Codegen.h that write files and run programs.
use pudl.Prelude.{Bool, true, false, List, [], ◌∷◌, ◌++◌, Bytes, codes, if◌then◌else◌}
use pudl.Host.{Effect, Os, H, pure, run_in, ◌>>=◌, ◌>>◌, ask, act}
use pudl.Host.Process.{run, detect, unique_temp_path}
use pudl.Host.Linker.{link, remove_file}

abbrev pub lli_names : List Bytes
lli_names = codes "lli" ∷ codes "lli-18" ∷ codes "lli-19" ∷ codes "lli-20" ∷ codes "lli-17" ∷ []

module _ (os : Os) where
  -- A `raw_fd_ostream`: whether the file could be opened.
  abbrev pub open_file : Bytes → H Bool
  open_file path = ask (λ t. os.opens t path) (Effect.opened path)

  -- `runSource`, at its first call: `lliCmd` is a static variable.
  abbrev pub run_printed : Bytes → Bool → H (Unit {0})
  run_printed ir_output false = pure tt
  run_printed ir_output true = do
    act (Effect.opened ir_output)
    lli ← detect os (codes "--version") lli_names
    _ ← run os (lli ∷ ir_output ∷ []) false
    _ ← remove_file os ir_output
    pure tt

  unfoldable pub run_source : H (Unit {0})
  run_source w = run_in w do
    ir_output ← unique_temp_path os (codes "out") (codes ".ll")
    ok ← open_file ir_output
    run_printed ir_output ok

  -- `linkObject`: whether `isSuccess` is kept.
  unfoldable pub link_object : Bytes → Bytes → Bytes → H Bool
  link_object in_path out_path linker w = link os in_path out_path linker w

  -- `runObject`
  unfoldable pub run_object : Bytes → Bytes → H Bool
  run_object in_path linker w = run_in w do
    out_path ← unique_temp_path os (codes "pudl_run") []
    ok ← link_object in_path out_path linker
    _ ← run os ((codes "./" ++ out_path) ∷ []) false
    _ ← remove_file os out_path
    pure ok

  -- The end of `compile`, behind the opening of the file.
  abbrev pub emit_object : Bytes → Bool → H Bool
  emit_object path false = pure false
  emit_object path true =
      if os.can_emit then (do act (Effect.emitted path); pure true) else pure false

  -- `compile`: the result 0 is `true` here, and 1 is `false`.
  unfoldable pub compile : Bytes → H Bool
  compile path w =
      run_in w (if os.has_target then (do ok ← open_file path; emit_object path ok) else pure false)

  abbrev pub link_compiled : Bytes → Bytes → Bytes → Bool → H Bool
  link_compiled object out_path linker false = pure true
  link_compiled object out_path linker true = do
    ok ← link os object out_path linker
    _ ← remove_file os object
    pure ok

  -- `linkSource`
  unfoldable pub link_source : Bytes → Bytes → H Bool
  link_source out_path linker w = run_in w do
    object ← unique_temp_path os (codes "temp") (codes ".o")
    compiled ← compile object
    link_compiled object out_path linker compiled
