-- ===== src/Host/Linker.antt =====
-- src/Compiler/Linker/Linker.h, the POSIX build.
use pudl.Prelude.{
  ℕ, zero, suc, ◌+◌, ◌≡◌, refl, ◌∙◌, Bool, true, false, not, ◌&&◌, ◌||◌, List, [], ◌∷◌, ◌++◌, map,
  Bytes, codes, bytes_eq, bytes_eq_refl, Option, none, some, leb, if◌then◌else◌,
}
use pudl.Host.{remains, Effect, World, Os, H, pure, run_in, ◌>>=◌, ◌>>◌, ask, act}
use pudl.Host.Process.{wait_for, run_posix, run, detect, unique_temp_path}

-- `std::tolower` in the "C" locale.
unfoldable pub to_lower : ℕ → ℕ
to_lower c = if leb 65 c && leb c 90 then c + 32 else c

-- `Linker::isMsvcCl`
unfoldable pub is_msvc_cl : Bytes → Bool
is_msvc_cl linker =
    let lower = map to_lower linker in
    bytes_eq lower (codes "cl") || bytes_eq lower (codes "cl.exe")

-- The arguments of the linker that `Link` runs.
unfoldable pub link_args : Bytes → Bytes → Bytes → Bytes → List Bytes
link_args linker program in_path out_path =
    if is_msvc_cl linker
    then linker
      ∷ program
      ∷ in_path
      ∷ codes "/EHsc"
      ∷ codes "/nologo"
      ∷ (codes "/Fe:" ++ out_path)
      ∷ []
    else linker ∷ program ∷ in_path ∷ codes "-o" ∷ out_path ∷ []

-- `Linker::DetectDefault`
abbrev pub default_linkers : List Bytes
default_linkers =
    codes "clang++"
    ∷ codes "clang++-18"
    ∷ codes "clang++-19"
    ∷ codes "clang++-20"
    ∷ codes "clang++-17"
    ∷ codes "c++"
    ∷ codes "g++"
    ∷ []

module _ (os : Os) where
  unfoldable pub detect_default : H Bytes
  detect_default w = detect os (codes "--version") default_linkers w

  abbrev pub remove_file : Bytes → H Bool
  remove_file path = ask (λ t. os.removes t path) (Effect.removed path)

  -- What `Link` does behind the linker: the result 0 is `true` here, and 1 is `false`.
  abbrev pub after_linker : Bytes → Option ℕ → H Bool
  after_linker program (some zero) = remove_file program
  after_linker program _ = pure false

  -- `Linker::Link`
  unfoldable pub link : Bytes → Bytes → Bytes → H Bool
  link in_path out_path linker w = run_in w do
    program ← unique_temp_path os (codes "TempLinker") (codes ".cpp")
    act (Effect.opened program)
    result ← run os (link_args linker program in_path out_path) false
    after_linker program result

module _ (os : Os) where
  abbrev pub temp_program : World → Bytes
  temp_program w = (unique_temp_path os (codes "TempLinker") (codes ".cpp") w).0

  abbrev pub program_written : World → World
  program_written w = record ((unique_temp_path os (codes "TempLinker") (codes ".cpp") w).1) {
    trace = Effect.opened (temp_program w) ∷ w.trace;
  }

abbrev pub is_zero : Option ℕ → Bool
is_zero (some zero) = true
is_zero _ = false

module _ (os : Os) where
  -- What the linker answers in `Link`, and the world behind it.
  abbrev pub linker_run : Bytes → Bytes → Bytes → World → Option ℕ × World
  linker_run in_path out_path linker w =
      run os (link_args linker (temp_program os w) in_path out_path) false (program_written os w)

  posix-remains :
      (p : Bytes) (args : List Bytes) (silent : Bool) (w : World)
      → remains p ((run_posix os args silent w).1).trace ≡ remains p w.trace
  unfolding remains
  posix-remains p args silent w = started (os.spawn w.trace args silent)
    where
      started :
          (o : Option ℕ)
          → remains p
              ((wait_for os o (record w { trace = Effect.spawned args silent ∷ w.trace })).1).trace
            ≡ remains p w.trace
      started none = refl
      started (some pid) = refl

  -- Running a program opens and removes no file of the compiler's.
  pub run-remains :
      (p : Bytes) (args : List Bytes) (silent : Bool) (w : World)
      → remains p ((run os args silent w).1).trace ≡ remains p w.trace
  unfolding run
  run-remains p [] silent w = refl
  run-remains p (a ∷ args) silent w = posix-remains p (a ∷ args) silent w

  opened-remains : (p : Bytes) (t : List Effect) → remains p (Effect.opened p ∷ t) ≡ true
  unfolding remains
  opened-remains p t = rw (bytes_eq_refl p) refl

  removed-remains : (p : Bytes) (t : List Effect) → remains p (Effect.removed p ∷ t) ≡ false
  unfolding remains
  removed-remains p t = rw (bytes_eq_refl p) refl

  -- `Link` succeeds just if the linker answers 0 and its temporary program can be removed. It removes
  -- that program only if the linker answers 0, and leaves it behind otherwise.
  pub link-remains :
      (in_path out_path linker : Bytes) (w : World)
      → (remains (temp_program os w) ((link os in_path out_path linker w).1).trace
          ≡ not (is_zero ((linker_run in_path out_path linker w).0)))
        × ((link os in_path out_path linker w).0 ≡ (
            is_zero ((linker_run in_path out_path linker w).0)
            && os.removes ((linker_run in_path out_path linker w).1).trace (temp_program os w)))
  unfolding link unique_temp_path
  link-remains in_path out_path linker w = behind (linker_run in_path out_path linker w) (
      run-remains (temp_program os w) (link_args linker (temp_program os w) in_path out_path) false
        (program_written os w)
      ∙ opened-remains (temp_program os w) w.trace)
    where
      behind :
          (r : Option ℕ × World)
          → remains (temp_program os w) (r.1).trace ≡ true
          → (remains (temp_program os w) ((after_linker os (temp_program os w) r.0 r.1).1).trace
              ≡ not (is_zero r.0))
            × ((after_linker os (temp_program os w) r.0 r.1).0
                ≡ (is_zero r.0 && os.removes (r.1).trace (temp_program os w)))
      behind (some zero, v) h = (removed-remains (temp_program os w) v.trace, refl)
      behind (some (suc n), v) h = (h, refl)
      behind (none, v) h = (h, refl)
