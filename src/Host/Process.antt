-- ===== src/Host/Process.antt =====
-- src/Compiler/Process.cpp: the POSIX build.
use pudl.Prelude.{
  ℕ, suc, ◌≡◌, refl, Bool, true, false, List, [], ◌∷◌, ◌++◌, Bytes, codes, Option, none, some,
  if◌then◌else◌, Bool-cases, inl, inr,
}
use pudl.Host.{Status, Effect, World, Os, H, pure, run_in, ◌>>=◌, ask}

-- The exit code, and nothing for -1.
abbrev pub exit_code : Option Status → Option ℕ
exit_code (some (Status.exited n)) = some n
exit_code _ = none

abbrev pub is_launched : Option ℕ → Bool
is_launched none = false
is_launched (some n) = true

abbrev pub or_first : List Bytes → Option Bytes → Bytes
or_first candidates (some c) = c
or_first [] none = []
or_first (c ∷ candidates) none = c

module _ (os : Os) where
  abbrev pub wait_for : Option ℕ → H (Option ℕ)
  wait_for none = pure none
  wait_for (some pid) = do
    status ← ask (λ t. os.wait t pid) (Effect.waited pid)
    pure (exit_code status)

  -- `runPosix`
  abbrev pub run_posix : List Bytes → Bool → H (Option ℕ)
  run_posix args silent = do
    pid ← ask (λ t. os.spawn t args silent) (Effect.spawned args silent)
    wait_for pid

  -- `Process::Run`
  unfoldable pub run : List Bytes → Bool → H (Option ℕ)
  run [] silent w = (none, w)
  run (program ∷ args) silent w = run_posix (program ∷ args) silent w

  -- The loop of `Process::Detect`.
  unfoldable pub first_launched : Bytes → List Bytes → H (Option Bytes)
  first_launched probe [] w = (none, w)
  first_launched probe (c ∷ candidates) w =
      let r = run (c ∷ probe ∷ []) true w in
      let rest = first_launched probe candidates r.1 in
      if is_launched r.0 then (some c, r.1) else rest

  -- `Process::Detect`
  unfoldable pub detect : Bytes → List Bytes → H Bytes
  detect probe candidates w =
      run_in w do found ← first_launched probe candidates; pure (or_first candidates found)

  -- `Process::UniqueTempPath`
  unfoldable pub unique_temp_path : Bytes → Bytes → H Bytes
  unique_temp_path prefix extension w = (
    prefix
        ++ (codes "_"
            ++ (os.show_number os.pid ++ (codes "_" ++ (os.show_number w.counter ++ extension)))),
    record w { counter = suc w.counter },
  )

-- The candidates that a probe could start.
unfoldable pub launchable : (Bytes → Bool) → List Bytes → List Bytes
launchable launches [] = []
launchable launches (c ∷ candidates) =
    let rest = launchable launches candidates in if launches c then c ∷ rest else rest

abbrev pub head_or_empty : List Bytes → Bytes
head_or_empty [] = []
head_or_empty (c ∷ cs) = c

module _ (os : Os) (probe : Bytes) (launches : Bytes → Bool)
    (steady : (c : Bytes) (w : World)
      → is_launched ((run os (c ∷ probe ∷ []) true w).0) ≡ launches c) where
  first-launchable :
      (candidates others : List Bytes) (w : World)
      → or_first others ((first_launched os probe candidates w).0)
        ≡ head_or_empty (launchable launches candidates ++ others)
  unfolding first_launched launchable
  first-launchable [] [] w = refl
  first-launchable [] (c ∷ others) w = refl
  first-launchable (c ∷ candidates) others w = elim (Bool-cases (launches c)) [
    | inl e ↦ rw (steady c w, e) refl
    | inr e ↦
        rw (steady c w, e) (first-launchable candidates others ((run os (c ∷ probe ∷ []) true w).1))
  ]

  -- If a candidate can be started or not, whatever was started before, then `Detect` returns the first
  -- candidate that can, or else the first one, or the empty text if there is none.
  pub detect-launchable :
      (candidates : List Bytes) (w : World)
      → (detect os probe candidates w).0
        ≡ head_or_empty (launchable launches candidates ++ candidates)
  unfolding detect
  detect-launchable candidates w = first-launchable candidates candidates w

-- The world behind calls of `UniqueTempPath` with these prefixes and extensions.
unfoldable pub after_paths : Os → List (Bytes × Bytes) → World → World
after_paths os [] w = w
after_paths os ((prefix, extension) ∷ calls) w =
    after_paths os calls (unique_temp_path os prefix extension w).1
