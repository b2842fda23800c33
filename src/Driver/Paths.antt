-- ===== src/Driver/Paths.antt =====
-- The output that `main` chooses where an option has no value.
use pudl.Prelude.{
  ℕ, ◌≡◌, refl, ap, ◌∙◌, Bool, true, false, ◌||◌, [], ◌∷◌, ◌++◌, Bytes, codes, arith,
}
use pudl.Driver.{holds_byte, is_separator, is_dot, base_name, stem, object_path, program_path}

holds_byte-append :
    (p : ℕ → Bool) (w : Bytes) (c : ℕ) (v : Bytes) → p c ≡ true → holds_byte p (w ++ c ∷ v) ≡ true
unfolding holds_byte
holds_byte-append p [] c v h = rw h refl
holds_byte-append p (d ∷ w) c v h = rw (holds_byte-append p w c v h) (or_true (p d))
  where
    or_true : (b : Bool) → (b || true) ≡ true
    or_true true = refl
    or_true false = refl

base_name-plain : (name : Bytes) → holds_byte is_separator name ≡ false → base_name name ≡ name
unfolding base_name holds_byte
base_name-plain [] h = refl
base_name-plain (c ∷ name) h =
    let p : is_separator c ≡ false = ground arith in
    let q : holds_byte is_separator name ≡ false = ground arith in rw (q, p) refl

base_name-directory :
    (directory name : Bytes)
    → holds_byte is_separator name ≡ false
    → base_name (directory ++ b'/' ∷ name) ≡ name
unfolding base_name
base_name-directory [] name h = rw h refl
base_name-directory (c ∷ directory) name h =
    rw (holds_byte-append is_separator directory b'/' name refl)
      (base_name-directory directory name h)

stem-extension :
    (name extension : Bytes)
    → holds_byte is_dot extension ≡ false
    → stem (name ++ b'.' ∷ extension) ≡ name
unfolding stem
stem-extension [] extension h = rw h refl
stem-extension (c ∷ name) extension h =
    rw (holds_byte-append is_dot name b'.' extension refl)
      (ap (λ w. c ∷ w) (stem-extension name extension h))

stem-plain : (name : Bytes) → holds_byte is_dot name ≡ false → stem name ≡ name
unfolding stem holds_byte
stem-plain [] h = refl
stem-plain (c ∷ name) h =
    let p : is_dot c ≡ false = ground arith in
    let q : holds_byte is_dot name ≡ false = ground arith in rw (q, p) refl

-- The default output of `-c` for a file in a directory is its name in the present directory, with `o`
-- for the extension behind the last dot; that of `-o` is the name without the extension.
pub default_paths :
    (directory name extension : Bytes)
    → holds_byte is_separator (name ++ b'.' ∷ extension) ≡ false
    → holds_byte is_dot extension ≡ false
    → (object_path (directory ++ b'/' ∷ (name ++ b'.' ∷ extension)) [] ≡ name ++ codes ".o")
      × (program_path (directory ++ b'/' ∷ (name ++ b'.' ∷ extension)) [] ≡ name)
default_paths directory name extension plain last =
    let e =
      ap stem (base_name-directory directory (name ++ b'.' ∷ extension) plain)
      ∙ stem-extension name extension last in
    (ap (λ w. w ++ codes ".o") e, e)

-- The default output of `-o` is the input file itself, if its name has neither a directory nor a dot.
pub program_path-plain :
    (name : Bytes)
    → holds_byte is_separator name ≡ false
    → holds_byte is_dot name ≡ false
    → program_path name [] ≡ name
program_path-plain name plain last = ap stem (base_name-plain name plain) ∙ stem-plain name last
