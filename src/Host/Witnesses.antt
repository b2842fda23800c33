-- ===== src/Host/Witnesses.antt =====
-- The theorems on programs and files at a system that has `g++` only.
use pudl.Prelude.{
  ◌==◌, all, All, Bool, false, ℕ, List, if◌then◌else◌, ◌≡◌, refl, sym, ap, ◌∙◌, append_assoc,
  append-nil, true, not, ◌&&◌, ◌++◌, [], ◌∷◌, Bytes, codes, arith, Bool-cases, inl, inr,
}
use pudl.Host.Windows.{SplitLaws, IsUnquoted, IsUnslashed, command_line, split-command_line}
use pudl.Host.Tests.{is_gxx, system, fresh}
use pudl.Host.{World, remains}
use pudl.Host.Process.{run, detect, is_launched, launchable, head_or_empty, detect-launchable}
use pudl.Host.Linker.{link, default_linkers, temp_program, linker_run, is_zero, link-remains}

system-steady :
    (c : Bytes) (w : World)
    → is_launched ((run system (c ∷ codes "--version" ∷ []) true w).0) ≡ is_gxx c
unfolding run
system-steady c w = elim (Bool-cases (is_gxx c)) [ inl e ↦ rw e refl | inr e ↦ rw e refl ]

detect-launchable_example :
    (detect system (codes "--version") default_linkers fresh).0
    ≡ head_or_empty (launchable is_gxx default_linkers ++ default_linkers)
detect-launchable_example =
    detect-launchable system (codes "--version") is_gxx system-steady default_linkers fresh

abbrev other_path : List (Bytes × Bytes)
other_path = (codes "out", codes ".ll") ∷ []

link-remains_example :
    (remains
        (temp_program system fresh)
        ((link system (codes "a.o") (codes "a") (codes "g++") fresh).1).trace
      ≡ not (is_zero ((linker_run system (codes "a.o") (codes "a") (codes "g++") fresh).0)))
    × ((link system (codes "a.o") (codes "a") (codes "g++") fresh).0 ≡ (
        is_zero ((linker_run system (codes "a.o") (codes "a") (codes "g++") fresh).0)
        && system.removes
            ((linker_run system (codes "a.o") (codes "a") (codes "g++") fresh).1).trace
            (temp_program system fresh)))
link-remains_example = link-remains system (codes "a.o") (codes "a") (codes "g++") fresh

-- A program that splits its command line.
read : Bool → Bytes → Bytes → List Bytes
read q arg [] = arg ∷ []
read q arg (c ∷ []) = if c == b'"' then arg ∷ [] else (arg ++ c ∷ []) ∷ []
read q arg (c ∷ d ∷ w) =
    let escaped = read q (arg ++ b'"' ∷ []) w in
    let toggled = read (not q) arg (d ∷ w) in
    let next = arg ∷ read q [] (d ∷ w) in
    let more = read q (arg ++ c ∷ []) (d ∷ w) in
    if (c == b'\\') && (d == b'"')
    then escaped
    else if c == b'"'
    then toggled
    else if not q && (c == b' ')
    then next
    else more

-- What follows the name of the program.
split_rest : Bytes → Bytes → List Bytes
split_rest name [] = name ∷ []
split_rest name (c ∷ w) = name ∷ read false [] w

split_name : Bytes → Bytes → List Bytes
split_name name [] = name ∷ []
split_name name (c ∷ w) =
    let more = split_name (name ++ c ∷ []) w in if c == b'"' then split_rest name w else more

split : Bytes → List Bytes
split [] = []
split (c ∷ w) = split_name [] w

split_name-IsUnquoted :
    (before name w : Bytes)
    → IsUnquoted name
    → split_name before (name ++ b'"' ∷ w) ≡ split_rest (before ++ name) w
unfolding split_name all
split_name-IsUnquoted before [] w h = ap (λ n. split_rest n w) (sym (append-nil before))
split_name-IsUnquoted before (c ∷ name) w h =
    let quote : (c == b'"') ≡ false = ground (arith, h) in
    let others : IsUnquoted name = ground (arith, h) in
    rw quote (
      split_name-IsUnquoted (before ++ c ∷ []) name w others
      ∙ ap (λ n. split_rest n w) (append_assoc before (c ∷ []) name))

split-SplitLaws : SplitLaws split read
unfolding read split split_rest
split-SplitLaws = record {
  named = λ name w h. split_name-IsUnquoted [] name (b' ' ∷ (b'"' ∷ w)) h;
  alone = λ name h. split_name-IsUnquoted [] name [] h;
  opens = opens;
  plain = plain;
  escaped = λ arg w. refl;
  closes = λ arg w. refl;
  ends = λ arg. refl;
}
  where
    opens : (arg w : Bytes) → read false arg (b'"' ∷ w) ≡ read true arg w
    opens arg [] = refl
    opens arg (d ∷ w) = refl

    plain :
        (arg : Bytes) (c : ℕ) (w : Bytes)
        → (c == b'"') ≡ false
        → (c == b'\\') ≡ false
        → read true arg (c ∷ w) ≡ read true (arg ++ c ∷ []) w
    plain arg c [] q s = rw q refl
    plain arg c (d ∷ w) q s = rw (s, q) refl

plain_words : IsUnquoted (codes "C:\\cl") × All IsUnslashed (codes "a \"b\" c" ∷ [] ∷ [])
unfolding all
plain_words = (refl, (refl, (refl, tt)))

split-command_line_example :
    split (command_line (codes "C:\\cl" ∷ codes "a \"b\" c" ∷ [] ∷ []))
    ≡ codes "C:\\cl" ∷ codes "a \"b\" c" ∷ [] ∷ []
split-command_line_example =
    split-command_line split read split-SplitLaws (codes "C:\\cl") (codes "a \"b\" c" ∷ [] ∷ [])
      plain_words.0 plain_words.1
