-- ===== src/Host/Windows.antt =====
-- src/Compiler/Process.cpp: the Windows build.
use pudl.Prelude.{
  ℕ, ◌==◌, not, ◌≡◌, refl, sym, ap, ◌∙◌, Bool, true, false, List, [], ◌∷◌, ◌++◌, append_assoc,
  append-nil, Bytes, all, All, Option, some, none, if◌then◌else◌, Bool-cases, inl, inr, arith,
}

-- The loop of `quoteArg`, with what follows it.
unfoldable pub escape : Bytes → Bytes → Bytes
escape [] rest = rest
escape (c ∷ arg) rest =
    let more = escape arg rest in if c == b'"' then b'\\' ∷ (b'"' ∷ more) else c ∷ more

-- `quoteArg`, with what follows it in the command line.
abbrev pub quote_arg : Bytes → Bytes → Bytes
quote_arg arg rest = b'"' ∷ escape arg (b'"' ∷ rest)

-- The arguments behind the first, each behind a space, and the command line of `runWindows`.
unfoldable pub other_args : List Bytes → Bytes
other_args [] = []
other_args (arg ∷ args) = b' ' ∷ quote_arg arg (other_args args)

unfoldable pub command_line : List Bytes → Bytes
command_line [] = []
command_line (arg ∷ args) = quote_arg arg (other_args args)

-- The exit code as an `int`, where nothing is -1.
abbrev pub exit_code_of : Option ℕ → Option ℕ
exit_code_of none = none
exit_code_of (some code) = if code == 4294967295 then none else some code

-- `runWindows`, where `create_process` is what `CreateProcessA` and the wait give: the exit code, or
-- nothing if the process was not created.
abbrev pub run_windows : (Bytes → Bool → Option ℕ) → List Bytes → Bool → Option ℕ
run_windows create_process args silent = exit_code_of (create_process (command_line args) silent)

-- Without a quote.
abbrev pub IsUnquoted : Bytes → Type 0
IsUnquoted w = all (λ c. not (c == b'"')) w ≡ true

-- What Windows documents of the way in which a program splits its command line, so far as `runWindows`
-- relies on it: `split` has the whole line, whose first word is the name of the program, in which a
-- backslash is nothing special. `read` has what follows: whether it is between quotes, the argument so
-- far, and the rest.
pub record SplitLaws (split : Bytes → List Bytes) (read : Bool → Bytes → Bytes → List Bytes)
    : Type 0 where
  pub named :
      (name w : Bytes)
      → IsUnquoted name
      → split (b'"' ∷ (name ++ b'"' ∷ (b' ' ∷ (b'"' ∷ w)))) ≡ name ∷ read false [] (b'"' ∷ w)
  pub alone : (name : Bytes) → IsUnquoted name → split (b'"' ∷ (name ++ b'"' ∷ [])) ≡ name ∷ []
  pub opens : (arg w : Bytes) → read false arg (b'"' ∷ w) ≡ read true arg w
  pub plain :
      (arg : Bytes) (c : ℕ) (w : Bytes)
      → (c == b'"') ≡ false
      → (c == b'\\') ≡ false
      → read true arg (c ∷ w) ≡ read true (arg ++ c ∷ []) w
  pub escaped :
      (arg w : Bytes) → read true arg (b'\\' ∷ (b'"' ∷ w)) ≡ read true (arg ++ b'"' ∷ []) w
  pub closes :
      (arg w : Bytes) → read true arg (b'"' ∷ (b' ' ∷ (b'"' ∷ w))) ≡ arg ∷ read false [] (b'"' ∷ w)
  pub ends : (arg : Bytes) → read true arg (b'"' ∷ []) ≡ arg ∷ []

-- Without a backslash.
abbrev pub IsUnslashed : Bytes → Type 0
IsUnslashed w = all (λ c. not (c == b'\\')) w ≡ true

escape-IsUnquoted : (arg rest : Bytes) → IsUnquoted arg → escape arg rest ≡ arg ++ rest
unfolding escape all
escape-IsUnquoted [] rest h = refl
escape-IsUnquoted (c ∷ arg) rest h =
    let quote : (c == b'"') ≡ false = ground (arith, h) in
    let others : IsUnquoted arg = ground (arith, h) in
    rw (quote, escape-IsUnquoted arg rest others) refl

module _ (split : Bytes → List Bytes) (read : Bool → Bytes → Bytes → List Bytes)
    (laws : SplitLaws split read) where
  read-escape :
      (before arg rest : Bytes)
      → IsUnslashed arg
      → read true before (escape arg rest) ≡ read true (before ++ arg) rest
  unfolding escape all
  read-escape before [] rest h = ap (λ w. read true w rest) (sym (append-nil before))
  read-escape before (c ∷ arg) rest h =
      let slash : (c == b'\\') ≡ false = ground (arith, h) in
      let others : IsUnslashed arg = ground (arith, h) in
      let e = read-escape (before ++ c ∷ []) arg rest others in
      let a = ap (λ w. read true w rest) (append_assoc before (c ∷ []) arg) in
      elim (Bool-cases (c == b'"')) [
        | inl q ↦
            let same : c ≡ b'"' = ground (arith, q) in
            rw q (
              laws.escaped before (escape arg rest)
              ∙ ap (λ x. read true (before ++ x ∷ []) (escape arg rest)) (sym same)
              ∙ e
              ∙ a)
        | inr q ↦ rw q (laws.plain before c (escape arg rest) q slash ∙ e ∙ a)
      ]

  read-others :
      (arg : Bytes) (args : List Bytes)
      → IsUnslashed arg
      → All IsUnslashed args
      → read true [] (escape arg (b'"' ∷ other_args args)) ≡ arg ∷ args
  unfolding other_args
  read-others arg [] h hs = read-escape [] arg (b'"' ∷ []) h ∙ laws.ends arg
  read-others arg (next ∷ args) h hs =
      read-escape [] arg (b'"' ∷ other_args (next ∷ args)) h
      ∙ laws.closes arg (escape next (b'"' ∷ other_args args))
      ∙ ap (λ l. arg ∷ l)
          (laws.opens [] (escape next (b'"' ∷ other_args args)) ∙ read-others next args hs.0 hs.1)

  -- If the name of the program has no quote and no other argument has a backslash, a program that
  -- splits its command line by the documented rules gets the arguments that `runWindows` was given,
  -- whatever spaces they have, and whatever quotes the arguments behind the name have.
  pub split-command_line :
      (program : Bytes) (args : List Bytes)
      → IsUnquoted program
      → All IsUnslashed args
      → split (command_line (program ∷ args)) ≡ program ∷ args
  unfolding command_line other_args
  split-command_line program [] h hs =
      ap (λ w. split (b'"' ∷ w)) (escape-IsUnquoted program _ h) ∙ laws.alone program h
  split-command_line program (arg ∷ args) h hs =
      let rest = escape arg (b'"' ∷ other_args args) in
      ap (λ w. split (b'"' ∷ w)) (escape-IsUnquoted program _ h)
      ∙ laws.named program rest h
      ∙ ap (λ l. program ∷ l) (laws.opens [] rest ∙ read-others arg args hs.0 hs.1)
