-- ===== src/Driver/Objects.antt =====
-- `main` on an object file: the parser gives up at its first byte, without an error.
use pudl.Prelude.{
  if_intro, ◌==◌, ℕ, suc, ◌+◌, ◌*◌, ◌≡◌, refl, ap, ◌∙◌, subst, Bool, true, false, List, [], ◌∷◌,
  Bytes, length, Option, some, none, arith,
}
use pudl.Token.{TokenType}
use pudl.Lexer.{
  Scan, new_lexer, lex, lex_file, scan_token, skip_blanks, comments, spaces, fgetc, is_space,
  is_alpha, is_digit, punctuation, sign, operator, double, either, lone,
}
use pudl.Ast.{Root, dummy}
use pudl.Parser.State.{State, Outcome, value, next, initial}
use pudl.Parser.Program.{parse_loop, parse_fuel, parse}
use pudl.Codegen.Calls.{Call}
use pudl.Codegen.Statement.{visit_root}
use pudl.Host.{World, Os}
use pudl.Host.Output.{link_object}
use pudl.Driver.{Plan, generate, finish, opt_passes, add_passes, carry_out}

-- The first byte of an ELF file.
abbrev pub elf_mark : ℕ
elf_mark = 127

mark-blanks :
    (content : Bytes)
    → skip_blanks (elf_mark ∷ content) 1 1
      ≡ record { ch = elf_mark; file = content; line = 1; col = 1 }
unfolding skip_blanks comments spaces fgetc is_space
mark-blanks [] = refl
mark-blanks (c ∷ content) = refl

mark-double : (next : ℕ) → double elf_mark next ≡ none
unfolding double
mark-double next =
    if_intro (λ (o : Option TokenType). o ≡ none) (next == b'=') (λ _. refl) (λ _. refl)

mark-scan : (content : Bytes) → (scan_token elf_mark content 1 1).0.type ≡ TokenType.error_token
unfolding scan_token is_alpha is_digit punctuation sign operator either lone
mark-scan content = rw (mark-double (fgetc content).0) refl

mark-error_token :
    (content : Bytes) → (lex (new_lexer (elf_mark ∷ content))).0.type ≡ TokenType.error_token
unfolding lex lex_file
mark-error_token content =
    ap (λ (s : Scan). (scan_token s.ch s.file s.line s.col).0.type) (mark-blanks content)
    ∙ mark-scan content

-- `parse` gives up, and `isFailed()` is false.
abbrev pub FailsSilently : Outcome Root → Type 0
FailsSilently o = (s : State) × (o ≡ value dummy s) × (s.is_error ≡ false)

loop-FailsSilently :
    (stof : Bytes → Option ℕ) (f : ℕ) (s : State)
    → s.current.type ≡ TokenType.error_token
    → s.is_error ≡ false
    → FailsSilently (parse_loop stof (suc f) s)
unfolding parse_loop
loop-FailsSilently stof f s e clean = rw e (_, refl, clean)

mark-FailsSilently :
    (stof : Bytes → Option ℕ) (content : Bytes) → FailsSilently (parse stof (elf_mark ∷ content))
unfolding parse next
mark-FailsSilently stof content =
    let file = elf_mark ∷ content in
    let start : State = record (initial file) {
      lexer = (lex (new_lexer file)).1;
      current = (lex (new_lexer file)).0;
    } in
    let fuel : suc (16 * length file + 31) ≡ parse_fuel stof file = omega arith in
    subst (λ f. FailsSilently (parse_loop stof f start)) fuel
      (loop-FailsSilently stof (16 * length file + 31) start (mark-error_token content) refl)

-- A file that begins with the byte 0x7F, as ELF objects do, is not compiled but linked: the parser gives
-- up at that byte without an error, the visitors get the dummy node, and with `-o` alone `main` goes on
-- to `linkObject`, with the input, the output and the linker of the options.
pub carry_out-object :
    (os : Os) (stof : Bytes → Option ℕ) (terminated : List Call → Bool) (args : List Bytes)
    (p : Plan) (content : Bytes) (w : World)
    → p.is_source_file ≡ false
    → p.links ≡ true
    → p.compiles ≡ false
    → p.prints_ir ≡ false
    → carry_out os stof terminated args p (elf_mark ∷ content) w
      ≡ some (0, (link_object os p.in_path p.o_out p.linker (add_passes (opt_passes args) w).1).1)
unfolding carry_out generate visit_root finish
carry_out-object os stof terminated args p content w object links alone quiet =
    let h = mark-FailsSilently stof content in rw (h.1, h.2, object, links, alone, quiet) refl
