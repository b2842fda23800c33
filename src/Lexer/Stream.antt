-- ===== src/Lexer/Stream.antt =====
-- Reading a printed file: all the tokens come back.
use pudl.Prelude.{
  ℕ, zero, suc, ◌+◌, ◌≡◌, refl, ap, ◌∙◌, true, List, [], ◌∷◌, ◌++◌, Bytes, length, All,
}
use pudl.Token.{TokenType, Token, bare}
use pudl.Lexer.{
  Lexer, resume, token, fgetc, is_space, spaces, comments, skip_blanks, scan_token, lex_file, lex,
}
use pudl.Lexer.Blanks.{lex-space}
use pudl.Lexer.Reading.{Printed, lex-Printed}

abbrev pub Spelling : Type 0
Spelling = TokenType × Bytes

abbrev pub IsPrinted : Spelling → Type 0
IsPrinted p = Printed p.0 p.1

-- The spellings on one line, with a space behind each.
abbrev pub print_all : List Spelling → Bytes
print_all [] = []
print_all (p ∷ ps) = p.1 ++ b' ' ∷ print_all ps

-- The tokens of that line, from the column `col` on, and the end of the file.
abbrev pub tokens_of : List Spelling → ℕ → ℕ → List Token
tokens_of [] line col = bare TokenType.eof_token line col ∷ []
tokens_of (p ∷ ps) line col = token p.0 p.1 line col ∷ tokens_of ps line (col + length p.1 + 1)

-- The tokens of the next `n` calls of `lex`.
abbrev pub lex_times : ℕ → Lexer → List Token
lex_times zero l = []
lex_times (suc n) l = (lex l).0 ∷ lex_times n (lex l).1

lex-end : (line col : ℕ) → (lex (resume [] line col)).0 ≡ bare TokenType.eof_token line col
unfolding lex lex_file skip_blanks fgetc spaces comments is_space scan_token
lex-end line col = refl

is_space_blank : is_space b' ' ≡ true
unfolding is_space
is_space_blank = refl

-- The space behind a token makes no difference to what is read.
lex_times-space :
    (n : ℕ) (file : Bytes) (line col : ℕ)
    → lex_times (suc n) (resume (b' ' ∷ file) line col)
      ≡ lex_times (suc n) (resume file line (col + 1))
lex_times-space n file line col =
    ap (λ r. r.0 ∷ lex_times n r.1) (lex-space b' ' file line col is_space_blank)

-- Printed tokens are read back: calling `lex` on the printed line gives each token with its type, its
-- lexeme and its column, and then the end of the file.
pub lex_times-print_all :
    (ps : List Spelling) (line col : ℕ)
    → All IsPrinted ps
    → lex_times (suc (length ps)) (resume (print_all ps) line col) ≡ tokens_of ps line col
lex_times-print_all [] line col h = ap (λ t. t ∷ []) (lex-end line col)
lex_times-print_all (p ∷ ps) line col h =
    ap (λ r. r.0 ∷ lex_times (suc (length ps)) r.1)
      (lex-Printed p.0 p.1 (print_all ps) line col h.0)
    ∙ ap (λ ts. token p.0 p.1 line col ∷ ts)
        (lex_times-space (length ps) (print_all ps) line (col + length p.1)
          ∙ lex_times-print_all ps line (col + length p.1 + 1) h.1)
