-- ===== src/Lexer/Tests.antt =====
use pudl.Prelude.{ℕ, zero, suc, ◌≡◌, refl, List, [], ◌∷◌, codes}
use pudl.Token.{TokenType, Token}
use pudl.Lexer.{
  Lexer, new_lexer, token, fgetc, ungetc, is_space, is_alpha, is_digit, spaces, skip_line,
  after_comment, comments, skip_blanks, identifier, digits, keyword_type, identifier_or_keyword,
  number, punctuation, double, lone, either, sign, operator, scan_token, lex_file, lex,
}

-- `lex`, open down to the characters.
unfoldable pub run : Lexer → Token × Lexer
unfolding fgetc ungetc is_space is_alpha is_digit spaces skip_line after_comment comments
    skip_blanks identifier digits keyword_type identifier_or_keyword number punctuation double lone
    either sign operator scan_token lex_file lex
run = lex

lex_all : ℕ → Lexer → List Token
unfolding run
lex_all zero l = []
lex_all (suc n) l = let (t, l') = run l in t ∷ lex_all n l'

sample :
    lex_all 7 (new_lexer (codes "x1 # c\n <= 4.5 & do"))
    ≡ token TokenType.symbol (codes "x1") 1 1
      ∷ token TokenType.cmp (codes "<=") 2 2
      ∷ token TokenType.float (codes "4.5") 2 5
      ∷ token TokenType.error_token (codes "Undefined symbol: &") 2 10
      ∷ token TokenType.do_kw (codes "do") 2 12
      ∷ token TokenType.eof_token [] 2 14
      ∷ token TokenType.eof_token [] 2 14
      ∷ []
unfolding lex_all
sample = refl
