-- ===== src/Lexer.antt =====
-- src/Lexer/Lexer.h and src/Lexer/Lexer.cpp. The `FILE *` is the list of bytes still to be read.
-- A `char` that holds the byte 255 equals EOF, so that byte and the end of the file are one value,
-- `eof`; `ungetc` of it pushes nothing back. Loops recur on the file; the loop over comments takes
-- fuel. The C library's character classes are those of the "C" locale.
mod Chars
pub mod Progress
pub mod Lexemes
pub mod Blanks
pub mod Reading
pub mod Stream
pub mod Tests
mod Witnesses
use pudl.Prelude.{
  ℕ, zero, suc, ◌+◌, ◌-◌, ◌≡◌, Bool, true, false, ◌&&◌, ◌||◌, List, [], ◌∷◌, ◌++◌, Bytes, codes,
  bytes_eq, length, ◌==◌, if◌then◌else◌, Option, none, some,
}
use pudl.Token.{TokenType, Token, bare, no_token, type_eq}
unfoldable pub use Chars.*

pub record Lexer : Type 0 where
  pub file : Bytes
  pub line : ℕ
  pub col : ℕ
  pub saved : Token

-- `Lexer(FILE *file)`
abbrev pub new_lexer : Bytes → Lexer
new_lexer file = record { file = file; line = 1; col = 1; saved = no_token }

-- What a call of `lex` leaves: nothing is saved on the ways that read the file.
abbrev pub resume : Bytes → ℕ → ℕ → Lexer
resume file line col = record { file = file; line = line; col = col; saved = no_token }

-- The ladder of keywords in `identifierOrKeyword`. The source overwrites `type` at each match and
-- no two lexemes are equal, so the order does not matter.
unfoldable pub keyword_type : Bytes → TokenType
unfolding bytes_eq
keyword_type w =
    if bytes_eq w (codes "func")
    then TokenType.func
    else if bytes_eq w (codes "if")
    then TokenType.if_kw
    else if bytes_eq w (codes "else")
    then TokenType.else_kw
    else if bytes_eq w (codes "do")
    then TokenType.do_kw
    else if bytes_eq w (codes "while")
    then TokenType.while_kw
    else if bytes_eq w (codes "return")
    then TokenType.return_kw
    else if bytes_eq w (codes "int") || bytes_eq w (codes "float") || bytes_eq w (codes "bool")
    then TokenType.type_name
    else if bytes_eq w (codes "False") || bytes_eq w (codes "True")
    then TokenType.bool
    else if bytes_eq w (codes "print")
    then TokenType.io_print
    else TokenType.symbol

abbrev pub token : TokenType → Bytes → ℕ → ℕ → Token
token ty lexeme line col = record { type = ty; lexeme = lexeme; line = line; col = col }

unfoldable pub identifier_or_keyword : ℕ → Bytes → ℕ → ℕ → Token × Lexer
identifier_or_keyword ch file line col =
    let (w, file', col') = identifier (ch ∷ []) file (col + 1) in
    (token (keyword_type w) w line (col' - length w), resume file' line col')

unfoldable pub number : ℕ → Bytes → ℕ → ℕ → Token × Lexer
number ch file line col =
    let (ty, w, file', col') = digits (ch ∷ []) TokenType.integer file (col + 1) in
    (token ty w line (col' - length w), resume file' line col')

-- The tokens of one character that need no look at the next one.
unfoldable pub punctuation : ℕ → Option TokenType
punctuation ch =
    if ch == b'('
    then some TokenType.pl
    else if ch == b')'
    then some TokenType.pr
    else if ch == b'{'
    then some TokenType.bl
    else if ch == b'}'
    then some TokenType.br
    else if ch == b','
    then some TokenType.comma
    else if ch == b';'
    then some TokenType.semicolon
    else if ch == b':'
    then some TokenType.colon
    else if ch == b'+' || ch == b'-'
    then some TokenType.add
    else if ch == b'*' || ch == b'/'
    then some TokenType.mul
    else none

-- The tokens of two characters.
unfoldable pub double : ℕ → ℕ → Option TokenType
double ch next =
    if next == b'='
    then (if ch == b'=' || ch == b'!'
        then some TokenType.cmp_eq
        else if ch == b'>' || ch == b'<'
        then some TokenType.cmp
        else none)
    else if ch == b'&' && next == b'&'
    then some TokenType.land
    else if ch == b'|' && next == b'|'
    then some TokenType.lor
    else none

-- `col++; return Token(ty, ch, line, col - 1);`
abbrev pub one_char : TokenType → ℕ → Bytes → ℕ → ℕ → Token × Lexer
one_char ty ch file line col = (token ty (ch ∷ []) line col, resume file line (col + 1))

-- The error token at the end of `lex`.
abbrev pub error_char : ℕ → Bytes → ℕ → ℕ → Token × Lexer
error_char ch file line col =
    let lexeme = codes "Undefined symbol: " ++ ch ∷ [] in
    (token TokenType.error_token lexeme line col, resume file line (col + 1))

-- The operators that begin with one of `=!><&|` where the next character makes no `double`: it is
-- put back. After `&` and `|` the source has moved the column once before the error token moves it
-- again.
unfoldable pub lone : ℕ → Bytes → Bytes → ℕ → ℕ → Token × Lexer
lone ch put_back file line col =
    if ch == b'='
    then one_char TokenType.assign ch put_back line col
    else if ch == b'!'
    then one_char TokenType.not_op ch put_back line col
    else if ch == b'>' || ch == b'<'
    then one_char TokenType.cmp ch put_back line col
    else if ch == b'&' || ch == b'|'
    then error_char ch put_back line (col + 1)
    else error_char ch file line col

-- What `double` found, if it found anything, decides between the two.
unfoldable pub either : Option TokenType → ℕ → ℕ → Bytes → Bytes → ℕ → ℕ → Token × Lexer
either (some ty) ch next rest file line col =
    (token ty (ch ∷ next ∷ []) line col, resume rest line (col + 2))
either none ch next rest file line col = lone ch (ungetc next rest) file line col

unfoldable pub operator : ℕ → Bytes → ℕ → ℕ → Token × Lexer
operator ch file line col =
    let (next, rest) = fgetc file in either (double ch next) ch next rest file line col

-- The tokens that are no words: `punctuation` if it found any, or an operator.
unfoldable pub sign : Option TokenType → ℕ → Bytes → ℕ → ℕ → Token × Lexer
sign (some ty) ch file line col = one_char ty ch file line col
sign none ch file line col = operator ch file line col

-- What `lex` does at the first character after spaces and comments.
unfoldable pub scan_token : ℕ → Bytes → ℕ → ℕ → Token × Lexer
scan_token ch file line col =
    if ch == eof
    then (bare TokenType.eof_token line col, resume file line col)
    else if is_alpha ch
    then identifier_or_keyword ch file line col
    else if is_digit ch
    then number ch file line col
    else sign (punctuation ch) ch file line col

unfoldable pub lex_file : Bytes → ℕ → ℕ → Token × Lexer
lex_file file line col = let s = skip_blanks file line col in scan_token s.ch s.file s.line s.col

-- `Lexer::lex`
unfoldable pub lex : Lexer → Token × Lexer
lex l =
    if type_eq l.saved.type TokenType.eof_token
    then lex_file l.file l.line l.col
    else (l.saved, record l { saved = no_token })

-- `Lexer::unlex`
abbrev pub unlex : Token → Lexer → Lexer
unlex t l = record l { saved = t }
