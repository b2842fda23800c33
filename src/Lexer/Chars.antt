-- ===== src/Lexer/Chars.antt =====
-- The character level of src/Lexer/Lexer.cpp: reading and putting back a character, the character
-- classes, spaces, comments, and the loops of `identifier` and `number`.
use pudl.Prelude.{
  ℕ, zero, suc, ◌+◌, Bool, ◌&&◌, ◌||◌, [], ◌∷◌, ◌++◌, Bytes, length, leb, ◌==◌, if◌then◌else◌,
}
use pudl.Token.{TokenType}

-- `(char) EOF`, as a byte.
abbrev pub eof : ℕ
eof = 255

unfoldable pub fgetc : Bytes → ℕ × Bytes
fgetc [] = (eof, [])
fgetc (c ∷ file) = (c, file)

unfoldable pub ungetc : ℕ → Bytes → Bytes
ungetc c file = if c == eof then file else c ∷ file

unfoldable pub is_space : ℕ → Bool
is_space c = (leb 9 c && leb c 13) || c == b' '

unfoldable pub is_alpha : ℕ → Bool
is_alpha c = (leb b'a' c && leb c b'z') || (leb b'A' c && leb c b'Z')

unfoldable pub is_digit : ℕ → Bool
is_digit c = leb b'0' c && leb c b'9'

abbrev pub is_alnum : ℕ → Bool
is_alnum c = is_alpha c || is_digit c

-- The variables of `lex` while it looks for the first character of a token.
pub record Scan : Type 0 where
  pub ch : ℕ
  pub file : Bytes
  pub line : ℕ
  pub col : ℕ

abbrev pub scan : ℕ → Bytes → ℕ → ℕ → Scan
scan ch file line col = record { ch = ch; file = file; line = line; col = col }

-- `while (isspace(ch)) { whitespace(ch); ch = fgetc(file); }`
unfoldable pub spaces : ℕ → Bytes → ℕ → ℕ → Scan
spaces ch [] line col =
    if is_space ch
    then (if ch == b'\n' then scan eof [] (line + 1) 1 else scan eof [] line (col + 1))
    else scan ch [] line col
spaces ch (c ∷ file) line col =
    let newline = spaces c file (line + 1) 1 in
    let other = spaces c file line (col + 1) in
    if is_space ch then (if ch == b'\n' then newline else other) else scan ch (c ∷ file) line col

-- The `do ... while` loop of `skipComment`: what is left after it.
unfoldable pub skip_line : Bytes → Bytes
skip_line [] = []
skip_line (c ∷ file) = let rest = skip_line file in if c == b'\n' || c == eof then file else rest

-- `skipComment` reads one character whatever it is before the loop; then `ch = fgetc(file)` and the
-- spaces after the comment.
unfoldable pub after_comment : Bytes → ℕ → ℕ → Scan
after_comment file line col =
    let (_, body) = fgetc file in
    let (ch, rest) = fgetc (skip_line body) in spaces ch rest (line + 1) 1

-- `while (ch == '#') { ... }`
unfoldable pub comments : ℕ → Scan → Scan
comments zero s = s
comments (suc fuel) s =
    let more = comments fuel (after_comment s.file s.line s.col) in if s.ch == b'#' then more else s

-- The head of `lex`, up to the first character of a token.
unfoldable pub skip_blanks : Bytes → ℕ → ℕ → Scan
skip_blanks file line col =
    let (ch, rest) = fgetc file in comments (suc (length file)) (spaces ch rest line col)

-- The loop of `identifier`: the buffer, what is left of the file, and the column.
unfoldable pub identifier : Bytes → Bytes → ℕ → Bytes × Bytes × ℕ
identifier buffer [] col = (buffer, [], col)
identifier buffer (c ∷ file) col =
    let more = identifier (buffer ++ c ∷ []) file (col + 1) in
    if is_alnum c then more else (buffer, ungetc c file, col)

-- The loop of `number`, with the type of the token.
unfoldable pub digits : Bytes → TokenType → Bytes → ℕ → TokenType × Bytes × Bytes × ℕ
digits buffer ty [] col = (ty, buffer, [], col)
digits buffer ty (c ∷ file) col =
    let digit = digits (buffer ++ c ∷ []) ty file (col + 1) in
    let point = digits (buffer ++ c ∷ []) TokenType.float file (col + 1) in
    if is_digit c then digit else if c == b'.' then point else (ty, buffer, ungetc c file, col)
