-- ===== src/Lexer/Progress.antt =====
-- How much of the file a call of `lex` consumes: the reason that the loops over it end.
use pudl.Prelude.{
  ℕ, zero, suc, ◌+◌, ◌≤◌, ◌≡◌, refl, [], ◌∷◌, ◌++◌, Bytes, length, ◌==◌, if◌then◌else◌, Bool-cases,
  if_intro, inl, inr, arith, Option, none, some,
}
use pudl.Token.{TokenType, Token, no_token, type_eq}
use pudl.Lexer.{
  Lexer, Scan, eof, is_alpha, is_digit, is_alnum, fgetc, ungetc, spaces, skip_line, after_comment,
  comments, skip_blanks, identifier, digits, identifier_or_keyword, number, punctuation, double,
  lone, either, operator, sign, scan_token, lex_file, lex,
}

-- A character in hand counts as one that is still to be read, unless it is EOF.
abbrev pub weight : ℕ → ℕ
weight c = if c == eof then 0 else 1

-- The same for a token, which counts for at least one character.
abbrev pub pending : Token → ℕ
pending t = if type_eq t.type TokenType.eof_token then 0 else 1

-- What `lex` may still return: the saved token and the file.
abbrev pub unread : Lexer → ℕ
unread l = pending l.saved + length l.file

abbrev pub left : Scan → ℕ
left s = weight s.ch + length s.file

pub fgetc-le : (file : Bytes) → weight (fgetc file).0 + length (fgetc file).1 ≤ length file
unfolding fgetc
fgetc-le [] = omega arith
fgetc-le (c ∷ file) = ground arith

ungetc-le : (c : ℕ) (file : Bytes) → length (ungetc c file) ≤ weight c + length file
unfolding ungetc
ungetc-le c file = ground arith

skip_line-le : (file : Bytes) → length (skip_line file) ≤ length file
unfolding skip_line
skip_line-le [] = omega arith
skip_line-le (c ∷ file) = ground (arith, skip_line-le file)

pub spaces-le :
    (ch : ℕ) (file : Bytes) (line col : ℕ)
    → left (spaces ch file line col) ≤ weight ch + length file
unfolding spaces
spaces-le ch [] line col = ground arith
spaces-le ch (c ∷ file) line col =
    ground (arith, spaces-le c file (line + 1) 1, spaces-le c file line (col + 1))

pub after_comment-le :
    (file : Bytes) (line col : ℕ) → left (after_comment file line col) ≤ length file
unfolding after_comment
after_comment-le file line col =
    let body = (fgetc file).1 in
    let (ch, rest) = fgetc (skip_line body) in
    omega (
      arith,
      spaces-le ch rest (line + 1) 1,
      fgetc-le (skip_line body),
      skip_line-le body,
      fgetc-le file,
    )

comments-le : (fuel : ℕ) (s : Scan) → left (comments fuel s) ≤ left s
unfolding comments
comments-le zero s = omega arith
comments-le (suc fuel) s = elim (Bool-cases (s.ch == b'#')) [
  | inl more ↦ rw more (
      omega (
        arith,
        comments-le fuel (after_comment s.file s.line s.col),
        after_comment-le s.file s.line s.col,
      ))
  | inr done ↦ rw done (omega arith)
]

identifier-le :
    (buffer file : Bytes) (col : ℕ) → length (identifier buffer file col).1 ≤ length file
unfolding identifier
identifier-le buffer [] col = omega arith
identifier-le buffer (c ∷ file) col =
    if_intro (λ (r : Bytes × Bytes × ℕ). length r.1 ≤ suc (length file)) (is_alnum c)
      (λ _. omega (arith, identifier-le (buffer ++ c ∷ []) file (col + 1)))
      (λ _. ground (arith, ungetc-le c file))

digits-le :
    (buffer : Bytes) (ty : TokenType) (file : Bytes) (col : ℕ)
    → length (digits buffer ty file col).2 ≤ length file
unfolding digits
digits-le buffer ty [] col = omega arith
digits-le buffer ty (c ∷ file) col =
    let P = λ (r : TokenType × Bytes × Bytes × ℕ). length r.2 ≤ suc (length file) in
    if_intro P (is_digit c) (λ _. omega (arith, digits-le (buffer ++ c ∷ []) ty file (col + 1)))
      (λ _.
        if_intro P (c == b'.')
          (λ _. omega (arith, digits-le (buffer ++ c ∷ []) TokenType.float file (col + 1)))
          (λ _. ground (arith, ungetc-le c file)))

skip_blanks-le : (file : Bytes) (line col : ℕ) → left (skip_blanks file line col) ≤ length file
unfolding skip_blanks
skip_blanks-le file line col =
    let (ch, rest) = fgetc file in
    omega (
      arith,
      comments-le (suc (length file)) (spaces ch rest line col),
      spaces-le ch rest line col,
      fgetc-le file,
    )

abbrev Consumes : ℕ → Token × Lexer → Type 0
Consumes n r = (pending r.0 + length r.1.file ≤ n) × (r.1.saved ≡ no_token)

lone-Consumes :
    (ch : ℕ) (put_back file : Bytes) (line col : ℕ)
    → length put_back ≤ length file
    → Consumes (1 + length file) (lone ch put_back file line col)
unfolding lone
lone-Consumes ch put_back file line col h = ground arith

either-Consumes :
    (d : Option TokenType) (ch next : ℕ) (rest file : Bytes) (line col : ℕ)
    → double ch next ≡ d
    → weight next + length rest ≤ length file
    → Consumes (1 + length file) (either d ch next rest file line col)
unfolding either
either-Consumes (some ty) ch next rest file line col e h = (ground arith, refl)
either-Consumes none ch next rest file line col e h =
    lone-Consumes ch (ungetc next rest) file line col (omega (arith, ungetc-le next rest))

operator-Consumes :
    (ch : ℕ) (file : Bytes) (line col : ℕ) → Consumes (1 + length file) (operator ch file line col)
unfolding operator
operator-Consumes ch file line col =
    let (next, rest) = fgetc file in
    either-Consumes (double ch next) ch next rest file line col refl (fgetc-le file)

sign-Consumes :
    (d : Option TokenType) (ch : ℕ) (file : Bytes) (line col : ℕ)
    → Consumes (1 + length file) (sign d ch file line col)
unfolding sign
sign-Consumes (some ty) ch file line col = (ground arith, refl)
sign-Consumes none ch file line col = operator-Consumes ch file line col

identifier_or_keyword-Consumes :
    (ch : ℕ) (file : Bytes) (line col : ℕ)
    → Consumes (1 + length file) (identifier_or_keyword ch file line col)
unfolding identifier_or_keyword
identifier_or_keyword-Consumes ch file line col =
    (ground (arith, identifier-le (ch ∷ []) file (col + 1)), refl)

number-Consumes :
    (ch : ℕ) (file : Bytes) (line col : ℕ) → Consumes (1 + length file) (number ch file line col)
unfolding number
number-Consumes ch file line col =
    (ground (arith, digits-le (ch ∷ []) TokenType.integer file (col + 1)), refl)

scan_token-Consumes :
    (ch : ℕ) (file : Bytes) (line col : ℕ)
    → Consumes (weight ch + length file) (scan_token ch file line col)
unfolding scan_token
scan_token-Consumes ch file line col =
    let P = λ (r : Token × Lexer). Consumes (weight ch + length file) r in
    if_intro P (ch == eof) (λ _. (omega arith, refl))
      λ e.
        let w : weight ch ≡ 1 = rw e in
        let k = λ (r : Token × Lexer) (c : Consumes (1 + length file) r).
          let c' : P r = (omega (arith, c.0), c.1) in c' in
        if_intro P (is_alpha ch)
          (λ _.
            k (identifier_or_keyword ch file line col)
              (identifier_or_keyword-Consumes ch file line col))
          (λ _.
            if_intro P (is_digit ch)
              (λ _. k (number ch file line col) (number-Consumes ch file line col))
              (λ _.
                k (sign (punctuation ch) ch file line col)
                  (sign-Consumes (punctuation ch) ch file line col)))

-- Each call of `lex` consumes at least one character for a token that is not EOF, never gives
-- anything back to the file, and leaves nothing saved.
pub lex_progress :
    (l : Lexer)
    → (pending (lex l).0 + length (lex l).1.file ≤ unread l) × ((lex l).1.saved ≡ no_token)
unfolding lex lex_file
lex_progress l = elim (Bool-cases (type_eq l.saved.type TokenType.eof_token)) [
  | inl empty ↦
      let s = skip_blanks l.file l.line l.col in
      let c = scan_token-Consumes s.ch s.file s.line s.col in
      rw empty (omega (arith, c.0, skip_blanks-le l.file l.line l.col), c.1)
  | inr full ↦ rw full (rw full (omega arith), refl)
]
