-- ===== src/Lexer/Reading.antt =====
-- Reading tokens back: what `lex` makes of the lexeme of a token with a space behind it.
use pudl.Prelude.{
  Bool-cases, ℕ, ◌+◌, ◌-◌, ◌≡◌, refl, sym, ◌∙◌, inl, inr, true, false, [], ◌∷◌, ◌++◌, Bytes, codes,
  all, length, ◌==◌, arith, append_assoc, append-nil, if◌then◌else◌,
}
use pudl.Token.{TokenType, Token}
use pudl.Lexer.{
  Lexer, scan, resume, token, eof, fgetc, ungetc, is_space, is_alpha, is_digit, is_alnum, spaces,
  comments, skip_blanks, identifier, digits, keyword_type, identifier_or_keyword, number,
  punctuation, double, lone, either, operator, sign, scan_token, lex_file, lex,
}
use pudl.Lexer.Lexemes.{Lexeme, is_word, is_number, is_decimal, is_digit_or_point}

skip_blanks-visible :
    (c : ℕ) (file : Bytes) (line col : ℕ)
    → is_space c ≡ false
    → (c == b'#') ≡ false
    → skip_blanks (c ∷ file) line col ≡ scan c file line col
unfolding skip_blanks fgetc spaces comments
skip_blanks-visible c [] line col h k = rw (h, k) refl
skip_blanks-visible c (d ∷ file) line col h k = rw (h, k) refl

abbrev Word : Type 0
Word = Bytes × Bytes × ℕ

same_word :
    {a b : Bytes} {file : Bytes} {m n : ℕ}
    → a ≡ b
    → m ≡ n
    → ◌≡◌ {A = Word} (a, file, m) (b, file, n)
same_word p q = cc

identifier-append :
    (buffer w rest : Bytes) (col : ℕ)
    → all is_alnum w ≡ true
    → identifier buffer (w ++ b' ' ∷ rest) col ≡ (buffer ++ w, b' ' ∷ rest, col + length w)
unfolding identifier all is_alpha is_digit ungetc
identifier-append buffer [] rest col h = same_word (sym (append-nil buffer)) (omega arith)
identifier-append buffer (c ∷ w) rest col h =
    let e : is_alnum c ≡ true = ground (arith, h) in
    rw e (
      identifier-append (buffer ++ c ∷ []) w rest (col + 1) (ground (arith, h))
      ∙ same_word (append_assoc buffer (c ∷ []) w) (omega arith))

-- The state behind a token: the space and what follows it are left.
abbrev pub behind : Bytes → Bytes → ℕ → ℕ → Lexer
behind w rest line col = resume (b' ' ∷ rest) line (col + length w)

-- The file with the token and a space in front of `rest`.
abbrev pub before : Bytes → Bytes → ℕ → ℕ → Lexer
before w rest line col = resume (w ++ b' ' ∷ rest) line col

abbrev Result : Type 0
Result = Token × Lexer

result_eq :
    (ty : TokenType) {v w file : Bytes} (line : ℕ) {m n i j : ℕ}
    → v ≡ w
    → m ≡ n
    → i ≡ j
    → ◌≡◌ {A = Result}
        (token ty v line m, resume file line i)
        (token ty w line n, resume file line j)
result_eq ty line p q r = cc

word_result :
    (w rest : Bytes) (line col : ℕ) (r : Word)
    → r ≡ (w, b' ' ∷ rest, col + length w)
    → ◌≡◌ {A = Result}
        (token (keyword_type r.0) r.0 line (r.2 - length r.0), resume r.1 line r.2)
        (token (keyword_type w) w line col, behind w rest line col)
word_result w rest line col r e = rw e (result_eq (keyword_type w) line refl (omega arith) refl)

alpha_visible :
    (c : ℕ)
    → is_alpha c ≡ true
    → (is_space c ≡ false) × ((c == b'#') ≡ false) × ((c == eof) ≡ false)
unfolding is_alpha is_space
alpha_visible c h = (ground arith, ground arith, ground arith)

lex-word :
    (w rest : Bytes) (line col : ℕ)
    → is_word w ≡ true
    → lex (before w rest line col) ≡ (token (keyword_type w) w line col, behind w rest line col)
unfolding is_word lex lex_file scan_token identifier_or_keyword
lex-word [] rest line col h = absurd (cc)
lex-word (c ∷ w) rest line col h =
    let alpha : is_alpha c ≡ true = ground (arith, h) in
    let v = alpha_visible c alpha in
    rw (skip_blanks-visible c (w ++ b' ' ∷ rest) line col v.0 v.1, v.2, alpha)
      (word_result (c ∷ w) rest line col (identifier (c ∷ []) (w ++ b' ' ∷ rest) (col + 1)) (
        identifier-append (c ∷ []) w rest (col + 1) (ground (arith, h))
        ∙ same_word refl (omega arith)))

abbrev Number : Type 0
Number = TokenType × Bytes × Bytes × ℕ

same_number :
    {s t : TokenType} {a b : Bytes} {file : Bytes} {m n : ℕ}
    → s ≡ t
    → a ≡ b
    → m ≡ n
    → ◌≡◌ {A = Number} (s, a, file, m) (t, b, file, n)
same_number o p q = cc

-- The type of a numeral: FLOAT with a point, `ty` otherwise.
unfoldable numeral_type : TokenType → Bytes → TokenType
numeral_type ty w = if all is_digit w then ty else TokenType.float

numeral_type-float : (w : Bytes) → numeral_type TokenType.float w ≡ TokenType.float
unfolding numeral_type
numeral_type-float w = ground arith

digits-append :
    (buffer w rest : Bytes) (ty : TokenType) (col : ℕ)
    → all is_digit_or_point w ≡ true
    → digits buffer ty (w ++ b' ' ∷ rest) col
      ≡ (numeral_type ty w, buffer ++ w, b' ' ∷ rest, col + length w)
unfolding digits all is_digit ungetc numeral_type
digits-append buffer [] rest ty col h = same_number refl (sym (append-nil buffer)) (omega arith)
digits-append buffer (c ∷ w) rest ty col h = elim (Bool-cases (is_digit c)) [
  | inl e ↦ rw e (
      digits-append (buffer ++ c ∷ []) w rest ty (col + 1) (ground (arith, h))
      ∙ same_number refl (append_assoc buffer (c ∷ []) w) (omega arith))
  | inr e ↦
      let point : (c == b'.') ≡ true = ground (arith, h, e) in
      rw (e, point)
        (digits-append (buffer ++ c ∷ []) w rest TokenType.float (col + 1) (ground (arith, h))
          ∙ same_number (numeral_type-float w) (append_assoc buffer (c ∷ []) w) (omega arith))
]

number_result :
    (ty : TokenType) (w rest : Bytes) (line col : ℕ) (r : Number)
    → r ≡ (ty, w, b' ' ∷ rest, col + length w)
    → ◌≡◌ {A = Result}
        (token r.0 r.1 line (r.3 - length r.1), resume r.2 line r.3)
        (token ty w line col, behind w rest line col)
number_result ty w rest line col r e = rw e (result_eq ty line refl (omega arith) refl)

digit_visible :
    (c : ℕ)
    → is_digit c ≡ true
    → (is_space c ≡ false) × ((c == b'#') ≡ false) × ((c == eof) ≡ false) × (is_alpha c ≡ false)
unfolding is_digit is_space is_alpha
digit_visible c h = (ground arith, ground arith, ground arith, ground arith)

lex-decimal :
    (w rest : Bytes) (line col : ℕ)
    → is_decimal w ≡ true
    → lex (before w rest line col)
      ≡ (token (numeral_type TokenType.integer w) w line col, behind w rest line col)
unfolding is_decimal lex lex_file scan_token number numeral_type all
lex-decimal [] rest line col h = absurd (cc)
lex-decimal (c ∷ w) rest line col h =
    let digit : is_digit c ≡ true = ground (arith, h) in
    let v = digit_visible c digit in
    rw (skip_blanks-visible c (w ++ b' ' ∷ rest) line col v.0 v.1, v.2, v.3, digit)
      (number_result (numeral_type TokenType.integer w) (c ∷ w) rest line col
        (digits (c ∷ []) TokenType.integer (w ++ b' ' ∷ rest) (col + 1))
        (digits-append (c ∷ []) w rest TokenType.integer (col + 1) (ground (arith, h))
          ∙ same_number refl refl (omega arith)))

-- The lexemes that a printer writes: a FLOAT has a point, and the two types of token that stand for
-- no text are left out.
abbrev pub Printed : TokenType → Bytes → Type 0
Printed TokenType.eof_token w = ⊥
Printed TokenType.error_token w = ⊥
Printed TokenType.float w = (is_decimal w ≡ true) × (all is_digit w ≡ false)
Printed ty w = Lexeme ty w

-- What reading `w` gives when the type of its token is `ty`.
abbrev pub Reads : TokenType → Bytes → Bytes → ℕ → ℕ → Type 0
Reads ty w rest line col =
    lex (before w rest line col) ≡ (token ty w line col, behind w rest line col)

-- A word that is not spelled like a keyword, or a keyword.
word-Reads :
    (ty : TokenType) (w rest : Bytes) (line col : ℕ)
    → is_word w ≡ true
    → keyword_type w ≡ ty
    → Reads ty w rest line col
word-Reads ty w rest line col h e = rw (sym e) (lex-word w rest line col h)

keyword-Reads :
    (ty : TokenType) (k w rest : Bytes) (line col : ℕ)
    → w ≡ k
    → is_word k ≡ true
    → keyword_type k ≡ ty
    → Reads ty w rest line col
keyword-Reads ty k w rest line col e h t = rw e (word-Reads ty k rest line col h t)

numeral-Reads :
    (ty : TokenType) (w rest : Bytes) (line col : ℕ)
    → is_decimal w ≡ true
    → numeral_type TokenType.integer w ≡ ty
    → Reads ty w rest line col
numeral-Reads ty w rest line col h e = rw (sym e) (lex-decimal w rest line col h)

number-is_decimal :
    (w : Bytes) → is_number w ≡ true → (is_decimal w ≡ true) × (all is_digit w ≡ true)
unfolding is_number is_decimal all
number-is_decimal [] h = absurd (cc)
number-is_decimal (c ∷ w) h = (ground (arith, all_points w), ground arith)
  where
    all_points : (w : Bytes) → all is_digit w ≡ true → all is_digit_or_point w ≡ true
    all_points [] h = refl
    all_points (c ∷ w) h = ground (arith, all_points w)

sign-Reads :
    (ty : TokenType) (k w rest : Bytes) (line col : ℕ)
    → w ≡ k
    → Reads ty k rest line col
    → Reads ty w rest line col
sign-Reads ty k w rest line col e h = rw e h

-- `lex` reads a printed lexeme back: in front of a space it gives the token of that type and lexeme
-- at the present line and column, and leaves the space and what follows.
pub lex-Printed :
    (ty : TokenType) (w rest : Bytes) (line col : ℕ) → Printed ty w → Reads ty w rest line col
unfolding is_word is_alpha is_digit all keyword_type lex lex_file scan_token skip_blanks fgetc
    ungetc is_space spaces comments punctuation double lone either operator sign numeral_type
lex-Printed TokenType.symbol w rest line col h = word-Reads _ w rest line col h.0 h.1
lex-Printed TokenType.integer w rest line col h =
    let n = number-is_decimal w h in numeral-Reads _ w rest line col n.0 (rw (n.1) refl)
lex-Printed TokenType.float w rest line col h = numeral-Reads _ w rest line col h.0 (rw (h.1) refl)
lex-Printed TokenType.func w rest line col e =
    keyword-Reads _ (codes "func") w rest line col e refl refl
lex-Printed TokenType.if_kw w rest line col e =
    keyword-Reads _ (codes "if") w rest line col e refl refl
lex-Printed TokenType.else_kw w rest line col e =
    keyword-Reads _ (codes "else") w rest line col e refl refl
lex-Printed TokenType.do_kw w rest line col e =
    keyword-Reads _ (codes "do") w rest line col e refl refl
lex-Printed TokenType.while_kw w rest line col e =
    keyword-Reads _ (codes "while") w rest line col e refl refl
lex-Printed TokenType.return_kw w rest line col e =
    keyword-Reads _ (codes "return") w rest line col e refl refl
lex-Printed TokenType.io_print w rest line col e =
    keyword-Reads _ (codes "print") w rest line col e refl refl
lex-Printed TokenType.bool w rest line col (inl e) =
    keyword-Reads _ (codes "True") w rest line col e refl refl
lex-Printed TokenType.bool w rest line col (inr e) =
    keyword-Reads _ (codes "False") w rest line col e refl refl
lex-Printed TokenType.type_name w rest line col (inl e) =
    keyword-Reads _ (codes "int") w rest line col e refl refl
lex-Printed TokenType.type_name w rest line col (inr (inl e)) =
    keyword-Reads _ (codes "float") w rest line col e refl refl
lex-Printed TokenType.type_name w rest line col (inr (inr e)) =
    keyword-Reads _ (codes "bool") w rest line col e refl refl
lex-Printed TokenType.pl w rest line col e = sign-Reads _ (codes "(") w rest line col e refl
lex-Printed TokenType.pr w rest line col e = sign-Reads _ (codes ")") w rest line col e refl
lex-Printed TokenType.bl w rest line col e = sign-Reads _ (codes "{") w rest line col e refl
lex-Printed TokenType.br w rest line col e = sign-Reads _ (codes "}") w rest line col e refl
lex-Printed TokenType.comma w rest line col e = sign-Reads _ (codes ",") w rest line col e refl
lex-Printed TokenType.semicolon w rest line col e = sign-Reads _ (codes ";") w rest line col e refl
lex-Printed TokenType.colon w rest line col e = sign-Reads _ (codes ":") w rest line col e refl
lex-Printed TokenType.land w rest line col e = sign-Reads _ (codes "&&") w rest line col e refl
lex-Printed TokenType.lor w rest line col e = sign-Reads _ (codes "||") w rest line col e refl
lex-Printed TokenType.not_op w rest line col e = sign-Reads _ (codes "!") w rest line col e refl
lex-Printed TokenType.assign w rest line col e = sign-Reads _ (codes "=") w rest line col e refl
lex-Printed TokenType.add w rest line col (inl e) = sign-Reads _ (codes "+") w rest line col e refl
lex-Printed TokenType.add w rest line col (inr e) = sign-Reads _ (codes "-") w rest line col e refl
lex-Printed TokenType.mul w rest line col (inl e) = sign-Reads _ (codes "*") w rest line col e refl
lex-Printed TokenType.mul w rest line col (inr e) = sign-Reads _ (codes "/") w rest line col e refl
lex-Printed TokenType.cmp_eq w rest line col (inl e) =
    sign-Reads _ (codes "==") w rest line col e refl
lex-Printed TokenType.cmp_eq w rest line col (inr e) =
    sign-Reads _ (codes "!=") w rest line col e refl
lex-Printed TokenType.cmp w rest line col (inl (inl e)) =
    sign-Reads _ (codes ">") w rest line col e refl
lex-Printed TokenType.cmp w rest line col (inl (inr e)) =
    sign-Reads _ (codes "<") w rest line col e refl
lex-Printed TokenType.cmp w rest line col (inr (inl e)) =
    sign-Reads _ (codes ">=") w rest line col e refl
lex-Printed TokenType.cmp w rest line col (inr (inr e)) =
    sign-Reads _ (codes "<=") w rest line col e refl
lex-Printed TokenType.eof_token w rest line col h = absurd h
lex-Printed TokenType.error_token w rest line col h = absurd h
