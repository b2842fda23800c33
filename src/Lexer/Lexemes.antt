-- ===== src/Lexer/Lexemes.antt =====
-- What the lexeme of a token may be, by the type of the token: what the parser relies on when it
-- reads operators, types and literals off lexemes.
use pudl.Prelude.{
  ℕ, ◌+◌, ◌≡◌, refl, sym, subst, ◌⊎◌, inl, inr, Bool, true, false, ◌&&◌, ◌||◌, [], ◌∷◌, ◌++◌, Bytes,
  codes, bytes_eq, bytes_eq→eq, all, ◌==◌, if_intro, arith, Option, none, some,
}
use pudl.Token.{TokenType, Token, type_eq}
use pudl.Lexer.{
  Lexer, eof, fgetc, ungetc, is_alpha, is_digit, is_alnum, skip_blanks, identifier, digits,
  keyword_type, identifier_or_keyword, number, punctuation, double, lone, either, operator, sign,
  scan_token, lex_file, lex,
}

-- A letter with letters and digits behind it.
unfoldable pub is_word : Bytes → Bool
is_word [] = false
is_word (c ∷ w) = is_alpha c && all is_alnum w

-- A digit with digits behind it.
unfoldable pub is_number : Bytes → Bool
is_number [] = false
is_number (c ∷ w) = is_digit c && all is_digit w

abbrev pub is_digit_or_point : ℕ → Bool
is_digit_or_point c = is_digit c || (c == b'.')

-- A digit with digits and points behind it.
unfoldable pub is_decimal : Bytes → Bool
is_decimal [] = false
is_decimal (c ∷ w) = is_digit c && all is_digit_or_point w

-- The lexemes that each type of token admits.
abbrev pub Lexeme : TokenType → Bytes → Type 0
Lexeme TokenType.symbol w = (is_word w ≡ true) × (keyword_type w ≡ TokenType.symbol)
Lexeme TokenType.integer w = is_number w ≡ true
Lexeme TokenType.float w = is_decimal w ≡ true
Lexeme TokenType.bool w = (w ≡ codes "True") ⊎ (w ≡ codes "False")
Lexeme TokenType.type_name w = (w ≡ codes "int") ⊎ ((w ≡ codes "float") ⊎ (w ≡ codes "bool"))
Lexeme TokenType.add w = (w ≡ codes "+") ⊎ (w ≡ codes "-")
Lexeme TokenType.mul w = (w ≡ codes "*") ⊎ (w ≡ codes "/")
Lexeme TokenType.land w = w ≡ codes "&&"
Lexeme TokenType.lor w = w ≡ codes "||"
Lexeme TokenType.not_op w = w ≡ codes "!"
Lexeme TokenType.assign w = w ≡ codes "="
Lexeme TokenType.cmp w = ((w ≡ codes ">") ⊎ (w ≡ codes "<")) ⊎ ((w ≡ codes ">=") ⊎ (w ≡ codes "<="))
Lexeme TokenType.cmp_eq w = (w ≡ codes "==") ⊎ (w ≡ codes "!=")
Lexeme TokenType.func w = w ≡ codes "func"
Lexeme TokenType.if_kw w = w ≡ codes "if"
Lexeme TokenType.else_kw w = w ≡ codes "else"
Lexeme TokenType.do_kw w = w ≡ codes "do"
Lexeme TokenType.while_kw w = w ≡ codes "while"
Lexeme TokenType.return_kw w = w ≡ codes "return"
Lexeme TokenType.io_print w = w ≡ codes "print"
Lexeme TokenType.pl w = w ≡ codes "("
Lexeme TokenType.pr w = w ≡ codes ")"
Lexeme TokenType.bl w = w ≡ codes "{"
Lexeme TokenType.br w = w ≡ codes "}"
Lexeme TokenType.comma w = w ≡ codes ","
Lexeme TokenType.semicolon w = w ≡ codes ";"
Lexeme TokenType.colon w = w ≡ codes ":"
Lexeme TokenType.eof_token w = w ≡ []
Lexeme TokenType.error_token w = (c : ℕ) × (w ≡ codes "Undefined symbol: " ++ c ∷ [])

abbrev pub IsLexed : Token → Type 0
IsLexed t = Lexeme t.type t.lexeme

or_true : (a b : Bool) → (a || b) ≡ true → (a ≡ true) ⊎ (b ≡ true)
or_true a b h = ground arith

type_words :
    (w : Bytes)
    → (bytes_eq w (codes "int") || bytes_eq w (codes "float") || bytes_eq w (codes "bool")) ≡ true
    → Lexeme TokenType.type_name w
type_words w h = ground (
  arith,
  bytes_eq→eq w (codes "int"),
  bytes_eq→eq w (codes "float"),
  bytes_eq→eq w (codes "bool"),
)

bool_words :
    (w : Bytes)
    → (bytes_eq w (codes "False") || bytes_eq w (codes "True")) ≡ true
    → Lexeme TokenType.bool w
bool_words w h = ground (arith, bytes_eq→eq w (codes "False"), bytes_eq→eq w (codes "True"))

-- A word has the type that its spelling asks for.
keyword_type-Lexeme : (w : Bytes) → is_word w ≡ true → Lexeme (keyword_type w) w
unfolding keyword_type
keyword_type-Lexeme w h =
    let P = λ (ty : TokenType). keyword_type w ≡ ty → Lexeme ty w in
    let is = λ (k : Bytes) (e : bytes_eq w k ≡ true). bytes_eq→eq w k e in
    if_intro P (bytes_eq w (codes "func")) (λ e _. is _ e)
      (λ _.
        if_intro P (bytes_eq w (codes "if")) (λ e _. is _ e)
          (λ _.
            if_intro P (bytes_eq w (codes "else")) (λ e _. is _ e)
              (λ _.
                if_intro P (bytes_eq w (codes "do")) (λ e _. is _ e)
                  (λ _.
                    if_intro P (bytes_eq w (codes "while")) (λ e _. is _ e)
                      (λ _.
                        if_intro P (bytes_eq w (codes "return")) (λ e _. is _ e)
                          (λ _.
                            if_intro P _ (λ e _. type_words w e)
                              (λ _.
                                if_intro P _ (λ e _. bool_words w e)
                                  (λ _.
                                    if_intro P (bytes_eq w (codes "print")) (λ e _. is _ e)
                                      (λ _ e. (h, e))))))))))
      refl

-- `Lexeme` of an optional type.
abbrev SomeLexeme : Option TokenType → Bytes → Type 0
SomeLexeme (some ty) w = Lexeme ty w
SomeLexeme none w = Unit

punctuation-Lexeme : (ch : ℕ) → SomeLexeme (punctuation ch) (ch ∷ [])
unfolding punctuation
punctuation-Lexeme ch = ground arith

double-Lexeme : (ch next : ℕ) → SomeLexeme (double ch next) (ch ∷ next ∷ [])
unfolding double
double-Lexeme ch next = ground arith

lone-IsLexed :
    (ch : ℕ) (put_back file : Bytes) (line col : ℕ) → IsLexed (lone ch put_back file line col).0
unfolding lone
lone-IsLexed ch put_back file line col =
    let P = λ (r : Token × Lexer). IsLexed r.0 in
    if_intro P (ch == b'=') (λ e. ground arith)
      (λ _.
        if_intro P (ch == b'!') (λ e. ground arith)
          (λ _.
            if_intro P (ch == b'>' || ch == b'<') (λ e. ground arith)
              (λ _. if_intro P (ch == b'&' || ch == b'|') (λ _. (ch, refl)) (λ _. (ch, refl)))))

either-IsLexed :
    (d : Option TokenType) (ch next : ℕ) (rest file : Bytes) (line col : ℕ)
    → SomeLexeme d (ch ∷ next ∷ [])
    → IsLexed (either d ch next rest file line col).0
unfolding either
either-IsLexed (some ty) ch next rest file line col h = h
either-IsLexed none ch next rest file line col h = lone-IsLexed ch (ungetc next rest) file line col

operator-IsLexed : (ch : ℕ) (file : Bytes) (line col : ℕ) → IsLexed (operator ch file line col).0
unfolding operator
operator-IsLexed ch file line col =
    let (next, rest) = fgetc file in
    either-IsLexed (double ch next) ch next rest file line col (double-Lexeme ch next)

sign-IsLexed :
    (d : Option TokenType) (ch : ℕ) (file : Bytes) (line col : ℕ)
    → SomeLexeme d (ch ∷ [])
    → IsLexed (sign d ch file line col).0
unfolding sign
sign-IsLexed (some ty) ch file line col h = h
sign-IsLexed none ch file line col h = operator-IsLexed ch file line col

all-concat :
    (p : ℕ → Bool) (w : Bytes) (c : ℕ) → all p w ≡ true → p c ≡ true → all p (w ++ c ∷ []) ≡ true
unfolding all
all-concat p [] c h k = ground arith
all-concat p (x ∷ w) c h k = ground (arith, all-concat p w c)

is_word-concat :
    (w : Bytes) (c : ℕ) → is_word w ≡ true → is_alnum c ≡ true → is_word (w ++ c ∷ []) ≡ true
unfolding is_word
is_word-concat [] c h k = cc
is_word-concat (x ∷ w) c h k = ground (arith, all-concat is_alnum w c)

identifier-is_word :
    (buffer file : Bytes) (col : ℕ)
    → is_word buffer ≡ true
    → is_word (identifier buffer file col).0 ≡ true
unfolding identifier
identifier-is_word buffer [] col h = h
identifier-is_word buffer (c ∷ file) col h =
    if_intro (λ (r : Bytes × Bytes × ℕ). is_word r.0 ≡ true) (is_alnum c)
      (λ e. identifier-is_word (buffer ++ c ∷ []) file (col + 1) (is_word-concat buffer c h e))
      (λ _. h)

-- The buffer of `number`: digits alone while the type is INTEGER, points among them after that.
abbrev IsNumeral : TokenType → Bytes → Type 0
IsNumeral ty w =
    ((ty ≡ TokenType.integer) × (is_number w ≡ true))
    ⊎ ((ty ≡ TokenType.float) × (is_decimal w ≡ true))

is_decimal-concat :
    (w : Bytes) (c : ℕ)
    → is_decimal w ≡ true
    → is_digit_or_point c ≡ true
    → is_decimal (w ++ c ∷ []) ≡ true
unfolding is_decimal
is_decimal-concat [] c h k = cc
is_decimal-concat (x ∷ w) c h k = ground (arith, all-concat is_digit_or_point w c)

is_number-concat :
    (w : Bytes) (c : ℕ) → is_number w ≡ true → is_digit c ≡ true → is_number (w ++ c ∷ []) ≡ true
unfolding is_number
is_number-concat [] c h k = cc
is_number-concat (x ∷ w) c h k = ground (arith, all-concat is_digit w c)

all-digits : (w : Bytes) → all is_digit w ≡ true → all is_digit_or_point w ≡ true
unfolding all
all-digits [] h = refl
all-digits (c ∷ w) h = ground (arith, all-digits w)

is_number→is_decimal : (w : Bytes) → is_number w ≡ true → is_decimal w ≡ true
unfolding is_number is_decimal
is_number→is_decimal [] h = h
is_number→is_decimal (c ∷ w) h = ground (arith, all-digits w)

IsNumeral-is_decimal : {ty : TokenType} (w : Bytes) → IsNumeral ty w → is_decimal w ≡ true
IsNumeral-is_decimal w (inl h) = is_number→is_decimal w h.1
IsNumeral-is_decimal w (inr h) = h.1

IsNumeral-digit :
    {ty : TokenType} (w : Bytes) (c : ℕ)
    → is_digit c ≡ true
    → IsNumeral ty w
    → IsNumeral ty (w ++ c ∷ [])
IsNumeral-digit w c d (inl h) = inl (h.0, is_number-concat w c h.1 d)
IsNumeral-digit w c d (inr h) = inr (h.0, is_decimal-concat w c h.1 (ground arith))

digits-IsNumeral :
    (buffer : Bytes) (ty : TokenType) (file : Bytes) (col : ℕ)
    → IsNumeral ty buffer
    → let r = digits buffer ty file col in IsNumeral r.0 r.1
unfolding digits
digits-IsNumeral buffer ty [] col h = h
digits-IsNumeral buffer ty (c ∷ file) col h =
    let P = λ (r : TokenType × Bytes × Bytes × ℕ). IsNumeral r.0 r.1 in
    if_intro P (is_digit c)
      (λ e. digits-IsNumeral (buffer ++ c ∷ []) ty file (col + 1) (IsNumeral-digit buffer c e h))
      (λ _.
        if_intro P (c == b'.')
          (λ e.
            digits-IsNumeral (buffer ++ c ∷ []) TokenType.float file (col + 1) (
              inr
                (refl, is_decimal-concat buffer c (IsNumeral-is_decimal buffer h) (ground arith))))
          (λ _. h))

IsNumeral-Lexeme : {ty : TokenType} (w : Bytes) → IsNumeral ty w → Lexeme ty w
IsNumeral-Lexeme w (inl h) = subst (λ t. Lexeme t w) (sym h.0) h.1
IsNumeral-Lexeme w (inr h) = subst (λ t. Lexeme t w) (sym h.0) h.1

scan_token-IsLexed :
    (ch : ℕ) (file : Bytes) (line col : ℕ) → IsLexed (scan_token ch file line col).0
unfolding scan_token identifier_or_keyword number is_word is_number all
scan_token-IsLexed ch file line col =
    let P = λ (r : Token × Lexer). IsLexed r.0 in
    if_intro P (ch == eof) (λ _. refl)
      (λ _.
        if_intro P (is_alpha ch)
          (λ e. keyword_type-Lexeme _ (identifier-is_word (ch ∷ []) file (col + 1) (ground arith)))
          (λ _.
            if_intro P (is_digit ch)
              (λ e. IsNumeral-Lexeme _ (
                digits-IsNumeral (ch ∷ []) TokenType.integer file (col + 1)
                  (inl (refl, ground arith))))
              (λ _. sign-IsLexed (punctuation ch) ch file line col (punctuation-Lexeme ch))))

-- The lexeme of a token that `lex` returns has the form that belongs to its type, if the same
-- holds of the token that was saved.
pub lex-IsLexed : (l : Lexer) → IsLexed l.saved → IsLexed (lex l).0
unfolding lex lex_file
lex-IsLexed l h =
    let s = skip_blanks l.file l.line l.col in
    if_intro (λ (r : Token × Lexer). IsLexed r.0) (type_eq l.saved.type TokenType.eof_token)
      (λ _. scan_token-IsLexed s.ch s.file s.line s.col) (λ _. h)
