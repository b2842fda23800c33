-- ===== src/Token.antt =====
-- src/Lexer/Token.h and src/Lexer/Token.cpp: token types, tokens and the names of types that the
-- diagnostics print. `line` and `col` are C ints; they stay below the length of the file plus two.
use pudl.Prelude.{
  ℕ, zero, suc, Bool, true, List, [], ◌∷◌, Bytes, codes, ◌≡◌, refl, sym, ap, ◌∙◌, ◌==◌, ==_iff,
}

-- `enum TokenType`. The source's BOOL, FLOAT and INTEGER stand beside those of `TType`.
pub data TokenType : Type 0 where
  eof_token error_token : TokenType
  symbol : TokenType
  integer float bool : TokenType
  add mul : TokenType
  land lor not_op : TokenType
  assign : TokenType
  cmp cmp_eq : TokenType
  func : TokenType
  if_kw else_kw : TokenType
  do_kw while_kw : TokenType
  return_kw : TokenType
  io_print : TokenType
  pl pr bl br : TokenType
  comma semicolon colon : TokenType
  type_name : TokenType

pub record Token : Type 0 where
  pub type : TokenType
  pub lexeme : Bytes
  pub line : ℕ
  pub col : ℕ

-- `Token(aType, line, col)`, whose lexeme is empty.
abbrev pub bare : TokenType → ℕ → ℕ → Token
bare ty line col = record { type = ty; lexeme = []; line = line; col = col }

-- `Token(EOF_TOKEN, 0, 0)`
abbrev pub no_token : Token
no_token = bare TokenType.eof_token 0 0

-- The number of an enumerator.
abbrev pub ordinal : TokenType → ℕ
ordinal TokenType.eof_token = 0
ordinal TokenType.error_token = 1
ordinal TokenType.symbol = 2
ordinal TokenType.integer = 3
ordinal TokenType.float = 4
ordinal TokenType.bool = 5
ordinal TokenType.add = 6
ordinal TokenType.mul = 7
ordinal TokenType.land = 8
ordinal TokenType.lor = 9
ordinal TokenType.not_op = 10
ordinal TokenType.assign = 11
ordinal TokenType.cmp = 12
ordinal TokenType.cmp_eq = 13
ordinal TokenType.func = 14
ordinal TokenType.if_kw = 15
ordinal TokenType.else_kw = 16
ordinal TokenType.do_kw = 17
ordinal TokenType.while_kw = 18
ordinal TokenType.return_kw = 19
ordinal TokenType.io_print = 20
ordinal TokenType.pl = 21
ordinal TokenType.pr = 22
ordinal TokenType.bl = 23
ordinal TokenType.br = 24
ordinal TokenType.comma = 25
ordinal TokenType.semicolon = 26
ordinal TokenType.colon = 27
ordinal TokenType.type_name = 28

abbrev all_types : List TokenType
all_types =
    TokenType.eof_token ∷ TokenType.error_token ∷ TokenType.symbol ∷ TokenType.integer
    ∷ TokenType.float ∷ TokenType.bool ∷ TokenType.add ∷ TokenType.mul ∷ TokenType.land
    ∷ TokenType.lor ∷ TokenType.not_op ∷ TokenType.assign ∷ TokenType.cmp ∷ TokenType.cmp_eq
    ∷ TokenType.func ∷ TokenType.if_kw ∷ TokenType.else_kw ∷ TokenType.do_kw ∷ TokenType.while_kw
    ∷ TokenType.return_kw ∷ TokenType.io_print ∷ TokenType.pl ∷ TokenType.pr ∷ TokenType.bl
    ∷ TokenType.br ∷ TokenType.comma ∷ TokenType.semicolon ∷ TokenType.colon ∷ TokenType.type_name
    ∷ []

abbrev get_or : List TokenType → ℕ → TokenType
get_or [] n = TokenType.eof_token
get_or (x ∷ xs) zero = x
get_or (x ∷ xs) (suc n) = get_or xs n

get_or-ordinal : (a : TokenType) → get_or all_types (ordinal a) ≡ a
get_or-ordinal TokenType.eof_token = refl
get_or-ordinal _ = refl

-- `a == b` on enumerators.
abbrev pub type_eq : TokenType → TokenType → Bool
type_eq a b = ordinal a == ordinal b

pub type_eq→eq : (a b : TokenType) → type_eq a b ≡ true → a ≡ b
type_eq→eq a b h =
    sym (get_or-ordinal a)
    ∙ ap (get_or all_types) ((==_iff (ordinal a) (ordinal b)).0 h)
    ∙ get_or-ordinal b

-- `Token::showType`
unfoldable pub show_type : TokenType → Bytes
show_type TokenType.eof_token = codes "EOF"
show_type TokenType.symbol = codes "SYMBOL"
show_type TokenType.integer = codes "INT"
show_type TokenType.float = codes "FLOAT"
show_type TokenType.bool = codes "BOOL"
show_type TokenType.land = codes "And"
show_type TokenType.lor = codes "Or"
show_type TokenType.add = codes "Add"
show_type TokenType.mul = codes "Mul"
show_type TokenType.assign = codes "Assign"
show_type TokenType.cmp = codes "Relation"
show_type TokenType.cmp_eq = codes "Equality Relation"
show_type TokenType.func = codes "Func"
show_type TokenType.if_kw = codes "If"
show_type TokenType.else_kw = codes "Else"
show_type TokenType.do_kw = codes "Do"
show_type TokenType.while_kw = codes "While"
show_type TokenType.return_kw = codes "Return"
show_type TokenType.io_print = codes "Print"
show_type TokenType.pl = codes "Open Parenthesis"
show_type TokenType.pr = codes "Close Parenthesis"
show_type TokenType.bl = codes "Open Brace"
show_type TokenType.br = codes "Close Brace"
show_type TokenType.comma = codes "Comma"
show_type TokenType.semicolon = codes "Semicolon"
show_type TokenType.colon = codes "Colon"
show_type TokenType.type_name = codes "Type"
show_type _ = codes "ERR"
