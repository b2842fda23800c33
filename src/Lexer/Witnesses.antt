-- ===== src/Lexer/Witnesses.antt =====
-- The theorems on the lexer at small files.
use pudl.Prelude.{◌+◌, ◌≤◌, ◌≡◌, refl, inl, inr, true, List, [], ◌∷◌, codes, length, all, All}
use pudl.Token.{TokenType, no_token}
use pudl.Lexer.{
  Lexer, new_lexer, resume, is_space, is_alpha, is_digit, keyword_type, skip_blanks, lex,
}
use pudl.Lexer.Progress.{pending, unread, lex_progress}
use pudl.Lexer.Lexemes.{IsLexed, is_word, is_number, lex-IsLexed}
use pudl.Lexer.Blanks.{is_plain, is_visible, lex-space, lex-comment, skip_blanks-visible_end}
use pudl.Lexer.Reading.{Reads, lex-Printed}
use pudl.Lexer.Stream.{Spelling, IsPrinted, print_all, tokens_of, lex_times, lex_times-print_all}

blank-is_space : is_space b' ' ≡ true
unfolding is_space
blank-is_space = refl

plain : all is_plain (codes "x = 1") ≡ true
unfolding all
plain = refl

abbrev sum : Lexer
sum = new_lexer (codes " x1 + 2.5")

lex_progress_example :
    (pending (lex sum).0 + length (lex sum).1.file ≤ unread sum) × ((lex sum).1.saved ≡ no_token)
lex_progress_example = lex_progress sum

lex-IsLexed_example : IsLexed (lex sum).0
lex-IsLexed_example = lex-IsLexed sum refl

lex-space_example : lex (resume (codes " do") 3 4) ≡ lex (resume (codes "do") 3 5)
lex-space_example = lex-space b' ' (codes "do") 3 4 blank-is_space

-- Behind an empty comment the line `x = 1` is skipped.
lex-comment_example :
    lex (resume (codes "#\nx = 1\nprint 2") 1 1) ≡ lex (resume (codes "print 2") 2 1)
lex-comment_example = lex-comment b'\n' (codes "x = 1") (codes "print 2") 1 1 plain

skip_blanks-visible_end_example : is_visible (skip_blanks (codes " # no\n # yes\n func") 1 1) ≡ true
skip_blanks-visible_end_example = skip_blanks-visible_end (codes " # no\n # yes\n func") 1 1

lex-Printed_example : Reads TokenType.cmp (codes "<=") (codes "10 ") 1 7
lex-Printed_example = lex-Printed TokenType.cmp (codes "<=") (codes "10 ") 1 7 (inr (inr refl))

abbrev spellings : List Spelling
spellings =
    (TokenType.io_print, codes "print")
    ∷ (TokenType.symbol, codes "x1")
    ∷ (TokenType.mul, codes "*")
    ∷ (TokenType.integer, codes "10")
    ∷ []

spellings-IsPrinted : All IsPrinted spellings
unfolding is_word is_number is_alpha is_digit all keyword_type
spellings-IsPrinted = (refl, ((refl, refl), (inl refl, (refl, tt))))

lex_times-print_all_example :
    lex_times 5 (resume (print_all spellings) 1 1) ≡ tokens_of spellings 1 1
lex_times-print_all_example = lex_times-print_all spellings 1 1 spellings-IsPrinted
