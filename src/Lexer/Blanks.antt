-- ===== src/Lexer/Blanks.antt =====
-- What `lex` skips in front of a token: spaces and comments.
use pudl.Prelude.{
  ℕ, zero, suc, ◌+◌, ◌<◌, ◌≡◌, refl, ap, inl, inr, Bool, true, false, not, ◌||◌, [], ◌∷◌, ◌++◌,
  Bytes, length, length-append, ◌∙◌, all, ◌==◌, Bool-cases, if◌then◌else◌, arith,
}
use pudl.Token.{Token}
use pudl.Lexer.{
  Lexer, Scan, eof, fgetc, is_space, spaces, skip_line, after_comment, comments, skip_blanks,
  resume, scan_token, lex_file, lex,
}
use pudl.Lexer.Progress.{left, fgetc-le, spaces-le, after_comment-le}

is_hash_weight : (s : Scan) → (s.ch == b'#') ≡ true → length s.file < left s
is_hash_weight s h = ground (arith, h)

-- More fuel than there are characters makes no difference.
comments_fuel : (f g : ℕ) (s : Scan) → left s < f → left s < g → comments f s ≡ comments g s
unfolding comments
comments_fuel zero g s h k = absurd (omega arith)
comments_fuel (suc f) zero s h k = absurd (omega arith)
comments_fuel (suc f) (suc g) s h k = elim (Bool-cases (s.ch == b'#')) [
  | inl more ↦
      let n = after_comment-le s.file s.line s.col in
      let m = is_hash_weight s more in
      rw more (
        comments_fuel f g (after_comment s.file s.line s.col) (omega (arith, n, m, h))
          (omega (arith, n, m, k)))
  | inr done ↦ rw done refl
]

skip_blanks-cons :
    (c : ℕ) (file : Bytes) (line col : ℕ)
    → skip_blanks (c ∷ file) line col ≡ comments (suc (suc (length file))) (spaces c file line col)
unfolding skip_blanks fgetc
skip_blanks-cons c file line col = refl

-- From the character in hand on: what is left to skip, with any fuel that is enough.
skip_blanks_fuel :
    (f : ℕ) (file : Bytes) (line col : ℕ)
    → length file < f
    → comments f (spaces (fgetc file).0 (fgetc file).1 line col) ≡ skip_blanks file line col
unfolding skip_blanks
skip_blanks_fuel f file line col h =
    let n = spaces-le (fgetc file).0 (fgetc file).1 line col in
    let m = fgetc-le file in
    comments_fuel f (suc (length file)) (spaces (fgetc file).0 (fgetc file).1 line col)
      (omega (arith, n, m, h)) (omega (arith, n, m))

abbrev pub is_visible : Scan → Bool
is_visible s = not (is_space s.ch || s.ch == b'#')

spaces-skipped :
    (ch : ℕ) (file : Bytes) (line col : ℕ) → is_space (spaces ch file line col).ch ≡ false
unfolding spaces is_space
spaces-skipped ch [] line col = ground arith
spaces-skipped ch (c ∷ file) line col =
    ground (arith, spaces-skipped c file (line + 1) 1, spaces-skipped c file line (col + 1))

after_comment-skipped :
    (file : Bytes) (line col : ℕ) → is_space (after_comment file line col).ch ≡ false
unfolding after_comment
after_comment-skipped file line col = spaces-skipped _ _ (line + 1) 1

comments-visible :
    (f : ℕ) (s : Scan) → is_space s.ch ≡ false → left s < f → is_visible (comments f s) ≡ true
unfolding comments
comments-visible zero s v h = absurd (omega arith)
comments-visible (suc f) s v h = elim (Bool-cases (s.ch == b'#')) [
  | inl more ↦ rw more (
      comments-visible f (after_comment s.file s.line s.col)
        (after_comment-skipped s.file s.line s.col)
        (omega (arith, after_comment-le s.file s.line s.col, is_hash_weight s more, h)))
  | inr done ↦ rw done (ground arith)
]

-- `lex` skips every space and comment: the character from which it reads a token is no space and
-- begins no comment.
pub skip_blanks-visible_end :
    (file : Bytes) (line col : ℕ) → is_visible (skip_blanks file line col) ≡ true
unfolding skip_blanks
skip_blanks-visible_end file line col =
    let (ch, rest) = fgetc file in
    comments-visible (suc (length file)) (spaces ch rest line col) (spaces-skipped ch rest line col)
      (omega (arith, spaces-le ch rest line col, fgetc-le file))

-- Where `whitespace` moves the line and the column.
abbrev pub next_line : ℕ → ℕ → ℕ
next_line c line = if c == b'\n' then line + 1 else line

abbrev pub next_col : ℕ → ℕ → ℕ
next_col c col = if c == b'\n' then 1 else col + 1

spaces-step :
    (c : ℕ) (file : Bytes) (line col : ℕ)
    → is_space c ≡ true
    → spaces c file line col
      ≡ spaces (fgetc file).0 (fgetc file).1 (next_line c line) (next_col c col)
unfolding spaces fgetc is_space
spaces-step c [] line col h = elim (Bool-cases (c == b'\n')) [
  | inl e ↦ rw (h, e) refl
  | inr e ↦ rw (h, e) refl
]
spaces-step c (d ∷ file) line col h = elim (Bool-cases (c == b'\n')) [
  | inl e ↦ rw (h, e) refl
  | inr e ↦ rw (h, e) refl
]

skip_blanks-space :
    (c : ℕ) (file : Bytes) (line col : ℕ)
    → is_space c ≡ true
    → skip_blanks (c ∷ file) line col ≡ skip_blanks file (next_line c line) (next_col c col)
skip_blanks-space c file line col h =
    skip_blanks-cons c file line col
    ∙ ap (comments (suc (suc (length file)))) (spaces-step c file line col h)
    ∙ skip_blanks_fuel (suc (suc (length file))) file (next_line c line) (next_col c col)
        (omega arith)

abbrev scan_from : Scan → Token × Lexer
scan_from s = scan_token s.ch s.file s.line s.col

-- `lex` at a space reads on behind it, with the line and the column moved as `whitespace` moves them.
pub lex-space :
    (c : ℕ) (file : Bytes) (line col : ℕ)
    → is_space c ≡ true
    → lex (resume (c ∷ file) line col) ≡ lex (resume file (next_line c line) (next_col c col))
unfolding lex lex_file
lex-space c file line col h = ap scan_from (skip_blanks-space c file line col h)

abbrev pub is_plain : ℕ → Bool
is_plain c = not (c == b'\n' || c == eof)

skip_line-append :
    (body rest : Bytes) → all is_plain body ≡ true → skip_line (body ++ b'\n' ∷ rest) ≡ rest
unfolding skip_line all
skip_line-append [] rest h = refl
skip_line-append (c ∷ body) rest h = ground (arith, skip_line-append body rest)

-- `comments` at a comment.
comments-hash :
    (f : ℕ) (file : Bytes) (line col : ℕ)
    → comments (suc f) (spaces b'#' file line col) ≡ comments f (after_comment file line col)
unfolding comments spaces is_space
comments-hash f [] line col = refl
comments-hash f (c ∷ file) line col = refl

skip_blanks-comment :
    (c : ℕ) (body rest : Bytes) (line col : ℕ)
    → all is_plain body ≡ true
    → skip_blanks (b'#' ∷ c ∷ body ++ b'\n' ∷ rest) line col ≡ skip_blanks rest (line + 1) 1
unfolding after_comment fgetc
skip_blanks-comment c body rest line col h =
    let tail = body ++ b'\n' ∷ rest in
    skip_blanks-cons b'#' (c ∷ tail) line col
    ∙ comments-hash (suc (length (c ∷ tail))) (c ∷ tail) line col
    ∙ ap (λ x. comments (suc (length (c ∷ tail))) (spaces (fgetc x).0 (fgetc x).1 (line + 1) 1))
        (skip_line-append body rest h)
    ∙ skip_blanks_fuel (suc (length (c ∷ tail))) rest (line + 1) 1
        (omega (arith, length-append body (b'\n' ∷ rest)))

-- `lex` at a comment reads on at the next line. The character behind the `#` counts as a part of the
-- comment whatever it is: behind a `#` at the end of its line, the whole line `body` is skipped.
pub lex-comment :
    (c : ℕ) (body rest : Bytes) (line col : ℕ)
    → all is_plain body ≡ true
    → lex (resume (b'#' ∷ c ∷ body ++ b'\n' ∷ rest) line col) ≡ lex (resume rest (line + 1) 1)
unfolding lex lex_file
lex-comment c body rest line col h = ap scan_from (skip_blanks-comment c body rest line col h)
