-- ===== src/Cli.antt =====
-- src/Compiler/CLIManager.h: the arguments of the command line.
mod Witnesses
use pudl.Prelude.{
  ℕ, ◌≡◌, ◌≢◌, refl, sym, ap, ◌∙◌, Bool, true, false, not, ◌&&◌, ◌==◌, List, [], ◌∷◌, ◌++◌,
  append_assoc, Bytes, bytes_eq, bytes_eq_refl, all, Option, none, some, if◌then◌else◌, arith,
}

-- What `arg.find('=')` finds, as the texts in front of the first `=` and behind it.
unfoldable pub split_at_equals : Bytes → Option (Bytes × Bytes)
split_at_equals [] = none
split_at_equals (c ∷ w) =
    if c == b'='
    then some ([], w)
    else elim (split_at_equals w) [ none ↦ none | some p ↦ some (c ∷ p.0, p.1) ]

-- `arg.size() > 1 && arg[0] == '-'`
unfoldable pub is_option : Bytes → Bool
is_option [] = false
is_option (c ∷ []) = false
is_option (c ∷ d ∷ w) = c == b'-'

abbrev pub pieces : Bytes → Option (Bytes × Bytes) → List Bytes
pieces arg none = arg ∷ []
pieces arg (some p) = p.0 ∷ p.1 ∷ []

-- What the loop of the constructor pushes for one argument.
unfoldable pub split_arg : Bytes → List Bytes
split_arg arg = if is_option arg then pieces arg (split_at_equals arg) else arg ∷ []

-- The member `args` behind the constructor, from the arguments that follow the program's name.
unfoldable pub split_args : List Bytes → List Bytes
split_args [] = []
split_args (arg ∷ argv) = split_arg arg ++ split_args argv

-- `find`: the arguments from the first `arg` on, and nothing for `args.end()`.
unfoldable pub find : Bytes → List Bytes → List Bytes
find arg [] = []
find arg (a ∷ args) = if bytes_eq a arg then a ∷ args else find arg args

abbrev is_present : List Bytes → Bool
is_present [] = false
is_present (a ∷ args) = true

unfoldable pub has_option : Bytes → List Bytes → Bool
has_option option args = is_present (find option args)

-- What stands behind the place that `find` gives.
abbrev second_or : Bytes → List Bytes → Bytes
second_or default_value (a ∷ v ∷ args) = v
second_or default_value _ = default_value

unfoldable pub get_option_value : Bytes → Bytes → List Bytes → Bytes
get_option_value option default_value args = second_or default_value (find option args)

-- The arguments that `warnUnknownOptions` warns of, in order.
unfoldable pub unknown_options : List Bytes → List Bytes → List Bytes
unknown_options known [] = []
unknown_options known (arg ∷ args) =
    if is_option arg && not (has_option arg known)
    then arg ∷ unknown_options known args
    else unknown_options known args

-- An option's name: a `-` with more behind it, and no `=`.
abbrev pub is_name : Bytes → Bool
is_name w = is_option w && all (λ c. not (c == b'=')) w

split_at_equals-append :
    (w v : Bytes)
    → all (λ c. not (c == b'=')) w ≡ true
    → split_at_equals (w ++ b'=' ∷ v) ≡ some (w, v)
unfolding split_at_equals all
split_at_equals-append [] v h = refl
split_at_equals-append (c ∷ w) v h =
    let e : (c == b'=') ≡ false = ground (arith, h) in
    rw (e, split_at_equals-append w v (ground (arith, h))) refl

split_at_equals-plain : (w : Bytes) → all (λ c. not (c == b'=')) w ≡ true → split_at_equals w ≡ none
unfolding split_at_equals all
split_at_equals-plain [] h = refl
split_at_equals-plain (c ∷ w) h =
    let e : (c == b'=') ≡ false = ground (arith, h) in
    rw (e, split_at_equals-plain w (ground (arith, h))) refl

is_option-append : (w v : Bytes) → is_option w ≡ true → is_option (w ++ v) ≡ true
unfolding is_option
is_option-append [] v h = absurd (cc)
is_option-append (c ∷ []) v h = absurd (cc)
is_option-append (c ∷ d ∷ w) v h = h

split_arg-joined : (w v : Bytes) → is_name w ≡ true → split_arg (w ++ b'=' ∷ v) ≡ w ∷ v ∷ []
unfolding split_arg
split_arg-joined w v h =
    rw
      (
        is_option-append w (b'=' ∷ v) (ground (arith, h)),
        split_at_equals-append w v (ground (arith, h)),
      )
      refl

split_arg-name : (w : Bytes) → is_name w ≡ true → split_arg w ≡ w ∷ []
unfolding split_arg
split_arg-name w h =
    let o : is_option w ≡ true = ground (arith, h) in
    rw (o, split_at_equals-plain w (ground (arith, h))) refl

-- An option that is joined to its value by `=` leaves the same arguments as the option and its value
-- in two words, if that value by itself would not be split.
pub split_args-joined :
    (name value : Bytes) (argv : List Bytes)
    → is_name name ≡ true
    → split_arg value ≡ value ∷ []
    → split_args ((name ++ b'=' ∷ value) ∷ argv) ≡ split_args (name ∷ value ∷ argv)
unfolding split_args
split_args-joined name value argv h v =
    rw (split_arg-joined name value h, split_arg-name name h, v) refl

find-append :
    (arg : Bytes) (before args : List Bytes)
    → has_option arg before ≡ false
    → find arg (before ++ args) ≡ find arg args
unfolding has_option find
find-append arg [] args h = refl
find-append arg (a ∷ before) args h = ground (arith, find-append arg before args)

split_args-append : (a b : List Bytes) → split_args (a ++ b) ≡ split_args a ++ split_args b
unfolding split_args
split_args-append [] b = refl
split_args-append (x ∷ a) b =
    ap (λ l. split_arg x ++ l) (split_args-append a b)
    ∙ sym (append_assoc (split_arg x) (split_args a) (split_args b))

find-joined :
    (name value : Bytes) (argv : List Bytes)
    → is_name name ≡ true
    → find name (split_args ((name ++ b'=' ∷ value) ∷ argv)) ≡ name ∷ value ∷ split_args argv
unfolding split_args find
find-joined name value argv h = rw (split_arg-joined name value h, bytes_eq_refl name) refl

-- `--name=value` gives the option its value, whatever the value is and whatever arguments follow, if
-- the option does not occur among the arguments in front.
pub get_option_value-joined :
    (name value default_value : Bytes) (front argv : List Bytes)
    → is_name name ≡ true
    → has_option name (split_args front) ≡ false
    → get_option_value name default_value (split_args (front ++ (name ++ b'=' ∷ value) ∷ argv))
      ≡ value
unfolding get_option_value
get_option_value-joined name value default_value front argv h new = ap (second_or default_value) (
    ap (find name) (split_args-append front ((name ++ b'=' ∷ value) ∷ argv))
    ∙ find-append name (split_args front) (split_args ((name ++ b'=' ∷ value) ∷ argv)) new
    ∙ find-joined name value argv h)
