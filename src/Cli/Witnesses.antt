-- ===== src/Cli/Witnesses.antt =====
-- The theorems on arguments at a command line.
use pudl.Prelude.{◌≡◌, refl, false, true, [], ◌∷◌, ◌++◌, Bytes, bytes_eq, codes, all, List}
use pudl.Cli.{
  split_at_equals, is_option, split_arg, split_args, find, has_option, get_option_value, is_name,
  split_args-joined, get_option_value-joined,
}

output-is_name : is_name (codes "--output") ≡ true
unfolding is_option all
output-is_name = refl

value-split_arg : split_arg (codes "a.ll") ≡ codes "a.ll" ∷ []
unfolding split_arg is_option
value-split_arg = refl

abbrev front : List Bytes
front = codes "-v" ∷ codes "main.pudl" ∷ []

front-has_option : has_option (codes "--output") (split_args front) ≡ false
unfolding has_option find split_args split_arg is_option split_at_equals bytes_eq
front-has_option = refl

split_args-joined_example :
    split_args ((codes "--output" ++ b'=' ∷ codes "a.ll") ∷ codes "-v" ∷ [])
    ≡ split_args (codes "--output" ∷ codes "a.ll" ∷ codes "-v" ∷ [])
split_args-joined_example =
    split_args-joined (codes "--output") (codes "a.ll") (codes "-v" ∷ []) output-is_name
      value-split_arg

get_option_value-joined_example :
    get_option_value
      (codes "--output")
      []
      (split_args (front ++ (codes "--output" ++ b'=' ∷ codes "-x=y") ∷ []))
    ≡ codes "-x=y"
get_option_value-joined_example =
    get_option_value-joined (codes "--output") (codes "-x=y") [] front [] output-is_name
      front-has_option
