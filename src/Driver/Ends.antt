-- ===== src/Driver/Ends.antt =====
-- `main` comes to its end, whatever its arguments and the file are.
use pudl.Prelude.{ℕ, List, [], ◌∷◌, Bytes, codes, bytes_eq, Option, some, none, if◌then◌else◌}
use pudl.Cli.{split_args}
use pudl.Host.{World}
use pudl.Driver.{Exit, has_either, option_value}

pub data Ends (code : ℕ) : Exit → Type 0 where
  ends : (w : World) → Ends code (some (code, w))

-- A program may not be linked over its input, nor together with `-c`.
abbrev pub link_status : List Bytes → Bytes → ℕ
link_status args in_path =
    if has_either (codes "-o") (codes "--output") args
    then (if bytes_eq in_path (option_value (codes "-o") (codes "--output") args)
        then 1
        else if has_either (codes "-c") (codes "--compile") args
        then 1
        else 0)
    else 0

abbrev pub found_status : List Bytes → Bytes → Option Bytes → ℕ
found_status args in_path none = 1
found_status args in_path (some content) = link_status args in_path

abbrev pub input_status : (Bytes → Option Bytes) → List Bytes → List Bytes → ℕ
input_status files args [] = 1
input_status files args (in_path ∷ argv) =
    if has_either (codes "--help") (codes "-h") args
    then 1
    else found_status args in_path (files in_path)

-- What `main` returns, from its command line and the files that are there.
abbrev pub exit_status : (Bytes → Option Bytes) → List Bytes → ℕ
exit_status files argv =
    if has_either (codes "--version") (codes "-v") (split_args argv)
    then 0
    else input_status files (split_args argv) argv
