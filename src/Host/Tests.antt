-- ===== src/Host/Tests.antt =====
-- A system that has `g++` only, and where every file can be written.
use pudl.Prelude.{
  ℕ, Bool, true, [], ◌∷◌, List, Bytes, codes, bytes_eq, Option, some, none, if◌then◌else◌,
}
use pudl.Host.{Status, World, Os}

abbrev pub is_gxx : Bytes → Bool
is_gxx w = bytes_eq w (codes "g++")

abbrev pub starts : List Bytes → Option ℕ
starts [] = none
starts (c ∷ args) = if is_gxx c then some 7 else none

abbrev pub system : Os
system = record {
  spawn = λ t args silent. starts args;
  wait = λ t pid. some (Status.exited 0);
  opens = λ t path. true;
  removes = λ t path. true;
  has_target = true;
  can_emit = true;
  pid = 42;
  show_number = λ n. n ∷ [];
}

abbrev pub fresh : World
fresh = record { counter = 0; trace = [] }
