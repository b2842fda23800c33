-- ===== src/Host.antt =====
-- What the compiler asks of the operating system and of LLVM's back end: the answers are parameters, the
-- requests are listed, latest first.
pub mod Process
pub mod Linker
pub mod Output
pub mod Windows
pub mod Tests
mod Witnesses
use pudl.Prelude.{ℕ, Bool, List, ◌∷◌, Bytes, bytes_eq, Option, true, false, [], ◌||◌, if◌then◌else◌}

-- What `waitpid` reports of a program: its exit code, or that a signal ended it.
pub data Status : Type 0 where
  exited : ℕ → Status
  killed : Status

pub data Pass : Type 0 where
  promote instcombine reassociate dce gvn simplify_cfg : Pass

pub data Effect : Type 0 where
  -- A program is started, its output shown or not, and waited for.
  spawned : List Bytes → Bool → Effect
  waited : ℕ → Effect
  -- A file is opened to be written, an object file is written, and a file is removed.
  opened : Bytes → Effect
  emitted : Bytes → Effect
  removed : Bytes → Effect
  -- IR is shown, and a pass is added.
  dumped : Effect
  added : Pass → Effect

pub record World : Type 0 where
  pub counter : ℕ
  pub trace : List Effect

-- Each answer may depend on what was asked before.
pub record Os : Type 0 where
  pub spawn : List Effect → List Bytes → Bool → Option ℕ
  pub wait : List Effect → ℕ → Option Status
  pub opens : List Effect → Bytes → Bool
  pub removes : List Effect → Bytes → Bool
  pub has_target : Bool
  pub can_emit : Bool
  pub pid : ℕ
  -- A number as `std::ostringstream` writes it.
  pub show_number : ℕ → Bytes

abbrev pub H : Type 0 → Type 0
H A = World → A × World

module _ {A : Type 0} where
  abbrev pub pure : A → H A
  pure a w = (a, w)

  abbrev pub run_in : World → H A → A × World
  run_in w m = m w

infixl 5 ◌>>=◌ ◌>>◌
abbrev pub ◌>>=◌ : {A B : Type 0} → H A → (A → H B) → H B
◌>>=◌ m f w = let r = m w in f r.0 r.1

abbrev pub ◌>>◌ : {A B : Type 0} → H A → H B → H B
m >> k = m >>= λ _. k

abbrev pub ask : {A : Type 0} → (List Effect → A) → Effect → H A
ask answer e w = (answer w.trace, record w { trace = e ∷ w.trace })

abbrev pub act : Effect → H (Unit {0})
act e w = (tt, record w { trace = e ∷ w.trace })

-- The file was opened, and not removed since.
unfoldable pub remains : Bytes → List Effect → Bool
remains p [] = false
remains p (Effect.opened q ∷ t) = bytes_eq q p || remains p t
remains p (Effect.removed q ∷ t) = let rest = remains p t in if bytes_eq q p then false else rest
remains p (_ ∷ t) = remains p t
