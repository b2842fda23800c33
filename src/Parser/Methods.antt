-- ===== src/Parser/Methods.antt =====
-- What a call of `expression` and of `statement` does, from any state that the parser can be in.
use pudl.Prelude.{ℕ, ◌+◌, ◌*◌, ◌<◌, ◌≡◌, ◌⊎◌, inl, inr, refl, Bool, true, false, Bytes, Option}
use pudl.Parser.State.{State, Outcome, value, null}
use pudl.Parser.Typing.{context, Typed, TypedStmt}
use pudl.Parser.Ensures.{size, IsValid, Step, Returns, holds, fails}
use pudl.Parser.Expression.{expression}
use pudl.Parser.Expression.Sound.{expression-Returns}
use pudl.Parser.Statement.{statement}
use pudl.Parser.Statement.Sound.{statement-Returns}

-- A method that consumes what it returns answers with a node and fewer characters left, or with
-- NULL; either way after a step.
abbrev pub Answers {ℓ} : {A : Type ℓ} → Bool → State → (A → State → Type 0) → Outcome A → Type ℓ
Answers {A = A} b s R o =
    ((a : A) × (t : State) × (o ≡ value a t) × Step b s t × (size t < size s) × R a t)
    ⊎ ((t : State) × (o ≡ null t) × Step b s t)

answers {ℓ} :
    {A : Type ℓ} {b : Bool} {s : State} {R : A → State → Type 0} {o : Outcome A}
    → Returns b s (λ a t. (size t < size s) × R a t) o
    → Answers b s R o
answers (holds {a} {s = t} h) = inl (a, t, refl, h.0, h.1.0, h.1.1)
answers (fails {s = t} h) = inr (t, refl, h)

-- From a valid state and with 16 units of fuel for each character that is left, `expression` answers.
-- It forgets no declaration and no error, and leaves a valid state. Unless an error was reported it
-- declares nothing, and what it returns is typed in the context behind it. What it returns takes at
-- least one character.
pub expression-Answers :
    (stof : Bytes → Option ℕ) (f : ℕ) (s : State)
    → IsValid s
    → 16 * size s + 11 < f
    → Answers true s (λ e t. t.is_error ≡ false → Typed (context t) e) (expression stof f s)
expression-Answers stof f s v h = answers (expression-Returns stof f s v h)

-- From a valid state and with 16 units of fuel for each character that is left, `statement` answers.
-- It forgets no declaration and no error, and leaves a valid state. What it returns is typed in the
-- context behind it unless an error was reported, and takes at least one character.
pub statement-Answers :
    (stof : Bytes → Option ℕ) (f : ℕ) (s : State)
    → IsValid s
    → 16 * size s + 14 < f
    → Answers false s (λ x t. t.is_error ≡ false → TypedStmt (context t) x) (statement stof f s)
statement-Answers stof f s v h = answers (statement-Returns stof f s v h)
