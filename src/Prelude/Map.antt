-- ===== src/Prelude/Map.antt =====
-- `std::map` from byte strings, as an association list. A map to pointers holds `Option`s: `none` is
-- a null pointer that stands under a key.
use mathlib.Core.Path.{◌≡◌, refl, sym, ap, ◌∙◌, subst}
use mathlib.Core.Bool.{Bool, true, false}
use mathlib.Core.Option.{Option, none, some}
use mathlib.Core.List.{List, [], ◌∷◌}
use mathlib.Core.Logic.{◌≢◌, inl, inr}
use native.Mathlib.Omega.{arith}
use pudl.Prelude.Tests.{if◌then◌else◌, Bool-cases}
use pudl.Prelude.Text.{Bytes, bytes_eq, bytes_eq_refl, bytes_eq→eq}

abbrev pub Map {ℓ} : Type ℓ → Type ℓ
Map V = List (Bytes × V)

module _ {ℓ} {V : Type ℓ} where
  -- `find`: what stands under the key.
  unfoldable pub lookup : Bytes → Map V → Option V
  lookup k [] = none
  lookup k ((j, v) ∷ m) = if bytes_eq j k then some v else lookup k m

  -- `insert`: an entry that is there already stays.
  unfoldable pub insert : Bytes → V → Map V → Map V
  insert k v [] = (k, v) ∷ []
  insert k v ((j, w) ∷ m) = if bytes_eq j k then (j, w) ∷ m else (j, w) ∷ insert k v m

  -- `m[k] = v`: an entry that is there already is overwritten.
  unfoldable pub update : Bytes → V → Map V → Map V
  update k v [] = (k, v) ∷ []
  update k v ((j, w) ∷ m) = if bytes_eq j k then (j, v) ∷ m else (j, w) ∷ update k v m

  pub lookup-insert_new :
      (k : Bytes) (v : V) (m : Map V) → lookup k m ≡ none → lookup k (insert k v m) ≡ some v
  unfolding lookup insert
  lookup-insert_new k v [] h = ground (arith, bytes_eq_refl k)
  lookup-insert_new k v ((j, w) ∷ m) h = ground (arith, lookup-insert_new k v m)

  pub lookup-insert_old :
      (k j : Bytes) (v w : V) (m : Map V) → lookup j m ≡ some w → lookup j (insert k v m) ≡ some w
  unfolding lookup insert
  lookup-insert_old k j v w ((i, x) ∷ m) h = ground (arith, lookup-insert_old k j v w m)
  lookup-insert_old k j v w [] h = ground arith

  -- What holds of an inserted entry and of all the others holds of what is found.
  pub lookup-insert_ind {κ} :
      (P : V → Type κ) (k j : Bytes) (v w : V) (m : Map V)
      → (k ≡ j → P v)
      → (lookup j m ≡ some w → P w)
      → lookup j (insert k v m) ≡ some w
      → P w
  unfolding lookup insert
  lookup-insert_ind P k j v w [] new old h = elim (Bool-cases (bytes_eq k j)) [
    | inl e ↦ let q : v ≡ w = ground arith in subst P q (new (bytes_eq→eq k j e))
    | inr e ↦ let q : some w ≡ none = ground arith in absurd (cc)
  ]
  lookup-insert_ind P k j v w ((i, x) ∷ m) new old h = elim (Bool-cases (bytes_eq i k)) [
    | inl e ↦ old (rw e at h)
    | inr e ↦ elim (Bool-cases (bytes_eq i j)) [
      | inl q ↦ old (ground arith)
      | inr q ↦ lookup-insert_ind P k j v w m new (λ r. old (ground arith)) (ground arith)
    ]
  ]

-- Every entry that is no null pointer is kept.
abbrev pub Extends {ℓ} : {X : Type ℓ} → Map (Option X) → Map (Option X) → Type ℓ
Extends {X} m m' = (k : Bytes) (x : X) → lookup k m ≡ some (some x) → lookup k m' ≡ some (some x)

module _ {ℓ} {X : Type ℓ} where
  pub Extends-insert : (k : Bytes) (v : Option X) (m : Map (Option X)) → Extends m (insert k v m)
  Extends-insert k v m j x h = lookup-insert_old k j v (some x) m h

  unfoldable pub pointer : Option (Option X) → Option X
  pointer none = none
  pointer (some p) = p

  -- `m[k]`, read: a missing key comes to stand under a null pointer.
  unfoldable pub subscript : Bytes → Map (Option X) → Option X × Map (Option X)
  unfolding pointer
  subscript k m = (pointer (lookup k m), insert k none m)

  pub subscript-some :
      (k : Bytes) (m : Map (Option X)) {x : X}
      → (subscript k m).0 ≡ some x
      → lookup k m ≡ some (some x)
  unfolding subscript
  subscript-some k m h = ground arith

-- Inserting under a key that is there changes nothing.
pub insert_present {ℓ} :
    {V : Type ℓ} (k : Bytes) (v w : V) (m : Map V) → lookup k m ≡ some w → insert k v m ≡ m
unfolding lookup insert
insert_present k v w [] h = ground arith
insert_present k v w ((j, x) ∷ m) h = ground (arith, insert_present k v w m)

-- Inserting under one key makes no other missing key present.
pub lookup-insert_null {ℓ} :
    {V : Type ℓ} (k j : Bytes) (v : V) (m : Map V)
    → k ≢ j
    → lookup j m ≡ none
    → lookup j (insert k v m) ≡ none
unfolding lookup insert
lookup-insert_null k j v [] n h = ground (arith, bytes_eq→eq k j)
lookup-insert_null k j v ((i, x) ∷ m) n h = ground (arith, lookup-insert_null k j v m)

-- What stands under a key behind `m[k] = v`.
pub lookup-update {ℓ} :
    {V : Type ℓ} (k j : Bytes) (v : V) (m : Map V)
    → lookup j (update k v m) ≡ (if bytes_eq k j then some v else lookup j m)
unfolding lookup update
lookup-update k j v [] = refl
lookup-update k j v ((i, w) ∷ m) = elim (Bool-cases (bytes_eq i k)) [
  | inl e ↦
      let q : bytes_eq i j ≡ bytes_eq k j = ap (λ x. bytes_eq x j) (bytes_eq→eq i k e) in
      rw (e, sym q) (twice (bytes_eq i j))
  | inr e ↦ elim (Bool-cases (bytes_eq i j)) [
    | inl d ↦
        let n : bytes_eq k j ≡ false = not_true λ h.
          let p : i ≡ k = bytes_eq→eq i j d ∙ sym (bytes_eq→eq k j h) in
          let r : bytes_eq i k ≡ true = subst (λ x. bytes_eq i x ≡ true) p (bytes_eq_refl i) in
          absurd (cc) in
        rw (e, d, n) refl
    | inr d ↦ rw (e, d) (lookup-update k j v m)
  ]
]
  where
    twice :
        (b : Bool)
        → (if b then some v else lookup j m)
          ≡ (if b then some v else (if b then some w else lookup j m))
    twice true = refl
    twice false = refl

    not_true : {b : Bool} → (b ≡ true → ⊥) → b ≡ false
    not_true {b = true} h = absurd (h refl)
    not_true {b = false} h = refl
