-- ===== src/Prelude/Lists.antt =====
-- Lists measured and filtered by native numbers and Boolean tests, and predicates over their items.
use Prim.Native.Nat.{ℕ, zero, suc, ◌+◌, ◌≤◌}
use mathlib.Core.Path.{◌≡◌, refl}
use mathlib.Core.Bool.{Bool, true, false, not}
use mathlib.Core.Logic.{◌⊎◌, inl, inr}
use mathlib.Core.Option.{Option, none, some}
use mathlib.Core.List.{List, [], ◌∷◌, ◌++◌}
use native.Mathlib.Omega.{arith}
use Prim.{Unit, tt}
use map_based_relay.Prelude.Tests.{if◌then◌else◌}

module _ {ℓ} {A : Type ℓ} where
  abbrev pub length : List A → ℕ
  length [] = 0
  length (x ∷ xs) = suc (length xs)

  abbrev pub get_elem? : List A → ℕ → Option A
  get_elem? [] i = none
  get_elem? (x ∷ xs) zero = some x
  get_elem? (x ∷ xs) (suc i) = get_elem? xs i

  -- Keeps the items that pass the test, in order: `erase (remove_if …)` of the negated test.
  abbrev pub keep_if : (A → Bool) → List A → List A
  keep_if p [] = []
  keep_if p (x ∷ xs) = if p x then x ∷ keep_if p xs else keep_if p xs

  -- Whether some item passes the test.
  abbrev pub any_of : (A → Bool) → List A → Bool
  any_of p [] = false
  any_of p (x ∷ xs) = if p x then true else any_of p xs

  -- The first item that passes the test.
  abbrev pub find_if : (A → Bool) → List A → Option A
  find_if p [] = none
  find_if p (x ∷ xs) = if p x then some x else find_if p xs

  abbrev pub All {κ} : (A → Type κ) → List A → Type κ
  All P [] = Unit
  All P (x ∷ xs) = P x × All P xs

  pub length-append : (xs ys : List A) → length (xs ++ ys) ≡ length xs + length ys
  length-append [] ys = omega arith
  length-append (x ∷ xs) ys = omega (arith, length-append xs ys)

  pub length-keep_if-le : (p : A → Bool) (xs : List A) → length (keep_if p xs) ≤ length xs
  length-keep_if-le p [] = omega arith
  length-keep_if-le p (x ∷ xs) = ground (arith, length-keep_if-le p xs)

  pub keep_if_idem : (p : A → Bool) (xs : List A) → keep_if p (keep_if p xs) ≡ keep_if p xs
  keep_if_idem p [] = refl
  keep_if_idem p (x ∷ xs) = ground (arith, keep_if_idem p xs)

  pub any_of-eq-false :
      (p : A → Bool) (xs : List A) → any_of p xs ≡ false → All (λ x. p x ≡ false) xs
  any_of-eq-false p [] h = tt
  any_of-eq-false p (x ∷ xs) h = ground (arith, any_of-eq-false p xs)

  pub All-keep_if {κ} :
      (P : A → Type κ) (p : A → Bool) (xs : List A) → All P xs → All P (keep_if p xs)
  All-keep_if P p [] h = tt
  All-keep_if P p (x ∷ xs) h = ground (arith, All-keep_if P p xs)

  -- What is kept passed the test.
  pub keep_if-All : (p : A → Bool) (xs : List A) → All (λ x. p x ≡ true) (keep_if p xs)
  keep_if-All p [] = tt
  keep_if-All p (x ∷ xs) = ground (arith, keep_if-All p xs)

  pub All-append {κ} : (P : A → Type κ) (xs ys : List A) → All P xs → All P ys → All P (xs ++ ys)
  All-append P [] ys h k = k
  All-append P (x ∷ xs) ys h k = (h.0, All-append P xs ys h.1 k)

module _ {ℓ} {A : Type ℓ} where
  -- How many items pass the test.
  abbrev pub count : (A → Bool) → List A → ℕ
  count p [] = 0
  count p (x ∷ xs) = (if p x then 1 else 0) + count p xs

  pub count-append : (p : A → Bool) (xs ys : List A) → count p (xs ++ ys) ≡ count p xs + count p ys
  count-append p [] ys = omega arith
  count-append p (x ∷ xs) ys = omega (arith, count-append p xs ys)

  -- Two complementary tests split a list without loss.
  pub count-keep_if :
      (p t : A → Bool) (xs : List A)
      → count t (keep_if p xs) + count t (keep_if (λ x. not (p x)) xs) ≡ count t xs
  count-keep_if p t [] = refl
  count-keep_if p t (x ∷ xs) = ground (arith, count-keep_if p t xs)

  pub keep_if-append :
      (p : A → Bool) (xs ys : List A) → keep_if p (xs ++ ys) ≡ keep_if p xs ++ keep_if p ys
  keep_if-append p [] ys = refl
  keep_if-append p (x ∷ xs) ys = ground (arith, keep_if-append p xs ys)

  pub keep_if-of_All : (p : A → Bool) (xs : List A) → All (λ x. p x ≡ true) xs → keep_if p xs ≡ xs
  keep_if-of_All p [] h = refl
  keep_if-of_All p (x ∷ xs) h = ground (arith, keep_if-of_All p xs)

  pub All-mono {κ κ'} :
      (P : A → Type κ) (Q : A → Type κ')
      → ((x : A) → P x → Q x)
      → (xs : List A) → All P xs
      → All Q xs
  All-mono P Q f [] h = tt
  All-mono P Q f (x ∷ xs) h = (f x h.0, All-mono P Q f xs h.1)

pub List-cases {ℓ} :
    {A : Type ℓ} (xs : List A) → (xs ≡ []) ⊎ ((x : A) × (rest : List A) × (xs ≡ x ∷ rest))
List-cases [] = inl refl
List-cases (x ∷ xs) = inr (x, xs, refl)

module _ {ℓ} {A : Type ℓ} where
  pub any_of-append :
      (p : A → Bool) (xs ys : List A)
      → any_of p (xs ++ ys) ≡ (if any_of p xs then true else any_of p ys)
  any_of-append p [] ys = refl
  any_of-append p (x ∷ xs) ys = ground (arith, any_of-append p xs ys)

  -- A search among the kept items is a search for an item that is kept.
  pub any_of-keep_if :
      (p q : A → Bool) (xs : List A)
      → any_of p (keep_if q xs) ≡ any_of (λ x. if q x then p x else false) xs
  any_of-keep_if p q [] = refl
  any_of-keep_if p q (x ∷ xs) = ground (arith, any_of-keep_if p q xs)

  pub find_if-append_none :
      (p : A → Bool) (xs ys : List A)
      → All (λ x. p x ≡ false) xs
      → find_if p (xs ++ ys) ≡ find_if p ys
  find_if-append_none p [] ys h = refl
  find_if-append_none p (x ∷ xs) ys h = ground (arith, find_if-append_none p xs ys h.1)

  pub find_if-none : (p : A → Bool) (xs : List A) → find_if p xs ≡ none → All (λ x. p x ≡ false) xs
  find_if-none p [] h = tt
  find_if-none p (x ∷ xs) h = ground (arith, find_if-none p xs)

  -- Some item satisfies the predicate.
  abbrev pub Any : (A → Type 0) → List A → Type 0
  Any P [] = ⊥
  Any P (x ∷ xs) = P x ⊎ Any P xs

  pub Any-mono : (P Q : A → Type 0) → ((x : A) → P x → Q x) → (xs : List A) → Any P xs → Any Q xs
  Any-mono P Q f [] h = h
  Any-mono P Q f (x ∷ xs) (inl h) = inl (f x h)
  Any-mono P Q f (x ∷ xs) (inr h) = inr (Any-mono P Q f xs h)
