-- ===== src/Prelude/Options.antt =====
-- What holds of an optional result where there is one.
use Prim.{Unit, tt}
use mathlib.Core.Option.{Option, none, some}
use mathlib.Core.Bool.{Bool, true, false}
use map_based_relay.Prelude.Tests.{◌>>=◌, if◌then◌else◌}

abbrev pub OnSome {ℓ} : {A : Type ℓ} → (A → Type 0) → Option A → Type 0
OnSome P none = Unit {0}
OnSome P (some a) = P a

pub OnSome-bind {ℓ κ} :
    {A : Type ℓ} {B : Type κ} {P : A → Type 0} (Q : B → Type 0) (o : Option A) (f : A → Option B)
    → OnSome P o
    → ((a : A) → P a → OnSome Q (f a))
    → OnSome Q (o >>= f)
OnSome-bind Q none f h k = tt
OnSome-bind Q (some a) f h k = k a h

pub OnSome-any {ℓ κ} :
    {A : Type ℓ} {B : Type κ} (Q : B → Type 0) (o : Option A) (f : A → Option B)
    → ((a : A) → OnSome Q (f a))
    → OnSome Q (o >>= f)
OnSome-any Q none f k = tt
OnSome-any Q (some a) f k = k a

pub OnSome-if {ℓ} :
    {A : Type ℓ} (P : A → Type 0) (b : Bool) (o o' : Option A)
    → OnSome P o
    → OnSome P o'
    → OnSome P (if b then o else o')
OnSome-if P true o o' h h' = h
OnSome-if P false o o' h h' = h'

pub OnSome-mono {ℓ} :
    {A : Type ℓ} (P Q : A → Type 0)
    → ((a : A) → P a → Q a)
    → (o : Option A) → OnSome P o
    → OnSome Q o
OnSome-mono P Q f none h = tt
OnSome-mono P Q f (some a) h = f a h

pub OnSome-valid {ℓ} :
    {A : Type ℓ} (P : A → Type 0) (b : Bool) (o o' : Option A)
    → OnSome P o
    → OnSome P o'
    → OnSome P (elim b [ false ↦ o | true ↦ o' ])
OnSome-valid P false o o' h h' = h
OnSome-valid P true o o' h h' = h'
