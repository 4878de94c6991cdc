-- ===== src/Doubles.antt =====
-- IEEE doubles, which the language lacks. A double is its 64-bit pattern, and the operations of the
-- floating-point unit are an interface; a theorem names what it needs of them.
use map_based_relay.Prelude.{ℕ, ◌≡◌, Bool, true, false}

abbrev pub Double : Type 0
Double = ℕ

pub record Doubles : Type 0 where
  pub lt : Double → Double → Bool
  pub le : Double → Double → Bool
  pub eq : Double → Double → Bool
  pub add : Double → Double → Double
  pub sub : Double → Double → Double
  pub mul : Double → Double → Double
  pub div : Double → Double → Double
  pub sqrt : Double → Double
  pub acos : Double → Double
  pub sin : Double → Double
  pub cos : Double → Double
  pub asin : Double → Double
  pub pow : Double → Double → Double
  pub round : Double → Double
  pub of_uint : ℕ → Double

-- `<` on doubles that are no NaN: it is irreflexive, and its negation is transitive. A theorem with this
-- hypothesis is about runs in which no NaN turns up.
pub record IsOrdered (f : Doubles) : Type 0 where
  pub irrefl : (a : Double) → f.lt a a ≡ false
  pub not_lt_trans : (a b c : Double) → f.lt b a ≡ false → f.lt c b ≡ false → f.lt c a ≡ false
  pub asym : (a b : Double) → f.lt a b ≡ true → f.lt b a ≡ false

-- The patterns of 0.0, -1.0 and 999.0.
abbrev pub zero_double : Double
zero_double = 0

abbrev pub minus_one : Double
minus_one = 0xbff0000000000000

abbrev pub nine_nine_nine : Double
nine_nine_nine = 0x408f380000000000
