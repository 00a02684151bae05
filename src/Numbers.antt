-- ===== src/Numbers.antt =====
-- Python's numbers, as the program compares them: an `int`, or a `float`, whose finite values are
-- the numerator over a power of two.
use qorl.Prelude.{ℕ, ◌*◌, ◌^◌, Bool, true, false, not, ◌&&◌, ◌||◌, leb, nat_beq, nat_eq, string_eq}

pub data Number : Type 0 where
  int : (negative : Bool) (magnitude : ℕ) → Number
  float : (negative : Bool) (numerator scale : ℕ) → Number
  infinite : (negative : Bool) → Number
  nan : Number

-- math.isfinite(x)
abbrev pub is_finite : Number → Bool
is_finite (infinite _) = false
is_finite nan = false
is_finite _ = true

abbrev pub is_nan : Number → Bool
is_nan nan = true
is_nan _ = false

-- ±a / 2^s ≤ ±b / 2^t
abbrev pub ratio_le : Bool → ℕ → ℕ → Bool → ℕ → ℕ → Bool
ratio_le false a s false b t = leb (a * 2 ^ t) (b * 2 ^ s)
ratio_le true a s true b t = leb (b * 2 ^ s) (a * 2 ^ t)
ratio_le true a s false b t = true
ratio_le false a s true b t = nat_beq a 0 && nat_beq b 0

-- x <= y; an int and a float are compared by their exact values
unfoldable pub number_le : Number → Number → Bool
number_le nan y = false
number_le x nan = false
number_le (infinite n) (infinite m) = n || not m
number_le (infinite n) y = n
number_le x (infinite m) = not m
number_le (int n a) (int m b) = ratio_le n a 0 m b 0
number_le (int n a) (float m b t) = ratio_le n a 0 m b t
number_le (float n a s) (int m b) = ratio_le n a s m b 0
number_le (float n a s) (float m b t) = ratio_le n a s m b t

abbrev pub whole : ℕ → Number
whole n = int false n
