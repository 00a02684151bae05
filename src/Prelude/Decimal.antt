-- ===== src/Prelude/Decimal.antt =====
-- Natural numbers as Python prints them.
use Prim.Native.Nat.{ℕ, zero, suc, ◌+◌, ◌-◌, ◌*◌, ◌/◌, ◌%◌, ◌≤◌, ◌<◌}
use Prim.Native.Char.{code}
use Prim.Native.String.append
use mathlib.Core.Path.{◌≡◌, sym, ap, ◌∙◌}
use mathlib.Core.Logic.{inl, inr}
use native.Mathlib.Omega.{arith}
use Prim.Native.String.{String, ◌++◌ as join}
use mathlib.Core.List.{List, [], ◌∷◌}
use qorl.Prelude.Tests.{if◌then◌else◌, ltb, Bool-cases, ltb→lt}

digit_from : List String → ℕ → String
digit_from [] d = ""
digit_from (s ∷ ss) zero = s
digit_from (s ∷ ss) (suc d) = digit_from ss d

digit : ℕ → String
unfolding digit_from
digit = digit_from ("0" ∷ "1" ∷ "2" ∷ "3" ∷ "4" ∷ "5" ∷ "6" ∷ "7" ∷ "8" ∷ "9" ∷ [])

-- `n` has at most `suc n` digits, so that the fuel `n` suffices.
decimal_within : ℕ → ℕ → String
unfolding digit
decimal_within zero n = digit (n % 10)
decimal_within (suc fuel) n =
    let shorter = decimal_within fuel (n / 10) in
    if ltb n 10 then digit n else join shorter (digit (n % 10))

-- str(n)
unfoldable pub decimal : ℕ → String
unfolding decimal_within
decimal n = decimal_within n n

-- format(n, "02d")
unfoldable pub two_digits : ℕ → String
unfolding decimal digit
two_digits n = if ltb n 10 then join "0" (digit n) else decimal n

-- What a string of decimal digits after the number `acc` reads as.
read_digits : ℕ → String → ℕ
read_digits acc String.[] = acc
read_digits acc (String.◌∷◌ c s) = read_digits (acc * 10 + (code c - 48)) s

read_digits-join :
    (acc : ℕ) (s t : String) → read_digits acc (join s t) ≡ read_digits (read_digits acc s) t
unfolding read_digits
read_digits-join acc String.[] t = ap (read_digits acc) (append.nil t)
read_digits-join acc (String.◌∷◌ c s) t =
    ap (read_digits acc) (append.cons c s t) ∙ read_digits-join (acc * 10 + (code c - 48)) s t

read_digits-digit : (acc d : ℕ) → d < 10 → read_digits acc (digit d) ≡ acc * 10 + d
unfolding read_digits digit digit_from
read_digits-digit acc zero h = omega arith
read_digits-digit acc (suc zero) h = omega arith
read_digits-digit acc (suc (suc zero)) h = omega arith
read_digits-digit acc (suc (suc (suc zero))) h = omega arith
read_digits-digit acc (suc (suc (suc (suc zero)))) h = omega arith
read_digits-digit acc (suc (suc (suc (suc (suc zero))))) h = omega arith
read_digits-digit acc (suc (suc (suc (suc (suc (suc zero)))))) h = omega arith
read_digits-digit acc (suc (suc (suc (suc (suc (suc (suc zero))))))) h = omega arith
read_digits-digit acc (suc (suc (suc (suc (suc (suc (suc (suc zero)))))))) h = omega arith
read_digits-digit acc (suc (suc (suc (suc (suc (suc (suc (suc (suc zero))))))))) h = omega arith
read_digits-digit acc (suc (suc (suc (suc (suc (suc (suc (suc (suc (suc d)))))))))) h =
    omega (arith, h)

decimal_within-read_digits : (fuel n : ℕ) → n ≤ fuel → read_digits 0 (decimal_within fuel n) ≡ n
unfolding decimal_within
decimal_within-read_digits zero n h = read_digits-digit 0 (n % 10) (omega arith) ∙ omega (arith, h)
decimal_within-read_digits (suc fuel) n h = elim (Bool-cases (ltb n 10)) [
  | inl small ↦ rw small (read_digits-digit 0 n (ltb→lt n 10 small) ∙ omega arith)
  | inr large ↦ rw large (
      read_digits-join 0 (decimal_within fuel (n / 10)) (digit (n % 10))
      ∙ (ap (λ k. read_digits k (digit (n % 10)))
            (decimal_within-read_digits fuel (n / 10) (omega (arith, h)))
          ∙ (read_digits-digit (n / 10) (n % 10) (omega arith) ∙ omega arith)))
]

two_digits-read_digits : (n : ℕ) → read_digits 0 (two_digits n) ≡ n
unfolding two_digits read_digits
two_digits-read_digits n = elim (Bool-cases (ltb n 10)) [
  | inl small ↦ rw small (
      read_digits-join 0 "0" (digit n)
      ∙ (read_digits-digit (read_digits 0 "0") n (ltb→lt n 10 small) ∙ zero_first n))
  | inr large ↦ rw large (decimal_within-read_digits n n (omega arith))
]
  where
    zero_first : (n : ℕ) → read_digits 0 "0" * 10 + n ≡ n
    zero_first n = omega arith

pub two_digits-inj : (m n : ℕ) → two_digits m ≡ two_digits n → m ≡ n
two_digits-inj m n h =
    sym (two_digits-read_digits m) ∙ (ap (read_digits 0) h ∙ two_digits-read_digits n)

rest_of : String → String
rest_of String.[] = String.[]
rest_of (String.◌∷◌ c s) = s

pub join-inj : (p s t : String) → join p s ≡ join p t → s ≡ t
unfolding rest_of
join-inj String.[] s t h = sym (append.nil s) ∙ (h ∙ append.nil t)
join-inj (String.◌∷◌ c p) s t h =
    join-inj p s t (ap rest_of (sym (append.cons c p s) ∙ (h ∙ append.cons c p t)))
