-- ===== src/Decimal.antt =====
-- What the program uses of strconv.Itoa and of the `%04d` and `%04x` verbs of fmt: numbers as text.
-- An `int` is a ℤ here, without the bound of 64 bits.
use Prim.Native.Char.{Char, code}
use Prim.Native.String.{count}
use webrtc_chat.Prelude.{
  ℕ, zero, suc, ◌+◌, ◌-◌, ◌*◌, ◌/◌, ◌%◌, ◌<◌, String, ◌≡◌, refl, arith, ltb, Bool-cases, inl, inr,
  ap, sym, ◌∙◌, if◌then◌else◌,
}

-- `negsuc n` is -(n + 1).
pub data ℤ : Type 0 where
  pos : ℕ → ℤ
  negsuc : ℕ → ℤ

-- The character of a digit below ten.
digit : ℕ → Char
digit zero = "0"
digit (suc zero) = "1"
digit (suc (suc zero)) = "2"
digit (suc (suc (suc zero))) = "3"
digit (suc (suc (suc (suc zero)))) = "4"
digit (suc (suc (suc (suc (suc zero))))) = "5"
digit (suc (suc (suc (suc (suc (suc zero)))))) = "6"
digit (suc (suc (suc (suc (suc (suc (suc zero))))))) = "7"
digit (suc (suc (suc (suc (suc (suc (suc (suc zero)))))))) = "8"
digit (suc (suc (suc (suc (suc (suc (suc (suc (suc n))))))))) = "9"

-- The digits of `n` before `rest`. The number falls at every round, so fuel above it is enough.
digits : ℕ → ℕ → String → String
unfolding digit
digits zero n rest = rest
digits (suc f) n rest =
    let front = digits f (n / 10) (String.◌∷◌ (digit (n % 10)) rest) in
    if ltb n 10 then String.◌∷◌ (digit n) rest else front

unfoldable pub decimal : ℕ → String
unfolding digits
decimal n = digits (suc n) n String.[]

unfoldable pub itoa : ℤ → String
unfolding decimal
itoa (pos n) = decimal n
itoa (negsuc n) = String.◌∷◌ "-" (decimal (suc n))

zeros : ℕ → String → String
zeros zero s = s
zeros (suc k) s = String.◌∷◌ "0" (zeros k s)

-- The verb %04d, of a number that is not negative.
unfoldable pub decimal_04 : ℕ → String
unfolding decimal zeros
decimal_04 n = zeros (4 - count (decimal n)) (decimal n)

-- The verb %04x, of a number below 65536: four digits.
hex_digit : ℕ → Char
unfolding digit
hex_digit n = if ltb n 10 then digit n else hex_letter (n - 10)
  where
    hex_letter : ℕ → Char
    hex_letter zero = "a"
    hex_letter (suc zero) = "b"
    hex_letter (suc (suc zero)) = "c"
    hex_letter (suc (suc (suc zero))) = "d"
    hex_letter (suc (suc (suc (suc zero)))) = "e"
    hex_letter (suc (suc (suc (suc (suc n))))) = "f"

unfoldable pub hex_04 : ℕ → String
unfolding hex_digit
hex_04 n = String.◌∷◌ (hex_digit (n / 4096 % 16)) (
    String.◌∷◌ (hex_digit (n / 256 % 16))
      (String.◌∷◌ (hex_digit (n / 16 % 16)) (String.◌∷◌ (hex_digit (n % 16)) String.[])))

-- Reading digits back.
read : ℕ → String → ℕ
read acc String.[] = acc
read acc (String.◌∷◌ c s) = read (acc * 10 + (code c - 48)) s

code-digit : (d : ℕ) → d < 10 → code (digit d) ≡ 48 + d
unfolding digit
code-digit zero h = refl
code-digit (suc zero) h = refl
code-digit (suc (suc zero)) h = refl
code-digit (suc (suc (suc zero))) h = refl
code-digit (suc (suc (suc (suc zero)))) h = refl
code-digit (suc (suc (suc (suc (suc zero))))) h = refl
code-digit (suc (suc (suc (suc (suc (suc zero)))))) h = refl
code-digit (suc (suc (suc (suc (suc (suc (suc zero))))))) h = refl
code-digit (suc (suc (suc (suc (suc (suc (suc (suc zero)))))))) h = refl
code-digit (suc (suc (suc (suc (suc (suc (suc (suc (suc n))))))))) h = ground arith

read-digit :
    (acc d : ℕ) (rest : String)
    → d < 10
    → read acc (String.◌∷◌ (digit d) rest) ≡ read (acc * 10 + d) rest
unfolding read
read-digit acc d rest h = rw (code-digit d h) (ap (λ k. read (acc * 10 + k) rest) (omega arith))

read-digits : (f n : ℕ) (rest : String) → n < f → read 0 (digits f n rest) ≡ read n rest
unfolding digits
read-digits zero n rest h = elim h [ ]
read-digits (suc f) n rest h = elim (Bool-cases (ltb n 10)) [
  | inl e ↦ rw e (read-digit 0 n rest (ground arith) ∙ ap (λ k. read k rest) (omega arith))
  | inr e ↦ rw e (
      read-digits f (n / 10) (String.◌∷◌ (digit (n % 10)) rest) (ground arith)
      ∙ read-digit (n / 10) (n % 10) rest (omega arith)
      ∙ ap (λ k. read k rest) (omega arith))
]

read-zeros : (k : ℕ) (s : String) → read 0 (zeros k s) ≡ read 0 s
unfolding read zeros
read-zeros zero s = refl
read-zeros (suc k) s = read-zeros k s

read-decimal_04 : (n : ℕ) → read 0 (decimal_04 n) ≡ n
unfolding decimal_04 read
read-decimal_04 n =
    read-zeros (4 - count (decimal n)) (decimal n) ∙ read-digits (suc n) n String.[] (omega arith)

-- Different numbers have different texts.
pub decimal_04-injective : (n m : ℕ) → decimal_04 n ≡ decimal_04 m → n ≡ m
decimal_04-injective n m e = sym (read-decimal_04 n) ∙ ap (λ s. read 0 s) e ∙ read-decimal_04 m
