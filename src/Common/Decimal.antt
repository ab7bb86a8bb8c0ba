-- ===== src/Common/Decimal.antt =====
-- strconv.Itoa and fmt's %d, and the reading of an array index in a JSON pointer.
use Prim.Native.Char.{Char, code}
use Prim.Native.String.{[], ◌∷◌}
use Prim.Native.String
use karydia.Common.{
  ℕ, zero, suc, ◌+◌, ◌-◌, ◌*◌, ◌/◌, ◌%◌, ◌<◌, String, ◌≡◌, refl, ◌∙◌, ◌⊎◌, Bool, ◌&&◌, Option, none,
  some, arith, ltb, if◌then◌else◌, Bool-cases, inl, inr,
}
use karydia.Common.Text.{Lacks}

-- An integer of Go; `negsuc n` is -(n + 1).
pub data ℤ : Type 0 where
  pos negsuc : ℕ → ℤ

digit : ℕ → Char
digit zero = "0"
digit (suc zero) = "1"
digit (suc (suc zero)) = "2"
digit (suc (suc (suc zero))) = "3"
digit (suc (suc (suc (suc zero)))) = "4"
digit (suc (suc (suc (suc (suc zero))))) = "5"
digit (suc (suc (suc (suc (suc (suc zero)))))) = "6"
digit (suc (suc (suc (suc (suc (suc (suc zero))))))) = "7"
digit (suc (suc (suc (suc (suc (suc (suc (suc zero)))))))) = "8"
digit _ = "9"

-- The digits of `n` in front of `rest`, on fuel.
itoa_from : ℕ → ℕ → String → String
unfolding digit
itoa_from zero n rest = rest
itoa_from (suc fuel) n rest =
    let longer = digit (n % 10) ∷ rest in
    let more = itoa_from fuel (n / 10) longer in if ltb n 10 then longer else more

-- strconv.Itoa at a number that is not negative.
unfoldable pub itoa : ℕ → String
unfolding itoa_from
itoa n = itoa_from (suc n) n ""

-- %d
unfoldable pub format_int : ℤ → String
unfolding itoa
format_int (pos n) = itoa n
format_int (negsuc n) = String.◌++◌ "-" (itoa (suc n))

is_digit : Char → Bool
is_digit c = ltb 47 (code c) && ltb (code c) 58

parse_from : ℕ → String → Option ℕ
unfolding is_digit
parse_from n [] = some n
parse_from n (c ∷ s) =
    let rest = parse_from (n * 10 + (code c - 48)) s in if is_digit c then rest else none

-- One or more digits.
unfoldable pub parse_index : String → Option ℕ
unfolding parse_from
parse_index [] = none
parse_index (c ∷ s) = parse_from 0 (c ∷ s)

code-digit : (d : ℕ) → d < 10 → code (digit d) ≡ 48 + d
unfolding digit
code-digit zero h = refl
code-digit (suc zero) h = refl
code-digit (suc (suc zero)) h = refl
code-digit (suc (suc (suc zero))) h = refl
code-digit (suc (suc (suc (suc zero)))) h = refl
code-digit (suc (suc (suc (suc (suc zero))))) h = refl
code-digit (suc (suc (suc (suc (suc (suc zero)))))) h = refl
code-digit (suc (suc (suc (suc (suc (suc (suc zero))))))) h = refl
code-digit (suc (suc (suc (suc (suc (suc (suc (suc zero)))))))) h = refl
code-digit _ h = omega arith

parse_from-digit :
    (n d : ℕ) (s : String) → d < 10 → parse_from n (digit d ∷ s) ≡ parse_from (n * 10 + d) s
unfolding parse_from
parse_from-digit n d s h = ground (arith, code-digit d h)

parse_from-itoa_from :
    (fuel n : ℕ) (rest : String)
    → n < fuel
    → parse_from 0 (itoa_from fuel n rest) ≡ parse_from n rest
unfolding itoa_from
parse_from-itoa_from zero n rest h = elim h [ ]
parse_from-itoa_from (suc fuel) n rest h = ground (
  arith,
  parse_from-itoa_from fuel (n / 10) (digit (n % 10) ∷ rest),
  parse_from-digit (n / 10) (n % 10) rest,
  parse_from-digit 0 n rest,
)

itoa_from-cons :
    (fuel n : ℕ) (c : Char) (s : String)
    → (d : Char) × (t : String) × (itoa_from fuel n (c ∷ s) ≡ d ∷ t)
unfolding itoa_from
itoa_from-cons zero n c s = (c, s, refl)
itoa_from-cons (suc fuel) n c s = elim (Bool-cases (ltb n 10)) [
  | inl small ↦ (digit (n % 10), c ∷ s, rw small)
  | inr large ↦
      let (d, t, e) = itoa_from-cons fuel (n / 10) (digit (n % 10)) (c ∷ s) in (d, t, rw (large, e))
]

parse_index_of_cons :
    (s : String) (c : Char) (t : String) → s ≡ c ∷ t → parse_index s ≡ parse_from 0 s
unfolding parse_index
parse_index_of_cons s c t e = rw e

itoa-cons : (n : ℕ) → (d : Char) × (t : String) × (itoa n ≡ d ∷ t)
unfolding itoa
itoa-cons n = elim (Bool-cases (ltb n 10)) [
  | inl small ↦ (digit (n % 10), "", rw small)
  | inr large ↦
      let (d, t, e) = itoa_from-cons n (n / 10) (digit (n % 10)) "" in (d, t, rw (large, e))
]

-- The fuel of `itoa` suffices: what it writes is a number's decimal form, read back as that number.
pub parse_index-itoa : (n : ℕ) → parse_index (itoa n) ≡ some n
unfolding itoa parse_from
parse_index-itoa n =
    let (d, t, e) = itoa-cons n in
    parse_index_of_cons (itoa n) d t e ∙ parse_from-itoa_from (suc n) n "" (omega arith)

-- Decimal digits are no separators of a path.
Lacks-itoa_from :
    (sep fuel n : ℕ) (rest : String)
    → (sep < 48) ⊎ (57 < sep)
    → Lacks sep rest
    → Lacks sep (itoa_from fuel n rest)
unfolding itoa_from
Lacks-itoa_from sep zero n rest out h = h
Lacks-itoa_from sep (suc fuel) n rest out h =
    ground
      (arith, code-digit (n % 10), Lacks-itoa_from sep fuel (n / 10) (digit (n % 10) ∷ rest) out)

pub Lacks-itoa : (sep n : ℕ) → (sep < 48) ⊎ (57 < sep) → Lacks sep (itoa n)
unfolding itoa
Lacks-itoa sep n out = Lacks-itoa_from sep (suc n) n "" out tt
