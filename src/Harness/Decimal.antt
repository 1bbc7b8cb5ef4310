-- ===== src/Harness/Decimal.antt =====
-- `std::to_string` of a `std::size_t`, which the program writes its counts with, against `parse_size`.
use spheres_benchmark.Prelude.{
  ℕ, zero, suc, ◌+◌, ◌-◌, ◌*◌, ◌/◌, ◌%◌, ◌<◌, ◌≡◌, refl, ap, ◌∙◌, inl, inr, true, ◌&&◌, [], ◌∷◌,
  ◌++◌, arith, length, length-append, ltb, leb, if◌then◌else◌, Bool-cases, size_mod,
}
use spheres_benchmark.Harness.Bytes.{Bytes}
use spheres_benchmark.Harness.Args.{ok, ◌>>=◌, digits_value, parse_size, checked_size}

-- The digits of a number, as many as there is fuel for.
unfoldable pub digits : ℕ → ℕ → Bytes
digits zero n = []
digits (suc fuel) n =
    let front = digits fuel (n / 10) in
    if ltb n 10 then (b'0' + n) ∷ [] else front ++ (b'0' + n % 10) ∷ []

-- 64 bits have 20 digits at most.
unfoldable pub to_string : ℕ → Bytes
unfolding digits
to_string n = digits 20 n

abbrev power : ℕ → ℕ
power zero = 1
power (suc fuel) = 10 * power fuel

digits_value-append :
    (xs ys : Bytes) (acc : ℕ)
    → digits_value acc (xs ++ ys) ≡ (digits_value acc xs >>= λ n. digits_value n ys)
unfolding digits_value
digits_value-append [] ys acc = refl
digits_value-append (x ∷ xs) ys acc = elim (Bool-cases (leb b'0' x && leb x b'9')) [
  | inl e ↦ rw e (digits_value-append xs ys (acc * 10 + (x - b'0')))
  | inr e ↦ rw e refl
]

one_digit : (acc d : ℕ) → d < 10 → digits_value acc ((b'0' + d) ∷ []) ≡ ok (acc * 10 + d)
unfolding digits_value
one_digit acc d h =
    let digit : leb b'0' (b'0' + d) && leb (b'0' + d) b'9' ≡ true = ground arith in
    rw digit (ap (λ e. ok (acc * 10 + e)) (omega arith))

digits_value-digits :
    (fuel n : ℕ) → n < power (suc fuel) → digits_value 0 (digits (suc fuel) n) ≡ ok n
unfolding digits
digits_value-digits zero n h =
    let one : ltb n 10 ≡ true = ground arith in
    rw one (one_digit 0 n (omega arith) ∙ ap ok (omega arith))
digits_value-digits (suc fuel) n h = elim (Bool-cases (ltb n 10)) [
  | inl one ↦ rw one (one_digit 0 n (ground arith) ∙ ap ok (omega arith))
  | inr more ↦ rw more (
      digits_value-append (digits (suc fuel) (n / 10)) ((b'0' + n % 10) ∷ []) 0
      ∙ rw (digits_value-digits fuel (n / 10) (omega arith))
          (one_digit (n / 10) (n % 10) (omega arith) ∙ ap ok (omega arith)))
]

digits-nonempty : (fuel n : ℕ) → 0 < length (digits (suc fuel) n)
unfolding digits
digits-nonempty fuel n = ground (arith, length-append (digits fuel (n / 10)) ((b'0' + n % 10) ∷ []))

parse_size-nonempty :
    (value option : Bytes)
    → 0 < length value
    → parse_size value option ≡ checked_size option (digits_value 0 value)
unfolding parse_size
parse_size-nonempty [] option h = absurd (omega arith)
parse_size-nonempty (c ∷ value) option h = refl

-- What is printed of a number of 64 bits is parsed as that number.
pub parse_size-to_string :
    (n : ℕ) (option : Bytes) → n < size_mod → parse_size (to_string n) option ≡ ok n
unfolding to_string
parse_size-to_string n option small =
    let fits : ltb n size_mod ≡ true = ground arith in
    parse_size-nonempty (digits 20 n) option (digits-nonempty 19 n)
    ∙ ap (checked_size option) (digits_value-digits 19 n (omega arith))
    ∙ rw fits refl
