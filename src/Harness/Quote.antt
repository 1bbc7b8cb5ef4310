-- ===== src/Harness/Quote.antt =====
-- `quote` of include/benchmark_config.h, and a reader of JSON strings that it is checked against.
use spheres_benchmark.Prelude.{
  length, ℕ, zero, suc, ◌+◌, ◌-◌, ◌*◌, ◌/◌, ◌%◌, ◌<◌, ◌≡◌, refl, ap, ◌∙◌, inl, inr, Bool, true,
  false, Option, none, some, List, [], ◌∷◌, ◌++◌, arith, ltb, ◌==◌, if◌then◌else◌, Option-cases,
  ◌>>=◌, >>=-of_some, get_or,
}
use mathlib.Core.Path.{subst}
use mathlib.Core.List.{append_assoc}
use spheres_benchmark.Harness.Bytes.{Bytes, text}

unfoldable pub hex_digit : ℕ → ℕ
hex_digit d = get_or (text "0123456789abcdef") d 0

-- The `switch` for one character.
unfoldable pub quote_char : ℕ → Bytes
unfolding hex_digit
quote_char c =
    if c == b'"'
    then text "\\\""
    else if c == b'\\'
    then text "\\\\"
    else if c == 8
    then text "\\b"
    else if c == 12
    then text "\\f"
    else if c == 10
    then text "\\n"
    else if c == 13
    then text "\\r"
    else if c == 9
    then text "\\t"
    else if ltb c 32
    then text "\\u00" ++ hex_digit (c / 16) ∷ hex_digit (c % 16) ∷ []
    else c ∷ []

unfoldable pub quote_chars : Bytes → Bytes
unfolding quote_char
quote_chars [] = []
quote_chars (c ∷ value) = quote_char c ++ quote_chars value

unfoldable pub quote : Bytes → Bytes
unfolding quote_chars
quote value = b'"' ∷ quote_chars value ++ b'"' ∷ []

-- `write_json`: what it writes to its file. The fields come with their values quoted where they are texts.
unfoldable pub json_fields : List (Bytes × Bytes) → Bytes
json_fields [] = []
json_fields (f ∷ fields) =
    text "  \""
    ++ f.0
    ++ text "\": "
    ++ f.1
    ++ (if length fields == 0 then 10 ∷ [] else b',' ∷ 10 ∷ [])
    ++ json_fields fields

unfoldable pub write_json : List (Bytes × Bytes) → Bytes
unfolding json_fields
write_json fields = b'{' ∷ 10 ∷ json_fields fields ++ b'}' ∷ 10 ∷ []

-- A reader of JSON strings, by the grammar of JSON: between characters, behind a backslash, with some
-- hexadecimal digits to come, and behind the closing quote.
pub data Mode : Type 0 where
  before plain escaped after : Mode
  hex : ℕ → ℕ → Mode

abbrev pub hex_value : ℕ → Option ℕ
hex_value c =
    if ltb c 48
    then none
    else if ltb c 58
    then some (c - 48)
    else if ltb c 97
    then none
    else if ltb c 103
    then some (c - 87)
    else none

abbrev pub read_escaped : ℕ → Option (Mode × Bytes)
read_escaped c =
    if c == b'"'
    then some (plain, b'"' ∷ [])
    else if c == b'\\'
    then some (plain, b'\\' ∷ [])
    else if c == b'b'
    then some (plain, 8 ∷ [])
    else if c == b'f'
    then some (plain, 12 ∷ [])
    else if c == b'n'
    then some (plain, 10 ∷ [])
    else if c == b'r'
    then some (plain, 13 ∷ [])
    else if c == b't'
    then some (plain, 9 ∷ [])
    else if c == b'u'
    then some (hex 3 0, [])
    else none

abbrev pub read_char : Mode → ℕ → Option (Mode × Bytes)
read_char before c = if c == b'"' then some (plain, []) else none
read_char plain c =
    if c == b'"'
    then some (after, [])
    else if c == b'\\'
    then some (escaped, [])
    else if ltb c 32
    then none
    else some (plain, c ∷ [])
read_char escaped c = read_escaped c
read_char (hex zero value) c = hex_value c >>= λ d. some (plain, (value * 16 + d) ∷ [])
read_char (hex (suc left) value) c = hex_value c >>= λ d. some (hex left (value * 16 + d), [])
read_char after c = none

abbrev pub read_json : Mode → Bytes → Option Bytes
read_json before [] = none
read_json plain [] = none
read_json escaped [] = none
read_json (hex left value) [] = none
read_json after [] = some []
read_json mode (c ∷ cs) = do
  (next, out) ← read_char mode c
  rest ← read_json next cs
  some (out ++ rest)

hex_digit_lem : (d : ℕ) → d < 16 → hex_value (hex_digit d) ≡ some d
unfolding hex_digit
hex_digit_lem zero h = refl
hex_digit_lem (suc zero) h = refl
hex_digit_lem (suc (suc zero)) h = refl
hex_digit_lem (suc (suc (suc zero))) h = refl
hex_digit_lem (suc (suc (suc (suc zero)))) h = refl
hex_digit_lem (suc (suc (suc (suc (suc zero))))) h = refl
hex_digit_lem (suc (suc (suc (suc (suc (suc zero)))))) h = refl
hex_digit_lem (suc (suc (suc (suc (suc (suc (suc zero))))))) h = refl
hex_digit_lem (suc (suc (suc (suc (suc (suc (suc (suc zero)))))))) h = refl
hex_digit_lem (suc (suc (suc (suc (suc (suc (suc (suc (suc zero))))))))) h = refl
hex_digit_lem (suc (suc (suc (suc (suc (suc (suc (suc (suc (suc zero)))))))))) h = refl
hex_digit_lem (suc (suc (suc (suc (suc (suc (suc (suc (suc (suc (suc zero))))))))))) h = refl
hex_digit_lem (suc (suc (suc (suc (suc (suc (suc (suc (suc (suc (suc (suc zero)))))))))))) h = refl
hex_digit_lem (suc (suc (suc (suc (suc (suc (suc (suc (suc (suc (suc (suc (suc zero))))))))))))) h =
    refl
hex_digit_lem
      (suc (suc (suc (suc (suc (suc (suc (suc (suc (suc (suc (suc (suc (suc zero)))))))))))))) h =
    refl
hex_digit_lem
      (suc (suc (suc (suc (suc (suc (suc (suc (suc (suc (suc (suc (suc (suc (suc zero)))))))))))))))
      h =
    refl
hex_digit_lem
      (suc
        (suc (suc (suc (suc (suc (suc (suc (suc (suc (suc (suc (suc (suc (suc (suc d))))))))))))))))
      h =
    absurd (omega arith)

-- Reading on behind what stands for `c`.
abbrev ReadsAs : Bytes → ℕ → Bytes → Type 0
ReadsAs rest c quoted =
    read_json plain (quoted ++ rest) ≡ (read_json plain rest >>= λ r. some (c ∷ r))

module _ (rest : Bytes) where
  fixed_chars :
      ReadsAs rest b'"' (text "\\\"")
      × ReadsAs rest b'\\' (text "\\\\")
      × ReadsAs rest 8 (text "\\b")
      × ReadsAs rest 12 (text "\\f")
      × ReadsAs rest 10 (text "\\n")
      × ReadsAs rest 13 (text "\\r")
      × ReadsAs rest 9 (text "\\t")
  fixed_chars = elim (Option-cases (read_json plain rest)) [
    | inl e ↦ rw e (refl, refl, refl, refl, refl, refl, refl)
    | inr (a, e) ↦ rw e (refl, refl, refl, refl, refl, refl, refl)
  ]

  control_char :
      (c : ℕ)
      → c < 32
      → ReadsAs rest c (text "\\u00" ++ hex_digit (c / 16) ∷ hex_digit (c % 16) ∷ [])
  control_char c small =
      let high = hex_digit_lem (c / 16) (omega arith) in
      let low = hex_digit_lem (c % 16) (omega arith) in
      let value : (0 + c / 16) * 16 + c % 16 ≡ c = omega arith in
      elim (Option-cases (read_json plain rest)) [
        | inl e ↦ rw (high, low, e) refl
        | inr (a, e) ↦ rw (high, low, e) (ap (λ (d : ℕ). some (d ∷ a)) value)
      ]

  plain_char :
      (c : ℕ) → c == b'"' ≡ false → c == b'\\' ≡ false → ltb c 32 ≡ false → ReadsAs rest c (c ∷ [])
  plain_char c e e' e'' = rw (e, e', e'') refl

branch {ℓ} :
    (P : Bytes → Type ℓ) (b : Bool) {x y : Bytes}
    → (b ≡ true → P x)
    → (b ≡ false → P y)
    → P (if b then x else y)
branch P true f g = f refl
branch P false f g = g refl

-- What `quote_char` makes of any character reads as that character.
read_quoted : (rest : Bytes) (c : ℕ) → ReadsAs rest c (quote_char c)
unfolding quote_char
read_quoted rest c =
    let f = fixed_chars rest in
    if_not b'"' _ _ f.0 λ n. if_not b'\\' _ _ f.1 λ m. if_not 8 _ _ f.2 λ _. if_not 12 _ _ f.3 λ _.
      if_not 10 _ _ f.4 λ _. if_not 13 _ _ f.5 λ _. if_not 9 _ _ f.6 λ _.
        branch (ReadsAs rest c) (ltb c 32) (λ e. control_char rest c (ground arith))
          (λ e. plain_char rest c n m e)
  where
    if_not :
        (k : ℕ) (x y : Bytes)
        → ReadsAs rest k x
        → (c == k ≡ false → ReadsAs rest c y)
        → ReadsAs rest c (if c == k then x else y)
    if_not k x y h g =
        branch (ReadsAs rest c) (c == k) (λ e. subst (λ (d : ℕ). ReadsAs rest d x) (ground arith) h)
          g

read_quoted_chars : (value : Bytes) → read_json plain (quote_chars value ++ b'"' ∷ []) ≡ some value
unfolding quote_chars
read_quoted_chars [] = refl
read_quoted_chars (c ∷ value) =
    rw append_assoc (
      read_quoted (quote_chars value ++ b'"' ∷ []) c ∙ >>=-of_some _ (read_quoted_chars value) refl)

-- A reader of JSON strings gets the value back from its quoted form, whatever bytes it has: quotes,
-- backslashes and control characters included.
pub read_json-quote : (value : Bytes) → read_json before (quote value) ≡ some value
unfolding quote
read_json-quote value = >>=-of_some _ (read_quoted_chars value) refl
