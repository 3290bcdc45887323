-- ===== src/Shared/OrderCode.antt =====
-- src/shared/utils/format-order-code.ts, and the number that a search reads back from such a code
-- (`numericLike` and `parseInt` in
-- src/modules/orders/infrastructure/persistence/prisma-orders.repository.ts).
use campusgig_backend.Prelude.{
  ℕ, suc, zero, ◌+◌, ◌-◌, ◌*◌, ◌/◌, ◌%◌, ◌<◌, ◌≤◌, ltb, leb, ◌&&◌, ◌≡◌, if◌then◌else◌, [], ◌∷◌,
  ◌++◌, length, drop, text, arith, refl, sym, ◌∙◌, Bool, true, false, Bool-cases, inl, inr, ap,
}
use campusgig_backend.Db.Types.{Text}

-- `String(n)`: the decimal digits of `n` before `rest`. A number has at most as many digits as the
-- fuel `n + 1`.
unfoldable pub digits_before : ℕ → ℕ → Text → Text
digits_before zero n rest = rest
digits_before (suc fuel) n rest =
    let more = digits_before fuel (n / 10) ((48 + n % 10) ∷ rest) in
    if ltb n 10 then (48 + n) ∷ rest else more

unfoldable pub decimal : ℕ → Text
unfolding digits_before
decimal n = digits_before (suc n) n []

abbrev pub zeros : ℕ → Text
zeros zero = []
zeros (suc n) = 48 ∷ zeros n

-- `padStart(4, '0')`
unfoldable pub pad_start : ℕ → Text → Text
pad_start width s = zeros (width - length s) ++ s

unfoldable pub format_order_code : ℕ → Text
unfolding decimal pad_start
format_order_code n = text "CG-" ++ pad_start 4 (decimal n)

-- `parseInt(s, 10)` on digits, from the value `n` of those before
unfoldable pub parse_from : ℕ → Text → ℕ
parse_from n [] = n
parse_from n (c ∷ cs) = parse_from (10 * n + (c - 48)) cs

abbrev pub all_digits : Text → Bool
all_digits [] = true
all_digits (c ∷ cs) = leb 48 c && leb c 57 && all_digits cs

-- `numericLike`: one to nine digits
unfoldable pub numeric_like : Text → Bool
numeric_like s = leb 1 (length s) && leb (length s) 9 && all_digits s

parse_from-digits :
    (fuel n : ℕ) (rest : Text)
    → n < fuel
    → parse_from 0 (digits_before fuel n rest) ≡ parse_from n rest
unfolding digits_before parse_from
parse_from-digits zero n rest h = absurd (omega (arith, h))
parse_from-digits (suc fuel) n rest h = elim (Bool-cases (ltb n 10)) [
  | inl e ↦
      let value : 10 * 0 + (48 + n - 48) ≡ n = omega arith in
      rw e (ap (λ k. parse_from k rest) value)
  | inr e ↦
      let smaller : n / 10 < fuel = ground (arith, e, h) in
      let value : 10 * (n / 10) + (48 + n % 10 - 48) ≡ n = omega arith in
      rw e (parse_from-digits fuel (n / 10) ((48 + n % 10) ∷ rest) smaller ∙ rw value)
]

parse_from-zeros : (k : ℕ) (s : Text) → parse_from 0 (zeros k ++ s) ≡ parse_from 0 s
unfolding parse_from
parse_from-zeros zero s = refl
parse_from-zeros (suc k) s =
    let value : 10 * 0 + (48 - 48) ≡ 0 = omega arith in rw value (parse_from-zeros k s)

-- The digits of an order's code, read as a number, are the order's number, however long they are.
pub parse_from-format_order_code : (n : ℕ) → parse_from 0 (drop 3 (format_order_code n)) ≡ n
unfolding format_order_code pad_start decimal parse_from
parse_from-format_order_code n =
    let start : n < suc n = omega arith in
    parse_from-zeros (4 - length (decimal n)) (decimal n) ∙ parse_from-digits (suc n) n [] start

-- Two orders with one code have one number.
pub format_order_code-injective : (m n : ℕ) → format_order_code m ≡ format_order_code n → m ≡ n
format_order_code-injective m n h =
    sym (parse_from-format_order_code m)
    ∙ ap (λ c. parse_from 0 (drop 3 c)) h
    ∙ parse_from-format_order_code n

pow10 : ℕ → ℕ
pow10 zero = 1
pow10 (suc k) = 10 * pow10 k

-- A number below the k-th power of ten has at most k digits.
digits_before-length :
    (fuel n k : ℕ) (rest : Text)
    → n < fuel
    → n < pow10 (suc k)
    → length (digits_before fuel n rest) ≤ suc k + length rest
unfolding digits_before pow10
digits_before-length zero n k rest h b = absurd (omega (arith, h))
digits_before-length (suc fuel) n zero rest h b =
    let small : ltb n 10 ≡ true = ground (arith, b) in rw small (omega arith)
digits_before-length (suc fuel) n (suc k) rest h b = elim (Bool-cases (ltb n 10)) [
  | inl e ↦ rw e (omega arith)
  | inr e ↦
      let smaller : n / 10 < fuel = ground (arith, e, h) in
      let below : n / 10 < pow10 (suc k) = omega (arith, b) in
      let more = digits_before-length fuel (n / 10) k ((48 + n % 10) ∷ rest) smaller below in
      rw e (omega (arith, more))
]

digits_before-all_digits :
    (fuel n : ℕ) (rest : Text)
    → all_digits rest ≡ true
    → all_digits (digits_before fuel n rest) ≡ true
unfolding digits_before
digits_before-all_digits zero n rest h = h
digits_before-all_digits (suc fuel) n rest h = elim (Bool-cases (ltb n 10)) [
  | inl e ↦ rw e (ground (arith, e, h))
  | inr e ↦
      let digit : all_digits ((48 + n % 10) ∷ rest) ≡ true = ground (arith, h) in
      rw e (digits_before-all_digits fuel (n / 10) ((48 + n % 10) ∷ rest) digit)
]

digits_before-longer :
    (fuel n : ℕ) (rest : Text) → suc (length rest) ≤ length (digits_before (suc fuel) n rest)
unfolding digits_before
digits_before-longer zero n rest = elim (Bool-cases (ltb n 10)) [
  | inl e ↦ rw e (omega arith)
  | inr e ↦ rw e (omega arith)
]
digits_before-longer (suc fuel) n rest = elim (Bool-cases (ltb n 10)) [
  | inl e ↦ rw e (omega arith)
  | inr e ↦
      let more = digits_before-longer fuel (n / 10) ((48 + n % 10) ∷ rest) in
      rw e (omega (arith, more))
]

zeros_lem :
    (k : ℕ) (s : Text)
    → (length (zeros k ++ s) ≡ k + length s) × (all_digits (zeros k ++ s) ≡ all_digits s)
zeros_lem zero s = (omega arith, refl)
zeros_lem (suc k) s = let (a, b) = zeros_lem k s in (omega (arith, a), b)

pad_start-numeric_like :
    (s : Text)
    → 1 ≤ length s
    → length s ≤ 9
    → all_digits s ≡ true
    → numeric_like (pad_start 4 s) ≡ true
unfolding numeric_like pad_start
pad_start-numeric_like s some_digit few h =
    let (a, b) = zeros_lem (4 - length s) s in rw (a, b, h) (ground (arith, some_digit, few))

-- A text that starts with the letter C is not a number.
not_numeric : (s : Text) → numeric_like (67 ∷ s) ≡ false
unfolding numeric_like
not_numeric s = ground arith

-- For an order below a thousand million, the search by number recognises what follows `CG-` in the
-- order's code, and reads the order's number from it; it does not recognise the whole code.
pub format_order_code-found :
    (n : ℕ)
    → n < 1000000000
    → (numeric_like (drop 3 (format_order_code n)) ≡ true)
      × (parse_from 0 (drop 3 (format_order_code n)) ≡ n)
      × (numeric_like (format_order_code n) ≡ false)
unfolding format_order_code decimal pow10
format_order_code-found n h =
    let start : n < suc n = omega arith in
    (
      pad_start-numeric_like (decimal n) (digits_before-longer n n [])
          (let few = digits_before-length (suc n) n 8 [] start h in omega (arith, few))
          (digits_before-all_digits (suc n) n [] refl),
      parse_from-format_order_code n,
      not_numeric _,
    )
