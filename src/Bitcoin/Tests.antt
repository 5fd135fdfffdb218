-- ===== src/Bitcoin/Tests.antt =====
-- The theorems on fee types and amounts at concrete texts.
use Prim.Native.String.{◌++◌ as and_text, count}
use text.Mathlib.TextLemmas.{length-append}
use bitcoin_processing.Base.{◌≡◌, ◌∙◌, ap, sym, refl, ℕ, zero, suc, ◌-◌, String, arith}
use bitcoin_processing.Base.Int.{ℤ, pos, negsuc}
use bitcoin_processing.Monad.{ok}
use bitcoin_processing.Bitcoin.Formats.{
  Decimals, DecimalLaws, unmarshal_json, marshal_json, btc_amount_from_stringed_float,
  to_stringed_float, unmarshal_json-marshal_json,
}

-- Decimals as integers, printed in unary.
abbrev zigzag_pos : ℕ → ℕ
zigzag_pos zero = 0
zigzag_pos (suc n) = suc (suc (zigzag_pos n))

abbrev zigzag : ℤ → ℕ
zigzag (pos n) = zigzag_pos n
zigzag (negsuc n) = suc (zigzag_pos n)

abbrev away : ℤ → ℤ
away (pos n) = pos (suc n)
away (negsuc n) = negsuc (suc n)

abbrev integer : ℕ → ℤ
integer zero = pos 0
integer (suc zero) = negsuc 0
integer (suc (suc n)) = away (integer n)

integer_pos : (n : ℕ) → integer (zigzag_pos n) ≡ pos n
integer_pos zero = refl
integer_pos (suc n) = ap away (integer_pos n)

integer_neg : (n : ℕ) → integer (suc (zigzag_pos n)) ≡ negsuc n
integer_neg zero = refl
integer_neg (suc n) = ap away (integer_neg n)

integer-zigzag : (a : ℤ) → integer (zigzag a) ≡ a
integer-zigzag (pos n) = integer_pos n
integer-zigzag (negsuc n) = integer_neg n

abbrev unary : ℕ → String
unary zero = ""
unary (suc n) = and_text "x" (unary n)

count-unary : (n : ℕ) → count (unary n) ≡ n
count-unary zero = refl
count-unary (suc n) = omega (arith, count-unary n, length-append "x" (unary n))

abbrev decimals : Decimals ℤ ℤ
decimals = record {
  new = λ v e. v;
  to_string = λ d. unary (zigzag d);
  from_string = λ s. ok (integer (count s));
  float64 = λ d. d;
  from_float = λ x. x;
  mul = λ a b. a;
  int_part = λ d. d;
  unmarshal_string = λ s. ok (unary (count s - 2));
}

unquoted : (n : ℕ) → unary (count (and_text "\"" (and_text (unary n) "\"")) - 2) ≡ unary n
unquoted n =
    let outer = length-append "\"" (and_text (unary n) "\"") in
    let inner = length-append (unary n) "\"" in
    let same : count (and_text "\"" (and_text (unary n) "\"")) - 2 ≡ n =
      omega (arith, outer, inner, count-unary n) in
    ap unary same

decimal_laws : DecimalLaws decimals
decimal_laws = record {
  same_value = λ a b. a ≡ b;
  printed = λ d. (d, ap ok (ap integer (count-unary (zigzag d)) ∙ integer-zigzag d), refl);
  shifted = λ a d e. sym e;
  quoted = λ d. ap ok (unquoted (zigzag d));
}

unmarshal_json-marshal_json_example :
    (unmarshal_json decimals (marshal_json decimals 50) ≡ ok 50)
    × (btc_amount_from_stringed_float decimals (to_stringed_float decimals 50) ≡ ok 50)
unmarshal_json-marshal_json_example =
    unmarshal_json-marshal_json decimals decimal_laws 50 (omega arith)
