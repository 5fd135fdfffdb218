-- ===== src/Bitcoin/Formats.antt =====
-- bitcoin/formats.go: amounts of satoshi as texts and numbers of BTC. The decimal library and
-- encoding/json are parameters.
use Prim.Native.String.{◌++◌ as and_text}
use bitcoin_processing.Base.{◌≡◌, ap, ◌∙◌, ℕ, ◌<◌, ◌^◌, String, arith}
use bitcoin_processing.Base.Int.{ℤ, pos, negsuc, to_int64, to_uint64}
use bitcoin_processing.Monad
use bitcoin_processing.Monad.{Outcome, ok, err, panic}

-- `decimal.New(value, exp)`, and the methods of Decimal that are called. `unmarshal_string` is
-- json.Unmarshal into a string.
pub record Decimals (D F : Type 0) : Type 0 where
  pub new : ℤ → ℤ → D
  pub to_string : D → String
  pub from_string : String → Outcome D
  pub float64 : D → F
  pub from_float : F → D
  pub mul : D → D → D
  pub int_part : D → ℤ
  pub unmarshal_string : String → Outcome String

abbrev pub amount_or_panic : Outcome ℕ → Outcome ℕ
amount_or_panic (ok a) = ok a
amount_or_panic (err e) = panic (Monad.failed e)
amount_or_panic (panic p) = panic p

module _ {D F : Type 0} (l : Decimals D F) where
  abbrev pub satoshi_in_btc_decimal : D
  satoshi_in_btc_decimal = l.new (pos 1) (pos 8)

  unfoldable pub to_stringed_float : ℕ → String
  to_stringed_float amount = l.to_string (l.new (to_int64 amount) (negsuc 7))

  unfoldable pub float64 : ℕ → F
  float64 amount = l.float64 (l.new (to_int64 amount) (negsuc 7))

  abbrev pub to_btc : ℕ → F
  to_btc amount = float64 amount

  abbrev pub amount_string : ℕ → String
  amount_string amount = to_stringed_float amount

  abbrev pub marshal_json : ℕ → String
  marshal_json amount = and_text "\"" (and_text (to_stringed_float amount) "\"")

  -- `BTCAmount(d.Mul(satoshiInBTCDecimal).IntPart())`
  abbrev pub amount_of : D → ℕ
  amount_of d = to_uint64 (l.int_part (l.mul d satoshi_in_btc_decimal))

  unfoldable pub btc_amount_from_float : F → ℕ
  btc_amount_from_float x = amount_of (l.from_float x)

  abbrev pub amount_or_error : Outcome D → Outcome ℕ
  amount_or_error (ok d) = ok (amount_of d)
  amount_or_error (err e) = err e
  amount_or_error (panic p) = panic p

  unfoldable pub btc_amount_from_stringed_float : String → Outcome ℕ
  btc_amount_from_stringed_float text = amount_or_error (l.from_string text)

  abbrev pub amount_of_text : Outcome String → Outcome ℕ
  amount_of_text (ok text) = btc_amount_from_stringed_float text
  amount_of_text (err e) = err e
  amount_of_text (panic p) = panic p

  unfoldable pub unmarshal_json : String → Outcome ℕ
  unmarshal_json bytes = amount_of_text (l.unmarshal_string bytes)

-- What the libraries document: a decimal is printed in full, so that its text is read as a number
-- of the same value; `value * 10^8` is the value again for a number of 8 decimals; and a text
-- without special characters is read back from between its quotes.
pub record DecimalLaws {D F : Type 0} (l : Decimals D F) : Type 1 where
  pub same_value : D → D → Type 0
  pub printed : (d : D) → (d' : D) × (l.from_string (l.to_string d) ≡ ok d') × same_value d d'
  pub shifted :
      (a : ℤ) (d : D)
      → same_value (l.new a (negsuc 7)) d
      → l.int_part (l.mul d (l.new (pos 1) (pos 8))) ≡ a
  pub quoted :
      (d : D)
      → l.unmarshal_string (and_text "\"" (and_text (l.to_string d) "\"")) ≡ ok (l.to_string d)

uint64-of-int64 : (a : ℕ) → a < 2 ^ 64 → to_uint64 (to_int64 a) ≡ a
unfolding to_uint64 to_int64
uint64-of-int64 a h = ground arith

module _ {D F : Type 0} (l : Decimals D F) (laws : DecimalLaws l) where
  read_text :
      (amount : ℕ)
      → amount < 2 ^ 64
      → btc_amount_from_stringed_float l (to_stringed_float l amount) ≡ ok amount
  unfolding btc_amount_from_stringed_float to_stringed_float
  read_text amount h =
      let (d, read, same) = laws.printed (l.new (to_int64 amount) (negsuc 7)) in
      rw (read, laws.shifted (to_int64 amount) d same) (ap ok (uint64-of-int64 amount h))

  -- Every amount that a uint64 holds, also one beyond the positive int64 numbers, is read back
  -- from its JSON, and from its text in BTC.
  pub unmarshal_json-marshal_json :
      (amount : ℕ)
      → amount < 2 ^ 64
      → (unmarshal_json l (marshal_json l amount) ≡ ok amount)
        × (btc_amount_from_stringed_float l (to_stringed_float l amount) ≡ ok amount)
  unfolding unmarshal_json to_stringed_float
  unmarshal_json-marshal_json amount h = (
    ap (λ r. amount_of_text l r) (laws.quoted (l.new (to_int64 amount) (negsuc 7)))
        ∙ read_text amount h,
    read_text amount h,
  )
