-- ===== src/Settings/Tests.antt =====
-- Settings at a stand-in for viper: values of the configuration, and defaults.
use bitcoin_processing.Base.{
  ◌≡◌, refl, ℕ, String, true, Option, none, some, List, [], ◌∷◌, str_eq, if◌then◌else◌,
}
use bitcoin_processing.Base.Int.{ℤ, pos, to_uint64}
use bitcoin_processing.Monad
use bitcoin_processing.Monad.{Outcome, ok, err, panic}
use bitcoin_processing.Bitcoin.Formats.{Decimals, btc_amount_from_stringed_float}
use bitcoin_processing.Settings.{
  Value, Viper, LoadedSettings, init_config, get_btc_amount, wallet_settings, server_settings,
}

abbrev Values : Type 0
Values = List (String × String)

abbrev find : String → Values → Option String
find key [] = none
find key ((k, s) ∷ r) = if str_eq k key then some s else find key r

abbrev Config : Type 0
Config = Values × Values

abbrev written : Value → String
written (Value.text s) = s
written (Value.number n) = "number"
written (Value.flag b) = "flag"
written (Value.decimal s) = s
written (Value.btc n) = "0.00001"

abbrev either : Option String → Option String → String
either (some s) o = s
either none (some s) = s
either none none = ""

abbrev viper_with : Values → Viper Config
viper_with values = record {
  new_viper = ([], []);
  set_config_file = λ f c. c;
  add_config_path = λ p c. c;
  set_config_name = λ n c. c;
  read_in_config = λ c. ((values, c.1), ok tt);
  bind_pflag = λ key name c. c;
  set_default = λ key value c. (c.0, (key, written value) ∷ c.1);
  get_string = λ key c. either (find key c.0) (find key c.1);
  get_int = λ key c. pos 6;
  get_int64 = λ key c. pos 6;
  get_bool = λ key c. true;
  config_file_used = λ c. "config.yaml";
}

-- The decimals that the defaults are.
abbrev decimals : Decimals ℤ ℕ
decimals = record {
  new = λ a e. a;
  to_string = λ d. "";
  from_string = λ s.
      if str_eq s "0.000006"
      then ok (pos 600)
      else if str_eq s "0.00001"
      then ok (pos 1000)
      else if str_eq s "0.000005"
      then ok (pos 500)
      else if str_eq s "0.0"
      then ok (pos 0)
      else err (Monad.external "not a number");
  float64 = λ d. 0;
  from_float = λ x. pos x;
  mul = λ a b. a;
  int_part = λ d. d;
  unmarshal_string = λ s. ok s;
}

abbrev allowed : String → Outcome (Unit {0})
allowed s = ok tt

abbrev loaded : Values → LoadedSettings Config
unfolding init_config
loaded values =
    init_config (viper_with values) decimals allowed
      (record { cfg_file = ""; viper = (values, []) })

-- A default is set for "http.address", but the server listens on "api.http.address": without a
-- configured address it gets the empty text, not the default.
listen_address_has_no_default :
    server_settings (viper_with []) decimals allowed (loaded []) ≡ ("", true)
unfolding server_settings loaded
listen_address_has_no_default = refl

default_limits :
    wallet_settings (viper_with []) decimals allowed (loaded [])
    ≡ ok (record {
      min_withdraw = 600;
      min_fee_per_kb = 1000;
      min_fee_fixed = 500;
      min_withdraw_without_manual_confirmation = 0;
      max_confirmations = pos 6;
      hot_wallet_address_setting = "";
      cold_wallet_address_setting = "";
    })
unfolding wallet_settings get_btc_amount btc_amount_from_stringed_float to_uint64 loaded
default_limits = refl

abbrev unreadable : Values
unreadable = ("wallet.min_withdraw", "much") ∷ []

-- An amount that is no number ends the process.
unreadable_limit :
    get_btc_amount
      (viper_with unreadable)
      decimals
      allowed
      "wallet.min_withdraw"
      (loaded unreadable)
    ≡ panic (Monad.failed (Monad.external "not a number"))
unfolding get_btc_amount btc_amount_from_stringed_float loaded
unreadable_limit = refl
