-- ===== src/Settings.antt =====
-- settings/config.go, settings/settings.go, settings/cli.go, and what the parts of the program read
-- from their settings. The libraries viper and cobra, url.ParseRequestURI and the decimal library
-- are parameters. An error that ends the process (log.Fatalf, os.Exit) is a panic.
mod Tests
use bitcoin_processing.Base.{ℕ, String, str_eq, Bool, true, false, List, [], ◌∷◌, if◌then◌else◌}
use bitcoin_processing.Base.Int.{ℤ, pos}
use bitcoin_processing.Monad
use bitcoin_processing.Monad.{Error, Outcome, ok, err, panic}
use bitcoin_processing.Bitcoin.Formats.{Decimals, btc_amount_from_stringed_float}
use bitcoin_processing.Bitcoin.NodeApi.Transport.{NodeSettings}
use bitcoin_processing.Wallet.Interfaces.{Settings}

-- The value of a default: `decimal` is a number as it is written, `btc` a number of satoshi as BTC.
pub data Value : Type 0 where
  text : String → Value
  number : ℕ → Value
  flag : Bool → Value
  decimal : String → Value
  btc : ℕ → Value

-- A pointer to viper.Viper is its state; `bind_pflag key name` binds the flag of this name.
pub record Viper (V : Type 0) : Type 0 where
  pub new_viper : V
  pub set_config_file : String → V → V
  pub add_config_path : String → V → V
  pub set_config_name : String → V → V
  pub read_in_config : V → V × Outcome (Unit {0})
  pub bind_pflag : String → String → V → V
  pub set_default : String → Value → V → V
  pub get_string : String → V → String
  pub get_int : String → V → ℤ
  pub get_int64 : String → V → ℤ
  pub get_bool : String → V → Bool
  pub config_file_used : V → String

-- The type `settings`.
pub record LoadedSettings (V : Type 0) : Type 0 where
  pub cfg_file : String
  pub viper : V

abbrev pub flag_bindings : List (String × String)
flag_bindings =
    ("transaction.callback.url", "transaction-callback-url")
    ∷ ("api.http.address", "http-address")
    ∷ ("storage.type", "storage-type")
    ∷ []

abbrev pub defaults : List (String × Value)
defaults =
    ("http.address", text "127.0.0.1:8000")
    ∷ ("bitcoin.node.tls", flag false)
    ∷ ("bitcoin.poll_interval", number 3000)
    ∷ ("transaction.max_confirmations", number 6)
    ∷ ("wallet.min_withdraw", decimal "0.000006")
    ∷ ("wallet.min_fee.per_kb", btc 1000)
    ∷ ("wallet.min_fee.fixed", decimal "0.000005")
    ∷ ("wallet.min_withdraw_without_manual_confirmation", decimal "0.0")
    ∷ ("transaction.callback.backoff", number 100)
    ∷ ("wallet.allow_withdrawal_without_id", flag true)
    ∷ []

abbrev pub fatal_unless : {A : Type 0} → Outcome A → Outcome A
fatal_unless (err e) = panic (Monad.failed e)
fatal_unless r = r

module _ {V D F : Type 0} (v : Viper V) (l : Decimals D F)
    (parse_request_uri : String → Outcome (Unit {0})) where
  abbrev pub bind_all : List (String × String) → V → V
  bind_all [] viper = viper
  bind_all ((key, name) ∷ bindings) viper = bind_all bindings (v.bind_pflag key name viper)

  abbrev pub set_defaults : List (String × Value) → V → V
  set_defaults [] viper = viper
  set_defaults ((key, value) ∷ values) viper = set_defaults values (v.set_default key value viper)

  unfoldable pub init_config : LoadedSettings V → LoadedSettings V
  init_config s = record s { viper = set_defaults defaults (bind_all flag_bindings s.viper) }

  -- Where the configuration is looked for.
  abbrev pub with_config_file : String → V → V
  with_config_file cfg_file viper =
      if str_eq cfg_file ""
      then v.set_config_name "config"
          (v.add_config_path "." (v.add_config_path "/etc/bitcoin-processing" viper))
      else v.set_config_file cfg_file viper

  -- Behind an error the settings come back as they are, without flags and defaults.
  abbrev pub configured : String → V × Outcome (Unit {0}) → LoadedSettings V × Outcome (Unit {0})
  configured cfg_file (viper, ok u) =
      (init_config (record { cfg_file = cfg_file; viper = viper }), ok u)
  configured cfg_file (viper, err e) = (record { cfg_file = cfg_file; viper = viper }, err e)
  configured cfg_file (viper, panic p) = (record { cfg_file = cfg_file; viper = viper }, panic p)

  unfoldable pub new_settings : String → LoadedSettings V × Outcome (Unit {0})
  unfolding init_config
  new_settings cfg_file =
      configured cfg_file (v.read_in_config (with_config_file cfg_file v.new_viper))

  abbrev pub get_string : String → LoadedSettings V → String
  get_string key s = v.get_string key s.viper

  abbrev pub get_int : String → LoadedSettings V → ℤ
  get_int key s = v.get_int key s.viper

  abbrev pub get_int64 : String → LoadedSettings V → ℤ
  get_int64 key s = v.get_int64 key s.viper

  abbrev pub get_bool : String → LoadedSettings V → Bool
  get_bool key s = v.get_bool key s.viper

  abbrev pub value_if : String → Outcome (Unit {0}) → Outcome String
  value_if value (ok u) = ok value
  value_if value (err e) = panic (Monad.failed e)
  value_if value (panic p) = panic p

  unfoldable pub get_url : String → LoadedSettings V → Outcome String
  get_url key s = value_if (get_string key s) (parse_request_uri (get_string key s))

  unfoldable pub get_string_mandatory : String → LoadedSettings V → Outcome String
  get_string_mandatory key s =
      if str_eq (get_string key s) ""
      then panic (Monad.failed (Monad.external "setting is required"))
      else ok (get_string key s)

  unfoldable pub get_btc_amount : String → LoadedSettings V → Outcome ℕ
  unfolding btc_amount_from_stringed_float
  get_btc_amount key s = fatal_unless (btc_amount_from_stringed_float l (get_string key s))

  abbrev pub config_file_used : LoadedSettings V → String
  config_file_used s = v.config_file_used s.viper

  -- What NewNodeAPI reads.
  unfoldable pub node_settings : LoadedSettings V → NodeSettings
  unfolding get_string_mandatory
  node_settings s = record {
    address = get_string_mandatory "bitcoin.node.address" s;
    user = get_string_mandatory "bitcoin.node.user" s;
    password = get_string_mandatory "bitcoin.node.password" s;
    tls = get_bool "bitcoin.node.tls" s;
  }

  infixl 5 ◌>>=◌
  abbrev ◌>>=◌ : {A B : Type 0} → Outcome A → (A → Outcome B) → Outcome B
  ok a >>= f = f a
  err e >>= f = err e
  panic p >>= f = panic p

  -- What NewWallet reads, and the addresses that initHotWallet and initColdWallet read.
  unfoldable pub wallet_settings : LoadedSettings V → Outcome Settings
  unfolding get_btc_amount
  wallet_settings s = do
    threshold ← get_btc_amount "wallet.min_withdraw_without_manual_confirmation" s
    least ← get_btc_amount "wallet.min_withdraw" s
    per_kb ← get_btc_amount "wallet.min_fee.per_kb" s
    fixed_fee ← get_btc_amount "wallet.min_fee.fixed" s
    ok (record {
      min_withdraw = least;
      min_fee_per_kb = per_kb;
      min_fee_fixed = fixed_fee;
      min_withdraw_without_manual_confirmation = threshold;
      max_confirmations = get_int "transaction.max_confirmations" s;
      hot_wallet_address_setting = get_string "wallet.hot_wallet_address" s;
      cold_wallet_address_setting = get_string "wallet.cold_wallet_address" s;
    })

  -- What NewEventBroker reads: the URL of the callback, and how often an event may be tried.
  unfoldable pub broker_settings : LoadedSettings V → Outcome (String × ℤ)
  unfolding get_url
  broker_settings s = do
    callback_url ← get_url "transaction.callback.url" s
    ok (callback_url, get_int "transaction.callback.backoff" s)

  -- What `main` passes to NewServer.
  unfoldable pub server_settings : LoadedSettings V → String × Bool
  server_settings s =
      (get_string "api.http.address" s, get_bool "wallet.allow_withdrawal_without_id" s)

  abbrev pub or_exit : {A : Type 0} → Outcome A → Outcome A
  or_exit (err e) = panic (Monad.failed e)
  or_exit r = r

  abbrev run_with :
      {A : Type 0}
      → (LoadedSettings V → Outcome A)
      → LoadedSettings V × Outcome (Unit {0})
      → Outcome A
  run_with func_to_run (s, read) = fatal_unless read >>= λ u. func_to_run s

  -- `execute run` is `cli.Execute()`: it reads the arguments, and calls `run` with the path that
  -- they name; an error of its own comes back as an error.
  unfoldable pub read_settings_and_run :
      {A : Type 0} → ((String → Outcome A) → Outcome A) → (LoadedSettings V → Outcome A) → Outcome A
  unfolding new_settings
  read_settings_and_run execute func_to_run =
      or_exit (execute (λ cfg_file. run_with func_to_run (new_settings cfg_file)))
