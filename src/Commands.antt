-- ===== src/Commands.antt =====
-- cmd/bitcoin-processing-client: what the commands of the client do with their arguments and flags.
-- cobra, which counts the arguments and reads the flags, uuid.FromString, encoding/json and the
-- terminal are parameters. log.Fatal, which ends the process, is a panic.
pub mod Sent
mod Tests
pub mod Runner
use Prim.Native.String.{◌++◌ as and_text}
use text.Mathlib.Text.{starts_with}
use bitcoin_processing.Base.{
  ℕ, String, str_eq, Bool, true, false, not, Option, none, some, List, [], ◌∷◌, if◌then◌else◌,
}
use bitcoin_processing.Base.Int.{ℤ}
use bitcoin_processing.Types.Json
use bitcoin_processing.Types.Json.{Json}
use bitcoin_processing.Types.Status.{transaction_status_from_string}
use bitcoin_processing.Types.Direction.{transaction_direction_from_string}
use bitcoin_processing.Types.Transaction.{Transaction}
use bitcoin_processing.Events.Types.{Account, NotificationWithSeq}
use bitcoin_processing.Monad
use bitcoin_processing.Monad.{
  Error, Outcome, ok, err, panic, M, throw, lift, catch, skip, ◌>>=◌, ◌>>◌,
}
use bitcoin_processing.Bitcoin.Formats.{Decimals, btc_amount_from_stringed_float}
use bitcoin_processing.Wallet.Withdraw.{WithdrawRequest}
use bitcoin_processing.Api.{GetTransactionsFilter}
use bitcoin_processing.Api.Client.{
  ClientLibraries, cancel, confirm, get_events, get_transactions, mute_events_for_tx_id, new_wallet,
  get_hot_storage_address, get_balance, get_required_from_cold_storage, withdraw,
  withdraw_to_cold_storage,
}
use bitcoin_processing.Settings.{Viper, LoadedSettings, new_settings, get_string}

-- What `showResponse` is given.
pub data Shown : Type 0 where
  an_account : Account → Shown
  a_withdrawal : WithdrawRequest → Shown
  an_address : String → Shown
  some_transactions : List Transaction → Shown
  a_balance : ℕ × ℕ → Shown
  an_amount : ℕ → Shown
  some_events : List NotificationWithSeq → Shown

-- `print` writes to the terminal, `log` to the log; `parse_id` is uuid.FromString.
pub record Terminal (S D F : Type 0) : Type 0 where
  pub decimals : Decimals D F
  pub parse_id : String → Outcome ℕ
  pub unmarshal_json : String → Outcome Json
  pub marshal_indent : Shown → Outcome String
  pub print : String → M S (Unit {0})
  pub log : String → M S (Unit {0})

-- The flags of the two commands that withdraw.
pub record WithdrawFlags : Type 0 where
  pub withdraw_id : String
  pub withdraw_fee_type : String
  pub withdraw_metainfo : String

module _ {S A : Type 0} where
  abbrev pub fatal : Error → M S A
  fatal e = throw (Monad.failed e)

  abbrev pub or_fatal : M S A → M S A
  or_fatal m = catch m fatal

-- The address of the API: of the setting, with the scheme where it has none.
unfoldable pub api_url_of : String → String
api_url_of address = if starts_with address "http" then address else and_text "http://" address

module _ {V D F : Type 0} (v : Viper V) (l : Decimals D F)
    (parse_uri : String → Outcome (Unit {0})) where
  -- The initialiser of `main`: a configuration that cannot be read is left as it is.
  abbrev pub server_settings : LoadedSettings V
  server_settings =
      let (s, _) = new_settings v l parse_uri "" in
      record s { viper = v.bind_pflag "api.http.address" "api-url" s.viper }

  abbrev pub api_url : String
  unfolding api_url_of
  api_url = api_url_of (get_string v l parse_uri "api.http.address" server_settings)

abbrev pub address_amount_fee : Bool → List String → Outcome (String × String × String)
address_amount_fee cold (a ∷ b ∷ c ∷ []) = ok (a, b, c)
address_amount_fee true (a ∷ b ∷ _) = ok ("", a, b)
address_amount_fee true _ = panic Monad.index_out_of_range
address_amount_fee false _ = panic Monad.too_few_arguments

abbrev pub first_arg : List String → Outcome String
first_arg [] = panic Monad.index_out_of_range
first_arg (a ∷ _) = ok a

abbrev pub id_or_nil : Outcome ℕ → ℕ
id_or_nil (ok id) = id
id_or_nil _ = 0

module _ {S U D F : Type 0} (l : ClientLibraries S U) (t : Terminal S D F) (api_url : String) where
  abbrev pub pretty_print : Shown → M S (Unit {0})
  pretty_print x = lift (t.marshal_indent x) >>= λ pretty. t.print pretty

  unfoldable pub show_response : {A : Type 0} → (A → Shown) → M S A → M S (Unit {0})
  show_response shown response = or_fatal response >>= λ a. or_fatal (pretty_print (shown a))

  -- A flag with JSON: `none` is nil.
  abbrev pub metainfo_of : String → M S (Option Json)
  metainfo_of json =
      if str_eq json ""
      then lift (ok none)
      else or_fatal (lift (t.unmarshal_json json)) >>= λ metainfo. lift (ok (some metainfo))

  abbrev pub or_null : Option Json → Json
  or_null none = Json.null
  or_null (some json) = json

  abbrev pub parse_amount : String → M S ℕ
  parse_amount text = or_fatal (lift (btc_amount_from_stringed_float t.decimals text))

  abbrev pub request_of : WithdrawFlags → String → ℕ → ℕ → Option Json → WithdrawRequest
  request_of flags address amount fee metainfo = record {
    id = id_or_nil (t.parse_id flags.withdraw_id);
    address = address;
    amount = amount;
    fee = fee;
    fee_type = flags.withdraw_fee_type;
    metainfo = or_null metainfo;
  }

  abbrev pub with_fee : WithdrawFlags → String → ℕ → ℕ → M S WithdrawRequest
  with_fee flags address amount fee = metainfo_of flags.withdraw_metainfo >>= λ metainfo.
      lift (ok (request_of flags address amount fee metainfo))

  abbrev pub with_amount : WithdrawFlags → String → String → ℕ → M S WithdrawRequest
  with_amount flags address fee_text amount =
      parse_amount fee_text >>= with_fee flags address amount

  abbrev pub with_texts : WithdrawFlags → String × String × String → M S WithdrawRequest
  with_texts flags texts = parse_amount texts.1 >>= with_amount flags texts.0 texts.2

  unfoldable pub withdraw_request : Bool → WithdrawFlags → List String → M S WithdrawRequest
  withdraw_request to_cold_storage flags args =
      lift (address_amount_fee to_cold_storage args) >>= with_texts flags

  abbrev pub send_withdrawal : Bool → WithdrawRequest → M S (Unit {0})
  unfolding show_response
  send_withdrawal to_cold_storage request =
      if to_cold_storage
      then show_response a_withdrawal (withdraw_to_cold_storage l api_url request)
      else show_response a_withdrawal (withdraw l api_url request)

  -- `makeWithdrawCommmandRunner`
  unfoldable pub withdraw_command : Bool → WithdrawFlags → List String → M S (Unit {0})
  unfolding withdraw_request
  withdraw_command to_cold_storage flags args =
      withdraw_request to_cold_storage flags args >>= send_withdrawal to_cold_storage

  abbrev pub cancel_or_confirm : String → ℕ → M S (Unit {0})
  cancel_or_confirm command id =
      if str_eq command "confirm"
      then confirm l api_url id
      else if str_eq command "cancel_pending"
      then cancel l api_url id
      else throw Monad.unknown_command

  -- `makeCancelOrConfirmCmd`
  unfoldable pub cancel_or_confirm_command : String → List String → M S (Unit {0})
  cancel_or_confirm_command command args = lift (first_arg args) >>= λ arg.
      or_fatal (lift (t.parse_id arg)) >>= λ id.
      or_fatal (cancel_or_confirm command id) >> t.log "OK"

  abbrev pub check_muted : String → M S (Unit {0})
  check_muted arg =
      if str_eq arg "current_problematic"
      then skip
      else or_fatal (lift (t.parse_id arg)) >>= λ id. skip

  unfoldable pub mute_command : List String → M S (Unit {0})
  mute_command args = lift (first_arg args) >>= λ arg.
      check_muted arg >> or_fatal (mute_events_for_tx_id l api_url arg) >> t.log "OK"

  unfoldable pub new_wallet_command : String → M S (Unit {0})
  unfolding show_response
  new_wallet_command metainfo_text = metainfo_of metainfo_text >>= λ metainfo.
      show_response an_account (new_wallet l api_url metainfo)

  unfoldable pub get_events_command : ℤ → M S (Unit {0})
  unfolding show_response
  get_events_command start_seq = show_response some_events (get_events l api_url start_seq)

  unfoldable pub wallet_info_command : String → M S (Unit {0})
  unfolding show_response
  wallet_info_command command =
      if str_eq command "get_hot_storage_address"
      then show_response an_address (get_hot_storage_address l api_url)
      else if str_eq command "get_balance"
      then show_response a_balance (get_balance l api_url)
      else if str_eq command "get_required_from_cold_storage"
      then show_response an_amount (get_required_from_cold_storage l api_url)
      else throw Monad.unknown_command

  abbrev pub known : Option String → Outcome (Unit {0})
  known none = ok tt
  known (some message) = err (Monad.external message)

  -- `PreRunE`: a filter that is given has a name that is known.
  abbrev pub check_filter : GetTransactionsFilter → M S (Unit {0})
  check_filter f =
      (if str_eq f.direction ""
        then skip
        else lift (known ((transaction_direction_from_string f.direction).1)))
      >> (if str_eq f.status ""
          then skip
          else lift (known ((transaction_status_from_string f.status).1)))

  unfoldable pub get_transactions_command : GetTransactionsFilter → M S (Unit {0})
  unfolding show_response transaction_status_from_string transaction_direction_from_string
  get_transactions_command filter =
      check_filter filter >> show_response some_transactions (get_transactions l api_url filter)
