-- ===== src/Commands/Sent.antt =====
-- What the commands of cmd/bitcoin-processing-client send.
use bitcoin_processing.Base.{
  String, str_eq, str_eq_iff, Bool, Bool-cases, List, [], ◌∷◌, ◌≡◌, ◌≢◌, ◌⊎◌, inl, inr, ap,
}
use bitcoin_processing.Types.Json.{Json}
use bitcoin_processing.Monad
use bitcoin_processing.Monad.{Error, Fault, Outcome, ok, err, panic, M, lift, skip, ◌>>=◌, ◌>>◌}
use bitcoin_processing.Bitcoin.Formats.{btc_amount_from_stringed_float}
use bitcoin_processing.Wallet.Withdraw.{WithdrawRequest}
use bitcoin_processing.Api.Client.{ClientLibraries, mute_events_for_tx_id}
use bitcoin_processing.Commands.{
  Terminal, WithdrawFlags, or_fatal, address_amount_fee, id_or_nil, send_withdrawal,
  cancel_or_confirm, check_muted, cancel_or_confirm_command, mute_command,
}

-- A step that only reads: its result, or an end of the command before anything changes.
data Read {S A : Type 0} (P : A → Type 0) (s : S) : Outcome A × S → Type 0 where
  read : (a : A) → P a → Read P s (ok a, s)
  failed : (e : Error) → Read P s (err e, s)
  ended : (x : Fault) → Read P s (panic x, s)

module _ {S A B : Type 0} (s : S) where
  unread :
      (r : Outcome A) (f : A → M S B) {e : Error}
      → r ≡ err e
      → (or_fatal (lift r) >>= f) s ≡ (panic (Monad.failed e), s)
  unread (ok a) f h = cc
  unread (err x) f h = cc
  unread (panic x) f h = cc

  then_stopped :
      (o : Outcome A × S) (f : A → M S B) {x : Fault}
      → o ≡ (panic x, s)
      → ((λ (s' : S). o) >>= f) s ≡ (panic x, s)
  then_stopped o f h = ap (λ p. ((λ (s' : S). p) >>= f) s) h

  stopped_first :
      (m : M S A) (f : A → M S B) {x : Fault} → m s ≡ (panic x, s) → (m >>= f) s ≡ (panic x, s)
  stopped_first m f h = then_stopped (m s) f h

module _ {S U D F : Type 0} (l : ClientLibraries S U) (t : Terminal S D F) (api_url : String) where
  -- What the request of a withdraw command says of its arguments and flags.
  pub record Requested (cold : Bool) (flags : WithdrawFlags) (args : List String)
      (request : WithdrawRequest) : Type 0 where
    pub texts : String × String × String
    pub arguments : address_amount_fee cold args ≡ ok texts
    pub address_given : request.address ≡ texts.0
    pub amount_read : btc_amount_from_stringed_float t.decimals texts.1 ≡ ok request.amount
    pub fee_read : btc_amount_from_stringed_float t.decimals texts.2 ≡ ok request.fee
    pub id_read : request.id ≡ id_or_nil (t.parse_id flags.withdraw_id)
    pub fee_type_given : request.fee_type ≡ flags.withdraw_fee_type
    pub metainfo_read :
        ((flags.withdraw_metainfo ≡ "") × (request.metainfo ≡ Json.null))
        ⊎ ((flags.withdraw_metainfo ≢ "")
            × (t.unmarshal_json flags.withdraw_metainfo ≡ ok request.metainfo))

  -- What a withdraw command does: nothing but to end, or what sending a request does.
  pub data Sent (cold : Bool) (flags : WithdrawFlags) (args : List String) (s : S)
      : Outcome (Unit {0}) × S → Type 0 where
    refused : (e : Error) → Sent cold flags args s (err e, s)
    aborted : (x : Fault) → Sent cold flags args s (panic x, s)
    sent :
        (request : WithdrawRequest)
        → Requested cold flags args request
        → Sent cold flags args s (send_withdrawal l t api_url cold request s)

  not_muted :
      (arg : String) (e : Error) (s : S)
      → t.parse_id arg ≡ err e
      → arg ≢ "current_problematic"
      → check_muted l t api_url arg s ≡ (panic (Monad.failed e), s)
  not_muted arg e s h other = elim (Bool-cases (str_eq arg "current_problematic")) [
    | inl same ↦ absurd (other ((str_eq_iff arg "current_problematic").0 same))
    | inr differ ↦ rw differ (unread s (t.parse_id arg) (λ id. skip) h)
  ]

  -- A command on a transaction with a text that is no identifier ends with the error of reading it
  -- and changes nothing; for muting events, unless the text names the event that is being retried.
  pub commands_check_ids :
      (command arg : String) (e : Error) (s : S)
      → t.parse_id arg ≡ err e
      → (cancel_or_confirm_command l t api_url command (arg ∷ []) s ≡ (panic (Monad.failed e), s))
        × (arg ≢ "current_problematic"
            → mute_command l t api_url (arg ∷ []) s ≡ (panic (Monad.failed e), s))
  unfolding cancel_or_confirm_command mute_command
  commands_check_ids command arg e s h = (
    unread s (t.parse_id arg)
        (λ id. or_fatal (cancel_or_confirm l t api_url command id) >> t.log "OK") h,
    λ other.
        stopped_first s
          (check_muted l t api_url arg >> or_fatal (mute_events_for_tx_id l api_url arg))
          (λ u. t.log "OK")
          (stopped_first s (check_muted l t api_url arg)
            (λ u. or_fatal (mute_events_for_tx_id l api_url arg)) (not_muted arg e s h other)),
  )
