-- ===== src/Wallet/Postgres/Values.antt =====
-- The values that wallet/postgresstorage.go keeps in the table `metadata`: the money required from
-- cold storage and the hot wallet address.
use bitcoin_processing.Base.{
  ◌≡◌, ◌≢◌, refl, sym, ◌∙◌, ℕ, String, str_eq, str_eq_iff, Bool-cases, inl, inr,
}
use bitcoin_processing.Monad
use bitcoin_processing.Monad.{Outcome, ok, err, panic, M, lift, ◌>>=◌}
use bitcoin_processing.Monad.Inversion.{>>=-result, Result, Result-of}
use bitcoin_processing.Storage.Meta.{MetaLaws, value_or, get_meta, set_meta, get_meta-set_meta}
use bitcoin_processing.Wallet.Interfaces.{Backend}
use bitcoin_processing.Wallet.Pending.Money.{MoneyLaws}
use bitcoin_processing.Wallet.Postgres.{Driver}
use bitcoin_processing.Wallet.Postgres.Methods.{
  generated, get_hot_wallet_address, set_hot_wallet_address, get_money_required_from_cold_storage,
  set_money_required_from_cold_storage, postgres_storage,
}

generated_address :
    (address : String) {a : String} → generated address ≡ ok a → (address ≡ a) × (a ≢ "")
generated_address address {a = a} h = elim (Bool-cases (str_eq address "")) [
  | inl e ↦ let no_error : err Monad.hot_wallet_not_generated ≡ ok a = rw e at h in cc
  | inr e ↦
      let got : ok address ≡ ok a = rw e at h in
      let same : address ≡ a = cc in
      (same, λ q. let empty = (str_eq_iff address "").1 (same ∙ q) in cc)
]

abbrev number_or_zero : Outcome ℕ → ℕ
number_or_zero (ok n) = n
number_or_zero (err e) = 0
number_or_zero (panic p) = 0

module _ {Db : Type 0} (s : Driver Db) (laws : MetaLaws s.executor) where
  -- After SetMoneyRequiredFromColdStorage succeeded, GetMoneyRequiredFromColdStorage returns the
  -- amount that was set, where it succeeds, for an amount that the decimal notation gives back.
  pub get_money-set_money :
      (amount : ℕ) (d : Db)
      → s.parse_uint (s.format_uint amount) ≡ ok amount
      → (set_money_required_from_cold_storage s amount d).0 ≡ ok tt
      → Result
          (λ n. n ≡ amount)
          (get_money_required_from_cold_storage s
            (set_money_required_from_cold_storage s amount d).1).0
  unfolding get_money_required_from_cold_storage set_money_required_from_cold_storage
  get_money-set_money amount d p h =
      let after = (set_money_required_from_cold_storage s amount d).1 in
      Result-of (λ n. n ≡ amount) (get_money_required_from_cold_storage s after).0
        λ n g.
          let (text, read, parsed) =
            >>=-result (get_meta s.executor "money_required_from_cold_storage" "0")
              (λ text. lift (s.parse_uint text)) after g in
          let same =
            get_meta-set_meta s.executor laws "money_required_from_cold_storage"
              (s.format_uint amount) "money_required_from_cold_storage" "0" d h read in
          cc

  -- After setHotWalletAddress succeeded, GetHotWalletAddress returns, where it succeeds, the
  -- address that was set, and that is not the empty text.
  pub get_hot-set_hot :
      (address : String) (d : Db)
      → (set_hot_wallet_address s address d).0 ≡ ok tt
      → Result
          (λ a. (a ≡ address) × (a ≢ ""))
          (get_hot_wallet_address s (set_hot_wallet_address s address d).1).0
  unfolding get_hot_wallet_address set_hot_wallet_address
  get_hot-set_hot address d h =
      let after = (set_hot_wallet_address s address d).1 in
      Result-of (λ a. (a ≡ address) × (a ≢ "")) (get_hot_wallet_address s after).0
        λ a g.
          let (text, read, g') =
            >>=-result (get_meta s.executor "hot_wallet_address" "") (λ text. lift (generated text))
              after g in
          let same =
            get_meta-set_meta s.executor laws "hot_wallet_address" address "hot_wallet_address" "" d
              h read in
          let (t, u) = generated_address text g' in (sym t ∙ same, u)

module _ {Db Node : Type 0} (s : Driver Db) (laws : MetaLaws s.executor) (b : Backend Db Node) where
  abbrev pub on_postgres : Backend Db Node
  on_postgres = record b { storage = postgres_storage s }

  number_set :
      (n : ℕ) (d : Db)
      → s.parse_uint (s.format_uint n) ≡ ok n
      → (set_money_required_from_cold_storage s n d).0 ≡ ok tt
      → number_or_zero (
          s.parse_uint (
            value_or "0" (
              laws.metadata
                (set_money_required_from_cold_storage s n d).1
                "money_required_from_cold_storage")))
        ≡ n
  unfolding set_money_required_from_cold_storage set_meta
  number_set n d p h =
      rw
        (
          laws.upsert_ok "money_required_from_cold_storage" (s.format_uint n) d h
              "money_required_from_cold_storage",
          p,
        )
        refl

  -- The laws that the wallet relies on for the money required, for this storage: its number is
  -- the one in the metadata, which a commit leaves alone.
  pub postgres-MoneyLaws :
      ((n : ℕ) → s.parse_uint (s.format_uint n) ≡ ok n)
      → ((d : Db) → laws.metadata (b.sql.commit d).1 ≡ laws.metadata d)
      → MoneyLaws on_postgres
  unfolding postgres_storage
  postgres-MoneyLaws p c = record {
    money = λ d.
        number_or_zero
          (s.parse_uint (value_or "0" (laws.metadata d "money_required_from_cold_storage")));
    set_money_ok = λ n d h. number_set n d (p n) h;
    commit_money = λ d. rw (c d) refl;
  }
