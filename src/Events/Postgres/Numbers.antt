-- ===== src/Events/Postgres/Numbers.antt =====
-- The numbers of the last events sent, in events/postgresstorage.go.
use bitcoin_processing.Base.{◌≡◌}
use bitcoin_processing.Base.Int.{ℤ}
use bitcoin_processing.Monad.{ok, lift}
use bitcoin_processing.Monad.Inversion.{>>=-result, Result, Result-of}
use bitcoin_processing.Storage.Meta.{MetaLaws, get_meta, get_meta-set_meta}
use bitcoin_processing.Events.Postgres.{
  EventDriver, get_last_http_sent_seq, store_last_http_sent_seq,
}

module _ {Db : Type 0} (s : EventDriver Db) (laws : MetaLaws s.executor) where
  -- After StoreLastHTTPSentSeq succeeded, GetLastHTTPSentSeq returns the number that was stored,
  -- where it succeeds, for a number that the decimal notation gives back.
  pub get_last_http-store_last_http :
      (seq : ℤ) (d : Db)
      → s.atoi (s.itoa seq) ≡ ok seq
      → (store_last_http_sent_seq s seq d).0 ≡ ok tt
      → Result (λ n. n ≡ seq) (get_last_http_sent_seq s (store_last_http_sent_seq s seq d).1).0
  unfolding get_last_http_sent_seq store_last_http_sent_seq
  get_last_http-store_last_http seq d p h =
      let after = (store_last_http_sent_seq s seq d).1 in
      Result-of (λ n. n ≡ seq) (get_last_http_sent_seq s after).0
        λ n g.
          let (text, read, parsed) =
            >>=-result (get_meta s.executor "last_http_sent_seq" "0") (λ text. lift (s.atoi text))
              after g in
          let same =
            get_meta-set_meta s.executor laws "last_http_sent_seq" (s.itoa seq) "last_http_sent_seq"
              "0" d h read in
          cc
