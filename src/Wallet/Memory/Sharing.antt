-- ===== src/Wallet/Memory/Sharing.antt =====
-- The objects that StoreTransaction of wallet/memorystorage.go returns, and later lookups of them.
use mathlib.Core.List.{Memᴰ}
use bitcoin_processing.Base.{
  ◌≡◌, ◌≢◌, inl, inr, refl, sym, ap, ℕ, ◌==◌, str_eq, Bool, true, false, Option, none, some, List,
  [], ◌∷◌, ◌++◌, Bool-cases, arith,
}
use bitcoin_processing.Types.Transaction
use bitcoin_processing.Types.Transaction.{Transaction}
use bitcoin_processing.Monad.{Outcome, ok, err, panic}
use bitcoin_processing.Wallet.Memory.{
  Heap, InMemoryWalletStorage, find_first, has_id, same_hash_direction_address, find_by_hash,
  find_existing, update_at, append, set_id, store_at, store_transaction, get_transaction_by_id,
}
use bitcoin_processing.Wallet.Memory.Identifiers.{
  Avoids, Distinct, SameIds, UniqueIds, Fresh, Distinct-SameIds, store_transaction-UniqueIds,
}

found_in :
    (test : Transaction → Bool) (heap : Heap) (ps : List ℕ) {q : ℕ}
    → find_first test heap ps ≡ some q
    → Memᴰ q ps
found_in test heap [] h = cc
found_in test heap (p ∷ ps) {q = q} h = elim (Bool-cases (test (heap p))) [
  | inl e ↦ let got : some p ≡ some q = rw e at h in let same : q ≡ p = cc in Memᴰ.head same
  | inr e ↦ Memᴰ.tail (found_in test heap ps (rw e at h))
]

last_in : (ps : List ℕ) (p : ℕ) {q : ℕ} → p ≡ q → Memᴰ q (ps ++ p ∷ [])
last_in [] p e = Memᴰ.head (sym e)
last_in (r ∷ ps) p e = Memᴰ.tail (last_in ps p e)

avoided :
    (heap : Heap) (id : ℕ) (ps : List ℕ) (q : ℕ) → Avoids heap id ps → Memᴰ q ps → (heap q).id ≢ id
avoided heap id [] q h m = elim m [ ]
avoided heap id (p ∷ ps) q h (Memᴰ.head e) = rw e h.0
avoided heap id (p ∷ ps) q h (Memᴰ.tail m) = avoided heap id ps q h.1 m

-- With different identifiers, the search for one finds its only owner.
find_owner :
    (heap : Heap) (ps : List ℕ) (q : ℕ)
    → Distinct heap ps
    → Memᴰ q ps
    → find_first (has_id (heap q).id) heap ps ≡ some q
find_owner heap [] q h m = elim m [ ]
find_owner heap (p ∷ ps) q h (Memᴰ.head e) =
    let same : (heap p).id ≡ (heap q).id = ap (λ r. (heap r).id) (sym e) in
    let own : (heap p).id == (heap q).id ≡ true = ground arith in rw own (ap some (sym e))
find_owner heap (p ∷ ps) q h (Memᴰ.tail m) =
    let n = avoided heap (heap p).id ps q h.0 m in
    let other : (heap p).id == (heap q).id ≡ false = ground arith in
    rw other (find_owner heap ps q h.1 m)

abbrev Listed : InMemoryWalletStorage → Option ℕ → Type 0
Listed s none = Unit
Listed s (some q) = Memᴰ q s.transactions

found_by_id :
    (tx : Transaction) (s : InMemoryWalletStorage) (o : Option ℕ)
    → find_first (has_id tx.id) s.heap s.transactions ≡ o
    → Listed s o
found_by_id tx s none h = tt
found_by_id tx s (some q) h = found_in (has_id tx.id) s.heap s.transactions h

found_by_hash :
    (tx : Transaction) (s : InMemoryWalletStorage) (o : Option ℕ)
    → find_first (same_hash_direction_address tx) s.heap s.transactions ≡ o
    → Listed s o
found_by_hash tx s none h = tt
found_by_hash tx s (some q) h = found_in (same_hash_direction_address tx) s.heap s.transactions h

find_by_hash-Listed :
    (tx : Transaction) (s : InMemoryWalletStorage) (o : Option ℕ)
    → Listed s o
    → Listed s (find_by_hash tx s o)
find_by_hash-Listed tx s (some q) h = h
find_by_hash-Listed tx s none h = elim (Bool-cases (str_eq tx.hash "")) [
  | inl e ↦ rw e tt
  | inr e ↦
      rw e (
        found_by_hash tx s (find_first (same_hash_direction_address tx) s.heap s.transactions) refl)
]

find_existing-Listed :
    (tx : Transaction) (s : InMemoryWalletStorage) → Listed s (find_existing tx s)
find_existing-Listed tx s = elim (Bool-cases (tx.id == 0)) [
  | inl e ↦ rw e (find_by_hash-Listed tx s none tt)
  | inr e ↦
      let first = find_first (has_id tx.id) s.heap s.transactions in
      rw e (find_by_hash-Listed tx s first (found_by_id tx s first refl))
]

update_at_in :
    (q : ℕ) (o : Option Transaction) (s : InMemoryWalletStorage) {r : ℕ}
    → Memᴰ q s.transactions
    → (update_at q o s).0 ≡ ok r
    → Memᴰ r (update_at q o s).1.transactions
update_at_in q none s m h = cc
update_at_in q (some t) s {r = r} m h = let same : q ≡ r = cc in rw same at m

append_in :
    (p : ℕ) (s : InMemoryWalletStorage) {r : ℕ}
    → (append p s).0 ≡ ok r
    → Memᴰ r (append p s).1.transactions
append_in p s {r = r} h = last_in s.transactions p cc

set_id_in :
    (p : ℕ) (o : Outcome ℕ) (s : InMemoryWalletStorage) {r : ℕ}
    → (set_id p o s).0 ≡ ok r
    → Memᴰ r (set_id p o s).1.transactions
set_id_in p (ok i) s {r = r} h = last_in s.transactions p cc
set_id_in p (err e) s h = cc
set_id_in p (panic x) s h = cc

module _ (new_v4 : ℕ → Outcome ℕ) where
  store_at_in :
      (p : ℕ) (o : Option ℕ) (s : InMemoryWalletStorage) {r : ℕ}
      → Listed s o
      → (store_at new_v4 p o s).0 ≡ ok r
      → Memᴰ r (store_at new_v4 p o s).1.transactions
  store_at_in p (some q) s m h = update_at_in q (Transaction.update (s.heap q) (s.heap p)) s m h
  store_at_in p none s m h = elim (Bool-cases ((s.heap p).id == 0)) [
    | inl e ↦ rw e (set_id_in p (new_v4 s.drawn) s (rw e at h))
    | inr e ↦ rw e (append_in p s (rw e at h))
  ]

  -- A transaction that is stored is in the list.
  stored_in :
      (p : ℕ) (s : InMemoryWalletStorage) {q : ℕ}
      → (store_transaction new_v4 p s).0 ≡ ok q
      → Memᴰ q (store_transaction new_v4 p s).1.transactions
  unfolding store_transaction
  stored_in p s h =
      store_at_in p (find_existing (s.heap p) s) s (find_existing-Listed (s.heap p) s) h

  -- After StoreTransaction succeeded, GetTransactionByID for the identifier of the object that it
  -- returned gives that very object, also after the objects were changed through their pointers,
  -- as long as the identifiers stayed; so such a change needs no call of the storage to be seen.
  -- The identifiers are different before, and the generator gives one that is not in use.
  pub get_transaction_by_id-store_transaction_shared :
      (p q : ℕ) (s : InMemoryWalletStorage) (heap : Heap)
      → UniqueIds s
      → Fresh new_v4 s
      → (store_transaction new_v4 p s).0 ≡ ok q
      → SameIds
          (store_transaction new_v4 p s).1.heap
          heap
          (store_transaction new_v4 p s).1.transactions
      → get_transaction_by_id (heap q).id (record (store_transaction new_v4 p s).1 { heap = heap })
        ≡ (ok q, record (store_transaction new_v4 p s).1 { heap = heap })
  unfolding get_transaction_by_id
  get_transaction_by_id-store_transaction_shared p q s heap h f e k =
      let after = (store_transaction new_v4 p s).1 in
      let distinct =
        Distinct-SameIds after.heap heap after.transactions k
          (store_transaction-UniqueIds new_v4 p s h f).distinct in
      rw (find_owner heap after.transactions q distinct (stored_in p s e)) refl
