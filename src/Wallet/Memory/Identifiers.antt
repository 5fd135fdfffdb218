-- ===== src/Wallet/Memory/Identifiers.antt =====
-- The identifiers of the transactions in wallet/memorystorage.go.
use bitcoin_processing.Base.{
  ◌≡◌, ◌≢◌, ◌⊎◌, inl, inr, refl, sym, ap, ◌∙◌, ℕ, suc, ◌==◌, str_eq_iff, true, false, Option, none,
  some, List, [], ◌∷◌, ◌++◌, All, All-append, Bool-cases, Option-cases, arith,
}
use bitcoin_processing.Types.Transaction
use bitcoin_processing.Types.Transaction.{Transaction}
use bitcoin_processing.Monad.{Outcome, ok, err, panic}
use bitcoin_processing.Monad.Inversion.{Result}
use bitcoin_processing.Wallet.Memory.{
  Heap, InMemoryWalletStorage, write, find_first, has_id, find_existing, find_by_hash, update_at,
  append, set_id, store_new, store_transaction,
}

-- The identifiers on a list of pointers differ from one, and from one another.
abbrev pub Avoids : Heap → ℕ → List ℕ → Type 0
Avoids heap id ps = All (λ p. (heap p).id ≢ id) ps

abbrev pub Distinct : Heap → List ℕ → Type 0
Distinct heap [] = Unit
Distinct heap (p ∷ ps) = Avoids heap (heap p).id ps × Distinct heap ps

-- The stored transactions have different identifiers, none of them the nil one.
pub record UniqueIds (s : InMemoryWalletStorage) : Type 0 where
  pub distinct : Distinct s.heap s.transactions
  pub not_nil : Avoids s.heap 0 s.transactions

-- The identifiers on a list that two heaps agree on.
abbrev pub SameIds : Heap → Heap → List ℕ → Type 0
SameIds heap heap' ps = All (λ p. (heap' p).id ≡ (heap p).id) ps

Avoids-SameIds :
    (heap heap' : Heap) (id : ℕ) (ps : List ℕ)
    → SameIds heap heap' ps
    → Avoids heap id ps
    → Avoids heap' id ps
Avoids-SameIds heap heap' id [] k h = tt
Avoids-SameIds heap heap' id (p ∷ ps) k h =
    ((λ e. h.0 (sym k.0 ∙ e)), Avoids-SameIds heap heap' id ps k.1 h.1)

pub Distinct-SameIds :
    (heap heap' : Heap) (ps : List ℕ) → SameIds heap heap' ps → Distinct heap ps → Distinct heap' ps
Distinct-SameIds heap heap' [] k h = tt
Distinct-SameIds heap heap' (p ∷ ps) k h = (
  rw k.0 (Avoids-SameIds heap heap' (heap p).id ps k.1 h.0),
  Distinct-SameIds heap heap' ps k.1 h.1,
)

-- A write that keeps the identifier, and one to a pointer whose identifier the list avoids.
write-SameIds :
    (heap : Heap) (q : ℕ) (t : Transaction) (ps : List ℕ)
    → t.id ≡ (heap q).id
    → SameIds heap (write q t heap) ps
write-SameIds heap q t [] h = tt
write-SameIds heap q t (p ∷ ps) h = (
  elim (Bool-cases (p == q)) [
    | inl e ↦ let same : p ≡ q = ground arith in rw e (h ∙ ap (λ r. (heap r).id) (sym same))
    | inr e ↦ rw e refl
  ],
  write-SameIds heap q t ps h,
)

write_apart-SameIds :
    (heap : Heap) (q : ℕ) (t : Transaction) (ps : List ℕ)
    → Avoids heap (heap q).id ps
    → SameIds heap (write q t heap) ps
write_apart-SameIds heap q t [] h = tt
write_apart-SameIds heap q t (p ∷ ps) h = (
  elim (Bool-cases (p == q)) [
    | inl e ↦ let same : p ≡ q = ground arith in absurd (h.0 (ap (λ r. (heap r).id) same))
    | inr e ↦ rw e refl
  ],
  write_apart-SameIds heap q t ps h.1,
)

Distinct-append :
    (heap : Heap) (ps : List ℕ) (q : ℕ)
    → Distinct heap ps
    → Avoids heap (heap q).id ps
    → Distinct heap (ps ++ q ∷ [])
Distinct-append heap [] q h a = (tt, tt)
Distinct-append heap (p ∷ ps) q h a = (
  All-append (λ r. (heap r).id ≢ (heap p).id) ps (q ∷ []) h.0 ((λ e. a.0 (sym e)), tt),
  Distinct-append heap ps q h.1 a.1,
)

-- Where the search by identifier fails, the list avoids the identifier.
pub not_found :
    (heap : Heap) (id : ℕ) (ps : List ℕ) → find_first (has_id id) heap ps ≡ none → Avoids heap id ps
not_found heap id [] h = tt
not_found heap id (p ∷ ps) h = elim (Bool-cases ((heap p).id == id)) [
  | inl e ↦ let got : some p ≡ none = rw e at h in absurd (cc)
  | inr e ↦ ((λ q. ground arith), not_found heap id ps (rw e at h))
]

update-id :
    (existing tx : Transaction) {u : Transaction}
    → Transaction.update existing tx ≡ some u
    → u.id ≡ existing.id
unfolding Transaction.update
update-id existing tx h =
    ground (arith, str_eq_iff existing.hash "", str_eq_iff existing.hash tx.hash)

written : (heap : Heap) (p : ℕ) (t : Transaction) → write p t heap p ≡ t
written heap p t = ground arith

append-UniqueIds :
    (p : ℕ) (s : InMemoryWalletStorage)
    → UniqueIds s
    → Avoids s.heap (s.heap p).id s.transactions
    → (s.heap p).id ≢ 0
    → UniqueIds (append p s).1
append-UniqueIds p s h a n = record {
  distinct = Distinct-append s.heap s.transactions p h.distinct a;
  not_nil = All-append (λ q. (s.heap q).id ≢ 0) s.transactions (p ∷ []) h.not_nil (n, tt);
}

module _ (new_v4 : ℕ → Outcome ℕ) where
  -- The identifier that the generator gives next is not the nil one and is not in use.
  abbrev pub Fresh : InMemoryWalletStorage → Type 0
  Fresh s = Result (λ i. (i ≢ 0) × Avoids s.heap i s.transactions) (new_v4 s.drawn)

  set_id-UniqueIds :
      (p : ℕ) (r : Outcome ℕ) (s : InMemoryWalletStorage)
      → UniqueIds s
      → Result (λ i. (i ≢ 0) × Avoids s.heap i s.transactions) r
      → (s.heap p).id ≡ 0
      → UniqueIds (set_id p r s).1
  set_id-UniqueIds p (err e) s h f z = h
  set_id-UniqueIds p (panic x) s h f z = h
  set_id-UniqueIds p (ok i) s h f z =
      let t : Transaction = record (s.heap p) { id = i } in
      let heap' = write p t s.heap in
      let same = write_apart-SameIds s.heap p t s.transactions (rw z h.not_nil) in
      let here : (heap' p).id ≡ i = ap (λ x. x.id) (written s.heap p t) in
      let (not_nil, unused) = f in
      append-UniqueIds p (record s { heap = heap'; drawn = suc s.drawn })
        (record {
          distinct = Distinct-SameIds s.heap heap' s.transactions same h.distinct;
          not_nil = Avoids-SameIds s.heap heap' 0 s.transactions same h.not_nil;
        })
        (rw here (Avoids-SameIds s.heap heap' i s.transactions same unused)) (rw here not_nil)

  update_at-UniqueIds :
      (q : ℕ) (tx : Transaction) (o : Option Transaction) (s : InMemoryWalletStorage)
      → UniqueIds s
      → Transaction.update (s.heap q) tx ≡ o
      → UniqueIds (update_at q o s).1
  update_at-UniqueIds q tx none s h e = h
  update_at-UniqueIds q tx (some t) s h e =
      let same = write-SameIds s.heap q t s.transactions (update-id (s.heap q) tx e) in
      record {
        distinct = Distinct-SameIds s.heap (write q t s.heap) s.transactions same h.distinct;
        not_nil = Avoids-SameIds s.heap (write q t s.heap) 0 s.transactions same h.not_nil;
      }

  by_id_none :
      (tx : Transaction) (s : InMemoryWalletStorage) (o : Option ℕ)
      → find_by_hash tx s o ≡ none
      → o ≡ none
  by_id_none tx s none h = refl
  by_id_none tx s (some q) h = cc

  -- Where nothing is found, the transaction has the nil identifier or one that is not in use.
  new_id :
      (tx : Transaction) (s : InMemoryWalletStorage)
      → find_existing tx s ≡ none
      → (tx.id ≡ 0) ⊎ ((tx.id ≢ 0) × Avoids s.heap tx.id s.transactions)
  new_id tx s h = elim (Bool-cases (tx.id == 0)) [
    | inl e ↦ inl (ground arith)
    | inr e ↦ inr (
      (λ q. ground arith),
      not_found s.heap tx.id s.transactions
          (by_id_none tx s (find_first (has_id tx.id) s.heap s.transactions) (rw e at h)),
    )
  ]

  store_new-UniqueIds :
      (p : ℕ) (s : InMemoryWalletStorage)
      → UniqueIds s
      → Fresh s
      → ((s.heap p).id ≡ 0) ⊎ (((s.heap p).id ≢ 0) × Avoids s.heap (s.heap p).id s.transactions)
      → UniqueIds (store_new new_v4 p s).1
  store_new-UniqueIds p s h f (inl z) =
      let nil : (s.heap p).id == 0 ≡ true = ground arith in
      rw nil (set_id-UniqueIds p (new_v4 s.drawn) s h f z)
  store_new-UniqueIds p s h f (inr (n, a)) =
      let nil : (s.heap p).id == 0 ≡ false = ground arith in rw nil (append-UniqueIds p s h a n)

  -- StoreTransaction keeps the identifiers of the stored transactions different from one another
  -- and from the nil one, however it ends, where the generator gives an identifier that is not in
  -- use.
  pub store_transaction-UniqueIds :
      (p : ℕ) (s : InMemoryWalletStorage)
      → UniqueIds s
      → Fresh s
      → UniqueIds (store_transaction new_v4 p s).1
  unfolding store_transaction
  store_transaction-UniqueIds p s h f = elim (Option-cases (find_existing (s.heap p) s)) [
    | inl e ↦ rw e (store_new-UniqueIds p s h f (new_id (s.heap p) s e))
    | inr (q, e) ↦
        rw e (update_at-UniqueIds q (s.heap p) (Transaction.update (s.heap q) (s.heap p)) s h refl)
  ]
