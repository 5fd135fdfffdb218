-- ===== src/Storage/Tests.antt =====
-- A database of one number, and transactions on it.
use bitcoin_processing.Base.{ℕ, suc, ◌≡◌, ◌⊎◌, ◌↔◌, refl, true}
use bitcoin_processing.Monad.{ok, err, no_rows, M}
use bitcoin_processing.Storage.{Sql, make_transact_if_available}
use bitcoin_processing.Storage.Outcomes.{make_transact_if_available_atomic}

abbrev counter : Sql ℕ
counter = record {
  available = true;
  begin = λ s. (ok tt, s);
  commit = λ s. (ok tt, s);
  roll_back = λ before now. before;
}

abbrev count_and_fail : M ℕ (Unit {0})
count_and_fail s = (err no_rows, suc s)

make_transact_if_available_atomic_example :
    ((make_transact_if_available counter count_and_fail 3).1 ≡ 3)
    ⊎ ((a : Unit {0}) × (err no_rows ≡ ok a)
        × ((make_transact_if_available counter count_and_fail 3).1 ≡ 4)
        × ((ok tt ≡ ok tt) ↔ ((make_transact_if_available counter count_and_fail 3).0 ≡ ok a)))
make_transact_if_available_atomic_example =
    make_transact_if_available_atomic counter count_and_fail 3 refl (λ before now. refl) refl
