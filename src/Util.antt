-- ===== src/Util.antt =====
-- util/minmax.go and util/abs.go.
use bitcoin_processing.Base.{if◌then◌else◌}
use bitcoin_processing.Base.Int.{ℤ, pos, ltb_ℤ, sub64}

-- `Min`, on sequence numbers.
abbrev pub min_int : ℤ → ℤ → ℤ
min_int a b = if ltb_ℤ a b then a else b

abbrev pub min64 : ℤ → ℤ → ℤ
min64 a b = if ltb_ℤ a b then a else b

unfoldable pub abs64 : ℤ → ℤ
unfolding sub64
abs64 x = if ltb_ℤ x (pos 0) then sub64 (pos 0) x else x
