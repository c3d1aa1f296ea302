-- ===== src/Addon/Range.antt =====
-- `min` and `max` of ipaversionlib/util.go, and the index range of `handleBuyRequest`.
use ipaversion.Base.{ℕ, not, ◌||◌, if◌then◌else◌}
use ipaversion.Base.Int.{ℤ, pos, ◌+ℤ◌, ltb_ℤ, eqb_ℤ}

unfoldable pub min : ℤ → ℤ → ℤ
min x y = if ltb_ℤ x y then x else y

unfoldable pub max : ℤ → ℤ → ℤ
max x y = if ltb_ℤ y x then x else y

-- A negative index counts from the last. An `int` cannot overflow here, since `n` is a length.
unfoldable pub from_last : ℕ → ℤ → ℤ
unfolding ◌+ℤ◌
from_last n x = if ltb_ℤ x (pos 0) then pos n +ℤ x else x

check_range : ℕ → ℤ → ℤ → ℤ × ℤ
check_range n start end' =
    if not (eqb_ℤ start (pos 0)) || not (eqb_ℤ end' (pos n))
    then (if ltb_ℤ start end' then (start, end') else (pos 0, pos n))
    else (start, end')

-- The range of indices to query, of `n` versions.
unfoldable pub index_range : ℕ → ℤ → ℤ → ℤ × ℤ
unfolding min max from_last check_range
index_range n start end' =
    check_range n (max (pos 0) (from_last n start)) (min (pos n) (from_last n end'))
