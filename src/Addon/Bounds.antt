-- ===== src/Addon/Bounds.antt =====
-- Which versions the flags select.
use ipaversion.Base.{ℕ, suc, ◌-◌, ◌≤◌, ◌<◌, ◌≡◌, ltb, arith, if◌then◌else◌}
use ipaversion.Base.Int.{ℤ, pos, negsuc, pos_part, neg_part}
use ipaversion.Addon.Range.{index_range}

-- An index as a slice expression with negative indices reads it: clamped to the list.
abbrev pub clamp_index : ℕ → ℤ → ℕ
clamp_index n (pos x) = if ltb x n then x else n
clamp_index n (negsuc x) = n - suc x

-- The indices queried are those of the slice `[start:end]` with negative indices counted from the
-- last and all clamped to the list, or all `n` indices where that slice is empty.
pub index_range_lem :
    (n : ℕ) (start end' : ℤ)
    → index_range n start end' ≡ (
        if ltb (clamp_index n start) (clamp_index n end')
        then (pos (clamp_index n start), pos (clamp_index n end'))
        else (pos 0, pos n))
unfolding index_range
index_range_lem n (pos a) (pos b) = ground arith
index_range_lem n (pos a) (negsuc b) = ground arith
index_range_lem n (negsuc a) (pos b) = ground arith
index_range_lem n (negsuc a) (negsuc b) = ground arith

clamp_index-le : (n : ℕ) (x : ℤ) → clamp_index n x ≤ n
clamp_index-le n (pos x) = ground arith
clamp_index-le n (negsuc x) = omega arith

-- The range lies within the list, is never inverted, and is empty only for an empty list.
pub index_range_bounds :
    (n : ℕ) (start end' : ℤ)
    → let (s, e) = index_range n start end' in
      (neg_part s ≡ 0)
      × (pos_part s ≤ pos_part e)
      × (pos_part e ≤ n)
      × (0 < n → pos_part s < pos_part e)
index_range_bounds n start end' =
    rw index_range_lem (ground (arith, clamp_index-le n start, clamp_index-le n end'))
