-- ===== src/Limit.antt =====
-- components/ql/aggregate/limit.hpp and limit.cpp: how many documents an operator may return.
-- `count` is a C++ `int` that counts documents appended; it is a number here, since an operator
-- appends fewer than 2^31 documents.
pub mod Bounded
use rocket_joe.Base.{ℕ, Bool, ◌||◌}
use rocket_joe.Base.Int.{ℤ, pos, negsuc, ltb_ℤ, eqb_ℤ}

pub record Limit : Type 0 where
  pub limit_ : ℤ

-- -1
abbrev pub unlimit_ : ℤ
unlimit_ = negsuc 0

abbrev pub unlimit : Limit
unlimit = record { limit_ = unlimit_ }

abbrev pub limit_one : Limit
limit_one = record { limit_ = pos 1 }

unfoldable pub check : Limit → ℕ → Bool
check l count = eqb_ℤ l.limit_ unlimit_ || ltb_ℤ (pos count) l.limit_
