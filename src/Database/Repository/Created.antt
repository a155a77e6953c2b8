-- ===== src/Database/Repository/Created.antt =====
-- The numbers of a key in the range of their types, and the result of a lookup that finds a key.
use ai_switch.Base.{◌-◌, ◌^◌, true, false, arith}
use ai_switch.Base.Int.{ℤ, pos, negsuc, ◌≤ℤ◌}
use ai_switch.Database.Repository.{ApiKeyInfo, ApiKeyResult}

-- The values of an `int64_t` that is not negative, and of an `int`.
pub record IsInRange (info : ApiKeyInfo) : Type 0 where
  pub id_least : pos 0 ≤ℤ info.id
  pub id_most : info.id ≤ℤ pos (2 ^ 63 - 1)
  pub limit_least : negsuc (2 ^ 31 - 1) ≤ℤ info.rate_limit
  pub limit_most : info.rate_limit ≤ℤ pos (2 ^ 31 - 1)

pub nonneg_lem : (n : ℤ) → pos 0 ≤ℤ n → negsuc (2 ^ 63 - 1) ≤ℤ n
nonneg_lem (pos n) h = omega arith
nonneg_lem (negsuc n) h = omega arith

abbrev pub found_result : ApiKeyInfo → ApiKeyResult
found_result info = record { info = info; found = true; db_error = false }
