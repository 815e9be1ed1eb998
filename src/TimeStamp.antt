-- ===== src/TimeStamp.antt =====
-- inc/utils/date/TimeStamp.hpp and src/utils/date/TimeStamp.cpp, for times that are not before the
-- epoch. Seconds as a double are taken as the microseconds that they are cast to.
use Prim.Native.Nat.{bit_and}
use cloud_storage.Common.{ℕ, ◌+◌, ◌/◌, Bool, ltb}

pub record TimeStamp : Type 0 where
  pub micro_seconds_since_epoch : ℕ

abbrev pub k_micro_seconds_per_sec : ℕ
k_micro_seconds_per_sec = 1000000

abbrev pub invalid : TimeStamp
invalid = record { micro_seconds_since_epoch = 0 }

-- The constructor from a number does not use it.
unfoldable pub from_micro_seconds : ℕ → TimeStamp
from_micro_seconds micro_sec = record { micro_seconds_since_epoch = 0 }

-- `tv_sec` and `tv_usec` are what gettimeofday gives.
unfoldable pub now : ℕ → ℕ → TimeStamp
now tv_sec tv_usec = from_micro_seconds (bit_and tv_sec (k_micro_seconds_per_sec + tv_usec))

unfoldable pub add_time : TimeStamp → ℕ → TimeStamp
add_time ts delta = from_micro_seconds (ts.micro_seconds_since_epoch + delta)

unfoldable pub seconds_since_epoch : TimeStamp → ℕ
seconds_since_epoch ts = ts.micro_seconds_since_epoch / k_micro_seconds_per_sec

abbrev pub less : TimeStamp → TimeStamp → Bool
less a b = ltb a.micro_seconds_since_epoch b.micro_seconds_since_epoch
