-- ===== src/Tests/Expectations.antt =====
-- What the tests of the drivers find in the system with room for four descriptors.
use sydn.Common.{◌≤◌, ◌<◌, ◌^◌, ◌≡◌, ℤ, ◌==◌}
use sydn.Posix.Returns.{Returns}
use sydn.Drivers.Usage.{count_in_use}
use sydn.Drivers.Usage.Counts.{how_many, count_in_use_bounded}
use sydn.Tests.Few.{room, is_open, few, table, limits, limited}

count_in_use_bounded_example :
    Returns
      (λ n w'.
        (n ≡ how_many (is_open (λ n. n == 0)) room 0)
        × (n ≤ room)
        × (n < 2 ^ 31)
        × ((m : ℤ) → is_open w' m ≡ is_open (λ n. n == 0) m))
      (count_in_use few limits (λ n. n == 0))
count_in_use_bounded_example = count_in_use_bounded table limits limited (λ n. n == 0)
