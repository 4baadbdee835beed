-- ===== src/Net/ReceivePolicy.antt =====
-- caf/net/receive_policy.hpp.
use incubator.Prelude.{ℕ}

pub record ReceivePolicy : Type 0 where
  pub min_size : ℕ
  pub max_size : ℕ

-- The source requires `min_size > 0` and `min_size <= max_size`.
abbrev pub between : ℕ → ℕ → ReceivePolicy
between min_size max_size = record { min_size = min_size; max_size = max_size }

-- The source requires `size > 0`.
abbrev pub exactly : ℕ → ReceivePolicy
exactly size = record { min_size = size; max_size = size }

abbrev pub up_to : ℕ → ReceivePolicy
up_to max_size = record { min_size = 1; max_size = max_size }

abbrev pub stop : ReceivePolicy
stop = record { min_size = 0; max_size = 0 }
