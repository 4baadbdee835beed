-- ===== src/Net/Consumed.antt =====
-- The result of `consume`: how many bytes it took, or -1. `stuck` is no result of the source: the
-- loop of the model ran out of fuel.
use incubator.Prelude.{ℕ}

pub data Consumed : Type 0 where
  taken : ℕ → Consumed
  failed stuck : Consumed
