-- ===== src/Datagram/Soundness/Start.antt =====
-- The queue and the caches through every sequence of events.
use incubator.Net.Error.{Error}
use incubator.Datagram.{Datagram}
use incubator.Datagram.Steps.{Steps}
