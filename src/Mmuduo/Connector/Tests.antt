-- ===== src/Mmuduo/Connector/Tests.antt =====
-- The theorems on the connector at an attempt under way.
use learncc.Prelude.{true, some}
use learncc.Mmuduo.Connector.{Connector, connecting}

abbrev under_way : Connector
under_way = record { wanted = true; state = connecting; channel = some 5 }
