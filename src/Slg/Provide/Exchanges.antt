-- ===== src/Slg/Provide/Exchanges.antt =====
-- internal/slg/slg.go: what an exchange that succeeds has sent and received.
use vectorcore_gmlc.Diameter.Message.{Message}
