-- ===== src/Slh.antt =====
-- internal/slh: the GMLC's side of the SLh interface (TS 29.173).
pub mod Msisdn
pub mod Routing
