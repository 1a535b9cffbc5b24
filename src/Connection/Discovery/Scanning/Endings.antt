-- ===== src/Connection/Discovery/Scanning/Endings.antt =====
-- How a search ends: its time is over, or its callback has cancelled the timer.
use libknx.Connection.Discovery.Scanning.{Scanning}
