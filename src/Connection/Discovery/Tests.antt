-- ===== src/Connection/Discovery/Tests.antt =====
-- A search that one router answers.
use libknx.Prelude.{ℕ, List, [], ◌∷◌, Bool, true, false}
use libknx.Headers.KnxStructure
use libknx.Headers.IpAddress
use libknx.Headers.Hpai
use libknx.Headers.KnxAddress.Individual
use libknx.Headers.DeviceDib
use libknx.Headers.ServiceFamilies
use libknx.Message.IpHeader
use libknx.Connection.UdpSocket.Reading.{Socket}
use libknx.Connection.UdpSocket.Tests.{free_ports}
use libknx.Connection.Discovery
use libknx.Connection.Discovery.{KnxIp, Search}
use libknx.Connection.Discovery.Scanning.{Wait, expired, cancelled, Scanning}

-- 192.168.1.10, port 3671, the name "R".
abbrev response_tail : List ℕ
response_tail =
    0x10 ∷ 0x02 ∷ 0x02 ∷ 0x00 ∷ 0x48 ∷ 0x08 ∷ 0x01 ∷ 192 ∷ 168 ∷ 1 ∷ 10 ∷ 0x0e ∷ 0x57 ∷ 0x36 ∷ 0x01
    ∷ 0x02 ∷ 0x00 ∷ 0x11 ∷ 0x00 ∷ 0 ∷ 0 ∷ 1 ∷ 2 ∷ 3 ∷ 4 ∷ 5 ∷ 6 ∷ 224 ∷ 0 ∷ 23 ∷ 12 ∷ 1 ∷ 2 ∷ 3 ∷ 4
    ∷ 5 ∷ 6 ∷ 82 ∷ 0 ∷ 0 ∷ 0 ∷ 0 ∷ 0 ∷ 0 ∷ 0 ∷ 0 ∷ 0 ∷ 0 ∷ 0 ∷ 0 ∷ 0 ∷ 0 ∷ 0 ∷ 0 ∷ 0 ∷ 0 ∷ 0 ∷ 0 ∷ 0
    ∷ 0 ∷ 0 ∷ 0 ∷ 0 ∷ 0 ∷ 0 ∷ 0 ∷ 0 ∷ 0x04 ∷ 0x02 ∷ 0x02 ∷ 0x01 ∷ []

abbrev router : KnxIp
router = record {
  name = 82 ∷ [];
  ip = 49 ∷ 57 ∷ 50 ∷ 46 ∷ 49 ∷ 54 ∷ 56 ∷ 46 ∷ 49 ∷ 46 ∷ 49 ∷ 48 ∷ [];
  port = 3671;
}

abbrev found_router : Search
found_router = record { found = router ∷ []; cancelled = true }

abbrev idle : Socket free_ports
idle = record {
  port = 3671;
  is_open = false;
  has_handler = false;
  has_closed_handler = false;
  socket = false;
  waiting = 0;
}

-- Waiting throws for a timer that is cancelled.
abbrev throws : Wait → Bool
throws expired = false
throws cancelled = true

abbrev answers : List (List ℕ)
answers = (0x06 ∷ response_tail) ∷ (1 ∷ []) ∷ (0x06 ∷ response_tail) ∷ []

abbrev scanning : Scanning Bool
scanning = record {
  socket = record idle { is_open = true; has_handler = true; socket = true; waiting = 1 };
  search = Discovery.new;
  is_scanning = true;
  written = [];
}
