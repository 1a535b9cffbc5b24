-- ===== src/Connection/Discovery.antt =====
-- src/knx/connection/Discovery.cpp: the search for routers. The socket and the timer are the
-- environment's: what `lookAround` does is a list of the datagrams that come before its timer ends.
pub mod Scanning
mod Tests
use libknx.Prelude.{ℕ, List, [], ◌∷◌, ◌++◌, Bool, false, length, if◌then◌else◌, ◌==◌, ◌||◌, leb}
use libknx.Bytes.Parser.{Endian, ByteBufferReader, Result, ok, err}
use libknx.Headers.IpAddress.{IpAddress, as_string}
use libknx.Headers.Hpai
use libknx.Message.IpHeader
use libknx.Message.IpHeader.{KnxIpHeader}
use libknx.Message.Request.{write_search}
use libknx.Message.Response
use libknx.Message.Response.{SearchResponse, parse_search}

abbrev pub multicast_port : ℕ
multicast_port = 3671

abbrev pub multicast_address : IpAddress
multicast_address = record { address = (224, 0, 23, 12) }

pub record KnxIp : Type 0 where
  pub name : List ℕ
  pub ip : List ℕ
  pub port : ℕ

-- What a search has found, and whether its timer is cancelled.
pub record Search : Type 0 where
  pub found : List KnxIp
  pub cancelled : Bool

abbrev pub new : Search
new = record { found = []; cancelled = false }

-- The callback of `lookAround(int)`. The size is a `size_t`, so a negative maximum is a large one.
unfoldable pub push_back : ℕ → KnxIp → Search → Search
push_back max_results knx_ip s =
    let found = s.found ++ knx_ip ∷ [] in
    record { found = found; cancelled = s.cancelled || leb max_results (length found) }

unfoldable pub to_knx_ip : SearchResponse → KnxIp
to_knx_ip r = record {
  name = r.device_dib.device_name;
  ip = as_string r.control_end_point.address;
  port = r.control_end_point.port;
}

-- The device of a search response goes to the callback.
abbrev pub received :
    (KnxIp → Search → Search) → Search → Result (SearchResponse × ByteBufferReader) → Result Search
received callback s (ok (r, _)) = ok (callback (to_knx_ip r) s)
received callback s (err f) = err f

module _ (native : Endian) where
  unfoldable pub make_search_request : List ℕ
  make_search_request =
      write_search native
        (record { hpai_local = Hpai.new multicast_address multicast_port Hpai.udp }) []

  abbrev pub on_header :
      (KnxIp → Search → Search) → Search → Result (KnxIpHeader × ByteBufferReader) → Result Search
  on_header callback s (ok (header, reader)) =
      if header.service_type == Response.search_id
      then received callback s (parse_search native reader)
      else ok s
  on_header callback s (err f) = err f

  unfoldable pub do_receive : List ℕ → (KnxIp → Search → Search) → Search → Result Search
  do_receive bytes callback s =
      on_header callback s (IpHeader.parse native (record { bytes = bytes; index = 0 }))
