-- ===== src/Lib.antt =====
-- libknx: a client library for KNXnet/IP, the protocol by which programs talk to a building's KNX
-- bus through an IP router.
--
-- The program is layered, and so is this library. A datagram is a `KnxIpHeader` and a request or a
-- response; a tunnel request carries a cEMI frame; frames and messages are made of addresses,
-- endpoints and description blocks; all of them are read by a `ByteBufferReader` and written by a
-- `ByteBufferWriter`.
--
-- Prelude: the native numbers, lists, Boolean tests, words of eight to thirty-two bits and the
--   bit operations that the code uses.
-- Bytes (src/knx/bytes): the reader is a list of bytes and an index, the writer a list of bytes.
--   `Bytes.Parser` and `Bytes.Writer` are the state passing, `Bytes.Reader` has `readUint16` as
--   `read_uint16`, and so on. The byte order of the machine, `std::endian::native`, is the parameter
--   `native`. A read outside the span, which C++ leaves undefined, is the fault `out_of_range`.
--   `Bytes.Wire` has the rules by which parsers and writers are composed: `Reads`, `Appends` and
--   `RoundTrips`; `Bytes.Stops` those for inputs that are too short; `Bytes.Text` is about text
--   fields.
-- Headers (src/knx/headers): `KnxStructure`, `KnxAddress` with individual and group addresses and
--   their order, `IpAddress`, `Hpai`, `ConnectionHeader`, `ConnectionRequest` (connection request
--   data and information), the blocks `DeviceDib`, `ServiceFamilies` and `ManufacturerDib`, and the
--   texts of addresses and service families (`Text`).
-- Cemi (src/knx/cemi): `Control`, `Tpci`, `DataAcpi`, `NpduFrame`, `AdditionalInformation` and the
--   whole frame, `CemiFrame`.
-- Message (src/knx/ipreqresp): `IpHeader`, the six requests (`Request`), the six responses
--   (`Response`) and `RequestResponseFactory` (`Factory`), which goes from the service type of a
--   header to the message. `ConnectRequest::parse` and `ConnectStateRequest::parse` get a copy of the
--   reader, which `by_value` models.
-- Connection (src/knx/connection): `AsyncMessage`, which is `AsyncMessageState`: the coroutine `send`
--   as a step machine that stands at one of its two `co_await`s, with the calls of `setResponse` and
--   `cancel` and the completions of the send method and of the timer as events in any order.
--   `Tunneling` is `TunnelingConnection`. Its `sendItems` are a store of items behind pointers, and a
--   coroutine that awaits `item->send()` is a frame with the pointer of its item and the caller it
--   goes on with; a pointer that stands in no item dangles, and reading through it is the failure
--   `use_after_free` of `Outcome`. `Receive` is `onReceiveData` with its handlers, `Close` is `reset`,
--   `closeWithoutDisconnect` and the first half of `close`, `Calls` the coroutines, and `Run` has
--   datagrams, completed writes, timers and calls as inputs in any order. asio's parser of addresses
--   is the parameter `make_address_v4`. `UdpSocket` is the socket as its owner uses it, a port and a
--   flag; `UdpSocket.Reading` is the whole of src/knx/ip with the coroutine that reads, over the
--   operations of asio's socket (`AsioSocket`, each of which may throw; its documented behaviour is
--   `IsAsio`).
--   `Client` is `KnxClientConnection` over a tunneling connection, with `requests` as a store behind
--   pointers in the same way. Which of its listeners are alive is the parameter `alive`.
--   `System` puts the two together as `createTunnelingClient` does: the client hears the calls that
--   its tunneling connection makes, and datagrams, timers and calls come in any order. When the
--   tunneling connection is destroyed, its destructor runs, and the coroutines that still wait for it
--   are kept as `orphans`, which fault when they go on.
--   `Discovery` has the search request and what a datagram adds to the results; `Discovery.Scanning`
--   is `lookAround` over time, with the reader of its socket and the two ends of its timer; whether
--   waiting for a timer throws is the parameter `throws`. How the wait ends is an event: it is cancelled
--   only by the search, and may have expired before that.
-- Datapoint (src/knx/datapointtypes): the formats. A finite `double` in `KnxFloat16Format` is a sign
--   and a numerator over a power of two, where halving is exact.
-- A coroutine whose object is destroyed is not known to wait for a write or for a timer, so both
-- events are a fault for it, of which only the one it waits for can come. A timer or a write that is
-- cancelled is no action but an event, its completion.
-- Each component has its operations in its own module and its laws in child modules; `Tests` holds
-- runs and the theorems at examples.
--
-- Fuel: `closeWithoutDisconnect` is called again by each of the two sockets that it stops, so
-- three calls are the most that are nested, and the fuel of `close_nested` is three. The halving
-- loop of `KnxFloat16Format` has sixteen turns, which is enough because a number in the range needs
-- at most fifteen halvings. The loop of `AdditionalInformation::parse` has one more than the number
-- of bytes of the span; every turn reads at least two of them. A length that C++ computes in a
-- fixed width has its wrap-around written out; the index of the reader is a `size_t`, which no
-- datagram exhausts.
--
-- Not modelled: text output but for addresses and service families (`getShortDescription`, what is
-- printed); `ControlACPI`, which no frame uses; a write of the tunneling connection that
-- fails; that a confirmed frame is moved out of the reference with which listeners behind the client
-- are called; the product of a
-- `double` with 100 and its comparison with the ends of the range, which `KnxFloat16Format` leaves
-- to the processor; the usage example.
pub mod Prelude
pub mod Bytes
pub mod Headers
pub mod Cemi
pub mod Message
pub mod Connection
pub mod Datapoint
