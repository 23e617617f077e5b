-- ===== src/Lib.antt =====
-- rabbit-digger-pro, a rule-based proxy in Rust: the logic of its parts as executable definitions, and
-- what they keep to.
--
-- A proxy opens a connection to an `Address`, through a `Net` that speaks some protocol; the manager
-- of connections counts what each carries. The parts that are modelled, and their files:
--
-- Base: the libraries' names that all share; lists, byte strings, big-endian integers, decimal text,
--   bit operations, maps as association lists with a key type (`Map`), maps of one entry to a key and
--   sums over them (`Entries`). A `HashMap` or `DashMap` is such a list; nothing rests on its order.
-- Address: rd-interface/src/address.rs. `into_address` is `IntoAddress for &str`, `to_normalized` is
--   `normalize` and `to_normalized`. A `String` is its bytes. The text of an IP address is of
--   `std::net` and a parameter, `IpText`, with the laws that it is read back and has no brackets. A
--   zone is in the text of an address, which is not read back then.
--   Address.Same is `PartialEq`, the test of maps whose keys are addresses.
-- Connections: rabbit-digger/src/rabbit_digger/connection_manager.rs and event.rs. `input_event` is a
--   fold of `apply_event`; `Report` is the side of the connection (`new`, `poll`, `drop`), whose
--   operations give the events that they send; `Traffic` runs a connection among others as a sequence
--   of steps; `Kinds` fills its interface for TCP and UDP; `Stopping` is `stop_connection(s)`.
-- AnyTls: protocol/anytls/src/proto.rs (`Frame`, `Padding`) and client.rs (`Reader`, the task that
--   reads frames, and `Writer`, the stream). Channels are lists of what was sent.
-- Hysteria: protocol/hysteria/src/codec.rs (`Codec`, and the writers of `Messages`), server.rs and
--   client.rs (the readers of `Messages`), udp.rs (`Udp.Wire`, `Udp.Send`, `Udp.Receive`; `Delivery`
--   what `recv_loop` does with a whole packet), server.rs (`Udp.Server` is `hy2_udp_loop`; `Udp.Forward`
--   joins the client's sender to it, `Udp.Reply` the fragments of `udp_session_loop` to the client's
--   receiver), salamander.rs and transport.rs (`Salamander`).
-- FakeIp: protocol/raw/src/fake_ip.rs, the pool of fake addresses for domain names.
-- Obfs: protocol/obfs/src/http_simple.rs, the stream that passes as HTTP: `write_loop` is `poll_write`
--   and `read_loop` is `poll_read`.
-- Rules: rd-std/src/rule. `Domain` is domain.rs; `Net` the other matchers, the merging of rules of
--   config.rs, and `Rule::get_rule` of rule_net.rs, which uses `test` of Domain.
-- Vless: protocol/vless/src/common.rs. `Address` and `Header` are the request header
--   (`NormalizedFlow::parse` is `normalize`), `Vision` the frames of `VisionStream` and their decoder
--   (`Vision.Poll` its polls), `Xudp` is `XudpCodec`, `Prefix` is `PrefixWriteStream`, `Response`
--   is `ResponseHeaderStream`.
-- Base.Stream is the stream that these and Obfs stand on: what it takes and brings at each poll
--   is a script, so that a theorem for every script holds for any behaviour of the network.
-- Tests: runs on concrete inputs, and each theorem at one of them.
--
-- State is passed explicitly, and errors are values: `Option`, or a result type of the part. A byte is
-- a number below 256, integers of a fixed width are numbers with their wrap written out. A stream is
-- the bytes that it has left. Code outside this repository (std::net, the digests, random draws, the
-- cache and the database of the rules) is a
-- parameter; so is, for AnyTls and Hysteria, the check of UTF-8, which Base.Utf8 defines with
-- `from_utf8_lossy` and `trim`.
-- Time is a number of milliseconds.
--
-- Fuel: `discard_loop` of Hysteria.Messages has one round more than bytes to drop, and a round drops
-- at least one; `read_loop` of AnyTls.Reader has one more than the stream has bytes, and a round takes
-- at least the seven of a header; `write_chunks` has one more than the buffer has bytes, and a write
-- takes at least one; `decode_loop` of Vless.Vision has two more than the buffer has bytes, and each
-- round but the first takes the five of a header; `write_loop` and `read_loop` of Obfs spend a round on
-- each poll of the stream below and two on changes of state; `read_loop` of Vless.Vision.Poll has one
-- more than bytes are to come, and each but the last takes one; `flush_loop` there has one more than
-- the stream below has polls to answer; `poll_ready_header` of Vless.Response has two more than the
-- 257 bytes of the longest response header, and a round takes at least one.
--
-- Not modelled: sockets, TLS and QUIC, the HTTP API, configuration files and their import, derive
-- macros and bindings, which are I/O, other crates or generated code; and, of the logic, the rest
-- of vless, the sniffers, rpc and the registry.
pub mod Address
pub mod AnyTls
pub mod Base
pub mod Connections
pub mod FakeIp
pub mod Hysteria
pub mod Obfs
pub mod Rules
pub mod Tests
pub mod Vless
