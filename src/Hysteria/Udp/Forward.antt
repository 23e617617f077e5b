-- ===== src/Hysteria/Udp/Forward.antt =====
-- From the client to the server: what `poll_send_to` sends, `hy2_udp_loop` puts together.
use rabbit_digger_pro.Address.{socket_at, Address, v4, SocketAddr}
use rabbit_digger_pro.Base.{ℕ, List, [], ◌∷◌, Option, none, some, Bytes, Bool}
use rabbit_digger_pro.Base.Map
use rabbit_digger_pro.Base.Map.{pair_key}
use rabbit_digger_pro.Hysteria.Udp.Receive.{RecvState, IncomingPacket}
use rabbit_digger_pro.Hysteria.Udp.Server.{UdpState, server_datagram}

abbrev no_peer : SocketAddr
no_peer = socket_at (v4 []) 0

-- A client's receiver with the fragments of the server's, which knows the session `sid`.
abbrev mirror : ℕ → UdpState → RecvState
mirror sid st = record {
  id_to_peer = (sid, no_peer) ∷ [];
  reassembly = st.reassembly;
  last_prune = st.last_prune;
}

unfoldable to_target : ℕ → Option IncomingPacket → Option (ℕ × Bytes)
to_target sid none = none
to_target sid (some i) = some (sid, i.payload)

push_target : Option (ℕ × Bytes) → List (ℕ × Bytes) → List (ℕ × Bytes)
push_target none outs = outs
push_target (some out) outs = out ∷ outs

-- What the server sends to the targets of sessions while datagrams come in within one reading of the
-- clock, and the state that it is left in.
unfoldable pub serve_all : (Bytes → Bool) → ℕ → UdpState → List Bytes → UdpState × List (ℕ × Bytes)
unfolding push_target
serve_all is_utf8 now st [] = (st, [])
serve_all is_utf8 now st (d ∷ ds) =
    let (st', out) = server_datagram is_utf8 now st d in
    let (st'', outs) = serve_all is_utf8 now st' ds in (st'', push_target out outs)

abbrev as_target : ℕ → IncomingPacket → ℕ × Bytes
as_target sid i = (sid, i.payload)
