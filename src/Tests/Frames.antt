-- ===== src/Tests/Frames.antt =====
-- SOCKS5 messages: a datagram to a name, a negotiation with a password, and a reply.
use em_wall.Prelude.{
  ◌≤◌, ◌<◌, ◌^◌, ◌≡◌, inr, refl, true, Option, none, some, [], ◌∷◌, ◌++◌, Text, codes, text_beq,
  length, arith,
}
use em_wall.Net.{Ip, v4}
use em_wall.Socks.{
  Proxy, Conn, ok, write_to, strip_socks_udp_header, socks5_udp_hdr_min, socks5_negotiate,
  append_socks_addr, read_socks_reply, Resolver,
}
use em_wall.Socks.Datagram.{strip_socks_udp_header-write_to}
use em_wall.Socks.Handshake.{Proper, socks5_negotiate_lem}
use em_wall.Socks.Bound.{IsAddress, reached, read_socks_reply-append_socks_addr}

abbrev no_literal : Text → Option Ip
no_literal host = none

abbrev payload : Text
payload = codes "ping"

abbrev framed : Text
framed = 0 ∷ 0 ∷ 0 ∷ 3 ∷ 4 ∷ codes "a.io" ++ (1 ∷ 187 ∷ payload)

is_framed : write_to no_literal payload (codes "a.io") 443 ≡ inr framed
unfolding write_to text_beq
is_framed = refl

is_long : socks5_udp_hdr_min ≤ length framed
is_long = omega arith

strip_socks_udp_header-write_to_example : strip_socks_udp_header framed ≡ inr payload
strip_socks_udp_header-write_to_example =
    strip_socks_udp_header-write_to no_literal payload (codes "a.io") 443 framed is_framed is_long

abbrev account : Proxy
account = record { is_socks5 = true; username = codes "me"; password = codes "pw" }

abbrev willing : Conn
willing = record { incoming = 5 ∷ 2 ∷ 1 ∷ 0 ∷ []; outgoing = []; writes_left = 4 }

socks5_negotiate_lem_example :
    Proper account willing.incoming willing.outgoing (socks5_negotiate account willing)
socks5_negotiate_lem_example = socks5_negotiate_lem account willing

abbrev no_names : Resolver
no_names host = none

is_address : IsAddress (v4 0)
is_address = omega arith

is_port : 1080 < 2 ^ 16
is_port = omega arith

read_socks_reply-append_socks_addr_example :
    read_socks_reply no_names (some (some (v4 167772161))) (record {
      incoming = append_socks_addr (5 ∷ 0 ∷ 0 ∷ []) (some (v4 0)) [] 1080 ++ codes "tail";
      outgoing = [];
      writes_left = 1;
    })
    ≡ ok (
      record { ip = reached (some (some (v4 167772161))) (v4 0); port = 1080 },
      record { incoming = codes "tail"; outgoing = []; writes_left = 1 },
    )
read_socks_reply-append_socks_addr_example =
    read_socks_reply-append_socks_addr no_names (some (some (v4 167772161))) (v4 0) 1080
      (codes "tail") [] 1 is_address is_port
