-- ===== src/Socks/Bound.antt =====
-- The address that a reply binds is the one that the proxy wrote, or the peer's where it is unspecified.
use em_wall.Prelude.{
  ℕ, zero, suc, none, ◌/◌, ◌%◌, ◌^◌, ◌<◌, ◌≡◌, ◌≢◌, refl, false, Option, some, [], ◌∷◌, ◌++◌, Text,
  nat_eq, text_eq, text_beq, ltb, length, length-append, arith,
}
use em_wall.Net.{Ip, v4, v6}
use em_wall.Socks.{
  Conn, ok, put_bytes, of_sixteen, address_bytes, append_socks_addr, read_full, Resolver,
  read_address, relay_addr, read_port, read_bound, read_socks_reply,
}
use em_wall.Socks.Bytes.{length-put_bytes, get_bytes-put_bytes, take-append, drop-append}

-- The addresses that there are: an IPv4 address is not written in 16 bytes.
abbrev pub IsAddress : Ip → Type 0
IsAddress (v4 a) = a < 2 ^ 32
IsAddress (v6 a) = (a < 2 ^ 128) × (a / 2 ^ 32 ≢ 0xffff)

read_full-append :
    (n : ℕ) (xs ys out : Text) (k : ℕ)
    → length xs ≡ n
    → read_full n (record { incoming = xs ++ ys; outgoing = out; writes_left = k })
      ≡ ok (xs, record { incoming = ys; outgoing = out; writes_left = k })
unfolding read_full
read_full-append n xs ys out k h =
    let enough : ltb (length (xs ++ ys)) n ≡ false = ground (arith, length-append xs ys) in
    let front = take-append n xs ys h in
    let back = drop-append n xs ys h in simp (enough, front, back)

read_port-put_bytes :
    (remote : Option (Option Ip)) (ip : Option Ip) (port : ℕ) (rest out : Text) (k : ℕ)
    → port < 2 ^ 16
    → read_port remote
        (ip, record { incoming = put_bytes 2 port ++ rest; outgoing = out; writes_left = k })
      ≡ ok (relay_addr remote ip port, record { incoming = rest; outgoing = out; writes_left = k })
unfolding read_port
read_port-put_bytes remote ip port rest out k h =
    let read = read_full-append 2 (put_bytes 2 port) rest out k (length-put_bytes 2 port) in
    let number = get_bytes-put_bytes 2 port (omega (arith, h)) in simp (read, number)

read_address-put_bytes :
    (resolve : Resolver) (ip : Ip) (rest out : Text) (k : ℕ)
    → IsAddress ip
    → read_address resolve
        (elim ip [ v4 a ↦ 1 | v6 a ↦ 4 ])
        (record {
          incoming = (elim ip [ v4 a ↦ put_bytes 4 a | v6 a ↦ put_bytes 16 a ]) ++ rest;
          outgoing = out;
          writes_left = k;
        })
      ≡ ok (some ip, record { incoming = rest; outgoing = out; writes_left = k })
unfolding read_address
read_address-put_bytes resolve (v4 a) rest out k h =
    let read = read_full-append 4 (put_bytes 4 a) rest out k (length-put_bytes 4 a) in
    let number = get_bytes-put_bytes 4 a (omega (arith, h)) in simp (read, number)
read_address-put_bytes resolve (v6 a) rest out k h =
    let read = read_full-append 16 (put_bytes 16 a) rest out k (length-put_bytes 16 a) in
    let number = get_bytes-put_bytes 16 a (omega (arith, h.0)) in
    let six : of_sixteen a ≡ v6 a = let apart = h.1 in unfold of_sixteen in ground arith in
    simp (read, number, six)

-- The address to send to for one that was bound, by the peer's of the control connection: 0.0.0.0 and
-- `::` stand for the peer, every other address for itself.
unfoldable pub reached : Option (Option Ip) → Ip → Option Ip
reached (some peer) (v4 zero) = peer
reached (some peer) (v6 zero) = peer
reached none (v4 zero) = some (v4 0)
reached none (v6 zero) = some (v6 0)
reached remote (v4 (suc a)) = some (v4 (suc a))
reached remote (v6 (suc a)) = some (v6 (suc a))

relay_addr-reached :
    (remote : Option (Option Ip)) (ip : Ip) (port : ℕ)
    → relay_addr remote (some ip) port ≡ record { ip = reached remote ip; port = port }
unfolding relay_addr reached
relay_addr-reached (some peer) (v4 zero) port = refl
relay_addr-reached (some peer) (v6 zero) port = refl
relay_addr-reached none (v4 zero) port = refl
relay_addr-reached none (v6 zero) port = refl
relay_addr-reached none (v4 (suc a)) port = ground arith
relay_addr-reached none (v6 (suc a)) port = ground arith
relay_addr-reached (some peer) (v4 (suc a)) port = ground arith
relay_addr-reached (some peer) (v6 (suc a)) port = ground arith

-- a connection on which this can be read
abbrev conn : Text → Text → ℕ → Conn
conn incoming out k = record { incoming = incoming; outgoing = out; writes_left = k }

body_read :
    (resolve : Resolver) (remote : Option (Option Ip)) (atyp : ℕ) (ip : Ip) (port : ℕ)
    (tail rest out : Text) (k : ℕ)
    → port < 2 ^ 16
    → read_address resolve atyp (conn tail out k)
      ≡ ok (some ip, conn (put_bytes 2 port ++ rest) out k)
    → read_socks_reply resolve remote (conn (5 ∷ 0 ∷ 0 ∷ atyp ∷ tail) out k)
      ≡ ok (record { ip = reached remote ip; port = port }, conn rest out k)
unfolding read_socks_reply read_bound
body_read resolve remote atyp ip port tail rest out k max found =
    let head = read_full-append 4 (5 ∷ 0 ∷ 0 ∷ atyp ∷ []) tail out k refl in
    let bound = read_port-put_bytes remote (some ip) port rest out k max in
    let own = relay_addr-reached remote ip port in simp head (simp (found, bound, own))

-- A reply that the proxy writes with an address of either family and a port is read back as these,
-- and what follows the reply is left to read. An address that is unspecified, 0.0.0.0 or `::`, is
-- replaced by that of the control connection's peer where that is a TCP address; no other is.
pub read_socks_reply-append_socks_addr :
    (resolve : Resolver) (remote : Option (Option Ip)) (ip : Ip) (port : ℕ) (rest out : Text)
    (k : ℕ)
    → IsAddress ip
    → port < 2 ^ 16
    → read_socks_reply resolve remote (record {
      incoming = append_socks_addr (5 ∷ 0 ∷ 0 ∷ []) (some ip) [] port ++ rest;
      outgoing = out;
      writes_left = k;
    })
      ≡ ok (
        record { ip = reached remote ip; port = port },
        record { incoming = rest; outgoing = out; writes_left = k },
      )
unfolding append_socks_addr address_bytes text_beq
read_socks_reply-append_socks_addr resolve remote (v4 a) port rest out k h max =
    let whole : port % 2 ^ 16 ≡ port = omega (arith, max) in
    rw whole (
      body_read resolve remote 1 (v4 a) port (put_bytes 4 a ++ (put_bytes 2 port ++ rest)) rest out
        k max (read_address-put_bytes resolve (v4 a) (put_bytes 2 port ++ rest) out k h))
read_socks_reply-append_socks_addr resolve remote (v6 a) port rest out k h max =
    let whole : port % 2 ^ 16 ≡ port = omega (arith, max) in
    rw whole (
      body_read resolve remote 4 (v6 a) port (put_bytes 16 a ++ (put_bytes 2 port ++ rest)) rest out
        k max (read_address-put_bytes resolve (v6 a) (put_bytes 2 port ++ rest) out k h))
