-- ===== src/Socks.antt =====
-- core/proxy/udp.go: the SOCKS5 handshake of a UDP association, and the frame of its datagrams. A
-- connection is the bytes that the proxy sends until it closes, those sent to it, and how many more
-- writes succeed. What ParseIP and ResolveIPAddr make of a text are parameters, and so are the dials.
-- A byte outside a slice is 0 here, where Go would panic: each is read behind a check of the length.
pub mod Bytes
pub mod Datagram
pub mod Handshake
pub mod Bound
use em_wall.Prelude.{
  ℕ, zero, suc, ◌+◌, ◌*◌, ◌/◌, ◌%◌, ◌^◌, Bool, true, false, not, ◌&&◌, ◌||◌, Option, none, some,
  List, [], ◌∷◌, ◌++◌, ◌⊎◌, inl, inr, Text, codes, ◌==◌, nat_eq, text_eq, ltb, length, drop,
  if◌then◌else◌,
}
use em_wall.Net.{Ip, v4, v6}

abbrev pub socks5_version : ℕ
socks5_version = 0x05

abbrev pub socks5_no_auth : ℕ
socks5_no_auth = 0x00

abbrev pub socks5_user_pass : ℕ
socks5_user_pass = 0x02

abbrev pub socks5_no_accept : ℕ
socks5_no_accept = 0xff

abbrev pub socks5_auth_ver : ℕ
socks5_auth_ver = 0x01

abbrev pub socks5_cmd_assoc : ℕ
socks5_cmd_assoc = 0x03

abbrev pub socks5_rep_ok : ℕ
socks5_rep_ok = 0x00

abbrev pub socks5_atyp_v4 : ℕ
socks5_atyp_v4 = 0x01

abbrev pub socks5_atyp_domain : ℕ
socks5_atyp_domain = 0x03

abbrev pub socks5_atyp_v6 : ℕ
socks5_atyp_v6 = 0x04

abbrev pub socks5_udp_hdr_min : ℕ
socks5_udp_hdr_min = 10

-- the parts of a Proxy that the handshake reads
pub record Proxy : Type 0 where
  pub is_socks5 : Bool
  pub username : Text
  pub password : Text

pub record Conn : Type 0 where
  pub incoming : Text
  pub outgoing : Text
  pub writes_left : ℕ

pub data Error : Type 0 where
  not_socks5 dial_failed write_failed read_failed bad_version bad_method rejected_methods : Error
  too_long auth_failed rejected resolve_failed bad_atyp : Error
  empty_host host_too_long short_datagram fragmented truncated_domain overrun : Error

-- A failure of the handshake keeps the connection as it was left.
pub data Result {ℓ} (A : Type ℓ) : Type ℓ where
  ok : A → Result A
  failed : Error → Conn → Result A

infixl 5 ◌>>=◌
abbrev pub ◌>>=◌ {ℓ κ} : {A : Type ℓ} {B : Type κ} → Result A → (A → Result B) → Result B
ok a >>= f = f a
failed e c >>= f = failed e c

abbrev pub take {ℓ} : {A : Type ℓ} → ℕ → List A → List A
take zero xs = []
take (suc n) [] = []
take (suc n) (x ∷ xs) = x ∷ take n xs

-- d[i]
abbrev pub byte_at : Text → ℕ → ℕ
byte_at [] i = 0
byte_at (b ∷ d) zero = b
byte_at (b ∷ d) (suc i) = byte_at d i

-- the `k` lowest bytes of a number, the highest first, and the number that bytes stand for
unfoldable pub put_bytes : ℕ → ℕ → Text
put_bytes zero n = []
put_bytes (suc k) n = put_bytes k (n / 256) ++ (n % 256 ∷ [])

unfoldable pub get_bytes : ℕ → Text → ℕ
get_bytes acc [] = acc
get_bytes acc (b ∷ d) = get_bytes (acc * 256 + b) d

-- net.IP of 16 bytes; the IPv4 addresses among them are IPv4
unfoldable pub of_sixteen : ℕ → Ip
of_sixteen n = if n / 2 ^ 32 == 0xffff then v4 (n % 2 ^ 32) else v6 n

-- the bytes of an address: those of To4, else those of To16
unfoldable pub address_bytes : Option Ip → Text
unfolding put_bytes
address_bytes none = socks5_atyp_v6 ∷ []
address_bytes (some (v4 a)) = socks5_atyp_v4 ∷ put_bytes 4 a
address_bytes (some (v6 a)) = socks5_atyp_v6 ∷ put_bytes 16 a

-- appendSOCKSAddr
unfoldable pub append_socks_addr : Text → Option Ip → Text → ℕ → Text
unfolding address_bytes put_bytes
append_socks_addr buf ip host port =
    (if not (host == [])
      then buf ++ (socks5_atyp_domain ∷ length host % 256 ∷ host)
      else buf ++ address_bytes ip)
    ++ put_bytes 2 (port % 2 ^ 16)

-- WriteTo: the datagram that goes to the relay
unfoldable pub write_to : (Text → Option Ip) → Text → Text → ℕ → Error ⊎ Text
unfolding append_socks_addr
write_to parse_ip payload host port =
    if host == []
    then inl empty_host
    else if ltb 255 (length host)
    then inl host_too_long
    else inr (
        (elim (parse_ip host) [
          | some ip ↦ append_socks_addr (0 ∷ 0 ∷ 0 ∷ []) (some ip) [] port
          | none ↦ append_socks_addr (0 ∷ 0 ∷ 0 ∷ []) none host port
        ])
        ++ payload)

-- the end of stripSOCKSUDPHeader, once the offset of the port is known
abbrev pub after_port : Text → ℕ → Error ⊎ Text
after_port d off = if ltb (length d) (off + 2) then inl overrun else inr (drop (off + 2) d)

-- stripSOCKSUDPHeader
unfoldable pub strip_socks_udp_header : Text → Error ⊎ Text
strip_socks_udp_header d =
    let atyp = byte_at d 3 in
    if ltb (length d) socks5_udp_hdr_min
    then inl short_datagram
    else if not (byte_at d 2 == 0)
    then inl fragmented
    else if atyp == socks5_atyp_v4
    then after_port d 8
    else if atyp == socks5_atyp_v6
    then after_port d 20
    else if atyp == socks5_atyp_domain
    then (if ltb (length d) 5 then inl truncated_domain else after_port d (5 + byte_at d 4))
    else inl bad_atyp

-- conn.Write
unfoldable pub write : Text → Conn → Result Conn
write bytes c = elim c.writes_left [
  | zero ↦ failed write_failed c
  | suc n ↦ ok (record c { outgoing = c.outgoing ++ bytes; writes_left = n })
]

-- io.ReadFull of a slice of `n` bytes
unfoldable pub read_full : ℕ → Conn → Result (Text × Conn)
read_full n c =
    if ltb (length c.incoming) n
    then failed read_failed (record c { incoming = [] })
    else ok (take n c.incoming, record c { incoming = drop n c.incoming })

-- the message of socks5UserPassAuth
unfoldable pub auth_message : Proxy → Text
auth_message p =
    socks5_auth_ver ∷ length p.username % 256 ∷ p.username ++ (length p.password % 256 ∷ p.password)

-- socks5UserPassAuth
unfoldable pub socks5_user_pass_auth : Proxy → Conn → Result Conn
unfolding write read_full auth_message
socks5_user_pass_auth p c =
    if ltb 255 (length p.username) || ltb 255 (length p.password) then failed too_long c else do
      sent ← write (auth_message p) c
      (resp, read) ← read_full 2 sent
      if byte_at resp 1 == 0 then ok read else failed auth_failed read

unfoldable pub greeting : Proxy → Text
greeting p =
    if not (p.username == []) || not (p.password == [])
    then socks5_version ∷ 2 ∷ socks5_no_auth ∷ socks5_user_pass ∷ []
    else socks5_version ∷ 1 ∷ socks5_no_auth ∷ []

-- the end of socks5Negotiate, on the reply
unfoldable pub method_chosen : Proxy → ℕ → ℕ → Conn → Result Conn
unfolding socks5_user_pass_auth
method_chosen p version method c =
    if not (version == socks5_version)
    then failed bad_version c
    else if method == socks5_no_auth
    then ok c
    else if method == socks5_user_pass
    then socks5_user_pass_auth p c
    else if method == socks5_no_accept
    then failed rejected_methods c
    else failed bad_method c

-- socks5Negotiate
unfoldable pub socks5_negotiate : Proxy → Conn → Result Conn
unfolding write read_full greeting method_chosen
socks5_negotiate p c = do
  sent ← write (greeting p) c
  (resp, read) ← read_full 2 sent
  method_chosen p (byte_at resp 0) (byte_at resp 1) read

-- the address that ResolveIPAddr returns, which may be nil; none with an error
abbrev pub Resolver : Type 0
Resolver = Text → Option (Option Ip)

unfoldable pub resolved : Resolver → Text × Conn → Result (Option Ip × Conn)
resolved resolve (host, c) = elim (resolve host) [
  | none ↦ failed resolve_failed c
  | some ip ↦ ok (ip, c)
]

-- the switch of readSOCKSReply
unfoldable pub read_address : Resolver → ℕ → Conn → Result (Option Ip × Conn)
unfolding read_full get_bytes of_sixteen resolved
read_address resolve atyp c =
    if atyp == socks5_atyp_v4
    then (do (b, read) ← read_full 4 c; ok (some (v4 (get_bytes 0 b)), read))
    else if atyp == socks5_atyp_v6
    then (do (b, read) ← read_full 16 c; ok (some (of_sixteen (get_bytes 0 b)), read))
    else if atyp == socks5_atyp_domain
    then (do
      (l, read) ← read_full 1 c
      named ← read_full (byte_at l 0) read
      resolved resolve named)
    else failed bad_atyp c

-- ip.IsUnspecified()
abbrev pub is_unspecified : Option Ip → Bool
is_unspecified none = false
is_unspecified (some (v4 a)) = a == 0
is_unspecified (some (v6 a)) = a == 0

pub record UdpAddr : Type 0 where
  pub ip : Option Ip
  pub port : ℕ

-- the address of the relay; `remote` is the control connection's where it is a TCP address
unfoldable pub relay_addr : Option (Option Ip) → Option Ip → ℕ → UdpAddr
relay_addr remote ip port =
    let own : Option Ip = elim remote [ none ↦ ip | some r ↦ r ] in
    record { ip = if is_unspecified ip then own else ip; port = port }

unfoldable pub read_port : Option (Option Ip) → Option Ip × Conn → Result (UdpAddr × Conn)
unfolding read_full get_bytes relay_addr
read_port remote (ip, c) = do
  (b, read) ← read_full 2 c
  ok (relay_addr remote ip (get_bytes 0 b), read)

-- readSOCKSReply behind the header: its version, code and address type are given
unfoldable pub read_bound :
    Resolver → Option (Option Ip) → ℕ → ℕ → ℕ → Conn → Result (UdpAddr × Conn)
unfolding read_address read_port
read_bound resolve remote version rep atyp c =
    if not (version == socks5_version)
    then failed bad_version c
    else if not (rep == socks5_rep_ok)
    then failed rejected c
    else (read_address resolve atyp c >>= read_port remote)

-- readSOCKSReply
unfoldable pub read_socks_reply : Resolver → Option (Option Ip) → Conn → Result (UdpAddr × Conn)
unfolding read_full read_bound
read_socks_reply resolve remote c = do
  (head, read) ← read_full 4 c
  read_bound resolve remote (byte_at head 0) (byte_at head 1) (byte_at head 3) read

-- the ASSOCIATE request
unfoldable pub associate_request : Text
unfolding append_socks_addr
associate_request =
    append_socks_addr (socks5_version ∷ socks5_cmd_assoc ∷ 0 ∷ []) (some (v4 0)) [] 0

-- DialUDPAssociate, on the control connection that was dialled; whether the relay can be dialled is
-- the last argument
unfoldable pub dial_udp_associate :
    Resolver → Option (Option Ip) → Proxy → Option Conn → (UdpAddr → Bool) → Result (UdpAddr × Conn)
unfolding write socks5_negotiate read_socks_reply associate_request
dial_udp_associate resolve remote p none dials =
    failed (if p.is_socks5 then dial_failed else not_socks5)
      (record { incoming = []; outgoing = []; writes_left = 0 })
dial_udp_associate resolve remote p (some ctrl) dials =
    if not p.is_socks5 then failed not_socks5 ctrl else do
      agreed ← socks5_negotiate p ctrl
      asked ← write associate_request agreed
      (relay, read) ← read_socks_reply resolve remote asked
      if dials relay then ok (relay, read) else failed dial_failed read
