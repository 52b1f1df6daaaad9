-- ===== src/Socks/Datagram.antt =====
-- The frame of a datagram: what WriteTo puts round a payload, stripSOCKSUDPHeader takes off.
use em_wall.Prelude.{
  ℕ, ◌+◌, ◌%◌, ◌^◌, ◌≤◌, ◌≡◌, ◌≢◌, ◌⊎◌, inl, inr, refl, sym, ap, subst, false, Option, none, some,
  [], ◌∷◌, ◌++◌, Text, ◌==◌, nat_eq, text_eq, text_beq, text_beq_iff, ltb, length, drop,
  length-append, arith, Bool-cases, Option-cases,
}
use em_wall.Net.{Ip, v4, v6}
use em_wall.Socks.{
  put_bytes, address_bytes, append_socks_addr, write_to, after_port, strip_socks_udp_header,
  socks5_udp_hdr_min, socks5_atyp_v4, socks5_atyp_v6, byte_at,
}
use em_wall.Socks.Bytes.{drop-append}

after_port-append :
    (head payload : Text) (off : ℕ)
    → length head ≡ off + 2
    → after_port (head ++ payload) off ≡ inr payload
after_port-append head payload off h =
    let fits : ltb (length (head ++ payload)) (off + 2) ≡ false =
      ground (arith, length-append head payload) in
    rw fits (ap inr (drop-append (off + 2) head payload h))

abbrev zeros : Text
zeros = 0 ∷ 0 ∷ 0 ∷ []

address_stripped :
    (ip : Ip) (port : ℕ) (payload : Text)
    → strip_socks_udp_header (append_socks_addr zeros (some ip) [] port ++ payload) ≡ inr payload
unfolding strip_socks_udp_header append_socks_addr address_bytes put_bytes text_beq
address_stripped (v4 addr) port payload = ground arith
address_stripped (v6 addr) port payload = ground arith

name_stripped :
    (host : Text) (port : ℕ) (payload : Text)
    → host ≢ []
    → length host ≤ 255
    → socks5_udp_hdr_min ≤ length (append_socks_addr zeros none host port ++ payload)
    → strip_socks_udp_header (append_socks_addr zeros none host port ++ payload) ≡ inr payload
unfolding strip_socks_udp_header append_socks_addr put_bytes text_beq
name_stripped [] port payload named short long = absurd (named refl)
name_stripped (c ∷ cs) port payload named short long =
    let host : Text = c ∷ cs in
    let tail : Text = put_bytes 2 (port % 2 ^ 16) in
    let head : Text = zeros ++ (3 ∷ length host % 256 ∷ host) ++ tail in
    let size : length head ≡ 5 + length host % 256 + 2 = omega (arith, length-append cs tail) in
    let off = after_port-append head payload (5 + length host % 256) size in
    let enough : ltb (length (head ++ payload)) socks5_udp_hdr_min ≡ false = ground (arith, long) in
    let room : ltb (length (head ++ payload)) 5 ≡ false = ground (arith, long) in
    rw (enough, room) off

-- A datagram that WriteTo makes and that is no shorter than the least header is read back as its
-- payload, whether its destination is a name, an IPv4 or an IPv6 address, at every port.
pub strip_socks_udp_header-write_to :
    (parse_ip : Text → Option Ip) (payload host : Text) (port : ℕ) (d : Text)
    → write_to parse_ip payload host port ≡ inr d
    → socks5_udp_hdr_min ≤ length d
    → strip_socks_udp_header d ≡ inr payload
unfolding write_to
strip_socks_udp_header-write_to parse_ip payload host port d e long =
    elim (Bool-cases (host == [])) [
      | inl q ↦ absurd (ground (arith, e))
      | inr named ↦ elim (Bool-cases (ltb 255 (length host))) [
        | inl q ↦ absurd (ground (arith, e))
        | inr short ↦ elim (Option-cases (parse_ip host)) [
          | inl n ↦
              let same : append_socks_addr zeros none host port ++ payload ≡ d =
                ground (arith, e) in
              subst (λ d. strip_socks_udp_header d ≡ inr payload) same
                (name_stripped host port payload (ground (arith, text_beq_iff host []))
                  (ground arith) (subst (λ d. socks5_udp_hdr_min ≤ length d) (sym same) long))
          | inr (ip, n) ↦
              let same : append_socks_addr zeros (some ip) [] port ++ payload ≡ d =
                ground (arith, e) in
              subst (λ d. strip_socks_udp_header d ≡ inr payload) same
                (address_stripped ip port payload)
        ]
      ]
    ]

after_port-suffix :
    (d : Text) (off : ℕ) (payload : Text)
    → after_port d off ≡ inr payload
    → (off + 2 ≤ length d) × (payload ≡ drop (off + 2) d)
after_port-suffix d off payload e = (ground arith, ground arith)

-- Whatever the relay sends, a payload that is taken from it is what follows a header of 10 bytes, of
-- 22, or of 7 and as many as its fifth byte says, which lies inside it; it has no fragment number, and
-- no byte outside the datagram is asked for.
pub strip_socks_udp_header_lem :
    (d payload : Text)
    → strip_socks_udp_header d ≡ inr payload
    → (byte_at d 2 ≡ 0)
      × ((off : ℕ) × ((off ≡ 10) ⊎ ((off ≡ 22) ⊎ (off ≡ 7 + byte_at d 4)))
          × (off ≤ length d)
          × (payload ≡ drop off d))
unfolding strip_socks_udp_header
strip_socks_udp_header_lem d payload e = elim (Bool-cases (byte_at d 2 == 0)) [
  | inr q ↦ absurd (ground (arith, e))
  | inl q ↦ elim (Bool-cases (byte_at d 3 == socks5_atyp_v4)) [
    | inl four ↦
        let h : after_port d 8 ≡ inr payload = ground (arith, e) in
        let (fits, same) = after_port-suffix d 8 payload h in
        (ground (arith, q), (10, inl refl, fits, same))
    | inr not_four ↦ elim (Bool-cases (byte_at d 3 == socks5_atyp_v6)) [
      | inl six ↦
          let h : after_port d 20 ≡ inr payload = ground (arith, e) in
          let (fits, same) = after_port-suffix d 20 payload h in
          (ground (arith, q), (22, inr (inl refl), fits, same))
      | inr not_six ↦
          let off = 5 + byte_at d 4 in
          let h : after_port d off ≡ inr payload = ground (arith, e) in
          let (fits, same) = after_port-suffix d off payload h in
          (ground (arith, q), (off + 2, inr (inr (omega arith)), fits, same))
    ]
  ]
]
