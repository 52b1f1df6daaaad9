-- ===== src/Socks/Handshake.antt =====
-- The handshake: what is sent before the proxy has agreed to a method, and the address that a reply
-- binds.
use em_wall.Prelude.{
  ℕ, zero, suc, ◌≤◌, ◌<◌, ◌≡◌, ◌⊎◌, inl, inr, refl, ◌+◌, ◌||◌, [], ◌∷◌, ◌++◌, Text, ◌==◌, nat_eq,
  text_eq, ltb, length, length-drop, drop, arith, if◌then◌else◌, Bool-cases,
}
use em_wall.Socks.{
  Proxy, Conn, Result, ok, failed, ◌>>=◌, take, byte_at, write, read_full, auth_message,
  socks5_user_pass_auth, greeting, method_chosen, socks5_negotiate, auth_failed,
}

-- The connection when an attempt ends, one way or the other.
unfoldable pub left_by : Result Conn → Conn
left_by (ok c) = c
left_by (failed e c) = c

-- The proxy has sent two bytes, the version and the method of names and passwords.
abbrev pub PicksPassword : Text → Type 0
PicksPassword incoming = (2 ≤ length incoming) × (byte_at incoming 0 ≡ 5) × (byte_at incoming 1 ≡ 2)

-- What an attempt may have sent: nothing, the greeting, or also the credentials.
unfoldable pub Sent : Proxy → Text → Text → Text → Type 0
Sent p incoming before after =
    (after ≡ before)
    ⊎ ((after ≡ before ++ greeting p)
        ⊎ (PicksPassword incoming × (after ≡ (before ++ greeting p) ++ auth_message p)))

-- What success takes: two bytes from the proxy with the method without credentials, or four with the
-- method for them and a good status.
unfoldable pub Agreed : Proxy → Text → Result Conn → Type 0
Agreed p incoming (failed e c) = Unit
Agreed p incoming (ok c) =
    (2 ≤ length incoming)
    × (byte_at incoming 0 ≡ 5)
    × ((byte_at incoming 1 ≡ 0)
        ⊎ ((4 ≤ length incoming)
            × (byte_at incoming 1 ≡ 2)
            × (byte_at incoming 3 ≡ 0)
            × (length p.username ≤ 255)
            × (length p.password ≤ 255)))

byte_at-take : (d : Text) (n i : ℕ) → i < n → byte_at (take n d) i ≡ byte_at d i
byte_at-take d zero i h = absurd (omega arith)
byte_at-take [] (suc n) i h = refl
byte_at-take (b ∷ d) (suc n) zero h = refl
byte_at-take (b ∷ d) (suc n) (suc i) h = byte_at-take d n i (omega arith)

status-drop : (d : Text) → byte_at (drop 2 d) 1 ≡ byte_at d 3
status-drop [] = refl
status-drop (a ∷ []) = refl
status-drop (a ∷ b ∷ d) = refl

module _ (p : Proxy) where
  -- A result that keeps to both.
  unfoldable pub Proper : Text → Text → Result Conn → Type 0
  Proper incoming before r = Sent p incoming before (left_by r).outgoing × Agreed p incoming r

  -- the credentials are sent; the status is what is left to read
  status_read :
      (incoming before rest : Text) (k : ℕ)
      → PicksPassword incoming
      → length incoming ≡ length rest + 2
      → byte_at rest 1 ≡ byte_at incoming 3
      → (length p.username ≤ 255) × (length p.password ≤ 255)
      → let c : Conn = record {
        incoming = rest;
        outgoing = (before ++ greeting p) ++ auth_message p;
        writes_left = k;
      } in
        Proper incoming before
          (read_full 2 c >>= λ x. if byte_at x.0 1 == 0 then ok x.1 else failed auth_failed x.1)
  unfolding read_full left_by Sent Agreed Proper
  status_read incoming before rest k picks more_left next short =
      let first = byte_at-take rest 2 1 (omega arith) in
      elim (Bool-cases (ltb (length rest) 2)) [
        | inl few ↦ rw few (inr (inr (picks, refl)), tt)
        | inr more ↦ elim (Bool-cases (byte_at (take 2 rest) 1 == 0)) [
          | inl good ↦
              rw (more, good)
                (
                  inr (inr (picks, refl)),
                  (
                    picks.0,
                    picks.1,
                    inr (
                      ground (arith, more, more_left),
                      picks.2,
                      ground (arith, good, first, next),
                      short.0,
                      short.1,
                    ),
                  ),
                )
          | inr bad ↦ rw (more, bad) (inr (inr (picks, refl)), tt)
        ]
      ]

  auth_sent :
      (incoming before rest : Text) (k : ℕ)
      → PicksPassword incoming
      → length incoming ≡ length rest + 2
      → byte_at rest 1 ≡ byte_at incoming 3
      → Proper incoming before (
          socks5_user_pass_auth p
            (record { incoming = rest; outgoing = before ++ greeting p; writes_left = k }))
  unfolding socks5_user_pass_auth write left_by Sent Agreed Proper
  auth_sent incoming before rest zero picks left next =
      elim (Bool-cases (ltb 255 (length p.username) || ltb 255 (length p.password))) [
        | inl long ↦ rw long (inr (inl refl), tt)
        | inr short ↦ rw short (inr (inl refl), tt)
      ]
  auth_sent incoming before rest (suc k) picks left next =
      elim (Bool-cases (ltb 255 (length p.username) || ltb 255 (length p.password))) [
        | inl long ↦ rw long (inr (inl refl), tt)
        | inr short ↦ rw short (
            status_read incoming before rest k picks left next
              (ground (arith, short), ground (arith, short)))
      ]

  chosen :
      (incoming before rest : Text) (version method k : ℕ)
      → 2 ≤ length incoming
      → version ≡ byte_at incoming 0
      → method ≡ byte_at incoming 1
      → length incoming ≡ length rest + 2
      → byte_at rest 1 ≡ byte_at incoming 3
      → Proper incoming before (
          method_chosen p version method
            (record { incoming = rest; outgoing = before ++ greeting p; writes_left = k }))
  unfolding method_chosen left_by Sent Agreed Proper
  chosen incoming before rest version method k two_bytes v m left next =
      elim (Bool-cases (version == 5)) [
        | inr other ↦ rw other (inr (inl refl), tt)
        | inl five ↦
            let is_five : byte_at incoming 0 ≡ 5 = ground arith in
            elim (Bool-cases (method == 0)) [
              | inl plain ↦
                  rw (five, plain) (inr (inl refl), (two_bytes, is_five, inl (ground arith)))
              | inr secret ↦ elim (Bool-cases (method == 2)) [
                | inl two ↦
                    rw (five, secret, two)
                      (auth_sent incoming before rest k (two_bytes, is_five, ground arith) left
                        next)
                | inr neither ↦ elim (Bool-cases (method == 0xff)) [
                  | inl q ↦ rw (five, secret, neither, q) (inr (inl refl), tt)
                  | inr q ↦ rw (five, secret, neither, q) (inr (inl refl), tt)
                ]
              ]
            ]
      ]

  -- Whatever the proxy sends, and wherever a write or a read fails: the credentials go out only once
  -- the proxy has sent two bytes, the version and the method for them, and nothing but the greeting
  -- goes out before. A negotiation succeeds only where the proxy has sent two bytes with the method
  -- without credentials, or four with the method for them and the status 0, for credentials that fit
  -- their length bytes; a proxy that closes earlier makes it fail.
  pub socks5_negotiate_lem : (c : Conn) → Proper c.incoming c.outgoing (socks5_negotiate p c)
  unfolding socks5_negotiate write read_full left_by Sent Agreed Proper
  socks5_negotiate_lem c = by_writes c.writes_left
    where
      by_writes :
          (k : ℕ) → Proper c.incoming c.outgoing (socks5_negotiate p (record c { writes_left = k }))
      by_writes zero = (inl refl, tt)
      by_writes (suc k) =
          let inc = c.incoming in
          let version = byte_at-take inc 2 0 (omega arith) in
          let method = byte_at-take inc 2 1 (omega arith) in
          let left = length-drop 2 inc in
          elim (Bool-cases (ltb (length inc) 2)) [
            | inl few ↦ rw few (inr (inl refl), tt)
            | inr more ↦ rw more (
                chosen inc c.outgoing (drop 2 inc) (byte_at (take 2 inc) 0) (byte_at (take 2 inc) 1)
                  k (ground (arith, more)) version method (ground (arith, more, left))
                  (status-drop inc))
          ]
