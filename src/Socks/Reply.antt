-- ===== src/Socks/Reply.antt =====
-- src/socks.cc: the replies of the two versions, and an address that the caller sets.
use stegotorus.Common.{
  ℕ, ◌==◌, if◌then◌else◌, Option, none, some, [], ◌∷◌, ◌++◌, length, get_or, slice, be16, byte_at,
}
use stegotorus.Common.Evbuffer.{Bytes, Evbuffer}
use stegotorus.Socks.{
  sent_reply, AddressFamily, inet, inet6, unspec, SocksState, SockAddr, sockaddr_in, sockaddr_in6,
  other_family, addr_size, Inet, write_array, c_string, added,
}

-- The status of a reply of SOCKS 5.
unfoldable pub socks5_status : Inet → ℕ → ℕ
socks5_status net error =
    if error == 0
    then 0
    else if error == net.enetunreach
    then 3
    else if error == net.ehostunreach
    then 4
    else if error == net.econnrefused
    then 5
    else 1

-- `socks_errno_to_reply`; `none` is its -1.
unfoldable pub socks_errno_to_reply : Inet → ℕ → ℕ → Option ℕ
socks_errno_to_reply net version error =
    if version == 4
    then some (if error == 0 then 0x5a else 0x5b)
    else if version == 5
    then some (socks5_status net error)
    else none

-- A port in network order.
abbrev pub port_bytes : ℕ → Bytes
port_bytes port = byte_at port 8 ∷ byte_at port 0 ∷ []

-- SOCKS5_FAILED_UNSUPPORTED
abbrev pub failed_unsupported : ℕ
failed_unsupported = 7

module _ (ev : Evbuffer) (net : Inet) where
  -- The first `n` bytes of the array that `evutil_inet_pton` fills, or not.
  abbrev pton_bytes : AddressFamily → Bytes → ℕ → Bytes
  pton_bytes af addr n = elim (net.pton af (c_string addr)) [
    | none ↦ slice net.junk 0 n
    | some b ↦ slice (λ i. get_or b i (net.junk i)) 0 n
  ]

  -- The address type, and the bytes of `addr` and `extra`; a call that adds no byte is left out.
  unfoldable pub reply_address : AddressFamily → Bytes → ℕ × Bytes × Bytes
  reply_address unspec addr = (3, length (c_string addr) ∷ [], c_string addr)
  reply_address inet addr = (1, pton_bytes inet addr 4, [])
  reply_address inet6 addr = (4, pton_bytes inet6 addr 16, [])

  -- The four calls of `evbuffer_add`.
  unfoldable pub write_reply : Bytes → ℕ → ℕ × Bytes × Bytes → ℕ → Bytes
  write_reply dest status (atyp, addr, extra) port =
      let dest = added ev dest (5 ∷ status ∷ 0 ∷ atyp ∷ []) in
      let dest = added ev dest addr in
      let dest : Bytes = elim extra [ [] ↦ dest | c ∷ cs ↦ added ev dest (c ∷ cs) ] in
      added ev dest (port_bytes port)

  unfoldable pub socks5_send_reply : Bytes → SocksState → ℕ → Bytes × SocksState
  unfolding write_reply reply_address
  socks5_send_reply dest st status = (
    (if status == failed_unsupported
        then write_reply dest status (1, 0 ∷ 0 ∷ 0 ∷ 0 ∷ [], []) 0
        else write_reply dest status (reply_address st.parsereq.af st.parsereq.addr)
            st.parsereq.port),
    record st { state = sent_reply },
  )

  unfoldable pub socks4_send_reply : Bytes → SocksState → ℕ → Bytes
  socks4_send_reply dest st status =
      let addr : Bytes = elim (net.pton inet (c_string st.parsereq.addr)) [
        | none ↦ 0 ∷ 0 ∷ 0 ∷ 0 ∷ []
        | some b ↦ slice (λ i. get_or b i (net.junk i)) 0 4
      ] in
      added ev dest (0 ∷ status ∷ port_bytes st.parsereq.port ++ addr)

  unfoldable pub send_reply_status : SocksState → Bytes → Option ℕ → SocksState × Bytes
  unfolding socks5_send_reply socks4_send_reply
  send_reply_status st dest none = (st, dest)
  send_reply_status st dest (some status) =
      if st.version == 5
      then (let (dest', st') = socks5_send_reply dest st status in (st', dest'))
      else if st.version == 4
      then (st, socks4_send_reply dest st status)
      else (st, dest)

  unfoldable pub socks_send_reply : SocksState → Bytes → ℕ → SocksState × Bytes
  unfolding send_reply_status
  socks_send_reply st dest error =
      send_reply_status st dest (socks_errno_to_reply net st.version error)

  -- An address in its array, its port and its family; `none` is -1, with the state as it was.
  abbrev stored : SocksState → AddressFamily → Bytes → ℕ → Option SocksState
  stored st af addr port = elim (net.ntop af addr addr_size) [
    | none ↦ none
    | some text ↦ some (record st {
      parsereq = record {
        af = af;
        addr = write_array st.parsereq.addr (text ++ 0 ∷ []);
        port = port;
      };
    })
  ]

  unfoldable pub socks_state_set_address : SocksState → SockAddr → Option SocksState
  socks_state_set_address st (sockaddr_in hi lo addr) = stored st inet addr (be16 hi lo)
  socks_state_set_address st (sockaddr_in6 hi lo addr) =
      if st.version == 4 then none else stored st inet6 addr (be16 hi lo)
  socks_state_set_address st (other_family af) = none
