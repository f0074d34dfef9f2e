-- ===== src/Socks/Version4.antt =====
-- `socks4_read_request` of src/socks.cc: a CONNECT request of SOCKS 4 or 4a, without the version byte.
use stegotorus.Common.{
  ℕ, ◌+◌, ◌-◌, ◌/◌, ◌%◌, ◌^◌, Bool, not, ◌&&◌, ltb, leb, ◌==◌, if◌then◌else◌, none, some, [], ◌∷◌,
  ◌++◌, length, get_or, take, drop, be16, be32, byte_at,
}
use stegotorus.Common.Evbuffer.{Bytes, Evbuffer}
use stegotorus.Socks.{
  SocksRet, good, incomplete, inet, ParseReq, addr_size, Inet, write_array, drained,
}

-- SOCKS4_MAX_LENGTH
abbrev pub socks4_max_length : ℕ
socks4_max_length = 8192

-- What the call returns, the buffer after it and `state->parsereq`.
abbrev pub Read : Type 0
Read = SocksRet × Bytes × ParseReq

-- An address below 1 in 2^24: a name follows the user.
abbrev pub is_v4a : ℕ → Bool
is_v4a ipaddr = not (ipaddr % 2 ^ 8 == 0) && (ipaddr / 2 ^ 8 == 0)

-- No zero in the buffer: more bytes are awaited, up to the limit.
abbrev pub unterminated : Bytes → ParseReq → Read
unterminated source req =
    (if ltb socks4_max_length (length source) then SocksRet.broken else incomplete, source, req)

-- `addr[n] = '\0'`
abbrev pub terminate : Bytes → ℕ → Bytes
terminate addr n = take n addr ++ 0 ∷ drop (n + 1) addr

module _ (ev : Evbuffer) (net : Inet) where
  -- `evbuffer_remove` into `addr`, whose result is not tested.
  abbrev pub remove_into : Bytes → ℕ → Bytes → Bytes × Bytes
  remove_into source n addr = elim (ev.remove source n) [
    | none ↦ (source, addr)
    | some (got, rest) ↦ (rest, write_array addr got)
  ]

  unfoldable pub take_name : Bytes → ℕ → ParseReq → Read
  take_name source hostname_len req =
      let (rest, addr) = remove_into source hostname_len req.addr in
      (good, drained ev rest 1, record req { addr = terminate addr hostname_len })

  unfoldable pub take_ipaddr : Bytes → ℕ → ParseReq → Read
  take_ipaddr source ipaddr req =
      elim (net.ntop inet
        (byte_at ipaddr 24 ∷ byte_at ipaddr 16 ∷ byte_at ipaddr 8 ∷ byte_at ipaddr 0 ∷ [])
        addr_size) [
          | none ↦ (SocksRet.broken, source, req)
          | some text ↦ (good, source, record req { addr = write_array req.addr (text ++ 0 ∷ []) })
        ]

  -- Behind the search for the end of the name. `-` on positions: a search never answers before its
  -- start.
  unfoldable pub with_name : Bytes → ℕ → ℕ → ℕ → ParseReq → Read
  with_name source portnum end_of_user end_of_hostname req =
      let hostname_len = end_of_hostname - end_of_user - 1 in
      if leb addr_size hostname_len
      then (SocksRet.broken, source, req)
      else take_name (drained ev source (end_of_user + 1)) hostname_len
          (record req { af = inet; port = portnum })

  -- Behind the search for the end of the user, at `end_of_user`; 7 + user_len + 1 bytes are drained.
  unfoldable pub after_user : Bytes → ℕ → ℕ → ℕ → ParseReq → Read
  after_user source portnum ipaddr end_of_user req =
      if is_v4a ipaddr
      then (if end_of_user == length source - 1
          then (incomplete, source, req)
          else elim (ev.search source 0 (end_of_user + 1)) [
            | none ↦ unterminated source req
            | some end_of_hostname ↦ with_name source portnum end_of_user end_of_hostname req
          ])
      else take_ipaddr (drained ev source (end_of_user + 1)) ipaddr
          (record req { af = inet; port = portnum })

  -- The seven bytes of `header`.
  unfoldable pub header_at : Bytes → ℕ → ℕ
  header_at source i = elim (ev.copyout source 7) [
    | none ↦ net.junk i
    | some h ↦ get_or h i (net.junk i)
  ]

  unfoldable pub socks4_read_request : Bytes → ParseReq → Read
  socks4_read_request source req =
      if ltb (length source) 7
      then (incomplete, source, req)
      else let header = header_at source in
        if not (header 0 == 1)
        then (SocksRet.broken, source, req)
        else elim (ev.search source 0 7) [
          | none ↦ unterminated source req
          | some end_of_user ↦
              after_user source (be16 (header 1) (header 2))
                (be32 (header 3) (header 4) (header 5) (header 6)) end_of_user req
        ]
