-- ===== src/Socks/Request.antt =====
-- `socks5_handle_request` of src/socks.cc: a CONNECT request from the buffer, once it is there whole.
use stegotorus.Common.{
  ℕ, ◌+◌, ◌%◌, ◌^◌, not, ◌||◌, ltb, leb, ◌==◌, if◌then◌else◌, Option, none, some, [], ◌∷◌, ◌++◌,
  length, get_or, be16, Outcome, returns, log_assert, ◌>>=◌,
}
use stegotorus.Common.Evbuffer.{Bytes, Evbuffer}
use stegotorus.Socks.{
  SocksRet, good, incomplete, cmd_not_connect, AddressFamily, inet, inet6, unspec, ParseReq,
  addr_size, Inet, write_array,
}

-- SIZEOF_SOCKS5_STATIC_REQ
abbrev pub static_req : ℕ
static_req = 4

-- What the call returns, the buffer after it and `*parsereq`.
abbrev pub Parsed : Type 0
Parsed = Outcome (SocksRet × Bytes × ParseReq)

-- `goto err` where a call failed.
abbrev pub or_broken {ℓ} : {A : Type ℓ} → Option A → Bytes → ParseReq → (A → Parsed) → Parsed
or_broken none source req next = returns (SocksRet.broken, source, req)
or_broken (some a) source req next = next a

-- The `switch` on the type of the address: its length, its family and `extralen`.
abbrev pub address_type : Bytes → Option (ℕ × AddressFamily × ℕ)
address_type p =
    let atyp = get_or p 3 0 in
    if atyp == 1
    then some (4, inet, 0)
    else if atyp == 4
    then some (16, inet6, 0)
    else if atyp == 3
    then some (get_or p 4 0, unspec, 1)
    else none

module _ (ev : Evbuffer) (net : Inet) where
  -- From the length check of the address on: its text and the port go to `*parsereq`.
  unfoldable pub store_address : AddressFamily → ℕ → Bytes → Bytes → Bytes → ParseReq → Parsed
  store_address unspec addrlen destaddr destport source req =
      log_assert (ltb addrlen addr_size) >>= λ _. returns (
        good,
        source,
        record req {
          addr = write_array req.addr (destaddr ++ 0 ∷ []);
          port = be16 (get_or destport 0 0) (get_or destport 1 0);
          af = unspec;
        },
      )
  store_address af addrlen destaddr destport source req = log_assert (leb addrlen 16) >>= λ _.
      or_broken (net.ntop af destaddr addr_size) source req λ text. returns (
        good,
        source,
        record req {
          addr = write_array req.addr (text ++ 0 ∷ []);
          port = be16 (get_or destport 0 0) (get_or destport 1 0);
          af = af;
        },
      )

  -- The byte with the length of a name.
  abbrev pub drain_length : AddressFamily → Bytes → Option Bytes
  drain_length unspec source = ev.drain source 1
  drain_length af source = some source

  -- `evbuffer_remove` of exactly `n` bytes.
  abbrev pub remove_exactly : Bytes → ℕ → ParseReq → (Bytes → Bytes → Parsed) → Parsed
  remove_exactly source n req next =
      or_broken (ev.remove source n) source req
        λ r. (if length r.0 == n then next r.0 r.1 else returns (SocksRet.broken, r.1, req))

  unfoldable pub take_address : Bytes → ℕ → AddressFamily → ParseReq → Parsed
  take_address source addrlen af req = or_broken (ev.drain source static_req) source req λ source.
      or_broken (drain_length af source) source req λ source.
        remove_exactly source addrlen req λ destaddr source.
          remove_exactly source 2 req
            λ destport source. store_address af addrlen destaddr destport source req

  -- The tests on the five bytes of the head, and on the length of the whole.
  unfoldable pub check_request : Bytes → ℕ → Bytes → ParseReq → Parsed
  check_request p buflength source req =
      if not (get_or p 0 0 == 5) || not (get_or p 2 0 == 0)
      then returns (SocksRet.broken, source, req)
      else if not (get_or p 1 0 == 1)
      then returns (cmd_not_connect, source, req)
      else or_broken (address_type p) source req λ t.
        (if ltb buflength (static_req + t.0 + t.2 + 2)
          then returns (incomplete, source, req)
          else take_address source t.0 t.1 req)

  unfoldable pub socks5_handle_request : Bytes → ParseReq → Parsed
  socks5_handle_request source req =
      let buflength = length source % 2 ^ 32 in
      if ltb buflength (static_req + 1)
      then returns (incomplete, source, req)
      else or_broken (ev.copyout source (static_req + 1)) source req
          λ p. check_request p buflength source req
