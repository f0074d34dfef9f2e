-- ===== src/Socks/Parse.antt =====
-- src/socks.cc: what becomes of a CONNECT request of SOCKS 5.
use stegotorus.Common.{
  ℕ, ◌+◌, ◌%◌, ◌^◌, ◌<◌, ◌≤◌, ◌≡◌, refl, ◌∙◌, arith, true, false, ltb, ◌==◌, Option, some, [], ◌∷◌,
  ◌++◌, append_assoc, length, length-append, take, take-append, drop-append, byte_at, be16_bytes,
  IsU16, returns,
}
use stegotorus.Common.Evbuffer.{Bytes, Evbuffer, IsReliable}
use stegotorus.Socks.{
  good, AddressFamily, inet, inet6, unspec, ParseReq, addr_size, Inet, write_array,
}
use stegotorus.Socks.Request.{
  Parsed, remove_exactly, store_address, take_address, check_request, socks5_handle_request,
}

-- What a client can ask for, and the bytes that ask for it.
pub data Target : Type 0 where
  ipv4 : (a b c d : ℕ) → Target
  ipv6 : Bytes → Target
  name : Bytes → Target

abbrev pub family : Target → AddressFamily
family (ipv4 a b c d) = inet
family (ipv6 addr) = inet6
family (name addr) = unspec

abbrev pub raw : Target → Bytes
raw (ipv4 a b c d) = a ∷ b ∷ c ∷ d ∷ []
raw (ipv6 addr) = addr
raw (name addr) = addr

-- The type of the address, the address and the port.
abbrev pub address_part : Target → ℕ → Bytes
address_part (ipv4 a b c d) port = 1 ∷ a ∷ b ∷ c ∷ d ∷ byte_at port 8 ∷ byte_at port 0 ∷ []
address_part (ipv6 addr) port = 4 ∷ addr ++ byte_at port 8 ∷ byte_at port 0 ∷ []
address_part (name addr) port = 3 ∷ length addr ∷ addr ++ byte_at port 8 ∷ byte_at port 0 ∷ []

abbrev pub connect_request : Target → ℕ → Bytes
connect_request t port = 5 ∷ 1 ∷ 0 ∷ address_part t port

abbrev pub IsTarget : Target → Type 0
IsTarget (ipv4 a b c d) = Unit {0}
IsTarget (ipv6 addr) = length addr ≡ 16
IsTarget (name addr) = length addr < 256

abbrev pub extralen : Target → ℕ
extralen (ipv4 a b c d) = 0
extralen (ipv6 addr) = 0
extralen (name addr) = 1

-- The text that is stored.
abbrev pub text_of : Inet → Target → Option Bytes
text_of net (ipv4 a b c d) = net.ntop inet (a ∷ b ∷ c ∷ d ∷ []) addr_size
text_of net (ipv6 addr) = net.ntop inet6 addr addr_size
text_of net (name addr) = some addr

module _ (ev : Evbuffer) (laws : IsReliable ev) (net : Inet) where
  -- Behind the length test and the copy of the head.
  pub handle_head :
      (source : Bytes) (req : ParseReq)
      → 5 ≤ length source
      → length source < 2 ^ 32
      → socks5_handle_request ev net source req
        ≡ check_request ev net (take 5 source) (length source) source req
  unfolding socks5_handle_request
  handle_head source req long small =
      let whole : length source % 2 ^ 32 ≡ length source = omega arith in
      let enough : ltb (length source) 5 ≡ false = ground arith in
      rw (whole, enough, laws.copyout_lem source 5) refl

  remove-append :
      (got rest : Bytes) (req : ParseReq) (next : Bytes → Bytes → Parsed)
      → remove_exactly ev net (got ++ rest) (length got) req next ≡ next got rest
  remove-append got rest req next =
      let same : (length got == length got) ≡ true = ground arith in
      rw
        (
          laws.remove_lem (got ++ rest) (length got),
          take-append got rest,
          drop-append got rest,
          same,
        )
        refl

  remove_address :
      (af : AddressFamily) (addr rest : Bytes) (p q : ℕ) (req : ParseReq)
      → remove_exactly ev net (addr ++ p ∷ q ∷ rest) (length addr) req (λ destaddr source.
        remove_exactly ev net source 2 req
          λ destport source. store_address ev net af (length addr) destaddr destport source req)
        ≡ store_address ev net af (length addr) addr (p ∷ q ∷ []) rest req
  remove_address af addr rest p q req =
      rw
        (remove-append addr (p ∷ q ∷ rest) req (λ destaddr source.
          remove_exactly ev net source 2 req
            λ destport source. store_address ev net af (length addr) destaddr destport source req))
        (remove-append (p ∷ q ∷ []) rest req
          (λ destport source. store_address ev net af (length addr) addr destport source req))

  stored_address :
      (t : Target) (port : ℕ) (text rest : Bytes) (req : ParseReq)
      → IsTarget t
      → IsU16 port
      → text_of net t ≡ some text
      → store_address ev net
          (family t)
          (length (raw t))
          (raw t)
          (byte_at port 8 ∷ byte_at port 0 ∷ [])
          rest
          req
        ≡ returns (
          good,
          rest,
          record { af = family t; addr = write_array req.addr (text ++ 0 ∷ []); port = port },
        )
  unfolding store_address
  stored_address (ipv4 a b c d) port text rest req ok fits e = rw (e, be16_bytes port fits) refl
  stored_address (ipv6 addr) port text rest req ok fits e = rw (e, ok, be16_bytes port fits) refl
  stored_address (name addr) port text rest req ok fits e =
      let room : ltb (length addr) 256 ≡ true = ground arith in
      let same : addr ≡ text = cc in rw (room, be16_bytes port fits, same) refl

  taken_address :
      (t : Target) (port : ℕ) (rest : Bytes) (req : ParseReq)
      → take_address ev net (connect_request t port ++ rest) (length (raw t)) (family t) req
        ≡ store_address ev net
            (family t)
            (length (raw t))
            (raw t)
            (byte_at port 8 ∷ byte_at port 0 ∷ [])
            rest
            req
  unfolding take_address
  taken_address (ipv4 a b c d) port rest req =
      rw (laws.drain_lem (connect_request (ipv4 a b c d) port ++ rest) 4)
        (remove_address inet (a ∷ b ∷ c ∷ d ∷ []) rest (byte_at port 8) (byte_at port 0) req)
  taken_address (ipv6 addr) port rest req =
      rw
        (
          append_assoc addr (byte_at port 8 ∷ byte_at port 0 ∷ []) rest,
          laws.drain_lem (5 ∷ 1 ∷ 0 ∷ 4 ∷ addr ++ byte_at port 8 ∷ byte_at port 0 ∷ rest) 4,
        )
        (remove_address inet6 addr rest (byte_at port 8) (byte_at port 0) req)
  taken_address (name addr) port rest req =
      rw
        (
          append_assoc addr (byte_at port 8 ∷ byte_at port 0 ∷ []) rest,
          laws.drain_lem
              (5 ∷ 1 ∷ 0 ∷ 3 ∷ length addr ∷ addr ++ byte_at port 8 ∷ byte_at port 0 ∷ rest) 4,
          laws.drain_lem (length addr ∷ addr ++ byte_at port 8 ∷ byte_at port 0 ∷ rest) 1,
        )
        (remove_address unspec addr rest (byte_at port 8) (byte_at port 0) req)

  -- A whole request is not too short.
  pub length-connect_request :
      (t : Target) (port : ℕ) (rest : Bytes)
      → length (connect_request t port ++ rest) ≡ 6 + extralen t + length (raw t) + length rest
  length-connect_request (ipv4 a b c d) port rest = omega arith
  length-connect_request (ipv6 addr) port rest = omega (
    arith,
    length-append (addr ++ byte_at port 8 ∷ byte_at port 0 ∷ []) rest,
    length-append addr (byte_at port 8 ∷ byte_at port 0 ∷ []),
  )
  length-connect_request (name addr) port rest = omega (
    arith,
    length-append (addr ++ byte_at port 8 ∷ byte_at port 0 ∷ []) rest,
    length-append addr (byte_at port 8 ∷ byte_at port 0 ∷ []),
  )

  head_there :
      (t : Target) (port : ℕ) (rest : Bytes)
      → IsTarget t
      → 5 ≤ length (connect_request t port ++ rest)
  head_there (ipv4 a b c d) port rest ok = omega arith
  head_there (ipv6 addr) port rest ok =
      let size : length addr ≡ 16 = ok in
      omega (arith, length-connect_request (ipv6 addr) port rest)
  head_there (name addr) port rest ok = omega (arith, length-connect_request (name addr) port rest)

  checked_request :
      (t : Target) (port : ℕ) (rest : Bytes) (req : ParseReq)
      → IsTarget t
      → check_request ev net
          (take 5 (connect_request t port ++ rest))
          (length (connect_request t port ++ rest))
          (connect_request t port ++ rest)
          req
        ≡ take_address ev net (connect_request t port ++ rest) (length (raw t)) (family t) req
  unfolding check_request
  checked_request (ipv4 a b c d) port rest req ok =
      let enough : ltb (length (connect_request (ipv4 a b c d) port ++ rest)) 10 ≡ false =
        ground arith in
      rw enough refl
  checked_request (ipv6 addr) port rest req ok =
      let size : length addr ≡ 16 = ok in
      let enough : ltb (length (connect_request (ipv6 addr) port ++ rest)) 22 ≡ false =
        ground (arith, length-connect_request (ipv6 addr) port rest) in
      rw (enough, ok) refl
  checked_request (name addr) port rest req ok =
      let enough : ltb (length (connect_request (name addr) port ++ rest)) (4 + length addr + 1 + 2)
          ≡ false =
        ground (arith, length-connect_request (name addr) port rest) in
      rw enough refl

  -- A whole request at the start of the buffer, whatever follows, is taken from it exactly, and the
  -- family, the text and the port go to the request.
  pub socks5_handle_request-connect_request :
      (t : Target) (port : ℕ) (text rest : Bytes) (req : ParseReq)
      → IsTarget t
      → IsU16 port
      → text_of net t ≡ some text
      → length (connect_request t port ++ rest) < 2 ^ 32
      → socks5_handle_request ev net (connect_request t port ++ rest) req
        ≡ returns (
          good,
          rest,
          record { af = family t; addr = write_array req.addr (text ++ 0 ∷ []); port = port },
        )
  socks5_handle_request-connect_request t port text rest req ok fits e small =
      handle_head (connect_request t port ++ rest) req (head_there t port rest ok) small
      ∙ checked_request t port rest req ok
      ∙ taken_address t port rest req
      ∙ stored_address t port text rest req ok fits e
