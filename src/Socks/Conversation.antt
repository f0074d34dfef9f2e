-- ===== src/Socks/Conversation.antt =====
-- src/socks.cc: a whole conversation of SOCKS 5, the reply included.
use stegotorus.Common.{
  ℕ, ◌+◌, ◌^◌, ◌<◌, ◌≡◌, refl, ap, sym, ◌∙◌, arith, true, false, ltb, ◌==◌, some, [], ◌∷◌, ◌++◌,
  append_assoc, length, length-append, drop, take-append, drop-append, slice, slice-get_or, get_or,
  IsU16, All, returns,
}
use stegotorus.Common.Evbuffer.{Bytes, Evbuffer, IsReliable}
use stegotorus.Socks.{
  good, AddressFamily, inet, inet6, have_addr, sent_reply, ParseReq, SocksState, socks_state_new,
  addr_size, Inet, drained, added, write_array, c_string,
}
use stegotorus.Socks.Negotiation.{
  found_noauth, nmethods, socks5_do_negotiation, socks5_handle_negotiation,
}
use stegotorus.Socks.Handle.{
  answer, request_v5, negotiated, remove_version, read_version, handle_socks,
}
use stegotorus.Socks.Reply.{
  write_reply, port_bytes, failed_unsupported, socks5_status, socks_errno_to_reply,
  socks_send_reply, reply_address,
}
use stegotorus.Socks.Parse.{
  Target, ipv4, ipv6, name, family, address_part, connect_request, IsTarget, text_of,
  socks5_handle_request-connect_request,
}

-- What a client sends first, and the state with which `handle_socks` leaves the connection.
abbrev pub greeting : Bytes → Bytes
greeting methods = 5 ∷ length methods ∷ methods

abbrev pub stored : Target → ℕ → Bytes → ParseReq → ParseReq
stored t port text req = record {
  af = family t;
  addr = write_array req.addr (text ++ 0 ∷ []);
  port = port;
}

module _ (ev : Evbuffer) (laws : IsReliable ev) (net : Inet) where
  nmethods_first : (n : ℕ) (xs : Bytes) → nmethods ev net (n ∷ xs) ≡ n
  unfolding nmethods
  nmethods_first n xs = rw (laws.copyout_lem (n ∷ xs) 1, nmethods) refl

  do_negotiation_success :
      (dest : Bytes) → socks5_do_negotiation ev net dest true ≡ (good, dest ++ 5 ∷ 0 ∷ [])
  unfolding socks5_do_negotiation
  do_negotiation_success dest = rw (laws.add_lem dest (5 ∷ 0 ∷ []), socks5_do_negotiation) refl

  negotiation-greeting :
      (methods rest dest : Bytes)
      → found_noauth ev net methods ≡ true
      → socks5_handle_negotiation ev net (length methods ∷ methods ++ rest) dest
        ≡ (good, rest, dest ++ 5 ∷ 0 ∷ [])
  unfolding socks5_handle_negotiation socks5_do_negotiation
  negotiation-greeting methods rest dest found =
      let enough : ltb (length (length methods ∷ methods ++ rest)) (length methods + 1) ≡ false =
        ground (arith, length-append methods rest) in
      rw
        (
          nmethods_first (length methods) (methods ++ rest),
          enough,
          laws.drain_lem (length methods ∷ methods ++ rest) 1,
          drained,
          laws.remove_lem (methods ++ rest) (length methods),
          take-append methods rest,
          drop-append methods rest,
          nmethods_first (length methods) (methods ++ rest),
          slice-get_or methods net.junk,
          found,
          do_negotiation_success dest,
        )
        refl

  -- A new client that offers the method 0 among its methods and at once asks to connect to a target is
  -- answered SOCKS_GOOD in one call: both messages are taken from the buffer and no more, the choice of
  -- method 0 goes to the client, and the state holds the version, the family, the text and the port.
  pub handle_socks-greeting :
      (t : Target) (port : ℕ) (text methods rest dest : Bytes)
      → found_noauth ev net methods ≡ true
      → IsTarget t
      → IsU16 port
      → text_of net t ≡ some text
      → length (connect_request t port ++ rest) < 2 ^ 32
      → handle_socks ev net
          (greeting methods ++ (connect_request t port ++ rest))
          dest
          socks_state_new
        ≡ returns (
            answer good rest (dest ++ 5 ∷ 0 ∷ []) (record socks_state_new {
              state = have_addr;
              version = 5;
              parsereq = stored t port text socks_state_new.parsereq;
            }))
  unfolding handle_socks socks_state_new
  handle_socks-greeting t port text methods rest dest found ok fits e small =
      let after = methods ++ (connect_request t port ++ rest) in
      let long : ltb (length (5 ∷ length methods ∷ after)) 3 ≡ false =
        ground (arith, length-append methods (connect_request t port ++ rest)) in
      rw (long, laws.remove_lem (5 ∷ length methods ∷ after) 1, read_version, remove_version)
        (rw
          (
            negotiation-greeting methods (connect_request t port ++ rest) dest found,
            socks5_handle_request-connect_request ev laws net t port text rest
                socks_state_new.parsereq ok fits e small,
            negotiated,
            request_v5,
          )
          refl)

-- inet_pton reads the text of inet_ntop back, and the text holds no zero.
pub record IsInverse (net : Inet) : Type 0 where
  pub pton_ntop_inet :
      (a b c d : ℕ) (text : Bytes)
      → net.ntop inet (a ∷ b ∷ c ∷ d ∷ []) addr_size ≡ some text
      → net.pton inet text ≡ some (a ∷ b ∷ c ∷ d ∷ [])
  pub pton_ntop_inet6 :
      (addr text : Bytes)
      → length addr ≡ 16
      → net.ntop inet6 addr addr_size ≡ some text
      → net.pton inet6 text ≡ some addr
  pub ntop_text :
      (af : AddressFamily) (addr text : Bytes)
      → net.ntop af addr addr_size ≡ some text
      → All (λ c. 0 < c) text

-- A name has no zero in it.
abbrev pub IsText : Target → Type 0
IsText (ipv4 a b c d) = Unit {0}
IsText (ipv6 addr) = Unit {0}
IsText (name addr) = All (λ c. 0 < c) addr

c_string-append : (text rest : Bytes) → All (λ c. 0 < c) text → c_string (text ++ 0 ∷ rest) ≡ text
c_string-append [] rest h = refl
c_string-append (c ∷ cs) rest h =
    let more : (c == 0) ≡ false = ground arith in
    rw (more, c_string) (ap (◌∷◌ c) (c_string-append cs rest h.1))

c_string-write_array :
    (text old : Bytes) → All (λ c. 0 < c) text → c_string (write_array old (text ++ 0 ∷ [])) ≡ text
c_string-write_array text old h =
    rw (append_assoc text (0 ∷ []) (drop (length (text ++ 0 ∷ [])) old))
      (c_string-append text (drop (length (text ++ 0 ∷ [])) old) h)

supported : (net : Inet) (error : ℕ) → (socks5_status net error == failed_unsupported) ≡ false
unfolding socks5_status
supported net error = ground arith

module _ (ev : Evbuffer) (laws : IsReliable ev) (net : Inet) (inverse : IsInverse net) where
  -- The three parts of the reply that depend on the target, joined.
  reply_address-stored :
      (t : Target) (port : ℕ) (text old : Bytes)
      → IsTarget t
      → IsText t
      → text_of net t ≡ some text
      → (let (atyp, addr, extra) =
            reply_address ev net (family t) (write_array old (text ++ 0 ∷ [])) in
          atyp ∷ addr ++ (extra ++ port_bytes port) ≡ address_part t port)
  unfolding reply_address
  reply_address-stored (ipv4 a b c d) port text old ok clean e =
      rw
        (
          c_string-write_array text old (inverse.ntop_text inet (a ∷ b ∷ c ∷ d ∷ []) text e),
          inverse.pton_ntop_inet a b c d text e,
        )
        refl
  reply_address-stored (ipv6 addr) port text old ok clean e =
      let sized : slice (λ i. get_or addr i (net.junk i)) 0 16 ≡ addr =
        ap (λ (n : ℕ). slice (λ i. get_or addr i (net.junk i)) 0 n) (sym ok)
        ∙ slice-get_or addr net.junk in
      rw
        (
          c_string-write_array text old (inverse.ntop_text inet6 addr text e),
          inverse.pton_ntop_inet6 addr text ok e,
        )
        (ap (λ (b : Bytes). 4 ∷ b ++ port_bytes port) sized)
  reply_address-stored (name addr) port text old ok clean e =
      let same : addr ≡ text = cc in
      rw
        (
          c_string-write_array text old (let h : All (λ c. 0 < c) addr = clean in rw same at h),
          same,
        )
        refl

  added_lem : (b c : Bytes) → added ev b c ≡ b ++ c
  added_lem b c = rw (laws.add_lem b c, added) refl

  write_reply_lem :
      (dest addr extra : Bytes) (status atyp port : ℕ)
      → write_reply ev net dest status (atyp, addr, extra) port
        ≡ dest ++ (5 ∷ status ∷ 0 ∷ atyp ∷ addr ++ (extra ++ port_bytes port))
  unfolding write_reply
  write_reply_lem dest addr [] status atyp port = simp (added_lem, append_assoc)
  write_reply_lem dest addr (c ∷ cs) status atyp port = simp (added_lem, append_assoc)

  -- The reply to a request that a SOCKS 5 client made repeats the address and the port of the request,
  -- behind the version, the status of the error and a zero, and the connection is in ST_SENT_REPLY.
  pub socks_send_reply-stored :
      (t : Target) (port error : ℕ) (text dest : Bytes) (st : SocksState)
      → IsTarget t
      → IsText t
      → text_of net t ≡ some text
      → socks_send_reply ev net
          (record st { version = 5; parsereq = stored t port text st.parsereq })
          dest
          error
        ≡ (
          record st { version = 5; parsereq = stored t port text st.parsereq; state = sent_reply },
          dest ++ 5 ∷ socks5_status net error ∷ 0 ∷ address_part t port,
        )
  unfolding socks_send_reply socks_errno_to_reply
  socks_send_reply-stored t port error text dest st ok clean e =
      let parts = reply_address ev net (family t) (write_array st.parsereq.addr (text ++ 0 ∷ [])) in
      rw
        (
          supported net error,
          write_reply_lem dest parts.1 parts.2 (socks5_status net error) parts.0 port,
        )
        (ap
          (λ (b : Bytes). (
            record st {
              version = 5;
              parsereq = stored t port text st.parsereq;
              state = sent_reply;
            },
            dest ++ (5 ∷ socks5_status net error ∷ 0 ∷ b),
          ))
          (reply_address-stored t port text st.parsereq.addr ok clean e))
