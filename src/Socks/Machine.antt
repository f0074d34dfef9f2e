-- ===== src/Socks/Machine.antt =====
-- `handle_socks` of src/socks.cc as a state machine, over any libevent: it always returns, and its
-- answer says in which state the connection is.
use stegotorus.Common.{
  ℕ, ◌+◌, ◌%◌, ◌^◌, ◌<◌, ◌≡◌, refl, ap, arith, true, false, not, ◌||◌, ◌&&◌, ltb, leb, ◌==◌,
  Bool-cases, if-false, inl, inr, Option, none, some, length, get_or, Ensures, Ensures-bind,
}
use stegotorus.Common.Evbuffer.{Bytes, Evbuffer}
use stegotorus.Socks.{
  SocksRet, good, incomplete, cmd_not_connect, AddressFamily, inet, inet6, unspec, SocksStatus,
  waiting, negotiation_done, have_addr, sent_reply, SocksState, ParseReq, addr_size, Inet,
}
use stegotorus.Socks.Request.{
  Parsed, or_broken, address_type, drain_length, remove_exactly, store_address, take_address,
  check_request, socks5_handle_request,
}
use stegotorus.Socks.Version4.{socks4_read_request}
use stegotorus.Socks.Negotiation.{socks5_handle_negotiation}
use stegotorus.Socks.Handle.{
  Handled, expects_input, finish_v4, finish_v5, version4_in, request_v5, negotiated, version5_in,
  dispatch, remove_version, read_version, handle_socks,
}

-- What a request leaves alone: everything where it waits or refuses the command, and `*parsereq`
-- where it fails.
abbrev pub Kept : Bytes → ParseReq → SocksRet × Bytes × ParseReq → Type 0
Kept source req (good, s, q) = Unit {0}
Kept source req (incomplete, s, q) = (s ≡ source) × (q ≡ req)
Kept source req (cmd_not_connect, s, q) = (s ≡ source) × (q ≡ req)
Kept source req (SocksRet.broken, s, q) = q ≡ req

-- The lengths of addresses that the assertions let pass.
abbrev Fits : AddressFamily → ℕ → Type 0
Fits unspec n = n < 256
Fits inet n = n < 17
Fits inet6 n = n < 17

abbrev Fitting : Option (ℕ × AddressFamily × ℕ) → Type 0
Fitting none = Unit {0}
Fitting (some t) = Fits t.1 t.0

address_type-Fitting : (p : Bytes) → get_or p 4 0 < 256 → Fitting (address_type p)
address_type-Fitting p h = elim (Bool-cases (get_or p 3 0 == 1)) [
  | inl e ↦ rw e (omega arith)
  | inr a ↦ elim (Bool-cases (get_or p 3 0 == 4)) [
    | inl e ↦ rw (a, e) (omega arith)
    | inr b ↦ elim (Bool-cases (get_or p 3 0 == 3)) [
      | inl e ↦ rw (a, b, e) h
      | inr c ↦ rw (a, b, c) tt
    ]
  ]
]

module _ (source : Bytes) (req : ParseReq) where
  or_broken-Kept {ℓ} :
      {A : Type ℓ} (o : Option A) (s : Bytes) (next : A → Parsed)
      → ((a : A) → o ≡ some a → Ensures (Kept source req) (next a))
      → Ensures (Kept source req) (or_broken o s req next)
  or_broken-Kept none s next h = refl
  or_broken-Kept (some a) s next h = h a refl

  module _ (ev : Evbuffer) (net : Inet) where
    remove_exactly-Kept :
        (s : Bytes) (n : ℕ) (next : Bytes → Bytes → Parsed)
        → ((got rest : Bytes) → Ensures (Kept source req) (next got rest))
        → Ensures (Kept source req) (remove_exactly ev net s n req next)
    remove_exactly-Kept s n next h = or_broken-Kept (ev.remove s n) s _ λ r e.
        elim (Bool-cases (length r.0 == n)) [
          | inl all ↦ rw all (h r.0 r.1)
          | inr short ↦ rw short refl
        ]

    store_address-Kept :
        (af : AddressFamily) (addrlen : ℕ) (destaddr destport s : Bytes)
        → Fits af addrlen
        → Ensures (Kept source req) (store_address ev net af addrlen destaddr destport s req)
    unfolding store_address
    store_address-Kept unspec addrlen destaddr destport s fits =
        let room : ltb addrlen 256 ≡ true = ground arith in rw room tt
    store_address-Kept inet addrlen destaddr destport s fits =
        let room : leb addrlen 16 ≡ true = ground arith in
        rw room (or_broken-Kept (net.ntop inet destaddr addr_size) s _ λ text e. tt)
    store_address-Kept inet6 addrlen destaddr destport s fits =
        let room : leb addrlen 16 ≡ true = ground arith in
        rw room (or_broken-Kept (net.ntop inet6 destaddr addr_size) s _ λ text e. tt)

    take_address-Kept :
        (s : Bytes) (addrlen : ℕ) (af : AddressFamily)
        → Fits af addrlen
        → Ensures (Kept source req) (take_address ev net s addrlen af req)
    unfolding take_address
    take_address-Kept s addrlen af fits = or_broken-Kept (ev.drain s 4) s _ λ s1 e1.
        or_broken-Kept (drain_length ev net af s1) s1 _ λ s2 e2.
          remove_exactly-Kept s2 addrlen _ λ destaddr s3.
            remove_exactly-Kept s3 2 _
              λ destport s4. store_address-Kept af addrlen destaddr destport s4 fits

    check_request-Kept :
        (p : Bytes) (n : ℕ)
        → get_or p 4 0 < 256
        → Ensures (Kept source req) (check_request ev net p n source req)
    unfolding check_request
    check_request-Kept p n h =
        elim (Bool-cases (not (get_or p 0 0 == 5) || not (get_or p 2 0 == 0))) [
          | inl invalid ↦ rw invalid refl
          | inr a ↦ elim (Bool-cases (not (get_or p 1 0 == 1))) [
            | inl other ↦ rw (a, other) (refl, refl)
            | inr b ↦
                rw (a, b)
                  (or_broken-Kept (address_type p) source _ λ t e.
                    (let fits : Fits t.1 t.0 = rw e at (address_type-Fitting p h) in
                      elim (Bool-cases (ltb n (4 + t.0 + t.2 + 2))) [
                        | inl short ↦ rw short (refl, refl)
                        | inr long ↦ rw long (take_address-Kept source t.0 t.1 fits)
                      ]))
          ]
        ]

-- `socks5_handle_request` returns, whatever libevent does, if the bytes it copies out are bytes. Where
-- it waits for more or refuses the command it has taken nothing from the buffer and left the request
-- alone, and where it fails it has left the request alone.
pub socks5_handle_request-Kept :
    (ev : Evbuffer) (net : Inet) (source : Bytes) (req : ParseReq)
    → ((b p : Bytes) → ev.copyout b 5 ≡ some p → get_or p 4 0 < 256)
    → Ensures (Kept source req) (socks5_handle_request ev net source req)
unfolding socks5_handle_request
socks5_handle_request-Kept ev net source req bytes =
    elim (Bool-cases (ltb (length source % 2 ^ 32) 5)) [
      | inl short ↦ rw short (refl, refl)
      | inr long ↦ rw long (
          or_broken-Kept source req (ev.copyout source 5) source _ λ p e.
            check_request-Kept source req ev net p (length source % 2 ^ 32) (bytes source p e))
    ]

-- What the answer says of the state that is left.
abbrev pub Answered : SocksRet → SocksState → Type 0
Answered good st = (st.state ≡ have_addr) × (st.is_broken ≡ false)
Answered incomplete st = (expects_input st.state ≡ true) × (st.is_broken ≡ false)
Answered cmd_not_connect st = (st.state ≡ negotiation_done) × (st.is_broken ≡ true)
Answered SocksRet.broken st = st.is_broken ≡ true

abbrev pub Consistent : Handled → Type 0
Consistent h = Answered h.ret h.left

finish_v5-Consistent :
    (r : SocksRet) (source dest : Bytes) (st : SocksState)
    → st.state ≡ negotiation_done
    → st.is_broken ≡ false
    → Consistent (finish_v5 r source dest st)
unfolding finish_v5
finish_v5-Consistent good source dest st e b = (refl, b)
finish_v5-Consistent incomplete source dest st e b = (ap expects_input e, b)
finish_v5-Consistent cmd_not_connect source dest st e b = (e, refl)
finish_v5-Consistent SocksRet.broken source dest st e b = refl

finish_v4-Consistent :
    (r : SocksRet) (source dest : Bytes) (st : SocksState)
    → st.state ≡ waiting
    → st.is_broken ≡ false
    → Consistent (finish_v4 r source dest st)
unfolding finish_v4
finish_v4-Consistent good source dest st e b = (refl, b)
finish_v4-Consistent incomplete source dest st e b = (ap expects_input e, b)
finish_v4-Consistent cmd_not_connect source dest st e b = (refl, b)
finish_v4-Consistent SocksRet.broken source dest st e b = refl

module _ (ev : Evbuffer) (net : Inet)
    (bytes : (b p : Bytes) → ev.copyout b 5 ≡ some p → get_or p 4 0 < 256) where
  request_v5-Consistent :
      (source dest : Bytes) (st : SocksState)
      → st.state ≡ negotiation_done
      → st.is_broken ≡ false
      → Ensures Consistent (request_v5 ev net source dest st)
  unfolding request_v5
  request_v5-Consistent source dest st e b =
      Ensures-bind (Kept source st.parsereq) Consistent
        (socks5_handle_request ev net source st.parsereq) _
        (socks5_handle_request-Kept ev net source st.parsereq bytes)
        λ r kept. finish_v5-Consistent r.0 r.1 dest (record st { parsereq = r.2 }) e b

  negotiated-Consistent :
      (r : SocksRet) (source dest : Bytes) (st : SocksState)
      → st.state ≡ waiting
      → st.is_broken ≡ false
      → Ensures Consistent (negotiated ev net r source dest st)
  unfolding negotiated
  negotiated-Consistent good source dest st e b =
      request_v5-Consistent source dest (record st { state = negotiation_done }) refl b
  negotiated-Consistent incomplete source dest st e b = (ap expects_input e, b)
  negotiated-Consistent cmd_not_connect source dest st e b = (ap expects_input e, b)
  negotiated-Consistent SocksRet.broken source dest st e b = refl

  version5_in-Consistent :
      (s : SocksStatus) (source dest : Bytes) (st : SocksState)
      → st.state ≡ s
      → expects_input s ≡ true
      → st.is_broken ≡ false
      → Ensures Consistent (version5_in ev net s source dest st)
  unfolding version5_in
  version5_in-Consistent waiting source dest st e h b =
      let r = socks5_handle_negotiation ev net source dest in
      negotiated-Consistent r.0 r.1 r.2 st e b
  version5_in-Consistent negotiation_done source dest st e h b =
      request_v5-Consistent source dest st e b
  version5_in-Consistent have_addr source dest st e h b = absurd (cc)
  version5_in-Consistent sent_reply source dest st e h b = absurd (cc)

  version4_in-Consistent :
      (s : SocksStatus) (source dest : Bytes) (st : SocksState)
      → st.state ≡ s
      → expects_input s ≡ true
      → st.is_broken ≡ false
      → Consistent (version4_in ev net s source dest st)
  unfolding version4_in
  version4_in-Consistent waiting source dest st e h b =
      let r = socks4_read_request ev net source st.parsereq in
      finish_v4-Consistent r.0 r.1 dest (record st { parsereq = r.2 }) e b
  version4_in-Consistent negotiation_done source dest st e h b = (ap expects_input e, b)
  version4_in-Consistent have_addr source dest st e h b = absurd (cc)
  version4_in-Consistent sent_reply source dest st e h b = absurd (cc)

  dispatch-Consistent :
      (source dest : Bytes) (st : SocksState)
      → expects_input st.state ≡ true
      → st.is_broken ≡ false
      → Ensures Consistent (dispatch ev net source dest st)
  unfolding dispatch
  dispatch-Consistent source dest st h b = elim (Bool-cases (st.version == 4)) [
    | inl four ↦ rw four (version4_in-Consistent st.state source dest st refl h b)
    | inr not4 ↦ elim (Bool-cases (st.version == 5)) [
      | inl five ↦ rw (not4, five) (version5_in-Consistent st.state source dest st refl h b)
      | inr not5 ↦ rw (not4, not5) refl
    ]
  ]

  read_version-Consistent :
      (source dest : Bytes) (st : SocksState)
      → expects_input st.state ≡ true
      → st.is_broken ≡ false
      → Ensures Consistent (read_version ev net source dest st)
  unfolding read_version
  read_version-Consistent source dest st h b =
      let v = (remove_version ev net source).0 in
      let rest = (remove_version ev net source).1 in
      elim (Bool-cases (not (v == 5) && not (v == 4))) [
        | inl other ↦ rw other refl
        | inr known ↦ rw known (dispatch-Consistent rest dest (record st { version = v }) h b)
      ]

-- From a state that expects input and is not broken a call always returns. On SOCKS_GOOD the state is
-- ST_HAVE_ADDR; on SOCKS_INCOMPLETE it still expects input; after SOCKS_CMD_NOT_CONNECT, which leaves
-- the state at ST_NEGOTIATION_DONE, and after SOCKS_BROKEN, it is marked as broken, and only then.
pub handle_socks-Consistent :
    (ev : Evbuffer) (net : Inet) (source dest : Bytes) (st : SocksState)
    → ((b p : Bytes) → ev.copyout b 5 ≡ some p → get_or p 4 0 < 256)
    → expects_input st.state ≡ true
    → st.is_broken ≡ false
    → Ensures Consistent (handle_socks ev net source dest st)
unfolding handle_socks
handle_socks-Consistent ev net source dest st bytes h b =
    if-false (Ensures Consistent) st.is_broken _ _ b (elim (Bool-cases (ltb (length source) 3)) [
      | inl short ↦ rw short (h, b)
      | inr long ↦ elim (Bool-cases (st.version == 0)) [
        | inl fresh ↦ rw (long, h, fresh) (read_version-Consistent ev net bytes source dest st h b)
        | inr known ↦ rw (long, h, known) (dispatch-Consistent ev net bytes source dest st h b)
      ]
    ])
