-- ===== src/Socks/Partial.antt =====
-- `socks5_handle_request` of src/socks.cc on a request that is not there whole.
use stegotorus.Common.{
  ℕ, zero, suc, ◌+◌, ◌%◌, ◌^◌, ◌<◌, ◌≤◌, ◌≡◌, refl, ap, sym, ◌∙◌, arith, true, ltb, Bool-cases, inl,
  inr, [], ◌∷◌, ◌++◌, append-nil, length, length-append, take, returns,
}
use stegotorus.Common.Evbuffer.{Bytes, Evbuffer, IsReliable}
use stegotorus.Socks.{incomplete, ParseReq, Inet}
use stegotorus.Socks.Request.{check_request, socks5_handle_request}
use stegotorus.Socks.Parse.{
  Target, ipv4, ipv6, name, connect_request, IsTarget, handle_head, length-connect_request,
}

take_prefix : (n : ℕ) (xs ys : Bytes) → n ≤ length xs → take n (xs ++ ys) ≡ take n xs
take_prefix zero xs ys h = refl
take_prefix (suc n) [] ys h = absurd (omega arith)
take_prefix (suc n) (x ∷ xs) ys h = ap (◌∷◌ x) (take_prefix n xs ys (omega arith))

module _ (ev : Evbuffer) (laws : IsReliable ev) (net : Inet) where
  -- The head of a request, with fewer bytes in the buffer than the request has.
  check_short :
      (t : Target) (port n : ℕ) (source : Bytes) (req : ParseReq)
      → IsTarget t
      → n < length (connect_request t port ++ [])
      → check_request ev net (take 5 (connect_request t port)) n source req
        ≡ returns (incomplete, source, req)
  unfolding check_request
  check_short (ipv4 a b c d) port n source req ok h =
      let short : ltb n 10 ≡ true =
        ground (arith, length-connect_request ev laws net (ipv4 a b c d) port []) in
      rw short refl
  check_short (ipv6 addr) port n source req ok h =
      let size : length addr ≡ 16 = ok in
      let short : ltb n 22 ≡ true =
        ground (arith, length-connect_request ev laws net (ipv6 addr) port []) in
      rw short refl
  check_short (name addr) port n source req ok h =
      let short : ltb n (4 + length addr + 1 + 2) ≡ true =
        ground (arith, length-connect_request ev laws net (name addr) port []) in
      rw short refl

  length-connect_request-lt :
      (t : Target) (port : ℕ) → IsTarget t → length (connect_request t port ++ []) < 2 ^ 32
  length-connect_request-lt (ipv4 a b c d) port ok = omega arith
  length-connect_request-lt (ipv6 addr) port ok =
      let size : length addr ≡ 16 = ok in
      omega (arith, length-connect_request ev laws net (ipv6 addr) port [])
  length-connect_request-lt (name addr) port ok =
      omega (arith, length-connect_request ev laws net (name addr) port [])

  -- While only a part of a request has come, the call waits for more, and leaves the buffer and the
  -- request alone.
  pub socks5_handle_request_part :
      (t : Target) (port c : ℕ) (part more : Bytes) (req : ParseReq)
      → IsTarget t
      → part ++ c ∷ more ≡ connect_request t port
      → socks5_handle_request ev net part req ≡ returns (incomplete, part, req)
  unfolding socks5_handle_request
  socks5_handle_request_part t port c part more req ok e =
      let whole : length part + suc (length more) ≡ length (connect_request t port ++ []) =
        sym (length-append part (c ∷ more))
        ∙ ap length (e ∙ sym (append-nil (connect_request t port))) in
      let small : length part < 2 ^ 32 = omega (arith, length-connect_request-lt t port ok) in
      let low : length part % 2 ^ 32 ≡ length part = omega arith in
      elim (Bool-cases (ltb (length part) 5)) [
        | inl short ↦ rw (low, short) refl
        | inr long ↦
            (let head : take 5 part ≡ take 5 (connect_request t port) =
                sym (take_prefix 5 part (c ∷ more) (ground arith)) ∙ ap (take 5) e in
              handle_head ev laws net part req (ground arith) small
              ∙ ap (λ (p : Bytes). check_request ev net p (length part) part req) head
              ∙ check_short t port (length part) part req ok (omega arith))
      ]
