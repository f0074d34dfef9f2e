-- ===== src/Socks/Negotiation.antt =====
-- `socks5_handle_negotiation` and `socks5_do_negotiation` of src/socks.cc: the choice of a method.
use stegotorus.Common.{
  ℕ, ◌+◌, Bool, true, false, ltb, ◌==◌, if◌then◌else◌, none, some, [], ◌∷◌, length, get_or, slice,
}
use stegotorus.Common.Evbuffer.{Bytes, Evbuffer}
use stegotorus.Socks.{SocksRet, good, incomplete, Inet, drained}

module _ (ev : Evbuffer) (net : Inet) where
  -- The reply, to `dest`: method 0, or 0xff and failure.
  unfoldable pub socks5_do_negotiation : Bytes → Bool → SocksRet × Bytes
  socks5_do_negotiation dest success = elim (ev.add dest (5 ∷ (if success then 0 else 255) ∷ [])) [
    | none ↦ (SocksRet.broken, dest)
    | some dest' ↦ (if success then good else SocksRet.broken, dest')
  ]

  -- The loop that looks for SOCKS5_METHOD_NOAUTH.
  abbrev pub found_noauth : Bytes → Bool
  found_noauth [] = false
  found_noauth (m ∷ ms) = elim (m == 0) [ true ↦ true | false ↦ found_noauth ms ]

  -- The first byte.
  unfoldable pub nmethods : Bytes → ℕ
  nmethods source = elim (ev.copyout source 1) [
    | none ↦ net.junk 0
    | some b ↦ get_or b 0 (net.junk 0)
  ]

  -- What the call returns, and the two buffers.
  unfoldable pub socks5_handle_negotiation : Bytes → Bytes → SocksRet × Bytes × Bytes
  unfolding socks5_do_negotiation
  socks5_handle_negotiation source dest =
      let n = nmethods source in
      if ltb (length source) (n + 1)
      then (incomplete, source, dest)
      else let source' = drained ev source 1 in
        elim (ev.remove source' n) [
          | none ↦ (SocksRet.broken, source', dest)
          | some (methods, rest) ↦
              (let (r, dest') =
                  socks5_do_negotiation dest
                    (found_noauth (slice (λ i. get_or methods i (net.junk i)) 0 n)) in
                (r, rest, dest'))
        ]
