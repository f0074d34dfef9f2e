-- ===== src/Socks/Session.antt =====
-- Runs of `handle_socks` of src/socks.cc: the caller appends what arrives to the buffer and calls, until
-- an answer is SOCKS_GOOD.
use stegotorus.Common.{
  ◌<◌, ◌≡◌, refl, true, false, if_true, some, List, [], ◌∷◌, ◌++◌, get_or, Outcome, returns, ◌>>=◌,
  Ensures, Ensures-bind,
}
use stegotorus.Common.Evbuffer.{Bytes, Evbuffer}
use stegotorus.Socks.{
  SocksRet, good, incomplete, cmd_not_connect, SocksState, Inet, socks_state_new,
}
use stegotorus.Socks.Handle.{answer, expects_input, handle_socks}
use stegotorus.Socks.Machine.{Answered, Consistent, handle_socks-Consistent}

-- What the caller makes of an answer; the second argument are the answers that follow.
abbrev pub proceed : SocksRet → Outcome (List SocksRet) → Outcome (List SocksRet)
proceed good later = returns (good ∷ [])
proceed incomplete later = later >>= λ rs. returns (incomplete ∷ rs)
proceed cmd_not_connect later = later >>= λ rs. returns (cmd_not_connect ∷ rs)
proceed SocksRet.broken later = later >>= λ rs. returns (SocksRet.broken ∷ rs)

module _ (ev : Evbuffer) (net : Inet) where
  unfoldable pub session : List Bytes → Bytes → Bytes → SocksState → Outcome (List SocksRet)
  session [] source dest st = returns []
  session (c ∷ cs) source dest st = handle_socks ev net (source ++ c) dest st >>= λ h.
      proceed h.ret (session cs h.source h.dest h.left)

abbrev pub AllBroken : List SocksRet → Type 0
AllBroken [] = Unit {0}
AllBroken (r ∷ rs) = (r ≡ SocksRet.broken) × AllBroken rs

-- SOCKS_INCOMPLETE any number of times, then SOCKS_GOOD and no more, or a failure and SOCKS_BROKEN
-- for ever.
abbrev pub IsHistory : List SocksRet → Type 0
IsHistory [] = Unit {0}
IsHistory (good ∷ rs) = rs ≡ []
IsHistory (incomplete ∷ rs) = IsHistory rs
IsHistory (cmd_not_connect ∷ rs) = AllBroken rs
IsHistory (SocksRet.broken ∷ rs) = AllBroken rs

proceed-AllBroken :
    (later : Outcome (List SocksRet))
    → Ensures AllBroken later
    → Ensures AllBroken (proceed SocksRet.broken later)
proceed-AllBroken later h = Ensures-bind AllBroken AllBroken later _ h λ rs all. (refl, all)

proceed-IsHistory :
    (r : SocksRet) (st : SocksState) (later : Outcome (List SocksRet))
    → Answered r st
    → (expects_input st.state ≡ true → st.is_broken ≡ false → Ensures IsHistory later)
    → (st.is_broken ≡ true → Ensures AllBroken later)
    → Ensures IsHistory (proceed r later)
proceed-IsHistory good st later a open' shut = refl
proceed-IsHistory incomplete st later a open' shut =
    Ensures-bind IsHistory IsHistory later _ (open' a.0 a.1) λ rs h. h
proceed-IsHistory cmd_not_connect st later a open' shut =
    Ensures-bind AllBroken IsHistory later _ (shut a.1) λ rs h. h
proceed-IsHistory SocksRet.broken st later a open' shut =
    Ensures-bind AllBroken IsHistory later _ (shut a) λ rs h. h

module _ (ev : Evbuffer) (net : Inet) where
  handle_socks_broken :
      (source dest : Bytes) (st : SocksState)
      → st.is_broken ≡ true
      → handle_socks ev net source dest st ≡ returns (answer SocksRet.broken source dest st)
  unfolding handle_socks
  handle_socks_broken source dest st b = if_true st.is_broken _ _ b

  session-AllBroken :
      (cs : List Bytes) (source dest : Bytes) (st : SocksState)
      → st.is_broken ≡ true
      → Ensures AllBroken (session ev net cs source dest st)
  unfolding session
  session-AllBroken [] source dest st b = tt
  session-AllBroken (c ∷ cs) source dest st b = rw (handle_socks_broken (source ++ c) dest st b) (
      proceed-AllBroken (session ev net cs (source ++ c) dest st)
        (session-AllBroken cs (source ++ c) dest st b))

  session_from :
      (cs : List Bytes) (source dest : Bytes) (st : SocksState)
      → ((b p : Bytes) → ev.copyout b 5 ≡ some p → get_or p 4 0 < 256)
      → expects_input st.state ≡ true
      → st.is_broken ≡ false
      → Ensures IsHistory (session ev net cs source dest st)
  unfolding session
  session_from [] source dest st bytes h b = tt
  session_from (c ∷ cs) source dest st bytes h b =
      Ensures-bind Consistent IsHistory (handle_socks ev net (source ++ c) dest st) _
        (handle_socks-Consistent ev net (source ++ c) dest st bytes h b)
        λ r ok.
          proceed-IsHistory r.ret r.left (session ev net cs r.source r.dest r.left) ok
            (λ h b. session_from cs r.source r.dest r.left bytes h b)
            (λ b. session-AllBroken cs r.source r.dest r.left b)

-- However the bytes of a new client arrive, the calls all return, and their answers are
-- SOCKS_INCOMPLETE any number of times, followed by nothing, by one SOCKS_GOOD, or by
-- SOCKS_CMD_NOT_CONNECT or SOCKS_BROKEN and then SOCKS_BROKEN for ever. The bytes that libevent
-- copies out are taken to be bytes.
pub session-IsHistory :
    (ev : Evbuffer) (net : Inet) (cs : List Bytes) (dest : Bytes)
    → ((b p : Bytes) → ev.copyout b 5 ≡ some p → get_or p 4 0 < 256)
    → Ensures IsHistory (session ev net cs [] dest socks_state_new)
session-IsHistory ev net cs dest bytes =
    unfold socks_state_new in session_from ev net cs [] dest socks_state_new bytes refl refl
