-- ===== src/Socks/Handle.antt =====
-- `handle_socks` of src/socks.cc: the state machine that is called when the client has sent bytes.
use stegotorus.Common.{
  ℕ, Bool, true, false, not, ◌&&◌, ltb, ◌==◌, if◌then◌else◌, none, some, [], ◌∷◌, length, Outcome,
  returns, log_assert, ◌>>=◌,
}
use stegotorus.Common.Evbuffer.{Bytes, Evbuffer}
use stegotorus.Socks.{
  SocksRet, good, incomplete, cmd_not_connect, SocksStatus, waiting, negotiation_done, have_addr,
  sent_reply, SocksState, Inet,
}
use stegotorus.Socks.Request.{socks5_handle_request}
use stegotorus.Socks.Version4.{socks4_read_request}
use stegotorus.Socks.Negotiation.{socks5_handle_negotiation}

-- What a call returns, and what it leaves: the two buffers and the state.
pub record Handled : Type 0 where
  pub ret : SocksRet
  pub source : Bytes
  pub dest : Bytes
  pub left : SocksState

abbrev pub answer : SocksRet → Bytes → Bytes → SocksState → Handled
answer ret source dest st = record { ret = ret; source = source; dest = dest; left = st }

-- The label `broken`.
abbrev pub give_up : SocksRet → Bytes → Bytes → SocksState → Handled
give_up ret source dest st = answer ret source dest (record st { is_broken = true })

-- MIN_SOCKS_PACKET
abbrev pub min_socks_packet : ℕ
min_socks_packet = 3

-- The test of the `log_assert`.
abbrev pub expects_input : SocksStatus → Bool
expects_input waiting = true
expects_input negotiation_done = true
expects_input have_addr = false
expects_input sent_reply = false

-- SOCKS 4 behind `socks4_read_request`.
unfoldable pub finish_v4 : SocksRet → Bytes → Bytes → SocksState → Handled
finish_v4 good source dest st = answer good source dest (record st { state = have_addr })
finish_v4 incomplete source dest st = answer incomplete source dest st
finish_v4 cmd_not_connect source dest st = answer good source dest (record st { state = have_addr })
finish_v4 SocksRet.broken source dest st = give_up SocksRet.broken source dest st

-- SOCKS 5 behind `socks5_handle_request`.
unfoldable pub finish_v5 : SocksRet → Bytes → Bytes → SocksState → Handled
finish_v5 good source dest st = answer good source dest (record st { state = have_addr })
finish_v5 incomplete source dest st = answer incomplete source dest st
finish_v5 cmd_not_connect source dest st = give_up cmd_not_connect source dest st
finish_v5 SocksRet.broken source dest st = give_up SocksRet.broken source dest st

module _ (ev : Evbuffer) (net : Inet) where
  unfoldable pub version4_in : SocksStatus → Bytes → Bytes → SocksState → Handled
  unfolding finish_v4
  version4_in waiting source dest st =
      let (r, source', req) = socks4_read_request ev net source st.parsereq in
      finish_v4 r source' dest (record st { parsereq = req })
  version4_in _ source dest st = answer incomplete source dest st

  -- `if (socks_state->state == ST_NEGOTIATION_DONE)`, in that state.
  unfoldable pub request_v5 : Bytes → Bytes → SocksState → Outcome Handled
  unfolding finish_v5
  request_v5 source dest st = socks5_handle_request ev net source st.parsereq >>= λ r.
      returns (finish_v5 r.0 r.1 dest (record st { parsereq = r.2 }))

  -- SOCKS 5 behind `socks5_handle_negotiation`, which never returns SOCKS_CMD_NOT_CONNECT.
  unfoldable pub negotiated : SocksRet → Bytes → Bytes → SocksState → Outcome Handled
  unfolding request_v5
  negotiated good source dest st = request_v5 source dest (record st { state = negotiation_done })
  negotiated incomplete source dest st = returns (answer incomplete source dest st)
  negotiated cmd_not_connect source dest st = returns (answer incomplete source dest st)
  negotiated SocksRet.broken source dest st = returns (give_up SocksRet.broken source dest st)

  unfoldable pub version5_in : SocksStatus → Bytes → Bytes → SocksState → Outcome Handled
  unfolding negotiated request_v5
  version5_in waiting source dest st =
      let (r, source', dest') = socks5_handle_negotiation ev net source dest in
      negotiated r source' dest' st
  version5_in negotiation_done source dest st = request_v5 source dest st
  version5_in _ source dest st = returns (answer incomplete source dest st)

  -- The `switch` on the version.
  unfoldable pub dispatch : Bytes → Bytes → SocksState → Outcome Handled
  unfolding version4_in version5_in
  dispatch source dest st =
      if st.version == 4
      then returns (version4_in st.state source dest st)
      else if st.version == 5
      then version5_in st.state source dest st
      else returns (give_up SocksRet.broken source dest st)

  -- `evbuffer_remove` into `version`, whose result is not tested: the byte, and the buffer.
  abbrev pub remove_version : Bytes → ℕ × Bytes
  remove_version source = elim (ev.remove source 1) [
    | none ↦ (0, source)
    | some (got, rest) ↦ elim got [ [] ↦ (0, rest) | v ∷ vs ↦ (v, rest) ]
  ]

  unfoldable pub read_version : Bytes → Bytes → SocksState → Outcome Handled
  unfolding dispatch
  read_version source dest st =
      let (v, rest) = remove_version source in
      let st' = record st { version = v } in
      if not (v == 5) && not (v == 4)
      then returns (give_up SocksRet.broken rest dest st')
      else dispatch rest dest st'

  unfoldable pub handle_socks : Bytes → Bytes → SocksState → Outcome Handled
  unfolding read_version dispatch
  handle_socks source dest st =
      if st.is_broken
      then returns (answer SocksRet.broken source dest st)
      else if ltb (length source) min_socks_packet
      then returns (answer incomplete source dest st)
      else log_assert (expects_input st.state) >>= λ _.
          (if st.version == 0 then read_version source dest st else dispatch source dest st)
