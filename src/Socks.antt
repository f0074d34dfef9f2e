-- ===== src/Socks.antt =====
-- src/socks.h and src/socks.cc: the SOCKS front end, from a client's bytes to an address and back. The
-- children follow the functions: `Request` (SOCKS 5), `Version4`, `Negotiation`, `Handle`, `Reply`.
pub mod Request
pub mod Version4
pub mod Negotiation
pub mod Handle
pub mod Reply
pub mod Parse
pub mod Partial
pub mod Parse4
pub mod Machine
pub mod Session
pub mod Conversation
mod Tests
use stegotorus.Common.{
  ℕ, zero, suc, Bool, true, false, ◌==◌, if◌then◌else◌, Option, none, some, List, [], ◌∷◌, ◌++◌,
  length, take, drop, slice, Outcome, returns,
}
use stegotorus.Common.Evbuffer.{Bytes, Evbuffer}

-- `enum socks_status_t`
pub data SocksStatus : Type 0 where
  waiting negotiation_done have_addr sent_reply : SocksStatus

-- `enum socks_ret`
pub data SocksRet : Type 0 where
  good incomplete cmd_not_connect broken : SocksRet

-- The address families that the code stores: AF_INET, AF_INET6 and AF_UNSPEC.
pub data AddressFamily : Type 0 where
  inet inet6 unspec : AddressFamily

-- `struct parsereq`; `addr` is the whole array.
pub record ParseReq : Type 0 where
  pub af : AddressFamily
  pub addr : Bytes
  pub port : ℕ

-- `struct socks_state_t`
pub record SocksState : Type 0 where
  pub state : SocksStatus
  pub version : ℕ
  pub is_broken : Bool
  pub parsereq : ParseReq

-- sizeof(parsereq->addr)
abbrev pub addr_size : ℕ
addr_size = 256

unfoldable pub socks_state_new : SocksState
socks_state_new = record {
  state = waiting;
  version = 0;
  is_broken = false;
  parsereq = record { af = unspec; addr = slice (λ i. 0) 0 addr_size; port = 0 };
}

-- What the code takes from the system: evutil_inet_ntop with the size of its output, whose zero is
-- not in the text; evutil_inet_pton; the numbers of three errors; and the bytes of an array on the
-- stack that nothing wrote to.
pub record Inet : Type 0 where
  pub ntop : AddressFamily → Bytes → ℕ → Option Bytes
  pub pton : AddressFamily → Bytes → Option Bytes
  pub enetunreach : ℕ
  pub ehostunreach : ℕ
  pub econnrefused : ℕ
  pub junk : ℕ → ℕ

-- memcpy to the start of an array
abbrev pub write_array : Bytes → Bytes → Bytes
write_array old new = new ++ drop (length new) old

-- The text in an array: what stands before its first zero.
abbrev pub c_string : Bytes → Bytes
c_string [] = []
c_string (c ∷ cs) = elim (c == 0) [ true ↦ [] | false ↦ c ∷ c_string cs ]

-- A call of `evbuffer_drain` or `evbuffer_add` whose result is not tested.
abbrev pub drained : Evbuffer → Bytes → ℕ → Bytes
drained ev source n = elim (ev.drain source n) [ none ↦ source | some rest ↦ rest ]

abbrev pub added : Evbuffer → Bytes → Bytes → Bytes
added ev dest new = elim (ev.add dest new) [ none ↦ dest | some longer ↦ longer ]

-- `socks_state_get_status` and `socks_state_get_address`, which is `none` for its -1.
unfoldable pub socks_state_get_status : SocksState → SocksStatus
socks_state_get_status st = st.state

abbrev address_of : SocksStatus → ParseReq → Option ParseReq
address_of waiting req = none
address_of negotiation_done req = none
address_of have_addr req = some req
address_of sent_reply req = some req

unfoldable pub socks_state_get_address : SocksState → Option ParseReq
socks_state_get_address st = address_of st.state st.parsereq

-- `struct sockaddr`, with the port as its two bytes in network order.
pub data SockAddr : Type 0 where
  sockaddr_in : ℕ → ℕ → Bytes → SockAddr
  sockaddr_in6 : ℕ → ℕ → Bytes → SockAddr
  other_family : ℕ → SockAddr
