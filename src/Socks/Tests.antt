-- ===== src/Socks/Tests.antt =====
-- Runs of src/socks.cc at concrete inputs.
use stegotorus.Common.{
  ℕ, zero, suc, ◌-◌, ◌%◌, ◌<◌, ◌≡◌, refl, sym, ap, arith, some, [], ◌∷◌, ◌++◌, map, take, get_or,
  All, returns, Ensures,
}
use stegotorus.Common.Evbuffer.{Bytes, Evbuffer, plain, plain-IsReliable}
use stegotorus.Socks.{
  good, incomplete, inet, unspec, have_addr, sent_reply, ParseReq, socks_state_new, Inet,
}
use stegotorus.Socks.Request.{socks5_handle_request}
use stegotorus.Socks.Handle.{answer, handle_socks}
use stegotorus.Socks.Reply.{socks5_status, socks_send_reply}
use stegotorus.Socks.Parse.{
  Target, ipv4, connect_request, address_part, socks5_handle_request-connect_request,
}
use stegotorus.Socks.Version4.{socks4_read_request}
use stegotorus.Socks.Partial.{socks5_handle_request_part}
use stegotorus.Socks.Parse4.{request4, socks4_read_request-request4_name}
use stegotorus.Socks.Machine.{Kept, socks5_handle_request-Kept, Consistent, handle_socks-Consistent}
use stegotorus.Socks.Session.{session, IsHistory, session-IsHistory}
use stegotorus.Socks.Conversation.{
  IsInverse, greeting, stored, handle_socks-greeting, socks_send_reply-stored,
}

-- An address written as a text without zeros: each byte by its successor.
abbrev raised : Inet
raised = record {
  ntop = λ af addr size. some (map suc addr);
  pton = λ af text. some (map (λ c. c - 1) text);
  enetunreach = 101;
  ehostunreach = 113;
  econnrefused = 111;
  junk = λ i. 0;
}

map-raised : (xs : Bytes) → map (λ c. c - 1) (map suc xs) ≡ xs
map-raised [] = refl
map-raised (x ∷ xs) =
    rw (map-raised xs) (let e : suc x - 1 ≡ x = omega arith in ap (λ (y : ℕ). y ∷ xs) e)

pton_raised :
    (addr text : Bytes) → some (map suc addr) ≡ some text → some (map (λ c. c - 1) text) ≡ some addr
pton_raised addr text e = let same : map suc addr ≡ text = cc in rw (sym same, map-raised addr) refl

All-raised : (addr : Bytes) → All (λ c. 0 < c) (map suc addr)
All-raised [] = tt
All-raised (x ∷ xs) = (omega arith, All-raised xs)

raised-nonzero : (addr text : Bytes) → some (map suc addr) ≡ some text → All (λ c. 0 < c) text
raised-nonzero addr text e = let same : map suc addr ≡ text = cc in rw same at (All-raised addr)

raised-IsInverse : IsInverse raised
raised-IsInverse = record {
  pton_ntop_inet = λ a b c d text e. pton_raised (a ∷ b ∷ c ∷ d ∷ []) text e;
  pton_ntop_inet6 = λ addr text size e. pton_raised addr text e;
  ntop_text = λ af addr text e. raised-nonzero addr text e;
}

-- A libevent that hands out bytes.
abbrev masked : Evbuffer
masked = record plain { copyout = λ b n. some (map (λ x. x % 256) (take n b)) }

get_or-map : (xs : Bytes) (i : ℕ) → get_or (map (λ x. x % 256) xs) i 0 < 256
get_or-map [] i = omega arith
get_or-map (x ∷ xs) zero = omega arith
get_or-map (x ∷ xs) (suc i) = get_or-map xs i

masked_bytes : (b p : Bytes) → masked.copyout b 5 ≡ some p → get_or p 4 0 < 256
masked_bytes b p e =
    let same : map (λ x. x % 256) (take 5 b) ≡ p = cc in rw (sym same) (get_or-map (take 5 b) 4)

abbrev target : Target
target = ipv4 10 0 0 7

abbrev fresh : ParseReq
fresh = record { af = unspec; addr = []; port = 0 }

socks5_handle_request-connect_request_example :
    socks5_handle_request plain raised (connect_request target 443 ++ 9 ∷ []) fresh
    ≡ returns (good, 9 ∷ [], record { af = inet; addr = 11 ∷ 1 ∷ 1 ∷ 8 ∷ 0 ∷ []; port = 443 })
socks5_handle_request-connect_request_example =
    socks5_handle_request-connect_request plain plain-IsReliable raised target 443
      (11 ∷ 1 ∷ 1 ∷ 8 ∷ []) (9 ∷ []) fresh tt (omega arith) refl (omega arith)

socks5_handle_request-Kept_example :
    Ensures
      (Kept (5 ∷ 2 ∷ 0 ∷ 1 ∷ 0 ∷ []) fresh)
      (socks5_handle_request masked raised (5 ∷ 2 ∷ 0 ∷ 1 ∷ 0 ∷ []) fresh)
socks5_handle_request-Kept_example =
    socks5_handle_request-Kept masked raised (5 ∷ 2 ∷ 0 ∷ 1 ∷ 0 ∷ []) fresh masked_bytes

handle_socks-Consistent_example :
    Ensures Consistent (handle_socks masked raised (5 ∷ 1 ∷ 0 ∷ []) [] socks_state_new)
handle_socks-Consistent_example =
    handle_socks-Consistent masked raised (5 ∷ 1 ∷ 0 ∷ []) [] socks_state_new masked_bytes
      (unfold socks_state_new in refl) (unfold socks_state_new in refl)

session-IsHistory_example : Ensures IsHistory (
    session masked raised
      ((5 ∷ 1 ∷ []) ∷ (0 ∷ []) ∷ connect_request target 443 ∷ [])
      []
      []
      socks_state_new)
session-IsHistory_example =
    session-IsHistory masked raised ((5 ∷ 1 ∷ []) ∷ (0 ∷ []) ∷ connect_request target 443 ∷ []) []
      masked_bytes

handle_socks-greeting_example :
    handle_socks plain raised
      (greeting (2 ∷ 0 ∷ []) ++ (connect_request target 443 ++ 9 ∷ []))
      []
      socks_state_new
    ≡ returns (
        answer good (9 ∷ []) (5 ∷ 0 ∷ []) (record socks_state_new {
          state = have_addr;
          version = 5;
          parsereq = stored target 443 (11 ∷ 1 ∷ 1 ∷ 8 ∷ []) socks_state_new.parsereq;
        }))
handle_socks-greeting_example =
    handle_socks-greeting plain plain-IsReliable raised target 443 (11 ∷ 1 ∷ 1 ∷ 8 ∷ [])
      (2 ∷ 0 ∷ []) (9 ∷ []) [] refl tt (omega arith) refl (omega arith)

socks_send_reply-stored_example :
    socks_send_reply plain raised
      (record socks_state_new {
        version = 5;
        parsereq = stored target 443 (11 ∷ 1 ∷ 1 ∷ 8 ∷ []) socks_state_new.parsereq;
      })
      []
      111
    ≡ (
      record socks_state_new {
        version = 5;
        parsereq = stored target 443 (11 ∷ 1 ∷ 1 ∷ 8 ∷ []) socks_state_new.parsereq;
        state = sent_reply;
      },
      5 ∷ socks5_status raised 111 ∷ 0 ∷ address_part target 443,
    )
socks_send_reply-stored_example =
    socks_send_reply-stored plain plain-IsReliable raised raised-IsInverse target 443 111
      (11 ∷ 1 ∷ 1 ∷ 8 ∷ []) [] socks_state_new tt tt refl

socks5_handle_request_part_example :
    socks5_handle_request plain raised (5 ∷ 1 ∷ 0 ∷ 1 ∷ 10 ∷ 0 ∷ 0 ∷ 7 ∷ 1 ∷ []) fresh
    ≡ returns (incomplete, 5 ∷ 1 ∷ 0 ∷ 1 ∷ 10 ∷ 0 ∷ 0 ∷ 7 ∷ 1 ∷ [], fresh)
socks5_handle_request_part_example =
    socks5_handle_request_part plain plain-IsReliable raised target 443 187
      (5 ∷ 1 ∷ 0 ∷ 1 ∷ 10 ∷ 0 ∷ 0 ∷ 7 ∷ 1 ∷ []) [] fresh tt refl

socks4_read_request-request4_name_example :
    socks4_read_request plain raised
      (request4 443 0 0 0 1 (98 ∷ []) ((97 ∷ 46 ∷ 98 ∷ []) ++ 0 ∷ 9 ∷ []))
      fresh
    ≡ (good, 9 ∷ [], record { af = inet; addr = 97 ∷ 46 ∷ 98 ∷ 0 ∷ []; port = 443 })
socks4_read_request-request4_name_example =
    socks4_read_request-request4_name plain plain-IsReliable raised 443 1 (98 ∷ [])
      (97 ∷ 46 ∷ 98 ∷ []) (9 ∷ []) fresh (omega arith) (omega arith) (omega arith) (omega arith)
      (omega arith) (omega arith)
