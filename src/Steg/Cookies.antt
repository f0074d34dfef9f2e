-- ===== src/Steg/Cookies.antt =====
-- Data in a cookie: src/steg/b64cookies.cc, and the client and the server of src/steg/http.cc between
-- their buffers and the header field. `rand` is a parameter, a function of the number of the call.
pub mod RoundTrip
use stegotorus.Common.{
  ℕ, zero, suc, ◌+◌, ◌-◌, ◌*◌, ◌/◌, ◌%◌, Bool, false, ◌||◌, ltb, leb, ◌==◌, if◌then◌else◌, Option,
  List, [], ◌∷◌, ◌++◌, length, take, drop, Outcome, returns, aborts,
}
use stegotorus.Common.Evbuffer.{Bytes}
use stegotorus.Base64.{encoder, encode, encode_end, decoder, decode}
use stegotorus.Base64.Alphabet.{Chars}

abbrev pub is_separator : ℕ → Bool
is_separator c = c == b' ' || c == b';' || c == b'='

unfoldable pub unwrap_b64_cookies : Bytes → Bytes
unwrap_b64_cookies [] = []
unwrap_b64_cookies (c ∷ cs) =
    let rest = unwrap_b64_cookies cs in if is_separator c then rest else c ∷ rest

-- The characters that stand for the digits 62 and 63 and for padding.
abbrev pub chars : Chars
chars = record { plus = b'-'; slash = b'_'; equals = b'.' }

-- `data2` of http_client_cookie_transmit.
unfoldable pub cookie_code : Bytes → Bytes
cookie_code source = let (e, out) = encode (encoder false chars) source in out ++ (encode_end e).1

-- What gen_one_cookie writes, the input behind what it takes, and the number of the next call of `rand`.
pub record Cookie : Type 0 where
  pub outbuf : Bytes
  pub inbuf : Bytes
  pub calls : ℕ

module _ (rand : ℕ → ℕ) where
  abbrev pub name_len : ℕ → ℕ → ℕ
  name_len calls inlen = if ltb inlen 10 then rand calls % 5 + 1 else rand calls % 10 + 1

  abbrev pub cookie_len : ℕ → ℕ → ℕ
  cookie_len calls inlen =
      let cookielen = rand (calls + 1) % (inlen * 2 / 3) in
      let rest = inlen - name_len calls inlen in if ltb rest cookielen then rest else cookielen

  unfoldable pub gen_one_cookie : ℕ → Bytes → Cookie
  gen_one_cookie calls inbuf =
      let namelen = name_len calls (length inbuf) in
      let cookielen = cookie_len calls (length inbuf) in
      if ltb (length inbuf) 5
      then record { outbuf = inbuf; inbuf = []; calls = calls }
      else record {
        outbuf = take namelen inbuf ++ (b'=' ∷ take cookielen (drop namelen inbuf));
        inbuf = drop (namelen + cookielen) inbuf;
        calls = calls + 2;
      }

  -- The loop of gen_b64_cookies; the first argument bounds its rounds. With 5 and more characters left a
  -- separator is written.
  unfoldable pub cookies_from : ℕ → ℕ → Bytes → Bytes
  cookies_from zero calls inbuf = []
  cookies_from (suc rounds) calls [] = []
  cookies_from (suc rounds) calls (c ∷ cs) =
      let cookie = gen_one_cookie calls (c ∷ cs) in
      let more = cookies_from rounds cookie.calls cookie.inbuf in
      if ltb (length cookie.inbuf) 5
      then cookie.outbuf ++ cookie.inbuf
      else cookie.outbuf ++ (b';' ∷ more)

  -- gen_b64_cookies. Each round takes at least one character.
  unfoldable pub gen_b64_cookies : ℕ → Bytes → Bytes
  gen_b64_cookies calls inbuf = cookies_from (length inbuf) calls inbuf

  -- `cookiebuf` of http_client_cookie_transmit.
  unfoldable pub client_cookie : ℕ → Bytes → Bytes
  client_cookie calls source = gen_b64_cookies calls (cookie_code source)

-- MAX_COOKIE_SIZE
abbrev pub max_cookie_size : ℕ
max_cookie_size = 1024

-- What http_server_receive adds to `dest` for the text of a cookie field. The decoder also gets the zero
-- behind the unwrapped text.
unfoldable pub server_data : Option ℕ → Bytes → Outcome Bytes
server_data beyond cookie =
    if ltb (max_cookie_size * 3 / 2) (length cookie)
    then aborts
    else let (d, out) = decode beyond (decoder chars) (unwrap_b64_cookies cookie ++ (0 ∷ [])) in
      if leb max_cookie_size (length out) then aborts else returns out
