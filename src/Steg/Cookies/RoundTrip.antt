-- ===== src/Steg/Cookies/RoundTrip.antt =====
-- Data through a cookie (src/steg/b64cookies.cc, src/steg/http.cc).
use stegotorus.Common.{
  ℕ, zero, suc, ◌+◌, ◌*◌, ◌/◌, ◌%◌, ◌<◌, ◌≤◌, ◌≡◌, refl, sym, ap, ◌∙◌, arith, ltb, leb, ◌==◌, not,
  Bool, Bool-cases, inl, inr, true, false, if◌then◌else◌, Option, Option-cases, none, [], ◌∷◌, ◌++◌,
  length, take, drop, length-append, length-take, length-drop, append-nil, append_assoc, All,
  IsByte, under, under→true, bit_or, returns, aborts,
}
use stegotorus.Common.Evbuffer.{Bytes}
use stegotorus.Base64.{
  encoder, EncodeStep, encode, encode_end, decoder, Decoder, DecodeStep, decode, DecodeStep,
}
use stegotorus.Base64.Alphabet.{encode1, encoding_at, IsAlphabet, decode1, look_up}
use stegotorus.Base64.Feed.{feed, gather, gather_char, gather_at, encode-feed, decode-gather}
use stegotorus.Base64.RoundTrip.{decode-encode_end}
use stegotorus.Base64.Streaming.{length-encode}
use stegotorus.Steg.Memory.Places.{drop-drop}
use stegotorus.Steg.Cookies.{
  is_separator, unwrap_b64_cookies, Cookie, name_len, cookie_len, gen_one_cookie, cookies_from,
  gen_b64_cookies, chars, cookie_code, client_cookie, server_data,
}

unwrap-append :
    (xs ys : Bytes) → unwrap_b64_cookies (xs ++ ys) ≡ unwrap_b64_cookies xs ++ unwrap_b64_cookies ys
unfolding unwrap_b64_cookies
unwrap-append [] ys = refl
unwrap-append (c ∷ cs) ys = elim (Bool-cases (is_separator c)) [
  | inl separator ↦ rw separator (unwrap-append cs ys)
  | inr kept ↦ rw kept (ap (◌∷◌ c) (unwrap-append cs ys))
]

take-drop : (n : ℕ) (xs : Bytes) → take n xs ++ drop n xs ≡ xs
take-drop zero xs = refl
take-drop (suc n) [] = refl
take-drop (suc n) (x ∷ xs) = ap (◌∷◌ x) (take-drop n xs)

unwrap-take-drop :
    (n : ℕ) (xs : Bytes)
    → unwrap_b64_cookies (take n xs) ++ unwrap_b64_cookies (drop n xs) ≡ unwrap_b64_cookies xs
unwrap-take-drop n xs =
    sym (unwrap-append (take n xs) (drop n xs)) ∙ ap unwrap_b64_cookies (take-drop n xs)

-- A cookie of 5 and more characters of input.
record IsCookie (inbuf : Bytes) (cookie : Cookie) : Type 0 where
  kept :
      unwrap_b64_cookies cookie.outbuf ++ unwrap_b64_cookies cookie.inbuf ≡ unwrap_b64_cookies inbuf
  taken : length cookie.inbuf < length inbuf
  wide : length cookie.outbuf + length cookie.inbuf ≡ suc (length inbuf)

cut-IsCookie :
    (n k calls : ℕ) (inbuf : Bytes)
    → 0 < n
    → n + k ≤ length inbuf
    → IsCookie inbuf (record {
      outbuf = take n inbuf ++ (b'=' ∷ take k (drop n inbuf));
      inbuf = drop (n + k) inbuf;
      calls = calls;
    })
cut-IsCookie n k calls inbuf pos fits =
    let name = take n inbuf in
    let value = take k (drop n inbuf) in
    let behind : drop (n + k) inbuf ≡ drop k (drop n inbuf) = sym (drop-drop k n inbuf) in
    let no_sign : unwrap_b64_cookies (b'=' ∷ value) ≡ unwrap_b64_cookies value =
      unfold unwrap_b64_cookies in refl in
    let m = length-take n inbuf in
    let m' = length-drop n inbuf in
    let m'' = length-take k (drop n inbuf) in
    record {
      kept =
          rw (behind, unwrap-append name (b'=' ∷ value), no_sign)
            (append_assoc (unwrap_b64_cookies name) (unwrap_b64_cookies value)
                (unwrap_b64_cookies (drop k (drop n inbuf)))
              ∙ ap (λ (x : Bytes). unwrap_b64_cookies name ++ x) (unwrap-take-drop k (drop n inbuf))
              ∙ unwrap-take-drop n inbuf);
      taken = omega (arith, length-drop (n + k) inbuf);
      wide =
          omega (arith, length-drop (n + k) inbuf, length-append name (b'=' ∷ value), m, m', m'');
    }

module _ (rand : ℕ → ℕ) where
  name_len_bounds :
      (calls n : ℕ) → 5 ≤ n → (0 < name_len rand calls n) × (name_len rand calls n ≤ n)
  name_len_bounds calls n l = ground arith

  cookie_len_bound : (calls n : ℕ) → 5 ≤ n → name_len rand calls n + cookie_len rand calls n ≤ n
  cookie_len_bound calls n l = let (a, b) = name_len_bounds calls n l in ground arith

  gen_one_cookie-IsCookie :
      (calls : ℕ) (inbuf : Bytes)
      → 5 ≤ length inbuf
      → IsCookie inbuf (gen_one_cookie rand calls inbuf)
  unfolding gen_one_cookie
  gen_one_cookie-IsCookie calls inbuf l =
      let n = name_len rand calls (length inbuf) in
      let k = cookie_len rand calls (length inbuf) in
      let big : ltb (length inbuf) 5 ≡ false = ground arith in
      let (pos, fits) = name_len_bounds calls (length inbuf) l in
      let whole = cookie_len_bound calls (length inbuf) l in
      rw big (cut-IsCookie n k (calls + 2) inbuf pos whole)

  short_cookie :
      (calls : ℕ) (inbuf : Bytes)
      → length inbuf < 5
      → gen_one_cookie rand calls inbuf ≡ record { outbuf = inbuf; inbuf = []; calls = calls }
  unfolding gen_one_cookie
  short_cookie calls inbuf l =
      let small : ltb (length inbuf) 5 ≡ true = ground arith in rw small refl

  abbrev Unwraps : ℕ → ℕ → Bytes → Type 0
  Unwraps rounds calls inbuf =
      (unwrap_b64_cookies (cookies_from rand rounds calls inbuf) ≡ unwrap_b64_cookies inbuf)
      × (length (cookies_from rand rounds calls inbuf) ≤ 3 * length inbuf)

  cookies_from-round :
      (rounds calls c : ℕ) (cs : Bytes)
      → 5 ≤ length (c ∷ cs)
      → ((calls' : ℕ) (inbuf : Bytes) → length inbuf ≤ rounds → Unwraps rounds calls' inbuf)
      → length (c ∷ cs) ≤ suc rounds
      → Unwraps (suc rounds) calls (c ∷ cs)
  unfolding cookies_from
  cookies_from-round rounds calls c cs long next l =
      let cookie = gen_one_cookie rand calls (c ∷ cs) in
      let ok = gen_one_cookie-IsCookie calls (c ∷ cs) long in
      let less = ok.taken in
      elim (Bool-cases (ltb (length cookie.inbuf) 5)) [
        | inl last ↦
            let n = length-append cookie.outbuf cookie.inbuf in
            rw last (unwrap-append cookie.outbuf cookie.inbuf ∙ ok.kept, omega (arith, n, ok.wide))
        | inr on ↦
            let more = cookies_from rand rounds cookie.calls cookie.inbuf in
            let (same, room) = next cookie.calls cookie.inbuf (omega arith) in
            let n = length-append cookie.outbuf (b';' ∷ more) in
            let no_sign : unwrap_b64_cookies (b';' ∷ more) ≡ unwrap_b64_cookies cookie.inbuf =
              unfold unwrap_b64_cookies in same in
            rw on (
              unwrap-append cookie.outbuf (b';' ∷ more)
                  ∙ ap (λ (x : Bytes). unwrap_b64_cookies cookie.outbuf ++ x) no_sign
                  ∙ ok.kept,
              omega (arith, n, ok.wide, room),
            )
      ]

  cookies_from_lem :
      (rounds calls : ℕ) (inbuf : Bytes) → length inbuf ≤ rounds → Unwraps rounds calls inbuf
  unfolding cookies_from
  cookies_from_lem zero calls [] l = (refl, omega arith)
  cookies_from_lem zero calls (c ∷ cs) l = absurd (omega arith)
  cookies_from_lem (suc rounds) calls [] l = (refl, omega arith)
  cookies_from_lem (suc rounds) calls (c ∷ cs) l = elim (Bool-cases (ltb (length (c ∷ cs)) 5)) [
    | inl few ↦
        let short = short_cookie calls (c ∷ cs) (ground arith) in
        rw short
          (ap unwrap_b64_cookies (append-nil (c ∷ cs)), omega (arith, length-append (c ∷ cs) []))
    | inr many ↦ cookies_from-round rounds calls c cs (ground arith) (cookies_from_lem rounds) l
  ]

-- Whatever `rand` gives, taking the separators out of the cookies leaves what it leaves of the input, and the
-- cookies take at most three times its length.
pub unwrap-gen_b64_cookies :
    (rand : ℕ → ℕ) (calls : ℕ) (inbuf : Bytes)
    → (unwrap_b64_cookies (gen_b64_cookies rand calls inbuf) ≡ unwrap_b64_cookies inbuf)
      × (length (gen_b64_cookies rand calls inbuf) ≤ 3 * length inbuf)
unfolding gen_b64_cookies
unwrap-gen_b64_cookies rand calls inbuf =
    cookies_from_lem rand (length inbuf) calls inbuf (omega arith)

few_room :
    (rand : ℕ → ℕ) (calls : ℕ) (inbuf : Bytes)
    → length inbuf < 5
    → length (gen_b64_cookies rand calls inbuf) ≤ length inbuf
unfolding gen_b64_cookies cookies_from
few_room rand calls [] l = omega arith
few_room rand calls (c ∷ cs) l =
    rw (short_cookie rand calls (c ∷ cs) l) (omega (arith, length-append (c ∷ cs) []))

-- The code has no separators.
abbrev Unsigned : Bytes → Type 0
Unsigned = All (λ c. is_separator c ≡ false)

unwrap-Unsigned : (xs : Bytes) → Unsigned xs → unwrap_b64_cookies xs ≡ xs
unfolding unwrap_b64_cookies
unwrap-Unsigned [] h = refl
unwrap-Unsigned (c ∷ cs) h = rw h.0 (ap (◌∷◌ c) (unwrap-Unsigned cs h.1))

Unsigned-append : (xs ys : Bytes) → Unsigned xs → Unsigned ys → Unsigned (xs ++ ys)
Unsigned-append [] ys h h' = h'
Unsigned-append (c ∷ cs) ys h h' = (h.0, Unsigned-append cs ys h.1 h')

unsigned_digit : ℕ → Bool
unsigned_digit v = not (is_separator (encoding_at v))

unsigned_table : under unsigned_digit 65 ≡ true
unfolding under unsigned_digit encoding_at
unsigned_table = refl

replaced_digit :
    (rv : ℕ)
    → is_separator rv ≡ false
    → is_separator (if rv == b'+' then b'-' else if rv == b'/' then b'_' else rv) ≡ false
replaced_digit rv h = ground arith

unsigned : (v : ℕ) → is_separator (encode1 v chars) ≡ false
unfolding encode1
unsigned v = elim (Bool-cases (ltb 64 v)) [
  | inl wide ↦ rw wide refl
  | inr digit ↦
      let row : not (is_separator (encoding_at v)) ≡ true =
        unfold unsigned_digit in
        under→true unsigned_digit {i = v} 65 (ground arith) unsigned_table in
      rw digit (replaced_digit (encoding_at v) (ground arith))
]

code_from-Unsigned :
    (step : EncodeStep) (count result : ℕ) (xs : Bytes)
    → (let (e, out) =
          feed
            (record {
              step = step;
              stepcount = count;
              result = result;
              chars = chars;
              wrap = false;
            })
            xs in
        Unsigned (out ++ (encode_end e).1))
unfolding feed encode_end
code_from-Unsigned EncodeStep.step_a count result [] = tt
code_from-Unsigned EncodeStep.step_b count result [] = (unsigned result, (refl, (refl, tt)))
code_from-Unsigned EncodeStep.step_c count result [] = (unsigned result, (refl, tt))
code_from-Unsigned EncodeStep.step_a count result (x ∷ xs) =
    (unsigned (x / 4), code_from-Unsigned EncodeStep.step_b count (x % 4 * 16) xs)
code_from-Unsigned EncodeStep.step_b count result (x ∷ xs) =
    (unsigned (bit_or result (x / 16)), code_from-Unsigned EncodeStep.step_c count (x % 16 * 4) xs)
code_from-Unsigned EncodeStep.step_c count result (x ∷ xs) = (
  unsigned (bit_or result (x / 64)),
  (unsigned (x % 64), code_from-Unsigned EncodeStep.step_a count (x % 64) xs),
)

cookie_code-Unsigned : (source : Bytes) → Unsigned (cookie_code source)
unfolding cookie_code encoder
cookie_code-Unsigned source =
    rw (encode-feed (encoder false chars) source) (code_from-Unsigned EncodeStep.step_a 0 0 source)

chars-IsAlphabet : IsAlphabet chars
chars-IsAlphabet = record {
  plus_free = refl;
  slash_free = refl;
  distinct = omega arith;
  equals_free = refl;
  equals_new = omega arith;
  no_newline = omega arith;
  equals_fits = omega arith;
}

gather_at-chars : (step : DecodeStep) (d : Decoder) (v : ℕ) → (gather_at step d v).0.chars ≡ d.chars
gather_at-chars DecodeStep.step_a d v = refl
gather_at-chars DecodeStep.step_b d v = refl
gather_at-chars DecodeStep.step_c d v = refl
gather_at-chars DecodeStep.step_d d v = refl

gather_char-chars :
    (beyond : Option ℕ) (d : Decoder) (c : ℕ) → (gather_char beyond d c).0.chars ≡ d.chars
unfolding gather_char
gather_char-chars beyond d c = elim (Option-cases (decode1 beyond c d.chars)) [
  | inl nothing ↦ rw (nothing, gather_char) refl
  | inr (v, digit) ↦ rw (digit, gather_char) (gather_at-chars d.step d v)
]

skipped_zero : (beyond : Option ℕ) (d : Decoder) → d.chars ≡ chars → (gather_char beyond d 0).1 ≡ []
unfolding gather_char
skipped_zero beyond d h =
    let nothing : decode1 beyond 0 d.chars ≡ none =
      ap (decode1 beyond 0) h ∙ (unfold decode1 look_up in refl) in
    rw (nothing, gather_char) refl

gather_zero :
    (beyond : Option ℕ) (d : Decoder) (xs : Bytes)
    → d.chars ≡ chars
    → (gather beyond d (xs ++ (0 ∷ []))).1 ≡ (gather beyond d xs).1
unfolding gather
gather_zero beyond d [] h = rw (skipped_zero beyond d h) refl
gather_zero beyond d (c ∷ cs) h =
    ap (λ (x : Bytes). (gather_char beyond d c).1 ++ x)
      (gather_zero beyond (gather_char beyond d c).0 cs (gather_char-chars beyond d c ∙ h))

-- The zero behind the text is skipped.
decode_zero :
    (beyond : Option ℕ) (d : Decoder) (xs : Bytes)
    → d.chars ≡ chars
    → (decode beyond d (xs ++ (0 ∷ []))).1 ≡ (decode beyond d xs).1
decode_zero beyond d xs h =
    rw (decode-gather beyond d (xs ++ (0 ∷ [])), decode-gather beyond d xs)
      (gather_zero beyond d xs h)

-- The two buffers of the client are large enough.
cookie_code_room : (source : Bytes) → length (cookie_code source) ≡ (length source + 2) / 3 * 4
unfolding cookie_code
cookie_code_room source = omega (
  arith,
  length-encode chars source,
  length-append (encode (encoder false chars) source).1
      (encode_end (encode (encoder false chars) source).0).1,
)

-- What a client makes of at least one and fewer than MAX_COOKIE_SIZE bytes fits into its buffers of four
-- and eight times as many. A server that gets it takes the bytes out of it as they were, if it is at
-- most one and a half times MAX_COOKIE_SIZE long, as it is for up to 384 bytes; it ends the process if not.
pub server_data-client_cookie :
    (rand : ℕ → ℕ) (calls : ℕ) (beyond : Option ℕ) (source : Bytes)
    → All IsByte source
    → 0 < length source
    → length source < 1024
    → (length (cookie_code source) ≤ 4 * length source)
      × (length (client_cookie rand calls source) ≤ 8 * length source)
      × (length source ≤ 384 → length (client_cookie rand calls source) ≤ 1536)
      × (length (client_cookie rand calls source) ≤ 1536
          → server_data beyond (client_cookie rand calls source) ≡ returns source)
      × (1536 < length (client_cookie rand calls source)
          → server_data beyond (client_cookie rand calls source) ≡ aborts)
unfolding client_cookie server_data
server_data-client_cookie rand calls beyond source bytes some_data short =
    let n = cookie_code_room source in
    let plain : (decode beyond (decoder chars) (cookie_code source)).1 ≡ source =
      unfold cookie_code in decode-encode_end beyond chars false source chars-IsAlphabet bytes in
    let code = cookie_code source in
    let (same, room) = unwrap-gen_b64_cookies rand calls code in
    let cookie = gen_b64_cookies rand calls code in
    let few = few_room rand calls code in
    (
      omega (arith, n),
      grind (arith, n, room, few),
      λ k. omega (arith, n, room),
      λ fits.
          let accepted : ltb 1536 (length cookie) ≡ false = ground (arith, fits) in
          let back = decode_zero beyond (decoder chars) code (unfold decoder in refl) ∙ plain in
          let unwrapped : unwrap_b64_cookies cookie ≡ code =
            same ∙ unwrap-Unsigned code (cookie_code-Unsigned source) in
          let small : leb 1024 (length source) ≡ false = ground arith in
          rw (accepted, unwrapped, back, small) refl,
      λ big. let refused : ltb 1536 (length cookie) ≡ true = ground (arith, big) in rw refused refl,
    )
