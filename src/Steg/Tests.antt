-- ===== src/Steg/Tests.antt =====
-- Runs of the steganography modules at concrete inputs.
use stegotorus.Common.{
  ℕ, ◌+◌, ◌-◌, ◌*◌, ◌%◌, ◌<◌, ◌≤◌, ◌≡◌, refl, arith, Option, none, some, [], ◌∷◌, ◌++◌, length,
  take, get_or, codes, returns, aborts, ◌==◌, ==_iff, ◌>>=◌, Ensures,
}
use stegotorus.Common.Evbuffer.{Bytes}
use stegotorus.Steg.Memory.{gives, behind}
use stegotorus.Steg.Js.{
  next_word, offset2hex, rest_of_word, offset2alnum_, skip_words, word_matches, rest_matches,
}
use stegotorus.Steg.Js.Block.{count_from, preliminary_capacity}
use stegotorus.Steg.Js.Cover
use stegotorus.Steg.Js.RoundTrip.{hex_value, js-decode-encode}
use stegotorus.Steg.Gif
use stegotorus.Steg.Gif.RoundTrip.{gif-decode-encode}
use stegotorus.Steg.Jpg
use stegotorus.Steg.Cookies
use stegotorus.Steg.Cookies.RoundTrip.{server_data-client_cookie}
use stegotorus.Steg.Text.{starts_with, str_in_binary, str_in_binary_rewind}
use stegotorus.Steg.Png
use stegotorus.Steg.Png.RoundTrip.{png-decode-encode}
use stegotorus.Steg.PayloadLruCache
use stegotorus.Steg.PayloadLruCache.Invariant.{IsCache, Called}
use stegotorus.Steg.PayloadLruCache.Calls.{call-Called}
use stegotorus.Steg.PayloadLruCache.Runs.{run, run-answers, fetch, drop_key}
use stegotorus.Steg.Pdf
use stegotorus.Steg.Pdf.RoundTrip.{pdf-decode-encode}
use stegotorus.Steg.Jpg.RoundTrip.{jpg-decode-encode}

abbrev script : Bytes
script = codes "dfp_ord=Math.random()*1000000; dfp_tile = 1;"

capacity-script : Cover.static_headless_capacity 0 script ≡ 4
unfolding Cover.static_headless_capacity preliminary_capacity count_from offset2hex next_word
    rest_of_word offset2alnum_ skip_words word_matches rest_matches
capacity-script = refl

-- Two digits as sscanf reads them.
abbrev scan_two : Bytes → ℕ → ℕ
scan_two text k = 16 * hex_value (get_or text 0 0) + hex_value (get_or text 1 0)

js-decode-encode_example :
    (out : Bytes) × (Cover.encode 0 0 (0x41 ∷ 0xff ∷ []) script ≡ some out)
    × (length out ≡ 44)
    × (Cover.decode scan_two 7 0 out ≡ some (0x41 ∷ 0xff ∷ []))
js-decode-encode_example =
    js-decode-encode scan_two 7 0 0 0 (0x41 ∷ 0xff ∷ []) script (λ c c' k rest h h'. refl) refl refl
      (omega arith, (omega arith, tt)) (omega arith) (omega arith) (omega arith)
      (omega (arith, capacity-script))

abbrev gif : Bytes
gif = 0x47 ∷ 0x2c ∷ 1 ∷ 2 ∷ 3 ∷ 4 ∷ 5 ∷ 6 ∷ 7 ∷ 8 ∷ 9 ∷ 10 ∷ []

start-gif : Gif.starting_point none gif ≡ some 2
unfolding Gif.starting_point Gif.sentinel_end
start-gif = refl

capacity-gif : Gif.static_headless_capacity gif ≡ 5
unfolding Gif.static_headless_capacity Gif.starting_point Gif.sentinel_end
capacity-gif = refl

-- Five bytes are in the capacity, and three too many.
gif-decode-encode_example :
    (2 + 8 + 5 ≤ 12
      → (out : Bytes) × (Gif.encode none (1 ∷ 2 ∷ 3 ∷ 4 ∷ 5 ∷ []) gif ≡ gives out)
        × (length out ≡ 12)
        × (Gif.decode none out ≡ gives (1 ∷ 2 ∷ 3 ∷ 4 ∷ 5 ∷ [])))
    × (12 < 2 + 8 + 5 → Gif.encode none (1 ∷ 2 ∷ 3 ∷ 4 ∷ 5 ∷ []) gif ≡ behind)
gif-decode-encode_example =
    gif-decode-encode none none (1 ∷ 2 ∷ 3 ∷ 4 ∷ 5 ∷ []) gif 2 start-gif (omega arith) (omega arith)
      (omega (arith, capacity-gif))

abbrev jpg : Bytes
jpg = 0xff ∷ 0xd8 ∷ 0xff ∷ 0xda ∷ 0 ∷ 2 ∷ 1 ∷ 2 ∷ 3 ∷ 4 ∷ 5 ∷ 6 ∷ 7 ∷ 0xff ∷ 0xd9 ∷ []

start-jpg : Jpg.starting_point (λ i. 0) jpg ≡ some 6
unfolding Jpg.starting_point Jpg.scan_marker
start-jpg = refl

marker-jpg : Jpg.scan_marker jpg ≡ some 2
unfolding Jpg.scan_marker
marker-jpg = refl

capacity-jpg : Jpg.static_headless_capacity (λ i. 0) jpg ≡ 3
unfolding Jpg.static_headless_capacity Jpg.starting_point Jpg.scan_marker
capacity-jpg = refl

jpg-decode-encode_example :
    (out : Bytes) × (Jpg.encode (λ i. 0) (7 ∷ 8 ∷ 9 ∷ []) jpg ≡ gives out)
    × (length out ≡ 15)
    × (Jpg.decode (λ i. 1) out ≡ gives (7 ∷ 8 ∷ 9 ∷ []))
jpg-decode-encode_example =
    jpg-decode-encode (λ i. 0) (λ i. 1) (7 ∷ 8 ∷ 9 ∷ []) jpg 6 2 start-jpg marker-jpg (omega arith)
      (omega arith) (omega (arith, capacity-jpg))

-- Every call of rand gives 7.
cookie_example :
    Cookies.gen_b64_cookies (λ k. 7) 0 (codes "c3RlZ290b3J1cw..") ≡ codes "c3RlZ290=b3J1cw.."
unfolding Cookies.gen_b64_cookies Cookies.cookies_from Cookies.gen_one_cookie
cookie_example = refl

server_data-client_cookie_example :
    (length (Cookies.cookie_code (1 ∷ 2 ∷ 3 ∷ 255 ∷ [])) ≤ 16)
    × (length (Cookies.client_cookie (λ k. 7) 0 (1 ∷ 2 ∷ 3 ∷ 255 ∷ [])) ≤ 32)
    × (4 ≤ 384 → length (Cookies.client_cookie (λ k. 7) 0 (1 ∷ 2 ∷ 3 ∷ 255 ∷ [])) ≤ 1536)
    × (length (Cookies.client_cookie (λ k. 7) 0 (1 ∷ 2 ∷ 3 ∷ 255 ∷ [])) ≤ 1536
        → Cookies.server_data none (Cookies.client_cookie (λ k. 7) 0 (1 ∷ 2 ∷ 3 ∷ 255 ∷ []))
          ≡ returns (1 ∷ 2 ∷ 3 ∷ 255 ∷ []))
    × (1536 < length (Cookies.client_cookie (λ k. 7) 0 (1 ∷ 2 ∷ 3 ∷ 255 ∷ []))
        → Cookies.server_data none (Cookies.client_cookie (λ k. 7) 0 (1 ∷ 2 ∷ 3 ∷ 255 ∷ []))
          ≡ aborts)
server_data-client_cookie_example =
    server_data-client_cookie (λ k. 7) 0 none (1 ∷ 2 ∷ 3 ∷ 255 ∷ [])
      (omega arith, (omega arith, (omega arith, (omega arith, tt)))) (omega arith) (omega arith)

-- A compression that only adds a zero.
abbrev add_zero : Bytes → ℕ → Option Bytes
add_zero message size = some (message ++ 0 ∷ [])

abbrev drop_zero : Bytes → ℕ → Option Bytes
drop_zero bytes size = some (take (length bytes - 1) bytes)

abbrev digit : ℕ → Bytes
digit n = (b'0' + n % 10) ∷ []

abbrev pdf : Bytes
pdf = codes "1 0 obj\n<<>>\nstream\nabcdefgh\nendstream\nendobj"

start-pdf : str_in_binary Pdf.stream_begin pdf ≡ some 13
unfolding str_in_binary starts_with
start-pdf = refl

end-pdf : str_in_binary Pdf.stream_end pdf ≡ some 29
unfolding str_in_binary starts_with
end-pdf = refl

obj-pdf : str_in_binary_rewind (codes " obj") (take 13 pdf) ≡ some 3
unfolding str_in_binary_rewind starts_with
obj-pdf = refl

capacity-pdf : Pdf.static_headless_capacity pdf ≡ 8
unfolding Pdf.capacity_from str_in_binary starts_with
capacity-pdf = refl

absent-pdf : str_in_binary Pdf.stream_end (5 ∷ 6 ∷ 0 ∷ []) ≡ none
unfolding str_in_binary starts_with
absent-pdf = refl

pdf-decode-encode_example :
    (out : Bytes) × (Pdf.encode add_zero digit (5 ∷ 6 ∷ []) pdf ≡ gives out)
    × (Pdf.decode drop_zero (λ i. 0) out ≡ gives (5 ∷ 6 ∷ []))
pdf-decode-encode_example =
    pdf-decode-encode add_zero drop_zero digit (λ i. 0) (5 ∷ 6 ∷ []) pdf (5 ∷ 6 ∷ []) (5 ∷ 6 ∷ []) 0
      13 29 3 refl refl absent-pdf (refl, tt) (omega arith) start-pdf end-pdf obj-pdf (omega arith)
      (omega arith) (omega arith) (omega (arith, capacity-pdf)) (omega arith)

-- A full cache of two records of the function that adds 10.
abbrev two_keys : PayloadLruCache.Cache ℕ ℕ
two_keys = record { capacity = 2; key_tracker = 1 ∷ 2 ∷ []; key_to_value = (2, 12) ∷ (1, 11) ∷ [] }

two_keys-IsCache : IsCache ◌==◌ two_keys
two_keys-IsCache = record {
  room = omega arith;
  fits = omega arith;
  sizes = refl;
  once = λ j. ground arith;
  same = λ j. ground arith;
}

-- The least recent record goes.
call_example :
    PayloadLruCache.call ◌==◌ (λ k. k + 10) 3 two_keys
    ≡ returns (
      13,
      record { capacity = 2; key_tracker = 2 ∷ 3 ∷ []; key_to_value = (3, 13) ∷ (2, 12) ∷ [] },
    )
unfolding PayloadLruCache.call PayloadLruCache.insert PayloadLruCache.refresh PayloadLruCache.evict
    PayloadLruCache.find PayloadLruCache.erase PayloadLruCache.erase_entry
call_example = refl

call-Called_example :
    Ensures
      (Called ◌==◌ (λ k. k + 10) 3 two_keys)
      (PayloadLruCache.call ◌==◌ (λ k. k + 10) 3 two_keys)
call-Called_example = call-Called ◌==◌ (λ j k. ==_iff j k) (λ k. k + 10) 3 two_keys two_keys-IsCache

run-answers_example :
    (PayloadLruCache.payload_lru_cache ◌==◌ 2
      >>= run ◌==◌ (λ k. k + 10) (fetch 1 ∷ fetch 2 ∷ drop_key 1 ∷ fetch 3 ∷ fetch 1 ∷ []))
    ≡ returns (11 ∷ 12 ∷ 13 ∷ 11 ∷ [])
run-answers_example =
    run-answers ◌==◌ (λ j k. ==_iff j k) (λ k. k + 10) 2
      (fetch 1 ∷ fetch 2 ∷ drop_key 1 ∷ fetch 3 ∷ fetch 1 ∷ []) (omega arith)

-- A file with a header chunk and a data chunk of eight bytes.
abbrev png : Bytes
png =
    codes "12345678"
    ++ (0 ∷ 0 ∷ 0 ∷ 1 ∷ codes "IHDR")
    ++ (0 ∷ 1 ∷ 2 ∷ 3 ∷ 4 ∷ [])
    ++ (0 ∷ 0 ∷ 0 ∷ 8 ∷ codes "IDAT")
    ++ codes "abcdefgh"
    ++ (1 ∷ 2 ∷ 3 ∷ 4 ∷ [])

chunk-png :
    Png.first_chunk (λ i. 0) png ≡ gives (record { chunk_offset = some 21; chunk_length = 8 })
unfolding Png.first_chunk Png.compute_length Png.get_next_idat_chunk Png.idat_from
chunk-png = refl

png-decode-encode_example :
    (Png.static_headless_capacity (λ i. 0) png ≡ gives 4)
    × ((out : Bytes) × (Png.encode (λ i. 0) png (7 ∷ 8 ∷ 9 ∷ []) ≡ gives out)
        × (length out ≡ 41)
        × (Png.decode (λ i. 1) out ≡ gives (7 ∷ 8 ∷ 9 ∷ [])))
png-decode-encode_example =
    png-decode-encode (λ i. 0) (λ i. 1) (7 ∷ 8 ∷ 9 ∷ []) png 21 8 chunk-png (omega arith)
      (omega arith) (omega arith)
