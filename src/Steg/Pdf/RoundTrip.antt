-- ===== src/Steg/Pdf/RoundTrip.antt =====
-- A message through a PDF cover (src/steg/http_steg_mods/pdfSteg.cc).
use stegotorus.Common.{
  ℕ, zero, suc, ◌+◌, ◌-◌, ◌*◌, ◌<◌, ◌≤◌, ◌≡◌, refl, sym, ap, ◌∙◌, arith, Bool, true, false, not,
  ◌&&◌, ◌||◌, leb, ltb, ◌==◌, if◌then◌else◌, Bool-cases, inl, inr, Option, Option-cases, none, some,
  [], ◌∷◌, ◌++◌, length, take, drop, get_or, codes, All, append_assoc, take-append, drop-append,
  length-append, length-take, length-drop,
}
use stegotorus.Common.Evbuffer.{Bytes}
use stegotorus.Steg.Memory.{gives}
use stegotorus.Steg.Js.{isdigit}
use stegotorus.Steg.Js.Cover.{size_t_ceiling, http_payload_buf_size}
use stegotorus.Steg.Text.{
  starts_with, str_in_binary, str_in_binary_rewind, NoStart, str_in_binary-NoStart, other-NoStart,
  NoStart-append, NoStart-left, NoStart-stop, found-NoStart, absent-NoStart, rewind-starts_with,
}
use stegotorus.Steg.Pdf.{
  stream_begin, stream_end, static_headless_capacity, meta_length, meta_filter, replace_stream,
  encode_stream, encode, start_skip, end_skip, inflate, decode_body, decode_stream, decode,
}

get_or-append : (xs ys : Bytes) (k d : ℕ) → get_or (xs ++ ys) (length xs + k) d ≡ get_or ys k d
get_or-append [] ys k d = let z : 0 + k ≡ k = omega arith in rw z refl
get_or-append (x ∷ xs) ys k d =
    let z : suc (length xs) + k ≡ suc (length xs + k) = omega arith in
    rw z (get_or-append xs ys k d)

take-drop' : (n : ℕ) (xs : Bytes) → take n xs ++ drop n xs ≡ xs
take-drop' zero xs = refl
take-drop' (suc n) [] = refl
take-drop' (suc n) (x ∷ xs) = ap (◌∷◌ x) (take-drop' n xs)

-- The decoder, where both marks are found.
start_found :
    (decompress : Bytes → ℕ → Option Bytes) (past : ℕ → ℕ) (cover : Bytes) (start : ℕ)
    → str_in_binary stream_begin cover ≡ some start
    → 0 < length cover
    → decode_stream decompress past cover
      ≡ decode_body decompress cover (start + 6 + start_skip past cover (start + 6))
unfolding decode_stream
start_found decompress past [] start found some_bytes = absurd (omega arith)
start_found decompress past (c ∷ cs) start found some_bytes = rw (found, decode_stream) refl

body_found :
    (decompress : Bytes → ℕ → Option Bytes) (cover : Bytes) (dp size : ℕ)
    → dp ≤ length cover
    → str_in_binary stream_end (drop dp cover) ≡ some size
    → decode_body decompress cover dp
      ≡ inflate decompress (drop dp cover) size (end_skip cover (dp + size))
unfolding decode_body
body_found decompress cover dp size room found =
    let inside : ltb (length cover) dp ≡ false = ground arith in
    rw (inside, found, decode_body) refl

-- A file with one stream that ends in a byte `last`.
module _ (before body tail : Bytes) (last : ℕ) where
  abbrev head : Bytes
  head = before ++ (stream_begin ++ (b'\n' ∷ []))

  abbrev data2 : Bytes
  data2 = body ++ (last ∷ [])

  abbrev content : Bytes
  content = data2 ++ (b'\n' ∷ (stream_end ++ tail))

  abbrev file : Bytes
  file = before ++ (stream_begin ++ (b'\n' ∷ content))

  file-head : file ≡ head ++ content
  file-head = sym (append_assoc before (stream_begin ++ (b'\n' ∷ [])) content)

  content-body : content ≡ body ++ (last ∷ b'\n' ∷ (stream_end ++ tail))
  content-body = append_assoc body (last ∷ []) (b'\n' ∷ (stream_end ++ tail))

  length-head : length head ≡ length before + 6 + 1
  length-head = omega (arith, length-append before (stream_begin ++ (b'\n' ∷ [])))

  drop-file : drop (length before + 6 + 1) file ≡ content
  drop-file = rw (file-head, sym length-head) (drop-append head content)

  start_skip-file : (past : ℕ → ℕ) → start_skip past file (length before + 6) ≡ 1
  start_skip-file past =
      let newline =
        get_or-append before (stream_begin ++ (b'\n' ∷ content)) 6 (past (length before + 6)) in
      rw newline refl

  end_skip-file :
      end_skip file (length before + 6 + 1 + (length body + 2)) ≡ (if last == b'\r' then 2 else 1)
  end_skip-file =
      let front = head ++ body in
      let whole : file ≡ front ++ (last ∷ b'\n' ∷ (stream_end ++ tail)) =
        file-head
        ∙ ap (λ (x : Bytes). head ++ x) content-body
        ∙ sym (append_assoc head body (last ∷ b'\n' ∷ (stream_end ++ tail))) in
      let n = length-append head body in
      let second : length before + 6 + 1 + (length body + 2) - 1 ≡ length front + 1 =
        omega (arith, n, length-head) in
      let first : length before + 6 + 1 + (length body + 2) - 2 ≡ length front + 0 =
        omega (arith, n, length-head) in
      let c = get_or-append front (last ∷ b'\n' ∷ (stream_end ++ tail)) 0 0 in
      let newline = get_or-append front (last ∷ b'\n' ∷ (stream_end ++ tail)) 1 0 in
      rw (second, first, whole, c, newline)
        (elim (Bool-cases (last == b'\r')) [ inl cr ↦ rw cr refl | inr other ↦ rw other refl ])

  end_found :
      str_in_binary stream_end data2 ≡ none
      → str_in_binary stream_end content ≡ some (length body + 2)
  end_found absent =
      let none_inside =
        absent-NoStart stream_end data2 (stream_end ++ tail) b'\n'
          (refl, (refl, (refl, (refl, (refl, (refl, (refl, (refl, (refl, tt))))))))) absent in
      let none_before =
        NoStart-append stream_end data2 (b'\n' ∷ []) (stream_end ++ tail) none_inside
          (other-NoStart b'e' (codes "ndstream") (b'\n' ∷ []) (stream_end ++ tail) (refl, tt)) in
      let there : str_in_binary stream_end (stream_end ++ tail) ≡ some 0 =
        unfold str_in_binary starts_with in refl in
      let found =
        str_in_binary-NoStart stream_end (data2 ++ (b'\n' ∷ [])) (stream_end ++ tail) 0 none_before
          there in
      rw (sym (append_assoc data2 (b'\n' ∷ []) (stream_end ++ tail))) (
        found
        ∙ ap some (omega (arith, length-append data2 (b'\n' ∷ []), length-append body (last ∷ []))))

  -- What is left of the data by decode.
  inflate-content :
      (decompress : Bytes → ℕ → Option Bytes) (message : Bytes)
      → decompress (if last == b'\r' then body else data2) http_payload_buf_size ≡ some message
      → inflate decompress content (length body + 2) (if last == b'\r' then 2 else 1)
        ≡ gives message
  unfolding inflate
  inflate-content decompress message h = elim (Bool-cases (last == b'\r')) [
    | inl cr ↦
        let h' = rw cr at h in
        let size : length body + 2 - 2 ≡ length body = omega arith in
        let inside : ltb (length body + 2) 2 ≡ false = ground arith in
        let cut : take (length body) content ≡ body =
          ap (take (length body)) content-body
          ∙ take-append body (last ∷ b'\n' ∷ (stream_end ++ tail)) in
        rw (cr, inside, size, cut, h', inflate) refl
    | inr other ↦
        let h' = rw other at h in
        let size : length body + 2 - 1 ≡ length data2 =
          omega (arith, length-append body (last ∷ [])) in
        let inside : ltb (length body + 2) 1 ≡ false = ground arith in
        let cut : take (length data2) content ≡ data2 =
          take-append data2 (b'\n' ∷ (stream_end ++ tail)) in
        rw (other, inside, size, cut, h', inflate) refl
  ]

  decode_stream-file :
      (decompress : Bytes → ℕ → Option Bytes) (past : ℕ → ℕ) (message : Bytes)
      → str_in_binary stream_begin file ≡ some (length before)
      → str_in_binary stream_end data2 ≡ none
      → decompress (if last == b'\r' then body else data2) http_payload_buf_size ≡ some message
      → decode_stream decompress past file ≡ gives message
  decode_stream-file decompress past message begins absent h =
      let n : length file ≡ length before + 6 + 1 + length content =
        omega (arith, ap length file-head, length-append head content, length-head) in
      let found : str_in_binary stream_end (drop (length before + 6 + 1) file)
          ≡ some (length body + 2) =
        rw drop-file (end_found absent) in
      start_found decompress past file (length before) begins (omega (arith, n))
      ∙ ap (λ (skip : ℕ). decode_body decompress file (length before + 6 + skip))
          (start_skip-file past)
      ∙ body_found decompress file (length before + 6 + 1) (length body + 2) (omega (arith, n))
          found
      ∙ rw (end_skip-file, drop-file) (inflate-content decompress message h)

abbrev Other : Bytes → Type 0
Other = All (λ c. (c == b's') ≡ false)

Other-append : (xs ys : Bytes) → Other xs → Other ys → Other (xs ++ ys)
Other-append [] ys h h' = h'
Other-append (c ∷ cs) ys h h' = (h.0, Other-append cs ys h.1 h')

abbrev is_other : Bytes → Bool
is_other [] = true
is_other (c ∷ cs) = not (c == b's') && is_other cs

Other-true : (xs : Bytes) → is_other xs ≡ true → Other xs
Other-true [] h = tt
Other-true (c ∷ cs) h =
    let both : ((c == b's') ≡ false) × (is_other cs ≡ true) = ground arith in
    (both.0, Other-true cs both.1)

digits-Other : (xs : Bytes) → All (λ c. isdigit c ≡ true) xs → Other xs
digits-Other [] h = tt
digits-Other (c ∷ cs) h = (let d = h.0 in ground (arith, d), digits-Other cs h.1)

-- The new file up to its first stream.
module _ (cover : Bytes) (start filter_start : ℕ) (number : Bytes) where
  abbrev object : Bytes
  object = take filter_start (take start cover)

  abbrev dictionary : Bytes
  dictionary = codes " obj" ++ (meta_length ++ (number ++ meta_filter))

  dictionary-Other : All (λ c. isdigit c ≡ true) number → Other dictionary
  dictionary-Other digits =
      Other-append (codes " obj" ++ meta_length) (number ++ meta_filter)
        (Other-true (codes " obj" ++ meta_length) refl)
        (Other-append number meta_filter (digits-Other number digits) (Other-true meta_filter refl))

  module _ (found : str_in_binary stream_begin cover ≡ some start)
      (obj : str_in_binary_rewind (codes " obj") (take start cover) ≡ some filter_start) where
    object-take : take (filter_start + 4) cover ≡ object ++ codes " obj"
    object-take =
        let (r, e, n) = rewind-starts_with (codes " obj") (take start cover) filter_start obj in
        let n' = length-append object (codes " obj") in
        let whole : cover ≡ (object ++ codes " obj") ++ (r ++ drop start cover) =
          sym (take-drop' start cover)
          ∙ ap (λ (x : Bytes). x ++ drop start cover) e
          ∙ append_assoc object (codes " obj" ++ r) (drop start cover)
          ∙ sym (append_assoc object (codes " obj") (r ++ drop start cover)) in
        let size : filter_start + 4 ≡ length (object ++ codes " obj") = omega (arith, n, n') in
        ap (take (filter_start + 4)) whole
        ∙ ap (λ (k : ℕ). take k ((object ++ codes " obj") ++ (r ++ drop start cover))) size
        ∙ take-append (object ++ codes " obj") (r ++ drop start cover)

    begins :
        (rest : Bytes)
        → start ≤ length cover
        → All (λ c. isdigit c ≡ true) number
        → str_in_binary stream_begin ((object ++ dictionary) ++ (stream_begin ++ rest))
          ≡ some (length (object ++ dictionary))
    begins rest inside digits =
        let (r, e, n) = rewind-starts_with (codes " obj") (take start cover) filter_start obj in
        let all : NoStart stream_begin (take start cover) (drop start cover) =
          found-NoStart stream_begin (take start cover) (drop start cover) start
            (ap (str_in_binary stream_begin) (take-drop' start cover) ∙ found)
            (omega (arith, length-take start cover)) in
        let first : NoStart stream_begin object ((codes " obj" ++ r) ++ drop start cover) =
          NoStart-left stream_begin object (codes " obj" ++ r) (drop start cover)
            (rw (sym e) all) in
        let behind_obj =
          NoStart-stop stream_begin object (codes "obj" ++ r ++ drop start cover)
            ((codes "obj" ++ (meta_length ++ (number ++ meta_filter))) ++ (stream_begin ++ rest))
            b' ' (refl, (refl, (refl, (refl, (refl, (refl, tt)))))) first in
        let clear =
          NoStart-append stream_begin object dictionary (stream_begin ++ rest) behind_obj (
            other-NoStart b's' (codes "tream") dictionary (stream_begin ++ rest)
              (dictionary-Other digits)) in
        let there : str_in_binary stream_begin (stream_begin ++ rest) ≡ some 0 =
          unfold str_in_binary starts_with in refl in
        str_in_binary-NoStart stream_begin (object ++ dictionary) (stream_begin ++ rest) 0 clear
          there
        ∙ ap some (omega arith)

found_inside :
    (pattern text : Bytes) (i : ℕ) → str_in_binary pattern text ≡ some i → i ≤ length text
unfolding str_in_binary
found_inside pattern [] i h = elim (Bool-cases (starts_with pattern [])) [
  | inl here ↦ let h' = rw here at h in let z : 0 ≡ i = cc in omega arith
  | inr nothing ↦ absurd (let h' = rw nothing at h in cc)
]
found_inside pattern (c ∷ cs) i h = elim (Bool-cases (starts_with pattern (c ∷ cs))) [
  | inl here ↦ let h' = rw (here, str_in_binary) at h in let z : 0 ≡ i = cc in omega arith
  | inr later ↦ elim (Option-cases (str_in_binary pattern cs)) [
    | inl nothing ↦ absurd (let h' = rw (later, str_in_binary, nothing) at h in cc)
    | inr (j, e) ↦
        let h' = rw (later, str_in_binary, e) at h in
        let z : suc j ≡ i = cc in let l = found_inside pattern cs j e in omega arith
  ]
]

stream_replaced :
    (compress : Bytes → ℕ → Option Bytes) (decimal : ℕ → Bytes) (data2 cover : Bytes)
    (start end filter_start : ℕ)
    → str_in_binary stream_begin cover ≡ some start
    → str_in_binary stream_end cover ≡ some end
    → str_in_binary_rewind (codes " obj") (take start cover) ≡ some filter_start
    → 0 < length cover
    → encode_stream compress decimal data2 cover
      ≡ replace_stream compress decimal data2 cover filter_start end
unfolding encode_stream
stream_replaced compress decimal data2 [] start end filter_start s e o l = absurd (omega arith)
stream_replaced compress decimal data2 (c ∷ cs) start end filter_start s e o l =
    rw (s, encode_stream, e, o) refl

file-parts :
    (cover number rest : Bytes) (start end filter_start : ℕ)
    → str_in_binary stream_begin cover ≡ some start
    → str_in_binary_rewind (codes " obj") (take start cover) ≡ some filter_start
    → take (filter_start + 4) cover ++ (meta_length ++ (number ++ (meta_filter ++ rest)))
      ≡ (object cover start filter_start number ++ dictionary cover start filter_start number)
        ++ rest
file-parts cover number rest start end filter_start s o =
    let obj = object cover start filter_start number in
    let front = codes " obj" ++ meta_length in
    ap (λ (x : Bytes). x ++ (meta_length ++ (number ++ (meta_filter ++ rest))))
      (object-take cover start filter_start number s o)
    ∙ append_assoc obj (codes " obj") (meta_length ++ (number ++ (meta_filter ++ rest)))
    ∙ ap (λ (x : Bytes). obj ++ (front ++ x)) (sym (append_assoc number meta_filter rest))
    ∙ sym (append_assoc obj (dictionary cover start filter_start number) rest)

file_room :
    (cover number body : Bytes) (last start end filter_start : ℕ)
    → length number ≤ 10
    → str_in_binary_rewind (codes " obj") (take start cover) ≡ some filter_start
    → filter_start + length body + (length cover - end) + 51 < 499990
    → length (
        file
          (object cover start filter_start number ++ dictionary cover start filter_start number)
          body
          (drop (end + 9) cover)
          last)
      < 500010
file_room cover number body last start end filter_start short o space =
    let n = (rewind-starts_with (codes " obj") (take start cover) filter_start o).2 in
    let a =
      length-append (object cover start filter_start number)
        (dictionary cover start filter_start number) in
    let b = length-append number meta_filter in
    let c = length-append (body ++ (last ∷ [])) (b'\n' ∷ (stream_end ++ drop (end + 9) cover)) in
    let d = length-append body (last ∷ []) in
    let f =
      length-append
        (object cover start filter_start number ++ dictionary cover start filter_start number)
        (stream_begin
          ++ (b'\n' ∷ ((body ++ (last ∷ [])) ++ (b'\n' ∷ (stream_end ++ drop (end + 9) cover))))) in
    omega (arith, n, a, b, c, d, f, length-drop (end + 9) cover)

-- A message that `compress` makes `body` and a byte `last` of, in a cover that is not empty, in which the first
-- `stream`, an ` obj` before it and an `endstream` are found, that has the capacity for the message,
-- and where the new file has room: `encode` succeeds, and `decode` gives what `decompress` makes of the
-- compressed bytes, which is the message, but without the last of them where it is a carriage return. The
-- compressed bytes hold no `endstream`, sprintf writes digits, and sizes are at most SIZE_T_CEILING.
pub pdf-decode-encode :
    (compress decompress : Bytes → ℕ → Option Bytes) (decimal : ℕ → Bytes) (past : ℕ → ℕ)
    (message cover body result : Bytes) (last start end filter_start : ℕ)
    → compress message (2 * length cover + 10) ≡ some (body ++ (last ∷ []))
    → decompress (if last == b'\r' then body else body ++ (last ∷ [])) http_payload_buf_size
      ≡ some result
    → str_in_binary stream_end (body ++ (last ∷ [])) ≡ none
    → All (λ c. isdigit c ≡ true) (decimal (length (body ++ (last ∷ []))))
    → length (decimal (length (body ++ (last ∷ [])))) ≤ 10
    → str_in_binary stream_begin cover ≡ some start
    → str_in_binary stream_end cover ≡ some end
    → str_in_binary_rewind (codes " obj") (take start cover) ≡ some filter_start
    → 0 < length cover
    → length cover ≤ size_t_ceiling
    → length message ≤ size_t_ceiling
    → length message ≤ static_headless_capacity cover
    → filter_start + length body + (length cover - end) + 51 < 499990
    → (out : Bytes) × (encode compress decimal message cover ≡ gives out)
      × (decode decompress past out ≡ gives result)
unfolding encode decode replace_stream
pdf-decode-encode compress decompress decimal past message cover body result last start end
      filter_start made unmade absent digits short s e o some_bytes fits fits' room space =
    let z = body ++ (last ∷ []) in
    let number = decimal (length z) in
    let before =
      object cover start filter_start number ++ dictionary cover start filter_start number in
    let tail = drop (end + 9) cover in
    let out = file before body tail last in
    let n = length-append body (last ∷ []) in
    let small : (ltb size_t_ceiling (length cover) || ltb size_t_ceiling (length message)) ≡ false =
      ground arith in
    let enough : ltb (static_headless_capacity cover) (length message) ≡ false = ground arith in
    let wide : leb 499990 (filter_start + 4 + 46 + length z + (length cover - end)) ≡ false =
      ground arith in
    let out_room = file_room cover number body last start end filter_start short o space in
    let small' : ltb size_t_ceiling (length out) ≡ false = ground arith in
    let begins_out =
      begins cover start filter_start number s o (b'\n' ∷ (z ++ (b'\n' ∷ (stream_end ++ tail))))
        (found_inside stream_begin cover start s) digits in
    (
      out,
      rw (small, enough, made, encode)
          (stream_replaced compress decimal z cover start end filter_start s e o some_bytes
            ∙ rw wide (
                ap gives (
                  file-parts cover number
                    (stream_begin ++ (b'\n' ∷ (z ++ (b'\n' ∷ (stream_end ++ tail))))) start end
                    filter_start s o))),
      rw small' (
          decode_stream-file before body tail last decompress past result begins_out absent unmade),
    )
