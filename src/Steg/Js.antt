-- ===== src/Steg/Js.antt =====
-- Messages in JavaScript: the search for usable hexadecimal digits in src/steg/payload_server.cc. A
-- pointer with a range is the list of the characters in the range.
pub mod Block
pub mod Cover
pub mod Similar
pub mod Search
pub mod Offset
pub mod Blocks
pub mod RoundTrip
use stegotorus.Common.{
  ℕ, zero, suc, ◌+◌, Bool, true, false, not, ◌&&◌, ◌||◌, leb, ◌==◌, if◌then◌else◌, Option, none,
  some, List, [], ◌∷◌, length, drop, codes,
}
use stegotorus.Common.Evbuffer.{Bytes}

-- <ctype.h>, in the C locale.
abbrev pub isdigit : ℕ → Bool
isdigit c = leb b'0' c && leb c b'9'

abbrev pub isxdigit : ℕ → Bool
isxdigit c = isdigit c || (leb b'a' c && leb c b'f') || (leb b'A' c && leb c b'F')

abbrev pub isalnum : ℕ → Bool
isalnum c = isdigit c || (leb b'a' c && leb c b'z') || (leb b'A' c && leb c b'Z')

abbrev pub isalnum_ : ℕ → Bool
isalnum_ c = isalnum c || c == b'_'

-- JS_DELIMITER and JS_DELIMITER_REPLACEMENT
abbrev pub delimiter : ℕ
delimiter = b'?'

abbrev pub replacement : ℕ
replacement = b'!'

-- The keywords up to the limit of the loop.
abbrev pub keywords : List Bytes
keywords =
    codes "function"
    ∷ codes "return"
    ∷ codes "var"
    ∷ codes "int"
    ∷ codes "random"
    ∷ codes "Math"
    ∷ codes "while"
    ∷ codes "else"
    ∷ codes "for"
    ∷ codes "document"
    ∷ codes "write"
    ∷ codes "writeln"
    ∷ codes "true"
    ∷ codes "false"
    ∷ codes "True"
    ∷ codes "False"
    ∷ codes "window"
    ∷ codes "indexOf"
    ∷ codes "navigator"
    ∷ codes "case"
    ∷ []

-- The inner loop of `skipJSPattern` and the test of the character behind the word. Text that is too
-- short for that does not match.
unfoldable pub rest_matches : Bytes → Bytes → Bool
rest_matches ws [] = false
rest_matches [] (c ∷ cs) = not (isalnum c) && not (c == delimiter) && not (c == replacement)
rest_matches (w ∷ ws) (c ∷ cs) =
    let rest = rest_matches ws cs in (if isxdigit w then isxdigit c else c == w) && rest

unfoldable pub word_matches : Bytes → Bytes → Bool
word_matches [] cp = false
word_matches (w ∷ ws) [] = false
word_matches (w ∷ ws) (c ∷ cs) = w == c && rest_matches ws cs

-- The outer loop.
unfoldable pub skip_words : List Bytes → Bytes → ℕ
skip_words [] cp = 0
skip_words (word ∷ words) cp =
    let rest = skip_words words cp in if word_matches word cp then length word + 1 else rest

-- skipJSPattern
abbrev pub skip_js_pattern : Bytes → ℕ
skip_js_pattern cp = skip_words keywords cp

-- offset2Alnum_, with `none` for -1
unfoldable pub offset2alnum_ : Bytes → Option ℕ
offset2alnum_ [] = none
offset2alnum_ (c ∷ cs) =
    let rest = offset2alnum_ cs in
    if isalnum_ c then some 0 else elim rest [ none ↦ none | some i ↦ some (suc i) ]

-- The loop of case 2, from the offset `i` on. `first` is `isFirstWordChar`; the first argument bounds
-- the rounds.
unfoldable pub next_word : ℕ → Bool → ℕ → Bytes → Option ℕ
next_word zero first i cp = none
next_word (suc rounds) first i [] = none
next_word (suc rounds) first i (c ∷ cs) = elim (offset2alnum_ (c ∷ cs)) [
  | none ↦ none
  | some zero ↦
      if first
      then elim (skip_js_pattern (c ∷ cs)) [
        | zero ↦ next_word rounds false (i + 1) cs
        | suc j ↦ next_word rounds true (i + suc j) (drop j cs)
      ]
      else if isxdigit c
      then some i
      else elim (isalnum_ c) [
        | true ↦ next_word rounds false (i + 1) cs
        | false ↦ next_word rounds true (i + 1) cs
      ]
  | some (suc k) ↦ next_word rounds true (i + suc k) (drop k cs)
]

-- What the loop of case 1 ends with: an offset, the end of the range, or an offset and the text from a
-- character on that is in no word.
pub data WordEnd : Type 0 where
  found : ℕ → WordEnd
  at_end : WordEnd
  outside : ℕ → Bytes → WordEnd

abbrev pub head_or : ℕ → Bytes → ℕ
head_or past [] = past
head_or past (c ∷ cs) = c

-- The loop of case 1. It looks at the character behind the range, which is `past`.
unfoldable pub rest_of_word : ℕ → ℕ → Bytes → WordEnd
rest_of_word past i [] = at_end
rest_of_word past i (c ∷ cs) =
    let rest = rest_of_word past (i + 1) cs in
    if isalnum_ c
    then (if isxdigit (head_or past cs) then found (i + 1) else rest)
    else outside i (c ∷ cs)

-- offset2Hex, with `none` for -1. The loop of case 2 takes at least one character in each round.
unfoldable pub offset2hex : ℕ → Bytes → Bool → Option ℕ
offset2hex past [] is_last_char_hex = none
offset2hex past (c ∷ cs) false = next_word (length (c ∷ cs)) true 0 (c ∷ cs)
offset2hex past (c ∷ cs) true = if isxdigit c then some 0 else elim (rest_of_word past 0 (c ∷ cs)) [
  | found i ↦ some i
  | at_end ↦ none
  | outside i rest ↦ next_word (length rest) true i rest
]
