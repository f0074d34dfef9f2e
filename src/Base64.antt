-- ===== src/Base64.antt =====
-- src/base64.h and src/base64.cc: the two state machines. The labels of their loops are the values of
-- `step`; what a loop keeps in local variables is an argument, and goes to the object's members where
-- the piece ends. A `char` is its byte; `>>`, `<<` and the masks are written as `/`, `*` and `%`.
pub mod Alphabet
pub mod Digits
pub mod Feed
pub mod RoundTrip
pub mod Streaming
mod Tests
use stegotorus.Common.{
  ℕ, suc, ◌+◌, ◌*◌, ◌/◌, ◌%◌, ◌^◌, bit_or, Bool, true, false, ◌==◌, if◌then◌else◌, Option, none,
  some, List, [], ◌∷◌, ◌++◌,
}
use stegotorus.Common.Evbuffer.{Bytes}
use Alphabet.{Chars, encode1, decode1}

-- CHARS_PER_LINE
abbrev pub chars_per_line : ℕ
chars_per_line = 72

pub data EncodeStep : Type 0 where
  step_a step_b step_c : EncodeStep

-- `class encoder`; `chars` are its members `plus`, `slash` and `equals`.
pub record Encoder : Type 0 where
  pub step : EncodeStep
  pub stepcount : ℕ
  pub result : ℕ
  pub chars : Chars
  pub wrap : Bool

unfoldable pub encoder : Bool → Chars → Encoder
encoder wrap chars = record { step = step_a; stepcount = 0; result = 0; chars = chars; wrap = wrap }

-- The end of a group of three: a line break after each 18 groups.
abbrev pub end_group : Encoder → Encoder × Bytes
end_group e =
    if e.wrap
    then (if e.stepcount + 1 == chars_per_line / 4
        then (record e { stepcount = 0 }, b'\n' ∷ [])
        else (record e { stepcount = e.stepcount + 1 }, []))
    else (e, [])

-- `encoder::encode` from a label on, with the local variable `result`: what it writes, and the object
-- as it is left. The members `step` and `result` are written where the piece ends.
unfoldable pub encode_label : EncodeStep → ℕ → Encoder → Bytes → Encoder × Bytes
encode_label step result e [] = (record e { step = step; result = result }, [])
encode_label step_a result e (c ∷ cs) =
    let (e', out) = encode_label step_b (c % 2 ^ 2 * 2 ^ 4) e cs in
    (e', encode1 (c / 2 ^ 2) e.chars ∷ out)
encode_label step_b result e (c ∷ cs) =
    let (e', out) = encode_label step_c (c % 2 ^ 4 * 2 ^ 2) e cs in
    (e', encode1 (bit_or result (c / 2 ^ 4)) e.chars ∷ out)
encode_label step_c result e (c ∷ cs) =
    let (e', line_end) = end_group e in
    let (e'', out) = encode_label step_a (c % 2 ^ 6) e' cs in
    (
      e'',
      encode1 (bit_or result (c / 2 ^ 6)) e.chars ∷ encode1 (c % 2 ^ 6) e.chars ∷ line_end ++ out,
    )

-- It takes both up from the members.
unfoldable pub encode : Encoder → Bytes → Encoder × Bytes
unfolding encode_label
encode e plaintext = encode_label e.step e.result e plaintext

abbrev pub padding : EncodeStep → Encoder → Bytes
padding step_a e = []
padding step_b e = encode1 e.result e.chars ∷ e.chars.equals ∷ e.chars.equals ∷ []
padding step_c e = encode1 e.result e.chars ∷ e.chars.equals ∷ []

-- `encoder::encode_end`, without the terminating zero, which it does not count.
unfoldable pub encode_end : Encoder → Encoder × Bytes
encode_end e = (
  record e { step = step_a; stepcount = 0; result = 0 },
  padding e.step e ++ (if e.wrap then b'\n' ∷ [] else []),
)

pub data DecodeStep : Type 0 where
  step_a step_b step_c step_d : DecodeStep

-- `class decoder`
pub record Decoder : Type 0 where
  pub step : DecodeStep
  pub plainchar : ℕ
  pub chars : Chars

unfoldable pub decoder : Chars → Decoder
decoder chars = record { step = DecodeStep.step_a; plainchar = 0; chars = chars }

unfoldable pub reset : Decoder → Decoder
reset d = record d { step = DecodeStep.step_a; plainchar = 0 }

-- `decoder::decode` from a label on, with the byte under construction, `*plainchar`. Characters that
-- are no digit are skipped. Where the piece ends, the members are written. Behind the last digit of a
-- group `*plainchar` is a byte of the output's buffer that is written before it is read; the old value
-- stands for it. `beyond` is what `decode1` reads past the end of its table.
unfoldable pub decode_label : Option ℕ → DecodeStep → ℕ → Decoder → Bytes → Decoder × Bytes
decode_label beyond step plainchar d [] = (record d { step = step; plainchar = plainchar }, [])
decode_label beyond DecodeStep.step_a plainchar d (c ∷ cs) = elim (decode1 beyond c d.chars) [
  | none ↦ decode_label beyond DecodeStep.step_a plainchar d cs
  | some fragment ↦ decode_label beyond DecodeStep.step_b (fragment % 2 ^ 6 * 2 ^ 2) d cs
]
decode_label beyond DecodeStep.step_b plainchar d (c ∷ cs) = elim (decode1 beyond c d.chars) [
  | none ↦ decode_label beyond DecodeStep.step_b plainchar d cs
  | some fragment ↦
      (let (d', out) = decode_label beyond DecodeStep.step_c (fragment % 2 ^ 4 * 2 ^ 4) d cs in
        (d', bit_or plainchar (fragment / 2 ^ 4 % 2 ^ 2) ∷ out))
]
decode_label beyond DecodeStep.step_c plainchar d (c ∷ cs) = elim (decode1 beyond c d.chars) [
  | none ↦ decode_label beyond DecodeStep.step_c plainchar d cs
  | some fragment ↦
      (let (d', out) = decode_label beyond step_d (fragment % 2 ^ 2 * 2 ^ 6) d cs in
        (d', bit_or plainchar (fragment / 2 ^ 2 % 2 ^ 4) ∷ out))
]
decode_label beyond step_d plainchar d (c ∷ cs) = elim (decode1 beyond c d.chars) [
  | none ↦ decode_label beyond step_d plainchar d cs
  | some fragment ↦
      (let (d', out) = decode_label beyond DecodeStep.step_a plainchar d cs in
        (d', bit_or plainchar (fragment % 2 ^ 6) ∷ out))
]

-- It takes both up from the members.
unfoldable pub decode : Option ℕ → Decoder → Bytes → Decoder × Bytes
unfolding decode_label
decode beyond d code = decode_label beyond d.step d.plainchar d code
