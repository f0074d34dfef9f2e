-- ===== src/Base64/Alphabet.antt =====
-- The digits of src/base64.cc: `encode1` and `decode1`.
use Prim.Native.Char.{code}
use Prim.Native.String.{String}
use stegotorus.Common.{
  ℕ, zero, suc, ◌+◌, ◌-◌, ◌^◌, ◌≡◌, ◌≢◌, Bool, false, ◌&&◌, ◌||◌, IsByte, leb, ltb, ◌==◌,
  if◌then◌else◌, Option, none, some, List, [], ◌∷◌, ◌++◌, get_or, sub32,
}
use stegotorus.Common.Evbuffer.{Bytes}

-- The characters that the constructors can replace: for the digits 62 and 63, and for padding.
pub record Chars : Type 0 where
  pub plus : ℕ
  pub slash : ℕ
  pub equals : ℕ

-- The bytes of a literal.
abbrev pub codes : String → Bytes
codes String.[] = []
codes (String.◌∷◌ c s) = code c ∷ codes s

-- `encoding`, with the zero that ends the literal.
abbrev pub encoding : Bytes
encoding = codes "ABCDEFGHIJKLMNOPQRSTUVWXYZabcdefghijklmnopqrstuvwxyz0123456789+/" ++ 0 ∷ []

unfoldable pub encoding_at : ℕ → ℕ
encoding_at value = get_or encoding value 0

unfoldable pub encode1 : ℕ → Chars → ℕ
encode1 value chars =
    if ltb 64 value
    then chars.equals
    else let rv = encoding_at value in
      if rv == b'+' then chars.plus else if rv == b'/' then chars.slash else rv

-- Parts of `decoding`: consecutive digits, and entries of -1.
abbrev digits_from : ℕ → ℕ → List (Option ℕ)
digits_from i zero = []
digits_from i (suc n) = some i ∷ digits_from (suc i) n

abbrev absent : ℕ → List (Option ℕ)
absent zero = []
absent (suc n) = none ∷ absent n

-- `decoding`, for the characters from '+' to 'z'. `none` is -1.
abbrev pub decoding : List (Option ℕ)
decoding =
    digits_from 62 1
    ++ absent 3
    ++ digits_from 63 1
    ++ digits_from 52 10
    ++ absent 7
    ++ digits_from 0 26
    ++ absent 6
    ++ digits_from 26 26

-- A `char` as an unsigned int, with the sign extended.
abbrev pub sign_extend : ℕ → ℕ
sign_extend c = if ltb c 128 then c else c + (2 ^ 32 - 256)

-- The look-up at the end of `decode1`. `value > sizeof(decoding)` lets the index 80 pass, one past the
-- end of the table: `beyond` is what stands there. `none` is a negative result.
unfoldable pub look_up : Option ℕ → ℕ → Option ℕ
look_up beyond value =
    let index = sub32 (sign_extend value) 43 in
    if ltb 80 index then none else get_or decoding index beyond

unfoldable pub decode1 : Option ℕ → ℕ → Chars → Option ℕ
decode1 beyond c chars =
    look_up beyond (if c == chars.plus then b'+' else if c == chars.slash then b'/' else c)

-- Letters and digits, which no replaced character may be.
abbrev pub is_alnum : ℕ → Bool
is_alnum c = (leb b'0' c && leb c b'9') || (leb b'A' c && leb c b'Z') || (leb b'a' c && leb c b'z')

-- What the replaced characters have to satisfy for a round trip.
pub record IsAlphabet (chars : Chars) : Type 0 where
  pub plus_free : is_alnum chars.plus ≡ false
  pub slash_free : is_alnum chars.slash ≡ false
  pub distinct : chars.plus ≢ chars.slash
  pub equals_free : is_alnum chars.equals ≡ false
  pub equals_new :
      (chars.equals ≢ b'+')
      × (chars.equals ≢ b'/')
      × (chars.equals ≢ b'{')
      × (chars.equals ≢ chars.plus)
      × (chars.equals ≢ chars.slash)
  pub no_newline : (chars.plus ≢ b'\n') × (chars.slash ≢ b'\n')
  pub equals_fits : IsByte chars.equals

-- The characters of the constructors' default arguments.
abbrev pub standard : Chars
standard = record { plus = b'+'; slash = b'/'; equals = b'=' }
