-- ===== src/Base64/Digits.antt =====
-- The two digit tables of src/base64.cc against each other.
use stegotorus.Common.{
  ℕ, ◌<◌, ◌≡◌, ◌≢◌, refl, arith, Bool, true, false, ◌&&◌, ◌||◌, ◌==◌, Option, none, some, under,
  under→true, Bool-cases, inl, inr,
}
use stegotorus.Base64.Alphabet.{Chars, encoding_at, encode1, look_up, decode1, is_alnum, IsAlphabet}

is_digit : ℕ → Option ℕ → Bool
is_digit v none = false
is_digit v (some w) = w == v

is_digit→eq : (v : ℕ) (o : Option ℕ) → is_digit v o ≡ true → o ≡ some v
unfolding is_digit
is_digit→eq v none h = ground arith
is_digit→eq v (some w) h = ground arith

is_absent : Option ℕ → Bool
is_absent none = true
is_absent (some w) = false

is_absent→eq : (o : Option ℕ) → is_absent o ≡ true → o ≡ none
unfolding is_absent
is_absent→eq none h = refl
is_absent→eq (some w) h = ground arith

-- At one digit below 62 the tables agree, and its character is a letter or a digit.
row : Option ℕ → ℕ → Bool
unfolding look_up is_digit encoding_at
row beyond v = is_digit v (look_up beyond (encoding_at v)) && is_alnum (encoding_at v)

rows : (beyond : Option ℕ) → under (row beyond) 62 ≡ true
unfolding under row
rows beyond = refl

row-true : (beyond : Option ℕ) (v : ℕ) → v < 62 → row beyond v ≡ true
row-true beyond v h = under→true (row beyond) 62 h (rows beyond)

-- A character that stands for no digit.
gap : Option ℕ → ℕ → Bool
unfolding look_up is_absent
gap beyond c = is_alnum c || c == b'+' || c == b'/' || c == b'{' || is_absent (look_up beyond c)

gaps : (beyond : Option ℕ) → under (gap beyond) 256 ≡ true
unfolding under gap
gaps beyond = refl

last_of :
    (a b c d e : Bool)
    → a ≡ false
    → b ≡ false
    → c ≡ false
    → d ≡ false
    → (a || b || c || d || e) ≡ true
    → e ≡ true
last_of a b c d e ha hb hc hd h = ground arith

both_true : (a b : Bool) → (a && b) ≡ true → (a ≡ true) × (b ≡ true)
both_true a b h = ground arith

look_up_gap :
    (beyond : Option ℕ) (c : ℕ)
    → c < 256
    → is_alnum c ≡ false
    → c ≢ b'+'
    → c ≢ b'/'
    → c ≢ b'{'
    → look_up beyond c ≡ none
look_up_gap beyond c fits a b d e = is_absent→eq (look_up beyond c) (
    last_of (is_alnum c) (c == b'+') (c == b'/') (c == b'{') (is_absent (look_up beyond c)) a
      (ground arith) (ground arith) (ground arith)
      (unfold gap in under→true (gap beyond) 256 fits (gaps beyond)))

small : (v : ℕ) → v < 64 → (v == 62) ≡ false → (v == 63) ≡ false → v < 62
small v h p q = ground arith

module _ (beyond : Option ℕ) (chars : Chars) (ok : IsAlphabet chars) where
  below_62 : (v : ℕ) → v < 62 → decode1 beyond (encode1 v chars) chars ≡ some v
  unfolding decode1 encode1
  below_62 v h =
      let both =
        both_true (is_digit v (look_up beyond (encoding_at v))) (is_alnum (encoding_at v))
          (unfold row in row-true beyond v h) in
      let found = is_digit→eq v (look_up beyond (encoding_at v)) both.0 in
      let alnum = both.1 in ground (arith, found, alnum, ok.plus_free, ok.slash_free)

  plus_digit : decode1 beyond (encode1 62 chars) chars ≡ some 62
  unfolding decode1 encode1 encoding_at
  plus_digit =
      let found : look_up beyond b'+' ≡ some 62 = unfold look_up in refl in ground (arith, found)

  slash_digit : decode1 beyond (encode1 63 chars) chars ≡ some 63
  unfolding decode1 encode1 encoding_at
  slash_digit =
      let found : look_up beyond b'/' ≡ some 63 = unfold look_up in refl in
      ground (arith, found, ok.distinct)

  -- A digit is read back from its character.
  pub decode1-encode1 : (v : ℕ) → v < 64 → decode1 beyond (encode1 v chars) chars ≡ some v
  decode1-encode1 v h = elim (Bool-cases (v == 62)) [
    | inl plus ↦ (let e : v ≡ 62 = ground arith in rw e plus_digit)
    | inr p ↦ elim (Bool-cases (v == 63)) [
      | inl slash ↦ (let e : v ≡ 63 = ground arith in rw e slash_digit)
      | inr q ↦ below_62 v (small v h p q)
    ]
  ]

  -- The padding character and the line break are no digits.
  pub decode1-equals : decode1 beyond chars.equals chars ≡ none
  unfolding decode1
  decode1-equals =
      let gap =
        look_up_gap beyond chars.equals ok.equals_fits ok.equals_free ok.equals_new.0
          ok.equals_new.1 ok.equals_new.2 in
      ground (arith, gap, ok.equals_new)

  pub decode1_newline : decode1 beyond b'\n' chars ≡ none
  unfolding decode1
  decode1_newline =
      let gap : look_up beyond b'\n' ≡ none = unfold look_up in refl in
      ground (arith, gap, ok.no_newline)
