-- ===== src/Steg/Text.antt =====
-- The search for text in a buffer: `strInBinary` of src/steg/payload_server.cc and `strInBinaryRewind` of
-- src/steg/http_steg_mods/pdfSteg.cc, for patterns that are not empty.
use stegotorus.Common.{
  ℕ, zero, suc, ◌+◌, ◌≤◌, ◌≡◌, refl, sym, ap, ◌∙◌, arith, Bool, true, false, ◌&&◌, ◌==◌,
  if◌then◌else◌, Bool-cases, inl, inr, Option, Option-cases, none, some, [], ◌∷◌, ◌++◌, length,
  take, append_assoc, All,
}
use stegotorus.Common.Evbuffer.{Bytes}

-- memcmp, where the text is long enough.
unfoldable pub starts_with : Bytes → Bytes → Bool
starts_with [] text = true
starts_with (p ∷ ps) [] = false
starts_with (p ∷ ps) (c ∷ cs) = c == p && starts_with ps cs

-- strInBinary: the offset, or `none` for NULL.
unfoldable pub str_in_binary : Bytes → Bytes → Option ℕ
str_in_binary pattern [] = if starts_with pattern [] then some 0 else none
str_in_binary pattern (c ∷ cs) =
    let rest = str_in_binary pattern cs in
    if starts_with pattern (c ∷ cs)
    then some 0
    else elim rest [ none ↦ none | some i ↦ some (suc i) ]

-- strInBinaryRewind
unfoldable pub str_in_binary_rewind : Bytes → Bytes → Option ℕ
str_in_binary_rewind pattern [] = none
str_in_binary_rewind pattern (c ∷ cs) = elim (str_in_binary_rewind pattern cs) [
  | some i ↦ some (suc i)
  | none ↦ if starts_with pattern (c ∷ cs) then some 0 else none
]

-- No place of the first text, with the second behind it, begins the pattern.
abbrev pub NoStart : Bytes → Bytes → Bytes → Type 0
NoStart pattern [] rest = Unit {0}
NoStart pattern (c ∷ cs) rest =
    (starts_with pattern (c ∷ (cs ++ rest)) ≡ false) × NoStart pattern cs rest

pub str_in_binary-NoStart :
    (pattern text rest : Bytes) (i : ℕ)
    → NoStart pattern text rest
    → str_in_binary pattern rest ≡ some i
    → str_in_binary pattern (text ++ rest) ≡ some (length text + i)
unfolding str_in_binary
str_in_binary-NoStart pattern [] rest i h e = let z : 0 + i ≡ i = omega arith in rw z e
str_in_binary-NoStart pattern (c ∷ cs) rest i h e =
    let z : suc (length cs) + i ≡ suc (length cs + i) = omega arith in
    rw (h.0, str_in_binary-NoStart pattern cs rest i h.1 e, z) refl

-- Characters that are not the pattern's first begin nothing.
pub other-NoStart :
    (p : ℕ) (ps text rest : Bytes) → All (λ c. (c == p) ≡ false) text → NoStart (p ∷ ps) text rest
unfolding starts_with
other-NoStart p ps [] rest h = tt
other-NoStart p ps (c ∷ cs) rest h = (rw h.0 refl, other-NoStart p ps cs rest h.1)

pub NoStart-append :
    (pattern text text' rest : Bytes)
    → NoStart pattern text (text' ++ rest)
    → NoStart pattern text' rest
    → NoStart pattern (text ++ text') rest
NoStart-append pattern [] text' rest h h' = h'
NoStart-append pattern (c ∷ cs) text' rest h h' = (
  let e : ((cs ++ text') ++ rest) ≡ cs ++ (text' ++ rest) = append_assoc cs text' rest in rw e h.0,
  NoStart-append pattern cs text' rest h.1 h',
)

-- What stands behind a character that is not in the pattern does not matter.
starts_with_stop :
    (pattern text rest rest' : Bytes) (stop : ℕ)
    → All (λ p. (stop == p) ≡ false) pattern
    → starts_with pattern (text ++ (stop ∷ rest)) ≡ starts_with pattern (text ++ (stop ∷ rest'))
unfolding starts_with
starts_with_stop [] text rest rest' stop h = refl
starts_with_stop (p ∷ ps) [] rest rest' stop h = rw h.0 refl
starts_with_stop (p ∷ ps) (c ∷ cs) rest rest' stop h =
    ap (λ (b : Bool). c == p && b) (starts_with_stop ps cs rest rest' stop h.1)

pub found-NoStart :
    (pattern text rest : Bytes) (i : ℕ)
    → str_in_binary pattern (text ++ rest) ≡ some i
    → length text ≤ i
    → NoStart pattern text rest
unfolding str_in_binary
found-NoStart pattern [] rest i h l = tt
found-NoStart pattern (c ∷ cs) rest i h l =
    elim (Bool-cases (starts_with pattern (c ∷ (cs ++ rest)))) [
      | inl here ↦
          absurd (let h' = rw (here, str_in_binary) at h in let z : 0 ≡ i = cc in omega arith)
      | inr later ↦ elim (Option-cases (str_in_binary pattern (cs ++ rest))) [
        | inl nothing ↦ absurd (let h' = rw (later, str_in_binary, nothing) at h in cc)
        | inr (j, e) ↦
            let h' = rw (later, str_in_binary, e) at h in
            let z : suc j ≡ i = cc in (later, found-NoStart pattern cs rest j e (omega arith))
      ]
    ]

pub NoStart-stop :
    (pattern text rest rest' : Bytes) (stop : ℕ)
    → All (λ p. (stop == p) ≡ false) pattern
    → NoStart pattern text (stop ∷ rest)
    → NoStart pattern text (stop ∷ rest')
NoStart-stop pattern [] rest rest' stop h n = tt
NoStart-stop pattern (c ∷ cs) rest rest' stop h n = (
  sym (starts_with_stop pattern (c ∷ cs) rest rest' stop h) ∙ n.0,
  NoStart-stop pattern cs rest rest' stop h n.1,
)

pub NoStart-left :
    (pattern text text' rest : Bytes)
    → NoStart pattern (text ++ text') rest
    → NoStart pattern text (text' ++ rest)
NoStart-left pattern [] text' rest h = tt
NoStart-left pattern (c ∷ cs) text' rest h = (
  let e : ((cs ++ text') ++ rest) ≡ cs ++ (text' ++ rest) = append_assoc cs text' rest in
      rw (sym e) h.0,
  NoStart-left pattern cs text' rest h.1,
)

no_start_stop :
    (pattern text rest : Bytes) (stop : ℕ)
    → All (λ p. (stop == p) ≡ false) pattern
    → starts_with pattern text ≡ false
    → starts_with pattern (text ++ (stop ∷ rest)) ≡ false
unfolding starts_with
no_start_stop [] text rest stop h n = absurd (cc)
no_start_stop (p ∷ ps) [] rest stop h n = rw h.0 refl
no_start_stop (p ∷ ps) (c ∷ cs) rest stop h n = elim (Bool-cases (c == p)) [
  | inl same ↦ let n' = rw same at n in rw same (no_start_stop ps cs rest stop h.1 n')
  | inr other ↦ rw other refl
]

-- A text without the pattern, before a character that is not in the pattern.
pub absent-NoStart :
    (pattern text rest : Bytes) (stop : ℕ)
    → All (λ p. (stop == p) ≡ false) pattern
    → str_in_binary pattern text ≡ none
    → NoStart pattern text (stop ∷ rest)
unfolding str_in_binary
absent-NoStart pattern [] rest stop h n = tt
absent-NoStart pattern (c ∷ cs) rest stop h n = elim (Bool-cases (starts_with pattern (c ∷ cs))) [
  | inl here ↦ absurd (let n' = rw (here, str_in_binary) at n in cc)
  | inr later ↦ elim (Option-cases (str_in_binary pattern cs)) [
    | inl nothing ↦ (
      no_start_stop pattern (c ∷ cs) rest stop h later,
      absent-NoStart pattern cs rest stop h nothing,
    )
    | inr (j, e) ↦ absurd (let n' = rw (later, str_in_binary, e) at n in cc)
  ]
]

-- The last place.
starts_with-append :
    (pattern text : Bytes)
    → starts_with pattern text ≡ true
    → (rest : Bytes) × (text ≡ pattern ++ rest)
unfolding starts_with
starts_with-append [] text h = (text, refl)
starts_with-append (p ∷ ps) [] h = absurd (cc)
starts_with-append (p ∷ ps) (c ∷ cs) h =
    let both : (c ≡ p) × (starts_with ps cs ≡ true) = ground arith in
    let (rest, e) = starts_with-append ps cs both.1 in (rest, rw (both.0, e) refl)

pub rewind-starts_with :
    (pattern text : Bytes) (i : ℕ)
    → str_in_binary_rewind pattern text ≡ some i
    → (rest : Bytes) × (text ≡ take i text ++ (pattern ++ rest)) × (length (take i text) ≡ i)
unfolding str_in_binary_rewind
rewind-starts_with pattern [] i h = absurd (cc)
rewind-starts_with pattern (c ∷ cs) i h = elim (Option-cases (str_in_binary_rewind pattern cs)) [
  | inl nothing ↦ elim (Bool-cases (starts_with pattern (c ∷ cs))) [
    | inl here ↦
        let h' = rw (nothing, str_in_binary_rewind, here) at h in
        let first : i ≡ zero = cc in
        let (rest, e) = starts_with-append pattern (c ∷ cs) here in
        (rest, rw first e, rw first refl)
    | inr not_here ↦ absurd (let h' = rw (nothing, str_in_binary_rewind, not_here) at h in cc)
  ]
  | inr (j, later) ↦
      let h' = rw (later, str_in_binary_rewind) at h in
      let next : i ≡ suc j = cc in
      let (rest, e, n) = rewind-starts_with pattern cs j later in
      (rest, rw next (ap (◌∷◌ c) e), rw next (ap suc n))
]
