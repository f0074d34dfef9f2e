-- ===== src/Steg/Js/Offset.antt =====
-- `offset2Hex` of src/steg/payload_server.cc: it finds digits, and it finds them again after an
-- encoding.
use stegotorus.Common.{
  ℕ, zero, suc, ◌+◌, ◌-◌, ◌<◌, ◌≤◌, ◌≡◌, ◌⊎◌, inl, inr, refl, sym, ap, ◌∙◌, arith, Bool, true,
  false, Bool-cases, none, some, [], ◌∷◌, length, drop,
}
use stegotorus.Common.Evbuffer.{Bytes}
use stegotorus.Steg.Js.{
  isxdigit, isalnum_, next_word, WordEnd, found, at_end, outside, head_or, rest_of_word, offset2hex,
}
use stegotorus.Steg.Js.Similar.{AllNear, Embedded, Embedded-AllNear}
use stegotorus.Steg.Js.Search.{
  HexAt, HexAt-drop, HexAt-step, Embedded-head, next_word-HexAt, next_word-Embedded,
}

pub length-AllNear : (ts es : Bytes) → AllNear ts es → length es ≡ length ts
length-AllNear [] [] h = refl
length-AllNear [] (e ∷ es) h = absurd h
length-AllNear (t ∷ ts) [] h = absurd h
length-AllNear (t ∷ ts) (e ∷ es) h = ap suc (length-AllNear ts es h.1)

-- The character at the head, after a step that finds nothing there.
not_hex_head :
    (k past' : ℕ) (cs es : Bytes) (past : ℕ)
    → Embedded k cs es
    → isxdigit (head_or past cs) ≡ false
    → (0 < k) × (isxdigit (head_or past' es) ≡ false)
not_hex_head k past' [] es past n h = absurd n
not_hex_head k past' (c ∷ cs) [] past n h = absurd n
not_hex_head zero past' (c ∷ cs) (e ∷ es) past n h = absurd (let x = n.0 in cc)
not_hex_head (suc k) past' (c ∷ cs) (e ∷ es) past n h = (omega arith, ground (arith, n.0))

hex_head :
    (past : ℕ) (cs : Bytes) → isxdigit past ≡ false → isxdigit (head_or past cs) ≡ true → HexAt 0 cs
hex_head past [] e h = absurd (cc)
hex_head past (c ∷ cs) e h = h

hex_there : (past' : ℕ) (cs es : Bytes) → Embedded 0 cs es → isxdigit (head_or past' es) ≡ true
hex_there past' [] es n = absurd n
hex_there past' (c ∷ cs) [] n = absurd n
hex_there past' (c ∷ cs) (e ∷ es) n = n.1

-- A character that is in no word stays in no word.
out_too :
    (k c e : ℕ) (cs es : Bytes)
    → isalnum_ c ≡ false
    → Embedded k (c ∷ cs) (e ∷ es)
    → isalnum_ e ≡ false
out_too zero c e cs es out n = absurd (ground (arith, n.0))
out_too (suc k) c e cs es out n = ground (arith, n.0)

module _ (past : ℕ) where
  -- One round of the loop of case 1.
  word_out :
      (i c : ℕ) (cs : Bytes)
      → isalnum_ c ≡ false
      → rest_of_word past i (c ∷ cs) ≡ outside i (c ∷ cs)
  unfolding rest_of_word
  word_out i c cs al = rw al refl

  word_found :
      (i c : ℕ) (cs : Bytes)
      → isalnum_ c ≡ true
      → isxdigit (head_or past cs) ≡ true
      → rest_of_word past i (c ∷ cs) ≡ found (i + 1)
  unfolding rest_of_word
  word_found i c cs al hex = rw (al, hex) refl

  word_on :
      (i c : ℕ) (cs : Bytes)
      → isalnum_ c ≡ true
      → isxdigit (head_or past cs) ≡ false
      → rest_of_word past i (c ∷ cs) ≡ rest_of_word past (i + 1) cs
  unfolding rest_of_word
  word_on i c cs al hex = rw (al, hex) refl

  found-HexAt :
      (i p : ℕ) (cp : Bytes)
      → isxdigit past ≡ false
      → rest_of_word past i cp ≡ found p
      → (i + 1 ≤ p) × HexAt (p - i) cp
  unfolding rest_of_word
  found-HexAt i p [] e h = absurd (cc)
  found-HexAt i p (c ∷ cs) e h = elim (Bool-cases (isalnum_ c)) [
    | inr out ↦ absurd (let x = word_out i c cs out in cc)
    | inl al ↦ elim (Bool-cases (isxdigit (head_or past cs))) [
      | inl hex ↦
          let here : i + 1 ≡ p = let x = word_found i c cs al hex in cc in
          let z : p - i ≡ suc 0 = omega arith in (omega arith, rw z (hex_head past cs e hex))
      | inr on ↦
          let (l, at_p) = found-HexAt (i + 1) p cs e (sym (word_on i c cs al on) ∙ h) in
          (omega arith, (HexAt-step i p c cs (omega arith, at_p)).1)
    ]
  ]

  outside-drop :
      (i j : ℕ) (cp rest : Bytes)
      → rest_of_word past i cp ≡ outside j rest
      → (i ≤ j) × (rest ≡ drop (j - i) cp)
  unfolding rest_of_word
  outside-drop i j [] rest h = absurd (cc)
  outside-drop i j (c ∷ cs) rest h = elim (Bool-cases (isalnum_ c)) [
    | inr out ↦
        let x = word_out i c cs out in
        let here : i ≡ j = cc in
        let same : (c ∷ cs) ≡ rest = cc in
        let z : j - i ≡ 0 = omega arith in (omega arith, rw z (sym same))
    | inl al ↦ elim (Bool-cases (isxdigit (head_or past cs))) [
      | inl hex ↦ absurd (let x = word_found i c cs al hex in cc)
      | inr on ↦
          let (l, same) = outside-drop (i + 1) j cs rest (sym (word_on i c cs al on) ∙ h) in
          let z : j - i ≡ suc (j - (i + 1)) = omega arith in (omega arith, rw z same)
    ]
  ]

module _ (past past' : ℕ) (shut : isxdigit past ≡ false) where
  Embedded-tail :
      (i p c e : ℕ) (cs es : Bytes)
      → i + 1 ≤ p
      → Embedded (p - i) (c ∷ cs) (e ∷ es)
      → Embedded (p - (i + 1)) cs es
  Embedded-tail i p c e cs es l n =
      let z : p - i ≡ suc (p - (i + 1)) = omega arith in
      let n' : Embedded (suc (p - (i + 1))) (c ∷ cs) (e ∷ es) = rw z at n in n'.1

  found-Embedded :
      (i p : ℕ) (cp es : Bytes)
      → rest_of_word past i cp ≡ found p
      → Embedded (p - i) cp es
      → rest_of_word past' i es ≡ found p
  unfolding rest_of_word
  found-Embedded i p [] es h n = absurd n
  found-Embedded i p (c ∷ cs) [] h n = absurd n
  found-Embedded i p (c ∷ cs) (e ∷ es) h n =
      let (l, at_p) = found-HexAt past i p (c ∷ cs) shut h in
      let n' = Embedded-tail i p c e cs es l n in
      elim (Bool-cases (isalnum_ c)) [
        | inr out ↦ absurd (let x = word_out past i c cs out in cc)
        | inl al ↦
            let same : e ≡ c = Embedded-head (p - i) c e cs es (omega arith) al n in
            elim (Bool-cases (isxdigit (head_or past cs))) [
              | inl hex ↦
                  let here : i + 1 ≡ p = let x = word_found past i c cs al hex in cc in
                  let z : p - (i + 1) ≡ 0 = omega arith in
                  word_found past' i e es (rw same al) (hex_there past' cs es (rw z at n'))
                  ∙ ap found here
              | inr on ↦
                  let h' = sym (word_on past i c cs al on) ∙ h in
                  word_on past' i e es (rw same al)
                    (not_hex_head (p - (i + 1)) past' cs es past n' on).1
                  ∙ found-Embedded (i + 1) p cs es h' n'
            ]
      ]

  outside-Embedded :
      (i j p : ℕ) (cp rest es : Bytes)
      → rest_of_word past i cp ≡ outside j rest
      → Embedded (p - i) cp es
      → j ≤ p
      → HexAt (p - j) rest
      → (es' : Bytes) × (rest_of_word past' i es ≡ outside j es') × Embedded (p - j) rest es'
  unfolding rest_of_word
  outside-Embedded i j p [] rest es h n l at_p = absurd n
  outside-Embedded i j p (c ∷ cs) rest [] h n l at_p = absurd n
  outside-Embedded i j p (c ∷ cs) rest (e ∷ es) h n l at_p = elim (Bool-cases (isalnum_ c)) [
    | inr out ↦
        let x = word_out past i c cs out in
        let here : i ≡ j = cc in
        let same : (c ∷ cs) ≡ rest = cc in
        let n' : Embedded (p - j) (c ∷ cs) (e ∷ es) = rw here at n in
        (
          e ∷ es,
          word_out past' i e es (out_too (p - i) c e cs es out n)
              ∙ ap (λ (k : ℕ). outside k (e ∷ es)) here,
          rw (sym same) n',
        )
    | inl al ↦ elim (Bool-cases (isxdigit (head_or past cs))) [
      | inl hex ↦ absurd (let x = word_found past i c cs al hex in cc)
      | inr on ↦
          let h' = sym (word_on past i c cs al on) ∙ h in
          let (ll, same_rest) = outside-drop past (i + 1) j cs rest h' in
          let same : e ≡ c = Embedded-head (p - i) c e cs es (omega arith) al n in
          let n' = Embedded-tail i p c e cs es (omega arith) n in
          let (es', r, n'') = outside-Embedded (i + 1) j p cs rest es h' n' l at_p in
          (
            es',
            word_on past' i e es (rw same al) (not_hex_head (p - (i + 1)) past' cs es past n' on).1
                ∙ r,
            n'',
          )
    ]
  ]

-- What case 1 ends with.
WordEnd-cases :
    (w : WordEnd)
    → ((i : ℕ) × (w ≡ found i)) ⊎ (w ≡ at_end) ⊎ ((i : ℕ) × (rest : Bytes) × (w ≡ outside i rest))
WordEnd-cases (found i) = inl (i, refl)
WordEnd-cases at_end = inr (inl refl)
WordEnd-cases (outside i rest) = inr (inr (i, rest, refl))

module _ (past c : ℕ) (cs : Bytes) (other : isxdigit c ≡ false) where
  search_found :
      (i : ℕ) → rest_of_word past 0 (c ∷ cs) ≡ found i → offset2hex past (c ∷ cs) true ≡ some i
  unfolding offset2hex
  search_found i e = rw (other, e) refl

  search_end : rest_of_word past 0 (c ∷ cs) ≡ at_end → offset2hex past (c ∷ cs) true ≡ none
  unfolding offset2hex
  search_end e = rw (other, e) refl

  search_outside :
      (i : ℕ) (rest : Bytes)
      → rest_of_word past 0 (c ∷ cs) ≡ outside i rest
      → offset2hex past (c ∷ cs) true ≡ next_word (length rest) true i rest
  unfolding offset2hex
  search_outside i rest e = rw (other, e) refl

search_here : (past c : ℕ) (cs : Bytes) → isxdigit c ≡ true → offset2hex past (c ∷ cs) true ≡ some 0
unfolding offset2hex
search_here past c cs hex = rw hex refl

-- The character at a place that is found is a digit, if there is none behind the range.
pub offset2hex-HexAt :
    (past p : ℕ) (cp : Bytes) (last : Bool)
    → isxdigit past ≡ false
    → offset2hex past cp last ≡ some p
    → HexAt p cp
unfolding offset2hex
offset2hex-HexAt past p [] last shut h = absurd (cc)
offset2hex-HexAt past p (c ∷ cs) false shut h =
    let z : p - 0 ≡ p = omega arith in
    rw z at (next_word-HexAt (length (c ∷ cs)) true 0 p (c ∷ cs) h).1
offset2hex-HexAt past p (c ∷ cs) true shut h = elim (Bool-cases (isxdigit c)) [
  | inl hex ↦ let here : 0 ≡ p = let x = search_here past c cs hex in cc in rw (sym here) hex
  | inr other ↦ elim (WordEnd-cases (rest_of_word past 0 (c ∷ cs))) [
    | inl (i, e) ↦
        let here : i ≡ p = let x = search_found past c cs other i e in cc in
        let z : i - 0 ≡ p = omega arith in rw z at (found-HexAt past 0 i (c ∷ cs) shut e).1
    | inr (inl e) ↦ absurd (let x = search_end past c cs other e in cc)
    | inr (inr (i, rest, e)) ↦
        let h' = sym (search_outside past c cs other i rest e) ∙ h in
        let (l, at_p) = next_word-HexAt (length rest) true i p rest h' in
        let (ll, same) = outside-drop past 0 i (c ∷ cs) rest e in
        let z : i + (p - i) ≡ p = omega arith in
        let z' : i - 0 ≡ i = omega arith in
        rw z at (HexAt-drop i (p - i) (c ∷ cs) (rw z' at (rw same at at_p)))
  ]
]

-- The place is found again after an encoding.
pub offset2hex-Embedded :
    (past past' p : ℕ) (cp es : Bytes) (last : Bool)
    → isxdigit past ≡ false
    → offset2hex past cp last ≡ some p
    → Embedded p cp es
    → offset2hex past' es last ≡ some p
unfolding offset2hex
offset2hex-Embedded past past' p [] es last shut h n = absurd n
offset2hex-Embedded past past' p (c ∷ cs) [] last shut h n = absurd n
offset2hex-Embedded past past' p (c ∷ cs) (e ∷ es) false shut h n =
    let same = length-AllNear (c ∷ cs) (e ∷ es) (Embedded-AllNear p (c ∷ cs) (e ∷ es) n) in
    let z : p - 0 ≡ p = omega arith in
    rw same (next_word-Embedded (length (c ∷ cs)) true 0 p (c ∷ cs) (e ∷ es) h (rw z n))
offset2hex-Embedded past past' p (c ∷ cs) (e ∷ es) true shut h n = elim (Bool-cases (isxdigit c)) [
  | inl hex ↦
      let here : 0 ≡ p = let x = search_here past c cs hex in cc in
      let n' : Embedded 0 (c ∷ cs) (e ∷ es) = rw (sym here) at n in
      search_here past' e es n'.1 ∙ ap some here
  | inr other ↦
      let z : p - 0 ≡ p = omega arith in
      let other' : isxdigit e ≡ false = (not_hex_head p past' (c ∷ cs) (e ∷ es) past n other).1 in
      elim (WordEnd-cases (rest_of_word past 0 (c ∷ cs))) [
        | inl (i, w) ↦
            let here : i ≡ p = let x = search_found past c cs other i w in cc in
            search_found past' e es other' p
              (found-Embedded past past' shut 0 p (c ∷ cs) (e ∷ es) (w ∙ ap found here) (rw z n))
        | inr (inl w) ↦ absurd (let x = search_end past c cs other w in cc)
        | inr (inr (i, rest, w)) ↦
            let h' = sym (search_outside past c cs other i rest w) ∙ h in
            let (l, at_p) = next_word-HexAt (length rest) true i p rest h' in
            let (es', w', n') =
              outside-Embedded past past' shut 0 i p (c ∷ cs) rest (e ∷ es) w (rw z n) l at_p in
            let same = length-AllNear rest es' (Embedded-AllNear (p - i) rest es' n') in
            search_outside past' e es other' i es' w'
            ∙ rw same (next_word-Embedded (length rest) true i p rest es' h' n')
      ]
]
