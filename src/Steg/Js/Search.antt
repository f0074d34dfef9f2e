-- ===== src/Steg/Js/Search.antt =====
-- The search for usable digits (src/steg/payload_server.cc): it finds digits, and it finds them again
-- after an encoding.
use stegotorus.Common.{
  ℕ, zero, suc, ◌+◌, ◌-◌, ◌<◌, ◌≤◌, ◌≡◌, ◌⊎◌, inl, inr, refl, sym, ap, ◌∙◌, arith, Bool, true,
  false, not, ◌&&◌, ◌||◌, ◌==◌, Bool-cases, Option-cases, none, some, List, [], ◌∷◌, length, drop,
  All,
}
use stegotorus.Common.Evbuffer.{Bytes}
use stegotorus.Steg.Js.{
  isxdigit, isalnum_, delimiter, replacement, keywords, rest_matches, word_matches, skip_words,
  skip_js_pattern, offset2alnum_, next_word,
}
use stegotorus.Steg.Js.Similar.{
  Embedded, Embedded-AllNear, Embedded-drop, IsPlain, and_true, rest_matches-AllNear,
  rest_matches-Embedded,
}

plain : Bytes → Bool
plain [] = true
plain (w ∷ ws) = not (w == delimiter || w == replacement) && plain ws

plain-IsPlain : (ws : Bytes) → plain ws ≡ true → IsPlain ws
unfolding plain
plain-IsPlain [] h = tt
plain-IsPlain (w ∷ ws) h =
    let both = and_true (not (w == delimiter || w == replacement)) (plain ws) h in
    (ground arith, plain-IsPlain ws both.1)

all_plain : List Bytes → Bool
all_plain [] = true
all_plain (w ∷ ws) = plain w && all_plain ws

all_plain-IsPlain : (words : List Bytes) → all_plain words ≡ true → All IsPlain words
unfolding all_plain
all_plain-IsPlain [] h = tt
all_plain-IsPlain (w ∷ ws) h =
    let both = and_true (plain w) (all_plain ws) h in
    (plain-IsPlain w both.0, all_plain-IsPlain ws both.1)

keywords-IsPlain : All IsPlain keywords
unfolding all_plain plain
keywords-IsPlain = all_plain-IsPlain keywords refl

skip_words-Embedded :
    (words : List Bytes) (k c : ℕ) (ts es : Bytes)
    → All IsPlain words
    → Embedded k ts es
    → skip_words words (c ∷ ts) ≤ suc k
    → skip_words words (c ∷ es) ≡ skip_words words (c ∷ ts)
unfolding skip_words word_matches
skip_words-Embedded [] k c ts es p n l = refl
skip_words-Embedded ([] ∷ words) k c ts es p n l = skip_words-Embedded words k c ts es p.1 n l
skip_words-Embedded ((w ∷ ws) ∷ words) k c ts es p n l =
    elim (Bool-cases (w == c && rest_matches ws ts)) [
      | inl yes_t ↦
          let (same, rest) = and_true (w == c) (rest_matches ws ts) yes_t in
          let l' : length ws + 2 ≤ suc k = let l'' = rw yes_t at l in omega arith in
          rw (same, rest, rest_matches-Embedded k ws ts es p.0.1 n (omega arith) rest) refl
      | inr no_t ↦
          let no_e : (w == c && rest_matches ws es) ≡ false =
            elim (Bool-cases (w == c && rest_matches ws es)) [
              | inl yes_e ↦
                  let (same, rest) = and_true (w == c) (rest_matches ws es) yes_e in
                  let yes_t =
                    rest_matches-AllNear ws ts es p.0.1 (Embedded-AllNear k ts es n) rest in
                  absurd (ground arith)
              | inr no_e ↦ no_e
            ] in
          rw (no_t, no_e) (skip_words-Embedded words k c ts es p.1 n (let l' = rw no_t at l in l'))
    ]

-- A digit at a place.
abbrev pub HexAt : ℕ → Bytes → Type 0
HexAt k [] = ⊥
HexAt zero (t ∷ ts) = isxdigit t ≡ true
HexAt (suc k) (t ∷ ts) = HexAt k ts

pub HexAt-drop : (j k : ℕ) (ts : Bytes) → HexAt k (drop j ts) → HexAt (j + k) ts
HexAt-drop zero k ts h = let e : 0 + k ≡ k = omega arith in rw e h
HexAt-drop (suc j) k [] h = absurd h
HexAt-drop (suc j) k (t ∷ ts) h =
    let e : suc j + k ≡ suc (j + k) = omega arith in rw e (HexAt-drop j k ts h)

offset2alnum_-Embedded :
    (k i : ℕ) (ts es : Bytes)
    → Embedded k ts es
    → i ≤ k
    → offset2alnum_ ts ≡ some i
    → offset2alnum_ es ≡ some i
unfolding offset2alnum_
offset2alnum_-Embedded k i [] es n l h = absurd n
offset2alnum_-Embedded k i (t ∷ ts) [] n l h = absurd n
offset2alnum_-Embedded zero i (t ∷ ts) (e ∷ es) n l h = ground (arith, n)
offset2alnum_-Embedded (suc k) i (t ∷ ts) (e ∷ es) n l h = elim (Bool-cases (isalnum_ t)) [
  | inl al ↦ ground (arith, n.0)
  | inr no_al ↦ elim (Option-cases (offset2alnum_ ts)) [
    | inl nothing ↦ absurd (let h' = rw (no_al, nothing) at h in cc)
    | inr (j, e') ↦
        let h' = rw (no_al, e') at h in
        let same : suc j ≡ i = cc in
        let shut : isalnum_ e ≡ false = ground (arith, n.0) in
        rw (shut, offset2alnum_-Embedded k j ts es n.1 (omega arith) e') h'
  ]
]

-- A place that is found behind `i + j` characters.
HexAt-jump :
    (i j p : ℕ) (c : ℕ) (cs : Bytes)
    → (i + suc j ≤ p) × HexAt (p - (i + suc j)) (drop j cs)
    → (i ≤ p) × HexAt (p - i) (c ∷ cs)
HexAt-jump i j p c cs (l, h) =
    let e : suc j + (p - (i + suc j)) ≡ p - i = omega arith in
    (omega arith, rw e at (HexAt-drop (suc j) (p - (i + suc j)) (c ∷ cs) h))

pub HexAt-step :
    (i p c : ℕ) (cs : Bytes)
    → (i + 1 ≤ p) × HexAt (p - (i + 1)) cs
    → (i ≤ p) × HexAt (p - i) (c ∷ cs)
HexAt-step i p c cs h = HexAt-jump i 0 p c cs h

-- One round of the loop.
module _ (n i c : ℕ) (cs : Bytes) where
  round_none :
      (first : Bool) → offset2alnum_ (c ∷ cs) ≡ none → next_word (suc n) first i (c ∷ cs) ≡ none
  unfolding next_word
  round_none first e = rw (e, next_word) refl

  round_jump :
      (first : Bool) (k : ℕ)
      → offset2alnum_ (c ∷ cs) ≡ some (suc k)
      → next_word (suc n) first i (c ∷ cs) ≡ next_word n true (i + suc k) (drop k cs)
  unfolding next_word
  round_jump first k e = rw (e, next_word) refl

  round_skip :
      (j : ℕ)
      → offset2alnum_ (c ∷ cs) ≡ some 0
      → skip_js_pattern (c ∷ cs) ≡ suc j
      → next_word (suc n) true i (c ∷ cs) ≡ next_word n true (i + suc j) (drop j cs)
  unfolding next_word
  round_skip j e s = rw (e, s, next_word) refl

  round_first :
      offset2alnum_ (c ∷ cs) ≡ some 0
      → skip_js_pattern (c ∷ cs) ≡ 0
      → next_word (suc n) true i (c ∷ cs) ≡ next_word n false (i + 1) cs
  unfolding next_word
  round_first e s = rw (e, s, next_word) refl

  alnum_first : offset2alnum_ (c ∷ cs) ≡ some 0 → isalnum_ c ≡ true
  unfolding offset2alnum_
  alnum_first e = elim (Bool-cases (isalnum_ c)) [
    | inl al ↦ al
    | inr al ↦ elim (Option-cases (offset2alnum_ cs)) [
      | inl none_left ↦ absurd (let e' = rw (al, none_left) at e in cc)
      | inr (j, some_left) ↦
          absurd (let e' = rw (al, some_left) at e in let z : suc j ≡ 0 = cc in omega arith)
    ]
  ]

  round_hex :
      offset2alnum_ (c ∷ cs) ≡ some 0
      → isxdigit c ≡ true
      → next_word (suc n) false i (c ∷ cs) ≡ some i
  unfolding next_word
  round_hex e hex = rw (e, hex, next_word) refl

  round_other :
      offset2alnum_ (c ∷ cs) ≡ some 0
      → isxdigit c ≡ false
      → next_word (suc n) false i (c ∷ cs) ≡ next_word n false (i + 1) cs
  unfolding next_word
  round_other e hex = rw (e, hex, alnum_first e, next_word) refl

Number-cases : (n : ℕ) → (n ≡ 0) ⊎ ((m : ℕ) × (n ≡ suc m))
Number-cases zero = inl refl
Number-cases (suc m) = inr (m, refl)

pub next_word-HexAt :
    (rounds : ℕ) (first : Bool) (i p : ℕ) (cp : Bytes)
    → next_word rounds first i cp ≡ some p
    → (i ≤ p) × HexAt (p - i) cp
unfolding next_word
next_word-HexAt zero first i p cp h = absurd (cc)
next_word-HexAt (suc n) first i p [] h = absurd (cc)
next_word-HexAt (suc n) first i p (c ∷ cs) h = elim (Option-cases (offset2alnum_ (c ∷ cs))) [
  | inl e ↦ absurd (let e' = round_none n i c cs first e in cc)
  | inr (zero, e) ↦ elim (Bool-cases first) [
    | inl start ↦
        let h' : next_word (suc n) true i (c ∷ cs) ≡ some p = rw start at h in
        elim (Number-cases (skip_js_pattern (c ∷ cs))) [
          | inl s ↦
              HexAt-step i p c cs
                (next_word-HexAt n false (i + 1) p cs (sym (round_first n i c cs e s) ∙ h'))
          | inr (j, s) ↦ HexAt-jump i j p c cs (
              next_word-HexAt n true (i + suc j) p (drop j cs)
                (sym (round_skip n i c cs j e s) ∙ h'))
        ]
    | inr no_first ↦
        let h' : next_word (suc n) false i (c ∷ cs) ≡ some p = rw no_first at h in
        elim (Bool-cases (isxdigit c)) [
          | inl hex ↦
              let here : i ≡ p = let r = round_hex n i c cs e hex in cc in
              let z : p - i ≡ 0 = omega arith in (omega arith, rw z hex)
          | inr other ↦
              HexAt-step i p c cs
                (next_word-HexAt n false (i + 1) p cs (sym (round_other n i c cs e other) ∙ h'))
        ]
  ]
  | inr (suc k, e) ↦
      HexAt-jump i k p c cs
        (next_word-HexAt n true (i + suc k) p (drop k cs) (sym (round_jump n i c cs first k e) ∙ h))
]

-- What stands behind the first `suc j` characters.
Embedded-jump :
    (i j p c e : ℕ) (cs es : Bytes)
    → i + suc j ≤ p
    → Embedded (p - i) (c ∷ cs) (e ∷ es)
    → Embedded (p - (i + suc j)) (drop j cs) (drop j es)
Embedded-jump i j p c e cs es l h =
    let z : (p - i) - suc j ≡ p - (i + suc j) = omega arith in
    rw z at (Embedded-drop (suc j) (p - i) (c ∷ cs) (e ∷ es) (omega arith) h)

pub Embedded-head :
    (k c e : ℕ) (cs es : Bytes) → 0 < k → isalnum_ c ≡ true → Embedded k (c ∷ cs) (e ∷ es) → e ≡ c
Embedded-head zero c e cs es l al h = absurd (omega arith)
Embedded-head (suc k) c e cs es l al h = ground (arith, h.0)

skip_js_pattern-Embedded :
    (k c e : ℕ) (cs es : Bytes)
    → 0 < k
    → isalnum_ c ≡ true
    → Embedded k (c ∷ cs) (e ∷ es)
    → skip_js_pattern (c ∷ cs) ≤ k
    → skip_js_pattern (e ∷ es) ≡ skip_js_pattern (c ∷ cs)
skip_js_pattern-Embedded zero c e cs es l al h s = absurd (omega arith)
skip_js_pattern-Embedded (suc k) c e cs es l al h s =
    let same : e ≡ c = Embedded-head (suc k) c e cs es (omega arith) al h in
    rw same (skip_words-Embedded keywords k c cs es keywords-IsPlain h.1 s)

pub next_word-Embedded :
    (rounds : ℕ) (first : Bool) (i p : ℕ) (cp es : Bytes)
    → next_word rounds first i cp ≡ some p
    → Embedded (p - i) cp es
    → next_word rounds first i es ≡ some p
unfolding next_word
next_word-Embedded zero first i p cp es h n = absurd (cc)
next_word-Embedded (suc r) first i p [] es h n = absurd n
next_word-Embedded (suc r) first i p (c ∷ cs) [] h n = absurd n
next_word-Embedded (suc r) first i p (c ∷ cs) (e ∷ es) h n =
    elim (Option-cases (offset2alnum_ (c ∷ cs))) [
      | inl o ↦ absurd (let e' = round_none r i c cs first o in cc)
      | inr (suc k, o) ↦
          let h' = sym (round_jump r i c cs first k o) ∙ h in
          let (l, at_p) = next_word-HexAt r true (i + suc k) p (drop k cs) h' in
          let o' = offset2alnum_-Embedded (p - i) (suc k) (c ∷ cs) (e ∷ es) n (omega arith) o in
          round_jump r i e es first k o'
          ∙ next_word-Embedded r true (i + suc k) p (drop k cs) (drop k es) h'
              (Embedded-jump i k p c e cs es l n)
      | inr (zero, o) ↦
          let o' = offset2alnum_-Embedded (p - i) 0 (c ∷ cs) (e ∷ es) n (omega arith) o in
          let al = alnum_first r i c cs o in
          elim (Bool-cases first) [
            | inl start ↦
                let h' : next_word (suc r) true i (c ∷ cs) ≡ some p = rw start at h in
                rw start (elim (Number-cases (skip_js_pattern (c ∷ cs))) [
                  | inl s ↦
                      let h'' = sym (round_first r i c cs o s) ∙ h' in
                      let (l, at_p) = next_word-HexAt r false (i + 1) p cs h'' in
                      let s' =
                        skip_js_pattern-Embedded (p - i) c e cs es (omega arith) al n
                          (omega (arith, s))
                        ∙ s in
                      round_first r i e es o' s'
                      ∙ next_word-Embedded r false (i + 1) p cs es h''
                          (Embedded-jump i 0 p c e cs es l n)
                  | inr (j, s) ↦
                      let h'' = sym (round_skip r i c cs j o s) ∙ h' in
                      let (l, at_p) = next_word-HexAt r true (i + suc j) p (drop j cs) h'' in
                      let s' =
                        skip_js_pattern-Embedded (p - i) c e cs es (omega arith) al n
                          (omega (arith, s))
                        ∙ s in
                      round_skip r i e es j o' s'
                      ∙ next_word-Embedded r true (i + suc j) p (drop j cs) (drop j es) h''
                          (Embedded-jump i j p c e cs es l n)
                ])
            | inr no_first ↦
                let h' : next_word (suc r) false i (c ∷ cs) ≡ some p = rw no_first at h in
                rw no_first (elim (Bool-cases (isxdigit c)) [
                  | inl hex ↦
                      let here : i ≡ p = let x = round_hex r i c cs o hex in cc in
                      let z : p - i ≡ 0 = omega arith in
                      let n' : Embedded 0 (c ∷ cs) (e ∷ es) = rw z at n in
                      round_hex r i e es o' n'.1 ∙ ap some here
                  | inr other ↦
                      let h'' = sym (round_other r i c cs o other) ∙ h' in
                      let (l, at_p) = next_word-HexAt r false (i + 1) p cs h'' in
                      let same = Embedded-head (p - i) c e cs es (omega arith) al n in
                      round_other r i e es o' (rw same other)
                      ∙ next_word-Embedded r false (i + 1) p cs es h''
                          (Embedded-jump i 0 p c e cs es l n)
                ])
          ]
    ]
