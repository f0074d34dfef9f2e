-- ===== src/Steg/Js/Similar.antt =====
-- The search for usable digits (src/steg/payload_server.cc) finds the same places before and after
-- an encoding.
use stegotorus.Common.{
  ℕ, zero, suc, ◌-◌, ◌<◌, ◌≤◌, ◌≡◌, ◌⊎◌, inl, inr, refl, arith, Bool, true, false, not, ◌&&◌, ◌||◌,
  ◌==◌, if◌then◌else◌, Bool-cases, [], ◌∷◌, length, drop, All,
}
use stegotorus.Common.Evbuffer.{Bytes}
use stegotorus.Steg.Js.{isxdigit, isalnum, delimiter, replacement, rest_matches}
use stegotorus.Steg.Js.Block.{replaced}

-- What an encoding makes of a character: nothing, a digit of a digit, a replaced delimiter, or the
-- delimiter.
abbrev pub Near : ℕ → ℕ → Type 0
Near t e =
    (e ≡ t)
    ⊎ ((isxdigit t ≡ true) × (isxdigit e ≡ true))
    ⊎ ((t ≡ delimiter) × (e ≡ replacement))
    ⊎ (e ≡ delimiter)

abbrev pub AllNear : Bytes → Bytes → Type 0
AllNear [] [] = Unit {0}
AllNear [] (e ∷ es) = ⊥
AllNear (t ∷ ts) [] = ⊥
AllNear (t ∷ ts) (e ∷ es) = Near t e × AllNear ts es

-- The digit at place `k` is a digit, with nothing but replacements before it.
abbrev pub Embedded : ℕ → Bytes → Bytes → Type 0
Embedded k [] es = ⊥
Embedded k (t ∷ ts) [] = ⊥
Embedded zero (t ∷ ts) (e ∷ es) = (isxdigit t ≡ true) × (isxdigit e ≡ true) × AllNear ts es
Embedded (suc k) (t ∷ ts) (e ∷ es) = (e ≡ replaced t) × Embedded k ts es

pub replaced-Near : (t : ℕ) → Near t (replaced t)
replaced-Near t = elim (Bool-cases (t == delimiter)) [
  | inl e ↦ inr (inr (inl (ground arith, ground arith)))
  | inr e ↦ inl (ground arith)
]

pub Embedded-AllNear : (k : ℕ) (ts es : Bytes) → Embedded k ts es → AllNear ts es
Embedded-AllNear k [] es h = absurd h
Embedded-AllNear k (t ∷ ts) [] h = absurd h
Embedded-AllNear zero (t ∷ ts) (e ∷ es) h = (inr (inl (h.0, h.1)), h.2)
Embedded-AllNear (suc k) (t ∷ ts) (e ∷ es) h =
    ((let n = replaced-Near t in rw h.0 n), Embedded-AllNear k ts es h.1)

pub Embedded-drop :
    (j k : ℕ) (ts es : Bytes) → j ≤ k → Embedded k ts es → Embedded (k - j) (drop j ts) (drop j es)
Embedded-drop zero k ts es l h = let e : k - 0 ≡ k = omega arith in rw e h
Embedded-drop (suc j) k [] es l h = absurd h
Embedded-drop (suc j) k (t ∷ ts) [] l h = absurd h
Embedded-drop (suc j) zero (t ∷ ts) (e ∷ es) l h = absurd (omega arith)
Embedded-drop (suc j) (suc k) (t ∷ ts) (e ∷ es) l h =
    let eq : suc k - suc j ≡ k - j = omega arith in
    rw eq (Embedded-drop j k ts es (omega arith) h.1)

-- No character of a keyword is the delimiter or its replacement.
abbrev pub IsPlain : Bytes → Type 0
IsPlain = All (λ w. (w == delimiter || w == replacement) ≡ false)

one-Near :
    (w t e : ℕ)
    → Near t e
    → (w == delimiter || w == replacement) ≡ false
    → (if isxdigit w then isxdigit e else e == w) ≡ true
    → (if isxdigit w then isxdigit t else t == w) ≡ true
one-Near w t e n p h = ground (arith, n)

end-Near :
    (t e : ℕ)
    → Near t e
    → (not (isalnum e) && not (e == delimiter) && not (e == replacement)) ≡ true
    → (not (isalnum t) && not (t == delimiter) && not (t == replacement)) ≡ true
end-Near t e n h = ground (arith, n)

pub and_true : (a b : Bool) → (a && b) ≡ true → (a ≡ true) × (b ≡ true)
and_true true true h = (refl, refl)
and_true true false h = absurd (cc)
and_true false b h = absurd (cc)

pub rest_matches-AllNear :
    (ws ts es : Bytes)
    → IsPlain ws
    → AllNear ts es
    → rest_matches ws es ≡ true
    → rest_matches ws ts ≡ true
unfolding rest_matches
rest_matches-AllNear [] [] [] p n h = h
rest_matches-AllNear (w ∷ ws) [] [] p n h = h
rest_matches-AllNear ws [] (e ∷ es) p n h = absurd n
rest_matches-AllNear ws (t ∷ ts) [] p n h = absurd n
rest_matches-AllNear [] (t ∷ ts) (e ∷ es) p n h = end-Near t e n.0 h
rest_matches-AllNear (w ∷ ws) (t ∷ ts) (e ∷ es) p n h =
    let (one, rest) = and_true (if isxdigit w then isxdigit e else e == w) (rest_matches ws es) h in
    rw (one-Near w t e n.0 p.0 one, rest_matches-AllNear ws ts es p.1 n.1 rest) refl

one_copied :
    (w t e : ℕ)
    → e ≡ replaced t
    → (w == delimiter || w == replacement) ≡ false
    → (if isxdigit w then isxdigit t else t == w) ≡ true
    → (if isxdigit w then isxdigit e else e == w) ≡ true
one_copied w t e n p h = ground arith

end_copied :
    (t e : ℕ)
    → e ≡ replaced t
    → (not (isalnum t) && not (t == delimiter) && not (t == replacement)) ≡ true
    → (not (isalnum e) && not (e == delimiter) && not (e == replacement)) ≡ true
end_copied t e n h = ground arith

pub rest_matches-Embedded :
    (k : ℕ) (ws ts es : Bytes)
    → IsPlain ws
    → Embedded k ts es
    → length ws < k
    → rest_matches ws ts ≡ true
    → rest_matches ws es ≡ true
unfolding rest_matches
rest_matches-Embedded k ws [] es p n l h = absurd n
rest_matches-Embedded k ws (t ∷ ts) [] p n l h = absurd n
rest_matches-Embedded zero ws (t ∷ ts) (e ∷ es) p n l h = absurd (omega arith)
rest_matches-Embedded (suc k) [] (t ∷ ts) (e ∷ es) p n l h = end_copied t e n.0 h
rest_matches-Embedded (suc k) (w ∷ ws) (t ∷ ts) (e ∷ es) p n l h =
    let (one, rest) = and_true (if isxdigit w then isxdigit t else t == w) (rest_matches ws ts) h in
    rw (one_copied w t e n.0 p.0 one, rest_matches-Embedded k ws ts es p.1 n.1 (omega arith) rest)
      refl
