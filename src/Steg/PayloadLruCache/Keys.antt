-- ===== src/Steg/PayloadLruCache/Keys.antt =====
-- Keys and records by their number, for the cache (src/steg/payload_lru_cache.h).
use stegotorus.Common.{
  ℕ, suc, ◌+◌, ◌-◌, ◌<◌, ◌≡◌, refl, sym, ap, ◌∙◌, arith, Bool, Bool-cases, inl, inr, ◌↔◌, true,
  false, if◌then◌else◌, Option, Option-cases, none, some, List, [], ◌∷◌, ◌++◌, length,
}
use stegotorus.Steg.PayloadLruCache.{find, erase_entry, has_key, erase}

-- The keys' == of the container.
abbrev pub IsEquality : {K : Type 0} → (K → K → Bool) → Type 0
IsEquality eq = (j k : _) → (eq j k ≡ true) ↔ (j ≡ k)

module _ {K : Type 0} (eq : K → K → Bool) where
  abbrev pub count : K → List K → ℕ
  count j [] = 0
  count j (k ∷ ks) = (if eq j k then 1 else 0) + count j ks

module _ {K V : Type 0} where
  abbrev pub keys : List (K × V) → List K
  keys [] = []
  keys (e ∷ es) = e.0 ∷ keys es

module _ {K : Type 0} (eq : K → K → Bool) (law : IsEquality eq) where
  pub eq_self : (k : K) → eq k k ≡ true
  eq_self k = (law k k).1 refl

  pub count-append :
      (j : K) (xs ys : List K) → count eq j (xs ++ ys) ≡ count eq j xs + count eq j ys
  count-append j [] ys = omega arith
  count-append j (x ∷ xs) ys = omega (arith, count-append j xs ys)

  pub count-erase :
      (j k : K) (xs : List K)
      → count eq j (erase eq k xs) ≡ (if eq j k then count eq j xs - 1 else count eq j xs)
  unfolding erase
  count-erase j k [] = elim (Bool-cases (eq j k)) [ inl t ↦ rw t refl | inr t ↦ rw t refl ]
  count-erase j k (x ∷ xs) = elim (Bool-cases (eq k x)) [
    | inl same ↦
        let p : k ≡ x = (law k x).0 same in
        let t' : eq j k ≡ eq j x = ap (eq j) p in
        rw (same, t')
          (elim (Bool-cases (eq j x)) [ inl t ↦ rw t (omega arith) | inr t ↦ rw t (omega arith) ])
    | inr other ↦
        let rest = count-erase j k xs in
        rw other (elim (Bool-cases (eq j k)) [
          | inl t ↦
              let p : j ≡ k = (law j k).0 t in
              let t' : eq j x ≡ false = ap (λ (i : K). eq i x) p ∙ other in
              let rest' = rw t at rest in rw (t, t') (omega (arith, rest'))
          | inr t ↦ let rest' = rw t at rest in rw t (omega (arith, rest'))
        ])
  ]

  pub count-moved :
      (k : K) (xs : List K)
      → 0 < count eq k xs
      → (j : K) → count eq j (erase eq k xs ++ (k ∷ [])) ≡ count eq j xs
  count-moved k xs there j =
      let both = count-append j (erase eq k xs) (k ∷ []) in
      let e = count-erase j k xs in
      elim (Bool-cases (eq j k)) [
        | inl t ↦
            let e' = rw t at e in
            let both' = rw t at both in
            let n : count eq j xs ≡ count eq k xs = ap (λ (i : K). count eq i xs) ((law j k).0 t) in
            omega (arith, e', both', n)
        | inr t ↦ let e' = rw t at e in let both' = rw t at both in omega (arith, e', both')
      ]

  pub erase-last : (k : K) (xs : List K) → count eq k xs ≡ 0 → erase eq k (xs ++ (k ∷ [])) ≡ xs
  unfolding erase
  erase-last k [] z = rw (eq_self k) refl
  erase-last k (x ∷ xs) z = elim (Bool-cases (eq k x)) [
    | inl same ↦ absurd (let z' = rw same at z in omega (arith, z'))
    | inr other ↦
        let z' = rw other at z in rw other (ap (◌∷◌ x) (erase-last k xs (omega (arith, z'))))
  ]

  pub length-erase :
      (k : K) (xs : List K) → 0 < count eq k xs → length (erase eq k xs) + 1 ≡ length xs
  unfolding erase
  length-erase k [] l = absurd (omega arith)
  length-erase k (x ∷ xs) l = elim (Bool-cases (eq k x)) [
    | inl same ↦ rw same (omega arith)
    | inr other ↦
        let l' = rw other at l in rw other (omega (arith, length-erase k xs (omega (arith, l'))))
  ]

  pub has_key-count : (k : K) (xs : List K) → 0 < count eq k xs → has_key eq k xs ≡ true
  unfolding has_key
  has_key-count k [] l = absurd (omega arith)
  has_key-count k (x ∷ xs) l = elim (Bool-cases (eq k x)) [
    | inl same ↦ rw same refl
    | inr other ↦ let l' = rw other at l in rw other (has_key-count k xs (omega (arith, l')))
  ]

  module _ {V : Type 0} where
    pub keys-erase_entry :
        (k : K) (es : List (K × V)) → keys (erase_entry eq k es) ≡ erase eq k (keys es)
    unfolding erase_entry erase
    keys-erase_entry k [] = refl
    keys-erase_entry k (e ∷ es) = elim (Bool-cases (eq k e.0)) [
      | inl same ↦ rw same refl
      | inr other ↦ rw other (ap (◌∷◌ e.0) (keys-erase_entry k es))
    ]

    pub length-keys : (es : List (K × V)) → length (keys es) ≡ length es
    length-keys [] = refl
    length-keys (e ∷ es) = ap suc (length-keys es)

    pub find-none : (k : K) (es : List (K × V)) → find eq k es ≡ none → count eq k (keys es) ≡ 0
    unfolding find
    find-none k [] h = refl
    find-none k (e ∷ es) h = elim (Bool-cases (eq k e.0)) [
      | inl same ↦ absurd (let h' = rw same at h in cc)
      | inr other ↦ let h' = rw other at h in rw other (omega (arith, find-none k es h'))
    ]

    pub find-some :
        (k : K) (v : V) (es : List (K × V)) → find eq k es ≡ some v → 0 < count eq k (keys es)
    unfolding find
    find-some k v [] h = absurd (cc)
    find-some k v (e ∷ es) h = elim (Bool-cases (eq k e.0)) [
      | inl same ↦ rw same (omega arith)
      | inr other ↦ let h' = rw other at h in rw other (omega (arith, find-some k v es h'))
    ]

    pub count-find :
        (k : K) (es : List (K × V)) → 0 < count eq k (keys es) → (v : V) × (find eq k es ≡ some v)
    count-find k es l = elim (Option-cases (find eq k es)) [
      | inl nothing ↦ absurd (omega (arith, find-none k es nothing, l))
      | inr there ↦ there
    ]

    pub find-zero : (k : K) (es : List (K × V)) → count eq k (keys es) ≡ 0 → find eq k es ≡ none
    find-zero k es z = elim (Option-cases (find eq k es)) [
      | inl nothing ↦ nothing
      | inr (v, there) ↦ absurd (omega (arith, find-some k v es there, z))
    ]

    pub find-erase_entry :
        (j k : K) (es : List (K × V))
        → eq j k ≡ false
        → find eq j (erase_entry eq k es) ≡ find eq j es
    unfolding find erase_entry
    find-erase_entry j k [] h = refl
    find-erase_entry j k (e ∷ es) h = elim (Bool-cases (eq k e.0)) [
      | inl same ↦
          let p : k ≡ e.0 = (law k e.0).0 same in
          let t : eq j e.0 ≡ false = ap (eq j) (sym p) ∙ h in rw (same, t) refl
      | inr other ↦
          rw other
            (ap (λ (o : Option V). if eq j e.0 then some e.1 else o) (find-erase_entry j k es h))
    ]
