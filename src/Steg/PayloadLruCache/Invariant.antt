-- ===== src/Steg/PayloadLruCache/Invariant.antt =====
-- The state of the cache behind each call (src/steg/payload_lru_cache.h).
use stegotorus.Common.{
  ◌+◌, ◌<◌, ◌≤◌, ◌≡◌, refl, sym, ap, ◌∙◌, arith, ◌==◌, Bool, Bool-cases, inl, inr, ◌⊎◌, false,
  if◌then◌else◌, none, some, List, [], ◌∷◌, ◌++◌, length, length-append, returns, Ensures,
}
use stegotorus.Steg.PayloadLruCache.{Cache, find, erase_entry, erase, evict, record_key}
use stegotorus.Steg.PayloadLruCache.Keys.{
  IsEquality, count, keys, eq_self, count-append, count-erase, count-moved, length-erase,
  keys-erase_entry, length-keys, count-find, find-erase_entry,
}

abbrev pub tail : {K : Type 0} → List K → List K
tail [] = []
tail (k ∷ ks) = ks

module _ {K V : Type 0} (eq : K → K → Bool) where
  -- The records are those of the keys in the list, each once, and no more than the capacity.
  pub record IsCache (c : Cache K V) : Type 0 where
    pub room : 0 < c.capacity
    pub fits : length c.key_tracker ≤ c.capacity
    pub sizes : length c.key_to_value ≡ length c.key_tracker
    pub once : (j : K) → count eq j c.key_tracker ≤ 1
    pub same : (j : K) → count eq j (keys c.key_to_value) ≡ count eq j c.key_tracker

  -- The keys that stay in the list before `k` is put at its end: without the least recent one where the
  -- cache is full and has no record of `k`.
  abbrev pub older : K → Cache K V → List K
  older k c = elim (find eq k c.key_to_value) [
    | some v ↦ erase eq k c.key_tracker
    | none ↦ if length c.key_to_value == c.capacity then tail c.key_tracker else c.key_tracker
  ]

  pub record Called (f : K → V) (k : K) (c : Cache K V) (r : V × Cache K V) : Type 0 where
    pub answer : r.0 ≡ elim (find eq k c.key_to_value) [ none ↦ f k | some v ↦ v ]
    pub valid : IsCache r.1
    pub held : find eq k r.1.key_to_value ≡ some r.0
    pub latest : r.1.key_tracker ≡ older k c ++ (k ∷ [])
    pub others :
        (j : K)
        → eq j k ≡ false
        → 0 < count eq j r.1.key_tracker
        → find eq j r.1.key_to_value ≡ find eq j c.key_to_value

List-cases : {K : Type 0} (xs : List K) → (xs ≡ []) ⊎ ((x : K) × (rest : List K) × (xs ≡ x ∷ rest))
List-cases [] = inl refl
List-cases (x ∷ rest) = inr (x, rest, refl)

module _ {K V : Type 0} (eq : K → K → Bool) (law : IsEquality eq) where
  pub refresh-IsCache :
      (k : K) (c : Cache K V)
      → IsCache eq c
      → 0 < count eq k c.key_tracker
      → IsCache eq (record c { key_tracker = erase eq k c.key_tracker ++ (k ∷ []) })
  refresh-IsCache k c ok there =
      let n = length-append (erase eq k c.key_tracker) (k ∷ []) in
      let m = length-erase eq law k c.key_tracker there in
      let number : (j : K)
          → count eq j (erase eq k c.key_tracker ++ (k ∷ [])) ≡ count eq j c.key_tracker =
        count-moved eq law k c.key_tracker there in
      record {
        room = ok.room;
        fits = omega (arith, n, m, ok.fits);
        sizes = omega (arith, n, m, ok.sizes);
        once = λ j. omega (arith, number j, ok.once j);
        same = λ j. ok.same j ∙ sym (number j);
      }

  pub record_key-IsCache :
      (k : K) (v : V) (c : Cache K V)
      → IsCache eq c
      → length c.key_tracker < c.capacity
      → count eq k c.key_tracker ≡ 0
      → IsCache eq (record_key eq k v c)
  record_key-IsCache k v c ok space new =
      let n = length-append c.key_tracker (k ∷ []) in
      let number : (j : K)
          → count eq j (c.key_tracker ++ (k ∷ []))
            ≡ count eq j c.key_tracker + (if eq j k then 1 else 0) =
        λ j. count-append eq law j c.key_tracker (k ∷ []) ∙ omega arith in
      let at_once : (j : K) → count eq j (c.key_tracker ++ (k ∷ [])) ≤ 1 = λ j.
        let number' = number j in
        elim (Bool-cases (eq j k)) [
          | inl t ↦
              let number'' = rw t at number' in
              let z : count eq j c.key_tracker ≡ count eq k c.key_tracker =
                ap (λ (i : K). count eq i c.key_tracker) ((law j k).0 t) in
              omega (arith, number'', z)
          | inr t ↦ let number'' = rw t at number' in omega (arith, number'', ok.once j)
        ] in
      record {
        room = ok.room;
        fits = omega (arith, n);
        sizes = omega (arith, n, ok.sizes);
        once = at_once;
        same = λ j. omega (arith, number j, ok.same j);
      }

  -- What evict leaves where it finds a key.
  pub record Evicted (c : Cache K V) (c' : Cache K V) : Type 0 where
    pub valid : IsCache eq c'
    pub space : length c'.key_tracker < c'.capacity
    pub fewer : (j : K) → count eq j c'.key_tracker ≤ count eq j c.key_tracker
    pub rest : c'.key_tracker ≡ tail c.key_tracker
    pub others :
        (j : K)
        → 0 < count eq j c'.key_tracker
        → find eq j c'.key_to_value ≡ find eq j c.key_to_value

  first_gone :
      (c : Cache K V) (k : K) (ks : List K)
      → IsCache eq c
      → c.key_tracker ≡ k ∷ ks
      → length c.key_to_value ≡ c.capacity
      → count eq k c.key_tracker ≡ 1 + count eq k ks
      → Evicted c (record c { key_tracker = ks; key_to_value = erase_entry eq k c.key_to_value })
  first_gone c k ks ok e full one =
      let es = c.key_to_value in
      let number : (j : K) → count eq j c.key_tracker ≡ (if eq j k then 1 else 0) + count eq j ks =
        λ j. ap (count eq j) e in
      let n = ap length e in
      let m = length-erase eq law k (keys es) (omega (arith, ok.same k, one)) in
      let p = ap length (keys-erase_entry eq law k es) in
      let q = length-keys eq law (erase_entry eq k es) in
      let r = length-keys eq law es in
      record {
        valid = record {
          room = ok.room;
          fits = omega (arith, n, ok.fits);
          sizes = omega (arith, n, m, p, q, r, ok.sizes);
          once = λ j. omega (arith, number j, ok.once j);
          same = λ j.
              let gone =
                ap (count eq j) (keys-erase_entry eq law k es) ∙ count-erase eq law j k (keys es) in
              let number' = number j in
              elim (Bool-cases (eq j k)) [
                | inl t ↦
                    let gone' = rw t at gone in
                    let number'' = rw t at number' in omega (arith, gone', number'', ok.same j)
                | inr t ↦
                    let gone' = rw t at gone in
                    let number'' = rw t at number' in omega (arith, gone', number'', ok.same j)
              ];
        };
        space = omega (arith, n, ok.sizes);
        fewer = λ j. omega (arith, number j);
        rest = sym (ap tail e);
        others = λ j there.
            let number' = number j in
            elim (Bool-cases (eq j k)) [
              | inl t ↦
                  absurd
                    (let number'' = rw t at number' in omega (arith, number'', there, ok.once j))
              | inr t ↦ find-erase_entry eq law j k es t
            ];
      }

  evict_first :
      (c : Cache K V) (k : K) (ks : List K) (v : V)
      → c.key_tracker ≡ k ∷ ks
      → find eq k c.key_to_value ≡ some v
      → evict eq c
        ≡ returns (record c { key_tracker = ks; key_to_value = erase_entry eq k c.key_to_value })
  unfolding evict
  evict_first c k ks v e found = rw (e, evict, found) refl

  pub evict-Evicted :
      (c : Cache K V)
      → IsCache eq c
      → length c.key_to_value ≡ c.capacity
      → Ensures (Evicted c) (evict eq c)
  unfolding evict
  evict-Evicted c ok full = elim (List-cases c.key_tracker) [
    | inl empty ↦ absurd (omega (arith, ap length empty, ok.sizes, ok.room))
    | inr (k, ks, e) ↦
        let number : (j : K)
            → count eq j c.key_tracker ≡ (if eq j k then 1 else 0) + count eq j ks =
          λ j. ap (count eq j) e in
        let one = rw (eq_self eq law k) at (number k) in
        let (v, found) = count-find eq law k c.key_to_value (omega (arith, ok.same k, one)) in
        rw (evict_first c k ks v e found) (first_gone c k ks ok e full one)
  ]
