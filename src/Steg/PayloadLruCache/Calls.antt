-- ===== src/Steg/PayloadLruCache/Calls.antt =====
-- Each call of the cache's methods (src/steg/payload_lru_cache.h).
use stegotorus.Common.{
  ◌<◌, ◌≡◌, refl, sym, ap, ◌∙◌, arith, ◌==◌, Bool, Bool-cases, inl, inr, true, false, Option-cases,
  none, some, List, [], ◌∷◌, ◌++◌, length, Outcome, returns, aborts, ◌>>=◌, Ensures,
}
use stegotorus.Steg.PayloadLruCache.{Cache, find, erase, evict, record_key, insert, refresh, call}
use stegotorus.Steg.PayloadLruCache.Keys.{
  IsEquality, count, eq_self, count-append, count-moved, erase-last, find-none, find-some,
}
use stegotorus.Steg.PayloadLruCache.Invariant.{
  IsCache, older, Called, Evicted, refresh-IsCache, record_key-IsCache, evict-Evicted,
}

pub Ensures-returns :
    {A : Type 0} (P : A → Type 0) (m : Outcome A) → Ensures P m → (a : A) × (m ≡ returns a) × P a
Ensures-returns P (returns a) h = (a, refl, h)
Ensures-returns P aborts h = absurd h

module _ {K V : Type 0} (eq : K → K → Bool) where
  refresh_found :
      (k : K) (v : V) (c : Cache K V)
      → find eq k c.key_to_value ≡ some v
      → refresh eq k c
        ≡ returns (v, record c { key_tracker = erase eq k c.key_tracker ++ (k ∷ []) })
  unfolding refresh
  refresh_found k v c found = rw (found, refresh) refl

  call_hit :
      (f : K → V) (k : K) (v : V) (c : Cache K V)
      → find eq k c.key_to_value ≡ some v
      → call eq f k c ≡ refresh eq k c
  unfolding call
  call_hit f k v c found = rw (found, call) refl

  call_miss :
      (f : K → V) (k : K) (c : Cache K V)
      → find eq k c.key_to_value ≡ none
      → call eq f k c ≡ (insert eq k (f k) c >>= refresh eq k)
  unfolding call
  call_miss f k c missing = rw (missing, call) refl

  insert_room :
      (k : K) (v : V) (c : Cache K V)
      → find eq k c.key_to_value ≡ none
      → (length c.key_to_value == c.capacity) ≡ false
      → insert eq k v c ≡ returns (record_key eq k v c)
  unfolding insert
  insert_room k v c missing space = rw (missing, insert, space) refl

  insert_full :
      (k : K) (v : V) (c c' : Cache K V)
      → find eq k c.key_to_value ≡ none
      → (length c.key_to_value == c.capacity) ≡ true
      → evict eq c ≡ returns c'
      → insert eq k v c ≡ returns (record_key eq k v c')
  unfolding insert
  insert_full k v c c' missing full evicted = rw (missing, insert, full, evicted) refl

module _ {K V : Type 0} (eq : K → K → Bool) (law : IsEquality eq) where
  find_new : (k : K) (v : V) (es : List (K × V)) → find eq k ((k, v) ∷ es) ≡ some v
  unfolding find
  find_new k v es = rw (eq_self eq law k) refl

  find_old :
      (j k : K) (v : V) (es : List (K × V))
      → eq j k ≡ false
      → find eq j ((k, v) ∷ es) ≡ find eq j es
  unfolding find
  find_old j k v es other = rw other refl

  hit :
      (f : K → V) (k : K) (v : V) (c : Cache K V)
      → IsCache eq c
      → find eq k c.key_to_value ≡ some v
      → Called eq f k c (v, record c { key_tracker = erase eq k c.key_tracker ++ (k ∷ []) })
  hit f k v c ok found = record {
    answer = rw found refl;
    valid =
        refresh-IsCache eq law k c ok
          (omega (arith, ok.same k, find-some eq law k v c.key_to_value found));
    held = found;
    latest = rw (found, older) refl;
    others = λ j other there. refl;
  }

  -- A record that is new, behind the eviction if there is one.
  miss :
      (f : K → V) (k : K) (c c' : Cache K V)
      → find eq k c.key_to_value ≡ none
      → IsCache eq c'
      → length c'.key_tracker < c'.capacity
      → count eq k c'.key_tracker ≡ 0
      → c'.key_tracker ≡ older eq k c
      → ((j : K)
          → 0 < count eq j c'.key_tracker
          → find eq j c'.key_to_value ≡ find eq j c.key_to_value)
      → Ensures (Called eq f k c) (refresh eq k (record_key eq k (f k) c'))
  miss f k c c' missing ok space new before others =
      let ok' = record_key-IsCache eq law k (f k) c' ok space new in
      let number = λ (j : K). count-append eq law j c'.key_tracker (k ∷ []) in
      let one = rw (eq_self eq law k) at (number k) in
      let there : 0 < count eq k (c'.key_tracker ++ (k ∷ [])) = omega (arith, one) in
      rw (refresh_found eq k (f k) (record_key eq k (f k) c') (find_new k (f k) c'.key_to_value))
        (record {
          answer = rw missing refl;
          valid = refresh-IsCache eq law k (record_key eq k (f k) c') ok' there;
          held = find_new k (f k) c'.key_to_value;
          latest =
              ap (λ (xs : List K). xs ++ (k ∷ []))
                (erase-last eq law k c'.key_tracker new ∙ before);
          others = λ j other inside.
              let n = rw other at (number j) in
              let m = count-moved eq law k (c'.key_tracker ++ (k ∷ [])) there j in
              find_old j k (f k) c'.key_to_value other ∙ others j (omega (arith, n, m, inside));
        })

  -- The operator returns; its result is the recorded value, or that of the function where there is
  -- none. The key is then the most recent one, and the other keys keep their order and records, but for the
  -- least recent one, which goes where the cache is full and had no record of the key.
  pub call-Called :
      (f : K → V) (k : K) (c : Cache K V) → IsCache eq c → Ensures (Called eq f k c) (call eq f k c)
  call-Called f k c ok = elim (Option-cases (find eq k c.key_to_value)) [
    | inr (v, found) ↦
        rw (call_hit eq f k v c found, refresh_found eq k v c found) (hit f k v c ok found)
    | inl missing ↦
        let absent : count eq k c.key_tracker ≡ 0 =
          sym (ok.same k) ∙ find-none eq law k c.key_to_value missing in
        elim (Bool-cases (length c.key_to_value == c.capacity)) [
          | inr space ↦
              rw (call_miss eq f k c missing, insert_room eq k (f k) c missing space)
                (miss f k c c missing ok (ground (arith, ok.sizes, ok.fits, space)) absent
                  (rw (missing, older, space) refl) (λ j there. refl))
          | inl full ↦
              let (c', evicted, e) =
                Ensures-returns (Evicted eq law c) (evict eq c)
                  (evict-Evicted eq law c ok (ground (arith, full))) in
              rw (call_miss eq f k c missing, insert_full eq k (f k) c c' missing full evicted)
                (miss f k c c' missing e.valid e.space (omega (arith, absent, e.fewer k))
                  (e.rest ∙ rw (missing, older, full) refl) e.others)
        ]
  ]
