-- ===== src/Steg/PayloadLruCache/Runs.antt =====
-- Calls of the cache one after another (src/steg/payload_lru_cache.h), against the function that it caches.
use stegotorus.Common.{
  ℕ, ◌-◌, ◌<◌, ◌≡◌, refl, sym, ap, ◌∙◌, arith, ◌==◌, not, Bool, Bool-cases, inl, inr, is_some, true,
  false, if◌then◌else◌, Option-cases, none, some, List, [], ◌∷◌, length, Outcome, returns, ◌>>=◌,
  Ensures,
}
use stegotorus.Steg.PayloadLruCache.{
  Cache, find, erase_entry, has_key, erase, payload_lru_cache, call, drop,
}
use stegotorus.Steg.PayloadLruCache.Keys.{
  IsEquality, count, keys, eq_self, count-erase, length-erase, has_key-count, keys-erase_entry,
  length-keys, find-some, find-zero, find-erase_entry,
}
use stegotorus.Steg.PayloadLruCache.Invariant.{IsCache, Called}
use stegotorus.Steg.PayloadLruCache.Calls.{Ensures-returns, call-Called}

-- What drop does.
pub record Dropped {K V : Type 0} (eq : K → K → Bool) (k : K) (c : Cache K V) (r : Bool × Cache K V)
    : Type 0 where
  pub answer : r.0 ≡ is_some (find eq k c.key_to_value)
  pub valid : IsCache eq r.1
  pub gone : find eq k r.1.key_to_value ≡ none
  pub others : (j : K) → eq j k ≡ false → find eq j r.1.key_to_value ≡ find eq j c.key_to_value

module _ {K V : Type 0} (eq : K → K → Bool) where
  drop_missing :
      (k : K) (c : Cache K V) → find eq k c.key_to_value ≡ none → drop eq k c ≡ returns (false, c)
  unfolding drop
  drop_missing k c missing = rw (missing, drop) refl

  drop_found :
      (k : K) (v : V) (c : Cache K V)
      → find eq k c.key_to_value ≡ some v
      → has_key eq k c.key_tracker ≡ true
      → drop eq k c
        ≡ returns (
          true,
          record c {
            key_tracker = erase eq k c.key_tracker;
            key_to_value = erase_entry eq k c.key_to_value;
          },
        )
  unfolding drop
  drop_found k v c found there = rw (found, drop, there) refl

module _ {K V : Type 0} (eq : K → K → Bool) (law : IsEquality eq) where
  erased-IsCache :
      (k : K) (c : Cache K V)
      → IsCache eq c
      → 0 < count eq k c.key_tracker
      → IsCache eq (record c {
        key_tracker = erase eq k c.key_tracker;
        key_to_value = erase_entry eq k c.key_to_value;
      })
  erased-IsCache k c ok there =
      let es = c.key_to_value in
      let n = length-erase eq law k c.key_tracker there in
      let m = length-erase eq law k (keys es) (omega (arith, ok.same k, there)) in
      let p = ap length (keys-erase_entry eq law k es) in
      let q = length-keys eq law (erase_entry eq k es) in
      let r = length-keys eq law es in
      record {
        room = ok.room;
        fits = omega (arith, n, ok.fits);
        sizes = omega (arith, n, m, p, q, r, ok.sizes);
        once = λ j.
            let gone = count-erase eq law j k c.key_tracker in
            elim (Bool-cases (eq j k)) [
              | inl t ↦ let gone' = rw t at gone in omega (arith, gone', ok.once j)
              | inr t ↦ let gone' = rw t at gone in omega (arith, gone', ok.once j)
            ];
        same = λ j.
            ap (count eq j) (keys-erase_entry eq law k es)
            ∙ count-erase eq law j k (keys es)
            ∙ ap (λ (n : ℕ). if eq j k then n - 1 else n) (ok.same j)
            ∙ sym (count-erase eq law j k c.key_tracker);
      }

  drop-Dropped : (k : K) (c : Cache K V) → IsCache eq c → Ensures (Dropped eq k c) (drop eq k c)
  drop-Dropped k c ok = elim (Option-cases (find eq k c.key_to_value)) [
    | inl missing ↦
        rw (drop_missing eq k c missing) (record {
          answer = rw missing refl;
          valid = ok;
          gone = missing;
          others = λ j other. refl;
        })
    | inr (v, found) ↦
        let l = find-some eq law k v c.key_to_value found in
        let there : 0 < count eq k c.key_tracker = omega (arith, ok.same k, l) in
        let self = rw (eq_self eq law k) at (count-erase eq law k k (keys c.key_to_value)) in
        let zero_left : count eq k (keys (erase_entry eq k c.key_to_value)) ≡ 0 =
          ap (count eq k) (keys-erase_entry eq law k c.key_to_value)
          ∙ omega (arith, self, ok.same k, ok.once k) in
        rw (drop_found eq k v c found (has_key-count eq law k c.key_tracker there)) (record {
          answer = rw found refl;
          valid = erased-IsCache k c ok there;
          gone = find-zero eq law k (erase_entry eq k c.key_to_value) zero_left;
          others = λ j other. find-erase_entry eq law j k c.key_to_value other;
        })
  ]

pub data Op (K : Type 0) : Type 0 where
  fetch : K → Op K
  drop_key : K → Op K

module _ {K V : Type 0} (eq : K → K → Bool) (f : K → V) where
  -- The values that the operator gives over a sequence of calls.
  unfoldable pub run : List (Op K) → Cache K V → Outcome (List V)
  run [] c = returns []
  run (fetch k ∷ ops) c = call eq f k c >>= λ r. run ops r.1 >>= λ vs. returns (r.0 ∷ vs)
  run (drop_key k ∷ ops) c = drop eq k c >>= λ r. run ops r.1

-- The values of the function for the keys that are looked up.
abbrev pub answers : {K V : Type 0} → (K → V) → List (Op K) → List V
answers f [] = []
answers f (fetch k ∷ ops) = f k ∷ answers f ops
answers f (drop_key k ∷ ops) = answers f ops

module _ {K V : Type 0} (eq : K → K → Bool) (law : IsEquality eq) (f : K → V) where
  -- The recorded values are the function's.
  abbrev Sound : Cache K V → Type 0
  Sound c = (j : K) (v : V) → find eq j c.key_to_value ≡ some v → v ≡ f j

  call-Sound :
      (k : K) (c : Cache K V) (r : V × Cache K V)
      → Sound c
      → Called eq f k c r
      → (r.0 ≡ f k) × Sound r.1
  call-Sound k c r sound h =
      let right : r.0 ≡ f k = elim (Option-cases (find eq k c.key_to_value)) [
        | inl missing ↦ rw missing at h.answer
        | inr (v, found) ↦ (rw found at h.answer) ∙ sound k v found
      ] in
      (
        right,
        λ j v there. elim (Bool-cases (eq j k)) [
          | inl t ↦
              let p : j ≡ k = (law j k).0 t in
              let e : some v ≡ some r.0 =
                sym there ∙ ap (λ (i : K). find eq i r.1.key_to_value) p ∙ h.held in
              let e' : v ≡ r.0 = cc in e' ∙ right ∙ ap f (sym p)
          | inr t ↦
              let l = find-some eq law j v r.1.key_to_value there in
              sound j v (sym (h.others j t (omega (arith, h.valid.same j, l))) ∙ there)
        ],
      )

  drop-Sound :
      (k : K) (c : Cache K V) (r : Bool × Cache K V) → Sound c → Dropped eq k c r → Sound r.1
  drop-Sound k c r sound h j v there = elim (Bool-cases (eq j k)) [
    | inl t ↦
        let p : j ≡ k = (law j k).0 t in
        let e : some v ≡ none = sym there ∙ ap (λ (i : K). find eq i r.1.key_to_value) p ∙ h.gone in
        absurd (cc)
    | inr t ↦ sound j v (sym (h.others j t) ∙ there)
  ]

  run_from :
      (ops : List (Op K)) (c : Cache K V)
      → IsCache eq c
      → Sound c
      → run eq f ops c ≡ returns (answers f ops)
  unfolding run
  run_from [] c ok sound = refl
  run_from (fetch k ∷ ops) c ok sound =
      let (r, e, h) =
        Ensures-returns (Called eq f k c) (call eq f k c) (call-Called eq law f k c ok) in
      let (right, sound') = call-Sound k c r sound h in
      rw (e, run_from ops r.1 h.valid sound', right) refl
  run_from (drop_key k ∷ ops) c ok sound =
      let (r, e, h) = Ensures-returns (Dropped eq k c) (drop eq k c) (drop-Dropped eq law k c ok) in
      rw e (run_from ops r.1 h.valid (drop-Sound k c r sound h))

  -- Over any calls of the operator and of drop on a new cache that holds at least one record, no assertion fails, and
  -- each value that the operator gives is that of the function for the key.
  pub run-answers :
      (n : ℕ) (ops : List (Op K))
      → 0 < n
      → (payload_lru_cache eq n >>= run eq f ops) ≡ returns (answers f ops)
  unfolding payload_lru_cache
  run-answers n ops l =
      let open_ok : not (n == 0) ≡ true = ground arith in
      rw open_ok (
        run_from ops (record { capacity = n; key_tracker = []; key_to_value = [] })
          (record {
            room = l;
            fits = omega arith;
            sizes = refl;
            once = λ j. omega arith;
            same = λ j. refl;
          })
          (λ j v there. absurd (unfold find in let e : none ≡ some v = there in cc)))
