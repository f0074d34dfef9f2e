-- ===== src/Chop/Pick/Scan.antt =====
-- The loop of `pick_connection` (src/protocol/chop.cc) over the connections.
use native.Mathlib.Nat.{le_trans}
use stegotorus.Common.{
  ℕ, suc, ◌+◌, ◌<◌, ◌≤◌, ◌≡◌, ◌⊎◌, inl, inr, refl, ◌∙◌, arith, true, false, ◌||◌, ltb, leb, ◌==◌,
  Bool-cases, Option, some, List, [], ◌∷◌, Ensures, Ensures-bind, Ensures-map,
}
use stegotorus.Chop.{ChopConn, shake, max_block_size}
use stegotorus.Chop.Pick.{Fit, offer, improve, consider, scan}

module _ (desired minimum : ℕ) where
  -- An offer that the code lets pass: none, or one between the minimum and the largest block.
  abbrev pub IsFair : ChopConn → Type 0
  IsFair c =
      (offer desired minimum c ≡ 0)
      ⊎ ((minimum + shake c ≤ offer desired minimum c)
          × (offer desired minimum c < max_block_size)
          × (0 < offer desired minimum c))

  abbrev pub AllFair : List ChopConn → Type 0
  AllFair [] = Unit {0}
  AllFair (c ∷ cs) = IsFair c × AllFair cs

  -- The offer holds all that is wanted, or less.
  abbrev pub IsAbove : ChopConn → Type 0
  IsAbove c = desired + shake c ≤ offer desired minimum c

  abbrev pub IsBelow : ChopConn → Type 0
  IsBelow c = (0 < offer desired minimum c) × (offer desired minimum c < desired + shake c)

  -- The bounds that the offers of the connections leave to the two variables.
  abbrev pub Bounded : ℕ → ℕ → List ChopConn → Type 0
  Bounded low high [] = Unit {0}
  Bounded low high (c ∷ cs) =
      (IsBelow c → offer desired minimum c ≤ low)
      × (0 < offer desired minimum c → IsAbove c → high ≤ offer desired minimum c)
      × Bounded low high cs

  -- Connection `k`, counted from `i`, makes the offer `n`.
  abbrev pub Offers : (ChopConn → Type 0) → ℕ → ℕ → ℕ → List ChopConn → Type 0
  Offers P k n i [] = ⊥
  Offers P k n i (c ∷ cs) =
      ((k ≡ i) × (n ≡ offer desired minimum c) × P c) ⊎ Offers P k n (suc i) cs

  -- The result of a scan of `cs` from `f`.
  pub record Scanned (i : ℕ) (cs : List ChopConn) (f g : Fit) : Type 0 where
    pub lower : f.maxbelow ≤ g.maxbelow
    pub higher : g.minabove ≤ f.minabove
    pub bounded : Bounded g.maxbelow g.minabove cs
    pub below :
        ((g.targbelow ≡ f.targbelow) × (g.maxbelow ≡ f.maxbelow))
        ⊎ ((k : ℕ) × (g.targbelow ≡ some k) × Offers IsBelow k g.maxbelow i cs)
    pub above :
        ((g.targabove ≡ f.targabove) × (g.minabove ≡ f.minabove))
        ⊎ ((k : ℕ) × (g.targabove ≡ some k) × Offers IsAbove k g.minabove i cs)

  -- One step.
  improve-Scanned :
      (i : ℕ) (c : ChopConn) (f : Fit)
      → 0 < offer desired minimum c
      → Scanned i (c ∷ []) f (improve (desired + shake c) i (offer desired minimum c) f)
  unfolding improve
  improve-Scanned i c f pos =
      elim (Bool-cases (leb (desired + shake c) (offer desired minimum c))) [
        | inl all ↦ elim (Bool-cases (ltb (offer desired minimum c) f.minabove)) [
          | inl less ↦
              rw (all, less)
                (record {
                  lower = omega arith;
                  higher = ground arith;
                  bounded = ((λ b. ground arith), (λ p a. ground arith), tt);
                  below = inl (refl, refl);
                  above = inr (i, refl, inl (refl, refl, ground arith));
                })
          | inr more ↦
              rw (all, more)
                (record {
                  lower = omega arith;
                  higher = omega arith;
                  bounded = ((λ b. ground arith), (λ p a. ground arith), tt);
                  below = inl (refl, refl);
                  above = inl (refl, refl);
                })
        ]
        | inr part ↦ elim (Bool-cases (ltb f.maxbelow (offer desired minimum c))) [
          | inl more ↦
              rw (part, more)
                (record {
                  lower = ground arith;
                  higher = omega arith;
                  bounded = ((λ b. ground arith), (λ p a. ground arith), tt);
                  below = inr (i, refl, inl (refl, refl, (pos, ground arith)));
                  above = inl (refl, refl);
                })
          | inr less ↦
              rw (part, less)
                (record {
                  lower = omega arith;
                  higher = omega arith;
                  bounded = ((λ b. ground arith), (λ p a. ground arith), tt);
                  below = inl (refl, refl);
                  above = inl (refl, refl);
                })
        ]
      ]

  consider-Scanned :
      (i : ℕ) (c : ChopConn) (f : Fit)
      → IsFair c
      → Ensures (Scanned i (c ∷ []) f) (consider desired minimum i c f)
  unfolding consider
  consider-Scanned i c f (inl zero_offer) =
      let skip : (offer desired minimum c == 0) ≡ true = ground arith in
      rw skip (record {
        lower = omega arith;
        higher = omega arith;
        bounded = ((λ b. ground arith), (λ p a. ground arith), tt);
        below = inl (refl, refl);
        above = inl (refl, refl);
      })
  consider-Scanned i c f (inr (lo, hi, pos)) =
      let some_offer : (offer desired minimum c == 0) ≡ false = ground arith in
      let in_range : (ltb (offer desired minimum c) (minimum + shake c)
            || leb (max_block_size + shake c) (offer desired minimum c))
          ≡ false =
        ground arith in
      rw (some_offer, in_range) (improve-Scanned i c f pos)

  -- A target and its size after a step and the rest.
  abbrev pub Target : (ChopConn → Type 0) → ℕ → List ChopConn → Option ℕ → Option ℕ → ℕ → ℕ → Type 0
  Target P i cs old new n m =
      ((new ≡ old) × (m ≡ n)) ⊎ ((k : ℕ) × (new ≡ some k) × Offers P k m i cs)

  join :
      (P : ChopConn → Type 0) (i : ℕ) (c : ChopConn) (cs : List ChopConn) (tf tg th : Option ℕ)
      (nf ng nh : ℕ)
      → Target P i (c ∷ []) tf tg nf ng
      → Target P (suc i) cs tg th ng nh
      → Target P i (c ∷ cs) tf th nf nh
  join P i c cs tf tg th nf ng nh s (inr (k, e, o)) = inr (k, e, inr o)
  join P i c cs tf tg th nf ng nh (inl a) (inl b) = inl (b.0 ∙ a.0, b.1 ∙ a.1)
  join P i c cs tf tg th nf ng nh (inr (k, e, inl o)) (inl b) =
      inr (k, b.0 ∙ e, inl (o.0, b.1 ∙ o.1, o.2))
  join P i c cs tf tg th nf ng nh (inr (k, e, inr o)) (inl b) = absurd o

  -- Two scans in a row.
  Scanned-cons :
      (i : ℕ) (c : ChopConn) (cs : List ChopConn) (f g h : Fit)
      → Scanned i (c ∷ []) f g
      → Scanned (suc i) cs g h
      → Scanned i (c ∷ cs) f h
  Scanned-cons i c cs f g h s t = record {
    lower = omega (arith, s.lower, t.lower);
    higher = omega (arith, s.higher, t.higher);
    bounded = (
      (λ p. le_trans (s.bounded.0 p) t.lower),
      (λ p a. le_trans t.higher (s.bounded.1 p a)),
      t.bounded,
    );
    below =
        join IsBelow i c cs f.targbelow g.targbelow h.targbelow f.maxbelow g.maxbelow h.maxbelow
          s.below t.below;
    above =
        join IsAbove i c cs f.targabove g.targabove h.targabove f.minabove g.minabove h.minabove
          s.above t.above;
  }

  pub scan-Scanned :
      (i : ℕ) (cs : List ChopConn) (f : Fit)
      → AllFair cs
      → Ensures (Scanned i cs f) (scan desired minimum i cs f)
  unfolding scan
  scan-Scanned i [] f fair = record {
    lower = omega arith;
    higher = omega arith;
    bounded = tt;
    below = inl (refl, refl);
    above = inl (refl, refl);
  }
  scan-Scanned i (c ∷ cs) f fair =
      Ensures-bind (Scanned i (c ∷ []) f) (Scanned i (c ∷ cs) f) (consider desired minimum i c f) _
        (consider-Scanned i c f fair.0)
        λ g s.
          Ensures-map (Scanned (suc i) cs g) (Scanned i (c ∷ cs) f)
            (scan desired minimum (suc i) cs g) (scan-Scanned (suc i) cs g fair.1)
            (λ h t. Scanned-cons i c cs f g h s t)
