-- ===== src/Chop/Pick/Best.antt =====
-- `pick_connection` of src/protocol/chop.cc finds the best offer.
use stegotorus.Common.{
  ℕ, ◌+◌, ◌<◌, ◌≤◌, ◌≡◌, ◌⊎◌, inl, inr, arith, true, leb, Bool-cases, Option, none, some, List, [],
  ◌∷◌, Ensures, Ensures-bind,
}
use stegotorus.Chop.{ChopConn, shake, max_block_size, section_len}
use stegotorus.Chop.Pick.{
  no_fit, offer, scan, chosen, whole_desired, whole_minimum, pick_connection,
}
use stegotorus.Chop.Pick.Scan.{
  AllFair, IsAbove, IsBelow, Bounded, Offers, Scanned, Target, scan-Scanned,
}

module _ (desired minimum : ℕ) where
  -- No connection offers anything.
  abbrev pub Silent : List ChopConn → Type 0
  Silent [] = Unit {0}
  Silent (c ∷ cs) = (offer desired minimum c ≡ 0) × Silent cs

  -- Every offer that holds all that is wanted is at least `b`.
  abbrev pub AtLeast : ℕ → List ChopConn → Type 0
  AtLeast b [] = Unit {0}
  AtLeast b (c ∷ cs) =
      (0 < offer desired minimum c → IsAbove desired minimum c → b ≤ offer desired minimum c)
      × AtLeast b cs

  -- Every offer is at most `b`, and none holds all that is wanted.
  abbrev pub AtMost : ℕ → List ChopConn → Type 0
  AtMost b [] = Unit {0}
  AtMost b (c ∷ cs) =
      (offer desired minimum c ≤ b)
      × (offer desired minimum c < desired + shake c ⊎ (offer desired minimum c ≡ 0))
      × AtMost b cs

  -- What the caller is told about the connections.
  abbrev pub IsBest : List ChopConn → Option ℕ × ℕ → Type 0
  IsBest cs (none, b) = (b ≡ 0) × Silent cs
  IsBest cs (some k, b) =
      (Offers desired minimum (IsAbove desired minimum) k b 0 cs × AtLeast b cs)
      ⊎ (Offers desired minimum (IsBelow desired minimum) k b 0 cs × AtMost b cs)

  Bounded-AtLeast :
      (cs : List ChopConn) (low high : ℕ) → Bounded desired minimum low high cs → AtLeast high cs
  Bounded-AtLeast [] low high b = tt
  Bounded-AtLeast (c ∷ cs) low high b = (b.1, Bounded-AtLeast cs low high b.2)

  -- Nothing above: the bound is over the largest block.
  Bounded-AtMost :
      (cs : List ChopConn) (low : ℕ)
      → AllFair desired minimum cs
      → Bounded desired minimum low (max_block_size + 1) cs
      → AtMost low cs
  Bounded-AtMost [] low fair b = tt
  Bounded-AtMost (c ∷ cs) low (inl e, fair) b = (omega arith, inr e, Bounded-AtMost cs low fair b.2)
  Bounded-AtMost (c ∷ cs) low (inr (lo, hi, pos), fair) b =
      elim (Bool-cases (leb (desired + shake c) (offer desired minimum c))) [
        | inl all ↦ absurd (let x = b.1 pos (ground arith) in omega arith)
        | inr part ↦
            (let less : offer desired minimum c < desired + shake c = ground arith in
              (b.0 (pos, less), inl less, Bounded-AtMost cs low fair b.2))
      ]

  AtMost-Silent : (cs : List ChopConn) → AtMost 0 cs → Silent cs
  AtMost-Silent [] h = tt
  AtMost-Silent (c ∷ cs) h = (omega arith, AtMost-Silent cs h.2)

  fit-IsBest :
      (cs : List ChopConn) (low high : ℕ) (targbelow targabove : Option ℕ)
      → AllFair desired minimum cs
      → Bounded desired minimum low high cs
      → Target desired minimum (IsBelow desired minimum) 0 cs none targbelow 0 low
      → Target desired minimum
          (IsAbove desired minimum)
          0
          cs
          none
          targabove
          (max_block_size + 1)
          high
      → IsBest cs (
          chosen (record {
            maxbelow = low;
            minabove = high;
            targbelow = targbelow;
            targabove = targabove;
          }))
  fit-IsBest cs low high targbelow none fair b below (inr (k, e, o)) = absurd (cc)
  fit-IsBest cs low high targbelow (some j) fair b below (inr (k, e, o)) =
      inl (let same : j ≡ k = cc in rw same o, Bounded-AtLeast cs low high b)
  fit-IsBest cs low high none none fair b (inl (e, z)) (inl (e', top)) =
      (z, AtMost-Silent cs (rw z at (Bounded-AtMost cs low fair (rw top at b))))
  fit-IsBest cs low high none none fair b (inr (k, e, o)) (inl (e', top)) = absurd (cc)
  fit-IsBest cs low high (some j) none fair b (inl (e, z)) (inl (e', top)) = absurd (cc)
  fit-IsBest cs low high (some j) none fair b (inr (k, e, o)) (inl (e', top)) =
      inr (let same : j ≡ k = cc in rw same o, Bounded-AtMost cs low fair (rw top at b))
  fit-IsBest cs low high targbelow (some j) fair b below (inl (e', top)) = absurd (cc)

-- The connection that is picked offers a size that holds all that is wanted, and no other such offer is
-- smaller; or no offer does, and no other is larger; or there is none, with the size 0, and nobody
-- offers anything. The call returns. This is for a minimum of at most SECTION_LEN and for connections
-- whose offers are in range and below MAX_BLOCK_SIZE.
pub pick_connection-IsBest :
    (desired minimum : ℕ) (conns : List ChopConn)
    → minimum ≤ section_len
    → AllFair (whole_desired desired) (whole_minimum desired minimum) conns
    → Ensures
        (IsBest (whole_desired desired) (whole_minimum desired minimum) conns)
        (pick_connection desired minimum conns)
unfolding pick_connection
pick_connection-IsBest desired minimum conns fits fair =
    let d = whole_desired desired in
    let m = whole_minimum desired minimum in
    let small : leb minimum section_len ≡ true = ground arith in
    rw small (
      Ensures-bind (Scanned d m 0 conns no_fit) (IsBest d m conns) (scan d m 0 conns no_fit) _
        (scan-Scanned d m 0 conns no_fit fair)
        λ g s.
          fit-IsBest d m conns g.maxbelow g.minabove g.targbelow g.targabove fair s.bounded s.below
            s.above)
