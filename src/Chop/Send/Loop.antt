-- ===== src/Chop/Send/Loop.antt =====
-- The loop in `send` of src/protocol/chop.cc that sends the data of the upstream buffer.
use stegotorus.Common.{
  ℕ, zero, suc, ◌+◌, ◌<◌, ◌≤◌, ◌≡◌, ◌⊎◌, inl, inr, refl, arith, Bool, true, false, ◌&&◌, ltb, ◌==◌,
  if◌then◌else◌, Bool-cases, Option, none, some, List, [], ◌∷◌, length, Outcome, returns, aborts,
  ◌>>=◌,
}
use stegotorus.Common.Evbuffer.{Bytes, Evbuffer}
use stegotorus.Block.Header.{BlockCipher}
use stegotorus.Block.Transmit.{GcmEncryptor}
use stegotorus.Chop.{ChopConn, shake, section_len, max_block_size}
use stegotorus.Chop.Pick.{offer, pick_connection}
use stegotorus.Chop.Pick.Scan.{AllFair, IsAbove, IsBelow, Offers}
use stegotorus.Chop.Pick.Best.{Silent, IsBest}
use stegotorus.Chop.Send.{ChopCircuit, send_targeted}

-- How the loop ends: `ok` unless -1 is returned, `no_target_connection`, the circuit, and what is left
-- in the upstream buffer.
pub record SendEnd : Type 0 where
  pub ok : Bool
  pub no_target_connection : Bool
  pub circuit : ChopCircuit
  pub left : Bytes

-- The connection that `pick_connection` found, by its number, counted from `i`.
abbrev pub connection_at : ℕ → ℕ → List ChopConn → Option ChopConn
connection_at k i [] = none
connection_at k i (c ∷ cs) =
    let rest = connection_at k (suc i) cs in if k == i then some c else rest

abbrev pub target_of : Option ℕ × ℕ → List ChopConn → Option (ChopConn × ℕ)
target_of (none, blocksize) cs = none
target_of (some k, blocksize) cs = elim (connection_at k 0 cs) [
  | none ↦ none
  | some c ↦ some (c, blocksize)
]

module _ (ev : Evbuffer) (ec : BlockCipher) (gc : GcmEncryptor) (deliver : Bytes → Bool) where
  -- The first argument bounds the rounds; `conns` are the connections before the round with so many
  -- rounds left, since a steganography module may change its offers after each block.
  unfoldable pub send_loop : ℕ → (ℕ → List ChopConn) → Bytes → ChopCircuit → Outcome SendEnd
  send_loop zero conns payload c = aborts
  send_loop (suc rounds) conns payload c =
      pick_connection (length payload) 0 (conns rounds) >>= λ picked.
      elim (target_of picked (conns rounds)) [
        | none ↦
            returns (record { ok = true; no_target_connection = true; circuit = c; left = payload })
        | some (conn, blocksize) ↦ send_targeted ev ec gc deliver conn blocksize payload c >>= λ s.
            elim (s.ok && ltb 0 (length s.left)) [
              | true ↦ send_loop rounds conns s.left s.circuit
              | false ↦ returns (record {
                ok = s.ok;
                no_target_connection = false;
                circuit = s.circuit;
                left = s.left;
              })
            ]
      ]

-- A steganography module that keeps to the sizes it is asked for: it offers nothing, or at least the
-- minimum and less than MAX_BLOCK_SIZE, with at most 65535 bytes over what is preferred.
abbrev pub IsModest : ChopConn → Type 0
IsModest c =
    (pref lo hi : ℕ)
    → (c.room pref lo hi ≡ 0)
      ⊎ ((lo ≤ c.room pref lo hi)
          × (c.room pref lo hi < max_block_size)
          × (c.room pref lo hi ≤ pref + section_len))

abbrev pub AllModest : List ChopConn → Type 0
AllModest [] = Unit {0}
AllModest (c ∷ cs) = IsModest c × AllModest cs

module _ (desired minimum : ℕ) where
  -- An offer in the range of `send_targeted`.
  abbrev pub InRange : ChopConn → ℕ → Type 0
  InRange c b =
      (minimum + shake c ≤ b) × (b < max_block_size) × (b ≤ desired + shake c + section_len)

  offer-InRange :
      (c : ChopConn)
      → IsModest c
      → (offer desired minimum c ≡ 0) ⊎ InRange c (offer desired minimum c)
  unfolding offer
  offer-InRange c h = elim (Bool-cases (c.has_steg && c.connected)) [
    | inl usable ↦
        let steg : c.has_steg ≡ true = ground arith in
        let up : c.connected ≡ true = ground arith in
        rw (steg, up) (h (desired + shake c) (minimum + shake c) (max_block_size + shake c))
    | inr not_usable ↦ inl (ground arith)
  ]

  pub AllModest-AllFair :
      (cs : List ChopConn) → 0 < minimum → AllModest cs → AllFair desired minimum cs
  AllModest-AllFair [] pos h = tt
  AllModest-AllFair (c ∷ cs) pos h = (
    elim (offer-InRange c h.0) [ inl e ↦ inl e | inr (lo, hi, most) ↦ inr (lo, hi, omega arith) ],
    AllModest-AllFair cs pos h.1,
  )

  Offers-connection_at_bound :
      (P : ChopConn → Type 0) (k n i : ℕ) (cs : List ChopConn)
      → Offers desired minimum P k n i cs
      → i ≤ k
  Offers-connection_at_bound P k n i [] h = absurd h
  Offers-connection_at_bound P k n i (c ∷ cs) (inl h) = omega (arith, h.0)
  Offers-connection_at_bound P k n i (c ∷ cs) (inr h) =
      omega (arith, Offers-connection_at_bound P k n (suc i) cs h)

  -- The connection that makes the offer.
  Offers-connection_at :
      (P : ChopConn → Type 0) (k n i : ℕ) (cs : List ChopConn)
      → Offers desired minimum P k n i cs
      → AllModest cs
      → (c : ChopConn) × (connection_at k i cs ≡ some c)
        × (n ≡ offer desired minimum c)
        × P c
        × IsModest c
  Offers-connection_at P k n i [] h fair = absurd h
  Offers-connection_at P k n i (c ∷ cs) (inl (here, size, p)) fair =
      let same : (k == i) ≡ true = ground arith in (c, rw same refl, size, p, fair.0)
  Offers-connection_at P k n i (c ∷ cs) (inr h) fair =
      let further : (k == i) ≡ false =
        ground (arith, Offers-connection_at_bound P k n (suc i) cs h) in
      let (c', e, size, p, modest) = Offers-connection_at P k n (suc i) cs h fair.1 in
      (c', rw further e, size, p, modest)

  pub target_of-InRange :
      (cs : List ChopConn) (picked : Option ℕ × ℕ)
      → 0 < desired
      → AllModest cs
      → IsBest desired minimum cs picked
      → ((target_of picked cs ≡ none) × Silent desired minimum cs)
        ⊎ ((c : ChopConn) × (b : ℕ) × (target_of picked cs ≡ some (c, b)) × InRange c b)
  target_of-InRange cs (none, b) pos fair h = inl (refl, h.1)
  target_of-InRange cs (some k, b) pos fair (inl (h, least)) =
      let (c, e, size, p, modest) =
        Offers-connection_at (IsAbove desired minimum) k b 0 cs h fair in
      let ok : InRange c b =
        rw size (elim (offer-InRange c modest) [ inl z ↦ absurd (omega arith) | inr ok ↦ ok ]) in
      inr (c, b, rw (e, target_of) refl, ok)
  target_of-InRange cs (some k, b) pos fair (inr (h, most)) =
      let (c, e, size, p, modest) =
        Offers-connection_at (IsBelow desired minimum) k b 0 cs h fair in
      let ok : InRange c b =
        rw size
          (elim (offer-InRange c modest) [ inl z ↦ absurd (omega (arith, p.0)) | inr ok ↦ ok ]) in
      inr (c, b, rw (e, target_of) refl, ok)
