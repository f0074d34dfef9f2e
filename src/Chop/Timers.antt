-- ===== src/Chop/Timers.antt =====
-- The two intervals of a circuit in src/protocol/chop.cc, and `ui64_log2` of src/util.cc. The result of
-- `rng_range_geom`, which computes with floating point numbers, is a parameter.
use Prim.Native.Nat.{min, max}
use stegotorus.Common.{
  ℕ, ◌+◌, ◌-◌, ◌*◌, ◌/◌, ◌^◌, ◌%◌, ◌<◌, ◌≤◌, arith, leb, ◌==◌, if◌then◌else◌, Bool-cases, inl, inr,
}

-- One test of `ui64_log2`: what is left of the number, and the bits counted.
abbrev pub log2_step : ℕ → ℕ × ℕ → ℕ × ℕ
log2_step k (u, r) = if leb (2 ^ k) u then (u / 2 ^ k, r + k) else (u, r)

unfoldable pub ui64_log2 : ℕ → ℕ
ui64_log2 u =
    (log2_step 1 (log2_step 2 (log2_step 4 (log2_step 8 (log2_step 16 (log2_step 32 (u, 0))))))).1

-- max_idle_min
abbrev pub max_idle_min : ℕ
max_idle_min = 30

module _ (rng_range_geom : ℕ → ℕ → ℕ) where
  unfoldable pub flush_interval : ℕ → ℕ
  flush_interval dead_cycles =
      let shift = max 1 (min 19 dead_cycles) in
      let xv = max 1 (min (10 * 60 * 1000) (2 ^ shift)) in
      if dead_cycles == 0 then 100 else rng_range_geom (20 * 60 * 1000) xv + 100

  -- `memory_consumed` is the length of the input of the upstream buffer.
  unfoldable pub axe_interval : ℕ → ℕ → ℕ
  axe_interval dead_cycles memory_consumed =
      if dead_cycles == 0
      then max_idle_min * 60 * 1000
      else let max_penalty_mins = min (max_idle_min - 1) (ui64_log2 memory_consumed) + 2 in
        let penalty_mins =
          rng_range_geom max_penalty_mins (min (max_penalty_mins - 1) dead_cycles) in
        max ((max_idle_min + 2 ^ 32 - penalty_mins) % 2 ^ 32 * 60 * 1000 % 2 ^ 32) 100

-- What rng.h says of `rng_range_geom`.
abbrev pub IsGeometric : (ℕ → ℕ → ℕ) → Type 0
IsGeometric geom = (hi xv : ℕ) → 0 < xv → xv < hi → geom hi xv < hi

flush_lem :
    (geom : ℕ → ℕ → ℕ) (dead : ℕ)
    → IsGeometric geom
    → (100 ≤ flush_interval geom dead) × (flush_interval geom dead < 20 * 60 * 1000 + 100)
unfolding flush_interval
flush_lem geom dead law = elim (Bool-cases (dead == 0)) [
  | inl idle ↦ rw idle (omega arith)
  | inr busy ↦
      (let xv = max 1 (min (10 * 60 * 1000) (2 ^ max 1 (min 19 dead))) in
        let below : geom (20 * 60 * 1000) xv < 20 * 60 * 1000 =
          law (20 * 60 * 1000) xv (omega arith) (omega arith) in
        rw busy (omega arith))
]

axe_lem :
    (geom : ℕ → ℕ → ℕ) (dead memory : ℕ)
    → IsGeometric geom
    → (100 ≤ axe_interval geom dead memory) × (axe_interval geom dead memory ≤ 30 * 60 * 1000)
unfolding axe_interval
axe_lem geom dead memory law = elim (Bool-cases (dead == 0)) [
  | inl idle ↦ rw idle (omega arith)
  | inr busy ↦
      (let hi = min 29 (ui64_log2 memory) + 2 in
        let below : geom hi (min (hi - 1) dead) < hi =
          law hi (min (hi - 1) dead) (ground arith) (omega arith) in
        rw busy (omega arith))
]

-- The flush interval lies between 100 ms and 20 minutes and 99 ms, the axe interval between 100 ms and
-- 30 minutes; none of the subtractions and products wraps round. A circuit without dead cycles is given
-- longer than any flush interval of its peer.
pub axe-flush_bounds :
    (geom other : ℕ → ℕ → ℕ) (dead memory peer : ℕ)
    → IsGeometric geom
    → IsGeometric other
    → (100 ≤ flush_interval geom dead)
      × (flush_interval geom dead < 20 * 60 * 1000 + 100)
      × (100 ≤ axe_interval geom dead memory)
      × (axe_interval geom dead memory ≤ 30 * 60 * 1000)
      × (flush_interval other peer < axe_interval geom 0 memory)
axe-flush_bounds geom other dead memory peer law law' =
    let f = flush_lem geom dead law in
    let a = axe_lem geom dead memory law in
    let g = flush_lem other peer law' in (f.0, f.1, a.0, a.1, unfold axe_interval in omega arith)
