-- ===== src/Chop/Pick.antt =====
-- `pick_connection` of src/protocol/chop.cc: the connection that fits a block best. Connections are
-- numbered by their place in the iteration over `downstreams`.
pub mod Scan
pub mod Best
use stegotorus.Common.{
  ℕ, suc, ◌+◌, Bool, true, false, not, ◌||◌, ◌&&◌, ltb, leb, ◌==◌, if◌then◌else◌, Option, none,
  some, List, [], ◌∷◌, Outcome, returns, aborts, log_assert, ◌>>=◌, ◌>>◌,
}
use stegotorus.Chop.{ChopConn, shake, section_len, min_block_size, max_block_size}

-- The four local variables of the loop.
pub record Fit : Type 0 where
  pub maxbelow : ℕ
  pub minabove : ℕ
  pub targbelow : Option ℕ
  pub targabove : Option ℕ

abbrev pub no_fit : Fit
no_fit = record { maxbelow = 0; minabove = max_block_size + 1; targbelow = none; targabove = none }

-- What a connection offers: 0 where it is skipped.
unfoldable pub offer : ℕ → ℕ → ChopConn → ℕ
offer desired minimum c =
    if not c.has_steg
    then 0
    else if not c.connected
    then 0
    else c.room (desired + shake c) (minimum + shake c) (max_block_size + shake c)

-- The end of the loop's body, for an offer in range.
unfoldable pub improve : ℕ → ℕ → ℕ → Fit → Fit
improve wanted i room f =
    if leb wanted room
    then (if ltb room f.minabove then record f { minabove = room; targabove = some i } else f)
    else (if ltb f.maxbelow room then record f { maxbelow = room; targbelow = some i } else f)

-- The body of the loop, for the connection number `i`.
unfoldable pub consider : ℕ → ℕ → ℕ → ChopConn → Fit → Outcome Fit
consider desired minimum i c f =
    let room = offer desired minimum c in
    if room == 0
    then returns f
    else if ltb room (minimum + shake c) || leb (max_block_size + shake c) room
    then aborts
    else returns (improve (desired + shake c) i room f)

unfoldable pub scan : ℕ → ℕ → ℕ → List ChopConn → Fit → Outcome Fit
scan desired minimum i [] f = returns f
scan desired minimum i (c ∷ cs) f =
    consider desired minimum i c f >>= λ f'. scan desired minimum (suc i) cs f'

-- The connection and `*blocksize`.
abbrev pub chosen : Fit → Option ℕ × ℕ
chosen f = elim f.targabove [ none ↦ (f.targbelow, f.maxbelow) | some i ↦ (some i, f.minabove) ]

-- The sizes of whole blocks that the loop asks for.
abbrev pub whole_desired : ℕ → ℕ
whole_desired desired = (if ltb section_len desired then section_len else desired) + min_block_size

abbrev pub whole_minimum : ℕ → ℕ → ℕ
whole_minimum desired minimum =
    (if ltb 0 desired && (minimum == 0) then 1 else minimum) + min_block_size

unfoldable pub pick_connection : ℕ → ℕ → List ChopConn → Outcome (Option ℕ × ℕ)
pick_connection desired minimum conns =
    log_assert (leb minimum section_len)
    >> (scan (whole_desired desired) (whole_minimum desired minimum) 0 conns no_fit >>= λ f.
        returns (chosen f))
