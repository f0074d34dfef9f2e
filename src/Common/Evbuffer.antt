-- ===== src/Common/Evbuffer.antt =====
-- The functions of libevent's `evbuffer` that the program calls. A buffer is the list of the bytes
-- that it holds, and `none` is a call that fails.
use Prim.Native.Nat.{ℕ, zero, suc}
use mathlib.Core.Path.{◌≡◌, refl}
use mathlib.Core.Option.{Option, none, some}
use mathlib.Core.Option
use mathlib.Core.List.{List, [], ◌∷◌, ◌++◌}
use stegotorus.Common.Tests.{◌==◌, if◌then◌else◌}
use stegotorus.Common.Lists.{take, drop}

abbrev pub Bytes : Type 0
Bytes = List ℕ

pub record Evbuffer : Type 0 where
  -- evbuffer_remove: the bytes read, and the buffer after that
  pub remove : Bytes → ℕ → Option (Bytes × Bytes)
  -- evbuffer_copyout
  pub copyout : Bytes → ℕ → Option Bytes
  -- evbuffer_drain
  pub drain : Bytes → ℕ → Option Bytes
  -- evbuffer_add, and evbuffer_reserve_space followed by evbuffer_commit_space
  pub add : Bytes → Bytes → Option Bytes
  -- evbuffer_search for one byte, from a position on
  pub search : Bytes → ℕ → ℕ → Option ℕ

-- Where a byte is first met from a position on.
abbrev pub find_from : Bytes → ℕ → ℕ → Option ℕ
find_from [] c i = none
find_from (x ∷ xs) c zero = if x == c then some 0 else Option.map suc (find_from xs c zero)
find_from (x ∷ xs) c (suc i) = Option.map suc (find_from xs c i)

-- The documented results, where no call fails.
pub record IsReliable (ev : Evbuffer) : Type 0 where
  pub remove_lem : (b : Bytes) (n : ℕ) → ev.remove b n ≡ some (take n b, drop n b)
  pub copyout_lem : (b : Bytes) (n : ℕ) → ev.copyout b n ≡ some (take n b)
  pub drain_lem : (b : Bytes) (n : ℕ) → ev.drain b n ≡ some (drop n b)
  pub add_lem : (b c : Bytes) → ev.add b c ≡ some (b ++ c)
  pub search_lem : (b : Bytes) (c i : ℕ) → ev.search b c i ≡ find_from b c i

-- Buffers of a process that never runs out of memory.
abbrev pub plain : Evbuffer
plain = record {
  remove = λ b n. some (take n b, drop n b);
  copyout = λ b n. some (take n b);
  drain = λ b n. some (drop n b);
  add = λ b c. some (b ++ c);
  search = find_from;
}

pub plain-IsReliable : IsReliable plain
plain-IsReliable = record {
  remove_lem = λ b n. refl;
  copyout_lem = λ b n. refl;
  drain_lem = λ b n. refl;
  add_lem = λ b c. refl;
  search_lem = λ b c i. refl;
}
