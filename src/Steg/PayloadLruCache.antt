-- ===== src/Steg/PayloadLruCache.antt =====
-- `class PayloadLRUCache` of src/steg/payload_lru_cache.h. The container is an association list. A key stands
-- once in the list of keys, so that an iterator of it is the key that it points at.
pub mod Keys
pub mod Invariant
pub mod Calls
pub mod Runs
use stegotorus.Common.{
  ℕ, zero, suc, Bool, true, false, not, ◌==◌, is_some, if◌then◌else◌, Option, none, some, List, [],
  ◌∷◌, ◌++◌, length, Outcome, returns, aborts, ◌>>=◌, ◌>>◌, log_assert,
}

pub record Cache (K V : Type 0) : Type 0 where
  pub capacity : ℕ
  pub key_tracker : List K
  pub key_to_value : List (K × V)

module _ {K : Type 0} (eq : K → K → Bool) where
  unfoldable pub has_key : K → List K → Bool
  has_key k [] = false
  has_key k (j ∷ js) = let rest = has_key k js in if eq k j then true else rest

  unfoldable pub erase : K → List K → List K
  erase k [] = []
  erase k (j ∷ js) = let rest = erase k js in if eq k j then js else j ∷ rest

module _ {K V : Type 0} (eq : K → K → Bool) where
  unfoldable pub find : K → List (K × V) → Option V
  find k [] = none
  find k (e ∷ es) = let rest = find k es in if eq k e.0 then some e.1 else rest

  unfoldable pub erase_entry : K → List (K × V) → List (K × V)
  erase_entry k [] = []
  erase_entry k (e ∷ es) = let rest = erase_entry k es in if eq k e.0 then es else e ∷ rest

  -- The constructor.
  unfoldable pub payload_lru_cache : ℕ → Outcome (Cache K V)
  payload_lru_cache c =
      log_assert (not (c == 0))
      >> returns (record { capacity = c; key_tracker = []; key_to_value = [] })

  unfoldable pub evict : Cache K V → Outcome (Cache K V)
  evict c = elim c.key_tracker [
    | [] ↦ aborts
    | k ∷ ks ↦ elim (find k c.key_to_value) [
      | none ↦ aborts
      | some v ↦
          returns (record c { key_tracker = ks; key_to_value = erase_entry k c.key_to_value })
    ]
  ]

  abbrev pub record_key : K → V → Cache K V → Cache K V
  record_key k v c = record c {
    key_tracker = c.key_tracker ++ (k ∷ []);
    key_to_value = (k, v) ∷ c.key_to_value;
  }

  unfoldable pub insert : K → V → Cache K V → Outcome (Cache K V)
  insert k v c =
      log_assert (not (is_some (find k c.key_to_value)))
      >> (if length c.key_to_value == c.capacity then evict c else returns c)
      >>= λ c'. returns (record_key k v c')

  -- The end of operator(): the record is found, and its key becomes the last one.
  unfoldable pub refresh : K → Cache K V → Outcome (V × Cache K V)
  refresh k c = elim (find k c.key_to_value) [
    | none ↦ aborts
    | some v ↦ returns (v, record c { key_tracker = erase eq k c.key_tracker ++ (k ∷ []) })
  ]

  -- operator(); `f` is the cached function.
  unfoldable pub call : (K → V) → K → Cache K V → Outcome (V × Cache K V)
  call f k c = elim (find k c.key_to_value) [
    | none ↦ insert k (f k) c >>= refresh k
    | some v ↦ refresh k c
  ]

  unfoldable pub drop : K → Cache K V → Outcome (Bool × Cache K V)
  drop k c = elim (find k c.key_to_value) [
    | none ↦ returns (false, c)
    | some v ↦
        log_assert (has_key eq k c.key_tracker)
        >> returns (
          true,
          record c {
            key_tracker = erase eq k c.key_tracker;
            key_to_value = erase_entry k c.key_to_value;
          },
        )
  ]

-- get_keys: the most recent first.
unfoldable pub get_keys : {K : Type 0} → List K → List K
get_keys [] = []
get_keys (k ∷ ks) = get_keys ks ++ (k ∷ [])
