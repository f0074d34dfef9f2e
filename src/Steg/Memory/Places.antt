-- ===== src/Steg/Memory/Places.antt =====
-- What is read back of what was written.
use stegotorus.Common.{
  ◌==◌, ◌||◌, ℕ, zero, suc, ◌+◌, ◌*◌, ◌/◌, ◌^◌, ◌<◌, ◌≤◌, ◌≡◌, refl, sym, ap, ◌∙◌, arith, true,
  false, leb, Bool-cases, inl, inr, if◌then◌else◌, [], ◌∷◌, ◌++◌, length, length-append,
  length-take, length-drop, take, drop, get_or, take-append, drop-append, append_assoc,
}
use stegotorus.Common.Evbuffer.{Bytes}
use stegotorus.Steg.Memory.{gives, behind, ◌then◌, to_memory, from_memory, write, read}

pub length-to_memory : (size n : ℕ) → length (to_memory size n) ≡ size
unfolding to_memory
length-to_memory zero n = refl
length-to_memory (suc size) n = ap suc (length-to_memory size (n / 256))

-- A number is read back out of its first bytes.
pub from_memory-to_memory :
    (size n : ℕ) (rest : Bytes) → n < 256 ^ size → from_memory size (to_memory size n ++ rest) ≡ n
unfolding to_memory from_memory
from_memory-to_memory zero n rest l = omega arith
from_memory-to_memory (suc size) n rest l =
    let e : 256 ^ suc size ≡ 256 * 256 ^ size = omega arith in
    omega (arith, from_memory-to_memory size (n / 256) rest (omega (arith, e)))

-- Inside a list the default does not matter.
pub get_or_default : (xs : Bytes) (i d d' : ℕ) → i < length xs → get_or xs i d ≡ get_or xs i d'
get_or_default [] i d d' l = absurd (omega arith)
get_or_default (x ∷ xs) zero d d' l = refl
get_or_default (x ∷ xs) (suc i) d d' l = get_or_default xs i d d' (omega arith)

-- A buffer after a write.
abbrev pub written : Bytes → ℕ → Bytes → Bytes
written buf from bytes = take from buf ++ (bytes ++ drop (from + length bytes) buf)

pub write-written :
    (buf : Bytes) (from : ℕ) (bytes : Bytes)
    → from + length bytes ≤ length buf
    → write buf from bytes ≡ gives (written buf from bytes)
unfolding write
write-written buf from bytes l =
    let ok : (length bytes == 0 || leb (from + length bytes) (length buf)) ≡ true = ground arith in
    rw ok refl

pub write-behind :
    (buf : Bytes) (from : ℕ) (bytes : Bytes)
    → length buf < from + length bytes
    → 0 < length bytes
    → write buf from bytes ≡ behind
unfolding write
write-behind buf from bytes l some_bytes =
    let no_room : (length bytes == 0 || leb (from + length bytes) (length buf)) ≡ false =
      ground arith in
    rw no_room refl

pub length-written :
    (buf : Bytes) (from : ℕ) (bytes : Bytes)
    → from + length bytes ≤ length buf
    → length (written buf from bytes) ≡ length buf
length-written buf from bytes l = omega (
  arith,
  length-append (take from buf) (bytes ++ drop (from + length bytes) buf),
  length-append bytes (drop (from + length bytes) buf),
  length-take from buf,
  length-drop (from + length bytes) buf,
)

-- What stands from the place of the write on.
pub drop-written :
    (buf : Bytes) (from : ℕ) (bytes : Bytes)
    → from + length bytes ≤ length buf
    → drop from (written buf from bytes) ≡ bytes ++ drop (from + length bytes) buf
drop-written buf from bytes l =
    let n : length (take from buf) ≡ from = omega (arith, length-take from buf) in
    rw n at (drop-append (take from buf) (bytes ++ drop (from + length bytes) buf))

pub get_or-written :
    (buf : Bytes) (from : ℕ) (bytes : Bytes) (i d : ℕ)
    → i < from
    → from ≤ length buf
    → get_or (written buf from bytes) i d ≡ get_or buf i d
get_or-written buf zero bytes i d l m = absurd (omega arith)
get_or-written [] (suc from) bytes i d l m = absurd (omega arith)
get_or-written (b ∷ buf) (suc from) bytes zero d l m = refl
get_or-written (b ∷ buf) (suc from) bytes (suc i) d l m =
    let e : suc from + length bytes ≡ suc (from + length bytes) = omega arith in
    rw e (get_or-written buf from bytes i d (omega arith) (omega arith))

pub drop-drop : (j k : ℕ) (xs : Bytes) → drop j (drop k xs) ≡ drop (k + j) xs
drop-drop j zero xs = let e : 0 + j ≡ j = omega arith in rw e refl
drop-drop zero (suc k) [] = let e : suc k + 0 ≡ suc k = omega arith in rw e refl
drop-drop (suc j) (suc k) [] = let e : suc k + suc j ≡ suc (k + suc j) = omega arith in rw e refl
drop-drop j (suc k) (x ∷ xs) =
    let e : suc k + j ≡ suc (k + j) = omega arith in rw e (drop-drop j k xs)

-- A second part that is written behind the first one.
pub read-written :
    (buf : Bytes) (from : ℕ) (first second : Bytes)
    → from + length (first ++ second) ≤ length buf
    → read (written buf from (first ++ second)) (from + length first) (length second) ≡ gives second
unfolding read
read-written buf from first second l =
    let n = length-append first second in
    let m = length-written buf from (first ++ second) l in
    let ok : (length second == 0
          || leb (from + length first + length second)
              (length (written buf from (first ++ second))))
        ≡ true =
      ground (arith, n, m) in
    let rest = drop (from + length (first ++ second)) buf in
    let assoc : ((first ++ second) ++ rest) ≡ first ++ (second ++ rest) =
      append_assoc first second rest in
    let there : drop (from + length first) (written buf from (first ++ second)) ≡ second ++ rest =
      sym (drop-drop (length first) from (written buf from (first ++ second)))
      ∙ ap (drop (length first)) (drop-written buf from (first ++ second) l ∙ assoc)
      ∙ drop-append first (second ++ rest) in
    rw (ok, there) (ap gives (take-append second rest))

-- Two writes, one behind the other.
pub written-written :
    (buf : Bytes) (from : ℕ) (first second : Bytes)
    → from + length first + length second ≤ length buf
    → written (written buf from first) (from + length first) second
      ≡ written buf from (first ++ second)
written-written buf from first second l =
    let head = take from buf ++ first in
    let tail = drop (from + length first) buf in
    let n : length head ≡ from + length first =
      omega (arith, length-append (take from buf) first, length-take from buf) in
    let parts : written buf from first ≡ head ++ tail =
      sym (append_assoc (take from buf) first tail) in
    let kept : take (from + length first) (head ++ tail) ≡ head = rw n at (take-append head tail) in
    let gone : drop (from + length first) (head ++ tail) ≡ tail = rw n at (drop-append head tail) in
    let rest : drop (from + length first + length second) (head ++ tail)
        ≡ drop (from + length (first ++ second)) buf =
      sym (drop-drop (length second) (from + length first) (head ++ tail))
      ∙ ap (drop (length second)) gone
      ∙ drop-drop (length second) (from + length first) buf
      ∙ ap (λ (k : ℕ). drop k buf) (omega (arith, length-append first second)) in
    rw (parts, kept, rest)
      (append_assoc (take from buf) first (second ++ drop (from + length (first ++ second)) buf)
        ∙ ap (λ (x : Bytes). take from buf ++ x)
            (sym (append_assoc first second (drop (from + length (first ++ second)) buf))))

-- A number of `size` bytes, and a message behind it.
module _ (size n : ℕ) (message cover : Bytes) (from : ℕ) where
  abbrev pub stored : Bytes
  stored = written cover from (to_memory size n ++ message)

  pub store-stored :
      from + size + length message ≤ length cover
      → (write cover from (to_memory size n) then λ c. write c (from + size) message) ≡ gives stored
  store-stored l =
      let len = to_memory size n in
      let k : length len ≡ size = length-to_memory size n in
      let one = write-written cover from len (omega arith) in
      let two =
        write-written (written cover from len) (from + size) message
          (omega (arith, length-written cover from len)) in
      let twice : written (written cover from len) (from + size) message ≡ stored =
        ap (λ (s : ℕ). written (written cover from len) (from + s) message) (sym k)
        ∙ written-written cover from len message (omega arith) in
      rw (one, two) (ap gives twice)

  pub store-behind :
      0 < size
      → length cover < from + size + length message
      → (write cover from (to_memory size n) then λ c. write c (from + size) message) ≡ behind
  store-behind wide l =
      let len = to_memory size n in
      let k : length len ≡ size = length-to_memory size n in
      elim (Bool-cases (leb (from + size) (length cover))) [
        | inl fits ↦
            let one = write-written cover from len (ground arith) in
            rw one (
              write-behind (written cover from len) (from + size) message
                (let m = length-written cover from len (ground arith) in omega arith)
                (ground arith))
        | inr no_room ↦ rw (write-behind cover from len (ground arith) (omega arith)) refl
      ]

  pub read-number :
      from + size + length message ≤ length cover → read stored from size ≡ gives (to_memory size n)
  unfolding read
  read-number l =
      let len = to_memory size n in
      let k : length len ≡ size = length-to_memory size n in
      let m = length-append len message in
      let ok : (size == 0 || leb (from + size) (length stored)) ≡ true =
        ground (arith, length-written cover from (len ++ message) (omega arith)) in
      let rest = drop (from + length (len ++ message)) cover in
      let there : drop from stored ≡ len ++ (message ++ rest) =
        drop-written cover from (len ++ message) (omega arith) ∙ append_assoc len message rest in
      let whole : take size (len ++ (message ++ rest)) ≡ len =
        rw k at (take-append len (message ++ rest)) in
      rw (ok, there, whole) refl

  pub read-message :
      from + size + length message ≤ length cover
      → read stored (from + size) (length message) ≡ gives message
  read-message l =
      let len = to_memory size n in
      let k : length len ≡ size = length-to_memory size n in
      rw k at (read-written cover from len message (omega (arith, length-append len message)))
