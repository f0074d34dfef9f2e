-- ===== src/Socks/Parse4.antt =====
-- `socks4_read_request` of src/socks.cc on whole requests of SOCKS 4 and 4a.
use stegotorus.Common.{
  ℕ, zero, suc, ◌+◌, ◌-◌, ◌<◌, ◌≡◌, refl, ap, sym, ◌∙◌, arith, true, false, ltb, leb, ◌==◌, some,
  [], ◌∷◌, ◌++◌, append_assoc, length, length-append, take, drop, take-append, drop-append, get_or,
  All, IsU16, IsByte, be32, byte_at, be16_bytes,
}
use stegotorus.Common.Evbuffer.{Bytes, Evbuffer, IsReliable, find_from}
use stegotorus.Socks.{good, inet, ParseReq, addr_size, Inet, drained, write_array}
use stegotorus.Socks.Version4.{
  is_v4a, terminate, remove_into, header_at, take_name, take_ipaddr, with_name, after_user,
  socks4_read_request,
}

-- A request without its version byte, up to the end of the user.
abbrev pub request4 : ℕ → ℕ → ℕ → ℕ → ℕ → Bytes → Bytes → Bytes
request4 port a b c d user rest =
    1 ∷ byte_at port 8 ∷ byte_at port 0 ∷ a ∷ b ∷ c ∷ d ∷ user ++ 0 ∷ rest

find_end :
    (text rest : Bytes)
    → All (λ c. 0 < c) text
    → find_from (text ++ 0 ∷ rest) 0 0 ≡ some (length text)
find_end [] rest h = refl
find_end (x ∷ xs) rest h =
    let more : (x == 0) ≡ false = ground arith in rw (more, find_end xs rest h.1) refl

find_past :
    (text more : Bytes) (n : ℕ)
    → find_from more 0 0 ≡ some n
    → find_from (text ++ 0 ∷ more) 0 (suc (length text)) ≡ some (suc (length text + n))
find_past [] more n h = rw h (ap some (omega arith))
find_past (x ∷ xs) more n h = rw (find_past xs more n h) (ap some (omega arith))

drop_past : (text more : Bytes) → drop (suc (length text)) (text ++ 0 ∷ more) ≡ more
drop_past [] more = refl
drop_past (x ∷ xs) more = drop_past xs more

drop-drop : (n : ℕ) (xs : Bytes) → drop 1 (drop n xs) ≡ drop (suc n) xs
drop-drop zero xs = refl
drop-drop (suc n) [] = refl
drop-drop (suc n) (x ∷ xs) = drop-drop n xs

-- A name that is written and terminated in place.
terminate-write_array :
    (name old : Bytes)
    → terminate (write_array old name) (length name) ≡ write_array old (name ++ 0 ∷ [])
terminate-write_array name old =
    let next : length name + 1 ≡ suc (length name) = omega arith in
    let size : length (name ++ 0 ∷ []) ≡ suc (length name) =
      omega (arith, length-append name (0 ∷ [])) in
    rw
      (
        take-append name (drop (length name) old),
        next,
        size,
        append_assoc name (0 ∷ []) (drop (suc (length name)) old),
        sym (drop-drop (length name) (name ++ drop (length name) old)),
        drop-append name (drop (length name) old),
        drop-drop (length name) old,
      )
      refl

address_bytes :
    (a b c d : ℕ)
    → All IsByte (a ∷ b ∷ c ∷ d ∷ [])
    → (let x = be32 a b c d in byte_at x 24 ∷ byte_at x 16 ∷ byte_at x 8 ∷ byte_at x 0 ∷ [])
      ≡ a ∷ b ∷ c ∷ d ∷ []
address_bytes a b c d h =
    let x = be32 a b c d in
    let e : byte_at x 24 ≡ a = omega arith in
    let f : byte_at x 16 ≡ b = omega arith in
    let g : byte_at x 8 ≡ c = omega arith in
    let k : byte_at x 0 ≡ d = omega arith in rw (e, f, g, k) refl

module _ (ev : Evbuffer) (laws : IsReliable ev) (net : Inet) where
  header_at_lem : (s : Bytes) (i : ℕ) → header_at ev net s i ≡ get_or (take 7 s) i (net.junk i)
  unfolding header_at
  header_at_lem s i = rw (laws.copyout_lem s 7, header_at) refl

  -- Where the user ends.
  abbrev user_end : Bytes → ℕ
  user_end user = suc (suc (suc (suc (suc (suc (suc (length user)))))))

  read_head :
      (port a b c d : ℕ) (user rest : Bytes) (req : ParseReq)
      → IsU16 port
      → All (λ x. 0 < x) user
      → socks4_read_request ev net (request4 port a b c d user rest) req
        ≡ after_user ev net
            (request4 port a b c d user rest)
            port
            (be32 a b c d)
            (user_end user)
            req
  unfolding socks4_read_request
  read_head port a b c d user rest req fits clean =
      let s = request4 port a b c d user rest in
      let enough : ltb (length s) 7 ≡ false = ground arith in
      rw
        (
          enough,
          header_at_lem s 0,
          laws.search_lem s 0 7,
          find_end user rest clean,
          header_at_lem s 1,
          header_at_lem s 2,
          header_at_lem s 3,
          header_at_lem s 4,
          header_at_lem s 5,
          header_at_lem s 6,
          be16_bytes port fits,
        )
        refl

  -- The bytes up to the end of the user are drained.
  drained_user :
      (port a b c d : ℕ) (user rest : Bytes)
      → drained ev (request4 port a b c d user rest) (user_end user + 1) ≡ rest
  drained_user port a b c d user rest =
      let next : user_end user + 1 ≡ suc (user_end user) = omega arith in
      rw (laws.drain_lem (request4 port a b c d user rest) (user_end user + 1), drained, next)
        (drop_past user rest)

  remove_into_lem :
      (name rest addr : Bytes)
      → remove_into ev net (name ++ 0 ∷ rest) (length name) addr ≡ (0 ∷ rest, write_array addr name)
  remove_into_lem name rest addr =
      rw
        (
          laws.remove_lem (name ++ 0 ∷ rest) (length name),
          take-append name (0 ∷ rest),
          drop-append name (0 ∷ rest),
          remove_into,
        )
        refl

  take_name_lem :
      (name rest : Bytes) (req : ParseReq)
      → take_name ev net (name ++ 0 ∷ rest) (length name) req
        ≡ (good, rest, record req { addr = write_array req.addr (name ++ 0 ∷ []) })
  unfolding take_name
  take_name_lem name rest req =
      ap
        (λ (r : Bytes × Bytes).
          (good, drained ev r.0 1, record req { addr = terminate r.1 (length name) }))
        (remove_into_lem name rest req.addr)
      ∙ rw (laws.drain_lem (0 ∷ rest) 1, terminate-write_array name req.addr, drained) refl

  -- A whole SOCKS 4 request is taken from the buffer exactly, and its address and port are stored.
  pub socks4_read_request-request4 :
      (port a b c d : ℕ) (user text rest : Bytes) (req : ParseReq)
      → IsU16 port
      → All IsByte (a ∷ b ∷ c ∷ d ∷ [])
      → is_v4a (be32 a b c d) ≡ false
      → All (λ x. 0 < x) user
      → net.ntop inet (a ∷ b ∷ c ∷ d ∷ []) addr_size ≡ some text
      → socks4_read_request ev net (request4 port a b c d user rest) req ≡ (
        good,
        rest,
        record { af = inet; addr = write_array req.addr (text ++ 0 ∷ []); port = port },
      )
  unfolding after_user take_ipaddr
  socks4_read_request-request4 port a b c d user text rest req fits bytes plain clean e =
      let req' = record req { af = inet; port = port } in
      read_head port a b c d user rest req fits clean
      ∙ rw plain refl
      ∙ ap (λ (s : Bytes). take_ipaddr ev net s (be32 a b c d) req')
          (drained_user port a b c d user rest)
      ∙ rw (address_bytes a b c d bytes, e, take_ipaddr) refl

  -- A SOCKS 4a request, whose address is 0.0.0.d with d not 0, is taken from the buffer exactly with
  -- the name behind the user; the name and the port are stored.
  pub socks4_read_request-request4_name :
      (port d : ℕ) (user name rest : Bytes) (req : ParseReq)
      → IsU16 port
      → 0 < d
      → IsByte d
      → All (λ x. 0 < x) user
      → All (λ x. 0 < x) name
      → length name < addr_size
      → socks4_read_request ev net (request4 port 0 0 0 d user (name ++ 0 ∷ rest)) req ≡ (
        good,
        rest,
        record { af = inet; addr = write_array req.addr (name ++ 0 ∷ []); port = port },
      )
  unfolding after_user with_name
  socks4_read_request-request4_name port d user name rest req fits pos byte clean clean' room =
      let more = name ++ 0 ∷ rest in
      let s = request4 port 0 0 0 d user more in
      let next : user_end user + 1 ≡ suc (user_end user) = omega arith in
      let last : (user_end user == length s - 1) ≡ false =
        ground (arith, length-append user (0 ∷ more), length-append name (0 ∷ rest)) in
      let v4a : is_v4a (be32 0 0 0 d) ≡ true = ground arith in
      let found : find_from s 0 (user_end user + 1) ≡ some (user_end user + 1 + length name) =
        rw (next, find_past user more (length name) (find_end name rest clean'))
          (ap some (omega arith)) in
      let size : user_end user + 1 + length name - user_end user - 1 ≡ length name = omega arith in
      let fits' : leb addr_size (length name) ≡ false = ground arith in
      let req' = record req { af = inet; port = port } in
      read_head port 0 0 0 d user more req fits clean
      ∙ rw
          (
            v4a,
            last,
            laws.search_lem s 0 (user_end user + 1),
            found,
            after_user,
            size,
            fits',
            with_name,
          )
          refl
      ∙ ap (λ (s : Bytes). take_name ev net s (length name) req')
          (drained_user port 0 0 0 d user more)
      ∙ take_name_lem name rest req'
