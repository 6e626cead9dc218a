-- ===== src/Manager/Dispatch.antt =====
-- Which factory an address goes to, and what it is given.
use libcppio.Prelude.{
  ℕ, ◌+◌, ◌<◌, ◌≡◌, refl, sym, ap, ◌∙◌, true, false, none, some, List, [], ◌∷◌, ◌++◌, length, take,
  drop, All, arith, length-append, take-append, drop-append, drop-drop, append-nil, le→leb,
  lt→not-leb,
}
use libcppio.Manager.{
  Created, null, other_exception, IoLineFactory, in_delimiter, find_first_of, substr_from, caught,
  with_base, dispatch, create_client, create_server,
}

abbrev pub IsPlain : ℕ → Type 0
IsPlain c = in_delimiter c ≡ false

find_first_of-append :
    (scheme rest : List ℕ) (d : ℕ)
    → All IsPlain scheme
    → in_delimiter d ≡ true
    → find_first_of (scheme ++ (d ∷ rest)) ≡ some (length scheme)
unfolding find_first_of
find_first_of-append [] rest d plain h = rw h
find_first_of-append (c ∷ scheme) rest d plain h =
    rw (plain.0) (rw (find_first_of-append scheme rest d plain.1 h))

find_first_of-none : (s : List ℕ) → All IsPlain s → find_first_of s ≡ none
unfolding find_first_of
find_first_of-none [] plain = refl
find_first_of-none (c ∷ s) plain = rw (plain.0) (rw (find_first_of-none s plain.1))

module _ (World Line Acceptor : Type 0) where
  abbrev pub Factory : Type 0
  Factory = IoLineFactory World Line Acceptor

  abbrev pub Rejects : List ℕ → Factory → Type 0
  Rejects scheme f = f.supports_scheme scheme ≡ false

  dispatch-append :
      {A : Type 0} (create : Factory → List ℕ → World → Created A × World)
      (before after : List Factory) (address : List ℕ) (n : ℕ) (w : World)
      → All (Rejects (take n address)) before
      → dispatch create (before ++ after) address n w ≡ dispatch create after address n w
  unfolding dispatch
  dispatch-append create [] after address n w h = refl
  dispatch-append create (f ∷ before) after address n w h =
      rw (h.0) (dispatch-append create before after address n w h.1)

  dispatch-accepts :
      {A : Type 0} (create : Factory → List ℕ → World → Created A × World) (f : Factory)
      (after : List Factory) (address : List ℕ) (n : ℕ) (w : World)
      → f.supports_scheme (take n address) ≡ true
      → dispatch create (f ∷ after) address n w ≡ with_base address n (create f) w
  unfolding dispatch
  dispatch-accepts create f after address n w h = rw h

  with_base_enough :
      {A : Type 0} (create : List ℕ → World → Created A × World) (scheme base : List ℕ) (d x y : ℕ)
      (w : World)
      → with_base (scheme ++ (d ∷ x ∷ y ∷ base)) (length scheme) create w ≡ caught (create base w)
  unfolding with_base
  with_base_enough create scheme base d x y w = rw (found, with_base)
    where
      address : List ℕ
      address = scheme ++ (d ∷ x ∷ y ∷ base)

      behind : drop (length scheme + 3) address ≡ base
      behind =
          sym (drop-drop 3 (length scheme) address)
          ∙ ap (drop 3) (drop-append scheme (d ∷ x ∷ y ∷ base) {n = length scheme} refl)

      found : substr_from address (length scheme + 3) ≡ some base
      found =
          unfold substr_from in
          (rw
            (le→leb (length scheme + 3) (length address)
              (omega (arith, length-append scheme (d ∷ x ∷ y ∷ base))))
            (ap some behind))

  with_base_short :
      {A : Type 0} (create : List ℕ → World → Created A × World) (scheme tail : List ℕ) (w : World)
      → length tail < 3
      → with_base (scheme ++ tail) (length scheme) create w ≡ (other_exception, w)
  unfolding with_base
  with_base_short create scheme tail w short = rw (none_left, with_base)
    where
      none_left : substr_from (scheme ++ tail) (length scheme + 3) ≡ none
      none_left =
          unfold substr_from in
          rw (
            lt→not-leb (length scheme + 3) (length (scheme ++ tail))
              (omega (arith, length-append scheme tail)))

  scheme_of : (scheme rest : List ℕ) → take (length scheme) (scheme ++ rest) ≡ scheme
  scheme_of scheme rest = take-append scheme rest {n = length scheme} refl

  -- The first factory that supports the scheme is asked.
  routed :
      {A : Type 0} (create : Factory → List ℕ → World → Created A × World)
      (before after : List Factory) (f : Factory) (scheme rest : List ℕ) (w : World)
      → All (Rejects scheme) before
      → f.supports_scheme scheme ≡ true
      → dispatch create (before ++ (f ∷ after)) (scheme ++ rest) (length scheme) w
        ≡ with_base (scheme ++ rest) (length scheme) (create f) w
  routed create before after f scheme rest w rejected accepts =
      dispatch-append create before (f ∷ after) (scheme ++ rest) (length scheme) w
        (rw (scheme_of scheme rest) rejected)
      ∙ dispatch-accepts create f after (scheme ++ rest) (length scheme) w
          (rw (scheme_of scheme rest) accepts)

  -- An address is a scheme without ':' and '/', one of these two characters, two characters that are
  -- not looked at, and the base address. The first registered factory that supports the scheme is
  -- given the base address; an IoException that it throws becomes null. This is so for clients and
  -- for servers.
  pub create-first :
      (before after : List Factory) (f : Factory) (scheme base : List ℕ) (d x y : ℕ) (w : World)
      → All IsPlain scheme
      → in_delimiter d ≡ true
      → All (Rejects scheme) before
      → f.supports_scheme scheme ≡ true
      → (create_client (before ++ (f ∷ after)) (scheme ++ (d ∷ x ∷ y ∷ base)) w
          ≡ caught (f.create_client base w))
        × (create_server (before ++ (f ∷ after)) (scheme ++ (d ∷ x ∷ y ∷ base)) w
            ≡ caught (f.create_server base w))
  unfolding create_client create_server
  create-first before after f scheme base d x y w plain hd rejected accepts = (
    rw (found, create_client)
        (routed (λ g. g.create_client) before after f scheme (d ∷ x ∷ y ∷ base) w rejected accepts
          ∙ with_base_enough f.create_client scheme base d x y w),
    rw (found, create_server)
        (routed (λ g. g.create_server) before after f scheme (d ∷ x ∷ y ∷ base) w rejected accepts
          ∙ with_base_enough f.create_server scheme base d x y w),
  )
    where
      found : find_first_of (scheme ++ (d ∷ x ∷ y ∷ base)) ≡ some (length scheme)
      found = find_first_of-append scheme (x ∷ y ∷ base) d plain hd

  -- If fewer than two characters follow the first ':' or '/', and some registered factory supports
  -- the scheme before it, then `createClient` lets an exception escape that is no IoException.
  pub create_client_escapes :
      (before after : List Factory) (f : Factory) (scheme tail : List ℕ) (d : ℕ) (w : World)
      → All IsPlain scheme
      → in_delimiter d ≡ true
      → length tail < 2
      → All (Rejects scheme) before
      → f.supports_scheme scheme ≡ true
      → create_client (before ++ (f ∷ after)) (scheme ++ (d ∷ tail)) w ≡ (other_exception, w)
  unfolding create_client
  create_client_escapes before after f scheme tail d w plain hd short rejected accepts =
      rw (find_first_of-append scheme tail d plain hd, create_client)
        (routed (λ g. g.create_client) before after f scheme (d ∷ tail) w rejected accepts
          ∙ with_base_short f.create_client scheme (d ∷ tail) w (omega arith))

  -- Without ':' and '/' in the address, or without a factory for its scheme, the result is null and
  -- no factory is asked to make anything.
  pub create_client_null :
      (factories : List Factory) (scheme rest : List ℕ) (d : ℕ) (w : World)
      → All IsPlain scheme
      → in_delimiter d ≡ true
      → All (Rejects scheme) factories
      → (create_client factories scheme w ≡ (null, w))
        × (create_client factories (scheme ++ (d ∷ rest)) w ≡ (null, w))
  unfolding create_client
  create_client_null factories scheme rest d w plain hd rejected = (
    rw (find_first_of-none scheme plain, create_client),
    rw (find_first_of-append scheme rest d plain hd, create_client)
        (ap
            (λ fs.
              dispatch (λ (g : Factory). g.create_client) fs (scheme ++ (d ∷ rest)) (length scheme)
                w)
            (sym (append-nil factories))
          ∙ dispatch-append (λ g. g.create_client) factories [] (scheme ++ (d ∷ rest))
              (length scheme) w (rw (scheme_of scheme (d ∷ rest)) rejected)
          ∙ unfold dispatch in refl),
  )
