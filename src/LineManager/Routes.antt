-- ===== src/LineManager/Routes.antt =====
-- Which factory a manager of src/posix/createlinemanager.cpp gives an address to.
use mathlib.Core.Bool.{false≢true}
use libcppio.Inproc.Store.{address_equal}
use libcppio.Prelude.{
  ℕ, ◌≡◌, ◌≢◌, refl, ap₂, ◌∙◌, Option, none, some, arith, Bool, true, false, List, [], ◌∷◌, ◌++◌,
  All, if◌then◌else◌,
}
use libcppio.Manager.{
  Created, null, caught, in_delimiter, create_client, register_factory, IoLineFactory,
}
use libcppio.Manager.Dispatch.{IsPlain, create-first, create_client_null}
use libcppio.Inproc
use libcppio.Socket.Open.{local_supports_scheme, tcp_supports_scheme}
use libcppio.LineManager.{Maker, factory, create_line_manager}

-- The kinds of lines, and the names of their schemes.
pub data Kind : Type 0 where
  of_inproc of_local of_tcp : Kind

abbrev pub name_of : Kind → List ℕ
name_of of_inproc = b'i' ∷ b'n' ∷ b'p' ∷ b'r' ∷ b'o' ∷ b'c' ∷ []
name_of of_local = b'l' ∷ b'o' ∷ b'c' ∷ b'a' ∷ b'l' ∷ []
name_of of_tcp = b't' ∷ b'c' ∷ b'p' ∷ []

-- A scheme is the name of a kind, or of none.
pub data Names : List ℕ → Option Kind → Type 0 where
  named : (kind : Kind) → Names (name_of kind) (some kind)
  unnamed : {scheme : List ℕ} → ((kind : Kind) → scheme ≢ name_of kind) → Names scheme none

address_equal-eq : (cs ds : List ℕ) → address_equal cs ds ≡ true → cs ≡ ds
unfolding address_equal
address_equal-eq [] [] e = refl
address_equal-eq [] (d ∷ ds) e = absurd (false≢true e)
address_equal-eq (c ∷ cs) [] e = absurd (false≢true e)
address_equal-eq (c ∷ cs) (d ∷ ds) e =
    let both : (c ≡ d) × (address_equal cs ds ≡ true) = ground arith in
    ap₂ ◌∷◌ both.0 (address_equal-eq cs ds both.1)

local-name : (scheme : List ℕ) → local_supports_scheme scheme ≡ true → scheme ≡ name_of of_local
unfolding local_supports_scheme
local-name [] h = absurd (false≢true h)
local-name (a ∷ []) h = absurd (false≢true h)
local-name (a ∷ b ∷ []) h = absurd (false≢true h)
local-name (a ∷ b ∷ c ∷ []) h = absurd (false≢true h)
local-name (a ∷ b ∷ c ∷ d ∷ []) h = absurd (false≢true h)
local-name (a ∷ b ∷ c ∷ d ∷ e ∷ []) h =
    let letters : (a ≡ b'l') × (b ≡ b'o') × (c ≡ b'c') × (d ≡ b'a') × (e ≡ b'l') = ground arith in
    let (ea, eb, ec, ed, ee) = letters in rw (ea, eb, ec, ed, ee) refl
local-name (a ∷ b ∷ c ∷ d ∷ e ∷ f ∷ fs) h = absurd (false≢true h)

tcp-name : (scheme : List ℕ) → tcp_supports_scheme scheme ≡ true → scheme ≡ name_of of_tcp
unfolding tcp_supports_scheme
tcp-name [] h = absurd (false≢true h)
tcp-name (a ∷ []) h = absurd (false≢true h)
tcp-name (a ∷ b ∷ []) h = absurd (false≢true h)
tcp-name (a ∷ b ∷ c ∷ []) h =
    let letters : (a ≡ b't') × (b ≡ b'c') × (c ≡ b'p') = ground arith in
    let (ea, eb, ec) = letters in rw (ea, eb, ec) refl
tcp-name (a ∷ b ∷ c ∷ d ∷ ds) h = absurd (false≢true h)

not_true : (b : Bool) → b ≢ true → b ≡ false
not_true true h = absurd (h refl)
not_true false h = refl

by_supports_scheme :
    {World Line Acceptor : Type 0} (inproc local tcp : Maker World Line Acceptor)
    (scheme base : List ℕ) (d x y : ℕ) (w : World)
    → All IsPlain scheme
    → in_delimiter d ≡ true
    → create_client (create_line_manager inproc local tcp) (scheme ++ (d ∷ x ∷ y ∷ base)) w ≡ (
        if Inproc.supports_scheme scheme
        then caught (inproc.make_client base w)
        else (if local_supports_scheme scheme
            then caught (local.make_client base w)
            else (if tcp_supports_scheme scheme
                then caught (tcp.make_client base w)
                else (null, w))))
unfolding create_line_manager register_factory factory
by_supports_scheme {World} {Line} {Acceptor} inproc local tcp scheme base d x y w plain hd =
    by_scheme (Inproc.supports_scheme scheme) (local_supports_scheme scheme)
      (tcp_supports_scheme scheme) refl refl refl
  where
    Factory : Type 0
    Factory = IoLineFactory World Line Acceptor

    first : Factory
    first = factory Inproc.supports_scheme inproc

    second : Factory
    second = factory local_supports_scheme local

    third : Factory
    third = factory tcp_supports_scheme tcp

    by_scheme :
        (i l t : Bool)
        → Inproc.supports_scheme scheme ≡ i
        → local_supports_scheme scheme ≡ l
        → tcp_supports_scheme scheme ≡ t
        → create_client (first ∷ second ∷ third ∷ []) (scheme ++ (d ∷ x ∷ y ∷ base)) w ≡ (
            if i
            then caught (inproc.make_client base w)
            else (if l
                then caught (local.make_client base w)
                else (if t then caught (tcp.make_client base w) else (null, w))))
    by_scheme true l t ei el et =
        (create-first World Line Acceptor [] (second ∷ third ∷ []) first scheme base d x y w plain
          hd tt ei).0
    by_scheme false true t ei el et =
        (create-first World Line Acceptor (first ∷ []) (third ∷ []) second scheme base d x y w plain
          hd (ei, tt) el).0
    by_scheme false false true ei el et =
        (create-first World Line Acceptor (first ∷ second ∷ []) [] third scheme base d x y w plain
          hd (ei, (el, tt)) et).0
    by_scheme false false false ei el et =
        (create_client_null World Line Acceptor (first ∷ second ∷ third ∷ []) scheme (x ∷ y ∷ base)
          d w plain hd (ei, (el, (et, tt)))).1

-- What the makers of a kind make of a base address, and that nothing is made for no kind.
abbrev pub made :
    {World Line Acceptor : Type 0}
    → (inproc local tcp : Maker World Line Acceptor) → Option Kind
    → List ℕ
    → World
    → Created Line × World
made inproc local tcp (some of_inproc) base w = caught (inproc.make_client base w)
made inproc local tcp (some of_local) base w = caught (local.make_client base w)
made inproc local tcp (some of_tcp) base w = caught (tcp.make_client base w)
made inproc local tcp none base w = (null, w)

-- An address of a scheme without ':' and '/', one of these two, two characters that are not looked at,
-- and the base address: the client is made by the inproc factory for the scheme "inproc", by that of
-- local sockets for "local", by that of tcp sockets for "tcp", from the base address, and an
-- IoException becomes null; for any other scheme the result is null and nothing is made.
pub create_client-create_line_manager :
    {World Line Acceptor : Type 0} (inproc local tcp : Maker World Line Acceptor)
    (scheme base : List ℕ) (kind : Option Kind) (d x y : ℕ) (w : World)
    → Names scheme kind
    → All IsPlain scheme
    → in_delimiter d ≡ true
    → create_client (create_line_manager inproc local tcp) (scheme ++ (d ∷ x ∷ y ∷ base)) w
      ≡ made inproc local tcp kind base w
unfolding Inproc.supports_scheme local_supports_scheme tcp_supports_scheme address_equal
create_client-create_line_manager inproc local tcp scheme base kind d x y w (named of_inproc) plain
      hd =
    by_supports_scheme inproc local tcp scheme base d x y w plain hd
create_client-create_line_manager inproc local tcp scheme base kind d x y w (named of_local) plain
      hd =
    by_supports_scheme inproc local tcp scheme base d x y w plain hd
create_client-create_line_manager inproc local tcp scheme base kind d x y w (named of_tcp) plain
      hd =
    by_supports_scheme inproc local tcp scheme base d x y w plain hd
create_client-create_line_manager inproc local tcp scheme base kind d x y w (unnamed other) plain
      hd =
    by_supports_scheme inproc local tcp scheme base d x y w plain hd
    ∙ rw
        (
          not_true (Inproc.supports_scheme scheme)
              (λ e. other of_inproc (address_equal-eq scheme (name_of of_inproc) e)),
          not_true (local_supports_scheme scheme) (λ e. other of_local (local-name scheme e)),
          not_true (tcp_supports_scheme scheme) (λ e. other of_tcp (tcp-name scheme e)),
        )
        refl
