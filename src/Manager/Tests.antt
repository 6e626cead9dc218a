-- ===== src/Manager/Tests.antt =====
-- Two factories, and the theorems at concrete addresses.
use libcppio.Prelude.{ℕ, ◌≡◌, refl, Bool, false, List, [], ◌∷◌, ◌++◌, arith, ◌==◌}
use libcppio.Manager.{
  object, null, io_exception, other_exception, IoLineFactory, create_client, create_server,
}
use libcppio.Manager.Dispatch.{create-first, create_client_escapes, create_client_null}

abbrev is_tcp : List ℕ → Bool
is_tcp (x ∷ y ∷ []) = x == b't'
is_tcp _ = false

abbrev is_local : List ℕ → Bool
is_local (x ∷ []) = x == b'l'
is_local _ = false

-- Each logs the address that it is given; the first makes every client, the second throws.
abbrev tcp : IoLineFactory (List ℕ) ℕ ℕ
tcp = record {
  supports_scheme = is_tcp;
  create_client = λ a w. (object 1, a ++ w);
  create_server = λ a w. (object 2, a ++ w);
}

abbrev local : IoLineFactory (List ℕ) ℕ ℕ
local = record {
  supports_scheme = is_local;
  create_client = λ a w. (io_exception, a ++ w);
  create_server = λ a w. (null, a ++ w);
}

create-first_example :
    (create_client (tcp ∷ local ∷ []) (b'l' ∷ b':' ∷ b'/' ∷ b'/' ∷ 7 ∷ []) [] ≡ (null, 7 ∷ []))
    × (create_server (tcp ∷ local ∷ []) (b'l' ∷ b':' ∷ b'/' ∷ b'/' ∷ 7 ∷ []) [] ≡ (null, 7 ∷ []))
create-first_example =
    create-first (List ℕ) ℕ ℕ (tcp ∷ []) [] local (b'l' ∷ []) (7 ∷ []) b':' b'/' b'/' [] (refl, tt)
      refl (refl, tt) refl

create_client_escapes_example :
    create_client (tcp ∷ local ∷ []) (b'l' ∷ b':' ∷ 7 ∷ []) [] ≡ (other_exception, [])
create_client_escapes_example =
    create_client_escapes (List ℕ) ℕ ℕ (tcp ∷ []) [] local (b'l' ∷ []) (7 ∷ []) b':' [] (refl, tt)
      refl (omega arith) (refl, tt) refl

create_client_null_example :
    (create_client (tcp ∷ []) (b'l' ∷ []) [] ≡ (null, []))
    × (create_client (tcp ∷ []) (b'l' ∷ b'/' ∷ 7 ∷ []) [] ≡ (null, []))
create_client_null_example =
    create_client_null (List ℕ) ℕ ℕ (tcp ∷ []) (b'l' ∷ []) (7 ∷ []) b'/' [] (refl, tt) refl
      (refl, tt)
