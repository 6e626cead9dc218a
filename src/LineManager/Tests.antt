-- ===== src/LineManager/Tests.antt =====
-- A manager whose makers log what they are given, and the theorem at a tcp address.
use libcppio.Prelude.{ℕ, ◌≡◌, refl, some, List, [], ◌∷◌, ◌++◌}
use libcppio.Manager.{object, io_exception, create_client}
use libcppio.LineManager.{Maker, create_line_manager}
use libcppio.LineManager.Routes.{of_tcp, named, create_client-create_line_manager}

abbrev logs : ℕ → Maker (List ℕ) ℕ ℕ
logs n = record {
  make_client = λ a w. (object n, n ∷ (a ++ w));
  make_server = λ a w. (io_exception, n ∷ (a ++ w));
}

create_client-create_line_manager_example :
    create_client
      (create_line_manager (logs 1) (logs 2) (logs 3))
      (b't' ∷ b'c' ∷ b'p' ∷ b':' ∷ b'/' ∷ b'/' ∷ 7 ∷ 8 ∷ [])
      []
    ≡ (object 3, 3 ∷ 7 ∷ 8 ∷ [])
create_client-create_line_manager_example =
    create_client-create_line_manager (logs 1) (logs 2) (logs 3) (b't' ∷ b'c' ∷ b'p' ∷ [])
      (7 ∷ 8 ∷ []) (some of_tcp) b':' b'/' b'/' [] (named of_tcp) (refl, (refl, (refl, tt))) refl
