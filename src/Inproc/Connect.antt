-- ===== src/Inproc/Connect.antt =====
-- What accepting a connection does: InprocAcceptor::waitConnection and the constructor of
-- InprocLine that it calls, in src/common/inproc.cpp.
use libcppio.Prelude.{
  ℕ, ◌+◌, ◌≡◌, ◌≢◌, refl, ap, ◌∙◌, false, some, List, [], ◌∷◌, ◌++◌, length, get_elem?, All, arith,
}
use libcppio.Prelude.Int.{ℤ, pos}
use libcppio.Inproc.{InprocLine, Hub, fresh_queue, accept_line, scan, connected, wait_connection}
use libcppio.Inproc.Store.{
  address_equal, address_equal_refl, replace_at, length-replace_at, get_elem?-replace_at,
  get_elem?-front, get_elem?-behind, get_elem?-bound,
}

-- Two lines of a hub that are the ends of one connection: what either writes the other reads.
pub record Joined (h : Hub) (client server : ℕ) : Type 0 where
  pub client_line : InprocLine
  pub server_line : InprocLine
  pub up : ℕ
  pub down : ℕ
  pub client_there : get_elem? h.lines client ≡ some client_line
  pub server_there : get_elem? h.lines server ≡ some server_line
  pub client_writes : client_line.m_out ≡ some up
  pub server_reads : server_line.m_in ≡ some up
  pub server_writes : server_line.m_out ≡ some down
  pub client_reads : client_line.m_in ≡ some down
  pub two_ways : up ≢ down
  pub up_fresh : get_elem? h.queues up ≡ some fresh_queue
  pub down_fresh : get_elem? h.queues down ≡ some fresh_queue

-- A waiting line with another address.
abbrev pub Elsewhere : List InprocLine → List ℕ → ℕ → Type 0
Elsewhere lines address j =
    (line : InprocLine) × (get_elem? lines j ≡ some line)
    × (address_equal line.m_address address ≡ false)

scan-first :
    (lines : List InprocLine) (before after : List ℕ) (i : ℕ) (line : InprocLine)
    → All (Elsewhere lines line.m_address) before
    → get_elem? lines i ≡ some line
    → scan lines line.m_address (before ++ (i ∷ after)) ≡ some (i, line, before ++ after)
unfolding scan
scan-first lines [] after i line others e = rw (scan, e, address_equal_refl line.m_address)
scan-first lines (j ∷ before) after i line ((other, ej, differs), others) e =
    rw (scan, ej, differs, scan-first lines before after i line others e)

accept_line-Joined :
    (h : Hub) (i : ℕ) (line : InprocLine)
    → get_elem? h.lines i ≡ some line
    → Joined (accept_line h i line).0 i (accept_line h i line).1
unfolding accept_line
accept_line-Joined h i line e = record {
  client_line = client_end;
  server_line = server_end;
  up = m_in;
  down = m_out;
  client_there =
      get_elem?-front i (replace_at i client_end h.lines) (server_end ∷ [])
        (omega (arith, length-replace_at i client_end h.lines, get_elem?-bound i h.lines line e))
      ∙ get_elem?-replace_at i client_end h.lines (get_elem?-bound i h.lines line e);
  server_there =
      get_elem?-behind (replace_at i client_end h.lines) (server_end ∷ []) (length h.lines) 0
        (omega (arith, length-replace_at i client_end h.lines));
  client_writes = refl;
  server_reads = refl;
  server_writes = refl;
  client_reads = refl;
  two_ways = λ p. absurd (omega arith);
  up_fresh = get_elem?-behind h.queues (fresh_queue ∷ fresh_queue ∷ []) m_in 0 (omega arith);
  down_fresh = get_elem?-behind h.queues (fresh_queue ∷ fresh_queue ∷ []) m_out 1 refl;
}
  where
    m_in : ℕ
    m_in = length h.queues

    m_out : ℕ
    m_out = length h.queues + 1

    client_end : InprocLine
    client_end = record line { m_out = some m_in; m_in = some m_out }

    server_end : InprocLine
    server_end = record {
      m_address = line.m_address;
      m_in = some m_in;
      m_out = some m_out;
      m_read_timeout = pos 0;
    }

-- When a client waits in the connect queue and those before it have other addresses, a turn of
-- `waitConnection` for its address connects it, whatever time is left: the client and the new line
-- share two new queues, crossed, and the client leaves the connect queue, the others keep their order.
pub wait_connection-first :
    (h : Hub) (before after : List ℕ) (i : ℕ) (line : InprocLine) (left : ℤ)
    → h.connect_queue ≡ before ++ (i ∷ after)
    → All (Elsewhere h.lines line.m_address) before
    → get_elem? h.lines i ≡ some line
    → (s : ℕ) × (h' : Hub) × (wait_connection h line.m_address left ≡ (connected s, h'))
      × Joined h' i s
      × (h'.connect_queue ≡ before ++ after)
unfolding wait_connection
wait_connection-first h before after i line left q others e =
    let h1 : Hub = record h { connect_queue = before ++ after } in
    (
      (accept_line h1 i line).1,
      (accept_line h1 i line).0,
      rw
          (
            wait_connection,
            ap (scan h.lines line.m_address) q ∙ scan-first h.lines before after i line others e,
          )
          refl,
      accept_line-Joined h1 i line e,
      unfold accept_line in refl,
    )
