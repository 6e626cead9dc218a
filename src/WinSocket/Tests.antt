-- ===== src/WinSocket/Tests.antt =====
-- A Winsock with one stream, and the theorems at concrete inputs.
use libcppio.Prelude.{
  ℕ, suc, ◌≡◌, ◌<◌, ◌≤◌, ◌≢◌, refl, sym, ap, ◌∙◌, Bool, true, false, Option, none, some, List, [],
  ◌∷◌, ◌++◌, length, take, ◌==◌, if◌then◌else◌, inr, arith,
}
use mathlib.Core.Option.{some-injective}
use libcppio.Prelude.Int.{pos}
use libcppio.Memory.{bytes_of_u32, to_u32}
use libcppio.Message.{Message, empty_message}
use libcppio.Message.Wire.{encode, frame_bytes}
use libcppio.Message.RoundTrip.{Fits}
use libcppio.Manager.{object, io_exception}
use libcppio.Protocol.{receive, send, returned}
use libcppio.WinSocket.{Winsock, other_error, win_line, create_win_client, create_win_server}
use libcppio.WinSocket.Streams.{StreamIn, StreamOut, win_receive-send}
use libcppio.WinSocket.Handles.{Handles, EndsWith, created-open}

-- Bytes to come and bytes gone, one at a time; which sockets are open; whether an address is in use.
pub record World : Type 0 where
  pub coming : List ℕ
  pub gone : List ℕ
  pub sockets : ℕ → Bool
  pub in_use : Bool

abbrev recv_one : List ℕ → World → Option (List ℕ) × World
recv_one [] k = (some [], k)
recv_one (b ∷ bs) k = (some (b ∷ []), record k { coming = bs })

abbrev send_one : List ℕ → World → Option ℕ × World
send_one [] k = (none, k)
send_one (b ∷ bs) k = (some 1, record k { gone = k.gone ++ (b ∷ []) })

abbrev open_three : World → World
open_three k = record k { sockets = λ h. if h == 3 then true else k.sockets h }

abbrev small_winsock : Winsock
small_winsock = record {
  Kernel = World;
  last_error = λ k. other_error;
  startup = λ k. k;
  cleanup = λ k. k;
  socket = λ k. (some 3, open_three k);
  connect = λ fd name k. (true, k);
  bind = λ fd name k. (if k.in_use then false else true, k);
  listen = λ fd backlog k. (true, k);
  accept = λ fd k. (none, k);
  recv = λ fd n k. recv_one k.coming k;
  send = λ fd bs n k. send_one bs k;
  set_timeout = λ fd option limit k. k;
  reuse_address = λ fd k. (true, k);
  closesocket = λ fd k. record k { sockets = λ h. if h == fd then false else k.sockets h };
  inet_addr = λ host. 0;
  port_of = λ port. 0;
}

come :
    (c : List ℕ) (k : World) (n : ℕ)
    → 0 < n
    → c ≢ []
    → (b : ℕ) × (bs : List ℕ) × (k' : World) × (recv_one c k ≡ (some (b ∷ bs), k'))
      × (length (b ∷ bs) ≤ n)
      × (c ≡ (b ∷ bs) ++ k'.coming)
come [] k n h ne = absurd (ne refl)
come (b ∷ c) k n h ne = (b, [], record k { coming = c }, refl, omega arith, refl)

go :
    (k : World) (bs : List ℕ)
    → bs ≢ []
    → (n : ℕ) × (k' : World) × (send_one bs k ≡ (some (suc n), k'))
      × (suc n ≤ length bs)
      × (k'.gone ≡ k.gone ++ take (suc n) bs)
go k [] ne = absurd (ne refl)
go k (b ∷ bs) ne = (0, record k { gone = k.gone ++ (b ∷ []) }, refl, omega arith, refl)

abbrev small_in : StreamIn small_winsock 3
small_in = record {
  pending = λ k. k.coming;
  some_come = λ k n pos_n small ne. come k.coming k n pos_n ne;
  none_come = λ k n pos_n small e. (some [], k, ap (λ c. recv_one c k) e, inr refl);
}

abbrev small_out : StreamOut small_winsock 3
small_out = record { sent = λ k. k.gone; some_go = λ k bs ne small. go k bs ne }

opens :
    (k k' : World) (fd h : ℕ)
    → small_winsock.socket k ≡ (some fd, k')
    → k'.sockets h ≡ (if h == fd then true else k.sockets h)
opens k k' fd h e =
    ap (λ (r : Option ℕ × World). r.1.sockets h) (sym e)
    ∙ ap (λ n. if h == n then true else k.sockets h) (some-injective 3 fd (ap (λ r. r.0) e))

abbrev small_handles : Handles small_winsock
small_handles = record {
  is_open = λ k h. k.sockets h;
  opened = opens;
  connected = λ fd name k h. refl;
  bound = λ fd name k h. refl;
  listening = λ fd n k h. refl;
  reused = λ fd k h. refl;
  closed = λ fd k h. refl;
}

abbrev short_message : Message
short_message = record { m_frames = record { m_data = 7 ∷ [] } ∷ [] }

short_message-Fits : Fits short_message
short_message-Fits = record {
  few = omega arith;
  frames = (record { short = omega arith; bytes = omega arith }, tt);
}

-- The message is to come, and two bytes behind it; the address is in use.
abbrev busy : World
busy = record {
  coming = 1 ∷ 0 ∷ 0 ∷ 0 ∷ 1 ∷ 0 ∷ 0 ∷ 0 ∷ 7 ∷ 8 ∷ 9 ∷ [];
  gone = 5 ∷ [];
  sockets = λ h. false;
  in_use = true;
}

win_receive-send_example :
    (k' : World) × (k'' : World) × (receive (win_line small_winsock 3) busy empty_message
      ≡ returned (pos 1) (k', short_message))
    × (k'.coming ≡ 8 ∷ 9 ∷ [])
    × (send (win_line small_winsock 3) (length (encode short_message)) k' short_message
        ≡ returned (pos 1) k'')
    × (k''.gone ≡ k'.gone ++ encode short_message)
unfolding encode frame_bytes bytes_of_u32 to_u32
win_receive-send_example =
    win_receive-send small_winsock 3 small_in small_out busy short_message short_message
      (8 ∷ 9 ∷ []) short_message-Fits (omega arith) refl (omega arith)

-- A server at an address in use is not made, and its socket stays open.
created-open_example :
    EndsWith small_winsock small_handles busy 3
      (create_win_client small_winsock (b'h' ∷ []) busy)
      (object (record { m_socket = 3; m_address = b'h' ∷ [] }))
      true
    × EndsWith small_winsock small_handles busy 3
        (create_win_server small_winsock (b'h' ∷ []) busy)
        io_exception
        true
created-open_example =
    created-open small_winsock small_handles busy (open_three busy) 3 (b'h' ∷ []) refl true true
      false true (open_three busy) (open_three busy) (open_three busy) (open_three busy) refl refl
      refl refl
