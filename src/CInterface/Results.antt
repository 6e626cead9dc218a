-- ===== src/CInterface/Results.antt =====
-- What a caller of the functions of src/cppio_c.cpp sees.
use libcppio.Prelude.{
  ℕ, ◌+◌, ◌-◌, ◌^◌, ◌≤◌, ◌≡◌, refl, ap, ◌∙◌, List, [], ◌∷◌, ◌++◌, length, take, length-take,
  length-append, Bool, true, false, ◌==◌, if◌then◌else◌, arith,
}
use libcppio.Memory.{Outcome, ok, length_error, out_of_fuel, out_of_bounds, load}
use libcppio.Line.{
  ErrorCode, timeout, connection_lost, too_big_buffer, unknown, magnitude, error_value, IoLine,
  Delivers,
}
use libcppio.Message.{Message, Frame, size, empty_message, add_frame, frame}
use libcppio.Message.Wire.{encode}
use libcppio.Message.RoundTrip.{Fits}
use libcppio.Message.Values.{frame-add_frame}
use libcppio.Protocol.{done}
use libcppio.Protocol.Cut.{receive_cut}
use libcppio.Protocol.Receive.{receive-encode}
use libcppio.CInterface.{
  to_size, sized, cppio_messageprotocol_read, cppio_message_add, cppio_message_size,
  cppio_message_get_frame, cppio_message_get_frame_length,
}

-- A negative result below 2^63 in size becomes a `size_t` of 2^63 or more.
to_size-error : (e : ErrorCode) → to_size (error_value e) ≡ 2 ^ 64 - magnitude e
unfolding to_size magnitude
to_size-error timeout = refl
to_size-error connection_lost = refl
to_size-error too_big_buffer = refl
to_size-error unknown = refl

module _ (line : IoLine) (d : Delivers line) where
  open line use {State}
  open d use {pending}

  -- `cppio_messageprotocol_read` on a line that delivers bytes: a whole message that is to come is
  -- read, and the result is 1.
  pub cppio_messageprotocol_read-encode :
      (s : State) (m : Message) (rest : List ℕ)
      → Fits m
      → pending s ≡ encode m ++ rest
      → (s' : State) × (cppio_messageprotocol_read line s empty_message ≡ done 1 (s', m))
        × (pending s' ≡ rest)
  unfolding cppio_messageprotocol_read
  cppio_messageprotocol_read-encode s m rest fits come =
      let (s', e, left) = receive-encode line d s m rest fits come in (s', ap sized e, left)

  -- If what is to come is a proper front part of a message, the error that `readMessage` returns
  -- becomes a large number: `cppio_messageprotocol_read` returns at least 2^64 - 100.
  pub cppio_messageprotocol_read_cut :
      (s : State) (m : Message) (x : ℕ) (back : List ℕ)
      → Fits m
      → encode m ≡ pending s ++ (x ∷ back)
      → (result : ℕ) × (s' : State) × (m' : Message) × (cppio_messageprotocol_read line s
            empty_message
          ≡ done result (s', m'))
        × (2 ^ 64 - 100 ≤ result)
  unfolding cppio_messageprotocol_read magnitude
  cppio_messageprotocol_read_cut s m x back fits e =
      let (code, s', m', h) = receive_cut line d s m x back fits e in
      (
        2 ^ 64 - magnitude code,
        s',
        m',
        ap sized h ∙ ap (λ n. done n (s', m')) (to_size-error code),
        large code,
      )
    where
      large : (code : ErrorCode) → 2 ^ 64 - 100 ≤ 2 ^ 64 - magnitude code
      large timeout = omega arith
      large connection_lost = omega arith
      large too_big_buffer = omega arith
      large unknown = omega arith

ap_if {ℓ κ} :
    {A : Type ℓ} {B : Type κ} (f : A → B) (t : Bool) (a b : A)
    → f (if t then a else b) ≡ (if t then f a else f b)
ap_if f true a b = refl
ap_if f false a b = refl

-- `cppio_message_add` of the first bytes of memory that has as many: the message has one part more,
-- these bytes, of the length that was given, and at every other index the part that it had.
pub cppio_message_get-add :
    (m : Message) (buffer : List ℕ) (n : ℕ)
    → n ≤ length buffer
    → (m' : Message) × (cppio_message_add m buffer n ≡ ok m')
      × (cppio_message_size m' ≡ cppio_message_size m + 1)
      × ((i : ℕ)
          → cppio_message_get_frame m' i ≡ (
              if i == cppio_message_size m
              then ok (take n buffer)
              else cppio_message_get_frame m i))
      × ((i : ℕ)
          → cppio_message_get_frame_length m' i
            ≡ (if i == cppio_message_size m then ok n else cppio_message_get_frame_length m i))
unfolding cppio_message_add cppio_message_size cppio_message_get_frame
    cppio_message_get_frame_length load
cppio_message_get-add m buffer n h = (
  add_frame m f,
  ground arith,
  unfold add_frame in omega (arith, length-append m.m_frames (f ∷ [])),
  λ i. ap bytes (frame-add_frame m f i) ∙ ap_if bytes (i == size m) (ok f) (frame m i),
  λ i.
      ap measured (frame-add_frame m f i)
      ∙ ap_if measured (i == size m) (ok f) (frame m i)
      ∙ ap (λ k. if i == size m then ok k else measured (frame m i)) measure,
)
  where
    f : Frame
    f = record { m_data = take n buffer }

    measure : length (take n buffer) ≡ n
    measure = omega (arith, length-take n buffer)

    bytes : Outcome Frame → Outcome (List ℕ)
    bytes r = elim r [
      | ok g ↦ ok g.m_data
      | length_error ↦ length_error
      | out_of_bounds ↦ out_of_bounds
      | out_of_fuel ↦ out_of_fuel
    ]

    measured : Outcome Frame → Outcome ℕ
    measured r = elim r [
      | ok g ↦ ok (length g.m_data)
      | length_error ↦ length_error
      | out_of_bounds ↦ out_of_bounds
      | out_of_fuel ↦ out_of_fuel
    ]
