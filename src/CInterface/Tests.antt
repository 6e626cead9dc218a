-- ===== src/CInterface/Tests.antt =====
-- A line that gives a byte at a time, and the theorems at concrete inputs.
use libcppio.Prelude.{
  ℕ, ◌+◌, ◌-◌, ◌^◌, ◌≤◌, ◌<◌, ◌≡◌, ◌≢◌, refl, List, [], ◌∷◌, ◌++◌, length, take, ◌==◌,
  if◌then◌else◌, arith,
}
use libcppio.Memory.{ok, to_u32, bytes_of_u32}
use libcppio.Line.{
  IoLine, Delivers, ErrorCode, connection_lost, Received, received, read_failed, accepted,
}
use libcppio.Message.{Message, empty_message}
use libcppio.Message.Wire.{encode, frame_bytes}
use libcppio.Message.RoundTrip.{Fits}
use libcppio.Protocol.{done}
use libcppio.CInterface.{
  cppio_messageprotocol_read, cppio_message_add, cppio_message_size, cppio_message_get_frame,
  cppio_message_get_frame_length,
}
use libcppio.CInterface.Results.{
  cppio_messageprotocol_read-encode, cppio_messageprotocol_read_cut, cppio_message_get-add,
}

abbrev give_one : List ℕ → Received × List ℕ
give_one [] = (read_failed connection_lost, [])
give_one (b ∷ bs) = (received (b ∷ []), bs)

abbrev one_byte : IoLine
one_byte = record {
  State = List ℕ;
  read = λ s n. give_one s;
  write = λ s bs. (accepted (length bs), s);
}

give_one_some :
    (s : List ℕ) (n : ℕ)
    → 0 < n
    → s ≢ []
    → (bs : List ℕ) × (s' : List ℕ) × (give_one s ≡ (received bs, s'))
      × (0 < length bs)
      × (length bs ≤ n)
      × (length bs < 2_147_483_648)
      × (s ≡ bs ++ s')
give_one_some [] n h ne = absurd (ne refl)
give_one_some (b ∷ bs) n h ne = (b ∷ [], bs, refl, omega arith, omega arith, omega arith, refl)

give_one_end :
    (s : List ℕ) (n : ℕ)
    → 0 < n
    → s ≡ []
    → (e : ErrorCode) × (s' : List ℕ) × (give_one s ≡ (read_failed e, s'))
give_one_end [] n h e = (connection_lost, [], refl)
give_one_end (b ∷ bs) n h e = cc

abbrev one_byte-Delivers : Delivers one_byte
one_byte-Delivers = record { pending = λ s. s; read_some = give_one_some; read_end = give_one_end }

abbrev hello : Message
hello = record { m_frames = record { m_data = 7 ∷ 8 ∷ [] } ∷ [] }

hello-Fits : Fits hello
hello-Fits = record {
  few = omega arith;
  frames = (record { short = omega arith; bytes = omega arith }, tt);
}

cppio_messageprotocol_read-encode_example :
    (s' : List ℕ) × (cppio_messageprotocol_read one_byte
        (1 ∷ 0 ∷ 0 ∷ 0 ∷ 2 ∷ 0 ∷ 0 ∷ 0 ∷ 7 ∷ 8 ∷ 9 ∷ [])
        empty_message
      ≡ done 1 (s', hello))
    × (s' ≡ 9 ∷ [])
unfolding encode frame_bytes bytes_of_u32 to_u32
cppio_messageprotocol_read-encode_example =
    cppio_messageprotocol_read-encode one_byte one_byte-Delivers
      (1 ∷ 0 ∷ 0 ∷ 0 ∷ 2 ∷ 0 ∷ 0 ∷ 0 ∷ 7 ∷ 8 ∷ 9 ∷ []) hello (9 ∷ []) hello-Fits refl

cppio_messageprotocol_read_cut_example :
    (result : ℕ) × (s' : List ℕ) × (m' : Message) × (cppio_messageprotocol_read one_byte
        (1 ∷ 0 ∷ 0 ∷ 0 ∷ 2 ∷ 0 ∷ 0 ∷ 0 ∷ 7 ∷ [])
        empty_message
      ≡ done result (s', m'))
    × (2 ^ 64 - 100 ≤ result)
unfolding encode frame_bytes bytes_of_u32 to_u32
cppio_messageprotocol_read_cut_example =
    cppio_messageprotocol_read_cut one_byte one_byte-Delivers
      (1 ∷ 0 ∷ 0 ∷ 0 ∷ 2 ∷ 0 ∷ 0 ∷ 0 ∷ 7 ∷ []) hello 8 [] hello-Fits refl

abbrev memory : List ℕ
memory = 1 ∷ 2 ∷ 3 ∷ []

cppio_message_get-add_example :
    (m' : Message) × (cppio_message_add hello memory 2 ≡ ok m')
    × (cppio_message_size m' ≡ cppio_message_size hello + 1)
    × ((i : ℕ)
        → cppio_message_get_frame m' i ≡ (
            if i == cppio_message_size hello
            then ok (take 2 memory)
            else cppio_message_get_frame hello i))
    × ((i : ℕ)
        → cppio_message_get_frame_length m' i ≡ (
            if i == cppio_message_size hello then ok 2 else cppio_message_get_frame_length hello i))
cppio_message_get-add_example = cppio_message_get-add hello memory 2 (omega arith)
