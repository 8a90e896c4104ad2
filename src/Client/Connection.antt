-- ===== src/Client/Connection.antt =====
-- One command over the client's connections: `SecureOfferClient`, `connect`, `exchange` and `command`
-- of src/clipboard/secure_transfer.rs. What the network answers is a `Link`.
pub mod Served
use clip_ferry.Common.{
  ℕ, ◌+◌, ◌%◌, ◌^◌, Bool, true, false, Option, none, some, List, [], ◌∷◌, ◌++◌, length, ◌==◌, ◌&&◌,
  if◌then◌else◌,
}
use clip_ferry.Common.Result.{IoResult, ok, err, ok_or, guard, ◌>>=◌, ◌>>◌, invalid_data, other}
use clip_ferry.Wire.Code.{Opcode, opcode_as_u16, response_opcode, hello, read_range}
use clip_ferry.Wire.Frame.{Frame, read_frame, write_frame}
use clip_ferry.Server.Connection.{hello_role_receiver}

-- What a command meets: the result of the TLS connection, the random bytes for its hello, and the
-- bytes that come back for what is sent.
pub record Link : Type 0 where
  pub dial : IoResult (Unit {0})
  pub random : Option (List ℕ)
  pub hello_answer : List ℕ → List ℕ
  pub answer : List ℕ → List ℕ

-- A slot has the bytes of its connection that were received and not read yet.
pub record SecureOfferClient : Type 0 where
  pub next_request_id : ℕ
  pub control : Option (List ℕ)
  pub data_connection : Option (List ℕ)

-- `next_request_id.fetch_add(1, Relaxed)`
abbrev pub next_id : SecureOfferClient → SecureOfferClient
next_id c = record c { next_request_id = (c.next_request_id + 1) % 2 ^ 64 }

-- Sends a frame, and reads the one that answers it.
unfoldable pub round_trip : Frame → List ℕ → (List ℕ → List ℕ) → IoResult (Frame × List ℕ)
round_trip f pending network = do sent ← write_frame [] f; read_frame (pending ++ network sent)

-- The payload of the response, and what is left on the connection.
unfoldable pub exchange :
    ℕ → Opcode → List ℕ → List ℕ → (List ℕ → List ℕ) → IoResult (List ℕ × List ℕ)
exchange request_id opcode payload pending network = do
  (response, rest) ←
      round_trip
        (record { opcode = opcode_as_u16 opcode; request_id = request_id; payload = payload })
        pending network
  guard ((response.opcode == response_opcode opcode) && (response.request_id == request_id))
      invalid_data
  ok (response.payload, rest)

-- The hello on a connection that has been made.
unfoldable pub shake_hands : Link → ℕ → IoResult (List ℕ)
shake_hands link hello_id = do
  random ← ok_or link.random other
  (response, rest) ←
      round_trip
        (record {
          opcode = opcode_as_u16 hello;
          request_id = hello_id;
          payload = hello_role_receiver ∷ random;
        })
        [] (link.hello_answer)
  guard
      ((response.opcode == response_opcode hello)
        && ((response.request_id == hello_id) && (length response.payload == 32)))
      invalid_data
  ok rest

unfoldable pub connect : Link → SecureOfferClient → SecureOfferClient × IoResult (List ℕ)
connect link c = elim link.dial [
  | ok u ↦ (next_id c, shake_hands link c.next_request_id)
  | err e ↦ (c, err e)
]

unfoldable pub is_read_range : Opcode → Bool
is_read_range o = opcode_as_u16 o == opcode_as_u16 read_range

-- `ReadRange` has a connection of its own.
unfoldable pub slot : Opcode → SecureOfferClient → Option (List ℕ)
slot o c = if is_read_range o then c.data_connection else c.control

unfoldable pub set_slot : Opcode → Option (List ℕ) → SecureOfferClient → SecureOfferClient
set_slot o connection c =
    if is_read_range o
    then record c { data_connection = connection }
    else record c { control = connection }

-- A connection on which an exchange has failed is closed.
unfoldable pub after_exchange :
    Opcode → SecureOfferClient → IoResult (List ℕ × List ℕ) → SecureOfferClient × IoResult (List ℕ)
after_exchange o c (ok (payload, rest)) = (set_slot o (some rest) c, ok payload)
after_exchange o c (err e) = (set_slot o none c, err e)

unfoldable pub on_connection :
    Link
    → Opcode
    → List ℕ
    → SecureOfferClient × IoResult (List ℕ)
    → SecureOfferClient × IoResult (List ℕ)
on_connection link o payload (c, ok pending) =
    after_exchange o (next_id c) (exchange c.next_request_id o payload pending link.answer)
on_connection link o payload (c, err e) = (c, err e)

unfoldable pub command :
    Link → Opcode → List ℕ → SecureOfferClient → SecureOfferClient × IoResult (List ℕ)
command link o payload c =
    on_connection link o payload
      (elim (slot o c) [ some pending ↦ (c, ok pending) | none ↦ connect link c ])
