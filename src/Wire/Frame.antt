-- ===== src/Wire/Frame.antt =====
-- Frames of the secure protocol: `write_frame`, `read_frame` and `read_frame_optional` of
-- src/clipboard/secure_transfer.rs. A connection is the bytes that it will still deliver before
-- it closes; what is written is appended to the bytes sent so far.
pub mod RoundTrip
pub mod Reject
use clip_ferry.Common.{
  ℕ, ◌-◌, ◌*◌, ◌^◌, ◌<◌, Option, none, some, List, [], ◌∷◌, ◌++◌, length, take, drop, leb, ltb,
  ◌==◌, bytes_eq, All,
}
use clip_ferry.Common.Bytes.{IsByte, to_be_bytes, from_be_bytes, field_at}
use clip_ferry.Common.Result.{IoResult, ok, guard, ok_or, ◌>>=◌, ◌>>◌, invalid_data, unexpected_eof}
use clip_ferry.Wire.Code.{WireResult, invalid}

-- b"CFS4"
abbrev pub magic : List ℕ
magic = b'C' ∷ b'F' ∷ b'S' ∷ b'4' ∷ []

abbrev pub protocol_version : ℕ
protocol_version = 2

abbrev pub frame_header_len : ℕ
frame_header_len = 20

abbrev pub max_frame_payload : ℕ
max_frame_payload = 1024 * 1024

unfoldable pub array_at_io : ℕ → List ℕ → ℕ → IoResult (List ℕ)
array_at_io n bytes start = ok_or (field_at n bytes start) invalid_data

unfoldable pub array_at : ℕ → List ℕ → ℕ → WireResult (List ℕ)
array_at n bytes start = ok_or (field_at n bytes start) invalid

pub record Frame : Type 0 where
  pub opcode : ℕ
  pub request_id : ℕ
  pub payload : List ℕ

-- The ranges of the fields' types.
pub record IsFrame (f : Frame) : Type 0 where
  pub opcode_u16 : f.opcode < 256 ^ 2
  pub request_id_u64 : f.request_id < 256 ^ 8
  pub payload_u8 : All IsByte f.payload

-- The header array, field by field.
unfoldable pub frame_header : Frame → ℕ → List ℕ
frame_header f payload_length =
    magic
    ++ (to_be_bytes 2 protocol_version
        ++ (to_be_bytes 2 f.opcode
            ++ (to_be_bytes 8 f.request_id ++ (to_be_bytes 4 payload_length ++ []))))

unfoldable pub write_frame : List ℕ → Frame → IoResult (List ℕ)
unfolding frame_header
write_frame sent f = do
  guard (leb (length f.payload) max_frame_payload) invalid_data
  guard (ltb (length f.payload) (256 ^ 4)) invalid_data
  ok ((sent ++ frame_header f (length f.payload)) ++ f.payload)

-- `read_exact` fills a buffer of `n` bytes or fails.
unfoldable pub read_exact : ℕ → List ℕ → IoResult (List ℕ × List ℕ)
read_exact n stream = do
  guard (leb n (length stream)) unexpected_eof
  ok (take n stream, drop n stream)

-- What is checked of a full header: magic, version, then the fields and the payload's length.
unfoldable pub read_header : List ℕ → IoResult (ℕ × ℕ × ℕ)
unfolding array_at_io
read_header header = do
  guard (bytes_eq (take 4 header) magic) invalid_data
  version ← array_at_io 2 header 4
  guard (from_be_bytes version == protocol_version) invalid_data
  opcode ← array_at_io 2 header 6
  request_id ← array_at_io 8 header 8
  payload_length ← array_at_io 4 header 16
  guard (leb (from_be_bytes payload_length) max_frame_payload) invalid_data
  ok (from_be_bytes opcode, from_be_bytes request_id, from_be_bytes payload_length)

-- The frame with the bytes that follow it; `none` where the connection closed between frames.
unfoldable pub read_frame_optional : List ℕ → IoResult (Option Frame × List ℕ)
read_frame_optional [] = ok (none, [])
read_frame_optional (first ∷ stream) = do
  (tail, stream') ← read_exact (frame_header_len - 1) stream
  (opcode, request_id, payload_length) ← read_header (first ∷ tail)
  (payload, rest) ← read_exact payload_length stream'
  ok (some (record { opcode = opcode; request_id = request_id; payload = payload }), rest)

unfoldable pub read_frame : List ℕ → IoResult (Frame × List ℕ)
read_frame stream = do
  (frame, rest) ← read_frame_optional stream
  frame' ← ok_or frame unexpected_eof
  ok (frame', rest)
