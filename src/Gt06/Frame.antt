-- ===== src/Gt06/Frame.antt =====
-- frame.go: the CRC, the separation of frames in the stream, and their layout.
pub mod RoundTrip
pub mod Honours
pub mod Contract
use farbo_rastreamento.Prelude.{
  ℕ, zero, suc, ◌+◌, ◌-◌, ◌/◌, ◌%◌, bit_xor, Bool, not, ◌&&◌, ◌||◌, Option, none, some, List, [],
  ◌∷◌, ◌++◌, ltb, ◌==◌, if◌then◌else◌, length, get_or, take, drop, slice, Result, ok, err, ◌>>=◌,
  ◌>>◌, fail_if,
}
use farbo_rastreamento.Prelude.Words.{Bytes, to_byte, u16_bytes, u16_at}
use farbo_rastreamento.Protocols.Framing.{
  FramingError, no_start, discarded, bad_length, bad_stop, Framed, wait, junk, framed,
}

abbrev pub start_short : ℕ
start_short = 0x78

abbrev pub start_long : ℕ
start_long = 0x79

abbrev pub stop_cr : ℕ
stop_cr = 0x0D

abbrev pub stop_lf : ℕ
stop_lf = 0x0A

abbrev pub max_frame_length : ℕ
max_frame_length = 4096

abbrev is_start : ℕ → Bool
is_start b = b == start_short || b == start_long

-- One round of the inner loop of `crcITU`, the loop, and the loop over the bytes. A uint16 is
-- complemented by taking it from 0xFFFF.
crc_bit : ℕ → ℕ
crc_bit crc = if not (crc % 2 == 0) then bit_xor (crc / 2) 0x8408 else crc / 2

crc_bits : ℕ → ℕ → ℕ
unfolding crc_bit
crc_bits zero crc = crc
crc_bits (suc rounds) crc = crc_bits rounds (crc_bit crc)

crc_bytes : ℕ → Bytes → ℕ
unfolding crc_bits
crc_bytes crc [] = crc
crc_bytes crc (b ∷ bs) = crc_bytes (crc_bits 8 (bit_xor crc b)) bs

unfoldable pub crc_itu : Bytes → ℕ
unfolding crc_bytes
crc_itu bs = 0xFFFF - crc_bytes 0xFFFF bs

-- The loop of `indexOfStart`, from index `i`; -1 is `none`.
pub index_from : ℕ → Bytes → Option ℕ
index_from i (a ∷ b ∷ bs) = if is_start a && b == a then some i else index_from (suc i) (b ∷ bs)
index_from i _ = none

index_of_start : Bytes → Option ℕ
unfolding index_from
index_of_start = index_from 0

-- The case without a delimiter: the last byte may be the first half of one.
kept : Bytes → ℕ
kept buf = let n = length buf in if ltb 0 n && is_start (get_or buf (n - 1) 0) then 1 else 0

without_start : Bytes → Framed
unfolding kept
without_start buf =
    if length buf == kept buf
    then wait
    else junk (length buf - kept buf) (no_start (length buf - kept buf))

pub header_size : ℕ → ℕ
header_size b = if b == start_long then 4 else 3

-- The length field, one byte or two.
pub frame_length : Bytes → ℕ
frame_length buf = if get_or buf 0 0 == start_long then u16_at (slice 2 4 buf) else get_or buf 2 0

-- The checks once the whole frame of `total` bytes is in the buffer.
pub close_frame : Bytes → ℕ → Framed
close_frame buf total =
    let cr = get_or buf (total - 2) 0 in
    let lf = get_or buf (total - 1) 0 in
    if not (cr == stop_cr) || not (lf == stop_lf)
    then junk 2 (bad_stop cr lf)
    else framed (take total buf) total

-- The buffer starts with a delimiter.
pub at_start : Bytes → Framed
unfolding header_size frame_length close_frame
at_start buf =
    let header = header_size (get_or buf 0 0) in
    let len = frame_length buf in
    let total = header + len + 2 in
    if ltb (length buf) header
    then wait
    else if ltb len 5 || ltb max_frame_length len
    then junk 2 (bad_length len)
    else if ltb (length buf) total
    then wait
    else close_frame buf total

split_at : Bytes → Option ℕ → Framed
unfolding without_start at_start
split_at buf none = without_start buf
split_at buf (some zero) = at_start buf
split_at buf (some (suc k)) = junk (suc k) (discarded (suc k))

unfoldable pub next_frame : Bytes → Framed
unfolding split_at index_of_start
next_frame buf = split_at buf (index_of_start buf)

pub record Packet : Type 0 where
  pub typ : ℕ
  pub content : Bytes
  pub serial : ℕ

pub data FrameError : Type 0 where
  short_frame : ℕ → FrameError
  short_body : ℕ → FrameError
  bad_crc : ℕ → ℕ → FrameError

-- The second half of `decodeFrame`: `body` is checked against the CRC `got` and taken apart.
read_packet : Bytes → ℕ → Result FrameError Packet
read_packet body got = do
  let n = length body
  fail_if (ltb n 5) (short_body n)
  let want = u16_at (drop (n - 2) body)
  fail_if (not (want == got)) (bad_crc want got)
  ok (record {
    typ = get_or body 0 0;
    content = slice 1 (n - 4) body;
    serial = u16_at (slice (n - 4) (n - 2) body);
  })

-- `decodeFrame`: the CRC covers the length field up to the serial number.
unfoldable pub decode_frame : Bytes → Result FrameError Packet
unfolding header_size read_packet
decode_frame frame = do
  let size = length frame
  fail_if (ltb size 9) (short_frame size)
  read_packet (slice (header_size (get_or frame 0 0)) (size - 2) frame)
      (crc_itu (slice 2 (size - 4) frame))

-- What `buildFrame` puts between the delimiters and the CRC.
abbrev frame_body : ℕ → Bytes → ℕ → Bytes
frame_body typ content serial =
    to_byte (1 + length content + 2 + 2) ∷ typ ∷ (content ++ u16_bytes serial)

unfoldable pub build_frame : ℕ → Bytes → ℕ → Bytes
build_frame typ content serial =
    let body = frame_body typ content serial in
    start_short ∷ start_short ∷ (body ++ (u16_bytes (crc_itu body) ++ (stop_cr ∷ stop_lf ∷ [])))
