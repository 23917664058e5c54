-- ===== src/Gt06/Simulate/RoundTrip.antt =====
-- Both ends of the GT06 conversation read what the other end wrote.
use farbo_rastreamento.Prelude.{
  ℕ, ◌+◌, ◌^◌, ◌≤◌, ◌<◌, ◌≡◌, Bool, true, false, [], ◌∷◌, arith, length, length-append, take_seam,
  slice, ok, >>=-eq-ok, refl,
}
use farbo_rastreamento.Prelude.Words.{Bytes, u32_at, u32_round_trip}
use farbo_rastreamento.Protocols.Floats.{FloatOps}
use farbo_rastreamento.Protocols.Calendar.{CivilTime}
use farbo_rastreamento.Protocols.Message.{Command, TrackerMessage, empty_message, command_ack}
use farbo_rastreamento.Gt06.Frame.{Packet, build_frame}
use farbo_rastreamento.Gt06.Frame.RoundTrip.{decode_frame-build_frame}
use farbo_rastreamento.Gt06.Parse.{
  text_length, parse, parse_packet, start_message, decode_command_reply,
}
use farbo_rastreamento.Gt06.Decode.{decode_reply_text}
use farbo_rastreamento.Gt06.Encode.{
  flagged_text, encode_command, encode_text, command_text, safe_custom, next_serial,
}
use farbo_rastreamento.Gt06.Simulate.{build_command_reply, decode_server_command}

-- The flag, the stated length and the text, read back from the content of a packet.
module _ (flag : ℕ) (text : Bytes) (fits : length text ≤ 251) where
  text_length-flagged : text_length (flagged_text flag text) ≡ length text + 4
  unfolding text_length
  text_length-flagged = ground (arith, length-append text (0x00 ∷ 0x02 ∷ []))

  flag-flagged : flag < 2 ^ 32 → u32_at (slice 1 5 (flagged_text flag text)) ≡ flag
  flag-flagged h = u32_round_trip flag h

  text-flagged : slice 5 (1 + text_length (flagged_text flag text)) (flagged_text flag text) ≡ text
  text-flagged = take_seam _ text (0x00 ∷ 0x02 ∷ []) (omega (arith, text_length-flagged))

  -- A 0x80 frame as the server builds it gives the tracker the flag and the text.
  decode_server_command-build_frame :
      (serial : ℕ)
      → flag < 2 ^ 32
      → serial < 2 ^ 16
      → decode_server_command (build_frame 0x80 (flagged_text flag text) serial) ≡ ok (flag, text)
  unfolding decode_server_command
  decode_server_command-build_frame serial hf hs = ground (
    arith,
    decode_frame-build_frame 0x80 (flagged_text flag text) serial hs,
    flag-flagged hf,
    text-flagged,
    length-append text (0x00 ∷ 0x02 ∷ []),
  )

-- What the checks let through, and the frame that they give.
encode_text-ok :
    (counter key : ℕ) (text : Bytes) {frame : Bytes}
    → encode_text counter key text ≡ ok frame
    → (safe_custom text ≡ true)
      × (length text ≤ 200)
      × (frame ≡ build_frame 0x80 (flagged_text key text) (next_serial counter))
unfolding encode_text
encode_text-ok counter key text h = ground arith

-- Whatever command with a 32-bit key `EncodeCommand` accepts, the tracker reads from the frame the
-- correlation key of the command and its text, and the text is printable.
pub encode_command-decode_server_command :
    (counter : ℕ) (cmd : Command) {frame : Bytes}
    → cmd.correlation_key < 2 ^ 32
    → encode_command counter cmd ≡ ok frame
    → (text : Bytes) × (command_text cmd ≡ ok text)
      × (safe_custom text ≡ true)
      × (decode_server_command frame ≡ ok (cmd.correlation_key, text))
unfolding encode_command
encode_command-decode_server_command counter cmd hk h =
    let (text, e, rest) =
      >>=-eq-ok (command_text cmd) (encode_text counter cmd.correlation_key) h in
    let (safe, fits, built) = encode_text-ok counter cmd.correlation_key text rest in
    (
      text,
      e,
      safe,
      rw built (
          decode_server_command-build_frame cmd.correlation_key text (omega arith)
            (next_serial counter) hk (omega arith)),
    )

module _ {F : Type 0} ⦃fl : FloatOps F⦄ where
  decode_command_reply-flagged :
      (msg : TrackerMessage F) (flag : ℕ) (text : Bytes) (serial : ℕ)
      → flag < 2 ^ 32
      → length text ≤ 251
      → decode_command_reply msg
          (record { typ = 0x15; content = flagged_text flag text; serial = serial })
        ≡ ok (record msg { correlation_key = flag; response = decode_reply_text text })
  unfolding decode_command_reply
  decode_command_reply-flagged msg flag text serial hf ht = ground (
    arith,
    flag-flagged flag text ht hf,
    text-flagged flag text ht,
    length-append text (0x00 ∷ 0x02 ∷ []),
  )

  -- From the reply of a tracker, with a 32-bit flag, a text of 251 bytes at most and a 16-bit
  -- serial number, the server reads one message without a location: the answer to a command, with
  -- that flag as its key and the decoded text.
  pub parse-build_command_reply :
      (ack_gps : Bool) (now : CivilTime) (flag : ℕ) (text : Bytes) (serial : ℕ)
      → flag < 2 ^ 32
      → length text ≤ 251
      → serial < 2 ^ 16
      → (msg : TrackerMessage F) × (parse ack_gps now (build_command_reply flag text serial)
          ≡ ok (msg ∷ []))
        × (msg.kind ≡ command_ack)
        × (msg.correlation_key ≡ flag)
        × (msg.response ≡ decode_reply_text text)
        × (msg.has_location ≡ false)
  unfolding parse build_command_reply parse_packet start_message empty_message
  parse-build_command_reply ack_gps now flag text serial hf ht hs =
      let frame = build_command_reply flag text serial in
      let pkt : Packet = record { typ = 0x15; content = flagged_text flag text; serial = serial } in
      let start = record (start_message {F = F} frame pkt) { kind = command_ack } in
      (
        record start { correlation_key = flag; response = decode_reply_text text },
        rw (decode_frame-build_frame 0x15 (flagged_text flag text) serial hs)
            (rw (decode_command_reply-flagged start flag text serial hf ht)),
        refl,
        refl,
        refl,
        refl,
      )
