-- ===== src/Gt06/Frame/RoundTrip.antt =====
-- frame.go: what `buildFrame` lays out, `NextFrame` separates and `decodeFrame` reads back.
use mathlib.Core.List.{append_assoc}
use farbo_rastreamento.Prelude.{
  ℕ, ◌+◌, ◌-◌, ◌^◌, ◌≤◌, ◌<◌, ◌≡◌, refl, sym, ap, ◌∙◌, [], ◌∷◌, ◌++◌, arith, length, length-append,
  get_or, get_or_beyond, take_seam, take_all, drop, drop_seam, slice, ok,
}
use farbo_rastreamento.Prelude.Words.{Bytes, to_byte, u16_bytes, u16_round_trip}
use farbo_rastreamento.Protocols.Framing.{framed}
use farbo_rastreamento.Gt06.Frame.{
  start_short, stop_cr, stop_lf, frame_body, build_frame, crc_itu, decode_frame, header_size,
  read_packet, next_frame, index_of_start, index_from, at_start, close_frame, frame_length,
}

crc_itu-lt : (bs : Bytes) → crc_itu bs < 2 ^ 16
unfolding crc_itu
crc_itu-lt bs = omega arith

module _ (typ : ℕ) (content : Bytes) (serial : ℕ) where
  abbrev inner : Bytes
  inner = frame_body typ content serial

  abbrev tail_bytes : Bytes
  tail_bytes = u16_bytes (crc_itu inner) ++ (stop_cr ∷ stop_lf ∷ [])

  abbrev payload : ℕ → Bytes
  payload sum = typ ∷ (content ++ (u16_bytes serial ++ u16_bytes sum))

  length-payload : (sum : ℕ) → length (payload sum) ≡ 5 + length content
  length-payload sum = omega (arith, length-append content (u16_bytes serial ++ u16_bytes sum))

  -- A body laid out as `buildFrame` does is taken apart into the packet.
  read_packet-payload :
      (sum : ℕ)
      → sum < 2 ^ 16
      → serial < 2 ^ 16
      → read_packet (payload sum) sum
        ≡ ok (record { typ = typ; content = content; serial = serial })
  unfolding read_packet
  read_packet-payload sum hs hn =
      let n = length (payload sum) in
      let size : n ≡ 5 + length content = length-payload sum in
      let crc : drop (n - 2) (payload sum) ≡ u16_bytes sum =
        ap (drop (n - 2)) (sym (append_assoc (typ ∷ content) (u16_bytes serial) (u16_bytes sum)))
        ∙ drop_seam (n - 2) (typ ∷ (content ++ u16_bytes serial)) (u16_bytes sum)
            (omega (arith, length-append content (u16_bytes serial))) in
      let cut : slice 1 (n - 4) (payload sum) ≡ content =
        take_seam (n - 4 - 1) content (u16_bytes serial ++ u16_bytes sum) (omega arith) in
      let num : drop (n - 4) (payload sum) ≡ u16_bytes serial ++ u16_bytes sum =
        drop_seam (n - 4) (typ ∷ content) (u16_bytes serial ++ u16_bytes sum) (omega arith) in
      ground (arith, crc, cut, num, u16_round_trip sum, u16_round_trip serial)

  pub length-build_frame : length (build_frame typ content serial) ≡ 10 + length content
  unfolding build_frame
  length-build_frame = omega (
    arith,
    length-append content (u16_bytes serial),
    length-append (content ++ u16_bytes serial) tail_bytes,
  )

  -- The frame is a payload between three leading bytes and the stop bytes.
  frame-payload :
      build_frame typ content serial
      ≡ start_short
        ∷ start_short
        ∷ to_byte (1 + length content + 2 + 2)
        ∷ (payload (crc_itu inner) ++ (stop_cr ∷ stop_lf ∷ []))
  unfolding build_frame
  frame-payload = simp append_assoc

  body_cut :
      slice 3 (length (build_frame typ content serial) - 2) (build_frame typ content serial)
      ≡ payload (crc_itu inner)
  body_cut =
      let size = length-build_frame in
      let n = length (build_frame typ content serial) - 2 in
      ap (slice 3 n) frame-payload
      ∙ take_seam (n - 3) (payload (crc_itu inner)) (stop_cr ∷ stop_lf ∷ [])
          (omega (arith, size, length-payload (crc_itu inner)))

  checked_cut :
      slice 2 (length (build_frame typ content serial) - 4) (build_frame typ content serial) ≡ inner
  unfolding build_frame
  checked_cut =
      take_seam _ inner tail_bytes
        (omega (arith, length-append (content ++ u16_bytes serial) tail_bytes))

  starts_short : get_or (build_frame typ content serial) 0 0 ≡ start_short
  unfolding build_frame
  starts_short = refl

  -- `decodeFrame` reads back the type, the content and the serial number of every frame that
  -- `buildFrame` makes with a 16-bit serial number.
  pub decode_frame-build_frame :
      serial < 2 ^ 16
      → decode_frame (build_frame typ content serial)
        ≡ ok (record { typ = typ; content = content; serial = serial })
  unfolding decode_frame
  decode_frame-build_frame hn = ground (
    arith,
    starts_short,
    body_cut,
    checked_cut,
    length-build_frame,
    read_packet-payload (crc_itu inner) (crc_itu-lt inner) hn,
  )

  -- `NextFrame` separates a built frame whole and consumes it, if the content is of 250 bytes at
  -- most, so that the length fits in its one byte.
  pub build_frame-framed :
      length content ≤ 250
      → next_frame (build_frame typ content serial)
        ≡ framed (build_frame typ content serial) (length (build_frame typ content serial))
  unfolding next_frame index_of_start index_from at_start close_frame frame_length header_size
  build_frame-framed h =
      let sum = crc_itu inner in
      let stop = stop_cr ∷ stop_lf ∷ [] in
      let whole =
        start_short ∷ start_short ∷ to_byte (1 + length content + 2 + 2) ∷ (payload sum ++ stop) in
      let size = length-payload sum in
      rw frame-payload (
        ground (
          arith,
          size,
          length-append (payload sum) stop,
          get_or_beyond (5 + length content) 0 (payload sum) stop 0,
          get_or_beyond (6 + length content) 1 (payload sum) stop 0,
          take_all (length whole) whole,
        ))
