-- ===== src/H02/Cursor.antt =====
-- binary.go: the cursor over a binary frame. A cursor is the bytes that are still to be read; the
-- index, which only the texts of the errors show, is left out.
use farbo_rastreamento.Prelude.{
  ℕ, zero, suc, ◌+◌, ◌*◌, ◌/◌, ◌%◌, Bool, ◌||◌, [], ◌∷◌, ltb, ◌==◌, if◌then◌else◌, length, drop,
  Result, ok, err, ◌>>=◌, ◌>>◌, fail_if,
}
use farbo_rastreamento.Prelude.Words.{Bytes, u32_at}
use farbo_rastreamento.Protocols.Floats.{FloatOps}
use farbo_rastreamento.Protocols.Calendar.{Time, date}
use farbo_rastreamento.Protocols.Imei.{ImeiError}

pub data BinaryError : Type 0 where
  end_of_frame : BinaryError
  bad_bcd_byte : ℕ → BinaryError
  bad_bcd_nibble : ℕ → BinaryError
  minutes_out_of_range : BinaryError
  short_status : BinaryError
  short_frame : ℕ → BinaryError
  short_id : BinaryError
  bad_id : ImeiError → BinaryError
  implausible_time : BinaryError
  coordinates_out_of_range : BinaryError
  course_out_of_range : BinaryError

-- A reading takes the bytes that are left, and leaves the rest of them.
abbrev pub Reading : Type 0 → Type 0
Reading A = Result BinaryError (A × Bytes)

unfoldable pub read_byte : Bytes → Reading ℕ
read_byte [] = err end_of_frame
read_byte (b ∷ bs) = ok (b, bs)

unfoldable pub peek_byte : Bytes → Result BinaryError ℕ
peek_byte [] = err end_of_frame
peek_byte (b ∷ bs) = ok b

-- Two digits from each of so many bytes, behind what has been read.
unfoldable pub read_pairs : ℕ → ℕ → Bytes → Reading ℕ
read_pairs zero result bs = ok (result, bs)
read_pairs (suc n) result [] = err end_of_frame
read_pairs (suc n) result (b ∷ bs) =
    let rest = read_pairs n ((result * 10 + b / 16) * 10 + b % 16) bs in
    if ltb 9 (b / 16) || ltb 9 (b % 16) then err (bad_bcd_byte b) else rest

-- The last digit of an odd number of them is in the high nibble of a byte that is not consumed.
unfoldable pub read_half : ℕ → Bytes → Reading ℕ
unfolding peek_byte
read_half result bs = do
  b ← peek_byte bs
  fail_if (ltb 9 (b / 16)) (bad_bcd_nibble (b / 16))
  ok (result * 10 + b / 16, bs)

unfoldable pub read_bcd : ℕ → Bytes → Reading ℕ
unfolding read_pairs read_half
read_bcd digits bs = do
  (result, rest) ← read_pairs (digits / 2) 0 bs
  if digits % 2 == 0 then ok (result, rest) else read_half result rest

unfoldable pub read_uint32 : Bytes → Reading ℕ
read_uint32 bs = do fail_if (ltb (length bs) 4) short_status; ok (u32_at bs, drop 4 bs)

-- The third digit of the degrees of a longitude, and the first digit of its minutes.
unfoldable pub read_shared : ℕ → Bytes → Reading (ℕ × ℕ)
unfolding peek_byte read_byte
read_shared degrees bs = do
  next ← peek_byte bs
  fail_if (ltb 9 (next / 16)) (bad_bcd_nibble (next / 16))
  (b, rest) ← read_byte bs
  fail_if (ltb 9 (b % 16)) (bad_bcd_nibble (b % 16))
  ok ((degrees * 10 + next / 16, b % 16), rest)

module _ {F : Type 0} ⦃fl : FloatOps F⦄ where
  -- The digits behind the first one of the minutes, and the value in degrees.
  unfoldable pub read_minutes : ℕ → F → ℕ → Bytes → Reading F
  unfolding read_bcd
  read_minutes degrees first digits bs = do
    (fraction, rest) ← read_bcd digits bs
    let minutes =
        fl.add (fl.mul first (fl.of_nat 10)) (fl.div (fl.of_nat fraction) (fl.of_nat 10000))
    fail_if (fl.le (fl.of_nat 60) minutes) minutes_out_of_range
    ok (fl.add (fl.of_nat degrees) (fl.div minutes (fl.of_nat 60)), rest)

  -- `readCoordinate`, of a latitude and of a longitude.
  unfoldable pub read_latitude : Bytes → Reading F
  unfolding read_minutes
  read_latitude bs = do (degrees, rest) ← read_bcd 2 bs; read_minutes degrees (fl.of_nat 0) 6 rest

  unfoldable pub read_longitude : Bytes → Reading F
  unfolding read_minutes read_shared
  read_longitude bs = do
    (degrees, rest) ← read_bcd 2 bs
    ((all_degrees, minute), rest') ← read_shared degrees rest
    read_minutes all_degrees (fl.of_nat minute) 5 rest'

-- Whether the fields of a time are out of range; every month has 31 days here.
abbrev pub is_implausible : ℕ → ℕ → ℕ → ℕ → ℕ → Bool
is_implausible hour minute second day month =
    ltb 23 hour
    || ltb 59 minute
    || ltb 59 second
    || ltb day 1
    || ltb 31 day
    || ltb month 1
    || ltb 12 month

unfoldable pub read_binary_time : Bytes → Reading Time
unfolding read_bcd date
read_binary_time bs = do
  (hour, bs1) ← read_bcd 2 bs
  (minute, bs2) ← read_bcd 2 bs1
  (second, bs3) ← read_bcd 2 bs2
  (day, bs4) ← read_bcd 2 bs3
  (month, bs5) ← read_bcd 2 bs4
  (year, bs6) ← read_bcd 2 bs5
  fail_if (is_implausible hour minute second day month) implausible_time
  ok (
    date (record {
      year = 2000 + year;
      month = month;
      day = day;
      hour = hour;
      minute = minute;
      second = second;
    }),
    bs6,
  )
