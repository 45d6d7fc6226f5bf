-- ===== src/Entry/Dates.antt =====
-- Dates on the disk and `S_DecodeTimestamp` (source/entry.cxx).
use prodosfs.Base.{
  ℕ, zero, suc, ◌+◌, ◌-◌, ◌*◌, ◌/◌, ◌%◌, ◌^◌, ◌≤◌, ◌<◌, ◌≡◌, refl, ◌∙◌, Bool, true, false, ◌||◌,
  bit_and, ◌==◌, if◌then◌else◌, arith, bit_or, List, [], ◌∷◌, length, length-append, get_or, All,
  ltb, Bool-cases, inl, inr,
}
use prodosfs.Base.Text.{decimal}
use prodosfs.Base.Text.Lengths.{length-pad_left, length-decimal}
use prodosfs.Disk.Blocks.{load-IsByte}
use prodosfs.Base.Bits.{every, every_pair-at, bit_or-bytes}
use prodosfs.Disk.{Disk, Ptr, plus, load, le_read16}
use prodosfs.Entry.{Timestamp, decode_timestamp, months, two_digits, as_string}

-- A date of seven bits of year, four of month and five of day, and a time of five bits of hour and six of
-- minute.
pub record Fits (t : Timestamp) : Type 0 where
  pub years : t.year < 128
  pub months : t.month < 16
  pub days : t.day < 32
  pub hours : t.hour < 32
  pub minutes : t.minute < 64

-- The four bytes of a date and time at a place on the disk, by the ProDOS format.
pub record Holds (d : Disk) (p : Ptr) (t : Timestamp) : Type 0 where
  pub date_low : load d p ≡ (t.month * 32 + t.day) % 256
  pub date_high : load d (plus p 1) ≡ t.year * 2 + t.month / 8
  pub time_minute : load d (plus p 2) ≡ t.minute
  pub time_hour : load d (plus p 3) ≡ t.hour

-- The masks take the date apart.
abbrev parts_test : ℕ → ℕ → Bool
parts_test high low =
    let date = high * 256 + low in
    if bit_and date 0b1111_1110_0000_0000 / 2 ^ 9 == high / 2
    then (if bit_and date 0b0000_0001_1110_0000 / 2 ^ 5 == high % 2 * 8 + low / 32
        then bit_and date 0b0000_0000_0001_1111 == low % 32
        else false)
    else false

parts_table : every (λ high. every (parts_test high) 256) 256 ≡ true
unfolding every
parts_table = refl

date_parts :
    (high low : ℕ)
    → high < 256
    → low < 256
    → (bit_and (high * 256 + low) 0b1111_1110_0000_0000 / 2 ^ 9 ≡ high / 2)
      × (bit_and (high * 256 + low) 0b0000_0001_1110_0000 / 2 ^ 5 ≡ high % 2 * 8 + low / 32)
      × (bit_and (high * 256 + low) 0b0000_0000_0001_1111 ≡ low % 32)
date_parts high low hh hl =
    let e = every_pair-at parts_test high low hh hl parts_table in ground (arith, e)

-- The other two masks, of a byte.
abbrev time_test : ℕ → ℕ → Bool
time_test hour minute =
    if bit_and hour 0b0001_1111 == hour % 32
    then bit_and minute 0b0011_1111 == minute % 64
    else false

time_table : every (λ hour. every (time_test hour) 256) 256 ≡ true
unfolding every
time_table = refl

time_parts :
    (hour minute : ℕ)
    → hour < 256
    → minute < 256
    → (bit_and hour 0b0001_1111 ≡ hour % 32) × (bit_and minute 0b0011_1111 ≡ minute % 64)
time_parts hour minute hh hm =
    let e = every_pair-at time_test hour minute hh hm time_table in ground (arith, e)

Timestamp-eq :
    {t u : Timestamp}
    → t.year ≡ u.year
    → t.month ≡ u.month
    → t.day ≡ u.day
    → t.hour ≡ u.hour
    → t.minute ≡ u.minute
    → t ≡ u
Timestamp-eq a b c e f = cc

-- A date written in the ProDOS format is read back as it was, for every date and time that fits the
-- format.
pub decode_timestamp-Holds :
    (d : Disk) (p : Ptr) (t : Timestamp) → Fits t → Holds d p t → decode_timestamp d p ≡ t
unfolding decode_timestamp le_read16
decode_timestamp-Holds d p t fits holds =
    let high : ℕ = t.year * 2 + t.month / 8 in
    let low : ℕ = (t.month * 32 + t.day) % 256 in
    let high_byte : high < 256 = omega (arith, fits.years, fits.months) in
    let low_byte : low < 256 = omega arith in
    let date : bit_or (load d (plus p 1) * 2 ^ 8) (load d p) ≡ high * 256 + low =
      rw (holds.date_low, holds.date_high) (bit_or-bytes high low high_byte low_byte) in
    let (e_year, e_month, e_day) = date_parts high low high_byte low_byte in
    let (e_hour, e_minute) =
      time_parts t.hour t.minute (omega (arith, fits.hours)) (omega (arith, fits.minutes)) in
    Timestamp-eq (rw date (e_year ∙ omega (arith, fits.months)))
      (rw date (e_month ∙ omega (arith, fits.months, fits.days)))
      (rw date (e_day ∙ omega (arith, fits.months, fits.days)))
      (rw holds.time_hour (e_hour ∙ omega (arith, fits.hours)))
      (rw holds.time_minute (e_minute ∙ omega (arith, fits.minutes)))

-- A date that is read from the disk fits the format, whatever the bytes are, but for the number of the month.
pub decode_timestamp_bounds :
    (d : Disk) (p : Ptr)
    → ((decode_timestamp d p).year < 128)
      × ((decode_timestamp d p).day < 32)
      × ((decode_timestamp d p).hour < 32)
      × ((decode_timestamp d p).minute < 64)
unfolding decode_timestamp le_read16
decode_timestamp_bounds d p =
    let high_byte = load-IsByte d (plus p 1) in
    let low_byte = load-IsByte d p in
    let date : bit_or (load d (plus p 1) * 2 ^ 8) (load d p) ≡ load d (plus p 1) * 256 + load d p =
      bit_or-bytes (load d (plus p 1)) (load d p) high_byte low_byte in
    let (e_year, e_month, e_day) = date_parts (load d (plus p 1)) (load d p) high_byte low_byte in
    let (e_hour, e_minute) =
      time_parts (load d (plus p 3)) (load d (plus p 2)) (load-IsByte d (plus p 3))
        (load-IsByte d (plus p 2)) in
    (
      rw date (omega (arith, e_year, high_byte)),
      rw date (omega (arith, e_day)),
      omega (arith, e_hour),
      omega (arith, e_minute),
    )

length-two_digits : (n : ℕ) → n < 1000 → length (two_digits n) ≤ 3
unfolding two_digits
length-two_digits n lt = length-pad_left b'0' 2 3 (decimal n) (omega arith) (length-decimal 2 n lt)

length-months : (i : ℕ) → length (get_or months i []) ≤ 3
unfolding months
length-months i = short i months (omega arith)
  where
    short : (k : ℕ) (l : List (List ℕ)) → All (λ t. length t ≤ 3) l → length (get_or l k []) ≤ 3
    short k [] a = omega arith
    short zero (t ∷ l) a = a.0
    short (suc k) (t ∷ l) a = short k l a.1

-- The text of a date is far shorter than its buffer of 64 bytes.
pub length-as_string :
    (t : Timestamp)
    → t.year < 128
    → t.day < 32
    → t.hour < 32
    → t.minute < 64
    → length (as_string t) ≤ 19
unfolding as_string
length-as_string t year day hour minute = elim (Bool-cases (ltb t.month 1 || ltb 12 t.month)) [
  | inl none_such ↦ rw none_such (omega arith)
  | inr is_month ↦ rw is_month (
      omega (
        arith,
        length-append {0},
        length-two_digits t.day (omega arith),
        length-two_digits t.year (omega arith),
        length-two_digits t.hour (omega arith),
        length-two_digits t.minute (omega arith),
        length-pad_left b' ' 3 3 (get_or months (t.month - 1) []) (omega arith)
            (length-months (t.month - 1)),
      ))
]
