-- ===== src/Time.antt =====
-- `timegm` and `gmtime_r` of the C library, and the time stamps that the commands read and print.
-- A time is the number of seconds since 0000-01-01 00:00:00 of the proleptic Gregorian calendar, so
-- that the Unix epoch is `epoch`, and times before the year 0 are left out.
use openps3ftp.Base.{
  ℕ, zero, suc, not, ◌+◌, ◌-◌, ◌*◌, ◌/◌, ◌%◌, ◌≡◌, refl, Bool, true, false, ◌&&◌, ◌||◌, Option,
  none, some, [], ◌∷◌, ◌++◌, ltb, leb, ◌==◌, if◌then◌else◌, Bytes, codes, is_digit, decimal, length,
  replicate, drop, first_byte,
}

-- struct tm, with the year and the month as they are printed
pub record Tm : Type 0 where
  pub year : ℕ
  pub mon : ℕ
  pub mday : ℕ
  pub hour : ℕ
  pub min : ℕ
  pub sec : ℕ

abbrev pub epoch : ℕ
epoch = 719528 * 86400

-- the days before March 1 of year `y` count from March 1 of the year 0, which is day 60; the months
-- January and February belong to the year before
unfoldable pub days_from_civil : ℕ → ℕ → ℕ → ℕ
days_from_civil y m d =
    let y' = if leb m 2 then y + 399 else y + 400 in
    let mp = (m + 9) % 12 in
    y' * 365 + y' / 4 - y' / 100 + y' / 400 + (153 * mp + 2) / 5 + d + 59 - 146097

-- a day past the month's last one runs on into the next month
unfoldable pub timegm : Tm → ℕ
unfolding days_from_civil
timegm t = days_from_civil t.year t.mon t.mday * 86400 + t.hour * 3600 + t.min * 60 + t.sec

civil_of : ℕ → ℕ → Tm
civil_of z rest =
    let era = z / 146097 in
    let doe = z % 146097 in
    let yoe = (doe + doe / 36524 - doe / 1460 - doe / 146096) / 365 in
    let doy = doe + yoe / 100 - 365 * yoe - yoe / 4 in
    let mp = (5 * doy + 2) / 153 in
    let m = if ltb mp 10 then mp + 3 else mp - 9 in
    let y = era * 400 + yoe in
    record {
      year = (if leb m 2 then y + 1 else y) - 400;
      mon = m;
      mday = doy + 1 - (153 * mp + 2) / 5;
      hour = rest / 3600;
      min = rest / 60 % 60;
      sec = rest % 60;
    }

-- `gmtime_r`: it fails when the year less 1900 does not fit an `int`
unfoldable pub gmtime : ℕ → Option Tm
unfolding civil_of
gmtime t =
    let tm = civil_of (t / 86400 + 146097 - 60) (t % 86400) in
    if ltb (2147483647 + 1900) tm.year then none else some tm

-- `s[i] - '0'`
abbrev pub digit_at : Bytes → ℕ → ℕ
digit_at s i = first_byte (drop i s) - b'0'

abbrev two_digits : Bytes → ℕ → ℕ
two_digits s i = digit_at s i * 10 + digit_at s (i + 1)

-- the first `n` bytes are there and are digits
unfoldable pub all_digits : ℕ → Bytes → Bool
all_digits zero s = true
all_digits (suc n) [] = false
all_digits (suc n) (c ∷ s) = is_digit c && all_digits n s

abbrev tm_of : Bytes → Tm
tm_of s = record {
  year = digit_at s 0 * 1000 + digit_at s 1 * 100 + digit_at s 2 * 10 + digit_at s 3;
  mon = two_digits s 4;
  mday = two_digits s 6;
  hour = two_digits s 8;
  min = two_digits s 10;
  sec = two_digits s 12;
}

abbrev pub in_range : Tm → Bool
in_range t = not (
    ltb t.mon 1
    || ltb 12 t.mon
    || ltb t.mday 1
    || ltb 31 t.mday
    || ltb 23 t.hour
    || ltb 59 t.min
    || ltb 59 t.sec)

-- `none` is a return of -1; a `timegm` of -1 is taken for its failure
unfoldable pub parse_ftp_time : Bytes → Option ℕ
unfolding all_digits timegm
parse_ftp_time s =
    if not (all_digits 14 s)
    then none
    else if not (in_range (tm_of s))
    then none
    else let t = timegm (tm_of s) in if t == epoch - 1 then none else some t

-- `%02d` and `%04d`
unfoldable pub padded : ℕ → ℕ → Bytes
unfolding decimal
padded width n = let d = decimal n in replicate (width - length d) b'0' ++ d

-- "%04d%02d%02d%02d%02d%02d"
unfoldable pub format_time : Tm → Bytes
unfolding padded
format_time t =
    padded 4 t.year
    ++ (padded 2 t.mon
        ++ (padded 2 t.mday ++ (padded 2 t.hour ++ (padded 2 t.min ++ padded 2 t.sec))))

gmtime_sample :
    gmtime (epoch + 1709210096)
    ≡ some (record { year = 2024; mon = 2; mday = 29; hour = 12; min = 34; sec = 56 })
unfolding gmtime
gmtime_sample = refl

timegm_sample :
    timegm (record { year = 1970; mon = 1; mday = 1; hour = 0; min = 0; sec = 0 }) ≡ epoch
unfolding timegm
timegm_sample = refl

timegm_sample2 :
    timegm (record { year = 2024; mon = 2; mday = 29; hour = 12; min = 34; sec = 56 })
    ≡ epoch + 1709210096
unfolding timegm
timegm_sample2 = refl

gmtime_zero : gmtime 0 ≡ some (record { year = 0; mon = 1; mday = 1; hour = 0; min = 0; sec = 0 })
unfolding gmtime
gmtime_zero = refl

parse_sample : parse_ftp_time (codes "20240229123456.12 GMT") ≡ some (epoch + 1709210096)
unfolding parse_ftp_time
parse_sample = refl

format_sample :
    format_time (record { year = 812; mon = 2; mday = 9; hour = 12; min = 34; sec = 5 })
    ≡ codes "08120209123405"
unfolding format_time
format_sample = refl
