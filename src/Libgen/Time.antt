-- ===== src/Libgen/Time.antt =====
-- server/src/libgen/libgenTime.h: calculations with struct timeval. Seconds and microseconds are signed;
-- the sums of long values are taken to fit, and the conversions to int are written out.
pub mod Sums
pub mod Order
pub mod Spans
use ozonebase.Prelude.{
  ℕ, suc, ◌+◌, ◌-◌, ◌*◌, ◌/◌, ◌%◌, ◌^◌, ◌<◌, ◌≤◌, ◌≡◌, refl, ap, ap₂, inl, inr, Bool-cases, ltb→lt,
  Bool, true, false, ◌&&◌, arith, ltb, leb, ◌==◌, if◌then◌else◌, ℤ, pos, negsuc, above, below,
  difference, ◌+ℤ◌, ◌-ℤ◌, scale, quot, ltb_ℤ, to_int, to_int_small, difference_parts, difference_eq,
  ◌∙◌,
}

pub record Timeval : Type 0 where
  pub sec : ℤ
  pub usec : ℤ

abbrev pub usec_per_sec : ℕ
usec_per_sec = 1000000

abbrev pub msec_per_sec : ℕ
msec_per_sec = 1000

unfoldable pub tv_diff_usec : Timeval → Timeval → ℤ
tv_diff_usec first last = to_int (
    scale usec_per_sec (last.sec -ℤ first.sec)
    +ℤ ((pos usec_per_sec +ℤ last.usec -ℤ first.usec) -ℤ pos usec_per_sec))

unfoldable pub tv_diff_msec : Timeval → Timeval → ℤ
tv_diff_msec first last = to_int (
    scale msec_per_sec (last.sec -ℤ first.sec)
    +ℤ (quot (pos msec_per_sec +ℤ last.usec -ℤ first.usec) msec_per_sec -ℤ pos msec_per_sec))

unfoldable pub tv_zero : Timeval
tv_zero = record { sec = pos 0; usec = pos 0 }

abbrev is_zero : ℤ → Bool
is_zero (pos n) = n == 0
is_zero (negsuc n) = false

unfoldable pub tv_is_zero : Timeval → Bool
tv_is_zero t = is_zero t.sec && is_zero t.usec

unfoldable pub tv_cmp : Timeval → Timeval → ℤ
tv_cmp t u =
    if ltb_ℤ t.sec u.sec
    then negsuc 0
    else if ltb_ℤ u.sec t.sec
    then pos 1
    else if ltb_ℤ t.usec u.usec
    then negsuc 0
    else if ltb_ℤ u.usec t.usec
    then pos 1
    else pos 0

unfoldable pub tv_eq : Timeval → Timeval → Bool
tv_eq t u = is_zero (t.sec -ℤ u.sec) && is_zero (t.usec -ℤ u.usec)

-- `tvCheck`, by the sign of the microseconds.
abbrev checked : ℤ → ℤ → Timeval
checked sec (pos n) =
    if leb usec_per_sec n
    then record { sec = sec +ℤ pos (n / usec_per_sec); usec = pos (n % usec_per_sec) }
    else record { sec = sec; usec = pos n }
checked sec (negsuc n) = record { sec = sec; usec = pos 0 }

unfoldable pub tv_check : Timeval → Timeval
tv_check t = checked t.sec t.usec

unfoldable pub tv_add : Timeval → Timeval → Timeval
unfolding tv_check
tv_add t₀ u₀ =
    let t : Timeval = tv_check t₀ in
    let u : Timeval = tv_check u₀ in
    let usec : ℤ = t.usec +ℤ u.usec in
    if ltb_ℤ usec (pos usec_per_sec)
    then record { sec = t.sec +ℤ u.sec; usec = usec }
    else record { sec = (t.sec +ℤ u.sec) +ℤ pos 1; usec = usec -ℤ pos usec_per_sec }

unfoldable pub tv_sub : Timeval → Timeval → Timeval
unfolding tv_check
tv_sub t₀ u₀ =
    let t : Timeval = tv_check t₀ in
    let u : Timeval = tv_check u₀ in
    let usec : ℤ = t.usec -ℤ u.usec in
    if ltb_ℤ usec (pos 0)
    then record { sec = (t.sec -ℤ u.sec) -ℤ pos 1; usec = usec +ℤ pos usec_per_sec }
    else record { sec = t.sec -ℤ u.sec; usec = usec }

unfoldable pub tv_make : ℤ → ℤ → Timeval
tv_make sec usec = record { sec = sec; usec = usec }

-- A time in microseconds.
abbrev pub total : Timeval → ℤ
total t = scale usec_per_sec t.sec +ℤ t.usec

-- A time whose microseconds are those of a part of a second.
abbrev pub at_time : ℤ → ℕ → Timeval
at_time sec usec = record { sec = sec; usec = pos usec }
