-- ===== src/Libgen/Time/Spans.antt =====
-- The time between two times (server/src/libgen/libgenTime.h).
use ozonebase.Prelude.{
  ℕ, ◌+◌, ◌-◌, ◌*◌, ◌/◌, ◌^◌, ◌<◌, ◌≤◌, ◌≡◌, ap, arith, ℤ, pos, above, below, ◌+ℤ◌, ◌-ℤ◌, scale,
  to_int, to_int_small, difference_parts, difference_eq, ◌∙◌,
}
use ozonebase.Libgen.Time.{
  Timeval, usec_per_sec, msec_per_sec, tv_diff_usec, tv_diff_msec, total, at_time,
}

-- The difference of two times in milliseconds is 999 less than the whole milliseconds between them,
-- where the second one is not earlier, by the seconds and by the microseconds, and it fits an int.
pub tv_diff_msec_lem :
    (a k m n : ℕ)
    → m ≤ n
    → n < usec_per_sec
    → msec_per_sec * k + msec_per_sec < 2 ^ 31
    → tv_diff_msec (at_time (pos a) m) (at_time (pos (a + k)) n)
      ≡ pos ((usec_per_sec * k + (n - m)) / msec_per_sec) -ℤ pos 999
unfolding tv_diff_msec
tv_diff_msec_lem a k m n h l small = ground arith

span :
    (a b c d : ℤ)
    → scale usec_per_sec (a -ℤ c) +ℤ ((pos usec_per_sec +ℤ b -ℤ d) -ℤ pos usec_per_sec)
      ≡ (scale usec_per_sec a +ℤ b) -ℤ (scale usec_per_sec c +ℤ d)
span a b c d = difference_eq _ _ _ _ (
    omega (
      arith,
      difference_parts (above a + below c) (below a + above c),
      difference_parts (usec_per_sec * above (a -ℤ c)) (usec_per_sec * below (a -ℤ c)),
      difference_parts (usec_per_sec + above b) (0 + below b),
      difference_parts (above (pos usec_per_sec +ℤ b) + below d)
          (below (pos usec_per_sec +ℤ b) + above d),
      difference_parts (above (pos usec_per_sec +ℤ b -ℤ d) + 0)
          (below (pos usec_per_sec +ℤ b -ℤ d) + usec_per_sec),
      difference_parts (usec_per_sec * above a) (usec_per_sec * below a),
      difference_parts (usec_per_sec * above c) (usec_per_sec * below c),
      difference_parts (above (scale usec_per_sec a) + above b)
          (below (scale usec_per_sec a) + below b),
      difference_parts (above (scale usec_per_sec c) + above d)
          (below (scale usec_per_sec c) + below d),
    ))

-- The difference of two times in microseconds is the difference of their whole microseconds, where that
-- fits an int.
pub tv_diff_usec-total :
    (t u : Timeval)
    → above (total u -ℤ total t) < 2 ^ 31
    → below (total u -ℤ total t) < 2 ^ 31
    → tv_diff_usec t u ≡ total u -ℤ total t
unfolding tv_diff_usec
tv_diff_usec-total t u h k =
    ap to_int (span u.sec u.usec t.sec t.usec) ∙ to_int_small (total u -ℤ total t) h k
