-- ===== src/Libgen/Time/Order.antt =====
-- The order of times (server/src/libgen/libgenTime.h).
use ozonebase.Prelude.{ℕ, ◌<◌, ◌≡◌, arith, ◌==◌, if◌then◌else◌, ℤ, pos, negsuc, ◌-ℤ◌}
use ozonebase.Libgen.Time.{usec_per_sec, tv_cmp, total, at_time}

-- The sign of an integer.
abbrev pub sign_of : ℤ → ℤ
sign_of (pos n) = if n == 0 then pos 0 else pos 1
sign_of (negsuc n) = negsuc 0

-- Comparing two times with microseconds below a second is comparing their whole microseconds.
pub tv_cmp-total :
    (s r : ℤ) (m n : ℕ)
    → m < usec_per_sec
    → n < usec_per_sec
    → tv_cmp (at_time s m) (at_time r n) ≡ sign_of (total (at_time s m) -ℤ total (at_time r n))
unfolding tv_cmp
tv_cmp-total s r m n h k = ground arith
