-- ===== src/Libgen/Time/Sums.antt =====
-- Sums and differences of times (server/src/libgen/libgenTime.h).
use ozonebase.Prelude.{
  ℕ, ◌+◌, ◌-◌, ◌<◌, ◌≤◌, ◌≡◌, ap₂, inl, inr, Bool-cases, ltb→lt, arith, ltb, ℤ, pos, ◌+ℤ◌, ◌-ℤ◌,
}
use ozonebase.Libgen.Time.{usec_per_sec, tv_check, tv_add, tv_sub, at_time}

check_id : (s : ℤ) (n : ℕ) → n < usec_per_sec → tv_check (at_time s n) ≡ at_time s n
unfolding tv_check
check_id s n h = ground arith

-- The two branches of a sum and of a difference.
add_below :
    (s r : ℤ) (m n : ℕ)
    → m + n < usec_per_sec
    → tv_add (at_time s m) (at_time r n) ≡ at_time (s +ℤ r) (m + n)
unfolding tv_add
add_below s r m n h = rw (check_id s m (omega arith), check_id r n (omega arith)) (ground arith)

add_above :
    (s r : ℤ) (m n : ℕ)
    → m < usec_per_sec
    → n < usec_per_sec
    → usec_per_sec ≤ m + n
    → tv_add (at_time s m) (at_time r n) ≡ at_time ((s +ℤ r) +ℤ pos 1) (m + n - usec_per_sec)
unfolding tv_add
add_above s r m n h k l = rw (check_id s m h, check_id r n k) (ground arith)

sub_below :
    (s r : ℤ) (m n : ℕ)
    → m < usec_per_sec
    → n ≤ m
    → tv_sub (at_time s m) (at_time r n) ≡ at_time (s -ℤ r) (m - n)
unfolding tv_sub
sub_below s r m n h k = rw (check_id s m h, check_id r n (omega arith)) (ground arith)

sub_above :
    (s r : ℤ) (m n : ℕ)
    → n < usec_per_sec
    → m < n
    → tv_sub (at_time s m) (at_time r n) ≡ at_time ((s -ℤ r) -ℤ pos 1) (m + usec_per_sec - n)
unfolding tv_sub
sub_above s r m n h k = rw (check_id s m (omega arith), check_id r n h) (ground arith)

add-sub : (s r : ℤ) → (s +ℤ r) -ℤ r ≡ s
add-sub s r = ground arith

add-sub_carry : (s r : ℤ) → (((s +ℤ r) +ℤ pos 1) -ℤ r) -ℤ pos 1 ≡ s
add-sub_carry s r = ground arith

-- Subtracting what was added gives the time back, for times with microseconds below a second.
pub tv_sub-tv_add :
    (s r : ℤ) (m n : ℕ)
    → m < usec_per_sec
    → n < usec_per_sec
    → tv_sub (tv_add (at_time s m) (at_time r n)) (at_time r n) ≡ at_time s m
tv_sub-tv_add s r m n h k = elim (Bool-cases (ltb (m + n) usec_per_sec)) [
  | inl e ↦
      let l : m + n < usec_per_sec = ltb→lt (m + n) usec_per_sec e in
      rw (add_below s r m n l) (
        rw (sub_below (s +ℤ r) r (m + n) n l (omega arith))
          (ap₂ at_time (add-sub s r) (omega arith)))
  | inr e ↦
      let l : usec_per_sec ≤ m + n = ground arith in
      rw (add_above s r m n h k l) (
        rw (sub_above ((s +ℤ r) +ℤ pos 1) r (m + n - usec_per_sec) n k (omega arith))
          (ap₂ at_time (add-sub_carry s r) (omega arith)))
]
