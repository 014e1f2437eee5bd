-- ===== src/Rtp/Sender/Clock.antt =====
-- sender_def.cpp: the time since the timer was started.
use networking_labs.Prelude.{ℕ, suc, ◌+◌, ◌-◌, ◌*◌, ◌/◌, ◌≤◌, ◌<◌, arith}
use networking_labs.Prelude.Int.{ℤ, pos, negsuc, sub_ℕ, to_u32, ◌+ℤ◌, ◌-ℤ◌}

pub record TimeVal : Type 0 where
  pub tv_sec : ℕ
  pub tv_usec : ℕ

-- `/ 1000` on a signed number goes towards 0.
div_1000 : ℤ → ℤ
div_1000 (pos n) = pos (n / 1000)
div_1000 (negsuc n) = sub_ℕ 0 (suc n / 1000)

times_1000 : ℤ → ℤ
times_1000 (pos n) = pos (n * 1000)
times_1000 (negsuc n) = sub_ℕ 0 (suc n * 1000)

-- `(now.tv_sec - timer.tv_sec) * 1000 + (now.tv_usec - timer.tv_usec) / 1000`
unfoldable pub elapsed : TimeVal → TimeVal → ℕ
unfolding div_1000 times_1000 to_u32
elapsed timer now = to_u32 (
    times_1000 (pos now.tv_sec -ℤ pos timer.tv_sec)
    +ℤ div_1000 (pos now.tv_usec -ℤ pos timer.tv_usec))

abbrev pub micros : TimeVal → ℕ
micros t = t.tv_sec * 1000000 + t.tv_usec

-- Time_microsec is the time passed in milliseconds, off by less than one, for a clock that has not
-- gone back and a wait below 4 * 10^12 microseconds.
pub elapsed_bounds :
    (timer now : TimeVal)
    → timer.tv_usec < 1000000
    → now.tv_usec < 1000000
    → micros timer ≤ micros now
    → micros now < micros timer + 4000000000000
    → (elapsed timer now * 1000 < micros now - micros timer + 1000)
      × (micros now - micros timer < elapsed timer now * 1000 + 1000)
unfolding elapsed ◌+ℤ◌ ◌-ℤ◌
elapsed_bounds timer now ht hn order short = ground arith
