-- ===== src/Clock.antt =====
-- common/time.hpp: `milltimestamp`, which writes a time like 2017-11-11 16:03:11.635 into an array. A
-- time is not negative; `localtime` and `log10` are parameters.
pub mod Stamp
use new_happy_server.Base.{
  ℕ, zero, suc, ◌+◌, ◌-◌, ◌*◌, ◌/◌, ◌%◌, ◌^◌, ◌≤◌, ◌<◌, ◌≡◌, refl, sym, ap, ap₂, subst, ◌∙◌, ◌⊎◌,
  inl, inr, List, [], ◌∷◌, ◌++◌, length, take, drop, take-append-drop, length-take, length-drop,
  length-append, append_assoc, ltb, if◌then◌else◌, arith,
}
use new_happy_server.Strings.Decimal.{
  pow10, put, uint64_to_str, decimal, put-behind, uint64_to_str-decimal,
}

pub record Tm : Type 0 where
  pub tm_year : ℕ
  pub tm_mon : ℕ
  pub tm_mday : ℕ
  pub tm_hour : ℕ
  pub tm_min : ℕ
  pub tm_sec : ℕ

abbrev pub ymd : Tm → ℕ
ymd m =
    ((m.tm_year + 1900) * pow10 15
      + (m.tm_mon + 1) * pow10 12
      + m.tm_mday * pow10 9
      + m.tm_hour * pow10 6
      + m.tm_min * pow10 3
      + m.tm_sec)
    % 2 ^ 64

-- `dst` is the position of the pointer in the array.
abbrev pub with_marks : ℕ → List ℕ → List ℕ
with_marks dst a =
    put (dst + 16) 58
      (put (dst + 13) 58 (put (dst + 10) 32 (put (dst + 7) 45 (put (dst + 4) 45 a))))

abbrev pub with_point : ℕ → ℕ × List ℕ → ℕ × List ℕ
with_point dst (n, a) = (n, put (dst + n - 4) 46 a)

abbrev pub add_length : ℕ → ℕ × List ℕ → ℕ × List ℕ
add_length n (k, a) = (n + k, a)

abbrev pub after_ymd : (ℕ → ℕ) → ℕ → ℕ → ℕ × List ℕ → ℕ × List ℕ
after_ymd log10 t dst (n, a) =
    with_point dst
      (add_length n (uint64_to_str log10 (1000 + t % 1000) (dst + n) (with_marks dst a)))

unfoldable pub milltimestamp : (ℕ → ℕ) → (ℕ → Tm) → ℕ → ℕ → ℕ → List ℕ → ℕ × List ℕ
milltimestamp log10 localtime t len dst a =
    if ltb len 23
    then (0, a)
    else after_ymd log10 t dst (uint64_to_str log10 (ymd (localtime (t / 1000))) dst a)

-- What `localtime` gives, in a year of four digits.
pub record IsTime (m : Tm) : Type 0 where
  pub year : m.tm_year + 1900 < 9900
  pub mon : m.tm_mon < 12
  pub mday : m.tm_mday < 32
  pub hour : m.tm_hour < 24
  pub min : m.tm_min < 60
  pub sec : m.tm_sec < 61

-- `log10` is right where a number is not within a hundredth of the next power of ten.
abbrev pub IsNear : (ℕ → ℕ) → Type 0
IsNear log10 = (n v : ℕ) → pow10 n ≤ v → v * 100 ≤ 99 * pow10 (suc n) → log10 v ≡ n

-- The text of a time, whose last part is the milliseconds.
abbrev pub stamp : Tm → ℕ → List ℕ
stamp m millisecond =
    decimal 4 (m.tm_year + 1900)
    ++ (45 ∷ decimal 2 (m.tm_mon + 1))
    ++ (45 ∷ decimal 2 m.tm_mday)
    ++ (32 ∷ decimal 2 m.tm_hour)
    ++ (58 ∷ decimal 2 m.tm_min)
    ++ (58 ∷ decimal 2 m.tm_sec)
    ++ (46 ∷ decimal 3 millisecond)
