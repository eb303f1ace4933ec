-- ===== src/Examples/Logs.antt =====
-- common/logger.hpp, common/time.hpp and the numbers of common/string.hpp: the theorems at small inputs.
use new_happy_server.Base.{
  ℕ, zero, suc, ◌/◌, ◌<◌, ◌≤◌, ◌≡◌, refl, ap, true, false, inr, List, [], ◌∷◌, ltb, if◌then◌else◌,
  arith, replicate,
}
use new_happy_server.Base.Texts.{codes}
use new_happy_server.Strings.Decimal.{pow10, uint64_to_str, uint64_to_str-decimal}
use new_happy_server.Clock.{Tm, milltimestamp, IsNear}
use new_happy_server.Clock.Stamp.{milltimestamp-stamp}
use new_happy_server.Logger.{debug}
use new_happy_server.Logger.Pipeline.{
  Logger, new_logger, logstring, wait, Steps, here, then_, logs, is_exited,
}
use new_happy_server.Logger.Order.{all_lines, reached-all_lines}
use new_happy_server.Logger.Drain.{EndsWith, wait-EndsWith}

-- The number of digits behind the first, with a bound on the rounds.
abbrev floor_log10 : ℕ → ℕ → ℕ
floor_log10 zero v = 0
floor_log10 (suc f) v = let rest = floor_log10 f (v / 10) in if ltb v 10 then 0 else suc rest

abbrev log10 : ℕ → ℕ
log10 v = floor_log10 v v

pow10-pos : (n : ℕ) → 1 ≤ pow10 n
pow10-pos zero = omega arith
pow10-pos (suc n) = omega (arith, pow10-pos n)

floor_log10_exact : (f n v : ℕ) → v ≤ f → pow10 n ≤ v → v < pow10 (suc n) → floor_log10 f v ≡ n
floor_log10_exact zero n v h low high = absurd (omega (arith, h, low, pow10-pos n))
floor_log10_exact (suc f) zero v h low high =
    let one_digit : ltb v 10 ≡ true = ground arith in rw one_digit refl
floor_log10_exact (suc f) (suc n) v h low high =
    let more_digits : ltb v 10 ≡ false = ground (arith, low, pow10-pos n) in
    rw more_digits (
      ap suc (
        floor_log10_exact f n (v / 10) (omega (arith, h, low, pow10-pos n)) (omega (arith, low))
          (omega (arith, high))))

log10-IsNear : IsNear log10
log10-IsNear n v low near =
    floor_log10_exact v n v (omega arith) low (omega (arith, near, pow10-pos n))

-- Twelve in an array of five bytes.
uint64_to_str-decimal_example :
    uint64_to_str log10 12 1 (7 ∷ (0 ∷ (0 ∷ (8 ∷ [])))) ≡ (2, 7 ∷ (49 ∷ (50 ∷ (8 ∷ []))))
uint64_to_str-decimal_example =
    uint64_to_str-decimal log10 12 1 (7 ∷ []) (0 ∷ (0 ∷ [])) (8 ∷ []) refl refl (omega arith)
      (omega arith) (omega arith) (inr (omega arith))

abbrev noon : Tm
noon = record { tm_year = 117; tm_mon = 10; tm_mday = 11; tm_hour = 12; tm_min = 0; tm_sec = 5 }

milltimestamp-stamp_example :
    milltimestamp log10 (λ t. noon) 1510401605635 23 0 (replicate 23 0)
    ≡ (23, codes "2017-11-11 12:00:05.635")
milltimestamp-stamp_example =
    milltimestamp-stamp log10 (λ t. noon) 1510401605635 log10-IsNear
      (record {
        year = omega arith;
        mon = omega arith;
        mday = omega arith;
        hour = omega arith;
        min = omega arith;
        sec = omega arith;
      })
      [] (replicate 23 0) [] refl (omega arith)

abbrev one_line : List (List ℕ)
one_line = codes "a" ∷ []

abbrev one_logged : Logger
one_logged = logstring debug (codes "a") new_logger

one_push : Steps one_line new_logger one_logged
one_push =
    then_ [] one_line new_logger new_logger one_logged (here new_logger)
      (logs debug (codes "a") new_logger)

reached-all_lines_example : all_lines one_logged ≡ one_line
reached-all_lines_example = reached-all_lines one_line one_logged one_push

still_going : is_exited one_logged.state_ ≡ false
unfolding logstring
still_going = refl

wait-EndsWith_example : EndsWith (wait one_logged) one_line
wait-EndsWith_example = wait-EndsWith one_line one_logged one_push still_going
