-- ===== src/Clock/Stamp.antt =====
-- common/time.hpp, `milltimestamp`: what it writes.
use new_happy_server.Base.{
  ℕ, suc, ◌+◌, ◌-◌, ◌*◌, ◌/◌, ◌%◌, ◌^◌, ◌≤◌, ◌<◌, ◌≡◌, sym, ap, ◌∙◌, inr, List, [], ◌∷◌, ◌++◌,
  length, take, drop, take-append-drop, length-take, length-drop, length-append, append_assoc,
  arith,
}
use new_happy_server.Strings.Decimal.{
  pow10, put, uint64_to_str, decimal, put-behind, uint64_to_str-decimal,
}
use new_happy_server.Clock.{
  Tm, ymd, with_marks, with_point, add_length, after_ymd, milltimestamp, IsTime, IsNear, stamp,
}

decimal_three :
    (k a b : ℕ) → b < 1000 → decimal (suc (suc (suc k))) (a * 1000 + b) ≡ decimal k a ++ decimal 3 b
decimal_three k a b h =
    let rest : (a * 1000 + b) / 10 / 10 / 10 ≡ a = omega arith in
    let hundreds : (a * 1000 + b) / 10 / 10 % 10 ≡ b / 10 / 10 % 10 = omega arith in
    let tens : (a * 1000 + b) / 10 % 10 ≡ b / 10 % 10 = omega arith in
    let units : (a * 1000 + b) % 10 ≡ b % 10 = omega arith in
    rw (rest, hundreds, tens, units)
      (append_assoc (decimal k a ++ ((48 + b / 10 / 10 % 10) ∷ [])) ((48 + b / 10 % 10) ∷ [])
          ((48 + b % 10) ∷ [])
        ∙ append_assoc (decimal k a) ((48 + b / 10 / 10 % 10) ∷ [])
            ((48 + b / 10 % 10) ∷ ((48 + b % 10) ∷ [])))

ymd_digits :
    (m : Tm)
    → IsTime m
    → decimal 19 (ymd m)
      ≡ decimal 4 (m.tm_year + 1900)
        ++ (decimal 3 (m.tm_mon + 1)
            ++ (decimal 3 m.tm_mday
                ++ (decimal 3 m.tm_hour ++ (decimal 3 m.tm_min ++ decimal 3 m.tm_sec))))
ymd_digits m is =
    let y = m.tm_year + 1900 in
    let mo = m.tm_mon + 1 in
    let v₁ = y * 1000 + mo in
    let v₂ = v₁ * 1000 + m.tm_mday in
    let v₃ = v₂ * 1000 + m.tm_hour in
    let v₄ = v₃ * 1000 + m.tm_min in
    let whole : ymd m ≡ v₄ * 1000 + m.tm_sec =
      omega (arith, is.year, is.mon, is.mday, is.hour, is.min, is.sec) in
    ap (decimal 19) whole
    ∙ decimal_three 16 v₄ m.tm_sec (omega (arith, is.sec))
    ∙ ap (λ t. t ++ decimal 3 m.tm_sec)
        (decimal_three 13 v₃ m.tm_min (omega (arith, is.min))
          ∙ ap (λ t. t ++ decimal 3 m.tm_min)
              (decimal_three 10 v₂ m.tm_hour (omega (arith, is.hour))
                ∙ ap (λ t. t ++ decimal 3 m.tm_hour)
                    (decimal_three 7 v₁ m.tm_mday (omega (arith, is.mday))
                      ∙ ap (λ t. t ++ decimal 3 m.tm_mday)
                          (decimal_three 4 y mo (omega (arith, is.mon))))))

ymd_bounds : (m : Tm) → IsTime m → (pow10 18 ≤ ymd m) × (ymd m * 100 ≤ 99 * pow10 19)
ymd_bounds m is = (
  omega (arith, is.year, is.mon, is.mday, is.hour, is.min, is.sec),
  omega (arith, is.year, is.mon, is.mday, is.hour, is.min, is.sec),
)

marks-behind : (pre xs : List ℕ) → with_marks (length pre) (pre ++ xs) ≡ pre ++ with_marks 0 xs
marks-behind pre xs =
    ap
      (λ a.
        put (length pre + 16) 58
          (put (length pre + 13) 58 (put (length pre + 10) 32 (put (length pre + 7) 45 a))))
      (put-behind pre 4 45 xs)
    ∙ ap (λ a. put (length pre + 16) 58 (put (length pre + 13) 58 (put (length pre + 10) 32 a)))
        (put-behind pre 7 45 (put 4 45 xs))
    ∙ ap (λ a. put (length pre + 16) 58 (put (length pre + 13) 58 a))
        (put-behind pre 10 32 (put 7 45 (put 4 45 xs)))
    ∙ ap (put (length pre + 16) 58) (put-behind pre 13 58 (put 10 32 (put 7 45 (put 4 45 xs))))
    ∙ put-behind pre 16 58 (put 13 58 (put 10 32 (put 7 45 (put 4 45 xs))))

-- The text up to the seconds.
abbrev date_part : Tm → List ℕ
date_part m =
    decimal 4 (m.tm_year + 1900)
    ++ (45 ∷ decimal 2 (m.tm_mon + 1))
    ++ (45 ∷ decimal 2 m.tm_mday)
    ++ (32 ∷ decimal 2 m.tm_hour)
    ++ (58 ∷ decimal 2 m.tm_min)
    ++ (58 ∷ decimal 2 m.tm_sec)

marked :
    (m : Tm) (pre rest : List ℕ)
    → IsTime m
    → with_marks (length pre) (pre ++ (decimal 19 (ymd m) ++ rest)) ≡ pre ++ (date_part m ++ rest)
marked m pre rest is =
    ap (λ d. with_marks (length pre) (pre ++ (d ++ rest))) (ymd_digits m is) ∙ marks-behind pre _

-- The milliseconds behind a text of 19 bytes, with the point over their first digit.
milliseconds :
    (log10 : ℕ → ℕ) (t dst : ℕ) (pre space post : List ℕ)
    → IsNear log10
    → dst + 19 ≡ length pre
    → length space ≡ 4
    → length pre + 4 < 2 ^ 63
    → with_point dst
        (add_length 19 (uint64_to_str log10 (1000 + t % 1000) (dst + 19) (pre ++ (space ++ post))))
      ≡ (23, pre ++ ((46 ∷ decimal 3 (t % 1000)) ++ post))
milliseconds log10 t dst pre space post near at len room =
    let ms = t % 1000 in
    let size_is : log10 (1000 + ms) ≡ 3 = near 3 (1000 + ms) (omega arith) (omega arith) in
    let place : dst + 23 - 4 ≡ length pre + 0 = omega (arith, at) in
    ap
      (λ k.
        with_point dst (add_length 19 (uint64_to_str log10 (1000 + ms) k (pre ++ (space ++ post)))))
      at
    ∙ ap (λ r. with_point dst (add_length 19 r))
        (uint64_to_str-decimal log10 (1000 + ms) 3 pre space post size_is len room (omega arith)
          (omega arith) (inr (omega arith)))
    ∙ ap (λ a. (23, a))
        (ap (λ d. put (dst + 23 - 4) 46 (pre ++ (d ++ post))) (decimal_three 1 1 ms (omega arith))
          ∙ ap (λ k. put k 46 (pre ++ (49 ∷ (decimal 3 ms ++ post)))) place
          ∙ put-behind pre 0 46 (49 ∷ (decimal 3 ms ++ post)))

module _ (log10 : ℕ → ℕ) (localtime : ℕ → Tm) (t : ℕ) (near : IsNear log10)
    (is : IsTime (localtime (t / 1000))) where
  parts-stamp :
      (pre first last post : List ℕ)
      → length first ≡ 19
      → length last ≡ 4
      → length pre + 23 < 2 ^ 63
      → milltimestamp log10 localtime t 23 (length pre) (pre ++ (first ++ (last ++ post)))
        ≡ (23, pre ++ (stamp (localtime (t / 1000)) (t % 1000) ++ post))
  unfolding milltimestamp
  parts-stamp pre first last post len len' room =
      let m = localtime (t / 1000) in
      let (low, high) = ymd_bounds m is in
      let at : length pre + 19 ≡ length (pre ++ date_part m) =
        omega (arith, length-append pre (date_part m)) in
      ap (after_ymd log10 t (length pre)) (
        uint64_to_str-decimal log10 (ymd m) 18 pre first (last ++ post) (near 18 (ymd m) low high)
          len (omega (arith, room)) (omega arith) (omega (arith, high)) (inr low))
      ∙ ap
          (λ a.
            with_point (length pre)
              (add_length 19 (uint64_to_str log10 (1000 + t % 1000) (length pre + 19) a)))
          (marked m pre (last ++ post) is ∙ sym (append_assoc pre (date_part m) (last ++ post)))
      ∙ milliseconds log10 t (length pre) (pre ++ date_part m) last post near at len'
          (omega (arith, at, room))
      ∙ ap (λ a. (23, a)) (append_assoc pre (date_part m) ((46 ∷ decimal 3 (t % 1000)) ++ post))

  -- At a time whose parts are those of a date in a year before 9900, and for 23 bytes of room:
  -- `milltimestamp` gives 23 and writes exactly the text of the time from its position on; the bytes
  -- before and behind it stay.
  pub milltimestamp-stamp :
      (pre space post : List ℕ)
      → length space ≡ 23
      → length pre + 23 < 2 ^ 63
      → milltimestamp log10 localtime t 23 (length pre) (pre ++ (space ++ post))
        ≡ (23, pre ++ (stamp (localtime (t / 1000)) (t % 1000) ++ post))
  milltimestamp-stamp pre space post len room =
      ap (λ a. milltimestamp log10 localtime t 23 (length pre) (pre ++ a))
        (ap (λ s. s ++ post) (sym (take-append-drop 19 space))
          ∙ append_assoc (take 19 space) (drop 19 space) post)
      ∙ parts-stamp pre (take 19 space) (drop 19 space) post
          (length-take 19 space ∙ omega (arith, len)) (length-drop 19 space ∙ omega (arith, len))
          room
