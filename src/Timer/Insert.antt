-- ===== src/Timer/Insert.antt =====
-- common/timer.hpp, `insert_timer`: a key is put where it is due after its duration.
use new_happy_server.Base.{
  ℕ, suc, ◌+◌, ◌-◌, ◌*◌, ◌/◌, ◌%◌, ◌^◌, ◌≤◌, ◌<◌, ◌≡◌, refl, sym, ap, subst, ◌∙◌, inl, inr, false,
  List, [], ◌∷◌, ◌++◌, arith, Bool-cases, ltb, ltb→lt, ltb→le, ◌==◌, ==_iff, bit_or, length,
}
use new_happy_server.Base.Words.{sub_size}
use mathlib.Core.List.{Memᴰ}
use mathlib.Core.List.Memᴰ as Memᴰ
use native.Mathlib.Nat.{pow-suc}
use new_happy_server.Timer.{
  Wheel, wheel_size, timerid_shift, put_slot, make_key, get_slot, insert_loop, insert_timer,
  slot_count_of,
}
use new_happy_server.Timer.Position.{position, horizon, IsWheels, DueAt, EachKey, EachKey-map}
use new_happy_server.Timer.Keys.{
  get_slot_field, byte_up, slot_is, quotient_is, IsKeyOf, slots_up, key_here, due_up,
}

module _ (id : ℕ) where
  -- What a wheel adds, if the key goes to a further one.
  further_step :
      (i count slots x key : ℕ) (w : Wheel) (ws : List Wheel)
      → 0 < count
      → count + w.head < 2 ^ 63
      → slots < 2 ^ (8 * i)
      → let slot = (count + w.head - 1) % wheel_size in
        let q = (count + w.head - 1) / wheel_size in
        let slots' = bit_or slots (slot * 2 ^ (8 * i)) in
        ltb (count + w.head - slot) wheel_size ≡ false
        → key ≡ slots' + 2 ^ (8 * suc i) * x
        → key / 2 ^ timerid_shift ≡ id
        → DueAt (suc i) (position ws + q - 1) key (insert_loop (suc i) id q slots' ws)
        → IsKeyOf i slots id key
          × DueAt i (position (w ∷ ws) + count - 1) key (insert_loop i id count slots (w ∷ ws))
  unfolding insert_loop
  further_step i count slots x key w ws pos small h further is_key has_id later =
      let slot = (count + w.head - 1) % wheel_size in
      let q = (count + w.head - 1) / wheel_size in
      let at = slot_is count w.head pos small in
      let bytes = (slots_up id i slots slot h (omega arith)).0 in
      let due = due_up id count w.head (position ws) q pos refl in
      let fields : key ≡ slots + 2 ^ (8 * i) * (slot + 256 * x) =
        omega (arith, is_key, bytes, ap (λ (t : ℕ). t * x) (byte_up i)) in
      let byte : get_slot key i ≡ slot =
        ap (λ k. get_slot k i) fields ∙ get_slot_field i slots slot x h (omega arith) in
      let q_pos : 0 < q = omega (arith, ltb→le _ _ further) in
      (
        ((slot + 256 * x, fields), has_id),
        rw (at, further, quotient_is count w.head pos small)
            (inr
              (position ws + q - 1, omega (arith, byte), omega (arith, byte, due, q_pos), later)),
      )

  put_keeps :
      (w : Wheel) (ws : List Wheel) (slot new j due key : ℕ)
      → DueAt j due key (w ∷ ws)
      → DueAt j due key (put_slot slot (w.slots slot ++ (new ∷ [])) w ∷ ws)
  put_keeps w ws slot new j due key (inr further) = inr further
  put_keeps w ws slot new j due key (inl (s, from, below, found, e)) =
      elim (Bool-cases (s == slot)) [
        | inl same ↦
            let at : s ≡ slot = (==_iff s slot).0 same in
            inl (
              s,
              from,
              below,
              rw same (Memᴰ.append_left (new ∷ []) (subst (λ k. Memᴰ key (w.slots k)) at found)),
              e,
            )
        | inr other ↦ inl (s, from, below, rw other found, e)
      ]

  pub same_position :
      (i count slots : ℕ) (ws : List Wheel)
      → position (insert_loop i id count slots ws) ≡ position ws
  unfolding insert_loop
  same_position i count slots [] = refl
  same_position i count slots (w ∷ ws) =
      let slot = sub_size (count + w.head) 1 % wheel_size in
      elim (Bool-cases (ltb (count + w.head - slot) wheel_size)) [
        | inl here ↦ rw here refl
        | inr further ↦
            rw further (ap (λ p. w.head + wheel_size * p) (same_position (suc i) _ _ ws))
      ]

  -- The loop puts a key where it is due `count` ticks from the position of the wheels, counted from 1.
  insert_loop-DueAt :
      (i count slots c : ℕ) (ws : List Wheel)
      → IsWheels ws
      → 0 < count
      → slots < 2 ^ (8 * i)
      → 2 ^ (8 * i) * c ≡ 2 ^ 32
      → c ≡ 256 ^ length ws
      → position ws + count < horizon ws
      → position ws + count < 2 ^ 63
      → (key : ℕ) × IsKeyOf i slots id key
        × DueAt i (position ws + count - 1) key (insert_loop i id count slots ws)
  unfolding insert_loop
  insert_loop-DueAt i count slots c [] valid pos h e d fits small = absurd (omega arith)
  insert_loop-DueAt i count slots c (w ∷ ws) valid pos h e d fits small =
      let slot = (count + w.head - 1) % wheel_size in
      let q = (count + w.head - 1) / wheel_size in
      let c' = 256 ^ length ws in
      let longer : c ≡ 256 * c' = omega (arith, d, pow-suc 256 (length ws)) in
      let at = slot_is count w.head pos (omega (arith, small)) in
      let (bytes, below) = slots_up id i slots slot h (omega arith) in
      let room : 2 ^ (8 * suc i) * c' ≡ 2 ^ 32 =
        omega
          (arith, e, ap (λ (t : ℕ). 2 ^ (8 * i) * t) longer, ap (λ (t : ℕ). t * c') (byte_up i)) in
      let due = due_up id count w.head (position ws) q pos refl in
      elim (Bool-cases (ltb (count + w.head - slot) wheel_size)) [
        | inl here ↦
            let here_key =
              key_here id i (bit_or slots (slot * 2 ^ (8 * i))) c' (omega (arith, bytes, below))
                room in
            let low : q ≡ 0 = omega (arith, ltb→lt _ _ here) in
            (
              make_key id (bit_or slots (slot * 2 ^ (8 * i))),
              (
                (
                  slot + 256 * (c' * id),
                  omega (
                    arith,
                    here_key.0,
                    bytes,
                    byte_up i,
                    ap (λ (t : ℕ). t * (c' * id)) (byte_up i),
                  ),
                ),
                here_key.1,
              ),
              rw (at, here)
                  (inl (
                    slot,
                    omega (arith, low, pos),
                    omega arith,
                    rw ((==_iff slot slot).1 refl)
                        (Memᴰ.append_right (w.slots slot) (Memᴰ.head refl)),
                    omega (arith, due, low),
                  )),
            )
        | inr further ↦
            let (key, ((x, is_key), has_id), later) =
              insert_loop-DueAt (suc i) q (bit_or slots (slot * 2 ^ (8 * i))) c' ws valid.1
                (omega (arith, ltb→le _ _ further)) (omega (arith, bytes, below)) room refl
                (omega (arith, due, fits)) (omega (arith, due, small)) in
            let step =
              further_step i count slots x key w ws pos (omega (arith, small)) h further is_key
                has_id later in
            (key, step.0, step.1)
      ]

  -- The other keys stay due when they were.
  pub insert_loop_keeps :
      (i count slots : ℕ) (ws : List Wheel) (j due key : ℕ)
      → DueAt j due key ws
      → DueAt j due key (insert_loop i id count slots ws)
  unfolding insert_loop
  insert_loop_keeps i count slots [] j due key d = d
  insert_loop_keeps i count slots (w ∷ ws) j due key d =
      let slot = sub_size (count + w.head) 1 % wheel_size in
      elim (Bool-cases (ltb (count + w.head - slot) wheel_size)) [
        | inl here ↦ rw here (put_keeps w ws slot _ j due key d)
        | inr further ↦ rw further (elim d [
          | inl (s, from, below, found, e) ↦ inl (
            s,
            from,
            below,
            found,
            e ∙ ap (λ p. s + wheel_size * p) (sym (same_position (suc i) _ _ ws)),
          )
          | inr (later, byte, e, d') ↦
              inr (later, byte, e, insert_loop_keeps (suc i) _ _ ws (suc j) later key d')
        ])
      ]

ticks_cover :
    (duration : ℕ)
    → 0 < duration
    → (0 < slot_count_of duration)
      × (duration ≤ 10 * slot_count_of duration)
      × (10 * slot_count_of duration < duration + 10)
unfolding slot_count_of
ticks_cover duration pos = ground arith

-- `insert_timer` puts a key with the timer's id where it is due after the least number of ticks that
-- covers the duration, counted from the position of the four wheels, if that is below the ticks that
-- the wheels tell apart; each of any keys that were due, none included, stays due when it was, and
-- the position stays.
pub insert_timer-DueAt :
    (duration id : ℕ) (a b c d : Wheel)
    → 0 < duration
    → IsWheels (a ∷ (b ∷ (c ∷ (d ∷ []))))
    → position (a ∷ (b ∷ (c ∷ (d ∷ [])))) + slot_count_of duration < 255 ^ 4
    → (olds : List (ℕ × ℕ)) → EachKey (λ due old. DueAt 0 due old (a ∷ (b ∷ (c ∷ (d ∷ []))))) olds
    → let ws = a ∷ (b ∷ (c ∷ (d ∷ []))) in
      let ticks = slot_count_of duration in
      ((duration ≤ 10 * ticks) × (10 * ticks < duration + 10))
      × ((key : ℕ) × (key / 2 ^ timerid_shift ≡ id)
          × DueAt 0 (position ws + ticks - 1) key (insert_timer duration id ws))
      × EachKey (λ due old. DueAt 0 due old (insert_timer duration id ws)) olds
      × (position (insert_timer duration id ws) ≡ position ws)
unfolding insert_timer
insert_timer-DueAt duration id a b c d pos valid fits olds due_olds =
    let ws = a ∷ (b ∷ (c ∷ (d ∷ []))) in
    let ticks = ticks_cover duration pos in
    let (key, is_key, due) =
      insert_loop-DueAt id 0 (slot_count_of duration) 0 (2 ^ 32) ws valid ticks.0 (omega arith) refl
        refl (omega (arith, fits)) (omega (arith, fits)) in
    (
      (ticks.1, ticks.2),
      (key, is_key.1, due),
      EachKey-map olds (insert_loop_keeps id 0 (slot_count_of duration) 0 ws 0) due_olds,
      same_position id 0 (slot_count_of duration) 0 ws,
    )
