-- ===== src/Boot/Led.antt =====
-- firmware/bootloader/src/main.c: the blinking of the LED in the bootloader, a step at a time.
use drdro_mainboard.Base.{
  ℕ, ◌+◌, ◌-◌, ◌*◌, ◌%◌, ◌^◌, ◌≡◌, refl, Bool, true, false, not, ◌&&◌, if_intro, ltb, leb, ◌==◌,
  if◌then◌else◌, u16, u32, arith,
}

abbrev pub blink_on_ms : ℕ
blink_on_ms = 120

abbrev pub blink_off_ms : ℕ
blink_off_ms = 160

abbrev pub blink_gap_ms : ℕ
blink_gap_ms = 700

-- `s_led_code`, the statics of `bl_led_service`, and whether the LED is lit.
pub record Led : Type 0 where
  pub led_code : ℕ
  pub due : ℕ
  pub step : ℕ
  pub lit : Bool

unfoldable pub bl_led_set : ℕ → Led → Led
bl_led_set code l = record l { led_code = code }

-- The step that is due, at tick `now`.
abbrev pub led_step : ℕ → ℕ → Led → Led
led_step code now l =
    if ltb l.step (u16 (code * 2))
    then (if l.step % 2 == 1
        then record l { lit = false; due = u32 (now + blink_off_ms); step = u16 (l.step + 1) }
        else record l { lit = true; due = u32 (now + blink_on_ms); step = u16 (l.step + 1) })
    else record l { lit = false; due = u32 (now + blink_gap_ms); step = 0 }

unfoldable pub bl_led_service : ℕ → Led → Led
bl_led_service now l =
    if not (l.due == 0) && leb (2 ^ 31) (u32 (now + 2 ^ 32 - l.due))
    then l
    else led_step (if l.led_code == 0 then 1 else l.led_code) now l

-- The LED is lit on the odd steps, which are those after a blink has begun.
abbrev pub IsPhased : Led → Type 0
IsPhased l = l.lit ≡ (l.step % 2 == 1)

led_step-IsPhased : (code now : ℕ) (l : Led) → IsPhased (led_step code now l)
led_step-IsPhased code now l =
    if_intro IsPhased (ltb l.step (u16 (code * 2))) (if l.step % 2 == 1 then off else on) gap
      (λ e.
        if_intro IsPhased (l.step % 2 == 1) off on (λ odd. went_dark l.step odd)
          (λ even. lit_up l.step even))
      (λ e. refl)
  where
    off : Led
    off = record l { lit = false; due = u32 (now + blink_off_ms); step = u16 (l.step + 1) }

    on : Led
    on = record l { lit = true; due = u32 (now + blink_on_ms); step = u16 (l.step + 1) }

    gap : Led
    gap = record l { lit = false; due = u32 (now + blink_gap_ms); step = 0 }

    went_dark : (s : ℕ) → (s % 2 == 1) ≡ true → false ≡ (u16 (s + 1) % 2 == 1)
    went_dark s odd = ground arith

    lit_up : (s : ℕ) → (s % 2 == 1) ≡ false → true ≡ (u16 (s + 1) % 2 == 1)
    lit_up s even = ground arith

-- Whatever the code, the tick and the code it is set to, a service keeps the LED lit exactly on the odd
-- steps.
pub bl_led_service-IsPhased : (now : ℕ) (l : Led) → IsPhased l → IsPhased (bl_led_service now l)
unfolding bl_led_service
bl_led_service-IsPhased now l h =
    if_intro IsPhased (not (l.due == 0) && leb (2 ^ 31) (u32 (now + 2 ^ 32 - l.due))) l
      (led_step (if l.led_code == 0 then 1 else l.led_code) now l) (λ e. h)
      (λ e. led_step-IsPhased (if l.led_code == 0 then 1 else l.led_code) now l)
