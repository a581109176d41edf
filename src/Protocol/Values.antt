-- ===== src/Protocol/Values.antt =====
-- firmware/app/src/Protocol.c: the values of the variables, to and from text. What the C library does
-- is a parameter, `Numbers`: `strtol`, `strtoul` and `strtof` return the bits of a word and the text
-- from the end pointer on, and `print_float` is `%g`.
use drdro_mainboard.Base.{
  ℕ, zero, suc, ◌+◌, ◌-◌, ◌*◌, ◌/◌, ◌%◌, ◌^◌, Bool, true, false, not, ◌&&◌, ◌||◌, ltb, leb, ◌==◌,
  if◌then◌else◌, Bytes, le16, le32, List, [], ◌∷◌, ◌++◌, take, get_or, Option, some, none, ◌>>=◌,
}
use drdro_mainboard.Settings.{put8, put16, put32}
use drdro_mainboard.BlCli.Text.{codes, utoa10}
use drdro_mainboard.Protocol.Registry.{
  VarType, vt_i32, vt_u32, vt_f32, vt_u16, vt_ip4, vt_mac, vt_upt, VarEntry, field_ptr,
}

pub record Numbers : Type 0 where
  pub strtol : ℕ → List ℕ → ℕ × List ℕ
  pub strtoul : ℕ → List ℕ → ℕ × List ℕ
  pub strtof : List ℕ → ℕ × List ℕ
  pub print_float : ℕ → List ℕ

-- `%ld` of a word, `%02lu`, and `%02x` of a byte.
abbrev pub signed : ℕ → List ℕ
signed v = if ltb v (2 ^ 31) then utoa10 v else b'-' ∷ utoa10 (2 ^ 32 - v)

abbrev pub two_digits : ℕ → List ℕ
two_digits v = if ltb v 10 then b'0' ∷ utoa10 v else utoa10 v

abbrev pub lower_digit : ℕ → ℕ
lower_digit v = get_or (codes "0123456789abcdef") (v % 16) 0

abbrev pub lower_hex2 : ℕ → List ℕ
lower_hex2 b = lower_digit (b / 16) ∷ lower_digit b ∷ []

unfoldable pub format_ip4 : Bytes → ℕ → List ℕ
format_ip4 r p =
    utoa10 (r p)
    ++ b'.' ∷ (utoa10 (r (p + 1)) ++ b'.' ∷ (utoa10 (r (p + 2)) ++ b'.' ∷ utoa10 (r (p + 3))))

unfoldable pub format_mac : Bytes → ℕ → List ℕ
format_mac r p =
    lower_hex2 (r p)
    ++ b':'
      ∷ (lower_hex2 (r (p + 1))
          ++ b':'
            ∷ (lower_hex2 (r (p + 2))
                ++ b':'
                  ∷ (lower_hex2 (r (p + 3))
                      ++ b':' ∷ (lower_hex2 (r (p + 4)) ++ b':' ∷ lower_hex2 (r (p + 5))))))

unfoldable pub format_uptime : ℕ → List ℕ
format_uptime t =
    utoa10 (t / 86400)
    ++ b'd' ∷ two_digits (t / 3600 % 24)
    ++ b':' ∷ two_digits (t / 60 % 60)
    ++ b':' ∷ two_digits (t % 60)

abbrev pub is_digit : ℕ → Bool
is_digit b = leb b'0' b && leb b b'9'

-- The inner loop of `parseIp4`: the digits that follow, onto `v`, and the text after them.
unfoldable pub octet_digits : ℕ → List ℕ → Option (ℕ × List ℕ)
octet_digits v [] = some (v, [])
octet_digits v (b ∷ s) =
    let rest = octet_digits (v * 10 + (b - b'0')) s in
    if is_digit b then (if ltb 255 (v * 10 + (b - b'0')) then none else rest) else some (v, b ∷ s)

-- One number, which has at least one digit.
unfoldable pub octet : List ℕ → Option (ℕ × List ℕ)
octet [] = none
octet (b ∷ s) = if is_digit b then octet_digits 0 (b ∷ s) else none

abbrev pub after_dot : List ℕ → Option (List ℕ)
after_dot [] = none
after_dot (b ∷ s) = if b == b'.' then some s else none

abbrev pub at_end : List ℕ → Bool
at_end [] = true
at_end (b ∷ s) = false

-- The rounds left of the outer loop.
unfoldable pub parse_octets : ℕ → List ℕ → Option (List ℕ)
parse_octets zero s = none
parse_octets (suc zero) s = do (v, rest) ← octet s; if at_end rest then some (v ∷ []) else none
parse_octets (suc (suc n)) s = do
  (v, rest) ← octet s
  next ← after_dot rest
  vs ← parse_octets (suc n) next
  some (v ∷ vs)

unfoldable pub parse_ip4 : List ℕ → Option (List ℕ)
parse_ip4 s = parse_octets 4 s

-- `memcpy(p, ip, 4)`.
unfoldable pub put_bytes : List ℕ → ℕ → Bytes → Bytes
put_bytes [] p r = r
put_bytes (b ∷ bs) p r = put_bytes bs (p + 1) (put8 r p b)

abbrev pub put_ip4 : Option (List ℕ) → ℕ → Bytes → Option Bytes
put_ip4 none p r = none
put_ip4 (some ip) p r = some (put_bytes ip p r)

-- `v->umax && x > v->umax`.
abbrev pub above : ℕ → ℕ → Bool
above umax x = not (umax == 0) && ltb umax x

module _ (c_lib : Numbers) where
  unfoldable pub format_at : VarType → Bytes → ℕ → List ℕ
  format_at vt_i32 r p = signed (le32 r p)
  format_at vt_u32 r p = utoa10 (le32 r p)
  format_at vt_u16 r p = utoa10 (le16 r p)
  format_at vt_f32 r p = c_lib.print_float (le32 r p)
  format_at vt_ip4 r p = format_ip4 r p
  format_at vt_mac r p = format_mac r p
  format_at vt_upt r p = format_uptime (le32 r p)

  -- `n` is the size of the buffer, one byte of which is for the NUL.
  unfoldable pub format_field : VarEntry → ℕ → ℕ → Bytes → List ℕ
  format_field v idx n r = take (n - 1) (format_at v.var_type r (field_ptr v idx))

  -- `none` for -1.
  unfoldable pub write_at : VarType → ℕ → List ℕ → ℕ → Bytes → Option Bytes
  write_at vt_i32 umax s p r =
      let (x, rest) = c_lib.strtol 0 s in if at_end rest then some (put32 r p x) else none
  write_at vt_u32 umax s p r =
      let (x, rest) = c_lib.strtoul 0 s in
      if not (at_end rest) || above umax x then none else some (put32 r p x)
  write_at vt_u16 umax s p r =
      let (x, rest) = c_lib.strtoul 0 s in
      if not (at_end rest) || ltb 0xFFFF x || above umax x then none else some (put16 r p x)
  write_at vt_f32 umax s p r =
      let (x, rest) = c_lib.strtof s in if at_end rest then some (put32 r p x) else none
  write_at vt_ip4 umax s p r = put_ip4 (parse_ip4 s) p r
  write_at vt_mac umax s p r = none
  write_at vt_upt umax s p r = none

  unfoldable pub write_field : VarEntry → ℕ → List ℕ → Bytes → Option Bytes
  write_field v idx s = write_at v.var_type v.umax s (field_ptr v idx)
