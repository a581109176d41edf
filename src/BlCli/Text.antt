-- ===== src/BlCli/Text.antt =====
-- firmware/bootloader/src/bl_cli.c: characters, numbers and the framing of a response. A C string is
-- the list of its bytes without the terminating NUL.
use Prim.Native.Char.{code}
use Prim.Native.String.{String}
use drdro_mainboard.Base.{
  ℕ, zero, suc, ◌+◌, ◌-◌, ◌*◌, ◌/◌, ◌%◌, ◌^◌, bit_xor, Bool, true, false, ◌&&◌, leb, ◌==◌,
  if◌then◌else◌, List, [], ◌∷◌, ◌++◌, get_or, Option, some, none,
}

-- The bytes of a string literal.
abbrev pub codes : String → List ℕ
codes String.[] = []
codes (String.◌∷◌ c s) = code c ∷ codes s

-- `!strcmp(a, b)`.
abbrev pub str_eq : List ℕ → List ℕ → Bool
str_eq [] [] = true
str_eq [] (b ∷ q) = false
str_eq (a ∷ p) [] = false
str_eq (a ∷ p) (b ∷ q) = (a == b) && str_eq p q

unfoldable pub hex_digit : ℕ → ℕ
hex_digit v = get_or (codes "0123456789ABCDEF") (v % 16) 0

unfoldable pub to_hex2 : ℕ → List ℕ
to_hex2 b = hex_digit (b / 16) ∷ hex_digit b ∷ []

-- `none` for -1.
unfoldable pub from_hex : ℕ → Option ℕ
from_hex c =
    if leb b'0' c && leb c b'9'
    then some (c - b'0')
    else if leb b'A' c && leb c b'F'
    then some (c - b'A' + 10)
    else if leb b'a' c && leb c b'f'
    then some (c - b'a' + 10)
    else none

abbrev pub hex_pair : Option ℕ → Option ℕ → Option ℕ
hex_pair (some x) (some y) = some (x * 16 + y)
hex_pair (some x) none = none
hex_pair none _ = none

-- `is_hex2` and `parse_hex2` in one: the value, where the string is two hexadecimal digits.
unfoldable pub parse_hex2 : List ℕ → Option ℕ
parse_hex2 [] = none
parse_hex2 (a ∷ []) = none
parse_hex2 (a ∷ b ∷ []) = hex_pair (from_hex a) (from_hex b)
parse_hex2 (a ∷ b ∷ x ∷ s) = none

-- The exclusive or of the bytes.
unfoldable pub cksum_from : ℕ → List ℕ → ℕ
cksum_from c [] = c
cksum_from c (b ∷ s) = cksum_from (bit_xor c b) s

unfoldable pub cksum : List ℕ → ℕ
cksum s = cksum_from 0 s

-- The digits, the lowest first; `n` is what is left of the buffer.
unfoldable pub utoa_digits : ℕ → ℕ → List ℕ
utoa_digits zero v = []
utoa_digits (suc n) v =
    let rest = utoa_digits n (v / 10) in (b'0' + v % 10) ∷ (if v / 10 == 0 then [] else rest)

abbrev pub reversed : List ℕ → List ℕ → List ℕ
reversed [] out = out
reversed (c ∷ tmp) out = reversed tmp (c ∷ out)

unfoldable pub utoa10 : ℕ → List ℕ
utoa10 v = reversed (utoa_digits 11 v) []

-- The eight digits of a word, from the highest.
unfoldable pub hex8 : ℕ → List ℕ
hex8 v =
    hex_digit (v / 2 ^ 28)
    ∷ hex_digit (v / 2 ^ 24)
    ∷ hex_digit (v / 2 ^ 20)
    ∷ hex_digit (v / 2 ^ 16)
    ∷ hex_digit (v / 2 ^ 12)
    ∷ hex_digit (v / 2 ^ 8)
    ∷ hex_digit (v / 2 ^ 4)
    ∷ hex_digit v
    ∷ []

unfoldable pub parse_bank : List ℕ → Option ℕ
parse_bank s =
    if str_eq s (codes "0") then some 0 else if str_eq s (codes "1") then some 1 else none

-- What has been sent, and `s_crc`.
pub record Response : Type 0 where
  pub out : List ℕ
  pub crc : ℕ

abbrev pub tx_raw : List ℕ → Response → Response
tx_raw s r = record r { out = r.out ++ s }

unfoldable pub tx_str : List ℕ → Response → Response
tx_str s r = record { out = r.out ++ s; crc = cksum_from r.crc s }

unfoldable pub resp_begin : Response → Response
resp_begin r = record r { crc = 0 }

unfoldable pub resp_kv : List ℕ → List ℕ → Response → Response
resp_kv k v r = tx_str (codes "\n") (tx_str v (tx_str (codes "=") (tx_str k r)))

unfoldable pub resp_err : List ℕ → Response → Response
resp_err reason r = tx_str (codes "\n") (tx_str reason (tx_str (codes "error=") r))

unfoldable pub resp_end : Response → Response
resp_end r = tx_raw (codes "\n\n") (tx_raw (to_hex2 r.crc) (tx_raw (codes "crc=") r))

abbrev pub resp_kv_u : List ℕ → ℕ → Response → Response
resp_kv_u k v = resp_kv k (utoa10 v)

abbrev pub resp_kv_hex : List ℕ → ℕ → Response → Response
resp_kv_hex k v = resp_kv k (hex8 v)
