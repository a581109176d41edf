-- ===== src/Protocol.antt =====
-- firmware/app/src/Protocol.c and NetCli.c: the assembly of lines from bytes, on the serial line and
-- on a TCP connection. `pend_eol` is the line end that a second one may complete, 0 for none.
pub mod Lines
pub mod Output
pub mod Registry
pub mod Values
pub mod App
pub mod Variables
pub mod Commands
pub mod Updates
pub mod Process
pub mod Writable
pub mod Behaviour
pub mod Setting
pub mod BoardBehaviour
pub mod UpdateBehaviour
pub mod Answer
pub mod Repeat
pub mod Address
pub mod Elements
pub mod Refines
pub mod Stores
mod Tests
mod Trials
use drdro_mainboard.Base.{
  ℕ, zero, suc, ◌+◌, Bool, true, false, not, ◌&&◌, ◌||◌, ltb, ◌==◌, if◌then◌else◌, List, [], ◌∷◌,
  ◌++◌, length, Option, some, none,
}

abbrev pub protocol_line_max : ℕ
protocol_line_max = 128

-- `sLine` up to `sLen`, and `sPendEOL`.
pub record Assembler : Type 0 where
  pub line : List ℕ
  pub pend_eol : ℕ

-- The serial line keeps a finished line until the service takes it: `sReady`, where `sReadyFlag` is set.
pub record SerialFeed : Type 0 where
  pub assembler : Assembler
  pub ready : Option (List ℕ)

abbrev pub is_eol : ℕ → Bool
is_eol b = (b == 0x0D) || (b == 0x0A)

unfoldable pub protocol_feed_byte : ℕ → SerialFeed → SerialFeed
protocol_feed_byte b f =
    let a = f.assembler in
    if is_eol b
    then (if ltb 0 (length a.line)
        then record { ready = some a.line; assembler = record { line = []; pend_eol = b } }
        else if not (a.pend_eol == 0) && not (b == a.pend_eol)
        then record f { assembler = record a { pend_eol = 0 } }
        else record { ready = some []; assembler = record a { pend_eol = 0 } })
    else if ltb (length a.line) protocol_line_max
    then record f { assembler = record { line = a.line ++ b ∷ []; pend_eol = 0 } }
    else record f { assembler = record a { pend_eol = 0 } }

-- `feedByte` of the TCP command line: the finished line, where it returns 1.
unfoldable pub feed_byte : ℕ → Assembler → Option (List ℕ) × Assembler
feed_byte b a =
    if is_eol b
    then (if ltb 0 (length a.line)
        then (some a.line, record { line = []; pend_eol = b })
        else if not (a.pend_eol == 0) && not (b == a.pend_eol)
        then (none, record a { pend_eol = 0 })
        else (some [], record a { pend_eol = 0 }))
    else if ltb (length a.line) protocol_line_max
    then (none, record { line = a.line ++ b ∷ []; pend_eol = 0 })
    else (none, record a { pend_eol = 0 })

abbrev pub with_line : Option (List ℕ) → List (List ℕ) → List (List ℕ)
with_line none ls = ls
with_line (some l) ls = l ∷ ls

-- The lines that a chunk of bytes finishes, in their order.
unfoldable pub feed_bytes : List ℕ → Assembler → List (List ℕ) × Assembler
feed_bytes [] a = ([], a)
feed_bytes (b ∷ s) a =
    let (out, a1) = feed_byte b a in let (ls, a2) = feed_bytes s a1 in (with_line out ls, a2)
