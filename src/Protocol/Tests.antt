-- ===== src/Protocol/Tests.antt =====
-- Two lines with different ends, and one byte in both assemblers.
use drdro_mainboard.Base.{ℕ, ◌≡◌, ◌≤◌, refl, List, [], ◌∷◌, ◌++◌, length, replicate, none, arith}
use drdro_mainboard.Protocol.{SerialFeed, feed_bytes}
use drdro_mainboard.Protocol.Output.{
  UartOut, uart_tx_size, uart_io_write, all_out, uart_io_write-whole,
}
use drdro_mainboard.Protocol.Lines.{LineEnd, cr, crlf, stream, texts, feed_bytes-stream}

abbrev two_lines : List (List ℕ × LineEnd)
two_lines = ((b's' ∷ b't' ∷ b'a' ∷ []), crlf) ∷ ((b'h' ∷ []), cr) ∷ []

feed_bytes-stream_example :
    ((feed_bytes (stream two_lines) (record { line = []; pend_eol = 0x0D })).0 ≡ texts two_lines)
    × ((feed_bytes (stream two_lines) (record { line = []; pend_eol = 0x0D })).1.line ≡ [])
feed_bytes-stream_example = feed_bytes-stream two_lines 0x0D (
  record { content = (refl, (refl, (refl, tt))); nonempty = omega arith; short = omega arith },
  (record { content = (refl, tt); nonempty = omega arith; short = omega arith }, tt),
)

abbrev after_sta : SerialFeed
after_sta = record { assembler = record { line = b's' ∷ []; pend_eol = 0 }; ready = none }

abbrev nearly_full : UartOut
nearly_full = record { wire = []; buffer = replicate 767 b'x' }

uart_io_write-whole_example :
    ((uart_io_write 4 (b'o' ∷ b'k' ∷ []) nearly_full).0 ≡ [])
    × (all_out (uart_io_write 4 (b'o' ∷ b'k' ∷ []) nearly_full).1
        ≡ all_out nearly_full ++ b'o' ∷ b'k' ∷ [])
    × (length (uart_io_write 4 (b'o' ∷ b'k' ∷ []) nearly_full).1.buffer ≤ uart_tx_size)
uart_io_write-whole_example =
    uart_io_write-whole 4 (b'o' ∷ b'k' ∷ []) nearly_full (omega arith) (omega arith)
