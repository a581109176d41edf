-- ===== src/Ymodem.antt =====
-- firmware/bootloader/src/ymodem.c: the receiver. The serial line is the list of what
-- HAL_UART_Receive answers in turn, a byte or a timeout, and silence after its end; what the receiver
-- sends is collected.
pub mod Frame
pub mod Account
pub mod Rounds
pub mod Sender
pub mod Stall
mod Tests
use drdro_mainboard.Base.{
  ℕ, zero, suc, ◌+◌, ◌-◌, ◌*◌, ◌/◌, ◌%◌, ◌^◌, bit_xor, Bool, true, false, not, ◌&&◌, ltb, leb, ◌==◌,
  if◌then◌else◌, u8, u16, u32, Bytes, List, [], ◌∷◌, ◌++◌, length, drop, get_or, Option, some, none,
}
use drdro_mainboard.Hal.{FlashHal}
use drdro_mainboard.Flash.{Session, flash_program_begin, flash_program_end, flash_program_write}

abbrev pub soh : ℕ
soh = 0x01

abbrev pub stx : ℕ
stx = 0x02

abbrev pub eot_byte : ℕ
eot_byte = 0x04

abbrev pub ack : ℕ
ack = 0x06

abbrev pub nak : ℕ
nak = 0x15

abbrev pub can_byte : ℕ
can_byte = 0x18

abbrev pub crc_c : ℕ
crc_c = 0x43

abbrev pub start_retries : ℕ
start_retries = 20

abbrev pub Line : Type 0
Line = List (Option ℕ)

-- An answer, and the line after it.
abbrev pub Rx : Type 0 → Type 0
Rx A = Option A × Line

abbrev pub rx : Line → Rx ℕ
rx [] = (none, [])
rx (a ∷ l) = (a, l)

-- `c = (c & 0x8000U) ? (uint16_t)((c << 1) ^ 0x1021U) : (uint16_t)(c << 1)`.
unfoldable pub crc16_bit : ℕ → ℕ
crc16_bit c = if leb 0x8000 c then u16 (bit_xor (c * 2) 0x1021) else u16 (c * 2)

-- The eight rounds of a byte, with the rounds left.
unfoldable pub crc16_bits : ℕ → ℕ → ℕ
unfolding crc16_bit
crc16_bits zero c = c
crc16_bits (suc n) c = crc16_bits n (crc16_bit c)

unfoldable pub crc16_loop : ℕ → List ℕ → ℕ
unfolding crc16_bits
crc16_loop c [] = c
crc16_loop c (b ∷ p) = crc16_loop (crc16_bits 8 (bit_xor c (b * 256))) p

unfoldable pub crc16 : List ℕ → ℕ
unfolding crc16_loop
crc16 p = crc16_loop 0 p

-- What `recv_packet` returns: a block with its number and data (SOH and STX), EOT, CAN, or 0.
pub data Packet : Type 0 where
  block : ℕ → List ℕ → Packet
  eot can bad : Packet

-- `if (rx(...)) return 0`, and the rest.
abbrev pub or_bad : {A : Type 0} → Rx A → (A → Line → Packet × Line) → Packet × Line
or_bad r next = elim r.0 [ some a ↦ next a r.1 | none ↦ (bad, r.1) ]

abbrev pub or_none : {A B : Type 0} → Rx A → (A → Line → Rx B) → Rx B
or_none r next = elim r.0 [ some a ↦ next a r.1 | none ↦ (none, r.1) ]

-- The loop over the data bytes, with the bytes left.
unfoldable pub rx_bytes : ℕ → Line → Rx (List ℕ)
rx_bytes zero l = (some [], l)
rx_bytes (suc n) l = or_none (rx l) λ b l1. or_none (rx_bytes n l1) λ p l2. (some (b ∷ p), l2)

-- The checks at the end of a packet; the two bytes of the sum do not overlap.
unfoldable pub check_packet : ℕ → ℕ → List ℕ → ℕ → ℕ → Packet
check_packet b1 b2 p ch cl =
    if not (bit_xor b1 b2 == 0xFF)
    then bad
    else if not (crc16 p == ch * 256 + cl)
    then bad
    else block b1 p

-- A packet after its header byte.
unfoldable pub recv_block : ℕ → Line → Packet × Line
recv_block dlen l = or_bad (rx l) λ b1 l1. or_bad (rx l1) λ b2 l2.
    or_bad (rx_bytes dlen l2)
      λ p l3. or_bad (rx l3) λ ch l4. or_bad (rx l4) λ cl l5. (check_packet b1 b2 p ch cl, l5)

unfoldable pub recv_packet : Line → Packet × Line
recv_packet l = or_bad (rx l) λ hdr l1.
    if hdr == soh
    then recv_block 128 l1
    else if hdr == stx
    then recv_block 1024 l1
    else if hdr == eot_byte
    then (eot, l1)
    else if hdr == can_byte
    then (can, l1)
    else (bad, l1)

abbrev pub is_digit : ℕ → Bool
is_digit c = leb 0x30 c && leb c 0x39

unfoldable pub skip_name : List ℕ → List ℕ
skip_name [] = []
skip_name (c ∷ p) = if c == 0 then c ∷ p else skip_name p

unfoldable pub size_digits : ℕ → List ℕ → ℕ
size_digits sz [] = sz
size_digits sz (c ∷ p) = if is_digit c then size_digits (u32 (sz * 10 + (c - 0x30))) p else sz

unfoldable pub parse_size : List ℕ → ℕ
parse_size p = size_digits 0 (drop 1 (skip_name p))

pub data YmCode : Type 0 where
  ym_ok ym_timeout ym_cancelled ym_flash_err : YmCode

-- `sent` collects the bytes of `tx`; the data of a block travels with its packet.
pub record Transfer (D : Type 0) : Type 0 where
  pub flash : Session D
  pub line : Line
  pub sent : List ℕ
  pub written : ℕ
  pub expected : ℕ

-- The receiver with a packet to deal with, or at its end.
pub data Progress (D : Type 0) : Type 0 where
  going : Packet → Transfer D → Progress D
  ended : YmCode → Transfer D → Progress D

abbrev pub contents : List ℕ → Bytes
contents p i = get_or p i 0

module _ {D : Type 0} where
  abbrev pub tx : ℕ → Transfer D → Transfer D
  tx b t = record t { sent = t.sent ++ b ∷ [] }

  -- `if ((r == SOH || r == STX) && blk == 0) tx(ACK)`.
  abbrev pub ack_header : Packet → Transfer D → Transfer D
  ack_header (block blk body) t = if blk == 0 then tx ack t else t
  ack_header eot t = t
  ack_header can t = t
  ack_header bad t = t

  unfoldable pub next_packet : Transfer D → Progress D
  next_packet t = let (p, l) = recv_packet t.line in going p (record t { line = l })

  -- `if (r == SOH || r == STX || r == CAN) break`, else another try.
  abbrev pub start_with :
      Packet → Transfer D → (Transfer D → Packet × Transfer D) → Packet × Transfer D
  start_with p t next = elim p [
    | block blk body ↦ (block blk body, t)
    | can ↦ (can, t)
    | eot ↦ next t
    | bad ↦ next t
  ]

  -- The handshake, with the tries left. What is neither a block nor CAN at the end is 0.
  unfoldable pub ym_start : ℕ → Transfer D → Packet × Transfer D
  ym_start zero t = (bad, t)
  ym_start (suc n) t =
      let (p, l) = recv_packet t.line in
      start_with p (record t { line = l; sent = t.sent ++ crc_c ∷ [] }) (ym_start n)

module _ {D : Type 0} (hal : FlashHal D) where
  abbrev pub close : YmCode → Transfer D → Progress D
  close code t = ended code (record t { flash = flash_program_end hal t.flash })

  -- The end of the batch after the second EOT.
  unfoldable pub ym_finish : Transfer D → Progress D
  ym_finish t =
      let (p, l) = recv_packet t.line in
      let t1 : Transfer D = record t { line = l; sent = (t.sent ++ ack ∷ []) ++ crc_c ∷ [] } in
      close ym_ok (ack_header p t1)

  -- A block: the one expected is written, the last one again is acknowledged, another is refused.
  unfoldable pub ym_block : ℕ → List ℕ → Transfer D → Progress D
  ym_block blk body t =
      let (rc, f) = flash_program_write hal t.written (λ d. contents body) (length body) t.flash in
      if blk == t.expected
      then (if rc
          then next_packet (
              tx ack (record t {
                flash = f;
                written = u32 (t.written + length body);
                expected = u8 (t.expected + 1);
              }))
          else close ym_flash_err (tx can_byte (tx can_byte (record t { flash = f }))))
      else if blk == u8 (t.expected + 255)
      then next_packet (tx ack t)
      else next_packet (tx nak t)

  -- What follows the NAK of the first EOT.
  unfoldable pub ym_second : Rx ℕ → Transfer D → Progress D
  ym_second (some b, l) t =
      if b == eot_byte
      then ym_finish (record t { line = l })
      else next_packet (record t { line = l })
  ym_second (none, l) t = next_packet (record t { line = l })

  -- One round of `for (;;)`, with the packet that the round before received.
  unfoldable pub ym_round : Packet → Transfer D → Progress D
  ym_round (block blk body) t = ym_block blk body t
  ym_round eot t = ym_second (rx t.line) (tx nak t)
  ym_round can t = close ym_cancelled t
  ym_round bad t = next_packet (tx nak t)

  -- At most so many rounds.
  unfoldable pub ym_rounds : ℕ → Progress D → Progress D
  ym_rounds zero r = r
  ym_rounds (suc n) (ended code t) = ended code t
  ym_rounds (suc n) (going p t) = ym_rounds n (ym_round p t)

  -- What the first packet makes of the transfer, and the size it announces.
  unfoldable pub ym_header : Packet → Transfer D → ℕ × Progress D
  ym_header (block blk body) t =
      if blk == 0
      then (if get_or body 0 0 == 0
          then (0, close ym_timeout (tx ack t))
          else (parse_size body, next_packet (tx crc_c (tx ack t))))
      else (0, going (block blk body) t)
  ym_header can t = (0, close ym_cancelled t)
  ym_header eot t = (0, close ym_timeout t)
  ym_header bad t = (0, close ym_timeout t)

  -- A transfer of at most `rounds` rounds into the region of `base` and `sector`: the size that the
  -- header announced, and where the transfer stands.
  unfoldable pub ymodem_receive : ℕ → ℕ → ℕ → Line → Session D → ℕ × Progress D
  ymodem_receive rounds base sector line s =
      let (p, t) = ym_start start_retries (record {
        flash = flash_program_begin hal base sector s;
        line = line;
        sent = [];
        written = 0;
        expected = 1;
      }) in
      let (filesize, r) = ym_header p t in (filesize, ym_rounds rounds r)

-- `*out_size`, once the transfer has ended as YM_OK.
abbrev pub out_size : {D : Type 0} → ℕ → Transfer D → ℕ
out_size filesize t = if filesize == 0 then t.written else filesize
