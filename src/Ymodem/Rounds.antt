-- ===== src/Ymodem/Rounds.antt =====
-- Every round of the receiver keeps the account of what it has written.
use drdro_mainboard.Base.{
  ℕ, zero, suc, ◌+◌, ◌≤◌, ◌≡◌, inl, refl, ap, ◌∙◌, sym, subst, Bool, ◌==◌, eq-of-==, if◌then◌else◌,
  if_intro, u8, u32, List, [], ◌∷◌, ◌++◌, append_assoc, length, get_or, some, none, arith,
}
use drdro_mainboard.Layout.{sector_begin}
use drdro_mainboard.Hal.{FlashHal, IsFlash}
use drdro_mainboard.Flash.{Session, flash_program_begin, flash_program_write}
use drdro_mainboard.Ymodem.{
  Line, Rx, rx, eot_byte, ack, nak, can_byte, crc_c, ack_header, start_with, Packet, block, eot,
  can, bad, recv_packet, start_retries, parse_size, ym_ok, ym_timeout, ym_cancelled, ym_flash_err,
  Transfer, Progress, going, ended, contents, tx, next_packet, ym_start, close, ym_finish, ym_block,
  ym_second, ym_round, ym_rounds, ym_header, ymodem_receive,
}
use drdro_mainboard.Ymodem.Frame.{
  answers, frame, IsLine, Suffix, Suffix-IsLine, IsPacket, recv_packet_lem, rx-Suffix,
}
use drdro_mainboard.Ymodem.Account.{
  Blocks, no_block, then_block, Taken, Accounted, Taken-same, Taken-noise, write_next, close-Taken,
}

module _ {D : Type 0} (hal : FlashHal D) (laws : IsFlash hal) where
  -- Waiting for the next packet keeps the account.
  next_lem :
      (whole : Line) (base k : ℕ) (body : List ℕ) (c : Line) (t : Transfer D)
      → IsLine whole
      → c ++ t.line ≡ whole
      → Taken hal whole base k body c t
      → Accounted hal whole base (next_packet t)
  unfolding next_packet
  next_lem whole base k body c t h e taken =
      let (front, eq, packet) = recv_packet_lem t.line (Suffix-IsLine t.line whole (c, e) h) in
      (
        k,
        body,
        c,
        front,
        ap (◌++◌ c) eq ∙ e,
        packet,
        Taken-same hal whole base k body c t (record t { line = (recv_packet t.line).1 }) refl refl
            refl taken,
      )

  -- Noise before the next packet.
  skip_lem :
      (whole : Line) (base k : ℕ) (body : List ℕ) (c skip : Line) (t t' : Transfer D)
      → IsLine whole
      → c ++ (skip ++ t.line) ≡ whole
      → Taken hal whole base k body c t
      → t'.flash ≡ t.flash
      → t'.written ≡ t.written
      → t'.expected ≡ t.expected
      → t'.line ≡ t.line
      → Accounted hal whole base (next_packet t')
  skip_lem whole base k body c skip t t' h e taken f n x l =
      next_lem whole base k body (c ++ skip) t' h
        (append_assoc c skip t'.line ∙ ap (λ (q : Line). c ++ (skip ++ q)) l ∙ e)
        (Taken-same hal whole base k body (c ++ skip) t t' f n x
          (Taken-noise hal whole base k body c skip t taken))

  block_lem :
      (whole : Line) (base k : ℕ) (body : List ℕ) (c front : Line) (blk : ℕ) (p : List ℕ)
      (t : Transfer D)
      → IsLine whole
      → c ++ (front ++ t.line) ≡ whole
      → IsPacket (block blk p) front
      → Taken hal whole base k body c t
      → Accounted hal whole base (ym_block hal blk p t)
  unfolding ym_block
  block_lem whole base k body c front blk p t h e packet taken =
      if_intro P (blk == t.expected)
        (if rc
          then next_packet t1
          else close hal ym_flash_err (tx can_byte (tx can_byte (record t { flash = f }))))
        (if blk == u8 (t.expected + 255) then next_packet (tx ack t) else next_packet (tx nak t))
        (λ due.
          if_intro P rc (next_packet t1)
            (close hal ym_flash_err (tx can_byte (tx can_byte (record t { flash = f }))))
            (λ done.
              next_lem whole base (suc k) (body ++ p) (c ++ front) t1 h
                (append_assoc c front t.line ∙ e)
                (record {
                  blocks =
                      subst (λ (q : Line). Blocks (c ++ q) (suc k) (body ++ p))
                        (ap (λ (b : ℕ). answers (frame b p))
                            (sym (eq-of-== blk t.expected due ∙ taken.number))
                          ∙ sym packet.0)
                        (then_block taken.blocks p);
                  number = omega (arith, taken.number);
                  written =
                      write_next hal laws base body p t taken.written packet.2 packet.4 done t1 refl
                        refl;
                }))
            (λ failed. tt))
        (λ other.
          if_intro P (blk == u8 (t.expected + 255)) (next_packet (tx ack t))
            (next_packet (tx nak t))
            (λ again. skip_lem whole base k body c front t (tx ack t) h e taken refl refl refl refl)
            (λ gap. skip_lem whole base k body c front t (tx nak t) h e taken refl refl refl refl))
    where
      P : Progress D → Type 0
      P = Accounted hal whole base

      rc : Bool
      rc = (flash_program_write hal t.written (λ d. contents p) (length p) t.flash).0

      f : Session D
      f = (flash_program_write hal t.written (λ d. contents p) (length p) t.flash).1

      t1 : Transfer D
      t1 = tx ack (record t {
        flash = f;
        written = u32 (t.written + length p);
        expected = u8 (t.expected + 1);
      })

  -- The transfer's end, after a last packet that is not looked at further.
  end_lem :
      (whole : Line) (base k : ℕ) (body : List ℕ) (c skip : Line) (t t' : Transfer D)
      → c ++ (skip ++ t'.line) ≡ whole
      → Taken hal whole base k body c t
      → t'.flash ≡ t.flash
      → t'.written ≡ t.written
      → t'.expected ≡ t.expected
      → Accounted hal whole base (close hal ym_ok t')
  end_lem whole base k body c skip t t' e taken f n x = (
    k,
    body,
    c ++ skip,
    append_assoc c skip t'.line ∙ e,
    close-Taken hal laws whole base k body (c ++ skip) t' (
        Taken-same hal whole base k body (c ++ skip) t t' f n x
          (Taken-noise hal whole base k body c skip t taken)),
  )

  ack_header_lem :
      (p : Packet) (t : Transfer D)
      → ((ack_header p t).flash ≡ t.flash)
        × ((ack_header p t).written ≡ t.written)
        × ((ack_header p t).expected ≡ t.expected)
        × ((ack_header p t).line ≡ t.line)
  ack_header_lem (block blk p) t = ground arith
  ack_header_lem eot t = (refl, refl, refl, refl)
  ack_header_lem can t = (refl, refl, refl, refl)
  ack_header_lem bad t = (refl, refl, refl, refl)

  finish_lem :
      (whole : Line) (base k : ℕ) (body : List ℕ) (c : Line) (t : Transfer D)
      → IsLine whole
      → c ++ t.line ≡ whole
      → Taken hal whole base k body c t
      → Accounted hal whole base (ym_finish hal t)
  unfolding ym_finish
  finish_lem whole base k body c t h e taken =
      let (front, eq, packet) = recv_packet_lem t.line (Suffix-IsLine t.line whole (c, e) h) in
      let t1 : Transfer D = record t {
        line = (recv_packet t.line).1;
        sent = (t.sent ++ ack ∷ []) ++ crc_c ∷ [];
      } in
      let there : c ++ (front ++ t1.line) ≡ whole = ap (◌++◌ c) eq ∙ e in
      let same = ack_header_lem (recv_packet t.line).0 t1 in
      end_lem whole base k body c front t (ack_header (recv_packet t.line).0 t1)
        (ap (λ (q : Line). c ++ (front ++ q)) same.3 ∙ there) taken same.0 same.1 same.2

  second_lem :
      (whole : Line) (base k : ℕ) (body : List ℕ) (c : Line) (r : Rx ℕ) (t : Transfer D)
      → IsLine whole
      → Suffix r.1 t.line
      → c ++ t.line ≡ whole
      → Taken hal whole base k body c t
      → Accounted hal whole base (ym_second hal r t)
  unfolding ym_second
  second_lem whole base k body c (some b, l) t h (front, eq) e taken =
      let t1 : Transfer D = record t { line = l } in
      let there : (c ++ front) ++ l ≡ whole = append_assoc c front l ∙ ap (◌++◌ c) eq ∙ e in
      let moved =
        Taken-same hal whole base k body (c ++ front) t t1 refl refl refl
          (Taken-noise hal whole base k body c front t taken) in
      if_intro (Accounted hal whole base) (b == eot_byte) (ym_finish hal t1) (next_packet t1)
        (λ q. finish_lem whole base k body (c ++ front) t1 h there moved)
        (λ q. next_lem whole base k body (c ++ front) t1 h there moved)
  second_lem whole base k body c (none, l) t h (front, eq) e taken =
      skip_lem whole base k body c front (record t { line = l }) (record t { line = l }) h
        (ap (◌++◌ c) eq ∙ e)
        (Taken-same hal whole base k body c t (record t { line = l }) refl refl refl taken) refl
        refl refl refl

  cancel_lem :
      (whole : Line) (base k : ℕ) (body : List ℕ) (c : Line) (t : Transfer D)
      → c ++ t.line ≡ whole
      → Taken hal whole base k body c t
      → Accounted hal whole base (close hal ym_cancelled t)
        × Accounted hal whole base (close hal ym_timeout t)
  cancel_lem whole base k body c t e taken = (
    (k, body, c, e, close-Taken hal laws whole base k body c t taken),
    (k, body, c, e, close-Taken hal laws whole base k body c t taken),
  )

  -- One round keeps the account.
  round_lem :
      (whole : Line) (base : ℕ) (p : Packet) (t : Transfer D)
      → IsLine whole
      → Accounted hal whole base (going p t)
      → Accounted hal whole base (ym_round hal p t)
  unfolding ym_round
  round_lem whole base (block blk p) t h (k, body, c, front, e, packet, taken) =
      block_lem whole base k body c front blk p t h e packet taken
  round_lem whole base eot t h (k, body, c, front, e, packet, taken) =
      second_lem whole base k body (c ++ front) (rx t.line) (tx nak t) h (rx-Suffix t.line)
        (append_assoc c front t.line ∙ e)
        (Taken-same hal whole base k body (c ++ front) t (tx nak t) refl refl refl
          (Taken-noise hal whole base k body c front t taken))
  round_lem whole base can t h (k, body, c, front, e, packet, taken) =
      (cancel_lem whole base k body (c ++ front) t (append_assoc c front t.line ∙ e)
        (Taken-noise hal whole base k body c front t taken)).0
  round_lem whole base bad t h (k, body, c, front, e, packet, taken) =
      skip_lem whole base k body c front t (tx nak t) h e taken refl refl refl refl

  rounds_lem :
      (n : ℕ) (whole : Line) (base : ℕ) (r : Progress D)
      → IsLine whole
      → Accounted hal whole base r
      → Accounted hal whole base (ym_rounds hal n r)
  unfolding ym_rounds
  rounds_lem zero whole base r h a = a
  rounds_lem (suc n) whole base (ended code t) h a = a
  rounds_lem (suc n) whole base (going p t) h a =
      rounds_lem n whole base (ym_round hal p t) h (round_lem whole base p t h a)

  -- What a try of the handshake received.
  with_lem :
      (p : Packet) (whole : Line) (base : ℕ) (c front : Line) (t : Transfer D)
      (next : Transfer D → Packet × Transfer D)
      → c ++ (front ++ t.line) ≡ whole
      → IsPacket p front
      → Taken hal whole base 0 [] c t
      → Accounted hal whole base (going (next t).0 (next t).1)
      → Accounted hal whole base (going (start_with p t next).0 (start_with p t next).1)
  with_lem (block blk body) whole base c front t next e packet taken more =
      (0, [], c, front, e, packet, taken)
  with_lem can whole base c front t next e packet taken more = (0, [], c, front, e, tt, taken)
  with_lem eot whole base c front t next e packet taken more = more
  with_lem bad whole base c front t next e packet taken more = more

  -- The handshake passes over what is neither a block nor CAN.
  start_lem :
      (n : ℕ) (whole : Line) (base : ℕ) (c : Line) (t : Transfer D)
      → IsLine whole
      → c ++ t.line ≡ whole
      → Taken hal whole base 0 [] c t
      → Accounted hal whole base (going (ym_start n t).0 (ym_start n t).1)
  unfolding ym_start
  start_lem zero whole base c t h e taken = (0, [], c, [], e, tt, taken)
  start_lem (suc n) whole base c t h e taken =
      let (front, eq, packet) = recv_packet_lem t.line (Suffix-IsLine t.line whole (c, e) h) in
      let t1 : Transfer D = record t {
        line = (recv_packet t.line).1;
        sent = t.sent ++ crc_c ∷ [];
      } in
      let there : c ++ (front ++ t1.line) ≡ whole = ap (◌++◌ c) eq ∙ e in
      let same = Taken-same hal whole base 0 [] c t t1 refl refl refl taken in
      with_lem (recv_packet t.line).0 whole base c front t1 (ym_start n) there packet same (
        start_lem n whole base (c ++ front) t1 h (append_assoc c front t1.line ∙ there)
          (Taken-noise hal whole base 0 [] c front t1 same))

  header_lem :
      (whole : Line) (base : ℕ) (p : Packet) (t : Transfer D)
      → IsLine whole
      → Accounted hal whole base (going p t)
      → Accounted hal whole base (ym_header hal p t).1
  unfolding ym_header
  header_lem whole base (block blk p) t h (k, body, c, front, e, packet, taken) =
      if_intro (λ (r : ℕ × Progress D). Accounted hal whole base r.1) (blk == 0)
        (if get_or p 0 0 == 0
          then (0, close hal ym_timeout (tx ack t))
          else (parse_size p, next_packet (tx crc_c (tx ack t))))
        (0, going (block blk p) t)
        (λ q.
          if_intro (λ (r : ℕ × Progress D). Accounted hal whole base r.1) (get_or p 0 0 == 0)
            (0, close hal ym_timeout (tx ack t)) (parse_size p, next_packet (tx crc_c (tx ack t)))
            (λ q.
              (cancel_lem whole base k body (c ++ front) (tx ack t)
                (append_assoc c front t.line ∙ e)
                (Taken-same hal whole base k body (c ++ front) t (tx ack t) refl refl refl
                  (Taken-noise hal whole base k body c front t taken))).1)
            (λ q.
              skip_lem whole base k body c front t (tx crc_c (tx ack t)) h e taken refl refl refl
                refl))
        (λ q. (k, body, c, front, e, packet, taken))
  header_lem whole base can t h (k, body, c, front, e, packet, taken) =
      (cancel_lem whole base k body (c ++ front) t (append_assoc c front t.line ∙ e)
        (Taken-noise hal whole base k body c front t taken)).0
  header_lem whole base eot t h (k, body, c, front, e, packet, taken) =
      (cancel_lem whole base k body (c ++ front) t (append_assoc c front t.line ∙ e)
        (Taken-noise hal whole base k body c front t taken)).1
  header_lem whole base bad t h (k, body, c, front, e, packet, taken) =
      (cancel_lem whole base k body (c ++ front) t (append_assoc c front t.line ∙ e)
        (Taken-noise hal whole base k body c front t taken)).1

  -- Whatever stands on the line and however often the loop runs, a transfer into the region of one of
  -- the sectors 5 to 7 is accounted for as long as no write to the flash has failed: what it has
  -- written, which stands at the start of the region byte for byte, is the data of blocks numbered 1,
  -- 2, 3 and so on, whose frames with their CRC-16 stand in this order on the consumed part of the
  -- line. This holds before every packet and at the end.
  pub ymodem_receive-Accounted :
      (rounds sector : ℕ) (line : Line) (s : Session D)
      → 5 ≤ sector
      → sector ≤ 7
      → IsLine line
      → Accounted hal line
          (sector_begin sector)
          (ymodem_receive hal rounds (sector_begin sector) sector line s).1
  unfolding ymodem_receive flash_program_begin
  ymodem_receive-Accounted rounds sector line s lo hi h =
      rounds_lem rounds line base (ym_header hal started.0 started.1).1 h (
        header_lem line base started.0 started.1 h (
          start_lem start_retries line base [] t h refl (record {
            blocks = no_block [];
            number = refl;
            written = record {
              on = record { sector_high = lo; sector_low = hi; at_base = refl };
              at = refl;
              count = refl;
              within = omega arith;
              erased = inl refl;
              content = λ i lt. absurd (omega arith);
            };
          })))
    where
      base : ℕ
      base = sector_begin sector

      t : Transfer D
      t = record {
        flash = flash_program_begin hal base sector s;
        line = line;
        sent = [];
        written = 0;
        expected = 1;
      }

      started : Packet × Transfer D
      started = ym_start start_retries t
