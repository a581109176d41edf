-- ===== src/Protocol/Output.antt =====
-- firmware/app/src/Protocol.c: the output buffer of the serial line. What is flushed goes out on the
-- wire in one burst.
use drdro_mainboard.Base.{
  ℕ, zero, suc, ◌+◌, ◌-◌, ◌*◌, ◌≤◌, ◌<◌, ◌≡◌, refl, ap, ◌∙◌, sym, false, Bool-cases, ◌⊎◌, inl, inr,
  ltb, ◌==◌, eq-of-==, if◌then◌else◌, List, [], ◌∷◌, ◌++◌, append_assoc, append-nil, length, take,
  drop, length-append, length-take, length-drop, take-append-drop, arith,
}

abbrev pub uart_tx_size : ℕ
uart_tx_size = 768

-- The bytes on the wire, and those in `sUartTxBuf` up to `sUartTxLen`.
pub record UartOut : Type 0 where
  pub wire : List ℕ
  pub buffer : List ℕ

unfoldable pub uart_flush : UartOut → UartOut
uart_flush u = if length u.buffer == 0 then u else record { wire = u.wire ++ u.buffer; buffer = [] }

-- One turn of `while (n)`: a full buffer is flushed, otherwise what fits is copied.
unfoldable pub write_turn : List ℕ → UartOut → List ℕ × UartOut
write_turn s u =
    let room = uart_tx_size - length u.buffer in
    let chunk = if ltb (length s) room then length s else room in
    if room == 0
    then (s, uart_flush u)
    else (drop chunk s, record u { buffer = u.buffer ++ take chunk s })

-- The loop with the turns left, and the bytes that are not written yet.
unfoldable pub uart_io_write : ℕ → List ℕ → UartOut → List ℕ × UartOut
uart_io_write zero s u = (s, u)
uart_io_write (suc n) [] u = ([], u)
uart_io_write (suc n) (b ∷ s) u = let (rest, u1) = write_turn (b ∷ s) u in uart_io_write n rest u1

-- The start and the end of a response.
unfoldable pub uart_io_begin : UartOut → UartOut
uart_io_begin u = record u { buffer = [] }

unfoldable pub uart_io_end : UartOut → UartOut
unfolding uart_flush
uart_io_end = uart_flush

-- All that was written: on the wire, then in the buffer.
abbrev pub all_out : UartOut → List ℕ
all_out u = u.wire ++ u.buffer

flush_lem :
    (u : UartOut) → (all_out (uart_flush u) ≡ all_out u) × (length (uart_flush u).buffer ≡ 0)
unfolding uart_flush
flush_lem u = elim (Bool-cases (length u.buffer == 0)) [
  | inl e ↦ rw e (refl, eq-of-== (length u.buffer) 0 e)
  | inr e ↦ rw e (append-nil (u.wire ++ u.buffer), refl)
]

-- A turn loses nothing and keeps to the buffer; it writes a byte, or makes room.
record Turned (s : List ℕ) (u : UartOut) (r : List ℕ × UartOut) : Type 0 where
  kept : all_out r.1 ++ r.0 ≡ all_out u ++ s
  bound : length r.1.buffer ≤ uart_tx_size
  less :
      (length r.0 < length s)
      ⊎ ((length r.0 ≡ length s) × (length u.buffer ≡ uart_tx_size) × (length r.1.buffer ≡ 0))

turn_lem :
    (s : List ℕ) (u : UartOut)
    → 0 < length s
    → length u.buffer ≤ uart_tx_size
    → Turned s u (write_turn s u)
unfolding write_turn
turn_lem s u some_left fits = elim (Bool-cases (uart_tx_size - length u.buffer == 0)) [
  | inl e ↦ rw e (record {
    kept = ap (λ (q : List ℕ). q ++ s) (flush_lem u).0;
    bound = omega (arith, (flush_lem u).1);
    less =
        inr (refl, omega (arith, eq-of-== (uart_tx_size - length u.buffer) 0 e), (flush_lem u).1);
  })
  | inr e ↦ rw e (record {
    kept =
        ap (λ (q : List ℕ). q ++ drop chunk s) (sym (append_assoc u.wire u.buffer (take chunk s)))
        ∙ append_assoc (all_out u) (take chunk s) (drop chunk s)
        ∙ ap (◌++◌ (all_out u)) (take-append-drop chunk s);
    bound = omega (arith, length-append u.buffer (take chunk s), length-take chunk s, range e);
    less = inl (omega (arith, length-drop chunk s, range e));
  })
]
  where
    room : ℕ
    room = uart_tx_size - length u.buffer

    chunk : ℕ
    chunk = if ltb (length s) room then length s else room

    range : (room == 0) ≡ false → (chunk ≤ room) × (0 < chunk)
    range e = ground (arith, e, some_left)

-- One turn fewer is enough where there is room.
turns_lem :
    (n : ℕ) (s : List ℕ) (u : UartOut)
    → (2 * length s ≤ n) ⊎ ((2 * length s ≤ n + 1) × (length u.buffer < uart_tx_size))
    → length u.buffer ≤ uart_tx_size
    → ((uart_io_write n s u).0 ≡ [])
      × (all_out (uart_io_write n s u).1 ≡ all_out u ++ s)
      × (length (uart_io_write n s u).1.buffer ≤ uart_tx_size)
unfolding uart_io_write
turns_lem zero [] u enough fits = (refl, sym (append-nil (all_out u)), fits)
turns_lem zero (b ∷ s) u enough fits = absurd (omega arith)
turns_lem (suc n) [] u enough fits = (refl, sym (append-nil (all_out u)), fits)
turns_lem (suc n) (b ∷ s) u enough fits =
    let turn = turn_lem (b ∷ s) u (omega arith) fits in
    let r = write_turn (b ∷ s) u in
    let done =
      turns_lem n r.0 r.1
        (elim turn.less [
          | inl lt ↦ inl (omega arith)
          | inr (eq, full, empty) ↦ inr (omega arith, omega arith)
        ])
        turn.bound in
    (done.0, done.1 ∙ turn.kept, done.2)

-- A response goes out whole and in order: in twice as many turns as there are bytes, any number of
-- bytes is written, what is on the wire and then in the buffer is what was there followed by them, and
-- the buffer of 768 bytes is never exceeded.
pub uart_io_write-whole :
    (n : ℕ) (s : List ℕ) (u : UartOut)
    → 2 * length s ≤ n
    → length u.buffer ≤ uart_tx_size
    → ((uart_io_write n s u).0 ≡ [])
      × (all_out (uart_io_write n s u).1 ≡ all_out u ++ s)
      × (length (uart_io_write n s u).1.buffer ≤ uart_tx_size)
uart_io_write-whole n s u enough fits = turns_lem n s u (inl enough) fits
