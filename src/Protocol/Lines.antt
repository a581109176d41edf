-- ===== src/Protocol/Lines.antt =====
-- The two assemblers agree, and lines come out as they were sent.
use drdro_mainboard.Base.{
  ℕ, ◌+◌, ◌≤◌, ◌<◌, ◌≡◌, refl, ap, ◌∙◌, sym, true, false, List, [], ◌∷◌, ◌++◌, append_assoc,
  append-nil, length, length-append, All, Option, some, none, arith,
}
use drdro_mainboard.Protocol.{
  protocol_line_max, Assembler, SerialFeed, is_eol, protocol_feed_byte, feed_byte, with_line,
  feed_bytes,
}

-- What a finished line makes of the one that waits.
abbrev pub or_else : Option (List ℕ) → Option (List ℕ) → Option (List ℕ)
or_else none r = r
or_else (some l) r = some l

-- The serial assembler and that of the TCP connection are the same: on every byte and in every state
-- they go on alike, and the one makes ready what the other returns.
pub protocol_feed_byte-feed_byte :
    (b : ℕ) (f : SerialFeed)
    → let (out, a) = feed_byte b f.assembler in
      protocol_feed_byte b f ≡ record { assembler = a; ready = or_else out f.ready }
unfolding protocol_feed_byte feed_byte
protocol_feed_byte-feed_byte b f = ground arith

-- Neither end of a line.
abbrev pub IsContent : ℕ → Type 0
IsContent b = is_eol b ≡ false

-- The ways a line can end.
pub data LineEnd : Type 0 where
  cr lf crlf : LineEnd

abbrev pub end_bytes : LineEnd → List ℕ
end_bytes cr = 0x0D ∷ []
end_bytes lf = 0x0A ∷ []
end_bytes crlf = 0x0D ∷ 0x0A ∷ []

-- A text that is one line: not empty, and no longer than the buffer.
pub record IsLineText (s : List ℕ) : Type 0 where
  pub content : All IsContent s
  pub nonempty : 0 < length s
  pub short : length s ≤ protocol_line_max

abbrev pub AreLines : List (List ℕ × LineEnd) → Type 0
AreLines [] = Unit
AreLines (l ∷ ls) = IsLineText l.0 × AreLines ls

abbrev pub texts : List (List ℕ × LineEnd) → List (List ℕ)
texts [] = []
texts (l ∷ ls) = l.0 ∷ texts ls

abbrev pub stream : List (List ℕ × LineEnd) → List ℕ
stream [] = []
stream (l ∷ ls) = l.0 ++ (end_bytes l.1 ++ stream ls)

content_step :
    (b : ℕ) (line : List ℕ) (p : ℕ)
    → IsContent b
    → length line < protocol_line_max
    → feed_byte b (record { line = line; pend_eol = p })
      ≡ (none, record { line = line ++ b ∷ []; pend_eol = 0 })
unfolding feed_byte
content_step b line p h low = ground arith

content_lem :
    (s rest line : List ℕ)
    → All IsContent s
    → length line + length s ≤ protocol_line_max
    → feed_bytes (s ++ rest) (record { line = line; pend_eol = 0 })
      ≡ feed_bytes rest (record { line = line ++ s; pend_eol = 0 })
unfolding feed_bytes
content_lem [] rest line h room =
    ap (λ (q : List ℕ). feed_bytes rest (record { line = q; pend_eol = 0 })) (sym (append-nil line))
content_lem (b ∷ s) rest line h room =
    ap
      (λ (r : Option (List ℕ) × Assembler).
        (with_line r.0 (feed_bytes (s ++ rest) r.1).0, (feed_bytes (s ++ rest) r.1).1))
      (content_step b line 0 h.0 (omega arith))
    ∙ content_lem s rest (line ++ b ∷ []) h.1 (omega (arith, length-append line (b ∷ [])))
    ∙ ap (λ (q : List ℕ). feed_bytes rest (record { line = q; pend_eol = 0 }))
        (append_assoc line (b ∷ []) s)

end_step :
    (b : ℕ) (line : List ℕ)
    → is_eol b ≡ true
    → 0 < length line
    → feed_byte b (record { line = line; pend_eol = 0 })
      ≡ (some line, record { line = []; pend_eol = b })
unfolding feed_byte
end_step b line h some_text = ground arith

-- The end of a line, whichever, and what is left pending.
abbrev left_pending : LineEnd → ℕ
left_pending cr = 0x0D
left_pending lf = 0x0A
left_pending crlf = 0

swallow :
    feed_byte 0x0A (record { line = []; pend_eol = 0x0D })
    ≡ (none, record { line = []; pend_eol = 0 })
unfolding feed_byte
swallow = refl

end_lem :
    (e : LineEnd) (rest line : List ℕ)
    → 0 < length line
    → feed_bytes (end_bytes e ++ rest) (record { line = line; pend_eol = 0 }) ≡ (
        let (ls, a) = feed_bytes rest (record { line = []; pend_eol = left_pending e }) in
        (line ∷ ls, a))
unfolding feed_bytes
end_lem cr rest line h =
    ap
      (λ (r : Option (List ℕ) × Assembler).
        (with_line r.0 (feed_bytes rest r.1).0, (feed_bytes rest r.1).1))
      (end_step 0x0D line refl h)
end_lem lf rest line h =
    ap
      (λ (r : Option (List ℕ) × Assembler).
        (with_line r.0 (feed_bytes rest r.1).0, (feed_bytes rest r.1).1))
      (end_step 0x0A line refl h)
end_lem crlf rest line h =
    ap
      (λ (r : Option (List ℕ) × Assembler).
        (with_line r.0 (feed_bytes (0x0A ∷ rest) r.1).0, (feed_bytes (0x0A ∷ rest) r.1).1))
      (end_step 0x0D line refl h)
    ∙ ap
        (λ (r : Option (List ℕ) × Assembler).
          (line ∷ with_line r.0 (feed_bytes rest r.1).0, (feed_bytes rest r.1).1))
        swallow

text_lem :
    (s rest : List ℕ) (p : ℕ)
    → IsLineText s
    → feed_bytes (s ++ rest) (record { line = []; pend_eol = p })
      ≡ feed_bytes rest (record { line = s; pend_eol = 0 })
unfolding feed_bytes
text_lem [] rest p h = absurd (omega (arith, h.nonempty))
text_lem (b ∷ s) rest p h =
    ap
      (λ (r : Option (List ℕ) × Assembler).
        (with_line r.0 (feed_bytes (s ++ rest) r.1).0, (feed_bytes (s ++ rest) r.1).1))
      (content_step b [] p h.content.0 (omega arith))
    ∙ content_lem s rest (b ∷ []) h.content.1 (omega (arith, h.short))

-- Lines come out as they were sent, each once and in their order: any texts of 1 to 128 bytes without
-- CR and LF, each ended by CR, by LF or by CR LF, whatever line end was pending before; and no part of
-- a line is left over.
pub feed_bytes-stream :
    (ls : List (List ℕ × LineEnd)) (p : ℕ)
    → AreLines ls
    → ((feed_bytes (stream ls) (record { line = []; pend_eol = p })).0 ≡ texts ls)
      × ((feed_bytes (stream ls) (record { line = []; pend_eol = p })).1.line ≡ [])
unfolding feed_bytes
feed_bytes-stream [] p h = (refl, refl)
feed_bytes-stream (l ∷ ls) p h =
    let ih = feed_bytes-stream ls (left_pending l.1) h.1 in
    let whole =
      text_lem l.0 (end_bytes l.1 ++ stream ls) p h.0 ∙ end_lem l.1 (stream ls) l.0 h.0.nonempty in
    (
      ap (λ (r : List (List ℕ) × Assembler). r.0) whole ∙ ap (◌∷◌ l.0) ih.0,
      ap (λ (r : List (List ℕ) × Assembler). r.1.line) whole ∙ ih.1,
    )
