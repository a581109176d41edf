-- ===== src/Ymodem/Frame.antt =====
-- `recv_packet`: a block is a frame of the line, checked, and a frame is received as its block.
use drdro_mainboard.Base.{
  ℕ, zero, suc, ◌+◌, ◌*◌, ◌/◌, ◌%◌, ◌≤◌, ◌<◌, ◌≡◌, ◌⊎◌, inl, inr, refl, ap, ap₂, ◌∙◌, sym, subst,
  bit_xor, true, false, not, ◌==◌, ==-of-eq, eq-of-==, if◌then◌else◌, if_intro, List, [], ◌∷◌, ◌++◌,
  append_assoc, length, Option, some, none, All, IsByte, arith,
}
use drdro_mainboard.Base.Bits.{bit_xor_involutive}
use drdro_mainboard.Ymodem.{
  soh, stx, eot_byte, can_byte, Line, Rx, rx, crc16, Packet, block, eot, can, bad, or_bad, or_none,
  rx_bytes, check_packet, recv_block, recv_packet,
}

abbrev pub answers : List ℕ → Line
answers [] = []
answers (b ∷ p) = some b ∷ answers p

pub answers-append : (p q : List ℕ) → answers (p ++ q) ≡ answers p ++ answers q
answers-append [] q = refl
answers-append (b ∷ p) q = ap (◌∷◌ (some b)) (answers-append p q)

-- A block on the line after its header byte, and with it.
abbrev pub frame_body : ℕ → List ℕ → List ℕ
frame_body b p = b ∷ bit_xor b 0xFF ∷ (p ++ crc16 p / 256 ∷ crc16 p % 256 ∷ [])

abbrev pub frame : ℕ → List ℕ → List ℕ
frame b p = (if length p == 128 then soh else stx) ∷ frame_body b p

-- The answers of a line are bytes or timeouts.
abbrev pub IsAnswer : Option ℕ → Type 0
IsAnswer none = Unit
IsAnswer (some b) = IsByte b

abbrev pub IsLine : Line → Type 0
IsLine l = All IsAnswer l

abbrev pub Suffix : Line → Line → Type 0
Suffix l' l = (taken : Line) × (taken ++ l' ≡ l)

Suffix-trans : (l'' l' l : Line) → Suffix l'' l' → Suffix l' l → Suffix l'' l
Suffix-trans l'' l' l (t, e) (u, f) = (u ++ t, append_assoc u t l'' ∙ ap (◌++◌ u) e ∙ f)

-- The line that a taken part leaves.
pub Suffix-IsLine : (l' l : Line) → Suffix l' l → IsLine l → IsLine l'
Suffix-IsLine l' l (t, e) h = drop_front t (subst IsLine (sym e) h)
  where
    drop_front : (t : Line) → IsLine (t ++ l') → IsLine l'
    drop_front [] k = k
    drop_front (a ∷ t) k = drop_front t k.1

pub rx-Suffix : (l : Line) → Suffix (rx l).1 l
rx-Suffix [] = ([], refl)
rx-Suffix (a ∷ l) = (a ∷ [], refl)

rx-some : (l : Line) (b : ℕ) → (rx l).0 ≡ some b → some b ∷ (rx l).1 ≡ l
rx-some [] b e = absurd (apart e)
  where
    apart : none ≡ some b → ⊥
    apart p = cc
rx-some (a ∷ l) b e = ap (λ (x : Option ℕ). x ∷ l) (sym e)

rx-IsByte : (l : Line) (b : ℕ) → IsLine l → (rx l).0 ≡ some b → IsByte b
rx-IsByte l b h e = (subst IsLine (sym (rx-some l b e)) h).0

or_bad_intro :
    {A : Type 0} (P : Packet × Line → Type 0) (r : Rx A) (next : A → Line → Packet × Line)
    → P (bad, r.1)
    → ((a : A) → r.0 ≡ some a → P (next a r.1))
    → P (or_bad r next)
or_bad_intro P (none, l) next h k = h
or_bad_intro P (some a, l) next h k = k a refl

or_none_intro :
    {A B : Type 0} (P : Rx B → Type 0) (r : Rx A) (next : A → Line → Rx B)
    → P (none, r.1)
    → ((a : A) → r.0 ≡ some a → P (next a r.1))
    → P (or_none r next)
or_none_intro P (none, l) next h k = h
or_none_intro P (some a, l) next h k = k a refl

-- What `rx_bytes` read.
abbrev Got : ℕ → Line → Line → Option (List ℕ) → Type 0
Got n l l' none = Unit
Got n l l' (some p) = (answers p ++ l' ≡ l) × (length p ≡ n)

abbrev Read : ℕ → Line → Rx (List ℕ) → Type 0
Read n l r = Suffix r.1 l × Got n l r.1 r.0

rx_bytes_lem : (n : ℕ) (l : Line) → Read n l (rx_bytes n l)
unfolding rx_bytes
rx_bytes_lem zero l = (([], refl), (refl, refl))
rx_bytes_lem (suc n) l =
    or_none_intro (Read (suc n) l) (rx l)
      (λ b l1. or_none (rx_bytes n l1) λ p l2. (some (b ∷ p), l2)) (rx-Suffix l, tt)
      (λ b e.
        or_none_intro (Read (suc n) l) (rx_bytes n (rx l).1) (λ p l2. (some (b ∷ p), l2))
          (
            Suffix-trans (rx_bytes n (rx l).1).1 (rx l).1 l (rx_bytes_lem n (rx l).1).0
                (rx-Suffix l),
            tt,
          )
          (λ p e2.
            let got : Got n (rx l).1 (rx_bytes n (rx l).1).1 (some p) =
              subst (Got n (rx l).1 (rx_bytes n (rx l).1).1) e2 (rx_bytes_lem n (rx l).1).1 in
            (
              Suffix-trans (rx_bytes n (rx l).1).1 (rx l).1 l (rx_bytes_lem n (rx l).1).0
                  (rx-Suffix l),
              (ap (◌∷◌ (some b)) got.0 ∙ rx-some l b e, ap suc got.1),
            )))

answers-IsByte : (p : List ℕ) (l : Line) → IsLine (answers p ++ l) → All IsByte p
answers-IsByte [] l h = tt
answers-IsByte (b ∷ p) l h = (h.0, answers-IsByte p l h.1)

-- A received packet: where it is a block, what was taken is that block's frame.
abbrev IsBody : ℕ → Packet → Line → Type 0
IsBody n (block b p) taken =
    (taken ≡ answers (frame_body b p)) × IsByte b × All IsByte p × (length p ≡ n)
IsBody n eot taken = Unit
IsBody n can taken = Unit
IsBody n bad taken = Unit

abbrev Body : ℕ → Line → Packet × Line → Type 0
Body n l r = (taken : Line) × (taken ++ r.1 ≡ l) × IsBody n r.0 taken

check_packet_lem :
    (b1 b2 : ℕ) (p : List ℕ) (ch cl : ℕ)
    → IsByte b1
    → All IsByte p
    → IsByte cl
    → IsBody (length p) (check_packet b1 b2 p ch cl) (answers (b1 ∷ b2 ∷ (p ++ ch ∷ cl ∷ [])))
unfolding check_packet
check_packet_lem b1 b2 p ch cl h k q =
    if_intro (λ (r : Packet). IsBody (length p) r taken) (not (bit_xor b1 b2 == 0xFF)) bad
      (if not (crc16 p == ch * 256 + cl) then bad else block b1 p) (λ e. tt)
      (λ e.
        if_intro (λ (r : Packet). IsBody (length p) r taken) (not (crc16 p == ch * 256 + cl)) bad
          (block b1 p) (λ e2. tt)
          (λ e2.
            let x : bit_xor b1 b2 ≡ 0xFF = ground (arith, e) in
            let y : crc16 p ≡ ch * 256 + cl = ground (arith, e2) in
            (
              ap₂ (λ (c : ℕ) (s : List ℕ). answers (b1 ∷ c ∷ (p ++ s)))
                  (sym (bit_xor_involutive b1 b2) ∙ ap (bit_xor b1) x)
                  (ap₂ (λ (u v : ℕ). u ∷ v ∷ []) {x = ch} {y = crc16 p / 256} {u = cl}
                    {v = crc16 p % 256} (omega (arith, y, q)) (omega (arith, y, q))),
              h,
              k,
              refl,
            )))
  where
    taken : Line
    taken = answers (b1 ∷ b2 ∷ (p ++ ch ∷ cl ∷ []))

Suffix-Body : (n : ℕ) (l' l : Line) → Suffix l' l → Body n l (bad, l')
Suffix-Body n l' l (t, e) = (t, e, tt)

recv_block_lem : (n : ℕ) (l : Line) → IsLine l → Body n l (recv_block n l)
unfolding recv_block
recv_block_lem n l h =
    or_bad_intro (Body n l) (rx l)
      (λ b1 l1. or_bad (rx l1) λ b2 l2.
        or_bad (rx_bytes n l2)
          λ p l3. or_bad (rx l3) λ ch l4. or_bad (rx l4) λ cl l5. (check_packet b1 b2 p ch cl, l5))
      (Suffix-Body n l1 l s1)
      (λ b1 e1.
        or_bad_intro (Body n l) (rx l1)
          (λ b2 l2. or_bad (rx_bytes n l2) λ p l3.
            or_bad (rx l3) λ ch l4. or_bad (rx l4) λ cl l5. (check_packet b1 b2 p ch cl, l5))
          (Suffix-Body n l2 l s2)
          (λ b2 e2.
            or_bad_intro (Body n l) (rx_bytes n l2)
              (λ p l3.
                or_bad (rx l3) λ ch l4. or_bad (rx l4) λ cl l5. (check_packet b1 b2 p ch cl, l5))
              (Suffix-Body n l3 l s3)
              (λ p e3.
                or_bad_intro (Body n l) (rx l3)
                  (λ ch l4. or_bad (rx l4) λ cl l5. (check_packet b1 b2 p ch cl, l5))
                  (Suffix-Body n l4 l s4)
                  (λ ch e4.
                    or_bad_intro (Body n l) (rx l4) (λ cl l5. (check_packet b1 b2 p ch cl, l5))
                      (Suffix-Body n l5 l s5)
                      (λ cl e5.
                        let got : Got n l2 l3 (some p) =
                          subst (Got n l2 l3) e3 (rx_bytes_lem n l2).1 in
                        (
                          answers (b1 ∷ b2 ∷ (p ++ ch ∷ cl ∷ [])),
                          ap (λ (t : Line). some b1 ∷ some b2 ∷ (t ++ l5))
                                (answers-append p (ch ∷ cl ∷ []))
                              ∙ ap (λ (t : Line). some b1 ∷ some b2 ∷ t)
                                  (append_assoc (answers p) (some ch ∷ some cl ∷ []) l5
                                    ∙ ap (λ (t : Line). answers p ++ some ch ∷ t) (rx-some l4 cl e5)
                                    ∙ ap (λ (t : Line). answers p ++ t) (rx-some l3 ch e4)
                                    ∙ got.0)
                              ∙ ap (λ (t : Line). some b1 ∷ t) (rx-some l1 b2 e2)
                              ∙ rx-some l b1 e1,
                          subst
                              (λ (k : ℕ).
                                IsBody k (check_packet b1 b2 p ch cl)
                                  (answers (b1 ∷ b2 ∷ (p ++ ch ∷ cl ∷ []))))
                              got.1
                              (check_packet_lem b1 b2 p ch cl (rx-IsByte l b1 h e1)
                                (answers-IsByte p l3
                                  (subst IsLine (sym got.0) (Suffix-IsLine l2 l s2 h)))
                                (rx-IsByte l4 cl (Suffix-IsLine l4 l s4 h) e5)),
                        ))))))
  where
    l1 : Line
    l1 = (rx l).1

    l2 : Line
    l2 = (rx l1).1

    l3 : Line
    l3 = (rx_bytes n l2).1

    l4 : Line
    l4 = (rx l3).1

    l5 : Line
    l5 = (rx l4).1

    s1 : Suffix l1 l
    s1 = rx-Suffix l

    s2 : Suffix l2 l
    s2 = Suffix-trans l2 l1 l (rx-Suffix l1) s1

    s3 : Suffix l3 l
    s3 = Suffix-trans l3 l2 l (rx_bytes_lem n l2).0 s2

    s4 : Suffix l4 l
    s4 = Suffix-trans l4 l3 l (rx-Suffix l3) s3

    s5 : Suffix l5 l
    s5 = Suffix-trans l5 l4 l (rx-Suffix l4) s4

-- A packet, with its header byte.
abbrev pub IsPacket : Packet → Line → Type 0
IsPacket (block b p) taken =
    (taken ≡ answers (frame b p)) × IsByte b × All IsByte p × (0 < length p) × (length p ≤ 1024)
IsPacket eot taken = Unit
IsPacket can taken = Unit
IsPacket bad taken = Unit

abbrev pub Received : Line → Packet × Line → Type 0
Received l r = (taken : Line) × (taken ++ r.1 ≡ l) × IsPacket r.0 taken

-- The body after the header byte that announces its length.
header_lem :
    (hdr n : ℕ) (r : Packet × Line) (l : Line)
    → ((n ≡ 128) × (hdr ≡ soh)) ⊎ ((n ≡ 1024) × (hdr ≡ stx))
    → Body n l r
    → Received (some hdr ∷ l) r
header_lem hdr n (block b p, l') l which (t, e, body) = (
  some hdr ∷ t,
  ap (◌∷◌ (some hdr)) e,
  (
    ap₂ (λ (x : ℕ) (y : Line). some x ∷ y) first body.0,
    body.1,
    body.2,
    omega (arith, body.3, which),
    omega (arith, body.3, which),
  ),
)
  where
    first : hdr ≡ (if length p == 128 then soh else stx)
    first = ground (arith, body.3, which)
header_lem hdr n (eot, l') l which (t, e, body) = (some hdr ∷ t, ap (◌∷◌ (some hdr)) e, tt)
header_lem hdr n (can, l') l which (t, e, body) = (some hdr ∷ t, ap (◌∷◌ (some hdr)) e, tt)
header_lem hdr n (bad, l') l which (t, e, body) = (some hdr ∷ t, ap (◌∷◌ (some hdr)) e, tt)

-- Whatever stands on the line, the packet that is received was taken off its front, and a block is
-- received only where its frame stood there: its number twice, its data, and their CRC-16.
pub recv_packet_lem : (l : Line) → IsLine l → Received l (recv_packet l)
unfolding recv_packet
recv_packet_lem l h =
    or_bad_intro (Received l) (rx l)
      (λ hdr l1.
        if hdr == soh
        then recv_block 128 l1
        else if hdr == stx
        then recv_block 1024 l1
        else if hdr == eot_byte
        then (eot, l1)
        else if hdr == can_byte
        then (can, l1)
        else (bad, l1))
      (rest bad tt)
      (λ hdr e.
        let P : Packet × Line → Type 0 = Received l in
        let front = rx-some l hdr e in
        if_intro P (hdr == soh) (recv_block 128 l1)
          (if hdr == stx
            then recv_block 1024 l1
            else if hdr == eot_byte
            then (eot, l1)
            else if hdr == can_byte
            then (can, l1)
            else (bad, l1))
          (λ q.
            subst (λ (k : Line). Received k (recv_block 128 l1)) front
              (header_lem hdr 128 (recv_block 128 l1) l1 (inl (refl, eq-of-== hdr soh q))
                (recv_block_lem 128 l1 h1)))
          (λ q.
            if_intro P (hdr == stx) (recv_block 1024 l1)
              (if hdr == eot_byte
                then (eot, l1)
                else if hdr == can_byte
                then (can, l1)
                else (bad, l1))
              (λ q.
                subst (λ (k : Line). Received k (recv_block 1024 l1)) front
                  (header_lem hdr 1024 (recv_block 1024 l1) l1 (inr (refl, eq-of-== hdr stx q))
                    (recv_block_lem 1024 l1 h1)))
              (λ q.
                if_intro P (hdr == eot_byte) (eot, l1)
                  (if hdr == can_byte then (can, l1) else (bad, l1)) (λ q. rest eot tt)
                  (λ q.
                    if_intro P (hdr == can_byte) (can, l1) (bad, l1) (λ q. rest can tt)
                      (λ q. rest bad tt)))))
  where
    l1 : Line
    l1 = (rx l).1

    h1 : IsLine l1
    h1 = Suffix-IsLine l1 l (rx-Suffix l) h

    rest : (r : Packet) → IsPacket r (rx-Suffix l).0 → Received l (r, l1)
    rest r k = ((rx-Suffix l).0, (rx-Suffix l).1, k)

rx_bytes-answers :
    (p : List ℕ) (rest : Line) → rx_bytes (length p) (answers p ++ rest) ≡ (some p, rest)
unfolding rx_bytes
rx_bytes-answers [] rest = refl
rx_bytes-answers (b ∷ p) rest = rw (rx_bytes-answers p rest) refl

recv_block-frame :
    (b : ℕ) (p : List ℕ) (rest : Line)
    → recv_block (length p) (answers (frame_body b p) ++ rest) ≡ (block b p, rest)
unfolding recv_block check_packet
recv_block-frame b p rest =
    rw (split, rx_bytes-answers p (some hi ∷ some lo ∷ rest), number, sum) refl
  where
    hi : ℕ
    hi = crc16 p / 256

    lo : ℕ
    lo = crc16 p % 256

    split : answers (p ++ hi ∷ lo ∷ []) ++ rest ≡ answers p ++ some hi ∷ some lo ∷ rest
    split =
        ap (λ (t : Line). t ++ rest) (answers-append p (hi ∷ lo ∷ []))
        ∙ append_assoc (answers p) (some hi ∷ some lo ∷ []) rest

    number : (bit_xor b (bit_xor b 0xFF) == 0xFF) ≡ true
    number = ==-of-eq (bit_xor b (bit_xor b 0xFF)) 0xFF (bit_xor_involutive b 0xFF)

    sum : (crc16 p == hi * 256 + lo) ≡ true
    sum = ==-of-eq (crc16 p) (hi * 256 + lo) (omega arith)

-- The lengths a block can have.
abbrev pub IsBlockLength : ℕ → Type 0
IsBlockLength n = (n ≡ 128) ⊎ (n ≡ 1024)

-- A frame at the front of the line is received as its block.
pub recv_packet-frame :
    (b : ℕ) (p : List ℕ) (rest : Line)
    → IsBlockLength (length p)
    → recv_packet (answers (frame b p) ++ rest) ≡ (block b p, rest)
unfolding recv_packet
recv_packet-frame b p rest (inl n) = rw (==-of-eq (length p) 128 n) (
    ap (λ (k : ℕ). recv_block k (answers (frame_body b p) ++ rest)) (sym n)
    ∙ recv_block-frame b p rest)
recv_packet-frame b p rest (inr n) = rw (other) (
    ap (λ (k : ℕ). recv_block k (answers (frame_body b p) ++ rest)) (sym n)
    ∙ recv_block-frame b p rest)
  where
    other : (length p == 128) ≡ false
    other = ground (arith, n)
