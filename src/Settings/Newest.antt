-- ===== src/Settings/Newest.antt =====
-- The newest slot: which one it is, and that a finished save makes the written one the newest.
use drdro_mainboard.Base.{
  ℕ, ◌+◌, ◌^◌, ◌≤◌, ◌<◌, ◌≡◌, refl, ap₂, ◌∙◌, sym, Bool, true, false, u32, Bytes, arith, IsByte,
  Option, none, some, Bool-cases, ◌⊎◌, inl, inr,
}
use drdro_mainboard.Layout.{sector_begin, sector_end}
use drdro_mainboard.Settings.{
  settings_valid, settings_seal, put32, seq, settings_size, slot_image, slot_base, slot_sector,
  settings_newest_slot, is_newer, settings_prepare, prepare_after,
}
use drdro_mainboard.Settings.Image.{
  Agree, settings_valid-seal, settings_valid-ext, settings_valid-elim, used_size-seal,
  settings_seal-body,
}
use drdro_mainboard.Settings.Load.{is_newer-suc}

-- Memory before and after a write that stays in the sector of slot `n`.
abbrev pub OnlySlot : ℕ → Bytes → Bytes → Type 0
OnlySlot n m m' =
    (a : ℕ) → (a < sector_begin (slot_sector n)) ⊎ (sector_end (slot_sector n) ≤ a) → m' a ≡ m a

-- The slot's image is the struct `s`.
abbrev pub Holds : Bytes → ℕ → Bytes → Type 0
Holds m n s = Agree settings_size (slot_image m n) s

abbrev pub AreBytes : Bytes → Type 0
AreBytes m = (a : ℕ) → IsByte (m a)

abbrev pub slot_of : Bytes → Bytes → ℕ
slot_of m s = (settings_prepare m s).0

abbrev pub sealed_of : Bytes → Bytes → Bytes
sealed_of m s = (settings_prepare m s).1

-- The image of the other slot: its validity and its number.
pub valid_elsewhere :
    (m m' : Bytes) (k : ℕ)
    → ((i : ℕ) → i < 4096 → slot_image m' k i ≡ slot_image m k i)
    → settings_valid (slot_image m' k) ≡ settings_valid (slot_image m k)
valid_elsewhere m m' k same =
    go (settings_valid (slot_image m' k)) (settings_valid (slot_image m k)) forth back
  where
    forth : settings_valid (slot_image m' k) ≡ true → settings_valid (slot_image m k) ≡ true
    forth v =
        settings_valid-ext (slot_image m' k) (slot_image m k) (λ i p. same i (omega arith))
          (λ i p. same i (omega (arith, settings_valid-elim (slot_image m' k) v))) v

    back : settings_valid (slot_image m k) ≡ true → settings_valid (slot_image m' k) ≡ true
    back v =
        settings_valid-ext (slot_image m k) (slot_image m' k) (λ i p. sym (same i (omega arith)))
          (λ i p. sym (same i (omega (arith, settings_valid-elim (slot_image m k) v)))) v

    go : (b c : Bool) → (b ≡ true → c ≡ true) → (c ≡ true → b ≡ true) → b ≡ c
    go true c f g = sym (f refl)
    go false true f g = g refl
    go false false f g = refl

pub other_slot0 :
    (m m' : Bytes) → OnlySlot 1 m m' → (i : ℕ) → i < 4096 → slot_image m' 0 i ≡ slot_image m 0 i
other_slot0 m m' only i h = only (slot_base 0 + i) (omega arith)

pub other_slot1 :
    (m m' : Bytes) → OnlySlot 0 m m' → (i : ℕ) → i < 4096 → slot_image m' 1 i ≡ slot_image m 1 i
other_slot1 m m' only i h = only (slot_base 1 + i) (omega arith)

-- A slot that holds a sealed struct is valid, and shows its number.
Holds-valid :
    (m : Bytes) (n : ℕ) (s : Bytes)
    → Holds m n (settings_seal s)
    → settings_valid (slot_image m n) ≡ true
Holds-valid m n s h =
    settings_valid-ext (settings_seal s) (slot_image m n) (λ i p. sym (h i (omega arith)))
      (λ i p. sym (h i (omega (arith, used_size-seal s)))) (settings_valid-seal s)

Holds-seq :
    (m : Bytes) (n : ℕ) (s : Bytes) (v : ℕ)
    → v < 2 ^ 32
    → Holds m n (settings_seal (put32 s 12 v))
    → seq (slot_image m n) ≡ v
Holds-seq m n s v lt h = omega (
  arith,
  h 12,
  h 13,
  h 14,
  h 15,
  settings_seal-body (put32 s 12 v) 12,
  settings_seal-body (put32 s 12 v) 13,
  settings_seal-body (put32 s 12 v) 14,
  settings_seal-body (put32 s 12 v) 15,
)

-- The three cases of `settings_newest_slot`.
pub data Newest (m : Bytes) : Option ℕ → Type 0 where
  neither :
      settings_valid (slot_image m 0) ≡ false
      → settings_valid (slot_image m 1) ≡ false
      → Newest m none
  first : settings_valid (slot_image m 0) ≡ true → Newest m (some 0)
  second : settings_valid (slot_image m 1) ≡ true → Newest m (some 1)

pub Newest-cases : (m : Bytes) → Newest m (settings_newest_slot m)
unfolding settings_newest_slot
Newest-cases m = elim (Bool-cases (settings_valid (slot_image m 0))) [
  | inl a ↦ elim (Bool-cases (settings_valid (slot_image m 1))) [
    | inl b ↦ elim (Bool-cases (is_newer (seq (slot_image m 1)) (seq (slot_image m 0)))) [
      | inl c ↦ rw (a, b, c) (second b)
      | inr c ↦ rw (a, b, c) (first a)
    ]
    | inr b ↦ rw (a, b) (first a)
  ]
  | inr a ↦ elim (Bool-cases (settings_valid (slot_image m 1))) [
    | inl b ↦ rw (a, b) (second b)
    | inr b ↦ rw (a, b) (neither a b)
  ]
]

newest_slot-first :
    (m : Bytes)
    → settings_valid (slot_image m 0) ≡ true
    → (settings_valid (slot_image m 1) ≡ false)
      ⊎ (is_newer (seq (slot_image m 1)) (seq (slot_image m 0)) ≡ false)
    → settings_newest_slot m ≡ some 0
unfolding settings_newest_slot
newest_slot-first m a b = ground arith

newest_slot-second :
    (m : Bytes)
    → settings_valid (slot_image m 0) ≡ true
    → settings_valid (slot_image m 1) ≡ true
    → is_newer (seq (slot_image m 1)) (seq (slot_image m 0)) ≡ true
    → settings_newest_slot m ≡ some 1
unfolding settings_newest_slot
newest_slot-second m a b c = rw (a, b, c)

seq_lt : (m : Bytes) (n : ℕ) → AreBytes m → seq (slot_image m n) < 2 ^ 32
seq_lt m n bytes = omega (
  arith,
  bytes (slot_base n + 12),
  bytes (slot_base n + (12 + 1)),
  bytes (slot_base n + (12 + 2)),
  bytes (slot_base n + (12 + 3)),
)

pub seq_elsewhere :
    (m m' : Bytes) (k : ℕ)
    → ((i : ℕ) → i < 4096 → slot_image m' k i ≡ slot_image m k i)
    → seq (slot_image m' k) ≡ seq (slot_image m k)
seq_elsewhere m m' k same = omega (
  arith,
  same 12 (omega arith),
  same (12 + 1) (omega arith),
  same (12 + 2) (omega arith),
  same (12 + 3) (omega arith),
)

-- After a finished save the written slot is the newest.
Newest-after :
    (m m' s : Bytes) (o : Option ℕ)
    → AreBytes m
    → Newest m o
    → OnlySlot (prepare_after m s o).0 m m'
    → Holds m' (prepare_after m s o).0 (prepare_after m s o).1
    → settings_newest_slot m' ≡ some (prepare_after m s o).0
Newest-after m m' s _ bytes (neither a b) only holds =
    newest_slot-first m' (Holds-valid m' 0 (put32 s 12 1) holds)
      (inl (valid_elsewhere m m' 1 (other_slot1 m m' only) ∙ b))
Newest-after m m' s _ bytes (first a) only holds =
    newest_slot-second m' (valid_elsewhere m m' 0 (other_slot0 m m' only) ∙ a)
      (Holds-valid m' 1 (put32 s 12 (u32 (seq (slot_image m 0) + 1))) holds)
      (ap₂ is_newer (Holds-seq m' 1 s (u32 (seq (slot_image m 0) + 1)) (omega arith) holds)
          (seq_elsewhere m m' 0 (other_slot0 m m' only))
        ∙ (is_newer-suc (seq (slot_image m 0)) (seq_lt m 0 bytes)).0)
Newest-after m m' s _ bytes (second b) only holds =
    newest_slot-first m' (Holds-valid m' 0 (put32 s 12 (u32 (seq (slot_image m 1) + 1))) holds) (
      inr (
        ap₂ is_newer (seq_elsewhere m m' 1 (other_slot1 m m' only))
          (Holds-seq m' 0 s (u32 (seq (slot_image m 1) + 1)) (omega arith) holds)
        ∙ (is_newer-suc (seq (slot_image m 1)) (seq_lt m 1 bytes)).1))

pub newest-save :
    (m m' s : Bytes)
    → AreBytes m
    → OnlySlot (slot_of m s) m m'
    → Holds m' (slot_of m s) (sealed_of m s)
    → settings_newest_slot m' ≡ some (slot_of m s)
unfolding settings_prepare
newest-save m m' s bytes only holds =
    Newest-after m m' s (settings_newest_slot m) bytes (Newest-cases m) only holds
