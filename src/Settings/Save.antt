-- ===== src/Settings/Save.antt =====
-- The ping-pong save: what a write into the slot that `settings_prepare` names does to the next
-- load, whether the write finishes or not.
use drdro_mainboard.Base.{
  ℕ, ◌+◌, ◌≤◌, ◌<◌, ◌≡◌, refl, ap, ◌∙◌, sym, Bool, true, false, u32, Bytes, arith, Option, none,
  some, ◌⊎◌, inl, inr,
}
use mathlib.Core.Bool.{false≢true}
use drdro_mainboard.Settings.{
  settings_valid, settings_seal, settings_load_one, settings_defaults, put32, seq, settings_size,
  settings_load, slot_image, slot_base, settings_newest_slot, settings_prepare, prepare_after,
}
use drdro_mainboard.Settings.Image.{Agree, settings_seal-body}
use drdro_mainboard.Settings.Load.{settings_load-newest_slot}
use drdro_mainboard.Settings.Newest.{
  other_slot0, other_slot1, OnlySlot, Holds, AreBytes, slot_of, sealed_of, Newest, neither, first,
  second, Newest-cases, newest-save, valid_elsewhere, seq_elsewhere,
}

-- Loading a slot that holds a sealed struct gives that struct back, every byte of it.
load_one-Holds :
    (m : Bytes) (n : ℕ) (s : Bytes)
    → Holds m n (settings_seal s)
    → Agree settings_size (settings_load_one (slot_image m n)) (settings_seal s)
unfolding settings_load_one settings_seal
load_one-Holds m n s holds i h =
    ground (arith, holds i h, holds 10 (omega arith), holds 11 (omega arith))

load_one-ext :
    (s t : Bytes)
    → Agree settings_size s t
    → Agree settings_size (settings_load_one s) (settings_load_one t)
unfolding settings_load_one
load_one-ext s t same i h = ground (arith, same i h, same 10 (omega arith), same 11 (omega arith))

-- What the sealed struct of a save is: the caller's struct but for the first sixteen bytes.
prepare_after-sealed :
    (m s : Bytes) (o : Option ℕ)
    → (t : Bytes) × ((prepare_after m s o).1 ≡ settings_seal t) × ((i : ℕ) → 16 ≤ i → t i ≡ s i)
prepare_after-sealed m s none = (put32 s 12 1, refl, λ i h. ground arith)
prepare_after-sealed m s (some n) =
    (put32 s 12 (u32 (seq (slot_image m n) + 1)), refl, λ i h. ground arith)

pub settings_prepare-sealed :
    (m s : Bytes) → (t : Bytes) × (sealed_of m s ≡ settings_seal t) × ((i : ℕ) → 16 ≤ i → t i ≡ s i)
unfolding settings_prepare
settings_prepare-sealed m s = prepare_after-sealed m s (settings_newest_slot m)

pub settings_seal-AreBytes : (s : Bytes) → AreBytes s → AreBytes (settings_seal s)
unfolding settings_seal
settings_seal-AreBytes s h i = ground (arith, h i)

prepare_after-AreBytes :
    (m s : Bytes) (o : Option ℕ) → AreBytes s → AreBytes (prepare_after m s o).1
prepare_after-AreBytes m s none h = settings_seal-AreBytes (put32 s 12 1) (λ i. ground (arith, h i))
prepare_after-AreBytes m s (some n) h =
    settings_seal-AreBytes (put32 s 12 (u32 (seq (slot_image m n) + 1))) (λ i. ground (arith, h i))

-- What is written is bytes if the caller's struct is.
pub settings_prepare-AreBytes : (m s : Bytes) → AreBytes s → AreBytes (sealed_of m s)
unfolding settings_prepare
settings_prepare-AreBytes m s h = prepare_after-AreBytes m s (settings_newest_slot m) h

settings_load-some :
    (m : Bytes) (n : ℕ)
    → settings_newest_slot m ≡ some n
    → settings_load m ≡ (true, settings_load_one (slot_image m n))
settings_load-some m n e = settings_load-newest_slot m ∙ rw e refl

settings_load-none : (m : Bytes) → settings_newest_slot m ≡ none → (settings_load m).0 ≡ false
settings_load-none m e = rw (settings_load-newest_slot m) (rw e refl)

-- A finished save is what the next load returns: the code 1, and every byte of the sealed struct,
-- which from offset 16 on (all but the header and the counter) is the caller's.
pub settings_load-save :
    (m m' s : Bytes)
    → AreBytes m
    → OnlySlot (slot_of m s) m m'
    → Holds m' (slot_of m s) (sealed_of m s)
    → ((settings_load m').0 ≡ true)
      × Agree settings_size (settings_load m').1 (sealed_of m s)
      × ((i : ℕ) → 16 ≤ i → i < settings_size → (settings_load m').1 i ≡ s i)
settings_load-save m m' s bytes only holds =
    (ap (λ (r : Bool × Bytes). r.0) loaded, same, λ i p q. same i q ∙ body i p)
  where
    loaded : settings_load m' ≡ (true, settings_load_one (slot_image m' (slot_of m s)))
    loaded = settings_load-some m' (slot_of m s) (newest-save m m' s bytes only holds)

    t : Bytes
    t = (settings_prepare-sealed m s).0

    sealed : sealed_of m s ≡ settings_seal t
    sealed = (settings_prepare-sealed m s).1

    same : Agree settings_size (settings_load m').1 (sealed_of m s)
    same i h =
        ap (λ (r : Bool × Bytes). r.1 i) loaded
        ∙ load_one-Holds m' (slot_of m s) t (λ j k. holds j k ∙ ap (λ (u : Bytes). u j) sealed) i h
        ∙ ap (λ (u : Bytes). u i) (sym sealed)

    body : (i : ℕ) → 16 ≤ i → sealed_of m s i ≡ s i
    body i h =
        ap (λ (u : Bytes). u i) sealed
        ∙ settings_seal-body t i (omega arith)
        ∙ (settings_prepare-sealed m s).2 i h

-- What a load finds after a write into slot `k`: the other slot's settings as before, or a valid
-- image in the written slot.
abbrev pub Survives : Bytes → Bytes → ℕ → Type 0
Survives m m' k =
    ((settings_load m').0 ≡ true)
    × ((settings_valid (slot_image m' k) ≡ true)
          × ((settings_load m').1 ≡ settings_load_one (slot_image m' k))
        ⊎ Agree settings_size (settings_load m').1 (settings_load m).1)

load_agrees :
    (m m' : Bytes) (n : ℕ)
    → settings_newest_slot m ≡ some n
    → settings_newest_slot m' ≡ some n
    → ((i : ℕ) → i < 4096 → slot_image m' n i ≡ slot_image m n i)
    → Agree settings_size (settings_load m').1 (settings_load m).1
load_agrees m m' n e e' same i h =
    ap (λ (r : Bool × Bytes). r.1 i) (settings_load-some m' n e')
    ∙ load_one-ext (slot_image m' n) (slot_image m n) (λ j p. same j (omega arith)) i h
    ∙ ap (λ (r : Bool × Bytes). r.1 i) (sym (settings_load-some m n e))

Survives-stays :
    (m m' : Bytes) (n k : ℕ)
    → settings_newest_slot m ≡ some n
    → settings_newest_slot m' ≡ some n
    → ((i : ℕ) → i < 4096 → slot_image m' n i ≡ slot_image m n i)
    → Survives m m' k
Survives-stays m m' n k e e' same = (
  ap (λ (r : Bool × Bytes). r.0) (settings_load-some m' n e'),
  inr (load_agrees m m' n e e' same),
)

Survives-moves :
    (m m' : Bytes) (k : ℕ)
    → settings_newest_slot m' ≡ some k
    → settings_valid (slot_image m' k) ≡ true
    → Survives m m' k
Survives-moves m m' k e v =
    let after = settings_load-some m' k e in
    (ap (λ (r : Bool × Bytes). r.0) after, inl (v, ap (λ (r : Bool × Bytes). r.1) after))

interrupted_after :
    (m m' s : Bytes) {o o' : Option ℕ}
    → Newest m o
    → Newest m' o'
    → settings_newest_slot m ≡ o
    → settings_newest_slot m' ≡ o'
    → OnlySlot (prepare_after m s o).0 m m'
    → (settings_load m).0 ≡ true
    → Survives m m' (prepare_after m s o).0
interrupted_after m m' s (neither a b) c' e e' only found =
    absurd (false≢true (sym (settings_load-none m e) ∙ found))
interrupted_after m m' s (first a) (neither a' b') e e' only found =
    absurd (false≢true (sym a' ∙ valid_elsewhere m m' 0 (other_slot0 m m' only) ∙ a))
interrupted_after m m' s (first a) (first a') e e' only found =
    Survives-stays m m' 0 1 e e' (other_slot0 m m' only)
interrupted_after m m' s (first a) (second b') e e' only found = Survives-moves m m' 1 e' b'
interrupted_after m m' s (second b) (neither a' b') e e' only found =
    absurd (false≢true (sym b' ∙ valid_elsewhere m m' 1 (other_slot1 m m' only) ∙ b))
interrupted_after m m' s (second b) (first a') e e' only found = Survives-moves m m' 0 e' a'
interrupted_after m m' s (second b) (second b') e e' only found =
    Survives-stays m m' 1 0 e e' (other_slot1 m m' only)

-- A save that is cut off anywhere, whatever it left in the slot, loses nothing: if a load found
-- settings before, the next one finds settings too, either byte for byte the same or those of a
-- valid image in the written slot.
pub settings_load-interrupted :
    (m m' s : Bytes)
    → OnlySlot (slot_of m s) m m'
    → (settings_load m).0 ≡ true
    → ((settings_load m').0 ≡ true)
      × ((settings_valid (slot_image m' (slot_of m s)) ≡ true)
            × ((settings_load m').1 ≡ settings_load_one (slot_image m' (slot_of m s)))
          ⊎ Agree settings_size (settings_load m').1 (settings_load m).1)
unfolding settings_prepare
settings_load-interrupted m m' s only found =
    interrupted_after m m' s (Newest-cases m) (Newest-cases m') refl refl only found

-- What a load finds depends on the two slots alone.
newest_slot-ext :
    (m m' : Bytes)
    → ((i : ℕ) → i < 4096 → slot_image m' 0 i ≡ slot_image m 0 i)
    → ((i : ℕ) → i < 4096 → slot_image m' 1 i ≡ slot_image m 1 i)
    → settings_newest_slot m' ≡ settings_newest_slot m
unfolding settings_newest_slot
newest_slot-ext m m' h k = rw (
  valid_elsewhere m m' 0 h,
  valid_elsewhere m m' 1 k,
  seq_elsewhere m m' 0 h,
  seq_elsewhere m m' 1 k,
)

load-ext_after :
    (m m' : Bytes) {o : Option ℕ}
    → Newest m o
    → ((i : ℕ) → i < 4096 → slot_image m' 0 i ≡ slot_image m 0 i)
    → ((i : ℕ) → i < 4096 → slot_image m' 1 i ≡ slot_image m 1 i)
    → settings_newest_slot m ≡ o
    → settings_newest_slot m' ≡ o
    → ((settings_load m').0 ≡ (settings_load m).0)
      × Agree settings_size (settings_load m').1 (settings_load m).1
load-ext_after m m' (neither a b) h k e e' =
    let same : settings_load m' ≡ settings_load m = loaded m' e' ∙ sym (loaded m e) in
    (ap (λ (r : Bool × Bytes). r.0) same, λ i lt. ap (λ (r : Bool × Bytes). r.1 i) same)
  where
    loaded :
        (n : Bytes) → settings_newest_slot n ≡ none → settings_load n ≡ (false, settings_defaults)
    loaded n q = settings_load-newest_slot n ∙ rw q refl
load-ext_after m m' (first a) h k e e' =
    let both : Survives m m' 0 = Survives-stays m m' 0 0 e e' h in
    (
      both.0 ∙ sym (ap (λ (r : Bool × Bytes). r.0) (settings_load-some m 0 e)),
      load_agrees m m' 0 e e' h,
    )
load-ext_after m m' (second b) h k e e' =
    let both : Survives m m' 1 = Survives-stays m m' 1 1 e e' k in
    (
      both.0 ∙ sym (ap (λ (r : Bool × Bytes). r.0) (settings_load-some m 1 e)),
      load_agrees m m' 1 e e' k,
    )

pub settings_load-ext :
    (m m' : Bytes)
    → ((a : ℕ) → 0x08004000 ≤ a → a < 0x0800C000 → m' a ≡ m a)
    → ((settings_load m').0 ≡ (settings_load m).0)
      × Agree settings_size (settings_load m').1 (settings_load m).1
settings_load-ext m m' same =
    load-ext_after m m' (Newest-cases m) slot0 slot1 refl (newest_slot-ext m m' slot0 slot1)
  where
    slot0 : (i : ℕ) → i < 4096 → slot_image m' 0 i ≡ slot_image m 0 i
    slot0 i h = same (slot_base 0 + i) (omega arith) (omega arith)

    slot1 : (i : ℕ) → i < 4096 → slot_image m' 1 i ≡ slot_image m 1 i
    slot1 i h = same (slot_base 1 + i) (omega arith) (omega arith)
