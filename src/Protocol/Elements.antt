-- ===== src/Protocol/Elements.antt =====
-- The variables of the registry as values that do not overlap.
use drdro_mainboard.Base.{
  ℕ, zero, suc, ◌+◌, ◌<◌, ◌≡◌, refl, sym, ap, ap₂, ◌∙◌, Bool, true, false, not, ◌&&◌, ◌||◌,
  &&-split, leb, ltb, ◌==◌, eq-of-==, if◌then◌else◌, if_intro, Bytes, List, [], ◌∷◌, length, get_or,
  Option, some, none, arith,
}
use drdro_mainboard.Settings.{put16, put32}
use drdro_mainboard.BlCli.Numbers.{all_below, below}
use drdro_mainboard.Protocol.Registry.{
  VarType, vt_i32, vt_u32, vt_f32, vt_u16, vt_ip4, vt_mac, vt_upt, VarEntry, k_vars, field_ptr,
  scalar,
}
use drdro_mainboard.Protocol.Values.{Numbers, at_end, above, parse_ip4, put_ip4, write_at}
use drdro_mainboard.Protocol.Writable.{size_of}
use drdro_mainboard.Protocol.Setting.{Sized, parse_ip4-Sized, put_bytes-outside}

-- The row of the table with number `k`.
abbrev pub row : ℕ → VarEntry
row k = get_or k_vars k (scalar [] 0 vt_mac true 0)

abbrev pub row_count : ℕ
row_count = 35

-- The bytes from `p` on.
unfoldable pub bytes_at : Bytes → ℕ → ℕ → List ℕ
bytes_at m p zero = []
bytes_at m p (suc n) = m p ∷ bytes_at m (p + 1) n

-- The registry as a table of values: element `i` of row `k`.
unfoldable pub view : Bytes → ℕ → ℕ → List ℕ
view m k i = bytes_at m (field_ptr (row k) i) (size_of (row k).var_type)

-- A table of values with one of them replaced.
abbrev pub updated : (ℕ → ℕ → List ℕ) → ℕ → ℕ → List ℕ → ℕ → ℕ → List ℕ
updated f k i x k' i' = if (k' == k) && (i' == i) then x else f k' i'

abbrev disjoint : ℕ → ℕ → ℕ → ℕ → Bool
disjoint p n q w = leb (q + w) p || leb (p + n) q

abbrev apart_from : ℕ → ℕ → ℕ → ℕ → Bool
apart_from k i k' i' =
    ((k' == k) && (i' == i))
    || disjoint (field_ptr (row k) i) (size_of (row k).var_type) (field_ptr (row k') i')
        (size_of (row k').var_type)

elements_apart :
    all_below row_count (λ k.
      all_below
        (row k).count
        (λ i. all_below row_count (λ k'. all_below (row k').count (λ i'. apart_from k i k' i'))))
    ≡ true
unfolding k_vars field_ptr
elements_apart = refl

pub bytes_at-same :
    (m m' : Bytes) (q n : ℕ)
    → ((j : ℕ) → j < n → m' (q + j) ≡ m (q + j))
    → bytes_at m' q n ≡ bytes_at m q n
unfolding bytes_at
bytes_at-same m m' q zero h = refl
bytes_at-same m m' q (suc n) h =
    ap₂ (λ (b : ℕ) (s : List ℕ). b ∷ s) (ap m' (first q) ∙ h 0 (omega arith) ∙ ap m (sym (first q)))
      (bytes_at-same m m' (q + 1) n
        (λ j lt. ap m' (shift q j) ∙ h (suc j) (omega (arith, lt)) ∙ ap m (sym (shift q j))))
  where
    first : (q : ℕ) → q ≡ q + 0
    first q = omega arith

    shift : (q j : ℕ) → q + 1 + j ≡ q + suc j
    shift q j = omega arith

length-bytes_at : (m : Bytes) (q n : ℕ) → length (bytes_at m q n) ≡ n
unfolding bytes_at
length-bytes_at m q zero = refl
length-bytes_at m q (suc n) = ap suc (length-bytes_at m (q + 1) n)

-- An address that is none of the `n` from `p` on.
abbrev pub Misses : ℕ → ℕ → ℕ → Type 0
Misses p n a = (j : ℕ) → j < n → (a == p + j) ≡ false

Misses-first : (p n a : ℕ) → Misses p n a → 0 < n → (a == p) ≡ false
Misses-first p n a h lt = ground (arith, h 0 lt)

-- What a write leaves alone, if it is done.
abbrev pub WritesAt : ℕ → ℕ → Bytes → Option Bytes → Type 0
WritesAt p n m none = Unit
WritesAt p n m (some m') = (a : ℕ) → Misses p n a → m' a ≡ m a

put16-WritesAt : (m : Bytes) (p x : ℕ) → WritesAt p 2 m (some (put16 m p x))
put16-WritesAt m p x a h = rw (Misses-first p 2 a h (omega arith)) (rw (h 1 (omega arith)) refl)

put32-WritesAt : (m : Bytes) (p x : ℕ) → WritesAt p 4 m (some (put32 m p x))
put32-WritesAt m p x a h =
    rw (Misses-first p 4 a h (omega arith))
      (rw (h 1 (omega arith)) (rw (h 2 (omega arith)) (rw (h 3 (omega arith)) refl)))

put_ip4-WritesAt :
    (o : Option (List ℕ)) (p : ℕ) (m : Bytes) → Sized 4 o → WritesAt p 4 m (put_ip4 o p m)
put_ip4-WritesAt none p m s = tt
put_ip4-WritesAt (some vs) p m s =
    λ a h. put_bytes-outside vs p a m λ j lt. h j (omega (arith, s, lt))

module _ (c_lib : Numbers) where
  pub write_at-WritesAt :
      (t : VarType) (umax : ℕ) (s : List ℕ) (p : ℕ) (m : Bytes)
      → WritesAt p (size_of t) m (write_at c_lib t umax s p m)
  unfolding write_at
  write_at-WritesAt vt_i32 umax s p m =
      let (x, rest) = c_lib.strtol 0 s in
      if_intro (WritesAt p 4 m) (at_end rest) (some (put32 m p x)) none (λ e. put32-WritesAt m p x)
        (λ e. tt)
  write_at-WritesAt vt_u32 umax s p m =
      let (x, rest) = c_lib.strtoul 0 s in
      if_intro (WritesAt p 4 m) (not (at_end rest) || above umax x) none (some (put32 m p x))
        (λ e. tt) (λ e. put32-WritesAt m p x)
  write_at-WritesAt vt_u16 umax s p m =
      let (x, rest) = c_lib.strtoul 0 s in
      if_intro (WritesAt p 2 m) (not (at_end rest) || ltb 0xFFFF x || above umax x) none
        (some (put16 m p x)) (λ e. tt) (λ e. put16-WritesAt m p x)
  write_at-WritesAt vt_f32 umax s p m =
      let (x, rest) = c_lib.strtof s in
      if_intro (WritesAt p 4 m) (at_end rest) (some (put32 m p x)) none (λ e. put32-WritesAt m p x)
        (λ e. tt)
  write_at-WritesAt vt_ip4 umax s p m = put_ip4-WritesAt (parse_ip4 s) p m (parse_ip4-Sized s)
  write_at-WritesAt vt_mac umax s p m = tt
  write_at-WritesAt vt_upt umax s p m = tt

-- An element of the table.
abbrev pub IsElement : ℕ → ℕ → Type 0
IsElement k i = (k < row_count) × (i < (row k).count)

disjoint-Misses : (p n q w j : ℕ) → disjoint p n q w ≡ true → j < w → Misses p n (q + j)
disjoint-Misses p n q w j d lt = λ l low. ground (arith, d, lt, low)

or_left : (b c : Bool) → (b || c) ≡ true → b ≡ false → c ≡ true
or_left b c h e = ground arith

unwritten :
    (k i k' i' : ℕ) (m m' : Bytes)
    → ((a : ℕ) → Misses (field_ptr (row k) i) (size_of (row k).var_type) a → m' a ≡ m a)
    → disjoint
        (field_ptr (row k) i)
        (size_of (row k).var_type)
        (field_ptr (row k') i')
        (size_of (row k').var_type)
      ≡ true
    → view m' k' i' ≡ view m k' i'
unfolding view
unwritten k i k' i' m m' w d =
    let p = field_ptr (row k) i in
    let q = field_ptr (row k') i' in
    bytes_at-same m m' q (size_of (row k').var_type) λ j lt.
      w (q + j) (disjoint-Misses p (size_of (row k).var_type) q (size_of (row k').var_type) j d lt)

-- A write at one element changes the table of values there and nowhere else.
pub view_written :
    (k i : ℕ) (m m' : Bytes)
    → IsElement k i
    → ((a : ℕ) → Misses (field_ptr (row k) i) (size_of (row k).var_type) a → m' a ≡ m a)
    → (k' i' : ℕ) → IsElement k' i'
    → view m' k' i' ≡ updated (view m) k i (view m' k i) k' i'
view_written k i m m' h w k' i' h' =
    if_intro (λ (s : List ℕ). view m' k' i' ≡ s) ((k' == k) && (i' == i)) (view m' k i)
      (view m k' i') (λ e. same (&&-split (k' == k) (i' == i) e)) (λ e. other e)
  where
    same : ((k' == k) ≡ true) × ((i' == i) ≡ true) → view m' k' i' ≡ view m' k i
    same q = ap₂ (view m') (eq-of-== k' k q.0) (eq-of-== i' i q.1)

    apart_test : apart_from k i k' i' ≡ true
    apart_test =
        below (row k').count (λ d. apart_from k i k' d) i'
          (below row_count (λ c. all_below (row c).count (λ d. apart_from k i c d)) k'
            (below (row k).count
              (λ b. all_below row_count (λ c. all_below (row c).count (λ d. apart_from k b c d))) i
              (below row_count
                (λ a. all_below (row a).count (λ b.
                  all_below row_count (λ c. all_below (row c).count (λ d. apart_from a b c d))))
                k elements_apart h.0)
              h.1)
            h'.0)
          h'.1

    other : ((k' == k) && (i' == i)) ≡ false → view m' k' i' ≡ view m k' i'
    other e = unwritten k i k' i' m m' w (
        or_left ((k' == k) && (i' == i))
          (disjoint (field_ptr (row k) i) (size_of (row k).var_type) (field_ptr (row k') i')
            (size_of (row k').var_type))
          apart_test e)

pub length-view : (m : Bytes) (k i : ℕ) → length (view m k i) ≡ size_of (row k).var_type
unfolding view
length-view m k i = length-bytes_at m (field_ptr (row k) i) (size_of (row k).var_type)
