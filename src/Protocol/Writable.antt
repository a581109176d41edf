-- ===== src/Protocol/Writable.antt =====
-- Which bytes of the registry the commands may write, from the table of variables.
use drdro_mainboard.Base.{
  ℕ, zero, suc, ◌+◌, ◌<◌, ◌≡◌, inl, inr, refl, ap, sym, ◌∙◌, eq-of-==, Bool, true, false,
  Bool-cases, not, ◌&&◌, ◌||◌, leb, ltb, ◌==◌, if◌then◌else◌, &&-split, Bytes, All, List, [], ◌∷◌,
  Option, some, none, arith,
}
use drdro_mainboard.Settings.{put8, put16, put32}
use drdro_mainboard.SettingsStore.Shared.{Shared}
use drdro_mainboard.BlCli.Text.{str_eq}
use drdro_mainboard.BlCli.Numbers.{all_below, below}
use drdro_mainboard.Protocol.Registry.{
  Width, one_byte, two_bytes, four_bytes, Store, store_width, put_stores, shared_stores, VarType,
  vt_i32, vt_u32, vt_f32, vt_u16, vt_ip4, vt_mac, vt_upt, VarEntry, k_vars, find_in, find_var,
  field_ptr, put_shared,
}

-- The bytes of a value.
abbrev pub size_of : VarType → ℕ
size_of vt_i32 = 4
size_of vt_u32 = 4
size_of vt_f32 = 4
size_of vt_u16 = 2
size_of vt_ip4 = 4
size_of vt_mac = 6
size_of vt_upt = 4

-- Whether the address is that of a byte of one of the first `n` elements.
unfoldable pub in_elements : VarEntry → ℕ → ℕ → Bool
in_elements v zero a = false
in_elements v (suc n) a =
    let p = field_ptr v n in in_elements v n a || (leb p a && ltb a (p + size_of v.var_type))

-- Whether the address is that of a byte of a variable of the table that is not read-only.
unfoldable pub is_writable : List VarEntry → ℕ → Bool
is_writable [] a = false
is_writable (v ∷ vs) a =
    let rest = is_writable vs a in (not v.read_only && in_elements v v.count a) || rest

-- The registry as it was, but for bytes of variables that are not read-only.
abbrev pub KeepsOthers : Bytes → Bytes → Type 0
KeepsOthers m m' = (a : ℕ) → is_writable k_vars a ≡ false → m' a ≡ m a

-- `n` bytes from `p` on may be written.
abbrev pub all_writable : ℕ → ℕ → Bool
all_writable p n = all_below n (λ k. is_writable k_vars (p + k))

apart : true ≡ false → ⊥
apart e = cc

-- A byte that may not be written is none of them.
pub elsewhere :
    (p n a k : ℕ)
    → all_writable p n ≡ true
    → is_writable k_vars a ≡ false
    → k < n
    → (a == p + k) ≡ false
elsewhere p n a k h w lt = elim (Bool-cases (a == p + k)) [
  | inl e ↦ absurd (
      apart (
        sym (below n (λ j. is_writable k_vars (p + j)) k h lt)
        ∙ ap (is_writable k_vars) (sym (eq-of-== a (p + k) e))
        ∙ w))
  | inr e ↦ e
]

elsewhere_first :
    (p n a : ℕ) → all_writable p n ≡ true → is_writable k_vars a ≡ false → 0 < n → (a == p) ≡ false
elsewhere_first p n a h w lt = ground (arith, elsewhere p n a 0 h w lt)

pub put8-keeps : (m : Bytes) (p x : ℕ) → all_writable p 1 ≡ true → KeepsOthers m (put8 m p x)
put8-keeps m p x h a w = rw (elsewhere_first p 1 a h w (omega arith)) refl

pub put16-keeps : (m : Bytes) (p x : ℕ) → all_writable p 2 ≡ true → KeepsOthers m (put16 m p x)
put16-keeps m p x h a w =
    rw (elsewhere_first p 2 a h w (omega arith)) (rw (elsewhere p 2 a 1 h w (omega arith)) refl)

pub put32-keeps : (m : Bytes) (p x : ℕ) → all_writable p 4 ≡ true → KeepsOthers m (put32 m p x)
put32-keeps m p x h a w = rw (elsewhere_first p 4 a h w (omega arith)) (
    rw (elsewhere p 4 a 1 h w (omega arith))
      (rw (elsewhere p 4 a 2 h w (omega arith)) (rw (elsewhere p 4 a 3 h w (omega arith)) refl)))

pub kept : (m : Bytes) → KeepsOthers m m
kept m a w = refl

pub then_kept : (m m1 m2 : Bytes) → KeepsOthers m m1 → KeepsOthers m1 m2 → KeepsOthers m m2
then_kept m m1 m2 h k a w = k a w ∙ h a w

-- A variable has an element, and if it is not read-only, its elements may be written.
unfoldable pub entry_ok : VarEntry → Bool
entry_ok v =
    ltb 0 v.count
    && (v.read_only || all_below v.count (λ i. all_writable (field_ptr v i) (size_of v.var_type)))

unfoldable all_ok : List VarEntry → Bool
all_ok [] = true
all_ok (v ∷ vs) = entry_ok v && all_ok vs

table_ok : all_ok k_vars ≡ true
unfolding all_ok entry_ok is_writable in_elements field_ptr k_vars
table_ok = refl

abbrev pub Checked : Option VarEntry → Type 0
Checked none = Unit
Checked (some v) = entry_ok v ≡ true

chosen :
    (b : Bool) (v : VarEntry) (o : Option VarEntry)
    → entry_ok v ≡ true
    → Checked o
    → Checked (if b then some v else o)
chosen true v o h k = h
chosen false v o h k = k

find_in-Checked :
    (vs : List VarEntry) (name : List ℕ) → all_ok vs ≡ true → Checked (find_in vs name)
unfolding find_in all_ok
find_in-Checked [] name h = tt
find_in-Checked (v ∷ vs) name h =
    let (first, others) = &&-split (entry_ok v) (all_ok vs) h in
    chosen (str_eq name v.name) v (find_in vs name) first (find_in-Checked vs name others)

pub find_var-Checked : (name : List ℕ) → Checked (find_var name)
find_var-Checked name = find_in-Checked k_vars name table_ok

or_right : (b c : Bool) → (b || c) ≡ true → b ≡ false → c ≡ true
or_right true c h e = absurd (apart e)
or_right false c h e = h

module _ (v : VarEntry) (h : entry_ok v ≡ true) where
  pub count_positive : 0 < v.count
  unfolding entry_ok
  count_positive = ground (arith, (&&-split (ltb 0 v.count) (v.read_only || elements) h).0)
    where
      elements : Bool
      elements = all_below v.count (λ j. all_writable (field_ptr v j) (size_of v.var_type))

  pub element_writable :
      (i : ℕ)
      → v.read_only ≡ false
      → i < v.count
      → all_writable (field_ptr v i) (size_of v.var_type) ≡ true
  unfolding entry_ok
  element_writable i ro lt =
      below v.count (λ j. all_writable (field_ptr v j) (size_of v.var_type)) i
        (or_right v.read_only elements (&&-split (ltb 0 v.count) (v.read_only || elements) h).1 ro)
        lt
    where
      elements : Bool
      elements = all_below v.count (λ j. all_writable (field_ptr v j) (size_of v.var_type))

abbrev width_of : Width → ℕ
width_of one_byte = 1
width_of two_bytes = 2
width_of four_bytes = 4

unfoldable stores_ok : List Store → Bool
stores_ok [] = true
stores_ok (s ∷ ss) = all_writable s.addr (width_of s.width) && stores_ok ss

store_width-keeps :
    (w : Width) (p x : ℕ) (m : Bytes)
    → all_writable p (width_of w) ≡ true
    → KeepsOthers m (store_width w p x m)
store_width-keeps one_byte p x m h = put8-keeps m p x h
store_width-keeps two_bytes p x m h = put16-keeps m p x h
store_width-keeps four_bytes p x m h = put32-keeps m p x h

put_stores-keeps :
    (ss : List Store) (m : Bytes) → stores_ok ss ≡ true → KeepsOthers m (put_stores ss m)
unfolding put_stores stores_ok
put_stores-keeps [] m h = kept m
put_stores-keeps (s ∷ ss) m h =
    let (first, others) = &&-split (all_writable s.addr (width_of s.width)) (stores_ok ss) h in
    then_kept m (store_width s.width s.addr s.value m) (put_stores (s ∷ ss) m)
      (store_width-keeps s.width s.addr s.value m first)
      (put_stores-keeps ss (store_width s.width s.addr s.value m) others)

-- A loaded configuration is stored in variables that are not read-only.
pub put_shared-keeps : (sh : Shared) (m : Bytes) → KeepsOthers m (put_shared sh m)
unfolding put_shared put_stores shared_stores stores_ok is_writable in_elements field_ptr k_vars
put_shared-keeps sh m = put_stores-keeps (shared_stores sh) m refl

-- No byte of a read-only variable may be written.
unfoldable apart_ok : VarEntry → Bool
apart_ok v =
    not v.read_only
    || all_below v.count
        (λ i. all_below (size_of v.var_type) (λ k. not (is_writable k_vars (field_ptr v i + k))))

unfoldable all_apart : List VarEntry → Bool
all_apart [] = true
all_apart (v ∷ vs) = apart_ok v && all_apart vs

-- The bytes of a variable that is marked read-only are the same.
abbrev pub KeepsReadOnly : Bytes → Bytes → VarEntry → Type 0
KeepsReadOnly m m' v =
    v.read_only ≡ true
    → (i k : ℕ) → i < v.count
    → k < size_of v.var_type
    → m' (field_ptr v i + k) ≡ m (field_ptr v i + k)

not-true : (b : Bool) → not b ≡ true → b ≡ false
not-true true h = sym h
not-true false h = refl

module _ (m m' : Bytes) (h : KeepsOthers m m') where
  entry_kept : (v : VarEntry) → apart_ok v ≡ true → KeepsReadOnly m m' v
  unfolding apart_ok
  entry_kept v e ro i k li lk = h (field_ptr v i + k) (
      not-true (is_writable k_vars (field_ptr v i + k)) (
        below (size_of v.var_type) (λ j. not (is_writable k_vars (field_ptr v i + j))) k
          (below v.count
            (λ n.
              all_below (size_of v.var_type) (λ j. not (is_writable k_vars (field_ptr v n + j))))
            i
            (or_right (not v.read_only)
              (all_below v.count (λ n.
                all_below (size_of v.var_type) (λ j. not (is_writable k_vars (field_ptr v n + j)))))
              e (ap not ro))
            li)
          lk))

  entries_kept : (vs : List VarEntry) → all_apart vs ≡ true → All (KeepsReadOnly m m') vs
  unfolding all_apart
  entries_kept [] e = tt
  entries_kept (v ∷ vs) e =
      let (first, others) = &&-split (apart_ok v) (all_apart vs) e in
      (entry_kept v first, entries_kept vs others)

  pub read_only_kept : All (KeepsReadOnly m m') k_vars
  unfolding apart_ok all_apart is_writable in_elements field_ptr k_vars
  read_only_kept = entries_kept k_vars refl
