-- ===== src/Protocol/Refines.antt =====
-- `set` on the registry, as a step on a table of values.
use drdro_mainboard.Base.{
  ℕ, suc, ◌+◌, ◌*◌, ◌<◌, ◌≡◌, refl, sym, ap, ◌∙◌, subst, Bool, true, false, not, ◌||◌, leb, ltb,
  if◌then◌else◌, if_intro, Bytes, le16, List, [], ◌∷◌, length, get_or, Option, some, none, arith,
}
use drdro_mainboard.BlCli.Text.{codes, str_eq}
use drdro_mainboard.Aout.{aout_write}
use drdro_mainboard.Protocol.Registry.{
  VarEntry, k_vars, find_in, find_var, field_ptr, scalar, vt_mac, off_aout,
}
use drdro_mainboard.Protocol.Values.{at_end, write_field}
use drdro_mainboard.Protocol.App.{Outside, App, refuse, apply_filter}
use drdro_mainboard.Protocol.Variables.{
  live_apply, store_value, set_field, bad_index, set_element, set_scalar, set_var, cmd_set,
}
use drdro_mainboard.Protocol.Writable.{size_of, Checked, find_var-Checked, count_positive}
use drdro_mainboard.Protocol.Elements.{
  row, row_count, view, updated, IsElement, WritesAt, write_at-WritesAt, view_written, length-view,
}

-- A step that `set` may take with this name: none, or one element of the row with that name, which is
-- not read-only, gets a value of its size.
pub data TableStep (name : List ℕ) (f g : ℕ → ℕ → List ℕ) : Type 0 where
  stays : ((k i : ℕ) → g k i ≡ f k i) → TableStep name f g
  replaces :
      (k i : ℕ) (x : List ℕ)
      → IsElement k i
      → (row k).read_only ≡ false
      → str_eq name (row k).name ≡ true
      → length x ≡ size_of (row k).var_type
      → ((k' i' : ℕ) → IsElement k' i' → g k' i' ≡ updated f k i x k' i')
      → TableStep name f g

-- Where a row has been found.
abbrev Located : List VarEntry → List ℕ → Option VarEntry → Type 0
Located vs name none = Unit
Located vs name (some v) =
    (k : ℕ) × (k < length vs)
    × (get_or vs k (scalar [] 0 vt_mac true 0) ≡ v)
    × (str_eq name v.name ≡ true)

Located-later :
    (u : VarEntry) (vs : List VarEntry) (name : List ℕ) (o : Option VarEntry)
    → Located vs name o
    → Located (u ∷ vs) name o
Located-later u vs name none h = tt
Located-later u vs name (some v) h = (suc h.0, omega (arith, h.1), h.2, h.3)

find_in-Located : (vs : List VarEntry) (name : List ℕ) → Located vs name (find_in vs name)
unfolding find_in
find_in-Located [] name = tt
find_in-Located (v ∷ vs) name =
    if_intro (Located (v ∷ vs) name) (str_eq name v.name) (some v) (find_in vs name)
      (λ e. (0, omega arith, refl, e))
      (λ e. Located-later v vs name (find_in vs name) (find_in-Located vs name))

module _ {D B : Type 0} (o : Outside D B) (name : List ℕ) where
  -- What a command does with the table.
  abbrev Steps : App D B → App D B → Type 0
  Steps c c' = TableStep name (view c.registry) (view c'.registry)

  pub live_apply-registry :
      (v : VarEntry) (i : ℕ) (c : App D B) → (live_apply o v i c).registry ≡ c.registry
  unfolding live_apply apply_filter
  live_apply-registry v i c =
      let w = aout_write o.i2c i (le16 c.registry (off_aout + i * 2)) c.dac in
      if_intro Same (str_eq v.name (codes "scales.filt")) (apply_filter i c)
        (if str_eq v.name (codes "aout.raw")
          then (if w.0
              then record c { dac = w.1 }
              else refuse (codes "i2c") (record c { dac = w.1 }))
          else c)
        (λ e. refl)
        (λ e.
          if_intro Same (str_eq v.name (codes "aout.raw"))
            (if w.0 then record c { dac = w.1 } else refuse (codes "i2c") (record c { dac = w.1 }))
            c
            (λ e'.
              if_intro Same w.0 (record c { dac = w.1 })
                (refuse (codes "i2c") (record c { dac = w.1 })) (λ q. refl) (λ q. refl))
            (λ e'. refl))
    where
      Same : App D B → Type 0
      Same q = q.registry ≡ c.registry

  unset : (c : App D B) → Steps c c
  unset c = stays (λ k i. refl)

  module _ (k : ℕ) (h : k < row_count) (writable : (row k).read_only ≡ false)
      (named : str_eq name (row k).name ≡ true) where
    store-Steps :
        (i : ℕ) (w : Option Bytes) (c : App D B)
        → i < (row k).count
        → WritesAt (field_ptr (row k) i) (size_of (row k).var_type) c.registry w
        → Steps c (store_value o (row k) i w c)
    store-Steps i none c lt q = unset c
    store-Steps i (some m) c lt q =
        subst (λ (m' : Bytes). TableStep name (view c.registry) (view m'))
          (sym (live_apply-registry (row k) i (record c { registry = m })))
          (replaces k i (view m k i) (h, lt) writable named (length-view m k i)
            (view_written k i c.registry m (h, lt) q))

    set_field-Steps :
        (i : ℕ) (s : List ℕ) (c : App D B) → i < (row k).count → Steps c (set_field o (row k) i s c)
    unfolding write_field
    set_field-Steps i s c lt =
        store-Steps i (write_field o.c_lib (row k) i s c.registry) c lt (
          write_at-WritesAt o.c_lib (row k).var_type (row k).umax s (field_ptr (row k) i)
            c.registry)

    set_element-Steps :
        (args : List (List ℕ)) (c : App D B) → Steps c (set_element o (row k) args c)
    unfolding set_element
    set_element-Steps [] c = unset c
    set_element-Steps (i ∷ []) c = unset c
    set_element-Steps (i ∷ s ∷ args) c =
        let n = (o.c_lib.strtol 10 i).0 in
        if_intro (Steps c) (bad_index o (row k) i) (refuse (codes "bad index") c)
          (set_field o (row k) n s c) (λ e. unset c)
          (λ e.
            set_field-Steps n s c (
              index_in (not (at_end (o.c_lib.strtol 10 i).1)) (ltb 0x7FFFFFFF n) n (row k).count e))
      where
        index_in : (a b : Bool) (n z : ℕ) → (a || b || leb z n) ≡ false → n < z
        index_in a b n z e = ground (arith, e)

    set_scalar-Steps :
        (args : List (List ℕ)) (c : App D B)
        → 0 < (row k).count
        → Steps c (set_scalar o (row k) args c)
    unfolding set_scalar
    set_scalar-Steps [] c lt = unset c
    set_scalar-Steps (s ∷ args) c lt = set_field-Steps 0 s c lt

  set_row-Steps :
      (k : ℕ) (args : List (List ℕ)) (c : App D B)
      → k < row_count
      → str_eq name (row k).name ≡ true
      → 0 < (row k).count
      → Steps c (set_var o (some (row k)) args c)
  set_row-Steps k args c h named positive =
      if_intro (Steps c) (row k).read_only (refuse (codes "read-only") c)
        (if ltb 1 (row k).count then set_element o (row k) args c else set_scalar o (row k) args c)
        (λ e. unset c)
        (λ writable.
          if_intro (Steps c) (ltb 1 (row k).count) (set_element o (row k) args c)
            (set_scalar o (row k) args c) (λ e. set_element-Steps k h writable named args c)
            (λ e. set_scalar-Steps k h writable named args c positive))

  set_var-Steps :
      (w : Option VarEntry) (args : List (List ℕ)) (c : App D B)
      → Located k_vars name w
      → Checked w
      → Steps c (set_var o w args c)
  unfolding k_vars
  set_var-Steps none args c h ok = unset c
  set_var-Steps (some v) args c (k, lt, found, named) ok =
      subst (λ (u : VarEntry). Steps c (set_var o (some u) args c)) found
        (set_row-Steps k args c lt (ap (λ (u : VarEntry). str_eq name u.name) found ∙ named)
          (subst (λ (u : VarEntry). 0 < u.count) (sym found) (count_positive v ok)))

module _ {D B : Type 0} (o : Outside D B) where
  -- `set` refines a table of independent values: whatever the name, the words after it and the state,
  -- read as a table that has the value of every element of every variable, the registry stays as it is,
  -- or one element of the variable of that name, which is not read-only, gets a value of its size and
  -- every other element of the table, read-only ones included, keeps its value.
  pub cmd_set-TableStep :
      (name : List ℕ) (args : List (List ℕ)) (c : App D B)
      → TableStep name (view c.registry) (view (cmd_set o (name ∷ args) c).registry)
  unfolding cmd_set
  cmd_set-TableStep name args c =
      set_var-Steps o name (find_var name) args c (find_in-Located k_vars name)
        (find_var-Checked name)
