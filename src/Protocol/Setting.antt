-- ===== src/Protocol/Setting.antt =====
-- `set` writes nothing but an element of a variable that is not read-only.
use drdro_mainboard.Base.{
  ℕ, zero, suc, ◌+◌, ◌*◌, ◌<◌, ◌≡◌, refl, ap, ◌∙◌, Bool, true, false, not, ◌||◌, if_intro, ◌==◌,
  leb, ltb, if◌then◌else◌, Bytes, le16, List, [], ◌∷◌, length, Option, some, none, arith, ◌>>=◌,
}
use drdro_mainboard.Settings.{put8, put16, put32}
use drdro_mainboard.BlCli.Text.{codes, str_eq}
use drdro_mainboard.BlCli.Framing.{Said, nothing, err}
use drdro_mainboard.Aout.{Dac, aout_write}
use drdro_mainboard.Protocol.Registry.{
  VarType, vt_i32, vt_u32, vt_f32, vt_u16, vt_ip4, vt_mac, vt_upt, VarEntry, find_var, field_ptr,
  off_aout,
}
use drdro_mainboard.Protocol.Values.{
  Numbers, at_end, above, octet, after_dot, parse_octets, parse_ip4, put_ip4, put_bytes, write_at,
  write_field,
}
use drdro_mainboard.Protocol.App.{Outside, App, refuse, apply_filter}
use drdro_mainboard.Protocol.Variables.{
  live_apply, store_value, set_field, bad_index, set_element, set_scalar, set_var, cmd_set,
}
use drdro_mainboard.Protocol.Writable.{
  size_of, all_writable, KeepsOthers, put16-keeps, put32-keeps, Checked, entry_ok, find_var-Checked,
  element_writable, count_positive, elsewhere,
}
use drdro_mainboard.Protocol.Behaviour.{Behaves, refused}

-- An address that is read has four numbers.
abbrev pub Sized : ℕ → Option (List ℕ) → Type 0
Sized n none = Unit
Sized n (some vs) = length vs ≡ n

last_Sized :
    (o : Option (ℕ × List ℕ)) → Sized 1 (o >>= λ q. if at_end q.1 then some (q.0 ∷ []) else none)
last_Sized none = tt
last_Sized (some q) = if_intro (Sized 1) (at_end q.1) (some (q.0 ∷ [])) none (λ e. refl) (λ e. tt)

cons_Sized : (n v : ℕ) (o : Option (List ℕ)) → Sized n o → Sized (suc n) (o >>= λ vs. some (v ∷ vs))
cons_Sized n v none h = tt
cons_Sized n v (some vs) h = ap suc h

-- The rest of a round, with what the rounds after it give.
module _ (n : ℕ) (f : List ℕ → Option (List ℕ)) (h : (s : List ℕ) → Sized n (f s)) where
  dotted_Sized :
      (v : ℕ) (o : Option (List ℕ)) → Sized (suc n) (o >>= λ next. f next >>= λ vs. some (v ∷ vs))
  dotted_Sized v none = tt
  dotted_Sized v (some next) = cons_Sized n v (f next) (h next)

  round_Sized :
      (o : Option (ℕ × List ℕ))
      → Sized (suc n) (o >>= λ q. after_dot q.1 >>= λ next. f next >>= λ vs. some (q.0 ∷ vs))
  round_Sized none = tt
  round_Sized (some q) = dotted_Sized q.0 (after_dot q.1)

parse_octets-Sized : (n : ℕ) (s : List ℕ) → Sized n (parse_octets n s)
unfolding parse_octets
parse_octets-Sized zero s = tt
parse_octets-Sized (suc zero) s = last_Sized (octet s)
parse_octets-Sized (suc (suc n)) s =
    round_Sized (suc n) (parse_octets (suc n)) (parse_octets-Sized (suc n)) (octet s)

pub parse_ip4-Sized : (s : List ℕ) → Sized 4 (parse_ip4 s)
unfolding parse_ip4
parse_ip4-Sized s = parse_octets-Sized 4 s

-- A store of bytes touches no address outside them.
pub put_bytes-outside :
    (vs : List ℕ) (p a : ℕ) (m : Bytes)
    → ((k : ℕ) → k < length vs → (a == p + k) ≡ false)
    → put_bytes vs p m a ≡ m a
unfolding put_bytes
put_bytes-outside [] p a m h = refl
put_bytes-outside (v ∷ vs) p a m h =
    put_bytes-outside vs (p + 1) a (put8 m p v) (λ k lt. ground (arith, h (suc k) (omega arith)))
    ∙ (rw first refl)
  where
    first : (a == p) ≡ false
    first = ground (arith, h 0 (omega arith))

-- What is stored, if anything is.
abbrev pub StoresIn : Bytes → Option Bytes → Type 0
StoresIn m none = Unit
StoresIn m (some m') = KeepsOthers m m'

put_ip4-StoresIn :
    (o : Option (List ℕ)) (p : ℕ) (m : Bytes)
    → Sized 4 o
    → all_writable p 4 ≡ true
    → StoresIn m (put_ip4 o p m)
put_ip4-StoresIn none p m h w = tt
put_ip4-StoresIn (some vs) p m h w =
    λ a k. put_bytes-outside vs p a m λ j lt. elsewhere p 4 a j w k (omega (arith, h, lt))

stored_or_not :
    (b : Bool) (m m' : Bytes) → KeepsOthers m m' → StoresIn m (if b then none else some m')
stored_or_not true m m' h = tt
stored_or_not false m m' h = h

module _ (c_lib : Numbers) where
  write_at-StoresIn :
      (t : VarType) (umax : ℕ) (s : List ℕ) (p : ℕ) (m : Bytes)
      → all_writable p (size_of t) ≡ true
      → StoresIn m (write_at c_lib t umax s p m)
  unfolding write_at
  write_at-StoresIn vt_i32 umax s p m w =
      let (x, rest) = c_lib.strtol 0 s in
      if_intro (StoresIn m) (at_end rest) (some (put32 m p x)) none (λ e. put32-keeps m p x w)
        (λ e. tt)
  write_at-StoresIn vt_u32 umax s p m w =
      let (x, rest) = c_lib.strtoul 0 s in
      stored_or_not (not (at_end rest) || above umax x) m (put32 m p x) (put32-keeps m p x w)
  write_at-StoresIn vt_u16 umax s p m w =
      let (x, rest) = c_lib.strtoul 0 s in
      stored_or_not (not (at_end rest) || ltb 0xFFFF x || above umax x) m (put16 m p x)
        (put16-keeps m p x w)
  write_at-StoresIn vt_f32 umax s p m w =
      let (x, rest) = c_lib.strtof s in
      if_intro (StoresIn m) (at_end rest) (some (put32 m p x)) none (λ e. put32-keeps m p x w)
        (λ e. tt)
  write_at-StoresIn vt_ip4 umax s p m w = put_ip4-StoresIn (parse_ip4 s) p m (parse_ip4-Sized s) w
  write_at-StoresIn vt_mac umax s p m w = tt
  write_at-StoresIn vt_upt umax s p m w = tt

module _ {D B : Type 0} (o : Outside D B) where
  -- The registry may change, the answer may go on.
  stores :
      (c c' : App D B)
      → Said c.resp c'.resp
      → c'.last ≡ c.last
      → KeepsOthers c.registry c'.registry
      → c'.pins ≡ c.pins
      → Behaves c c'
  stores c c' h e k p = record {
    said = h;
    last_kept = e;
    others_kept = k;
    motion_kept = λ q j w. ap (λ (f : ℕ → Bool). f j) p;
  }

  live_apply-Behaves :
      (v : VarEntry) (i : ℕ) (c : App D B) (m : Bytes)
      → KeepsOthers c.registry m
      → Behaves c (live_apply o v i (record c { registry = m }))
  unfolding live_apply apply_filter
  live_apply-Behaves v i c m k =
      if_intro (Behaves c) (str_eq v.name (codes "scales.filt")) (apply_filter i stored)
        (if str_eq v.name (codes "aout.raw") then written else stored)
        (λ e. stores c (apply_filter i stored) nothing refl k refl)
        (λ e.
          if_intro (Behaves c) (str_eq v.name (codes "aout.raw")) written stored
            (λ e'.
              if_intro (Behaves c) w.0 (record stored { dac = w.1 })
                (refuse (codes "i2c") (record stored { dac = w.1 }))
                (λ q. stores c (record stored { dac = w.1 }) nothing refl k refl)
                (λ q.
                  stores c (refuse (codes "i2c") (record stored { dac = w.1 })) (err _ nothing) refl
                    k refl))
            (λ e'. stores c stored nothing refl k refl))
    where
      stored : App D B
      stored = record c { registry = m }

      w : Bool × Dac B
      w = aout_write o.i2c i (le16 m (off_aout + i * 2)) c.dac

      written : App D B
      written =
          if w.0
          then record stored { dac = w.1 }
          else refuse (codes "i2c") (record stored { dac = w.1 })

  set_field-Behaves :
      (v : VarEntry) (i : ℕ) (s : List ℕ) (c : App D B)
      → all_writable (field_ptr v i) (size_of v.var_type) ≡ true
      → Behaves c (set_field o v i s c)
  unfolding write_field
  set_field-Behaves v i s c h =
      store (write_field o.c_lib v i s c.registry)
        (write_at-StoresIn o.c_lib v.var_type v.umax s (field_ptr v i) c.registry h)
    where
      store : (w : Option Bytes) → StoresIn c.registry w → Behaves c (store_value o v i w c)
      store none k = refused _ c
      store (some m) k = live_apply-Behaves v i c m k

  set_element-Behaves :
      (v : VarEntry) (args : List (List ℕ)) (c : App D B)
      → entry_ok v ≡ true
      → v.read_only ≡ false
      → Behaves c (set_element o v args c)
  unfolding set_element
  set_element-Behaves v [] c h ro = refused _ c
  set_element-Behaves v (i ∷ []) c h ro = refused _ c
  set_element-Behaves v (i ∷ s ∷ args) c h ro =
      let k = (o.c_lib.strtol 10 i).0 in
      if_intro (Behaves c) (bad_index o v i) (refuse (codes "bad index") c) (set_field o v k s c)
        (λ e. refused _ c)
        (λ e. set_field-Behaves v k s c (
          element_writable v h k ro
            (index_in (not (at_end (o.c_lib.strtol 10 i).1)) (ltb 0x7FFFFFFF k) k v.count e)))
    where
      index_in : (a b : Bool) (k n : ℕ) → (a || b || leb n k) ≡ false → k < n
      index_in a b k n e = ground (arith, e)

  set_scalar-Behaves :
      (v : VarEntry) (args : List (List ℕ)) (c : App D B)
      → all_writable (field_ptr v 0) (size_of v.var_type) ≡ true
      → Behaves c (set_scalar o v args c)
  unfolding set_scalar
  set_scalar-Behaves v [] c h = refused _ c
  set_scalar-Behaves v (s ∷ args) c h = set_field-Behaves v 0 s c h

  set_var-Behaves :
      (w : Option VarEntry) (args : List (List ℕ)) (c : App D B)
      → Checked w
      → Behaves c (set_var o w args c)
  set_var-Behaves none args c h = refused _ c
  set_var-Behaves (some v) args c h =
      if_intro (Behaves c) v.read_only (refuse (codes "read-only") c)
        (if ltb 1 v.count then set_element o v args c else set_scalar o v args c) (λ e. refused _ c)
        (λ ro.
          if_intro (Behaves c) (ltb 1 v.count) (set_element o v args c) (set_scalar o v args c)
            (λ e. set_element-Behaves v args c h ro)
            (λ e. set_scalar-Behaves v args c (element_writable v h 0 ro (count_positive v h))))

  pub cmd_set-Behaves : (args : List (List ℕ)) (c : App D B) → Behaves c (cmd_set o args c)
  unfolding cmd_set
  cmd_set-Behaves [] c = refused _ c
  cmd_set-Behaves (name ∷ args) c = set_var-Behaves (find_var name) args c (find_var-Checked name)
