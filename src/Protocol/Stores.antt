-- ===== src/Protocol/Stores.antt =====
-- `set` of a number that is in range is done.
use drdro_mainboard.Base.{
  ℕ, ◌≤◌, ◌≡◌, refl, sym, ap, ◌∙◌, Bool, true, false, not, ◌||◌, ltb, if◌then◌else◌, if_intro,
  Bytes, le16, List, [], ◌∷◌, Option, some, none, arith,
}
use drdro_mainboard.Settings.{put16}
use drdro_mainboard.BlCli.Text.{codes}
use drdro_mainboard.Protocol.Registry.{VarType, VarEntry, vt_u16, find_var, field_ptr}
use drdro_mainboard.Protocol.Values.{Numbers, at_end, above, write_at, write_field}
use drdro_mainboard.Protocol.App.{Outside, App, refuse}
use drdro_mainboard.Protocol.Variables.{
  store_value, set_field, set_element, set_scalar, set_var, cmd_set,
}
use drdro_mainboard.Protocol.Refines.{live_apply-registry}

clash : true ≡ false → ⊥
clash e = cc

read_back : (m : Bytes) (p x : ℕ) → x ≤ 0xFFFF → le16 (put16 m p x) p ≡ x
read_back m p x h = ground arith

in_range : (big over : Bool) → big ≡ false → over ≡ false → (not true || big || over) ≡ false
in_range big over p q = ground arith

write_u16 :
    (c_lib : Numbers) (umax : ℕ) (s : List ℕ) (p x : ℕ) (m : Bytes)
    → c_lib.strtoul 0 s ≡ (x, [])
    → x ≤ 0xFFFF
    → above umax x ≡ false
    → write_at c_lib vt_u16 umax s p m ≡ some (put16 m p x)
unfolding write_at
write_u16 c_lib umax s p x m e h k =
    ap
      (λ (r : ℕ × List ℕ).
        if not (at_end r.1) || ltb 0xFFFF r.0 || above umax r.0 then none else some (put16 m p r.0))
      e
    ∙ (rw (in_range (ltb 0xFFFF x) (above umax x) (ground (arith, h)) k) refl)

module _ {D B : Type 0} (o : Outside D B) (v : VarEntry) where
  stored_registry :
      (s : List ℕ) (x : ℕ) (c : App D B)
      → v.var_type ≡ vt_u16
      → o.c_lib.strtoul 0 s ≡ (x, [])
      → x ≤ 0xFFFF
      → above v.umax x ≡ false
      → (set_field o v 0 s c).registry ≡ put16 c.registry (field_ptr v 0) x
  unfolding write_field
  stored_registry s x c t e h k =
      let p = field_ptr v 0 in
      let m = put16 c.registry p x in
      ap (λ (w : Option Bytes). (store_value o v 0 w c).registry)
        (ap (λ (y : VarType). write_at o.c_lib y v.umax s p c.registry) t
          ∙ write_u16 o.c_lib v.umax s p x c.registry e h k)
      ∙ live_apply-registry o v.name v 0 (record c { registry = m })

  -- `set` of a variable of one element and 16 bits, which is not read-only, to a text that strtoul reads
  -- to its end as a number within 16 bits and the bound of the variable: the variable has that number,
  -- whatever other words follow.
  pub cmd_set-stores :
      (name s : List ℕ) (args : List (List ℕ)) (x : ℕ) (c : App D B)
      → find_var name ≡ some v
      → v.read_only ≡ false
      → ltb 1 v.count ≡ false
      → v.var_type ≡ vt_u16
      → o.c_lib.strtoul 0 s ≡ (x, [])
      → x ≤ 0xFFFF
      → above v.umax x ≡ false
      → le16 (cmd_set o (name ∷ s ∷ args) c).registry (field_ptr v 0) ≡ x
  unfolding cmd_set set_scalar
  cmd_set-stores name s args x c found writable one t e h k =
      ap (λ (m : Bytes). le16 m (field_ptr v 0))
        (ap (λ (w : Option VarEntry). (set_var o w (s ∷ args) c).registry) found ∙ written)
      ∙ read_back c.registry (field_ptr v 0) x h
    where
      Done : App D B → Type 0
      Done q = q.registry ≡ put16 c.registry (field_ptr v 0) x

      written : Done (set_var o (some v) (s ∷ args) c)
      written =
          if_intro Done v.read_only (refuse (codes "read-only") c)
            (if ltb 1 v.count then set_element o v (s ∷ args) c else set_scalar o v (s ∷ args) c)
            (λ q. absurd (clash (sym q ∙ writable)))
            (λ q.
              if_intro Done (ltb 1 v.count) (set_element o v (s ∷ args) c)
                (set_scalar o v (s ∷ args) c) (λ w. absurd (clash (sym w ∙ one)))
                (λ w. stored_registry s x c t e h k))
