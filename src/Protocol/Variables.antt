-- ===== src/Protocol/Variables.antt =====
-- firmware/app/src/Protocol.c: the commands on the registry of variables. Each takes the words after
-- its name.
use drdro_mainboard.Base.{
  ℕ, zero, suc, ◌+◌, ◌*◌, Bool, not, ◌||◌, ltb, leb, ◌==◌, if◌then◌else◌, Bytes, le16, List, [],
  ◌∷◌, Option, some, none,
}
use drdro_mainboard.Aout.{aout_write}
use drdro_mainboard.BlCli.Text.{codes, str_eq, Response, tx_str}
use drdro_mainboard.Protocol.Registry.{VarEntry, k_vars, find_var, off_aout}
use drdro_mainboard.Protocol.Values.{at_end, format_field, write_field}
use drdro_mainboard.Protocol.App.{apply_filter, Outside, App, say, refuse}

abbrev pub k_sta_vars : List (List ℕ)
k_sta_vars =
    codes "scales.pos"
    ∷ codes "scales.speed"
    ∷ codes "servo.pos"
    ∷ codes "servo.speed"
    ∷ codes "servo.tgt"
    ∷ codes "servo.mode"
    ∷ codes "din.state"
    ∷ []

module _ {D B : Type 0} (o : Outside D B) where
  -- The loop of `emitVar`, from element `i` on with the elements left.
  unfoldable pub emit_fields : VarEntry → ℕ → ℕ → Bytes → Response → Response
  emit_fields v zero i m r = r
  emit_fields v (suc n) i m r =
      let r1 = if i == 0 then r else tx_str (codes ",") r in
      emit_fields v n (i + 1) m (tx_str (format_field o.c_lib v i 24 m) r1)

  unfoldable pub emit_var : Bytes → VarEntry → Response → Response
  emit_var m v r =
      tx_str (codes "\n") (emit_fields v v.count 0 m (tx_str (codes "=") (tx_str v.name r)))

  abbrev pub get_var : Option VarEntry → App D B → App D B
  get_var none c = refuse (codes "unknown variable") c
  get_var (some v) c = say (emit_var c.registry v) c

  unfoldable pub cmd_get : List (List ℕ) → App D B → App D B
  cmd_get [] c = refuse (codes "usage: get <name>") c
  cmd_get (name ∷ args) c = get_var (find_var name) c

  unfoldable pub emit_vars : List VarEntry → Bytes → Response → Response
  emit_vars [] m r = r
  emit_vars (v ∷ vs) m r = emit_vars vs m (emit_var m v r)

  unfoldable pub cmd_settings : List (List ℕ) → App D B → App D B
  unfolding emit_vars
  cmd_settings args c = say (emit_vars k_vars c.registry) c

  abbrev pub emit_found : Option VarEntry → Bytes → Response → Response
  emit_found none m r = r
  emit_found (some v) m r = emit_var m v r

  unfoldable pub emit_named : List (List ℕ) → Bytes → Response → Response
  emit_named [] m r = r
  emit_named (n ∷ ns) m r = emit_named ns m (emit_found (find_var n) m r)

  unfoldable pub cmd_sta : List (List ℕ) → App D B → App D B
  unfolding emit_named
  cmd_sta args c = say (emit_named k_sta_vars c.registry) c

  -- The live-apply hooks of `cmdSet`.
  unfoldable pub live_apply : VarEntry → ℕ → App D B → App D B
  live_apply v idx c =
      let (rc, d) = aout_write o.i2c idx (le16 c.registry (off_aout + idx * 2)) c.dac in
      if str_eq v.name (codes "scales.filt")
      then apply_filter idx c
      else if str_eq v.name (codes "aout.raw")
      then (if rc then record c { dac = d } else refuse (codes "i2c") (record c { dac = d }))
      else c

  abbrev pub store_value : VarEntry → ℕ → Option Bytes → App D B → App D B
  store_value v idx none c = refuse (codes "value out of range") c
  store_value v idx (some m) c = live_apply v idx (record c { registry = m })

  abbrev pub set_field : VarEntry → ℕ → List ℕ → App D B → App D B
  set_field v idx s c = store_value v idx (write_field o.c_lib v idx s c.registry) c

  -- `*end || i < 0 || i >= v->count`.
  abbrev pub bad_index : VarEntry → List ℕ → Bool
  bad_index v s =
      let (i, rest) = o.c_lib.strtol 10 s in not (at_end rest) || ltb 0x7FFFFFFF i || leb v.count i

  unfoldable pub set_element : VarEntry → List (List ℕ) → App D B → App D B
  set_element v [] c = refuse (codes "usage: set <name> <idx> <value>") c
  set_element v (i ∷ []) c = refuse (codes "usage: set <name> <idx> <value>") c
  set_element v (i ∷ s ∷ args) c =
      if bad_index v i
      then refuse (codes "bad index") c
      else set_field v (o.c_lib.strtol 10 i).0 s c

  unfoldable pub set_scalar : VarEntry → List (List ℕ) → App D B → App D B
  set_scalar v [] c = refuse (codes "usage: set <name> <value>") c
  set_scalar v (s ∷ args) c = set_field v 0 s c

  abbrev pub set_var : Option VarEntry → List (List ℕ) → App D B → App D B
  set_var none args c = refuse (codes "unknown variable") c
  set_var (some v) args c =
      if v.read_only
      then refuse (codes "read-only") c
      else if ltb 1 v.count
      then set_element v args c
      else set_scalar v args c

  unfoldable pub cmd_set : List (List ℕ) → App D B → App D B
  cmd_set [] c = refuse (codes "usage: set <name> [idx] <value>") c
  cmd_set (name ∷ args) c = set_var (find_var name) args c
