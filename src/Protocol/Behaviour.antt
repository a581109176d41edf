-- ===== src/Protocol/Behaviour.antt =====
-- What every command does with the answer, the registry and the motor pins.
use drdro_mainboard.Base.{
  ℕ, zero, suc, ◌+◌, ◌≡◌, refl, ap, Bool, true, false, ◌||◌, if_intro, ◌==◌, Bytes, List, [], ◌∷◌,
  Option, some, none,
}
use drdro_mainboard.BlCli.Text.{codes, Response, tx_str}
use drdro_mainboard.BlCli.Framing.{Said, nothing, str, err}
use drdro_mainboard.Protocol.Registry.{VarEntry, k_vars, find_var}
use drdro_mainboard.Protocol.Values.{format_field}
use drdro_mainboard.Protocol.App.{servo_mode_of, Outside, App, refuse}
use drdro_mainboard.Protocol.Variables.{
  emit_fields, emit_var, emit_vars, emit_named, emit_found, get_var, cmd_get, cmd_settings,
  k_sta_vars, cmd_sta,
}
use drdro_mainboard.Protocol.Writable.{KeepsOthers}

-- The pins ENA, M1_STEP and M1_DIR.
abbrev pub is_motion_pin : ℕ → Bool
is_motion_pin k = (k == 10) || (k == 11) || (k == 12)

module _ {D B : Type 0} where
  -- A command answers; it keeps the repeat, the registry but for the variables that may be set, and
  -- the motor pins while a servo mode is on.
  pub record Behaves (c c' : App D B) : Type 0 where
    pub said : Said c.resp c'.resp
    pub last_kept : c'.last ≡ c.last
    pub others_kept : KeepsOthers c.registry c'.registry
    pub motion_kept :
        (servo_mode_of c == 0) ≡ false → (k : ℕ) → is_motion_pin k ≡ true → c'.pins k ≡ c.pins k

  -- One that leaves the registry and the pins alone.
  pub answers :
      (c c' : App D B)
      → Said c.resp c'.resp
      → c'.last ≡ c.last
      → c'.registry ≡ c.registry
      → c'.pins ≡ c.pins
      → Behaves c c'
  answers c c' h e m p = record {
    said = h;
    last_kept = e;
    others_kept = λ a w. ap (λ (f : Bytes). f a) m;
    motion_kept = λ q k w. ap (λ (f : ℕ → Bool). f k) p;
  }

  pub refused : (reason : List ℕ) (c : App D B) → Behaves c (refuse reason c)
  refused reason c = answers c (refuse reason c) (err _ nothing) refl refl refl

module _ {D B : Type 0} (o : Outside D B) where
  emit_fields-Said :
      (v : VarEntry) (n i : ℕ) (m : Bytes) (r r' : Response)
      → Said r r'
      → Said r (emit_fields o v n i m r')
  unfolding emit_fields
  emit_fields-Said v zero i m r r' h = h
  emit_fields-Said v (suc n) i m r r' h = emit_fields-Said v n (i + 1) m r _ (
      str (format_field o.c_lib v i 24 m)
        (if_intro (Said r) (i == 0) r' (tx_str (codes ",") r') (λ e. h) (λ e. str _ h)))

  emit_var-Said :
      (m : Bytes) (v : VarEntry) (r r' : Response) → Said r r' → Said r (emit_var o m v r')
  unfolding emit_var
  emit_var-Said m v r r' h = str _ (emit_fields-Said v v.count 0 m r _ (str _ (str _ h)))

  emit_vars-Said :
      (vs : List VarEntry) (m : Bytes) (r r' : Response) → Said r r' → Said r (emit_vars o vs m r')
  unfolding emit_vars
  emit_vars-Said [] m r r' h = h
  emit_vars-Said (v ∷ vs) m r r' h =
      emit_vars-Said vs m r (emit_var o m v r') (emit_var-Said m v r r' h)

  emit_found-Said :
      (w : Option VarEntry) (m : Bytes) (r r' : Response) → Said r r' → Said r (emit_found o w m r')
  emit_found-Said none m r r' h = h
  emit_found-Said (some v) m r r' h = emit_var-Said m v r r' h

  emit_named-Said :
      (ns : List (List ℕ)) (m : Bytes) (r r' : Response) → Said r r' → Said r (emit_named o ns m r')
  unfolding emit_named
  emit_named-Said [] m r r' h = h
  emit_named-Said (n ∷ ns) m r r' h =
      emit_named-Said ns m r (emit_found o (find_var n) m r')
        (emit_found-Said (find_var n) m r r' h)

  pub cmd_get-Behaves : (args : List (List ℕ)) (c : App D B) → Behaves c (cmd_get o args c)
  unfolding cmd_get
  cmd_get-Behaves [] c = refused _ c
  cmd_get-Behaves (name ∷ args) c = get (find_var name)
    where
      get : (w : Option VarEntry) → Behaves c (get_var o w c)
      get none = refused _ c
      get (some v) = answers c _ (emit_var-Said c.registry v c.resp c.resp nothing) refl refl refl

  pub cmd_settings-Behaves :
      (args : List (List ℕ)) (c : App D B) → Behaves c (cmd_settings o args c)
  unfolding cmd_settings
  cmd_settings-Behaves args c =
      answers c _ (emit_vars-Said k_vars c.registry c.resp c.resp nothing) refl refl refl

  pub cmd_sta-Behaves : (args : List (List ℕ)) (c : App D B) → Behaves c (cmd_sta o args c)
  unfolding cmd_sta
  cmd_sta-Behaves args c =
      answers c _ (emit_named-Said k_sta_vars c.registry c.resp c.resp nothing) refl refl refl
