-- ===== src/Protocol/BoardBehaviour.antt =====
-- The commands on the board and the settings: none writes a read-only variable, and `dout` leaves the
-- motion pins alone while a servo mode is on.
use drdro_mainboard.Base.{
  ℕ, ◌≡◌, refl, ap, ◌∙◌, sym, Bool, true, false, not, ◌&&◌, ◌||◌, if_intro, Bool-cases, inl, inr,
  ◌==◌, eq-of-==, &&-split, if◌then◌else◌, List, [], ◌∷◌, Option, some, none,
}
use drdro_mainboard.BlCli.Text.{codes, str_eq, parse_bank, resp_kv, resp_err}
use drdro_mainboard.BlCli.Framing.{nothing, kv, err, one_of}
use drdro_mainboard.SettingsStore.{settings_bank_set}
use drdro_mainboard.SettingsStore.Shared.{Shared, settings_save, settings_load_shared}
use drdro_mainboard.Protocol.Registry.{put_shared, shared_of}
use drdro_mainboard.Protocol.App.{
  Outside, App, say, refuse, apply_filter, with_device, device, servo_mode_of,
}
use drdro_mainboard.Protocol.Commands.{
  DoutPin, k_dout_pins, find_dout, apply_filters, bank_set, select_bank, driven, drive, drive_found,
  drive_level, cmd_version, cmd_update, cmd_reset, cmd_save, cmd_load, cmd_bank, cmd_rollback,
  cmd_dout,
}
use drdro_mainboard.Protocol.Writable.{KeepsOthers, kept, put_shared-keeps}
use drdro_mainboard.Protocol.Behaviour.{is_motion_pin, Behaves, answers, refused}

-- Whether a pin of the table that is a motion pin is marked as owned by motion.
unfoldable owned_ok : List DoutPin → Bool
owned_ok [] = true
owned_ok (p ∷ ps) = (p.motion_owned || not (is_motion_pin p.pin)) && owned_ok ps

clash : true ≡ false → ⊥
clash e = cc

unmoved :
    (owned idle : Bool) (pin k : ℕ)
    → (owned || not (is_motion_pin pin)) ≡ true
    → (owned && not idle) ≡ false
    → idle ≡ false
    → is_motion_pin k ≡ true
    → (k == pin) ≡ false
unmoved true true pin k h e q w = absurd (clash q)
unmoved true false pin k h e q w = absurd (clash e)
unmoved false idle pin k h e q w = elim (Bool-cases (k == pin)) [
  | inl d ↦
      absurd (clash (sym h ∙ ap (λ j. not (is_motion_pin j)) (sym (eq-of-== k pin d)) ∙ ap not w))
  | inr d ↦ d
]

-- The row of the table of outputs that is found.
Owned : Option DoutPin → Type 0
Owned none = Unit
Owned (some p) = (p.motion_owned || not (is_motion_pin p.pin)) ≡ true

one_Owned :
    (b : Bool) (p : DoutPin) (w : Option DoutPin)
    → Owned (some p)
    → Owned w
    → Owned (if b then some p else w)
one_Owned true p w h k = h
one_Owned false p w h k = k

find_dout-Owned :
    (ps : List DoutPin) (name : List ℕ) → owned_ok ps ≡ true → Owned (find_dout ps name)
unfolding find_dout owned_ok Owned
find_dout-Owned [] name h = tt
find_dout-Owned (p ∷ ps) name h =
    let (first, others) = &&-split (p.motion_owned || not (is_motion_pin p.pin)) (owned_ok ps) h in
    one_Owned (str_eq name p.name) p (find_dout ps name) first (find_dout-Owned ps name others)

module _ {D B : Type 0} (o : Outside D B) where
  pub cmd_version-Behaves : (args : List (List ℕ)) (c : App D B) → Behaves c (cmd_version o args c)
  unfolding cmd_version
  cmd_version-Behaves args c = answers c _ (kv _ _ nothing) refl refl refl

  pub cmd_update-Behaves : (args : List (List ℕ)) (c : App D B) → Behaves c (cmd_update o args c)
  unfolding cmd_update
  cmd_update-Behaves args c = answers c _ (kv _ _ nothing) refl refl refl

  pub cmd_reset-Behaves : (args : List (List ℕ)) (c : App D B) → Behaves c (cmd_reset o args c)
  unfolding cmd_reset
  cmd_reset-Behaves args c = answers c _ (kv _ _ nothing) refl refl refl

  pub cmd_save-Behaves : (args : List (List ℕ)) (c : App D B) → Behaves c (cmd_save o args c)
  unfolding cmd_save
  cmd_save-Behaves args c =
      answers c (cmd_save o args c)
        (one_of (settings_save o.hal (shared_of c.registry) (device c)).0
          (resp_kv (codes "save") (codes "ok")) (resp_err (codes "flash write")) c.resp
          (kv _ _ nothing) (err _ nothing))
        refl refl refl

  pub cmd_load-Behaves : (args : List (List ℕ)) (c : App D B) → Behaves c (cmd_load o args c)
  unfolding cmd_load apply_filters apply_filter
  cmd_load-Behaves args c = record {
    said = kv _ _ nothing;
    last_kept = refl;
    others_kept =
        if_intro (KeepsOthers c.registry) l.0 (put_shared l.1 c.registry) c.registry
          (λ e. put_shared-keeps l.1 c.registry) (λ e. kept c.registry);
    motion_kept = λ q k w. refl;
  }
    where
      l : Bool × Shared
      l = settings_load_shared o.hal (device c) (shared_of c.registry)

  bank_set-Behaves :
      (n : ℕ) (next : App D B → App D B) (c : App D B)
      → ((d : D) → Behaves c (next (with_device d c)))
      → Behaves c (bank_set o n next c)
  unfolding bank_set
  bank_set-Behaves n next c h =
      let r = settings_bank_set o.hal n (device c) in
      if_intro (Behaves c) r.0 (next (with_device r.1 c))
        (refuse (codes "flash write") (with_device r.1 c)) (λ e. h r.1)
        (λ e.
          answers c (refuse (codes "flash write") (with_device r.1 c)) (err _ nothing) refl refl
            refl)

  pub cmd_bank-Behaves : (args : List (List ℕ)) (c : App D B) → Behaves c (cmd_bank o args c)
  unfolding cmd_bank
  cmd_bank-Behaves [] c = answers c _ (kv _ _ nothing) refl refl refl
  cmd_bank-Behaves (word ∷ args) c = select (parse_bank word)
    where
      select : (n : Option ℕ) → Behaves c (select_bank o n word c)
      select none = refused _ c
      select (some n) = bank_set-Behaves n (say (resp_kv (codes "bank.active") word)) c (λ d.
          answers c (say (resp_kv (codes "bank.active") word) (with_device d c)) (kv _ _ nothing)
            refl refl refl)

  pub cmd_rollback-Behaves :
      (args : List (List ℕ)) (c : App D B) → Behaves c (cmd_rollback o args c)
  unfolding cmd_rollback
  cmd_rollback-Behaves args c =
      bank_set-Behaves _ _ c (λ d. answers c _ (kv _ _ nothing) refl refl refl)

  -- Driving a pin that motion does not own leaves the motion pins.
  drive-Behaves :
      (p : DoutPin) (word : List ℕ) (level : ℕ) (c : App D B)
      → (p.motion_owned || not (is_motion_pin p.pin)) ≡ true
      → Behaves c (drive o p word level c)
  unfolding drive
  drive-Behaves p word level c h =
      if_intro (Behaves c) (p.motion_owned && not (servo_mode_of c == 0))
        (refuse (codes "motion active") c) (driven o p word level c) (λ e. refused _ c)
        (λ e. record {
          said = kv _ _ nothing;
          last_kept = refl;
          others_kept = kept c.registry;
          motion_kept =
              λ q k w. rw (unmoved p.motion_owned (servo_mode_of c == 0) p.pin k h e q w) refl;
        })

  pub cmd_dout-Behaves : (args : List (List ℕ)) (c : App D B) → Behaves c (cmd_dout o args c)
  unfolding cmd_dout owned_ok Owned
  cmd_dout-Behaves [] c = refused _ c
  cmd_dout-Behaves (name ∷ []) c = refused _ c
  cmd_dout-Behaves (name ∷ word ∷ args) c = level (parse_bank word)
    where
      found : (w : Option DoutPin) (l : ℕ) → Owned w → Behaves c (drive_found o w word l c)
      found none l h = refused _ c
      found (some p) l h = drive-Behaves p word l c h

      level : (l : Option ℕ) → Behaves c (drive_level o name word l c)
      level none = refused _ c
      level (some l) = found (find_dout k_dout_pins name) l (find_dout-Owned k_dout_pins name refl)
