-- ===== src/Protocol/Commands.antt =====
-- firmware/app/src/Protocol.c: the commands on the board and the settings. Each takes the words after
-- its name.
use drdro_mainboard.Base.{
  ℕ, zero, suc, Bool, true, false, not, ◌&&◌, ◌==◌, if◌then◌else◌, List, [], ◌∷◌, ◌++◌, take,
  Option, some, none,
}
use drdro_mainboard.Layout.{boot_magic}
use drdro_mainboard.SettingsStore.{settings_active_bank, settings_bank_set}
use drdro_mainboard.SettingsStore.Shared.{settings_save, settings_load_shared}
use drdro_mainboard.BlCli.Text.{codes, str_eq, parse_bank, resp_kv, resp_err, resp_kv_u}
use drdro_mainboard.Protocol.Registry.{scales_count, shared_of, put_shared}
use drdro_mainboard.Protocol.App.{
  apply_filter, servo_mode_of, act_handoff, Outside, App, say, refuse, device, with_device,
}

pub record DoutPin : Type 0 where
  pub name : List ℕ
  pub pin : ℕ
  pub motion_owned : Bool

abbrev pub k_dout_pins : List DoutPin
k_dout_pins =
    record { name = codes "ena"; pin = 10; motion_owned = true }
    ∷ record { name = codes "m1.step"; pin = 12; motion_owned = true }
    ∷ record { name = codes "m1.dir"; pin = 11; motion_owned = true }
    ∷ record { name = codes "m2.step"; pin = 0; motion_owned = false }
    ∷ record { name = codes "m2.dir"; pin = 1; motion_owned = false }
    ∷ record { name = codes "m3.step"; pin = 2; motion_owned = false }
    ∷ record { name = codes "m3.dir"; pin = 3; motion_owned = false }
    ∷ []

unfoldable pub find_dout : List DoutPin → List ℕ → Option DoutPin
find_dout [] name = none
find_dout (p ∷ ps) name =
    let rest = find_dout ps name in if str_eq name p.name then some p else rest

module _ {D B : Type 0} (o : Outside D B) where
  unfoldable pub cmd_version : List (List ℕ) → App D B → App D B
  cmd_version args = say (resp_kv (codes "version") o.fw_version)

  unfoldable pub cmd_update : List (List ℕ) → App D B → App D B
  cmd_update args c =
      say (resp_kv (codes "update") (codes "ready"))
        (record c { boot_flag = boot_magic; action = act_handoff })

  unfoldable pub cmd_reset : List (List ℕ) → App D B → App D B
  cmd_reset args c = say (resp_kv (codes "reset") (codes "ok")) (record c { action = act_handoff })

  unfoldable pub cmd_save : List (List ℕ) → App D B → App D B
  cmd_save args c =
      let (rc, d) = settings_save o.hal (shared_of c.registry) (device c) in
      say (if rc then resp_kv (codes "save") (codes "ok") else resp_err (codes "flash write"))
        (with_device d c)

  -- The loop over the first `n` scales.
  unfoldable pub apply_filters : ℕ → App D B → App D B
  apply_filters zero c = c
  apply_filters (suc n) c = apply_filter n (apply_filters n c)

  unfoldable pub cmd_load : List (List ℕ) → App D B → App D B
  unfolding apply_filters
  cmd_load args c =
      let (valid, sh) = settings_load_shared o.hal (device c) (shared_of c.registry) in
      let m = if valid then put_shared sh c.registry else c.registry in
      say (resp_kv (codes "load") (if valid then codes "ok" else codes "default"))
        (apply_filters scales_count (record c { registry = m }))

  -- `SettingsBankSet`, and what is said where it succeeds.
  unfoldable pub bank_set : ℕ → (App D B → App D B) → App D B → App D B
  bank_set n next c =
      let (rc, d) = settings_bank_set o.hal n (device c) in
      if rc then next (with_device d c) else refuse (codes "flash write") (with_device d c)

  -- The condition on `argv[1]` is that of the bootloader's `parse_bank`.
  abbrev pub select_bank : Option ℕ → List ℕ → App D B → App D B
  select_bank none word c = refuse (codes "usage: bank <0|1>") c
  select_bank (some n) word c = bank_set n (say (resp_kv (codes "bank.active") word)) c

  unfoldable pub cmd_bank : List (List ℕ) → App D B → App D B
  cmd_bank [] c = say (resp_kv_u (codes "bank.active") (settings_active_bank o.hal (device c))) c
  cmd_bank (word ∷ args) c = select_bank (parse_bank word) word c

  unfoldable pub cmd_rollback : List (List ℕ) → App D B → App D B
  cmd_rollback args c =
      let other = if settings_active_bank o.hal (device c) == 0 then 1 else 0 in
      bank_set other
        (λ t. record (say (resp_kv_u (codes "rollback") other) t) { action = act_handoff }) c

  -- HAL_GPIO_WritePin, and the answer; the key is cut to a buffer of 16 bytes.
  abbrev pub driven : DoutPin → List ℕ → ℕ → App D B → App D B
  driven p word level c =
      say (resp_kv (take 15 (codes "dout." ++ p.name)) word)
        (record c { pins = λ k. if k == p.pin then level == 1 else c.pins k })

  unfoldable pub drive : DoutPin → List ℕ → ℕ → App D B → App D B
  drive p word level c =
      if p.motion_owned && not (servo_mode_of c == 0)
      then refuse (codes "motion active") c
      else driven p word level c

  abbrev pub drive_found : Option DoutPin → List ℕ → ℕ → App D B → App D B
  drive_found none word level c = refuse (codes "unknown output") c
  drive_found (some p) word level c = drive p word level c

  abbrev pub drive_level : List ℕ → List ℕ → Option ℕ → App D B → App D B
  drive_level name word none c = refuse (codes "usage: dout <name> <0|1>") c
  drive_level name word (some level) c = drive_found (find_dout k_dout_pins name) word level c

  unfoldable pub cmd_dout : List (List ℕ) → App D B → App D B
  cmd_dout [] c = refuse (codes "usage: dout <name> <0|1>") c
  cmd_dout (name ∷ []) c = refuse (codes "usage: dout <name> <0|1>") c
  cmd_dout (name ∷ word ∷ args) c = drive_level name word (parse_bank word) c
