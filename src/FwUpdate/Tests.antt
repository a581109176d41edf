-- ===== src/FwUpdate/Tests.antt =====
-- A write of the update session, and whole updates, on the simulated part.
use drdro_mainboard.Base.{◌≡◌, ◌∙◌, ℕ, refl, true, false, Bytes, List, [], ◌∷◌, arith}
use drdro_mainboard.Boot.{need_copy}
use drdro_mainboard.SettingsStore.Tests.{
  other_loaded, other_loaded-record, commit-sim, bank_accepted,
}
use drdro_mainboard.Hal.Sim.{sim, sim-IsFlash, sim-Works, Part}
use drdro_mainboard.Crc.{settings_crc32}
use drdro_mainboard.Flash.{Session, flash_program_write}
use drdro_mainboard.FwUpdate.{fw_flash_write}
use drdro_mainboard.FwUpdate.Writes.{forget, outcome, fw_flash_write-flash_program_write}
use drdro_mainboard.FwUpdate.Session.{
  FwSession, is_done, committed, fw_update_commit, fw_idle, fw_done, no_reason, begun, Poll,
  established, close_wait, fw_feed, fw_update_begin, fw_receive,
}
use drdro_mainboard.FwUpdate.Stream.{Fed, fw_feed_lem}
use drdro_mainboard.FwUpdate.Receive.{
  offered, AreChunks, armed, armed-Receiving, StoredAt, update-Stored,
}
use drdro_mainboard.FwUpdate.Commit.{
  bank_checksum, fw_image_valid-bl_image_valid, fw_update_commit-need_copy,
}
use drdro_mainboard.FwUpdate.Complete.{update-completes}

abbrev erased_bank : Session Bytes
erased_bank = record {
  dev = λ a. 255;
  base = 0x08040000;
  sector = 6;
  erased = false;
  fail_phase = 0;
  fail_addr = 0;
  fail_hal = 0;
}

fw_flash_write-flash_program_write_example :
    fw_flash_write (sim true) 1024 (λ i. 7) 64 (forget erased_bank)
    ≡ outcome (flash_program_write (sim true) 1024 (λ d i. 7) 64 erased_bank)
fw_flash_write-flash_program_write_example =
    fw_flash_write-flash_program_write (sim true) 1024 (λ i. 7) 64 erased_bank

-- A session that has done nothing yet.
abbrev fresh : FwSession Bytes
fresh = record {
  flash = forget erased_bank;
  state = fw_idle;
  reason = no_reason;
  bank = 0;
  size = 0;
  crc_want = 0;
  received = 0;
  pend = [];
  written = 0;
  crc_run = 0;
  socket_open = false;
}

abbrev image : List ℕ
image = 0x00 ∷ 0x80 ∷ 0x01 ∷ 0x20 ∷ 0xA5 ∷ 0x01 ∷ []

abbrev image_crc : ℕ
image_crc = settings_crc32 image

-- The image in two pieces, the second after the peer has closed.
abbrev pieces : List Poll
pieces =
    record { status = established; avail = true; bytes = 0x00 ∷ 0x80 ∷ 0x01 ∷ []; now = 5 }
    ∷ record { status = close_wait; avail = true; bytes = 0x20 ∷ 0xA5 ∷ 0x01 ∷ []; now = 9 }
    ∷ []

pieces-AreChunks : AreChunks pieces
pieces-AreChunks = (
  (omega arith, (omega arith, (omega arith, tt))),
  omega arith,
  ((omega arith, (omega arith, (omega arith, tt))), omega arith, tt),
)

accepted : (fw_update_begin (sim true) true true 1 6 image_crc fresh).0 ≡ begun
unfolding fw_update_begin
accepted = refl

fw_feed_lem_example :
    Fed
      (sim true)
      (fw_feed (sim true) (0x55 ∷ 0xAA ∷ []) (armed (sim true) 1 6 0 fresh))
      (0x55 ∷ 0xAA ∷ [])
fw_feed_lem_example =
    fw_feed_lem (sim true) (sim-IsFlash true) (armed (sim true) 1 6 0 fresh) [] (0x55 ∷ 0xAA ∷ [])
      (armed-Receiving (sim true) 1 6 0 fresh (omega arith) (omega arith))
      (omega arith, (omega arith, tt)) (omega arith)

-- The same session on the part with a lock, which is locked and whose every byte is in use.
abbrev fresh_locked : FwSession Part
fresh_locked = record {
  flash = record {
    dev = record { memory = λ a. 0; is_open = false };
    base = 0;
    sector = 0;
    erased = false;
  };
  state = fw_idle;
  reason = no_reason;
  bank = 0;
  size = 0;
  crc_want = 0;
  received = 0;
  pend = [];
  written = 0;
  crc_run = 0;
  socket_open = false;
}

pieces_done :
    (fw_receive
      (sim true)
      pieces
      (0, (fw_update_begin (sim true) true true 1 6 image_crc fresh).1)).1.state
    ≡ fw_done
pieces_done =
    (update-completes (sim true) (sim-IsFlash true) sim-Works true true 1 6 image_crc 0 fresh pieces
      accepted pieces-AreChunks (omega arith, (omega arith, tt)) refl refl).0

update-Stored_example :
    StoredAt
      (sim true)
      (sim-IsFlash true)
      1
      6
      image_crc
      (fw_receive
        (sim true)
        pieces
        (0, (fw_update_begin (sim true) true true 1 6 image_crc fresh).1)).1
      (offered pieces)
update-Stored_example =
    update-Stored (sim true) (sim-IsFlash true) true true 1 6 image_crc 0 fresh pieces accepted
      pieces-AreChunks pieces_done

-- An update of bank 1 that is done, while bank 0 is recorded as loaded.
abbrev updated : FwSession Bytes
updated = record fresh {
  flash = record (forget erased_bank) { dev = other_loaded };
  state = fw_done;
  bank = 1;
}

commits : (fw_update_commit (sim true) updated).0 ≡ committed (bank_checksum (sim true) updated)
unfolding fw_update_commit
commits = ground (
  arith,
  fw_image_valid-bl_image_valid ((sim true).byte other_loaded) 0x08060000 ∙ bank_accepted,
  commit-sim 1 (bank_checksum (sim true) updated) other_loaded (omega arith),
)

fw_update_commit-need_copy_example :
    (is_done updated.state ≡ true)
    × (bank_checksum (sim true) updated ≡ bank_checksum (sim true) updated)
    × ((fw_update_commit (sim true) updated).1.state ≡ fw_idle)
    × (need_copy ((sim true).byte (fw_update_commit (sim true) updated).1.flash.dev) ≡ true)
fw_update_commit-need_copy_example =
    fw_update_commit-need_copy (sim true) (sim-IsFlash true) (bank_checksum (sim true) updated)
      updated commits (omega arith) (λ e. omega (arith, e, other_loaded-record))
