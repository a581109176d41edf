-- ===== src/FwUpdate/Session.antt =====
-- firmware/app/src/FwUpdate.c: the update session, from `fwFail` to `FwUpdateCommit`. The socket of
-- the W5500 library is a flag, whether the session holds it open; what the network and the clock
-- answer are arguments.
use drdro_mainboard.Base.{
  ℕ, ◌+◌, ◌-◌, ◌*◌, ◌/◌, ◌^◌, Bool, true, false, not, ◌||◌, ltb, leb, ◌==◌, if◌then◌else◌, u32,
  Bytes, le32, List, [], ◌∷◌, ◌++◌, length, take, drop, get_or, replicate,
}
use drdro_mainboard.Layout.{
  app_exec_base, app_region_end, app_region_size, bank_count, bank_base, bank_sector,
}
use drdro_mainboard.Hal.{FlashHal}
use drdro_mainboard.Crc.{crc32_loop, complement, settings_crc32, byte_range}
use drdro_mainboard.SettingsStore.{settings_commit_bank}
use drdro_mainboard.FwUpdate.{FwFlash, fw_flash_begin, fw_flash_end, fw_flash_write}

pub data FwState : Type 0 where
  fw_idle fw_recv fw_done fw_error : FwState

pub data FwReason : Type 0 where
  no_reason size_reason flash_reason crc_reason timeout_reason abort_reason : FwReason

abbrev pub is_recv : FwState → Bool
is_recv fw_idle = false
is_recv fw_recv = true
is_recv fw_done = false
is_recv fw_error = false

abbrev pub is_done : FwState → Bool
is_done fw_idle = false
is_done fw_recv = false
is_done fw_done = true
is_done fw_error = false

-- `pend` holds the first `sPendLen` bytes of `sPend`; `crc_run` is the CRC before the last xor.
pub record FwSession (D : Type 0) : Type 0 where
  pub flash : FwFlash D
  pub state : FwState
  pub reason : FwReason
  pub bank : ℕ
  pub size : ℕ
  pub crc_want : ℕ
  pub received : ℕ
  pub pend : List ℕ
  pub written : ℕ
  pub crc_run : ℕ
  pub socket_open : Bool

-- A step of the stream: whether to go on, and the session. A step that fails has failed the
-- session, and its caller returns.
abbrev pub Step : Type 0 → Type 0
Step D = Bool × FwSession D

-- `if (...) { ...; return; }` before the rest.
abbrev pub unless_failed : {D : Type 0} → Step D → (FwSession D → FwSession D) → FwSession D
unless_failed r next = elim r.0 [ true ↦ next r.1 | false ↦ r.1 ]

abbrev pub then_fill :
    {D : Type 0} → List ℕ → Step D → (FwSession D → Step D × List ℕ) → Step D × List ℕ
then_fill p r next = elim r.0 [ true ↦ next r.1 | false ↦ (r, p) ]

abbrev pub listed : List ℕ → Bytes
listed w i = get_or w i 0

pub data BeginResult : Type 0 where
  begun bad_args busy network_down : BeginResult

pub data CommitResult : Type 0 where
  committed : ℕ → CommitResult
  not_ready not_saved : CommitResult

-- The socket states that the task tells apart.
pub data SocketState : Type 0 where
  established close_wait closed other_state : SocketState

-- The checks of `FwUpdateCommit` on the vectors of the bank.
unfoldable pub fw_image_valid : Bytes → ℕ → Bool
fw_image_valid m base =
    let sp = le32 m base in
    let pc = le32 m (base + 4) in
    if ltb sp 0x20000000 || ltb 0x20020000 sp
    then false
    else not (ltb pc app_exec_base || leb app_region_end pc)

-- What a round of the task's loop meets: the socket's state, whether getSn_RX_RSR reports bytes,
-- what recv returns (none where it returns 0 or an error), and the tick.
pub record Poll : Type 0 where
  pub status : SocketState
  pub avail : Bool
  pub bytes : List ℕ
  pub now : ℕ

-- The bytes that the round feeds.
abbrev pub payload : Poll → List ℕ
payload e = elim e.status as (λ (r : SocketState). List ℕ) [
  | established ↦ if e.avail then e.bytes else []
  | close_wait ↦ if e.avail then e.bytes else []
  | closed ↦ []
  | other_state ↦ []
]

module _ {D : Type 0} (hal : FlashHal D) where
  abbrev pub fw_fail : FwReason → FwSession D → FwSession D
  fw_fail reason s = record s {
    reason = reason;
    state = fw_error;
    flash = fw_flash_end hal s.flash;
    socket_open = false;
  }

  -- `if (fwFlashWrite(sWritten, p, n)) { fwFail("flash"); return; } sWritten += n;`
  unfoldable pub fw_write_out : List ℕ → FwSession D → Step D
  fw_write_out w s =
      let (rc, f) = fw_flash_write hal s.written (listed w) (length w) s.flash in
      if rc
      then (true, record s { flash = f; written = u32 (s.written + length w) })
      else (false, fw_fail flash_reason (record s { flash = f }))

  -- A full pending word is written, and then empty.
  unfoldable pub fw_flush_pend : FwSession D → Step D
  fw_flush_pend s =
      let (rc, t) = fw_write_out s.pend s in
      if length s.pend == 4 then (rc, if rc then record t { pend = [] } else t) else (true, s)

  -- `while (n && sPendLen)`, and the bytes it leaves.
  unfoldable pub fw_fill : List ℕ → FwSession D → Step D × List ℕ
  fw_fill [] s = ((true, s), [])
  fw_fill (b ∷ p) s =
      if length s.pend == 0
      then ((true, s), b ∷ p)
      else then_fill p (fw_flush_pend (record s { pend = s.pend ++ b ∷ [] })) (fw_fill p)

  -- The whole words of the rest are written at once, the tail waits.
  unfoldable pub fw_write_whole : List ℕ → FwSession D → Step D
  fw_write_whole p s =
      let whole = 4 * (length p / 4) in
      let (rc, t) = fw_write_out (take whole p) s in
      let tail = drop whole p in
      if whole == 0
      then (true, record s { pend = s.pend ++ p })
      else (rc, if rc then record t { pend = t.pend ++ tail } else t)

  unfoldable pub fw_pad : FwSession D → Step D
  fw_pad s =
      let (rc, t) = fw_write_out (s.pend ++ replicate (4 - length s.pend) 0xFF) s in
      if length s.pend == 0 then (true, s) else (rc, if rc then record t { pend = [] } else t)

  unfoldable pub fw_close_stream : FwSession D → FwSession D
  fw_close_stream s =
      let t : FwSession D = record s { flash = fw_flash_end hal s.flash; socket_open = false } in
      if complement s.crc_run == s.crc_want
      then record t { state = fw_done }
      else record t { reason = crc_reason; state = fw_error }

  unfoldable pub fw_finish_stream : FwSession D → FwSession D
  fw_finish_stream s = unless_failed (fw_pad s) fw_close_stream

  unfoldable pub fw_feed : List ℕ → FwSession D → FwSession D
  fw_feed p s =
      let counted : FwSession D = record s {
        crc_run = crc32_loop s.crc_run p;
        received = u32 (s.received + length p);
      } in
      if ltb s.size (u32 (s.received + length p))
      then fw_fail size_reason s
      else let (r, rest) = fw_fill p counted in
        unless_failed r λ t.
          unless_failed (fw_write_whole rest t)
            λ u. if u.received == u.size then fw_finish_stream u else u

  -- `leased` is whether the network is up, `listening` whether the socket could be opened.
  unfoldable pub fw_update_begin : Bool → Bool → ℕ → ℕ → ℕ → FwSession D → BeginResult × FwSession D
  fw_update_begin leased listening bank size crc s =
      if leb bank_count bank || size == 0 || ltb app_region_size size
      then (bad_args, s)
      else if is_recv s.state
      then (busy, s)
      else if not leased
      then (network_down, s)
      else if not listening
      then (network_down, record s { socket_open = false })
      else (
        begun,
        record {
          flash = fw_flash_begin hal (bank_base bank) (bank_sector bank) s.flash;
          state = fw_recv;
          reason = no_reason;
          bank = bank;
          size = size;
          crc_want = crc;
          received = 0;
          pend = [];
          written = 0;
          crc_run = 0xFFFFFFFF;
          socket_open = true;
        },
      )

  unfoldable pub fw_update_abort : FwSession D → FwSession D
  fw_update_abort s =
      if is_recv s.state
      then record (fw_fail abort_reason s) { state = fw_idle }
      else record s { state = fw_idle }

  unfoldable pub fw_update_commit : FwSession D → CommitResult × FwSession D
  fw_update_commit s =
      let m = hal.byte s.flash.dev in
      let crc = settings_crc32 (byte_range m (bank_base s.bank) app_region_size) in
      let (rc, d) = settings_commit_bank hal s.bank crc s.flash.dev in
      let t : FwSession D = record s { flash = record s.flash { dev = d } } in
      if not (is_done s.state)
      then (not_ready, s)
      else if not (fw_image_valid m (bank_base s.bank))
      then (not_ready, s)
      else if rc
      then (committed crc, record t { state = fw_idle })
      else (not_saved, t)

  -- The timeout test at the end of a round.
  unfoldable pub fw_check_timeout : ℕ → ℕ → FwSession D → FwSession D
  fw_check_timeout now last s =
      if ltb 10000 (u32 (now + 2 ^ 32 - last)) then fw_fail timeout_reason s else s

  -- A round that fed nothing.
  unfoldable pub fw_idle_round : SocketState → Bool → ℕ → ℕ → FwSession D → FwSession D
  fw_idle_round established avail now last s = fw_check_timeout now last s
  fw_idle_round close_wait true now last s = fw_check_timeout now last s
  fw_idle_round close_wait false now last s = fw_fail size_reason s
  fw_idle_round closed avail now last s = fw_fail size_reason s
  fw_idle_round other_state avail now last s = fw_check_timeout now last s

  -- One round of `while (sState == FW_RECV)`, on the tick of the last activity and the session.
  unfoldable pub fw_poll : Poll → ℕ × FwSession D → ℕ × FwSession D
  fw_poll e (last, s) =
      if length (payload e) == 0
      then (last, fw_idle_round e.status e.avail e.now last s)
      else (e.now, fw_feed (payload e) s)

  -- The loop over what its rounds meet.
  unfoldable pub fw_receive : List Poll → ℕ × FwSession D → ℕ × FwSession D
  fw_receive [] t = t
  fw_receive (e ∷ es) t = if is_recv t.1.state then fw_receive es (fw_poll e t) else t
