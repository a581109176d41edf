-- ===== src/Net/Task.antt =====
-- firmware/app/src/Net.c: the rounds of `NetTask`.
use drdro_mainboard.Base.{
  ℕ, ◌+◌, ◌-◌, ◌^◌, Bool, true, false, not, ◌&&◌, ltb, leb, ◌==◌, if◌then◌else◌, u32, List, [], ◌∷◌,
}
use drdro_mainboard.Net.{
  NetState, net_init, chip_error, no_link, dhcp_wait, dhcp_failed, net_leased, NetInfo, PhyCodes,
  Net, set_net_state, apply_phy_mode, net_chip_init, Lease, with_address, apply_lease,
  on_ip_conflict,
}

-- A call that DHCP_run makes of the hooks, and what it returns.
pub data DhcpCall : Type 0 where
  ip_assigned ip_updated : Lease → DhcpCall
  ip_conflict : DhcpCall

pub data DhcpResult : Type 0 where
  dhcp_ip_assign dhcp_ip_changed dhcp_ip_leased dhcp_run_failed dhcp_running other_result :
      DhcpResult

-- What a round meets: the link; the configured address; what DHCP_run does, if it is called; and the
-- tick at each place that reads it, in their order.
pub record Round : Type 0 where
  pub link_up : Bool
  pub cfg_ip : List ℕ
  pub cfg_mask : List ℕ
  pub cfg_gw : List ℕ
  pub calls : List DhcpCall
  pub result : DhcpResult
  pub now_watch : ℕ
  pub now_swept : ℕ
  pub now_retry : ℕ
  pub now_failed : ℕ
  pub now_second : ℕ

abbrev pub same_bool : Bool → Bool → Bool
same_bool true b = b
same_bool false b = not b

-- The differences of ticks, unsigned and signed: `now - then`, and `(int32_t)(now - then) < 0`.
abbrev pub ticks_since : ℕ → ℕ → ℕ
ticks_since now since = u32 (now + 2 ^ 32 - since)

abbrev pub is_before : ℕ → ℕ → Bool
is_before now deadline = leb (2 ^ 31) (ticks_since now deadline)

abbrev pub static_info : Round → Net → NetInfo
static_info e n = record {
  mac = n.net_mac;
  ip = e.cfg_ip;
  sn = e.cfg_mask;
  gw = e.cfg_gw;
  dns = e.cfg_gw;
  dhcp = false;
}

-- The address of the settings, given to the chip and mirrored.
unfoldable pub apply_static : Round → Net → Net
apply_static e n =
    set_net_state net_leased (record (with_address (static_info e n) n) { static_applied = true })

unfoldable pub static_part : Bool → Round → Net → Net
static_part static_mode e n =
    if static_mode
    then (if e.link_up && not n.static_applied
        then apply_static e n
        else if not e.link_up && n.static_applied
        then set_net_state no_link (record n { static_applied = false })
        else n)
    else n

-- A link that has changed; DHCP_stop is what takes a started client down.
unfoldable pub link_change : Round → Net → Net
link_change e n =
    if same_bool e.link_up n.link_was_up
    then n
    else if e.link_up
    then record n { link_was_up = true }
    else set_net_state no_link
        (record n { link_was_up = false; dhcp_started = false; retry_at = 0 })

-- The next mode of the PHY.
abbrev pub advance_phy : PhyCodes → Net → Net
advance_phy codes n = apply_phy_mode codes (n.phy_mode_idx + 1) n

unfoldable pub phy_watchdog : PhyCodes → Round → Net → Net
phy_watchdog codes e n =
    if e.link_up
    then record n { link_down_since = 0 }
    else if n.link_down_since == 0
    then record n { link_down_since = e.now_watch }
    else if ltb 6000 (ticks_since e.now_watch n.link_down_since)
    then record (advance_phy codes n) { link_down_since = e.now_swept }
    else n

-- A session is started, unless one is or a backoff is pending.
unfoldable pub dhcp_start : Round → Net → Net
dhcp_start e n =
    if n.dhcp_started
    then n
    else if not (n.retry_at == 0) && is_before e.now_retry n.retry_at
    then n
    else record (set_net_state dhcp_wait (record n { dhcp_started = true; retry_at = 0 })) {
      discover_cycles = u32 (n.discover_cycles + 1);
    }

abbrev pub dhcp_call : DhcpCall → Net → Net
dhcp_call (ip_assigned l) n = apply_lease l n
dhcp_call (ip_updated l) n = apply_lease l n
dhcp_call ip_conflict n = on_ip_conflict n

unfoldable pub dhcp_calls : List DhcpCall → Net → Net
dhcp_calls [] n = n
dhcp_calls (c ∷ cs) n = dhcp_calls cs (dhcp_call c n)

abbrev pub is_leased : NetState → Bool
is_leased net_init = false
is_leased chip_error = false
is_leased no_link = false
is_leased dhcp_wait = false
is_leased dhcp_failed = false
is_leased net_leased = true

-- `retryAtTick`, for which 0 means that none is pending.
unfoldable pub retry_tick : ℕ → ℕ
retry_tick now = let t = u32 (now + 5000) in if t == 0 then 1 else t

unfoldable pub dhcp_fail : PhyCodes → Round → Net → Net
dhcp_fail codes e n = advance_phy codes (record (set_net_state dhcp_failed n) {
  dhcp_started = false;
  retry_at = retry_tick e.now_failed;
})

abbrev pub still_waiting : Net → Net
still_waiting n =
    if n.dhcp_started && not (is_leased n.net_state) then set_net_state dhcp_wait n else n

abbrev pub after_run : PhyCodes → Round → DhcpResult → Net → Net
after_run codes e dhcp_ip_assign n = n
after_run codes e dhcp_ip_changed n = n
after_run codes e dhcp_ip_leased n = set_net_state net_leased n
after_run codes e dhcp_run_failed n = dhcp_fail codes e n
after_run codes e dhcp_running n = still_waiting n
after_run codes e other_result n = still_waiting n

-- `switch (dhcpStarted ? DHCP_run() : DHCP_RUNNING)`.
unfoldable pub dhcp_run : PhyCodes → Round → Net → Net
dhcp_run codes e n = if n.dhcp_started then after_run codes e e.result (dhcp_calls e.calls n) else n

unfoldable pub dhcp_part : PhyCodes → Bool → Round → Net → Net
dhcp_part codes static_mode e n =
    if e.link_up && not static_mode then dhcp_run codes e (dhcp_start e n) else n

unfoldable pub second_tick : Round → Net → Net
second_tick e n =
    if leb 1000 (ticks_since e.now_second n.last_second)
    then record n { last_second = u32 (n.last_second + 1000); seconds = n.seconds + 1 }
    else n

module _ (codes : PhyCodes) (static_mode : Bool) where
  -- A round of the loop of `NetTask`.
  unfoldable pub net_round : Round → Net → Net
  net_round e n = second_tick e (
      dhcp_part codes static_mode e
        (phy_watchdog codes e (link_change e (static_part static_mode e n))))

  unfoldable pub net_rounds : List Round → Net → Net
  net_rounds [] n = n
  net_rounds (e ∷ es) n = net_rounds es (net_round e n)

-- The task is parked without a chip, and otherwise in its loop.
pub data NetTask : Type 0 where
  parked looping : Net → NetTask

-- The variables of the task as its loop finds them.
abbrev pub entered : ℕ → Net → Net
entered now n = record n {
  retry_at = 0;
  link_down_since = 0;
  dhcp_started = false;
  link_was_up = false;
  last_second = now;
  static_applied = false;
  mirror = record n.mirror { live_mac = n.net_mac };
}

-- `NetTask` up to its loop, with the tick that it reads.
unfoldable pub net_start : PhyCodes → ℕ → Bool → List ℕ → ℕ → Net → NetTask
net_start codes version sized mac now n =
    let (rc, n1) = net_chip_init version sized mac n in
    if rc
    then looping (entered now (set_net_state no_link (apply_phy_mode codes 0 n1)))
    else parked (set_net_state chip_error n1)
