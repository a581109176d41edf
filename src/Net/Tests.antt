-- ===== src/Net/Tests.antt =====
-- The network task on a few rounds.
use drdro_mainboard.Base.{ℕ, ◌+◌, ◌≡◌, refl, Bool, true, false, u32, List, [], ◌∷◌, arith}
use drdro_mainboard.Net.{
  Net, NetState, PhyCodes, PhyMode, half_10, auto_all, full_100, half_100, full_10, net_init,
  no_link, net_leased, dhcp_wait, zero_info, mac_from_device_id, phy_modes, set_net_state,
  apply_phy_mode, net_chip_init, apply_lease, blink_of, Lease,
}
use drdro_mainboard.Net.Task.{
  Round, DhcpCall, DhcpResult, ip_assigned, dhcp_ip_assign, dhcp_running, dhcp_run_failed,
  net_start, net_round, net_rounds, dhcp_fail, parked, looping, NetTask, static_part, link_change,
  phy_watchdog, dhcp_start, dhcp_calls, dhcp_run, dhcp_part, second_tick,
}
use drdro_mainboard.Net.Retry.{net_rounds-backoff}

abbrev mode_code : PhyMode → ℕ
mode_code half_10 = 0x00
mode_code full_10 = 0x08
mode_code half_100 = 0x10
mode_code full_100 = 0x18
mode_code auto_all = 0x38

abbrev phy_codes : PhyCodes
phy_codes = record { opmd = 0x40; opmdc = mode_code }

abbrev device : List ℕ
device = mac_from_device_id 0x11223344 0x55667788 0x99AABBCC

unicast : device ≡ 0x02 ∷ 0x11 ∷ 0x66 ∷ 0x88 ∷ 0xBB ∷ 0xCC ∷ []
unfolding mac_from_device_id
unicast = refl

abbrev boot : Net
boot = record {
  net_state = net_init;
  blink = 1;
  net_mac = [];
  info = zero_info;
  chip = zero_info;
  mirror = record {
    live_ip = [];
    live_mask = [];
    live_gw = [];
    live_mac = [];
    live_state = net_init;
  };
  phy_mode_idx = 0;
  phycfgr = [];
  discover_cycles = 0;
  retry_at = 0;
  link_down_since = 0;
  dhcp_started = false;
  link_was_up = false;
  last_second = 0;
  seconds = 0;
  static_applied = false;
}

abbrev round : Bool → List DhcpCall → DhcpResult → ℕ → Round
round up cs r now = record {
  link_up = up;
  cfg_ip = 192 ∷ 168 ∷ 0 ∷ 9 ∷ [];
  cfg_mask = 255 ∷ 255 ∷ 255 ∷ 0 ∷ [];
  cfg_gw = 192 ∷ 168 ∷ 0 ∷ 1 ∷ [];
  calls = cs;
  result = r;
  now_watch = now;
  now_swept = now;
  now_retry = now;
  now_failed = now;
  now_second = now;
}

abbrev lease : Lease
lease = record {
  lease_ip = 10 ∷ 0 ∷ 0 ∷ 7 ∷ [];
  lease_gw = 10 ∷ 0 ∷ 0 ∷ 1 ∷ [];
  lease_sn = 255 ∷ 0 ∷ 0 ∷ 0 ∷ [];
  lease_dns = 10 ∷ 0 ∷ 0 ∷ 1 ∷ [];
}

abbrev states : Bool → List Round → NetTask → List NetState
states s es (parked n) = n.net_state ∷ []
states s [] (looping n) = n.net_state ∷ []
states s (e ∷ es) (looping n) = n.net_state ∷ states s es (looping (net_round phy_codes s e n))

-- A lease, then a cable that is pulled.
leased_then_pulled :
    states false
      (round true [] dhcp_running 100
        ∷ round true (ip_assigned lease ∷ []) dhcp_ip_assign 200
        ∷ round false [] dhcp_running 300
        ∷ [])
      (net_start phy_codes 4 true device 50 boot)
    ≡ no_link ∷ dhcp_wait ∷ net_leased ∷ no_link ∷ []
unfolding net_start net_round set_net_state apply_phy_mode net_chip_init apply_lease static_part
    link_change phy_watchdog dhcp_start dhcp_calls dhcp_run dhcp_part second_tick mac_from_device_id
    blink_of phy_modes
leased_then_pulled = refl

abbrev failing : Net
failing = record boot { link_was_up = true; dhcp_started = true; net_state = dhcp_wait }

net_rounds-backoff_example :
    let n = dhcp_fail phy_codes (round true [] dhcp_run_failed 4294967000) failing in
    let m =
      net_rounds phy_codes false
        (round true [] dhcp_running 4294967050 ∷ round true [] dhcp_running 4000 ∷ [])
        n in
    (m.dhcp_started ≡ false)
    × (m.discover_cycles ≡ n.discover_cycles)
    × (m.net_state ≡ n.net_state)
    × ((net_round phy_codes false (round true [] dhcp_running 4800) m).discover_cycles
        ≡ u32 (n.discover_cycles + 1))
net_rounds-backoff_example =
    net_rounds-backoff phy_codes (round true [] dhcp_run_failed 4294967000)
      (round true [] dhcp_running 4800) failing
      (round true [] dhcp_running 4294967050 ∷ round true [] dhcp_running 4000 ∷ []) refl
      (omega arith) ((refl, omega arith, omega arith), ((refl, omega arith, omega arith), tt))
      (refl, omega arith, omega arith, omega arith)
