-- ===== src/Net.antt =====
-- firmware/app/src/Net.c: the states of the network, the addresses, and the modes of the PHY. The
-- W5500 library is not part of the model: `chip` is the address set-up that it was last given, and what
-- it answers are arguments.
pub mod Task
pub mod Sane
pub mod Linking
pub mod Parts
pub mod Invariant
pub mod Backoff
pub mod Retry
mod Tests
use drdro_mainboard.Base.{
  ℕ, zero, suc, ◌/◌, ◌%◌, ◌^◌, bit_or, Bool, true, false, ◌==◌, if◌then◌else◌, u8, List, [], ◌∷◌,
}

pub data NetState : Type 0 where
  net_init chip_error no_link dhcp_wait dhcp_failed net_leased : NetState

abbrev pub blink_app : ℕ
blink_app = 1

abbrev pub blink_net_down : ℕ
blink_net_down = 3

abbrev pub blink_net_error : ℕ
blink_net_error = 4

abbrev pub blink_err_flash : ℕ
blink_err_flash = 5

unfoldable pub blink_of : NetState → ℕ
blink_of net_init = blink_net_down
blink_of chip_error = blink_net_error
blink_of no_link = blink_net_down
blink_of dhcp_wait = blink_net_down
blink_of dhcp_failed = blink_net_down
blink_of net_leased = blink_app

-- `wiz_NetInfo`; `dhcp` is whether it is NETINFO_DHCP.
pub record NetInfo : Type 0 where
  pub mac : List ℕ
  pub ip : List ℕ
  pub sn : List ℕ
  pub gw : List ℕ
  pub dns : List ℕ
  pub dhcp : Bool

-- The live fields of `sShared->net`.
pub record Mirror : Type 0 where
  pub live_ip : List ℕ
  pub live_mask : List ℕ
  pub live_gw : List ℕ
  pub live_mac : List ℕ
  pub live_state : NetState

-- The operating modes of the PHY; their codes are the library's.
pub data PhyMode : Type 0 where
  half_10 auto_all full_100 half_100 full_10 : PhyMode

pub record PhyCodes : Type 0 where
  pub opmd : ℕ
  pub opmdc : PhyMode → ℕ

-- The variables of the file and those of `NetTask`. `phycfgr` holds what has been written to the
-- register, the last first; `seconds` counts the calls of DHCP_time_handler.
pub record Net : Type 0 where
  pub net_state : NetState
  pub blink : ℕ
  pub net_mac : List ℕ
  pub info : NetInfo
  pub chip : NetInfo
  pub mirror : Mirror
  pub phy_mode_idx : ℕ
  pub phycfgr : List ℕ
  pub discover_cycles : ℕ
  pub retry_at : ℕ
  pub link_down_since : ℕ
  pub dhcp_started : Bool
  pub link_was_up : Bool
  pub last_second : ℕ
  pub seconds : ℕ
  pub static_applied : Bool

unfoldable pub set_net_state : NetState → Net → Net
set_net_state s n = record n {
  net_state = s;
  mirror = record n.mirror { live_state = s };
  blink = if n.blink == blink_err_flash then n.blink else blink_of s;
}

abbrev pub phy_mode_count : ℕ
phy_mode_count = 5

unfoldable pub phy_modes : ℕ → PhyMode
phy_modes zero = half_10
phy_modes (suc zero) = auto_all
phy_modes (suc (suc zero)) = full_100
phy_modes (suc (suc (suc zero))) = half_100
phy_modes (suc (suc (suc (suc i)))) = full_10

-- The index is a byte; the wait for the link leaves no trace.
unfoldable pub apply_phy_mode : PhyCodes → ℕ → Net → Net
apply_phy_mode codes idx n =
    let i = u8 idx % phy_mode_count in
    let base = u8 (bit_or codes.opmd (codes.opmdc (phy_modes i))) in
    record n { phy_mode_idx = i; phycfgr = bit_or base 0x80 ∷ base ∷ n.phycfgr }

unfoldable pub mac_from_device_id : ℕ → ℕ → ℕ → List ℕ
mac_from_device_id uid0 uid1 uid2 =
    0x02 ∷ u8 (uid0 / 2 ^ 24) ∷ u8 (uid1 / 2 ^ 16) ∷ u8 uid1 ∷ u8 (uid2 / 2 ^ 8) ∷ u8 uid2 ∷ []

abbrev pub zero_info : NetInfo
zero_info = record {
  mac = 0 ∷ 0 ∷ 0 ∷ 0 ∷ 0 ∷ 0 ∷ [];
  ip = 0 ∷ 0 ∷ 0 ∷ 0 ∷ [];
  sn = 0 ∷ 0 ∷ 0 ∷ 0 ∷ [];
  gw = 0 ∷ 0 ∷ 0 ∷ 0 ∷ [];
  dns = 0 ∷ 0 ∷ 0 ∷ 0 ∷ [];
  dhcp = false;
}

-- `version` is what VERSIONR reads, `sized` whether wizchip_init returns 0, and `mac` the address of
-- the device.
unfoldable pub net_chip_init : ℕ → Bool → List ℕ → Net → Bool × Net
net_chip_init version sized mac n =
    let i : NetInfo = record zero_info { mac = mac; dhcp = true } in
    if version == 0x04
    then (if sized then (true, record n { net_mac = mac; info = i; chip = i }) else (false, n))
    else (false, n)

-- What the DHCP client has been given.
pub record Lease : Type 0 where
  pub lease_ip : List ℕ
  pub lease_gw : List ℕ
  pub lease_sn : List ℕ
  pub lease_dns : List ℕ

-- The address set-up, given to the chip and mirrored.
abbrev pub with_address : NetInfo → Net → Net
with_address i n = record n {
  info = i;
  chip = i;
  mirror = record n.mirror { live_ip = i.ip; live_mask = i.sn; live_gw = i.gw };
}

abbrev pub lease_info : Lease → Net → NetInfo
lease_info l n = record {
  mac = n.net_mac;
  ip = l.lease_ip;
  sn = l.lease_sn;
  gw = l.lease_gw;
  dns = l.lease_dns;
  dhcp = true;
}

unfoldable pub apply_lease : Lease → Net → Net
apply_lease l n = set_net_state net_leased (with_address (lease_info l n) n)

unfoldable pub on_ip_conflict : Net → Net
unfolding set_net_state
on_ip_conflict n = set_net_state dhcp_failed n
