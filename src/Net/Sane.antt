-- ===== src/Net/Sane.antt =====
-- The invariant of the network task.
use drdro_mainboard.Base.{
  ◌<◌, ◌≡◌, ◌⊎◌, inl, inr, refl, Bool, true, false, ◌==◌, Bool-cases, eq-of-==,
}
use drdro_mainboard.Net.{
  NetState, no_link, net_leased, blink_of, blink_err_flash, Net, set_net_state, phy_mode_count,
}

-- The LED shows the state, unless it shows a flash error, and the registry mirrors it; the mode of
-- the PHY is one of the table.
pub record IsShown (n : Net) : Type 0 where
  pub led : (n.blink ≡ blink_err_flash) ⊎ (n.blink ≡ blink_of n.net_state)
  pub mirrored : n.mirror.live_state ≡ n.net_state
  pub mode_known : n.phy_mode_idx < phy_mode_count

-- Without a link there is no address, no client and nothing applied.
abbrev pub IsDown : Net → Type 0
IsDown n = (n.net_state ≡ no_link) × (n.dhcp_started ≡ false) × (n.static_applied ≡ false)

-- In a static set-up with a link the address is held, and no client runs; with DHCP nothing static is
-- applied.
abbrev pub IsUp : Bool → Net → Type 0
IsUp true n = (n.net_state ≡ net_leased) × (n.dhcp_started ≡ false) × (n.static_applied ≡ true)
IsUp false n = n.static_applied ≡ false

abbrev pub IsLinked : Bool → Bool → Net → Type 0
IsLinked static_mode true n = IsUp static_mode n
IsLinked static_mode false n = IsDown n

pub record IsSane (static_mode : Bool) (n : Net) : Type 0 where
  pub shown : IsShown n
  pub linked : IsLinked static_mode n.link_was_up n

pub set_net_state-led :
    (s : NetState) (n : Net)
    → let n' = set_net_state s n in
      (n'.blink ≡ blink_err_flash) ⊎ (n'.blink ≡ blink_of n'.net_state)
unfolding set_net_state
set_net_state-led s n = elim (Bool-cases (n.blink == blink_err_flash)) [
  | inl e ↦ inl (rw e (eq-of-== n.blink blink_err_flash e))
  | inr e ↦ inr (rw e refl)
]

pub set_net_state-IsShown :
    (s : NetState) (n : Net) → n.phy_mode_idx < phy_mode_count → IsShown (set_net_state s n)
unfolding set_net_state
set_net_state-IsShown s n h = record {
  led = set_net_state-led s n;
  mirrored = refl;
  mode_known = h;
}
