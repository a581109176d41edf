-- ===== src/Net/Parts.antt =====
-- The parts of a round after the test of the link, and what they keep.
use drdro_mainboard.Base.{
  u32, ◌+◌, ◌<◌, ◌≡◌, inl, inr, refl, sym, ap, ◌∙◌, true, not, ◌&&◌, if_intro, ltb, leb, ◌==◌,
  if◌then◌else◌, List, [], ◌∷◌, arith,
}
use drdro_mainboard.Net.{
  NetState, dhcp_wait, dhcp_failed, net_leased, blink_of, PhyCodes, Net, set_net_state,
  apply_phy_mode, with_address, lease_info, apply_lease, on_ip_conflict, phy_mode_count,
}
use drdro_mainboard.Net.Task.{
  Round, DhcpCall, ip_assigned, ip_updated, ip_conflict, DhcpResult, dhcp_ip_assign,
  dhcp_ip_changed, dhcp_ip_leased, dhcp_run_failed, dhcp_running, other_result, advance_phy,
  phy_watchdog, dhcp_start, dhcp_call, dhcp_calls, dhcp_fail, still_waiting, after_run, dhcp_run,
  second_tick, is_leased, is_before, ticks_since,
}
use drdro_mainboard.Net.Sane.{IsShown, set_net_state-IsShown}

-- The same in what the invariant says of the link.
pub record Keeps (n m : Net) : Type 0 where
  pub still_shown : IsShown m
  pub same_was_up : m.link_was_up ≡ n.link_was_up
  pub same_applied : m.static_applied ≡ n.static_applied

abbrev pub KeepsAll : Net → Net → Type 0
KeepsAll n m = Keeps n m × (m.net_state ≡ n.net_state) × (m.dhcp_started ≡ n.dhcp_started)

-- A state that only times and the mode of the PHY tell apart.
retimed :
    (n m : Net)
    → IsShown n
    → (record m {
      phy_mode_idx = 0;
      phycfgr = [];
      link_down_since = 0;
      retry_at = 0;
      last_second = 0;
      seconds = 0;
    }
        ≡ record n {
          phy_mode_idx = 0;
          phycfgr = [];
          link_down_since = 0;
          retry_at = 0;
          last_second = 0;
          seconds = 0;
        })
    → m.phy_mode_idx < phy_mode_count
    → KeepsAll n m
retimed n m h e k = (
  record {
    still_shown = record {
      led = elim h.led [
        | inl x ↦ inl (ap (λ (q : Net). q.blink) e ∙ x)
        | inr x ↦
            inr (ap (λ (q : Net). q.blink) e ∙ x ∙ ap (λ (q : Net). blink_of q.net_state) (sym e))
      ];
      mirrored =
          ap (λ (q : Net). q.mirror.live_state) e
          ∙ h.mirrored
          ∙ ap (λ (q : Net). q.net_state) (sym e);
      mode_known = k;
    };
    same_was_up = ap (λ (q : Net). q.link_was_up) e;
    same_applied = ap (λ (q : Net). q.static_applied) e;
  },
  ap (λ (q : Net). q.net_state) e,
  ap (λ (q : Net). q.dhcp_started) e,
)

module _ (codes : PhyCodes) (e : Round) where
  pub phy_watchdog-KeepsAll : (n : Net) → IsShown n → KeepsAll n (phy_watchdog codes e n)
  unfolding phy_watchdog apply_phy_mode
  phy_watchdog-KeepsAll n h =
      if_intro (KeepsAll n) e.link_up (record n { link_down_since = 0 })
        (if n.link_down_since == 0
          then record n { link_down_since = e.now_watch }
          else if ltb 6000 (ticks_since e.now_watch n.link_down_since)
          then record (advance_phy codes n) { link_down_since = e.now_swept }
          else n)
        (λ q. retimed n (record n { link_down_since = 0 }) h refl h.mode_known)
        (λ q.
          if_intro (KeepsAll n) (n.link_down_since == 0)
            (record n { link_down_since = e.now_watch })
            (if ltb 6000 (ticks_since e.now_watch n.link_down_since)
              then record (advance_phy codes n) { link_down_since = e.now_swept }
              else n)
            (λ w. retimed n (record n { link_down_since = e.now_watch }) h refl h.mode_known)
            (λ w.
              if_intro (KeepsAll n) (ltb 6000 (ticks_since e.now_watch n.link_down_since))
                (record (advance_phy codes n) { link_down_since = e.now_swept }) n
                (λ x.
                  retimed n (record (advance_phy codes n) { link_down_since = e.now_swept }) h refl
                    (omega arith))
                (λ x. retimed n n h refl h.mode_known)))

  pub second_tick-KeepsAll : (n : Net) → IsShown n → KeepsAll n (second_tick e n)
  unfolding second_tick
  second_tick-KeepsAll n h =
      let later : Net = record n {
        last_second = u32 (n.last_second + 1000);
        seconds = n.seconds + 1;
      } in
      if_intro (KeepsAll n) (leb 1000 (ticks_since e.now_second n.last_second)) later n
        (λ q. retimed n later h refl h.mode_known) (λ q. retimed n n h refl h.mode_known)

  stated : (s : NetState) (n : Net) → n.phy_mode_idx < phy_mode_count → Keeps n (set_net_state s n)
  unfolding set_net_state
  stated s n h = record {
    still_shown = set_net_state-IsShown s n h;
    same_was_up = refl;
    same_applied = refl;
  }

  then_Keeps : (n m k : Net) → Keeps n m → Keeps m k → Keeps n k
  then_Keeps n m k h g = record {
    still_shown = g.still_shown;
    same_was_up = g.same_was_up ∙ h.same_was_up;
    same_applied = g.same_applied ∙ h.same_applied;
  }

  same_Keeps : (n : Net) → IsShown n → Keeps n n
  same_Keeps n h = record { still_shown = h; same_was_up = refl; same_applied = refl }

  dhcp_start-Keeps : (n : Net) → IsShown n → Keeps n (dhcp_start e n)
  unfolding dhcp_start set_net_state
  dhcp_start-Keeps n h =
      if_intro (Keeps n) n.dhcp_started n
        (if not (n.retry_at == 0) && is_before e.now_retry n.retry_at then n else started)
        (λ q. same_Keeps n h)
        (λ q.
          if_intro (Keeps n) (not (n.retry_at == 0) && is_before e.now_retry n.retry_at) n started
            (λ w. same_Keeps n h)
            (λ w. record {
              still_shown =
                  let g = set_net_state-IsShown dhcp_wait begun h.mode_known in
                  record { led = g.led; mirrored = g.mirrored; mode_known = g.mode_known };
              same_was_up = refl;
              same_applied = refl;
            }))
    where
      begun : Net
      begun = record n { dhcp_started = true; retry_at = 0 }

      started : Net
      started = record (set_net_state dhcp_wait begun) {
        discover_cycles = u32 (n.discover_cycles + 1);
      }

  dhcp_call-Keeps : (c : DhcpCall) (n : Net) → IsShown n → Keeps n (dhcp_call c n)
  unfolding apply_lease on_ip_conflict set_net_state
  dhcp_call-Keeps (ip_assigned l) n h =
      let m = with_address (lease_info l n) n in
      record {
        still_shown = set_net_state-IsShown net_leased m h.mode_known;
        same_was_up = refl;
        same_applied = refl;
      }
  dhcp_call-Keeps (ip_updated l) n h =
      let m = with_address (lease_info l n) n in
      record {
        still_shown = set_net_state-IsShown net_leased m h.mode_known;
        same_was_up = refl;
        same_applied = refl;
      }
  dhcp_call-Keeps ip_conflict n h = stated dhcp_failed n h.mode_known

  dhcp_calls-Keeps : (cs : List DhcpCall) (n : Net) → IsShown n → Keeps n (dhcp_calls cs n)
  unfolding dhcp_calls
  dhcp_calls-Keeps [] n h = same_Keeps n h
  dhcp_calls-Keeps (c ∷ cs) n h =
      let g = dhcp_call-Keeps c n h in
      then_Keeps n (dhcp_call c n) (dhcp_calls cs (dhcp_call c n)) g
        (dhcp_calls-Keeps cs (dhcp_call c n) g.still_shown)

  still_waiting-Keeps : (n : Net) → IsShown n → Keeps n (still_waiting n)
  still_waiting-Keeps n h =
      if_intro (Keeps n) (n.dhcp_started && not (is_leased n.net_state)) (set_net_state dhcp_wait n)
        n (λ q. stated dhcp_wait n h.mode_known) (λ q. same_Keeps n h)

  dhcp_fail-Keeps : (n : Net) → IsShown n → Keeps n (dhcp_fail codes e n)
  unfolding dhcp_fail set_net_state apply_phy_mode
  dhcp_fail-Keeps n h =
      let g = set_net_state-IsShown dhcp_failed n h.mode_known in
      record {
        still_shown = record { led = g.led; mirrored = g.mirrored; mode_known = omega arith };
        same_was_up = refl;
        same_applied = refl;
      }

  after_run-Keeps : (r : DhcpResult) (n : Net) → IsShown n → Keeps n (after_run codes e r n)
  after_run-Keeps dhcp_ip_assign n h = same_Keeps n h
  after_run-Keeps dhcp_ip_changed n h = same_Keeps n h
  after_run-Keeps dhcp_ip_leased n h = stated net_leased n h.mode_known
  after_run-Keeps dhcp_run_failed n h = dhcp_fail-Keeps n h
  after_run-Keeps dhcp_running n h = still_waiting-Keeps n h
  after_run-Keeps other_result n h = still_waiting-Keeps n h

  dhcp_run-Keeps : (n : Net) → IsShown n → Keeps n (dhcp_run codes e n)
  unfolding dhcp_run
  dhcp_run-Keeps n h =
      let g = dhcp_calls-Keeps e.calls n h in
      if_intro (Keeps n) n.dhcp_started (after_run codes e e.result (dhcp_calls e.calls n)) n
        (λ q.
          then_Keeps n (dhcp_calls e.calls n) (after_run codes e e.result (dhcp_calls e.calls n)) g
            (after_run-Keeps e.result (dhcp_calls e.calls n) g.still_shown))
        (λ q. same_Keeps n h)

  pub dhcp_both-Keeps : (n : Net) → IsShown n → Keeps n (dhcp_run codes e (dhcp_start e n))
  dhcp_both-Keeps n h =
      let g = dhcp_start-Keeps n h in
      then_Keeps n (dhcp_start e n) (dhcp_run codes e (dhcp_start e n)) g
        (dhcp_run-Keeps (dhcp_start e n) g.still_shown)
