-- ===== src/Net/Retry.antt =====
-- After the wait between two sessions of the DHCP client, the next one starts.
use drdro_mainboard.Base.{
  ℕ, ◌+◌, ◌^◌, ◌<◌, ◌≡◌, refl, sym, ap, ◌∙◌, Bool, true, false, not, ◌&&◌, if_intro, if◌then◌else◌,
  u32, leb, ◌==◌, List, [], ◌∷◌, All, arith,
}
use drdro_mainboard.Net.{
  Net, PhyCodes, dhcp_wait, set_net_state, apply_phy_mode, apply_lease, on_ip_conflict,
}
use drdro_mainboard.Net.Task.{
  Round, DhcpCall, ip_assigned, ip_updated, ip_conflict, DhcpResult, dhcp_ip_assign,
  dhcp_ip_changed, dhcp_ip_leased, dhcp_run_failed, dhcp_running, other_result, static_part,
  link_change, phy_watchdog, dhcp_part, dhcp_run, dhcp_start, dhcp_fail, dhcp_call, dhcp_calls,
  after_run, still_waiting, is_leased, second_tick, net_round, net_rounds, ticks_since, is_before,
}
use drdro_mainboard.Net.Backoff.{
  IsWaiting, IsEarly, Idle, net_rounds-Idle, late_not_before, apart, link_change-Idle,
  phy_watchdog-Idle,
}

-- A round with a link, more than 5000 ticks after the failure.
abbrev pub IsLate : ℕ → Round → Type 0
IsLate t e =
    (e.link_up ≡ true)
    × (e.now_retry < 2 ^ 32)
    × (5000 < ticks_since e.now_retry t)
    × (ticks_since e.now_retry t < 2 ^ 31)

module _ (codes : PhyCodes) (t : ℕ) (low : t < 2 ^ 32) (e : Round) where
  released :
      (m : Net)
      → IsWaiting t m
      → e.now_retry < 2 ^ 32
      → 5000 < ticks_since e.now_retry t
      → ticks_since e.now_retry t < 2 ^ 31
      → (dhcp_start e m).discover_cycles ≡ u32 (m.discover_cycles + 1)
  unfolding dhcp_start
  released m h fits late soon =
      if_intro More m.dhcp_started m
        (if not (m.retry_at == 0) && is_before e.now_retry m.retry_at then m else started)
        (λ q. absurd (apart (sym q ∙ h.no_session)))
        (λ q.
          if_intro More (not (m.retry_at == 0) && is_before e.now_retry m.retry_at) m started
            (λ w. absurd (apart (sym w ∙ open_now))) (λ w. refl))
    where
      More : Net → Type 0
      More k = k.discover_cycles ≡ u32 (m.discover_cycles + 1)

      started : Net
      started = record (set_net_state dhcp_wait (record m { dhcp_started = true; retry_at = 0 })) {
        discover_cycles = u32 (m.discover_cycles + 1);
      }

      both : (a b : Bool) → b ≡ false → (a && b) ≡ false
      both a b q = ground arith

      open_now : (not (m.retry_at == 0) && is_before e.now_retry m.retry_at) ≡ false
      open_now =
          both (not (m.retry_at == 0)) (is_before e.now_retry m.retry_at) (
            ap (is_before e.now_retry) h.deadline
            ∙ late_not_before t e.now_retry low fits late soon)

  call_cycles : (c : DhcpCall) (m : Net) → (dhcp_call c m).discover_cycles ≡ m.discover_cycles
  unfolding apply_lease on_ip_conflict set_net_state
  call_cycles (ip_assigned l) m = refl
  call_cycles (ip_updated l) m = refl
  call_cycles ip_conflict m = refl

  calls_cycles :
      (cs : List DhcpCall) (m : Net) → (dhcp_calls cs m).discover_cycles ≡ m.discover_cycles
  unfolding dhcp_calls
  calls_cycles [] m = refl
  calls_cycles (c ∷ cs) m = calls_cycles cs (dhcp_call c m) ∙ call_cycles c m

  waiting_cycles : (m : Net) → (still_waiting m).discover_cycles ≡ m.discover_cycles
  unfolding set_net_state
  waiting_cycles m =
      if_intro (λ (k : Net). k.discover_cycles ≡ m.discover_cycles)
        (m.dhcp_started && not (is_leased m.net_state)) (set_net_state dhcp_wait m) m (λ q. refl)
        (λ q. refl)

  result_cycles :
      (r : DhcpResult) (m : Net) → (after_run codes e r m).discover_cycles ≡ m.discover_cycles
  unfolding set_net_state dhcp_fail apply_phy_mode
  result_cycles dhcp_ip_assign m = refl
  result_cycles dhcp_ip_changed m = refl
  result_cycles dhcp_ip_leased m = refl
  result_cycles dhcp_run_failed m = refl
  result_cycles dhcp_running m = waiting_cycles m
  result_cycles other_result m = waiting_cycles m

  run_cycles : (m : Net) → (dhcp_run codes e m).discover_cycles ≡ m.discover_cycles
  unfolding dhcp_run
  run_cycles m =
      if_intro (λ (k : Net). k.discover_cycles ≡ m.discover_cycles) m.dhcp_started
        (after_run codes e e.result (dhcp_calls e.calls m)) m
        (λ q. result_cycles e.result (dhcp_calls e.calls m) ∙ calls_cycles e.calls m) (λ q. refl)

  part_cycles :
      (m : Net)
      → e.link_up ≡ true
      → (dhcp_part codes false e m).discover_cycles ≡ (dhcp_start e m).discover_cycles
  unfolding dhcp_part
  part_cycles m u =
      if_intro (λ (k : Net). k.discover_cycles ≡ (dhcp_start e m).discover_cycles)
        (e.link_up && not false) (dhcp_run codes e (dhcp_start e m)) m
        (λ q. run_cycles (dhcp_start e m)) (λ q. absurd (clash e.link_up u q))
    where
      clash : (b : Bool) → b ≡ true → (b && true) ≡ false → ⊥
      clash b p q = ground arith

  tick_cycles : (m : Net) → (second_tick e m).discover_cycles ≡ m.discover_cycles
  unfolding second_tick
  tick_cycles m =
      if_intro (λ (k : Net). k.discover_cycles ≡ m.discover_cycles)
        (leb 1000 (ticks_since e.now_second m.last_second))
        (record m { last_second = u32 (m.last_second + 1000); seconds = m.seconds + 1 }) m
        (λ q. refl) (λ q. refl)

  round_starts :
      (m : Net)
      → IsWaiting t m
      → IsLate t e
      → (net_round codes false e m).discover_cycles ≡ u32 (m.discover_cycles + 1)
  unfolding net_round static_part
  round_starts m h late =
      let m1 = link_change e m in
      let m2 = phy_watchdog codes e m1 in
      let i1 =
        link_change-Idle codes t low m e m late.0
          (record { waiting = h; same_cycles = refl; same_state = refl; same_chip = refl }) in
      let i2 = phy_watchdog-Idle codes t low m e m1 late.0 i1 in
      tick_cycles (dhcp_part codes false e m2)
      ∙ part_cycles m2 late.0
      ∙ released m2 i2.waiting late.1 late.2 late.3
      ∙ ap (λ (c : ℕ). u32 (c + 1)) i2.same_cycles

dhcp_fail-Idle :
    (codes : PhyCodes) (e : Round) (n : Net)
    → n.link_was_up ≡ true
    → Idle e.now_failed (dhcp_fail codes e n) (dhcp_fail codes e n)
unfolding dhcp_fail set_net_state apply_phy_mode
dhcp_fail-Idle codes e n u = record {
  waiting = record { no_session = refl; deadline = refl; plugged = u };
  same_cycles = refl;
  same_state = refl;
  same_chip = refl;
}

-- A DHCP session that fails at tick `now_failed` is not followed by another for 5000 ticks: through any
-- rounds with a link that read the tick within that time no session runs and none is counted, and the
-- state stays as the failure has left it. The first round with a link that reads the tick later, by
-- less than 2^31, starts one.
pub net_rounds-backoff :
    (codes : PhyCodes) (e0 e : Round) (n0 : Net) (es : List Round)
    → n0.link_was_up ≡ true
    → e0.now_failed < 2 ^ 32
    → All (IsEarly e0.now_failed) es
    → IsLate e0.now_failed e
    → let n = dhcp_fail codes e0 n0 in
      let m = net_rounds codes false es n in
      (m.dhcp_started ≡ false)
      × (m.discover_cycles ≡ n.discover_cycles)
      × (m.net_state ≡ n.net_state)
      × ((net_round codes false e m).discover_cycles ≡ u32 (n.discover_cycles + 1))
net_rounds-backoff codes e0 e n0 es u low early late =
    let n = dhcp_fail codes e0 n0 in
    let m = net_rounds codes false es n in
    let h = net_rounds-Idle codes e0.now_failed low n es n early (dhcp_fail-Idle codes e0 n0 u) in
    (
      h.waiting.no_session,
      h.same_cycles,
      h.same_state,
      round_starts codes e0.now_failed low e m h.waiting late
          ∙ ap (λ (c : ℕ). u32 (c + 1)) h.same_cycles,
    )
