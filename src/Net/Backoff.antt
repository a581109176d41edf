-- ===== src/Net/Backoff.antt =====
-- The wait between two sessions of the DHCP client.
use drdro_mainboard.Base.{
  ℕ, ◌+◌, ◌^◌, ◌<◌, ◌≡◌, refl, sym, ap, ◌∙◌, Bool, true, false, not, ◌&&◌, if_intro, if◌then◌else◌,
  u32, leb, ltb, ◌==◌, List, [], ◌∷◌, All, arith,
}
use drdro_mainboard.Net.{Net, PhyCodes, no_link, dhcp_wait, set_net_state}
use drdro_mainboard.Net.Task.{
  Round, static_part, link_change, phy_watchdog, dhcp_part, dhcp_run, dhcp_start, dhcp_calls,
  after_run, second_tick, same_bool, advance_phy, net_round, net_rounds, ticks_since, is_before,
  retry_tick,
}

-- No session, and the deadline that a failure at tick `t` has set.
pub record IsWaiting (t : ℕ) (n : Net) : Type 0 where
  pub no_session : n.dhcp_started ≡ false
  pub deadline : n.retry_at ≡ retry_tick t
  pub plugged : n.link_was_up ≡ true

-- A round with a link, less than 5000 ticks after the failure.
abbrev pub IsEarly : ℕ → Round → Type 0
IsEarly t e = (e.link_up ≡ true) × (e.now_retry < 2 ^ 32) × (ticks_since e.now_retry t < 5000)

retry_tick-pending : (t : ℕ) → (retry_tick t == 0) ≡ false
unfolding retry_tick
retry_tick-pending t = ground arith

early_is_before :
    (t now : ℕ)
    → t < 2 ^ 32
    → now < 2 ^ 32
    → ticks_since now t < 5000
    → is_before now (retry_tick t) ≡ true
unfolding retry_tick
early_is_before t now ht hn h = ground arith

pub late_not_before :
    (t now : ℕ)
    → t < 2 ^ 32
    → now < 2 ^ 32
    → 5000 < ticks_since now t
    → ticks_since now t < 2 ^ 31
    → is_before now (retry_tick t) ≡ false
unfolding retry_tick
late_not_before t now ht hn h k = ground arith

-- Still waiting, with as many sessions, the state and the address as before.
pub record Idle (t : ℕ) (n m : Net) : Type 0 where
  pub waiting : IsWaiting t m
  pub same_cycles : m.discover_cycles ≡ n.discover_cycles
  pub same_state : m.net_state ≡ n.net_state
  pub same_chip : m.chip ≡ n.chip

-- A state that only the watch of the link and the seconds tell apart.
pub Idle-same :
    (t : ℕ) (n m k : Net)
    → Idle t n m
    → (record k { link_down_since = 0; last_second = 0; seconds = 0 }
        ≡ record m { link_down_since = 0; last_second = 0; seconds = 0 })
    → Idle t n k
Idle-same t n m k h e = record {
  waiting = record {
    no_session = ap (λ (q : Net). q.dhcp_started) e ∙ h.waiting.no_session;
    deadline = ap (λ (q : Net). q.retry_at) e ∙ h.waiting.deadline;
    plugged = ap (λ (q : Net). q.link_was_up) e ∙ h.waiting.plugged;
  };
  same_cycles = ap (λ (q : Net). q.discover_cycles) e ∙ h.same_cycles;
  same_state = ap (λ (q : Net). q.net_state) e ∙ h.same_state;
  same_chip = ap (λ (q : Net). q.chip) e ∙ h.same_chip;
}

pub apart : true ≡ false → ⊥
apart e = cc

module _ (codes : PhyCodes) (t : ℕ) (low : t < 2 ^ 32) (n : Net) (e : Round) where
  pub link_change-Idle : (m : Net) → e.link_up ≡ true → Idle t n m → Idle t n (link_change e m)
  unfolding link_change
  link_change-Idle m u h =
      if_intro (Idle t n) (same_bool e.link_up m.link_was_up) m
        (if e.link_up
          then record m { link_was_up = true }
          else set_net_state no_link
              (record m { link_was_up = false; dhcp_started = false; retry_at = 0 }))
        (λ q. h) (λ q. absurd (both e.link_up m.link_was_up u h.waiting.plugged q))
    where
      both : (a b : Bool) → a ≡ true → b ≡ true → same_bool a b ≡ false → ⊥
      both a b p q r = ground arith

  pub phy_watchdog-Idle :
      (m : Net) → e.link_up ≡ true → Idle t n m → Idle t n (phy_watchdog codes e m)
  unfolding phy_watchdog
  phy_watchdog-Idle m u h =
      if_intro (Idle t n) e.link_up (record m { link_down_since = 0 })
        (if m.link_down_since == 0
          then record m { link_down_since = e.now_watch }
          else if ltb 6000 (ticks_since e.now_watch m.link_down_since)
          then record (advance_phy codes m) { link_down_since = e.now_swept }
          else m)
        (λ q. Idle-same t n m (record m { link_down_since = 0 }) h refl)
        (λ q. absurd (apart (sym u ∙ q)))

  second_tick-Idle : (m : Net) → Idle t n m → Idle t n (second_tick e m)
  unfolding second_tick
  second_tick-Idle m h =
      let later : Net = record m {
        last_second = u32 (m.last_second + 1000);
        seconds = m.seconds + 1;
      } in
      if_intro (Idle t n) (leb 1000 (ticks_since e.now_second m.last_second)) later m
        (λ q. Idle-same t n m later h refl) (λ q. h)

  holding :
      (m : Net)
      → IsEarly t e
      → IsWaiting t m
      → (not (m.retry_at == 0) && is_before e.now_retry m.retry_at) ≡ true
  holding m early h =
      ap (λ (d : ℕ). not (d == 0) && is_before e.now_retry d) h.deadline
      ∙ both (retry_tick t == 0) (is_before e.now_retry (retry_tick t)) (retry_tick-pending t)
          (early_is_before t e.now_retry low early.1 early.2)
    where
      both : (a b : Bool) → a ≡ false → b ≡ true → (not a && b) ≡ true
      both a b p q = ground arith

  dhcp_start-Idle : (m : Net) → IsEarly t e → Idle t n m → Idle t n (dhcp_start e m)
  unfolding dhcp_start
  dhcp_start-Idle m early h =
      if_intro (Idle t n) m.dhcp_started m
        (if not (m.retry_at == 0) && is_before e.now_retry m.retry_at then m else started) (λ q. h)
        (λ q.
          if_intro (Idle t n) (not (m.retry_at == 0) && is_before e.now_retry m.retry_at) m started
            (λ w. h) (λ w. absurd (apart (sym (holding m early h.waiting) ∙ w))))
    where
      started : Net
      started = record (set_net_state dhcp_wait (record m { dhcp_started = true; retry_at = 0 })) {
        discover_cycles = u32 (m.discover_cycles + 1);
      }

  dhcp_run-Idle : (m : Net) → Idle t n m → Idle t n (dhcp_run codes e m)
  unfolding dhcp_run
  dhcp_run-Idle m h =
      if_intro (Idle t n) m.dhcp_started (after_run codes e e.result (dhcp_calls e.calls m)) m
        (λ q. absurd (apart (sym q ∙ h.waiting.no_session))) (λ q. h)

  dhcp_part-Idle : (m : Net) → IsEarly t e → Idle t n m → Idle t n (dhcp_part codes false e m)
  unfolding dhcp_part
  dhcp_part-Idle m early h =
      if_intro (Idle t n) (e.link_up && not false) (dhcp_run codes e (dhcp_start e m)) m
        (λ q. dhcp_run-Idle (dhcp_start e m) (dhcp_start-Idle m early h)) (λ q. h)

  net_round-Idle : (m : Net) → IsEarly t e → Idle t n m → Idle t n (net_round codes false e m)
  unfolding net_round static_part
  net_round-Idle m early h =
      let m1 = link_change e m in
      let m2 = phy_watchdog codes e m1 in
      let m3 = dhcp_part codes false e m2 in
      second_tick-Idle m3
        (dhcp_part-Idle m2 early (phy_watchdog-Idle m1 early.0 (link_change-Idle m early.0 h)))

module _ (codes : PhyCodes) (t : ℕ) (low : t < 2 ^ 32) (n : Net) where
  pub net_rounds-Idle :
      (es : List Round) (m : Net)
      → All (IsEarly t) es
      → Idle t n m
      → Idle t n (net_rounds codes false es m)
  unfolding net_rounds
  net_rounds-Idle [] m early h = h
  net_rounds-Idle (e ∷ es) m early h =
      net_rounds-Idle es (net_round codes false e m) early.1
        (net_round-Idle codes t low n e m early.0 h)
