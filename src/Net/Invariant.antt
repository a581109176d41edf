-- ===== src/Net/Invariant.antt =====
-- Every round of the network task keeps its invariant, which its start establishes.
use drdro_mainboard.Base.{◌≡◌, sym, ◌∙◌, Bool, true, false, not, ◌&&◌, if_intro, List, arith, ◌⊎◌}
use drdro_mainboard.Net.{Net, PhyCodes, chip_error, blink_of, blink_err_flash}
use drdro_mainboard.Net.Task.{
  Round, static_part, link_change, phy_watchdog, dhcp_part, dhcp_run, dhcp_start, second_tick,
  net_round, net_rounds, NetTask, parked, looping,
}
use drdro_mainboard.Net.Sane.{IsShown, IsLinked, IsSane}
use drdro_mainboard.Net.Linking.{static_part-Ready, link_change-Tested, IsLinked-is, apart}
use drdro_mainboard.Net.Parts.{
  KeepsAll, phy_watchdog-KeepsAll, second_tick-KeepsAll, dhcp_both-Keeps,
}

IsLinked-kept : (s b : Bool) (n m : Net) → KeepsAll n m → IsLinked s b n → IsLinked s b m
IsLinked-kept true true n m h l = (h.1 ∙ l.0, h.2 ∙ l.1, h.0.same_applied ∙ l.2)
IsLinked-kept false true n m h l = h.0.same_applied ∙ l
IsLinked-kept s false n m h l = (h.1 ∙ l.0, h.2 ∙ l.1, h.0.same_applied ∙ l.2)

-- The state of a task whose link is as the round found it.
abbrev Found : Bool → Bool → Net → Type 0
Found s up n = IsShown n × (n.link_was_up ≡ up) × IsLinked s up n

Found-kept : (s up : Bool) (n m : Net) → KeepsAll n m → Found s up n → Found s up m
Found-kept s up n m h f = (h.0.still_shown, h.0.same_was_up ∙ f.1, IsLinked-kept s up n m h f.2)

dhcp_part-Found :
    (codes : PhyCodes) (s : Bool) (e : Round) (n : Net)
    → Found s e.link_up n
    → Found s e.link_up (dhcp_part codes s e n)
unfolding dhcp_part
dhcp_part-Found codes true e n f =
    if_intro (Found true e.link_up) (e.link_up && not true) (dhcp_run codes e (dhcp_start e n)) n
      (λ q. absurd (apart (sym (both e.link_up q)))) (λ q. f)
  where
    both : (b : Bool) → (b && false) ≡ true → false ≡ true
    both b q = ground arith
dhcp_part-Found codes false e n f =
    if_intro (Found false e.link_up) (e.link_up && not false) (dhcp_run codes e (dhcp_start e n)) n
      (λ q.
        let h = dhcp_both-Keeps codes e n f.0 in
        let up = both e.link_up q in
        (
          h.still_shown,
          h.same_was_up ∙ f.1,
          IsLinked-is false true e.link_up (dhcp_run codes e (dhcp_start e n)) (sym up)
              (h.same_applied ∙ IsLinked-is false e.link_up true n up f.2),
        ))
      (λ q. f)
  where
    both : (b : Bool) → (b && true) ≡ true → b ≡ true
    both b q = ground arith

module _ (codes : PhyCodes) (s : Bool) where
  net_round-Found : (e : Round) (n : Net) → IsSane s n → Found s e.link_up (net_round codes s e n)
  unfolding net_round
  net_round-Found e n h =
      let n1 = static_part s e n in
      let n2 = link_change e n1 in
      let n3 = phy_watchdog codes e n2 in
      let n4 = dhcp_part codes s e n3 in
      let r = static_part-Ready e n s h in
      let t = link_change-Tested e n1 s r.0 r.1 in
      let f = Found-kept s e.link_up n2 n3 (phy_watchdog-KeepsAll codes e n2 t.0) t in
      let g = dhcp_part-Found codes s e n3 f in
      Found-kept s e.link_up n4 (second_tick e n4) (second_tick-KeepsAll codes e n4 g.0) g

  pub net_round-IsSane :
      (e : Round) (n : Net)
      → IsSane s n
      → IsSane s (net_round codes s e n) × ((net_round codes s e n).link_was_up ≡ e.link_up)
  net_round-IsSane e n h =
      let f = net_round-Found e n h in
      (
        record {
          shown = f.0;
          linked =
              IsLinked-is s e.link_up (net_round codes s e n).link_was_up (net_round codes s e n)
                (sym f.1) f.2;
        },
        f.1,
      )

  -- What the task is after its start, by whether the chip answered and took its buffers. Without a
  -- chip it shows the error and has no more rounds; with one it is in its loop, and sane after any round,
  -- which has noted the link.
  abbrev pub AlwaysSane : Bool → NetTask → Type 0
  AlwaysSane true (parked n) = ⊥
  AlwaysSane false (parked n) =
      (n.net_state ≡ chip_error) × ((n.blink ≡ blink_err_flash) ⊎ (n.blink ≡ blink_of chip_error))
  AlwaysSane true (looping n) =
      (es : List Round) (e : Round)
      → let m = net_round codes s e (net_rounds codes s es n) in
        IsSane s m × (m.link_was_up ≡ e.link_up)
  AlwaysSane false (looping n) = ⊥
