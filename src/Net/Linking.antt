-- ===== src/Net/Linking.antt =====
-- The static address and the change of the link, in a round.
use drdro_mainboard.Base.{
  ◌≡◌, inl, inr, refl, sym, subst, ◌∙◌, Bool, true, false, not, ◌&&◌, if_intro, if◌then◌else◌,
  arith, Bool-cases,
}
use drdro_mainboard.Net.{no_link, net_leased, Net, set_net_state, with_address}
use drdro_mainboard.Net.Task.{Round, static_info, apply_static, static_part, link_change, same_bool}
use drdro_mainboard.Net.Sane.{IsShown, IsDown, IsUp, IsLinked, IsSane, set_net_state-IsShown}

-- What the static part leaves for the test of the link.
abbrev pub Prepared : Bool → Bool → Net → Type 0
Prepared static_mode true m = IsUp static_mode m
Prepared static_mode false m = (m.static_applied ≡ false) × (m.link_was_up ≡ false → IsDown m)

unapplied : (b : Bool) (n : Net) → IsLinked false b n → n.static_applied ≡ false
unapplied true n h = h
unapplied false n h = h.2

pub apart : true ≡ false → ⊥
apart e = cc

-- A static address that is applied is held, and the link was up.
applied-IsUp : (b : Bool) (n : Net) → IsLinked true b n → n.static_applied ≡ true → IsUp true n
applied-IsUp true n h e = h
applied-IsUp false n h e = absurd (apart (sym e ∙ h.2))

not_applied-IsDown :
    (b : Bool) (n : Net) → IsLinked true b n → n.static_applied ≡ false → (b ≡ false) × IsDown n
not_applied-IsDown true n h e = absurd (apart (sym h.2 ∙ e))
not_applied-IsDown false n h e = (refl, h)

no_client : (b : Bool) (n : Net) → IsLinked true b n → n.dhcp_started ≡ false
no_client true n h = h.1
no_client false n h = h.1

pub IsLinked-is : (s b b' : Bool) (n : Net) → b ≡ b' → IsLinked s b n → IsLinked s b' n
IsLinked-is s b b' n e h = subst (λ (q : Bool). IsLinked s q n) e h

and_not : (a b : Bool) → (a && not b) ≡ true → (a ≡ true) × (b ≡ false)
and_not a b h = ground arith

not_and : (a b : Bool) → (not a && b) ≡ true → (a ≡ false) × (b ≡ true)
not_and a b h = ground arith

neither_up : (a b : Bool) → (a && not b) ≡ false → a ≡ true → b ≡ true
neither_up a b h e = ground arith

neither_down : (a b : Bool) → (not a && b) ≡ false → a ≡ false → b ≡ false
neither_down a b h e = ground arith

apply_static-IsUp :
    (e : Round) (n : Net)
    → IsShown n
    → n.dhcp_started ≡ false
    → IsShown (apply_static e n) × IsUp true (apply_static e n)
unfolding apply_static set_net_state
apply_static-IsUp e n h d = (
  set_net_state-IsShown net_leased
      (record (with_address (static_info e n) n) { static_applied = true }) h.mode_known,
  (refl, d, refl),
)

abbrev dropped : Net → Net
dropped n = set_net_state no_link (record n { static_applied = false })

dropped-IsDown : (n : Net) → n.dhcp_started ≡ false → IsDown (dropped n)
unfolding set_net_state
dropped-IsDown n d = (refl, d, refl)

module _ (e : Round) (n : Net) where
  -- Both for the link of the round.
  abbrev pub Ready : Bool → Net → Type 0
  Ready static_mode m = IsShown m × Prepared static_mode e.link_up m

  ready : (s b : Bool) (m : Net) → e.link_up ≡ b → IsShown m → Prepared s b m → Ready s m
  ready s b m q h p = (h, subst (λ (x : Bool). Prepared s x m) (sym q) p)

  pub static_part-Ready :
      (static_mode : Bool) → IsSane static_mode n → Ready static_mode (static_part static_mode e n)
  unfolding static_part
  static_part-Ready false h = elim (Bool-cases e.link_up) [
    | inl q ↦ ready false true n q h.shown (unapplied n.link_was_up n h.linked)
    | inr q ↦ ready false false n q h.shown (
      unapplied n.link_was_up n h.linked,
      λ w. IsLinked-is false n.link_was_up false n w h.linked,
    )
  ]
  static_part-Ready true h =
      if_intro (Ready true) (e.link_up && not n.static_applied) (apply_static e n)
        (if not e.link_up && n.static_applied then dropped n else n)
        (λ q.
          let a = apply_static-IsUp e n h.shown client in
          ready true true (apply_static e n) (and_not e.link_up n.static_applied q).0 a.0 a.1)
        (λ q.
          if_intro (Ready true) (not e.link_up && n.static_applied) (dropped n) n
            (λ q'.
              ready true false (dropped n) (not_and e.link_up n.static_applied q').0
                (set_net_state-IsShown no_link (record n { static_applied = false })
                  h.shown.mode_known)
                (down.2, λ w. down))
            (λ q'. unchanged q q'))
    where
      client : n.dhcp_started ≡ false
      client = no_client n.link_was_up n h.linked

      down : IsDown (dropped n)
      down = dropped-IsDown n client

      unchanged :
          (e.link_up && not n.static_applied) ≡ false
          → (not e.link_up && n.static_applied) ≡ false
          → Ready true n
      unchanged q q' = elim (Bool-cases e.link_up) [
        | inl u ↦
            ready true true n u h.shown
              (applied-IsUp n.link_was_up n h.linked (neither_up e.link_up n.static_applied q u))
        | inr d ↦
            let r =
              not_applied-IsDown n.link_was_up n h.linked
                (neither_down e.link_up n.static_applied q' d) in
            ready true false n d h.shown (r.1.2, λ w. r.1)
      ]

  -- The state after the test of the link.
  abbrev pub Tested : Bool → Net → Type 0
  Tested static_mode m = IsShown m × (m.link_was_up ≡ e.link_up) × IsLinked static_mode e.link_up m

  pub tested :
      (s b : Bool) (m : Net)
      → e.link_up ≡ b
      → IsShown m
      → m.link_was_up ≡ e.link_up
      → IsLinked s b m
      → Tested s m
  tested s b m q h w l = (h, w, IsLinked-is s b e.link_up m (sym q) l)

same_bool-eq : (a b : Bool) → same_bool a b ≡ true → b ≡ a
same_bool-eq a b h = ground arith

apart_bool : (a b : Bool) → same_bool a b ≡ false → b ≡ not a
apart_bool a b h = ground arith

module _ (e : Round) (m : Net) where
  abbrev unplugged : Net
  unplugged =
      set_net_state no_link (record m { link_was_up = false; dhcp_started = false; retry_at = 0 })

  unplugged-IsDown : m.static_applied ≡ false → IsDown unplugged
  unfolding set_net_state
  unplugged-IsDown h = (refl, refl, h)

  unplugged-was_up : unplugged.link_was_up ≡ false
  unfolding set_net_state
  unplugged-was_up = refl

  plugged-IsUp : (s : Bool) → IsUp s m → IsUp s (record m { link_was_up = true })
  plugged-IsUp true h = h
  plugged-IsUp false h = h

  pub link_change-Tested :
      (s : Bool) → IsShown m → Prepared s e.link_up m → Tested e m s (link_change e m)
  unfolding link_change
  link_change-Tested s h p = elim (Bool-cases e.link_up) [
    | inl u ↦
        let q = subst (λ (b : Bool). Prepared s b m) u p in
        if_intro (Tested e m s) (same_bool e.link_up m.link_was_up) m
          (if e.link_up then record m { link_was_up = true } else unplugged)
          (λ w. tested e m s true m u h (same_bool-eq e.link_up m.link_was_up w) q)
          (λ w.
            if_intro (Tested e m s) e.link_up (record m { link_was_up = true }) unplugged
              (λ x.
                tested e m s true (record m { link_was_up = true }) u
                  (record { led = h.led; mirrored = h.mirrored; mode_known = h.mode_known }) (sym u)
                  (plugged-IsUp s q))
              (λ x. absurd (apart (sym u ∙ x))))
    | inr d ↦
        let q = subst (λ (b : Bool). Prepared s b m) d p in
        if_intro (Tested e m s) (same_bool e.link_up m.link_was_up) m
          (if e.link_up then record m { link_was_up = true } else unplugged)
          (λ w.
            let v = same_bool-eq e.link_up m.link_was_up w in
            tested e m s false m d h v (q.1 (v ∙ d)))
          (λ w.
            if_intro (Tested e m s) e.link_up (record m { link_was_up = true }) unplugged
              (λ x. absurd (apart (sym x ∙ d)))
              (λ x.
                tested e m s false unplugged d
                  (set_net_state-IsShown no_link
                    (record m { link_was_up = false; dhcp_started = false; retry_at = 0 })
                    h.mode_known)
                  (unplugged-was_up ∙ sym d) (unplugged-IsDown q.0)))
  ]
