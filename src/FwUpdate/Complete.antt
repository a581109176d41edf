-- ===== src/FwUpdate/Complete.antt =====
-- An update whose image arrives whole ends as done, on a part without a defect.
use drdro_mainboard.Base.{
  ℕ, ◌+◌, ◌<◌, ◌≡◌, ◌⊎◌, inl, inr, refl, ap, ◌∙◌, sym, Bool, List, [], ◌∷◌, ◌++◌, append_assoc,
  append-nil, length, get_or, get_or-append_left, length-append, arith,
}
use mathlib.Core.Bool.{false≢true}
use drdro_mainboard.Layout.{bank_count, bank_base}
use drdro_mainboard.Hal.{FlashHal, IsFlash, Works}
use drdro_mainboard.Crc.{settings_crc32}
use drdro_mainboard.FwUpdate.{fw_flash_begin}
use drdro_mainboard.FwUpdate.Session.{
  fw_recv, fw_done, fw_error, FwSession, is_recv, fw_feed, Poll, payload, fw_poll, fw_receive,
  fw_update_begin, begun,
}
use drdro_mainboard.FwUpdate.Fill.{length-zero}
use drdro_mainboard.FwUpdate.Stream.{Fed, receiving, stored, failed, fw_feed_lem}
use drdro_mainboard.FwUpdate.Receive.{
  offered, AreChunks, armed, armed-Receiving, begin_accepted, stop, go_on, StoredAt, update-Stored,
}
use drdro_mainboard.FwUpdate.Works.{Ready, Alive, feed-works}

-- Every round brings at least one byte.
abbrev pub Delivers : List Poll → Type 0
Delivers [] = Unit
Delivers (e ∷ es) = (0 < length (payload e)) × Delivers es

module _ {D : Type 0} (hal : FlashHal D) (laws : IsFlash hal) (works : Works hal) where
  poll_feeds :
      (e : Poll) (last : ℕ) (s : FwSession D)
      → 0 < length (payload e)
      → fw_poll hal e (last, s) ≡ (e.now, fw_feed hal (payload e) s)
  unfolding fw_poll
  poll_feeds e last s some = ground arith

  -- Receiving and ready for the next bytes, or done.
  abbrev OnGoing : FwSession D → Type 0
  OnGoing t = (t.state ≡ fw_recv) × Ready hal laws works t ⊎ (t.state ≡ fw_done)

  ready_of : (t : FwSession D) → OnGoing t → t.state ≡ fw_recv → Ready hal laws works t
  ready_of t (inl (h, ready)) e = ready
  ready_of t (inr h) e = absurd (apart (sym h ∙ e))
    where
      apart : fw_done ≡ fw_recv → ⊥
      apart p = cc

  not_failed : (t : FwSession D) → OnGoing t → t.state ≡ fw_error → ⊥
  not_failed t (inl (h, ready)) e = apart (sym h ∙ e)
    where
      apart : fw_recv ≡ fw_error → ⊥
      apart p = cc
  not_failed t (inr h) e = apart (sym h ∙ e)
    where
      apart : fw_done ≡ fw_error → ⊥
      apart p = cc

  -- The rest of an image that is arriving, from the outcome of the feed before it.
  rest-works :
      (es : List Poll) (last : ℕ) (t : FwSession D) (fed : List ℕ) (size crc : ℕ)
      → Fed hal t fed
      → OnGoing t × (t.size ≡ size) × (t.crc_want ≡ crc)
      → AreChunks es
      → Delivers es
      → length (fed ++ offered es) ≡ size
      → settings_crc32 (fed ++ offered es) ≡ crc
      → (fw_receive hal es (last, t)).1.state ≡ fw_done
  rest-works [] last t fed size crc (receiving h more) alive chunks some full good =
      absurd (omega (arith, ap length (append-nil fed), full, alive.1))
  rest-works (e ∷ es) last t fed size crc (receiving h more) alive chunks some full good =
      rw (go_on hal laws e es (last, t) (ap is_recv h.waiting), poll_feeds e last t some.0)
        (rest-works es e.now (fw_feed hal (payload e) t) (fed ++ payload e) size crc
          (fw_feed_lem hal laws t fed (payload e) h chunks.0 (omega (arith, chunks.1)))
          (fed_on.0, fed_on.1 ∙ alive.1, fed_on.2 ∙ alive.2) chunks.2 some.1
          (ap length order ∙ full) (ap settings_crc32 order ∙ good))
    where
      order : (fed ++ payload e) ++ offered es ≡ fed ++ (payload e ++ offered es)
      order = append_assoc fed (payload e) (offered es)

      long :
          length (fed ++ (payload e ++ offered es))
          ≡ length fed + (length (payload e) + length (offered es))
      long =
          length-append fed (payload e ++ offered es)
          ∙ ap (◌+◌ (length fed)) (length-append (payload e) (offered es))

      last_one :
          length fed + length (payload e) ≡ t.size → settings_crc32 (fed ++ payload e) ≡ t.crc_want
      last_one h2 =
          ap settings_crc32 (
            sym (
              ap (λ (q : List ℕ). fed ++ q)
                (ap (◌++◌ (payload e))
                    (length-zero (offered es) (omega (arith, h2, long, full, alive.1)))
                  ∙ append-nil (payload e))))
          ∙ good
          ∙ sym alive.2

      fed_on : Alive hal laws works t (fw_feed hal (payload e) t)
      fed_on =
          feed-works hal laws works t fed (payload e) h (ready_of t alive.0 h.waiting) chunks.0
            (omega (arith, long, full, alive.1)) last_one
  rest-works es last t fed size crc (stored d h) alive chunks some full good =
      rw (stop hal laws es (last, t) (ap is_recv d)) d
  rest-works es last t fed size crc (failed d h) alive chunks some full good =
      absurd (not_failed t alive.0 d)

  armed-Ready :
      (bank size crc : ℕ) (s : FwSession D)
      → bank < bank_count
      → Ready hal laws works (armed hal bank size crc s)
  unfolding fw_flash_begin
  armed-Ready bank size crc s low = record {
    on = record {
      sector_high = ground arith;
      sector_low = ground arith;
      at_base = ground (arith, low);
    };
    aligned = refl;
    opened = works.clear_keeps (hal.unlock s.flash.dev) ∙ works.unlock_opens s.flash.dev;
    blank = λ e. absurd (false≢true e);
  }

  ends_done :
      (leased listening : Bool) (bank size crc last : ℕ) (s : FwSession D) (es : List Poll)
      → (fw_update_begin hal leased listening bank size crc s).0 ≡ begun
      → AreChunks es
      → Delivers es
      → length (offered es) ≡ size
      → settings_crc32 (offered es) ≡ crc
      → (fw_receive hal es (last, (fw_update_begin hal leased listening bank size crc s).1)).1.state
        ≡ fw_done
  ends_done leased listening bank size crc last s es e chunks some full good =
      let (low, nonempty, fits, same) = begin_accepted hal leased listening bank size crc s e in
      rw same (
        rest-works es last (armed hal bank size crc s) [] size crc
          (receiving (armed-Receiving hal bank size crc s low fits) (omega arith))
          (inl (refl, armed-Ready bank size crc s low), refl, refl) chunks some full good)

  -- All that was received stands in the bank, if it is no longer than announced.
  whole_image :
      (bank size crc : ℕ) (t : FwSession D) (all : List ℕ)
      → StoredAt hal laws bank size crc t all
      → (k : ℕ) → k < size
      → hal.byte t.flash.dev (bank_base bank + k) ≡ get_or all k 0
  whole_image bank size crc t all (fed, long, good, (rest, order), image) k low =
      image k low
      ∙ sym (get_or-append_left fed rest k 0 (omega (arith, long, low)))
      ∙ ap (λ (q : List ℕ). get_or q k 0) order

  pub update-completes :
      (leased listening : Bool) (bank size crc last : ℕ) (s : FwSession D) (es : List Poll)
      → (fw_update_begin hal leased listening bank size crc s).0 ≡ begun
      → AreChunks es
      → Delivers es
      → length (offered es) ≡ size
      → settings_crc32 (offered es) ≡ crc
      → let t =
          (fw_receive hal es (last, (fw_update_begin hal leased listening bank size crc s).1)).1 in
        (t.state ≡ fw_done)
        × ((k : ℕ) → k < size → hal.byte t.flash.dev (bank_base bank + k) ≡ get_or (offered es) k 0)
  update-completes leased listening bank size crc last s es e chunks some full good =
      let done = ends_done leased listening bank size crc last s es e chunks some full good in
      (
        done,
        whole_image bank size crc
            (fw_receive hal es (last, (fw_update_begin hal leased listening bank size crc s).1)).1
            (offered es)
            (update-Stored hal laws leased listening bank size crc last s es e chunks done),
      )
