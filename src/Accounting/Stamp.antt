-- ===== src/Accounting/Stamp.antt =====
-- apps/accounting/services.py: the stamp that `reverse_entry` puts on the original, and the invariant.
use sanga.Common.{
  ℕ, ◌≡◌, refl, sym, ◌∙◌, inl, inr, false, some, List, [], ◌∷◌, ◌&&◌, ◌==◌, arith, if◌then◌else◌,
  exists, exists-update_where, is_none, All, Bool-cases,
}
use sanga.Accounting.{LedgerEntry, clashes}
use sanga.Accounting.Selectors.{balance_sum}
use sanga.Accounting.Services.{stamp_reversed}
use sanga.Accounting.Balance.{IsPast, IsConsistent, balance_sum-cons}
use sanga.Accounting.Valid.{has_id, reverses_id, HasKeys, HasSlots, IsSigned, RefersInto, IsSound}

module _ (i t : ℕ) where
  abbrev stamp_one : LedgerEntry → LedgerEntry
  stamp_one e = if e.id == i && is_none e.reversed_at then record e { reversed_at = some t } else e

  pub balance_sum-stamp :
      (b c : ℕ) (es : List LedgerEntry)
      → balance_sum b c (stamp_reversed i t es) ≡ balance_sum b c es
  balance_sum-stamp b c [] = refl
  balance_sum-stamp b c (e ∷ es) =
      balance_sum-cons b c (stamp_one e) (stamp_reversed i t es)
      ∙ ground (arith, balance_sum-cons b c e es, balance_sum-stamp b c es)

  pub IsPast-stamp :
      (now b c : ℕ) (es : List LedgerEntry)
      → IsPast now b c es
      → IsPast now b c (stamp_reversed i t es)
  IsPast-stamp now b c [] h = tt
  IsPast-stamp now b c (e ∷ es) h =
      (λ own. ground (arith, h.0 (ground arith)), IsPast-stamp now b c es h.1)

  IsConsistent-stamp :
      (es : List LedgerEntry) → IsConsistent es → IsConsistent (stamp_reversed i t es)
  IsConsistent-stamp [] h = tt
  IsConsistent-stamp (e ∷ es) h = elim (Bool-cases (e.id == i && is_none e.reversed_at)) [
    | inl hit ↦ rw hit (
      h.0
          ∙ balance_sum-cons e.business e.contact e es
          ∙ (rw (← balance_sum-stamp e.business e.contact es) (
              sym (
                balance_sum-cons e.business e.contact (record e { reversed_at = some t })
                  (stamp_reversed i t es)))),
      IsPast-stamp e.created_at e.business e.contact es h.1,
      IsConsistent-stamp es h.2,
    )
    | inr miss ↦ rw miss (
      h.0
          ∙ balance_sum-cons e.business e.contact e es
          ∙ (rw (← balance_sum-stamp e.business e.contact es)
              (sym (balance_sum-cons e.business e.contact e (stamp_reversed i t es)))),
      IsPast-stamp e.created_at e.business e.contact es h.1,
      IsConsistent-stamp es h.2,
    )
  ]

  pub exists-has_id-stamp :
      (j : ℕ) (es : List LedgerEntry)
      → exists (has_id j) (stamp_reversed i t es) ≡ exists (has_id j) es
  exists-has_id-stamp j [] = refl
  exists-has_id-stamp j (e ∷ es) = ground (arith, exists-has_id-stamp j es)

  pub exists-reverses_id-stamp :
      (j : ℕ) (es : List LedgerEntry)
      → exists (reverses_id j) (stamp_reversed i t es) ≡ exists (reverses_id j) es
  exists-reverses_id-stamp j [] = refl
  exists-reverses_id-stamp j (e ∷ es) = ground (arith, exists-reverses_id-stamp j es)

  HasKeys-stamp : (es : List LedgerEntry) → HasKeys es → HasKeys (stamp_reversed i t es)
  HasKeys-stamp [] h = tt
  HasKeys-stamp (e ∷ es) h = (ground (arith, exists-has_id-stamp e.id es), HasKeys-stamp es h.1)

  clashes_stamped : (e f : LedgerEntry) → clashes e (record f { reversed_at = some t }) ≡ false
  clashes_stamped e f = ground arith

  exists-clashes-stamp :
      (e : LedgerEntry) (es : List LedgerEntry)
      → exists (clashes e) es ≡ false
      → exists (clashes e) (stamp_reversed i t es) ≡ false
  exists-clashes-stamp e es h =
      exists-update_where (clashes e) (λ (x : LedgerEntry). x.id == i && is_none x.reversed_at)
        (λ (x : LedgerEntry). record x { reversed_at = some t }) (clashes_stamped e) es h

  exists-clashes-stamped :
      (e : LedgerEntry) (es : List LedgerEntry)
      → is_none e.reversed_at ≡ false
      → exists (clashes e) es ≡ false
  exists-clashes-stamped e [] h = refl
  exists-clashes-stamped e (f ∷ fs) h = ground (arith, exists-clashes-stamped e fs h)

  HasSlots-stamp : (es : List LedgerEntry) → HasSlots es → HasSlots (stamp_reversed i t es)
  HasSlots-stamp [] h = tt
  HasSlots-stamp (e ∷ es) h = elim (Bool-cases (e.id == i && is_none e.reversed_at)) [
    | inl hit ↦ rw hit (
      exists-clashes-stamped (record e { reversed_at = some t }) (stamp_reversed i t es) refl,
      HasSlots-stamp es h.1,
    )
    | inr miss ↦ rw miss (exists-clashes-stamp e es h.0, HasSlots-stamp es h.1)
  ]

  All-IsSigned-stamp :
      (es : List LedgerEntry) → All IsSigned es → All IsSigned (stamp_reversed i t es)
  All-IsSigned-stamp [] h = tt
  All-IsSigned-stamp (e ∷ es) h = elim (Bool-cases (e.id == i && is_none e.reversed_at)) [
    | inl hit ↦ rw hit (h.0, All-IsSigned-stamp es h.1)
    | inr miss ↦ rw miss (h.0, All-IsSigned-stamp es h.1)
  ]

  RefersInto-stamp :
      (table es : List LedgerEntry)
      → All (RefersInto table) es
      → All (RefersInto (stamp_reversed i t table)) (stamp_reversed i t es)
  RefersInto-stamp table [] h = tt
  RefersInto-stamp table (e ∷ es) h =
      (λ j r. exists-has_id-stamp j table ∙ h.0 j (ground arith), RefersInto-stamp table es h.1)

  pub stamp-IsSound : (es : List LedgerEntry) → IsSound es → IsSound (stamp_reversed i t es)
  stamp-IsSound es s = record {
    consistent = IsConsistent-stamp es s.consistent;
    keys = HasKeys-stamp es s.keys;
    slots = HasSlots-stamp es s.slots;
    signed = All-IsSigned-stamp es s.signed;
    refers = RefersInto-stamp es es s.refers;
  }

  pub stamp_absent :
      (es : List LedgerEntry) → exists (has_id i) es ≡ false → stamp_reversed i t es ≡ es
  stamp_absent [] h = refl
  stamp_absent (e ∷ es) h = ground (arith, stamp_absent es)
