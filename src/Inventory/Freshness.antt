-- ===== src/Inventory/Freshness.antt =====
-- apps/inventory/freshness.py: the state that the age of a lot's confirmation gives it. The texts
-- that a page shows for it are not modelled.
use sanga.Common.{
  ℕ, ◌≤◌, ◌≡◌, refl, Bool, true, false, Option, none, some, if◌then◌else◌, arith, ap, ◌∙◌,
}
use sanga.Common.Int.{ℤ, pos, negsuc, ◌+ℤ◌, ◌*ℤ◌, leb_ℤ}
use sanga.Inventory.{
  LotStatus, InventoryLot, draft, available, reservation_pending, reserved, partially_sold, sold,
  expired, hidden, needs_confirmation,
}

-- `FreshnessLevel`
pub data FreshnessLevel : Type 0 where
  fresh needs_confirming stale hiding unknown : FreshnessLevel

-- `FreshnessPolicy`; the days are integers that a business may set as it likes.
pub record FreshnessPolicy : Type 0 where
  pub confirm_after_days : ℤ
  pub stale_after_days : ℤ
  pub hide_after_days : ℤ

-- `timezone.now() - confirmed_at <= timedelta(days=days)`, in seconds.
abbrev pub is_within : (now confirmed_at : ℕ) → ℤ → Bool
is_within now confirmed_at days = leb_ℤ (pos now) (pos confirmed_at +ℤ days *ℤ pos 86400)

abbrev pub is_hidden : LotStatus → Bool
is_hidden hidden = true
is_hidden _ = false

-- The level for the three comparisons that are made one after the other.
abbrev pub level_of_age : Bool → Bool → Bool → FreshnessLevel
level_of_age true s h = fresh
level_of_age false true h = needs_confirming
level_of_age false false true = stale
level_of_age false false false = hiding

-- The level of `evaluate_freshness` for a status and a time of confirmation.
unfoldable pub evaluate_freshness : FreshnessPolicy → ℕ → LotStatus → Option ℕ → FreshnessLevel
evaluate_freshness policy now status confirmed_at =
    if is_hidden status then hiding else elim confirmed_at [
      | none ↦ unknown
      | some at ↦
          level_of_age (is_within now at policy.confirm_after_days)
            (is_within now at policy.stale_after_days) (is_within now at policy.hide_after_days)
    ]

-- The states that the transition does not touch.
abbrev pub is_untouched : LotStatus → Bool
is_untouched sold = true
is_untouched reserved = true
is_untouched reservation_pending = true
is_untouched draft = true
is_untouched expired = true
is_untouched _ = false

-- `new_status`
abbrev pub status_for_level : FreshnessLevel → LotStatus → LotStatus
status_for_level needs_confirming status = needs_confirmation
status_for_level stale status = needs_confirmation
status_for_level hiding status = hidden
status_for_level fresh needs_confirmation = available
status_for_level fresh status = status
status_for_level unknown status = status

-- `apply_freshness_transition`: the lot as it is saved, if its status changed.
unfoldable pub apply_freshness_transition : FreshnessPolicy → ℕ → InventoryLot → InventoryLot
unfolding evaluate_freshness
apply_freshness_transition policy now lot =
    let level = evaluate_freshness policy now lot.status lot.inventory_confirmed_at in
    if is_untouched lot.status
    then lot
    else record lot { status = status_for_level level lot.status }

leb_ℤ_mono :
    (now later : ℕ) (x : ℤ) → now ≤ later → leb_ℤ (pos later) x ≡ true → leb_ℤ (pos now) x ≡ true
leb_ℤ_mono now later (pos n) h e = ground arith
leb_ℤ_mono now later (negsuc n) h e = ground arith

-- The status after the transition, for comparisons that were made.
abbrev next_status : FreshnessLevel → LotStatus → LotStatus
next_status level status =
    if is_untouched status
    then status
    else status_for_level (if is_hidden status then hiding else level) status

-- The levels that can follow a level as time passes.
abbrev can_follow : FreshnessLevel → FreshnessLevel → Bool
can_follow fresh unknown = false
can_follow fresh later = true
can_follow needs_confirming needs_confirming = true
can_follow needs_confirming stale = true
can_follow needs_confirming hiding = true
can_follow stale stale = true
can_follow stale hiding = true
can_follow hiding hiding = true
can_follow unknown unknown = true
can_follow level later = false

next_status_later :
    (level later : FreshnessLevel) (status : LotStatus)
    → can_follow level later ≡ true
    → next_status later (next_status level status) ≡ next_status later status
next_status_later fresh later draft h = refl
next_status_later fresh later available h = refl
next_status_later fresh later reservation_pending h = refl
next_status_later fresh later reserved h = refl
next_status_later fresh later partially_sold h = refl
next_status_later fresh later sold h = refl
next_status_later fresh later expired h = refl
next_status_later fresh later hidden h = refl
next_status_later fresh fresh needs_confirmation h = refl
next_status_later fresh needs_confirming needs_confirmation h = refl
next_status_later fresh stale needs_confirmation h = refl
next_status_later fresh hiding needs_confirmation h = refl
next_status_later fresh unknown needs_confirmation h = absurd (cc)
next_status_later needs_confirming later status h = ground arith
next_status_later stale later status h = ground arith
next_status_later hiding later status h = ground arith
next_status_later unknown later status h = ground arith

level_of_age_later :
    (c s h c' s' h' : Bool)
    → (c' ≡ true → c ≡ true)
    → (s' ≡ true → s ≡ true)
    → (h' ≡ true → h ≡ true)
    → can_follow (level_of_age c s h) (level_of_age c' s' h') ≡ true
level_of_age_later true s h c' s' h' p q r = ground arith
level_of_age_later false s h true s' h' p q r = absurd (let e = p refl in cc)
level_of_age_later false true h false s' h' p q r = ground arith
level_of_age_later false false h false true h' p q r = absurd (let e = q refl in cc)
level_of_age_later false false true false false h' p q r = ground arith
level_of_age_later false false false false false true p q r = absurd (let e = r refl in cc)
level_of_age_later false false false false false false p q r = refl

-- The level of a lot that is not hidden.
abbrev age_level : FreshnessPolicy → ℕ → Option ℕ → FreshnessLevel
age_level policy now none = unknown
age_level policy now (some at) =
    level_of_age (is_within now at policy.confirm_after_days)
      (is_within now at policy.stale_after_days) (is_within now at policy.hide_after_days)

age_level_later :
    (policy : FreshnessPolicy) (now later : ℕ) (confirmed_at : Option ℕ)
    → now ≤ later
    → can_follow (age_level policy now confirmed_at) (age_level policy later confirmed_at) ≡ true
age_level_later policy now later none h = refl
age_level_later policy now later (some at) h =
    level_of_age_later _ _ _ _ _ _
      (leb_ℤ_mono now later (pos at +ℤ policy.confirm_after_days *ℤ pos 86400) h)
      (leb_ℤ_mono now later (pos at +ℤ policy.stale_after_days *ℤ pos 86400) h)
      (leb_ℤ_mono now later (pos at +ℤ policy.hide_after_days *ℤ pos 86400) h)

status_if :
    (untouched : Bool) (lot : InventoryLot) (s : LotStatus)
    → (if untouched then lot else record lot { status = s })
      ≡ record lot { status = if untouched then lot.status else s }
status_if true lot s = refl
status_if false lot s = refl

apply_freshness_transition_lem :
    (policy : FreshnessPolicy) (now : ℕ) (lot : InventoryLot)
    → apply_freshness_transition policy now lot ≡ record lot {
      status = next_status (age_level policy now lot.inventory_confirmed_at) lot.status;
    }
unfolding apply_freshness_transition evaluate_freshness
apply_freshness_transition_lem policy now lot = status_if (is_untouched lot.status) lot (
    status_for_level
      (if is_hidden lot.status then hiding else age_level policy now lot.inventory_confirmed_at)
      lot.status)

-- A run of the transition that is followed by a later one makes no difference to the lot that the
-- later one leaves, whatever the policy: a daily run that is missed is made up for by the next, and
-- a second run at the same time changes nothing.
pub apply_freshness_transition_later :
    (policy : FreshnessPolicy) (now later : ℕ) (lot : InventoryLot)
    → now ≤ later
    → apply_freshness_transition policy later (apply_freshness_transition policy now lot)
      ≡ apply_freshness_transition policy later lot
apply_freshness_transition_later policy now later lot h =
    rw
      (
        apply_freshness_transition_lem policy now lot,
        apply_freshness_transition_lem policy later lot,
      )
      (apply_freshness_transition_lem policy later (record lot {
        status = next_status (age_level policy now lot.inventory_confirmed_at) lot.status;
      })
        ∙ ap (λ s. record lot { status = s })
            (next_status_later (age_level policy now lot.inventory_confirmed_at)
              (age_level policy later lot.inventory_confirmed_at) lot.status
              (age_level_later policy now later lot.inventory_confirmed_at h)))
