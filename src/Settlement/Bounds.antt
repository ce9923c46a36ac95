-- ===== src/Settlement/Bounds.antt =====
-- The payoff at expiration, whatever the settlement value.
use auto_options_call_debit.Common.{
  ◌+ℤ◌, ap, pos_part, neg_part, ℤ, pos, ◌≤ℤ◌, ◌<ℤ◌, abs_parts, max_zero, one_sign, int_laws, ◌-ℤ◌,
  neg, max_ℤ, abs, ◌≡◌, ◌∙◌, arith,
}
use auto_options_call_debit.Domain.Contract.{
  Direction, Contract, CreditSpread, bull_put_credit, bear_call_credit,
}
use auto_options_call_debit.Domain.Contract.Validity.{InOrder, IsVertical}
use auto_options_call_debit.Settlement.{
  expiration_liability_points, max_expiration_liability_points,
}
use auto_options_call_debit.Settlement.{owed}

-- The strikes in order, as numbers: what remains of a vertical for the payoff.
abbrev IsOrdered : Direction → ℤ → ℤ → Type 0
IsOrdered bull_put_credit ks kl = kl <ℤ ks
IsOrdered bear_call_credit ks kl = ks <ℤ kl

ordered :
    (d : Direction) (s l : Contract) → InOrder d s l → IsOrdered d s.strike_points l.strike_points
ordered bull_put_credit s l h = h.2
ordered bear_call_credit s l h = h.2

-- What one leg pays less what the other pays back.
abbrev gap : ℤ → ℤ → ℤ
gap x y = max_ℤ x (pos 0) -ℤ max_ℤ y (pos 0)

gap_bounds : (x y : ℤ) → y ≤ℤ x → (pos 0 ≤ℤ gap x y) × (gap x y ≤ℤ abs (x -ℤ y))
gap_bounds x y h = (
  omega (int_laws, max_zero x, max_zero y, one_sign x, one_sign y),
  omega (
    int_laws,
    max_zero x,
    max_zero y,
    one_sign x,
    one_sign y,
    abs_parts (x -ℤ y),
    one_sign (x -ℤ y),
  ),
)

gap_regions :
    (x y : ℤ)
    → (x ≤ℤ pos 0 → y ≤ℤ pos 0 → gap x y ≡ pos 0)
      × (y ≤ℤ pos 0 → pos 0 ≤ℤ x → gap x y ≡ x)
      × (pos 0 ≤ℤ x → pos 0 ≤ℤ y → gap x y ≡ x -ℤ y)
unfolding max_ℤ ◌-ℤ◌
gap_regions x y = (λ h k. ground arith, λ h k. ground arith, λ h k. ground arith)

-- Two gaps of the same width: the one that lies higher is no smaller.
gap_mono : (x y u v : ℤ) → y ≤ℤ x → x ≤ℤ u → x +ℤ v ≡ u +ℤ y → gap x y ≤ℤ gap u v
gap_mono x y u v h k e = omega (
  int_laws,
  max_zero x,
  max_zero y,
  max_zero u,
  max_zero v,
  one_sign x,
  one_sign y,
  one_sign u,
  one_sign v,
  ap pos_part e,
  ap neg_part e,
)

shift_left : (a b s : ℤ) → (a -ℤ s) -ℤ (b -ℤ s) ≡ a -ℤ b
shift_left a b s = omega int_laws

shift_right : (a b s : ℤ) → (s -ℤ a) -ℤ (s -ℤ b) ≡ b -ℤ a
shift_right a b s = omega int_laws

abs-sub_comm : (a b : ℤ) → abs (a -ℤ b) ≡ abs (b -ℤ a)
unfolding abs neg ◌-ℤ◌
abs-sub_comm a b = ground arith

owed_bounds :
    (d : Direction) (ks kl s : ℤ)
    → IsOrdered d ks kl
    → (pos 0 ≤ℤ owed d ks kl s) × (owed d ks kl s ≤ℤ abs (ks -ℤ kl))
unfolding owed
owed_bounds bull_put_credit ks kl s h =
    rw (← shift_left ks kl s) (gap_bounds (ks -ℤ s) (kl -ℤ s) (omega int_laws))
owed_bounds bear_call_credit ks kl s h =
    rw (abs-sub_comm ks kl, ← shift_right ks kl s) (gap_bounds (s -ℤ ks) (s -ℤ kl) (omega int_laws))

-- A vertical spread never owes less than nothing, nor more than its width.
pub liability_bounds :
    (p : CreditSpread) (s : ℤ)
    → IsVertical p
    → (pos 0 ≤ℤ expiration_liability_points p s)
      × (expiration_liability_points p s ≤ℤ max_expiration_liability_points p)
unfolding expiration_liability_points max_expiration_liability_points
liability_bounds p s v =
    owed_bounds p.direction p.short.strike_points p.long.strike_points s
      (ordered p.direction p.short p.long v.in_order)

-- The three regions of the payoff: out of the money, between the strikes, and beyond the long leg.
abbrev pub Regions : Direction → (ks kl s due : ℤ) → Type 0
Regions bull_put_credit ks kl s due =
    (ks ≤ℤ s → due ≡ pos 0) × (kl ≤ℤ s → s ≤ℤ ks → due ≡ ks -ℤ s) × (s ≤ℤ kl → due ≡ ks -ℤ kl)
Regions bear_call_credit ks kl s due =
    (s ≤ℤ ks → due ≡ pos 0) × (ks ≤ℤ s → s ≤ℤ kl → due ≡ s -ℤ ks) × (kl ≤ℤ s → due ≡ kl -ℤ ks)

owed-Regions :
    (d : Direction) (ks kl s : ℤ) → IsOrdered d ks kl → Regions d ks kl s (owed d ks kl s)
unfolding owed
owed-Regions bull_put_credit ks kl s h =
    let g = gap_regions (ks -ℤ s) (kl -ℤ s) in
    (
      λ a. g.0 (omega int_laws) (omega int_laws),
      λ a b. g.1 (omega int_laws) (omega int_laws),
      λ a. g.2 (omega int_laws) (omega int_laws) ∙ shift_left ks kl s,
    )
owed-Regions bear_call_credit ks kl s h =
    let g = gap_regions (s -ℤ ks) (s -ℤ kl) in
    (
      λ a. g.0 (omega int_laws) (omega int_laws),
      λ a b. g.1 (omega int_laws) (omega int_laws),
      λ a. g.2 (omega int_laws) (omega int_laws) ∙ shift_right ks kl s,
    )

-- A vertical owes nothing out of the money, the distance to the short strike between its strikes, and
-- its whole width beyond the long one.
pub liability-Regions :
    (p : CreditSpread) (s : ℤ)
    → IsVertical p
    → Regions p.direction p.short.strike_points p.long.strike_points s
        (expiration_liability_points p s)
unfolding expiration_liability_points
liability-Regions p s v =
    owed-Regions p.direction p.short.strike_points p.long.strike_points s
      (ordered p.direction p.short p.long v.in_order)

abbrev pub MovesWith : Direction → (low high : ℤ) → Type 0
MovesWith bull_put_credit low high = high ≤ℤ low
MovesWith bear_call_credit low high = low ≤ℤ high

owed-MovesWith :
    (d : Direction) (ks kl s t : ℤ)
    → IsOrdered d ks kl
    → s ≤ℤ t
    → MovesWith d (owed d ks kl s) (owed d ks kl t)
unfolding owed
owed-MovesWith bull_put_credit ks kl s t h k =
    gap_mono (ks -ℤ t) (kl -ℤ t) (ks -ℤ s) (kl -ℤ s) (omega int_laws) (omega int_laws)
      (omega int_laws)
owed-MovesWith bear_call_credit ks kl s t h k =
    gap_mono (s -ℤ ks) (s -ℤ kl) (t -ℤ ks) (t -ℤ kl) (omega int_laws) (omega int_laws)
      (omega int_laws)

-- A higher settlement value never raises what a bull put owes, nor lowers what a bear call owes.
pub liability-MovesWith :
    (p : CreditSpread) (s t : ℤ)
    → IsVertical p
    → s ≤ℤ t
    → MovesWith p.direction (expiration_liability_points p s) (expiration_liability_points p t)
unfolding expiration_liability_points
liability-MovesWith p s t v =
    owed-MovesWith p.direction p.short.strike_points p.long.strike_points s t
      (ordered p.direction p.short p.long v.in_order)
