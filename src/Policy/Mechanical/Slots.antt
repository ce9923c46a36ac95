-- ===== src/Policy/Mechanical/Slots.antt =====
-- How the mechanical policy fills free slots.
use mathlib.Core.Path.{subst₂}
use text.Mathlib.TextEquality.{eq_iff}
use auto_options_call_debit.Common.{
  zero, Bool-cases, ◌&&◌, ◌||◌, ltb_ℤ, leb_ℤ, ◌-ℤ◌, suc, inl, inr, int_laws, ℤ, pos, ◌≤ℤ◌, ◌+ℤ◌,
  String, ◌≡◌, refl, ◌⊎◌, true, [], ◌∷◌, arith, str_eq, if◌then◌else◌, ℕ,
}
use auto_options_call_debit.Domain.Contract.{IntArg, int}
use auto_options_call_debit.Policy.{Counts, number, count, set_count}
use auto_options_call_debit.Policy.Validation.{known_sides, positive_int, positive_counts}
use auto_options_call_debit.Policy.Mechanical.{add_one, fill_slots}

abbrev pub one_more : Counts → String → IntArg
one_more counts side = int (count counts side +ℤ pos 1)

count-set :
    (counts : Counts) (k j : String) (n : IntArg)
    → count (set_count counts k n) j ≡ (if str_eq j k then number n else count counts j)
unfolding count set_count
count-set [] k j n = refl
count-set (entry ∷ rest) k j n =
    ground (arith, eq_iff k entry.0, eq_iff j entry.0, eq_iff j k, count-set rest k j n)

known-set :
    (counts : Counts) (k : String) (n : IntArg)
    → (k ≡ "bullish") ⊎ (k ≡ "bearish")
    → known_sides counts ≡ true
    → known_sides (set_count counts k n) ≡ true
unfolding known_sides set_count
known-set [] k n side h = ground (arith, eq_iff k "bullish", eq_iff k "bearish")
known-set (entry ∷ rest) k n side h =
    ground (arith, eq_iff k "bullish", eq_iff k "bearish", known-set rest k n side)

positive-set :
    (counts : Counts) (k : String) (n : ℤ)
    → pos 1 ≤ℤ n
    → positive_counts counts ≡ true
    → positive_counts (set_count counts k (int n)) ≡ true
unfolding positive_counts positive_int set_count
positive-set [] k n p h = ground arith
positive-set (entry ∷ rest) k n p h = ground (arith, positive-set rest k n p)

-- The entries of positive counts add up from zero.
count_nonneg :
    (counts : Counts) (k : String) → positive_counts counts ≡ true → pos 0 ≤ℤ count counts k
unfolding positive_counts positive_int count
count_nonneg [] k h = ground arith
count_nonneg (entry ∷ rest) k h = ground (arith, count_nonneg rest k)

-- The counts of the two sides grow by up to `n` in all, and by no more than the two deficits, until
-- one of these bounds is reached.
abbrev pub Grows : ℕ → ℤ → ℤ → ℤ → ℤ → ℤ → ℤ → Type 0
Grows n x y bull bear bull' bear' =
    (bull ≤ℤ bull')
    × (bull' ≤ℤ bull +ℤ x)
    × (bear ≤ℤ bear')
    × (bear' ≤ℤ bear +ℤ y)
    × (bull' +ℤ bear' ≤ℤ bull +ℤ bear +ℤ pos n)
    × ((bull +ℤ bear +ℤ pos n ≤ℤ bull' +ℤ bear') ⊎ ((bull +ℤ x ≤ℤ bull') × (bear +ℤ y ≤ℤ bear')))

abbrev pub Fills : ℕ → ℤ → ℤ → Counts → Counts → Type 0
Fills n x y before after =
    Grows n x y (count before "bullish") (count before "bearish") (count after "bullish")
      (count after "bearish")

add_bullish :
    (counts : Counts)
    → (count (add_one counts "bullish") "bullish" ≡ count counts "bullish" +ℤ pos 1)
      × (count (add_one counts "bullish") "bearish" ≡ count counts "bearish")
unfolding add_one
add_bullish counts = (
  count-set counts "bullish" "bullish" (one_more counts "bullish"),
  count-set counts "bullish" "bearish" (one_more counts "bullish"),
)

add_bearish :
    (counts : Counts)
    → (count (add_one counts "bearish") "bullish" ≡ count counts "bullish")
      × (count (add_one counts "bearish") "bearish" ≡ count counts "bearish" +ℤ pos 1)
unfolding add_one
add_bearish counts = (
  count-set counts "bearish" "bullish" (one_more counts "bearish"),
  count-set counts "bearish" "bearish" (one_more counts "bearish"),
)

more : (x : ℤ) → pos 0 ≤ℤ x → pos 1 ≤ℤ x +ℤ pos 1
more x h = omega int_laws

less : (x : ℤ) → pos 1 ≤ℤ x → pos 0 ≤ℤ x -ℤ pos 1
less x h = omega int_laws

no_slots : (x y b c : ℤ) → pos 0 ≤ℤ x → pos 0 ≤ℤ y → Grows 0 x y b c b c
no_slots x y b c hx hy = (
  omega int_laws,
  omega int_laws,
  omega int_laws,
  omega int_laws,
  omega int_laws,
  inl (omega int_laws),
)

no_deficits :
    (n : ℕ) (x y b c : ℤ) → pos 0 ≤ℤ x → pos 0 ≤ℤ y → x ≤ℤ pos 0 → y ≤ℤ pos 0 → Grows n x y b c b c
no_deficits n x y b c hx hy ex ey = (
  omega int_laws,
  omega int_laws,
  omega int_laws,
  omega int_laws,
  omega int_laws,
  inr (omega int_laws, omega int_laws),
)

slot_to_bullish :
    (n : ℕ) (x y b c b' c' : ℤ)
    → Grows n (x -ℤ pos 1) y (b +ℤ pos 1) c b' c'
    → Grows (suc n) x y b c b' c'
slot_to_bullish n x y b c b' c' h = (
  omega int_laws,
  omega int_laws,
  omega int_laws,
  omega int_laws,
  omega int_laws,
  elim h.5 [ inl full ↦ inl (omega int_laws) | inr done ↦ inr (omega int_laws, omega int_laws) ],
)

slot_to_bearish :
    (n : ℕ) (x y b c b' c' : ℤ)
    → Grows n x (y -ℤ pos 1) b (c +ℤ pos 1) b' c'
    → Grows (suc n) x y b c b' c'
slot_to_bearish n x y b c b' c' h = (
  omega int_laws,
  omega int_laws,
  omega int_laws,
  omega int_laws,
  omega int_laws,
  elim h.5 [ inl full ↦ inl (omega int_laws) | inr done ↦ inr (omega int_laws, omega int_laws) ],
)

one_more_bullish :
    (n : ℕ) (x y : ℤ) (counts after : Counts)
    → Fills n (x -ℤ pos 1) y (add_one counts "bullish") after
    → Fills (suc n) x y counts after
one_more_bullish n x y counts after h = slot_to_bullish n x y _ _ _ _ (
    subst₂ (λ b c. Grows n (x -ℤ pos 1) y b c (count after "bullish") (count after "bearish"))
      (add_bullish counts).0 (add_bullish counts).1 h)

one_more_bearish :
    (n : ℕ) (x y : ℤ) (counts after : Counts)
    → Fills n x (y -ℤ pos 1) (add_one counts "bearish") after
    → Fills (suc n) x y counts after
one_more_bearish n x y counts after h = slot_to_bearish n x y _ _ _ _ (
    subst₂ (λ b c. Grows n x (y -ℤ pos 1) b c (count after "bullish") (count after "bearish"))
      (add_bearish counts).0 (add_bearish counts).1 h)

-- Filling `n` slots gives each side no more than its deficit, and stops only when no slot is left or
-- neither side has a deficit.
pub fill_slots-Fills :
    (n : ℕ) (x y : ℤ) (counts : Counts)
    → pos 0 ≤ℤ x
    → pos 0 ≤ℤ y
    → Fills n x y counts (fill_slots n x y counts)
unfolding fill_slots
fill_slots-Fills zero x y counts hx hy =
    no_slots x y (count counts "bullish") (count counts "bearish") hx hy
fill_slots-Fills (suc n) x y counts hx hy = elim (Bool-cases (ltb_ℤ (pos 0) x || ltb_ℤ (pos 0) y)) [
  | inl some_left ↦ elim (Bool-cases (leb_ℤ y x && ltb_ℤ (pos 0) x)) [
    | inl bull ↦
        rw (some_left, bull)
          (one_more_bullish n x y counts _ (
            fill_slots-Fills n (x -ℤ pos 1) y (add_one counts "bullish") (less x (ground arith))
              hy))
    | inr bear ↦
        rw (some_left, bear)
          (one_more_bearish n x y counts _ (
            fill_slots-Fills n x (y -ℤ pos 1) (add_one counts "bearish") hx
              (less y (ground arith))))
  ]
  | inr done ↦ rw done (
      no_deficits (suc n) x y (count counts "bullish") (count counts "bearish") hx hy (ground arith)
        (ground arith))
]

-- The counts that the loop builds are of the two sides, and positive.
abbrev pub IsWellFormed : Counts → Type 0
IsWellFormed counts = (known_sides counts ≡ true) × (positive_counts counts ≡ true)

add_one-IsWellFormed :
    (counts : Counts) (side : String)
    → (side ≡ "bullish") ⊎ (side ≡ "bearish")
    → IsWellFormed counts
    → IsWellFormed (add_one counts side)
unfolding add_one
add_one-IsWellFormed counts side s (known, positive) = (
  known-set counts side (one_more counts side) s known,
  positive-set counts side (count counts side +ℤ pos 1)
      (more (count counts side) (count_nonneg counts side positive)) positive,
)

pub fill_slots-IsWellFormed :
    (n : ℕ) (x y : ℤ) (counts : Counts)
    → IsWellFormed counts
    → IsWellFormed (fill_slots n x y counts)
unfolding fill_slots
fill_slots-IsWellFormed zero x y counts h = h
fill_slots-IsWellFormed (suc n) x y counts h =
    elim (Bool-cases (ltb_ℤ (pos 0) x || ltb_ℤ (pos 0) y)) [
      | inl some_left ↦ elim (Bool-cases (leb_ℤ y x && ltb_ℤ (pos 0) x)) [
        | inl bull ↦
            rw (some_left, bull)
              (fill_slots-IsWellFormed n (x -ℤ pos 1) y (add_one counts "bullish")
                (add_one-IsWellFormed counts "bullish" (inl refl) h))
        | inr bear ↦
            rw (some_left, bear)
              (fill_slots-IsWellFormed n x (y -ℤ pos 1) (add_one counts "bearish")
                (add_one-IsWellFormed counts "bearish" (inr refl) h))
      ]
      | inr done ↦ rw done h
    ]
