-- ===== src/Zip32.antt =====
-- src/zip32.rs: the budget of Orchard key derivations.
use app_zcash.Base.{
  ℕ, zero, suc, ◌+◌, ◌-◌, ◌^◌, ◌≡◌, refl, min, ltb, if◌then◌else◌, Result, ok, err, arith,
}
use app_zcash.Status.{AppSw, not_enough_memory_space}

abbrev pub max_orchard_derivations : ℕ
max_orchard_derivations = 50

abbrev pub u32_max : ℕ
u32_max = 2 ^ 32 - 1

-- The static counter is the state: it is returned with the answer.
unfoldable pub consume_orchard_derivation_budget : ℕ → ℕ × Result AppSw (Unit {0})
consume_orchard_derivation_budget derivations =
    let spent = min (derivations + 1) u32_max in
    (spent, if ltb max_orchard_derivations spent then err not_enough_memory_space else ok tt)

-- The counter and the answer of the `n`-th call in a row, counted from the start of the app.
unfoldable pub nth_derivation : ℕ → ℕ × Result AppSw (Unit {0})
nth_derivation zero = consume_orchard_derivation_budget 0
nth_derivation (suc n) = consume_orchard_derivation_budget (nth_derivation n).0

counter : (n : ℕ) → (nth_derivation n).0 ≡ min (suc n) u32_max
unfolding nth_derivation consume_orchard_derivation_budget
counter zero = refl
counter (suc n) = omega (arith, counter n)

-- The first fifty derivations of a run are granted and every later one is refused, however many
-- there are: the counter saturates and never starts again.
pub orchard_derivation_budget :
    (n : ℕ)
    → (nth_derivation n).1
      ≡ (if ltb n max_orchard_derivations then ok tt else err not_enough_memory_space)
unfolding nth_derivation consume_orchard_derivation_budget
orchard_derivation_budget zero = refl
orchard_derivation_budget (suc n) = ground (arith, counter n)
