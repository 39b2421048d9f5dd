-- ===== src/Entitlement/Wrapped.antt =====
-- The loop of `renewIfDue`, core/internal/profile/enforce.go, where its sums may wrap around.
use chiral.Prelude.{
  ℕ, ◌+◌, ◌-◌, ◌*◌, ◌^◌, ◌%◌, ◌≤◌, ◌<◌, ◌≡◌, ◌∙◌, ap, subst, sym, inl, inr, zero, suc, true, arith,
  ltb, ltb→lt, Bool-cases,
}
use chiral.Entitlement.{User}
use chiral.Entitlement.Enforce.{add_int64, catch_up, next_expiry, is_due}
use chiral.Entitlement.Renewal.{
  add_int64_small, catch_up_past, catch_up_ahead, catch_up_after, is_due_says,
}

add_int64_large : (a b : ℕ) → 2 ^ 64 ≤ a + b → a + b < 2 ^ 65 → add_int64 a b ≡ a + b - 2 ^ 64
add_int64_large a b h k = omega (arith, h, k)

-- A period that is `gap` short of 2 ^ 63, where the clock is far from the end of its range.
module _ (period now gap : ℕ) (g : period + gap ≡ 2 ^ 63) (near : 1 ≤ gap) (far : gap ≤ now)
    (clock : 3 * now < 2 ^ 63) where
  one_round :
      (fuel next : ℕ)
      → next ≤ now
      → catch_up (suc fuel) next period now ≡ catch_up fuel (next + period) period now
  one_round fuel next l =
      catch_up_past period now fuel next (ground arith)
      ∙ ap (λ n. catch_up fuel n period now) (add_int64_small next period (omega arith))

  -- What two rounds make of an expiry that the first one takes past the end of the range.
  two_rounds :
      (fuel next : ℕ)
      → next ≤ now
      → gap ≤ next
      → catch_up (suc (suc fuel)) next period now
        ≡ catch_up fuel ((next + period + period) % 2 ^ 64) period now
  two_rounds fuel next l n =
      one_round (suc fuel) next l
      ∙ catch_up_past period now fuel (next + period) (ground (arith, g, n))

  catch_up_wraps :
      (fuel next : ℕ) → next ≤ now → next + 4 ≤ fuel → now < catch_up fuel next period now
  catch_up_wraps zero next l f = omega (arith, f)
  catch_up_wraps (suc zero) next l f = omega (arith, f)
  catch_up_wraps (suc (suc zero)) next l f = omega (arith, f)
  catch_up_wraps (suc (suc (suc fuel))) next l f = elim (Bool-cases (ltb next gap)) [
    | inl e ↦
        let ahead =
          catch_up_ahead period now (suc (suc fuel)) (next + period)
            (ground (arith, e, g, clock, far)) in
        subst (λ x. now < x) (sym (one_round (suc (suc fuel)) next l ∙ ahead))
          (ground (arith, g, clock, far))
    | inr e ↦
        let n : gap ≤ next = ground (arith, e) in
        let two = two_rounds (suc fuel) next l n in
        elim (Bool-cases (ltb next (gap + gap))) [
          | inr d ↦
              let m : gap + gap ≤ next = ground (arith, d) in
              let back : (next + period + period) % 2 ^ 64 ≡ next - (gap + gap) =
                omega (arith, g, m, l, clock) in
              let rest =
                catch_up_wraps (suc fuel) (next - (gap + gap)) (omega (arith, l))
                  (omega (arith, f, near)) in
              subst (λ x. now < x) (sym (two ∙ ap (λ x. catch_up (suc fuel) x period now) back))
                rest
          | inl d ↦
              let m : next < gap + gap = ground (arith, d) in
              let negative : (next + period + period) % 2 ^ 64 ≡ next + period + period =
                omega (arith, g, m, n, clock, far) in
              let third : add_int64 (next + period + period) period
                  ≡ next + period + period + period - 2 ^ 64 =
                add_int64_large (next + period + period) period (omega (arith, g, m, n, clock, far))
                  (omega (arith, g, m, n, clock, far)) in
              let past =
                catch_up_past period now fuel (next + period + period)
                  (ground (arith, g, m, n, clock, far)) in
              let ahead =
                catch_up_ahead period now fuel (next + period + period + period - 2 ^ 64)
                  (ground (arith, g, m, n, clock, far)) in
              subst (λ x. now < x)
                (sym (
                  two
                  ∙ ap (λ x. catch_up (suc fuel) x period now) negative
                  ∙ past
                  ∙ ap (λ x. catch_up fuel x period now) third
                  ∙ ahead))
                (omega (arith, g, m, n, clock, far))
        ]
  ]

-- For a user who is due, where the period is an `int64` and three times now is below 2 ^ 63, the loop
-- ends with an expiry after now, whether its sums wrap around or not.
pub next_expiry_ahead :
    (u : User) (now : ℕ)
    → 3 * now < 2 ^ 63
    → u.renew_period < 2 ^ 63
    → is_due u now ≡ true
    → now < next_expiry u now
unfolding next_expiry
next_expiry_ahead u now clock h d =
    let (p, l) = is_due_says u now d in
    elim (Bool-cases (ltb (now + u.renew_period) (2 ^ 63))) [
      | inl e ↦
          catch_up_after u.renew_period now (ltb→lt (now + u.renew_period) (2 ^ 63) e) (now + 4)
            u.expires_at p (omega (arith, l)) (omega arith)
      | inr e ↦
          let gap = 2 ^ 63 - u.renew_period in
          let over : 2 ^ 63 ≤ now + u.renew_period = ground (arith, e) in
          catch_up_wraps u.renew_period now gap (omega (arith, h)) (omega (arith, h))
            (omega (arith, over)) clock (now + 4) u.expires_at l (omega (arith, l))
    ]
