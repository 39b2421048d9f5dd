-- ===== src/Entitlement/Renewal.antt =====
-- The loop of `renewIfDue`, core/internal/profile/enforce.go, where its sums stay below 2 ^ 63.
use chiral.Prelude.{
  ℕ, ◌+◌, ◌*◌, ◌^◌, ◌≤◌, ◌<◌, ◌≡◌, refl, ◌∙◌, ap, subst, sym, ◌⊎◌, inl, inr, zero, suc, true, false,
  arith, leb, Bool-cases,
}
use chiral.Entitlement.{User, reason, allowed}
use chiral.Entitlement.Enforce.{is_past, add_int64, catch_up, next_expiry, is_due}

pub add_int64_small : (a b : ℕ) → a + b < 2 ^ 64 → add_int64 a b ≡ a + b
add_int64_small a b h = omega (arith, h)

module _ (period now : ℕ) where
  -- One round of the loop, and its end.
  pub catch_up_past :
      (fuel next : ℕ)
      → is_past next now ≡ true
      → catch_up (suc fuel) next period now ≡ catch_up fuel (add_int64 next period) period now
  unfolding catch_up
  catch_up_past fuel next h =
      ap
        (λ b. elim b as (λ _. ℕ) [
          | true ↦ catch_up fuel (add_int64 next period) period now
          | false ↦ next
        ])
        h

  pub catch_up_ahead :
      (fuel next : ℕ) → is_past next now ≡ false → catch_up fuel next period now ≡ next
  unfolding catch_up
  catch_up_ahead zero next h = refl
  catch_up_ahead (suc fuel) next h =
      ap
        (λ b. elim b as (λ _. ℕ) [
          | true ↦ catch_up fuel (add_int64 next period) period now
          | false ↦ next
        ])
        h

  -- Where nothing wraps, a round adds the period to an expiry up to now, and none is done after that.
  pub catch_up_round :
      now + period < 2 ^ 63
      → (fuel next : ℕ) → next ≤ now + period
      → ((next ≤ now)
          × (catch_up (suc fuel) next period now ≡ catch_up fuel (next + period) period now))
        ⊎ ((now < next) × (catch_up (suc fuel) next period now ≡ next))
  catch_up_round b fuel next l = elim (Bool-cases (leb next now)) [
    | inl e ↦
        let small = add_int64_small next period (ground (arith, b, e)) in
        inl (
          ground (arith, e),
          catch_up_past fuel next (ground (arith, e)) ∙ ap (λ n. catch_up fuel n period now) small,
        )
    | inr e ↦ inr (ground (arith, e), catch_up_ahead (suc fuel) next (ground (arith, e, b, l)))
  ]

  module _ (b : now + period < 2 ^ 63) where
    pub catch_up_after :
        (fuel next : ℕ)
        → 1 ≤ period
        → next ≤ now + period
        → now < next + fuel
        → now < catch_up fuel next period now
    unfolding catch_up
    catch_up_after zero next p l h = omega (arith, h)
    catch_up_after (suc fuel) next p l h = elim (catch_up_round b fuel next l) [
      | inl (n, e) ↦
          let rest =
            catch_up_after fuel (next + period) p (omega (arith, n)) (omega (arith, n, p, h)) in
          subst (λ x. now < x) (sym e) rest
      | inr (n, e) ↦ subst (λ x. now < x) (sym e) n
    ]

    catch_up_soon :
        (fuel next : ℕ) → next ≤ now + period → catch_up fuel next period now ≤ now + period
    unfolding catch_up
    catch_up_soon zero next l = l
    catch_up_soon (suc fuel) next l = elim (catch_up_round b fuel next l) [
      | inl (n, e) ↦
          subst (λ x. x ≤ now + period) (sym e)
            (catch_up_soon fuel (next + period) (omega (arith, n)))
      | inr (n, e) ↦ subst (λ x. x ≤ now + period) (sym e) l
    ]

    catch_up_whole :
        (fuel next : ℕ)
        → next ≤ now + period
        → (k : ℕ) × (catch_up fuel next period now ≡ next + k * period)
    unfolding catch_up
    catch_up_whole zero next l = (0, omega arith)
    catch_up_whole (suc fuel) next l = elim (catch_up_round b fuel next l) [
      | inl (n, e) ↦
          let (k, q) = catch_up_whole fuel (next + period) (omega (arith, n)) in
          (suc k, e ∙ q ∙ omega arith)
      | inr (n, e) ↦ (0, e ∙ omega arith)
    ]

-- What a renewal makes of the user's row.
abbrev pub renewed : User → ℕ → User
renewed u now = record u { expires_at = next_expiry u now; used_bytes = 0 }

-- What the test of `renewIfDue` says.
pub is_due_says :
    (u : User) (now : ℕ) → is_due u now ≡ true → (1 ≤ u.renew_period) × (u.expires_at ≤ now)
is_due_says u now d = (ground arith, ground arith)

-- For a user who is due, where now and one period together stay below 2 ^ 63: renewal ends, and the
-- expiry that it finds lies after now and at most one period ahead, a whole number of periods past
-- the old one. With it the user is due no more, and is entitled again just if the operator has not
-- switched them off.
pub next_expiry_lem :
    (u : User) (now : ℕ)
    → now + u.renew_period < 2 ^ 63
    → is_due u now ≡ true
    → (now < next_expiry u now)
      × (next_expiry u now ≤ now + u.renew_period)
      × ((k : ℕ) × (next_expiry u now ≡ u.expires_at + k * u.renew_period))
      × (is_due (renewed u now) now ≡ false)
      × (allowed (renewed u now) now ≡ u.enabled)
unfolding next_expiry allowed reason
next_expiry_lem u now b d =
    let (p, l) = is_due_says u now d in
    let start : u.expires_at ≤ now + u.renew_period = omega (arith, l) in
    let after = catch_up_after u.renew_period now b (now + 4) u.expires_at p start (omega arith) in
    (
      after,
      catch_up_soon u.renew_period now b (now + 4) u.expires_at start,
      catch_up_whole u.renew_period now b (now + 4) u.expires_at start,
      ground (arith, after),
      ground (arith, after),
    )
