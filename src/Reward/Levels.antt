-- ===== src/Reward/Levels.antt =====
-- The loop over the levels in the rewards of TeamOFYServer/ClientHandler.cpp.
use bn_bserver.Prelude.{
  ℕ, zero, suc, ◌+◌, ◌-◌, ◌*◌, ◌≤◌, ◌<◌, ◌≡◌, refl, subst, Bool, true, some, leb, arith, Bool-cases,
  inl, inr,
}
use bn_bserver.Prelude.Int.{pos}
use bn_bserver.Users.Query.{next_int}
use bn_bserver.Reward.{FloatMath, hundreds, level_up}

-- What the loop relies on of floats that `fits` tells to be at least 0 and below 2^24: they compare
-- with an int that is not negative as their whole part does, and an int that is not above
-- them is subtracted exactly.
pub record FloatLaws {ℓ} {E : Type ℓ} (fm : FloatMath E) : Type ℓ where
  pub whole : E → ℕ
  pub fits : E → Bool
  pub compares : (e : E) (n : ℕ) → fits e ≡ true → fm.ge_int e (pos n) ≡ leb n (whole e)
  pub subtracts :
      (e : E) (n : ℕ)
      → fits e ≡ true
      → n ≤ whole e
      → (fits (fm.sub_int e (pos n)) ≡ true) × (whole (fm.sub_int e (pos n)) ≡ whole e - n)

module _ {ℓ} {E : Type ℓ} (fm : FloatMath E) (laws : FloatLaws fm) where
  open laws use {whole, fits, compares, subtracts}

  -- The level and the float that the loop ends with, from a level and a whole part.
  pub record IsLevelled (n x : ℕ) (fuel : ℕ) (e : E) : Type ℓ where
    pub level : ℕ
    pub rest : E
    pub ends : level_up fm fuel (pos n) e ≡ some (pos level, rest)
    pub fits_rest : fits rest ≡ true
    pub not_below : n ≤ level
    pub below_next : whole rest < level * 100
    pub conserved : x + 50 * (n * n) + 50 * level ≡ whole rest + 50 * (level * level) + 50 * n

  level_up-next :
      (fuel n : ℕ) (e : E)
      → fits e ≡ true
      → n * 100 ≤ whole e
      → IsLevelled (suc n) (whole e - n * 100) fuel (fm.sub_int e (pos (n * 100)))
      → IsLevelled n (whole e) (suc fuel) e
  unfolding level_up hundreds next_int
  level_up-next fuel n e fit reaches next = record {
    level = next.level;
    rest = next.rest;
    ends =
        rw (compares e (n * 100) fit, (let b : leb (n * 100) (whole e) ≡ true = ground arith in b))
          next.ends;
    fits_rest = next.fits_rest;
    not_below = omega (arith, next.not_below);
    below_next = next.below_next;
    conserved = grind (arith, next.conserved);
  }

  level_up-ends :
      (fuel n : ℕ) (e : E) → fits e ≡ true → 0 < n → whole e < fuel → IsLevelled n (whole e) fuel e
  unfolding level_up hundreds
  level_up-ends zero n e fit one enough = absurd (omega arith)
  level_up-ends (suc fuel) n e fit one enough = elim (Bool-cases (leb (n * 100) (whole e))) [
    | inl reaches ↦
        let left = subtracts e (n * 100) fit (ground arith) in
        let less : n * 100 ≤ whole e = ground arith in
        let next =
          level_up-ends fuel (suc n) (fm.sub_int e (pos (n * 100))) left.0 (omega arith)
            (omega (arith, left.1)) in
        level_up-next fuel n e fit less
          (subst (λ x. IsLevelled (suc n) x fuel (fm.sub_int e (pos (n * 100)))) left.1 next)
    | inr short ↦ record {
      level = n;
      rest = e;
      ends = rw (compares e (n * 100) fit, short) refl;
      fits_rest = fit;
      not_below = omega arith;
      below_next = ground arith;
      conserved = refl;
    }
  ]

  -- The loop over the levels ends: from a level that is not negative, with a float that `fits`, and with fuel
  -- for one round more than its whole part and one, it stops at a level that is not lower, with
  -- less than a hundred points for each level left, and the points that are gone are a hundred for
  -- each level passed, times that level.
  pub level_up-IsLevelled :
      (fuel n : ℕ) (e : E) → fits e ≡ true → whole e + 1 < fuel → IsLevelled n (whole e) fuel e
  level_up-IsLevelled zero n e fit enough = absurd (omega arith)
  level_up-IsLevelled (suc fuel) zero e fit enough =
      let left = subtracts e 0 fit (omega arith) in
      level_up-next fuel zero e fit (omega arith) (
        subst (λ x. IsLevelled 1 x fuel (fm.sub_int e (pos 0))) left.1
          (level_up-ends fuel 1 (fm.sub_int e (pos 0)) left.0 (omega arith)
            (omega (arith, left.1))))
  level_up-IsLevelled (suc fuel) (suc n) e fit enough =
      level_up-ends (suc fuel) (suc n) e fit (omega arith) (omega arith)
