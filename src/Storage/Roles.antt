-- ===== src/Storage/Roles.antt =====
-- What the channel roles allow.
use prm.Prelude.{String, ◌≡◌, ◌↔◌, true, arith, ◌==◌, string_eq, Bool-cases, inl, inr, eq_iff}
use prm.Storage.{can_join, can_moderate, role_member}

-- A role moderates exactly when it joins and is not that of a plain member.
pub can_moderate_iff :
    (r : String) → (can_moderate r ≡ true) ↔ ((can_join r ≡ true) × ¬ (r ≡ role_member))
unfolding can_join can_moderate
can_moderate_iff r = (
  λ h. (ground arith, λ e. let bad = rw e at h in cc),
  λ h. elim (Bool-cases (r == role_member)) [
    | inl e ↦ absurd (h.1 ((eq_iff r role_member).0 e))
    | inr e ↦ ground arith
  ],
)
