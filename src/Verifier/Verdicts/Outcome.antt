-- ===== src/Verifier/Verdicts/Outcome.antt =====
-- The overall outcome: totality, independence of the order, and what PATCH_VERIFIED means.
use mathlib.Core.List.{Perm, Permᴰ}
use mathlib.Core.List.Permᴰ
use mathlib.Core.Logic.{∥∥₁_elim}
use fixrepro.Base.{
  ◌≡◌, ◌↔◌, ◌⊎◌, inl, inr, refl, ap, ◌∙◌, Bool, true, false, Option, some, ◌==◌, nat_eq, arith,
  Bool-cases, List, [], ◌∷◌, length, if◌then◌else◌, ◌||◌, ◌&&◌, eq_iff, string_eq,
}
use fixrepro.Verifier.Models.{
  ExecutionRole, vulnerable, patched, positive_control, ExecutionEvidence, role_eq,
  VerificationOutcome, patch_verified, patch_not_verified,
}
use fixrepro.Verifier.Verdicts.{
  count_role, by_role, calculate_verification_outcome, is_inconclusive, combine,
  baseline_reproduced, patched_rejected, positive_control_passed, calculate_individual_verdict,
  response_is_coherent, untrusted_version, trusted_version,
}
use fixrepro.Verifier.Verdicts.Roles.{count_role-perm, length-perm, any-perm, by_role-perm}
use fixrepro.Verifier.Verdicts.Individual.{
  IsAppliedRun, IsBlockedRun, IsSecure, IsInsecure, verdict_iff, AppliedRun_iff, BlockedRun_iff,
  is_applied_iff,
}

outcome-permᴰ :
    {xs ys : List ExecutionEvidence}
    → Permᴰ xs ys
    → calculate_verification_outcome xs ≡ calculate_verification_outcome ys
unfolding calculate_verification_outcome
outcome-permᴰ d = ground (
  arith,
  length-perm d,
  count_role-perm vulnerable d,
  count_role-perm patched d,
  count_role-perm positive_control d,
  by_role-perm vulnerable d,
  by_role-perm patched d,
  by_role-perm positive_control d,
  any-perm is_inconclusive d,
)

-- The outcome does not depend on the order in which the executions are recorded.
pub outcome-perm :
    (xs ys : List ExecutionEvidence)
    → Perm xs ys
    → calculate_verification_outcome xs ≡ calculate_verification_outcome ys
outcome-perm xs ys p =
    let outcomes : IsSet (Option VerificationOutcome) = hlevel in
    ∥∥₁_elim p (outcomes _ _) outcome-permᴰ

-- The list is one execution of each role, in some order.
pub record IsRun (v p c : ExecutionEvidence) (xs : List ExecutionEvidence) : Type 0 where
  pub order : Permᴰ xs (v ∷ p ∷ c ∷ [])
  pub first : v.role ≡ vulnerable
  pub second : p.role ≡ patched
  pub third : c.role ≡ positive_control

abbrev pub HasRun : List ExecutionEvidence → Type 0
HasRun xs = (v p c : ExecutionEvidence) × IsRun v p c xs

arrange :
    (a b c : ExecutionEvidence) (ra rb rc : ExecutionRole)
    → a.role ≡ ra
    → b.role ≡ rb
    → c.role ≡ rc
    → count_role vulnerable (a ∷ b ∷ c ∷ []) ≡ 1
    → count_role patched (a ∷ b ∷ c ∷ []) ≡ 1
    → count_role positive_control (a ∷ b ∷ c ∷ []) ≡ 1
    → HasRun (a ∷ b ∷ c ∷ [])
unfolding count_role
arrange a b c vulnerable patched positive_control x y z _ _ _ =
    (a, b, c, record { order = Permᴰ.refl _; first = x; second = y; third = z })
arrange a b c vulnerable positive_control patched x y z _ _ _ = (
  a,
  c,
  b,
  record { order = Permᴰ.cons refl (Permᴰ.swap refl refl); first = x; second = z; third = y },
)
arrange a b c patched vulnerable positive_control x y z _ _ _ =
    (b, a, c, record { order = Permᴰ.swap refl refl; first = y; second = x; third = z })
arrange a b c patched positive_control vulnerable x y z _ _ _ = (
  c,
  a,
  b,
  record {
    order = Permᴰ.trans (Permᴰ.cons refl (Permᴰ.swap refl refl)) (Permᴰ.swap refl refl);
    first = z;
    second = x;
    third = y;
  },
)
arrange a b c positive_control vulnerable patched x y z _ _ _ = (
  b,
  c,
  a,
  record {
    order = Permᴰ.trans (Permᴰ.swap refl refl) (Permᴰ.cons refl (Permᴰ.swap refl refl));
    first = y;
    second = z;
    third = x;
  },
)
arrange a b c positive_control patched vulnerable x y z _ _ _ = (
  c,
  b,
  a,
  record {
    order =
        Permᴰ.trans (Permᴰ.swap refl refl)
          (Permᴰ.trans (Permᴰ.cons refl (Permᴰ.swap refl refl)) (Permᴰ.swap refl refl));
    first = z;
    second = y;
    third = x;
  },
)
arrange a b c _ _ _ x y z l m n = absurd (ground arith)

run_of_counts :
    (xs : List ExecutionEvidence)
    → length xs ≡ 3
    → count_role vulnerable xs ≡ 1
    → count_role patched xs ≡ 1
    → count_role positive_control xs ≡ 1
    → HasRun xs
run_of_counts (a ∷ b ∷ c ∷ []) n l m k = arrange a b c a.role b.role c.role refl refl refl l m k
run_of_counts [] n _ _ _ = absurd (omega arith)
run_of_counts (a ∷ []) n _ _ _ = absurd (omega arith)
run_of_counts (a ∷ b ∷ []) n _ _ _ = absurd (omega arith)
run_of_counts (a ∷ b ∷ c ∷ d ∷ l) n _ _ _ = absurd (omega arith)

abbrev of_three : ExecutionEvidence → ExecutionEvidence → ExecutionEvidence → VerificationOutcome
of_three v p c =
    if is_inconclusive v || (is_inconclusive p || is_inconclusive c)
    then VerificationOutcome.inconclusive
    else combine v p c

outcome_of_run :
    (v p c : ExecutionEvidence) (xs : List ExecutionEvidence)
    → IsRun v p c xs
    → calculate_verification_outcome xs ≡ some (of_three v p c)
unfolding calculate_verification_outcome count_role by_role
outcome_of_run v p c xs run =
    outcome-permᴰ run.order ∙ ground (arith, run.first, run.second, run.third)

outcome_without_run :
    (xs : List ExecutionEvidence)
    → (HasRun xs → ⊥)
    → calculate_verification_outcome xs ≡ some VerificationOutcome.inconclusive
unfolding calculate_verification_outcome
outcome_without_run xs none_is = ground (arith, run_of_counts xs)

counts_of_run :
    (v p c : ExecutionEvidence) (xs : List ExecutionEvidence)
    → IsRun v p c xs
    → (length xs ≡ 3)
      × (count_role vulnerable xs ≡ 1)
      × (count_role patched xs ≡ 1)
      × (count_role positive_control xs ≡ 1)
unfolding count_role
counts_of_run v p c xs run = ground (
  arith,
  length-perm run.order,
  count_role-perm vulnerable run.order,
  count_role-perm patched run.order,
  count_role-perm positive_control run.order,
  run.first,
  run.second,
  run.third,
)

-- The lookups by role find the three executions.
pub by_role_of_run :
    (v p c : ExecutionEvidence) (xs : List ExecutionEvidence)
    → IsRun v p c xs
    → (by_role vulnerable xs ≡ some v)
      × (by_role patched xs ≡ some p)
      × (by_role positive_control xs ≡ some c)
unfolding by_role count_role
by_role_of_run v p c xs run = ground (
  arith,
  counts_of_run v p c xs run,
  by_role-perm vulnerable run.order,
  by_role-perm patched run.order,
  by_role-perm positive_control run.order,
  run.first,
  run.second,
  run.third,
)

abbrev has_run : List ExecutionEvidence → Bool
has_run xs =
    length xs == 3
    && (count_role vulnerable xs == 1
        && (count_role patched xs == 1 && count_role positive_control xs == 1))

HasRun-dec : (xs : List ExecutionEvidence) → HasRun xs ⊎ ¬ HasRun xs
HasRun-dec xs = elim (Bool-cases (has_run xs)) [
  | inl e ↦ inl (run_of_counts xs (ground arith) (ground arith) (ground arith) (ground arith))
  | inr e ↦ inr (λ (v, p, c, run). absurd (ground (arith, counts_of_run v p c xs run)))
]

-- The outcome is computed for every list of executions: no missing role is looked up. Without exactly
-- one execution of each role it is INCONCLUSIVE.
pub outcome_total :
    (xs : List ExecutionEvidence)
    → ((o : VerificationOutcome) × (calculate_verification_outcome xs ≡ some o))
      × (¬ HasRun xs → calculate_verification_outcome xs ≡ some VerificationOutcome.inconclusive)
outcome_total xs = (
  elim (HasRun-dec xs) [
    | inl (v, p, c, run) ↦ (of_three v p c, outcome_of_run v p c xs run)
    | inr none_is ↦ (VerificationOutcome.inconclusive, outcome_without_run xs none_is)
  ],
  outcome_without_run xs,
)

-- What the three executions of a verified patch show: the unsafe behaviour on the vulnerable build,
-- the same request body rejected for its signer by the patched build, and the trusted update applied.
pub record ShowsFix (v p c : ExecutionEvidence) : Type 0 where
  pub reproduced : IsAppliedRun untrusted_version v
  pub reproduced_reason : v.response.reason_code ≡ "CHECKSUM_ONLY_ACCEPTED"
  pub blocked : IsBlockedRun p
  pub blocked_status : p.response.http_status ≡ 403
  pub blocked_reason : p.response.reason_code ≡ "UNTRUSTED_SIGNER"
  pub preserved : IsAppliedRun trusted_version c
  pub preserved_reason : c.response.reason_code ≡ "TRUSTED_SIGNATURE_ACCEPTED"
  pub same_input : v.package_evidence.envelope_sha256 ≡ p.package_evidence.envelope_sha256

baseline_iff :
    (v : ExecutionEvidence)
    → v.role ≡ vulnerable
    → (baseline_reproduced v ≡ true)
      ↔ (IsAppliedRun untrusted_version v × (v.response.reason_code ≡ "CHECKSUM_ONLY_ACCEPTED"))
unfolding baseline_reproduced
baseline_iff v r = ground (
  arith,
  verdict_iff v,
  AppliedRun_iff v untrusted_version,
  is_applied_iff v untrusted_version,
  eq_iff v.response.reason_code "CHECKSUM_ONLY_ACCEPTED",
)

patched_rejected_iff :
    (p : ExecutionEvidence)
    → p.role ≡ patched
    → (patched_rejected p ≡ true) ↔ (
        IsBlockedRun p
        × (p.response.http_status ≡ 403)
        × (p.response.reason_code ≡ "UNTRUSTED_SIGNER"))
unfolding patched_rejected
patched_rejected_iff p r =
    ground
      (arith, verdict_iff p, BlockedRun_iff p, eq_iff p.response.reason_code "UNTRUSTED_SIGNER")

positive_control_passed_iff :
    (c : ExecutionEvidence)
    → c.role ≡ positive_control
    → (positive_control_passed c ≡ true)
      ↔ (IsAppliedRun trusted_version c × (c.response.reason_code ≡ "TRUSTED_SIGNATURE_ACCEPTED"))
unfolding positive_control_passed
positive_control_passed_iff c r = ground (
  arith,
  verdict_iff c,
  AppliedRun_iff c trusted_version,
  is_applied_iff c trusted_version,
  eq_iff c.response.reason_code "TRUSTED_SIGNATURE_ACCEPTED",
)

conclusive :
    (e : ExecutionEvidence)
    → (is_inconclusive e ≡ false) ↔ (IsSecure e.role e ⊎ IsInsecure e.role e)
unfolding is_inconclusive
conclusive e = ground (arith, verdict_iff e)

combine_iff :
    (v p c : ExecutionEvidence)
    → v.role ≡ vulnerable
    → p.role ≡ patched
    → c.role ≡ positive_control
    → (of_three v p c ≡ patch_verified) ↔ ShowsFix v p c
unfolding combine
combine_iff v p c rv rp rc = ground (
  arith,
  baseline_iff v rv,
  patched_rejected_iff p rp,
  positive_control_passed_iff c rc,
  conclusive v,
  conclusive p,
  conclusive c,
  eq_iff v.package_evidence.envelope_sha256 p.package_evidence.envelope_sha256,
  eq_iff v.request.body_sha256 p.request.body_sha256,
  eq_iff v.package_evidence.envelope_sha256 v.request.body_sha256,
  eq_iff p.package_evidence.envelope_sha256 p.request.body_sha256,
)

-- PATCH_VERIFIED is given exactly if the list holds one execution of each role, in any order, and
-- these show the fix: the vulnerable build applied the untrusted update for its checksum alone, the
-- patched build answered the same request body with 403 UNTRUSTED_SIGNER and no state change, and
-- the trusted update was accepted for its signature and applied, each from the initial state.
pub patch_verified_iff :
    (xs : List ExecutionEvidence)
    → (calculate_verification_outcome xs ≡ some patch_verified)
      ↔ ((v p c : ExecutionEvidence) × IsRun v p c xs × ShowsFix v p c)
patch_verified_iff xs = (
  λ h. elim (HasRun-dec xs) [
    | inl (v, p, c, run) ↦ (
      v,
      p,
      c,
      run,
      (combine_iff v p c run.first run.second run.third).0
          (ground (arith, outcome_of_run v p c xs run)),
    )
    | inr none_is ↦ absurd (ground (arith, outcome_without_run xs none_is))
  ],
  λ (v, p, c, run, shows).
      outcome_of_run v p c xs run
      ∙ ap some ((combine_iff v p c run.first run.second run.third).1 shows),
)

-- A conclusive execution is coherent, so the last test of the code never decides.
conclusive_coherent :
    (e : ExecutionEvidence) → is_inconclusive e ≡ false → response_is_coherent e ≡ true
unfolding is_inconclusive calculate_individual_verdict
conclusive_coherent e h = ground arith

combine_not_iff :
    (v p c : ExecutionEvidence)
    → v.role ≡ vulnerable
    → p.role ≡ patched
    → c.role ≡ positive_control
    → (of_three v p c ≡ patch_not_verified) ↔ (
        IsAppliedRun untrusted_version v
        × (v.response.reason_code ≡ "CHECKSUM_ONLY_ACCEPTED")
        × (v.package_evidence.envelope_sha256 ≡ p.package_evidence.envelope_sha256)
        × (IsSecure patched p ⊎ IsInsecure patched p)
        × (IsSecure positive_control c ⊎ IsInsecure positive_control c)
        × ¬ ShowsFix v p c)
unfolding combine
combine_not_iff v p c rv rp rc = ground (
  arith,
  baseline_iff v rv,
  patched_rejected_iff p rp,
  positive_control_passed_iff c rc,
  conclusive v,
  conclusive p,
  conclusive c,
  conclusive_coherent p,
  conclusive_coherent c,
  eq_iff v.package_evidence.envelope_sha256 p.package_evidence.envelope_sha256,
  eq_iff v.request.body_sha256 p.request.body_sha256,
  eq_iff v.package_evidence.envelope_sha256 v.request.body_sha256,
  eq_iff p.package_evidence.envelope_sha256 p.request.body_sha256,
)

-- The unsafe behaviour was reproduced with the input that the patched build got, all three executions are
-- conclusive, and the fix was not shown.
pub record ShowsNoFix (v p c : ExecutionEvidence) : Type 0 where
  pub reproduced : IsAppliedRun untrusted_version v
  pub reason : v.response.reason_code ≡ "CHECKSUM_ONLY_ACCEPTED"
  pub same_input : v.package_evidence.envelope_sha256 ≡ p.package_evidence.envelope_sha256
  pub patched_conclusive : IsSecure patched p ⊎ IsInsecure patched p
  pub control_conclusive : IsSecure positive_control c ⊎ IsInsecure positive_control c
  pub unfixed : ¬ ShowsFix v p c

pub combine-ShowsNoFix :
    (v p c : ExecutionEvidence)
    → v.role ≡ vulnerable
    → p.role ≡ patched
    → c.role ≡ positive_control
    → (of_three v p c ≡ patch_not_verified) ↔ ShowsNoFix v p c
combine-ShowsNoFix v p c rv rp rc =
    let i = combine_not_iff v p c rv rp rc in
    (
      λ h.
          let (reproduced, reason, same_input, p_known, c_known, unfixed) = i.0 h in
          record {
            reproduced = reproduced;
            reason = reason;
            same_input = same_input;
            patched_conclusive = p_known;
            control_conclusive = c_known;
            unfixed = unfixed;
          },
      λ s. i.1 (
        s.reproduced, s.reason, s.same_input, s.patched_conclusive, s.control_conclusive, s.unfixed,
      ),
    )

-- PATCH_NOT_VERIFIED is given exactly if the list holds one execution of each role, in any order, the
-- unsafe behaviour was reproduced with the input that the patched build got, the other two executions
-- are conclusive, and the fix was not shown all the same.
pub patch_not_verified_iff :
    (xs : List ExecutionEvidence)
    → (calculate_verification_outcome xs ≡ some patch_not_verified)
      ↔ ((v p c : ExecutionEvidence) × IsRun v p c xs × ShowsNoFix v p c)
patch_not_verified_iff xs = (
  λ h. elim (HasRun-dec xs) [
    | inl (v, p, c, run) ↦ (
      v,
      p,
      c,
      run,
      (combine-ShowsNoFix v p c run.first run.second run.third).0
          (ground (arith, outcome_of_run v p c xs run)),
    )
    | inr none_is ↦ absurd (ground (arith, outcome_without_run xs none_is))
  ],
  λ (v, p, c, run, shows).
      outcome_of_run v p c xs run
      ∙ ap some ((combine-ShowsNoFix v p c run.first run.second run.third).1 shows),
)
