-- ===== src/Services/Status/Managers.antt =====
-- What a status check leaves in an execution client manager and in a beacon client manager
-- (`CheckStatus` of ec-manager.go and of bn-manager.go).
use node_manager_core.Base.{
  ℕ, ◌≡◌, ◌↔◌, Bool, true, Option, some, arith, inl, inr, ap, subst, ◌∙◌, sym, is_some,
}
use node_manager_core.Services.{Manager}
use node_manager_core.Services.Failover.{IsConsistent}
use node_manager_core.Services.Status.{
  ClientStatus, ExecutionAnswers, BeaconAnswers, ClientManagerStatus, check_ec_status,
  check_bc_status, judge, check_status, ec_check_status, bc_check_status,
}
use node_manager_core.Services.Status.Readiness.{
  IsHealthy, IsHealthyBeacon, ec_sound, ec_complete, bc_sound, bc_complete, Parts, FallbackPart,
  check_status-Parts,
}

-- There is a fallback in use with the property.
pub record HasFallback {C : Type 0} (m : Manager C) (P : C → Type 0) : Type 0 where
  pub client : C
  pub enabled : m.fallback_enabled ≡ true
  pub present : m.fallback ≡ some client
  pub good : P client

-- The flags that a check leaves: exactly the good clients are ready.
abbrev pub Reflects : {C : Type 0} → Manager C → Manager C → (C → Type 0) → Type 0
Reflects m m' P =
    ((m'.primary_ready ≡ true) ↔ P m.primary) × ((m'.fallback_ready ≡ true) ↔ HasFallback m P)

module _ {C : Type 0} (check : C → Bool → Option ClientStatus) (P : C → Type 0) (m : Manager C)
    (sound : (c : C) (st : ClientStatus)
      → check c true ≡ some st
      → (judge true m.expected_chain_id st).1 ≡ true
      → P c)
    (complete : (c : C) (st : ClientStatus)
      → check c true ≡ some st
      → P c
      → (judge true m.expected_chain_id st).1 ≡ true) where
  FallbackPart-iff :
      (ready : Bool) → FallbackPart check m true ready → (ready ≡ true) ↔ HasFallback m P
  FallbackPart-iff ready (inl (e, z)) =
      (λ r. absurd (ground arith), λ h. absurd (ground (arith, h.enabled)))
  FallbackPart-iff ready (inr (d, st, e, a, b, z)) = (
    λ r. record { client = d; enabled = e; present = a; good = sound d st b (sym z ∙ r) },
    λ h. z ∙ complete d st b (subst P (cc) h.good),
  )

  Parts-Reflects : (m' : Manager C) → Parts check m true m' → Reflects m m' P
  Parts-Reflects m' (st, a, b, c, z) = (
    (λ r. sound m.primary st a (sym b ∙ r), λ h. b ∙ complete m.primary st a h),
    FallbackPart-iff m'.fallback_ready z,
  )

module _ {C : Type 0} where
  -- After a check of the chain IDs, the primary execution client is ready exactly if it reports the
  -- expected chain, that it is done syncing, and a latest block of the last five minutes; the fallback
  -- is ready exactly if it is enabled and does so too. The flags from before play no part.
  pub ec_check_status-Reflects :
      (now : ℕ) (ask : C → ExecutionAnswers) (m : Manager C) (s : ClientManagerStatus)
      (m' : Manager C)
      → ec_check_status now ask m true ≡ some (s, m')
      → Reflects m m' (λ c. IsHealthy now m.expected_chain_id (ask c))
  unfolding ec_check_status
  ec_check_status-Reflects now ask m s m' h =
      Parts-Reflects (λ c. check_ec_status now (ask c)) _ m
        (λ c. ec_sound now (ask c) m.expected_chain_id)
        (λ c. ec_complete now (ask c) m.expected_chain_id) m'
        (check_status-Parts (λ c. check_ec_status now (ask c)) m true s m' h)

  -- After a check of the chain IDs, the primary beacon node is ready exactly if its deposit contract is
  -- on the expected chain and it is not syncing; the fallback is ready exactly if it is enabled and
  -- that holds of it too.
  pub bc_check_status-Reflects :
      (ask : C → BeaconAnswers) (m : Manager C) (s : ClientManagerStatus) (m' : Manager C)
      → bc_check_status ask m true ≡ some (s, m')
      → Reflects m m' (λ c. IsHealthyBeacon m.expected_chain_id (ask c))
  unfolding bc_check_status
  bc_check_status-Reflects ask m s m' h =
      Parts-Reflects (λ c. check_bc_status (ask c)) _ m (λ c. bc_sound (ask c) m.expected_chain_id)
        (λ c. bc_complete (ask c) m.expected_chain_id) m'
        (check_status-Parts (λ c. check_bc_status (ask c)) m true s m' h)

  present_again :
      (check : C → Bool → Option ClientStatus) (m : Manager C) (ids p r : Bool)
      → IsConsistent m
      → FallbackPart check m ids r
      → IsConsistent (record m { primary_ready = p; fallback_ready = r })
  present_again check m ids p r c (inl (e, z)) = ground arith
  present_again check m ids p r c (inr (d, st, e, a, b, z)) = record {
    enabled = c.enabled;
    ready_present = λ _. ap is_some a;
  }

  -- A check, with or without the chain IDs, keeps the manager's flags consistent with its clients,
  -- and changes nothing of it but the two flags.
  pub check_status-IsConsistent :
      (check : C → Bool → Option ClientStatus) (m : Manager C) (ids : Bool)
      (s : ClientManagerStatus) (m' : Manager C)
      → check_status check m ids ≡ some (s, m')
      → IsConsistent m
      → IsConsistent m'
        × (m' ≡ record m { primary_ready = m'.primary_ready; fallback_ready = m'.fallback_ready })
  check_status-IsConsistent check m ids s m' h c =
      let (st, a, b, k, z) = check_status-Parts check m ids s m' h in
      (subst IsConsistent (sym k) (present_again check m ids _ m'.fallback_ready c z), k)
