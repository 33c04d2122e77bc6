-- ===== src/Services/Status/Readiness.antt =====
-- Which clients a status check of node/services makes ready.
use node_manager_core.Base.{
  ℕ, ◌%◌, ◌^◌, ◌≡◌, ◌⊎◌, Bool, true, false, Option, none, some, arith, inl, inr, refl, ap, subst,
  ◌>>=◌, Option-cases, Bool-cases,
}
use node_manager_core.Services.{Outcome, ok, err, panic, Manager}
use node_manager_core.Services.Status.{
  ClientStatus, check_client, check_fallback, report, Progress, ExecutionAnswers, BeaconAnswers,
  ClientManagerStatus, is_within_threshold, check_ec_status, check_bc_status, judge, check_status,
}

-- What makes an execution client usable, told of its answers alone.
abbrev pub IsRecent : ℕ → Outcome ℕ → Type 0
IsRecent now (ok t) = is_within_threshold now t ≡ true
IsRecent now (err e) = ⊥
IsRecent now panic = ⊥

abbrev pub IsDone : Outcome (Option Progress) → Type 0
IsDone (ok none) = Unit
IsDone (ok (some p)) = ⊥
IsDone (err e) = ⊥
IsDone panic = ⊥

abbrev pub IsOnChain : ℕ → Outcome (Option ℕ) → Type 0
IsOnChain expected (ok (some c)) = c % 2 ^ 64 ≡ expected
IsOnChain expected (ok none) = ◌≡◌ {A = ℕ} 0 expected
IsOnChain expected (err e) = ⊥
IsOnChain expected panic = ⊥

pub record IsHealthy (now expected : ℕ) (a : ExecutionAnswers) : Type 0 where
  pub on_chain : IsOnChain expected a.chain_id
  pub done : IsDone a.sync_progress
  pub recent : IsRecent now a.latest_block_time

module _ (now : ℕ) (a : ExecutionAnswers) where
  pub ec_sound :
      (expected : ℕ) (st : ClientStatus)
      → check_ec_status now a true ≡ some st
      → (judge true expected st).1 ≡ true
      → IsHealthy now expected a
  unfolding check_ec_status judge
  ec_sound expected st h k = ground arith

  pub ec_complete :
      (expected : ℕ) (st : ClientStatus)
      → check_ec_status now a true ≡ some st
      → IsHealthy now expected a
      → (judge true expected st).1 ≡ true
  unfolding check_ec_status judge
  ec_complete expected st h k = ground arith

-- What makes a beacon node usable.
abbrev pub IsSynced : Outcome (Bool × Progress) → Type 0
IsSynced (ok (syncing, p)) = syncing ≡ false
IsSynced (err e) = ⊥
IsSynced panic = ⊥

abbrev pub IsDepositChain : ℕ → Outcome ℕ → Type 0
IsDepositChain expected (ok c) = c % 2 ^ 64 ≡ expected
IsDepositChain expected (err e) = ⊥
IsDepositChain expected panic = ⊥

pub record IsHealthyBeacon (expected : ℕ) (a : BeaconAnswers) : Type 0 where
  pub on_chain : IsDepositChain expected a.deposit_chain_id
  pub synced : IsSynced a.sync_status

module _ (a : BeaconAnswers) where
  pub bc_sound :
      (expected : ℕ) (st : ClientStatus)
      → check_bc_status a true ≡ some st
      → (judge true expected st).1 ≡ true
      → IsHealthyBeacon expected a
  unfolding check_bc_status judge
  bc_sound expected st h k = ground arith

  pub bc_complete :
      (expected : ℕ) (st : ClientStatus)
      → check_bc_status a true ≡ some st
      → IsHealthyBeacon expected a
      → (judge true expected st).1 ≡ true
  unfolding check_bc_status judge
  bc_complete expected st h k = ground arith

-- The parts of a check that ends without a panic.
module _ {C : Type 0} (check : C → Bool → Option ClientStatus) where
  abbrev pub FallbackPart : Manager C → Bool → Bool → Type 0
  FallbackPart m ids ready =
      ((m.fallback_enabled ≡ false) × (ready ≡ false))
      ⊎ ((d : C) × (st : ClientStatus) × (m.fallback_enabled ≡ true)
          × (m.fallback ≡ some d)
          × (check d ids ≡ some st)
          × (ready ≡ (judge ids m.expected_chain_id st).1))

  check_client_parts :
      (o : Option C) (ids : Bool) (expected : ℕ) (v : ClientStatus × Bool)
      → check_client check o ids expected ≡ some v
      → (d : C) × (st : ClientStatus) × (o ≡ some d)
        × (check d ids ≡ some st)
        × (v ≡ judge ids expected st)
  unfolding check_client
  check_client_parts none ids expected v h = cc
  check_client_parts (some d) ids expected v h = elim (Option-cases (check d ids)) [
    | inl e ↦ absurd (ground arith)
    | inr (st, e) ↦ (d, st, refl, e, ground arith)
  ]

  check_fallback_parts :
      (m : Manager C) (ids : Bool) (v : ClientStatus × Bool)
      → check_fallback check m ids ≡ some v
      → FallbackPart m ids v.1
  unfolding check_fallback
  check_fallback_parts m ids v h = elim (Bool-cases m.fallback_enabled) [
    | inr e ↦ inl (e, ground arith)
    | inl e ↦
        let (d, st, a, b, c) =
          check_client_parts m.fallback ids m.expected_chain_id v (simp e at h) in
        inr (d, st, e, a, b, ap (λ (t : ClientStatus × Bool). t.1) c)
  ]

  abbrev pub Parts : Manager C → Bool → Manager C → Type 0
  Parts m ids m' =
      (st : ClientStatus) × (check m.primary ids ≡ some st)
      × (m'.primary_ready ≡ (judge ids m.expected_chain_id st).1)
      × (m' ≡ record m { primary_ready = m'.primary_ready; fallback_ready = m'.fallback_ready })
      × FallbackPart m ids m'.fallback_ready

  report-Parts :
      (m : Manager C) (ids : Bool) (s : ClientManagerStatus) (m' : Manager C)
      (first second : Option (ClientStatus × Bool))
      → check_client check (some m.primary) ids m.expected_chain_id ≡ first
      → check_fallback check m ids ≡ second
      → (first >>= λ a. second >>= λ b. some (report check m a b)) ≡ some (s, m')
      → Parts m ids m'
  unfolding report
  report-Parts m ids s m' none second p q h = cc
  report-Parts m ids s m' (some v) none p q h = cc
  report-Parts m ids s m' (some v) (some u) p q h =
      let (d, st, a, b, c) = check_client_parts (some m.primary) ids m.expected_chain_id v p in
      (st, cc, cc, cc, subst (FallbackPart m ids) (cc) (check_fallback_parts m ids u q))

  pub check_status-Parts :
      (m : Manager C) (ids : Bool) (s : ClientManagerStatus) (m' : Manager C)
      → check_status check m ids ≡ some (s, m')
      → Parts m ids m'
  unfolding check_status
  check_status-Parts m ids s m' h = report-Parts m ids s m' _ _ refl refl h
