-- ===== src/Services/Failover.antt =====
-- What one request through the runner of function-runners.go does, on every path.
use node_manager_core.Base.{
  ℕ, suc, String, ◌≡◌, refl, true, false, none, some, inl, inr, arith, is_some, ap, ◌≢◌, ◌↔◌, subst,
  sym, ◌∙◌, Bool-cases, Option-cases,
}
use node_manager_core.Services.{
  none_ready, all_failed, Outcome, ok, err, panic, is_disconnected, Manager, after_fallback,
  call_fallback, use_fallback, after_primary, or_panic, new_manager, new_manager_with_fallback,
  set_primary_ready, set_fallback_ready, Request, Run, attempt, run_function1,
}

-- The manager's flags agree with the clients that it has, as both constructors leave them.
pub record IsConsistent {C : Type 0} (m : Manager C) : Type 0 where
  pub enabled : m.fallback_enabled ≡ is_some m.fallback
  pub ready_present : m.fallback_ready ≡ true → is_some m.fallback ≡ true

module _ {C : Type 0} where
  pub new_manager-IsConsistent :
      (c : C) (chain : ℕ) (name : String) → IsConsistent (new_manager c chain name)
  unfolding new_manager
  new_manager-IsConsistent c chain name = ground arith

  pub new_manager_with_fallback-IsConsistent :
      (c d : C) (chain : ℕ) (name : String)
      → IsConsistent (new_manager_with_fallback c d chain name)
  unfolding new_manager_with_fallback
  new_manager_with_fallback-IsConsistent c d chain name = ground arith

-- An answer that the runner passes on as it is: a value, a panic, or an error that is no
-- disconnection.
abbrev pub Answers : {R : Type 0} → Outcome R → Type 0
Answers (ok r) = Unit
Answers (err e) = is_disconnected e ≡ false
Answers panic = Unit

abbrev pub Disconnects : {R : Type 0} → Outcome R → Type 0
Disconnects (ok r) = ⊥
Disconnects (err e) = is_disconnected e ≡ true
Disconnects panic = ⊥

-- The way of a request, told by what the clients answer.
module _ {C W R : Type 0} (f : Request C W R) where
  -- From a world `w`, a manager that may not use its primary any more.
  pub data Second (m : Manager C) (w : W) : Run C W R → Type 0 where
    unready : m.fallback_ready ≡ false → Second m w (err (none_ready m.type_name), m, w)
    missing : m.fallback_ready ≡ true → m.fallback ≡ none → Second m w (panic, m, w)
    served :
        (d : C)
        → m.fallback_ready ≡ true
        → m.fallback ≡ some d
        → (o : Outcome R) (v : W) → f d w ≡ (o, v)
        → Answers o
        → Second m w (o, m, v)
    lost :
        (d : C)
        → m.fallback_ready ≡ true
        → m.fallback ≡ some d
        → (o : Outcome R) (v : W) → f d w ≡ (o, v)
        → Disconnects o
        → Second m w (err (all_failed m.type_name), set_fallback_ready m false, v)

  pub data Route (m : Manager C) (w : W) : Run C W R → Type 0 where
    skip : (r : Run C W R) → m.primary_ready ≡ false → Second m w r → Route m w r
    direct :
        m.primary_ready ≡ true
        → (o : Outcome R) (v : W) → f m.primary w ≡ (o, v)
        → Answers o
        → Route m w (o, m, v)
    alone :
        m.primary_ready ≡ true
        → m.fallback ≡ none
        → (o : Outcome R) (v : W) → f m.primary w ≡ (o, v)
        → Disconnects o
        → Route m w (err (all_failed m.type_name), set_primary_ready m false, v)
    over :
        (d : C)
        → m.primary_ready ≡ true
        → m.fallback ≡ some d
        → (o : Outcome R) (v : W) → f m.primary w ≡ (o, v)
        → Disconnects o
        → (r : Run C W R) → Second (set_primary_ready m false) v r
        → Route m w r

module _ {C W R : Type 0} (f : Request C W R) where
  -- Whatever the clients do, two rounds give a result, and more rounds give the same.
  pub attempt_enough :
      (n : ℕ) (m : Manager C) (w : W) → attempt (suc (suc n)) f m w ≡ some (run_function1 f m w)
  unfolding run_function1
  attempt_enough n m w = ground arith

  Second-sound : (m : Manager C) (w : W) {r : Run C W R} → Second f m w r → r ≡ use_fallback f m w
  unfolding use_fallback set_fallback_ready
  Second-sound m w (unready h) = ground arith
  Second-sound m w (missing h e) = ground arith
  Second-sound m w (served d h e (ok x) v q a) = ground arith
  Second-sound m w (served d h e (err x) v q a) = ground arith
  Second-sound m w (served d h e panic v q a) = ground arith
  Second-sound m w (lost d h e (ok x) v q a) = absurd a
  Second-sound m w (lost d h e (err x) v q a) = ground arith
  Second-sound m w (lost d h e panic v q a) = absurd a

  after_fallback-Second :
      (m : Manager C) (w : W) (d : C) (p : Outcome R × W)
      → m.fallback_ready ≡ true
      → m.fallback ≡ some d
      → f d w ≡ p
      → Second f m w (after_fallback m p)
  unfolding after_fallback
  after_fallback-Second m w d (ok x, v) h e q = served d h e (ok x) v q tt
  after_fallback-Second m w d (err x, v) h e q = elim (Bool-cases (is_disconnected x)) [
    | inl gone ↦ rw gone (lost d h e (err x) v q gone)
    | inr kept ↦ rw kept (served d h e (err x) v q kept)
  ]
  after_fallback-Second m w d (panic, v) h e q = served d h e panic v q tt

  use_fallback-Second : (m : Manager C) (w : W) → Second f m w (use_fallback f m w)
  unfolding use_fallback
  use_fallback-Second m w = elim (Bool-cases m.fallback_ready) [
    | inr h ↦ simp h (unready h)
    | inl h ↦ simp h (elim (Option-cases m.fallback) [
      | inl e ↦ simp (e, call_fallback) (missing h e)
      | inr (d, e) ↦ simp (e, call_fallback) (after_fallback-Second m w d (f d w) h e refl)
    ])
  ]

  after_primary-Route :
      (m : Manager C) (w : W) (p : Outcome R × W)
      → m.primary_ready ≡ true
      → f m.primary w ≡ p
      → Route f m w (or_panic m w (after_primary (attempt 1 f) m p))
  unfolding attempt
  after_primary-Route m w (ok x, v) h q = direct h (ok x) v q tt
  after_primary-Route m w (panic, v) h q = direct h panic v q tt
  after_primary-Route m w (err x, v) h q = elim (Bool-cases (is_disconnected x)) [
    | inr kept ↦ simp kept (direct h (err x) v q kept)
    | inl gone ↦ simp gone (elim (Option-cases m.fallback) [
      | inl e ↦ simp (ap is_some e) (alone h e (err x) v q gone)
      | inr (d, e) ↦
          simp (ap is_some e)
            (over d h e (err x) v q gone _ (use_fallback-Second (set_primary_ready m false) v))
    ])
  ]

  Route-complete : (m : Manager C) (w : W) → Route f m w (run_function1 f m w)
  unfolding run_function1
  Route-complete m w = elim (Bool-cases m.primary_ready) [
    | inl h ↦ simp h (after_primary-Route m w (f m.primary w) h refl)
    | inr h ↦ simp h (skip _ h (use_fallback-Second m w))
  ]

  Route-sound : (m : Manager C) (w : W) {r : Run C W R} → Route f m w r → r ≡ run_function1 f m w
  unfolding run_function1
  Route-sound m w (skip r h s) = ground (arith, Second-sound m w s)
  Route-sound m w (direct h (ok x) v q a) = ground arith
  Route-sound m w (direct h (err x) v q a) = ground arith
  Route-sound m w (direct h panic v q a) = ground arith
  Route-sound m w (alone h e (ok x) v q a) = absurd a
  Route-sound m w (alone h e (err x) v q a) = ground arith
  Route-sound m w (alone h e panic v q a) = absurd a
  Route-sound m w (over d h e (ok x) v q a r s) = absurd a
  Route-sound m w (over d h e (err x) v q a r s) =
      ground (arith, Second-sound (set_primary_ready m false) v s)
  Route-sound m w (over d h e panic v q a r s) = absurd a

  -- The runner gives exactly what the clients' answers lead to: the primary's answer if it is ready
  -- and connected, otherwise the fallback's if that one is, otherwise an error of the runner's own;
  -- a client that disconnects is marked as not ready, and nothing else of the manager changes.
  pub run_iff_Route :
      (m : Manager C) (w : W) (r : Run C W R) → Route f m w r ↔ (r ≡ run_function1 f m w)
  run_iff_Route m w r = (Route-sound m w, λ e. subst (Route f m w) (sym e) (Route-complete m w))

  Second-IsConsistent :
      (m : Manager C) (w : W) (r : Run C W R) → Second f m w r → IsConsistent m → IsConsistent r.1
  unfolding set_fallback_ready
  Second-IsConsistent m w _ (unready h) c = c
  Second-IsConsistent m w _ (missing h e) c = c
  Second-IsConsistent m w _ (served d h e o v q a) c = c
  Second-IsConsistent m w _ (lost d h e o v q a) c = ground arith

  pub Route-IsConsistent :
      (m : Manager C) (w : W) (r : Run C W R) → Route f m w r → IsConsistent m → IsConsistent r.1
  unfolding set_primary_ready
  Route-IsConsistent m w _ (skip r h s) c = Second-IsConsistent m w r s c
  Route-IsConsistent m w _ (direct h o v q a) c = c
  Route-IsConsistent m w _ (alone h e o v q a) c = ground arith
  Route-IsConsistent m w _ (over d h e o v q a r s) c = Second-IsConsistent _ v r s (ground arith)

  -- No request makes the flags disagree with the clients.
  pub run_function1-IsConsistent :
      (m : Manager C) (w : W) → IsConsistent m → IsConsistent (run_function1 f m w).1
  run_function1-IsConsistent m w c = Route-IsConsistent m w _ (Route-complete m w) c

  -- No client is called that the manager does not have.
  no_nil-Second :
      (m : Manager C) (w : W) (r : Run C W R)
      → ((c : C) (v : W) → (f c v).0 ≢ panic)
      → IsConsistent m
      → Second f m w r
      → r.0 ≢ panic
  no_nil-Second m w _ safe c (unready h) = λ p. cc
  no_nil-Second m w _ safe c (missing h e) = absurd (ground (arith, c.ready_present h))
  no_nil-Second m w _ safe c (served d h e o v q a) =
      λ p. safe d w (ap (λ (t : Outcome R × W). t.0) q ∙ p)
  no_nil-Second m w _ safe c (lost d h e o v q a) = λ p. cc

  -- If no client panics by itself and the manager's flags agree with its clients, no request panics.
  pub run_function1-ne-panic :
      (m : Manager C) (w : W)
      → ((c : C) (v : W) → (f c v).0 ≢ panic)
      → IsConsistent m
      → (run_function1 f m w).0 ≢ panic
  unfolding set_primary_ready
  run_function1-ne-panic m w safe c = go _ (Route-complete m w)
    where
      go : (r : Run C W R) → Route f m w r → r.0 ≢ panic
      go _ (skip r h s) = no_nil-Second m w r safe c s
      go _ (direct h o v q a) = λ p. safe m.primary w (ap (λ (t : Outcome R × W). t.0) q ∙ p)
      go _ (alone h e o v q a) = λ p. cc
      go _ (over d h e o v q a r s) = no_nil-Second _ v r safe (ground arith) s
