-- ===== src/Services/Sequences.antt =====
-- Many requests one after the other through one manager of node/services, between two checks of the
-- clients' status.
use node_manager_core.Base.{
  ◌≡◌, refl, true, false, List, [], ◌∷◌, map, arith, ap, ◌≢◌, String, sym, ◌∙◌,
}
use node_manager_core.Services.{
  Outcome, err, none_ready, all_failed, Manager, Request, Run, run_function1, set_fallback_ready,
  set_primary_ready,
}
use node_manager_core.Services.Failover.{
  IsConsistent, run_function1-IsConsistent, Second, unready, missing, served, lost, Route, skip,
  direct, alone, over, run_iff_Route,
}

-- A caller's requests in their order.
pub run_all :
    {C W R : Type 0} → List (Request C W R) → Manager C → W → List (Outcome R) × Manager C × W
run_all [] m w = ([], m, w)
run_all (f ∷ fs) m w =
    let (o, m', w') = run_function1 f m w in
    let (os, m'', w'') = run_all fs m' w' in (o ∷ os, m'', w'')

-- What a request may change of a manager: readiness is only ever lost.
pub record Lessens {C : Type 0} (m m' : Manager C) : Type 0 where
  pub primary : m'.primary ≡ m.primary
  pub fallback : m'.fallback ≡ m.fallback
  pub expected_chain_id : m'.expected_chain_id ≡ m.expected_chain_id
  pub fallback_enabled : m'.fallback_enabled ≡ m.fallback_enabled
  pub type_name : m'.type_name ≡ m.type_name
  pub primary_ready : m'.primary_ready ≡ true → m.primary_ready ≡ true
  pub fallback_ready : m'.fallback_ready ≡ true → m.fallback_ready ≡ true

-- Neither client may be used.
abbrev pub IsExhausted : {C : Type 0} → Manager C → Type 0
IsExhausted m = (m.primary_ready ≡ false) × (m.fallback_ready ≡ false)

pub Lessens-refl : {C : Type 0} (m : Manager C) → Lessens m m
Lessens-refl m = ground arith

pub Lessens-trans : {C : Type 0} {a b c : Manager C} → Lessens a b → Lessens b c → Lessens a c
Lessens-trans h k = record {
  primary = k.primary ∙ h.primary;
  fallback = k.fallback ∙ h.fallback;
  expected_chain_id = k.expected_chain_id ∙ h.expected_chain_id;
  fallback_enabled = k.fallback_enabled ∙ h.fallback_enabled;
  type_name = k.type_name ∙ h.type_name;
  primary_ready = λ e. h.primary_ready (k.primary_ready e);
  fallback_ready = λ e. h.fallback_ready (k.fallback_ready e);
}

module _ {C W R : Type 0} where
  Second-Lessens :
      (f : Request C W R) (m : Manager C) (w : W) (r : Run C W R) → Second f m w r → Lessens m r.1
  unfolding set_fallback_ready
  Second-Lessens f m w _ (unready h) = Lessens-refl m
  Second-Lessens f m w _ (missing h e) = Lessens-refl m
  Second-Lessens f m w _ (served d h e o v q a) = Lessens-refl m
  Second-Lessens f m w _ (lost d h e o v q a) = ground arith

  Route-Lessens :
      (f : Request C W R) (m : Manager C) (w : W) (r : Run C W R) → Route f m w r → Lessens m r.1
  unfolding set_primary_ready
  Route-Lessens f m w _ (skip r h s) = Second-Lessens f m w r s
  Route-Lessens f m w _ (direct h o v q a) = Lessens-refl m
  Route-Lessens f m w _ (alone h e o v q a) = ground arith
  Route-Lessens f m w _ (over d h e o v q a r s) =
      let k : Lessens m (set_primary_ready m false) = ground arith in
      Lessens-trans k (Second-Lessens f _ v r s)

  pub run_function1-Lessens :
      (f : Request C W R) (m : Manager C) (w : W) → Lessens m (run_function1 f m w).1
  run_function1-Lessens f m w = Route-Lessens f m w _ ((run_iff_Route f m w _).1 refl)

  -- Any number of requests leaves the clients, the expected chain and the fallback setting of a
  -- manager alone, makes no client ready that was not, and keeps its flags consistent.
  pub run_all-Lessens :
      (fs : List (Request C W R)) (m : Manager C) (w : W)
      → IsConsistent m
      → Lessens m (run_all fs m w).1 × IsConsistent (run_all fs m w).1
  unfolding run_all
  run_all-Lessens [] m w c = (Lessens-refl m, c)
  run_all-Lessens (f ∷ fs) m w c =
      let (l, d) =
        run_all-Lessens fs (run_function1 f m w).1 (run_function1 f m w).2
          (run_function1-IsConsistent f m w c) in
      (Lessens-trans (run_function1-Lessens f m w) l, d)

  pub exhausted_step :
      (f : Request C W R) (m : Manager C) (w : W)
      → IsExhausted m
      → run_function1 f m w ≡ (err (none_ready m.type_name), m, w)
  exhausted_step f m w h = sym ((run_iff_Route f m w _).0 (skip _ h.0 (unready h.1)))

  -- With no client ready every request fails at once, and none reaches a client.
  pub run_all_exhausted :
      (fs : List (Request C W R)) (m : Manager C) (w : W)
      → IsExhausted m
      → run_all fs m w ≡ (map (λ f. err (none_ready m.type_name)) fs, m, w)
  unfolding run_all
  run_all_exhausted [] m w h = refl
  run_all_exhausted (f ∷ fs) m w h = rw (exhausted_step f m w h, run_all_exhausted fs m w h)

  all_failed-IsExhausted :
      (f : Request C W R) (m : Manager C) (w : W) (r : Run C W R)
      → ((c : C) (v : W) (s : String) → (f c v).0 ≢ err (all_failed s))
      → IsConsistent m
      → Route f m w r
      → r.0 ≡ err (all_failed m.type_name)
      → IsExhausted r.1
  unfolding set_primary_ready set_fallback_ready
  all_failed-IsExhausted f m w _ own c (skip _ h (unready k)) p = cc
  all_failed-IsExhausted f m w _ own c (skip _ h (missing k e)) p = cc
  all_failed-IsExhausted f m w _ own c (skip _ h (served d k e o v q a)) p =
      absurd (own d w m.type_name (ap (λ (t : Outcome R × W). t.0) q ∙ p))
  all_failed-IsExhausted f m w _ own c (skip _ h (lost d k e o v q a)) p = (h, refl)
  all_failed-IsExhausted f m w _ own c (direct h o v q a) p =
      absurd (own m.primary w m.type_name (ap (λ (t : Outcome R × W). t.0) q ∙ p))
  all_failed-IsExhausted f m w _ own c (alone h e o v q a) p = (refl, ground arith)
  all_failed-IsExhausted f m w _ own c (over d h e o v q a _ (unready k)) p = cc
  all_failed-IsExhausted f m w _ own c (over d h e o v q a _ (missing k e')) p = cc
  all_failed-IsExhausted f m w _ own c (over d h e o v q a _ (served d' k e' o' v' q' a')) p =
      absurd (own d' v m.type_name (ap (λ (t : Outcome R × W). t.0) q' ∙ p))
  all_failed-IsExhausted f m w _ own c (over d h e o v q a _ (lost d' k e' o' v' q' a')) p =
      (refl, refl)

  -- Once a request ends with "all clients failed" (an error that the clients do not give
  -- themselves), every later request fails at once and reaches no client.
  pub run_all_after_failure :
      (f : Request C W R) (fs : List (Request C W R)) (m : Manager C) (w : W)
      → ((c : C) (v : W) (s : String) → (f c v).0 ≢ err (all_failed s))
      → IsConsistent m
      → (run_function1 f m w).0 ≡ err (all_failed m.type_name)
      → let (o, m', w') = run_function1 f m w in
        run_all fs m' w' ≡ (map (λ g. err (none_ready m'.type_name)) fs, m', w')
  run_all_after_failure f fs m w own c p =
      run_all_exhausted fs _ _
        (all_failed-IsExhausted f m w _ own c ((run_iff_Route f m w _).1 refl) p)
