-- ===== src/NodeWallet/Local/Derivation.antt =====
-- The search for a wallet index whose derivation has no invalid child (`getDerivedKey` of
-- local-wallet-manager.go), and what loading a keystore leaves in its data.
use node_manager_core.Base.{
  ℕ, zero, suc, ◌+◌, ◌%◌, ◌^◌, ◌<◌, ◌≡◌, refl, ◌∙◌, String, Option, none, some, arith,
}
use node_manager_core.NodeWallet.Files.{Bytes, Library, Result, ok}
use node_manager_core.NodeWallet.Local.{
  Derived, reached, invalid, broken, derive_at, key_or_next, get_derived_key,
}

module _ (lib : Library) (master : Bytes) (path : String) where
  -- The index that a search from `i` looks at after `k` invalid ones.
  unfoldable pub index_after : ℕ → ℕ → ℕ
  index_after i zero = i
  index_after i (suc k) = index_after ((i + 1) % 2 ^ 64) k

  -- The first index from `i` on, within `k` steps, at which the derivation ends in `key`; at all
  -- before it there is an invalid child.
  pub record Finds (i k : ℕ) (key : Bytes) : Type 0 where
    pub found : derive_at lib master path (index_after i k) ≡ some (reached key)
    pub skipped : (j : ℕ) → j < k → derive_at lib master path (index_after i j) ≡ some invalid

  abbrev pub Found : ℕ → ℕ → Bytes → ℕ → Type 0
  Found stack i key j = (k : ℕ) × (k < stack) × (j ≡ index_after i k) × Finds i k key

  step_sound :
      (stack i : ℕ) (key : Bytes) (j : ℕ) (next : Result (Bytes × ℕ)) (o : Option Derived)
      → derive_at lib master path i ≡ o
      → (next ≡ ok (key, j) → Found stack ((i + 1) % 2 ^ 64) key j)
      → key_or_next lib i next o ≡ ok (key, j)
      → Found (suc stack) i key j
  unfolding key_or_next index_after
  step_sound stack i key j next none e rec h = cc
  step_sound stack i key j next (some broken) e rec h = cc
  step_sound stack i key j next (some (reached x)) e rec h = (
    0,
    omega arith,
    ground arith,
    record { found = e ∙ ground arith; skipped = λ n lt. absurd (omega arith) },
  )
  step_sound stack i key j next (some invalid) e rec h =
      let (k, lt, at, f) = rec h in
      (suc k, omega arith, at, record { found = f.found; skipped = skip k e f.skipped })
    where
      skip :
          (k : ℕ)
          → derive_at lib master path i ≡ some invalid
          → ((n : ℕ)
              → n < k
              → derive_at lib master path (index_after ((i + 1) % 2 ^ 64) n) ≡ some invalid)
          → (n : ℕ) → n < suc k
          → derive_at lib master path (index_after i n) ≡ some invalid
      skip k e all zero lt = e
      skip k e all (suc n) lt = all n (omega arith)

  -- A key comes with the first index, from the given one on, at which the derivation goes through:
  -- all indices before it have an invalid child.
  pub get_derived_key_sound :
      (stack i : ℕ) (key : Bytes) (j : ℕ)
      → get_derived_key lib stack master path i ≡ ok (key, j)
      → Found stack i key j
  unfolding get_derived_key
  get_derived_key_sound zero i key j h = cc
  get_derived_key_sound (suc stack) i key j h =
      step_sound stack i key j _ _ refl (get_derived_key_sound stack ((i + 1) % 2 ^ 64) key j) h

  -- The search ends with a key wherever there is an index to find within the stack's depth.
  pub get_derived_key_complete :
      (stack i k : ℕ) (key : Bytes)
      → k < stack
      → Finds i k key
      → get_derived_key lib stack master path i ≡ ok (key, index_after i k)
  unfolding get_derived_key index_after
  get_derived_key_complete zero i k key lt f = absurd (omega arith)
  get_derived_key_complete (suc stack) i zero key lt f = rw (f.found)
  get_derived_key_complete (suc stack) i (suc k) key lt f = rw (f.skipped 0 (omega arith)) (
      get_derived_key_complete stack ((i + 1) % 2 ^ 64) k key (omega arith)
        (record { found = f.found; skipped = λ n h. f.skipped (suc n) (omega arith) }))

  -- A search from an index that was found stays there.
  pub get_derived_key_again :
      (stack i : ℕ) (key : Bytes) (j : ℕ)
      → get_derived_key lib stack master path i ≡ ok (key, j)
      → get_derived_key lib stack master path j ≡ ok (key, j)
  unfolding get_derived_key
  get_derived_key_again zero i key j h = cc
  get_derived_key_again (suc stack) i key j h =
      let (k, lt, at, f) = get_derived_key_sound (suc stack) i key j h in
      let e : derive_at lib master path j ≡ some (reached key) = rw at f.found in rw e
