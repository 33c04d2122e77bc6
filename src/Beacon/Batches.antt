-- ===== src/Beacon/Batches.antt =====
-- The batches of `getValidatorsByOpts`, in whatever order they finish.
use node_manager_core.Base.{
  ℕ, zero, suc, ◌+◌, ◌≡◌, ◌≢◌, ◌<◌, ◌≤◌, refl, sym, ap, ◌∙◌, String, Option, none, some, List, [],
  ◌∷◌, length, ◌>>=◌, All, Option-cases, ◌⊎◌, inl, inr, arith,
}
use node_manager_core.Base.Reorders.{Inserted, here, there, Reorders, nothing, put, All-Reorders}
use node_manager_core.Beacon.{Answer, answered, failed, write_at, place, gather, first}

pub bind_cong :
    {A B : Type 0} (m : Option A) (f g : A → Option B)
    → ((a : A) → f a ≡ g a)
    → (m >>= f) ≡ (m >>= g)
bind_cong none f g h = refl
bind_cong (some a) f g h = h a

pub bind_assoc :
    {A B C : Type 0} (m : Option A) (f : A → Option B) (g : B → Option C)
    → ((m >>= f) >>= g) ≡ (m >>= (λ a. f a >>= g))
bind_assoc none f g = refl
bind_assoc (some a) f g = refl

bind_some : {A : Type 0} (m : Option A) → (m >>= (λ a. some a)) ≡ m
bind_some none = refl
bind_some (some a) = refl

-- The answer to the batch at a position.
abbrev pub Done : Type 0 → Type 0
Done V = ℕ × Answer (List V)

module _ {V : Type 0} where
  abbrev pub items : Answer (List V) → List V
  items (answered vs) = vs
  items (failed e) = []

  -- The error that came first.
  abbrev pub first_error : Option String → List (Done V) → Option String
  first_error e [] = e
  first_error e ((i, answered vs) ∷ ds) = first_error e ds
  first_error e ((i, failed x) ∷ ds) = first_error (first e x) ds

  -- Only the slots, without the error.
  unfoldable pub fill : List (Done V) → List (Option V) → Option (List (Option V))
  fill [] s = some s
  fill ((i, a) ∷ ds) s = place i (items a) s >>= fill ds

  abbrev pub with_error :
      Option String → Option (List (Option V)) → Option (List (Option V) × Option String)
  with_error e none = none
  with_error e (some s) = some (s, e)

  pub gather-fill :
      (ds : List (Done V)) (s : List (Option V)) (e : Option String)
      → gather ds s e ≡ with_error (first_error e ds) (fill ds s)
  unfolding gather fill place
  gather-fill [] s e = refl
  gather-fill ((i, failed x) ∷ ds) s e = gather-fill ds s (first e x)
  gather-fill ((i, answered vs) ∷ ds) s e = elim (Option-cases (place i vs s)) [
    | inl n ↦ rw n
    | inr (s', p) ↦ rw (p, gather-fill ds s' e)
  ]

  write_write :
      (i j : ℕ) (v w : V) (s : List (Option V))
      → i ≢ j
      → (write_at i v s >>= write_at j w) ≡ (write_at j w s >>= write_at i v)
  unfolding write_at
  write_write i j v w [] n = refl
  write_write zero zero v w (x ∷ s) n = absurd (n refl)
  write_write zero (suc j) v w (x ∷ s) n = ground arith
  write_write (suc i) zero v w (x ∷ s) n = ground arith
  write_write (suc i) (suc j) v w (x ∷ s) n =
      let h = write_write i j v w s (λ e. n (ap suc e)) in ground (arith, h)

  place_write :
      (i j : ℕ) (vs : List V) (w : V) (s : List (Option V))
      → (j < i) ⊎ (i + length vs ≤ j)
      → (place i vs s >>= write_at j w) ≡ (write_at j w s >>= place i vs)
  unfolding place
  place_write i j [] w s h = sym (bind_some (write_at j w s))
  place_write i j (v ∷ vs) w s h =
      bind_assoc (write_at i v s) (place (suc i) vs) (write_at j w)
      ∙ bind_cong (write_at i v s) (λ t. place (suc i) vs t >>= write_at j w)
          (λ t. write_at j w t >>= place (suc i) vs)
          (λ t. place_write (suc i) j vs w t (ground (arith, h)))
      ∙ sym (bind_assoc (write_at i v s) (write_at j w) (place (suc i) vs))
      ∙ ap (λ m. m >>= place (suc i) vs) (write_write i j v w s (ground (arith, h)))
      ∙ bind_assoc (write_at j w s) (write_at i v) (place (suc i) vs)

  place-place :
      (i j : ℕ) (vs ws : List V) (s : List (Option V))
      → (i + length vs ≤ j) ⊎ (j + length ws ≤ i)
      → (place i vs s >>= place j ws) ≡ (place j ws s >>= place i vs)
  unfolding place
  place-place i j vs [] s h = bind_some (place i vs s)
  place-place i j vs (w ∷ ws) s h =
      sym (bind_assoc (place i vs s) (write_at j w) (place (suc j) ws))
      ∙ ap (λ m. m >>= place (suc j) ws) (place_write i j vs w s (ground (arith, h)))
      ∙ bind_assoc (write_at j w s) (place i vs) (place (suc j) ws)
      ∙ bind_cong (write_at j w s) (λ t. place i vs t >>= place (suc j) ws)
          (λ t. place (suc j) ws t >>= place i vs)
          (λ t. place-place i (suc j) vs ws t (ground (arith, h)))
      ∙ sym (bind_assoc (write_at j w s) (place (suc j) ws) (place i vs))

  -- Two answers that fill different slots.
  abbrev pub Apart : Done V → Done V → Type 0
  Apart (i, a) (j, b) = (i + length (items a) ≤ j) ⊎ (j + length (items b) ≤ i)

  abbrev pub AllApart : List (Done V) → Type 0
  AllApart [] = Unit
  AllApart (d ∷ ds) = All (Apart d) ds × AllApart ds

  fill-Inserted :
      (x : Done V) (ys zs : List (Done V)) (s : List (Option V))
      → Inserted x ys zs
      → All (Apart x) ys
      → fill zs s ≡ fill (x ∷ ys) s
  unfolding fill
  fill-Inserted x ys _ s (here _) h = refl
  fill-Inserted (i, a) _ _ s (there (j, b) ys zs k) (p, h) =
      bind_cong (place j (items b) s) (fill zs) (λ t. place i (items a) t >>= fill ys)
        (λ t. fill-Inserted (i, a) ys zs t k h)
      ∙ sym (bind_assoc (place j (items b) s) (place i (items a)) (fill ys))
      ∙ ap (λ m. m >>= fill ys) (sym (place-place i j (items a) (items b) s p))
      ∙ bind_assoc (place i (items a) s) (place j (items b)) (fill ys)

  pub fill-Reorders :
      (xs zs : List (Done V)) (s : List (Option V))
      → Reorders xs zs
      → AllApart xs
      → fill zs s ≡ fill xs s
  unfolding fill
  fill-Reorders _ _ s nothing h = refl
  fill-Reorders _ _ s (put (i, a) xs ys zs r k) (p, h) =
      fill-Inserted (i, a) ys zs s k (All-Reorders (Apart (i, a)) xs ys r p)
      ∙ bind_cong (place i (items a) s) (fill ys) (fill xs) (λ t. fill-Reorders xs ys t r h)
