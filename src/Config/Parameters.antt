-- ===== src/Config/Parameters.antt =====
-- What reading, saving and moving between networks do to one parameter of config/parameter.go.
use text.Mathlib.Text.{◌==◌}
use text.Mathlib.TextEquality.{eq_iff}
use text.Mathlib.TextPositions.{eq_refl}
use Prim.Native.String.{len}
use node_manager_core.Base.{
  ◌≡◌, ◌≢◌, refl, subst, ◌⊎◌, inl, inr, String, true, false, some, List, [], ◌∷◌, arith,
  if◌then◌else◌, ltb, ◌&&◌,
}
use node_manager_core.Config.{
  Kind, int64, uint64, uint16, boolean, float64, string, named, GoValues, Param, parsed, to_text,
  find_option, deserialize_text, deserialize_to_type, deserialize, change_network,
  update_description, default_or_zero,
}

module _ (lib : GoValues) where
  abbrev IsFaithfulAt : Kind → Type 0
  IsFaithfulAt k = (v : lib.Value) → lib.has_kind k v ≡ true → lib.parse k (lib.sprint v) ≡ some v

  -- strconv reads back what fmt prints for the types in the switch, and fmt prints a string as it is.
  pub record IsFaithful : Type 0 where
    pub parse : (k : Kind) → k ≢ string → k ≢ named → IsFaithfulAt k
    pub sprint_text : (s : String) → lib.sprint (lib.of_text s) ≡ s

  -- Options with different texts.
  abbrev pub IsOption : lib.Value → List lib.Value → Type 0
  IsOption v [] = ⊥
  IsOption v (w ∷ ws) = (v ≡ w) ⊎ ((lib.sprint w ≢ lib.sprint v) × IsOption v ws)

  -- The values that a parameter may be saved with: an option that no other option shares its text
  -- with; or a value of one of the types in the switch, blank only if allowed; for a string, within
  -- the length limit and without a Regex.
  pub data IsSavable (p : Param lib) : lib.Value → Type 0 where
    choice :
        (o : lib.Value) (os : List lib.Value) (v : lib.Value)
        → p.options ≡ (o ∷ os)
        → IsOption v (o ∷ os)
        → IsSavable p v
    number :
        (v : lib.Value)
        → p.options ≡ []
        → p.kind ≢ string
        → p.kind ≢ named
        → lib.has_kind p.kind v ≡ true
        → (lib.sprint v == "") ≡ false
        → IsSavable p v
    free_text :
        (s : String)
        → p.options ≡ []
        → p.kind ≡ string
        → (p.regex == "") ≡ true
        → (ltb 0 p.max_length && ltb p.max_length (len s)) ≡ false
        → (p.can_be_blank ≡ true) ⊎ ((s == "") ≡ false)
        → IsSavable p (lib.of_text s)

  find_option-IsOption :
      (v : lib.Value) (ws : List lib.Value)
      → IsOption v ws
      → find_option lib (lib.sprint v) ws ≡ some v
  unfolding find_option
  find_option-IsOption v [] h = elim h [ ]
  find_option-IsOption v (w ∷ ws) (inl e) =
      subst (λ x. find_option lib (lib.sprint v) (x ∷ ws) ≡ some v) e
        (ground (arith, eq_refl (lib.sprint v)))
  find_option-IsOption v (w ∷ ws) (inr (n, h)) =
      ground (arith, eq_iff (lib.sprint w) (lib.sprint v), find_option-IsOption v ws h)

  read_text :
      (p : Param lib) (s : String)
      → (p.regex == "") ≡ true
      → (ltb 0 p.max_length && ltb p.max_length (len s)) ≡ false
      → deserialize_text lib p s ≡ parsed (lib.of_text s)
  unfolding deserialize_text
  read_text p s r l = ground (arith, eq_iff s "")

  read_number :
      (k : Kind) (p : Param lib) (v : lib.Value)
      → IsFaithful
      → p.kind ≡ k
      → p.options ≡ []
      → k ≢ string
      → k ≢ named
      → lib.has_kind k v ≡ true
      → (lib.sprint v == "") ≡ false
      → deserialize_to_type lib p (lib.sprint v) ≡ parsed v
  unfolding deserialize_to_type
  read_number int64 p v f e o n m t b = ground (arith, f.parse int64 n m v t)
  read_number uint64 p v f e o n m t b = ground (arith, f.parse uint64 n m v t)
  read_number uint16 p v f e o n m t b = ground (arith, f.parse uint16 n m v t)
  read_number boolean p v f e o n m t b = ground (arith, f.parse boolean n m v t)
  read_number float64 p v f e o n m t b = ground (arith, f.parse float64 n m v t)
  read_number string p v f e o n m t b = absurd (n refl)
  read_number named p v f e o n m t b = absurd (m refl)

  reads_back :
      (p : Param lib) (v : lib.Value)
      → IsFaithful
      → IsSavable p v
      → deserialize_to_type lib p (lib.sprint v) ≡ parsed v
  unfolding deserialize_to_type
  reads_back p v f (choice o os _ e i) = ground (arith, find_option-IsOption v (o ∷ os) i)
  reads_back p v f (number _ o n m t b) = read_number p.kind p v f refl o n m t b
  reads_back p _ f (free_text s o k r l b) =
      ground (arith, f.sprint_text s, read_text p s r l, eq_iff s "")

  -- The text of a savable value, read back by the same parameter whatever value it holds meanwhile,
  -- gives the parameter that value and changes nothing else, if fmt and strconv are faithful.
  pub deserialize-to_text :
      (p : Param lib) (v : lib.Value) (network : String)
      → IsFaithful
      → IsSavable p v
      → let q : Param lib = record p { value = v } in
        deserialize lib p (to_text lib q) network ≡ parsed q
  unfolding to_text deserialize
  deserialize-to_text p v network f s = rw (reads_back p v f s)

  -- A change of network and back restores the value if it was the first network's default; it restores
  -- a value of the user's own too, except the second network's default, which turns into the first's.
  pub change_network_back :
      (p : Param lib) (a b : String)
      → lib.equal (default_or_zero lib p b) (default_or_zero lib p b) ≡ true
      → (change_network lib (change_network lib p a b) b a).value ≡ (
          if lib.equal p.value (default_or_zero lib p a)
          then default_or_zero lib p a
          else if lib.equal p.value (default_or_zero lib p b)
          then default_or_zero lib p a
          else p.value)
  unfolding change_network update_description default_or_zero
  change_network_back p a b h = ground arith
