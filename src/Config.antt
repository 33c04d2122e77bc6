-- ===== src/Config.antt =====
-- config/parameter.go: a parameter of the configuration, its default per network and the reading of its
-- value from text. fmt, strconv, regexp and the equality of Go's types are the parameter `lib`.
pub mod Parameters
pub mod Sections
use text.Mathlib.Text.{◌==◌}
use Prim.Native.String.{len}
use node_manager_core.Base.{
  ℕ, String, Bool, true, false, Option, none, some, List, [], ◌∷◌, if◌then◌else◌, ltb, ◌&&◌, not,
  ◌>>=◌,
}

-- The types in the switch of `deserializeToType`; `named` is any other type. Named types are not told
-- apart, so that the panic of a `SetValue` between two of them is left out.
pub data Kind : Type 0 where
  int64 uint64 uint16 boolean float64 string named : Kind

-- `is_match` gives nothing where regexp.MustCompile panics, `parse` where strconv returns an error.
pub record GoValues : Type 1 where
  pub Value : Type 0
  pub zero_value : Kind → Value
  pub of_text : String → Value
  pub has_kind : Kind → Value → Bool
  pub equal : Value → Value → Bool
  pub sprint : Value → String
  pub parse : Kind → String → Option Value
  pub is_match : String → String → Option Bool

pub data ParseError : Type 0 where
  invalid_option is_blank too_long no_match invalid_syntax : String → ParseError

-- `panicked` stands for a Go panic.
pub data Parsed (A : Type 0) : Type 0 where
  parsed : A → Parsed A
  refused : ParseError → Parsed A
  panicked : Parsed A

-- `Network_All`.
abbrev pub network_all : String
network_all = "all"

-- A negative `MaxLength` means the same as 0: no limit.
pub record Parameter (V : Type 0) : Type 0 where
  pub id : String
  pub name : String
  pub description : String
  pub max_length : ℕ
  pub regex : String
  pub advanced : Bool
  pub affects_containers : List String
  pub environment_variables : List String
  pub can_be_blank : Bool
  pub overwrite_on_upgrade : Bool
  pub descriptions_by_network : List (String × String)
  pub kind : Kind
  pub defaults : List (String × V)
  pub value : V
  pub options : List V

module _ {V : Type 0} where
  abbrev pub lookup : String → List (String × V) → Option V
  lookup k [] = none
  lookup k ((j, v) ∷ m) = if j == k then some v else lookup k m

  abbrev pub or_else : Option V → Option V → Option V
  or_else none o = o
  or_else (some v) o = some v

  abbrev pub or_value : Option V → V → V
  or_value none v = v
  or_value (some w) v = w

module _ {V : Type 0} where
  unfoldable pub update_description : Parameter V → String → Parameter V
  update_description p network = record p {
    description = or_value (lookup network p.descriptions_by_network) p.description;
  }

  -- Nothing where the source panics.
  unfoldable pub get_default : Parameter V → String → Option V
  get_default p network = or_else (lookup network p.defaults) (lookup network_all p.defaults)

  abbrev set_to : Parameter V → V → Option (Parameter V)
  set_to p v = some (record p { value = v })

  unfoldable pub set_to_default : Parameter V → String → Option (Parameter V)
  unfolding get_default
  set_to_default p network = get_default p network >>= set_to p

abbrev pub Param : GoValues → Type 0
Param lib = Parameter lib.Value

module _ (lib : GoValues) where
  unfoldable pub to_text : Param lib → String
  to_text p = lib.sprint p.value

  -- A network without a default of its own or for all networks has the zero value here.
  unfoldable pub default_or_zero : Param lib → String → lib.Value
  default_or_zero p network =
      or_value (lookup network p.defaults)
        (or_value (lookup network_all p.defaults) (lib.zero_value p.kind))

  unfoldable pub change_network : Param lib → String → String → Param lib
  unfolding update_description
  change_network p old_network new_network =
      let new_default = default_or_zero p new_network in
      update_description
        (if lib.equal p.value (default_or_zero p old_network)
          then record p { value = new_default }
          else p)
        new_network

  -- Nothing where the value has another type and the source panics.
  unfoldable pub set_value : Param lib → lib.Value → Option (Param lib)
  set_value p v = if lib.has_kind p.kind v then some (record p { value = v }) else none

  unfoldable pub find_option : String → List lib.Value → Option lib.Value
  find_option s [] = none
  find_option s (v ∷ vs) = if lib.sprint v == s then some v else find_option s vs

  abbrev or_refused : ParseError → Option lib.Value → Parsed lib.Value
  or_refused e none = refused e
  or_refused e (some v) = parsed v

  -- A text that matches leaves the value as declared: the zero value.
  abbrev matched : String → Option Bool → Parsed lib.Value
  matched s none = panicked
  matched s (some false) = refused (no_match s)
  matched s (some true) = parsed (lib.zero_value string)

  unfoldable pub deserialize_text : Param lib → String → Parsed lib.Value
  deserialize_text p s =
      if p.can_be_blank && s == ""
      then parsed (lib.of_text "")
      else if ltb 0 p.max_length && ltb p.max_length (len s)
      then refused (too_long s)
      else if not (p.regex == "")
      then matched s (lib.is_match p.regex s)
      else parsed (lib.of_text s)

  deserialize_kind : Kind → Param lib → String → Parsed lib.Value
  deserialize_kind string p s = deserialize_text p s
  deserialize_kind named p s = parsed (lib.zero_value named)
  deserialize_kind int64 p s = or_refused (invalid_syntax s) (lib.parse int64 s)
  deserialize_kind uint64 p s = or_refused (invalid_syntax s) (lib.parse uint64 s)
  deserialize_kind uint16 p s = or_refused (invalid_syntax s) (lib.parse uint16 s)
  deserialize_kind boolean p s = or_refused (invalid_syntax s) (lib.parse boolean s)
  deserialize_kind float64 p s = or_refused (invalid_syntax s) (lib.parse float64 s)

  deserialize_free : Param lib → String → Parsed lib.Value
  deserialize_free p s =
      if not p.can_be_blank && s == "" then refused (is_blank s) else deserialize_kind p.kind p s

  deserialize_options : List lib.Value → Param lib → String → Parsed lib.Value
  deserialize_options [] p s = deserialize_free p s
  deserialize_options (v ∷ vs) p s = or_refused (invalid_option s) (find_option s (v ∷ vs))

  unfoldable pub deserialize_to_type : Param lib → String → Parsed lib.Value
  unfolding deserialize_options deserialize_free deserialize_kind deserialize_text find_option
  deserialize_to_type p s = deserialize_options p.options p s

  abbrev is_nonempty : List lib.Value → Bool
  is_nonempty [] = false
  is_nonempty (v ∷ vs) = true

  abbrev or_panic : Option (Param lib) → Parsed (Param lib)
  or_panic none = panicked
  or_panic (some p) = parsed p

  -- What `Deserialize` does with the result of `deserializeToType`.
  deserialize_result : Param lib → String → String → Parsed lib.Value → Parsed (Param lib)
  deserialize_result p s network (parsed v) = parsed (record p { value = v })
  deserialize_result p s network panicked = panicked
  deserialize_result p s network (refused e) =
      if is_nonempty p.options
      then or_panic (set_to_default p network)
      else if not p.can_be_blank && s == ""
      then or_panic (set_to_default p network)
      else refused e

  -- The parameter that is left; an error leaves it as it was.
  unfoldable pub deserialize : Param lib → String → String → Parsed (Param lib)
  unfolding deserialize_result set_to_default deserialize_to_type
  deserialize p s network = deserialize_result p s network (deserialize_to_type p s)

  -- The default that a network gets is put before the older ones.
  abbrev with_default : Param lib → String → Parsed lib.Value → Parsed (Param lib)
  with_default p network (parsed v) = parsed (record p { defaults = (network, v) ∷ p.defaults })
  with_default p network (refused e) = refused e
  with_default p network panicked = panicked

  unfoldable pub set_default_value_for_network : Param lib → String → String → Parsed (Param lib)
  unfolding deserialize_to_type
  set_default_value_for_network p s network = with_default p network (deserialize_to_type p s)
