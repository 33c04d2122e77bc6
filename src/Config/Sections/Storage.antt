-- ===== src/Config/Sections/Storage.antt =====
-- Reading and writing a whole section of config/cfg-section.go as a map of texts and maps.
use text.Mathlib.Text.{◌==◌}
use node_manager_core.Base.{String, Option, none, some, List, [], ◌∷◌, if◌then◌else◌}
use node_manager_core.Config.{
  GoValues, Param, Parsed, parsed, refused, panicked, to_text, set_to_default, deserialize,
  set_default_value_for_network,
}
use node_manager_core.Config.Sections.{Section, section, Subconfigs, no_more, subconfig}

-- A Go map of any values: the entry that comes first for a key is the one that it has.
mutual
  pub data Any : Type 0 where
    plain : String → Any
    submap : Entries → Any
    other : Any

  pub data Entries : Type 0 where
    no_entries : Entries
    entry : String → Any → Entries → Entries

unfoldable pub find_entry : String → Entries → Option Any
find_entry k no_entries = none
find_entry k (entry j v es) = if j == k then some v else find_entry k es

pub data ReadError : Type 0 where
  not_a_text : String → ReadError
  bad_parameter : String → ReadError
  not_a_map : String → ReadError

-- A section that is read in place; an error leaves it partly changed.
pub data Read (A : Type 0) : Type 0 where
  all_read : A → Read A
  failed : ReadError → A → Read A
  crashed : Read A

abbrev pub put_first : {A : Type 0} → A → Read (List A) → Read (List A)
put_first p (all_read ps) = all_read (p ∷ ps)
put_first p (failed e ps) = failed e (p ∷ ps)
put_first p crashed = crashed

module _ (lib : GoValues) where
  unfoldable pub serialize_parameters : List (Param lib) → Entries → Entries
  unfolding to_text
  serialize_parameters [] es = es
  serialize_parameters (p ∷ ps) es = serialize_parameters ps (entry p.id (plain (to_text lib p)) es)

  unfoldable mutual
    pub serialize : Section lib → Entries
    serialize (section title ps ss) = serialize_subconfigs ss (serialize_parameters ps no_entries)

    pub serialize_subconfigs : Subconfigs lib → Entries → Entries
    serialize_subconfigs no_more es = es
    serialize_subconfigs (subconfig k s ss) es =
        serialize_subconfigs ss (entry k (submap (serialize s)) es)

  -- What a parameter becomes without an entry, and with a text.
  pub record Reader : Type 0 where
    pub without : Param lib → Parsed (Param lib)
    pub with : Param lib → String → Parsed (Param lib)

  abbrev after_parameter :
      Param lib
      → List (Param lib)
      → Parsed (Param lib)
      → Read (List (Param lib))
      → Read (List (Param lib))
  after_parameter p ps (parsed p') rest = put_first p' rest
  after_parameter p ps (refused e) rest = failed (bad_parameter p.id) (p ∷ ps)
  after_parameter p ps panicked rest = crashed

  abbrev pub read_parameter :
      Reader
      → Param lib
      → List (Param lib)
      → Option Any
      → Read (List (Param lib))
      → Read (List (Param lib))
  read_parameter r p ps none rest = after_parameter p ps (r.without p) rest
  read_parameter r p ps (some (plain s)) rest = after_parameter p ps (r.with p s) rest
  read_parameter r p ps (some (submap es)) rest = failed (not_a_text p.id) (p ∷ ps)
  read_parameter r p ps (some other) rest = failed (not_a_text p.id) (p ∷ ps)

  unfoldable pub read_parameters : Reader → List (Param lib) → Entries → Read (List (Param lib))
  unfolding find_entry
  read_parameters r [] es = all_read []
  read_parameters r (p ∷ ps) es =
      read_parameter r p ps (find_entry p.id es) (read_parameters r ps es)

  abbrev with_subconfigs :
      String → Subconfigs lib → Read (List (Param lib)) → Read (Subconfigs lib) → Read (Section lib)
  with_subconfigs title ss crashed rest = crashed
  with_subconfigs title ss (failed e ps) rest = failed e (section title ps ss)
  with_subconfigs title ss (all_read ps) crashed = crashed
  with_subconfigs title ss (all_read ps) (failed e ts) = failed e (section title ps ts)
  with_subconfigs title ss (all_read ps) (all_read ts) = all_read (section title ps ts)

  abbrev kept : String → Section lib → Read (Subconfigs lib) → Read (Subconfigs lib)
  kept k s (all_read ss) = all_read (subconfig k s ss)
  kept k s (failed e ss) = failed e (subconfig k s ss)
  kept k s crashed = crashed

  abbrev after_section :
      String → Subconfigs lib → Read (Section lib) → Read (Subconfigs lib) → Read (Subconfigs lib)
  after_section k ss (all_read s) rest = kept k s rest
  after_section k ss (failed e s) rest = failed e (subconfig k s ss)
  after_section k ss crashed rest = crashed

  abbrev pub read_subconfig :
      String
      → Section lib
      → Subconfigs lib
      → (Entries → Read (Section lib))
      → Option Any
      → Read (Subconfigs lib)
      → Read (Subconfigs lib)
  read_subconfig k s ss inner none rest = kept k s rest
  read_subconfig k s ss inner (some (submap es)) rest = after_section k ss (inner es) rest
  read_subconfig k s ss inner (some (plain t)) rest = failed (not_a_map k) (subconfig k s ss)
  read_subconfig k s ss inner (some other) rest = failed (not_a_map k) (subconfig k s ss)

  unfoldable mutual
    unfolding read_parameters find_entry

    pub read_section : Reader → Section lib → Entries → Read (Section lib)
    read_section r (section title ps ss) es =
        with_subconfigs title ss (read_parameters r ps es) (read_subconfigs r ss es)

    pub read_subconfigs : Reader → Subconfigs lib → Entries → Read (Subconfigs lib)
    read_subconfigs r no_more es = all_read no_more
    read_subconfigs r (subconfig k s ss) es =
        read_subconfig k s ss (λ m. read_section r s m) (find_entry k es) (read_subconfigs r ss es)

  abbrev or_panicked : Option (Param lib) → Parsed (Param lib)
  or_panicked none = panicked
  or_panicked (some p) = parsed p

  -- A parameter that is missing gets its default.
  unfoldable pub deserialize_section : Section lib → Entries → String → Read (Section lib)
  unfolding read_section deserialize set_to_default
  deserialize_section s es network =
      read_section
        (record {
          without = λ p. or_panicked (set_to_default p network);
          with = λ p t. deserialize lib p t network;
        })
        s es

  -- A parameter that is missing stays as it is.
  unfoldable pub set_defaults_for_networks : Section lib → Entries → String → Read (Section lib)
  unfolding read_section set_default_value_for_network
  set_defaults_for_networks s es network =
      read_section
        (record {
          without = λ p. parsed p;
          with = λ p t. set_default_value_for_network lib p t network;
        })
        s es
